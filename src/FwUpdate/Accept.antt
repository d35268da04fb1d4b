-- ===== src/FwUpdate/Accept.antt =====
-- What `validate_file` has established of an open file that it accepts.
use ruuvi_air_mcuboot.Platform.Files.{Whence}
use ruuvi_air_mcuboot.Prelude.{M}
use ruuvi_air_mcuboot.Prelude.{Bool, Option, none, some, ℤ, lift}
use ruuvi_air_mcuboot.Prelude.{ℕ, ◌+◌, ◌≤◌, ◌<◌, ◌^◌, ◌%◌, ◌≡◌, inl, inr, refl, sym, subst}
use ruuvi_air_mcuboot.Prelude.{true, false, not, ◌&&◌, ◌>>=◌, some, none, List, length, slice}
use ruuvi_air_mcuboot.Prelude.{
  arith, Runs, pure, lift, Bool-cases, ltb, leb, ◌==◌, if◌then◌else◌, to_u32, add32,
}
use ruuvi_air_mcuboot.Prelude.{ℤ, pos, is_neg, is_zero, is_neg_of_error, is_zero_of_error}
use ruuvi_air_mcuboot.Platform.Format.{ImageFormat, IsFormat, IsHeader}
use ruuvi_air_mcuboot.Platform.Files.{FileApi, ReadResult, Sought, DidRead, IsOpenFile, IsOpen}
use ruuvi_air_mcuboot.Platform.Crypto.{
  Crypto, IsCrypto, FihRet, fih_success, fih_failure, is_success,
}
use ruuvi_air_mcuboot.Platform.System.{SystemApi, Config}
use ruuvi_air_mcuboot.Validate.Hash.{signed_size}
use ruuvi_air_mcuboot.Validate.Sound.{Valid, file_img_validate_sound}
use ruuvi_air_mcuboot.HwRev.Defs.{no_hw_rev}
use ruuvi_air_mcuboot.HwRev.Total.{fw_img_hw_rev_find_in_file_lem}
use ruuvi_air_mcuboot.FwUpdate.Checks.{
  tmpbuf_size, u32_le, Checked, Loaded, is_reset_inside, validate_image, validate_open_file,
}
use ruuvi_air_mcuboot.FwUpdate.Header.{IsLoaded}

is_success-eq : (r : FihRet) → is_success r ≡ true → r ≡ fih_success
is_success-eq fih_success e = refl
is_success-eq fih_failure e = cc

same_if : {W A : Type 0} (t : Bool) (a : A) → (if not t then pure {W = W} a else pure a) ≡ pure a
same_if true a = refl
same_if false a = refl

module _ (fmt : ImageFormat) (lawful : IsFormat fmt) (c : Crypto) (crypto : IsCrypto c)
    (cfg : Config) {W : Type 0} (files : FileApi W) (sys : SystemApi W) (f : ℕ) (content : List ℕ)
    (At : W → ℕ → Type 0) (file : IsOpenFile files f content At) where
  module _ (dst_fa_addr dst_fa_size : ℕ) (l : Loaded)
      (loaded : IsLoaded fmt lawful c crypto cfg files sys f content At file l) where
    -- What an accepted file shows: its image is smaller than the flash area, its reset address, the second
    -- word of the image, lies in the area, and the image is valid.
    pub record IsAccepted : Type 0 where
      pub small : l.img_size < dst_fa_size
      pub from : dst_fa_addr ≤ u32_le (slice content (l.hdr.ih_hdr_size + 4) 4)
      pub to :
          u32_le (slice content (l.hdr.ih_hdr_size + 4) 4) < (dst_fa_addr + dst_fa_size) % 2 ^ 32
      pub valid : Valid fmt content l.hdr c f dst_fa_size none (pos 0)

    abbrev pub Judged : Checked → W → Type 0
    Judged a w =
        (a.ok ≡ true → IsAccepted × (a.facts.img_hdr ≡ some l.hdr)) × IsOpen files f content At w

    hdr-IsHeader : IsHeader l.hdr
    hdr-IsHeader =
        subst IsHeader (sym loaded.hdr_eq) (lawful.header (slice content 0 fmt.header_size))

    validate_image_lem :
        (w : W)
        → IsOpen files f content At w
        → Runs
            (λ a w'.
              (a.ok ≡ true
                → Valid fmt content l.hdr c f dst_fa_size none (pos 0)
                  × (a.facts.img_hdr ≡ some l.hdr))
              × IsOpen files f content At w')
            (validate_image fmt c cfg files sys f dst_fa_size l.hdr w)
    unfolding validate_image
    validate_image_lem w at =
        let (a, w', run, (named, complete, at')) =
          fw_img_hw_rev_find_in_file_lem fmt lawful cfg files f content At file no_hw_rev w refl
            at in
        let (r, w'', run', (valid, at'')) =
          file_img_validate_sound fmt lawful content l.hdr hdr-IsHeader c crypto files f At file
            dst_fa_size tmpbuf_size (omega arith) (omega arith) none (pos 0) w' sum at' in
        rw (run, ◌>>=◌, run', ◌>>=◌) (_, _, refl, ((λ z. (valid (is_success-eq r z), refl)), at''))
      where
        sum : signed_size l.hdr < 2 ^ 32
        sum = omega (arith, hdr-IsHeader.protect_u16, loaded.img_size_eq, loaded.inside, file.short)

    abbrev bad : Checked
    bad = record { ok = false; facts = record { img_hdr = some l.hdr; hw_rev = no_hw_rev } }

    reset_read :
        (q : ReadResult × W)
        → l.img_size < dst_fa_size
        → DidRead files f content At (l.hdr.ih_hdr_size + 4) 4 q
        → Runs Judged (
            (if is_neg q.0.rc
                then pure bad
                else if not (to_u32 q.0.rc == 4)
                then pure bad
                else if not (is_reset_inside dst_fa_addr dst_fa_size (u32_le q.0.bytes))
                then pure bad
                else do
                  a ← validate_image fmt c cfg files sys f dst_fa_size l.hdr
                  if not a.ok then pure a else pure a)
              q.1)
    unfolding is_reset_inside
    reset_read (r, w) small (inl (e, at)) =
        rw (is_neg_of_error r.rc e) (_, _, refl, ((λ z. cc), (_, at)))
    reset_read (r, w) small (inr (e, b, at)) =
        elim (Bool-cases (to_u32 (pos (length r.bytes)) == 4)) [
          | inr e' ↦ rw (e, e') (_, _, refl, ((λ z. cc), (_, at)))
          | inl e' ↦
              elim (Bool-cases
                (leb dst_fa_addr reset && ltb reset (add32 dst_fa_addr dst_fa_size))) [
                  | inr e'' ↦ rw (e, e', e'') (_, _, refl, ((λ z. cc), (_, at)))
                  | inl e'' ↦
                      let (a, w', run, (valid, at')) = validate_image_lem w (_, at) in
                      rw (e, e', e'', run, ◌>>=◌)
                        (rw (same_if a.ok a)
                          (a, w', refl, ((λ z. (accepted (valid z).0 e'', (valid z).1)), at')))
                ]
        ]
      where
        reset : ℕ
        reset = u32_le r.bytes

        accepted :
            Valid fmt content l.hdr c f dst_fa_size none (pos 0)
            → (leb dst_fa_addr reset && ltb reset (add32 dst_fa_addr dst_fa_size)) ≡ true
            → IsAccepted
        accepted valid e'' = record {
          small = small;
          from = subst (λ bs. dst_fa_addr ≤ u32_le bs) b (ground arith);
          to = subst (λ bs. u32_le bs < (dst_fa_addr + dst_fa_size) % 2 ^ 32) b (ground arith);
          valid = valid;
        }

    after_reset_seek :
        (p : ℕ) (q : ℤ × W)
        → l.img_size < dst_fa_size
        → Sought files f content At p (l.hdr.ih_hdr_size + 4) q
        → Runs Judged (
            (if not (is_zero q.0) then pure bad else do
              r ← lift (files.fs_read f 4)
              if is_neg r.rc
                  then pure bad
                  else if not (to_u32 r.rc == 4)
                  then pure bad
                  else if not (is_reset_inside dst_fa_addr dst_fa_size (u32_le r.bytes))
                  then pure bad
                  else do
                    a ← validate_image fmt c cfg files sys f dst_fa_size l.hdr
                    if not a.ok then pure a else pure a)
              q.1)
    after_reset_seek p (rc, w) small (inl (e, at)) =
        rw (is_zero_of_error rc e) (_, _, refl, ((λ z. cc), (_, at)))
    after_reset_seek p (rc, w) small (inr (e, at)) =
        rw e (reset_read _ small (file.read_lem w (l.hdr.ih_hdr_size + 4) 4 at))

    -- On an open file with the header loaded from it, the checks of `validate_file`, before the
    -- closing of the file at each return, return although every call may fail, and leave the file
    -- open. Where they accept the file, header and image
    -- together are smaller than the flash area, the reset address, the second word behind the
    -- header, lies in the area, and the image is valid: hashed and signed as `Valid` says. The
    -- header handed on is that of the file.
    pub validate_open_file_lem :
        (w : W)
        → IsOpen files f content At w
        → Runs Judged (validate_open_file fmt c cfg files sys pure f dst_fa_addr dst_fa_size l w)
    unfolding validate_open_file
    validate_open_file_lem w (p, at) = elim (Bool-cases (leb dst_fa_size l.img_size)) [
      | inl e ↦ rw e (_, _, refl, ((λ z. cc), (p, at)))
      | inr e ↦
          rw e
            (after_reset_seek p _ (ground arith) (file.seek_set_lem w p (l.hdr.ih_hdr_size + 4) at))
    ]

pub leave_lem :
    {W : Type 0} (fmt : ImageFormat) (c : Crypto) (cfg : Config) (files : FileApi W)
    (sys : SystemApi W) (leave : Checked → M W Checked) (f addr size : ℕ) (l : Loaded) (w : W)
    → validate_open_file fmt c cfg files sys leave f addr size l w
      ≡ (validate_open_file fmt c cfg files sys pure f addr size l >>= leave) w
unfolding validate_open_file
leave_lem {W} fmt c cfg files sys leave f addr size l w = elim (Bool-cases (leb size l.img_size)) [
  | inl e ↦ rw e refl
  | inr e ↦ rw e (
      after_seek (files.fs_seek f (l.hdr.ih_hdr_size + 4) Whence.seek_set w).0
        (files.fs_seek f (l.hdr.ih_hdr_size + 4) Whence.seek_set w).1)
]
  where
    bad : Checked
    bad = record { ok = false; facts = record { img_hdr = some l.hdr; hw_rev = no_hw_rev } }

    at_end :
        (r : Option (Checked × W))
        → (elim r as (λ _. Option (Checked × W)) [
          | none ↦ none
          | some (a, v) ↦ (if not a.ok then leave a else leave a) v
        ])
          ≡ (elim (elim r as (λ _. Option (Checked × W)) [
            | none ↦ none
            | some (a, v) ↦ (if not a.ok then pure a else pure a) v
          ])
              as (λ _. Option (Checked × W)) [ none ↦ none | some (a, v) ↦ leave a v ])
    at_end none = refl
    at_end (some (a, v)) = elim (Bool-cases a.ok) [ inl e ↦ rw e refl | inr e ↦ rw e refl ]

    after_read :
        (r : ReadResult) (v : W)
        → (if is_neg r.rc
              then leave bad
              else if not (to_u32 r.rc == 4)
              then leave bad
              else if not (is_reset_inside addr size (u32_le r.bytes))
              then leave bad
              else do
                a ← validate_image fmt c cfg files sys f size l.hdr
                if not a.ok then leave a else leave a)
            v
          ≡ ((if is_neg r.rc
                  then pure bad
                  else if not (to_u32 r.rc == 4)
                  then pure bad
                  else if not (is_reset_inside addr size (u32_le r.bytes))
                  then pure bad
                  else do
                    a ← validate_image fmt c cfg files sys f size l.hdr
                    if not a.ok then pure a else pure a)
                >>= leave)
              v
    after_read r v = elim (Bool-cases (is_neg r.rc)) [
      | inl e ↦ rw e refl
      | inr e ↦ elim (Bool-cases (to_u32 r.rc == 4)) [
        | inr e' ↦ rw (e, e') refl
        | inl e' ↦ elim (Bool-cases (is_reset_inside addr size (u32_le r.bytes))) [
          | inr e'' ↦ rw (e, e', e'') refl
          | inl e'' ↦ rw (e, e', e'') (at_end (validate_image fmt c cfg files sys f size l.hdr v))
        ]
      ]
    ]

    after_seek :
        (rc : ℤ) (v : W)
        → (if not (is_zero rc) then leave bad else do
          r ← lift (files.fs_read f 4)
          if is_neg r.rc
              then leave bad
              else if not (to_u32 r.rc == 4)
              then leave bad
              else if not (is_reset_inside addr size (u32_le r.bytes))
              then leave bad
              else do
                a ← validate_image fmt c cfg files sys f size l.hdr
                if not a.ok then leave a else leave a)
            v
          ≡ ((if not (is_zero rc) then pure bad else do
            r ← lift (files.fs_read f 4)
            if is_neg r.rc
                then pure bad
                else if not (to_u32 r.rc == 4)
                then pure bad
                else if not (is_reset_inside addr size (u32_le r.bytes))
                then pure bad
                else do
                  a ← validate_image fmt c cfg files sys f size l.hdr
                  if not a.ok then pure a else pure a)
                >>= leave)
              v
    after_seek rc v = elim (Bool-cases (is_zero rc)) [
      | inr e ↦ rw e refl
      | inl e ↦ rw e (after_read (files.fs_read f 4 v).0 (files.fs_read f 4 v).1)
    ]
