-- ===== src/FwUpdate/Header.antt =====
-- The loading of an image header from a file by src/mcuboot_fw_update.c, and the file's size.
use ruuvi_air_mcuboot.Prelude.{ℕ, ◌+◌, ◌≤◌, ◌<◌, ◌^◌, ◌≡◌, ◌⊎◌, inl, inr, refl, ap}
use ruuvi_air_mcuboot.Prelude.{false, not, ◌>>=◌, some, none, Option, List, length, slice}
use ruuvi_air_mcuboot.Prelude.{
  arith, Runs, M, pure, lift, Bool-cases, Option-cases, ltb, ◌==◌, if◌then◌else◌, to_u32,
}
use ruuvi_air_mcuboot.Prelude.{ℤ, pos, is_neg, is_zero, is_neg_of_error, is_zero_of_error}
use ruuvi_air_mcuboot.Platform.Format.{ImageHeader, ImageFormat, IsFormat, IsHeader}
use ruuvi_air_mcuboot.Platform.Files.{
  FileApi, Whence, ReadResult, Sought, DidRead, IsOpenFile, IsOpen,
}
use ruuvi_air_mcuboot.Platform.Crypto.{Crypto, IsCrypto}
use ruuvi_air_mcuboot.Platform.System.{SystemApi, Config}
use ruuvi_air_mcuboot.SafeAdd.{boot_u32_safe_add, boot_u32_safe_add_iff}
use ruuvi_air_mcuboot.BtldrFs.{btldr_fs_get_file_size}
use ruuvi_air_mcuboot.FwUpdate.Checks.{Loaded, header_img_size, load_image_header_from_file}

module _ {W : Type 0} (files : FileApi W) (f : ℕ) (content : List ℕ) (At : W → ℕ → Type 0)
    (file : IsOpenFile files f content At) where
  -- 0 after a failure, or the file's length.
  abbrev Sized : ℤ → W → Type 0
  Sized s w = ((s ≡ pos 0) ⊎ (s ≡ pos (length content))) × IsOpen files f content At w

  after_size_seek :
      (p back : ℕ) (q : ℤ × W)
      → Sought files f content At p (length content) q
      → Runs Sized (
          (if not (is_zero q.0) then pure (pos 0) else do
            size ← lift (files.fs_tell f)
            rc ← lift (files.fs_seek f back Whence.seek_set)
            pure size)
            q.1)
  after_size_seek p back (rc, w) (inl (e, at)) =
      rw (is_zero_of_error rc e) (_, _, refl, (inl refl, (_, at)))
  after_size_seek p back (rc, w) (inr (e, at)) =
      rw (e, file.tell_lem w _ at)
        (
          _,
          _,
          refl,
          (
            inr refl,
            elim (file.seek_set_lem w _ back at) [
              | inl (e', at') ↦ (_, at')
              | inr (e', at') ↦ (_, at')
            ],
          ),
        )

  get_file_size_lem :
      (w : W) → IsOpen files f content At w → Runs Sized (btldr_fs_get_file_size files f w)
  unfolding btldr_fs_get_file_size
  get_file_size_lem w (p, at) =
      rw (file.tell_lem w p at) (after_size_seek p _ _ (file.seek_end_lem w p at))

module _ (fmt : ImageFormat) (lawful : IsFormat fmt) (c : Crypto) (crypto : IsCrypto c)
    (cfg : Config) {W : Type 0} (files : FileApi W) (sys : SystemApi W) (f : ℕ) (content : List ℕ)
    (At : W → ℕ → Type 0) (file : IsOpenFile files f content At) where
  -- What a loaded header shows: it is the one at the start of the file, it is that of a bootable
  -- image, and the file holds header and image.
  pub record IsLoaded (l : Loaded) : Type 0 where
    pub hdr_eq : l.hdr ≡ fmt.parse_header (slice content 0 fmt.header_size)
    pub magic : l.hdr.ih_magic ≡ cfg.image_magic
    pub bootable : cfg.is_non_bootable l.hdr.ih_flags ≡ false
    pub img_size_eq : l.img_size ≡ l.hdr.ih_hdr_size + l.hdr.ih_img_size
    pub inside : l.img_size ≤ length content

  abbrev pub MaybeLoaded : Option Loaded → Type 0
  MaybeLoaded none = Unit {0}
  MaybeLoaded (some l) = IsLoaded l

  abbrev HeaderSum : ImageHeader → Option ℕ → Type 0
  HeaderSum hdr none = Unit {0}
  HeaderSum hdr (some s) =
      (hdr.ih_magic ≡ cfg.image_magic)
      × (cfg.is_non_bootable hdr.ih_flags ≡ false)
      × (s ≡ hdr.ih_hdr_size + hdr.ih_img_size)

  header_img_size-HeaderSum :
      (hdr : ImageHeader) → IsHeader hdr → HeaderSum hdr (header_img_size cfg hdr)
  unfolding header_img_size
  header_img_size-HeaderSum hdr v = elim (Bool-cases (hdr.ih_magic == cfg.image_magic)) [
    | inr e ↦ rw e tt
    | inl e ↦ elim (Bool-cases (cfg.is_non_bootable hdr.ih_flags)) [
      | inl e' ↦ rw (e, e') tt
      | inr e' ↦ elim (Option-cases (boot_u32_safe_add hdr.ih_img_size hdr.ih_hdr_size)) [
        | inl n ↦ rw (e, e', n) tt
        | inr (s, q) ↦ rw (e, e', q) (ground arith, e', sum s q)
      ]
    ]
  ]
    where
      sum :
          (s : ℕ)
          → boot_u32_safe_add hdr.ih_img_size hdr.ih_hdr_size ≡ some s
          → s ≡ hdr.ih_hdr_size + hdr.ih_img_size
      sum s q =
          let small : hdr.ih_hdr_size < 2 ^ 32 = omega (arith, v.hdr_size_u16) in
          let (fit, e) =
            (boot_u32_safe_add_iff hdr.ih_img_size hdr.ih_hdr_size s v.img_size_u32 small).0 q in
          omega arith

  -- From the sum of the header's sizes on.
  sum_found :
      (hdr : ImageHeader) (o : Option ℕ) (w : W)
      → hdr ≡ fmt.parse_header (slice content 0 fmt.header_size)
      → HeaderSum hdr o
      → IsOpen files f content At w
      → Runs
          (λ l w'. MaybeLoaded l × IsOpen files f content At w')
          ((elim o as (λ _. M W (Option Loaded)) [
            | none ↦ pure none
            | some img_size ↦ do
              file_size ← btldr_fs_get_file_size files f
              pure (
                  if ltb (to_u32 file_size) img_size
                  then none
                  else some (record { hdr = hdr; img_size = img_size }))
          ])
            w)
  sum_found hdr none w e v at = (_, _, refl, (tt, at))
  sum_found hdr (some img_size) w e (magic, bootable, sum) at =
      let (s, w', run, (sized, at')) = get_file_size_lem files f content At file w at in
      rw (run, ◌>>=◌)
        (elim (Bool-cases (ltb (to_u32 s) img_size)) [
          | inl e' ↦ rw e' (_, _, refl, (tt, at'))
          | inr e' ↦ rw e' (
            _,
            _,
            refl,
            (
              record {
                hdr_eq = e;
                magic = magic;
                bootable = bootable;
                img_size_eq = sum;
                inside = fits s sized e';
              },
              at',
            ),
          )
        ])
    where
      fits :
          (s : ℤ)
          → (s ≡ pos 0) ⊎ (s ≡ pos (length content))
          → ltb (to_u32 s) img_size ≡ false
          → img_size ≤ length content
      fits s (inl z) e' = ground (arith, ap to_u32 z)
      fits s (inr z) e' = ground (arith, ap to_u32 z, file.short)

  header_loaded :
      (q : ReadResult × W)
      → DidRead files f content At 0 fmt.header_size q
      → Runs
          (λ l w'. MaybeLoaded l × IsOpen files f content At w')
          ((if is_neg q.0.rc
              then pure none
              else if not (to_u32 q.0.rc == fmt.header_size)
              then pure none
              else elim (header_img_size cfg (fmt.parse_header q.0.bytes))
                  as (λ _. M W (Option Loaded)) [
                    | none ↦ pure none
                    | some img_size ↦ do
                      file_size ← btldr_fs_get_file_size files f
                      pure (
                          if ltb (to_u32 file_size) img_size
                          then none
                          else some
                              (record { hdr = fmt.parse_header q.0.bytes; img_size = img_size }))
                  ])
            q.1)
  header_loaded (r, w) (inl (e, at)) = rw (is_neg_of_error r.rc e) (_, _, refl, (tt, (_, at)))
  header_loaded (r, w) (inr (e, b, at)) =
      elim (Bool-cases (to_u32 (pos (length r.bytes)) == fmt.header_size)) [
        | inr e' ↦ rw (e, e') (_, _, refl, (tt, (_, at)))
        | inl e' ↦
            rw (e, e')
              (sum_found (fmt.parse_header r.bytes) _ w (ap fmt.parse_header b)
                (header_img_size-HeaderSum _ (lawful.header r.bytes)) (_, at))
      ]

  -- On a file that is open at its start, the loading of the header returns although every call may
  -- fail, and leaves the file open. A header that it loads is the one at the start of the file,
  -- with the right magic and bootable; the size that goes with it is the true sum of header and
  -- image, and the file holds as many bytes.
  pub load_image_header_from_file_lem :
      (w : W)
      → At w 0
      → Runs
          (λ l w'. MaybeLoaded l × IsOpen files f content At w')
          (load_image_header_from_file fmt c cfg files sys f w)
  unfolding load_image_header_from_file
  load_image_header_from_file_lem w at = header_loaded _ (file.read_lem w 0 fmt.header_size at)
