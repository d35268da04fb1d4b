-- ===== src/ImgOp/Loop.antt =====
-- The loop of `mcuboot_img_op_copy`: the pieces of the file go to the flash area one behind the other.
use ruuvi_air_mcuboot.Prelude.{ℕ, zero, suc, ◌+◌, ◌-◌, ◌≤◌, ◌<◌, ◌^◌, ◌≡◌, inl, inr, refl}
use ruuvi_air_mcuboot.Prelude.{
  sym, ap, ap₂, subst, ◌∙◌, ◌>>=◌, Bool, true, false, not, List, [], ◌++◌,
}
use ruuvi_air_mcuboot.Prelude.{append_assoc, length, replicate, take, slice}
use ruuvi_air_mcuboot.Prelude.{take_all, length-take, length-slice, length-append, length-replicate}
use ruuvi_air_mcuboot.Prelude.{replicate-add, take-add, arith, Runs, pure, Bool-cases, ltb}
use ruuvi_air_mcuboot.Prelude.{◌==◌, if◌then◌else◌, ℤ, is_neg, is_zero, to_u32, add32}
use ruuvi_air_mcuboot.Prelude.{is_neg_of_error, is_zero_of_error}
use ruuvi_air_mcuboot.Platform.Files.{FileApi, ReadResult, DidRead, IsOpenFile}
use ruuvi_air_mcuboot.Platform.Flash.{FlashApi, FlashArea, Held, erased, Written, IsFlashArea}
use ruuvi_air_mcuboot.ImgOp.Defs.{tmp_buf_size, padding_of, padded, img_loop, cb_img_write}

-- The flash area once the first `n` bytes of the file have been copied.
abbrev pub copied : List ℕ → ℕ → ℕ → List ℕ
copied content fa_size n = take n content ++ erased (fa_size - n)

-- Erased bytes behind a piece are as good as not written.
erased_piece :
    (a s : List ℕ) (pad n : ℕ)
    → length (s ++ erased pad) ≤ n
    → a ++ ((s ++ erased pad) ++ erased (n - length (s ++ erased pad)))
      ≡ (a ++ s) ++ erased (n - length s)
erased_piece a s pad n room =
    ap (λ l. a ++ l)
      (append_assoc s (erased pad) _
        ∙ ap (λ l. s ++ l) (replicate-add pad _ 255 ∙ ap (λ k. replicate k 255) rest))
    ∙ sym (append_assoc a s _)
  where
    rest : pad + (n - length (s ++ erased pad)) ≡ n - length s
    rest = omega (arith, length-append s (erased pad), length-replicate {A = ℕ} pad 255)

-- Writing the next padded piece extends the copy by the piece.
copied-padded :
    (content : List ℕ) (fa_size off len : ℕ)
    → off + len ≤ length content
    → length (padded (slice content off len) len) ≤ fa_size - off
    → take off content
        ++ (padded (slice content off len) len
            ++ erased (fa_size - off - length (padded (slice content off len) len)))
      ≡ copied content fa_size (off + len)
unfolding padded
copied-padded content fa_size off len inside room =
    rw (take_all len (slice content off len) (omega (arith, length-slice content off len))) (
      erased_piece (take off content) (slice content off len) (padding_of len) (fa_size - off) room'
      ∙ ap₂ (λ (a : List ℕ) k. a ++ erased k) (take-add off len content)
          (omega (arith, length-slice content off len)))
  where
    room' : length (slice content off len ++ erased (padding_of len)) ≤ fa_size - off
    room' =
        rw (take_all len (slice content off len) (omega (arith, length-slice content off len))) at
          room

module _ {W : Type 0} (files : FileApi W) (flash : FlashApi W) (f id : ℕ) (fa : FlashArea)
    (content : List ℕ) (At : W → ℕ → List ℕ → Type 0)
    (file : (mem : List ℕ) → IsOpenFile files f content (λ w p. At w p mem))
    (area : IsFlashArea flash id fa At) (fits : length content ≤ fa.fa_size) where
  abbrev pub Copied : ℕ → W → Type 0
  Copied n w = At w n (copied content fa.fa_size n)

  abbrev pub Whole : Bool → W → Type 0
  Whole done w = (done ≡ true → Copied (length content) w) × Held flash id fa At w

  -- The callback on the piece at `off`.
  write_piece :
      (off len : ℕ) (w : W)
      → off + len ≤ length content
      → At w (off + len) (copied content fa.fa_size off)
      → Runs
          (λ done w'. (done ≡ true → Copied (off + len) w') × Held flash id fa At w')
          (cb_img_write flash fa off (padded (slice content off len) len) w)
  unfolding cb_img_write
  write_piece off len w inside at = go (flash.flash_area_write fa off buf w) (written at)
    where
      buf : List ℕ
      buf = padded (slice content off len) len

      at_off : length (take off content) ≡ off
      at_off = omega (arith, length-take off content)

      written :
          At w (off + len) (copied content fa.fa_size off)
          → Written flash id fa At
              (off + len)
              (take off content)
              (fa.fa_size - off)
              buf
              (flash.flash_area_write fa off buf w)
      written at =
          subst
            (λ o.
              Written flash id fa At (off + len) (take off content) (fa.fa_size - off) buf
                (flash.flash_area_write fa o buf w))
            at_off (area.write_lem w (off + len) (take off content) (fa.fa_size - off) buf at)

      go :
          (q : ℤ × W)
          → Written flash id fa At (off + len) (take off content) (fa.fa_size - off) buf q
          → Runs
              (λ done w'. (done ≡ true → Copied (off + len) w') × Held flash id fa At w')
              (pure (is_zero q.0) q.1)
      go (rc, w') (inl (e, held)) = (_, _, refl, ((λ z. absurd (cc (is_zero_of_error rc e))), held))
      go (rc, w') (inr (e, room, at')) = (
        _,
        _,
        refl,
        (
          (λ z.
              subst (At w' (off + len)) (copied-padded content fa.fa_size off len inside room) at'),
          (_, _, at'),
        ),
      )

  -- From the read of the piece at `off` on.
  after_read :
      (fuel off rem len : ℕ)
      → off + len ≤ length content
      → len < 2 ^ 31
      → ((w : W)
          → At w (off + len) (copied content fa.fa_size (off + len))
          → Runs Whole
              (img_loop files flash (cb_img_write flash) fa f fuel (rem - len) (off + len) w))
      → (r : ReadResult) (w : W)
      → DidRead files f content (λ w p. At w p (copied content fa.fa_size off)) off len (r, w)
      → Runs Whole (
          (if is_neg r.rc then pure false else if not (to_u32 r.rc == len) then pure false else do
            done ← cb_img_write flash fa off (padded r.bytes len)
            if not done
                then pure false
                else img_loop files flash
                    (cb_img_write flash)
                    fa
                    f
                    fuel
                    (rem - len)
                    (add32 off len))
            w)
  after_read fuel off rem len inside small rec r w (inl (e, at)) =
      rw (is_neg_of_error r.rc e) (_, _, refl, ((λ z. cc), (_, _, at)))
  after_read fuel off rem len inside small rec r w (inr (e, b, at)) =
      let (done, w', run, (ok, held)) =
        write_piece off len w inside
          (subst (λ n. At w (off + n) (copied content fa.fa_size off)) full at) in
      elim (Bool-cases done) [
        | inr no_more ↦ rw (not_neg, exact, b, run, ◌>>=◌, no_more) (_, _, refl, ((λ z. cc), held))
        | inl more ↦ rw (not_neg, exact, b, run, ◌>>=◌, more, wrap) (rec w' (ok more))
      ]
    where
      full : length r.bytes ≡ len
      full = ap (λ (l : List ℕ). length l) b ∙ omega (arith, length-slice content off len)

      not_neg : is_neg r.rc ≡ false
      not_neg = rw e

      exact : (to_u32 r.rc == len) ≡ true
      exact = rw e (ground (arith, full))

      wrap : add32 off len ≡ off + len
      wrap = omega (arith, (file []).short)

  pub img_loop_lem :
      (fuel off rem : ℕ) (w : W)
      → rem < fuel
      → off + rem ≡ length content
      → At w off (copied content fa.fa_size off)
      → Runs Whole (img_loop files flash (cb_img_write flash) fa f fuel rem off w)
  unfolding img_loop
  img_loop_lem zero off rem w enough sum at = elim enough [ ]
  img_loop_lem (suc fuel) off rem w enough sum at = elim (Bool-cases (ltb 0 rem)) [
    | inr e ↦ rw e (
      _,
      _,
      refl,
      ((λ z. subst (λ n. Copied n w) {x = off} {y = length content} (ground arith) at), (_, _, at)),
    )
    | inl e ↦ rw e (
        after_read fuel off rem len (omega (arith, len_le)) (omega (arith, len_small))
          (λ w' at'.
            img_loop_lem fuel (off + len) (rem - len) w' (omega (arith, len_pos e, rem_pos e))
              (omega (arith, len_le)) at')
          _ _ ((file (copied content fa.fa_size off)).read_lem w off len at))
  ]
    where
      len : ℕ
      len = if ltb tmp_buf_size rem then tmp_buf_size else rem

      len_le : len ≤ rem
      len_le = ground arith

      len_small : len ≤ 256
      len_small = ground arith

      len_pos : ltb 0 rem ≡ true → 0 < len
      len_pos e = ground arith

      rem_pos : ltb 0 rem ≡ true → 0 < rem
      rem_pos e = ground arith
