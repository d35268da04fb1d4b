-- ===== src/ImgOp/CompareLoop.antt =====
-- The loop of `mcuboot_img_op_cmp`: the pieces of the file against those of the flash area.
use ruuvi_air_mcuboot.Prelude.{
  ℕ, zero, suc, ◌+◌, ◌-◌, ◌≤◌, ◌<◌, ◌^◌, ◌≡◌, inl, inr, refl, sym, ap, ap₂,
}
use ruuvi_air_mcuboot.Prelude.{
  subst, ◌∙◌, ◌>>=◌, Bool, true, false, not, List, ◌++◌, length, take, drop, slice,
}
use ruuvi_air_mcuboot.Prelude.{
  take_all, take-take, slice-slice, take-append, length-take, length-slice, length-append,
  replicate,
}
use ruuvi_air_mcuboot.Prelude.{arith, Runs, pure, Bool-cases, ltb, memcmp_eq, take-eq_of_memcmp}
use ruuvi_air_mcuboot.Prelude.{
  ◌==◌, if◌then◌else◌, is_neg, is_zero, to_u32, add32, is_neg_of_error, is_zero_of_error,
}
use ruuvi_air_mcuboot.Platform.Files.{FileApi, ReadResult, DidRead, IsOpenFile}
use ruuvi_air_mcuboot.Platform.Flash.{FlashApi, FlashArea, FlashRead, FlashDidRead, IsFlashArea}
use ruuvi_air_mcuboot.ImgOp.Defs.{tmp_buf_size, padding_of, padded, img_loop, cb_img_cmp}

-- Where the padded piece compares equal, the piece stands in the flash area.
padded-slice :
    (content mem : List ℕ) (off len : ℕ)
    → off + len ≤ length content
    → memcmp_eq
        (padded (slice content off len) len)
        (slice mem off (length (padded (slice content off len) len)))
        (length (padded (slice content off len) len))
      ≡ true
    → slice content off len ≡ slice mem off len
unfolding padded
padded-slice content mem off len inside e =
    sym (take_all len piece (omega (arith, full)))
    ∙ sym (take-append (take len piece) pad)
    ∙ ap (λ k. take k buf) cut
    ∙ take-take len (length buf) buf within
    ∙ ap (λ (l : List ℕ). take len l)
        (take-eq_of_memcmp buf (slice mem off (length buf)) (length buf) e)
    ∙ sym (take-take len (length buf) (slice mem off (length buf)) within)
    ∙ sym (take-take len (length buf) (drop off mem) within)
  where
    piece : List ℕ
    piece = slice content off len

    pad : List ℕ
    pad = replicate (padding_of len) 255

    buf : List ℕ
    buf = take len piece ++ pad

    full : length piece ≡ len
    full = omega (arith, length-slice content off len)

    cut : length (take len piece) ≡ len
    cut = omega (arith, full, length-take len piece)

    within : len ≤ length buf
    within = omega (arith, cut, length-append (take len piece) pad)

module _ {W : Type 0} (files : FileApi W) (flash : FlashApi W) (f id : ℕ) (fa : FlashArea)
    (content mem : List ℕ) (At : W → ℕ → List ℕ → Type 0)
    (file : IsOpenFile files f content (λ w p. At w p mem))
    (area : IsFlashArea flash id fa At) where
  -- A success from the offset `off` on has found the rest of the file's bytes in the area.
  abbrev pub Compares : ℕ → Bool → W → Type 0
  Compares off done w =
      (done ≡ true
        → slice content off (length content - off) ≡ slice mem off (length content - off))
      × ((p : ℕ) × At w p mem)

  compare_piece :
      (off len p : ℕ) (w : W)
      → off + len ≤ length content
      → At w p mem
      → Runs
          (λ done w'. (done ≡ true → slice content off len ≡ slice mem off len) × At w' p mem)
          (cb_img_cmp flash fa off (padded (slice content off len) len) w)
  unfolding cb_img_cmp
  compare_piece off len p w inside at = go _ (area.read_lem w p mem off (length buf) at)
    where
      buf : List ℕ
      buf = padded (slice content off len) len

      go :
          (q : FlashRead × W)
          → FlashDidRead flash id fa At p mem off (length buf) q
          → Runs
              (λ done w'. (done ≡ true → slice content off len ≡ slice mem off len) × At w' p mem)
              ((if not (is_zero q.0.rc)
                  then pure false
                  else pure (memcmp_eq buf q.0.bytes (length buf)))
                q.1)
      go (r, w') (inl (e, at')) = rw (is_zero_of_error r.rc e) (_, _, refl, ((λ z. cc), at'))
      go (r, w') (inr (e, b, at')) =
          rw (e, b) (_, _, refl, ((λ z. padded-slice content mem off len inside z), at'))

  compare_read :
      (fuel off rem len : ℕ)
      → off + len ≤ length content
      → len ≤ rem
      → off + rem ≡ length content
      → len < 2 ^ 31
      → ((w : W)
          → At w (off + len) mem
          → Runs
              (Compares (off + len))
              (img_loop files flash (cb_img_cmp flash) fa f fuel (rem - len) (off + len) w))
      → (r : ReadResult) (w : W) → DidRead files f content (λ w p. At w p mem) off len (r, w)
      → Runs (Compares off) (
          (if is_neg r.rc then pure false else if not (to_u32 r.rc == len) then pure false else do
            done ← cb_img_cmp flash fa off (padded r.bytes len)
            if not done
                then pure false
                else img_loop files flash (cb_img_cmp flash) fa f fuel (rem - len) (add32 off len))
            w)
  compare_read fuel off rem len inside le sum small rec r w (inl (e, at)) =
      rw (is_neg_of_error r.rc e) (_, _, refl, ((λ z. cc), (_, at)))
  compare_read fuel off rem len inside le sum small rec r w (inr (e, b, at)) =
      let (done, w', run, (same, at')) = compare_piece off len _ w inside at in
      elim (Bool-cases done) [
        | inr no_more ↦
            rw (not_neg, exact, b, run, ◌>>=◌, no_more) (_, _, refl, ((λ z. cc), (_, at')))
        | inl more ↦
            let (a, w'', run', (rest, at'')) = rec w' (subst (λ n. At w' (off + n) mem) full at') in
            rw (not_neg, exact, b, run, ◌>>=◌, more, wrap)
              (a, w'', run', ((λ z. join (same more) (rest z)), at''))
      ]
    where
      full : length r.bytes ≡ len
      full = ap (λ (l : List ℕ). length l) b ∙ omega (arith, length-slice content off len)

      not_neg : is_neg r.rc ≡ false
      not_neg = rw e

      exact : (to_u32 r.rc == len) ≡ true
      exact = rw e (ground (arith, full))

      wrap : add32 off len ≡ off + len
      wrap = omega (arith, file.short)

      left : len + (length content - (off + len)) ≡ length content - off
      left = omega arith

      join :
          slice content off len ≡ slice mem off len
          → slice content (off + len) (length content - (off + len))
            ≡ slice mem (off + len) (length content - (off + len))
          → slice content off (length content - off) ≡ slice mem off (length content - off)
      join a z =
          subst (λ n. slice content off n ≡ slice mem off n) left
            (sym (slice-slice content off len _)
              ∙ ap₂ (λ (l m : List ℕ). l ++ m) a z
              ∙ slice-slice mem off len _)

  pub compare_loop :
      (fuel off rem : ℕ) (w : W)
      → rem < fuel
      → off + rem ≡ length content
      → At w off mem
      → Runs (Compares off) (img_loop files flash (cb_img_cmp flash) fa f fuel rem off w)
  unfolding img_loop
  compare_loop zero off rem w enough sum at = elim enough [ ]
  compare_loop (suc fuel) off rem w enough sum at = elim (Bool-cases (ltb 0 rem)) [
    | inr e ↦ rw e (_, _, refl, ((λ z. nothing_left e), (_, at)))
    | inl e ↦ rw e (
        compare_read fuel off rem len (omega (arith, len_le)) len_le sum (omega (arith, len_small))
          (λ w' at'.
            compare_loop fuel (off + len) (rem - len) w' (omega (arith, len_pos e, rem_pos e))
              (omega (arith, len_le)) at')
          _ _ (file.read_lem w off len at))
  ]
    where
      len : ℕ
      len = if ltb tmp_buf_size rem then tmp_buf_size else rem

      len_le : len ≤ rem
      len_le = ground arith

      len_small : len ≤ 256
      len_small = ground arith

      len_pos : ltb 0 rem ≡ true → 0 < len
      len_pos e = ground arith

      rem_pos : ltb 0 rem ≡ true → 0 < rem
      rem_pos e = ground arith

      nothing_left :
          ltb 0 rem ≡ false
          → slice content off (length content - off) ≡ slice mem off (length content - off)
      nothing_left e =
          subst (λ n. slice content off n ≡ slice mem off n) {x = 0} {y = length content - off}
            (ground arith) refl
