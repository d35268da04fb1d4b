-- ===== src/ImgOp/RepeatLoop.antt =====
-- The loop of `mcuboot_img_op_cmp` on an area that holds a copy, while no call fails.
use ruuvi_air_mcuboot.Prelude.{
  ℕ, zero, suc, ◌+◌, ◌-◌, ◌%◌, ◌≤◌, ◌<◌, ◌^◌, ◌≡◌, inl, inr, refl, ap, subst, ◌∙◌,
}
use ruuvi_air_mcuboot.Prelude.{
  ◌⊎◌, append-nil, ◌>>=◌, Bool, true, false, not, List, ◌++◌, length, take, drop, slice,
}
use ruuvi_air_mcuboot.Prelude.{
  take_all, length-slice, length-append, length-drop, length-replicate, replicate, take-append_le,
  drop-append_le, take-append_add, take-replicate, memcmp_self, memcmp_eq,
}
use ruuvi_air_mcuboot.Prelude.{arith, Runs, pure, Bool-cases, ltb, ◌==◌, if◌then◌else◌}
use ruuvi_air_mcuboot.Prelude.{is_neg, is_zero, to_u32, add32, IsError}
use ruuvi_air_mcuboot.Platform.Files.{FileApi, ReadResult, DidRead, IsOpenFile, Whence}
use ruuvi_air_mcuboot.Platform.Flash.{
  FlashApi, FlashArea, FlashRead, FlashDidRead, IsFlashArea, erased,
}
use ruuvi_air_mcuboot.ImgOp.Defs.{tmp_buf_size, padding_of, padded, img_loop, cb_img_cmp}

-- The file and the flash area never fail to be opened, sought or read.
pub record IsReliable {W : Type 0} (files : FileApi W) (flash : FlashApi W) : Type 0 where
  pub seek_ok : (f off : ℕ) (whence : Whence) (w : W) → IsError (files.fs_seek f off whence w).0 → ⊥
  pub read_ok : (f n : ℕ) (w : W) → IsError (files.fs_read f n w).0.rc → ⊥
  pub open_ok : (id : ℕ) (w : W) → IsError (flash.flash_area_open id w).0.0 → ⊥
  pub area_ok :
      (fa : FlashArea) (off n : ℕ) (w : W) → IsError (flash.flash_area_read fa off n w).0.rc → ⊥

-- Behind its last byte the copy has the erased bytes that pad the last piece.
slice-padded :
    (content : List ℕ) (k off len : ℕ)
    → off + len ≤ length content
    → (padding_of len ≡ 0) ⊎ ((off + len ≡ length content) × (padding_of len ≤ k))
    → slice (content ++ erased k) off (length (padded (slice content off len) len))
      ≡ padded (slice content off len) len
unfolding padded
slice-padded content k off len inside h = rw (short, behind) (go h)
  where
    piece : List ℕ
    piece = slice content off len

    full : length piece ≡ len
    full = omega (arith, length-slice content off len)

    short : take len piece ≡ piece
    short = take_all len piece (omega (arith, full))

    behind : drop off (content ++ erased k) ≡ drop off content ++ erased k
    behind = drop-append_le off content (erased k) (omega arith)

    go :
        (padding_of len ≡ 0) ⊎ ((off + len ≡ length content) × (padding_of len ≤ k))
        → take (length (piece ++ replicate (padding_of len) 255)) (drop off content ++ erased k)
          ≡ piece ++ replicate (padding_of len) 255
    go (inl z) =
        rw (z, append-nil piece, full)
          (take-append_le len (drop off content) (erased k)
            (omega (arith, length-drop off content)))
    go (inr (e, le)) =
        let all : piece ≡ drop off content =
          take_all len (drop off content) (omega (arith, length-drop off content)) in
        rw
          (
            all,
            length-append (drop off content) (replicate (padding_of len) 255),
            length-replicate {A = ℕ} (padding_of len) 255,
            take-append_add (padding_of len) (drop off content) (erased k),
            take-replicate {A = ℕ} (padding_of len) k 255 le,
          )
          refl

module _ {W : Type 0} (files : FileApi W) (flash : FlashApi W) (ok : IsReliable files flash)
    (f id : ℕ) (fa : FlashArea) (content : List ℕ) (k : ℕ) (At : W → ℕ → List ℕ → Type 0)
    (file : IsOpenFile files f content (λ w p. At w p (content ++ erased k)))
    (area : IsFlashArea flash id fa At) (words : fa.fa_size % 4 ≡ 0)
    (room : length content + k ≡ fa.fa_size) where
  abbrev pub Repeats : Bool → W → Type 0
  Repeats done w = (done ≡ true) × ((p : ℕ) × At w p (content ++ erased k))

  repeat_piece :
      (off len p : ℕ) (w : W)
      → off + len ≤ length content
      → (padding_of len ≡ 0) ⊎ ((off + len ≡ length content) × (padding_of len ≤ k))
      → At w p (content ++ erased k)
      → Runs
          (λ done w'. (done ≡ true) × At w' p (content ++ erased k))
          (cb_img_cmp flash fa off (padded (slice content off len) len) w)
  unfolding cb_img_cmp
  repeat_piece off len p w inside h at =
      go _ (ok.area_ok fa off (length buf) w)
        (area.read_lem w p (content ++ erased k) off (length buf) at)
    where
      buf : List ℕ
      buf = padded (slice content off len) len

      go :
          (q : FlashRead × W)
          → (IsError q.0.rc → ⊥)
          → FlashDidRead flash id fa At p (content ++ erased k) off (length buf) q
          → Runs
              (λ done w'. (done ≡ true) × At w' p (content ++ erased k))
              ((if not (is_zero q.0.rc)
                  then pure false
                  else pure (memcmp_eq buf q.0.bytes (length buf)))
                q.1)
      go (r, w') fine (inl (e, at')) = absurd (fine e)
      go (r, w') fine (inr (e, b, at')) =
          rw (e, b, slice-padded content k off len inside h)
            (_, _, refl, (memcmp_self buf (length buf), at'))

  repeat_read :
      (fuel off rem len : ℕ)
      → off + len ≤ length content
      → (padding_of len ≡ 0) ⊎ ((off + len ≡ length content) × (padding_of len ≤ k))
      → len < 2 ^ 31
      → ((w : W)
          → At w (off + len) (content ++ erased k)
          → Runs Repeats
              (img_loop files flash (cb_img_cmp flash) fa f fuel (rem - len) (off + len) w))
      → (r : ReadResult) (w : W) → (IsError r.rc → ⊥)
      → DidRead files f content (λ w p. At w p (content ++ erased k)) off len (r, w)
      → Runs Repeats (
          (if is_neg r.rc then pure false else if not (to_u32 r.rc == len) then pure false else do
            done ← cb_img_cmp flash fa off (padded r.bytes len)
            if not done
                then pure false
                else img_loop files flash (cb_img_cmp flash) fa f fuel (rem - len) (add32 off len))
            w)
  repeat_read fuel off rem len inside h small rec r w fine (inl (e, at)) = absurd (fine e)
  repeat_read fuel off rem len inside h small rec r w fine (inr (e, b, at)) =
      let (done, w', run, (same, at')) = repeat_piece off len _ w inside h at in
      let (a, w'', run', rest) =
        rec w' (subst (λ n. At w' (off + n) (content ++ erased k)) full at') in
      rw (not_neg, exact, b, run, ◌>>=◌, same, wrap) (a, w'', run', rest)
    where
      full : length r.bytes ≡ len
      full = ap (λ (l : List ℕ). length l) b ∙ omega (arith, length-slice content off len)

      not_neg : is_neg r.rc ≡ false
      not_neg = rw e

      exact : (to_u32 r.rc == len) ≡ true
      exact = rw e (ground (arith, full))

      wrap : add32 off len ≡ off + len
      wrap = omega (arith, file.short)

  -- The next piece needs no padding, or is the last one and the padding fits.
  padding_lem :
      (off rem : ℕ)
      → off + rem ≡ length content
      → off % 4 ≡ 0
      → (padding_of (if ltb tmp_buf_size rem then tmp_buf_size else rem) ≡ 0)
        ⊎ ((off + (if ltb tmp_buf_size rem then tmp_buf_size else rem) ≡ length content)
            × (padding_of (if ltb tmp_buf_size rem then tmp_buf_size else rem) ≤ k))
  unfolding padding_of
  padding_lem off rem sum aligned = elim (Bool-cases (ltb tmp_buf_size rem)) [
    | inl e ↦ rw e (inl refl)
    | inr e ↦ rw e (inr (sum, ground arith))
  ]

  next_aligned :
      (off rem : ℕ)
      → off % 4 ≡ 0
      → 0 < rem - (if ltb tmp_buf_size rem then tmp_buf_size else rem)
      → (off + (if ltb tmp_buf_size rem then tmp_buf_size else rem)) % 4 ≡ 0
  next_aligned off rem aligned = elim (Bool-cases (ltb tmp_buf_size rem)) [
    | inl e ↦ rw e (λ lt. omega arith)
    | inr e ↦ rw e (λ lt. omega arith)
  ]

  pub repeat_loop :
      (fuel off rem : ℕ) (w : W)
      → rem < fuel
      → off + rem ≡ length content
      → (0 < rem → off % 4 ≡ 0)
      → At w off (content ++ erased k)
      → Runs Repeats (img_loop files flash (cb_img_cmp flash) fa f fuel rem off w)
  unfolding img_loop
  repeat_loop zero off rem w enough sum aligned at = elim enough [ ]
  repeat_loop (suc fuel) off rem w enough sum aligned at = elim (Bool-cases (ltb 0 rem)) [
    | inr e ↦ rw e (_, _, refl, (refl, (_, at)))
    | inl e ↦ rw e (
        repeat_read fuel off rem len (omega (arith, len_le))
          (padding_lem off rem sum (aligned (rem_pos e))) (omega (arith, len_small))
          (λ w' at'.
            repeat_loop fuel (off + len) (rem - len) w' (omega (arith, len_pos e, rem_pos e))
              (omega (arith, len_le)) (next e) at')
          _ _ (ok.read_ok f len w) (file.read_lem w off len at))
  ]
    where
      len : ℕ
      len = if ltb tmp_buf_size rem then tmp_buf_size else rem

      len_le : len ≤ rem
      len_le = ground arith

      len_small : len ≤ 256
      len_small = ground arith

      rem_pos : ltb 0 rem ≡ true → 0 < rem
      rem_pos e = ground arith

      len_pos : ltb 0 rem ≡ true → 0 < len
      len_pos e = ground arith

      next : ltb 0 rem ≡ true → 0 < rem - len → (off + len) % 4 ≡ 0
      next e lt = next_aligned off rem (aligned (rem_pos e)) lt
