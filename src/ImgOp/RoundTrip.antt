-- ===== src/ImgOp/RoundTrip.antt =====
-- A copy that succeeds compares equal afterwards, while no call fails.
use ruuvi_air_mcuboot.Prelude.{ℕ, suc, ◌+◌, ◌-◌, ◌%◌, ◌≤◌, ◌≡◌, inl, inr, refl, subst}
use ruuvi_air_mcuboot.Prelude.{◌>>=◌, true, false, not, List, ◌++◌, length}
use ruuvi_air_mcuboot.Prelude.{take_all}
use ruuvi_air_mcuboot.Prelude.{
  arith, Runs, Runs_at, pure, lift, some, Bool-cases, ltb, if◌then◌else◌,
}
use ruuvi_air_mcuboot.Prelude.{ℤ, is_zero, IsError}
use ruuvi_air_mcuboot.Platform.Files.{FileApi, IsOpenFile, Whence, Sought}
use ruuvi_air_mcuboot.Platform.Flash.{FlashApi, FlashArea, IsFlashArea, Opened, erased}
use ruuvi_air_mcuboot.ImgOp.Defs.{
  cb_img_cmp, size_of, img_copy, img_sized, img_opened, img_process, mcuboot_img_op_cmp,
  mcuboot_img_op_copy,
}
use ruuvi_air_mcuboot.ImgOp.Copy.{mcuboot_img_op_copy_lem}
use ruuvi_air_mcuboot.ImgOp.RepeatLoop.{IsReliable, Repeats, repeat_loop}

module _ {W : Type 0} (files : FileApi W) (flash : FlashApi W) (ok : IsReliable files flash)
    (f id : ℕ) (fa : FlashArea) (content : List ℕ) (k : ℕ) (At : W → ℕ → List ℕ → Type 0)
    (file : IsOpenFile files f content (λ w p. At w p (content ++ erased k)))
    (area : IsFlashArea flash id fa At) (words : fa.fa_size % 4 ≡ 0)
    (room : length content + k ≡ fa.fa_size) where
  repeat_copy :
      (w : W)
      → At w 0 (content ++ erased k)
      → Runs
          (Repeats files flash ok f id fa content k At file area words room)
          (img_copy files flash (cb_img_cmp flash) fa f (length content) w)
  unfolding img_copy
  repeat_copy w at =
      let (done, w', run, (same, (p, at'))) =
        repeat_loop files flash ok f id fa content k At file area words room (suc (length content))
          0 (length content) w (omega arith) (omega arith) (λ lt. omega arith) at in
      rw (run, ◌>>=◌) (_, _, refl, (same, (_, area.close_lem w' p (content ++ erased k) at')))

  repeat_sized :
      (w : W)
      → At w 0 (content ++ erased k)
      → Runs
          (Repeats files flash ok f id fa content k At file area words room)
          (img_sized files flash false (cb_img_cmp flash) fa f (length content) w)
  unfolding img_sized
  repeat_sized w at = elim (Bool-cases (ltb fa.fa_size (length content))) [
    | inl e ↦ absurd (ground (arith, room))
    | inr e ↦ rw e (repeat_copy w at)
  ]

  repeat_after_start :
      (p size : ℕ) (q : ℤ × W)
      → size ≡ length content
      → (IsError q.0 → ⊥)
      → Sought files f content (λ w p. At w p (content ++ erased k)) p 0 q
      → Runs (Repeats files flash ok f id fa content k At file area words room) (
          (if not (is_zero q.0)
              then pure false
              else img_sized files flash false (cb_img_cmp flash) fa f size)
            q.1)
  repeat_after_start p size (rc, w) same fine (inl (e, at)) = absurd (fine e)
  repeat_after_start p size (rc, w) same fine (inr (e, at)) = rw (e, same) (repeat_sized w at)

  repeat_after_end :
      (p : ℕ) (q : ℤ × W)
      → (IsError q.0 → ⊥)
      → Sought files f content (λ w p. At w p (content ++ erased k)) p (length content) q
      → Runs (Repeats files flash ok f id fa content k At file area words room) (
          (if not (is_zero q.0) then pure false else do
            src_file_size ← lift (files.fs_tell f)
            rc ← lift (files.fs_seek f 0 Whence.seek_set)
            if not (is_zero rc)
                then pure false
                else img_sized files flash false (cb_img_cmp flash) fa f (size_of src_file_size))
            q.1)
  repeat_after_end p (rc, w) fine (inl (e, at)) = absurd (fine e)
  repeat_after_end p (rc, w) fine (inr (e, at)) =
      rw (e, file.tell_lem w _ at)
        (repeat_after_start _ _ _ (omega (arith, file.short)) (ok.seek_ok f 0 Whence.seek_set w)
          (file.seek_set_lem w _ 0 at))

  repeat_area :
      (p : ℕ) (q : (ℤ × FlashArea) × W)
      → (IsError q.0.0 → ⊥)
      → Opened flash id fa At p (content ++ erased k) q
      → Runs (Repeats files flash ok f id fa content k At file area words room) (
          (if not (is_zero q.0.0)
              then pure false
              else img_opened files flash false (cb_img_cmp flash) q.0.1 f)
            q.1)
  unfolding img_opened
  repeat_area p ((rc, area'), w) fine (inl (e, at)) = absurd (fine e)
  repeat_area p ((rc, area'), w) fine (inr (e, same, at)) =
      rw (e, same)
        (repeat_after_end p _ (ok.seek_ok f 0 Whence.seek_end w) (file.seek_end_lem w p at))

  compares_equal :
      (w : W) (p : ℕ)
      → At w p (content ++ erased k)
      → Runs
          (Repeats files flash ok f id fa content k At file area words room)
          (mcuboot_img_op_cmp files flash id f w)
  unfolding mcuboot_img_op_cmp img_process
  compares_equal w p at =
      repeat_area p _ (ok.open_ok id w) (area.open_lem w p (content ++ erased k) at)

module _ {W : Type 0} (files : FileApi W) (flash : FlashApi W) (ok : IsReliable files flash)
    (f id : ℕ) (fa : FlashArea) (content : List ℕ) (At : W → ℕ → List ℕ → Type 0)
    (file : (mem : List ℕ) → IsOpenFile files f content (λ w p. At w p mem))
    (area : IsFlashArea flash id fa At) (words : fa.fa_size % 4 ≡ 0)
    (fits : length content ≤ fa.fa_size) where
  -- Let a flash area have a size that is a multiple of 4 and room for the file, and let opening,
  -- seeking and reading not fail; erasing and writing may. After a copy that returned true the
  -- comparison of the same file with the same area returns, and returns true.
  pub mcuboot_img_op_cmp-copy :
      (w : W) (p : ℕ) (mem : List ℕ) (w' : W)
      → At w p mem
      → mcuboot_img_op_copy files flash id f w ≡ some (true, w')
      → (v : W) × (mcuboot_img_op_cmp files flash id f w' ≡ some (true, v))
  mcuboot_img_op_cmp-copy w p mem w' at run =
      let (whole, held) =
        Runs_at _ _ true w'
          (mcuboot_img_op_copy_lem files flash f id fa content At file area fits w p mem at) run in
      let k = fa.fa_size - length content in
      let (done, v, again, (same, rest)) =
        compares_equal files flash ok f id fa content k At (file (content ++ erased k)) area words
          (omega arith) w' (length content)
          (subst (λ l. At w' (length content) (l ++ erased k))
            (take_all (length content) content (omega arith)) (whole refl)) in
      (v, subst (λ z. mcuboot_img_op_cmp files flash id f w' ≡ some (z, v)) same again)
