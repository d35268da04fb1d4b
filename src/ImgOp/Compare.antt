-- ===== src/ImgOp/Compare.antt =====
-- `mcuboot_img_op_cmp`: what it has compared.
use ruuvi_air_mcuboot.Prelude.{ℕ, suc, ◌-◌, ◌≡◌, inl, inr, refl, sym}
use ruuvi_air_mcuboot.Prelude.{subst, ◌∙◌, ◌>>=◌, Bool, true, false, not, List, length, take, slice}
use ruuvi_air_mcuboot.Prelude.{take_all}
use ruuvi_air_mcuboot.Prelude.{arith, Runs, pure, lift, Bool-cases, ltb}
use ruuvi_air_mcuboot.Prelude.{if◌then◌else◌, ℤ, is_zero, is_zero_of_error}
use ruuvi_air_mcuboot.Platform.Files.{FileApi, Whence, Sought, IsOpenFile}
use ruuvi_air_mcuboot.Platform.Flash.{FlashApi, FlashArea, Opened, IsFlashArea}
use ruuvi_air_mcuboot.ImgOp.Defs.{
  size_of, img_copy, img_sized, img_opened, img_process, cb_img_cmp, mcuboot_img_op_cmp,
}
use ruuvi_air_mcuboot.ImgOp.CompareLoop.{compare_loop}

module _ {W : Type 0} (files : FileApi W) (flash : FlashApi W) (f id : ℕ) (fa : FlashArea)
    (content mem : List ℕ) (At : W → ℕ → List ℕ → Type 0)
    (file : IsOpenFile files f content (λ w p. At w p mem))
    (area : IsFlashArea flash id fa At) where
  -- A success has found the file's bytes at the start of the area.
  abbrev pub Compared : Bool → W → Type 0
  Compared done w = (done ≡ true → content ≡ take (length content) mem) × ((p : ℕ) × At w p mem)

  compare_copy :
      (w : W)
      → At w 0 mem
      → Runs Compared (img_copy files flash (cb_img_cmp flash) fa f (length content) w)
  unfolding img_copy
  compare_copy w at =
      let (done, w', run, (same, (p, at'))) =
        compare_loop files flash f id fa content mem At file area (suc (length content)) 0
          (length content) w (omega arith) (omega arith) at in
      rw (run, ◌>>=◌) (_, _, refl, ((λ z. whole (same z)), (_, area.close_lem w' p mem at')))
    where
      whole :
          slice content 0 (length content - 0) ≡ slice mem 0 (length content - 0)
          → content ≡ take (length content) mem
      whole e =
          sym (take_all (length content) content (omega arith))
          ∙ subst (λ n. take n content ≡ take n mem) {x = length content - 0} {y = length content}
              (omega arith) e

  compare_sized :
      (w : W)
      → At w 0 mem
      → Runs Compared (img_sized files flash false (cb_img_cmp flash) fa f (length content) w)
  unfolding img_sized
  compare_sized w at = elim (Bool-cases (ltb fa.fa_size (length content))) [
    | inl e ↦ rw e (_, _, refl, ((λ z. cc), (_, at)))
    | inr e ↦ rw e (compare_copy w at)
  ]

  compare_after_start :
      (p size : ℕ) (q : ℤ × W)
      → size ≡ length content
      → Sought files f content (λ w p. At w p mem) p 0 q
      → Runs Compared (
          (if not (is_zero q.0)
              then pure false
              else img_sized files flash false (cb_img_cmp flash) fa f size)
            q.1)
  compare_after_start p size (rc, w) same (inl (e, at)) =
      rw (is_zero_of_error rc e) (_, _, refl, ((λ z. cc), (_, at)))
  compare_after_start p size (rc, w) same (inr (e, at)) = rw (e, same) (compare_sized w at)

  compare_after_end :
      (p : ℕ) (q : ℤ × W)
      → Sought files f content (λ w p. At w p mem) p (length content) q
      → Runs Compared (
          (if not (is_zero q.0) then pure false else do
            src_file_size ← lift (files.fs_tell f)
            rc ← lift (files.fs_seek f 0 Whence.seek_set)
            if not (is_zero rc)
                then pure false
                else img_sized files flash false (cb_img_cmp flash) fa f (size_of src_file_size))
            q.1)
  compare_after_end p (rc, w) (inl (e, at)) =
      rw (is_zero_of_error rc e) (_, _, refl, ((λ z. cc), (_, at)))
  compare_after_end p (rc, w) (inr (e, at)) =
      rw (e, file.tell_lem w _ at)
        (compare_after_start _ _ _ (omega (arith, file.short)) (file.seek_set_lem w _ 0 at))

  compare_area :
      (p : ℕ) (q : (ℤ × FlashArea) × W)
      → Opened flash id fa At p mem q
      → Runs Compared (
          (if not (is_zero q.0.0)
              then pure false
              else img_opened files flash false (cb_img_cmp flash) q.0.1 f)
            q.1)
  unfolding img_opened
  compare_area p ((rc, area'), w) (inl (e, at)) =
      rw (is_zero_of_error rc e) (_, _, refl, ((λ z. cc), (_, at)))
  compare_area p ((rc, area'), w) (inr (e, same, at)) =
      rw (e, same) (compare_after_end p _ (file.seek_end_lem w p at))

  -- For any file, wherever its position stands, and whatever the flash area holds, the comparison
  -- returns although every call may fail, and leaves the file open and the area as it was. Where
  -- it returns true, the area starts with the bytes of the file.
  pub mcuboot_img_op_cmp_lem :
      (w : W) (p : ℕ) → At w p mem → Runs Compared (mcuboot_img_op_cmp files flash id f w)
  unfolding mcuboot_img_op_cmp img_process
  mcuboot_img_op_cmp_lem w p at = compare_area p _ (area.open_lem w p mem at)
