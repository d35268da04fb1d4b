-- ===== src/ImgOp/Copy.antt =====
-- `mcuboot_img_op_copy`: what it leaves in the flash area.
use ruuvi_air_mcuboot.Prelude.{ℕ, suc, ◌-◌, ◌≤◌, ◌≡◌, inl, inr, refl}
use ruuvi_air_mcuboot.Prelude.{subst, ◌>>=◌, Bool, true, false, not, List}
use ruuvi_air_mcuboot.Prelude.{length}
use ruuvi_air_mcuboot.Prelude.{arith, Runs, pure, lift, ltb}
use ruuvi_air_mcuboot.Prelude.{if◌then◌else◌, ℤ, is_zero}
use ruuvi_air_mcuboot.Prelude.{is_zero_of_error}
use ruuvi_air_mcuboot.Platform.Files.{FileApi, Whence, Sought, IsOpenFile}
use ruuvi_air_mcuboot.Platform.Flash.{FlashApi, FlashArea, Opened, erased, IsFlashArea}
use ruuvi_air_mcuboot.ImgOp.Defs.{
  size_of, img_copy, img_sized, img_opened, img_process, cb_img_write, mcuboot_img_op_copy,
}
use ruuvi_air_mcuboot.ImgOp.Loop.{Whole, img_loop_lem}

module _ {W : Type 0} (files : FileApi W) (flash : FlashApi W) (f id : ℕ) (fa : FlashArea)
    (content : List ℕ) (At : W → ℕ → List ℕ → Type 0)
    (file : (mem : List ℕ) → IsOpenFile files f content (λ w p. At w p mem))
    (area : IsFlashArea flash id fa At) (fits : length content ≤ fa.fa_size) where
  abbrev Outcome : Bool → W → Type 0
  Outcome = Whole files flash f id fa content At file area fits

  img_copy_lem :
      (w : W)
      → At w 0 (erased fa.fa_size)
      → Runs Outcome (img_copy files flash (cb_img_write flash) fa f (length content) w)
  unfolding img_copy
  img_copy_lem w at =
      let (done, w', run, (ok, (p, mem, held))) =
        img_loop_lem files flash f id fa content At file area fits (suc (length content)) 0
          (length content) w (omega arith) (omega arith)
          (subst (λ n. At w 0 (erased n)) {x = fa.fa_size} {y = fa.fa_size - 0} (omega arith) at) in
      rw (run, ◌>>=◌)
        (_, _, refl, ((λ z. area.close_lem w' _ _ (ok z)), (_, _, area.close_lem w' p mem held)))

  img_sized_lem :
      (w : W) (mem : List ℕ)
      → At w 0 mem
      → Runs Outcome (img_sized files flash true (cb_img_write flash) fa f (length content) w)
  unfolding img_sized
  img_sized_lem w mem at = rw big (elim (area.erase_lem w 0 mem at) [
    | inl (e, held) ↦ rw (is_zero_of_error _ e) (_, _, refl, ((λ z. cc), held))
    | inr (e, at') ↦ rw e (img_copy_lem _ at')
  ])
    where
      big : ltb fa.fa_size (length content) ≡ false
      big = ground arith

  -- From the test of the size on, once the end of the file and its start have been found.
  after_seek :
      (size : ℕ) (mem : List ℕ) (q : ℤ × W)
      → size ≡ length content
      → Sought files f content (λ w p. At w p mem) (length content) 0 q
      → Runs Outcome (
          (if not (is_zero q.0)
              then pure false
              else img_sized files flash true (cb_img_write flash) fa f size)
            q.1)
  after_seek size mem (rc, w) same (inl (e, at)) =
      rw (is_zero_of_error rc e) (_, _, refl, ((λ z. cc), (_, _, at)))
  after_seek size mem (rc, w) same (inr (e, at)) = rw (e, same) (img_sized_lem w mem at)

  after_open :
      (mem : List ℕ) (p : ℕ) (q : ℤ × W)
      → Sought files f content (λ w p. At w p mem) p (length content) q
      → Runs Outcome (
          (if not (is_zero q.0) then pure false else do
            src_file_size ← lift (files.fs_tell f)
            rc ← lift (files.fs_seek f 0 Whence.seek_set)
            if not (is_zero rc)
                then pure false
                else img_sized files flash true (cb_img_write flash) fa f (size_of src_file_size))
            q.1)
  after_open mem p (rc, w) (inl (e, at)) =
      rw (is_zero_of_error rc e) (_, _, refl, ((λ z. cc), (_, _, at)))
  after_open mem p (rc, w) (inr (e, at)) =
      rw (e, (file mem).tell_lem w _ at)
        (after_seek _ mem _ (omega (arith, (file mem).short)) ((file mem).seek_set_lem w _ 0 at))

  img_opened_lem :
      (w : W) (mem : List ℕ) (p : ℕ)
      → At w p mem
      → Runs Outcome (img_opened files flash true (cb_img_write flash) fa f w)
  unfolding img_opened
  img_opened_lem w mem p at = after_open mem p _ ((file mem).seek_end_lem w p at)

  -- From the result of `flash_area_open` on.
  opened :
      (p : ℕ) (mem : List ℕ) (q : (ℤ × FlashArea) × W)
      → Opened flash id fa At p mem q
      → Runs Outcome (
          (if not (is_zero q.0.0)
              then pure false
              else img_opened files flash true (cb_img_write flash) q.0.1 f)
            q.1)
  opened p mem ((rc, area'), w) (inl (e, at)) =
      rw (is_zero_of_error rc e) (_, _, refl, ((λ z. cc), (_, _, at)))
  opened p mem ((rc, area'), w) (inr (e, same, at)) = rw (e, same) (img_opened_lem w mem p at)

  -- For a file no larger than the flash area, wherever its position stands and whatever the flash
  -- area holds, the copy ends. Where it returns true, the area holds the bytes of the file followed
  -- by erased bytes up to its end. Whatever it returns, the file and the area are still there.
  pub mcuboot_img_op_copy_lem :
      (w : W) (p : ℕ) (mem : List ℕ)
      → At w p mem
      → Runs Outcome (mcuboot_img_op_copy files flash id f w)
  unfolding mcuboot_img_op_copy img_process
  mcuboot_img_op_copy_lem w p mem at = opened p mem _ (area.open_lem w p mem at)
