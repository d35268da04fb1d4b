-- ===== src/FwUpdate/Untouched.antt =====
-- Copying to a slot, and invalidating one, leave every other slot alone.
use ruuvi_air_mcuboot.Prelude.{
  ℕ, zero, suc, ◌≡◌, ◌≢◌, ◌∙◌, ◌==◌, Bool, true, false, not, List, Option, none, some,
}
use ruuvi_air_mcuboot.Prelude.{
  M, pure, lift, ◌>>=◌, ◌>>◌, if◌then◌else◌, is_zero, Keeps, Keeps-lift, Keeps-pure, Keeps-if,
  Keeps-bind, Keeps-out_of_fuel, Keeps-then, Keeps-Option, refl, sym,
}
use ruuvi_air_mcuboot.Platform.Format.{ImageFormat, ImageHeader, ImageVersion}
use ruuvi_air_mcuboot.Platform.Files.{FileApi}
use ruuvi_air_mcuboot.Platform.Flash.{FlashApi, FlashArea}
use ruuvi_air_mcuboot.Platform.Crypto.{Crypto}
use ruuvi_air_mcuboot.Platform.System.{SystemApi, Config, FwInfo}
use ruuvi_air_mcuboot.Platform.Frame.{
  frame_rules, IsFileFramed, IsFlashFramed, IsSystemFramed, IsSlotFramed, Keeps-fw_info_find,
  Keeps-flash_area_close,
}
use ruuvi_air_mcuboot.BtldrFs.Frame.{
  open_file-Keeps, close_file-Keeps, unlink_file-Keeps, load_image_header-Keeps,
  get_flash_area_address_and_size-Keeps,
}
use ruuvi_air_mcuboot.ImgOp.{
  img_loop, img_copy, img_sized, img_opened, img_process, cb_img_write, mcuboot_img_op_copy,
}
use ruuvi_air_mcuboot.HwRev.Defs.{HwRev}
use ruuvi_air_mcuboot.FwUpdate.Checks.{FileFacts}
use ruuvi_air_mcuboot.FwUpdate.Frame.{check_file-Keeps, fw_info_find_in_file-Keeps}
use ruuvi_air_mcuboot.FwUpdate.Defs.{
  img_invalidate, remove_file, install, prevent_downgrade, check_downgrade_prevention,
  compare_and_install, update_with_info, check_file_and_update,
}

Keeps-else :
    {W A : Type 0} {I : W → Type 0} (z : Bool) (m n : M W A)
    → Keeps I m
    → (z ≡ true → Keeps I n)
    → Keeps I (if not z then m else n)
Keeps-else true m n km kn = kn refl
Keeps-else false m n km kn = km

module _ {W : Type 0} {I : W → Type 0} (flash : FlashApi W) (flash_law : IsFlashFramed flash I)
    (sys : SystemApi W) (slot : ℕ) (slot_law : IsSlotFramed flash sys I slot) where
  -- What follows the opening of another area keeps `I`, if it does so on any area but `slot`.
  Keeps-opened :
      {B : Type 0} (id : ℕ) (m : M W B) (n : FlashArea → M W B)
      → id ≢ slot
      → Keeps I m
      → ((fa : FlashArea) → fa.fa_id ≢ slot → Keeps I (n fa))
      → Keeps I
          (lift (flash.flash_area_open id) >>= λ (rc, fa). if not (is_zero rc) then m else n fa)
  Keeps-opened id m n other km kn = record {
    kept = λ w b w' h e.
        let r = flash.flash_area_open id w in
        (Keeps-else (is_zero r.0.0) m (n r.0.1) km
            (λ z. kn r.0.1 (λ same. other (sym (slot_law.open_id_lem id w z) ∙ same)))).kept
          r.1 b w' (flash_law.flash_area_open_lem id w h) e;
  }

  module _ (files : FileApi W) (file_law : IsFileFramed files I) (fa : FlashArea)
      (other : fa.fa_id ≢ slot) (f : ℕ) where
    write-Keeps : (offset : ℕ) (buf : List ℕ) → Keeps I (cb_img_write flash fa offset buf)
    unfolding cb_img_write
    write-Keeps offset buf =
        Keeps-bind _ _
          (Keeps-lift (flash.flash_area_write fa offset buf)
            (λ w. slot_law.flash_area_write_lem fa offset buf w other))
          (λ rc. Keeps-pure (is_zero rc))

    loop-Keeps :
        (fuel rem_len offset : ℕ)
        → Keeps I (img_loop files flash (cb_img_write flash) fa f fuel rem_len offset)
    unfolding img_loop
    loop-Keeps zero rem_len offset = Keeps-out_of_fuel
    loop-Keeps (suc fuel) rem_len offset =
        search (write-Keeps, loop-Keeps fuel, frame_rules) depth 20

    copy-Keeps : (size : ℕ) → Keeps I (img_copy files flash (cb_img_write flash) fa f size)
    unfolding img_copy
    copy-Keeps size = search (loop-Keeps, Keeps-then, frame_rules) depth 20

    erase-Keeps : (n : ℕ) → Keeps I (lift (flash.flash_area_erase fa 0 n))
    erase-Keeps n =
        Keeps-lift (flash.flash_area_erase fa 0 n)
          (λ w. slot_law.flash_area_erase_lem fa 0 n w other)

    opened-Keeps : Keeps I (img_opened files flash true (cb_img_write flash) fa f)
    unfolding img_opened img_sized
    opened-Keeps = search (copy-Keeps, erase-Keeps, frame_rules) depth 30

  pub op_copy-Keeps :
      (files : FileApi W)
      → IsFileFramed files I
      → (id f : ℕ) → id ≢ slot
      → Keeps I (mcuboot_img_op_copy files flash id f)
  unfolding mcuboot_img_op_copy img_process
  op_copy-Keeps files file_law id f other =
      Keeps-opened id _ _ other (Keeps-pure false)
        (λ fa is_other. opened-Keeps files file_law fa is_other f)

  module _ (sys_law : IsSystemFramed sys I) (fmt : ImageFormat) (c : Crypto) (cfg : Config)
      (s0_s1_version : ImageVersion) (files : FileApi W) (file_law : IsFileFramed files I) where
    -- Looking up the information of an area other than `slot`, and invalidating it.
    found-Keeps :
        {B : Type 0} (fa : FlashArea) (k : Option FwInfo → M W B)
        → ((o : Option FwInfo) (u : W) → (sys.fw_info_find fa.fa_off u).0 ≡ o → Keeps I (k o))
        → Keeps I (lift (sys.fw_info_find fa.fa_off) >>= k)
    found-Keeps fa k kf = record {
      kept = λ w b w' h e.
          let r = sys.fw_info_find fa.fa_off w in
          (kf r.0 w refl).kept r.1 b w' (sys_law.fw_info_find_lem fa.fa_off w h) e;
    }

    invalidate-Keeps :
        (fa : FlashArea) (o : Option FwInfo) (u : W)
        → fa.fa_id ≢ slot
        → (sys.fw_info_find fa.fa_off u).0 ≡ o
        → Keeps I (elim o as (λ _. M W Bool) [
          | none ↦ do lift (flash.flash_area_close fa); pure false
          | some p_fw_info ↦ do
            lift (sys.fw_info_invalidate p_fw_info)
            lift (flash.flash_area_close fa)
            pure true
        ])
    invalidate-Keeps fa none u other e = search (Keeps-then, frame_rules) depth 20
    invalidate-Keeps fa (some info) u other e =
        Keeps-then _ _
          (Keeps-lift (sys.fw_info_invalidate info)
            (λ w. slot_law.fw_info_invalidate_lem fa u info w other e))
          (Keeps-then _ _ (Keeps-flash_area_close flash fa flash_law) (Keeps-pure true))

    pub img_invalidate-Keeps :
        (id : ℕ) → id ≢ slot → Keeps I (img_invalidate fmt c cfg s0_s1_version files flash sys id)
    unfolding img_invalidate
    img_invalidate-Keeps id other =
        Keeps-opened id _ _ other (Keeps-pure false)
          (λ fa is_other. found-Keeps fa _ (λ o u e. invalidate-Keeps fa o u is_other e))

    remove_file-Keeps :
        (name : List ℕ) → Keeps I (remove_file fmt c cfg s0_s1_version files flash sys name)
    unfolding remove_file
    remove_file-Keeps name = search (unlink_file-Keeps, frame_rules) depth 20

    module _ (name : List ℕ) (id : ℕ) (other : id ≢ slot) where
      install-Keeps : Keeps I (install fmt c cfg s0_s1_version files flash sys name id)
      unfolding install
      install-Keeps = Keeps-bind _ _ (open_file-Keeps sys sys_law cfg name) (λ f.
          Keeps-if (f == 0) _ _ (remove_file-Keeps name) (
            Keeps-bind _ _ (op_copy-Keeps files file_law id f other) (λ copied.
              Keeps-then _ _ (close_file-Keeps sys sys_law cfg f) (
                Keeps-bind _ _ (unlink_file-Keeps sys sys_law cfg name)
                  (λ removed. Keeps-pure true)))))

      downgrade-Keeps :
          (hdr : Option ImageHeader)
          → Keeps I (check_downgrade_prevention fmt c cfg s0_s1_version files flash sys id hdr)
      unfolding check_downgrade_prevention
      downgrade-Keeps hdr = search (load_image_header-Keeps, frame_rules) depth 20

      prevent-Keeps :
          (hdr : Option ImageHeader)
          → Keeps I (prevent_downgrade fmt c cfg s0_s1_version files flash sys name id hdr)
      unfolding prevent_downgrade
      prevent-Keeps hdr =
          search (install-Keeps, downgrade-Keeps, remove_file-Keeps, frame_rules) depth 20

      compare-Keeps :
          (hw : HwRev) (facts : FileFacts) (info dst : FwInfo)
          → Keeps I (
              compare_and_install fmt c cfg s0_s1_version files flash sys name id hw facts info dst)
      unfolding compare_and_install
      compare-Keeps hw facts info dst =
          search (prevent-Keeps, remove_file-Keeps, frame_rules) depth 20

      with_info-Keeps :
          (addr : ℕ) (hw : HwRev) (facts : FileFacts) (info : Option FwInfo)
          → Keeps I
              (update_with_info fmt c cfg s0_s1_version files flash sys name id addr hw facts info)
      unfolding update_with_info
      with_info-Keeps addr hw facts none = remove_file-Keeps name
      with_info-Keeps addr hw facts (some info) =
          Keeps-bind _ _ (Keeps-fw_info_find sys addr sys_law) (λ dst.
            Keeps-Option dst _ _ (remove_file-Keeps name) (λ d. compare-Keeps hw facts info d))

      -- An update of one slot leaves every other one alone.
      pub check_file_and_update-Keeps :
          (hw : HwRev) (flag : Bool)
          → Keeps I (check_file_and_update fmt c cfg s0_s1_version files flash sys name id hw flag)
      unfolding check_file_and_update
      check_file_and_update-Keeps hw flag =
          Keeps-bind _ _ (get_flash_area_address_and_size-Keeps sys sys_law flash flash_law id)
            (λ area. Keeps-Option area _ _ (Keeps-pure false) (λ (addr, size).
              Keeps-bind _ _
                (check_file-Keeps files file_law sys sys_law fmt c cfg name addr size flag)
                (λ a. Keeps-if (not a.ok) _ _ (Keeps-pure false) (
                  Keeps-bind _ _
                    (fw_info_find_in_file-Keeps files file_law sys sys_law fmt c cfg name)
                    (λ info. with_info-Keeps addr hw a.facts info)))))
