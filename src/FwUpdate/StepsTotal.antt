-- ===== src/FwUpdate/StepsTotal.antt =====
-- What follows the checks of an update file ends, whatever the calls do.
use ruuvi_air_mcuboot.Prelude.{ℕ, is_zero, List, true, false, not, Option, none, some}
use ruuvi_air_mcuboot.Prelude.{
  Total, Total-pure, Total-lift, Total-if, Total-bind, Total-then, Total-Option, total_rules,
}
use ruuvi_air_mcuboot.Platform.Format.{ImageFormat, ImageHeader, ImageVersion}
use ruuvi_air_mcuboot.Platform.Files.{FileApi}
use ruuvi_air_mcuboot.Platform.Flash.{FlashApi}
use ruuvi_air_mcuboot.Platform.Crypto.{Crypto}
use ruuvi_air_mcuboot.Platform.System.{SystemApi, Config, FwInfo}
use ruuvi_air_mcuboot.BtldrFs.Total.{
  open_file-Total, close_file-Total, unlink_file-Total, load_image_header-Total,
}
use ruuvi_air_mcuboot.ImgOp.Total.{mcuboot_img_op_copy-Total}
use ruuvi_air_mcuboot.HwRev.Defs.{HwRev}
use ruuvi_air_mcuboot.FwUpdate.Checks.{FileFacts}
use ruuvi_air_mcuboot.FwUpdate.Defs.{
  img_invalidate, check_downgrade_prevention, remove_file, install, prevent_downgrade,
  compare_and_install, update_with_info,
}

module _ {W : Type 0} (files : FileApi W) (flash : FlashApi W) (sys : SystemApi W)
    (fmt : ImageFormat) (c : Crypto) (cfg : Config) (s0_s1_version : ImageVersion) where
  pub invalidate-Total :
      (fa_id : ℕ) → Total (img_invalidate fmt c cfg s0_s1_version files flash sys fa_id)
  unfolding img_invalidate
  invalidate-Total fa_id = Total-bind _ _ (Total-lift (flash.flash_area_open fa_id)) (λ (rc, fa).
      Total-if (not (is_zero rc)) _ _ (Total-pure false) (
        Total-bind _ _ (Total-lift (sys.fw_info_find fa.fa_off)) (λ info.
          Total-Option info _ _
            (Total-then _ _ (Total-lift (flash.flash_area_close fa)) (Total-pure false))
            (λ i.
              Total-then _ _ (Total-lift (sys.fw_info_invalidate i))
                (Total-then _ _ (Total-lift (flash.flash_area_close fa)) (Total-pure true))))))

  check_downgrade-Total :
      (dst_fa_id : ℕ) (hdr : Option ImageHeader)
      → Total (check_downgrade_prevention fmt c cfg s0_s1_version files flash sys dst_fa_id hdr)
  unfolding check_downgrade_prevention
  check_downgrade-Total dst_fa_id hdr = search (load_image_header-Total, total_rules)

  pub remove_file-Total :
      (name : List ℕ) → Total (remove_file fmt c cfg s0_s1_version files flash sys name)
  unfolding remove_file
  remove_file-Total name = search (unlink_file-Total, total_rules)

  install-Total :
      (name : List ℕ) (dst_fa_id : ℕ)
      → Total (install fmt c cfg s0_s1_version files flash sys name dst_fa_id)
  unfolding install
  install-Total name dst_fa_id =
      search
        (
          open_file-Total, remove_file-Total, mcuboot_img_op_copy-Total, close_file-Total,
          unlink_file-Total, total_rules,
        )
        depth 20

  prevent_downgrade-Total :
      (name : List ℕ) (dst_fa_id : ℕ) (hdr : Option ImageHeader)
      → Total (prevent_downgrade fmt c cfg s0_s1_version files flash sys name dst_fa_id hdr)
  unfolding prevent_downgrade
  prevent_downgrade-Total name dst_fa_id hdr =
      search (check_downgrade-Total, remove_file-Total, install-Total, total_rules) depth 20

  compare-Total :
      (name : List ℕ) (dst_fa_id : ℕ) (hw : HwRev) (facts : FileFacts) (file_info dst_info : FwInfo)
      → Total (
          compare_and_install fmt c cfg s0_s1_version files flash sys name dst_fa_id hw facts
            file_info dst_info)
  unfolding compare_and_install
  compare-Total name dst_fa_id hw facts file_info dst_info =
      search (remove_file-Total, prevent_downgrade-Total, total_rules) depth 20

  pub with_info-Total :
      (name : List ℕ) (dst_fa_id addr : ℕ) (hw : HwRev) (facts : FileFacts) (info : Option FwInfo)
      → Total (
          update_with_info fmt c cfg s0_s1_version files flash sys name dst_fa_id addr hw facts
            info)
  unfolding update_with_info
  with_info-Total name dst_fa_id addr hw facts none = remove_file-Total name
  with_info-Total name dst_fa_id addr hw facts (some file_info) =
      Total-bind _ _ (Total-lift (sys.fw_info_find addr)) (λ dst.
        Total-Option dst _ _ (remove_file-Total name)
          (λ dst_info. compare-Total name dst_fa_id hw facts file_info dst_info))
