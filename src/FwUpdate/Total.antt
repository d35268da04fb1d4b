-- ===== src/FwUpdate/Total.antt =====
-- The update ends, whatever the files hold and whichever calls fail.
use ruuvi_air_mcuboot.Prelude.{ℕ, List, Bool, true, false, not}
use ruuvi_air_mcuboot.Prelude.{Total, Total-pure, Total-if, Total-bind, Total-Option, total_rules}
use ruuvi_air_mcuboot.Platform.Format.{ImageFormat, ImageVersion, IsFormat}
use ruuvi_air_mcuboot.Platform.Files.{FileApi}
use ruuvi_air_mcuboot.Platform.FileSystem.{IsFileSystem}
use ruuvi_air_mcuboot.Platform.Flash.{FlashApi}
use ruuvi_air_mcuboot.Platform.Crypto.{Crypto, IsCrypto}
use ruuvi_air_mcuboot.Platform.System.{SystemApi, Config}
use ruuvi_air_mcuboot.BtldrFs.Total.{is_file_exist-Total, get_flash_area_address_and_size-Total}
use ruuvi_air_mcuboot.HwRev.Defs.{HwRev}
use ruuvi_air_mcuboot.FwUpdate.Checks.{validate_file, check_file}
use ruuvi_air_mcuboot.FwUpdate.Defs.{
  is_hw_rev_mismatch, check_file_and_update, check_mcuboot_file, check_update_for_mcuboot,
  check_app_updates, check_updates_on_fs,
}
use ruuvi_air_mcuboot.FwUpdate.FileTotal.{validate_file-Total}
use ruuvi_air_mcuboot.FwUpdate.ChecksTotal.{
  b0_signature-Total, remove_and_fail-Total, info_in_file-Total,
}
use ruuvi_air_mcuboot.FwUpdate.StepsTotal.{invalidate-Total, remove_file-Total, with_info-Total}

module _ {W : Type 0} (files : FileApi W) (flash : FlashApi W) (sys : SystemApi W)
    (At : ℕ → List ℕ → W → ℕ → Type 0) (fs : IsFileSystem files sys At) (fmt : ImageFormat)
    (lawful : IsFormat fmt) (c : Crypto) (crypto : IsCrypto c) (cfg : Config)
    (s0_s1_version : ImageVersion) where
  file_Total :
      (name : List ℕ) (addr size : ℕ) → Total (validate_file fmt c cfg files sys name addr size)
  file_Total name addr size =
      validate_file-Total files sys At fs fmt lawful c crypto cfg name addr size

  check_file-Total :
      (name : List ℕ) (addr size : ℕ) (flag : Bool)
      → Total (check_file fmt c cfg files sys name addr size flag)
  unfolding check_file
  check_file-Total name addr size flag =
      search
        (is_file_exist-Total, b0_signature-Total, file_Total, remove_and_fail-Total, total_rules)
        depth 20

  check_and_update-Total :
      (name : List ℕ) (dst_fa_id : ℕ) (hw : HwRev) (flag : Bool)
      → Total (check_file_and_update fmt c cfg s0_s1_version files flash sys name dst_fa_id hw flag)
  unfolding check_file_and_update
  check_and_update-Total name dst_fa_id hw flag =
      Total-bind _ _ (get_flash_area_address_and_size-Total sys flash dst_fa_id) (λ area.
        Total-Option area _ _ (Total-pure false) (λ (addr, size).
          Total-bind _ _ (check_file-Total name addr size flag) (λ a.
            Total-if (not a.ok) _ _ (Total-pure false) (
              Total-bind _ _ (info_in_file-Total files sys fmt c cfg name) (λ info.
                with_info-Total files flash sys fmt c cfg s0_s1_version name dst_fa_id addr hw
                  a.facts info)))))

  mcuboot_file-Total :
      (name : List ℕ) (addr size : ℕ) (hw : HwRev)
      → Total (check_mcuboot_file fmt c cfg s0_s1_version files flash sys name addr size hw)
  unfolding check_mcuboot_file
  mcuboot_file-Total name addr size hw =
      let removed = remove_file-Total files flash sys fmt c cfg s0_s1_version name in
      Total-bind _ _ (b0_signature-Total files sys fmt c cfg name addr size) (λ valid.
        Total-if (not valid) _ _ removed (
          Total-bind _ _ (file_Total name addr size) (λ a.
            Total-bind _ _ (info_in_file-Total files sys fmt c cfg name) (λ info.
              Total-Option info _ _ removed (λ i.
                Total-if (is_hw_rev_mismatch hw a.facts.hw_rev) _ _ removed (Total-pure true))))))

  update_for_mcuboot-Total :
      (name : List ℕ) (dst_fa_id : ℕ) (hw : HwRev)
      → Total (check_update_for_mcuboot fmt c cfg s0_s1_version files flash sys name dst_fa_id hw)
  unfolding check_update_for_mcuboot
  update_for_mcuboot-Total name dst_fa_id hw =
      Total-bind _ _ (is_file_exist-Total sys cfg name) (λ exists.
        Total-if (not exists) _ _ (Total-pure false) (
          Total-bind _ _ (get_flash_area_address_and_size-Total sys flash dst_fa_id) (λ area.
            Total-Option area _ _ (Total-pure false)
              (λ (addr, size). mcuboot_file-Total name addr size hw))))

  app_updates-Total :
      (hw : HwRev) (found : Bool)
      → Total (check_app_updates fmt c cfg s0_s1_version files flash sys hw found)
  unfolding check_app_updates
  app_updates-Total hw found = search (check_and_update-Total, total_rules) depth 20

  pub check_updates_on_fs-Total :
      (slot : ℕ) (hw : HwRev)
      → Total (check_updates_on_fs fmt c cfg s0_s1_version files flash sys slot hw)
  unfolding check_updates_on_fs
  check_updates_on_fs-Total slot hw =
      search
        (
          check_and_update-Total, update_for_mcuboot-Total, app_updates-Total, invalidate-Total,
          total_rules,
        )
        depth 20
