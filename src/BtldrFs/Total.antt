-- ===== src/BtldrFs/Total.antt =====
-- The functions on update files and slots end, whatever the calls do: none has a loop.
use ruuvi_air_mcuboot.Prelude.{ℕ, List, Total, total_rules}
use ruuvi_air_mcuboot.Platform.Files.{FileApi}
use ruuvi_air_mcuboot.Platform.Flash.{FlashApi}
use ruuvi_air_mcuboot.Platform.System.{SystemApi, Config}
use ruuvi_air_mcuboot.BtldrFs.{
  btldr_fs_open_file, btldr_fs_close_file, btldr_fs_unlink_file, btldr_fs_is_file_exist,
  btldr_fs_lock_and_get_abs_path, btldr_fs_unlock, btldr_fs_get_file_size,
  get_flash_area_address_and_size, load_image_header, btldr_fs_flash_erase, btldr_fs_mount,
  btldr_fs_unmount,
}

module _ {W : Type 0} (sys : SystemApi W) (cfg : Config) where
  pub is_file_exist-Total : (name : List ℕ) → Total (btldr_fs_is_file_exist sys cfg name)
  unfolding btldr_fs_is_file_exist btldr_fs_lock_and_get_abs_path btldr_fs_unlock
  is_file_exist-Total name = search total_rules

  pub open_file-Total : (name : List ℕ) → Total (btldr_fs_open_file sys cfg name)
  unfolding btldr_fs_open_file btldr_fs_lock_and_get_abs_path btldr_fs_unlock
  open_file-Total name = search total_rules

  pub close_file-Total : (f : ℕ) → Total (btldr_fs_close_file sys cfg f)
  unfolding btldr_fs_close_file
  close_file-Total f = search total_rules

  pub unlink_file-Total : (name : List ℕ) → Total (btldr_fs_unlink_file sys cfg name)
  unfolding btldr_fs_unlink_file btldr_fs_lock_and_get_abs_path btldr_fs_unlock
  unlink_file-Total name = search total_rules

pub get_file_size-Total :
    {W : Type 0} (files : FileApi W) (f : ℕ) → Total (btldr_fs_get_file_size files f)
unfolding btldr_fs_get_file_size
get_file_size-Total files f = search total_rules depth 20

module _ {W : Type 0} (sys : SystemApi W) (flash : FlashApi W) where
  pub get_flash_area_address_and_size-Total :
      (id : ℕ) → Total (get_flash_area_address_and_size sys flash id)
  unfolding get_flash_area_address_and_size
  get_flash_area_address_and_size-Total id = search total_rules

  pub load_image_header-Total : (id : ℕ) → Total (load_image_header sys flash id)
  unfolding load_image_header
  load_image_header-Total id = search total_rules

module _ {W : Type 0} (sys : SystemApi W) (flash : FlashApi W) (cfg : Config) where
  flash_erase-Total : Total (btldr_fs_flash_erase sys cfg flash)
  unfolding btldr_fs_flash_erase
  flash_erase-Total = search total_rules depth 20

  pub mount-Total : Total (btldr_fs_mount sys cfg flash)
  unfolding btldr_fs_mount
  mount-Total = search (flash_erase-Total, total_rules) depth 20

  pub unmount-Total : Total (btldr_fs_unmount sys cfg)
  unfolding btldr_fs_unmount
  unmount-Total = search total_rules
