-- ===== src/BtldrFs/Frame.antt =====
-- What the functions on update files and slots keep.
use ruuvi_air_mcuboot.Prelude.{ℕ, List, Keeps}
use ruuvi_air_mcuboot.Platform.Files.{FileApi}
use ruuvi_air_mcuboot.Platform.Flash.{FlashApi}
use ruuvi_air_mcuboot.Platform.System.{SystemApi, Config}
use ruuvi_air_mcuboot.Platform.Frame.{
  IsFileFramed, IsFlashFramed, IsSystemFramed, IsMountFramed, frame_rules, hook_rules,
}
use ruuvi_air_mcuboot.BtldrFs.{
  btldr_fs_open_file, btldr_fs_close_file, btldr_fs_unlink_file, btldr_fs_is_file_exist,
  btldr_fs_lock_and_get_abs_path, btldr_fs_unlock, btldr_fs_get_file_size,
  get_flash_area_address_and_size, load_image_header, btldr_fs_flash_erase, btldr_fs_mount,
  btldr_fs_unmount,
}

module _ {W : Type 0} {I : W → Type 0} (sys : SystemApi W) (law : IsSystemFramed sys I)
    (cfg : Config) where
  pub is_file_exist-Keeps : (name : List ℕ) → Keeps I (btldr_fs_is_file_exist sys cfg name)
  unfolding btldr_fs_is_file_exist btldr_fs_lock_and_get_abs_path btldr_fs_unlock
  is_file_exist-Keeps name = search frame_rules

  pub open_file-Keeps : (name : List ℕ) → Keeps I (btldr_fs_open_file sys cfg name)
  unfolding btldr_fs_open_file btldr_fs_lock_and_get_abs_path btldr_fs_unlock
  open_file-Keeps name = search frame_rules

  pub close_file-Keeps : (f : ℕ) → Keeps I (btldr_fs_close_file sys cfg f)
  unfolding btldr_fs_close_file
  close_file-Keeps f = search frame_rules

  pub unlink_file-Keeps : (name : List ℕ) → Keeps I (btldr_fs_unlink_file sys cfg name)
  unfolding btldr_fs_unlink_file btldr_fs_lock_and_get_abs_path btldr_fs_unlock
  unlink_file-Keeps name = search frame_rules

pub get_file_size-Keeps :
    {W : Type 0} {I : W → Type 0} (files : FileApi W)
    → IsFileFramed files I
    → (f : ℕ) → Keeps I (btldr_fs_get_file_size files f)
unfolding btldr_fs_get_file_size
get_file_size-Keeps files law f = search frame_rules depth 20

module _ {W : Type 0} {I : W → Type 0} (sys : SystemApi W) (law : IsSystemFramed sys I)
    (flash : FlashApi W) (flash_law : IsFlashFramed flash I) where
  pub get_flash_area_address_and_size-Keeps :
      (id : ℕ) → Keeps I (get_flash_area_address_and_size sys flash id)
  unfolding get_flash_area_address_and_size
  get_flash_area_address_and_size-Keeps id = search frame_rules

  pub load_image_header-Keeps : (id : ℕ) → Keeps I (load_image_header sys flash id)
  unfolding load_image_header
  load_image_header-Keeps id = search frame_rules

module _ {W : Type 0} {I : W → Type 0} (sys : SystemApi W) (law : IsMountFramed sys I)
    (flash : FlashApi W) (flash_law : IsFlashFramed flash I) (cfg : Config) where
  flash_erase-Keeps : Keeps I (btldr_fs_flash_erase sys cfg flash)
  unfolding btldr_fs_flash_erase
  flash_erase-Keeps = search (hook_rules, frame_rules) depth 20

  pub mount-Keeps : Keeps I (btldr_fs_mount sys cfg flash)
  unfolding btldr_fs_mount
  mount-Keeps = search (flash_erase-Keeps, hook_rules, frame_rules) depth 20

  pub unmount-Keeps : Keeps I (btldr_fs_unmount sys cfg)
  unfolding btldr_fs_unmount
  unmount-Keeps = search (hook_rules, frame_rules) depth 20
