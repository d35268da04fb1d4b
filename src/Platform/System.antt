-- ===== src/Platform/System.antt =====
-- The rest of what the firmware update calls: files by path, the mutex, the firmware information
-- that the immutable bootloader keeps, and the reboot.
use ruuvi_air_mcuboot.Prelude.{ℕ, Option, List, Bool, ℤ}
use ruuvi_air_mcuboot.Platform.Format.{ImageHeader}
use ruuvi_air_mcuboot.Platform.Flash.{FlashArea}

-- The result of `fs_open`: its return value and the `filep` it set.
pub record OpenResult : Type 0 where
  pub rc : ℤ
  pub filep : ℕ

-- The result of `fs_stat`; `is_file` is `FS_DIR_ENTRY_FILE == type`.
pub record StatResult : Type 0 where
  pub rc : ℤ
  pub is_file : Bool

-- `struct fw_info`, the fields that the code reads.
pub record FwInfo : Type 0 where
  pub magic : List ℕ
  pub address : ℕ
  pub version : ℕ

pub record SystemApi (W : Type 0) : Type 0 where
  pub fs_open : List ℕ → W → OpenResult × W
  pub fs_close : ℕ → W → ℤ × W
  pub fs_unlink : List ℕ → W → ℤ × W
  pub fs_stat : List ℕ → W → StatResult × W
  pub fs_mount : W → ℤ × W
  pub fs_statvfs : W → ℤ × W
  pub fs_unmount : W → ℤ × W
  pub flash_area_flatten : FlashArea → ℕ → ℕ → W → ℤ × W
  pub k_mutex_lock : W → Unit {0} × W
  pub k_mutex_unlock : W → Unit {0} × W
  -- the header, where the call succeeds
  pub boot_image_load_header : FlashArea → W → (ℤ × ImageHeader) × W
  -- none is NULL; the argument is an address, of flash or of memory
  pub fw_info_find : ℕ → W → Option FwInfo × W
  pub fw_info_invalidate : FwInfo → W → Unit {0} × W
  pub bl_validate_firmware : ℕ → ℕ → W → Bool × W
  -- what `g_shared_img_buf` holds, and a write to its start
  pub load_shared : List ℕ → W → Unit {0} × W
  pub sys_reboot : W → Unit {0} × W

-- The constants of the build and of headers outside this repository.
pub record Config : Type 0 where
  pub mnt_point : List ℕ
  -- `sizeof(g_btldr_fs_abs_path.buf)`
  pub abs_path_size : ℕ
  pub littlefs_storage1 : ℕ
  pub s0 : ℕ
  pub s1 : ℕ
  pub mcuboot_primary : ℕ
  pub mcuboot_secondary : ℕ
  pub mcuboot0_file_name : List ℕ
  pub mcuboot1_file_name : List ℕ
  pub loader_file_name : List ℕ
  pub app_file_name : List ℕ
  -- the address of `g_shared_img_buf` and its size
  pub shared_addr : ℕ
  pub shared_size : ℕ
  pub image_magic : ℕ
  -- `0 != (flags & IMAGE_F_NON_BOOTABLE)`
  pub is_non_bootable : ℕ → Bool
  pub hw_rev_id_tlv : ℕ
  pub hw_rev_name_tlv : ℕ
  pub fw_info_size : ℕ
  pub parse_fw_info : List ℕ → FwInfo
  pub fw_info_magic : List ℕ
  pub fw_info_magic_len : ℕ
  pub fw_info_allowed_offsets : List ℕ
  -- MCUBOOT_DOWNGRADE_PREVENTION and MCUBOOT_VERSION_CMP_USE_BUILD_NUMBER
  pub downgrade_prevention : Bool
  pub cmp_build_number : Bool
