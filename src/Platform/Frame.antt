-- ===== src/Platform/Frame.antt =====
-- Calls that leave alone what a predicate on the world is about, and the rules for runs made of them.
use ruuvi_air_mcuboot.Prelude.{
  ℕ, ◌≡◌, ◌≢◌, true, some, is_zero, List, lift, Keeps, Keeps-lift, Keeps-pure, Keeps-out_of_fuel,
  Keeps-if, Keeps-Option, Keeps-bind,
}
use ruuvi_air_mcuboot.Platform.Files.{FileApi, Whence}
use ruuvi_air_mcuboot.Platform.Flash.{FlashApi, FlashArea}
use ruuvi_air_mcuboot.Platform.System.{SystemApi, FwInfo}
use ruuvi_air_mcuboot.Platform.Format.{ImageHeader}
use ruuvi_air_mcuboot.Platform.Hook.{HookApi, ImageMaxSize}

-- Reading a file keeps `I`.
pub record IsFileFramed {W : Type 0} (files : FileApi W) (I : W → Type 0) : Type 0 where
  pub fs_seek_lem :
      (f : ℕ) (off : ℕ) (whence : Whence) (w : W) → I w → I (files.fs_seek f off whence w).1
  pub fs_tell_lem : (f : ℕ) (w : W) → I w → I (files.fs_tell f w).1
  pub fs_read_lem : (f : ℕ) (n : ℕ) (w : W) → I w → I (files.fs_read f n w).1

-- Opening, closing and reading a flash area keep `I`.
pub record IsFlashFramed {W : Type 0} (flash : FlashApi W) (I : W → Type 0) : Type 0 where
  pub flash_area_open_lem : (id : ℕ) (w : W) → I w → I (flash.flash_area_open id w).1
  pub flash_area_close_lem : (fa : FlashArea) (w : W) → I w → I (flash.flash_area_close fa w).1
  pub flash_area_read_lem :
      (fa : FlashArea) (off : ℕ) (n : ℕ) (w : W) → I w → I (flash.flash_area_read fa off n w).1

-- Looking up files and firmware informations, and removing a file, keep `I`.
pub record IsSystemFramed {W : Type 0} (sys : SystemApi W) (I : W → Type 0) : Type 0 where
  pub fs_open_lem : (path : List ℕ) (w : W) → I w → I (sys.fs_open path w).1
  pub fs_close_lem : (f : ℕ) (w : W) → I w → I (sys.fs_close f w).1
  pub fs_unlink_lem : (path : List ℕ) (w : W) → I w → I (sys.fs_unlink path w).1
  pub fs_stat_lem : (path : List ℕ) (w : W) → I w → I (sys.fs_stat path w).1
  pub k_mutex_lock_lem : (w : W) → I w → I (sys.k_mutex_lock w).1
  pub k_mutex_unlock_lem : (w : W) → I w → I (sys.k_mutex_unlock w).1
  pub boot_image_load_header_lem :
      (fa : FlashArea) (w : W) → I w → I (sys.boot_image_load_header fa w).1
  pub fw_info_find_lem : (address : ℕ) (w : W) → I w → I (sys.fw_info_find address w).1
  pub bl_validate_firmware_lem :
      (address : ℕ) (start : ℕ) (w : W) → I w → I (sys.bl_validate_firmware address start w).1
  pub load_shared_lem : (bytes : List ℕ) (w : W) → I w → I (sys.load_shared bytes w).1

module _ {W : Type 0} {I : W → Type 0} (files : FileApi W) where
  pub Keeps-fs_seek :
      (f : ℕ) (off : ℕ) (whence : Whence)
      → IsFileFramed files I
      → Keeps I (lift (files.fs_seek f off whence))
  Keeps-fs_seek f off whence law =
      Keeps-lift (files.fs_seek f off whence) (law.fs_seek_lem f off whence)

  pub Keeps-fs_tell : (f : ℕ) → IsFileFramed files I → Keeps I (lift (files.fs_tell f))
  Keeps-fs_tell f law = Keeps-lift (files.fs_tell f) (law.fs_tell_lem f)

  pub Keeps-fs_read : (f : ℕ) (n : ℕ) → IsFileFramed files I → Keeps I (lift (files.fs_read f n))
  Keeps-fs_read f n law = Keeps-lift (files.fs_read f n) (law.fs_read_lem f n)

module _ {W : Type 0} {I : W → Type 0} (flash : FlashApi W) where
  pub Keeps-flash_area_open :
      (id : ℕ) → IsFlashFramed flash I → Keeps I (lift (flash.flash_area_open id))
  Keeps-flash_area_open id law = Keeps-lift (flash.flash_area_open id) (law.flash_area_open_lem id)

  pub Keeps-flash_area_close :
      (fa : FlashArea) → IsFlashFramed flash I → Keeps I (lift (flash.flash_area_close fa))
  Keeps-flash_area_close fa law =
      Keeps-lift (flash.flash_area_close fa) (law.flash_area_close_lem fa)

  pub Keeps-flash_area_read :
      (fa : FlashArea) (off : ℕ) (n : ℕ)
      → IsFlashFramed flash I
      → Keeps I (lift (flash.flash_area_read fa off n))
  Keeps-flash_area_read fa off n law =
      Keeps-lift (flash.flash_area_read fa off n) (law.flash_area_read_lem fa off n)

module _ {W : Type 0} {I : W → Type 0} (sys : SystemApi W) where
  pub Keeps-fs_open : (path : List ℕ) → IsSystemFramed sys I → Keeps I (lift (sys.fs_open path))
  Keeps-fs_open path law = Keeps-lift (sys.fs_open path) (law.fs_open_lem path)

  pub Keeps-fs_close : (f : ℕ) → IsSystemFramed sys I → Keeps I (lift (sys.fs_close f))
  Keeps-fs_close f law = Keeps-lift (sys.fs_close f) (law.fs_close_lem f)

  pub Keeps-fs_unlink : (path : List ℕ) → IsSystemFramed sys I → Keeps I (lift (sys.fs_unlink path))
  Keeps-fs_unlink path law = Keeps-lift (sys.fs_unlink path) (law.fs_unlink_lem path)

  pub Keeps-fs_stat : (path : List ℕ) → IsSystemFramed sys I → Keeps I (lift (sys.fs_stat path))
  Keeps-fs_stat path law = Keeps-lift (sys.fs_stat path) (law.fs_stat_lem path)

  pub Keeps-k_mutex_lock : IsSystemFramed sys I → Keeps I (lift (sys.k_mutex_lock))
  Keeps-k_mutex_lock law = Keeps-lift (sys.k_mutex_lock) (law.k_mutex_lock_lem)

  pub Keeps-k_mutex_unlock : IsSystemFramed sys I → Keeps I (lift (sys.k_mutex_unlock))
  Keeps-k_mutex_unlock law = Keeps-lift (sys.k_mutex_unlock) (law.k_mutex_unlock_lem)

  pub Keeps-boot_image_load_header :
      (fa : FlashArea) → IsSystemFramed sys I → Keeps I (lift (sys.boot_image_load_header fa))
  Keeps-boot_image_load_header fa law =
      Keeps-lift (sys.boot_image_load_header fa) (law.boot_image_load_header_lem fa)

  pub Keeps-fw_info_find :
      (address : ℕ) → IsSystemFramed sys I → Keeps I (lift (sys.fw_info_find address))
  Keeps-fw_info_find address law =
      Keeps-lift (sys.fw_info_find address) (law.fw_info_find_lem address)

  pub Keeps-bl_validate_firmware :
      (address : ℕ) (start : ℕ)
      → IsSystemFramed sys I
      → Keeps I (lift (sys.bl_validate_firmware address start))
  Keeps-bl_validate_firmware address start law =
      Keeps-lift (sys.bl_validate_firmware address start)
        (law.bl_validate_firmware_lem address start)

  pub Keeps-load_shared :
      (bytes : List ℕ) → IsSystemFramed sys I → Keeps I (lift (sys.load_shared bytes))
  Keeps-load_shared bytes law = Keeps-lift (sys.load_shared bytes) (law.load_shared_lem bytes)

pub ruleset frame_rules = (
  Keeps-pure, Keeps-out_of_fuel, Keeps-if, Keeps-Option, Keeps-bind, Keeps-fs_seek, Keeps-fs_tell,
  Keeps-fs_read, Keeps-flash_area_open, Keeps-flash_area_close, Keeps-flash_area_read,
  Keeps-fs_open, Keeps-fs_close, Keeps-fs_unlink, Keeps-fs_stat, Keeps-k_mutex_lock,
  Keeps-k_mutex_unlock, Keeps-boot_image_load_header, Keeps-fw_info_find,
  Keeps-bl_validate_firmware, Keeps-load_shared,
)

-- Mounting the file system, erasing its partition and restarting keep `I`.
pub record IsMountFramed {W : Type 0} (sys : SystemApi W) (I : W → Type 0) : Type 0 where
  pub fs_mount_lem : (w : W) → I w → I (sys.fs_mount w).1
  pub fs_statvfs_lem : (w : W) → I w → I (sys.fs_statvfs w).1
  pub fs_unmount_lem : (w : W) → I w → I (sys.fs_unmount w).1
  pub flash_area_flatten_lem :
      (fa : FlashArea) (off n : ℕ) (w : W) → I w → I (sys.flash_area_flatten fa off n w).1
  pub sys_reboot_lem : (w : W) → I w → I (sys.sys_reboot w).1

-- An open flash area is the one that was asked for, and erasing, writing or invalidating in an area
-- other than `slot` keeps `I`: `I` is about that slot.
pub record IsSlotFramed {W : Type 0} (flash : FlashApi W) (sys : SystemApi W) (I : W → Type 0)
    (slot : ℕ) : Type 0 where
  pub open_id_lem :
      (id : ℕ) (w : W)
      → is_zero (flash.flash_area_open id w).0.0 ≡ true
      → (flash.flash_area_open id w).0.1.fa_id ≡ id
  pub flash_area_erase_lem :
      (fa : FlashArea) (off n : ℕ) (w : W)
      → fa.fa_id ≢ slot
      → I w
      → I (flash.flash_area_erase fa off n w).1
  pub flash_area_write_lem :
      (fa : FlashArea) (off : ℕ) (bytes : List ℕ) (w : W)
      → fa.fa_id ≢ slot
      → I w
      → I (flash.flash_area_write fa off bytes w).1
  -- the firmware information is one that was found in that area
  pub fw_info_invalidate_lem :
      (fa : FlashArea) (u : W) (info : FwInfo) (w : W)
      → fa.fa_id ≢ slot
      → (sys.fw_info_find fa.fa_off u).0 ≡ some info
      → I w
      → I (sys.fw_info_invalidate info w).1

-- Saving shared data and sleeping keep `I`.
pub record IsHookFramed {W : Type 0} (hook : HookApi W) (I : W → Type 0) : Type 0 where
  pub boot_save_boot_status_lem :
      (module_id : ℕ) (hdr : ImageHeader) (fa : FlashArea) (w : W)
      → I w
      → I (hook.boot_save_boot_status module_id hdr fa w).1
  pub boot_save_shared_data_lem :
      (hdr : ImageHeader) (fa : FlashArea) (slot : ℕ) (a b : ImageMaxSize) (w : W)
      → I w
      → I (hook.boot_save_shared_data hdr fa slot a b w).1
  pub k_msleep_lem : (ms : ℕ) (w : W) → I w → I (hook.k_msleep ms w).1

module _ {W : Type 0} {I : W → Type 0} (sys : SystemApi W) where
  pub Keeps-fs_mount : IsMountFramed sys I → Keeps I (lift sys.fs_mount)
  Keeps-fs_mount law = Keeps-lift sys.fs_mount law.fs_mount_lem

  pub Keeps-fs_statvfs : IsMountFramed sys I → Keeps I (lift sys.fs_statvfs)
  Keeps-fs_statvfs law = Keeps-lift sys.fs_statvfs law.fs_statvfs_lem

  pub Keeps-fs_unmount : IsMountFramed sys I → Keeps I (lift sys.fs_unmount)
  Keeps-fs_unmount law = Keeps-lift sys.fs_unmount law.fs_unmount_lem

  pub Keeps-flash_area_flatten :
      (fa : FlashArea) (off n : ℕ)
      → IsMountFramed sys I
      → Keeps I (lift (sys.flash_area_flatten fa off n))
  Keeps-flash_area_flatten fa off n law =
      Keeps-lift (sys.flash_area_flatten fa off n) (law.flash_area_flatten_lem fa off n)

  pub Keeps-sys_reboot : IsMountFramed sys I → Keeps I (lift sys.sys_reboot)
  Keeps-sys_reboot law = Keeps-lift sys.sys_reboot law.sys_reboot_lem

module _ {W : Type 0} {I : W → Type 0} (hook : HookApi W) where
  pub Keeps-boot_save_boot_status :
      (module_id : ℕ) (hdr : ImageHeader) (fa : FlashArea)
      → IsHookFramed hook I
      → Keeps I (lift (hook.boot_save_boot_status module_id hdr fa))
  Keeps-boot_save_boot_status module_id hdr fa law =
      Keeps-lift (hook.boot_save_boot_status module_id hdr fa)
        (law.boot_save_boot_status_lem module_id hdr fa)

  pub Keeps-boot_save_shared_data :
      (hdr : ImageHeader) (fa : FlashArea) (slot : ℕ) (a b : ImageMaxSize)
      → IsHookFramed hook I
      → Keeps I (lift (hook.boot_save_shared_data hdr fa slot a b))
  Keeps-boot_save_shared_data hdr fa slot a b law =
      Keeps-lift (hook.boot_save_shared_data hdr fa slot a b)
        (law.boot_save_shared_data_lem hdr fa slot a b)

  pub Keeps-k_msleep : (ms : ℕ) → IsHookFramed hook I → Keeps I (lift (hook.k_msleep ms))
  Keeps-k_msleep ms law = Keeps-lift (hook.k_msleep ms) (law.k_msleep_lem ms)

pub ruleset hook_rules = (
  Keeps-fs_mount, Keeps-fs_statvfs, Keeps-fs_unmount, Keeps-flash_area_flatten, Keeps-sys_reboot,
  Keeps-boot_save_boot_status, Keeps-boot_save_shared_data, Keeps-k_msleep,
)
