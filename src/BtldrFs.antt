-- ===== src/BtldrFs.antt =====
-- The file system of the update: src/btldr_fs.c, and src/mcuboot_fa_utils.c.
pub mod Frame
pub mod Total
use ruuvi_air_mcuboot.Prelude.{ℕ, Bool, false, not, ◌&&◌, List, ◌∷◌, ◌++◌, take, ◌-◌}
use ruuvi_air_mcuboot.Prelude.{
  if◌then◌else◌, ℤ, pos, is_neg, is_zero, M, pure, lift, ◌>>=◌, ◌>>◌, to_u32,
}
use ruuvi_air_mcuboot.Prelude.{Option, none, some}
use ruuvi_air_mcuboot.Platform.Format.{ImageHeader}
use ruuvi_air_mcuboot.Platform.Files.{FileApi, Whence}
use ruuvi_air_mcuboot.Platform.Flash.{FlashApi}
use ruuvi_air_mcuboot.Platform.System.{SystemApi, Config, StatResult}

-- What `snprintf` leaves in the buffer: "mnt_point/name", cut to leave room for the NUL.
unfoldable pub abs_path : Config → List ℕ → List ℕ
abs_path cfg name = take (cfg.abs_path_size - 1) (cfg.mnt_point ++ (47 ∷ name))

-- The answer of `btldr_fs_is_file_exist` to `fs_stat`.
unfoldable pub is_existing_file : StatResult → Bool
is_existing_file r = is_zero r.rc && r.is_file

module _ {W : Type 0} (sys : SystemApi W) (cfg : Config) where
  unfoldable pub btldr_fs_lock_and_get_abs_path : List ℕ → M W (List ℕ)
  btldr_fs_lock_and_get_abs_path name = do lift sys.k_mutex_lock; pure (abs_path cfg name)

  unfoldable pub btldr_fs_unlock : M W (Unit {0})
  btldr_fs_unlock = lift sys.k_mutex_unlock

  unfoldable pub btldr_fs_is_file_exist : List ℕ → M W Bool
  btldr_fs_is_file_exist name = do
    path ← btldr_fs_lock_and_get_abs_path name
    r ← lift (sys.fs_stat path)
    btldr_fs_unlock
    pure (is_existing_file r)

  -- The `filep` of the file: 0 where it could not be opened.
  unfoldable pub btldr_fs_open_file : List ℕ → M W ℕ
  btldr_fs_open_file name = do
    path ← btldr_fs_lock_and_get_abs_path name
    r ← lift (sys.fs_open path)
    btldr_fs_unlock
    pure (if is_neg r.rc then 0 else r.filep)

  unfoldable pub btldr_fs_close_file : ℕ → M W (Unit {0})
  btldr_fs_close_file f = do rc ← lift (sys.fs_close f); pure tt

  unfoldable pub btldr_fs_unlink_file : List ℕ → M W Bool
  btldr_fs_unlink_file name = do
    path ← btldr_fs_lock_and_get_abs_path name
    rc ← lift (sys.fs_unlink path)
    btldr_fs_unlock
    pure (not (is_neg rc))

  unfoldable pub btldr_fs_flash_erase : FlashApi W → M W Bool
  btldr_fs_flash_erase flash = do
    (rc, fa) ← lift (flash.flash_area_open cfg.littlefs_storage1)
    if is_neg rc then pure false else do
      rc ← lift (sys.flash_area_flatten fa 0 fa.fa_size)
      lift (flash.flash_area_close fa)
      pure (not (is_neg rc))

  unfoldable pub btldr_fs_mount : FlashApi W → M W Bool
  btldr_fs_mount flash = do
    rc ← lift sys.fs_mount
    if not (is_zero rc)
        then (do erased ← btldr_fs_flash_erase flash; pure false)
        else (do rc ← lift sys.fs_statvfs; pure (not (is_neg rc)))

  unfoldable pub btldr_fs_unmount : M W (Unit {0})
  btldr_fs_unmount = do rc ← lift sys.fs_unmount; pure tt

-- The position is put back; an error of the last seek is ignored.
unfoldable pub btldr_fs_get_file_size : {W : Type 0} → FileApi W → ℕ → M W ℤ
btldr_fs_get_file_size files f = do
  cur_offset ← lift (files.fs_tell f)
  rc ← lift (files.fs_seek f 0 Whence.seek_end)
  if not (is_zero rc) then pure (pos 0) else do
    size ← lift (files.fs_tell f)
    rc ← lift (files.fs_seek f (to_u32 cur_offset) Whence.seek_set)
    pure size

module _ {W : Type 0} (sys : SystemApi W) (flash : FlashApi W) where
  -- The address and the size, where the area can be opened.
  unfoldable pub get_flash_area_address_and_size : ℕ → M W (Option (ℕ × ℕ))
  get_flash_area_address_and_size fa_id = do
    (rc, fa) ← lift (flash.flash_area_open fa_id)
    if not (is_zero rc)
        then pure none
        else do lift (flash.flash_area_close fa); pure (some (fa.fa_off, fa.fa_size))

  unfoldable pub load_image_header : ℕ → M W (Option ImageHeader)
  load_image_header fa_id = do
    (rc, fa) ← lift (flash.flash_area_open fa_id)
    if not (is_zero rc) then pure none else do
      (rc, hdr) ← lift (sys.boot_image_load_header fa)
      lift (flash.flash_area_close fa)
      pure (if not (is_zero rc) then none else some hdr)
