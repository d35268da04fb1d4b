-- ===== src/Tests/Updates.antt =====
-- A file system that holds an update of the application, and the update from it.
use ruuvi_air_mcuboot.Prelude.{◌↔◌, none}
use ruuvi_air_mcuboot.Platform.Format.{ImageHeader}
use ruuvi_air_mcuboot.FwUpdate.{version_of}
use ruuvi_air_mcuboot.FwUpdate.Order.{IsOlder, check_downgrade_prevention_lem}
use ruuvi_air_mcuboot.Prelude.{
  ℕ, ◌+◌, ◌≡◌, ◌⊎◌, refl, true, false, Bool, Option, some, pos, minus_one,
}
use ruuvi_air_mcuboot.Prelude.{List, [], ◌∷◌, ◌++◌, replicate, length, slice, take, drop, get_or}
use ruuvi_air_mcuboot.Prelude.{◌==◌, leb, if◌then◌else◌}
use ruuvi_air_mcuboot.Platform.Format.{ImageVersion}
use ruuvi_air_mcuboot.Platform.Files.{FileApi}
use ruuvi_air_mcuboot.Platform.Flash.{FlashApi, FlashArea, erased}
use ruuvi_air_mcuboot.Platform.System.{SystemApi, Config}
use ruuvi_air_mcuboot.Platform.Frame.{IsFileFramed, IsFlashFramed, IsSystemFramed}
use ruuvi_air_mcuboot.Tests.Memory.{memory_seek, layout, toy}
use ruuvi_air_mcuboot.Tests.Update.{config}
use ruuvi_air_mcuboot.BtldrFs.{load_image_header}
use ruuvi_air_mcuboot.FwUpdate.{check_updates_on_fs, check_downgrade_prevention}
use ruuvi_air_mcuboot.HwRev.Defs.{no_hw_rev}

-- The position of the open file, and the bytes of the flash area.
abbrev pub World : Type 0
World = ℕ × List ℕ

-- A header, an image of eight bytes whose second word is 10, the hardware revision, and the TLVs
-- of a hash, a key and a signature.
abbrev pub signed : List ℕ
signed =
    ((7 ∷ replicate 7 0 ++ (32 ∷ 0 ∷ 18 ∷ 0 ∷ 8 ∷ 0 ∷ 0 ∷ 0 ∷ 0 ∷ 0 ∷ 0 ∷ 0 ∷ 1 ∷ replicate 11 0))
      ++ (0 ∷ 0 ∷ 0 ∷ 0 ∷ 10 ∷ 0 ∷ 0 ∷ 0 ∷ []))
    ++ ((0x08 ∷ 0x69 ∷ 18 ∷ 0 ∷ 160 ∷ 0 ∷ 4 ∷ 0 ∷ 0 ∷ 0 ∷ 0 ∷ 2 ∷ 161 ∷ 0 ∷ 2 ∷ 0 ∷ 65 ∷ 66 ∷ [])
        ++ (0x07 ∷ 0x69 ∷ 22 ∷ 0 ∷ 0x10 ∷ 0 ∷ 2 ∷ 0 ∷ 155 ∷ 58 ∷ 0x01 ∷ 0 ∷ 2 ∷ 0 ∷ 9 ∷ 1 ∷ 0x22 ∷ 0
            ∷ 2 ∷ 0 ∷ 155 ∷ 58 ∷ []))

abbrev pub files : FileApi World
files = record {
  fs_seek = λ f off whence w. (pos 0, (memory_seek signed off whence, w.1));
  fs_tell = λ f w. (pos w.0, w);
  fs_read = λ f n w. (
    record { rc = pos (length (slice signed w.0 n)); bytes = slice signed w.0 n },
    (w.0 + length (slice signed w.0 n), w.1),
  );
}

-- Only the area 3 has bytes that may change.
abbrev area : FlashArea
area = record { fa_id = 3; fa_off = 0; fa_size = 96 }

abbrev pub flash : FlashApi World
flash = record {
  flash_area_open = λ id w. ((pos 0, record area { fa_id = id }), w);
  flash_area_close = λ fa w. (tt, w);
  flash_area_erase = λ fa off n w. (pos 0, (w.0, if fa.fa_id == 3 then erased fa.fa_size else w.1));
  flash_area_write = λ fa off buf w. (
    pos 0,
    (w.0, if fa.fa_id == 3 then take off w.1 ++ (buf ++ drop (off + length buf) w.1) else w.1),
  );
  flash_area_read = λ fa off n w. (
    record { rc = if leb (off + n) fa.fa_size then pos 0 else minus_one; bytes = slice w.1 off n },
    w,
  );
}

-- The firmware information starts where the image does.
abbrev pub settings : Config
settings = record config { fw_info_magic = 7 ∷ [] }

-- Only the application's file exists.
abbrev pub system : SystemApi World
system = record {
  fs_open = λ path w. (record { rc = pos 0; filep = 1 }, (0, w.1));
  fs_close = λ f w. (pos 0, w);
  fs_unlink = λ path w. (pos 0, w);
  fs_stat = λ path w.
      (record { rc = if get_or path 2 0 == 65 then pos 0 else minus_one; is_file = true }, w);
  fs_mount = λ w. (pos 0, w);
  fs_statvfs = λ w. (pos 0, w);
  fs_unmount = λ w. (pos 0, w);
  flash_area_flatten = λ fa off n w. (pos 0, w);
  k_mutex_lock = λ w. (tt, w);
  k_mutex_unlock = λ w. (tt, w);
  boot_image_load_header = λ fa w. ((pos 0, layout.parse_header (slice signed 0 32)), w);
  fw_info_find = λ address w. (some (settings.parse_fw_info signed), w);
  fw_info_invalidate = λ info w. (tt, w);
  bl_validate_firmware = λ address start w. (true, w);
  load_shared = λ bytes w. (tt, w);
  sys_reboot = λ w. (tt, w);
}

-- The flash holds what it held.
abbrev pub Kept : List ℕ → World → Type 0
Kept mem w = w.1 ≡ mem

pub files-IsFileFramed : (mem : List ℕ) → IsFileFramed files (Kept mem)
files-IsFileFramed mem = record {
  fs_seek_lem = λ f off whence w h. h;
  fs_tell_lem = λ f w h. h;
  fs_read_lem = λ f n w h. h;
}

pub flash-IsFlashFramed : (mem : List ℕ) → IsFlashFramed flash (Kept mem)
flash-IsFlashFramed mem = record {
  flash_area_open_lem = λ id w h. h;
  flash_area_close_lem = λ fa w h. h;
  flash_area_read_lem = λ fa off n w h. h;
}

pub system-IsSystemFramed : (mem : List ℕ) → IsSystemFramed system (Kept mem)
system-IsSystemFramed mem = record {
  fs_open_lem = λ path w h. h;
  fs_close_lem = λ f w h. h;
  fs_unlink_lem = λ path w h. h;
  fs_stat_lem = λ path w h. h;
  k_mutex_lock_lem = λ w h. h;
  k_mutex_unlock_lem = λ w h. h;
  boot_image_load_header_lem = λ fa w h. h;
  fw_info_find_lem = λ address w h. h;
  bl_validate_firmware_lem = λ address start w h. h;
  load_shared_lem = λ bytes w h. h;
}

abbrev pub version : ImageVersion
version = record { iv_major = 1; iv_minor = 0; iv_revision = 0; iv_build_num = 0 }

unfoldable update : Option (Bool × World)
update =
    check_updates_on_fs layout toy settings version files flash system 0 no_hw_rev
      (0, replicate 96 5)

abbrev slot_header : ImageHeader
slot_header = layout.parse_header (slice signed 0 32)

header_run : load_image_header system flash 1 (0, []) ≡ some (some slot_header, (0, []))
unfolding load_image_header
header_run = refl

check_downgrade_prevention_lem_example :
    (ok : Bool) × (check_downgrade_prevention layout toy settings slot_header.ih_ver files flash
        system 1 none
        (0, [])
      ≡ some (ok, (0, [])))
    × ((ok ≡ false) ↔ (
        (some slot_header ≡ none)
        ⊎ (((settings.s0 ≡ 1) ⊎ (settings.s1 ≡ 1))
            × IsOlder false (version_of none) slot_header.ih_ver)))
check_downgrade_prevention_lem_example =
    check_downgrade_prevention_lem layout toy settings slot_header.ih_ver files flash system 1 none
      (0, []) (some slot_header) (0, []) header_run
