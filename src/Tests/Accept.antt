-- ===== src/Tests/Accept.antt =====
-- The checks of a file on the image with a hardware revision.
use ruuvi_air_mcuboot.Prelude.{pure}
use ruuvi_air_mcuboot.Prelude.{ℕ, refl, true, slice, some, Runs, arith, pos}
use ruuvi_air_mcuboot.Platform.Files.{IsOpen}
use ruuvi_air_mcuboot.Platform.System.{SystemApi}
use ruuvi_air_mcuboot.Tests.Memory.{
  memory, At, memory-IsOpenFile, layout, layout-IsFormat, toy, toy-IsCrypto,
}
use ruuvi_air_mcuboot.Tests.Update.{config}
use ruuvi_air_mcuboot.Tests.Revision.{revised}
use ruuvi_air_mcuboot.FwUpdate.{Loaded, load_image_header_from_file, validate_open_file}
use ruuvi_air_mcuboot.FwUpdate.Header.{IsLoaded, MaybeLoaded, load_image_header_from_file_lem}
use ruuvi_air_mcuboot.FwUpdate.Accept.{Judged, validate_open_file_lem}

-- Every call succeeds; file 1 opens at its start.
abbrev system : SystemApi ℕ
system = record {
  fs_open = λ path w. (record { rc = pos 0; filep = 1 }, 0);
  fs_close = λ f w. (pos 0, w);
  fs_unlink = λ path w. (pos 0, w);
  fs_stat = λ path w. (record { rc = pos 0; is_file = true }, w);
  fs_mount = λ w. (pos 0, w);
  fs_statvfs = λ w. (pos 0, w);
  fs_unmount = λ w. (pos 0, w);
  flash_area_flatten = λ fa off n w. (pos 0, w);
  k_mutex_lock = λ w. (tt, w);
  k_mutex_unlock = λ w. (tt, w);
  boot_image_load_header = λ fa w. ((pos 0, layout.parse_header (slice revised 0 32)), w);
  fw_info_find = λ address w. (some (config.parse_fw_info revised), w);
  fw_info_invalidate = λ info w. (tt, w);
  bl_validate_firmware = λ address start w. (true, w);
  load_shared = λ bytes w. (tt, w);
  sys_reboot = λ w. (tt, w);
}

abbrev loaded : Loaded
loaded = record { hdr = layout.parse_header (slice revised 0 32); img_size = 32 }

loaded-IsLoaded :
    IsLoaded layout layout-IsFormat toy toy-IsCrypto config
      (memory revised)
      system
      1
      revised
      At
      (memory-IsOpenFile revised (omega arith))
      loaded
loaded-IsLoaded = record {
  hdr_eq = refl;
  magic = refl;
  bootable = refl;
  img_size_eq = refl;
  inside = omega arith;
}

load_image_header_from_file_lem_example :
    Runs
      (λ l w.
        MaybeLoaded layout layout-IsFormat toy toy-IsCrypto config
          (memory revised)
          system
          1
          revised
          At
          (memory-IsOpenFile revised (omega arith))
          l
        × IsOpen (memory revised) 1 revised At w)
      (load_image_header_from_file layout toy config (memory revised) system 1 0)
load_image_header_from_file_lem_example =
    load_image_header_from_file_lem layout layout-IsFormat toy toy-IsCrypto config (memory revised)
      system 1 revised At (memory-IsOpenFile revised (omega arith)) 0 refl

validate_open_file_lem_example :
    Runs
      (Judged layout layout-IsFormat toy toy-IsCrypto config
        (memory revised)
        system
        1
        revised
        At
        (memory-IsOpenFile revised (omega arith))
        0
        64
        loaded
        loaded-IsLoaded)
      (validate_open_file layout toy config (memory revised) system pure 1 0 64 loaded 0)
validate_open_file_lem_example =
    validate_open_file_lem layout layout-IsFormat toy toy-IsCrypto config (memory revised) system 1
      revised At (memory-IsOpenFile revised (omega arith)) 0 64 loaded loaded-IsLoaded 0 (0, refl)
