-- ===== src/Tests/Ended.antt =====
-- The ends of the update and of the start-up, over the file system and the flash of `Updates`.
use ruuvi_air_mcuboot.Prelude.{ℕ, ◌+◌, ◌≡◌, ◌≤◌, ◌↔◌, inr, refl, some, true, List}
use ruuvi_air_mcuboot.Prelude.{arith, is_zero, pos, minus_one, leb, if◌then◌else◌}
use ruuvi_air_mcuboot.Platform.Files.{IsOpenFile}
use ruuvi_air_mcuboot.Platform.FileSystem.{IsFileSystem}
use ruuvi_air_mcuboot.Platform.Flash.{IsBounded}
use ruuvi_air_mcuboot.Tests.Memory.{layout, layout-IsFormat, toy, toy-IsCrypto}
use ruuvi_air_mcuboot.Tests.Indication.{pins}
use ruuvi_air_mcuboot.Tests.Updates.{World, signed, files, flash, system, settings, version}
use ruuvi_air_mcuboot.Tests.Startups.{hook, silent, build, before, is_placed}
use ruuvi_air_mcuboot.HwRev.Defs.{no_hw_rev}
use ruuvi_air_mcuboot.FwUpdate.{Ending, mcuboot_fw_update}
use ruuvi_air_mcuboot.FwUpdate.Restart.{HasFound, mcuboot_fw_update_lem}
use ruuvi_air_mcuboot.Hook.{Startup, on_startup}
use ruuvi_air_mcuboot.Hook.Mismatch.{IsMismatch, on_startup_halt_iff}

abbrev At : ℕ → List ℕ → World → ℕ → Type 0
At f content w p = w.0 ≡ p

signed-IsOpenFile : IsOpenFile files 1 signed (At 1 signed)
signed-IsOpenFile = record {
  not_null = omega arith;
  short = omega arith;
  seek_set_lem = λ w p off at. inr (refl, refl);
  seek_end_lem = λ w p at. inr (refl, refl);
  tell_lem = λ w p at. ground arith;
  read_lem = λ w p n at. inr (refl, rw at refl, rw at refl);
}

files-IsFileSystem : IsFileSystem files system At
files-IsFileSystem = record {
  fs_open_lem = λ path w. inr (refl, signed, signed-IsOpenFile, refl);
  k_mutex_unlock_lem = λ f content w p at. at;
}

inside_of_read : (a b : ℕ) → is_zero (if leb a b then pos 0 else minus_one) ≡ true → a ≤ b
inside_of_read a b h = ground arith

flash-IsBounded : IsBounded flash
flash-IsBounded = record {
  open_small = λ id w ok. omega arith;
  read_inside = λ fa off n w ok. inside_of_read (off + n) fa.fa_size ok;
}

mcuboot_fw_update_lem_example :
    (e : Ending) × (w : World) × (mcuboot_fw_update layout toy settings version files flash system 0
        no_hw_rev
        (0, before)
      ≡ some (e, w))
    × ((e ≡ Ending.rebooted)
        ↔ HasFound files flash system At files-IsFileSystem layout layout-IsFormat toy toy-IsCrypto
            settings version 0 no_hw_rev
            (0, before))
mcuboot_fw_update_lem_example =
    mcuboot_fw_update_lem files flash system At files-IsFileSystem layout layout-IsFormat toy
      toy-IsCrypto settings version 0 no_hw_rev (0, before)

on_startup_halt_iff_example :
    (e : Startup) × (w : World) × (on_startup hook build silent pins layout toy settings version
        files flash system 1
        (0, before)
      ≡ some (e, w))
    × ((e ≡ Startup.halted)
        ↔ IsMismatch files flash flash-IsBounded system At files-IsFileSystem layout layout-IsFormat
            toy toy-IsCrypto settings version hook build silent pins
            (0, before))
on_startup_halt_iff_example =
    on_startup_halt_iff files flash flash-IsBounded system At files-IsFileSystem layout
      layout-IsFormat toy toy-IsCrypto settings version hook build silent pins 1 (0, before)
      is_placed
