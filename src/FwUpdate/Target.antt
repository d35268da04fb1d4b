-- ===== src/FwUpdate/Target.antt =====
-- Which slot an update changes, and with which permit.
use ruuvi_air_mcuboot.Prelude.{ℕ, ◌≡◌, ◌⊎◌, Bool, true, false, List}
use ruuvi_air_mcuboot.Platform.Format.{ImageFormat, ImageVersion}
use ruuvi_air_mcuboot.Platform.Files.{FileApi}
use ruuvi_air_mcuboot.Platform.Flash.{FlashApi}
use ruuvi_air_mcuboot.Platform.Crypto.{Crypto}
use ruuvi_air_mcuboot.Platform.System.{SystemApi, Config}
use ruuvi_air_mcuboot.Platform.Frame.{IsFileFramed, IsFlashFramed, IsSystemFramed, IsSlotFramed}
use ruuvi_air_mcuboot.HwRev.Defs.{HwRev}
use ruuvi_air_mcuboot.FwUpdate.Permit.{Permit}
use ruuvi_air_mcuboot.FwUpdate.Pending.{IsPending}

-- Any answer.
abbrev Any : Bool → Type 0
Any b = Unit {0}

module _ {W : Type 0} {I : W → Type 0} (files : FileApi W) (file_law : IsFileFramed files I)
    (flash : FlashApi W) (flash_law : IsFlashFramed flash I) (sys : SystemApi W)
    (sys_law : IsSystemFramed sys I) (slot : ℕ) (slot_law : IsSlotFramed flash sys I slot)
    (fmt : ImageFormat) (c : Crypto) (cfg : Config) (s0_s1_version : ImageVersion) where
  -- The slot is the target of a file that had the permit for it.
  abbrev pub HasPermit : List ℕ → ℕ → HwRev → Bool → Type 0
  HasPermit name dst p_hw_rev flag =
      (slot ≡ dst)
      × Permit files file_law flash flash_law sys sys_law fmt c cfg s0_s1_version name dst p_hw_rev
          flag

  -- While s0 runs: the file for s1, a pending update of s0, which is then invalidated, or the files
  -- for the loader and for the application.
  abbrev pub FromS0 : HwRev → Type 0
  FromS0 p_hw_rev =
      HasPermit cfg.mcuboot1_file_name cfg.s1 p_hw_rev true
      ⊎ ((slot ≡ cfg.s0)
          × IsPending files file_law flash flash_law sys sys_law fmt c cfg s0_s1_version
              cfg.mcuboot0_file_name cfg.s0 p_hw_rev)
      ⊎ HasPermit cfg.loader_file_name cfg.mcuboot_secondary p_hw_rev false
      ⊎ HasPermit cfg.app_file_name cfg.mcuboot_primary p_hw_rev false

  -- While s1 runs: the file for s0, or the files for the loader and for the application.
  abbrev pub FromS1 : HwRev → Type 0
  FromS1 p_hw_rev =
      HasPermit cfg.mcuboot0_file_name cfg.s0 p_hw_rev true
      ⊎ HasPermit cfg.loader_file_name cfg.mcuboot_secondary p_hw_rev false
      ⊎ HasPermit cfg.app_file_name cfg.mcuboot_primary p_hw_rev false
