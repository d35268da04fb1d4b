-- ===== src/Hook/Cleared.antt =====
-- What the running image and the update have shown when a start-up changes a slot.
use ruuvi_air_mcuboot.Prelude.{◌≡◌, true, some, if◌then◌else◌}
use ruuvi_air_mcuboot.Platform.Format.{ImageFormat, ImageHeader, ImageVersion}
use ruuvi_air_mcuboot.Platform.Files.{FileApi}
use ruuvi_air_mcuboot.Platform.Flash.{FlashApi}
use ruuvi_air_mcuboot.Platform.Crypto.{Crypto}
use ruuvi_air_mcuboot.Platform.System.{SystemApi, Config}
use ruuvi_air_mcuboot.Platform.Board.{BoardApi, BoardConfig}
use ruuvi_air_mcuboot.Platform.Hook.{HookApi, HookConfig}
use ruuvi_air_mcuboot.Platform.Frame.{
  IsFileFramed, IsFlashFramed, IsSystemFramed, IsMountFramed, IsHookFramed,
}
use ruuvi_air_mcuboot.BtldrFs.{load_image_header}
use ruuvi_air_mcuboot.HwRev.Defs.{HwRev}
use ruuvi_air_mcuboot.FwUpdate.{strcmp_eq}
use ruuvi_air_mcuboot.FwUpdate.Slots.{MayChange}
use ruuvi_air_mcuboot.Hook.Defs.{g_cfg_hw_rev}
use ruuvi_air_mcuboot.Hook.Gate.{SameVersion}
use ruuvi_air_mcuboot.Hook.Shown.{Shown, running_slot}

module _ {W : Type 0} {I : W → Type 0} (files : FileApi W) (file_law : IsFileFramed files I)
    (flash : FlashApi W) (flash_law : IsFlashFramed flash I) (sys : SystemApi W)
    (sys_law : IsSystemFramed sys I) (mount_law : IsMountFramed sys I) (fmt : ImageFormat)
    (c : Crypto) (cfg : Config) (s0_s1_version : ImageVersion) (hook : HookApi W)
    (hook_law : IsHookFramed hook I) (hcfg : HookConfig) (board : BoardApi W)
    (pins : BoardConfig) where
  -- The update was permitted to change a slot: in the variant image with the slot s1 as the running
  -- one, else with s0.
  abbrev pub RunningChange : HwRev → Type 0
  RunningChange hw_rev =
      if hcfg.is_variant_image
      then MayChange files file_law flash flash_law sys sys_law fmt c cfg s0_s1_version
          cfg.mcuboot0_file_name cfg.s0 cfg.mcuboot1_file_name cfg.s1 hw_rev
      else MayChange files file_law flash flash_law sys sys_law fmt c cfg s0_s1_version
          cfg.mcuboot1_file_name cfg.s1 cfg.mcuboot0_file_name cfg.s0 hw_rev

  -- The image in the running slot names this board's revision and has the version built in, which is
  -- that of the build, and the update was permitted for the revision that the image names.
  pub record IsCleared (start : W) : Type 0 where
    pub hw_rev : HwRev
    pub looked : W
    pub loaded : W
    pub hdr : ImageHeader
    pub shown : Shown fmt cfg sys flash hcfg start hw_rev looked
    pub same_board : hw_rev.hw_rev_num ≡ g_cfg_hw_rev hcfg.board_rev
    pub header :
        load_image_header sys flash (running_slot hcfg cfg) looked ≡ some (some hdr, loaded)
    pub same_version : SameVersion hdr.ih_ver s0_s1_version
    pub same_string :
        strcmp_eq (hcfg.snprintf_version s0_s1_version) hcfg.version_tweak_string ≡ true
    pub change : RunningChange hw_rev
