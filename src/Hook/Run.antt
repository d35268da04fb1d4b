-- ===== src/Hook/Run.antt =====
-- `on_startup` and `mcuboot_status_change` of src/mcuboot_hook.c.
use ruuvi_air_mcuboot.Prelude.{ℕ, not, none, some, ◌==◌, if◌then◌else◌}
use ruuvi_air_mcuboot.Prelude.{M, pure, lift, ◌>>=◌, ◌>>◌}
use ruuvi_air_mcuboot.Platform.Format.{ImageFormat, ImageVersion}
use ruuvi_air_mcuboot.Platform.Files.{FileApi}
use ruuvi_air_mcuboot.Platform.Flash.{FlashApi}
use ruuvi_air_mcuboot.Platform.Crypto.{Crypto}
use ruuvi_air_mcuboot.Platform.System.{SystemApi, Config}
use ruuvi_air_mcuboot.Platform.Board.{BoardApi, BoardConfig}
use ruuvi_air_mcuboot.Platform.Hook.{HookApi, HookConfig}
use ruuvi_air_mcuboot.BtldrFs.{load_image_header}
use ruuvi_air_mcuboot.HwRev.Defs.{HwRev}
use ruuvi_air_mcuboot.FwUpdate.{Ending, strcmp_eq, mcuboot_fw_update}
use ruuvi_air_mcuboot.Hook.Defs.{
  Startup, Status, startup, bootable_image_found, g_cfg_hw_rev, is_same_version,
  on_startup_print_slots_info_and_get_hw_rev, save_shared_data_for_active_slot,
  mcuboot_segger_rtt_check_data_location_and_size, on_bootable_image_found,
}

unfoldable pub active_slot_of : HookConfig → ℕ
active_slot_of hcfg = if hcfg.is_variant_image then 1 else 0

-- `(0 == mcuboot_active_slot) ? PM_ID(s0) : PM_ID(s1)`
unfoldable pub active_fa_id_of : Config → ℕ → ℕ
active_fa_id_of cfg active_slot = if active_slot == 0 then cfg.s0 else cfg.s1

module _ {W : Type 0} (hook : HookApi W) (hcfg : HookConfig) (board : BoardApi W)
    (pins : BoardConfig) (fmt : ImageFormat) (c : Crypto) (cfg : Config)
    (s0_s1_version : ImageVersion) (files : FileApi W) (flash : FlashApi W)
    (sys : SystemApi W) where
  -- The end of `on_startup`, behind the update.
  unfoldable pub after_update : ℕ → Ending → M W Startup
  after_update active_slot Ending.rebooted = pure Startup.rebooted
  after_update active_slot Ending.returned = do
    save_shared_data_for_active_slot hook hcfg sys flash active_slot
        (active_fa_id_of cfg active_slot)
    if hcfg.use_segger_rtt
        then (do lift (hook.k_msleep 500); pure Startup.booting)
        else pure Startup.booting

  -- From the header of the running slot on.
  unfoldable pub startup_with_header : ℕ → HwRev → ImageVersion → M W Startup
  startup_with_header active_slot hw_rev ih_ver =
      if not (is_same_version ih_ver s0_s1_version)
      then pure Startup.halted
      else if not (strcmp_eq (hcfg.snprintf_version s0_s1_version) hcfg.version_tweak_string)
      then pure Startup.halted
      else do
        ending ← mcuboot_fw_update fmt c cfg s0_s1_version files flash sys active_slot hw_rev
        after_update active_slot ending

  -- From the check of the RTT buffer on. A header that cannot be loaded ends the function.
  unfoldable pub startup_placed : ℕ → M W Startup
  startup_placed active_slot = do
    hw_rev ← on_startup_print_slots_info_and_get_hw_rev fmt cfg sys flash active_slot
    if not (hw_rev.hw_rev_num == g_cfg_hw_rev hcfg.board_rev) then pure Startup.halted else do
      loaded ← load_image_header sys flash (active_fa_id_of cfg active_slot)
      elim loaded as (λ _. M W Startup) [
        | none ↦ pure Startup.booting
        | some img_hdr ↦ startup_with_header active_slot hw_rev img_hdr.ih_ver
      ]

  unfoldable pub on_startup : ℕ → M W Startup
  on_startup fuel = do
    failed ← mcuboot_segger_rtt_check_data_location_and_size hook hcfg board pins fuel
    elim failed as (λ _. M W Startup) [
      | none ↦ startup_placed (active_slot_of hcfg)
      | some end ↦ pure end
    ]

  -- The other states are only logged.
  unfoldable pub mcuboot_status_change : ℕ → Status → M W Startup
  mcuboot_status_change fuel startup = on_startup fuel
  mcuboot_status_change fuel bootable_image_found = do
    on_bootable_image_found hook hcfg board pins
    pure Startup.booting
  mcuboot_status_change fuel _ = pure Startup.booting
