-- ===== src/Hook/Defs.antt =====
-- The functions of src/mcuboot_hook.c and src/mcuboot_segger_rtt.c, built without asserts:
-- `__ASSERT` does nothing, and a failed check ends in `while (1)`.
use ruuvi_air_mcuboot.Prelude.{ℕ, ◌%◌, Bool, true, false, not, ◌&&◌, ◌||◌, Option, none, some}
use ruuvi_air_mcuboot.Prelude.{ltb, ◌==◌, if◌then◌else◌, is_zero, sub32}
use ruuvi_air_mcuboot.Prelude.{M, pure, lift, ◌>>=◌, ◌>>◌}
use ruuvi_air_mcuboot.Platform.Format.{ImageHeader, ImageFormat, ImageVersion}
use ruuvi_air_mcuboot.Platform.Flash.{FlashApi, FlashArea}
use ruuvi_air_mcuboot.Platform.System.{SystemApi, Config}
use ruuvi_air_mcuboot.Platform.Board.{BoardApi, BoardConfig}
use ruuvi_air_mcuboot.Platform.Hook.{HookApi, HookConfig, BoardRev}
use ruuvi_air_mcuboot.Platform.Hook.BoardRev.{rev_1, rev_2, other_board}
use ruuvi_air_mcuboot.BtldrFs.{get_flash_area_address_and_size, load_image_header}
use ruuvi_air_mcuboot.HwRev.Defs.{HwRev, no_hw_rev, fw_img_hw_rev_find_in_flash_area}
use ruuvi_air_mcuboot.LedErr.{mcuboot_led_err_blink_red_led}

unfoldable pub g_cfg_hw_rev : BoardRev → ℕ
g_cfg_hw_rev rev_1 = 1
g_cfg_hw_rev rev_2 = 2
g_cfg_hw_rev other_board = 0

-- How the start-up ends: the device has been rebooted, or stays in `while (1)`, or boots on.
pub data Startup : Type 0 where
  rebooted halted booting : Startup

-- `mcuboot_status_type_t`
pub data Status : Type 0 where
  startup upgrading bootable_image_found no_bootable_image_found boot_failed : Status
  unknown_status : ℕ → Status

-- All four parts agree.
unfoldable pub is_same_version : ImageVersion → ImageVersion → Bool
is_same_version v w = not (
    not (v.iv_major == w.iv_major)
    || not (v.iv_minor == w.iv_minor)
    || not (v.iv_revision == w.iv_revision)
    || not (v.iv_build_num == w.iv_build_num))

module _ {W : Type 0} (flash : FlashApi W) where
  unfoldable pub app_max_size : ℕ → ℕ → M W ℕ
  app_max_size fa_id1 fa_id2 = do
    (rc, fa) ← lift (flash.flash_area_open fa_id1)
    if not (is_zero rc) then pure 0 else do
      lift (flash.flash_area_close fa)
      (rc', fa') ← lift (flash.flash_area_open fa_id2)
      if not (is_zero rc') then pure 0 else do
        lift (flash.flash_area_close fa')
        pure (if ltb fa'.fa_size fa.fa_size then fa'.fa_size else fa.fa_size)

module _ {W : Type 0} (hook : HookApi W) (hcfg : HookConfig) (sys : SystemApi W)
    (flash : FlashApi W) where
  -- The image's maximal sizes are computed and saved.
  unfoldable pub share_data : ℕ → ImageHeader → FlashArea → M W Bool
  share_data active_slot img_hdr fa = do
    size0 ← app_max_size flash (hcfg.image_primary 0) (hcfg.image_secondary 0)
    size1 ←
        app_max_size flash (hcfg.image_primary hcfg.mcuboot_image_number)
          (hcfg.image_primary hcfg.mcuboot_image_number)
    if not hcfg.data_sharing then pure true else do
      rc ← lift (
          hook.boot_save_shared_data img_hdr fa active_slot
            (record { calculated = true; max_size = size0 })
            (record { calculated = true; max_size = size1 }))
      pure (is_zero rc)

  -- An error of `boot_save_boot_status` is only logged.
  unfoldable pub boot_add_shared_data : ℕ → ℕ → FlashArea → M W Bool
  boot_add_shared_data active_slot active_fa_id fa =
      if not (hcfg.measured_boot || hcfg.data_sharing) then pure true else do
        loaded ← load_image_header sys flash active_fa_id
        elim loaded as (λ _. M W Bool) [
          | none ↦ pure false
          | some img_hdr ↦ if not hcfg.measured_boot then share_data active_slot img_hdr fa else do
            rc ← lift (hook.boot_save_boot_status 0 img_hdr fa)
            share_data active_slot img_hdr fa
        ]

  unfoldable pub save_shared_data_for_active_slot : ℕ → ℕ → M W (Unit {0})
  save_shared_data_for_active_slot active_slot active_fa_id = do
    (rc, fa) ← lift (flash.flash_area_open active_fa_id)
    if not (is_zero rc) then pure tt else do
      saved ← boot_add_shared_data active_slot active_fa_id fa
      lift (flash.flash_area_close fa)

module _ {W : Type 0} (fmt : ImageFormat) (cfg : Config) (sys : SystemApi W)
    (flash : FlashApi W) where
  -- What goes through `p_hw_rev` where that is not NULL.
  unfoldable pub print_image_info : ℕ → M W (Option HwRev)
  print_image_info fa_id = do
    area ← get_flash_area_address_and_size sys flash fa_id
    elim area as (λ _. M W (Option HwRev)) [
      | none ↦ pure none
      | some (fa_addr, fa_size) ↦ do
        info ← lift (sys.fw_info_find fa_addr)
        elim info as (λ _. M W (Option HwRev)) [
          | none ↦ pure none
          | some p_fw_info ↦ do
            loaded ← load_image_header sys flash fa_id
            elim loaded as (λ _. M W (Option HwRev)) [
              | none ↦ pure none
              | some img_hdr ↦ do
                a ← fw_img_hw_rev_find_in_flash_area fmt cfg sys flash fa_id no_hw_rev
                pure (some a.hw_rev)
            ]
        ]
    ]

  unfoldable pub on_startup_print_slots_info_and_get_hw_rev : ℕ → M W HwRev
  on_startup_print_slots_info_and_get_hw_rev active_slot = do
    in_s0 ← print_image_info cfg.s0
    in_s1 ← print_image_info cfg.s1
    in_primary ← print_image_info cfg.mcuboot_primary
    in_secondary ← print_image_info cfg.mcuboot_secondary
    pure (elim (if active_slot == 0 then in_s0 else in_s1) [ none ↦ no_hw_rev | some h ↦ h ])

module _ {W : Type 0} (hook : HookApi W) (hcfg : HookConfig) (board : BoardApi W)
    (pins : BoardConfig) where
  -- `MCUBOOT_ASSERT` on the conjunction of the tests so far; a result is a reboot.
  unfoldable pub mcuboot_assert : ℕ → Bool → M W (Option Startup)
  mcuboot_assert fuel test = if test then pure none else do
    lift hook.arch_irq_lock
    mcuboot_led_err_blink_red_led board pins fuel 4
    pure (some Startup.rebooted)

  -- What the four assertions say together; each of them does the same where it fails.
  unfoldable pub is_rtt_placed : Bool
  is_rtt_placed =
      let size = sub32 hcfg.rtt_buff_data_end hcfg.rtt_buff_data_start in
      hcfg.rtt_buff_data_start == hcfg.sram_base_address
      && size % 0x1000 == 0
      && hcfg.rtt_buff_data_start == hcfg.rtt_data_sram_addr
      && size == hcfg.rtt_data_sram_size

  unfoldable pub mcuboot_segger_rtt_check_data_location_and_size : ℕ → M W (Option Startup)
  mcuboot_segger_rtt_check_data_location_and_size fuel =
      if not hcfg.use_segger_rtt then pure none else mcuboot_assert fuel is_rtt_placed

  unfoldable pub on_bootable_image_found : M W (Unit {0})
  on_bootable_image_found = lift (hook.k_msleep 100)
