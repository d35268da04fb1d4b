-- ===== src/Hook/Total.antt =====
-- What the start-up does besides the update ends, whatever the flash holds.
use ruuvi_air_mcuboot.Prelude.{ℕ, true, false, none, some}
use ruuvi_air_mcuboot.Prelude.{
  Total, Total-pure, Total-lift, Total-if, Total-bind, Total-Option, total_rules,
}
use ruuvi_air_mcuboot.Platform.Format.{ImageHeader, ImageFormat, IsFormat}
use ruuvi_air_mcuboot.Platform.Flash.{FlashApi, FlashArea, IsBounded}
use ruuvi_air_mcuboot.Platform.System.{SystemApi, Config}
use ruuvi_air_mcuboot.Platform.Hook.{HookApi, HookConfig}
use ruuvi_air_mcuboot.BtldrFs.Total.{get_flash_area_address_and_size-Total, load_image_header-Total}
use ruuvi_air_mcuboot.HwRev.Defs.{no_hw_rev}
use ruuvi_air_mcuboot.HwRev.FlashTotal.{find_in_flash_area-Total}
use ruuvi_air_mcuboot.Hook.Defs.{
  app_max_size, share_data, boot_add_shared_data, save_shared_data_for_active_slot,
  print_image_info, on_startup_print_slots_info_and_get_hw_rev,
}

module _ {W : Type 0} (hook : HookApi W) (hcfg : HookConfig) (sys : SystemApi W)
    (flash : FlashApi W) where
  app_max_size-Total : (id1 id2 : ℕ) → Total (app_max_size flash id1 id2)
  unfolding app_max_size
  app_max_size-Total id1 id2 = search total_rules depth 20

  share_data-Total :
      (slot : ℕ) (hdr : ImageHeader) (fa : FlashArea)
      → Total (share_data hook hcfg sys flash slot hdr fa)
  unfolding share_data
  share_data-Total slot hdr fa = search (app_max_size-Total, total_rules) depth 20

  add_shared_data-Total :
      (slot fa_id : ℕ) (fa : FlashArea)
      → Total (boot_add_shared_data hook hcfg sys flash slot fa_id fa)
  unfolding boot_add_shared_data
  add_shared_data-Total slot fa_id fa = Total-if _ _ _ (Total-pure true) (
      Total-bind _ _ (load_image_header-Total sys flash fa_id) (λ loaded.
        Total-Option loaded _ _ (Total-pure false) (λ hdr. search (share_data-Total, total_rules))))

  pub save_shared_data-Total :
      (slot fa_id : ℕ) → Total (save_shared_data_for_active_slot hook hcfg sys flash slot fa_id)
  unfolding save_shared_data_for_active_slot
  save_shared_data-Total slot fa_id = search (add_shared_data-Total, total_rules) depth 20

module _ {W : Type 0} (fmt : ImageFormat) (lawful : IsFormat fmt) (cfg : Config) (sys : SystemApi W)
    (flash : FlashApi W) (bounded : IsBounded flash) where
  print_image_info-Total : (fa_id : ℕ) → Total (print_image_info fmt cfg sys flash fa_id)
  unfolding print_image_info
  print_image_info-Total fa_id =
      let found = find_in_flash_area-Total fmt lawful cfg sys flash bounded fa_id no_hw_rev in
      Total-bind _ _ (get_flash_area_address_and_size-Total sys flash fa_id) (λ area.
        Total-Option area _ _ (Total-pure none) (λ (addr, size).
          Total-bind _ _ (Total-lift (sys.fw_info_find addr)) (λ info.
            Total-Option info _ _ (Total-pure none) (λ i.
              Total-bind _ _ (load_image_header-Total sys flash fa_id) (λ loaded.
                Total-Option loaded _ _ (Total-pure none)
                  (λ hdr. Total-bind _ _ found (λ a. Total-pure (some a.hw_rev))))))))

  pub slots_info-Total :
      (slot : ℕ) → Total (on_startup_print_slots_info_and_get_hw_rev fmt cfg sys flash slot)
  unfolding on_startup_print_slots_info_and_get_hw_rev
  slots_info-Total slot = search (print_image_info-Total, total_rules) depth 20
