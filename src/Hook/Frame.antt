-- ===== src/Hook/Frame.antt =====
-- What the start-up keeps beside the update.
use ruuvi_air_mcuboot.Prelude.{
  ℕ, not, ◌||◌, Keeps, Keeps-bind, Keeps-if, Keeps-pure, Keeps-Option, true, false, none, some,
}
use ruuvi_air_mcuboot.Platform.Format.{ImageFormat, ImageHeader}
use ruuvi_air_mcuboot.Platform.Flash.{FlashApi, FlashArea}
use ruuvi_air_mcuboot.Platform.System.{SystemApi, Config}
use ruuvi_air_mcuboot.Platform.Hook.{HookApi, HookConfig}
use ruuvi_air_mcuboot.Platform.Frame.{
  IsFlashFramed, IsSystemFramed, IsHookFramed, frame_rules, hook_rules, Keeps-fw_info_find,
}
use ruuvi_air_mcuboot.BtldrFs.Frame.{get_flash_area_address_and_size-Keeps, load_image_header-Keeps}
use ruuvi_air_mcuboot.HwRev.Defs.{no_hw_rev}
use ruuvi_air_mcuboot.HwRev.Frame.{find_in_flash_area-Keeps}
use ruuvi_air_mcuboot.Hook.Defs.{
  app_max_size, share_data, boot_add_shared_data, save_shared_data_for_active_slot,
  print_image_info, on_startup_print_slots_info_and_get_hw_rev,
}

module _ {W : Type 0} {I : W → Type 0} (sys : SystemApi W) (law : IsSystemFramed sys I)
    (flash : FlashApi W) (flash_law : IsFlashFramed flash I) where
  app_max_size-Keeps : (a b : ℕ) → Keeps I (app_max_size flash a b)
  unfolding app_max_size
  app_max_size-Keeps a b = search frame_rules depth 20

  module _ (hook : HookApi W) (hook_law : IsHookFramed hook I) (hcfg : HookConfig) where
    share_data-Keeps :
        (slot : ℕ) (hdr : ImageHeader) (fa : FlashArea)
        → Keeps I (share_data hook hcfg sys flash slot hdr fa)
    unfolding share_data
    share_data-Keeps slot hdr fa = search (app_max_size-Keeps, hook_rules, frame_rules) depth 20

    add_shared_data-Keeps :
        (slot id : ℕ) (fa : FlashArea)
        → Keeps I (boot_add_shared_data hook hcfg sys flash slot id fa)
    unfolding boot_add_shared_data
    add_shared_data-Keeps slot id fa =
        Keeps-if (not (hcfg.measured_boot || hcfg.data_sharing)) _ _ (Keeps-pure true) (
          Keeps-bind _ _ (load_image_header-Keeps sys law flash flash_law id) (λ loaded.
            Keeps-Option loaded _ _ (Keeps-pure false)
              (λ hdr. search (share_data-Keeps, hook_rules, frame_rules) depth 20)))

    pub save_shared_data-Keeps :
        (slot id : ℕ) → Keeps I (save_shared_data_for_active_slot hook hcfg sys flash slot id)
    unfolding save_shared_data_for_active_slot
    save_shared_data-Keeps slot id = search (add_shared_data-Keeps, frame_rules) depth 20

  module _ (fmt : ImageFormat) (cfg : Config) where
    print_image_info-Keeps : (id : ℕ) → Keeps I (print_image_info fmt cfg sys flash id)
    unfolding print_image_info
    print_image_info-Keeps id =
        Keeps-bind _ _ (get_flash_area_address_and_size-Keeps sys law flash flash_law id) (λ area.
          Keeps-Option area _ _ (Keeps-pure none) (λ (addr, size).
            Keeps-bind _ _ (Keeps-fw_info_find sys addr law) (λ info.
              Keeps-Option info _ _ (Keeps-pure none) (λ p_fw_info.
                Keeps-bind _ _ (load_image_header-Keeps sys law flash flash_law id) (λ loaded.
                  Keeps-Option loaded _ _ (Keeps-pure none) (λ hdr.
                    Keeps-bind _ _
                      (find_in_flash_area-Keeps sys law flash flash_law fmt cfg id no_hw_rev)
                      (λ a. Keeps-pure (some a.hw_rev))))))))

    pub get_hw_rev-Keeps :
        (active_slot : ℕ)
        → Keeps I (on_startup_print_slots_info_and_get_hw_rev fmt cfg sys flash active_slot)
    unfolding on_startup_print_slots_info_and_get_hw_rev
    get_hw_rev-Keeps active_slot = search (print_image_info-Keeps, frame_rules) depth 20
