-- ===== src/Tests/Startups.antt =====
-- A start-up with the update of the application in the file system.
use ruuvi_air_mcuboot.Prelude.{ℕ, ◌≡◌, refl, true, false, pos}
use ruuvi_air_mcuboot.Prelude.{List, [], ◌∷◌, ◌++◌, replicate}
use ruuvi_air_mcuboot.Platform.Board.{BoardApi}
use ruuvi_air_mcuboot.Platform.Hook.{HookApi, HookConfig, BoardRev}
use ruuvi_air_mcuboot.Tests.Indication.{pins}
use ruuvi_air_mcuboot.Tests.Updates.{World, signed}
use ruuvi_air_mcuboot.Hook.{is_rtt_placed}

abbrev pub hook : HookApi World
hook = record {
  boot_save_boot_status = λ module_id hdr fa w. (pos 0, w);
  boot_save_shared_data = λ hdr fa slot a b w. (pos 0, w);
  k_msleep = λ ms w. (tt, w);
  arch_irq_lock = λ w. (tt, w);
  segger_rtt_write = λ i bytes w. (tt, w);
}

abbrev pub silent : BoardApi World
silent = record {
  is_ready = λ pin w. (true, w);
  gpio_pin_configure_dt = λ pin flags w. (pos 0, w);
  gpio_pin_interrupt_configure_dt = λ pin flags w. (pos 0, w);
  gpio_pin_get_dt = λ pin w. (pos 0, w);
  gpio_pin_set_dt = λ pin v w. (pos 0, w);
  gpio_init_callback = λ pin w. (tt, w);
  gpio_add_callback = λ pin w. (tt, w);
  io_led_set = λ is_on w. (tt, w);
  k_busy_wait = λ us w. (tt, w);
  arch_irq_lock = λ w. (tt, w);
  sys_reboot = λ w. (tt, w);
  sys_poweroff = λ w. (tt, w);
}

abbrev pub build : HookConfig
build = record {
  board_rev = BoardRev.rev_2;
  measured_boot = false;
  data_sharing = true;
  is_variant_image = false;
  image_primary = λ n. n;
  image_secondary = λ n. n;
  mcuboot_image_number = 1;
  snprintf_version = λ v. 49 ∷ 0 ∷ [];
  version_tweak_string = 49 ∷ 0 ∷ [];
  use_segger_rtt = true;
  rtt_buff_data_start = 0x20000000;
  rtt_buff_data_end = 0x20001000;
  sram_base_address = 0x20000000;
  rtt_data_sram_addr = 0x20000000;
  rtt_data_sram_size = 0x1000;
}

-- The running image, behind it bytes that an update erases.
abbrev pub before : List ℕ
before = signed ++ replicate 16 5

pub is_placed : is_rtt_placed hook build silent pins ≡ true
unfolding is_rtt_placed
is_placed = refl
