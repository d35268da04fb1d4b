-- ===== src/Tests/Indication.antt =====
-- A board whose button and supercapacitor pins read active at the fourth reading: the error indication
-- on it, and its set-up.
use ruuvi_air_mcuboot.Prelude.{
  ◌↔◌, ℕ, suc, ◌≤◌, ◌<◌, ◌≡◌, refl, true, false, some, arith, ℤ, pos, ◌==◌,
}
use ruuvi_air_mcuboot.Prelude.{if◌then◌else◌, ◌*◌}
use ruuvi_air_mcuboot.Platform.Board.{BoardApi, BoardConfig, IsSampled}
use ruuvi_air_mcuboot.Board.{
  off, mcuboot_early_init_post_kernel, is_pressed, mcuboot_button_get, mcuboot_led_green_set,
  mcuboot_led_red_set,
}
use ruuvi_air_mcuboot.Board.Supercap.{
  set_up, ReadsActive, PoweredOff, mcuboot_early_init_post_kernel_lem,
}
use ruuvi_air_mcuboot.Prelude.{Runs}
use ruuvi_air_mcuboot.LedErr.{
  mcuboot_led_err_blink_red_led, blink_forever, blink_round, blink_loop, flash, poll_loop, go_on,
  check_or_reboot, check_if_button_released_and_pressed,
}
use ruuvi_air_mcuboot.LedErr.Watch.{watch}
use ruuvi_air_mcuboot.LedErr.Blinks.{sample, Ended, round_checks}
use ruuvi_air_mcuboot.LedErr.Reboot.{
  mcuboot_led_err_blink_red_led_lem, reboot_needs_press, press_reboots,
}

abbrev reading : ℕ → ℤ
reading n = if n == 3 then pos 1 else pos 0

-- The world counts the readings.
abbrev board : BoardApi ℕ
board = record {
  is_ready = λ pin w. (true, w);
  gpio_pin_configure_dt = λ pin flags w. (pos 0, w);
  gpio_pin_interrupt_configure_dt = λ pin flags w. (pos 0, w);
  gpio_pin_get_dt = λ pin w. (reading w, suc w);
  gpio_pin_set_dt = λ pin v w. (pos 0, w);
  gpio_init_callback = λ pin w. (tt, w);
  gpio_add_callback = λ pin w. (tt, w);
  io_led_set = λ on w. (tt, w);
  k_busy_wait = λ us w. (tt, w);
  arch_irq_lock = λ w. (tt, w);
  sys_reboot = λ w. (tt, w);
  sys_poweroff = λ w. (tt, w);
}

abbrev pub pins : BoardConfig
pins = record {
  led_red = 0;
  button0 = 1;
  supercap_active = 2;
  gpio_enable_sensors = 3;
  gpio_output_inactive = 1;
  gpio_disconnected = 0;
  gpio_input = 2;
  gpio_output = 4;
  gpio_output_init_low = 8;
  gpio_output_init_high = 16;
  gpio_pull_up = 32;
  gpio_pull_down = 64;
  gpio_int_enable = 128;
  gpio_int_disable = 256;
  gpio_int_edge_falling = 512;
  gpio_int_level_high = 1024;
  is_rev_1 = true;
}

sampled : IsSampled board 1 (λ w. w) reading
sampled = record {
  get_lem = λ w. refl;
  get-reads = λ w. refl;
  set-reads = λ p v w. refl;
  led-reads = λ on w. refl;
  wait-reads = λ us w. refl;
  reboot-reads = λ w. refl;
}

reboots : mcuboot_led_err_blink_red_led board pins 1 2 0 ≡ some (tt, 4)
unfolding mcuboot_led_err_blink_red_led blink_forever blink_round blink_loop flash poll_loop go_on
    check_or_reboot check_if_button_released_and_pressed mcuboot_button_get is_pressed
    mcuboot_led_green_set mcuboot_led_red_set
reboots = refl

mcuboot_led_err_blink_red_led_lem_example :
    Ended board pins
      (λ w. w)
      reading
      sampled
      (watch
        (sample board pins (λ w. w) reading sampled)
        false
        0
        (suc (1 * round_checks board pins (λ w. w) reading sampled 2)))
      (mcuboot_led_err_blink_red_led board pins 1 2 0)
mcuboot_led_err_blink_red_led_lem_example =
    mcuboot_led_err_blink_red_led_lem board pins (λ w. w) reading sampled 1 2 0

reboot_needs_press_example :
    (j : ℕ) × (4 ≡ suc j)
    × (is_pressed (reading j) ≡ true)
    × ((m : ℕ) × (0 ≤ m) × (m < j) × (is_pressed (reading m) ≡ false))
reboot_needs_press_example = reboot_needs_press board pins (λ w. w) reading sampled 1 2 0 4 reboots

press_reboots_example :
    (w' : ℕ) × (mcuboot_led_err_blink_red_led board pins 1 2 0 ≡ some (tt, w')) × (w' ≤ 4)
unfolding is_pressed round_checks
press_reboots_example =
    press_reboots board pins (λ w. w) reading sampled 1 2 1 3 0 (omega arith) (omega arith) refl
      refl (omega arith)

mcuboot_early_init_post_kernel_lem_example :
    (v : ℕ) × (set_up board pins 3 ≡ some (tt, v))
    × Runs
        (λ p w'.
          ((p ≡ off) ↔ ((pins.is_rev_1 ≡ true) × ReadsActive board pins v))
          × (p ≡ off → PoweredOff board pins w'))
        (mcuboot_early_init_post_kernel board pins 3)
mcuboot_early_init_post_kernel_lem_example = mcuboot_early_init_post_kernel_lem board pins 3
