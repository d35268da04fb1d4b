-- ===== src/Platform/Board.antt =====
-- Zephyr's GPIO driver, clock and power control, and the constants of the board.
use ruuvi_air_mcuboot.Prelude.{ℕ, suc, ◌≡◌, Bool, ℤ}

pub record BoardApi (W : Type 0) : Type 0 where
  -- `device_is_ready` of the pin's port and `gpio_is_ready_dt`
  pub is_ready : ℕ → W → Bool × W
  pub gpio_pin_configure_dt : ℕ → ℕ → W → ℤ × W
  pub gpio_pin_interrupt_configure_dt : ℕ → ℕ → W → ℤ × W
  pub gpio_pin_get_dt : ℕ → W → ℤ × W
  pub gpio_pin_set_dt : ℕ → ℕ → W → ℤ × W
  -- `gpio_init_callback` with the pin's bit, then `gpio_add_callback`
  pub gpio_init_callback : ℕ → W → Unit {0} × W
  pub gpio_add_callback : ℕ → W → Unit {0} × W
  pub io_led_set : Bool → W → Unit {0} × W
  -- microseconds
  pub k_busy_wait : ℕ → W → Unit {0} × W
  pub arch_irq_lock : W → Unit {0} × W
  pub sys_reboot : W → Unit {0} × W
  pub sys_poweroff : W → Unit {0} × W

-- Pins and the flags of gpio.h, and the revision of the board: the first, or else the second.
pub record BoardConfig : Type 0 where
  pub led_red : ℕ
  pub button0 : ℕ
  pub supercap_active : ℕ
  pub gpio_enable_sensors : ℕ
  pub gpio_output_inactive : ℕ
  pub gpio_disconnected : ℕ
  pub gpio_input : ℕ
  pub gpio_output : ℕ
  pub gpio_output_init_low : ℕ
  pub gpio_output_init_high : ℕ
  pub gpio_pull_up : ℕ
  pub gpio_pull_down : ℕ
  pub gpio_int_enable : ℕ
  pub gpio_int_disable : ℕ
  pub gpio_int_edge_falling : ℕ
  pub gpio_int_level_high : ℕ
  pub is_rev_1 : Bool

-- `reads w` counts the readings of the pin so far, and `reading n` is what the n-th one returns:
-- reading moves on to the next, and nothing else that the code calls does.
pub record IsSampled {W : Type 0} (board : BoardApi W) (pin : ℕ) (reads : W → ℕ) (reading : ℕ → ℤ)
    : Type 0 where
  pub get_lem : (w : W) → (board.gpio_pin_get_dt pin w).0 ≡ reading (reads w)
  pub get-reads : (w : W) → reads (board.gpio_pin_get_dt pin w).1 ≡ suc (reads w)
  pub set-reads : (p v : ℕ) (w : W) → reads (board.gpio_pin_set_dt p v w).1 ≡ reads w
  pub led-reads : (on : Bool) (w : W) → reads (board.io_led_set on w).1 ≡ reads w
  pub wait-reads : (us : ℕ) (w : W) → reads (board.k_busy_wait us w).1 ≡ reads w
  pub reboot-reads : (w : W) → reads (board.sys_reboot w).1 ≡ reads w
