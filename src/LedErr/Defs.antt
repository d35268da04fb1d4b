-- ===== src/LedErr/Defs.antt =====
-- The functions of src/mcuboot_led_err.c and src/mcuboot_err_handler.c.
use ruuvi_air_mcuboot.Prelude.{ℕ, zero, suc, ◌*◌, Bool, true, false, not, if◌then◌else◌}
use ruuvi_air_mcuboot.Prelude.{M, pure, out_of_fuel, lift, ◌>>=◌, ◌>>◌}
use ruuvi_air_mcuboot.Platform.Board.{BoardApi, BoardConfig}
use ruuvi_air_mcuboot.Board.{
  mcuboot_button_get, mcuboot_led_red_on, mcuboot_led_red_off, mcuboot_led_green_off,
}

abbrev pub usec_per_msec : ℕ
usec_per_msec = 1000

abbrev pub delay_before_reboot_ms : ℕ
delay_before_reboot_ms = 100

abbrev pub led_flash_duration_ms : ℕ
led_flash_duration_ms = 100

abbrev pub button_press_check_period_ms : ℕ
button_press_check_period_ms = 100

-- `DELAY_AFTER_FIRST_BLINK_MS / BUTTON_PRESS_CHECK_PERIOD_MS`
abbrev pub checks_after_first_blink : ℕ
checks_after_first_blink = 5

-- `DELAY_BETWEEN_BLINKS_MS / BUTTON_PRESS_CHECK_PERIOD_MS`
abbrev pub checks_between_blinks : ℕ
checks_between_blinks = 9

-- `sys_reboot` has been called, or `is_button_released` after the code so far.
pub data Watching : Type 0 where
  rebooted : Watching
  released : Bool → Watching

module _ {W : Type 0} (board : BoardApi W) (cfg : BoardConfig) where
  -- The result, and `*p_is_button_released`.
  unfoldable pub check_if_button_released_and_pressed : Bool → M W (Bool × Bool)
  check_if_button_released_and_pressed is_button_released =
      if not is_button_released
      then (do pressed ← mcuboot_button_get board cfg; pure (false, not pressed))
      else (do
        pressed ← mcuboot_button_get board cfg
        if pressed
            then (do
              lift (board.k_busy_wait (delay_before_reboot_ms * usec_per_msec))
              pure (true, true))
            else pure (false, true))

  -- The `if` that follows every delay; `sys_reboot` does not return.
  unfoldable pub check_or_reboot : Bool → M W Watching
  check_or_reboot is_button_released = do
    (pressed, is_button_released') ← check_if_button_released_and_pressed is_button_released
    if pressed
        then (do lift board.sys_reboot; pure rebooted)
        else pure (released is_button_released')

  -- What follows runs unless the device has been rebooted.
  unfoldable pub go_on : Watching → (Bool → M W Watching) → M W Watching
  go_on rebooted next = pure rebooted
  go_on (released is_button_released) next = next is_button_released

  -- The loops that only wait: `n` more rounds.
  unfoldable pub poll_loop : ℕ → Bool → M W Watching
  poll_loop zero is_button_released = pure (released is_button_released)
  poll_loop (suc n) is_button_released = do
    lift (board.k_busy_wait (button_press_check_period_ms * usec_per_msec))
    r ← check_or_reboot is_button_released
    go_on r (poll_loop n)

  -- The red LED on, for its duration, and off.
  unfoldable pub flash : Bool → M W Watching
  flash is_button_released = do
    mcuboot_led_red_on board cfg
    lift (board.k_busy_wait (led_flash_duration_ms * usec_per_msec))
    r ← check_or_reboot is_button_released
    go_on r (λ is_button_released'. do
      mcuboot_led_red_off board cfg
      pure (released is_button_released'))

  -- The loop over `num_red_blinks`: `n` more blinks.
  unfoldable pub blink_loop : ℕ → Bool → M W Watching
  blink_loop zero is_button_released = pure (released is_button_released)
  blink_loop (suc n) is_button_released = do
    r ← flash is_button_released
    r ← go_on r (poll_loop 1)
    go_on r (blink_loop n)

  -- The body of `while (1)`.
  unfoldable pub blink_round : ℕ → Bool → M W Watching
  blink_round num_red_blinks is_button_released = do
    r ← flash is_button_released
    r ← go_on r (poll_loop checks_after_first_blink)
    r ← go_on r (blink_loop num_red_blinks)
    go_on r (poll_loop checks_between_blinks)

  -- `while (1)`: out of fuel, the LED blinks on. A result is a reboot.
  unfoldable pub blink_forever : ℕ → ℕ → Bool → M W (Unit {0})
  blink_forever zero num_red_blinks is_button_released = out_of_fuel
  blink_forever (suc fuel) num_red_blinks is_button_released = do
    r ← blink_round num_red_blinks is_button_released
    elim r as (λ _. M W (Unit {0})) [
      | rebooted ↦ pure tt
      | released is_button_released' ↦ blink_forever fuel num_red_blinks is_button_released'
    ]

  unfoldable pub mcuboot_led_err_blink_red_led : ℕ → ℕ → M W (Unit {0})
  mcuboot_led_err_blink_red_led fuel num_red_blinks = do
    pressed ← mcuboot_button_get board cfg
    mcuboot_led_green_off board cfg
    blink_forever fuel num_red_blinks (not pressed)

  -- Interrupts are locked first.
  unfoldable pub arch_system_halt : ℕ → M W (Unit {0})
  arch_system_halt fuel = do lift board.arch_irq_lock; mcuboot_led_err_blink_red_led fuel 3

  unfoldable pub k_sys_fatal_error_handler : ℕ → M W (Unit {0})
  k_sys_fatal_error_handler fuel = arch_system_halt fuel

  unfoldable pub assert_post_action : ℕ → M W (Unit {0})
  assert_post_action fuel = mcuboot_led_err_blink_red_led fuel 4
