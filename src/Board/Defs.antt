-- ===== src/Board/Defs.antt =====
-- The functions of the board's drivers. None of them reports an error: a failed call is logged.
use Prim.Native.Nat.{bit_and, bit_or}
use ruuvi_air_mcuboot.Prelude.{
  ℕ, Bool, true, false, not, ◌&&◌, ◌==◌, if◌then◌else◌, ℤ, is_neg, is_zero,
}
use ruuvi_air_mcuboot.Prelude.{M, pure, lift, ◌>>=◌, ◌>>◌}
use ruuvi_air_mcuboot.Platform.Board.{BoardApi, BoardConfig}

-- `!!rc` of a reading that did not fail.
unfoldable pub is_pressed : ℤ → Bool
is_pressed rc = not (is_neg rc) && not (is_zero rc)

abbrev pub done : {W : Type 0} → M W (Unit {0})
done = pure tt

-- How a function ends that may power the device off.
pub data Power : Type 0 where
  on off : Power

module _ {W : Type 0} (board : BoardApi W) (cfg : BoardConfig) where
  unfoldable pub mcuboot_led_init_gpio : ℕ → M W (Unit {0})
  mcuboot_led_init_gpio led = do
    ready ← lift (board.is_ready led)
    if not ready
        then done
        else do rc ← lift (board.gpio_pin_configure_dt led cfg.gpio_output_inactive); done

  unfoldable pub mcuboot_led_init : M W (Unit {0})
  mcuboot_led_init = mcuboot_led_init_gpio cfg.led_red

  unfoldable pub mcuboot_led_deinit_gpio : ℕ → M W (Unit {0})
  mcuboot_led_deinit_gpio led = do
    ready ← lift (board.is_ready led)
    if not ready then done else do
      rc ← lift (board.gpio_pin_set_dt led 0)
      rc ← lift (board.gpio_pin_configure_dt led cfg.gpio_disconnected)
      done

  unfoldable pub mcuboot_led_deinit : M W (Unit {0})
  mcuboot_led_deinit = mcuboot_led_deinit_gpio cfg.led_red

  unfoldable pub mcuboot_led_red_set : Bool → M W (Unit {0})
  mcuboot_led_red_set is_on = do
    rc ← lift (board.gpio_pin_set_dt cfg.led_red (if is_on then 1 else 0))
    done

  unfoldable pub mcuboot_led_green_set : Bool → M W (Unit {0})
  mcuboot_led_green_set is_on = lift (board.io_led_set is_on)

  -- The four calls with a fixed state, inline functions of the header.
  abbrev pub mcuboot_led_red_on : M W (Unit {0})
  mcuboot_led_red_on = mcuboot_led_red_set true

  abbrev pub mcuboot_led_red_off : M W (Unit {0})
  mcuboot_led_red_off = mcuboot_led_red_set false

  abbrev pub mcuboot_led_green_on : M W (Unit {0})
  mcuboot_led_green_on = mcuboot_led_green_set true

  abbrev pub mcuboot_led_green_off : M W (Unit {0})
  mcuboot_led_green_off = mcuboot_led_green_set false

  -- `has_callback`: both the callback and its handler are not NULL.
  unfoldable pub mcuboot_gpio_input_init : ℕ → ℕ → Bool → ℕ → M W (Unit {0})
  mcuboot_gpio_input_init pin extra_flags has_callback int_flags = do
    ready ← lift (board.is_ready pin)
    if not ready then done else do
      ret ← lift (board.gpio_pin_configure_dt pin (bit_or cfg.gpio_input extra_flags))
      if not (is_zero ret)
          then done
          else if not (bit_and int_flags cfg.gpio_int_enable == 0)
          then (do
            ret ← lift (board.gpio_pin_interrupt_configure_dt pin int_flags)
            if not (is_zero ret)
                then done
                else if has_callback
                then (do lift (board.gpio_init_callback pin); lift (board.gpio_add_callback pin))
                else done)
          else (do
            ret ← lift (board.gpio_pin_interrupt_configure_dt pin cfg.gpio_int_disable)
            done)

  unfoldable pub mcuboot_button_init : M W (Unit {0})
  mcuboot_button_init = mcuboot_gpio_input_init cfg.button0 cfg.gpio_pull_up false 0

  unfoldable pub mcuboot_button_deinit : M W (Unit {0})
  mcuboot_button_deinit = do
    ready ← lift (board.is_ready cfg.button0)
    if not ready
        then done
        else do rc ← lift (board.gpio_pin_configure_dt cfg.button0 cfg.gpio_disconnected); done

  -- A reading that fails counts as not pressed.
  unfoldable pub mcuboot_button_get : M W Bool
  mcuboot_button_get = do rc ← lift (board.gpio_pin_get_dt cfg.button0); pure (is_pressed rc)

  -- `sys_poweroff` does not return.
  unfoldable pub mcuboot_on_supercap_active : M W Power
  mcuboot_on_supercap_active = do
    mcuboot_button_deinit
    mcuboot_led_deinit
    rc ← lift (board.gpio_pin_interrupt_configure_dt cfg.supercap_active cfg.gpio_int_level_high)
    lift board.sys_poweroff
    pure off

  unfoldable pub mcuboot_supercap_init : M W Power
  mcuboot_supercap_init = do
    mcuboot_gpio_input_init cfg.supercap_active 0 true cfg.gpio_int_edge_falling
    rc ← lift (board.gpio_pin_get_dt cfg.supercap_active)
    if is_pressed rc then mcuboot_on_supercap_active else pure on

  -- The flags of the pin that powers the external flash, by revision.
  unfoldable pub power_on_flags : ℕ
  power_on_flags =
      if cfg.is_rev_1
      then bit_or cfg.gpio_input cfg.gpio_pull_down
      else bit_or cfg.gpio_output cfg.gpio_output_init_low

  unfoldable pub power_off_flags : ℕ
  power_off_flags =
      if cfg.is_rev_1
      then bit_or cfg.gpio_output cfg.gpio_output_init_high
      else cfg.gpio_disconnected

  unfoldable pub mcuboot_ext_flash_power_on : M W (Unit {0})
  mcuboot_ext_flash_power_on = do
    ready ← lift (board.is_ready cfg.gpio_enable_sensors)
    if not ready then done else do
      ret ← lift (board.gpio_pin_configure_dt cfg.gpio_enable_sensors power_on_flags)
      done

  unfoldable pub mcuboot_ext_flash_power_off : M W (Unit {0})
  mcuboot_ext_flash_power_off = do
    ready ← lift (board.is_ready cfg.gpio_enable_sensors)
    if not ready then done else do
      ret ← lift (board.gpio_pin_configure_dt cfg.gpio_enable_sensors power_off_flags)
      done

  -- From the supercapacitor's check on.
  unfoldable pub init_powered : Power → M W Power
  init_powered off = pure off
  init_powered on = do mcuboot_led_init; mcuboot_button_init; mcuboot_ext_flash_power_on; pure on

  -- The supercapacitor is watched on the first revision only.
  unfoldable pub mcuboot_early_init_post_kernel : M W Power
  mcuboot_early_init_post_kernel = do
    power ← (if cfg.is_rev_1 then mcuboot_supercap_init else pure on)
    init_powered power
