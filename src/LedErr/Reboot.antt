-- ===== src/LedErr/Reboot.antt =====
-- When the error indication ends: the whole of `mcuboot_led_err_blink_red_led`.
use ruuvi_air_mcuboot.Prelude.{ℕ, suc, ◌+◌, ◌*◌, ◌≤◌, ◌<◌, ◌≡◌, refl, sym, ap, ◌∙◌, subst}
use ruuvi_air_mcuboot.Prelude.{Bool, true, false, not, arith, some, ℤ}
use ruuvi_air_mcuboot.Platform.Board.{BoardApi, BoardConfig, IsSampled}
use ruuvi_air_mcuboot.Board.{is_pressed, mcuboot_button_get, mcuboot_led_green_set}
use ruuvi_air_mcuboot.LedErr.Defs.{mcuboot_led_err_blink_red_led, blink_forever}
use ruuvi_air_mcuboot.LedErr.Watch.{Seen, at, still, watch, watch_released, watch_found}
use ruuvi_air_mcuboot.LedErr.Blinks.{sample, Ended, round_checks, blink_forever_lem}

module _ {W : Type 0} (board : BoardApi W) (cfg : BoardConfig) (reads : W → ℕ) (reading : ℕ → ℤ)
    (law : IsSampled board cfg.button0 reads reading) where
  abbrev pressed : ℕ → Bool
  pressed = sample board cfg reads reading law

  -- Over any sequence of readings of the button, `fuel` rounds of the blinking do what the watch
  -- does over the reading before them and those of the rounds (`round_checks` in each): where the
  -- watch sees a press behind a release, the device reboots, right after that reading; where it
  -- does not, it blinks on.
  pub mcuboot_led_err_blink_red_led_lem :
      (fuel num : ℕ) (w : W)
      → Ended board cfg reads reading law
          (watch
            (sample board cfg reads reading law)
            false
            (reads w)
            (suc (fuel * round_checks board cfg reads reading law num)))
          (mcuboot_led_err_blink_red_led board cfg fuel num w)
  unfolding mcuboot_led_err_blink_red_led mcuboot_button_get mcuboot_led_green_set watch
  mcuboot_led_err_blink_red_led_lem fuel num w =
      subst
        (λ p.
          Ended board cfg reads reading law
            (watch pressed (not (pressed (reads w))) (suc (reads w))
              (fuel * round_checks board cfg reads reading law num))
            (blink_forever board cfg fuel num (not p)
              (board.io_led_set false (board.gpio_pin_get_dt cfg.button0 w).1).1))
        (sym (ap is_pressed (law.get_lem w)))
        (blink_forever_lem board cfg reads reading law fuel num (suc (reads w))
          (not (pressed (reads w))) _ (law.led-reads false _ ∙ law.get-reads w))

  -- A reboot needs a press behind a release: it comes right after a reading that shows the button
  -- pressed, behind an earlier one that shows it not pressed, both of them since the call.
  pub reboot_needs_press :
      (fuel num : ℕ) (w w' : W)
      → mcuboot_led_err_blink_red_led board cfg fuel num w ≡ some (tt, w')
      → (j : ℕ) × (reads w' ≡ suc j)
        × (is_pressed (reading j) ≡ true)
        × ((m : ℕ) × (reads w ≤ m) × (m < j) × (is_pressed (reading m) ≡ false))
  reboot_needs_press fuel num w w' e =
      go (watch pressed false (reads w) (suc (fuel * round_checks board cfg reads reading law num)))
        refl (mcuboot_led_err_blink_red_led_lem fuel num w)
    where
      go :
          (x : Seen)
          → watch pressed false
              (reads w)
              (suc (fuel * round_checks board cfg reads reading law num))
            ≡ x
          → Ended board cfg reads reading law x (mcuboot_led_err_blink_red_led board cfg fuel num w)
          → (j : ℕ) × (reads w' ≡ suc j)
            × (is_pressed (reading j) ≡ true)
            × ((m : ℕ) × (reads w ≤ m) × (m < j) × (is_pressed (reading m) ≡ false))
      go (still b) seen h = cc
      go (at j) seen (v, f, h) =
          let (less, press, before) = watch_released pressed (reads w) _ j seen in
          (j, ap reads (ground arith) ∙ h, press, before)

  -- A press behind a release ends the indication: where a reading shows the button not pressed and
  -- a later one shows it pressed, the device reboots at the latest right after the later one, given
  -- rounds enough to come to it.
  pub press_reboots :
      (fuel num m j : ℕ) (w : W)
      → reads w ≤ m
      → m < j
      → is_pressed (reading m) ≡ false
      → is_pressed (reading j) ≡ true
      → j < reads w + suc (fuel * round_checks board cfg reads reading law num)
      → (w' : W) × (mcuboot_led_err_blink_red_led board cfg fuel num w ≡ some (tt, w'))
        × (reads w' ≤ suc j)
  press_reboots fuel num m j w lo lt p q hi =
      let (i, seen, le) = watch_found pressed (reads w) _ m j lo lt hi p q in
      let (w', e, h) =
        subst
          (λ x.
            Ended board cfg reads reading law x
              (mcuboot_led_err_blink_red_led board cfg fuel num w))
          seen (mcuboot_led_err_blink_red_led_lem fuel num w) in
      (w', e, omega arith)
