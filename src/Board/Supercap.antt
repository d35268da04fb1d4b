-- ===== src/Board/Supercap.antt =====
-- The set-up of the board, and the supercapacitor that may end it.
use ruuvi_air_mcuboot.Prelude.{arith}
use ruuvi_air_mcuboot.Prelude.{
  ℕ, zero, suc, pos, negsuc, some, M, ◌↔◌, ◌≡◌, refl, Bool, true, false, ℤ, Runs, pure, ◌>>=◌,
}
use ruuvi_air_mcuboot.Prelude.{if◌then◌else◌, Bool-cases, inl, inr}
use ruuvi_air_mcuboot.Platform.Board.{BoardApi, BoardConfig}
use ruuvi_air_mcuboot.Board.Defs.{
  Power, on, off, is_pressed, mcuboot_on_supercap_active, mcuboot_supercap_init, init_powered,
  mcuboot_early_init_post_kernel, mcuboot_gpio_input_init,
}
use ruuvi_air_mcuboot.Board.Still.{
  IsStill, gpio_input_init-Ends, led_init-Ends, led_deinit-Ends, button_init-Ends,
  button_deinit-Ends, ext_flash_power_on-Ends,
}

-- A reading that did not fail, of a pin that is active.
abbrev pub IsActive : ℤ → Type 0
IsActive rc = (n : ℕ) × (rc ≡ pos (suc n))

is_pressed_iff : (rc : ℤ) → (is_pressed rc ≡ true) ↔ IsActive rc
unfolding is_pressed
is_pressed_iff (pos zero) = ((λ e. cc e), (λ (n, e). cc e))
is_pressed_iff (pos (suc n)) = ((λ e. (n, refl)), (λ h. ground arith))
is_pressed_iff (negsuc n) = ((λ e. cc e), (λ (m, e). cc e))

module _ {W : Type 0} (board : BoardApi W) (cfg : BoardConfig) where
  free : IsStill board (λ w. Unit {0})
  free = record {
    is_ready_lem = λ pin w h. tt;
    configure_lem = λ pin flags w h. tt;
    interrupt_lem = λ pin flags w h. tt;
    set_lem = λ pin v w h. tt;
    init_callback_lem = λ pin w h. tt;
    add_callback_lem = λ pin w h. tt;
  }

  -- The last call was `sys_poweroff`.
  abbrev pub PoweredOff : W → Type 0
  PoweredOff w' = (v : W) × (w' ≡ (board.sys_poweroff v).1)

  active_lem :
      (w : W) → Runs (λ p w'. (p ≡ off) × PoweredOff w') (mcuboot_on_supercap_active board cfg w)
  unfolding mcuboot_on_supercap_active
  active_lem w =
      let (a, v, run, hv) = (button_deinit-Ends board free cfg).ends w tt in
      let (b, x, run', hx) = (led_deinit-Ends board free cfg).ends v tt in
      rw (run, ◌>>=◌, run', ◌>>=◌) (off, _, refl, (refl, (_, refl)))

  powered_lem : (w : W) → Runs (λ p w'. p ≡ on) (init_powered board cfg on w)
  unfolding init_powered
  powered_lem w =
      let (a, v, run, hv) = (led_init-Ends board free cfg).ends w tt in
      let (b, x, run', hx) = (button_init-Ends board free cfg).ends v tt in
      let (z, y, run'', hy) = (ext_flash_power_on-Ends board free cfg).ends x tt in
      rw (run, ◌>>=◌, run', ◌>>=◌, run'', ◌>>=◌) (on, _, refl, refl)

  -- The supercapacitor's pin, when it has been set up in `v`, reads active.
  abbrev pub ReadsActive : W → Type 0
  ReadsActive v = IsActive (board.gpio_pin_get_dt cfg.supercap_active v).0

  -- The setting up of that pin.
  abbrev pub set_up : M W (Unit {0})
  set_up = mcuboot_gpio_input_init board cfg cfg.supercap_active 0 true cfg.gpio_int_edge_falling

  abbrev OffIff : Type 0 → Power → W → Type 0
  OffIff P p w' = ((p ≡ off) ↔ P) × (p ≡ off → PoweredOff w')

  supercap_lem :
      (w v : W)
      → set_up w ≡ some (tt, v)
      → Runs (OffIff (ReadsActive v)) (mcuboot_supercap_init board cfg w)
  unfolding mcuboot_supercap_init
  supercap_lem w v run =
      let rc = (board.gpio_pin_get_dt cfg.supercap_active v).0 in
      let known = is_pressed_iff rc in
      elim (Bool-cases (is_pressed rc)) [
        | inl e ↦
            let (p, x, run', (is_off, last)) =
              active_lem (board.gpio_pin_get_dt cfg.supercap_active v).1 in
            rw (run, ◌>>=◌, e) (p, x, run', (((λ z. known.0 e), (λ z. is_off)), (λ z. last)))
        | inr e ↦
            rw (run, ◌>>=◌, e) (on, _, refl, (((λ z. cc z), (λ z. cc (known.1 z, e))), (λ z. cc z)))
      ]

  first_lem :
      (b : Bool) (w v : W)
      → set_up w ≡ some (tt, v)
      → Runs
          (OffIff ((b ≡ true) × ReadsActive v))
          ((if b then mcuboot_supercap_init board cfg else pure on) w)
  first_lem true w v run =
      let (p, x, run', (known, last)) = supercap_lem w v run in
      (p, x, run', (((λ z. (refl, known.0 z)), (λ (t, z). known.1 z)), last))
  first_lem false w v run = (on, w, refl, (((λ z. cc z), (λ (t, z). cc t)), (λ z. cc z)))

  then_lem :
      (P : Type 0) (p : Power) (v : W) → OffIff P p v → Runs (OffIff P) (init_powered board cfg p v)
  unfolding init_powered
  then_lem P on v (known, last) =
      let (r, x, run, is_on) = powered_lem v in
      (r, x, run, (((λ z. cc (z, is_on)), (λ z. cc (known.1 z))), (λ z. cc (z, is_on))))
  then_lem P off v h = (off, v, refl, h)

  -- Whichever calls fail, the set-up ends. It ends with the device powered off, as its last call,
  -- exactly where the board is of the first revision and the supercapacitor's pin reads active in
  -- the world that the setting up of this pin leaves: the reading succeeds and is not 0. Where it
  -- fails or is 0, and on every other board, the device stays on.
  pub mcuboot_early_init_post_kernel_lem :
      (w : W)
      → (v : W) × (set_up w ≡ some (tt, v))
        × Runs
            (λ p w'.
              ((p ≡ off) ↔ ((cfg.is_rev_1 ≡ true) × ReadsActive v)) × (p ≡ off → PoweredOff w'))
            (mcuboot_early_init_post_kernel board cfg w)
  unfolding mcuboot_early_init_post_kernel
  mcuboot_early_init_post_kernel_lem w =
      let (a, v, run, hv) =
        (gpio_input_init-Ends board free cfg cfg.supercap_active 0 true
            cfg.gpio_int_edge_falling).ends
          w tt in
      let (p, x, run', known) = first_lem cfg.is_rev_1 w v run in
      (v, run, rw (run', ◌>>=◌) (then_lem ((cfg.is_rev_1 ≡ true) × ReadsActive v) p x known))
