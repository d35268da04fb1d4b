-- ===== src/Board/Still.antt =====
-- Runs that end and keep an invariant, and the board's set-up as such runs.
use ruuvi_air_mcuboot.Prelude.{
  ℕ, refl, Bool, true, false, M, Runs, pure, lift, ◌>>=◌, if◌then◌else◌,
}
use ruuvi_air_mcuboot.Platform.Board.{BoardApi, BoardConfig}
use ruuvi_air_mcuboot.Board.Defs.{
  mcuboot_gpio_input_init, mcuboot_led_init, mcuboot_led_init_gpio, mcuboot_led_deinit,
  mcuboot_led_deinit_gpio, mcuboot_button_init, mcuboot_button_deinit, mcuboot_ext_flash_power_on,
}

-- `m` ends, and keeps `I`.
pub record Ends {W A : Type 0} (I : W → Type 0) (m : M W A) : Type 0 where
  pub ends : (w : W) → I w → Runs (λ x w'. I w') (m w)

-- Setting up pins keeps `I`.
pub record IsStill {W : Type 0} (board : BoardApi W) (I : W → Type 0) : Type 0 where
  pub is_ready_lem : (pin : ℕ) (w : W) → I w → I (board.is_ready pin w).1
  pub configure_lem : (pin flags : ℕ) (w : W) → I w → I (board.gpio_pin_configure_dt pin flags w).1
  pub interrupt_lem :
      (pin flags : ℕ) (w : W) → I w → I (board.gpio_pin_interrupt_configure_dt pin flags w).1
  pub set_lem : (pin v : ℕ) (w : W) → I w → I (board.gpio_pin_set_dt pin v w).1
  pub init_callback_lem : (pin : ℕ) (w : W) → I w → I (board.gpio_init_callback pin w).1
  pub add_callback_lem : (pin : ℕ) (w : W) → I w → I (board.gpio_add_callback pin w).1

module _ {W : Type 0} {I : W → Type 0} where
  pub Ends-pure : {A : Type 0} (a : A) → Ends I (pure a)
  Ends-pure a = record { ends = λ w h. (a, w, refl, h) }

  Ends-lift : {A : Type 0} (f : W → A × W) → ((w : W) → I w → I (f w).1) → Ends I (lift f)
  Ends-lift f k = record { ends = λ w h. (_, _, refl, k w h) }

  pub Ends-if :
      {A : Type 0} (t : Bool) (m n : M W A) → Ends I m → Ends I n → Ends I (if t then m else n)
  Ends-if true m n hm hn = hm
  Ends-if false m n hm hn = hn

  pub Ends-bind :
      {A B : Type 0} (m : M W A) (k : A → M W B)
      → Ends I m
      → ((a : A) → Ends I (k a))
      → Ends I (m >>= k)
  Ends-bind m k hm hk = record {
    ends = λ w h.
        let (a, v, run, hv) = hm.ends w h in
        let (b, x, run', hx) = (hk a).ends v hv in rw (run, ◌>>=◌) (b, x, run', hx);
  }

  module _ (board : BoardApi W) where
    Ends-is_ready : (pin : ℕ) → IsStill board I → Ends I (lift (board.is_ready pin))
    Ends-is_ready pin law = Ends-lift (board.is_ready pin) (law.is_ready_lem pin)

    Ends-configure :
        (pin flags : ℕ) → IsStill board I → Ends I (lift (board.gpio_pin_configure_dt pin flags))
    Ends-configure pin flags law =
        Ends-lift (board.gpio_pin_configure_dt pin flags) (law.configure_lem pin flags)

    Ends-interrupt :
        (pin flags : ℕ)
        → IsStill board I
        → Ends I (lift (board.gpio_pin_interrupt_configure_dt pin flags))
    Ends-interrupt pin flags law =
        Ends-lift (board.gpio_pin_interrupt_configure_dt pin flags) (law.interrupt_lem pin flags)

    Ends-set : (pin v : ℕ) → IsStill board I → Ends I (lift (board.gpio_pin_set_dt pin v))
    Ends-set pin v law = Ends-lift (board.gpio_pin_set_dt pin v) (law.set_lem pin v)

    Ends-init_callback : (pin : ℕ) → IsStill board I → Ends I (lift (board.gpio_init_callback pin))
    Ends-init_callback pin law =
        Ends-lift (board.gpio_init_callback pin) (law.init_callback_lem pin)

    Ends-add_callback : (pin : ℕ) → IsStill board I → Ends I (lift (board.gpio_add_callback pin))
    Ends-add_callback pin law = Ends-lift (board.gpio_add_callback pin) (law.add_callback_lem pin)

ruleset still_rules = (
  Ends-pure, Ends-if, Ends-bind, Ends-is_ready, Ends-configure, Ends-interrupt, Ends-set,
  Ends-init_callback, Ends-add_callback,
)

module _ {W : Type 0} {I : W → Type 0} (board : BoardApi W) (law : IsStill board I)
    (cfg : BoardConfig) where
  pub gpio_input_init-Ends :
      (pin extra : ℕ) (has : Bool) (flags : ℕ)
      → Ends I (mcuboot_gpio_input_init board cfg pin extra has flags)
  unfolding mcuboot_gpio_input_init
  gpio_input_init-Ends pin extra has flags = search still_rules depth 20

  pub led_init-Ends : Ends I (mcuboot_led_init board cfg)
  unfolding mcuboot_led_init mcuboot_led_init_gpio
  led_init-Ends = search still_rules depth 20

  pub led_deinit-Ends : Ends I (mcuboot_led_deinit board cfg)
  unfolding mcuboot_led_deinit mcuboot_led_deinit_gpio
  led_deinit-Ends = search still_rules depth 20

  pub button_init-Ends : Ends I (mcuboot_button_init board cfg)
  unfolding mcuboot_button_init
  button_init-Ends = gpio_input_init-Ends cfg.button0 cfg.gpio_pull_up false 0

  pub button_deinit-Ends : Ends I (mcuboot_button_deinit board cfg)
  unfolding mcuboot_button_deinit
  button_deinit-Ends = search still_rules depth 20

  pub ext_flash_power_on-Ends : Ends I (mcuboot_ext_flash_power_on board cfg)
  unfolding mcuboot_ext_flash_power_on
  ext_flash_power_on-Ends = search still_rules depth 20
