-- ===== src/LedErr/Blinks.antt =====
-- The error indication against the watch over the button's samples.
use ruuvi_air_mcuboot.Prelude.{ℕ, zero, suc, ◌+◌, ◌*◌, ◌≡◌, inl, inr, refl, sym, ap, ◌∙◌, subst}
use ruuvi_air_mcuboot.Prelude.{Bool, true, false, arith, Bool-cases, Option, none, some}
use ruuvi_air_mcuboot.Prelude.{ℤ, M, Runs, pure, ◌>>=◌, ◌>>◌}
use ruuvi_air_mcuboot.Platform.Board.{BoardApi, BoardConfig, IsSampled}
use ruuvi_air_mcuboot.Board.{is_pressed, mcuboot_button_get, mcuboot_led_red_set}
use ruuvi_air_mcuboot.LedErr.Defs.{
  Watching, rebooted, released, checks_after_first_blink, checks_between_blinks,
  check_if_button_released_and_pressed, check_or_reboot, go_on, poll_loop, flash, blink_loop,
  blink_round, blink_forever,
}
use ruuvi_air_mcuboot.LedErr.Watch.{Seen, at, still, watch, resume, watch_add, resume_add}

module _ {W : Type 0} (board : BoardApi W) (cfg : BoardConfig) (reads : W → ℕ) (reading : ℕ → ℤ)
    (law : IsSampled board cfg.button0 reads reading) where
  -- The button's samples.
  abbrev pub sample : ℕ → Bool
  sample n = is_pressed (reading n)

  -- A piece of the code that has read up to the sample `e` has seen what the watch has.
  abbrev Agrees : Seen → ℕ → Watching → W → Type 0
  Agrees (at j) e rebooted w = reads w ≡ suc j
  Agrees (at j) e (released b) w = ⊥
  Agrees (still b) e rebooted w = ⊥
  Agrees (still b) e (released b') w = (b' ≡ b) × (reads w ≡ e)

  -- `m` reads `n` samples, unless it reboots before.
  abbrev Follows : ℕ → (Bool → M W Watching) → Type 0
  Follows n m =
      (b : Bool) (k : ℕ) (w : W) → reads w ≡ k → Runs (Agrees (watch sample b k n) (k + n)) (m b w)

  -- The same, behind a piece of the code that ended with `r`.
  abbrev Continues : ℕ → (Watching → M W Watching) → Type 0
  Continues n next =
      (x : Seen) (e : ℕ) (r : Watching) (w : W)
      → Agrees x e r w
      → Runs (Agrees (resume sample x e n) (e + n)) (next r w)

  go_on_lem :
      (n : ℕ) (next : Bool → M W Watching)
      → Follows n next
      → Continues n (λ r. go_on board cfg r next)
  unfolding go_on resume
  go_on_lem n next follows (at j) e rebooted w h = (_, _, refl, h)
  go_on_lem n next follows (at j) e (released b) w h = absurd h
  go_on_lem n next follows (still b) e rebooted w h = absurd h
  go_on_lem n next follows (still b) e (released b') w (same, h) =
      subst (λ c. Runs (Agrees (watch sample c e n) (e + n)) (next b' w)) same (follows b' e w h)

  -- One piece after another.
  moved_on :
      (x y : Seen) (e a n : ℕ) (r : Watching) (w : W)
      → x ≡ y
      → Agrees x (e + a + n) r w
      → Agrees y (e + (a + n)) r w
  moved_on x y e a n r w same h =
      subst (λ z. Agrees z (e + (a + n)) r w) same
        (subst (λ k. Agrees x k r w) {x = e + a + n} {y = e + (a + n)} (omega arith) h)

  Continues-then :
      (a n : ℕ) (first second : Watching → M W Watching)
      → Continues a first
      → Continues n second
      → Continues (a + n) (λ r. first r >>= second)
  Continues-then a n first second before after x e r w h =
      let (r', w', run, agrees) = before x e r w h in
      let (r'', w'', run', agrees') = after _ (e + a) r' w' agrees in
      rw (run, ◌>>=◌)
        (r'', w'', run', moved_on _ _ e a n r'' w'' (sym (resume_add sample x e a n)) agrees')

  Follows-then :
      (a n : ℕ) (first : Bool → M W Watching) (second : Watching → M W Watching)
      → Follows a first
      → Continues n second
      → Follows (a + n) (λ b. first b >>= second)
  Follows-then a n first second before after b k w h =
      let (r, w', run, agrees) = before b k w h in
      let (r', w'', run', agrees') = after _ (k + a) r w' agrees in
      rw (run, ◌>>=◌)
        (r', w'', run', moved_on _ _ k a n r' w'' (sym (watch_add sample b k a n)) agrees')

  sampled :
      (k : ℕ) (w : W) → reads w ≡ k → is_pressed (board.gpio_pin_get_dt cfg.button0 w).0 ≡ sample k
  sampled k w h = ap is_pressed (law.get_lem w ∙ ap reading h)

  check_lem : Follows 1 (check_or_reboot board cfg)
  unfolding check_or_reboot check_if_button_released_and_pressed mcuboot_button_get watch
  check_lem false k w h =
      rw (sampled k w h) (_, _, refl, (refl, law.get-reads w ∙ omega (arith, h)))
  check_lem true k w h = elim (Bool-cases (is_pressed (board.gpio_pin_get_dt cfg.button0 w).0)) [
    | inl p ↦
        rw (◌>>=◌, p, sym (sampled k w h) ∙ p)
          (_, _, refl, law.reboot-reads _ ∙ law.wait-reads _ _ ∙ law.get-reads w ∙ ap suc h)
    | inr p ↦
        rw (◌>>=◌, p, sym (sampled k w h) ∙ p)
          (_, _, refl, (refl, law.get-reads w ∙ omega (arith, h)))
  ]

  poll_loop_lem : (n : ℕ) → Follows n (poll_loop board cfg n)
  unfolding poll_loop watch
  poll_loop_lem zero b k w h = (_, _, refl, (refl, h ∙ omega arith))
  poll_loop_lem (suc n) b k w h =
      subst (λ c. Runs (Agrees (watch sample b k c) (k + c)) (poll_loop board cfg (suc n) b w))
        {x = 1 + n} {y = suc n} (omega arith)
        (Follows-then 1 n (check_or_reboot board cfg) _ check_lem
          (go_on_lem n (poll_loop board cfg n) (poll_loop_lem n)) b k _ (law.wait-reads _ w ∙ h))

  flash_lem : Follows 1 (flash board cfg)
  unfolding flash mcuboot_led_red_set watch
  flash_lem b k w h =
      Follows-then 1 0 (check_or_reboot board cfg) _ check_lem (go_on_lem 0 _ led_off) b k _
        (law.wait-reads _ _ ∙ law.set-reads _ _ w ∙ h)
    where
      led_off : Follows 0 (λ b'. do mcuboot_led_red_set board cfg false; pure (released b'))
      led_off b' k' w' h' = (_, _, refl, (refl, law.set-reads _ _ w' ∙ h' ∙ omega arith))

  -- The samples of `n` blinks, and of a round.
  abbrev blink_checks : ℕ → ℕ
  blink_checks zero = 0
  blink_checks (suc n) = 1 + (1 + blink_checks n)

  abbrev pub round_checks : ℕ → ℕ
  round_checks num = 1 + (checks_after_first_blink + (blink_checks num + checks_between_blinks))

  blink_loop_lem : (n : ℕ) → Follows (blink_checks n) (blink_loop board cfg n)
  unfolding blink_loop watch
  blink_loop_lem zero b k w h = (_, _, refl, (refl, h ∙ omega arith))
  blink_loop_lem (suc n) b k w h =
      Follows-then 1 (1 + blink_checks n) (flash board cfg) _ flash_lem
        (Continues-then 1 (blink_checks n) _ _
          (go_on_lem 1 (poll_loop board cfg 1) (poll_loop_lem 1))
          (go_on_lem (blink_checks n) (blink_loop board cfg n) (blink_loop_lem n)))
        b k w h

  blink_round_lem : (num : ℕ) → Follows (round_checks num) (blink_round board cfg num)
  unfolding blink_round
  blink_round_lem num =
      Follows-then 1 (checks_after_first_blink + (blink_checks num + checks_between_blinks))
        (flash board cfg) _ flash_lem
        (Continues-then checks_after_first_blink (blink_checks num + checks_between_blinks) _ _
          (go_on_lem checks_after_first_blink (poll_loop board cfg checks_after_first_blink)
            (poll_loop_lem checks_after_first_blink))
          (Continues-then (blink_checks num) checks_between_blinks _ _
            (go_on_lem (blink_checks num) (blink_loop board cfg num) (blink_loop_lem num))
            (go_on_lem checks_between_blinks (poll_loop board cfg checks_between_blinks)
              (poll_loop_lem checks_between_blinks))))

  -- How the code stands to the watch: rebooted at the press seen, or still blinking.
  abbrev pub Ended : Seen → Option (Unit {0} × W) → Type 0
  Ended (at j) r = (w : W) × (r ≡ some (tt, w)) × (reads w ≡ suc j)
  Ended (still b) r = r ≡ none

  after_round :
      (fuel num e : ℕ) (x : Seen) (r : Watching) (w : W)
      → Agrees x e r w
      → ((b : Bool)
          → reads w ≡ e
          → Ended
              (watch sample b e (fuel * round_checks num))
              (blink_forever board cfg fuel num b w))
      → Ended (resume sample x e (fuel * round_checks num)) (
          (elim r as (λ _. M W (Unit {0})) [
            | rebooted ↦ pure tt
            | released b ↦ blink_forever board cfg fuel num b
          ])
            w)
  unfolding resume
  after_round fuel num e (at j) rebooted w h rec = (w, refl, h)
  after_round fuel num e (at j) (released b) w h rec = absurd h
  after_round fuel num e (still b) rebooted w h rec = absurd h
  after_round fuel num e (still b) (released b') w (same, h) rec =
      subst
        (λ c.
          Ended (watch sample c e (fuel * round_checks num))
            (blink_forever board cfg fuel num b' w))
        same (rec b' h)

  pub blink_forever_lem :
      (fuel num k : ℕ) (b : Bool) (w : W)
      → reads w ≡ k
      → Ended (watch sample b k (fuel * round_checks num)) (blink_forever board cfg fuel num b w)
  unfolding blink_forever
  blink_forever_lem zero num k b w h =
      subst (λ n. Ended (watch sample b k n) none) {x = 0} {y = 0 * round_checks num} (omega arith)
        (unfold watch in refl)
  blink_forever_lem (suc fuel) num k b w h =
      let (r, w', run, agrees) = blink_round_lem num b k w h in
      subst (λ n. Ended (watch sample b k n) (blink_forever board cfg (suc fuel) num b w))
        {x = round_checks num + fuel * round_checks num} {y = suc fuel * round_checks num}
        (grind arith)
        (subst (λ x. Ended x (blink_forever board cfg (suc fuel) num b w))
          (sym (watch_add sample b k (round_checks num) (fuel * round_checks num)))
          (rw (run, ◌>>=◌)
            (after_round fuel num (k + round_checks num) _ r w' agrees
              (λ b' h'. blink_forever_lem fuel num (k + round_checks num) b' w' h'))))
