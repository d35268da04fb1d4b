-- ===== src/Prelude/Totals.antt =====
-- Runs that end in every world: one rule for each way to build a run.
use mathlib.Core.Path.{◌≡◌, refl}
use mathlib.Core.Bool.{Bool, true, false}
use mathlib.Core.Option.{Option, none, some}
use ruuvi_air_mcuboot.Prelude.Tests.{if◌then◌else◌}
use ruuvi_air_mcuboot.Prelude.State.{M, pure, lift, ◌>>=◌, ◌>>◌}

pub record Total {W A : Type 0} (m : M W A) : Type 0 where
  pub ended : (w : W) → (a : A) × (w' : W) × (m w ≡ some (a, w'))

module _ {W : Type 0} where
  pub Total-pure : {A : Type 0} (a : A) → Total {W = W} (pure a)
  Total-pure a = record { ended = λ w. (a, w, refl) }

  pub Total-lift : {A : Type 0} (f : W → A × W) → Total (lift f)
  Total-lift f = record { ended = λ w. ((f w).0, (f w).1, refl) }

  pub Total-if :
      {A : Type 0} (b : Bool) (m n : M W A) → Total m → Total n → Total (if b then m else n)
  Total-if true m n tm tn = tm
  Total-if false m n tm tn = tn

  module _ {A B : Type 0} where
    bind_at :
        (m : M W A) (f : A → M W B) (w : W)
        → ((a : A) → Total (f a))
        → (a : A) × (v : W) × (m w ≡ some (a, v))
        → (b : B) × (w' : W) × ((m >>= f) w ≡ some (b, w'))
    bind_at m f w tf (a, v, e) = rw (e, ◌>>=◌) ((tf a).ended v)

    pub Total-bind :
        (m : M W A) (f : A → M W B) → Total m → ((a : A) → Total (f a)) → Total (m >>= f)
    Total-bind m f tm tf = record { ended = λ w. bind_at m f w tf (tm.ended w) }

    pub Total-Option :
        (o : Option A) (m : M W B) (f : A → M W B)
        → Total m
        → ((a : A) → Total (f a))
        → Total (elim o as (λ _. M W B) [ none ↦ m | some a ↦ f a ])
    Total-Option none m f tm tf = tm
    Total-Option (some a) m f tm tf = tf a

pub Total-then : {W A B : Type 0} (m : M W A) (k : M W B) → Total m → Total k → Total (m >> k)
Total-then m k tm tk = Total-bind m (λ a. k) tm (λ a. tk)

pub ruleset total_rules = (Total-pure, Total-lift, Total-if, Total-Option, Total-bind)
