-- ===== src/Prelude/Frames.antt =====
-- Invariants of the world: one rule for each way to build a run.
use mathlib.Core.Path.{◌≡◌, refl, subst}
use mathlib.Core.Logic.{◌⊎◌, inl, inr}
use mathlib.Core.Bool.{Bool, true, false}
use mathlib.Core.Option.{Option, none, some}
use ruuvi_air_mcuboot.Prelude.Tests.{if◌then◌else◌}
use ruuvi_air_mcuboot.Prelude.State.{M, pure, out_of_fuel, lift, ◌>>=◌, ◌>>◌}

-- Where `m` ends, it has kept `I`.
pub record Keeps {W A : Type 0} (I : W → Type 0) (m : M W A) : Type 0 where
  pub kept : (w : W) (a : A) (w' : W) → I w → m w ≡ some (a, w') → I w'

module _ {W : Type 0} {I : W → Type 0} where
  pub Keeps-pure : {A : Type 0} (a : A) → Keeps I (pure a)
  Keeps-pure a = record { kept = λ w b w' h e. subst I (cc e) h }

  pub Keeps-out_of_fuel : {A : Type 0} → Keeps I (out_of_fuel {A = A})
  Keeps-out_of_fuel = record { kept = λ w b w' h e. cc e }

  pub Keeps-lift : {A : Type 0} (f : W → A × W) → ((w : W) → I w → I (f w).1) → Keeps I (lift f)
  Keeps-lift f k = record { kept = λ w b w' h e. subst I (cc e) (k w h) }

  pub Keeps-if :
      {A : Type 0} (b : Bool) (m n : M W A) → Keeps I m → Keeps I n → Keeps I (if b then m else n)
  Keeps-if true m n km kn = km
  Keeps-if false m n km kn = kn

-- Inversion of a bind that ended.
pub >>=-eq-some :
    {W A B : Type 0} (m : M W A) (f : A → M W B) (w : W) (b : B) (w' : W)
    → (m >>= f) w ≡ some (b, w')
    → (a : A) × (v : W) × (m w ≡ some (a, v)) × (f a v ≡ some (b, w'))
>>=-eq-some {W} {A} {B} m f w b w' e = go (m w) refl e
  where
    go :
        (r : Option (A × W))
        → m w ≡ r
        → (elim r as (λ _. Option (B × W)) [ none ↦ none | some (a, v) ↦ f a v ]) ≡ some (b, w')
        → (a : A) × (v : W) × (m w ≡ some (a, v)) × (f a v ≡ some (b, w'))
    go none p q = cc q
    go (some (a, v)) p q = (a, v, p, q)

-- Inversion of an if.
pub if-eq-some :
    {W A : Type 0} (t : Bool) (m n : M W A) (w : W) (a : A) (w' : W)
    → (if t then m else n) w ≡ some (a, w')
    → ((t ≡ true) × (m w ≡ some (a, w'))) ⊎ ((t ≡ false) × (n w ≡ some (a, w')))
if-eq-some true m n w a w' e = inl (refl, e)
if-eq-some false m n w a w' e = inr (refl, e)

-- Inversion of a case on an option.
pub Option-eq-some :
    {W A B : Type 0} (o : Option A) (m : M W B) (k : A → M W B) (w : W) (b : B) (w' : W)
    → (elim o as (λ _. M W B) [ none ↦ m | some a ↦ k a ]) w ≡ some (b, w')
    → ((o ≡ none) × (m w ≡ some (b, w'))) ⊎ ((a : A) × (o ≡ some a) × (k a w ≡ some (b, w')))
Option-eq-some none m k w b w' e = inl (refl, e)
Option-eq-some (some a) m k w b w' e = inr (a, refl, e)

module _ {W : Type 0} {I : W → Type 0} {A B : Type 0} where
  pub Keeps-bind :
      (m : M W A) (f : A → M W B) → Keeps I m → ((a : A) → Keeps I (f a)) → Keeps I (m >>= f)
  Keeps-bind m f km kf = record {
    kept = λ w b w' h e.
        let (a, v, p, q) = >>=-eq-some m f w b w' e in (kf a).kept v b w' (km.kept w a v h p) q;
  }

  pub Keeps-Option :
      (o : Option A) (m : M W B) (f : A → M W B)
      → Keeps I m
      → ((a : A) → Keeps I (f a))
      → Keeps I (elim o as (λ _. M W B) [ none ↦ m | some a ↦ f a ])
  Keeps-Option none m f km kf = km
  Keeps-Option (some a) m f km kf = kf a

pub Keeps-then :
    {W A B : Type 0} {I : W → Type 0} (m : M W A) (k : M W B)
    → Keeps I m
    → Keeps I k
    → Keeps I (m >> k)
Keeps-then m k km kk = Keeps-bind m (λ a. k) km (λ a. kk)

pub ruleset keeps_rules = (Keeps-pure, Keeps-out_of_fuel, Keeps-if, Keeps-Option, Keeps-bind)
