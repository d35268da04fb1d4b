-- ===== src/Prelude/State.antt =====
-- The world that the program runs in, passed from call to call.
use mathlib.Core.Path.{◌≡◌, subst₂}
use mathlib.Core.Option.{Option, none, some}
use native.Mathlib.Omega.{arith}

-- `none` is a loop that has used up its fuel.
abbrev pub M : Type 0 → Type 0 → Type 0
M W A = W → Option (A × W)

abbrev pub pure : {W A : Type 0} → A → M W A
pure a w = some (a, w)

abbrev pub out_of_fuel : {W A : Type 0} → M W A
out_of_fuel w = none

-- A call of code outside the program.
abbrev pub lift : {W A : Type 0} → (W → A × W) → M W A
lift f w = some (f w)

infixl 5 ◌>>=◌ ◌>>◌
abbrev pub ◌>>=◌ : {W A B : Type 0} → M W A → (A → M W B) → M W B
◌>>=◌ m f w = elim (m w) [ none ↦ none | some (a, w') ↦ f a w' ]

abbrev pub ◌>>◌ : {W A B : Type 0} → M W A → M W B → M W B
m >> k = m >>= λ _. k

-- The run ends, and its result and the world it leaves satisfy `P`.
abbrev pub Runs : {W A : Type 0} → (A → W → Type 0) → Option (A × W) → Type 0
Runs {W} {A} P r = (a : A) × (w' : W) × (r ≡ some (a, w')) × P a w'

-- What a run returned satisfies what is known of its end.
pub Runs_at :
    {W A : Type 0} (P : A → W → Type 0) (r : Option (A × W)) (a : A) (w' : W)
    → Runs P r
    → r ≡ some (a, w')
    → P a w'
Runs_at P r a w' (b, v, e, h) e' = subst₂ P (ground arith) (ground arith) h
