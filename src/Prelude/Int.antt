-- ===== src/Prelude/Int.antt =====
-- Return codes: signed numbers, of which the code asks only the sign and the unsigned value.
use Prim.Native.Nat.{ℕ, ◌+◌, ◌-◌, ◌%◌, ◌^◌, ◌<◌}
use mathlib.Core.Path.{◌≡◌, refl}
use mathlib.Core.Bool.{Bool, true, false}
use ruuvi_air_mcuboot.Prelude.Tests.{◌==◌}

-- `negsuc n` is -(n + 1).
pub data ℤ : Type 0 where
  pos : ℕ → ℤ
  negsuc : ℕ → ℤ

-- `rc < 0`
abbrev pub is_neg : ℤ → Bool
is_neg (pos n) = false
is_neg (negsuc n) = true

-- `0 == rc`
abbrev pub is_zero : ℤ → Bool
is_zero (pos n) = n == 0
is_zero (negsuc n) = false

abbrev pub minus_one : ℤ
minus_one = negsuc 0

abbrev pub u32_mod : ℕ
u32_mod = 2 ^ 32

-- `(uint32_t)rc`, the conversion that a comparison with an unsigned number makes
abbrev pub to_u32 : ℤ → ℕ
to_u32 (pos n) = n % u32_mod
to_u32 (negsuc n) = u32_mod - 1 - n % u32_mod

-- `uint32_t` (and `size_t`) addition and subtraction
abbrev pub add32 : ℕ → ℕ → ℕ
add32 a b = (a + b) % u32_mod

abbrev pub sub32 : ℕ → ℕ → ℕ
sub32 a b = (a + u32_mod - b) % u32_mod

-- A negative value of a 32-bit `int`
abbrev pub IsError : ℤ → Type 0
IsError (pos n) = ⊥
IsError (negsuc n) = n < 2 ^ 31

pub is_neg_of_error : (rc : ℤ) → IsError rc → is_neg rc ≡ true
is_neg_of_error (pos n) h = absurd h
is_neg_of_error (negsuc n) h = refl

pub is_zero_of_error : (rc : ℤ) → IsError rc → is_zero rc ≡ false
is_zero_of_error (pos n) h = absurd h
is_zero_of_error (negsuc n) h = refl
