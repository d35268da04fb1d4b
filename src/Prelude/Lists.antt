-- ===== src/Prelude/Lists.antt =====
-- Buffers: lists of bytes measured and cut by native numbers, and `memcmp`.
use Prim.Native.Nat.{ℕ, zero, suc, ◌+◌, ◌-◌, ◌≤◌, min}
use mathlib.Core.Path.{◌≡◌, refl, sym, ap, ◌∙◌}
use mathlib.Core.Bool.{Bool, true, false, ◌&&◌}
use mathlib.Core.List.{List, [], ◌∷◌, ◌++◌}
use mathlib.Core.Option.{Option, none, some}
use native.Mathlib.Omega.{arith}
use ruuvi_air_mcuboot.Prelude.Tests.{◌==◌}

module _ {ℓ} {A : Type ℓ} where
  abbrev pub length : List A → ℕ
  length [] = 0
  length (x ∷ xs) = suc (length xs)

  abbrev pub get_elem? : List A → ℕ → Option A
  get_elem? [] i = none
  get_elem? (x ∷ xs) zero = some x
  get_elem? (x ∷ xs) (suc i) = get_elem? xs i

  abbrev pub get_or : List A → ℕ → A → A
  get_or [] i d = d
  get_or (x ∷ xs) zero d = x
  get_or (x ∷ xs) (suc i) d = get_or xs i d

  -- A write out of bounds changes nothing.
  abbrev pub set : List A → ℕ → A → List A
  set [] i v = []
  set (x ∷ xs) zero v = v ∷ xs
  set (x ∷ xs) (suc i) v = x ∷ set xs i v

  abbrev pub take : ℕ → List A → List A
  take zero xs = []
  take (suc n) [] = []
  take (suc n) (x ∷ xs) = x ∷ take n xs

  abbrev pub drop : ℕ → List A → List A
  drop zero xs = xs
  drop (suc n) [] = []
  drop (suc n) (x ∷ xs) = drop n xs

  abbrev pub replicate : ℕ → A → List A
  replicate zero a = []
  replicate (suc n) a = a ∷ replicate n a

module _ {ℓ} {A : Type ℓ} where
  -- The `n` bytes from `off` on, fewer where the list ends.
  abbrev pub slice : List A → ℕ → ℕ → List A
  slice xs off n = take n (drop off xs)

  -- A buffer after its first `length bs` bytes have been written.
  unfoldable pub overwrite : List A → List A → List A
  overwrite buf bs = bs ++ drop (length bs) buf

  pub length-append : (xs ys : List A) → length (xs ++ ys) ≡ length xs + length ys
  length-append [] ys = omega arith
  length-append (x ∷ xs) ys = omega (arith, length-append xs ys)

  pub length-take : (n : ℕ) (xs : List A) → length (take n xs) ≡ min n (length xs)
  length-take zero xs = omega arith
  length-take (suc n) [] = omega arith
  length-take (suc n) (x ∷ xs) = omega (arith, length-take n xs)

  pub length-drop : (n : ℕ) (xs : List A) → length (drop n xs) ≡ length xs - n
  length-drop zero xs = omega arith
  length-drop (suc n) [] = omega arith
  length-drop (suc n) (x ∷ xs) = omega (arith, length-drop n xs)

  pub length-set : (xs : List A) (i : ℕ) (v : A) → length (set xs i v) ≡ length xs
  length-set [] i v = refl
  length-set (x ∷ xs) zero v = refl
  length-set (x ∷ xs) (suc i) v = ap suc (length-set xs i v)

  pub length-replicate : (n : ℕ) (a : A) → length (replicate n a) ≡ n
  length-replicate zero a = refl
  length-replicate (suc n) a = ap suc (length-replicate n a)

  pub take-nil : (n : ℕ) → take {A = A} n [] ≡ []
  take-nil zero = refl
  take-nil (suc n) = refl

  pub drop-nil : (n : ℕ) → drop {A = A} n [] ≡ []
  drop-nil zero = refl
  drop-nil (suc n) = refl

  pub drop-drop : (m n : ℕ) (xs : List A) → drop n (drop m xs) ≡ drop (m + n) xs
  drop-drop zero n xs = ap (λ k. drop k xs) (omega arith)
  drop-drop (suc m) n [] = drop-nil n ∙ sym (drop-nil (suc m + n))
  drop-drop (suc m) n (x ∷ xs) =
      drop-drop m n xs ∙ ap (λ k. drop k (x ∷ xs)) {x = suc (m + n)} (omega arith)

  pub take-add : (m n : ℕ) (xs : List A) → take m xs ++ take n (drop m xs) ≡ take (m + n) xs
  take-add zero n xs = ap (λ k. take k xs) (omega arith)
  take-add (suc m) n [] = take-nil n ∙ sym (take-nil (suc m + n))
  take-add (suc m) n (x ∷ xs) =
      ap (λ l. x ∷ l) (take-add m n xs) ∙ ap (λ k. take k (x ∷ xs)) {x = suc (m + n)} (omega arith)

  pub take_all : (n : ℕ) (xs : List A) → length xs ≤ n → take n xs ≡ xs
  take_all zero [] h = refl
  take_all zero (x ∷ xs) h = absurd (omega arith)
  take_all (suc n) [] h = refl
  take_all (suc n) (x ∷ xs) h = ap (λ l. x ∷ l) (take_all n xs (omega arith))

  -- Two pieces in a row are one.
  pub slice-slice :
      (xs : List A) (off m n : ℕ) → slice xs off m ++ slice xs (off + m) n ≡ slice xs off (m + n)
  slice-slice xs off m n =
      ap (λ l. slice xs off m ++ take n l) (sym (drop-drop off m xs)) ∙ take-add m n (drop off xs)

  pub replicate-add : (m n : ℕ) (a : A) → replicate m a ++ replicate n a ≡ replicate (m + n) a
  replicate-add zero n a = ap (λ k. replicate k a) {x = n} (omega arith)
  replicate-add (suc m) n a =
      ap (λ l. a ∷ l) (replicate-add m n a)
      ∙ ap (λ k. replicate k a) {x = suc (m + n)} (omega arith)

  pub take-append : (xs ys : List A) → take (length xs) (xs ++ ys) ≡ xs
  take-append [] ys = refl
  take-append (x ∷ xs) ys = ap (λ l. x ∷ l) (take-append xs ys)

  pub drop-append : (xs ys : List A) (n : ℕ) → drop (length xs + n) (xs ++ ys) ≡ drop n ys
  drop-append [] ys n = ap (λ k. drop k ys) {y = n} (omega arith)
  drop-append (x ∷ xs) ys n =
      ap (λ k. drop k (x ∷ xs ++ ys)) {y = suc (length xs + n)} (omega arith) ∙ drop-append xs ys n

  pub drop-replicate : (m n : ℕ) (a : A) → drop m (replicate n a) ≡ replicate (n - m) a
  drop-replicate zero n a = ap (λ k. replicate k a) {x = n} (omega arith)
  drop-replicate (suc m) zero a = ap (λ k. replicate k a) {x = 0} (omega arith)
  drop-replicate (suc m) (suc n) a =
      drop-replicate m n a ∙ ap (λ k. replicate k a) {x = n - m} (omega arith)

  -- The first elements are the first of more.
  pub take-take : (m n : ℕ) (xs : List A) → m ≤ n → take m xs ≡ take m (take n xs)
  take-take zero n xs le = refl
  take-take (suc m) zero xs le = absurd (omega arith)
  take-take (suc m) (suc n) [] le = refl
  take-take (suc m) (suc n) (x ∷ xs) le = ap (λ l. x ∷ l) (take-take m n xs (omega arith))

  pub take-append_le : (n : ℕ) (xs ys : List A) → n ≤ length xs → take n (xs ++ ys) ≡ take n xs
  take-append_le zero xs ys h = refl
  take-append_le (suc n) [] ys h = absurd (omega arith)
  take-append_le (suc n) (x ∷ xs) ys h = ap (λ l. x ∷ l) (take-append_le n xs ys (omega arith))

  pub drop-append_le :
      (n : ℕ) (xs ys : List A) → n ≤ length xs → drop n (xs ++ ys) ≡ drop n xs ++ ys
  drop-append_le zero xs ys h = refl
  drop-append_le (suc n) [] ys h = absurd (omega arith)
  drop-append_le (suc n) (x ∷ xs) ys h = drop-append_le n xs ys (omega arith)

  pub take-append_add : (n : ℕ) (xs ys : List A) → take (length xs + n) (xs ++ ys) ≡ xs ++ take n ys
  take-append_add n [] ys = ap (λ k. take k ys) {y = n} (omega arith)
  take-append_add n (x ∷ xs) ys =
      ap (λ k. take k (x ∷ xs ++ ys)) {y = suc (length xs + n)} (omega arith)
      ∙ ap (λ l. x ∷ l) (take-append_add n xs ys)

  pub take-replicate : (m n : ℕ) (a : A) → m ≤ n → take m (replicate n a) ≡ replicate m a
  take-replicate zero n a h = refl
  take-replicate (suc m) zero a h = absurd (omega arith)
  take-replicate (suc m) (suc n) a h = ap (λ l. a ∷ l) (take-replicate m n a (omega arith))

  -- A slice is full exactly where it lies inside the list.
  pub length-slice : (xs : List A) (off n : ℕ) → length (slice xs off n) ≡ min n (length xs - off)
  length-slice xs off n = omega (arith, length-take n (drop off xs), length-drop off xs)

  pub nil_of_length : (xs : List A) → length xs ≡ 0 → xs ≡ []
  nil_of_length [] e = refl
  nil_of_length (x ∷ xs) e = absurd (omega arith)

-- `0 == memcmp(xs, ys, n)`; buffers of which one ends before the other differ.
abbrev pub memcmp_eq : List ℕ → List ℕ → ℕ → Bool
memcmp_eq xs ys zero = true
memcmp_eq [] [] (suc n) = true
memcmp_eq [] (y ∷ ys) (suc n) = false
memcmp_eq (x ∷ xs) [] (suc n) = false
memcmp_eq (x ∷ xs) (y ∷ ys) (suc n) = x == y && memcmp_eq xs ys n

pub take-eq_of_memcmp : (xs ys : List ℕ) (n : ℕ) → memcmp_eq xs ys n ≡ true → take n xs ≡ take n ys
take-eq_of_memcmp xs ys zero h = refl
take-eq_of_memcmp [] [] (suc n) h = refl
take-eq_of_memcmp [] (y ∷ ys) (suc n) h = cc
take-eq_of_memcmp (x ∷ xs) [] (suc n) h = cc
take-eq_of_memcmp (x ∷ xs) (y ∷ ys) (suc n) h = ground (arith, take-eq_of_memcmp xs ys n)

pub memcmp_self : (xs : List ℕ) (n : ℕ) → memcmp_eq xs xs n ≡ true
memcmp_self xs zero = refl
memcmp_self [] (suc n) = refl
memcmp_self (x ∷ xs) (suc n) = ground (arith, memcmp_self xs n)
