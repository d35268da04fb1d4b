-- ===== src/LedErr/Watch.antt =====
-- What the error indication waits for, said of the button's samples alone: the first press after a
-- release.
use ruuvi_air_mcuboot.Prelude.{
  ℕ, zero, suc, ◌+◌, ◌≤◌, ◌<◌, ◌≡◌, ◌⊎◌, inl, inr, refl, ap, ap₂, ◌∙◌, subst,
}
use ruuvi_air_mcuboot.Prelude.{Bool, true, false, not, if◌then◌else◌, arith, Bool-cases}

le_cases : (a b : ℕ) → a ≤ b → (suc a ≤ b) ⊎ (a ≡ b)
le_cases a b h = ground arith

-- Pressed at a sample, or still watching, with or without a release so far.
pub data Seen : Type 0 where
  at : ℕ → Seen
  still : Bool → Seen

-- `n` samples from the sample `k` on.
unfoldable pub watch : (ℕ → Bool) → Bool → ℕ → ℕ → Seen
watch s rel k zero = still rel
watch s true k (suc n) = if s k then at k else watch s true (suc k) n
watch s false k (suc n) = watch s (not (s k)) (suc k) n

unfoldable pub resume : (ℕ → Bool) → Seen → ℕ → ℕ → Seen
resume s (at j) k n = at j
resume s (still rel) k n = watch s rel k n

-- Watching on is watching for longer.
pub watch_add :
    (s : ℕ → Bool) (rel : Bool) (k a b : ℕ)
    → watch s rel k (a + b) ≡ resume s (watch s rel k a) (k + a) b
unfolding watch resume
watch_add s rel k zero b = ap₂ (watch s rel) {x = k} (omega arith) (omega arith)
watch_add s true k (suc a) b =
    ap (watch s true k) {x = suc a + b} {y = suc (a + b)} (omega arith)
    ∙ step (watch_add s true (suc k) a b) (s k)
  where
    step :
        watch s true (suc k) (a + b) ≡ resume s (watch s true (suc k) a) (suc k + a) b
        → (b' : Bool)
        → (if b' then at k else watch s true (suc k) (a + b))
          ≡ resume s (if b' then at k else watch s true (suc k) a) (k + suc a) b
    step ih true = refl
    step ih false =
        ih ∙ ap (λ e. resume s (watch s true (suc k) a) e b) {x = suc k + a} (omega arith)
watch_add s false k (suc a) b =
    ap (watch s false k) {x = suc a + b} {y = suc (a + b)} (omega arith)
    ∙ watch_add s (not (s k)) (suc k) a b
    ∙ ap (λ e. resume s (watch s (not (s k)) (suc k) a) e b) {x = suc k + a} (omega arith)

pub resume_add :
    (s : ℕ → Bool) (x : Seen) (k a b : ℕ)
    → resume s x k (a + b) ≡ resume s (resume s x k a) (k + a) b
unfolding resume
resume_add s (at j) k a b = refl
resume_add s (still rel) k a b = watch_add s rel k a b

-- A press is at a sample of the range that is pressed, behind one that is not.
pub watch_sound :
    (s : ℕ → Bool) (k n j : ℕ) → watch s true k n ≡ at j → (k ≤ j) × (j < k + n) × (s j ≡ true)
unfolding watch
watch_sound s k zero j e = cc
watch_sound s k (suc n) j e = elim (Bool-cases (s k)) [
  | inl p ↦
      let same : k ≡ j = cc (rw p at e) in
      (omega arith, omega arith, subst (λ i. s i ≡ true) same p)
  | inr p ↦ let (a, b, c) = watch_sound s (suc k) n j (rw p at e) in (omega arith, omega arith, c)
]

-- The same without a release so far.
pub watch_released :
    (s : ℕ → Bool) (k n j : ℕ)
    → watch s false k n ≡ at j
    → (j < k + n) × (s j ≡ true) × ((m : ℕ) × (k ≤ m) × (m < j) × (s m ≡ false))
unfolding watch
watch_released s k zero j e = cc
watch_released s k (suc n) j e = elim (Bool-cases (s k)) [
  | inl p ↦
      let (b, c, (m, d, f, g)) = watch_released s (suc k) n j (rw p at e) in
      (omega arith, c, (m, omega arith, f, g))
  | inr p ↦
      let (a, b, c) = watch_sound s (suc k) n j (rw p at e) in
      (omega arith, c, (k, omega arith, omega arith, p))
]

-- Once released, the first press is no later than any.
pub watch_pressed :
    (s : ℕ → Bool) (k n j : ℕ)
    → k ≤ j
    → j < k + n
    → s j ≡ true
    → (i : ℕ) × (watch s true k n ≡ at i) × (i ≤ j)
unfolding watch
watch_pressed s k zero j lo hi p = absurd (omega arith)
watch_pressed s k (suc n) j lo hi p = elim (Bool-cases (s k)) [
  | inl q ↦ (k, rw q, lo)
  | inr q ↦
      let (i, e, le) = watch_pressed s (suc k) n j (later q) (omega arith) p in (i, rw q e, le)
]
  where
    later : s k ≡ false → suc k ≤ j
    later q = elim (le_cases k j lo) [
      | inl l ↦ l
      | inr e ↦ absurd (cc (subst (λ i. s i ≡ false) e q))
    ]

-- A release and a press after it are found.
pub watch_found :
    (s : ℕ → Bool) (k n m j : ℕ)
    → k ≤ m
    → m < j
    → j < k + n
    → s m ≡ false
    → s j ≡ true
    → (i : ℕ) × (watch s false k n ≡ at i) × (i ≤ j)
unfolding watch
watch_found s k zero m j lo lt hi p q = absurd (omega arith)
watch_found s k (suc n) m j lo lt hi p q = elim (Bool-cases (s k)) [
  | inl r ↦
      let (i, e, le) = watch_found s (suc k) n m j (later r) lt (omega arith) p q in (i, rw r e, le)
  | inr r ↦
      let (i, e, le) = watch_pressed s (suc k) n j (omega arith) (omega arith) q in (i, rw r e, le)
]
  where
    later : s k ≡ true → suc k ≤ m
    later r = elim (le_cases k m lo) [
      | inl l ↦ l
      | inr e ↦ absurd (cc (subst (λ i. s i ≡ true) e r))
    ]
