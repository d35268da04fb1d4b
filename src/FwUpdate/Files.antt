-- ===== src/FwUpdate/Files.antt =====
-- Every file that a check of an update opens is closed again, on every path.
use ruuvi_air_mcuboot.Prelude.{ℕ, suc, ◌∷◌, ◌≡◌, ◌⊎◌, refl, ◌∙◌, Bool, true, false}
use ruuvi_air_mcuboot.Prelude.{Option, none, some, List, M, pure, ◌>>=◌, >>=-eq-some, if◌then◌else◌}
use ruuvi_air_mcuboot.Prelude.{pos, IsError, Keeps}
use ruuvi_air_mcuboot.Platform.System.{SystemApi}

-- `opens w` are the open files, the one opened last first. An opening that succeeds adds a file,
-- which is not NULL. A closing of the file opened last takes it away; of any other file nothing is
-- said.
pub record IsTracked {W : Type 0} (sys : SystemApi W) (opens : W → List ℕ) : Type 0 where
  pub fs_open_lem :
      (path : List ℕ) (w : W)
      → (IsError (sys.fs_open path w).0.rc × (opens (sys.fs_open path w).1 ≡ opens w))
        ⊎ (((sys.fs_open path w).0.rc ≡ pos 0)
            × ((f : ℕ) × ((sys.fs_open path w).0.filep ≡ suc f))
            × (opens (sys.fs_open path w).1 ≡ (sys.fs_open path w).0.filep ∷ opens w))
  pub fs_close_lem :
      (f : ℕ) (rest : List ℕ) (w : W) → opens w ≡ f ∷ rest → opens (sys.fs_close f w).1 ≡ rest

-- Where `m` starts with the open files `a` and ends, those are open that `b` says of its result.
pub record Opens {W A : Type 0} (opens : W → List ℕ) (a : List ℕ) (m : M W A) (b : A → List ℕ)
    : Type 0 where
  pub opened : (w : W) (x : A) (w' : W) → opens w ≡ a → m w ≡ some (x, w') → opens w' ≡ b x

module _ {W : Type 0} {opens : W → List ℕ} where
  pub Opens-pure :
      {A : Type 0} (a : List ℕ) (x : A) (b : A → List ℕ) → b x ≡ a → Opens opens a (pure x) b
  Opens-pure a x b h = record { opened = λ w y w' e run. cc (run, e, h) }

  pub Opens-Keeps :
      {A : Type 0} (n : List ℕ) (m : M W A) → Keeps (λ w. opens w ≡ n) m → Opens opens n m (λ _. n)
  Opens-Keeps n m k = record { opened = λ w x w' e run. k.kept w x w' e run }

  pub Opens-bind :
      {A B : Type 0} (a : List ℕ) (m : M W A) (b : A → List ℕ) (k : A → M W B) (c : B → List ℕ)
      → Opens opens a m b
      → ((x : A) → Opens opens (b x) (k x) c)
      → Opens opens a (m >>= k) c
  Opens-bind a m b k c hm hk = record {
    opened = λ w y w' e run.
        let (x, v, p, q) = >>=-eq-some m k w y w' run in
        (hk x).opened v y w' (hm.opened w x v e p) q;
  }

  pub Opens-if :
      {A : Type 0} (a : List ℕ) (t : Bool) (m n : M W A) (b : A → List ℕ)
      → (t ≡ true → Opens opens a m b)
      → (t ≡ false → Opens opens a n b)
      → Opens opens a (if t then m else n) b
  Opens-if a true m n b hm hn = hm refl
  Opens-if a false m n b hm hn = hn refl

  pub Opens-Option :
      {A B : Type 0} (a : List ℕ) (o : Option A) (m : M W B) (k : A → M W B) (b : B → List ℕ)
      → (o ≡ none → Opens opens a m b)
      → ((x : A) → o ≡ some x → Opens opens a (k x) b)
      → Opens opens a (elim o as (λ _. M W B) [ none ↦ m | some x ↦ k x ]) b
  Opens-Option a none m k b hm hk = hm refl
  Opens-Option a (some x) m k b hm hk = hk x refl

  pub Opens-start :
      {A : Type 0} (a a' : List ℕ) (m : M W A) (b : A → List ℕ)
      → a ≡ a'
      → Opens opens a' m b
      → Opens opens a m b
  Opens-start a a' m b e h = record { opened = λ w x w' i run. h.opened w x w' (i ∙ e) run }
