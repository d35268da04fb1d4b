-- ===== src/FwUpdate/Gated.antt =====
-- Runs that end in false and keep an invariant, unless they had a permission: the rules.
use ruuvi_air_mcuboot.Prelude.{◌≡◌, ◌⊎◌, inl, inr, Bool, true, false, Option, none, some, M, pure}
use ruuvi_air_mcuboot.Prelude.{refl, subst, ◌>>=◌, >>=-eq-some, if-eq-some, if◌then◌else◌, Keeps}

-- Where `m` ends in `w`, it has answered false and kept `I`, or there is the permission `P`.
pub record Gated {W : Type 0} (I : W → Type 0) (P : Type 0) (m : M W Bool) (w : W) : Type 0 where
  pub gated : (b : Bool) (w' : W) → m w ≡ some (b, w') → (I w' × (b ≡ false)) ⊎ P

module _ {W : Type 0} {I : W → Type 0} {P : Type 0} where
  pub Gated-pure : (w : W) → I w → Gated I P (pure false) w
  Gated-pure w h = record { gated = λ b w' e. inl (subst I (cc e) h, cc e) }

  pub Gated-permitted : (m : M W Bool) (w : W) → P → Gated I P m w
  Gated-permitted m w p = record { gated = λ b w' e. inr p }

  pub Gated-if :
      (t : Bool) (m n : M W Bool) (w : W)
      → (t ≡ true → Gated I P m w)
      → (t ≡ false → Gated I P n w)
      → Gated I P (if t then m else n) w
  Gated-if true m n w gm gn = gm refl
  Gated-if false m n w gm gn = gn refl

  pub Gated-bind :
      {A : Type 0} (m : M W A) (k : A → M W Bool) (w : W)
      → Keeps I m
      → I w
      → ((a : A) (v : W) → m w ≡ some (a, v) → I v → Gated I P (k a) v)
      → Gated I P (m >>= k) w
  Gated-bind m k w km h gk = record {
    gated = λ b w' e.
        let (a, v, p, q) = >>=-eq-some m k w b w' e in (gk a v p (km.kept w a v h p)).gated b w' q;
  }

  pub Gated-Option :
      {A : Type 0} (o : Option A) (m : M W Bool) (k : A → M W Bool) (w : W)
      → Gated I P m w
      → ((a : A) → o ≡ some a → Gated I P (k a) w)
      → Gated I P (elim o as (λ _. M W Bool) [ none ↦ m | some a ↦ k a ]) w
  Gated-Option none m k w gm gk = gm
  Gated-Option (some a) m k w gm gk = gk a refl

-- Where `m` ends, it has kept `I` and its answer satisfies `R`, or there is the permission `P`.
pub record Guarded {W A : Type 0} (I : W → Type 0) (P : Type 0) (R : A → Type 0) (m : M W A)
    : Type 0 where
  pub guarded : (w : W) (a : A) (w' : W) → I w → m w ≡ some (a, w') → (I w' × R a) ⊎ P

module _ {W : Type 0} {I : W → Type 0} {P : Type 0} where
  pub Guarded-pure : {A : Type 0} {R : A → Type 0} (a : A) → R a → Guarded I P R (pure a)
  Guarded-pure {R = R} a r = record {
    guarded = λ w b w' h e. inl (subst I (cc e) h, subst R (cc e) r);
  }

  pub Guarded-Gated :
      {Q : Type 0} (m : M W Bool)
      → ((w : W) → I w → Gated I Q m w)
      → (Q → P)
      → Guarded I P (λ b. b ≡ false) m
  Guarded-Gated m g f = record {
    guarded = λ w a w' h e. elim ((g w h).gated a w' e) [ inl k ↦ inl k | inr q ↦ inr (f q) ];
  }

  pub Guarded-bind :
      {A B : Type 0} {R : A → Type 0} {S : B → Type 0} (m : M W A) (k : A → M W B)
      → Guarded I P R m
      → ((a : A) → R a → Guarded I P S (k a))
      → Guarded I P S (m >>= k)
  Guarded-bind m k gm gk = record {
    guarded = λ w b w' h e.
        let (a, v, p, q) = >>=-eq-some m k w b w' e in
        elim (gm.guarded w a v h p) [ inl (h', r) ↦ (gk a r).guarded v b w' h' q | inr r ↦ inr r ];
  }

  -- A test that keeps `I` and whose success is the permission for the run after it.
  pub Guarded-test :
      {A : Type 0} {R : A → Type 0} (m : M W Bool) (k n : M W A)
      → Keeps I m
      → ((w v : W) → I w → m w ≡ some (true, v) → P)
      → Guarded I P R n
      → Guarded I P R (m >>= λ t. if t then k else n)
  Guarded-test m k n km permit gn = record {
    guarded = λ w b w' h e.
        let (t, v, p, q) = >>=-eq-some m _ w b w' e in
        elim (if-eq-some t k n v b w' q) [
          | inl (s, q') ↦ inr (permit w v h (subst (λ z. m w ≡ some (z, v)) s p))
          | inr (s, q') ↦ gn.guarded v b w' (km.kept w t v h p) q'
        ];
  }
