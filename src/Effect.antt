-- ===== src/Effect.antt =====
-- Calls that touch the world outside the program: databases, commands, files, other servers. A call
-- takes the state of that world and gives the state that it leaves, beside its result.
use goexpose.Common.{
  inl, inr, ap, refl, ◌≡◌, Error, Result, String, ◌≢◌, err, ok, outcome, panic, ◌⊎◌,
}

-- A call into a library: it fails or gives a value.
abbrev pub Call : Type 0 → Type 0 → Type 0
Call W A = W → (Error ⊎ A) × W

-- A function of the program, which may panic too.
abbrev pub Io : Type 0 → Type 0 → Type 0
Io W A = W → Result A × W

module _ {W A B : Type 0} where
  abbrev pub continue : Result A → (A → Io W B) → Io W B
  continue (ok a) f w = f a w
  continue (err e) f w = (err e, w)
  continue (panic m) f w = (panic m, w)

  infixl 5 ◌>>=◌
  abbrev pub ◌>>=◌ : Io W A → (A → Io W B) → Io W B
  ◌>>=◌ m f w = let (r, w') = m w in continue r f w'

module _ {W A : Type 0} where
  abbrev pub pure : Result A → Io W A
  pure r w = (r, w)

  abbrev pub perform : Call W A → Io W A
  perform c w = let (r, w') = c w in (outcome r, w')

module _ {W A B : Type 0} where
  pub continue_inverse :
      (r : Result A) (f : A → Io W B) (w : W) {b : B} {w' : W}
      → continue r f w ≡ (ok b, w')
      → (a : A) × (r ≡ ok a) × (f a w ≡ (ok b, w'))
  continue_inverse (ok a) f w h = (a, refl, h)
  continue_inverse (err e) f w h = cc
  continue_inverse (panic m) f w h = cc

  -- Inversion of a chain that returns, with the state between its two parts.
  pub >>=-eq-ok :
      (m : Io W A) (f : A → Io W B) (w : W) {b : B} {w' : W}
      → (m >>= f) w ≡ (ok b, w')
      → (a : A) × (w₁ : W) × (m w ≡ (ok a, w₁)) × (f a w₁ ≡ (ok b, w'))
  >>=-eq-ok m f w h =
      let (a, e, k) = continue_inverse (m w).0 f (m w).1 h in
      (a, (m w).1, ap (λ r. (r, (m w).1)) e, k)

  -- A chain panics only if a part of it does.
  pub >>=-ne-panic :
      (m : Io W A) (f : A → Io W B) (w : W)
      → ((s : String) → (m w).0 ≢ panic s)
      → ((a : A) (w₁ : W) (s : String) → m w ≡ (ok a, w₁) → (f a w₁).0 ≢ panic s)
      → (s : String) → ((m >>= f) w).0 ≢ panic s
  >>=-ne-panic m f w hm hf s = go (m w).0 refl
    where
      go : (r : Result A) → (m w).0 ≡ r → (continue r f (m w).1).0 ≢ panic s
      go (ok a) e = hf a (m w).1 s (ap (λ r. (r, (m w).1)) e)
      go (err x) e = λ h. cc
      go (panic t) e = absurd (hm t e)

module _ {A : Type 0} where
  pub outcome_inverse : (x : Error ⊎ A) {a : A} → outcome x ≡ ok a → x ≡ inr a
  outcome_inverse (inl e) h = cc
  outcome_inverse (inr b) h = cc

  pub outcome-ne-panic : (x : Error ⊎ A) (s : String) → outcome x ≢ panic s
  outcome-ne-panic (inl e) s h = cc
  outcome-ne-panic (inr a) s h = cc

module _ {W A : Type 0} where
  -- A library call that returned.
  pub perform_inverse :
      (c : Call W A) (w : W) {a : A} {w' : W} → perform c w ≡ (ok a, w') → c w ≡ (inr a, w')
  perform_inverse c w h = let e = outcome_inverse (c w).0 (ap (λ x. x.0) h) in λ i. (e i, (h i).1)
