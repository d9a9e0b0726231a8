-- ===== src/Common.antt =====
-- Names that the other modules share: the libraries', passed on, tests on numbers and lists, and
-- the outcome of a Go call (a value, an `error`, or a panic).
mod Lists
pub use Lists.*
pub use Prim.Native.Nat.{ℕ, zero, suc, ◌+◌, ◌-◌, ◌≤◌, ◌<◌}
pub use Prim.Native.Char.{Char, code}
pub use Prim.Native.String.{String}
use Prim.Native.String
pub use mathlib.Core.Path.{◌≡◌, refl, sym, ap, ◌∙◌}
pub use mathlib.Core.Logic.{◌≢◌, ◌↔◌, ◌⊎◌, inl, inr}
pub use mathlib.Core.Bool.{Bool, true, false, not, ◌&&◌, ◌||◌}
pub use mathlib.Core.Option.{Option, none, some}
pub use mathlib.Core.List.{List, [], ◌∷◌, ◌++◌, map, append-nil, append_assoc}
pub use native.Mathlib.Omega.{arith}
pub use text.Mathlib.Text.{◌==◌}
pub use text.Mathlib.TextEquality.{eq_iff}
pub use text.Mathlib.TextPositions.{eq_refl}

-- Go's `+` on texts.
infixr 66 ◌<>◌
abbrev pub ◌<>◌ : String → String → String
s <> t = String.◌++◌ s t

-- An `error` value: one made by `errors.New` or `fmt.Errorf`, or one of a database driver, whose
-- dynamic type the tasks test. A driver's error has its code and its text.
pub data Error : Type 0 where
  new : String → Error
  pq : String → String → Error
  mysql : ℕ → String → Error

-- `err.Error()`
abbrev pub error_text : Error → String
error_text (new text) = text
error_text (pq code_name text) = text
error_text (mysql number text) = text

-- What a call does: it returns a value, returns an error, or panics.
pub data Result {ℓ} (A : Type ℓ) : Type ℓ where
  ok : A → Result A
  err : Error → Result A
  panic : String → Result A

module _ {ℓ κ} {A : Type ℓ} {B : Type κ} where
  infixl 5 ◌>>=◌
  abbrev pub ◌>>=◌ : Result A → (A → Result B) → Result B
  panic text >>= next = panic text
  err e >>= next = err e
  ok a >>= next = next a

module _ {ℓ} {B : Type ℓ} where
  infixl 5 ◌>>◌
  abbrev pub ◌>>◌ : Result (Unit {0}) → Result B → Result B
  first >> second = first >>= λ _. second

-- The pair of a value and an `error` that a library returns.
abbrev pub outcome {ℓ} : {A : Type ℓ} → Error ⊎ A → Result A
outcome (inl e) = err e
outcome (inr a) = ok a

module _ {ℓ κ} {A : Type ℓ} {B : Type κ} where
  -- Inversion of a chain that returns.
  pub >>=-eq-ok :
      (first : Result A) (next : A → Result B) {out : B}
      → (first >>= next) ≡ ok out
      → (a : A) × (first ≡ ok a) × (next a ≡ ok out)
  >>=-eq-ok (panic text) next returned = cc
  >>=-eq-ok (err e) next returned = cc
  >>=-eq-ok (ok a) next returned = (a, refl, returned)

  -- Chains whose parts agree agree.
  pub >>=-cong :
      {first first' : Result A} {next next' : A → Result B}
      → first ≡ first'
      → ((a : A) → first' ≡ ok a → next a ≡ next' a)
      → (first >>= next) ≡ (first' >>= next')
  >>=-cong {first' = first'} {next} {next'} e k = ap (λ x. x >>= next) e ∙ go first' k
    where
      go : (r : Result A) → ((a : A) → r ≡ ok a → next a ≡ next' a) → (r >>= next) ≡ (r >>= next')
      go (ok a) h = h a refl
      go (err x) h = refl
      go (panic m) h = refl

  -- A chain panics only if a part of it does.
  pub >>=-ne-panic :
      (first : Result A) (next : A → Result B)
      → ((m : String) → first ≢ panic m)
      → ((a : A) (m : String) → next a ≢ panic m)
      → (text : String) → (first >>= next) ≢ panic text
  >>=-ne-panic (panic m) next hf hn text = absurd (hf m refl)
  >>=-ne-panic (err e) next hf hn text = λ h. cc
  >>=-ne-panic (ok a) next hf hn text = hn a text

pub ok-injective {ℓ} : {A : Type ℓ} {a b : A} → ◌≡◌ {A = Result A} (ok a) (ok b) → a ≡ b
ok-injective h = cc

pub Result-cases {ℓ} :
    {A : Type ℓ} (r : Result A)
    → ((a : A) × (r ≡ ok a)) ⊎ ((e : Error) × (r ≡ err e)) ⊎ ((m : String) × (r ≡ panic m))
Result-cases (ok a) = inl (a, refl)
Result-cases (err e) = inr (inl (e, refl))
Result-cases (panic m) = inr (inr (m, refl))
