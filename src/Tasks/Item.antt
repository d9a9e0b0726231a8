-- ===== src/Tasks/Item.antt =====
-- One command, address or query of a task: a chain of steps that fill the item's own response.
-- `goto Append` after an error is the outcome `none`.
pub mod Outcome
pub mod Rules
pub mod Answers
pub mod Formatted
pub mod Steps
pub mod Chain
use goexpose.Common.{
  All, Bool, Error, List, [], Option, String, if◌then◌else◌, inl, inr, none, some, ◌∷◌, ◌⊎◌, length,
  ◌≡◌, ℕ, suc, refl, ap,
}
use goexpose.Dict.{Dict}
use goexpose.Effect.{Call}
use goexpose.Response.{
  Response, new_response, set_error, set_result, set_status, status_ok, strip_status_data,
  add_value,
}
use goexpose.Utils.{Interpolate}
use goexpose.Value.{Value, error}

abbrev pub Item : Type 0 → Type 0 → Type 0
Item W A = Response → W → Option A × Response × W

-- `NewResponse(http.StatusOK).StripStatusData()`
unfoldable pub blank : Response
blank = strip_status_data (new_response status_ok)

module _ {W A B : Type 0} where
  abbrev pub continue : Option A → (A → Item W B) → Item W B
  continue none f r w = (none, r, w)
  continue (some a) f r w = f a r w

  infixl 5 ◌>>=◌
  unfoldable pub ◌>>=◌ : Item W A → (A → Item W B) → Item W B
  ◌>>=◌ m f r w = let (o, r', w') = m r w in continue o f r' w'

module _ {W B : Type 0} where
  infixl 5 ◌>>◌
  abbrev pub ◌>>◌ : Item W (Unit {0}) → Item W B → Item W B
  m >> k = m >>= λ _. k

module _ {W A : Type 0} where
  unfoldable pub pure : A → Item W A
  pure a r w = (some a, r, w)

  -- The error of a library goes into the response, and the item ends.
  unfoldable pub settle : Error ⊎ A → Item W A
  settle (inl e) r w = (none, set_error (error e) r, w)
  settle (inr a) r w = (some a, r, w)

  unfoldable pub attempt : Call W A → Item W A
  unfolding settle
  attempt c r w = let (x, w') = c w in settle x r w'

  unfoldable pub check : Error ⊎ A → Item W A
  unfolding settle
  check x = settle x

module _ {W : Type 0} where
  -- `AddValue` on the item's response
  unfoldable pub put : String → Value → Item W (Unit {0})
  put key value r w = (some tt, add_value key value r, w)

  unfoldable pub put_if : Bool → String → Value → Item W (Unit {0})
  unfolding put pure
  put_if b key value = if b then put key value else pure tt

  unfoldable pub give : Value → Item W (Unit {0})
  give value r w = (some tt, set_result value r, w)

  -- `Result(value).AddValue(key, more)`
  unfoldable pub give_with : Value → String → Value → Item W (Unit {0})
  give_with value key more r w = (some tt, add_value key more (set_result value r), w)

  -- `Status(code)` on the item's response
  unfoldable pub tell : ℕ → Item W (Unit {0})
  tell code r w = (some tt, set_status code r, w)

  -- The loop that interpolates the arguments of a query.
  unfoldable pub interpolate_all : Interpolate → Dict Value → List String → Item W (List String)
  interpolate_all interpolate vars [] = pure []
  interpolate_all interpolate vars (arg ∷ args) = do
    first ← check (interpolate arg vars)
    rest ← interpolate_all interpolate vars args
    pure (first ∷ rest)

  -- The response that the item ends with, from a response made for it.
  unfoldable pub run_item : Item W (Unit {0}) → Response → W → Response × W
  run_item m r w = let (o, r', w') = m r w in (r', w')

-- The loop over the items of a task, which appends a response for each.
module _ {W A : Type 0} (f : A → W → Response × W) where
  unfoldable pub each : List A → W → List Response × W
  each [] w = ([], w)
  each (x ∷ xs) w = let (r, w₁) = f x w in let (rs, w₂) = each xs w₁ in (r ∷ rs, w₂)

  pub each-All :
      (P : Response → Type 0) (xs : List A) (w : W)
      → ((x : A) (w' : W) → P (f x w').0)
      → All P (each xs w).0
  unfolding each
  each-All P [] w h = tt
  each-All P (x ∷ xs) w h = (h x w, each-All P xs (f x w).1 h)

  pub length-each : (xs : List A) (w : W) → length (each xs w).0 ≡ length xs
  unfolding each
  length-each [] w = refl
  length-each (x ∷ xs) w = ap suc (length-each xs (f x w).1)
