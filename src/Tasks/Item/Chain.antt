-- ===== src/Tasks/Item/Chain.antt =====
-- The loop over the items of a task in tasks.go: each item runs in the state that the one before it
-- leaves.
use goexpose.Common.{All, Error, List, [], Option, Result, length, ok, refl, suc, ap, ◌≡◌, ◌∷◌}
use goexpose.Response.{Response, new_response, status_ok}
use goexpose.Tasks.Item.{each}
use goexpose.Tasks.Single.{Finishes, finish, single_index, single_index-Finishes}
use goexpose.Value.{ℤ}

module _ {W A : Type 0} (P : A → W → Response × W → Type 0) where
  -- A response for each item in their order, as `P` says of the item in its state, and the last state.
  pub data Chain : List A → W → List Response → W → Type 0 where
    done : {w : W} → Chain [] w [] w
    step :
        {x : A} {xs : List A} {r : Response} {rs : List Response} {w w₁ w₂ : W}
        → P x w (r, w₁)
        → Chain xs w₁ rs w₂
        → Chain (x ∷ xs) w (r ∷ rs) w₂

  length-Chain :
      {xs : List A} {rs : List Response} {w w₁ : W} → Chain xs w rs w₁ → length rs ≡ length xs
  length-Chain done = refl
  length-Chain (step here more) = ap suc (length-Chain more)

  each-Chain :
      (V : A → Type 0) (f : A → W → Response × W) (xs : List A) (w : W)
      → ((x : A) (w₁ : W) → V x → P x w₁ (f x w₁))
      → All V xs
      → Chain xs w (each f xs w).0 (each f xs w).1
  unfolding each
  each-Chain V f [] w h valid = done
  each-Chain V f (x ∷ xs) w h valid = step (h x w valid.0) (each-Chain V f xs (f x w).1 h valid.1)

  -- The answer of a task with these items: the responses of the chain, finished as its `single_result`
  -- asks, and the last state.
  pub record Chained (s : Option ℤ) (xs : List A) (w : W) (out : Result Response × W) : Type 0 where
    pub results : List Response
    pub index : ℤ
    pub last : W
    pub chain : Chain xs w results last
    pub finishes : Finishes s index results (new_response status_ok)
    pub given : out ≡ (finish index results (new_response status_ok), last)

  -- The loop over items that have all been validated.
  pub each-Chained :
      (V : A → Type 0) (f : A → W → Response × W) (xs : List A) (w : W) (e : Error) (s : Option ℤ)
      (i : ℤ)
      → ((x : A) (w₁ : W) → V x → P x w₁ (f x w₁))
      → All V xs
      → single_index e s (length xs) ≡ ok i
      → Chained s xs w (finish i (each f xs w).0 (new_response status_ok), (each f xs w).1)
  each-Chained V f xs w e s i h valid index =
      let all = each-Chain V f xs w h valid in
      record {
        results = (each f xs w).0;
        index = i;
        last = (each f xs w).1;
        chain = all;
        finishes =
            single_index-Finishes e s (length xs) i (each f xs w).0 (new_response status_ok) index
              (length-Chain all);
        given = refl;
      }
