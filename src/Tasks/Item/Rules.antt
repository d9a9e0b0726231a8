-- ===== src/Tasks/Item/Rules.antt =====
-- The rules by which a chain of steps leaves the response of its item fresh or failed, and ends it.
use goexpose.Common.{
  Bool, Error, List, [], Option, String, false, ℕ, inl, inr, none, some, true, ◌==◌, ◌∷◌, ◌≡◌, ◌⊎◌,
}
use goexpose.Dict.{Dict}
use goexpose.Effect.{Call}
use goexpose.Response.{Response}
use goexpose.Tasks.Item
use goexpose.Tasks.Item.{
  Item, attempt, blank, check, continue, give, interpolate_all, pure, put, put_if, settle,
  give_with, run_item, tell,
}
use goexpose.Utils.{Interpolate}
use goexpose.Value.{Value, error}
use goexpose.Tasks.Item.Outcome.{
  set_status-IsFresh, IsFailed, IsDone, After, IsClean, Ends, set_error-IsFailed, set_result-IsDone,
  add_value-IsFresh, give_with-IsDone,
}

module _ {W A : Type 0} where
  pub pure-IsClean : (a : A) → IsClean {W = W} (pure a)
  unfolding pure
  pure-IsClean a = record { at = λ r w h. h }

  settle-IsClean : (x : Error ⊎ A) → IsClean {W = W} (settle x)
  unfolding settle
  settle-IsClean (inl e) = record { at = λ r w h. set_error-IsFailed (error e) r h }
  settle-IsClean (inr a) = record { at = λ r w h. h }

  pub check-IsClean : (x : Error ⊎ A) → IsClean {W = W} (check x)
  unfolding check
  check-IsClean x = settle-IsClean x

  pub attempt-IsClean : (c : Call W A) → IsClean (attempt c)
  unfolding attempt
  attempt-IsClean c = record { at = λ r w h. (settle-IsClean (c w).0).at r (c w).1 h }

module _ {W : Type 0} {A B : Type 0} where
  continue-After :
      (o : Option A) (f : A → Item W B) (r : Response) (w : W)
      → After o r
      → ((a : A) → IsClean (f a))
      → After (continue o f r w).0 (continue o f r w).1
  continue-After none f r w h k = h
  continue-After (some a) f r w h k = (k a).at r w h

  pub >>=-IsClean :
      (m : Item W A) (f : A → Item W B)
      → IsClean m
      → ((a : A) → IsClean (f a))
      → IsClean (Item.◌>>=◌ m f)
  unfolding Item.◌>>=◌
  >>=-IsClean m f h k = record {
    at = λ r w fresh. continue-After (m r w).0 f (m r w).1 (m r w).2 (h.at r w fresh) k;
  }

module _ {W : Type 0} {A : Type 0} where
  continue-Ends :
      (o : Option A) (f : A → Item W (Unit {0})) (r : Response) (w : W)
      → After o r
      → ((a : A) → Ends (f a))
      → IsDone (continue o f r w).1 ⊎ IsFailed (continue o f r w).1
  continue-Ends none f r w h k = inr h
  continue-Ends (some a) f r w h k = (k a).at r w h

  pub >>=-Ends :
      (m : Item W A) (f : A → Item W (Unit {0}))
      → IsClean m
      → ((a : A) → Ends (f a))
      → Ends (Item.◌>>=◌ m f)
  unfolding Item.◌>>=◌
  >>=-Ends m f h k = record {
    at = λ r w fresh. continue-Ends (m r w).0 f (m r w).1 (m r w).2 (h.at r w fresh) k;
  }

module _ {W : Type 0} where
  pub put-IsClean :
      (k : String) (v : Value)
      → (k == "error") ≡ false
      → (k == "result") ≡ false
      → IsClean {W = W} (put k v)
  unfolding put
  put-IsClean k v e f = record { at = λ r w h. add_value-IsFresh k v r e f h }

  pub put_if-IsClean :
      (b : Bool) (k : String) (v : Value)
      → (k == "error") ≡ false
      → (k == "result") ≡ false
      → IsClean {W = W} (put_if b k v)
  unfolding put_if
  put_if-IsClean true k v e f = put-IsClean k v e f
  put_if-IsClean false k v e f = pure-IsClean tt

  pub tell-IsClean : (code : ℕ) → IsClean {W = W} (tell code)
  unfolding tell
  tell-IsClean code = record { at = λ r w h. set_status-IsFresh code r h }

  pub give-Ends : (v : Value) → Ends {W = W} (give v)
  unfolding give
  give-Ends v = record { at = λ r w h. inl (set_result-IsDone v r h) }

  pub give_with-Ends :
      (v : Value) (k : String) (more : Value)
      → (k == "error") ≡ false
      → (k == "result") ≡ false
      → Ends {W = W} (give_with v k more)
  unfolding give_with
  give_with-Ends v k more e f = record { at = λ r w h. inl (give_with-IsDone v k more e f r h) }

  pub fail-Ends : (e : Error) → Ends {W = W} (check (inl e))
  unfolding check settle
  fail-Ends e = record { at = λ r w h. inr (set_error-IsFailed (error e) r h) }

  pub interpolate_all-IsClean :
      (interpolate : Interpolate) (vars : Dict Value) (args : List String)
      → IsClean {W = W} (interpolate_all interpolate vars args)
  unfolding interpolate_all
  interpolate_all-IsClean interpolate vars [] = pure-IsClean []
  interpolate_all-IsClean interpolate vars (arg ∷ args) =
      >>=-IsClean _ _ (check-IsClean (interpolate arg vars)) λ first.
        >>=-IsClean _ _ (interpolate_all-IsClean interpolate vars args)
          λ rest. pure-IsClean (first ∷ rest)

pub ruleset item_rules = (
  >>=-IsClean, >>=-Ends, pure-IsClean, check-IsClean, attempt-IsClean, put-IsClean, put_if-IsClean,
  tell-IsClean, give-Ends, give_with-Ends, fail-Ends, interpolate_all-IsClean,
)
