-- ===== src/Tasks/Postgres/Answer.antt =====
-- What a validated postgres task answers.
use goexpose.Common.{
  All, List, [], ◌∷◌, Bool-cases, Error, inl, inr, length, mysql, new, ok, pq, refl, ◌=ℕ◌, ◌≡◌, ◌⊎◌,
  >>=-eq-ok, ok-injective,
}
use goexpose.Dict.{Dict}
use goexpose.Effect.{Call}
use goexpose.Request.{Request}
use goexpose.Response.{Response}
use goexpose.Tasks.Item.Answers.{items-Answers}
use goexpose.Tasks.Item.Outcome.{
  Ends, IsClean, IsFresh, IsSettled, add_value-IsFresh, set_error-IsFailed,
}
use goexpose.Tasks.Item.Rules.{item_rules}
use goexpose.Tasks.Postgres.{
  PostgresConfig, add_code, attempt_code, out_of_bounds, query_steps, run, settle_code, validate,
}
use goexpose.Tasks.Postgres.Queries.{Queried, postgres_query-Queried}
use goexpose.Tasks.Item.{blank, run_item}
use goexpose.Tasks.Item.Chain.{Chained, each-Chained}
use goexpose.Tasks.Single.{Answers, single_index}
use goexpose.Tasks.Sql.{Query, Sql}
use goexpose.Utils.{Interpolate}
use goexpose.Value.{Value, error, str}

add_code-IsFresh : (e : Error) (r : Response) → IsFresh r → IsFresh (add_code e r)
unfolding add_code
add_code-IsFresh (pq code_name text) r h =
    add_value-IsFresh "error_code" (str code_name) r refl refl h
add_code-IsFresh (new text) r h = h
add_code-IsFresh (mysql number text) r h = h

module _ {W A : Type 0} where
  settle_code-IsClean : (x : Error ⊎ A) → IsClean {W = W} (settle_code x)
  unfolding settle_code
  settle_code-IsClean (inl e) = record {
    at = λ r w h. set_error-IsFailed (error e) (add_code e r) (add_code-IsFresh e r h);
  }
  settle_code-IsClean (inr a) = record { at = λ r w h. h }

  attempt_code-IsClean : (c : Call W A) → IsClean (attempt_code c)
  unfolding attempt_code
  attempt_code-IsClean c = record { at = λ r w h. (settle_code-IsClean (c w).0).at r (c w).1 h }

validate_sound :
    (p p' : PostgresConfig)
    → validate p ≡ ok p'
    → single_index out_of_bounds p'.single_result (length p'.queries) ≡ ok p'.single_result_index
unfolding validate
validate_sound p p' h = elim (Bool-cases (length p.queries =ℕ 0)) [
  | inl e ↦ cc (rw e at h)
  | inr e ↦
      let (i, index, k) =
        >>=-eq-ok (single_index out_of_bounds p.single_result (length p.queries)) _ (rw e at h) in
      let same = ok-injective k in rw (← same) index
]

module _ {W Db : Type 0} (interpolate : Interpolate) (sql : Sql W Db) where
  query_steps-Ends :
      (p : PostgresConfig) (vars : Dict Value) (q : Query)
      → Ends (query_steps interpolate sql p vars q)
  unfolding query_steps
  query_steps-Ends p vars q =
      search (item_rules, settle_code-IsClean, attempt_code-IsClean) depth 20

  -- Whatever the request and the database do, a validated postgres task answers with a response for
  -- each query, which has a result or an error and not both, and finishes as its `single_result`
  -- asks.
  pub postgres_run-Answers :
      (p p' : PostgresConfig) (r : Request) (vars : Dict Value) (w : W)
      → validate p ≡ ok p'
      → Answers IsSettled p'.single_result p'.single_result_index
          (length p'.queries)
          (run interpolate sql p' r vars w).0
  unfolding run
  postgres_run-Answers p p' r vars w h =
      items-Answers (query_steps interpolate sql p' vars) p'.queries w out_of_bounds
        p'.single_result p'.single_result_index (query_steps-Ends p' vars) (validate_sound p p' h)

  any : (qs : List Query) → All (λ q. Unit {0}) qs
  any [] = tt
  any (q ∷ qs) = (tt, any qs)

  -- A validated postgres task gives a response for each query, in their order, each from the state that
  -- the query before it leaves and as its first step that fails, or its rows, make it, and finishes as
  -- its `single_result` asks; no query keeps another from running.
  pub postgres_run-Chained :
      (p p' : PostgresConfig) (r : Request) (vars : Dict Value) (w : W)
      → validate p ≡ ok p'
      → Chained
          (λ q w₁ out. Queried interpolate sql p' vars q w₁ out)
          p'.single_result
          p'.queries
          w
          (run interpolate sql p' r vars w)
  unfolding run
  postgres_run-Chained p p' r vars w h =
      each-Chained (λ q w₁ out. Queried interpolate sql p' vars q w₁ out) (λ q. Unit {0})
        (λ q. run_item (query_steps interpolate sql p' vars q) blank) p'.queries w out_of_bounds
        p'.single_result p'.single_result_index
        (λ q w₁ _. postgres_query-Queried interpolate sql p' vars q w₁) (any p'.queries)
        (validate_sound p p' h)
