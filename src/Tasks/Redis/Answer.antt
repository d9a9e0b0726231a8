-- ===== src/Tasks/Redis/Answer.antt =====
-- What a validated redis task answers.
use goexpose.Common.{
  ap, All, All-map, Bool-cases, Error, List, [], String, inl, inr, length, new, ok, refl, some,
  ◌=ℕ◌, ◌≡◌, ◌∷◌, ◌⊎◌, >>=-eq-ok, ok-injective,
}
use goexpose.Dict.{Dict, has, has_inverse, lookup}
use goexpose.Request.{Request}
use goexpose.Response.{new_response, set_error, status_ok}
use goexpose.Tasks.Item.Answers.{items-Answers}
use goexpose.Tasks.Item.Outcome.{Ends, IsSettled}
use goexpose.Tasks.Item.Rules.{item_rules}
use goexpose.Tasks.Redis.{
  Redis, RedisConfig, RedisQuery, convert, get_reply, query_steps, run, understands, validate,
  validate_queries, validate_query,
}
use goexpose.Tasks.Single.{Answers, single_index}
use goexpose.Utils.{Interpolate}
use goexpose.Value.{Value, error}

module _ {W Conn Reply : Type 0} (redis : Redis W Conn Reply) where
  -- The conversion that the query names is one that the task knows, so that every reply is given to it.
  pub record IsUnderstood (q : RedisQuery) : Type 0 where
    pub convert : Reply → Error ⊎ Value
    pub known : lookup q.type (understands redis) ≡ some convert
    pub replies : (reply : Reply) → get_reply redis reply q ≡ convert reply

  get_reply_known :
      (q : RedisQuery) (f : Reply → Error ⊎ Value)
      → lookup q.type (understands redis) ≡ some f
      → (reply : Reply) → get_reply redis reply q ≡ f reply
  unfolding get_reply
  get_reply_known q f e reply = ap (λ o. convert redis o reply q) e

  pub validate_query-IsUnderstood :
      (q : RedisQuery) → validate_query redis q ≡ ok tt → IsUnderstood q
  unfolding validate_query
  validate_query-IsUnderstood q h = elim (Bool-cases (has q.type (understands redis))) [
    | inl known ↦
        let (f, e) = has_inverse q.type (understands redis) known in
        record { convert = f; known = e; replies = get_reply_known q f e }
    | inr missing ↦ cc (rw missing at h)
  ]

  abbrev pub IsValid : RedisQuery → Type 0
  IsValid q = validate_query redis q ≡ ok tt

  validate_queries-IsValid :
      (qs : List RedisQuery) → validate_queries redis qs ≡ ok tt → All IsValid qs
  unfolding validate_queries
  validate_queries-IsValid [] h = tt
  validate_queries-IsValid (q ∷ qs) h =
      let (_, e, k) = >>=-eq-ok (validate_query redis q) _ h in (e, validate_queries-IsValid qs k)

  pub validate_sound :
      (c c' : RedisConfig)
      → validate redis c ≡ ok c'
      → All IsValid c'.queries
        × (single_index (new "single_result out of bounds") c'.single_result (length c'.queries)
            ≡ ok c'.single_result_index)
  unfolding validate
  validate_sound c c' h = elim (Bool-cases (length c.queries =ℕ 0)) [
    | inl e ↦ cc (rw e at h)
    | inr e ↦
        let (_, checked, h₁) = >>=-eq-ok (validate_queries redis c.queries) _ (rw e at h) in
        let (i, index, h₂) = >>=-eq-ok (single_index _ c.single_result (length c.queries)) _ h₁ in
        let same = ok-injective h₂ in
        (rw (← same) (validate_queries-IsValid c.queries checked), rw (← same) index)
  ]

module _ {W Conn Reply : Type 0} (interpolate : Interpolate) (redis : Redis W Conn Reply) where
  query_steps-Ends :
      (c : RedisConfig) (conn : Conn) (vars : Dict Value) (q : RedisQuery)
      → Ends (query_steps interpolate redis c conn vars q)
  unfolding query_steps
  query_steps-Ends c conn vars q = search item_rules depth 20

  -- A validated redis task whose server answers its call gives a response for each query, which has a
  -- result or an error and not both, and finishes as its `single_result` asks; each of its queries
  -- names a conversion that the task knows.
  pub redis_run-Answers :
      (c c' : RedisConfig) (r : Request) (vars : Dict Value) (w w' : W) (address : String)
      (conn : Conn)
      → validate redis c ≡ ok c'
      → interpolate c'.address vars ≡ inr address
      → redis.dial c'.network address w ≡ (inr conn, w')
      → All (IsUnderstood redis) c'.queries
        × Answers IsSettled c'.single_result c'.single_result_index
            (length c'.queries)
            (run interpolate redis c' r vars w).0
  unfolding run
  redis_run-Answers c c' r vars w w' address conn valid rendered dialled =
      let (checked, index) = validate_sound redis c c' valid in
      (
        All-map _ _ c'.queries (validate_query-IsUnderstood redis) checked,
        rw (rendered, dialled)
            (items-Answers (query_steps interpolate redis c' conn vars) c'.queries w' _
              c'.single_result c'.single_result_index (query_steps-Ends c' conn vars) index),
      )

  -- Where no connection is made, because the address does not render or the call fails, the answer
  -- still has the status 200, with the error.
  pub redis_run-unconnected :
      (c : RedisConfig) (r : Request) (vars : Dict Value) (w : W) (e : Error)
      → (interpolate c.address vars ≡ inl e)
        ⊎ ((address : String) × (interpolate c.address vars ≡ inr address)
            × ((redis.dial c.network address w).0 ≡ inl e))
      → (run interpolate redis c r vars w).0 ≡ ok (set_error (error e) (new_response status_ok))
  unfolding run
  redis_run-unconnected c r vars w e (inl bad) = rw bad refl
  redis_run-unconnected c r vars w e (inr (address, rendered, failed)) = rw (rendered, failed) refl
