-- ===== src/Tasks/Redis/Whole.antt =====
-- The whole run of a validated redis task.
use goexpose.Common.{Error, Result, String, Sum-cases, ap, inl, inr, ok, ◌≡◌}
use goexpose.Dict.{Dict}
use goexpose.Request.{Request}
use goexpose.Response.{Response, new_response, set_error, status_ok}
use goexpose.Tasks.Item.{blank, run_item}
use goexpose.Tasks.Item.Chain.{Chained, each-Chained}
use goexpose.Tasks.Redis.{Redis, RedisConfig, query_steps, run, validate}
use goexpose.Tasks.Redis.Answer.{IsValid, validate_sound}
use goexpose.Tasks.Redis.Queries.{Replied, redis_query-Replied}
use goexpose.Utils.{Interpolate}
use goexpose.Value.{Value, error}

module _ {W Conn Reply : Type 0} (interpolate : Interpolate) (redis : Redis W Conn Reply) where
  module _ (c : RedisConfig) (vars : Dict Value) where
    -- The answer of a run, and the state that it leaves: the error of the address or of the call of the
    -- server, with no query run, or the responses of the queries on the one connection.
    pub data Ran (w : W) : Result Response × W → Type 0 where
      unaddressed :
          (e : Error)
          → interpolate c.address vars ≡ inl e
          → Ran w (ok (set_error (error e) (new_response status_ok)), w)
      undialled :
          (address : String) (e : Error) (w₁ : W)
          → interpolate c.address vars ≡ inr address
          → redis.dial c.network address w ≡ (inl e, w₁)
          → Ran w (ok (set_error (error e) (new_response status_ok)), w₁)
      connected :
          (address : String) (conn : Conn) (w₁ : W) (out : Result Response × W)
          → interpolate c.address vars ≡ inr address
          → redis.dial c.network address w ≡ (inr conn, w₁)
          → Chained
              (λ q w₂ o. Replied interpolate redis c conn vars q w₂ o)
              c.single_result
              c.queries
              w₁
              out
          → Ran w out

  -- A validated redis task answers with the error of its address or of the call of its server, or with
  -- a response for each query, in their order, all on one connection, each from the state that the
  -- query before it leaves and as its first step that fails, or its converted reply, makes it,
  -- finished as its `single_result` asks.
  pub redis_run-Ran :
      (c₀ c : RedisConfig) (r : Request) (vars : Dict Value) (w : W)
      → validate redis c₀ ≡ ok c
      → Ran c vars w (run interpolate redis c r vars w)
  unfolding run
  redis_run-Ran c₀ c r vars w valid =
      let (checked, index) = validate_sound redis c₀ c valid in
      elim (Sum-cases (interpolate c.address vars)) [
        | inl (e, bad) ↦ rw bad (unaddressed e bad)
        | inr (address, addressed) ↦
            let w₁ = (redis.dial c.network address w).1 in
            elim (Sum-cases (redis.dial c.network address w).0) [
              | inl (e, bad) ↦
                  rw (addressed, bad) (undialled address e w₁ addressed (ap (λ x. (x, w₁)) bad))
              | inr (conn, good) ↦
                  rw (addressed, good)
                    (connected address conn w₁ _ addressed (ap (λ x. (x, w₁)) good) (
                      each-Chained (λ q w₂ o. Replied interpolate redis c conn vars q w₂ o)
                        (IsValid redis)
                        (λ q. run_item (query_steps interpolate redis c conn vars q) blank)
                        c.queries w₁ _ c.single_result c.single_result_index
                        (λ q w₂ v. redis_query-Replied interpolate redis c conn vars q w₂ v) checked
                        index))
            ]
      ]
