-- ===== src/Tasks/Redis.antt =====
-- The redis task of tasks.go.
pub mod Answer
pub mod Whole
pub mod Queries
pub mod Tests
use goexpose.Common.{
  Bool, Error, List, [], Option, Result, String, err, if◌then◌else◌, inl, inr, length, new, none,
  ok, outcome, some, ◌=ℕ◌, ◌>>=◌, ◌>>◌, ◌∷◌, ◌⊎◌, ◌<>◌, false,
}
use goexpose.Config.{TaskConfig}
use goexpose.Dict.{Dict, has, lookup}
use goexpose.Effect.{Call, Io}
use goexpose.Request.{Request}
use goexpose.Response.{Response, new_response, set_error, status_ok}
use goexpose.Tasks.{Tasker, task}
use goexpose.Tasks.Item.{Item, attempt, blank, check, each, give, interpolate_all, put_if, run_item}
use goexpose.Tasks.Item
use goexpose.Tasks.Single.{finish, single_index}
use goexpose.Utils.{Interpolate}
use goexpose.Value.{Value, arr, error, pos, str, strings, ℤ}

pub record RedisQuery : Type 0 where
  pub command : String
  pub args : List String
  pub type : String

pub record RedisConfig : Type 0 where
  pub address : String
  pub database : ℤ
  pub network : String
  pub queries : List RedisQuery
  pub return_queries : Bool
  pub single_result : Option ℤ
  pub single_result_index : ℤ

abbrev pub new_config : RedisConfig
new_config = record {
  address = ":6379";
  database = pos 1;
  network = "tcp";
  queries = [];
  return_queries = false;
  single_result = none;
  single_result_index = pos 0;
}

-- The redis package: `redis.Dial`, `conn.Do` (whose reply may be nil) and the conversions of a reply.
pub record Redis (W Conn Reply : Type 0) : Type 0 where
  pub dial : String → String → Call W Conn
  pub do_command : Conn → String → List String → Call W (Option Reply)
  pub to_bool : Reply → Error ⊎ Value
  pub to_float64 : Reply → Error ⊎ Value
  pub to_int : Reply → Error ⊎ Value
  pub to_int64 : Reply → Error ⊎ Value
  pub to_ints : Reply → Error ⊎ Value
  pub to_string : Reply → Error ⊎ Value
  pub to_strings : Reply → Error ⊎ Value
  pub to_uint64 : Reply → Error ⊎ Value
  pub to_values : Reply → Error ⊎ Value
  pub to_stringmap : Reply → Error ⊎ Value

module _ {W Conn Reply : Type 0} (redis : Redis W Conn Reply) where
  -- `redisunderstands`
  abbrev pub understands : Dict (Reply → Error ⊎ Value)
  understands =
      ("bool", redis.to_bool)
      ∷ ("float64", redis.to_float64)
      ∷ ("int", redis.to_int)
      ∷ ("int64", redis.to_int64)
      ∷ ("ints", redis.to_ints)
      ∷ ("string", redis.to_string)
      ∷ ("strings", redis.to_strings)
      ∷ ("uint64", redis.to_uint64)
      ∷ ("values", redis.to_values)
      ∷ ("stringmap", redis.to_stringmap)
      ∷ []

  abbrev unknown_type : String → Error
  unknown_type type = new ("unknown redis type " <> type)

  unfoldable pub validate_query : RedisQuery → Result (Unit {0})
  validate_query q = if has q.type understands then ok tt else err (unknown_type q.type)

  unfoldable pub validate_queries : List RedisQuery → Result (Unit {0})
  validate_queries [] = ok tt
  validate_queries (q ∷ qs) = do validate_query q; validate_queries qs

  unfoldable pub validate : RedisConfig → Result RedisConfig
  validate c = if length c.queries =ℕ 0 then err (new "please provide at least one query.") else do
    validate_queries c.queries
    index ← single_index (new "single_result out of bounds") c.single_result (length c.queries)
    ok (record c { single_result_index = index })

  abbrev pub convert : Option (Reply → Error ⊎ Value) → Reply → RedisQuery → Error ⊎ Value
  convert none reply query = inl (unknown_type query.type)
  convert (some fn) reply query = fn reply

  unfoldable pub get_reply : Reply → RedisQuery → Error ⊎ Value
  get_reply reply query = convert (lookup query.type understands) reply query

  abbrev pub found : Option Reply → Error ⊎ Reply
  found none = inl (new "not found")
  found (some reply) = inr reply

module _ {W Conn Reply : Type 0} (interpolate : Interpolate) (redis : Redis W Conn Reply) where
  unfoldable pub query_steps : RedisConfig → Conn → Dict Value → RedisQuery → Item W (Unit {0})
  query_steps c conn vars query = Item.◌>>=◌ (interpolate_all interpolate vars query.args) λ args.
      Item.◌>>=◌ (put_if c.return_queries "command" (str query.command)) λ _.
        Item.◌>>=◌ (put_if c.return_queries "args" (arr (strings args))) λ _.
          Item.◌>>=◌ (attempt (redis.do_command conn query.command args)) λ answer.
            Item.◌>>=◌ (check (found redis answer))
              λ reply. Item.◌>>=◌ (check (get_reply redis reply query)) λ value. give value

  -- The end of `Run`, from what `redis.Dial` gave.
  abbrev pub run_queries : RedisConfig → Dict Value → Error ⊎ Conn → Io W Response
  run_queries c vars (inl e) w = (ok (set_error (error e) (new_response status_ok)), w)
  run_queries c vars (inr conn) w =
      let (results, w') = each (λ q. run_item (query_steps c conn vars q) blank) c.queries w in
      (finish c.single_result_index results (new_response status_ok), w')

  abbrev pub run_dialled : RedisConfig → Dict Value → Error ⊎ String → Io W Response
  run_dialled c vars (inl e) w = (ok (set_error (error e) (new_response status_ok)), w)
  run_dialled c vars (inr address) w =
      let (conn, w') = redis.dial c.network address w in run_queries c vars conn w'

  unfoldable pub run : RedisConfig → Request → Dict Value → Io W Response
  run c r vars w = run_dialled c vars (interpolate c.address vars) w

  unfoldable pub redis_task_factory :
      (String → RedisConfig → Error ⊎ RedisConfig) → TaskConfig → Result (List (Tasker W))
  redis_task_factory unmarshal tc = do
    config ← outcome (unmarshal tc.config new_config)
    config' ← validate redis config
    ok (task (run config') ∷ [])
