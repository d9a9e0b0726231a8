-- ===== src/Tasks/Redis/Tests.antt =====
-- The redis task at a concrete server.
use goexpose.Common.{Error, [], String, inr, ok, refl, some, ◌∷◌, ◌≡◌, ◌⊎◌}
use goexpose.Dict.{lookup}
use goexpose.Tasks.Redis
use goexpose.Tasks.Redis.{Redis, RedisConfig, RedisQuery}
use goexpose.Tasks.Redis.Queries.{Replied, redis_query-Replied}
use goexpose.Tasks.Item.{blank, run_item}
use goexpose.Tasks.Redis.Whole.{Ran, redis_run-Ran}
use goexpose.Tasks.Sample.{plain, request}
use goexpose.Tasks.Single.{single_index}
use goexpose.Value.{Value, pos, str}

abbrev convert : String → Error ⊎ Value
convert reply = inr (str reply)

-- A server that answers "1" to every command.
abbrev redis : Redis (Unit {0}) (Unit {0}) String
redis = record {
  dial = λ network address w. (inr tt, w);
  do_command = λ conn command args w. (inr (some "1"), w);
  to_bool = convert;
  to_float64 = convert;
  to_int = convert;
  to_int64 = convert;
  to_ints = convert;
  to_string = convert;
  to_strings = convert;
  to_uint64 = convert;
  to_values = convert;
  to_stringmap = convert;
}

abbrev redis_config : RedisConfig
redis_config = record Redis.new_config {
  queries = record { command = "GET"; args = "key" ∷ []; type = "int" } ∷ [];
  single_result = some (pos 0);
}

validates_redis : Redis.validate redis redis_config ≡ ok redis_config
unfolding Redis.validate Redis.validate_queries Redis.validate_query lookup single_index
validates_redis = refl

abbrev get_key : RedisQuery
get_key = record { command = "GET"; args = "key" ∷ []; type = "int" }

understands_int : Redis.validate_query redis get_key ≡ ok tt
unfolding Redis.validate_query lookup
understands_int = refl

redis_query-Replied_example :
    Replied plain redis redis_config tt [] get_key tt
      (run_item (Redis.query_steps plain redis redis_config tt [] get_key) blank tt)
redis_query-Replied_example =
    redis_query-Replied plain redis redis_config tt [] get_key tt understands_int

redis_run-Ran_example :
    Ran plain redis redis_config [] tt (Redis.run plain redis redis_config request [] tt)
redis_run-Ran_example =
    redis_run-Ran plain redis redis_config redis_config request [] tt validates_redis
