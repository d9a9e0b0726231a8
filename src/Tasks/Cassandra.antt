-- ===== src/Tasks/Cassandra.antt =====
-- The cassandra task of tasks.go.
pub mod Answer
pub mod Tests
use goexpose.Common.{
  Bool, Error, List, [], Option, Result, String, err, if◌then◌else◌, inl, inr, length, new, none,
  ok, outcome, some, ◌=ℕ◌, ◌==◌, ◌>>=◌, ◌>>◌, ◌∷◌, ◌⊎◌, false,
}
use goexpose.Config.{TaskConfig}
use goexpose.Dict.{Dict}
use goexpose.Effect.{Call, Io}
use goexpose.Request.{Request}
use goexpose.Response.{Response, new_response, status_ok}
use goexpose.Tasks.{Tasker, task}
use goexpose.Tasks.Item.{Item, attempt, blank, check, each, give, interpolate_all, put_if, run_item}
use goexpose.Tasks.Item
use goexpose.Tasks.Single.{finish, single_index}
use goexpose.Text.{trim_space}
use goexpose.Utils.{Interpolate}
use goexpose.Value.{Value, arr, objects, pos, str, strings, ℤ}

pub record CassandraQuery : Type 0 where
  pub cluster : List String
  pub keyspace : String
  pub query : String
  pub args : List String

pub record CassandraConfig : Type 0 where
  pub queries : List CassandraQuery
  pub return_queries : Bool
  pub single_result : Option ℤ
  pub single_result_index : ℤ

abbrev pub new_config : CassandraConfig
new_config = record {
  queries = [];
  return_queries = false;
  single_result = none;
  single_result_index = pos 0;
}

-- The loop that calls it ranges over structures, so that the trimmed keyspace is in the loop's own
-- copy, and is dropped with it.
unfoldable pub validate_query : CassandraQuery → Result (Unit {0})
validate_query q =
    if length q.cluster =ℕ 0
    then err (new "cluster must have at least one url")
    else if trim_space q.keyspace == ""
    then err (new "please provide keyspace.")
    else ok tt

unfoldable pub validate_queries : List CassandraQuery → Result (Unit {0})
validate_queries [] = ok tt
validate_queries (q ∷ qs) = do validate_query q; validate_queries qs

unfoldable pub validate : CassandraConfig → Result CassandraConfig
validate c =
    if length c.queries =ℕ 0 then err (new "please provide at least one cassandra query") else do
      validate_queries c.queries
      index ← single_index (new "single_result out of bounds") c.single_result (length c.queries)
      ok (record c { single_result_index = index })

-- The gocql package: a session of the hosts of a cluster with a keyspace, and the rows of a query.
pub record Cassandra (W Session : Type 0) : Type 0 where
  pub create_session : List String → String → Call W Session
  pub slice_map : Session → String → List String → Call W (List (Dict Value))

module _ {W Session : Type 0} (interpolate : Interpolate) (db : Cassandra W Session) where
  unfoldable pub query_steps : CassandraConfig → Dict Value → CassandraQuery → Item W (Unit {0})
  query_steps c vars query = Item.◌>>=◌ (interpolate_all interpolate vars query.cluster) λ chosts.
      Item.◌>>=◌ (check (interpolate query.keyspace vars)) λ keyspace.
        Item.◌>>=◌ (attempt (db.create_session chosts keyspace)) λ session.
          Item.◌>>=◌ (put_if c.return_queries "query" (str query.query)) λ _.
            Item.◌>>=◌ (interpolate_all interpolate vars query.args) λ args.
              Item.◌>>=◌ (put_if c.return_queries "args" (arr (strings args))) λ _.
                Item.◌>>=◌ (attempt (db.slice_map session query.query args))
                  λ rows. give (arr (objects rows))

  unfoldable pub run : CassandraConfig → Request → Dict Value → Io W Response
  run c r vars w =
      let (results, w') = each (λ q. run_item (query_steps c vars q) blank) c.queries w in
      (finish c.single_result_index results (new_response status_ok), w')

  unfoldable pub cassandra_task_factory :
      (String → CassandraConfig → Error ⊎ CassandraConfig) → TaskConfig → Result (List (Tasker W))
  cassandra_task_factory unmarshal tc = do
    config ← outcome (unmarshal tc.config new_config)
    config' ← validate config
    ok (task (run config') ∷ [])
