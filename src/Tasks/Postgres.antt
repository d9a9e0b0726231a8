-- ===== src/Tasks/Postgres.antt =====
-- The postgres task of tasks.go.
pub mod Answer
pub mod Queries
use goexpose.Common.{
  Bool, Error, List, [], Option, Result, String, err, if◌then◌else◌, inl, inr, length, mysql, new,
  none, ok, outcome, pq, some, ◌=ℕ◌, ◌>>=◌, ◌∷◌, ◌⊎◌, false,
}
use goexpose.Config.{TaskConfig}
use goexpose.Dict.{Dict}
use goexpose.Effect.{Call, Io}
use goexpose.Request.{Request}
use goexpose.Response.{Response, add_value, new_response, set_error, status_ok}
use goexpose.Tasks.{Tasker, task}
use goexpose.Tasks.Item.{Item, blank, check, each, give, interpolate_all, put_if, run_item}
use goexpose.Tasks.Item
use goexpose.Tasks.Single.{finish, single_index}
use goexpose.Tasks.Sql.{Query, Sql, scan_all}
use goexpose.Utils.{Interpolate}
use goexpose.Value.{Value, arr, error, negsuc, objects, pos, str, strings, ℤ}

pub record PostgresConfig : Type 0 where
  pub queries : List Query
  pub return_queries : Bool
  pub single_result : Option ℤ
  pub single_result_index : ℤ

abbrev pub new_config : PostgresConfig
new_config = record {
  queries = [];
  return_queries = false;
  single_result = none;
  single_result_index = pos 0;
}

abbrev pub out_of_bounds : Error
out_of_bounds = new "postgres task single_result out of bounds"

unfoldable pub validate : PostgresConfig → Result PostgresConfig
validate p = if length p.queries =ℕ 0 then err (new "please provide at least one queryS") else do
  index ← single_index out_of_bounds p.single_result (length p.queries)
  ok (record p { single_result_index = index })

-- An error of the driver has its code in the response too.
unfoldable pub add_code : Error → Response → Response
add_code (pq code_name text) r = add_value "error_code" (str code_name) r
add_code (new text) r = r
add_code (mysql number text) r = r

module _ {W A : Type 0} where
  unfoldable pub settle_code : Error ⊎ A → Item W A
  settle_code (inl e) r w = (none, set_error (error e) (add_code e r), w)
  settle_code (inr a) r w = (some a, r, w)

  unfoldable pub attempt_code : Call W A → Item W A
  unfolding settle_code
  attempt_code c r w = let (x, w') = c w in settle_code x r w'

module _ {W Db : Type 0} (interpolate : Interpolate) (sql : Sql W Db) where
  unfoldable pub query_steps : PostgresConfig → Dict Value → Query → Item W (Unit {0})
  query_steps p vars query = Item.◌>>=◌ (check (interpolate query.url vars)) λ url.
      Item.◌>>=◌ (interpolate_all interpolate vars query.args) λ args.
        Item.◌>>=◌ (put_if p.return_queries "query" (str query.query)) λ _.
          Item.◌>>=◌ (put_if p.return_queries "args" (arr (strings args))) λ _.
            Item.◌>>=◌ (attempt_code (sql.connect url)) λ db.
              Item.◌>>=◌ (attempt_code (sql.query db query.query args))
                λ rows. Item.◌>>=◌ (settle_code (scan_all rows)) λ found. give (arr (objects found))

  unfoldable pub run : PostgresConfig → Request → Dict Value → Io W Response
  run p r vars w =
      let (results, w') = each (λ q. run_item (query_steps p vars q) blank) p.queries w in
      (finish p.single_result_index results (new_response status_ok), w')

  unfoldable pub postgres_task_factory :
      (String → PostgresConfig → Error ⊎ PostgresConfig) → TaskConfig → Result (List (Tasker W))
  postgres_task_factory unmarshal tc = do
    config ← outcome (unmarshal tc.config new_config)
    config' ← validate config
    ok (task (run config') ∷ [])
