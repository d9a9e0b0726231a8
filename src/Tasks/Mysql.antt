-- ===== src/Tasks/Mysql.antt =====
-- The mysql task of tasks.go. Its factory never calls `Validate`.
pub mod Queries
pub mod Answer
use goexpose.Common.{
  Bool, Error, List, [], Option, Result, String, err, if◌then◌else◌, inl, inr, length, mysql, new,
  none, ok, outcome, pq, some, ◌=ℕ◌, ◌>>=◌, ◌∷◌, ◌⊎◌, false, error_text, ◌==◌, ◌>>◌,
}
use goexpose.Config.{TaskConfig}
use goexpose.Dict.{Dict}
use goexpose.Effect.{Call, Io}
use goexpose.Request.{Request}
use goexpose.Response.{Response, add_value, new_response, set_error, status_ok}
use goexpose.Tasks.{Tasker, task}
use goexpose.Tasks.Item.{Item, blank, check, each, give, interpolate_all, put_if, run_item}
use goexpose.Tasks.Item
use goexpose.Tasks.Single.{finish, single_index}
use goexpose.Tasks.Sql.{Query, Sql, scan_all}
use goexpose.Text.{trim_space}
use goexpose.Utils.{Interpolate}
use goexpose.Value.{Value, arr, error, num, objects, pos, str, strings, ℤ}

pub record MysqlConfig : Type 0 where
  pub return_queries : Bool
  pub queries : List Query
  pub single_result : Option ℤ
  pub single_result_index : ℤ

abbrev pub new_config : MysqlConfig
new_config = record {
  return_queries = false;
  queries = [];
  single_result = none;
  single_result_index = pos 0;
}

unfoldable pub validate_query : Query → Result Query
validate_query q =
    let url = trim_space q.url in
    let query = trim_space q.query in
    if url == ""
    then err (new "please provide url for query")
    else if query == ""
    then err (new "please provide query")
    else ok (record q { url = url; query = query })

unfoldable pub validate_queries : List Query → Result (List Query)
validate_queries [] = ok []
validate_queries (q ∷ qs) = do q' ← validate_query q; qs' ← validate_queries qs; ok (q' ∷ qs')

-- The method that nothing calls.
unfoldable pub validate : MysqlConfig → Result MysqlConfig
validate m = if length m.queries =ℕ 0 then err (new "please provide at leas one query.") else do
  queries ← validate_queries m.queries
  index ← single_index (new "single_result out of bounds") m.single_result (length m.queries)
  ok (record m { queries = queries; single_result_index = index })

-- An error of the driver has its number in the response too, after the error.
unfoldable pub add_number : Error → Response → Response
add_number (mysql number text) r = add_value "error_code" (num (pos number)) r
add_number (pq code_name text) r = r
add_number (new text) r = r

module _ {W A : Type 0} where
  -- `told` is what of the error goes into the response: its text for `Open`, itself for `Queryx`.
  unfoldable pub settle_number : (Error → Value) → Error ⊎ A → Item W A
  settle_number told (inl e) r w = (none, add_number e (set_error (told e) r), w)
  settle_number told (inr a) r w = (some a, r, w)

  unfoldable pub attempt_number : (Error → Value) → Call W A → Item W A
  unfolding settle_number
  attempt_number told c r w = let (x, w') = c w in settle_number told x r w'

module _ {W Db : Type 0} (interpolate : Interpolate) (sql : Sql W Db) where
  unfoldable pub query_steps : MysqlConfig → Dict Value → Query → Item W (Unit {0})
  query_steps m vars query = Item.◌>>=◌ (check (interpolate query.url vars)) λ url.
      Item.◌>>=◌ (put_if m.return_queries "query" (str query.query)) λ _.
        Item.◌>>=◌ (attempt_number (λ e. str (error_text e)) (sql.connect url)) λ db.
          Item.◌>>=◌ (interpolate_all interpolate vars query.args) λ args.
            Item.◌>>=◌ (put_if m.return_queries "args" (arr (strings args))) λ _.
              Item.◌>>=◌ (attempt_number error (sql.query db query.query args))
                λ rows. Item.◌>>=◌ (check (scan_all rows)) λ found. give (arr (objects found))

  unfoldable pub run : MysqlConfig → Request → Dict Value → Io W Response
  run m r vars w =
      let (results, w') = each (λ q. run_item (query_steps m vars q) blank) m.queries w in
      (finish m.single_result_index results (new_response status_ok), w')

  unfoldable pub mysql_task_factory :
      (String → MysqlConfig → Error ⊎ MysqlConfig) → TaskConfig → Result (List (Tasker W))
  mysql_task_factory unmarshal tc = do
    config ← outcome (unmarshal tc.config new_config)
    ok (task (run config) ∷ [])
