-- ===== src/Tasks/Mysql/Answer.antt =====
-- What a mysql task answers, whose configuration nothing has validated.
use goexpose.Common.{
  Error, List, [], Result, String, inl, inr, mysql, new, ok, panic, pq, refl, ◌≡◌, ◌∷◌, ◌⊎◌,
}
use goexpose.Config.{TaskConfig}
use goexpose.Dict.{Dict}
use goexpose.Effect.{Call}
use goexpose.Request.{Request}
use goexpose.Response.{Response, embed, new_response, set_error, set_result, status_ok}
use goexpose.Tasks.{task}
use goexpose.Tasks.Item.{blank, each, run_item}
use goexpose.Tasks.Item.Outcome.{
  Ends, IsClean, IsFailed, IsSettled, run_item-IsSettled, set_error-IsFailed, add_value-IsFailed,
}
use goexpose.Tasks.Item.Rules.{item_rules}
use goexpose.Tasks.Mysql.{
  MysqlConfig, add_number, attempt_number, mysql_task_factory, new_config, query_steps, run,
  settle_number,
}
use goexpose.Tasks.Mysql.Queries.{Queried, mysql_query-Queried}
use goexpose.Tasks.Single.{finish, out_of_range}
use goexpose.Tasks.Sql.{Query, Sql}
use goexpose.Utils.{Interpolate}
use goexpose.Value.{Value, num, pos}

add_number-IsFailed : (e : Error) (r : Response) → IsFailed r → IsFailed (add_number e r)
unfolding add_number
add_number-IsFailed (mysql number text) r h =
    add_value-IsFailed "error_code" (num (pos number)) r refl refl h
add_number-IsFailed (pq code_name text) r h = h
add_number-IsFailed (new text) r h = h

module _ {W A : Type 0} (told : Error → Value) where
  settle_number-IsClean : (x : Error ⊎ A) → IsClean {W = W} (settle_number told x)
  unfolding settle_number
  settle_number-IsClean (inl e) = record {
    at = λ r w h. add_number-IsFailed e (set_error (told e) r) (set_error-IsFailed (told e) r h);
  }
  settle_number-IsClean (inr a) = record { at = λ r w h. h }

  attempt_number-IsClean : (c : Call W A) → IsClean (attempt_number told c)
  unfolding attempt_number
  attempt_number-IsClean c = record { at = λ r w h. (settle_number-IsClean (c w).0).at r (c w).1 h }

module _ {W Db : Type 0} (interpolate : Interpolate) (sql : Sql W Db) where
  query_steps-Ends :
      (m : MysqlConfig) (vars : Dict Value) (q : Query)
      → Ends (query_steps interpolate sql m vars q)
  unfolding query_steps
  query_steps-Ends m vars q = search (item_rules, attempt_number-IsClean) depth 20

  -- The answer of a task with these queries in this state: without a query a panic, and otherwise the
  -- response of the first query alone, from this state on, which has a result or an error and not both.
  abbrev pub AnswersFirst : MysqlConfig → Dict Value → List Query → W → Result Response → Type 0
  AnswersFirst m vars [] w out = out ≡ panic out_of_range
  AnswersFirst m vars (q ∷ qs) w out =
      (r : Response) × (w' : W) × Queried interpolate sql m vars q w r w'
      × (IsSettled r)
      × (out ≡ ok (set_result (embed r) (new_response status_ok)))

  run-AnswersFirst :
      (m : MysqlConfig) (qs : List Query) (r : Request) (vars : Dict Value) (w : W)
      → m.queries ≡ qs
      → m.single_result_index ≡ pos 0
      → AnswersFirst m vars qs w (run interpolate sql m r vars w).0
  unfolding run finish each
  run-AnswersFirst m [] r vars w h k = rw (h, k) refl
  run-AnswersFirst m (q ∷ qs) r vars w h k = (
    (run_item (query_steps interpolate sql m vars q) blank w).0,
    (run_item (query_steps interpolate sql m vars q) blank w).1,
    mysql_query-Queried interpolate sql m vars q w,
    run_item-IsSettled (query_steps interpolate sql m vars q) w (query_steps-Ends m vars q),
    rw (h, k) refl,
  )

  -- A mysql task that its factory made answers with the response of its first query from the state in
  -- which the task runs, whatever `single_result` asks for and whatever the other queries give, and
  -- panics where it has no query. That response is the error of the query's first step that fails (its
  -- address, the opening, one of its arguments in their order, the call, a row that does not scan), or
  -- all rows where none does, beside the query and the arguments as far as these are known where they
  -- are to be returned, and the number of an error that the driver gives in opening or calling. The decoder only has to
  -- leave the index, which no key of the configuration names, as it was.
  pub mysql_task-AnswersFirst :
      (unmarshal : String → MysqlConfig → Error ⊎ MysqlConfig) (tc : TaskConfig) (m : MysqlConfig)
      (r : Request) (vars : Dict Value) (w : W)
      → unmarshal tc.config new_config ≡ inr m
      → m.single_result_index ≡ new_config.single_result_index
      → (mysql_task_factory interpolate sql unmarshal tc ≡ ok (task (run interpolate sql m) ∷ []))
        × AnswersFirst m vars m.queries w (run interpolate sql m r vars w).0
  unfolding mysql_task_factory
  mysql_task-AnswersFirst unmarshal tc m r vars w h k =
      (rw h refl, run-AnswersFirst m m.queries r vars w refl k)
