-- ===== src/Tasks/Mysql/Queries.antt =====
-- How a query of a mysql task comes to its response.
use mathlib.Core.Path.{subst}
use goexpose.Common.{
  Error, List, Option, String, Sum-cases, ap, error_text, if◌then◌else◌, inl, inr, mysql, new, none,
  pq, refl, some, sym, ◌∙◌, ◌≡◌, ◌⊎◌,
}
use goexpose.Dict.{Dict}
use goexpose.Effect.{Call}
use goexpose.Response.{Response, add_value, set_error, set_result}
use goexpose.Tasks.Item
use goexpose.Tasks.Item.{Item, blank, check, give, interpolate_all, put_if, run_item}
use goexpose.Tasks.Item.Steps.{
  >>=-none, >>=-some, check-inl, check-inr, interpolate_all-none, interpolate_all-some, put_if-some,
  rendered, run_item-eq,
}
use goexpose.Tasks.Mysql.{MysqlConfig, add_number, attempt_number, query_steps, settle_number}
use goexpose.Tasks.Sql.{Query, Sql, scan_all}
use goexpose.Tasks.Sql.Scans.{Scans, scan_all-Scans}
use goexpose.Utils.{Interpolate}
use goexpose.Value.{Value, arr, error, num, objects, pos, str, strings}

-- The response of an error of the database, shown as this value, with its number where the driver has
-- one.
abbrev pub refused : Value → Error → Response → Response
refused shown (mysql number text) r = add_value "error_code" (num (pos number)) (set_error shown r)
refused shown (pq code_name text) r = set_error shown r
refused shown (new text) r = set_error shown r

refused-add_number :
    (v : Value) (e : Error) (r : Response) → add_number e (set_error v r) ≡ refused v e r
unfolding add_number
refused-add_number v (mysql number text) r = refl
refused-add_number v (pq code_name text) r = refl
refused-add_number v (new text) r = refl

module _ {W A : Type 0} (told : Error → Value) (c : Call W A) where
  attempt_number-inl :
      {e : Error} {w w' : W} (r : Response)
      → c w ≡ (inl e, w')
      → attempt_number told c r w ≡ (none, refused (told e) e r, w')
  unfolding attempt_number settle_number
  attempt_number-inl {e = e} {w' = w'} r bad =
      rw bad (ap (λ x. (none, x, w')) (refused-add_number (told e) e r))

  attempt_number-inr :
      {a : A} {w w' : W} (r : Response)
      → c w ≡ (inr a, w')
      → attempt_number told c r w ≡ (some a, r, w')
  unfolding attempt_number settle_number
  attempt_number-inr r good = rw good refl

module _ {W Db : Type 0} (interpolate : Interpolate) (sql : Sql W Db) (m : MysqlConfig)
    (vars : Dict Value) (q : Query) where
  -- The response before the arguments are known, and once they are.
  abbrev named : Response
  named = if m.return_queries then add_value "query" (str q.query) blank else blank

  abbrev shown : List String → Response
  shown args = if m.return_queries then add_value "args" (arr (strings args)) named else named

  -- The response of a query, and the state that it leaves.
  pub data Queried (w : W) : Response → W → Type 0 where
    unaddressed :
        (e : Error) → interpolate q.url vars ≡ inl e → Queried w (set_error (error e) blank) w
    unopened :
        (url : String) (e : Error) (w₁ : W)
        → interpolate q.url vars ≡ inr url
        → sql.connect url w ≡ (inl e, w₁)
        → Queried w (refused (str (error_text e)) e named) w₁
    unrendered :
        (url : String) (db : Db) (e : Error) (w₁ : W)
        → interpolate q.url vars ≡ inr url
        → sql.connect url w ≡ (inr db, w₁)
        → rendered interpolate vars q.args ≡ inl e
        → Queried w (set_error (error e) named) w₁
    failed :
        (url : String) (db : Db) (args : List String) (e : Error) (w₁ w₂ : W)
        → interpolate q.url vars ≡ inr url
        → sql.connect url w ≡ (inr db, w₁)
        → rendered interpolate vars q.args ≡ inr args
        → sql.query db q.query args w₁ ≡ (inl e, w₂)
        → Queried w (refused (error e) e (shown args)) w₂
    unscanned :
        (url : String) (db : Db) (args : List String) (rows : List (Error ⊎ Dict Value)) (e : Error)
        (w₁ w₂ : W)
        → interpolate q.url vars ≡ inr url
        → sql.connect url w ≡ (inr db, w₁)
        → rendered interpolate vars q.args ≡ inr args
        → sql.query db q.query args w₁ ≡ (inr rows, w₂)
        → Scans rows (inl e)
        → Queried w (set_error (error e) (shown args)) w₂
    found :
        (url : String) (db : Db) (args : List String) (rows : List (Error ⊎ Dict Value))
        (results : List (Dict Value)) (w₁ w₂ : W)
        → interpolate q.url vars ≡ inr url
        → sql.connect url w ≡ (inr db, w₁)
        → rendered interpolate vars q.args ≡ inr args
        → sql.query db q.query args w₁ ≡ (inr rows, w₂)
        → Scans rows (inr results)
        → Queried w (set_result (arr (objects results)) (shown args)) w₂

  abbrev text_of : Error → Value
  text_of e = str (error_text e)

  abbrev after_query : List (Error ⊎ Dict Value) → Item W (Unit {0})
  after_query rows = Item.◌>>=◌ (check (scan_all rows)) λ found. give (arr (objects found))

  abbrev after_args : Db → List String → Item W (Unit {0})
  after_args db args = Item.◌>>=◌ (attempt_number error (sql.query db q.query args)) after_query

  abbrev after_rendering : Db → List String → Item W (Unit {0})
  after_rendering db args =
      Item.◌>>=◌ (put_if m.return_queries "args" (arr (strings args))) λ _. after_args db args

  abbrev after_connect : Db → Item W (Unit {0})
  after_connect db = Item.◌>>=◌ (interpolate_all interpolate vars q.args) (after_rendering db)

  abbrev after_url : String → Item W (Unit {0})
  after_url url = Item.◌>>=◌ (attempt_number text_of (sql.connect url)) after_connect

  reach_connect :
      {url : String} (w : W)
      → interpolate q.url vars ≡ inr url
      → query_steps interpolate sql m vars q blank w ≡ after_url url named w
  unfolding query_steps
  reach_connect w addressed =
      >>=-some (check (interpolate q.url vars)) _ (check-inr blank w addressed)
      ∙ >>=-some (put_if m.return_queries "query" (str q.query)) _
          (put_if-some m.return_queries "query" (str q.query) blank w)

  reach_args :
      {url : String} {db : Db} {w w₁ : W}
      → interpolate q.url vars ≡ inr url
      → sql.connect url w ≡ (inr db, w₁)
      → query_steps interpolate sql m vars q blank w ≡ after_connect db named w₁
  reach_args {url} {w = w} addressed connected =
      reach_connect w addressed
      ∙ >>=-some (attempt_number text_of (sql.connect url)) after_connect
          (attempt_number-inr text_of (sql.connect url) named connected)

  reach_query :
      {url : String} {db : Db} {args : List String} {w w₁ : W}
      → interpolate q.url vars ≡ inr url
      → sql.connect url w ≡ (inr db, w₁)
      → rendered interpolate vars q.args ≡ inr args
      → query_steps interpolate sql m vars q blank w ≡ after_args db args (shown args) w₁
  reach_query {db = db} {args = args} {w₁ = w₁} addressed connected good =
      reach_args addressed connected
      ∙ >>=-some (interpolate_all interpolate vars q.args) (after_rendering db)
          (interpolate_all-some interpolate vars q.args named w₁ good)
      ∙ >>=-some (put_if m.return_queries "args" (arr (strings args))) _
          (put_if-some m.return_queries "args" (arr (strings args)) named w₁)

  reach_rows :
      {url : String} {db : Db} {args : List String} {rows : List (Error ⊎ Dict Value)} {w w₁ w₂ : W}
      → interpolate q.url vars ≡ inr url
      → sql.connect url w ≡ (inr db, w₁)
      → rendered interpolate vars q.args ≡ inr args
      → sql.query db q.query args w₁ ≡ (inr rows, w₂)
      → query_steps interpolate sql m vars q blank w ≡ after_query rows (shown args) w₂
  reach_rows {db = db} {args = args} addressed connected good asked =
      reach_query addressed connected good
      ∙ >>=-some (attempt_number error (sql.query db q.query args)) after_query
          (attempt_number-inr error (sql.query db q.query args) (shown args) asked)

  -- What the query gives, as `run` takes it.
  abbrev QueriedBy : W → Response × W → Type 0
  QueriedBy w out = Queried w out.0 out.1

  of_chain :
      {w w' : W} {o : Option (Unit {0})} {r : Response}
      → query_steps interpolate sql m vars q blank w ≡ (o, r, w')
      → Queried w r w'
      → QueriedBy w (run_item (query_steps interpolate sql m vars q) blank w)
  of_chain {w} chain h =
      subst (QueriedBy w) (sym (run_item-eq (query_steps interpolate sql m vars q) blank w chain)) h

  scanned :
      {url : String} {db : Db} {args : List String} {rows : List (Error ⊎ Dict Value)} {w w₁ w₂ : W}
      → interpolate q.url vars ≡ inr url
      → sql.connect url w ≡ (inr db, w₁)
      → rendered interpolate vars q.args ≡ inr args
      → sql.query db q.query args w₁ ≡ (inr rows, w₂)
      → QueriedBy w (run_item (query_steps interpolate sql m vars q) blank w)
  unfolding give
  scanned {url} {db} {args} {rows} {w} {w₁} {w₂} addressed connected good asked =
      let reached = reach_rows addressed connected good asked in
      elim (Sum-cases (scan_all rows)) [
        | inl (e, bad) ↦
            of_chain (reached ∙ >>=-none (check (scan_all rows)) _ (check-inl (shown args) w₂ bad))
              (unscanned url db args rows e w₁ w₂ addressed connected good asked
                (subst (Scans rows) bad (scan_all-Scans rows)))
        | inr (results, fine) ↦
            of_chain (reached ∙ >>=-some (check (scan_all rows)) _ (check-inr (shown args) w₂ fine))
              (found url db args rows results w₁ w₂ addressed connected good asked
                (subst (Scans rows) fine (scan_all-Scans rows)))
      ]

  asked_or :
      {url : String} {db : Db} {w w₁ : W}
      → interpolate q.url vars ≡ inr url
      → sql.connect url w ≡ (inr db, w₁)
      → QueriedBy w (run_item (query_steps interpolate sql m vars q) blank w)
  asked_or {url} {db} {w} {w₁} addressed connected =
      elim (Sum-cases (rendered interpolate vars q.args)) [
        | inl (e, bad) ↦
            of_chain
              (reach_args addressed connected
                ∙ >>=-none (interpolate_all interpolate vars q.args) (after_rendering db)
                    (interpolate_all-none interpolate vars q.args named w₁ bad))
              (unrendered url db e w₁ addressed connected bad)
        | inr (args, good) ↦
            let call = sql.query db q.query args in
            elim (Sum-cases (call w₁).0) [
              | inl (e, bad) ↦
                  let refused_call = ap (λ x. (x, (call w₁).1)) bad in
                  of_chain
                    (reach_query addressed connected good
                      ∙ >>=-none (attempt_number error call) after_query
                          (attempt_number-inl error call (shown args) refused_call))
                    (failed url db args e w₁ (call w₁).1 addressed connected good refused_call)
              | inr (rows, given) ↦
                  scanned addressed connected good (ap (λ x. (x, (call w₁).1)) given)
            ]
      ]

  -- A query of a mysql task is described by the first of its steps that fails.
  pub mysql_query-Queried :
      (w : W) → QueriedBy w (run_item (query_steps interpolate sql m vars q) blank w)
  unfolding query_steps
  mysql_query-Queried w = elim (Sum-cases (interpolate q.url vars)) [
    | inl (e, bad) ↦
        of_chain (>>=-none (check (interpolate q.url vars)) _ (check-inl blank w bad))
          (unaddressed e bad)
    | inr (url, addressed) ↦ elim (Sum-cases (sql.connect url w).0) [
      | inl (e, bad) ↦
          let refused_call = ap (λ x. (x, (sql.connect url w).1)) bad in
          of_chain
            (reach_connect w addressed
              ∙ >>=-none (attempt_number text_of (sql.connect url)) after_connect
                  (attempt_number-inl text_of (sql.connect url) named refused_call))
            (unopened url e (sql.connect url w).1 addressed refused_call)
      | inr (db, fine) ↦ asked_or addressed (ap (λ x. (x, (sql.connect url w).1)) fine)
    ]
  ]
