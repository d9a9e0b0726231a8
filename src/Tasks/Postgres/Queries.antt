-- ===== src/Tasks/Postgres/Queries.antt =====
-- How a query of a postgres task comes to its response.
use mathlib.Core.Path.{subst}
use goexpose.Common.{
  Error, List, mysql, new, pq, Option, String, Sum-cases, ap, if◌then◌else◌, inl, inr, none, refl,
  some, sym, ◌∙◌, ◌≡◌, ◌⊎◌,
}
use goexpose.Dict.{Dict}
use goexpose.Effect.{Call}
use goexpose.Response.{Response, add_value, set_error, set_result}
use goexpose.Tasks.Item
use goexpose.Tasks.Item.{Item, blank, check, give, interpolate_all, put_if, run_item}
use goexpose.Tasks.Item.Steps.{
  >>=-none, >>=-some, check-inl, check-inr, interpolate_all-none, interpolate_all-some, put_if-some,
  rendered, run_item-eq,
}
use goexpose.Tasks.Postgres.{PostgresConfig, add_code, attempt_code, query_steps, settle_code}
use goexpose.Tasks.Sql.{Query, Sql, scan_all}
use goexpose.Tasks.Sql.Scans.{Scans, scan_all-Scans}
use goexpose.Utils.{Interpolate}
use goexpose.Value.{Value, arr, error, objects, str, strings}

-- The response of an error of the database, with its code where the driver has one.
abbrev pub refused : Error → Response → Response
refused (pq code_name text) r =
    set_error (error (pq code_name text)) (add_value "error_code" (str code_name) r)
refused (mysql number text) r = set_error (error (mysql number text)) r
refused (new text) r = set_error (error (new text)) r

refused-add_code : (e : Error) (r : Response) → set_error (error e) (add_code e r) ≡ refused e r
unfolding add_code
refused-add_code (pq code_name text) r = refl
refused-add_code (mysql number text) r = refl
refused-add_code (new text) r = refl

module _ {W A : Type 0} where
  settle_code-inl :
      {x : Error ⊎ A} {e : Error} (r : Response) (w : W)
      → x ≡ inl e
      → settle_code x r w ≡ (none, refused e r, w)
  unfolding settle_code
  settle_code-inl {e = e} r w bad = rw bad (ap (λ x. (none, x, w)) (refused-add_code e r))

  settle_code-inr :
      {x : Error ⊎ A} {a : A} (r : Response) (w : W)
      → x ≡ inr a
      → settle_code x r w ≡ (some a, r, w)
  unfolding settle_code
  settle_code-inr r w good = rw good refl

  attempt_code-inl :
      (c : Call W A) {e : Error} {w w' : W} (r : Response)
      → c w ≡ (inl e, w')
      → attempt_code c r w ≡ (none, refused e r, w')
  unfolding attempt_code settle_code
  attempt_code-inl c {e = e} {w' = w'} r bad =
      rw bad (ap (λ x. (none, x, w')) (refused-add_code e r))

  attempt_code-inr :
      (c : Call W A) {a : A} {w w' : W} (r : Response)
      → c w ≡ (inr a, w')
      → attempt_code c r w ≡ (some a, r, w')
  unfolding attempt_code settle_code
  attempt_code-inr c r good = rw good refl

module _ {W Db : Type 0} (interpolate : Interpolate) (sql : Sql W Db) (p : PostgresConfig)
    (vars : Dict Value) (q : Query) where
  -- The response once the arguments are known.
  abbrev shown : List String → Response
  shown args =
      let named = if p.return_queries then add_value "query" (str q.query) blank else blank in
      if p.return_queries then add_value "args" (arr (strings args)) named else named

  -- The response of a query, and the state that it leaves.
  pub data Queried (w : W) : Response × W → Type 0 where
    unaddressed :
        (e : Error) → interpolate q.url vars ≡ inl e → Queried w (set_error (error e) blank, w)
    unrendered :
        (url : String) (e : Error)
        → interpolate q.url vars ≡ inr url
        → rendered interpolate vars q.args ≡ inl e
        → Queried w (set_error (error e) blank, w)
    unconnected :
        (url : String) (args : List String) (e : Error) (w₁ : W)
        → interpolate q.url vars ≡ inr url
        → rendered interpolate vars q.args ≡ inr args
        → sql.connect url w ≡ (inl e, w₁)
        → Queried w (refused e (shown args), w₁)
    failed :
        (url : String) (args : List String) (db : Db) (e : Error) (w₁ w₂ : W)
        → interpolate q.url vars ≡ inr url
        → rendered interpolate vars q.args ≡ inr args
        → sql.connect url w ≡ (inr db, w₁)
        → sql.query db q.query args w₁ ≡ (inl e, w₂)
        → Queried w (refused e (shown args), w₂)
    unscanned :
        (url : String) (args : List String) (db : Db) (rows : List (Error ⊎ Dict Value)) (e : Error)
        (w₁ w₂ : W)
        → interpolate q.url vars ≡ inr url
        → rendered interpolate vars q.args ≡ inr args
        → sql.connect url w ≡ (inr db, w₁)
        → sql.query db q.query args w₁ ≡ (inr rows, w₂)
        → Scans rows (inl e)
        → Queried w (refused e (shown args), w₂)
    found :
        (url : String) (args : List String) (db : Db) (rows : List (Error ⊎ Dict Value))
        (results : List (Dict Value)) (w₁ w₂ : W)
        → interpolate q.url vars ≡ inr url
        → rendered interpolate vars q.args ≡ inr args
        → sql.connect url w ≡ (inr db, w₁)
        → sql.query db q.query args w₁ ≡ (inr rows, w₂)
        → Scans rows (inr results)
        → Queried w (set_result (arr (objects results)) (shown args), w₂)

  abbrev after_query : List (Error ⊎ Dict Value) → Item W (Unit {0})
  after_query rows = Item.◌>>=◌ (settle_code (scan_all rows)) λ found. give (arr (objects found))

  abbrev after_connect : List String → Db → Item W (Unit {0})
  after_connect args db = Item.◌>>=◌ (attempt_code (sql.query db q.query args)) after_query

  abbrev after_args : String → List String → Item W (Unit {0})
  after_args url args = Item.◌>>=◌ (attempt_code (sql.connect url)) (after_connect args)

  -- The steps up to the call of the database.
  reach_database :
      {url : String} {args : List String} (w : W)
      → interpolate q.url vars ≡ inr url
      → rendered interpolate vars q.args ≡ inr args
      → query_steps interpolate sql p vars q blank w ≡ after_args url args (shown args) w
  unfolding query_steps
  reach_database {args = args} w addressed good =
      >>=-some (check (interpolate q.url vars)) _ (check-inr blank w addressed)
      ∙ >>=-some (interpolate_all interpolate vars q.args) _
          (interpolate_all-some interpolate vars q.args blank w good)
      ∙ >>=-some (put_if p.return_queries "query" (str q.query)) _
          (put_if-some p.return_queries "query" (str q.query) blank w)
      ∙ >>=-some (put_if p.return_queries "args" (arr (strings args))) _
          (put_if-some p.return_queries "args" (arr (strings args)) _ w)

  of_chain :
      {w w' : W} {o : Option (Unit {0})} {r : Response}
      → query_steps interpolate sql p vars q blank w ≡ (o, r, w')
      → Queried w (r, w')
      → Queried w (run_item (query_steps interpolate sql p vars q) blank w)
  of_chain {w} chain h =
      subst (Queried w) (sym (run_item-eq (query_steps interpolate sql p vars q) blank w chain)) h

  scanned :
      {url : String} {args : List String} {db : Db} {rows : List (Error ⊎ Dict Value)} {w w₁ w₂ : W}
      → interpolate q.url vars ≡ inr url
      → rendered interpolate vars q.args ≡ inr args
      → sql.connect url w ≡ (inr db, w₁)
      → sql.query db q.query args w₁ ≡ (inr rows, w₂)
      → Queried w (run_item (query_steps interpolate sql p vars q) blank w)
  unfolding give
  scanned {url} {args} {db} {rows} {w} {w₁} {w₂} addressed good connected asked =
      let reached =
        reach_database w addressed good
        ∙ >>=-some (attempt_code (sql.connect url)) (after_connect args)
            (attempt_code-inr (sql.connect url) (shown args) connected)
        ∙ >>=-some (attempt_code (sql.query db q.query args)) after_query
            (attempt_code-inr (sql.query db q.query args) (shown args) asked) in
      elim (Sum-cases (scan_all rows)) [
        | inl (e, bad) ↦
            of_chain
              (reached
                ∙ >>=-none (settle_code (scan_all rows)) _ (settle_code-inl (shown args) w₂ bad))
              (unscanned url args db rows e w₁ w₂ addressed good connected asked
                (subst (Scans rows) bad (scan_all-Scans rows)))
        | inr (results, fine) ↦
            of_chain
              (reached
                ∙ >>=-some (settle_code (scan_all rows)) _ (settle_code-inr (shown args) w₂ fine))
              (found url args db rows results w₁ w₂ addressed good connected asked
                (subst (Scans rows) fine (scan_all-Scans rows)))
      ]

  connected_or :
      (url : String) (args : List String) (w : W)
      → interpolate q.url vars ≡ inr url
      → rendered interpolate vars q.args ≡ inr args
      → Queried w (run_item (query_steps interpolate sql p vars q) blank w)
  connected_or url args w addressed good =
      let w₁ = (sql.connect url w).1 in
      elim (Sum-cases (sql.connect url w).0) [
        | inl (e, bad) ↦
            let failed_call = ap (λ x. (x, w₁)) bad in
            of_chain
              (reach_database w addressed good
                ∙ >>=-none (attempt_code (sql.connect url)) (after_connect args)
                    (attempt_code-inl (sql.connect url) (shown args) failed_call))
              (unconnected url args e w₁ addressed good failed_call)
        | inr (db, fine) ↦
            let connected = ap (λ x. (x, w₁)) fine in
            let w₂ = (sql.query db q.query args w₁).1 in
            elim (Sum-cases (sql.query db q.query args w₁).0) [
              | inl (e, bad) ↦
                  let refused_call = ap (λ x. (x, w₂)) bad in
                  of_chain
                    (reach_database w addressed good
                      ∙ >>=-some (attempt_code (sql.connect url)) (after_connect args)
                          (attempt_code-inr (sql.connect url) (shown args) connected)
                      ∙ >>=-none (attempt_code (sql.query db q.query args)) after_query
                          (attempt_code-inl (sql.query db q.query args) (shown args) refused_call))
                    (failed url args db e w₁ w₂ addressed good connected refused_call)
              | inr (rows, given) ↦ scanned addressed good connected (ap (λ x. (x, w₂)) given)
            ]
      ]

  -- A query of a postgres task gives the error of the first of its steps that fails: its address, one
  -- of its arguments in their order, the connection, the call, a row that does not scan. From the
  -- connection on, the query and its rendered arguments stand beside it where they are to be returned,
  -- and the error's code where the driver gives one. Where no step fails, the result is all rows
  -- in their order. No step after the one that fails is taken.
  pub postgres_query-Queried :
      (w : W) → Queried w (run_item (query_steps interpolate sql p vars q) blank w)
  unfolding query_steps
  postgres_query-Queried w = elim (Sum-cases (interpolate q.url vars)) [
    | inl (e, bad) ↦
        of_chain (>>=-none (check (interpolate q.url vars)) _ (check-inl blank w bad))
          (unaddressed e bad)
    | inr (url, addressed) ↦ elim (Sum-cases (rendered interpolate vars q.args)) [
      | inl (e, bad) ↦
          of_chain
            (>>=-some (check (interpolate q.url vars)) _ (check-inr blank w addressed)
              ∙ >>=-none (interpolate_all interpolate vars q.args) _
                  (interpolate_all-none interpolate vars q.args blank w bad))
            (unrendered url e addressed bad)
      | inr (args, good) ↦ connected_or url args w addressed good
    ]
  ]
