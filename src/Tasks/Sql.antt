-- ===== src/Tasks/Sql.antt =====
-- What the postgres and the mysql task of tasks.go use of the sqlx package.
pub mod Scans
pub mod Tests
use goexpose.Common.{Error, List, [], String, inl, inr, ◌∷◌, ◌⊎◌}
use goexpose.Dict.{Dict}
use goexpose.Effect.{Call}
use goexpose.Value.{Value}

-- One query of a task.
pub record Query : Type 0 where
  pub url : String
  pub query : String
  pub args : List String

-- `sqlx.Connect` or `sqlx.Open` of a driver, and `db.Queryx`, with what `rows.MapScan` gives for each
-- round of `rows.Next`.
pub record Sql (W Db : Type 0) : Type 0 where
  pub connect : String → Call W Db
  pub query : Db → String → List String → Call W (List (Error ⊎ Dict Value))

-- The loop over the rows: the first row that does not scan ends it.
unfoldable pub scan_all : List (Error ⊎ Dict Value) → Error ⊎ List (Dict Value)
scan_all [] = inr []
scan_all (inl e ∷ rows) = inl e
scan_all (inr row ∷ rows) = elim (scan_all rows) [ inl e ↦ inl e | inr more ↦ inr (row ∷ more) ]
