-- ===== src/Tasks/Sql/Scans.antt =====
-- The loop over the rows of a query, in the postgres and the mysql task of tasks.go.
use goexpose.Common.{Error, List, [], inl, inr, map, ◌++◌, ◌∷◌, ◌⊎◌}
use goexpose.Dict.{Dict}
use goexpose.Tasks.Sql.{scan_all}
use goexpose.Value.{Value}

-- The rows as far as they have been scanned: all of them, or those before the first that does not
-- scan, with its error.
pub data Scans : List (Error ⊎ Dict Value) → Error ⊎ List (Dict Value) → Type 0 where
  all_rows : (rows : List (Dict Value)) → Scans (map inr rows) (inr rows)
  bad_row :
      (before : List (Dict Value)) (e : Error) (after : List (Error ⊎ Dict Value))
      → Scans (map inr before ++ inl e ∷ after) (inl e)

pub scan_all-Scans : (rows : List (Error ⊎ Dict Value)) → Scans rows (scan_all rows)
unfolding scan_all
scan_all-Scans [] = all_rows []
scan_all-Scans (inl e ∷ rows) = bad_row [] e rows
scan_all-Scans (inr row ∷ rows) = one_more (scan_all-Scans rows)
  where
    one_more :
        {rows : List (Error ⊎ Dict Value)} {x : Error ⊎ List (Dict Value)}
        → Scans rows x
        → Scans (inr row ∷ rows) (elim x [ inl e ↦ inl e | inr more ↦ inr (row ∷ more) ])
    one_more (all_rows more) = all_rows (row ∷ more)
    one_more (bad_row before e after) = bad_row (row ∷ before) e after
