-- ===== src/Config/Bounds.antt =====
-- How many query parameters a request can make.
use goexpose.Common.{
  Bool-cases, List, [], String, arith, inl, inr, length, some, suc, ◌+◌, ◌==◌, ◌≤◌, ◌∷◌,
}
use goexpose.Config.{QueryParam, QueryParams, add_param, add_params, get_params}
use goexpose.Dict.{Dict, insert}
use goexpose.Text.{trim_space}

length-insert : (k v : String) (d : Dict String) → length (insert k v d) ≤ suc (length d)
unfolding insert
length-insert k v [] = omega arith
length-insert k v ((j, w) ∷ d) = elim (Bool-cases (j == k)) [
  | inl e ↦ rw e (omega arith)
  | inr e ↦ let rest = length-insert k v d in rw e (omega arith)
]

length-add_param :
    (query : String → String) (p : QueryParam) (d : Dict String)
    → length (add_param query p d) ≤ suc (length d)
unfolding add_param
length-add_param query p d =
    let given = length-insert p.name (trim_space (query p.name)) d in
    let default = length-insert p.name p.default d in ground arith

length-add_params :
    (query : String → String) (ps : List QueryParam) (d : Dict String)
    → length (add_params query ps d) ≤ length d + length ps
unfolding add_params
length-add_params query [] d = omega arith
length-add_params query (p ∷ ps) d =
    let first = length-add_param query p d in
    let rest = length-add_params query ps (add_param query p d) in omega arith

-- However many parameters a request carries, a task gets at most as many as the configuration lists.
pub length-get_params :
    (q : QueryParams) (query : String → String)
    → length (get_params (some q) query) ≤ length q.params
unfolding get_params
length-get_params q query = let all = length-add_params query q.params [] in omega arith
