-- ===== src/Server/Params.antt =====
-- The parameters that a handler gives to its task, and adds to its response.
use goexpose.Common.{
  Bool, Bool-cases, Option, String, arith, false, if◌then◌else◌, inl, inr, not, some, true, ◌&&◌,
  ◌==◌, ◌≡◌,
}
use goexpose.Config.{EndpointConfig}
use goexpose.Dict.{Dict, has-insert_self}
use goexpose.Response.{Response, add_value, has_value}
use goexpose.Response.Keys.{value, value-add_value}
use goexpose.Server.{add_params_if, method_params, returns_params, with_params}
use goexpose.Value.{Value, fields_of, obj}

has_value-add_value : (k : String) (v : Value) (r : Response) → has_value k (add_value k v r) ≡ true
unfolding has_value add_value
has_value-add_value k v r = has-insert_self k v r.fields

-- Two additions, the second of which keeps a value that is there.
value-twice :
    (first second : Bool) (k : String) (params : Dict Value) (r : Response)
    → let added : Option Value = some (obj (fields_of params)) in
      let response₁ = add_params_if first params r in
      value k (add_params_if (second && not (has_value "params" response₁)) params response₁) ≡ (
        if "params" == k
        then (if first
            then added
            else if second && not (has_value "params" r)
            then added
            else value k r)
        else value k r)
value-twice true true k params r =
    let v = obj (fields_of params) in
    rw (has_value-add_value "params" v r) (value-add_value "params" k v r)
value-twice true false k params r = value-add_value "params" k (obj (fields_of params)) r
value-twice false true k params r = elim (Bool-cases (has_value "params" r)) [
  | inl present ↦ rw present (ground arith)
  | inr missing ↦ rw missing (value-add_value "params" k (obj (fields_of params)) r)
]
value-twice false false k params r = ground arith

-- The response gets the parameters where the endpoint asks for them; where the request's method
-- asks for them alone, a value that the task has put there stays. No other key changes.
pub value-with_params :
    (ec : EndpointConfig) (method k : String) (params : Dict Value) (r : Response)
    → let added : Option Value = some (obj (fields_of params)) in
      value k (with_params ec method params r) ≡ (
        if "params" == k
        then (if returns_params ec.query_params
            then added
            else if returns_params (method_params ec method) && not (has_value "params" r)
            then added
            else value k r)
        else value k r)
unfolding with_params
value-with_params ec method k params r =
    value-twice (returns_params ec.query_params) (returns_params (method_params ec method)) k params
      r
