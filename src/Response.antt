-- ===== src/Response.antt =====
-- response.go: the response that a task builds and a handler writes. Each method returns the
-- changed response (the source changes it in place and returns the same pointer).
mod Status
pub use Status.{status_internal_server_error, status_not_found, status_ok, status_unauthorized}
unfoldable pub use Status.{status_text}
pub mod Keys
pub mod Consistency
pub mod Abstract
pub mod Writing
pub mod Written
pub mod Tests
use goexpose.Common.{
  Bool, Error, List, [], Option, String, false, inl, inr, map, none, some, ℕ, ◌∷◌, ◌⊎◌, ◌==◌,
  if◌then◌else◌,
}
use goexpose.Dict.{Dict, delete, has, insert, lookup}
use goexpose.Value.{Bytes, Items, Value, arr, error, fields_of, items, num, pos, response, str}

pub record Response : Type 0 where
  pub status : ℕ
  pub pretty : Bool
  pub fields : Dict Value
  pub raw : Option Bytes

-- The response as a value inside another one.
abbrev pub embed : Response → Value
embed r = response r.status r.pretty (fields_of r.fields) r.raw

-- A `[]*Response`
abbrev pub responses : List Response → Value
responses rs = arr (items (map embed rs))

unfoldable pub add_value : String → Value → Response → Response
add_value key value r = record r { fields = insert key value r.fields }

unfoldable pub del_value : String → Response → Response
del_value key r = record r { fields = delete key r.fields }

unfoldable pub has_value : String → Response → Bool
has_value key r = has key r.fields

unfoldable pub set_status : ℕ → Response → Response
unfolding add_value
set_status code r =
    add_value "message" (str (status_text code))
      (add_value "status" (num (pos code)) (record r { status = code }))

unfoldable pub new_response : ℕ → Response
unfolding set_status
new_response code = set_status code (record { status = 0; pretty = false; fields = []; raw = none })

unfoldable pub get_status : Response → ℕ
get_status r = r.status

unfoldable pub set_pretty : Bool → Response → Response
set_pretty pretty r = record r { pretty = pretty }

unfoldable pub set_result : Value → Response → Response
unfolding add_value
set_result value r = add_value "result" value r

unfoldable pub set_error : Value → Response → Response
unfolding add_value
set_error e r = add_value "error" e r

-- `message == http.StatusText(r.status)` at an `interface{}`
abbrev pub is_text : Value → String → Bool
is_text (str s) t = s == t
is_text _ t = false

-- Where the message is the status text, the second `delete` names "status" again.
unfoldable pub strip_status_data : Response → Response
unfolding del_value
strip_status_data r =
    let r' = del_value "status" r in
    elim (lookup "message" r'.fields) [
      | none ↦ r'
      | some message ↦ if is_text message (status_text r'.status) then del_value "status" r' else r'
    ]

unfoldable pub update_status_data : Response → Response
unfolding set_status
update_status_data r = set_status r.status r

-- The argument of `Raw`, by the cases of its type switch: nil, a `fmt.Stringer` with its text, a
-- string, a `[]byte`, and any other value.
pub data RawArgument : Type 0 where
  nil : RawArgument
  stringer text : String → RawArgument
  body : Bytes → RawArgument
  other : Value → RawArgument

-- `encode` gives the bytes of a text, and `marshal` is `json.Marshal`.
module _ (encode : String → Bytes) (marshal : Value → Error ⊎ Bytes) where
  unfoldable pub set_raw : RawArgument → Response → Response
  unfolding set_error
  set_raw nil r = record r { raw = none }
  set_raw (stringer s) r = record r { raw = some (encode s) }
  set_raw (text s) r = record r { raw = some (encode s) }
  set_raw (body b) r = record r { raw = some b }
  set_raw (other v) r = elim (marshal v) [
    | inl e ↦ set_error (error e) r
    | inr b ↦ record r { raw = some b }
  ]
