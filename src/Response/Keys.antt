-- ===== src/Response/Keys.antt =====
-- The keys of a response: what the methods of response.go do to each of them.
use goexpose.Common.{Option, String, arith, none, some, ℕ, ◌≡◌, ◌==◌, if◌then◌else◌, refl}
use goexpose.Dict.{delete, dict_laws, lookup, lookup-delete, lookup-insert}
use goexpose.Value.{Value, num, pos, str}
use goexpose.Response.{
  Response, add_value, del_value, new_response, set_error, set_result, set_status, status_text,
  strip_status_data, update_status_data,
}

abbrev pub value : String → Response → Option Value
value key r = lookup key r.fields

pub value-add_value :
    (key k : String) (v : Value) (r : Response)
    → value k (add_value key v r) ≡ (if key == k then some v else value k r)
unfolding add_value
value-add_value key k v r = lookup-insert key k v r.fields

pub value-del_value :
    (key k : String) (r : Response)
    → value k (del_value key r) ≡ (if key == k then none else value k r)
unfolding del_value
value-del_value key k r = lookup-delete key k r.fields

pub value-set_result :
    (k : String) (v : Value) (r : Response)
    → value k (set_result v r) ≡ (if "result" == k then some v else value k r)
unfolding set_result
value-set_result k v r = lookup-insert "result" k v r.fields

pub value-set_error :
    (k : String) (v : Value) (r : Response)
    → value k (set_error v r) ≡ (if "error" == k then some v else value k r)
unfolding set_error
value-set_error k v r = lookup-insert "error" k v r.fields

pub value-set_status :
    (code : ℕ) (k : String) (r : Response)
    → value k (set_status code r) ≡ (
        if "message" == k
        then some (str (status_text code))
        else if "status" == k
        then some (num (pos code))
        else value k r)
unfolding set_status
value-set_status code k r = simp dict_laws

-- Stripping a response removes its "status" and no other key: the message stays, also where it is
-- the text of the status.
pub value-strip_status_data :
    (k : String) (r : Response)
    → value k (strip_status_data r) ≡ (if "status" == k then none else value k r)
unfolding strip_status_data
value-strip_status_data k r =
    ground (
      arith,
      lookup-delete "status" k r.fields,
      lookup-delete "status" k (delete "status" r.fields),
    )

pub status-strip_status_data : (r : Response) → (strip_status_data r).status ≡ r.status
unfolding strip_status_data
status-strip_status_data r = ground arith

pub value-update_status_data :
    (k : String) (r : Response) → value k (update_status_data r) ≡ value k (set_status r.status r)
unfolding update_status_data
value-update_status_data k r = refl

pub value-new_response :
    (code : ℕ) (k : String)
    → value k (new_response code) ≡ (
        if "message" == k
        then some (str (status_text code))
        else if "status" == k
        then some (num (pos code))
        else none)
unfolding new_response
value-new_response code k = simp dict_laws

-- Updating after stripping gives what updating alone gives, key by key.
pub value-update-strip :
    (k : String) (r : Response)
    → value k (update_status_data (strip_status_data r)) ≡ value k (update_status_data r)
value-update-strip k r =
    simp
      (
        value-update_status_data, value-set_status, status-strip_status_data,
        value-strip_status_data,
      )
      (ground arith)

-- The documentation of `StripStatusData` shows `{}` for a fresh response; the message is left.
pub strip-new_response :
    (code : ℕ)
    → (value "message" (strip_status_data (new_response code)) ≡ some (str (status_text code)))
      × (value "status" (strip_status_data (new_response code)) ≡ none)
strip-new_response code = simp (value-strip_status_data, value-new_response) (refl, refl)

pub ruleset response_laws = (
  value-add_value, value-del_value, value-set_result, value-set_error, value-set_status,
  value-strip_status_data,
)
