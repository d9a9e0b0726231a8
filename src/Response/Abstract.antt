-- ===== src/Response/Abstract.antt =====
-- What a response is to its caller: a status, two settings and a value for each key. The order in
-- which keys were written is forgotten.
use goexpose.Common.{
  arith, Bool, false, Error, List, [], Option, String, ap, inr, none, refl, some, if◌then◌else◌, ℕ,
  ◌==◌, ◌∙◌, ◌≡◌, ◌∷◌, ◌⊎◌,
}
use goexpose.Dict.{Dict, lookup}
use goexpose.Response.{
  Response, add_value, del_value, new_response, set_error, set_pretty, set_result, set_status,
  status_text, strip_status_data, update_status_data,
}
use goexpose.Response.Consistency.{
  Call, perform, perform_all, status, pretty, result, error, add, del, update, strip,
}
use goexpose.Response.Keys.{
  status-strip_status_data, value, value-add_value, value-del_value, value-new_response,
  value-set_error, value-set_result, value-set_status, value-strip_status_data,
}
use goexpose.Response.Writing.{Codec, Event, body, marshal_json, marshal_response, write}
use goexpose.Value.{Bytes, Value, fields_of, num, obj, pos, str}

pub record Page : Type 0 where
  pub code : ℕ
  pub indented : Bool
  pub raw : Option Bytes
  pub at : String → Option Value

unfoldable pub page : Response → Page
page r = record { code = r.status; indented = r.pretty; raw = r.raw; at = λ k. value k r }

abbrev pub write_key : String → Option Value → (String → Option Value) → String → Option Value
write_key key v at k = if key == k then v else at k

abbrev pub write_status : ℕ → (String → Option Value) → String → Option Value
write_status code at =
    write_key "message" (some (str (status_text code)))
      (write_key "status" (some (num (pos code))) at)

-- What the code of each method does to the page. `StripStatusData` takes the status away and leaves the
-- message, where the comments of response.go say that both go.
unfoldable pub effect : Call → Page → Page
effect (status n) p = record p { code = n; at = write_status n p.at }
effect (pretty b) p = record p { indented = b }
effect (result v) p = record p { at = write_key "result" (some v) p.at }
effect (error v) p = record p { at = write_key "error" (some v) p.at }
effect (add k v) p = record p { at = write_key k (some v) p.at }
effect (del k) p = record p { at = write_key k none p.at }
effect update p = record p { at = write_status p.code p.at }
effect strip p = record p { at = write_key "status" none p.at }

unfoldable pub effect_all : List Call → Page → Page
effect_all [] p = p
effect_all (c ∷ cs) p = effect_all cs (effect c p)

-- The page of a response made by `NewResponse`
abbrev pub new_page : ℕ → Page
new_page code = record {
  code = code;
  indented = false;
  raw = none;
  at = write_status code (λ k. none);
}

pretty-strip_status_data : (r : Response) → (strip_status_data r).pretty ≡ r.pretty
unfolding strip_status_data
pretty-strip_status_data r = ground arith

raw-strip_status_data : (r : Response) → (strip_status_data r).raw ≡ r.raw
unfolding strip_status_data
raw-strip_status_data r = ground arith

page-strip : (r : Response) → page (strip_status_data r) ≡ effect strip (page r)
unfolding page effect
page-strip r = λ i. record {
  code = status-strip_status_data r i;
  indented = pretty-strip_status_data r i;
  raw = raw-strip_status_data r i;
  at = λ k. value-strip_status_data k r i;
}

-- Each method has its effect.
page-perform : (c : Call) (r : Response) → page (perform c r) ≡ effect c (page r)
unfolding page effect perform set_status set_pretty set_result set_error add_value del_value
    update_status_data
page-perform (status n) r = λ i. record (page r) { code = n; at = λ k. value-set_status n k r i }
page-perform (pretty b) r = refl
page-perform (result v) r = λ i. record (page r) { at = λ k. value-set_result k v r i }
page-perform (error v) r = λ i. record (page r) { at = λ k. value-set_error k v r i }
page-perform (add k v) r = λ i. record (page r) { at = λ j. value-add_value k j v r i }
page-perform (del k) r = λ i. record (page r) { at = λ j. value-del_value k j r i }
page-perform update r = λ i. record (page r) { at = λ k. value-set_status r.status k r i }
page-perform strip r = page-strip r

page-perform_all :
    (cs : List Call) (r : Response) → page (perform_all cs r) ≡ effect_all cs (page r)
unfolding perform_all effect_all
page-perform_all [] r = refl
page-perform_all (c ∷ cs) r =
    page-perform_all cs (perform c r) ∙ ap (effect_all cs) (page-perform c r)

page-new_response : (code : ℕ) → page (new_response code) ≡ new_page code
unfolding page new_response set_status add_value
page-new_response code =
    λ i. record { code = code; indented = false; raw = none; at = λ k. value-new_response code k i }

-- A response made by `NewResponse` and changed by any chain of calls of its methods (all but `Raw`)
-- is the page that the effects of the calls give one after the other: it has this status and these
-- settings, and for every key this value, whatever the order of its keys. Of `StripStatusData` the
-- effect is what the code does, not what its comment says: the key "status" goes and the key "message"
-- stays.
pub page-perform_all-new_response :
    (code : ℕ) (cs : List Call)
    → page (perform_all cs (new_response code)) ≡ effect_all cs (new_page code)
page-perform_all-new_response code cs =
    page-perform_all cs (new_response code) ∙ ap (effect_all cs) (page-new_response code)

-- What `json` does with a map depends on its entries alone: it sorts the keys.
pub record SortsKeys (c : Codec) : Type 0 where
  pub marshals :
      (m m' : Dict Value)
      → ((k : String) → lookup k m ≡ lookup k m')
      → c.marshal (obj (fields_of m)) ≡ c.marshal (obj (fields_of m'))
  pub indents :
      (m m' : Dict Value)
      → ((k : String) → lookup k m ≡ lookup k m')
      → c.marshal_indent (obj (fields_of m)) ≡ c.marshal_indent (obj (fields_of m'))

-- The parts of two pages that are the same.
record IsSame (r r' : Response) : Type 0 where
  status : r.status ≡ r'.status
  pretty : r.pretty ≡ r'.pretty
  raw : r.raw ≡ r'.raw
  keys : (k : String) → value k r ≡ value k r'

page-IsSame : (r r' : Response) → page r ≡ page r' → IsSame r r'
unfolding page
page-IsSame r r' e = record {
  status = ap (λ p. p.code) e;
  pretty = ap (λ p. p.indented) e;
  raw = ap (λ p. p.raw) e;
  keys = λ k. ap (λ p. p.at k) e;
}

module _ (c : Codec) (sorts : SortsKeys c) where
  marshal_json-page : (r r' : Response) → IsSame r r' → marshal_json c r ≡ marshal_json c r'
  unfolding marshal_json
  marshal_json-page r r' e i = elim (e.raw i) as (λ _. Error ⊎ Bytes) [
    | some b ↦ inr (c.base64 b)
    | none ↦
        if e.pretty i
        then sorts.indents r.fields r'.fields e.keys i
        else sorts.marshals r.fields r'.fields e.keys i
  ]

  marshal_response-page :
      (r r' : Response) → IsSame r r' → marshal_response c r ≡ marshal_response c r'
  unfolding marshal_response
  marshal_response-page r r' e = rw (marshal_json-page r r' e) refl

  body-page : (r r' : Response) → IsSame r r' → body c r ≡ body c r'
  unfolding body
  body-page r r' e i = elim (e.raw i) as (λ _. Error ⊎ Bytes) [
    | some b ↦ inr b
    | none ↦ marshal_response-page r r' e i
  ]

  -- Where what `json` makes of a map depends on its entries alone, two responses that are the same
  -- page, whatever the order of their keys, are written with the same bytes and the same headers,
  -- and logged alike.
  pub write-page :
      (r r' : Response) (method path : String) (elapsed : Option ℕ) (w : List Event)
      → page r ≡ page r'
      → write c r method path elapsed w ≡ write c r' method path elapsed w
  unfolding write
  write-page r r' method path elapsed w e =
      let same = page-IsSame r r' e in rw (body-page r r' same, same.status) refl
