-- ===== src/Response/Writing.antt =====
-- `Write` and `MarshalJSON` of response.go.
use goexpose.Common.{
  Error, List, [], Option, String, inl, inr, none, some, ℕ, ◌++◌, ◌∷◌, ◌⊎◌, if◌then◌else◌,
}
use goexpose.Value.{Bytes, Value, fields_of, obj}
use goexpose.Response.{Response}

-- What a handler does to its `http.ResponseWriter` and to the log, in order. A log line has the
-- method, the path, the status and the time that the request took, where it was measured.
pub data Event : Type 0 where
  add_header : String → String → Event
  write_header : ℕ → Event
  write_body : Bytes → Event
  log : String → String → ℕ → Option ℕ → Event

-- The `encoding/json` and `encoding/base64` calls: `json.Marshal` and `json.MarshalIndent` of a
-- map, the compaction that `json.Marshal` applies to what a `MarshalJSON` method returned, and
-- `base64.StdEncoding.Encode`.
pub record Codec : Type 0 where
  pub marshal : Value → Error ⊎ Bytes
  pub marshal_indent : Value → Error ⊎ Bytes
  pub compact : Bytes → Error ⊎ Bytes
  pub base64 : Bytes → Bytes

infixl 5 ◌>>=◌
abbrev ◌>>=◌ : Error ⊎ Bytes → (Bytes → Error ⊎ Bytes) → Error ⊎ Bytes
inl e >>= f = inl e
inr b >>= f = f b

-- Sends the body and logs the request, or returns the error before either.
unfoldable pub deliver : Error ⊎ Bytes → Event → List Event → List Event × Option Error
deliver (inl e) logged w = (w, some e)
deliver (inr b) logged w = (w ++ write_body b ∷ logged ∷ [], none)

module _ (c : Codec) where
  unfoldable pub marshal_json : Response → Error ⊎ Bytes
  marshal_json r = elim r.raw [
    | some b ↦ inr (c.base64 b)
    | none ↦
        let data' = obj (fields_of r.fields) in
        if r.pretty then c.marshal_indent data' else c.marshal data'
  ]

  -- `json.Marshal(r)`, for a value with a `MarshalJSON` method
  unfoldable pub marshal_response : Response → Error ⊎ Bytes
  unfolding marshal_json
  marshal_response r = do b ← marshal_json r; c.compact b

  -- The bytes to send: the raw bytes, or the marshalled response.
  unfoldable pub body : Response → Error ⊎ Bytes
  unfolding marshal_response
  body r = elim r.raw [ some b ↦ inr b | none ↦ marshal_response r ]

  -- The request's method and path, and the time since `start` where it is given, are arguments.
  unfoldable pub write :
      Response → String → String → Option ℕ → List Event → List Event × Option Error
  unfolding body deliver
  write r method path elapsed w =
      deliver (body r) (log method path r.status elapsed)
        (w ++ add_header "Content-Type" "application/json" ∷ write_header r.status ∷ [])
