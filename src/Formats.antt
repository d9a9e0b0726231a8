-- ===== src/Formats.antt =====
-- formats.go: how the output of a command or a response body becomes a value. A format is a list of
-- names between "|", tried from the left.
pub mod Verify
pub mod Picking
pub mod Sets
pub mod Lines
pub mod Tests
use goexpose.Common.{
  Bool, Char, Error, List, [], Option, Result, String, contains, err, false, if◌then◌else◌, inl,
  inr, new, none, not, ok, some, ◌++◌, ◌<>◌, ◌==◌, ◌>>=◌, ◌||◌, ◌∷◌, ◌⊎◌,
}
use goexpose.Dict.{Dict, has, lookup}
use goexpose.Registry.{register_all}
use goexpose.Text.{join, split}
use goexpose.Value.{Value, arr, fields_of, null, obj, objects, str, strings}

-- A `FormatFunc`
abbrev pub FormatFunc : Type 0
FormatFunc = String → Error ⊎ Value

abbrev pub formats_delimiter : Char
formats_delimiter = "|"

-- One round of `VerifyFormat` for each part: the parts to keep so far, and whether "text" was seen.
unfoldable pub verify_parts :
    Dict FormatFunc → List String → List String → Bool → Result (List String × Bool)
verify_parts reg [] ff found_text = ok (ff, found_text)
verify_parts reg (part ∷ parts) ff found_text =
    let skipped = verify_parts reg parts ff found_text in
    let kept = verify_parts reg parts (ff ++ part ∷ []) (found_text || part == "text") in
    if part == ""
    then skipped
    else if not (has part reg)
    then err (new ("format " <> part <> " unknown"))
    else kept

unfoldable pub verify_format : Dict FormatFunc → String → Result String
unfolding verify_parts
verify_format reg format = do
  (ff, found_text) ← verify_parts reg (split formats_delimiter format) [] false
  ok (join formats_delimiter (if found_text then ff else ff ++ "text" ∷ []))

-- The three results of `Format`.
pub record Formatted : Type 0 where
  pub value : Value
  pub format : String
  pub error : Option Error

-- The rounds of `Format`, from what the rounds before left in the results. A formatter that fails
-- leaves the value `nil`.
unfoldable pub format_parts : Dict FormatFunc → String → List String → Formatted → Formatted
format_parts reg body [] acc = acc
format_parts reg body (part ∷ parts) acc = elim (lookup part reg) [
  | none ↦ record acc { error = some (new ("format " <> part <> " unknown")) }
  | some formatter ↦ elim (formatter body) [
    | inl e ↦ format_parts reg body parts (record { value = null; format = part; error = some e })
    | inr v ↦ record { value = v; format = part; error = none }
  ]
]

unfoldable pub format : Dict FormatFunc → String → String → Formatted
unfolding format_parts
format reg body f =
    format_parts reg body (split formats_delimiter f)
      (record { value = null; format = ""; error = none })

unfoldable pub has_format : String → String → Bool
has_format format id = contains (split formats_delimiter format) id

unfoldable pub add_format : String → String → String
add_format format id =
    if contains (split formats_delimiter format) id
    then format
    else (if format == "" then id else id <> "|") <> format

-- `json.Unmarshal` of a text into a `map[string]interface{}` is a parameter.
module _ (unmarshal : String → Error ⊎ Dict Value) where
  unfoldable pub format_json : FormatFunc
  format_json body = elim (unmarshal body) [ inl e ↦ inl e | inr m ↦ inr (obj (fields_of m)) ]

  parse_lines : List String → List (Dict Value) → Error ⊎ Value
  parse_lines [] r = inr (arr (objects r))
  parse_lines (line ∷ lines) r = elim (unmarshal line) [
    | inl e ↦ inl e
    | inr m ↦ parse_lines lines (r ++ m ∷ [])
  ]

  unfoldable pub format_json_lines : FormatFunc
  unfolding parse_lines
  format_json_lines body = parse_lines (split "\n" body) []

unfoldable pub format_lines : FormatFunc
format_lines body = inr (arr (strings (split "\n" body)))

unfoldable pub format_text : FormatFunc
format_text body = inr (str body)

-- What `init` of formats.go leaves in the registry.
unfoldable pub formats_init : (String → Error ⊎ Dict Value) → Result (Dict FormatFunc)
unfolding register_all
formats_init unmarshal =
    register_all (λ id. "format " <> id <> " already registered")
      (("json", format_json unmarshal)
        ∷ ("jsonlines", format_json_lines unmarshal)
        ∷ ("lines", format_lines)
        ∷ ("text", format_text)
        ∷ [])
      []
