-- ===== src/Formats/Picking.antt =====
-- formats.go: how `Format` picks among the parts of a verified format.
use goexpose.Common.{
  Sum-cases, All, Bool-cases, Error, List, [], Option-cases, String, arith, contains, eq_iff, ◌==◌,
  false, inl, inr, none, ok, some, true, ◌≡◌, ◌∷◌, refl,
}
use goexpose.Dict.{Dict, has, lookup}
use goexpose.Text.{split}
use goexpose.Value.{Value, null, str}
use goexpose.Formats.{
  FormatFunc, Formatted, format, format_parts, format_text, formats_delimiter, verify_format,
}
use goexpose.Formats.Verify.{
  IsKnown, contains-with_text, nonempty, split-verify_format, verify_format_iff, with_text,
  with_text-All,
}

-- The result is that of the first part whose formatter takes the body; all before it are registered
-- and refuse it.
pub data Picks (reg : Dict FormatFunc) (body : String) : List String → Formatted → Type 0 where
  here :
      {p : String} {ps : List String} {g : FormatFunc} {v : Value}
      → lookup p reg ≡ some g
      → g body ≡ inr v
      → Picks reg body (p ∷ ps) (record { value = v; format = p; error = none })
  later :
      {p : String} {ps : List String} {g : FormatFunc} {e : Error} {r : Formatted}
      → lookup p reg ≡ some g
      → g body ≡ inl e
      → Picks reg body ps r
      → Picks reg body (p ∷ ps) r

found :
    (reg : Dict FormatFunc) (p : String)
    → has p reg ≡ true
    → (g : FormatFunc) × (lookup p reg ≡ some g)
found reg p h = elim (Option-cases (lookup p reg)) [ inl e ↦ cc (rw (e, has) at h) | inr x ↦ x ]

module _ (reg : Dict FormatFunc) (body : String)
    (texts : lookup "text" reg ≡ some format_text) where
  refuses-ne-text :
      (p : String) (g : FormatFunc) (e : Error)
      → lookup p reg ≡ some g
      → g body ≡ inl e
      → (p == "text") ≡ false
  unfolding format_text
  refuses-ne-text p g e found refused = elim (Bool-cases (p == "text")) [
    | inl h ↦
        let same : p ≡ "text" = (eq_iff p "text").0 h in
        let text_takes : format_text body ≡ inr (str body) = refl in cc
    | inr h ↦ h
  ]

  format_parts-Picks :
      (ps : List String) (acc : Formatted)
      → All (IsKnown reg) ps
      → contains ps "text" ≡ true
      → Picks reg body ps (format_parts reg body ps acc)
  unfolding format_parts
  format_parts-Picks [] acc known h = cc
  format_parts-Picks (p ∷ ps) acc known h =
      let (g, e) = found reg p known.0 in
      elim (Sum-cases (g body)) [
        | inl (x, refused) ↦
            rw (e, refused, format_parts)
              (later e refused
                (format_parts-Picks ps _ known.1 (ground (arith, refuses-ne-text p g x e refused))))
        | inr (v, taken) ↦ rw (e, taken, format_parts) (here e taken)
      ]

Picks-error :
    {reg : Dict FormatFunc} {body : String} {ps : List String} {r : Formatted}
    → Picks reg body ps r
    → r.error ≡ none
Picks-error (here f t) = refl
Picks-error (later f t rest) = Picks-error rest

-- With a format that `VerifyFormat` returned, and "text" registered as `FormatText`, `Format` finds a
-- formatter for every body: the result is that of the first part that takes the body, and there is
-- no error.
pub format-verify_format :
    (reg : Dict FormatFunc) (f r body : String)
    → lookup "text" reg ≡ some format_text
    → verify_format reg f ≡ ok r
    → Picks reg body (split formats_delimiter r) (format reg body r)
      × ((format reg body r).error ≡ none)
unfolding format
format-verify_format reg f r body texts h =
    let parts = nonempty (split formats_delimiter f) in
    let split_r = split-verify_format reg f r h in
    let text_known : has "text" reg ≡ true = rw (texts, has) in
    let known : All (IsKnown reg) (with_text parts) =
      with_text-All (IsKnown reg) parts ((verify_format_iff reg f r).0 h).0 text_known in
    let picks =
      format_parts-Picks reg body texts (split formats_delimiter r)
        (record { value = null; format = ""; error = none }) (rw split_r known)
        (rw split_r (contains-with_text parts)) in
    (picks, Picks-error picks)
