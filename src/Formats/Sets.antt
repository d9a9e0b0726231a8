-- ===== src/Formats/Sets.antt =====
-- `HasFormat` and `AddFormat` read a format as a list of names.
use text.Mathlib.TextLemmas.{append_assoc, cons-append, nil-append, append-nil}
use goexpose.Common.{
  Bool-cases, String, arith, contains, eq_iff, eq_refl, false, inl, inr, true, ◌<>◌, ◌==◌, ◌≡◌,
  ◌||◌, ◌∷◌,
}
use goexpose.Text.{split}
use goexpose.Text.Split.{Lacks, split-append, split_of_Lacks}
use goexpose.Formats.{add_format, formats_delimiter, has_format}

split-add :
    (f id : String)
    → Lacks formats_delimiter id
    → split formats_delimiter ((id <> "|") <> f) ≡ id ∷ split formats_delimiter f
split-add f id h =
    rw (append_assoc id "|" f, cons-append, nil-append) (split-append formats_delimiter id f h)

listed :
    (f id name : String)
    → contains (split formats_delimiter f) id ≡ true
    → contains (split formats_delimiter f) name
      ≡ (id == name || contains (split formats_delimiter f) name)
listed f id name e = elim (Bool-cases (id == name)) [
  | inl same ↦ rw (same, ← (eq_iff id name).0 same) e
  | inr other ↦ rw other
]

alone :
    (id name : String)
    → (name == "") ≡ false
    → (id == name || false) ≡ (id == name || contains (split formats_delimiter "") name)
unfolding split
alone id name n = ground (arith, eq_iff name "", eq_iff "" name)

-- After `AddFormat` of a name without a delimiter, a name that is not empty is there exactly if it was
-- there before or is the one that was added.
pub has_format-add_format :
    (f id name : String)
    → Lacks formats_delimiter id
    → (name == "") ≡ false
    → has_format (add_format f id) name ≡ (id == name || has_format f name)
unfolding has_format add_format
has_format-add_format f id name h n = elim (Bool-cases (contains (split formats_delimiter f) id)) [
  | inl e ↦ rw e (listed f id name e)
  | inr e ↦ elim (Bool-cases (f == "")) [
    | inl empty ↦
        rw (e, empty, (eq_iff f "").0 empty, append-nil id, split_of_Lacks formats_delimiter id h)
          (alone id name n)
    | inr more ↦ rw (e, more, split-add f id h)
  ]
]

listed_already : (f id : String) → has_format f id ≡ true → add_format f id ≡ f
unfolding has_format add_format
listed_already f id h = rw h

-- Adding a name that is not empty and has no delimiter a second time changes nothing.
pub add_format_idem :
    (f id : String)
    → Lacks formats_delimiter id
    → (id == "") ≡ false
    → add_format (add_format f id) id ≡ add_format f id
add_format_idem f id h n =
    listed_already (add_format f id) id (rw (has_format-add_format f id id h n, eq_refl id))
