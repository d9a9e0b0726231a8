-- ===== src/Formats/Verify.antt =====
-- What `VerifyFormat` accepts and returns.
use mathlib.Core.Path.{subst}
use goexpose.Common.{
  contains-append, All, All-append, Bool, Bool-cases, List, [], String, arith, contains, false,
  if◌then◌else◌, inl, inr, ok, true, ◌++◌, ◌==◌, ◌≡◌, ◌||◌, ◌∷◌, ◌↔◌, append_assoc, append-nil,
  refl, >>=-eq-ok, ap,
}
use goexpose.Dict.{Dict, has}
use goexpose.Text.{join, split}
use goexpose.Text.Split.{Lacks, split-join, split-Lacks}
use goexpose.Formats.{FormatFunc, formats_delimiter, verify_format, verify_parts}

-- The parts that are not empty.
pub nonempty : List String → List String
nonempty [] = []
nonempty (p ∷ ps) = if p == "" then nonempty ps else p ∷ nonempty ps

-- The same parts with "text" behind them where it is missing.
pub with_text : List String → List String
with_text ps = if contains ps "text" then ps else ps ++ "text" ∷ []

module _ (reg : Dict FormatFunc) where
  abbrev pub IsKnown : String → Type 0
  IsKnown p = has p reg ≡ true

  verify_parts_complete :
      (ps ff : List String) (found : Bool)
      → All IsKnown (nonempty ps)
      → verify_parts reg ps ff found
        ≡ ok (ff ++ nonempty ps, found || contains (nonempty ps) "text")
  unfolding verify_parts nonempty
  verify_parts_complete [] ff found h = ground (arith, append-nil ff)
  verify_parts_complete (p ∷ ps) ff found h = elim (Bool-cases (p == "")) [
    | inl e ↦ rw e (verify_parts_complete ps ff found (rw e at h))
    | inr e ↦
        let h' : IsKnown p × All IsKnown (nonempty ps) = rw e at h in
        ground (
          arith,
          h'.0,
          verify_parts_complete ps (ff ++ p ∷ []) (found || p == "text") h'.1,
          append_assoc ff (p ∷ []) (nonempty ps),
        )
  ]

  verify_parts_sound :
      (ps ff : List String) (found : Bool) (x : List String × Bool)
      → verify_parts reg ps ff found ≡ ok x
      → All IsKnown (nonempty ps)
  unfolding verify_parts nonempty
  verify_parts_sound [] ff found x h = tt
  verify_parts_sound (p ∷ ps) ff found x h = elim (Bool-cases (p == "")) [
    | inl e ↦ rw e (verify_parts_sound ps ff found x (rw e at h))
    | inr e ↦ elim (Bool-cases (has p reg)) [
      | inl known ↦
          rw e (known, verify_parts_sound ps (ff ++ p ∷ []) (found || p == "text") x (ground arith))
      | inr unknown ↦ ground arith
    ]
  ]

-- `VerifyFormat` accepts a format exactly when each part that is not empty is registered, and then
-- returns these parts in their order, with "text" behind them where it is missing.
pub verify_format_iff :
    (reg : Dict FormatFunc) (f r : String)
    → (verify_format reg f ≡ ok r) ↔ (
        All (IsKnown reg) (nonempty (split formats_delimiter f))
        × (r ≡ join formats_delimiter (with_text (nonempty (split formats_delimiter f)))))
unfolding verify_format with_text
verify_format_iff reg f r =
    let ps = split formats_delimiter f in
    (
      λ h.
          let (x, e, _) = >>=-eq-ok (verify_parts reg ps [] false) _ h in
          let known = verify_parts_sound reg ps [] false x e in
          (known, ground (arith, verify_parts_complete reg ps [] false known)),
      λ (known, e). ground (arith, verify_parts_complete reg ps [] false known),
    )

nonempty-Lacks :
    (ps : List String)
    → All (Lacks formats_delimiter) ps
    → All (Lacks formats_delimiter) (nonempty ps)
unfolding nonempty
nonempty-Lacks [] h = tt
nonempty-Lacks (p ∷ ps) h = ground (arith, nonempty-Lacks ps h.1)

pub contains-with_text : (ps : List String) → contains (with_text ps) "text" ≡ true
unfolding with_text
contains-with_text ps = elim (Bool-cases (contains ps "text")) [
  | inl e ↦ rw e e
  | inr e ↦ rw (e, contains-append ps ("text" ∷ []) "text", e)
]

with_text-cons : (ps : List String) → (q : String) × (qs : List String) × (with_text ps ≡ q ∷ qs)
unfolding with_text
with_text-cons [] = ("text", [], refl)
with_text-cons (p ∷ ps) = elim (Bool-cases (contains (p ∷ ps) "text")) [
  | inl e ↦ (p, ps, rw e)
  | inr e ↦ (p, ps ++ "text" ∷ [], rw e)
]

-- What holds of the parts and of "text" holds of the parts with "text".
pub with_text-All :
    (P : String → Type 0) (ps : List String) → All P ps → P "text" → All P (with_text ps)
unfolding with_text
with_text-All P ps h t = elim (Bool-cases (contains ps "text")) [
  | inl e ↦ rw e h
  | inr e ↦ rw e (All-append P ps ("text" ∷ []) h (t, tt))
]

nonempty-All : (ps : List String) → All (λ p. (p == "") ≡ false) (nonempty ps)
unfolding nonempty
nonempty-All [] = tt
nonempty-All (p ∷ ps) = elim (Bool-cases (p == "")) [
  | inl e ↦ rw e (nonempty-All ps)
  | inr e ↦ rw e (e, nonempty-All ps)
]

nonempty_of_All : (ps : List String) → All (λ p. (p == "") ≡ false) ps → nonempty ps ≡ ps
unfolding nonempty
nonempty_of_All [] h = refl
nonempty_of_All (p ∷ ps) h = rw h.0 (ap (λ r. p ∷ r) (nonempty_of_All ps h.1))

-- A format that `VerifyFormat` returned splits into the parts that were kept, all of them
-- registered, and "text" is among them.
pub split-verify_format :
    (reg : Dict FormatFunc) (f r : String)
    → verify_format reg f ≡ ok r
    → split formats_delimiter r ≡ with_text (nonempty (split formats_delimiter f))
split-verify_format reg f r h =
    let ps = nonempty (split formats_delimiter f) in
    let lacks = nonempty-Lacks (split formats_delimiter f) (split-Lacks formats_delimiter f) in
    let (q, qs, k) = with_text-cons ps in
    let parts : All (Lacks formats_delimiter) (q ∷ qs) =
      subst (All (Lacks formats_delimiter)) k
        (with_text-All (Lacks formats_delimiter) ps lacks (omega arith)) in
    rw ((verify_format_iff reg f r).0 h).1 (rw k (split-join formats_delimiter q qs parts))

-- Verifying a verified format changes nothing, where "text" is registered.
pub verify_format_idem :
    (reg : Dict FormatFunc) (f r : String)
    → has "text" reg ≡ true
    → verify_format reg f ≡ ok r
    → verify_format reg r ≡ ok r
verify_format_idem reg f r t h =
    let ps = nonempty (split formats_delimiter f) in
    let (known, same) = (verify_format_iff reg f r).0 h in
    let parts = split-verify_format reg f r h in
    let kept : nonempty (with_text ps) ≡ with_text ps =
      nonempty_of_All (with_text ps)
        (with_text-All _ ps (nonempty-All (split formats_delimiter f)) refl) in
    let again : with_text (with_text ps) ≡ with_text ps =
      unfold with_text in rw (contains-with_text ps) in
    (verify_format_iff reg r r).1
      (rw (parts, kept) (with_text-All (IsKnown reg) ps known t), rw (parts, kept, again) same)
