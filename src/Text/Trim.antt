-- ===== src/Text/Trim.antt =====
-- Laws of `trim_space`.
use Prim.Native.String.{[], ◌∷◌}
use goexpose.Common.{Bool-cases, String, false, inl, inr, ◌≡◌, refl}
use goexpose.Text.{is_space, onto_trimmed, trim_left, trim_right, trim_space}

trim_right-trim_right : (s : String) → trim_right (trim_right s) ≡ trim_right s
unfolding trim_right
trim_right-trim_right [] = refl
trim_right-trim_right (c ∷ s) = again (trim_right s) (trim_right-trim_right s)
  where
    again : (t : String) → trim_right t ≡ t → trim_right (onto_trimmed c t) ≡ onto_trimmed c t
    again [] h = elim (Bool-cases (is_space c)) [ inl e ↦ rw e | inr e ↦ rw e (rw e) ]
    again (d ∷ t) h = rw h

-- A text that begins with no space, or is empty.
abbrev IsTrimmedLeft : String → Type 0
IsTrimmedLeft [] = Unit
IsTrimmedLeft (c ∷ s) = is_space c ≡ false

trim_left-IsTrimmedLeft : (s : String) → IsTrimmedLeft (trim_left s)
unfolding trim_left
trim_left-IsTrimmedLeft [] = tt
trim_left-IsTrimmedLeft (c ∷ s) = elim (Bool-cases (is_space c)) [
  | inl e ↦ rw e (trim_left-IsTrimmedLeft s)
  | inr e ↦ rw e e
]

trim_right-IsTrimmedLeft : (s : String) → IsTrimmedLeft s → IsTrimmedLeft (trim_right s)
unfolding trim_right
trim_right-IsTrimmedLeft [] h = tt
trim_right-IsTrimmedLeft (c ∷ s) h = kept (trim_right s)
  where
    kept : (t : String) → IsTrimmedLeft (onto_trimmed c t)
    kept [] = rw h h
    kept (d ∷ t) = h

trim_left_of_IsTrimmedLeft : (s : String) → IsTrimmedLeft s → trim_left s ≡ s
unfolding trim_left
trim_left_of_IsTrimmedLeft [] h = refl
trim_left_of_IsTrimmedLeft (c ∷ s) h = rw h

-- Trimming twice is trimming once.
pub trim_space_idem : (s : String) → trim_space (trim_space s) ≡ trim_space s
unfolding trim_space
trim_space_idem s =
    rw (trim_left_of_IsTrimmedLeft _ (trim_right-IsTrimmedLeft _ (trim_left-IsTrimmedLeft s)))
      (trim_right-trim_right (trim_left s))
