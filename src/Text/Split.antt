-- ===== src/Text/Split.antt =====
-- Laws of `split`, `split_two` and `join`.
use Prim.Native.String.{[], ◌∷◌}
use text.Mathlib.TextEquality.{Char-path}
use text.Mathlib.TextLemmas.{cons-append, nil-append}
use goexpose.Common.{
  All, Bool-cases, Char, List, [], String, arith, code, false, inl, inr, true, ◌≡◌, ◌≢◌, ◌∷◌, ◌<>◌,
  ◌=ℕ◌, ◌⊎◌, refl, ap, if◌then◌else◌,
}
use goexpose.Text.{join, onto_first, split, split_two}

-- The text has no separator.
abbrev pub Lacks : Char → String → Type 0
Lacks sep [] = Unit
Lacks sep (c ∷ s) = (code c ≢ code sep) × Lacks sep s

module _ (sep : Char) where
  pub split-cons : (s : String) → (p : String) × (ps : List String) × (split sep s ≡ p ∷ ps)
  unfolding split
  split-cons [] = ("", [], refl)
  split-cons (c ∷ s) =
      let (p, ps, e) = split-cons s in
      elim (Bool-cases (code c =ℕ code sep)) [
        | inl h ↦ ("", split sep s, rw h)
        | inr h ↦ (c ∷ p, ps, rw (h, e))
      ]

  join-onto_first :
      (c : Char) (p : String) (ps : List String)
      → join sep (onto_first c (p ∷ ps)) ≡ c ∷ join sep (p ∷ ps)
  unfolding join
  join-onto_first c p [] = refl
  join-onto_first c p (q ∷ ps) = cons-append c p _

  join-empty : (p : String) (ps : List String) → join sep ("" ∷ p ∷ ps) ≡ sep ∷ join sep (p ∷ ps)
  unfolding join
  join-empty p ps = nil-append _

  -- Joining the parts of a split gives the text back.
  pub join-split : (s : String) → join sep (split sep s) ≡ s
  unfolding split
  join-split [] = join_one ""
    where
      join_one : (p : String) → join sep (p ∷ []) ≡ p
      join_one p = unfold join in refl
  join-split (c ∷ s) = go (split-cons s) (join-split s) (Bool-cases (code c =ℕ code sep))
    where
      go :
          ((p : String) × (ps : List String) × (split sep s ≡ p ∷ ps))
          → join sep (split sep s) ≡ s
          → ((code c =ℕ code sep) ≡ true) ⊎ ((code c =ℕ code sep) ≡ false)
          → join sep (split sep (c ∷ s)) ≡ c ∷ s
      go (p, ps, e) ih (inl h) = rw (h, e, join-empty p ps, ← e, ih, Char-path c sep (ground arith))
      go (p, ps, e) ih (inr h) = rw (h, e, join-onto_first c p ps, ← e, ih)

  -- The parts of a split have no separator.
  pub split-Lacks : (s : String) → All (Lacks sep) (split sep s)
  unfolding split
  split-Lacks [] = (tt, tt)
  split-Lacks (c ∷ s) = go (split sep s) (split-Lacks s) (Bool-cases (code c =ℕ code sep))
    where
      go :
          (ps : List String)
          → All (Lacks sep) ps
          → ((code c =ℕ code sep) ≡ true) ⊎ ((code c =ℕ code sep) ≡ false)
          → All (Lacks sep) (if code c =ℕ code sep then "" ∷ ps else onto_first c ps)
      go ps h (inl e) = rw e (tt, h)
      go [] h (inr e) = rw e ((ground arith, tt), tt)
      go (p ∷ ps) h (inr e) = rw e ((ground arith, h.0), h.1)

  pub split_of_Lacks : (p : String) → Lacks sep p → split sep p ≡ p ∷ []
  unfolding split
  split_of_Lacks [] h = refl
  split_of_Lacks (c ∷ p) h = ground (arith, split_of_Lacks p h.1)

  pub split-append : (p s : String) → Lacks sep p → split sep (p <> (sep ∷ s)) ≡ p ∷ split sep s
  unfolding split
  split-append [] s h = rw nil-append (ground arith)
  split-append (c ∷ p) s h = rw cons-append (ground (arith, split-append p s h.1))

  -- Splitting a join gives the parts back.
  pub split-join :
      (p : String) (ps : List String)
      → All (Lacks sep) (p ∷ ps)
      → split sep (join sep (p ∷ ps)) ≡ p ∷ ps
  unfolding join
  split-join p [] h = split_of_Lacks p h.0
  split-join p (q ∷ ps) h =
      rw (split-append p (join sep (q ∷ ps)) h.0) (ap (λ r. p ∷ r) (split-join q ps h.1))

  -- Two parts: the first ends at the first separator.
  pub split_two-append : (a b : String) → Lacks sep a → split_two sep (a <> (sep ∷ b)) ≡ a ∷ b ∷ []
  unfolding split_two
  split_two-append [] b h = rw nil-append (ground arith)
  split_two-append (c ∷ a) b h = rw cons-append (ground (arith, split_two-append a b h.1))

  pub split_two_sound :
      (s a b : String) → split_two sep s ≡ a ∷ b ∷ [] → (s ≡ a <> (sep ∷ b)) × Lacks sep a
  unfolding split_two
  split_two_sound [] a b h = cc
  split_two_sound (c ∷ s) a b h =
      go (split_two sep s) (split_two_sound s) (Bool-cases (code c =ℕ code sep)) h
    where
      go :
          (ps : List String)
          → ((a' b' : String) → ps ≡ a' ∷ b' ∷ [] → (s ≡ a' <> (sep ∷ b')) × Lacks sep a')
          → ((code c =ℕ code sep) ≡ true) ⊎ ((code c =ℕ code sep) ≡ false)
          → (if code c =ℕ code sep then "" ∷ s ∷ [] else onto_first c ps) ≡ a ∷ b ∷ []
          → (c ∷ s ≡ a <> (sep ∷ b)) × Lacks sep a
      go ps ih (inl e) k =
          let k' : ◌≡◌ {A = List String} ("" ∷ s ∷ []) (a ∷ b ∷ []) = rw e at k in
          let ea : ◌≡◌ {A = String} "" a = ground arith in
          let eb : s ≡ b = ground arith in
          let same : c ≡ sep = Char-path c sep (ground arith) in
          rw (← ea, ← eb) (rw nil-append (cc), tt)
      go [] ih (inr e) k = cc
      go (p ∷ ps) ih (inr e) k =
          let k' : ◌≡◌ {A = List String} ((c ∷ p) ∷ ps) (a ∷ b ∷ []) = rw e at k in
          let ea : ◌≡◌ {A = String} (c ∷ p) a = cc in
          let later = ih p b (cc) in
          rw (← ea) (rw cons-append (ap (λ r. c ∷ r) later.0), (ground arith, later.1))
