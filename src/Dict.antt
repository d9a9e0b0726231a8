-- ===== src/Dict.antt =====
-- Go maps with string keys, as association lists: the order of the list is the order in which a
-- `range` loop visits the keys, which Go leaves open.
use mathlib.Core.Option.{some-injective}
use goexpose.Common.{
  eq_refl, Bool-cases, inl, inr, ◌⊎◌, Bool, List, [], Option, String, arith, eq_iff, none, some,
  ◌∷◌, ◌≡◌, ◌==◌, refl, false, true, if◌then◌else◌,
}

abbrev pub Dict {ℓ} : Type ℓ → Type ℓ
Dict V = List (String × V)

module _ {ℓ} {V : Type ℓ} where
  -- `m[k]`, with its second result
  unfoldable pub lookup : String → Dict V → Option V
  lookup k [] = none
  lookup k ((j, v) ∷ m) = if j == k then some v else lookup k m

  -- `m[k] = v`
  unfoldable pub insert : String → V → Dict V → Dict V
  insert k v [] = (k, v) ∷ []
  insert k v ((j, w) ∷ m) = if j == k then (k, v) ∷ m else (j, w) ∷ insert k v m

  -- `delete(m, k)`
  unfoldable pub delete : String → Dict V → Dict V
  delete k [] = []
  delete k ((j, v) ∷ m) = let rest = delete k m in if j == k then rest else (j, v) ∷ rest

  -- `_, ok := m[k]`
  abbrev pub has : String → Dict V → Bool
  has k m = elim (lookup k m) [ none ↦ false | some v ↦ true ]

  pub lookup-insert :
      (written read : String) (v : V) (d : Dict V)
      → lookup read (insert written v d) ≡ (if written == read then some v else lookup read d)
  unfolding lookup insert
  lookup-insert written read v [] = refl
  lookup-insert written read v ((key, w) ∷ rest) = ground (
    arith,
    eq_iff key written,
    eq_iff key read,
    eq_iff written read,
    lookup-insert written read v rest,
  )

  pub lookup-delete :
      (k j : String) (m : Dict V) → lookup j (delete k m) ≡ (if k == j then none else lookup j m)
  unfolding lookup delete
  lookup-delete k j [] = ground arith
  lookup-delete k j ((i, w) ∷ m) =
      ground (arith, eq_iff i k, eq_iff k j, eq_iff i j, lookup-delete k j m)

module _ {ℓ} {V : Type ℓ} where
  -- Where a value found after a write comes from.
  pub insert_cases :
      (k j : String) (w v : V) (m : Dict V)
      → lookup j (insert k w m) ≡ some v
      → ((k ≡ j) × (w ≡ v)) ⊎ (lookup j m ≡ some v)
  insert_cases k j w v m h = elim (Bool-cases (k == j)) [
    | inl e ↦ inl ((eq_iff k j).0 e, some-injective w v (rw (lookup-insert k j w m, e) at h))
    | inr e ↦ inr (rw (lookup-insert k j w m, e) at h)
  ]

module _ {ℓ} {V : Type ℓ} where
  pub has-insert_self : (k : String) (v : V) (m : Dict V) → has k (insert k v m) ≡ true
  has-insert_self k v m = ground (arith, lookup-insert k k v m, eq_refl k)

  pub has-insert_kept :
      (k j : String) (v : V) (m : Dict V) → has j m ≡ true → has j (insert k v m) ≡ true
  has-insert_kept k j v m h = ground (arith, lookup-insert k j v m)

pub has_inverse {ℓ} :
    {V : Type ℓ} (k : String) (m : Dict V) → has k m ≡ true → (v : V) × (lookup k m ≡ some v)
has_inverse k m h = go (lookup k m) h
  where
    go :
        {V : Type ℓ} (o : Option V)
        → (elim o as (λ _. Bool) [ none ↦ false | some v ↦ true ]) ≡ true
        → (v : V) × (o ≡ some v)
    go none e = cc
    go (some v) e = (v, refl)

pub lookup-nil {ℓ} : {V : Type ℓ} (k : String) → lookup {V = V} k [] ≡ none
unfolding lookup
lookup-nil k = refl

pub ruleset dict_laws = (lookup-nil, lookup-insert, lookup-delete)
