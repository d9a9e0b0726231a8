-- ===== src/Registry/Laws.antt =====
-- registry.go: what registrations leave in a registry.
use goexpose.Common.{
  All, All-map, eq_refl, ◌<>◌, ◌⊎◌, Bool-cases, [], String, arith, eq_iff, false, inl, inr, ok,
  panic, some, true, ◌==◌, ◌≡◌, ◌∷◌,
}
use goexpose.Dict.{Dict, has, insert, lookup, lookup-insert}
use goexpose.Registry.{get_task_factory, register, register_all, register_task_factory}

module _ {ℓ} {F : Type ℓ} where
  kept-insert :
      (id k : String) (f v : F) (reg : Dict F)
      → has id reg ≡ false
      → lookup k reg ≡ some v
      → lookup k (insert id f reg) ≡ some v
  kept-insert id k f v reg free e = elim (Bool-cases (id == k)) [
    | inl same ↦ cc (rw ((eq_iff id k).0 same, e, has) at free)
    | inr other ↦ rw (lookup-insert id k f reg, other) e
  ]

  -- What a sequence of registrations keeps and what it adds.
  record Fills (fs reg reg' : Dict F) : Type ℓ where
    kept : (k : String) (v : F) → lookup k reg ≡ some v → lookup k reg' ≡ some v
    added : All (λ entry. lookup entry.0 reg' ≡ some entry.1) fs

  register_all-Fills :
      (message : String → String) (fs reg reg' : Dict F)
      → register_all message fs reg ≡ ok reg'
      → Fills fs reg reg'
  unfolding register_all
  register_all-Fills message [] reg reg' h = record { kept = λ k v e. ground (arith); added = tt }
  register_all-Fills message ((id, f) ∷ rest) reg reg' h =
      go (Bool-cases (has id reg)) (register_all-Fills message rest (insert id f reg) reg')
    where
      go :
          ((has id reg ≡ true) ⊎ (has id reg ≡ false))
          → (register_all message rest (insert id f reg) ≡ ok reg'
              → Fills rest (insert id f reg) reg')
          → Fills ((id, f) ∷ rest) reg reg'
      go (inl taken) ih = cc (rw (taken, register) at h)
      go (inr free) ih =
          let fills = ih (rw (free, register) at h) in
          record {
            kept = λ k v e. fills.kept k v (kept-insert id k f v reg free e);
            added = (fills.kept id f (rw (lookup-insert id id f reg, eq_refl id)), fills.added);
          }

-- Once the `init` calls have returned, each name that they registered has its own factory, and a
-- second registration of it panics.
pub register_all-get_task_factory {ℓ} :
    {F : Type ℓ} (message : String → String) (fs reg : Dict F)
    → register_all message fs [] ≡ ok reg
    → All
        (λ entry.
          (get_task_factory entry.0 reg ≡ some entry.1)
          × ((g : F)
              → register_task_factory entry.0 g reg
                ≡ panic ("task factory " <> entry.0 <> " already exists")))
        fs
unfolding get_task_factory register_task_factory
register_all-get_task_factory message fs reg h =
    All-map _ _ fs (λ entry e. (e, λ g. rw (e, has))) (register_all-Fills message fs [] reg h).added
