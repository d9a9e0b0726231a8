-- ===== src/Locks/Exclusion/Race.antt =====
-- Two goroutines at the same map.
use mathlib.Core.Path.{subst}
use goexpose.Common.{String, arith, inl, inr, refl, ℕ, ◌<◌, ◌≡◌, Option, ◌⊎◌}
use goexpose.Dict.{Dict}
use goexpose.Locks.{
  IsBracketed, Mode, Program, Reach, Shared, System, before, get, init, put, looks, stores, tests,
  writing,
}
use goexpose.Locks.Exclusion.{Holds, Reach-Holds, depth, total_zero}

-- A goroutine that is about to use the map.
pub data Uses {F A : Type 0} : Program F A → Type 0 where
  by_get : {id : String} {k : Option F → Program F A} → Uses (get id k)
  by_put : {id : String} {f : F} {p : Program F A} → Uses (put id f p)

module _ {F A : Type 0} {nested n : ℕ} {s : Shared F} {program : ℕ → Program F A} {modes : ℕ → Mode}
    (inv : Holds nested n s program modes) where
  put_writes :
      (m : Mode) {id : String} {f : F} {p : Program F A}
      → IsBracketed nested m (put id f p)
      → m ≡ writing
  put_writes _ (stores b) = refl

  Uses-inside :
      (m : Mode) {p : Program F A} → Uses p → IsBracketed nested m p → (m ≡ writing) ⊎ (0 < depth m)
  Uses-inside _ by_get (looks b) = inr (omega arith)
  Uses-inside _ by_get (tests b) = inl refl
  Uses-inside _ by_put (stores b) = inl refl

  pub Holds-alone :
      {i j : ℕ} {id : String} {f : F} {p : Program F A}
      → program i ≡ put id f p
      → j < n
      → Uses (program j)
      → j ≡ i
  Holds-alone {i} {j} e below use_j =
      let writer =
        inv.held i
          (put_writes (modes i) (subst (IsBracketed nested (modes i)) e (inv.bracketed i))) in
      elim (Uses-inside (modes j) use_j (inv.bracketed j)) [
        | inl w ↦ ground (arith, inv.held j w, writer)
        | inr reads_j ↦
            absurd (omega (arith, total_zero n modes j, inv.counted, inv.alone i writer))
      ]

-- No data race: of goroutines with programs that keep to the lock's rules, in every state that they
-- reach, where one is about to change the map, no other one is about to use it.
pub no_race :
    {F A : Type 0} (nested n : ℕ) (entries : Dict F) (ps : ℕ → Program F A) (s : System F A)
    (i j : ℕ) (id : String) (f : F) (p : Program F A)
    → ((k : ℕ) → IsBracketed nested before (ps k))
    → Reach n (init entries ps) s
    → s.program i ≡ put id f p
    → j < n
    → Uses (s.program j)
    → j ≡ i
no_race nested n entries ps s i j id f p b reached e below use_j =
    Holds-alone (Reach-Holds nested b reached).1 e below use_j
