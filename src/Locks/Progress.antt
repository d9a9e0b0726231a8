-- ===== src/Locks/Progress.antt =====
-- When goroutines that share a lock can go on.
use mathlib.Core.Path.{subst}
use goexpose.Common.{
  Bool-cases, ap, arith, inl, inr, ltb, refl, suc, sym, zero, ℕ, ◌<◌, ◌=ℕ◌, ◌∙◌, ◌≡◌, ◌≢◌, ◌⊎◌,
}
use goexpose.Dict.{Dict}
use goexpose.Locks.{
  IsBracketed, Mode, Move, Program, Reach, Shared, Step, System, Writer, absent, again, announce,
  before, enter_read, enter_write, init, inside, leave_read, leave_write, lock, look, looks,
  pending, pick, read, reads, return, returns, start, step, store, stores, tests, undone, writes,
  writing, written,
}
use goexpose.Locks.Exclusion.{Holds, Reach-Holds, depth, total}
use goexpose.Locks.Serial.{eq_of, eq_same}

-- Where some `RLock` is not undone, a goroutine has not undone it.
some_reader :
    (n : ℕ) (modes : ℕ → Mode) → 0 < total n modes → (i : ℕ) × (i < n) × (0 < depth (modes i))
some_reader zero modes h = absurd (omega arith)
some_reader (suc n) modes h = elim (Bool-cases (ltb 0 (depth (modes n)))) [
  | inl some ↦ (n, omega arith, ground arith)
  | inr none ↦
      let (i, below, reads_i) = some_reader n modes (ground arith) in (i, omega arith, reads_i)
]

module _ {F A : Type 0} where
  abbrev CanMove : ℕ → Shared F → Program F A → Type 0
  CanMove i s p = (t : Shared F) × (q : Program F A) × Move i s p t q

  writer_moves :
      (i : ℕ) (s : Shared F) {m : Mode} {p : Program F A}
      → IsBracketed 0 m p
      → m ≡ writing
      → CanMove i s p
  writer_moves i s (tests b) e = (_, _, look)
  writer_moves i s (stores b) e = (_, _, store)
  writer_moves i s (written b) e = (_, _, leave_write)
  writer_moves i s (reads b) e = cc
  writer_moves i s (writes b) e = cc
  writer_moves i s (again h b) e = cc
  writer_moves i s (undone b) e = cc
  writer_moves i s (looks b) e = cc
  writer_moves i s (read b) e = cc
  writer_moves i s returns e = cc

  reader_moves :
      (i : ℕ) (s : Shared F) {m : Mode} {p : Program F A}
      → IsBracketed 0 m p
      → 0 < depth m
      → CanMove i s p
  reader_moves i s (again h b) d = absurd (omega arith)
  reader_moves i s (undone b) d = (_, _, leave_read)
  reader_moves i s (looks b) d = (_, _, look)
  reader_moves i s (read b) d = (_, _, leave_read)
  reader_moves i s (reads b) d = absurd (omega arith)
  reader_moves i s (writes b) d = absurd (omega arith)
  reader_moves i s (tests b) d = absurd (omega arith)
  reader_moves i s (stores b) d = absurd (omega arith)
  reader_moves i s (written b) d = absurd (omega arith)
  reader_moves i s returns d = absurd (omega arith)

  -- With no writer about, every goroutine can move that has not returned.
  free_moves :
      (i : ℕ) (s : Shared F) {m : Mode} {p : Program F A}
      → IsBracketed 0 m p
      → s.writer ≡ absent
      → ((a : A) → p ≢ return a)
      → CanMove i s p
  free_moves i s (reads b) e h = (_, _, enter_read e)
  free_moves i s (writes b) e h = (_, _, announce e)
  free_moves i s (again k b) e h = absurd (omega arith)
  free_moves i s (undone b) e h = (_, _, leave_read)
  free_moves i s (looks b) e h = (_, _, look)
  free_moves i s (read b) e h = (_, _, leave_read)
  free_moves i s (tests b) e h = (_, _, look)
  free_moves i s (stores b) e h = (_, _, store)
  free_moves i s (written b) e h = (_, _, leave_write)
  free_moves i s (returns {a = a}) e h = absurd (h a refl)

  -- A goroutine whose `Lock` waits is in this call.
  abbrev Waiting : System F A → Type 0
  Waiting s = (j : ℕ) → s.shared.writer ≡ pending j → (p : Program F A) × (s.program j ≡ lock p)

  Move-Waiting :
      (i : ℕ) (s t : Shared F) (p q : Program F A) (j : ℕ)
      → Move i s p t q
      → t.writer ≡ pending j
      → ((j ≡ i) × ((p' : Program F A) × (q ≡ lock p')))
        ⊎ ((s.writer ≡ pending j) × ((p' : Program F A) → p ≢ lock p'))
  Move-Waiting i s _ _ _ j (enter_read e) h = inr (h, λ p' k. cc)
  Move-Waiting i s _ _ _ j leave_read h = inr (h, λ p' k. cc)
  Move-Waiting i s _ _ _ j (announce {p} e) h = inl (ground arith, (p, refl))
  Move-Waiting i s _ _ _ j (enter_write e r) h = cc
  Move-Waiting i s _ _ _ j leave_write h = cc
  Move-Waiting i s _ _ _ j look h = inr (h, λ p' k. cc)
  Move-Waiting i s t p q j store h = inr (h, λ p' k. cc)

  Step-Waiting : {n : ℕ} {s u : System F A} → Waiting s → Step n s u → Waiting u
  Step-Waiting {s = s} w (pick i {t} {p} below mv) j h =
      elim (Move-Waiting i s.shared t (s.program i) p j mv h) [
        | inl (same, (p', e)) ↦ (p', rw (same, eq_same i) e)
        | inr (old, not_lock) ↦ elim (Bool-cases (i =ℕ j)) [
          | inl same ↦ let (p', e) = w j old in absurd (not_lock p' (ap s.program (eq_of same) ∙ e))
          | inr other ↦ let (p', e) = w j old in (p', rw other e)
        ]
      ]

  Reach-Waiting :
      {n : ℕ} {entries : Dict F} {ps : ℕ → Program F A} {s : System F A}
      → Reach n (init entries ps) s
      → Waiting s
  Reach-Waiting start = λ j h. cc
  Reach-Waiting (step reached st) = Step-Waiting (Reach-Waiting reached) st

  abbrev CanStep : ℕ → System F A → Type 0
  CanStep n s = (i : ℕ) × (i < n) × CanMove i s.shared (s.program i)

  writer_steps :
      {n : ℕ} {s : System F A} {modes : ℕ → Mode}
      → Holds 0 n s.shared s.program modes
      → Waiting s
      → (i : ℕ) → i < n
      → ((a : A) → s.program i ≢ return a)
      → (w : Writer) → s.shared.writer ≡ w
      → CanStep n s
  writer_steps {s = s} {modes} holds waiting i below busy absent e =
      (i, below, free_moves i s.shared (holds.bracketed i) e busy)
  writer_steps {s = s} {modes} holds waiting i below busy (inside j) e =
      let (writes_j, _) = holds.alone j e in
      (
        j,
        holds.begun j (λ h. cc (writes_j, h)),
        writer_moves j s.shared (holds.bracketed j) writes_j,
      )
  writer_steps {n} {s} {modes} holds waiting i below busy (pending j) e =
      let (p, at_lock) = waiting j e in
      let (_, below_j) = holds.waits j e in
      elim (Bool-cases (ltb 0 (total n modes))) [
        | inl some ↦
            let (k, below_k, reads_k) = some_reader n modes (ground arith) in
            (k, below_k, reader_moves k s.shared (holds.bracketed k) reads_k)
        | inr none ↦
            let empty : s.shared.readers ≡ 0 = ground (arith, holds.counted) in
            (j, below_j, subst (CanMove j s.shared) (sym at_lock) (_, _, enter_write e empty))
      ]

-- No deadlock: among goroutines that keep to the lock's rules and never call `RLock` while they
-- have it, in every state that they reach, one can make a step unless all of them have returned.
pub no_deadlock :
    {F A : Type 0} (n : ℕ) (entries : Dict F) (ps : ℕ → Program F A) (s : System F A) (i : ℕ)
    → ((k : ℕ) → IsBracketed 0 before (ps k))
    → Reach n (init entries ps) s
    → i < n
    → ((a : A) → s.program i ≢ return a)
    → (t : System F A) × Step n s t
no_deadlock n entries ps s i b reached below busy =
    let (modes, holds) = Reach-Holds 0 b reached in
    let (k, below_k, can) =
      writer_steps holds (Reach-Waiting reached) i below busy s.shared.writer refl in
    let (_, _, mv) = can in (_, pick k below_k mv)
