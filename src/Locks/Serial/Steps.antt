-- ===== src/Locks/Serial/Steps.antt =====
-- Every move of a goroutine keeps the order, and the map at its end.
use mathlib.Core.Path.{subst}
use goexpose.Common.{
  Bool-cases, List, [], arith, ap, inl, inr, refl, sym, update, ℕ, ◌<◌, ◌=ℕ◌, ◌∙◌, ◌≡◌, ◌≢◌, ◌∷◌,
  false, ◌⊎◌,
}
use goexpose.Dict.{Dict, lookup}
use goexpose.Locks.{
  IsBracketed, Mode, Move, Program, Reach, Shared, System, Writer, absent, again, announce, before,
  done, enter_read, enter_write, init, inside, leave_read, leave_write, look, looks, pending, pick,
  read, reading, reads, returns, run_alone, start, step, store, stores, tests, undone, writes,
  writing, written,
}
use goexpose.Locks.Exclusion.{
  Holds, init-Holds, Move-Shift, Shift, Shift-Holds, admitted, announces, changes, depth, enters,
  leaves, left, stays, total_zero,
}
use goexpose.Locks.Serial.{Serial, change, enter, eq_of, eq_same, keep, left_by, replay, wait}

before_or : (m : Mode) → (m ≡ before) ⊎ (m ≢ before)
before_or before = inl refl
before_or writing = inr (λ h. cc)
before_or done = inr (λ h. cc)
before_or (reading d) = inr (λ h. cc)

module _ {F A : Type 0} (entries : Dict F) (ps : ℕ → Program F A) where
  Move-runs :
      (i : ℕ) (s t : Shared F) (p q : Program F A)
      → Move i s p t q
      → run_alone q t.entries ≡ run_alone p s.entries
  Move-runs i s _ _ _ (enter_read e) = refl
  Move-runs i s _ _ _ leave_read = refl
  Move-runs i s _ _ _ (announce e) = refl
  Move-runs i s _ _ _ (enter_write e r) = refl
  Move-runs i s _ _ _ leave_write = refl
  Move-runs i s _ _ _ look = refl
  Move-runs i s _ _ _ store = refl

  module _ (nested : ℕ) where
    begin_runs :
        (i : ℕ) (s t : Shared F) (p q : Program F A)
        → IsBracketed nested before p
        → Move i s p t q
        → (m : Dict F) → run_alone q m ≡ run_alone p m
    begin_runs i s _ _ _ (reads b) (enter_read e) m = refl
    begin_runs i s _ _ _ (writes b) (announce e) m = refl
    begin_runs i s _ _ _ (writes b) (enter_write e r) m = refl

    -- A reader leaves the map as it is.
    reading_leaves :
        {mode : Mode} {p : Program F A} (m : Dict F)
        → IsBracketed nested mode p
        → 0 < depth mode
        → (run_alone p m).1 ≡ m
    reading_leaves m (again h b) d = reading_leaves m b (omega arith)
    reading_leaves m (undone b) d = reading_leaves m b (omega arith)
    reading_leaves m (looks {id = id} b) d = reading_leaves m (b (lookup id m)) d
    reading_leaves m (read returns) d = refl
    reading_leaves m (reads b) d = absurd (omega arith)
    reading_leaves m (writes b) d = absurd (omega arith)
    reading_leaves m (tests b) d = absurd (omega arith)
    reading_leaves m (stores b) d = absurd (omega arith)
    reading_leaves m (written b) d = absurd (omega arith)
    reading_leaves m returns d = absurd (omega arith)

    done_runs :
        {p : Program F A} (m m' : Dict F)
        → IsBracketed nested done p
        → run_alone p m ≡ ((run_alone p m').0, m)
    done_runs m m' returns = refl

    left_same :
        (w : Writer) (m : Dict F) (program : ℕ → Program F A) (i : ℕ) (q : Program F A)
        → run_alone q m ≡ run_alone (program i) m
        → left_by entries ps w m (update program i q) ≡ left_by entries ps w m program
    left_same absent m program i q e = refl
    left_same (pending j) m program i q e = refl
    left_same (inside j) m program i q e = elim (Bool-cases (i =ℕ j)) [
      | inl same ↦
          rw (left_by, same) (ap (λ o. o.1) e ∙ ap (λ k. (run_alone (program k) m).1) (eq_of same))
      | inr other ↦ rw (left_by, other) refl
    ]

    module _ {n : ℕ} {order : List ℕ} {s : Shared F} {program : ℕ → Program F A} {modes : ℕ → Mode}
        (holds : Holds nested n s program modes) (inv : Serial entries ps order s program modes)
        (i : ℕ) where
      -- While the goroutine `i` writes, what the others still do does not depend on the map.
      others_done :
          modes i ≡ writing
          → (j : ℕ) → (i =ℕ j) ≡ false
          → modes j ≢ before
          → (m m' : Dict F) → (run_alone (program j) m).0 ≡ (run_alone (program j) m').0
      others_done e j other begun m m' = go (modes j) refl (holds.bracketed j)
        where
          writer : s.writer ≡ inside i
          writer = holds.held i e

          go :
              (mode : Mode)
              → modes j ≡ mode
              → IsBracketed nested mode (program j)
              → (run_alone (program j) m).0 ≡ (run_alone (program j) m').0
          go before at b = absurd (begun at)
          go done at b = ap (λ o. o.0) (done_runs m m' b)
          go writing at b = ground (arith, holds.held j at, writer)
          go (reading d) at b =
              let none : depth (modes j) ≡ 0 =
                total_zero n modes j (sym holds.counted ∙ (holds.alone i writer).1)
                  (holds.begun j begun) in
              absurd (omega (arith, rw at at none))

      settled_as :
          {w : Writer}
          → s.writer ≡ w
          → left_by entries ps w s.entries program ≡ replay entries ps order
      settled_as e = ap (λ w. left_by entries ps w s.entries program) (sym e) ∙ inv.settled

      settled_kept :
          (q : Program F A)
          → run_alone q s.entries ≡ run_alone (program i) s.entries
          → left_by entries ps s.writer s.entries (update program i q) ≡ replay entries ps order
      settled_kept q e = left_same s.writer s.entries program i q e ∙ inv.settled

      runs_all :
          {t : Shared F} {q : Program F A}
          → modes i ≡ before
          → Move i s (program i) t q
          → (m : Dict F) → run_alone q m ≡ run_alone (program i) m
      runs_all e mv =
          begin_runs i s _ (program i) _
            (subst (λ m. IsBracketed nested m (program i)) e (holds.bracketed i)) mv

      entered :
          {t : Shared F} {q : Program F A}
          → modes i ≡ before
          → Move i s (program i) t q
          → (run_alone q (replay entries ps order)).1
            ≡ (run_alone (ps i) (replay entries ps order)).1
      entered e mv =
          ap (λ o. o.1) (runs_all e mv (replay entries ps order))
          ∙ ap (λ p. (run_alone p (replay entries ps order)).1) (inv.fresh i e).0

      written_now :
          {t : Shared F} {q : Program F A}
          → modes i ≡ writing
          → Move i s (program i) t q
          → (run_alone q t.entries).1 ≡ replay entries ps order
      written_now {t} {q} e mv =
          ap (λ o. o.1) (Move-runs i s t (program i) q mv) ∙ settled_as (holds.held i e)

      inside_now :
          (m : Dict F) (q : Program F A)
          → left_by entries ps (inside i) m (update program i q) ≡ (run_alone q m).1
      inside_now m q = rw (left_by, eq_same i) refl

      Shift-Serial :
          (m m' : Mode) (t : Shared F) (q : Program F A)
          → modes i ≡ m
          → Shift i s m t m'
          → IsBracketed nested m' q
          → (m' ≡ before → q ≡ program i)
          → Move i s (program i) t q
          → (order' : List ℕ) × Serial entries ps order' t (update program i q) (update modes i m')
      Shift-Serial m _ _ q e (enters {d = d} de nw ab) b still mv = elim (before_or m) [
        | inl first ↦ (
          i ∷ order,
          enter entries ps inv i _ q (reading d) refl (settled_as ab) (runs_all (e ∙ first) mv)
              (e ∙ first) (λ h. cc)
              (ap (λ w. left_by entries ps w s.entries (update program i q)) ab
                ∙ settled_as ab
                ∙ sym (reading_leaves (replay entries ps order) b (omega arith))
                ∙ entered (e ∙ first) mv),
        )
        | inr begun ↦ (
          order,
          keep entries ps inv i _ q (reading d) refl (Move-runs i s _ (program i) q mv)
              (λ h. begun (sym e ∙ h)) (λ h. cc)
              (settled_kept q (Move-runs i s _ (program i) q mv)),
        )
      ]
      Shift-Serial _ m' _ q e (leaves {d = d} de nw nb) b still mv = (
        order,
        keep entries ps inv i _ q m' refl (Move-runs i s _ (program i) q mv) (λ h. cc (e, h)) nb
            (settled_kept q (Move-runs i s _ (program i) q mv)),
      )
      Shift-Serial _ _ _ q e (announces ab) b still mv =
          (order, wait entries ps inv i _ q refl (still refl) e (settled_as ab))
      Shift-Serial _ _ _ q e (admitted p r) b still mv = (
        i ∷ order,
        enter entries ps inv i _ q writing refl (settled_as p) (runs_all e mv) e (λ h. cc)
            (inside_now s.entries q ∙ ap (λ m. (run_alone q m).1) (settled_as p) ∙ entered e mv),
      )
      Shift-Serial _ _ _ q e left b still mv = (
        order,
        keep entries ps inv i _ q done refl (Move-runs i s _ (program i) q mv) (λ h. cc (e, h))
            (λ h. cc) (ap (λ o. o.1) (sym (done_runs s.entries s.entries b)) ∙ written_now e mv),
      )
      Shift-Serial m _ _ q e (stays nb) b still mv = (
        order,
        keep entries ps inv i s q m refl (Move-runs i s s (program i) q mv) (λ h. nb (sym e ∙ h)) nb
            (settled_kept q (Move-runs i s _ (program i) q mv)),
      )
      Shift-Serial _ _ _ q e (changes {entries = es}) b still mv = (
        order,
        change entries ps inv i _ q writing (Move-runs i s _ (program i) q mv) (λ h. cc (e, h))
            (λ h. cc) (λ j other begun. others_done e j other begun es s.entries)
            (ap (λ w. left_by entries ps w es (update program i q)) (holds.held i e)
              ∙ inside_now es q
              ∙ written_now e mv),
      )

    init-Serial :
        Serial entries ps []
          (record { writer = absent; readers = 0; entries = entries })
          ps
          (λ i. before)
    init-Serial = record {
      fresh = λ i h. (refl, λ earlier at. elim at [ ]);
      taken = λ i h. absurd (h refl);
      once = λ i e e' at at'. elim at [ ];
      told = λ i earlier at. elim at [ ];
      settled = refl;
    }

    pub Reach-Serial :
        {n : ℕ} {s : System F A}
        → ((i : ℕ) → IsBracketed nested before (ps i))
        → Reach n (init entries ps) s
        → (modes : ℕ → Mode) × Holds nested n s.shared s.program modes
          × (order : List ℕ) × Serial entries ps order s.shared s.program modes
    Reach-Serial b start = (λ i. before, init-Holds nested entries b, [], init-Serial)
    Reach-Serial b (step {s = s} reached (pick i {t} {p} below mv)) =
        let (modes, holds, order, inv) = Reach-Serial b reached in
        let (m, bracketed, sh, still) =
          Move-Shift nested i (modes i) s.shared (s.program i) (holds.bracketed i) t p mv in
        let (order', inv') = Shift-Serial holds inv i (modes i) m t p refl sh bracketed still mv in
        (update modes i m, Shift-Holds nested holds i below bracketed sh, order', inv')
