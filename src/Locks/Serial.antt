-- ===== src/Locks/Serial.antt =====
-- What goroutines do to a map behind its lock, against what they do to it one after the other.
pub mod Steps
pub mod Order
pub mod Atomic
use mathlib.Core.Path.{subst}
use goexpose.Common.{
  Bool-cases, List, [], arith, ap, inl, inr, refl, suc, sym, update, ℕ, ◌<◌, ◌=ℕ◌, ◌∙◌, ◌≡◌, ◌≢◌,
  ◌∷◌, true, false, ◌⊎◌,
}
use goexpose.Dict.{Dict, insert, lookup}
use goexpose.Locks.{
  IsBracketed, Mode, Move, Program, Reach, Shared, System, Writer, absent, again, announce, before,
  done, enter_read, enter_write, init, inside, leave_read, leave_write, look, looks, pending, pick,
  put, read, reading, reads, return, returns, run_alone, start, step, store, stores, tests, undone,
  writes, writing, written,
}
use goexpose.Locks.Exclusion.{
  Holds, Move-Shift, Shift, Shift-Holds, admitted, announces, changes, depth, enters, leaves, left,
  stays, total_zero,
}

-- The goroutine `i` stands in the order, and these stand before it. The last one is the first of the list.
pub data At (i : ℕ) (earlier : List ℕ) : List ℕ → Type 0 where
  here : At i earlier (i ∷ earlier)
  there : {j : ℕ} {order : List ℕ} → At i earlier order → At i earlier (j ∷ order)

At_inverse :
    {i j : ℕ} {earlier order : List ℕ}
    → At i earlier (j ∷ order)
    → ((i ≡ j) × (earlier ≡ order)) ⊎ At i earlier order
At_inverse here = inl (refl, refl)
At_inverse (there at) = inr at

pub eq_of : {i j : ℕ} → (i =ℕ j) ≡ true → i ≡ j
eq_of e = ground arith

pub eq_same : (i : ℕ) → (i =ℕ i) ≡ true
eq_same i = ground arith

module _ {F A : Type 0} (entries : Dict F) (ps : ℕ → Program F A) where
  -- The map after these goroutines, one after the other.
  abbrev pub replay : List ℕ → Dict F
  replay [] = entries
  replay (i ∷ order) = (run_alone (ps i) (replay order)).1

  -- The map that the writer leaves, if there is one.
  abbrev pub left_by : Writer → Dict F → (ℕ → Program F A) → Dict F
  left_by (inside i) m program = (run_alone (program i) m).1
  left_by absent m program = m
  left_by (pending i) m program = m

  -- The goroutines have taken the lock in this order; each of them gets what it gets where they run
  -- one after the other.
  pub record Serial (order : List ℕ) (s : Shared F) (program : ℕ → Program F A) (modes : ℕ → Mode)
      : Type 0 where
    pub fresh :
        (i : ℕ)
        → modes i ≡ before
        → (program i ≡ ps i) × ((earlier : List ℕ) → At i earlier order → ⊥)
    pub taken : (i : ℕ) → modes i ≢ before → (earlier : List ℕ) × At i earlier order
    pub once : (i : ℕ) (e e' : List ℕ) → At i e order → At i e' order → e ≡ e'
    pub told :
        (i : ℕ) (earlier : List ℕ)
        → At i earlier order
        → (run_alone (program i) s.entries).0 ≡ (run_alone (ps i) (replay earlier)).0
    pub settled : left_by s.writer s.entries program ≡ replay order

  module _ {order : List ℕ} {s : Shared F} {program : ℕ → Program F A} {modes : ℕ → Mode}
      (inv : Serial order s program modes) (i : ℕ) where
    told_at :
        {j : ℕ} {earlier : List ℕ}
        → (i =ℕ j) ≡ true
        → At j earlier order
        → (run_alone (program i) s.entries).0 ≡ (run_alone (ps j) (replay earlier)).0
    told_at {j} {earlier} e at =
        ap (λ k. (run_alone (program k) s.entries).0) (eq_of e) ∙ inv.told j earlier at

    -- A move after the lock has been taken; if it changes the map, no other goroutine still uses it.
    pub change :
        (t : Shared F) (q : Program F A) (m : Mode)
        → run_alone q t.entries ≡ run_alone (program i) s.entries
        → modes i ≢ before
        → m ≢ before
        → ((j : ℕ)
            → (i =ℕ j) ≡ false
            → modes j ≢ before
            → (run_alone (program j) t.entries).0 ≡ (run_alone (program j) s.entries).0)
        → left_by t.writer t.entries (update program i q) ≡ replay order
        → Serial order t (update program i q) (update modes i m)
    change t q m runs not_before still others settles = record {
      fresh = λ j h. elim (Bool-cases (i =ℕ j)) [
        | inl e ↦ absurd (still (rw e at h))
        | inr e ↦ rw e (inv.fresh j (rw e at h))
      ];
      taken = λ j h. elim (Bool-cases (i =ℕ j)) [
        | inl e ↦ inv.taken j (subst (λ k. modes k ≢ before) (eq_of e) not_before)
        | inr e ↦ inv.taken j (rw e at h)
      ];
      once = inv.once;
      told = λ j earlier at. elim (Bool-cases (i =ℕ j)) [
        | inl e ↦ rw e (ap (λ o. o.0) runs ∙ told_at e at)
        | inr e ↦
            let asked = others j e (λ h. (inv.fresh j h).1 earlier at) in
            rw e (asked ∙ inv.told j earlier at)
      ];
      settled = settles;
    }

    pub keep :
        (t : Shared F) (q : Program F A) (m : Mode)
        → t.entries ≡ s.entries
        → run_alone q t.entries ≡ run_alone (program i) s.entries
        → modes i ≢ before
        → m ≢ before
        → left_by t.writer t.entries (update program i q) ≡ replay order
        → Serial order t (update program i q) (update modes i m)
    keep t q m same runs not_before still =
        change t q m runs not_before still (λ j _ _. ap (λ x. (run_alone (program j) x).0) same)

    -- The first move that takes the lock.
    pub enter :
        (t : Shared F) (q : Program F A) (m : Mode)
        → t.entries ≡ s.entries
        → s.entries ≡ replay order
        → ((m : Dict F) → run_alone q m ≡ run_alone (program i) m)
        → modes i ≡ before
        → m ≢ before
        → left_by t.writer t.entries (update program i q) ≡ (run_alone (ps i) (replay order)).1
        → Serial (i ∷ order) t (update program i q) (update modes i m)
    enter t q m same ready runs first entered settles = record {
      fresh = λ j h. elim (Bool-cases (i =ℕ j)) [
        | inl e ↦ absurd (entered (rw e at h))
        | inr e ↦
            let (unchanged, missing) = inv.fresh j (rw e at h) in
            (
              rw e unchanged,
              λ earlier at. elim (At_inverse at) [
                | inl (same_j, _) ↦ ground arith
                | inr old ↦ missing earlier old
              ],
            )
      ];
      taken = λ j h. elim (Bool-cases (i =ℕ j)) [
        | inl e ↦ (order, subst (λ k. At k order (i ∷ order)) (eq_of e) here)
        | inr e ↦ let (earlier, at) = inv.taken j (rw e at h) in (earlier, there at)
      ];
      once = λ j e e' at at'. elim (At_inverse at) [
        | inl (same_j, new) ↦ elim (At_inverse at') [
          | inl (_, new') ↦ new ∙ sym new'
          | inr old ↦ absurd (not_yet same_j old)
        ]
        | inr old ↦ elim (At_inverse at') [
          | inl (same_j, _) ↦ absurd (not_yet same_j old)
          | inr old' ↦ inv.once j e e' old old'
        ]
      ];
      told = λ j earlier at. elim (At_inverse at) [
        | inl (same_j, new) ↦
            subst
              (λ k.
                (run_alone (update program i q k) t.entries).0
                ≡ (run_alone (ps k) (replay earlier)).0)
              (sym same_j)
              (rw (eq_same i, same, ready, new)
                (ap (λ o. o.0) (runs (replay order))
                  ∙ ap (λ p. (run_alone p (replay order)).0) begun))
        | inr old ↦ elim (Bool-cases (i =ℕ j)) [
          | inl e ↦ absurd (not_yet (sym (eq_of e)) old)
          | inr e ↦ rw (e, same) (inv.told j earlier old)
        ]
      ];
      settled = settles;
    }
      where
        begun : program i ≡ ps i
        begun = (inv.fresh i first).0

        not_yet : {j : ℕ} {earlier : List ℕ} → j ≡ i → At j earlier order → ⊥
        not_yet {earlier = earlier} e at =
            (inv.fresh i first).1 earlier (subst (λ k. At k earlier order) e at)

    -- The call of `Lock` that only keeps new readers out.
    pub wait :
        (t : Shared F) (q : Program F A)
        → t.entries ≡ s.entries
        → q ≡ program i
        → modes i ≡ before
        → left_by t.writer t.entries (update program i q) ≡ replay order
        → Serial order t (update program i q) (update modes i before)
    wait t q same stays_as first settles = record {
      fresh = λ j h. elim (Bool-cases (i =ℕ j)) [
        | inl e ↦
            let (unchanged, missing) = inv.fresh j (ap modes (sym (eq_of e)) ∙ first) in
            (rw e (stays_as ∙ ap program (eq_of e) ∙ unchanged), missing)
        | inr e ↦ rw e (inv.fresh j (rw e at h))
      ];
      taken = λ j h. elim (Bool-cases (i =ℕ j)) [
        | inl e ↦ absurd ((rw e at h) refl)
        | inr e ↦ inv.taken j (rw e at h)
      ];
      once = inv.once;
      told = λ j earlier at. elim (Bool-cases (i =ℕ j)) [
        | inl e ↦ rw (e, same) (ap (λ p. (run_alone p s.entries).0) stays_as ∙ told_at e at)
        | inr e ↦ rw (e, same) (inv.told j earlier at)
      ];
      settled = settles;
    }
