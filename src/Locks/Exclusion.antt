-- ===== src/Locks/Exclusion.antt =====
-- Who has the lock, in every state that goroutines reach.
pub mod Race
use mathlib.Core.Path.{subst}
use goexpose.Common.{
  Bool-cases, String, arith, inl, inr, refl, suc, sym, update, zero, ℕ, ◌+◌, ◌-◌, ◌<◌, ◌=ℕ◌, ◌≡◌,
  ◌≢◌, Option, ◌⊎◌,
}
use goexpose.Dict.{Dict, lookup}
use goexpose.Locks.{
  IsBracketed, Mode, Move, Program, Reach, Shared, System, absent, announce, before, done,
  enter_read, enter_write, get, init, inside, leave_read, leave_write, look, pending, pick, put,
  again, read, looks, reads, reading, returns, start, step, store, stores, tests, undone, writes,
  written, writing,
}

-- How many `RLock` calls of a goroutine are not undone.
abbrev pub depth : Mode → ℕ
depth (reading d) = suc d
depth _ = 0

abbrev pub total : ℕ → (ℕ → Mode) → ℕ
total zero modes = 0
total (suc n) modes = depth (modes n) + total n modes

total-update_above :
    (n : ℕ) (modes : ℕ → Mode) (i : ℕ) (m : Mode)
    → (n < suc i)
    → total n (update modes i m) ≡ total n modes
total-update_above zero modes i m h = refl
total-update_above (suc n) modes i m h = ground (arith, total-update_above n modes i m)

pub total-update :
    (n : ℕ) (modes : ℕ → Mode) (i : ℕ) (m : Mode)
    → i < n
    → total n (update modes i m) + depth (modes i) ≡ total n modes + depth m
total-update zero modes i m h = absurd (omega arith)
total-update (suc n) modes i m h = elim (Bool-cases (i =ℕ n)) [
  | inl e ↦ let same : i ≡ n = ground arith in ground (arith, total-update_above n modes i m)
  | inr e ↦ ground (arith, total-update n modes i m)
]

pub total_zero :
    (n : ℕ) (modes : ℕ → Mode) (i : ℕ) → total n modes ≡ 0 → i < n → depth (modes i) ≡ 0
total_zero zero modes i e h = absurd (omega arith)
total_zero (suc n) modes i e h = elim (Bool-cases (i =ℕ n)) [
  | inl same ↦ let eq : i ≡ n = ground arith in rw eq (omega arith)
  | inr other ↦ total_zero n modes i (omega arith) (ground arith)
]

total-before : (n : ℕ) → total n (λ i. before) ≡ 0
total-before zero = refl
total-before (suc n) = omega (arith, total-before n)

-- How a move of the goroutine `i` changes the lock and the mode.
pub data Shift {F : Type 0} (i : ℕ) (s : Shared F) : Mode → Shared F → Mode → Type 0 where
  enters :
      {m : Mode} {d : ℕ}
      → depth m ≡ d
      → m ≢ writing
      → s.writer ≡ absent
      → Shift i s m (record s { readers = suc s.readers }) (reading d)
  leaves :
      {m : Mode} {d : ℕ}
      → depth m ≡ d
      → m ≢ writing
      → m ≢ before
      → Shift i s (reading d) (record s { readers = s.readers - 1 }) m
  announces : s.writer ≡ absent → Shift i s before (record s { writer = pending i }) before
  admitted :
      s.writer ≡ pending i
      → s.readers ≡ 0
      → Shift i s before (record s { writer = inside i }) writing
  left : Shift i s writing (record s { writer = absent }) done
  stays : {m : Mode} → m ≢ before → Shift i s m s m
  changes : {entries : Dict F} → Shift i s writing (record s { entries = entries }) writing

module _ {F A : Type 0} (nested : ℕ) where
  -- A move of a program that keeps to the lock's rules. Before it has the lock, a program stays.
  pub Move-Shift :
      (i : ℕ) (m : Mode) (s : Shared F) (p : Program F A)
      → IsBracketed nested m p
      → (t : Shared F) (q : Program F A) → Move i s p t q
      → (m' : Mode) × IsBracketed nested m' q × Shift i s m t m' × (m' ≡ before → q ≡ p)
  Move-Shift i _ s _ (reads b) _ _ (enter_read e) = (reading 0, b, enters refl (λ h. cc) e, λ h. cc)
  Move-Shift i _ s _ (again {d} h b) _ _ (enter_read e) =
      (reading (suc d), b, enters refl (λ h. cc) e, λ h. cc)
  Move-Shift i _ s _ (read b) _ _ leave_read = (done, b, leaves refl (λ h. cc) (λ h. cc), λ h. cc)
  Move-Shift i _ s _ (undone {d} b) _ _ leave_read =
      (reading d, b, leaves refl (λ h. cc) (λ h. cc), λ h. cc)
  Move-Shift i _ s _ (writes b) _ _ (announce e) = (before, writes b, announces e, λ h. refl)
  Move-Shift i _ s _ (writes b) _ _ (enter_write e r) = (writing, b, admitted e r, λ h. cc)
  Move-Shift i _ s _ (written b) _ _ leave_write = (done, b, left, λ h. cc)
  Move-Shift i _ s _ (looks {d} b) _ _ (look {id}) =
      (reading d, b (lookup id s.entries), stays (λ h. cc), λ h. cc)
  Move-Shift i _ s _ (tests b) _ _ (look {id}) =
      (writing, b (lookup id s.entries), stays (λ h. cc), λ h. cc)
  Move-Shift i _ s _ (stores b) _ _ store = (writing, b, changes, λ h. cc)
  Move-Shift i _ s _ returns _ _ mv = elim mv [ ]

  -- These are the modes of the goroutines in this state.
  pub record Holds (n : ℕ) (s : Shared F) (program : ℕ → Program F A) (modes : ℕ → Mode)
      : Type 0 where
    pub bracketed : (i : ℕ) → IsBracketed nested (modes i) (program i)
    pub counted : s.readers ≡ total n modes
    pub held : (i : ℕ) → modes i ≡ writing → s.writer ≡ inside i
    pub alone : (i : ℕ) → s.writer ≡ inside i → (modes i ≡ writing) × (s.readers ≡ 0)
    pub waits : (i : ℕ) → s.writer ≡ pending i → (modes i ≡ before) × (i < n)
    pub begun : (i : ℕ) → modes i ≢ before → i < n

  module _ {n : ℕ} {s : Shared F} {program : ℕ → Program F A} {modes : ℕ → Mode}
      (inv : Holds n s program modes) (i : ℕ) (below : i < n) where
    open inv use {counted, held, alone, waits}

    Shift-counted :
        {t : Shared F} {m m' : Mode}
        → modes i ≡ m
        → Shift i s m t m'
        → t.readers ≡ total n (update modes i m')
    Shift-counted {m' = m'} e (enters a b c) = ground (arith, total-update n modes i m', below)
    Shift-counted {m' = m'} e (leaves a b c) = ground (arith, total-update n modes i m', below)
    Shift-counted {m' = m'} e (announces a) = ground (arith, total-update n modes i m', below)
    Shift-counted {m' = m'} e (admitted a b) = ground (arith, total-update n modes i m', below)
    Shift-counted {m' = m'} e left = ground (arith, total-update n modes i m', below)
    Shift-counted {m' = m'} e (stays a) = ground (arith, total-update n modes i m', below)
    Shift-counted {m' = m'} e changes = ground (arith, total-update n modes i m', below)

    Shift-held :
        {t : Shared F} {m m' : Mode}
        → modes i ≡ m
        → Shift i s m t m'
        → (j : ℕ) → update modes i m' j ≡ writing
        → t.writer ≡ inside j
    Shift-held e (enters a b c) j h = ground (arith, held j, held i, alone i)
    Shift-held e (leaves a b c) j h = ground (arith, held j, held i, alone i)
    Shift-held e (announces a) j h = ground (arith, held j, held i, alone i)
    Shift-held e (admitted a b) j h = ground (arith, held j, held i, alone i)
    Shift-held e left j h = ground (arith, held j, held i, alone i)
    Shift-held e (stays a) j h = ground (arith, held j, held i, alone i)
    Shift-held e changes j h = ground (arith, held j, held i, alone i)

    Shift-alone :
        {t : Shared F} {m m' : Mode}
        → modes i ≡ m
        → Shift i s m t m'
        → (j : ℕ) → t.writer ≡ inside j
        → (update modes i m' j ≡ writing) × (t.readers ≡ 0)
    Shift-alone e (enters a b c) j h = ground (arith, alone j, alone i, held i)
    Shift-alone e (leaves a b c) j h = ground (arith, alone j, alone i, held i)
    Shift-alone e (announces a) j h = ground (arith, alone j, alone i, held i)
    Shift-alone e (admitted a b) j h = ground (arith, alone j, alone i, held i)
    Shift-alone e left j h = ground (arith, alone j, alone i, held i)
    Shift-alone e (stays a) j h = ground (arith, alone j, alone i, held i)
    Shift-alone e changes j h = ground (arith, alone j, alone i, held i)

    Shift-waits :
        {t : Shared F} {m m' : Mode}
        → modes i ≡ m
        → Shift i s m t m'
        → (j : ℕ) → t.writer ≡ pending j
        → (update modes i m' j ≡ before) × (j < n)
    Shift-waits e (enters a b c) j h = ground (arith, waits j, waits i, held i, below)
    Shift-waits e (leaves a b c) j h = ground (arith, waits j, waits i, held i, below)
    Shift-waits e (announces a) j h = ground (arith, waits j, waits i, held i, below)
    Shift-waits e (admitted a b) j h = ground (arith, waits j, waits i, held i, below)
    Shift-waits e left j h = ground (arith, waits j, waits i, held i, below)
    Shift-waits e (stays a) j h = ground (arith, waits j, waits i, held i, below)
    Shift-waits e changes j h = ground (arith, waits j, waits i, held i, below)

  pub Shift-Holds :
      {n : ℕ} {s t : Shared F} {program : ℕ → Program F A} {modes : ℕ → Mode} {q : Program F A}
      {m : Mode}
      → Holds n s program modes
      → (i : ℕ) → i < n
      → IsBracketed nested m q
      → Shift i s (modes i) t m
      → Holds n t (update program i q) (update modes i m)
  Shift-Holds {n} {modes = modes} {q} inv i below b sh = record {
    bracketed = λ j. elim (Bool-cases (i =ℕ j)) [ inl e ↦ rw e b | inr e ↦ rw e (inv.bracketed j) ];
    counted = Shift-counted inv i below refl sh;
    held = Shift-held inv i below refl sh;
    alone = Shift-alone inv i below refl sh;
    waits = Shift-waits inv i below refl sh;
    begun = λ j h. elim (Bool-cases (i =ℕ j)) [
      | inl e ↦ let same : i ≡ j = ground arith in omega arith
      | inr e ↦ inv.begun j (rw e at h)
    ];
  }

  pub init-Holds :
      {n : ℕ} (entries : Dict F) {ps : ℕ → Program F A}
      → ((i : ℕ) → IsBracketed nested before (ps i))
      → Holds n (init entries ps).shared ps (λ i. before)
  init-Holds {n} entries b = record {
    bracketed = b;
    counted = sym (total-before n);
    held = λ i h. cc;
    alone = λ i h. cc;
    waits = λ i h. cc;
    begun = λ i h. absurd (h refl);
  }

  -- In every state that goroutines reach from programs that keep to the lock's rules.
  pub Reach-Holds :
      {n : ℕ} {entries : Dict F} {ps : ℕ → Program F A} {s : System F A}
      → ((i : ℕ) → IsBracketed nested before (ps i))
      → Reach n (init entries ps) s
      → (modes : ℕ → Mode) × Holds n s.shared s.program modes
  Reach-Holds {entries = entries} b start = (λ i. before, init-Holds entries b)
  Reach-Holds b (step {s = s} reached (pick i {t} {p} below mv)) =
      let (modes, inv) = Reach-Holds b reached in
      let (m, bracketed, sh, _) =
        Move-Shift i (modes i) s.shared (s.program i) (inv.bracketed i) t p mv in
      (update modes i m, Shift-Holds inv i below bracketed sh)
