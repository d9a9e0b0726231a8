-- ===== src/Locks.antt =====
-- The global maps of registry.go, auth.go and formats.go with their locks, as goroutines use them at
-- the same time. A function is the program of what it does to the lock and to the map; the lock is a
-- `sync.RWMutex`, which lets in readers together or one writer alone, and where a writer that
-- waits for readers to leave keeps out every reader that comes after it.
pub mod Exclusion
pub mod Registries
pub mod Alone
pub mod Brackets
pub mod Serial
pub mod Progress
pub mod Deadlock
pub mod Calls
pub mod Formats
pub mod Authorizers
pub mod Tests
use goexpose.Common.{List, Option, String, suc, ℕ, ◌-◌, ◌<◌, ◌≡◌, update}
use goexpose.Dict.{Dict, insert, lookup}

-- What is left for a goroutine to do: calls of the lock's methods, uses of the map, and its result.
pub data Program (F A : Type 0) : Type 0 where
  return : A → Program F A
  r_lock r_unlock lock unlock : Program F A → Program F A
  get : String → (Option F → Program F A) → Program F A
  put : String → F → Program F A → Program F A

-- The writer of a lock: none, one whose `Lock` waits for the readers to leave, or one that has it.
pub data Writer : Type 0 where
  absent : Writer
  pending inside : ℕ → Writer

-- A lock and the map that it guards. `readers` counts the `RLock` calls that are not undone.
pub record Shared (F : Type 0) : Type 0 where
  pub writer : Writer
  pub readers : ℕ
  pub entries : Dict F

pub record System (F A : Type 0) : Type 0 where
  pub shared : Shared F
  pub program : ℕ → Program F A

module _ {F A : Type 0} where
  -- What the goroutine `i` can do next. `Lock` first keeps new readers out, and then waits for the
  -- others to leave.
  pub data Move (i : ℕ) (s : Shared F) : Program F A → Shared F → Program F A → Type 0 where
    enter_read :
        {p : Program F A}
        → s.writer ≡ absent
        → Move i s (r_lock p) (record s { readers = suc s.readers }) p
    leave_read : {p : Program F A} → Move i s (r_unlock p) (record s { readers = s.readers - 1 }) p
    announce :
        {p : Program F A}
        → s.writer ≡ absent
        → Move i s (lock p) (record s { writer = pending i }) (lock p)
    enter_write :
        {p : Program F A}
        → s.writer ≡ pending i
        → s.readers ≡ 0
        → Move i s (lock p) (record s { writer = inside i }) p
    leave_write : {p : Program F A} → Move i s (unlock p) (record s { writer = absent }) p
    look :
        {id : String} {k : Option F → Program F A} → Move i s (get id k) s (k (lookup id s.entries))
    store :
        {id : String} {f : F} {p : Program F A}
        → Move i s (put id f p) (record s { entries = insert id f s.entries }) p

  -- A step of `n` goroutines: one of them makes a move.
  pub data Step (n : ℕ) (s : System F A) : System F A → Type 0 where
    pick :
        (i : ℕ) {t : Shared F} {p : Program F A}
        → i < n
        → Move i s.shared (s.program i) t p
        → Step n s (record { shared = t; program = update s.program i p })

  -- The lock is free, and no goroutine has begun.
  abbrev pub init : Dict F → (ℕ → Program F A) → System F A
  init entries ps = record {
    shared = record { writer = absent; readers = 0; entries = entries };
    program = ps;
  }

  pub data Reach (n : ℕ) (from : System F A) : System F A → Type 0 where
    start : Reach n from from
    step : {s t : System F A} → Reach n from s → Step n s t → Reach n from t

  -- What a program gives and leaves that has the map for itself.
  abbrev pub run_alone : Program F A → Dict F → A × Dict F
  run_alone (return a) m = (a, m)
  run_alone (r_lock p) m = run_alone p m
  run_alone (r_unlock p) m = run_alone p m
  run_alone (lock p) m = run_alone p m
  run_alone (unlock p) m = run_alone p m
  run_alone (get id k) m = run_alone (k (lookup id m)) m
  run_alone (put id f p) m = run_alone p (insert id f m)

-- Where a goroutine is: it has not taken the lock, it reads with this many `RLock` calls beside the
-- first not undone, it writes, or it has given the lock back.
pub data Mode : Type 0 where
  before writing done : Mode
  reading : ℕ → Mode

-- A program that takes the lock once, uses the map only while it has it and changes it only as a
-- writer; a reader calls `RLock` again at most `nested` times before it undoes it.
pub data IsBracketed {F A : Type 0} (nested : ℕ) : Mode → Program F A → Type 0 where
  reads :
      {p : Program F A} → IsBracketed nested (reading 0) p → IsBracketed nested before (r_lock p)
  writes : {p : Program F A} → IsBracketed nested writing p → IsBracketed nested before (lock p)
  again :
      {d : ℕ} {p : Program F A}
      → d < nested
      → IsBracketed nested (reading (suc d)) p
      → IsBracketed nested (reading d) (r_lock p)
  undone :
      {d : ℕ} {p : Program F A}
      → IsBracketed nested (reading d) p
      → IsBracketed nested (reading (suc d)) (r_unlock p)
  looks :
      {d : ℕ} {id : String} {k : Option F → Program F A}
      → ((o : Option F) → IsBracketed nested (reading d) (k o))
      → IsBracketed nested (reading d) (get id k)
  tests :
      {id : String} {k : Option F → Program F A}
      → ((o : Option F) → IsBracketed nested writing (k o))
      → IsBracketed nested writing (get id k)
  stores :
      {id : String} {f : F} {p : Program F A}
      → IsBracketed nested writing p
      → IsBracketed nested writing (put id f p)
  read : {p : Program F A} → IsBracketed nested done p → IsBracketed nested (reading 0) (r_unlock p)
  written : {p : Program F A} → IsBracketed nested done p → IsBracketed nested writing (unlock p)
  returns : {a : A} → IsBracketed nested done (return a)
