-- ===== src/Locks/Deadlock.antt =====
-- `GetAuthorizers` holds the read lock of the authorizers and calls `AuthorizerExists`, by way of
-- `Validate`, which takes it again.
use goexpose.Auth.{AuthorizerFactory, Authorizers}
use goexpose.Common.{[], Result, String, ap, arith, refl, suc, zero, ℕ, ◌≡◌, ◌≢◌, ◌∷◌, ◌<>◌}
use goexpose.Config.{AuthorizerConfig, Config}
use goexpose.Dict.{Dict}
use goexpose.Locks.{
  Move, Program, Reach, Shared, Step, System, announce, enter_read, enter_write, init, leave_read,
  leave_write, lock, look, pending, pick, r_lock, r_unlock, return, start, step, store,
}
use goexpose.Locks.Registries.{checked, get_authorizers_program, make_program, register_program}

-- The goroutine 0 runs `GetAuthorizers`, and the others register an authorizer.
abbrev pub reading_and_registering :
    {W A : Type 0}
    → (ℕ → String)
    → (Result (Authorizers W) → A)
    → (Result (Unit {0}) → A)
    → Config
    → String
    → AuthorizerFactory W
    → ℕ
    → Program (AuthorizerFactory W) A
reading_and_registering decimal made registered config id factory zero =
    get_authorizers_program decimal made config
reading_and_registering decimal made registered config id factory (suc i) =
    register_program registered (λ name. "authorizer " <> name <> " already registered") id factory

module _ {F A : Type 0} where
  reader_blocked :
      (i j : ℕ) (s t : Shared F) (p q p' : Program F A)
      → Move i s p t q
      → p ≡ r_lock p'
      → s.writer ≢ pending j
  reader_blocked i j s _ _ _ p' (enter_read e) h k = cc
  reader_blocked i j s _ _ _ p' leave_read h k = cc
  reader_blocked i j s _ _ _ p' (announce e) h k = cc
  reader_blocked i j s _ _ _ p' (enter_write e r) h k = cc
  reader_blocked i j s _ _ _ p' leave_write h k = cc
  reader_blocked i j s _ _ _ p' look h k = cc
  reader_blocked i j s t p q p' store h k = cc

  writer_blocked :
      (i j n : ℕ) (s t : Shared F) (p q p' : Program F A)
      → Move i s p t q
      → p ≡ lock p'
      → s.writer ≡ pending j
      → s.readers ≢ suc n
  writer_blocked i j n s _ _ _ p' (enter_read e) h k r = cc
  writer_blocked i j n s _ _ _ p' leave_read h k r = cc
  writer_blocked i j n s _ _ _ p' (announce e) h k r = cc
  writer_blocked i j n s _ _ _ p' (enter_write e z) h k r = omega arith
  writer_blocked i j n s _ _ _ p' leave_write h k r = cc
  writer_blocked i j n s _ _ _ p' look h k r = cc
  writer_blocked i j n s t p q p' store h k r = cc

  stuck :
      (s t : System F A) (p q : Program F A)
      → s.shared.writer ≡ pending 1
      → s.shared.readers ≡ 1
      → s.program 0 ≡ r_lock p
      → s.program 1 ≡ lock q
      → Step 2 s t
      → ⊥
  stuck s _ p q w r at_0 at_1 (pick zero {t} below mv) =
      reader_blocked 0 1 s.shared t (s.program 0) _ p mv at_0 w
  stuck s _ p q w r at_0 at_1 (pick (suc zero) {t} below mv) =
      writer_blocked 1 1 0 s.shared t (s.program 1) _ q mv at_1 w r
  stuck s _ p q w r at_0 at_1 (pick (suc (suc i)) below mv) = absurd (omega arith)

-- Where an authorizer is configured, `GetAuthorizers` and a registration at the same time can come to
-- a state in which neither has returned and neither can go on: `GetAuthorizers` has the lock, the
-- registration waits for it to leave, and `GetAuthorizers` calls `RLock` again and waits for the
-- registration.
pub get_authorizers-deadlocks :
    {W A : Type 0} (decimal : ℕ → String) (made : Result (Authorizers W) → A)
    (registered : Result (Unit {0}) → A) (config : Config) (an : String) (ac : AuthorizerConfig)
    (rest : Dict AuthorizerConfig) (id : String) (factory : AuthorizerFactory W)
    (entries : Dict (AuthorizerFactory W))
    → config.authorizers ≡ (an, ac) ∷ rest
    → (s : System (AuthorizerFactory W) A) × Reach 2
        (init entries (reading_and_registering decimal made registered config id factory))
        s
      × ((a : A) → (s.program 0 ≢ return a) × (s.program 1 ≢ return a))
      × ((t : System (AuthorizerFactory W) A) → Step 2 s t → ⊥)
unfolding get_authorizers_program register_program
get_authorizers-deadlocks decimal made registered config an ac rest id factory entries configured =
    let nested =
      ap (λ acs. make_program acs [] (λ a. r_unlock (return (made (checked decimal config a)))))
        configured in
    (
      _,
      step (step start (pick 0 (omega arith) (enter_read refl)))
          (pick 1 (omega arith) (announce refl)),
      λ a. (λ h. cc (nested, h), λ h. cc),
      λ t. stuck _ t _ _ refl refl nested refl,
    )
