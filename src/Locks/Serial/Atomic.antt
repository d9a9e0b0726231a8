-- ===== src/Locks/Serial/Atomic.antt =====
-- Programs that do each what one step on the map does.
use goexpose.Common.{List, [], ap, refl, ℕ, ◌∙◌, ◌≡◌, ◌≢◌, ◌∷◌}
use goexpose.Dict.{Dict}
use goexpose.Locks.{IsBracketed, Program, Reach, System, before, init, inside, return, run_alone}
use goexpose.Locks.Serial.{At, replay}
use goexpose.Locks.Serial.Order.{serializable}

module _ {F A : Type 0} (perform : ℕ → Dict F → A × Dict F) where
  -- The map after the steps of these goroutines, of which the first of the list is the last.
  abbrev pub perform_all : Dict F → List ℕ → Dict F
  perform_all m [] = m
  perform_all m (i ∷ order) = (perform i (perform_all m order)).1

  -- What the goroutines have and leave is what these steps give and leave in some order.
  pub record IsAtomic (entries : Dict F) (s : System F A) : Type 0 where
    pub order : List ℕ
    pub once : (i : ℕ) (e e' : List ℕ) → At i e order → At i e' order → e ≡ e'
    pub told :
        (i : ℕ) (a : A)
        → s.program i ≡ return a
        → (earlier : List ℕ) × At i earlier order
          × (a ≡ (perform i (perform_all entries earlier)).0)
    pub settled :
        ((i : ℕ) → s.shared.writer ≢ inside i) → s.shared.entries ≡ perform_all entries order

  module _ (ps : ℕ → Program F A)
      (same : (i : ℕ) (m : Dict F) → run_alone (ps i) m ≡ perform i m) where
    replay-perform_all : (m : Dict F) (order : List ℕ) → replay m ps order ≡ perform_all m order
    replay-perform_all m [] = refl
    replay-perform_all m (i ∷ order) =
        ap (λ x. x.1) (same i (replay m ps order))
        ∙ ap (λ x. (perform i x).1) (replay-perform_all m order)

    pub serializable-IsAtomic :
        {nested n : ℕ} {entries : Dict F} {s : System F A}
        → ((i : ℕ) → IsBracketed nested before (ps i))
        → Reach n (init entries ps) s
        → IsAtomic entries s
    serializable-IsAtomic {nested} {n} {entries} {s} b reached =
        let (order, once, told, settled) = serializable nested n entries ps s b reached in
        record {
          order = order;
          once = once;
          told = λ i a e.
              let (earlier, at, result) = told i a e in
              (
                earlier,
                at,
                result
                    ∙ ap (λ x. x.0) (same i (replay entries ps earlier))
                    ∙ ap (λ m. (perform i m).0) (replay-perform_all entries earlier),
              );
          settled = λ quiet. settled quiet ∙ replay-perform_all entries order;
        }
