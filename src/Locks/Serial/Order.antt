-- ===== src/Locks/Serial/Order.antt =====
-- The order of the goroutines, in every state that they reach.
use mathlib.Core.Path.{subst}
use goexpose.Common.{List, ap, refl, sym, ℕ, ◌∙◌, ◌≡◌, ◌≢◌}
use goexpose.Dict.{Dict}
use goexpose.Locks.{
  IsBracketed, Mode, Program, Reach, System, Writer, absent, before, done, init, inside, pending,
  return, returns, run_alone,
}
use goexpose.Locks.Serial.{At, left_by, replay}
use goexpose.Locks.Serial.Steps.{Reach-Serial}

returned :
    {F A : Type 0} (nested : ℕ) (m : Mode) {a : A}
    → IsBracketed {F = F} nested m (return a)
    → m ≡ done
returned nested _ returns = refl

-- Without a writer the map is what the writer would leave.
quiet_entries :
    {F A : Type 0} (entries : Dict F) (ps : ℕ → Program F A) (w : Writer) (m : Dict F)
    (program : ℕ → Program F A)
    → ((i : ℕ) → w ≢ inside i)
    → m ≡ left_by entries ps w m program
quiet_entries entries ps absent m program quiet = refl
quiet_entries entries ps (pending i) m program quiet = refl
quiet_entries entries ps (inside i) m program quiet = absurd (quiet i refl)

-- Goroutines that keep to the lock's rules, in every state that they reach: the ones that have taken
-- the lock stand in an order, each once, such that each one that has returned has the result that it
-- has where those before it have run alone, one after the other, and then it alone; and unless one of
-- them is writing, the map is the one that they leave in this order.
pub serializable :
    {F A : Type 0} (nested n : ℕ) (entries : Dict F) (ps : ℕ → Program F A) (s : System F A)
    → ((i : ℕ) → IsBracketed nested before (ps i))
    → Reach n (init entries ps) s
    → (order : List ℕ) × ((i : ℕ) (e e' : List ℕ) → At i e order → At i e' order → e ≡ e')
      × ((i : ℕ) (a : A)
          → s.program i ≡ return a
          → (earlier : List ℕ) × At i earlier order
            × (a ≡ (run_alone (ps i) (replay entries ps earlier)).0))
      × (((i : ℕ) → s.shared.writer ≢ inside i) → s.shared.entries ≡ replay entries ps order)
serializable nested n entries ps s b reached =
    let (modes, holds, order, inv) = Reach-Serial entries ps nested b reached in
    (
      order,
      inv.once,
      λ i a e.
          let finished : modes i ≡ done =
            returned nested (modes i)
              (subst (IsBracketed nested (modes i)) e (holds.bracketed i)) in
          let (earlier, at) = inv.taken i (λ h. cc (finished, h)) in
          (earlier, at, ap (λ p. (run_alone p s.shared.entries).0) (sym e) ∙ inv.told i earlier at),
      λ quiet.
          quiet_entries entries ps s.shared.writer s.shared.entries s.program quiet ∙ inv.settled,
    )
