-- ===== src/Locks/Calls/Once.antt =====
-- A name is registered by one goroutine only.
use goexpose.Common.{
  Bool, if◌then◌else◌, List, String, false, inl, inr, ok, panic, refl, true, ap, ℕ, ◌∙◌, ◌≡◌, ◌⊎◌,
}
use goexpose.Dict.{Dict, has, has-insert_kept, has-insert_self, insert}
use goexpose.Locks.{Reach, System, init, return}
use goexpose.Locks.Alone.{after_register}
use goexpose.Locks.Calls.{
  Answer, Call, calls-IsAtomic, exists, finds, perform, program_of, registered, registers,
}
use goexpose.Locks.Serial.{At, here, there}
use goexpose.Locks.Serial.Atomic.{perform_all}
use goexpose.Registry.{register}

-- Of two places in an order, one is before the other, or they are the same.
places :
    {i j : ℕ} {e e' order : List ℕ}
    → At i e order
    → At j e' order
    → (i ≡ j) ⊎ (At i e e' ⊎ At j e' e)
places here here = inl refl
places here (there at) = inr (inr at)
places (there at) here = inr (inl at)
places (there at) (there at') = places at at'

module _ {F : Type 0} (message : String → String) where
  entries_if :
      (b : Bool) (text : String) (m m' : Dict F)
      → (after_register {A = Answer F} registered m (if b then panic text else ok m')).1
        ≡ (if b then m else m')
  entries_if true text m m' = refl
  entries_if false text m m' = refl

  has-perform_self :
      (id : String) (f : F) (m : Dict F) → has id (perform message (registers id f) m).1 ≡ true
  unfolding register
  has-perform_self id f m =
      ap (has id) (entries_if (has id m) (message id) m (insert id f m)) ∙ either (has id m) refl
    where
      either : (b : Bool) → has id m ≡ b → has id (if b then m else insert id f m) ≡ true
      either true e = e
      either false e = has-insert_self id f m

  has-perform_kept :
      (id : String) (call : Call F) (m : Dict F)
      → has id m ≡ true
      → has id (perform message call m).1 ≡ true
  unfolding register
  has-perform_kept id (registers id' f) m h =
      ap (has id) (entries_if (has id' m) (message id') m (insert id' f m)) ∙ either (has id' m)
    where
      either : (b : Bool) → has id (if b then m else insert id' f m) ≡ true
      either true = h
      either false = has-insert_kept id' id f m h
  has-perform_kept id (finds id') m h = h
  has-perform_kept id (exists id') m h = h

  has-At :
      (calls : ℕ → Call F) (entries : Dict F) (j : ℕ) (id : String) (g : F)
      → calls j ≡ registers id g
      → {e order : List ℕ} → At j e order
      → has id (perform_all (λ i. perform message (calls i)) entries order) ≡ true
  has-At calls entries j id g e here = rw (perform_all, e) (has-perform_self id g _)
  has-At calls entries j id g e (there {j = k} at) =
      has-perform_kept id (calls k) _ (has-At calls entries j id g e at)

  was_free :
      (id : String) (f : F) (m : Dict F)
      → registered (ok tt) ≡ (perform message (registers id f) m).0
      → has id m ≡ false
  unfolding register
  was_free id f m = answer (has id m)
    where
      answer :
          (b : Bool)
          → registered (ok tt)
            ≡ (after_register {A = Answer F} registered m
                (if b then panic (message id) else ok (insert id f m))).0
          → b ≡ false
      answer true h = cc
      answer false h = refl

-- Of goroutines that each make one call of `RegisterTaskFactory`, `getTaskFactory` or
-- `AuthorizerExists` on one registry, in every state that they reach: where two have returned from
-- registering the same name, neither of them with a panic, they are the same goroutine.
pub registered_once :
    {F : Type 0} (message : String → String) (calls : ℕ → Call F) (n : ℕ) (entries : Dict F)
    (s : System F (Answer F)) (i j : ℕ) (id : String) (f g : F)
    → Reach n (init entries (λ k. program_of message (calls k))) s
    → calls i ≡ registers id f
    → calls j ≡ registers id g
    → s.program i ≡ return (registered (ok tt))
    → s.program j ≡ return (registered (ok tt))
    → i ≡ j
registered_once message calls n entries s i j id f g reached call_i call_j done_i done_j =
    let told = (calls-IsAtomic message calls n entries s reached).told in
    let (e, at, says) = told i (registered (ok tt)) done_i in
    let (e', at', says') = told j (registered (ok tt)) done_j in
    let m = perform_all (λ i. perform message (calls i)) entries e in
    let m' = perform_all (λ i. perform message (calls i)) entries e' in
    let free = was_free message id f m (says ∙ ap (λ c. (perform message c m).0) call_i) in
    let free' = was_free message id g m' (says' ∙ ap (λ c. (perform message c m').0) call_j) in
    elim (places at at') [
      | inl same ↦ same
      | inr (inl first) ↦ cc (free', has-At message calls entries i id f call_i first)
      | inr (inr first) ↦ cc (free, has-At message calls entries j id g call_j first)
    ]
