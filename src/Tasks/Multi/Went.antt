-- ===== src/Tasks/Multi/Went.antt =====
-- The loop of a multi task over its tasks.
use goexpose.Common.{
  Result, err, panic, Error, List, [], String, length, ok, refl, ◌≡◌, ◌∷◌, ap, suc,
}
use goexpose.Dict.{Dict}
use goexpose.Effect
use goexpose.Request.{Request}
use goexpose.Response.{Response}
use goexpose.Tasks.{Tasker}
use goexpose.Tasks.Multi.{run_all}
use goexpose.Value.{Value}

module _ {W : Type 0} (r : Request) (vars : Dict Value) where
  -- The tasks that run one after the other from a state, with their responses and the state that the
  -- last leaves, or the first panic (or error) and the state that it leaves: no task runs after it.
  pub data Went : List (Tasker W) → W → Result (List Response) → W → Type 0 where
    all_done : {w : W} → Went [] w (ok []) w
    next :
        {t : Tasker W} {ts : List (Tasker W)} {tr : Response} {rs : List Response} {w w₁ w₂ : W}
        → t.run r vars w ≡ (ok tr, w₁)
        → Went ts w₁ (ok rs) w₂
        → Went (t ∷ ts) w (ok (tr ∷ rs)) w₂
    panics :
        {t : Tasker W} {ts : List (Tasker W)} {text : String} {w w₁ : W}
        → t.run r vars w ≡ (panic text, w₁)
        → Went (t ∷ ts) w (panic text) w₁
    fails :
        {t : Tasker W} {ts : List (Tasker W)} {e : Error} {w w₁ : W}
        → t.run r vars w ≡ (err e, w₁)
        → Went (t ∷ ts) w (err e) w₁
    later_panics :
        {t : Tasker W} {ts : List (Tasker W)} {tr : Response} {text : String} {w w₁ w₂ : W}
        → t.run r vars w ≡ (ok tr, w₁)
        → Went ts w₁ (panic text) w₂
        → Went (t ∷ ts) w (panic text) w₂
    later_fails :
        {t : Tasker W} {ts : List (Tasker W)} {tr : Response} {e : Error} {w w₁ w₂ : W}
        → t.run r vars w ≡ (ok tr, w₁)
        → Went ts w₁ (err e) w₂
        → Went (t ∷ ts) w (err e) w₂

  pub length-Went :
      {ts : List (Tasker W)} {rs : List Response} {w w₁ : W}
      → Went ts w (ok rs) w₁
      → length rs ≡ length ts
  length-Went all_done = refl
  length-Went (next ran more) = ap suc (length-Went more)

  pub run_all-Went :
      (ts : List (Tasker W)) (w : W) → Went ts w (run_all ts r vars w).0 (run_all ts r vars w).1
  unfolding run_all
  run_all-Went [] w = all_done
  run_all-Went (t ∷ ts) w = first (run_all-Went ts) (t.run r vars w) refl
    where
      rest :
          (x : Response) (w₁ : W) (o : Result (List Response) × W)
          → t.run r vars w ≡ (ok x, w₁)
          → Went ts w₁ o.0 o.1
          → let out = Effect.continue o.0 (λ results. Effect.pure (ok (x ∷ results))) o.1 in
            Went (t ∷ ts) w out.0 out.1
      rest x w₁ (ok rs, w₂) ran h = next ran h
      rest x w₁ (err e, w₂) ran h = later_fails ran h
      rest x w₁ (panic text, w₂) ran h = later_panics ran h

      first :
          ((w₁ : W) → Went ts w₁ (run_all ts r vars w₁).0 (run_all ts r vars w₁).1)
          → (o : Result Response × W) → t.run r vars w ≡ o
          → let out =
              Effect.continue o.0
                (λ x. Effect.◌>>=◌ (run_all ts r vars) λ results. Effect.pure (ok (x ∷ results)))
                o.1 in
            Went (t ∷ ts) w out.0 out.1
      first later (ok x, w₁) ran = rest x w₁ (run_all ts r vars w₁) ran (later w₁)
      first later (err e, w₁) ran = fails ran
      first later (panic text, w₁) ran = panics ran
