-- ===== src/Server/Concurrent/Alone.antt =====
-- How many turns a request needs, and what it does where it has them for itself.
use goexpose.Auth.{authorize, authorize_names, call_authorizer}
use goexpose.Common.{
  Bool-cases, List, [], Option, Result, String, ap, arith, err, false, if◌then◌else◌, inl, inr,
  length, none, ok, panic, refl, some, suc, sym, true, zero, ℕ, ◌+◌, ◌-◌, ◌=ℕ◌, ◌∙◌, ◌≡◌, ◌≤◌, ◌∷◌,
}
use goexpose.Config.{Config}
use goexpose.Dict.{Dict, lookup}
use goexpose.Effect
use goexpose.Request.{Request}
use goexpose.Response.Writing.{Codec, Event}
use goexpose.Server.{after_authorizers, drained, handle, reply, run_task}
use goexpose.Server.Routes.{Registration, Route}
use goexpose.Server.Serving.{Mux, dispatch, serve, serve_clean, site_of}
use goexpose.Server.Concurrent.{
  Phase, System, advance, after, asked, asking, begin, begin_clean, begin_with, finished, running,
  sent, told, turn,
}

-- How many turns a request can still need.
abbrev pub work : {W : Type 0} → Phase W → ℕ
work (asking x r names) = length names + 2
work (running x r params) = 1
work (finished events) = 0

-- How many of the turns are those of the request `i`.
abbrev pub turns_of : ℕ → List ℕ → ℕ
turns_of i [] = 0
turns_of i (j ∷ turns) = if j =ℕ i then suc (turns_of i turns) else turns_of i turns

-- `n` turns of the request `i`
abbrev pub only : ℕ → ℕ → List ℕ
only i zero = []
only i (suc n) = i ∷ only i n

no_work : {W : Type 0} (p : Phase W) → work p ≤ 0 → (events : List Event) × (p ≡ finished events)
no_work (asking x r names) h = absurd (omega arith)
no_work (running x r params) h = absurd (omega arith)
no_work (finished events) h = (events, refl)

eq_same : (i : ℕ) → (i =ℕ i) ≡ true
eq_same i = ground arith

turns_of-only : (i n : ℕ) → turns_of i (only i n) ≡ n
turns_of-only i zero = refl
turns_of-only i (suc n) = rw (eq_same i) (ap suc (turns_of-only i n))

module _ {W : Type 0} (mux : Mux W) (environ : W → List String) (c : Codec) (elapsed : ℕ)
    (config : Config) (made : W) (xs : List (Registration W)) where
  work-asked :
      (allowed : Result (Unit {0})) (x : Route W) (r : Request) (rest : List String)
      → work (asked mux environ c elapsed config made xs allowed x r rest) ≤ length rest + 2
  work-asked (ok _) x r rest = omega arith
  work-asked (err e) x r rest = omega arith
  work-asked (panic text) x r rest = omega arith

  work-advance :
      (p : Phase W) (w : W) → work (advance mux environ c elapsed config made xs p w).0 ≤ work p - 1
  unfolding advance
  work-advance (asking x r []) w = omega arith
  work-advance (asking x r (an ∷ rest)) w =
      omega (arith, work-asked (call_authorizer (lookup an x.authorizers) r w).0 x r rest)
  work-advance (running x r params) w = omega arith
  work-advance (finished events) w = omega arith

  work-after :
      (s : System W) (i : ℕ) (turns : List ℕ)
      → work ((after mux environ c elapsed config made xs s turns).phase i)
        ≤ work (s.phase i) - turns_of i turns
  unfolding after turn
  work-after s i [] = omega arith
  work-after s i (j ∷ turns) =
      let t = after mux environ c elapsed config made xs s turns in
      elim (Bool-cases (j =ℕ i)) [
        | inl e ↦
            let same : j ≡ i = ground arith in
            rw (e, same) (omega (arith, work-advance (t.phase i) t.world, work-after s i turns))
        | inr e ↦ rw e (work-after s i turns)
      ]

  -- What a request does from its phase on, where it has all turns.
  abbrev pub finish : Phase W → W → List Event × W
  finish (asking x r names) w =
      let (allowed, w₁) = authorize_names x.authorizers r names w in
      let (response, w₂) =
        after_authorizers (site_of mux environ c elapsed config made x.authorizers) allowed x.task
          x.endpoint_config r w₁ in
      (sent mux environ c elapsed config made xs response r, w₂)
  finish (running x r params) w =
      let (result, w₁) = x.task.run (drained r) params w in
      (told mux environ c elapsed config made xs x r params result, w₁)
  finish (finished events) w = (events, w)

  finish-advance :
      (p : Phase W) (w : W)
      → (let (q, w₁) = advance mux environ c elapsed config made xs p w in finish q w₁) ≡ finish p w
  unfolding advance authorize_names after_authorizers run_task
  finish-advance (asking x r []) w = refl
  finish-advance (asking x r (an ∷ rest)) w = go (call_authorizer (lookup an x.authorizers) r w)
    where
      go :
          (o : Result (Unit {0}) × W)
          → finish (asked mux environ c elapsed config made xs o.0 x r rest) o.1 ≡ (
              let (allowed, w₁) =
                Effect.continue o.0 (λ _. authorize_names x.authorizers r rest) o.1 in
              let (response, w₂) =
                after_authorizers
                  (site_of mux environ c elapsed config made x.authorizers)
                  allowed
                  x.task
                  x.endpoint_config
                  r
                  w₁ in
              (sent mux environ c elapsed config made xs response r, w₂))
      go (ok _, w₁) = refl
      go (err e, w₁) = refl
      go (panic text, w₁) = refl
  finish-advance (running x r params) w = refl
  finish-advance (finished events) w = refl

  finish-begin :
      (r : Request) (w : W)
      → finish (begin mux environ c elapsed config made xs r) w
        ≡ serve mux environ c elapsed config made xs r w
  unfolding begin serve handle reply authorize
  finish-begin r w = clean (mux.redirect r)
    where
      found :
          (o : Option (Registration W × Dict String))
          → finish (begin_with mux environ c elapsed config made xs r o) w
            ≡ dispatch mux environ c elapsed config made o r w
      found none = refl
      found (some (x, vars)) = refl

      clean :
          (o : Option (List Event))
          → finish (begin_clean mux environ c elapsed config made xs r o) w
            ≡ serve_clean mux environ c elapsed config made xs o r w
      clean none = found (mux.find xs r)
      clean (some events) = refl

  -- What the request `i` has been left by its turns, where `p` and `w` were its phase and the world.
  abbrev pub LeftBy : ℕ → Phase W → W → System W → Type 0
  LeftBy i p w t = finish (t.phase i) t.world ≡ finish p w

  only-LeftBy :
      (s : System W) (i n : ℕ)
      → LeftBy i (s.phase i) s.world (after mux environ c elapsed config made xs s (only i n))
  unfolding after turn
  only-LeftBy s i zero = refl
  only-LeftBy s i (suc n) =
      let t = after mux environ c elapsed config made xs s (only i n) in
      rw (eq_same i) (finish-advance (t.phase i) t.world ∙ only-LeftBy s i n)

  only-others :
      (s : System W) (i n j : ℕ)
      → (i =ℕ j) ≡ false
      → (after mux environ c elapsed config made xs s (only i n)).phase j ≡ s.phase j
  unfolding after turn
  only-others s i zero j other = refl
  only-others s i (suc n) j other = rw other (only-others s i n j other)

  -- A request that the router has been given, and that then has as many turns in a row as it has
  -- authorizers to ask, and two more, sends what `serve` sends for it in the world of that moment,
  -- and leaves that world as `serve` does and all other requests where they are: so the server that
  -- handles one request after the other is one of the orders in which it can handle them.
  pub only-serve :
      (s : System W) (i n : ℕ) (r : Request)
      → s.phase i ≡ begin mux environ c elapsed config made xs r
      → work (s.phase i) ≤ n
      → let t = after mux environ c elapsed config made xs s (only i n) in
        let served = serve mux environ c elapsed config made xs r s.world in
        (t.phase i ≡ finished served.0)
        × (t.world ≡ served.1)
        × ((j : ℕ) → (i =ℕ j) ≡ false → t.phase j ≡ s.phase j)
  only-serve s i n r h enough =
      let t = after mux environ c elapsed config made xs s (only i n) in
      let (events, done) =
        no_work (t.phase i) (omega (arith, work-after s i (only i n), turns_of-only i n)) in
      let served = ap (λ p. finish p s.world) h ∙ finish-begin r s.world in
      let out = ap (λ p. finish p t.world) (sym done) ∙ only-LeftBy s i n ∙ served in
      (done ∙ ap (λ o. finished o.0) out, ap (λ o. o.1) out, only-others s i n)
