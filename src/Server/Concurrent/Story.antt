-- ===== src/Server/Concurrent/Story.antt =====
-- What has happened to a request, whatever turns the others have taken.
use goexpose.Auth.{Authorizer, Authorizers, call_authorizer}
use goexpose.Common.{
  Error, List, [], Option, String, append-nil, append_assoc, err, none, ok, panic, some, sym, ℕ,
  ◌++◌, ◌=ℕ◌, ◌∙◌, ◌≡◌, ◌∷◌, refl, Result, inl, inr, Bool-cases, arith,
}
use mathlib.Core.Path.{subst}
use goexpose.Config.{Config}
use goexpose.Dict.{Dict, lookup}
use goexpose.Request.{Request}
use goexpose.Response.{new_response, status_unauthorized}
use goexpose.Response.Writing.{Codec, Event}
use goexpose.Server.{drained, not_found_handler, recovered}
use goexpose.Server.Routes.{Registration, Route}
use goexpose.Value.{Value}
use goexpose.Server.Serving.{Mux}
use goexpose.Server.Concurrent.{
  Phase, advance, after, asked, asking, begin, begin_clean, begin_with, finished, names_to_check,
  params_at, running, sent, start, told, turn,
}

-- The turns `front` were the first of `turns`.
pub data Since (front : List ℕ) : List ℕ → Type 0 where
  now : Since front front
  later : {turns : List ℕ} {k : ℕ} → Since front turns → Since front (k ∷ turns)

module _ {W : Type 0} (mux : Mux W) (environ : W → List String) (c : Codec) (elapsed : ℕ)
    (config : Config) (made : W) (xs : List (Registration W)) (rs : ℕ → Request) (w : W) where
  -- The world after these turns.
  abbrev pub world : List ℕ → W
  world turns =
      (after mux environ c elapsed config made xs (start mux environ c elapsed config made xs rs w)
        turns).world

  -- In turns of the request `i`, one after the other, the authorizers of these names have let it pass.
  pub data Vouched (i : ℕ) (a : Authorizers W) (r : Request) : List String → List ℕ → Type 0 where
    nobody : {turns : List ℕ} → Vouched i a r [] turns
    somebody :
        (names : List String) (an : String) {z : Authorizer W} {front turns : List ℕ}
        → Vouched i a r names front
        → lookup an a ≡ some z
        → (z r (world front)).0 ≡ ok tt
        → Since (i ∷ front) turns
        → Vouched i a r (names ++ an ∷ []) turns

  Vouched-later :
      {i k : ℕ} {a : Authorizers W} {r : Request} {names : List String} {turns : List ℕ}
      → Vouched i a r names turns
      → Vouched i a r names (k ∷ turns)
  Vouched-later nobody = nobody
  Vouched-later (somebody names an v known passed since) =
      somebody names an v known passed (later since)

  -- How the request `i` has come to its phase by these turns.
  pub data Story (i : ℕ) (turns : List ℕ) : Phase W → Type 0 where
    redirected :
        (events : List Event) → mux.redirect (rs i) ≡ some events → Story i turns (finished events)
    missing :
        mux.redirect (rs i) ≡ none
        → mux.find xs (rs i) ≡ none
        → Story i turns (finished (not_found_handler c elapsed (rs i)))
    at_the_door :
        (x : Registration W) (vars : Dict String) (passed names : List String)
        → mux.redirect (rs i) ≡ none
        → mux.find xs (rs i) ≡ some (x, vars)
        → names_to_check x.route.endpoint_config (rs i).method ≡ passed ++ names
        → Vouched i x.route.authorizers (record (rs i) { vars = vars }) passed turns
        → Story i turns (asking x.route (record (rs i) { vars = vars }) names)
    refused :
        (x : Registration W) (vars : Dict String) (passed : List String) (an : String)
        (names : List String) (e : Error) {front : List ℕ}
        → mux.redirect (rs i) ≡ none
        → mux.find xs (rs i) ≡ some (x, vars)
        → names_to_check x.route.endpoint_config (rs i).method ≡ passed ++ an ∷ names
        → Vouched i x.route.authorizers (record (rs i) { vars = vars }) passed front
        → (call_authorizer
            (lookup an x.route.authorizers)
            (record (rs i) { vars = vars })
            (world front)).0
          ≡ err e
        → Since (i ∷ front) turns
        → Story i turns (
            finished
              (sent mux environ c elapsed config made xs (new_response status_unauthorized) (rs i)))
    panicked :
        (x : Registration W) (vars : Dict String) (passed : List String) (an : String)
        (names : List String) (text : String) {front : List ℕ}
        → mux.redirect (rs i) ≡ none
        → mux.find xs (rs i) ≡ some (x, vars)
        → names_to_check x.route.endpoint_config (rs i).method ≡ passed ++ an ∷ names
        → Vouched i x.route.authorizers (record (rs i) { vars = vars }) passed front
        → (call_authorizer
            (lookup an x.route.authorizers)
            (record (rs i) { vars = vars })
            (world front)).0
          ≡ panic text
        → Since (i ∷ front) turns
        → Story i turns (
            finished (
              sent mux environ c elapsed config made xs (recovered config.pretty_json text) (rs i)))
    ready :
        (x : Registration W) (vars : Dict String) {front : List ℕ}
        → mux.redirect (rs i) ≡ none
        → mux.find xs (rs i) ≡ some (x, vars)
        → Vouched i x.route.authorizers
            (record (rs i) { vars = vars })
            (names_to_check x.route.endpoint_config (rs i).method)
            front
        → Since (i ∷ front) turns
        → Story i turns (
            running x.route
              (record (rs i) { vars = vars })
              (params_at mux environ c elapsed config made xs x.route
                (record (rs i) { vars = vars })
                (world front)))
    answered :
        (x : Registration W) (vars : Dict String) {front before : List ℕ}
        → mux.redirect (rs i) ≡ none
        → mux.find xs (rs i) ≡ some (x, vars)
        → Vouched i x.route.authorizers
            (record (rs i) { vars = vars })
            (names_to_check x.route.endpoint_config (rs i).method)
            front
        → Since (i ∷ front) before
        → Since (i ∷ before) turns
        → Story i turns (
            let params =
              params_at mux environ c elapsed config made xs x.route
                (record (rs i) { vars = vars })
                (world front) in
            finished (
              told mux environ c elapsed config made xs x.route
                (record (rs i) { vars = vars })
                params
                (x.route.task.run
                  (drained (record (rs i) { vars = vars }))
                  params
                  (world before)).0))

  Story-later : {i k : ℕ} {turns : List ℕ} {p : Phase W} → Story i turns p → Story i (k ∷ turns) p
  Story-later (redirected events e) = redirected events e
  Story-later (missing e f) = missing e f
  Story-later (at_the_door x vars passed names e f n v) =
      at_the_door x vars passed names e f n (Vouched-later v)
  Story-later (refused x vars passed an names x' e f n v o since) =
      refused x vars passed an names x' e f n v o (later since)
  Story-later (panicked x vars passed an names text e f n v o since) =
      panicked x vars passed an names text e f n v o (later since)
  Story-later (ready x vars e f v since) = ready x vars e f v (later since)
  Story-later (answered x vars e f v s t) = answered x vars e f v s (later t)

  begin-Story : (i : ℕ) → Story i [] (begin mux environ c elapsed config made xs (rs i))
  unfolding begin
  begin-Story i = clean (mux.redirect (rs i)) refl
    where
      found :
          (o : Option (Registration W × Dict String))
          → mux.redirect (rs i) ≡ none
          → mux.find xs (rs i) ≡ o
          → Story i [] (begin_with mux environ c elapsed config made xs (rs i) o)
      found none e f = missing e f
      found (some (x, vars)) e f = at_the_door x vars [] _ e f refl nobody

      clean :
          (o : Option (List Event))
          → mux.redirect (rs i) ≡ o
          → Story i [] (begin_clean mux environ c elapsed config made xs (rs i) o)
      clean none e = found (mux.find xs (rs i)) e refl
      clean (some events) e = redirected events e

  call_passed :
      (o : Option (Authorizer W)) (r : Request) (w' : W)
      → (call_authorizer o r w').0 ≡ ok tt
      → (z : Authorizer W) × (o ≡ some z) × ((z r w').0 ≡ ok tt)
  call_passed none r w' h = cc
  call_passed (some z) r w' h = (z, refl, h)

  asked-Story :
      (i : ℕ) {turns : List ℕ} (x : Registration W) (vars : Dict String) (passed : List String)
      (an : String) (names : List String) (allowed : Result (Unit {0}))
      → mux.redirect (rs i) ≡ none
      → mux.find xs (rs i) ≡ some (x, vars)
      → names_to_check x.route.endpoint_config (rs i).method ≡ passed ++ an ∷ names
      → Vouched i x.route.authorizers (record (rs i) { vars = vars }) passed turns
      → (call_authorizer
          (lookup an x.route.authorizers)
          (record (rs i) { vars = vars })
          (world turns)).0
        ≡ allowed
      → Story i (i ∷ turns) (
          asked mux environ c elapsed config made xs allowed x.route
            (record (rs i) { vars = vars })
            names)
  asked-Story i {turns} x vars passed an names (ok _) e f n v h =
      let (z, known, let_in) =
        call_passed (lookup an x.route.authorizers) (record (rs i) { vars = vars }) (world turns)
          h in
      at_the_door x vars (passed ++ an ∷ []) names e f (n ∙ sym (append_assoc passed _ names))
        (somebody passed an v known let_in now)
  asked-Story i x vars passed an names (err e') e f n v h =
      refused x vars passed an names e' e f n v h now
  asked-Story i x vars passed an names (panic text) e f n v h =
      panicked x vars passed an names text e f n v h now

  advance-Story :
      (i : ℕ) (turns : List ℕ) (p : Phase W)
      → Story i turns p
      → Story i (i ∷ turns) (advance mux environ c elapsed config made xs p (world turns)).0
  unfolding advance
  advance-Story i turns _ (redirected events e) = redirected events e
  advance-Story i turns _ (missing e f) = missing e f
  advance-Story i turns _ (at_the_door x vars passed [] e f n v) =
      ready x vars e f
        (subst (λ ns. Vouched i x.route.authorizers (record (rs i) { vars = vars }) ns turns)
          (sym (n ∙ append-nil passed)) v)
        now
  advance-Story i turns _ (at_the_door x vars passed (an ∷ names) e f n v) =
      asked-Story i x vars passed an names _ e f n v refl
  advance-Story i turns _ (refused x vars passed an names x' e f n v o since) =
      refused x vars passed an names x' e f n v o (later since)
  advance-Story i turns _ (panicked x vars passed an names text e f n v o since) =
      panicked x vars passed an names text e f n v o (later since)
  advance-Story i turns _ (ready x vars e f v since) = answered x vars e f v since now
  advance-Story i turns _ (answered x vars e f v s t) = answered x vars e f v s (later t)

  -- Whatever turns the requests take, in whatever order, each of them has a story for where it is.
  pub after-Story :
      (turns : List ℕ) (i : ℕ)
      → Story i turns (
          (after mux environ c elapsed config made xs
              (start mux environ c elapsed config made xs rs w)
              turns).phase
            i)
  unfolding after turn
  after-Story [] i = begin-Story i
  after-Story (j ∷ turns) i = elim (Bool-cases (j =ℕ i)) [
    | inl e ↦
        let same : j ≡ i = ground arith in
        rw (e, same) (advance-Story i turns _ (after-Story turns i))
    | inr e ↦ rw e (Story-later (after-Story turns i))
  ]

  Vouched-Since :
      {i : ℕ} {a : Authorizers W} {r : Request} {names : List String} {front turns : List ℕ}
      → Since front turns
      → Vouched i a r names front
      → Vouched i a r names turns
  Vouched-Since now v = v
  Vouched-Since (later since) v = Vouched-later (Vouched-Since since v)

  Since-tail : {k : ℕ} {front turns : List ℕ} → Since (k ∷ front) turns → Since front turns
  Since-tail now = later now
  Since-tail (later since) = later (Since-tail since)

  -- A request at its task has been found a registration, and all names of its route have let it pass.
  pub ready_inverse :
      (i : ℕ) (turns : List ℕ) {x : Route W} {r : Request} {params : Dict Value}
      → Story i turns (running x r params)
      → (y : Registration W) × (vars : Dict String) × (mux.find xs (rs i) ≡ some (y, vars))
        × (y.route ≡ x)
        × (r.method ≡ (rs i).method)
        × Vouched i x.authorizers r (names_to_check x.endpoint_config r.method) turns
  ready_inverse i turns (ready x vars e f v since) =
      (x, vars, f, refl, refl, Vouched-Since (Since-tail since) v)
