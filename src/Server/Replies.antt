-- ===== src/Server/Replies.antt =====
-- What `Handle` answers.
use goexpose.Auth.{authorize}
use goexpose.Common.{Error, [], Result, String, err, ok, panic, refl, some, ℕ, ◌∷◌, ◌≡◌, ◌≢◌}
use goexpose.Config.{EndpointConfig}
use goexpose.Dict.{Dict}
use goexpose.Request.{Request}
use goexpose.Value.{Value}
use goexpose.Response.{Response, new_response, status_unauthorized}
use goexpose.Response.Writing.{Codec, write, body}
use goexpose.Response.Written.{bodies, statuses, write-once, body_list}
use goexpose.Server.{
  Site, after_authorizers, answer, current_env, drained, handle, params_of, recovered, reply,
  run_task, with_params,
}
use goexpose.Tasks.{Tasker}

-- A `Run` method has no error to return: it gives a response or panics.
abbrev pub ReturnsNoError : {W : Type 0} → Tasker W → Type 0
ReturnsNoError {W} task =
    (r : Request) (vars : Dict Value) (w : W) (e : Error) → (task.run r vars w).0 ≢ err e

module _ {W : Type 0} (site : Site W) (task : Tasker W) (ec : EndpointConfig) (r : Request) where
  -- How the handler came to its response and to the state after it, from the state `w`.
  pub data Replies (w : W) : Response × W → Type 0 where
    refused :
        (e : Error) {w' : W}
        → authorize site.authorizers r ec w ≡ (err e, w')
        → Replies w (new_response status_unauthorized, w')
    authorizer_panics :
        (text : String) {w' : W}
        → authorize site.authorizers r ec w ≡ (panic text, w')
        → Replies w (recovered site.pretty_json text, w')
    task_panics :
        (text : String) (w₁ : W) {w₂ : W}
        → authorize site.authorizers r ec w ≡ (ok tt, w₁)
        → task.run (drained r) (params_of r ec (current_env site w₁)) w₁ ≡ (panic text, w₂)
        → Replies w (recovered site.pretty_json text, w₂)
    answered :
        (w₁ : W) {w₂ : W} (response : Response)
        → authorize site.authorizers r ec w ≡ (ok tt, w₁)
        → task.run (drained r) (params_of r ec (current_env site w₁)) w₁ ≡ (ok response, w₂)
        → Replies w (with_params ec r.method (params_of r ec (current_env site w₁)) response, w₂)

  answer-Replies :
      (w w₁ w₂ : W) (result : Result Response)
      → ((e : Error) → result ≢ err e)
      → authorize site.authorizers r ec w ≡ (ok tt, w₁)
      → task.run (drained r) (params_of r ec (current_env site w₁)) w₁ ≡ (result, w₂)
      → Replies w (answer site ec r.method (params_of r ec (current_env site w₁)) result, w₂)
  unfolding answer
  answer-Replies w w₁ w₂ (ok response) no_error h k = answered w₁ response h k
  answer-Replies w w₁ w₂ (panic text) no_error h k = task_panics text w₁ h k
  answer-Replies w w₁ w₂ (err e) no_error h k = absurd (no_error e refl)

  after-Replies :
      (w w₁ : W) (allowed : Result (Unit {0}))
      → ReturnsNoError task
      → authorize site.authorizers r ec w ≡ (allowed, w₁)
      → Replies w (after_authorizers site allowed task ec r w₁)
  unfolding after_authorizers run_task
  after-Replies w w₁ (ok _) no_error h =
      let params = params_of r ec (current_env site w₁) in
      answer-Replies w w₁ (task.run (drained r) params w₁).1 (task.run (drained r) params w₁).0
        (no_error (drained r) params w₁) h refl
  after-Replies w w₁ (err e) no_error h = refused e h
  after-Replies w w₁ (panic text) no_error h = authorizer_panics text h

  -- For a task that gives a response or panics, every reply of a handler is one of four: 401 where
  -- an authorizer returns an error, and then the task has not run; 500 where an authorizer panics,
  -- or the task does after they have passed; else the task's own response after they have passed,
  -- with the parameters added where they are asked for.
  pub reply-Replies : ReturnsNoError task → (w : W) → Replies w (reply site task ec r w)
  unfolding reply
  reply-Replies no_error w =
      let allowed = authorize site.authorizers r ec w in
      after-Replies w allowed.1 allowed.0 no_error refl

  -- The handler sends one status line for every request, that of its reply, and at most one body.
  pub handle-once :
      (c : Codec) (elapsed : ℕ) (w : W)
      → (statuses (handle site c elapsed task ec r w).0 ≡ (reply site task ec r w).0.status ∷ [])
        × (bodies (handle site c elapsed task ec r w).0
            ≡ body_list (body c (reply site task ec r w).0))
  unfolding handle
  handle-once c elapsed w =
      let sent = write-once c (reply site task ec r w).0 r.method r.path (some elapsed) [] in
      (unfold statuses in sent.0, unfold bodies in sent.1)

-- A request that an authorizer refuses gets the same bytes whatever the error says and whatever the
-- task is; the state it leaves is that of the authorizers, so no task has run.
pub handle-refused :
    {W : Type 0} (site : Site W) (task : Tasker W) (ec : EndpointConfig) (r : Request) (c : Codec)
    (elapsed : ℕ) (e : Error) (w w' : W)
    → authorize site.authorizers r ec w ≡ (err e, w')
    → handle site c elapsed task ec r w
      ≡ ((write c (new_response status_unauthorized) r.method r.path (some elapsed) []).0, w')
unfolding handle reply after_authorizers
handle-refused site task ec r c elapsed e w w' h = rw h
