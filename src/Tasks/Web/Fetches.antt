-- ===== src/Tasks/Web/Fetches.antt =====
-- How an address of an http task comes to its response.
use goexpose.Common.{Error, String, Sum-cases, inl, inr, ok, some, ◌≡◌, ap}
use goexpose.Dict.{Dict, lookup}
use goexpose.Formats.{FormatFunc, Formatted, format_text, formats_delimiter}
use goexpose.Formats.Picking.{Picks}
use goexpose.Text.{split}
use goexpose.Request.{Request}
use goexpose.Response.{Response, set_error}
use goexpose.Response.Keys.{value}
use goexpose.Tasks.Item
use goexpose.Tasks.Item.{attempt, blank, check, run_item, settle}
use goexpose.Tasks.Item.Outcome.{IsDone}
use goexpose.Tasks.Web.{Body, Client, HttpUrl, do_request, url_steps, used_method, validate_url}
use goexpose.Tasks.Web.Answer.{filled, http_url-filled, http_url-tells, received}
use goexpose.Utils.{Interpolate}
use goexpose.Value.{Value, error, num, pos}

module _ {W Sent Answer : Type 0} (reg : Dict FormatFunc) (interpolate : Interpolate)
    (lower : String → String) (client : Client W Sent Answer) (r : Request) (vars : Dict Value)
    (u : HttpUrl) where
  abbrev method : String
  method = used_method r.method u

  -- The response of an address, from what is left of the body and the state: the error of the first
  -- step that fails, or the formatted answer of the other server with its status.
  pub data Fetches (b : Body) (w : W) : Response → Type 0 where
    unrendered :
        (e : Error) → interpolate u.url vars ≡ inl e → Fetches b w (set_error (error e) blank)
    unmade :
        (address : String) (e : Error)
        → interpolate u.url vars ≡ inr address
        → client.new_request method address ≡ inl e
        → Fetches b w (set_error (error e) blank)
    unsent :
        (address : String) (req : Sent) (e : Error)
        → interpolate u.url vars ≡ inr address
        → client.new_request method address ≡ inr req
        → (do_request client u req (b, w)).0 ≡ inl e
        → Fetches b w (set_error (error e) blank)
    unread :
        (address : String) (req : Sent) (answer : Answer) (b₁ : Body) (w₁ : W) (e : Error)
        → interpolate u.url vars ≡ inr address
        → client.new_request method address ≡ inr req
        → do_request client u req (b, w) ≡ (inr answer, (b₁, w₁))
        → (client.read_all answer w₁).0 ≡ inl e
        → Fetches b w (set_error (error e) blank)
    fetched :
        (address text : String) (req : Sent) (answer : Answer) (b₁ : Body) (w₁ w₂ : W)
        (response : Response) (f : Formatted)
        → interpolate u.url vars ≡ inr address
        → client.new_request method address ≡ inr req
        → do_request client u req (b, w) ≡ (inr answer, (b₁, w₁))
        → client.read_all answer w₁ ≡ (inr text, w₂)
        → Picks reg text (split formats_delimiter u.format) f
        → response
          ≡ filled reg interpolate lower client f (received reg interpolate lower client u answer)
        → value "status" response ≡ some (num (pos (client.status_code answer)))
        → IsDone response
        → Fetches b w response

  -- The response of an address of a validated task is the error of the first of its steps that fails
  -- (the rendering of its template, the making of the request, the call, the reading of the answer),
  -- without a status; where none fails it has the status of the answer, its headers where they are asked
  -- for, and the value and the name of the first part of the verified format that takes the answer's
  -- body, and no error, where "text" is registered as `FormatText`.
  pub http_url-Fetches :
      (u₀ : HttpUrl) (b : Body) (w : W)
      → lookup "text" reg ≡ some format_text
      → validate_url reg u₀ ≡ ok u
      → Fetches b w (run_item (url_steps reg interpolate lower client r vars u) blank (b, w)).0
  unfolding url_steps run_item Item.◌>>=◌ check attempt settle
  http_url-Fetches u₀ b w texts valid = elim (Sum-cases (interpolate u.url vars)) [
    | inl (e, bad) ↦ rw bad (unrendered e bad)
    | inr (address, rendered) ↦ elim (Sum-cases (client.new_request method address)) [
      | inl (e, bad) ↦ rw (rendered, bad) (unmade address e rendered bad)
      | inr (req, made) ↦ elim (Sum-cases (do_request client u req (b, w)).0) [
        | inl (e, bad) ↦ rw (rendered, made, bad) (unsent address req e rendered made bad)
        | inr (answer, sent) ↦
            let rest = (do_request client u req (b, w)).1 in
            let called : do_request client u req (b, w) ≡ (inr answer, (rest.0, rest.1)) =
              ap (λ x. (x, rest)) sent in
            elim (Sum-cases (client.read_all answer rest.1).0) [
              | inl (e, bad) ↦
                  rw (rendered, made, called, bad)
                    (unread address req answer rest.0 rest.1 e rendered made called bad)
              | inr (text, got) ↦
                  let read = ap (λ x. (x, (client.read_all answer rest.1).1)) got in
                  let (told, is_done) =
                    http_url-tells reg interpolate lower client r vars u₀ u address text req answer
                      b rest.0 w rest.1 (client.read_all answer rest.1).1 texts valid rendered made
                      called read in
                  let (f, picks, same) =
                    http_url-filled reg interpolate lower client r vars u₀ u address text req answer
                      b rest.0 w rest.1 (client.read_all answer rest.1).1 texts valid rendered made
                      called read in
                  fetched address text req answer rest.0 rest.1 (client.read_all answer rest.1).1 _
                    f rendered made called read picks same told is_done
            ]
      ]
    ]
  ]
