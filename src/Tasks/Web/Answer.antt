-- ===== src/Tasks/Web/Answer.antt =====
-- What a validated http task answers.
use goexpose.Common.{
  Bool-cases, if◌then◌else◌, String, inl, inr, length, new, none, ok, refl, some, ◌=ℕ◌, ◌==◌, ◌≡◌,
  >>=-eq-ok, ok-injective, ◌∙◌,
}
use goexpose.Dict.{Dict, lookup}
use goexpose.Formats.{FormatFunc, Formatted, format, format_text, formats_delimiter, verify_format}
use goexpose.Formats.Picking.{Picks, format-verify_format}
use goexpose.Request.{Request}
use goexpose.Response.{Response, add_value, set_result, set_status}
use goexpose.Response.Keys.{value, value-add_value, value-set_result, value-set_status}
use goexpose.Tasks.Item
use goexpose.Tasks.Item.{
  Item, attempt, blank, check, give_with, pure, put, put_if, run_item, settle, tell,
}
use goexpose.Tasks.Item.Answers.{items-Answers}
use goexpose.Tasks.Item.Formatted.{conclude, conclude-Ends, conclude-IsDone}
use goexpose.Tasks.Item.Outcome.{
  set_status-IsFresh, Ends, IsDone, IsSettled, add_value-IsFresh, blank-IsFresh,
}
use goexpose.Tasks.Item.Rules.{item_rules}
use goexpose.Tasks.Single.{Answers, single_index}
use goexpose.Tasks.Web.{
  Body, Client, HttpConfig, HttpUrl, do_request, run, run_urls, url_steps, used_method, validate,
  validate_url, validate_urls,
}
use goexpose.Text.{split, trim_space}
use goexpose.Utils.{Interpolate}
use goexpose.Value.{Value, num, pos, str}

-- The index of a validated configuration has been checked against its addresses.
validate_sound :
    (reg : Dict FormatFunc) (h h' : HttpConfig)
    → validate reg h ≡ ok h'
    → single_index (new "http task single_result out of bounds") h'.single_result (length h'.urls)
      ≡ ok h'.single_result_index
unfolding validate
validate_sound reg h h' valid = elim (Bool-cases (length h.urls =ℕ 0)) [
  | inl e ↦ cc (rw e at valid)
  | inr e ↦
      let (urls, found, valid₁) = >>=-eq-ok (validate_urls reg h.urls) _ (rw e at valid) in
      let (i, index, valid₂) = >>=-eq-ok (single_index _ h.single_result (length urls)) _ valid₁ in
      rw (← ok-injective valid₂) index
]

-- The format of a validated address is one that `VerifyFormat` has returned.
validate_url_verified :
    (reg : Dict FormatFunc) (u₀ u : HttpUrl)
    → validate_url reg u₀ ≡ ok u
    → verify_format reg u₀.format ≡ ok u.format
unfolding validate_url
validate_url_verified reg u₀ u valid = elim (Bool-cases (trim_space u₀.url == "")) [
  | inl e ↦ cc (rw e at valid)
  | inr e ↦
      let (verified, verifies, valid₁) =
        >>=-eq-ok (verify_format reg u₀.format) _ (rw e at valid) in
      rw (← ok-injective valid₁) verifies
]

module _ {W Sent Answer : Type 0} (reg : Dict FormatFunc) (interpolate : Interpolate)
    (lower : String → String) (client : Client W Sent Answer) where
  url_steps-Ends :
      (r : Request) (vars : Dict Value) (u : HttpUrl)
      → Ends (url_steps reg interpolate lower client r vars u)
  unfolding url_steps
  url_steps-Ends r vars u = search (item_rules, conclude-Ends) depth 20

  -- Whatever the request and the other servers do, a validated http task answers with a response for
  -- each address, which has a result or an error and not both, and finishes as its `single_result`
  -- asks.
  pub http_run-Answers :
      (h h' : HttpConfig) (r : Request) (vars : Dict Value) (w : W)
      → validate reg h ≡ ok h'
      → Answers IsSettled h'.single_result h'.single_result_index
          (length h'.urls)
          (run reg interpolate lower client h' r vars w).0
  unfolding run run_urls
  http_run-Answers h h' r vars w valid =
      items-Answers (url_steps reg interpolate lower client r vars) h'.urls (r.body, w) _
        h'.single_result h'.single_result_index (url_steps-Ends r vars)
        (validate_sound reg h h' valid)

  concluded :
      (f : Formatted) (r : Response) (w : Body × W)
      → f.error ≡ none
      → value "status" (conclude f r w).1 ≡ value "status" r
  unfolding give_with
  concluded f r w e = rw e (rw (value-add_value, value-set_result) refl)

  -- An address of a validated task gives a result, with the status of the answer, whenever its
  -- template renders, the request can be made, the other server answers and the body of its answer
  -- can be read: the format never fails, where "text" is registered as `FormatText`.
  pub http_url-tells :
      (r : Request) (vars : Dict Value) (u₀ u : HttpUrl) (address text : String) (req : Sent)
      (answer : Answer) (b b₁ : Body) (w w₁ w₂ : W)
      → lookup "text" reg ≡ some format_text
      → validate_url reg u₀ ≡ ok u
      → interpolate u.url vars ≡ inr address
      → client.new_request (used_method r.method u) address ≡ inr req
      → do_request client u req (b, w) ≡ (inr answer, (b₁, w₁))
      → client.read_all answer w₁ ≡ (inr text, w₂)
      → (value "status" (run_item (url_steps reg interpolate lower client r vars u) blank (b, w)).0
          ≡ some (num (pos (client.status_code answer))))
        × IsDone (run_item (url_steps reg interpolate lower client r vars u) blank (b, w)).0
  unfolding url_steps run_item Item.◌>>=◌ check attempt put_if put pure settle tell
  http_url-tells r vars u₀ u address text req answer b b₁ w w₁ w₂ texts valid rendered made sent
        read =
      let clean =
        (format-verify_format reg u₀.format u.format text texts
          (validate_url_verified reg u₀ u valid)).1 in
      let code = client.status_code answer in
      let out = format reg text u.format in
      let with_headers = add_value "headers" (client.headers answer) (set_status code blank) in
      let told = set_status-IsFresh code blank blank-IsFresh in
      elim (Bool-cases u.return_headers) [
        | inl shown ↦
            rw (rendered, made, sent, read, shown)
              (
                concluded out with_headers (b₁, w₂) clean
                    ∙ rw (value-add_value, value-set_status) refl,
                conclude-IsDone out with_headers (b₁, w₂) clean
                    (add_value-IsFresh "headers" (client.headers answer) _ refl refl told),
              )
        | inr hidden ↦
            rw (rendered, made, sent, read, hidden)
              (
                concluded out (set_status code blank) (b₁, w₂) clean ∙ rw value-set_status refl,
                conclude-IsDone out (set_status code blank) (b₁, w₂) clean told,
              )
      ]

  -- The response that an answer is put into: its status, and its headers where they are asked for.
  abbrev pub received : HttpUrl → Answer → Response
  received u answer =
      if u.return_headers
      then add_value "headers" (client.headers answer)
          (set_status (client.status_code answer) blank)
      else set_status (client.status_code answer) blank

  -- The formatted value with its format.
  abbrev pub filled : Formatted → Response → Response
  filled f r = add_value "format" (str f.format) (set_result f.value r)

  conclude-filled :
      (f : Formatted) (r : Response) (w : Body × W)
      → f.error ≡ none
      → (conclude f r w).1 ≡ filled f r
  unfolding give_with
  conclude-filled f r w e = rw e refl

  -- The response of an address whose answer has been read.
  pub http_url-filled :
      (r : Request) (vars : Dict Value) (u₀ u : HttpUrl) (address text : String) (req : Sent)
      (answer : Answer) (b b₁ : Body) (w w₁ w₂ : W)
      → lookup "text" reg ≡ some format_text
      → validate_url reg u₀ ≡ ok u
      → interpolate u.url vars ≡ inr address
      → client.new_request (used_method r.method u) address ≡ inr req
      → do_request client u req (b, w) ≡ (inr answer, (b₁, w₁))
      → client.read_all answer w₁ ≡ (inr text, w₂)
      → (f : Formatted) × Picks reg text (split formats_delimiter u.format) f
        × ((run_item (url_steps reg interpolate lower client r vars u) blank (b, w)).0
            ≡ filled f (received u answer))
  unfolding url_steps run_item Item.◌>>=◌ check attempt put_if put pure settle tell
  http_url-filled r vars u₀ u address text req answer b b₁ w w₁ w₂ texts valid rendered made sent
        read =
      let (picks, clean) =
        format-verify_format reg u₀.format u.format text texts
          (validate_url_verified reg u₀ u valid) in
      let out = format reg text u.format in
      let code = client.status_code answer in
      (
        out,
        picks,
        elim (Bool-cases u.return_headers) [
          | inl shown ↦
              rw (rendered, made, sent, read, shown)
                (conclude-filled out
                  (add_value "headers" (client.headers answer) (set_status code blank)) (b₁, w₂)
                  clean)
          | inr hidden ↦
              rw (rendered, made, sent, read, hidden)
                (conclude-filled out (set_status code blank) (b₁, w₂) clean)
        ],
      )
