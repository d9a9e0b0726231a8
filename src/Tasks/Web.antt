-- ===== src/Tasks/Web.antt =====
-- The http task of tasks.go, which calls other servers. The client reads the body of the request
-- itself, so that what is left of it is passed from one address to the next.
pub mod Answer
pub mod Fetches
pub mod Tests
use goexpose.Common.{
  Bool, Error, List, [], Option, Result, String, err, false, if◌then◌else◌, inl, inr, length, new,
  none, ok, outcome, some, true, ℕ, ◌=ℕ◌, ◌==◌, ◌>>=◌, ◌∷◌, ◌⊎◌,
}
use goexpose.Config.{TaskConfig}
use goexpose.Dict.{Dict}
use goexpose.Effect.{Call, Io}
use goexpose.Formats.{FormatFunc, add_format, format, has_format, verify_format}
use goexpose.Request.{Request}
use goexpose.Response.{Response, new_response, status_ok}
use goexpose.Tasks.{Tasker, task}
use goexpose.Tasks.Item
use goexpose.Tasks.Item.{Item, attempt, blank, check, each, put_if, run_item, tell}
use goexpose.Tasks.Item.Formatted.{conclude}
use goexpose.Tasks.Single.{finish, single_index}
use goexpose.Text.{has_part, trim_space}
use goexpose.Utils.{Interpolate}
use goexpose.Value.{Value, pos, ℤ}

pub record HttpUrl : Type 0 where
  pub url : String
  pub method : String
  pub post_body : Bool
  pub format : String
  pub return_headers : Bool

pub record HttpConfig : Type 0 where
  pub urls : List HttpUrl
  pub single_result : Option ℤ
  pub single_result_index : ℤ

-- `&HttpTaskConfig{}`
abbrev pub new_config : HttpConfig
new_config = record { urls = []; single_result = none; single_result_index = pos 0 }

module _ (reg : Dict FormatFunc) where
  -- The loop works on pointers, so that the trimmed address and the verified format are kept.
  unfoldable pub validate_url : HttpUrl → Result HttpUrl
  validate_url u =
      let url = trim_space u.url in
      if url == ""
      then err (new "Invalid url in http task.")
      else do verified ← verify_format reg u.format; ok (record u { url = url; format = verified })

  unfoldable pub validate_urls : List HttpUrl → Result (List HttpUrl)
  validate_urls [] = ok []
  validate_urls (u ∷ us) = do u' ← validate_url u; us' ← validate_urls us; ok (u' ∷ us')

  unfoldable pub validate : HttpConfig → Result HttpConfig
  validate h =
      if length h.urls =ℕ 0 then err (new "http task must provide at least one url") else do
        urls ← validate_urls h.urls
        index ←
            single_index (new "http task single_result out of bounds") h.single_result (length urls)
        ok (record h { urls = urls; single_result_index = index })

-- What is left to be read of a request's body, nothing where it has none.
abbrev pub Body : Type 0
Body = Option (String × Option Error)

-- The http package: `http.NewRequest`, `client.Do` without a body and with one, of which it leaves
-- the rest, the status and the headers of an answer, and `ioutil.ReadAll` of its body.
pub record Client (W Sent Answer : Type 0) : Type 0 where
  pub new_request : String → String → Error ⊎ Sent
  pub send : Sent → Call W Answer
  pub send_body : Sent → String × Option Error → W → (Error ⊎ Answer) × (String × Option Error) × W
  pub status_code : Answer → ℕ
  pub headers : Answer → Value
  pub read_all : Answer → Call W String

-- `lower` is `strings.ToLower`, and `content_type` the header of the request to the server itself.
unfoldable pub guess_format : (String → String) → String → String → String
guess_format lower content_type format =
    if has_format format "json"
    then format
    else if has_part "application/json" (lower content_type)
    then add_format format "json"
    else format

module _ {W Sent Answer : Type 0} (client : Client W Sent Answer) where
  abbrev pub keep_rest :
      (Error ⊎ Answer) × (String × Option Error) × W → (Error ⊎ Answer) × (Body × W)
  keep_rest (answer, rest, w) = (answer, (some rest, w))

  abbrev pub keep_body : Body → (Error ⊎ Answer) × W → (Error ⊎ Answer) × (Body × W)
  keep_body body (answer, w) = (answer, (body, w))

  abbrev pub do_with : Bool → Sent → Body → W → (Error ⊎ Answer) × (Body × W)
  do_with true req (some body) w = keep_rest (client.send_body req body w)
  do_with true req none w = keep_body none (client.send req w)
  do_with false req body w = keep_body body (client.send req w)

  -- `client.Do(req)`, where the request was made with the body if it is asked for and there is one.
  unfoldable pub do_request : HttpUrl → Sent → Call (Body × W) Answer
  do_request u req (body, w) = do_with u.post_body req body w

  abbrev pub read_answer : Answer → Call (Body × W) String
  read_answer answer (body, w) = let (text, w') = client.read_all answer w in (text, (body, w'))

abbrev pub used_method : String → HttpUrl → String
used_method method u = if u.method == "" then method else u.method

module _ {W Sent Answer : Type 0} (reg : Dict FormatFunc) (interpolate : Interpolate)
    (lower : String → String) (client : Client W Sent Answer) where
  -- The guessed format is assigned, and not used.
  abbrev pub format_answer : String → HttpUrl → String → Item (Body × W) (Unit {0})
  format_answer guessed u text = conclude (format reg text u.format)

  unfoldable pub url_steps : Request → Dict Value → HttpUrl → Item (Body × W) (Unit {0})
  url_steps r vars u = Item.◌>>=◌ (check (interpolate u.url vars)) λ address.
      Item.◌>>=◌ (check (client.new_request (used_method r.method u) address)) λ req.
        Item.◌>>=◌ (attempt (do_request client u req)) λ answer.
          Item.◌>>=◌ (attempt (read_answer client answer)) λ text.
            Item.◌>>=◌ (tell (client.status_code answer)) λ _.
              Item.◌>>=◌ (put_if u.return_headers "headers" (client.headers answer))
                λ _. format_answer (guess_format lower (r.header "Content-Type") u.format) u text

  unfoldable pub run_urls : HttpConfig → Request → Dict Value → W → List Response × (Body × W)
  run_urls h r vars w = each (λ u. run_item (url_steps r vars u) blank) h.urls (r.body, w)

  unfoldable pub run : HttpConfig → Request → Dict Value → Io W Response
  run h r vars w =
      let (results, rest) = run_urls h r vars w in
      (finish h.single_result_index results (new_response status_ok), rest.1)

  unfoldable pub http_task_factory :
      (String → HttpConfig → Error ⊎ HttpConfig) → TaskConfig → Result (List (Tasker W))
  http_task_factory unmarshal tc = do
    config ← outcome (unmarshal tc.config new_config)
    config' ← validate reg config
    ok (task (run config') ∷ [])
