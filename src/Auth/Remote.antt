-- ===== src/Auth/Remote.antt =====
-- `HttpAuthorizer` of auth.go: a request to a web service decides.
use goexpose.Common.{
  ◌∙◌, Error, Result, String, arith, err, if◌then◌else◌, inl, inr, not, ok, outcome, ℕ, ◌=ℕ◌, ◌>>=◌,
  ◌⊎◌, ◌≡◌, ◌↔◌, refl, [], ◌∷◌, ap,
}
use goexpose.Config.{AuthorizerConfig}
use goexpose.Effect
use goexpose.Effect.{Io, pure}
use goexpose.Http.{Net, new_requester, do_new, default_timeout}
use goexpose.Request.{Request}
use goexpose.Response.{status_ok}
use goexpose.Text.{trim_space}
use goexpose.Utils.{Interpolate}
use goexpose.Value.{Value, str}
use goexpose.Dict.{Dict}
use goexpose.Auth.{Authorizer, unauthorized}

pub record HttpConfig : Type 0 where
  pub url : String
  pub body : String
  pub method : String

-- `unmarshal` is `json.Unmarshal` into the fresh structure, and `normalize` is `url.Parse` followed
-- by `String()`.
unfoldable pub new_http_config :
    (String → HttpConfig → Error ⊎ HttpConfig)
    → (String → Error ⊎ String)
    → AuthorizerConfig
    → Result HttpConfig
new_http_config unmarshal normalize ac = do
  hac ← outcome (unmarshal ac.config (record { url = ""; body = ""; method = "GET" }))
  url ← outcome (normalize hac.url)
  ok (record { url = trim_space url; body = trim_space hac.body; method = trim_space hac.method })

-- The data of the three templates.
abbrev pub template_data : Dict Value
template_data = ("username", str "phonkee") ∷ ("password", str "password") ∷ []

-- `Interpolate` gives "" beside an error.
abbrev pub rendered : Error ⊎ String → String
rendered (inl e) = ""
rendered (inr s) = s

-- `interpolate` is `Interpolate` of utils.go. The errors of the three renderings are overwritten by
-- that of the request.
module _ {W Sent : Type 0} (interpolate : Interpolate) (net : Net W Sent) where
  abbrev pub render : String → String
  render template = rendered (interpolate template template_data)

  -- `response.StatusCode != http.StatusOK`
  abbrev pub judge : ℕ × String → Result (Unit {0})
  judge (code, body) = if not (code =ℕ status_ok) then err unauthorized else ok tt

  unfoldable pub authorize : HttpConfig → Authorizer W
  authorize h r =
      Effect.◌>>=◌ (do_new net (new_requester []) (render h.method) (render h.url) (render h.body))
        (λ response. pure (judge response))

  unfoldable pub http_factory :
      (String → HttpConfig → Error ⊎ HttpConfig)
      → (String → Error ⊎ String)
      → AuthorizerConfig
      → Result (Authorizer W)
  http_factory unmarshal normalize ac = do
    config ← new_http_config unmarshal normalize ac
    ok (authorize config)

  judge_sound : (code : ℕ) (body : String) → judge (code, body) ≡ ok tt → code ≡ 200
  judge_sound code body h = ground arith

  -- The service answers 200 to the request that the templates and the fixed credentials make.
  pub record IsGranted (h : HttpConfig) (w w' : W) : Type 0 where
    pub request : Sent
    pub answer : String
    pub made : net.new_request (render h.method) (render h.url) (render h.body) ≡ inr request
    pub answered :
        net.send (record { dial_timeout = default_timeout }) request w ≡ (inr (200, answer), w')

  authorize_sound :
      (h : HttpConfig) (r : Request) (w w' : W) → authorize h r w ≡ (ok tt, w') → IsGranted h w w'
  unfolding authorize do_new new_requester
  authorize_sound h r w w' k =
      let (x, w₁, e, g) =
        Effect.>>=-eq-ok
          (do_new net (new_requester []) (render h.method) (render h.url) (render h.body)) _ w k in
      let (request, e₁, e₂) =
        Effect.continue_inverse
          (outcome (net.new_request (render h.method) (render h.url) (render h.body))) _ w e in
      let sent =
        Effect.perform_inverse (net.send (record { dial_timeout = default_timeout }) request) w
          e₂ in
      let code = judge_sound x.0 x.1 (ap (λ y. y.0) g) in
      record {
        request = request;
        answer = x.1;
        made = Effect.outcome_inverse _ e₁;
        answered = sent ∙ (λ i. (inr (code i, x.1), (g i).1));
      }

  authorize_complete :
      (h : HttpConfig) (r : Request) (w w' : W) → IsGranted h w w' → authorize h r w ≡ (ok tt, w')
  unfolding authorize do_new new_requester
  authorize_complete h r w w' g = rw (g.made, g.answered)

-- The HTTP authorizer lets a request pass exactly when the service answers 200 to the request that
-- is made of the templates and of fixed credentials. So the request itself, and the credentials in
-- its header, make no difference.
pub http_authorize_iff :
    {W Sent : Type 0} (interpolate : Interpolate) (net : Net W Sent) (h : HttpConfig)
    (r r' : Request) (w w' : W)
    → ((authorize interpolate net h r w ≡ (ok tt, w')) ↔ IsGranted interpolate net h w w')
      × (authorize interpolate net h r w ≡ authorize interpolate net h r' w)
unfolding authorize
http_authorize_iff interpolate net h r r' w w' =
    ((authorize_sound interpolate net h r w w', authorize_complete interpolate net h r w w'), refl)
