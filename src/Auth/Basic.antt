-- ===== src/Auth/Basic.antt =====
-- `BasicAuthorizer` of auth.go: the user name and the password of the request's header.
pub mod Encoded
use Prim.Native.String.{◌∷◌}
use goexpose.Common.{
  Error, List, [], Result, String, err, if◌then◌else◌, inl, inr, not, ok, outcome, ◌<>◌, ◌==◌, sym,
  ap, ◌∙◌, ◌>>=◌, ◌∷◌, ◌||◌, ◌⊎◌, ◌≡◌, ◌↔◌, >>=-eq-ok, arith, eq_iff, refl, Bool-cases,
  ok-injective, Sum-cases,
}
use goexpose.Config.{AuthorizerConfig}
use goexpose.Effect.{pure}
use goexpose.Request.{Request}
use goexpose.Text.{split_two}
use goexpose.Text.Split.{Lacks, split_two-append, split_two_sound}
use goexpose.Auth.{Authorizer, invalid_authorization_header, unauthorized}

pub record BasicConfig : Type 0 where
  pub username : String
  pub password : String

-- The two parts of a `SplitN(s, sep, 2)`, or the error for any other number of parts.
abbrev pub two_parts : List String → Result (String × String)
two_parts (a ∷ b ∷ []) = ok (a, b)
two_parts _ = err invalid_authorization_header

-- The comparison with the configured credentials.
pub check_credentials : BasicConfig → String → String → Result (Unit {0})
check_credentials config username password =
    if not (username == config.username) || not (password == config.password)
    then err unauthorized
    else ok tt

-- `decode` is `base64.StdEncoding.DecodeString`, with the bytes read as a text.
module _ (decode : String → Error ⊎ String) where
  unfoldable pub decode_payload : String → Result String
  decode_payload payload = elim (decode payload) [
    | inl e ↦ err invalid_authorization_header
    | inr text ↦ ok text
  ]

  unfoldable pub get_basic_auth : Request → Result (String × String)
  unfolding decode_payload
  get_basic_auth r = do
    (scheme, payload) ← two_parts (split_two " " (r.header "Authorization"))
    text ←
        if not (scheme == "Basic") then err invalid_authorization_header else decode_payload payload
    two_parts (split_two ":" text)

  unfoldable pub check_basic : BasicConfig → Request → Result (Unit {0})
  unfolding get_basic_auth check_credentials
  check_basic config r = do
    (username, password) ← get_basic_auth r
    check_credentials config username password

  -- `unmarshal` is `json.Unmarshal` of the configuration into the fresh structure.
  unfoldable pub basic_factory :
      {W : Type 0}
      → (String → BasicConfig → Error ⊎ BasicConfig)
      → AuthorizerConfig
      → Result (Authorizer W)
  unfolding check_basic
  basic_factory unmarshal ac = do
    config ← outcome (unmarshal ac.config (record { username = ""; password = "" }))
    ok (λ r. pure (check_basic config r))

two_parts_sound : (ps : List String) (a b : String) → two_parts ps ≡ ok (a, b) → ps ≡ a ∷ b ∷ []
two_parts_sound [] a b h = cc
two_parts_sound (p ∷ []) a b h = cc
two_parts_sound (p ∷ q ∷ []) a b h = ground arith
two_parts_sound (p ∷ q ∷ x ∷ ps) a b h = cc

-- The header carries the user name and the password: "Basic", a space, and the encoding of both
-- with a colon between them, where the user name has no colon.
pub record Carries (decode : String → Error ⊎ String) (header username password : String)
    : Type 0 where
  pub payload : String
  pub written : header ≡ "Basic" <> (" " ∷ payload)
  pub decoded : decode payload ≡ inr (username <> (":" ∷ password))
  pub plain : Lacks ":" username

module _ (decode : String → Error ⊎ String) where
  get_basic_auth_sound :
      (r : Request) (u p : String)
      → get_basic_auth decode r ≡ ok (u, p)
      → Carries decode (r.header "Authorization") u p
  unfolding get_basic_auth
  get_basic_auth_sound r u p h =
      let ((scheme, payload), e₁, h₁) =
        >>=-eq-ok (two_parts (split_two " " (r.header "Authorization"))) _ h in
      let (header, _) =
        split_two_sound " " _ scheme payload (two_parts_sound _ scheme payload e₁) in
      elim (Bool-cases (scheme == "Basic")) [
        | inr other ↦ cc (rw other at h₁)
        | inl basic ↦ elim (Sum-cases (decode payload)) [
          | inl (x, bad) ↦ cc (rw (basic, bad, decode_payload) at h₁)
          | inr (text, good) ↦
              let (spelled, plain) =
                split_two_sound ":" text u p
                  (two_parts_sound _ u p (rw (basic, good, decode_payload) at h₁)) in
              record {
                payload = payload;
                written = rw (← (eq_iff scheme "Basic").0 basic) header;
                decoded = rw (← spelled) good;
                plain = plain;
              }
        ]
      ]

  pub get_basic_auth_complete :
      (r : Request) (u p : String)
      → Carries decode (r.header "Authorization") u p
      → get_basic_auth decode r ≡ ok (u, p)
  unfolding get_basic_auth
  get_basic_auth_complete r u p c = rw (
    c.written,
    split_two-append " " "Basic" c.payload (omega arith),
    c.decoded,
    decode_payload,
    split_two-append ":" u p c.plain,
  )

two_parts_cases :
    (ps : List String)
    → ((x : String × String) × (two_parts ps ≡ ok x)) ⊎ ((e : Error) × (two_parts ps ≡ err e))
two_parts_cases [] = inr (invalid_authorization_header, refl)
two_parts_cases (p ∷ []) = inr (invalid_authorization_header, refl)
two_parts_cases (p ∷ q ∷ []) = inl ((p, q), refl)
two_parts_cases (p ∷ q ∷ x ∷ ps) = inr (invalid_authorization_header, refl)

pub get_basic_auth_cases :
    (decode : String → Error ⊎ String) (r : Request)
    → ((x : String × String) × (get_basic_auth decode r ≡ ok x))
      ⊎ ((e : Error) × (get_basic_auth decode r ≡ err e))
unfolding get_basic_auth
get_basic_auth_cases decode r = elim (two_parts_cases (split_two " " (r.header "Authorization"))) [
  | inr (e, bad) ↦ inr (e, rw bad)
  | inl ((scheme, payload), good) ↦ elim (Bool-cases (scheme == "Basic")) [
    | inr other ↦ inr (invalid_authorization_header, rw (good, other))
    | inl basic ↦ elim (Sum-cases (decode payload)) [
      | inl (e, bad) ↦ inr (invalid_authorization_header, rw (good, basic, bad, decode_payload))
      | inr (text, fine) ↦ elim (two_parts_cases (split_two ":" text)) [
        | inl (x, split) ↦ inl (x, rw (good, basic, fine, decode_payload) split)
        | inr (e, bad) ↦ inr (e, rw (good, basic, fine, decode_payload) bad)
      ]
    ]
  ]
]

pub check_credentials_iff :
    (config : BasicConfig) (u p : String)
    → ((check_credentials config u p ≡ ok tt) ↔ ((u ≡ config.username) × (p ≡ config.password)))
      × ((check_credentials config u p ≡ ok tt) ⊎ (check_credentials config u p ≡ err unauthorized))
unfolding check_credentials
check_credentials_iff config u p =
    ground (arith, eq_iff u config.username, eq_iff p config.password)

-- Basic authorization lets a request pass exactly when its header carries the configured user name
-- and password; any other request gets an error, and none a panic.
pub check_basic_iff :
    (decode : String → Error ⊎ String) (config : BasicConfig) (r : Request)
    → ((check_basic decode config r ≡ ok tt)
        ↔ Carries decode (r.header "Authorization") config.username config.password)
      × ((check_basic decode config r ≡ ok tt)
          ⊎ ((e : Error) × (check_basic decode config r ≡ err e)))
unfolding check_basic
check_basic_iff decode config r = elim (get_basic_auth_cases decode r) [
  | inr (e, bad) ↦ (
    (
      λ h. cc (rw bad at h),
      λ c. cc (bad, get_basic_auth_complete decode r config.username config.password c),
    ),
    inr (e, rw bad),
  )
  | inl ((u, p), good) ↦
      let (same, either) = check_credentials_iff config u p in
      (
        (
          λ h.
              let (eu, ep) = same.0 (rw good at h) in
              rw (← eu, ← ep) (get_basic_auth_sound decode r u p good),
          λ c.
              let found = get_basic_auth_complete decode r config.username config.password c in
              let pair : (u, p) ≡ (config.username, config.password) =
                ok-injective (sym good ∙ found) in
              rw good (same.1 (ap (λ x. x.0) pair, ap (λ x. x.1) pair)),
        ),
        rw good (elim either [ inl e ↦ inl e | inr e ↦ inr (unauthorized, e) ]),
      )
]
