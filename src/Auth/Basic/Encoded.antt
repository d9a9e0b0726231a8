-- ===== src/Auth/Basic/Encoded.antt =====
-- What a client sends for a user and a password, and what `BasicAuthorizer` makes of it.
use goexpose.Auth.Basic.{
  BasicConfig, check_basic, check_credentials_iff, get_basic_auth, get_basic_auth_complete,
}
use goexpose.Common.{Error, String, inr, ok, ◌<>◌, ◌≡◌, ◌↔◌, ◌⊎◌}
use goexpose.Request.{Request}
use goexpose.Text.Split.{Lacks}
use Prim.Native.String.{◌∷◌}

-- The header of HTTP basic authentication, where `encode` is the base64 encoding of a text.
abbrev pub header_of : (String → String) → String → String → String
header_of encode username password = "Basic" <> (" " ∷ encode (username <> (":" ∷ password)))

-- Where decoding undoes encoding, a request with the header for a user name without a colon and any
-- password gives this user name and this password back, and is let in exactly where they are the
-- configured ones.
pub get_basic_auth-header_of :
    (encode : String → String) (decode : String → Error ⊎ String) (config : BasicConfig)
    (r : Request) (username password : String)
    → ((text : String) → decode (encode text) ≡ inr text)
    → Lacks ":" username
    → r.header "Authorization" ≡ header_of encode username password
    → (get_basic_auth decode r ≡ ok (username, password))
      × ((check_basic decode config r ≡ ok tt)
          ↔ ((username ≡ config.username) × (password ≡ config.password)))
unfolding check_basic
get_basic_auth-header_of encode decode config r username password undoes plain sent =
    let got = get_basic_auth_complete decode r username password (record {
      payload = encode (username <> (":" ∷ password));
      written = sent;
      decoded = undoes _;
      plain = plain;
    }) in
    (got, rw got (check_credentials_iff config username password).0)
