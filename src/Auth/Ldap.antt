-- ===== src/Auth/Ldap.antt =====
-- `LDAPAuthorizer` of auth.go: its configuration, and the check against a directory server.
pub mod Access
use mathlib.Core.Path.{subst}
use goexpose.Common.{
  Bool-cases, Error, List, [], Option, Result, String, arith, contains, err, eq_iff, false,
  if◌then◌else◌, inl, inr, length, ltb, new, none, not, ok, outcome, panic, some, true, ◌&&◌, ◌<>◌,
  ◌==◌, ◌>>=◌, ◌>>◌, ◌∷◌, ◌||◌, ◌⊎◌, ◌≡◌, ◌≢◌, ◌↔◌, >>=-eq-ok, refl, Sum-cases,
}
use goexpose.Config.{AuthorizerConfig}
use goexpose.Effect
use goexpose.Effect.{Call, Io, perform, pure}
use goexpose.Request.{Request}
use goexpose.Value.{ℤ, pos}
use goexpose.Auth.{Authorizer}
use goexpose.Auth.Basic.{get_basic_auth, get_basic_auth_cases}

pub record LdapConfig : Type 0 where
  pub host : String
  pub port : ℤ
  pub network : String
  pub whitelist : List String
  pub blacklist : List String

abbrev pub default_config : LdapConfig
default_config = record {
  host = "localhost";
  port = pos 389;
  network = "tcp";
  whitelist = [];
  blacklist = [];
}

abbrev pub blacklisted : Error
blacklisted = new "user is blacklisted"

abbrev pub not_whitelisted : Error
not_whitelisted = new "user is not whitelisted"

abbrev pub both_lists : Error
both_lists = new "blacklist and whitelist set, that doesn't make sense."

abbrev pub unknown_network : Error
unknown_network = new "unknown network"

unfoldable pub validate : LdapConfig → Result (Unit {0})
validate l =
    if ltb 0 (length l.whitelist) && ltb 0 (length l.blacklist)
    then err both_lists
    else if not (contains ("tcp" ∷ "tls" ∷ []) l.network)
    then err unknown_network
    else ok tt

-- `ldap.Dial("tcp", host)`, `ldap.DialTLS("tcp", host, nil)` and `conn.Bind(user, password)`
pub record Directory (W Conn : Type 0) : Type 0 where
  pub dial : String → Call W Conn
  pub dial_tls : String → Call W Conn
  pub bind : Conn → String → String → Call W (Unit {0})

-- The tests of the two lists, in their order.
unfoldable pub check_lists : LdapConfig → String → Result (Unit {0})
check_lists l username =
    if ltb 0 (length l.blacklist) && contains l.blacklist username
    then err blacklisted
    else if ltb 0 (length l.whitelist) && not (contains l.whitelist username)
    then err not_whitelisted
    else ok tt

-- `decode` is that of basic authorization, and `decimal` prints a number.
module _ {W Conn : Type 0} (decode : String → Error ⊎ String) (decimal : ℤ → String)
    (d : Directory W Conn) where
  -- The connection, nil for a network that is neither of the two.
  unfoldable pub connect : LdapConfig → Io W (Option Conn)
  connect l w =
      let host = l.host <> ":" <> decimal l.port in
      if l.network == "tcp"
      then Effect.◌>>=◌ (perform (d.dial host)) (λ c. pure (ok (some c))) w
      else if l.network == "tls"
      then Effect.◌>>=◌ (perform (d.dial_tls host)) (λ c. pure (ok (some c))) w
      else (ok none, w)

  -- `conn.Bind` on a nil connection panics.
  unfoldable pub bind_user : Option Conn → String → String → Io W (Unit {0})
  bind_user none username password = pure (panic "nil pointer dereference")
  bind_user (some conn) username password = perform (d.bind conn username password)

  unfoldable pub authorize : LdapConfig → Authorizer W
  authorize l r = Effect.◌>>=◌ (pure (get_basic_auth decode r)) λ (username, password).
      Effect.◌>>=◌ (connect l)
        λ conn. Effect.◌>>=◌ (pure (check_lists l username)) λ _. bind_user conn username password

  unfoldable pub ldap_factory :
      (String → LdapConfig → Error ⊎ LdapConfig) → AuthorizerConfig → Result (Authorizer W)
  ldap_factory unmarshal ac = do
    config ← outcome (unmarshal ac.config default_config)
    validate config
    ok (authorize config)
