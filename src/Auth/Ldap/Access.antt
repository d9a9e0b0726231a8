-- ===== src/Auth/Ldap/Access.antt =====
-- Whom the LDAP authorizer lets pass.
use mathlib.Core.Path.{subst}
use goexpose.Common.{
  ◌<>◌, ap, ◌∙◌, Error, List, [], Option, Result, String, arith, contains, err, eq_iff, false, inl,
  inr, length, ltb, none, not, ok, outcome, panic, some, true, ◌&&◌, ◌∷◌, ◌⊎◌, ◌≡◌, ◌≢◌, ◌↔◌, refl,
}
use goexpose.Effect
use goexpose.Effect.{outcome-ne-panic, Call, Io, perform, pure}
use goexpose.Request.{Request}
use goexpose.Value.{ℤ}
use goexpose.Auth.Basic.{get_basic_auth, get_basic_auth_cases}
use goexpose.Auth.Ldap.{Directory, LdapConfig, authorize, bind_user, check_lists, connect, validate}

-- The user may pass the lists: not on the blacklist, and on the whitelist where there is one.
pub record PassesLists (l : LdapConfig) (username : String) : Type 0 where
  pub unlisted : contains l.blacklist username ≡ false
  pub listed : (l.whitelist ≡ []) ⊎ (contains l.whitelist username ≡ true)

blacklist_test :
    (xs : List String) (u : String) → (ltb 0 (length xs) && contains xs u) ≡ contains xs u
blacklist_test [] u = refl
blacklist_test (x ∷ xs) u = ground arith

whitelist_test :
    (xs : List String) (u : String)
    → ((ltb 0 (length xs) && not (contains xs u)) ≡ false) ↔ ((xs ≡ []) ⊎ (contains xs u ≡ true))
whitelist_test [] u = (λ h. inl refl, λ h. refl)
whitelist_test (x ∷ xs) u = ground arith

check_lists_iff : (l : LdapConfig) (u : String) → (check_lists l u ≡ ok tt) ↔ PassesLists l u
unfolding check_lists
check_lists_iff l u =
    let (to, from) = whitelist_test l.whitelist u in
    (
      λ h.
          let h' = rw (blacklist_test l.blacklist u) at h in
          record { unlisted = ground arith; listed = to (ground arith) },
      λ passes. rw (blacklist_test l.blacklist u, passes.unlisted, from passes.listed),
    )

module _ {W Conn : Type 0} (decode : String → Error ⊎ String) (decimal : ℤ → String)
    (d : Directory W Conn) where
  -- What a request that passes has been through, from the state `w` to the state `w'`.
  pub record IsAdmitted (l : LdapConfig) (r : Request) (w w' : W) : Type 0 where
    pub username : String
    pub password : String
    pub conn : Conn
    pub connected : W
    pub credentials : get_basic_auth decode r ≡ ok (username, password)
    pub dialled : connect decode decimal d l w ≡ (ok (some conn), connected)
    pub passes : PassesLists l username
    pub bound : d.bind conn username password connected ≡ (inr tt, w')

  bind_user_sound :
      (conn : Option Conn) (u p : String) (w w' : W)
      → bind_user decode decimal d conn u p w ≡ (ok tt, w')
      → (c : Conn) × (conn ≡ some c) × (d.bind c u p w ≡ (inr tt, w'))
  unfolding bind_user
  bind_user_sound none u p w w' h = cc
  bind_user_sound (some c) u p w w' h = (c, refl, Effect.perform_inverse (d.bind c u p) w h)

  authorize_sound :
      (l : LdapConfig) (r : Request) (w w' : W)
      → authorize decode decimal d l r w ≡ (ok tt, w')
      → IsAdmitted l r w w'
  unfolding authorize
  authorize_sound l r w w' h =
      let ((u, p), e₀, h₀) = Effect.continue_inverse (get_basic_auth decode r) _ w h in
      let (conn, w₁, e₁, h₁) = Effect.>>=-eq-ok (connect decode decimal d l) _ w h₀ in
      let (_, e₂, h₂) = Effect.continue_inverse (check_lists l u) _ w₁ h₁ in
      let (c, e₃, bound) = bind_user_sound conn u p w₁ w' h₂ in
      record {
        username = u;
        password = p;
        conn = c;
        connected = w₁;
        credentials = e₀;
        dialled = e₁ ∙ ap (λ x. (ok x, w₁)) e₃;
        passes = (check_lists_iff l u).0 e₂;
        bound = bound;
      }

  authorize_complete :
      (l : LdapConfig) (r : Request) (w w' : W)
      → IsAdmitted l r w w'
      → authorize decode decimal d l r w ≡ (ok tt, w')
  unfolding authorize
  authorize_complete l r w w' a =
      rw (a.credentials, a.dialled, (check_lists_iff l a.username).1 a.passes)
        (unfold bind_user in rw a.bound)

-- The LDAP authorizer lets a request pass exactly when its header holds credentials, the server could
-- be reached, the user passes the two lists, and the server then accepted these credentials.
pub ldap_authorize_iff :
    {W Conn : Type 0} (decode : String → Error ⊎ String) (decimal : ℤ → String)
    (d : Directory W Conn) (l : LdapConfig) (r : Request) (w w' : W)
    → (authorize decode decimal d l r w ≡ (ok tt, w')) ↔ IsAdmitted decode decimal d l r w w'
ldap_authorize_iff decode decimal d l r w w' =
    (authorize_sound decode decimal d l r w w', authorize_complete decode decimal d l r w w')

-- The network is one of the two that are known.
abbrev HasNetwork : LdapConfig → Type 0
HasNetwork l = (l.network ≡ "tcp") ⊎ (l.network ≡ "tls")

validate-HasNetwork : (l : LdapConfig) → validate l ≡ ok tt → HasNetwork l
unfolding validate
validate-HasNetwork l h = ground (arith, eq_iff "tcp" l.network, eq_iff "tls" l.network)

-- The call did not leave a nil connection behind, nor panic.
abbrev IsSettled : {Conn : Type 0} → Result (Option Conn) → Type 0
IsSettled (ok none) = ⊥
IsSettled (ok (some c)) = Unit
IsSettled (err e) = Unit
IsSettled (panic m) = ⊥

settled :
    {W Conn : Type 0} (x : (Error ⊎ Conn) × W)
    → IsSettled (Effect.continue {A = Conn} (outcome x.0) (λ c w. (ok (some c), w)) x.1).0
settled (inl e, w) = tt
settled (inr c, w) = tt

module _ {W Conn : Type 0} (decode : String → Error ⊎ String) (decimal : ℤ → String)
    (d : Directory W Conn) where
  connect-IsSettled :
      (l : LdapConfig) (w : W) → HasNetwork l → IsSettled (connect decode decimal d l w).0
  unfolding connect
  connect-IsSettled l w (inl e) = rw e (settled (d.dial (l.host <> ":" <> decimal l.port) w))
  connect-IsSettled l w (inr e) = rw e (settled (d.dial_tls (l.host <> ":" <> decimal l.port) w))

  bind_user-ne-panic :
      (conn : Option Conn) (u p : String) (w : W)
      → IsSettled {Conn = Conn} (ok conn)
      → (s : String) → (bind_user decode decimal d conn u p w).0 ≢ panic s
  unfolding bind_user
  bind_user-ne-panic none u p w h s = absurd h
  bind_user-ne-panic (some c) u p w h s = outcome-ne-panic (d.bind c u p w).0 s

check_lists-ne-panic : (l : LdapConfig) (u s : String) → check_lists l u ≢ panic s
unfolding check_lists
check_lists-ne-panic l u s = ground arith

-- With a configuration that validates, the LDAP authorizer never panics.
pub ldap_authorize-ne-panic :
    {W Conn : Type 0} (decode : String → Error ⊎ String) (decimal : ℤ → String)
    (d : Directory W Conn) (l : LdapConfig) (r : Request) (w : W) (s : String)
    → validate l ≡ ok tt
    → (authorize decode decimal d l r w).0 ≢ panic s
unfolding authorize
ldap_authorize-ne-panic decode decimal d l r w s h = elim (get_basic_auth_cases decode r) [
  | inr (e, bad) ↦ rw bad (λ k. cc)
  | inl ((u, p), good) ↦
      let known = connect-IsSettled decode decimal d l w (validate-HasNetwork l h) in
      rw good (
        Effect.>>=-ne-panic (connect decode decimal d l) _ w (λ t e. subst IsSettled e known)
          (λ conn w₁ t e.
            Effect.>>=-ne-panic (pure (check_lists l u)) _ w₁ (check_lists-ne-panic l u)
              (λ _ w₂ t' _.
                bind_user-ne-panic decode decimal d conn u p w₂
                  (subst IsSettled (ap (λ x. x.0) e) known) t')
              t)
          s)
]
