-- ===== src/Http.antt =====
-- http.go: the client that the http authorizer uses.
pub mod Timeout
use goexpose.Common.{
  outcome, Error, List, [], Option, Result, String, if◌then◌else◌, inl, inr, length, ltb, none, ok,
  panic, some, ℕ, ◌∷◌, ◌⊎◌,
}
use goexpose.Effect.{Call, Io, perform, pure, ◌>>=◌}

-- A `*http.Client` of which only the timeout of its dialer is set.
pub record Client : Type 0 where
  pub dial_timeout : ℕ

pub record Requester : Type 0 where
  pub timeout : ℕ
  pub client : Option Client

abbrev pub RequesterSetFunc : Type 0
RequesterSetFunc = Requester → Requester

-- Ten seconds, in nanoseconds
abbrev pub default_timeout : ℕ
default_timeout = 10000000000

unfoldable pub with_timeout : ℕ → RequesterSetFunc
with_timeout timeout r = record r {
  timeout = timeout;
  client = some (record { dial_timeout = timeout });
}

unfoldable pub set : List RequesterSetFunc → Requester → Requester
set [] r = r
set (f ∷ fs) r = set fs (f r)

unfoldable pub new_requester : List RequesterSetFunc → Requester
unfolding set with_timeout
new_requester fs =
    let r = set (with_timeout default_timeout ∷ []) (record { timeout = 0; client = none }) in
    if ltb 0 (length fs) then set fs r else r

-- `http.NewRequest(method, url, body)`, and `client.Do` of the request, with the status code and the
-- body of its answer
pub record Net (W Sent : Type 0) : Type 0 where
  pub new_request : String → String → String → Error ⊎ Sent
  pub send : Client → Sent → Call W (ℕ × String)

module _ {W Sent : Type 0} (net : Net W Sent) where
  -- A method of a nil client panics.
  unfoldable pub do_request : Requester → Sent → Io W (ℕ × String)
  do_request r req = elim r.client [
    | none ↦ pure (panic "nil pointer dereference")
    | some client ↦ perform (net.send client req)
  ]

  unfoldable pub do_new : Requester → String → String → String → Io W (ℕ × String)
  unfolding do_request
  do_new r method url body = do
    req ← pure (outcome (net.new_request method url body))
    do_request r req
