-- ===== src/Http/Timeout.antt =====
-- The timeout of a requester.
use goexpose.Common.{List, [], arith, map, some, ℕ, ◌∷◌, ◌≡◌, refl}
use goexpose.Http.{default_timeout, new_requester, set, with_timeout}

-- The last of the timeouts, or the first value where there is none.
pub last_or : ℕ → List ℕ → ℕ
last_or t [] = t
last_or t (u ∷ us) = last_or u us

set_timeouts :
    (ts : List ℕ) (t : ℕ)
    → set
        (map with_timeout ts)
        (record { timeout = t; client = some (record { dial_timeout = t }) })
      ≡ record { timeout = last_or t ts; client = some (record { dial_timeout = last_or t ts }) }
unfolding set with_timeout last_or
set_timeouts [] t = refl
set_timeouts (u ∷ us) t = set_timeouts us u

-- Whatever timeouts are set, the last one counts, ten seconds where there is none, and the dialer of
-- the client has the same timeout as the requester.
pub new_requester-timeout :
    (ts : List ℕ)
    → new_requester (map with_timeout ts) ≡ record {
      timeout = last_or default_timeout ts;
      client = some (record { dial_timeout = last_or default_timeout ts });
    }
unfolding new_requester last_or
new_requester-timeout [] = refl
new_requester-timeout (t ∷ ts) = ground (arith, set_timeouts (t ∷ ts) default_timeout)
