-- ===== src/Response/Consistency.antt =====
-- When the "status" and "message" keys of a response agree with its status.
use goexpose.Common.{
  false, none, All, List, [], String, arith, eq_iff, some, ℕ, ◌∷◌, ◌≡◌, ◌≢◌, Bool,
}
use goexpose.Value.{Value, num, pos, str}
use goexpose.Response.{
  Response, add_value, del_value, new_response, set_error, set_pretty, set_result, set_status,
  status_text, strip_status_data, update_status_data,
}
use goexpose.Response.Keys.{value, value-add_value, value-del_value, value-set_status}

-- The body of the response tells its status.
pub record TellsStatus (r : Response) : Type 0 where
  pub number : value "status" r ≡ some (num (pos r.status))
  pub message : value "message" r ≡ some (str (status_text r.status))

-- A call of a method of `Response` in a chain.
pub data Call : Type 0 where
  status : ℕ → Call
  pretty : Bool → Call
  result error : Value → Call
  add : String → Value → Call
  del : String → Call
  update strip : Call

unfoldable pub perform : Call → Response → Response
perform (status n) r = set_status n r
perform (pretty b) r = set_pretty b r
perform (result v) r = set_result v r
perform (error v) r = set_error v r
perform (add k v) r = add_value k v r
perform (del k) r = del_value k r
perform update r = update_status_data r
perform strip r = strip_status_data r

unfoldable pub perform_all : List Call → Response → Response
unfolding perform
perform_all [] r = r
perform_all (c ∷ cs) r = perform_all cs (perform c r)

-- The call strips nothing, and writes or deletes neither of the two keys by hand.
abbrev pub IsPolite : Call → Type 0
IsPolite (add k v) = (k ≢ "status") × (k ≢ "message")
IsPolite (del k) = (k ≢ "status") × (k ≢ "message")
IsPolite strip = ⊥
IsPolite _ = Unit

set_status-TellsStatus : (n : ℕ) (r : Response) → TellsStatus (set_status n r)
unfolding set_status
set_status-TellsStatus n r = record {
  number = value-set_status n "status" r;
  message = value-set_status n "message" r;
}

perform-TellsStatus :
    (c : Call) (r : Response) → IsPolite c → TellsStatus r → TellsStatus (perform c r)
unfolding perform
perform-TellsStatus (status n) r h t = set_status-TellsStatus n r
perform-TellsStatus (pretty b) r h t =
    unfold set_pretty in record { number = t.number; message = t.message }
perform-TellsStatus (result v) r h t =
    unfold set_result in
    record { number = rw value-add_value t.number; message = rw value-add_value t.message }
perform-TellsStatus (error v) r h t =
    unfold set_error in
    record { number = rw value-add_value t.number; message = rw value-add_value t.message }
perform-TellsStatus (add k v) r h t =
    unfold add_value in
    record {
      number = ground (arith, value-add_value k "status" v r, eq_iff k "status");
      message = ground (arith, value-add_value k "message" v r, eq_iff k "message");
    }
perform-TellsStatus (del k) r h t =
    unfold del_value in
    record {
      number = ground (arith, value-del_value k "status" r, eq_iff k "status");
      message = ground (arith, value-del_value k "message" r, eq_iff k "message");
    }
perform-TellsStatus strip r h t = absurd h
perform-TellsStatus update r h t = unfold update_status_data in set_status-TellsStatus r.status r

perform_all-TellsStatus :
    (cs : List Call) (r : Response)
    → All IsPolite cs
    → TellsStatus r
    → TellsStatus (perform_all cs r)
unfolding perform_all
perform_all-TellsStatus [] r h t = t
perform_all-TellsStatus (c ∷ cs) r h t =
    perform_all-TellsStatus cs (perform c r) h.1 (perform-TellsStatus c r h.0 t)

-- A response made by `NewResponse` and changed by any chain of calls tells its status, if the chain
-- strips nothing and leaves the keys "status" and "message" to `Status` and `UpdateStatusData`.
pub new_response-TellsStatus :
    (code : ℕ) (cs : List Call) → All IsPolite cs → TellsStatus (perform_all cs (new_response code))
unfolding new_response
new_response-TellsStatus code cs h =
    perform_all-TellsStatus cs (new_response code) h
      (set_status-TellsStatus code (record { status = 0; pretty = false; fields = []; raw = none }))
