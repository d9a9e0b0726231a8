-- ===== src/Tasks/Item/Outcome.antt =====
-- The response of an item of a task: fresh, failed or done.
use goexpose.Common.{Option, String, false, ℕ, inl, inr, none, some, ◌==◌, ◌≡◌, ◌⊎◌}
use goexpose.Response.{Response, add_value, set_error, set_result, set_status, strip_status_data}
use goexpose.Response.Keys.{
  value, value-add_value, value-new_response, value-set_error, value-set_result, value-set_status,
  value-strip_status_data,
}
use goexpose.Tasks.Item.{Item, blank, run_item}
use goexpose.Value.{Value}

-- Neither a result nor an error yet.
pub record IsFresh (r : Response) : Type 0 where
  pub no_error : value "error" r ≡ none
  pub no_result : value "result" r ≡ none

pub record IsFailed (r : Response) : Type 0 where
  pub reason : Value
  pub has_error : value "error" r ≡ some reason
  pub no_result : value "result" r ≡ none

pub record IsDone (r : Response) : Type 0 where
  pub answer : Value
  pub no_error : value "error" r ≡ none
  pub has_result : value "result" r ≡ some answer

-- Where the item has ended early there is an error; where it goes on the response is fresh.
abbrev pub After : {A : Type 0} → Option A → Response → Type 0
After none r = IsFailed r
After (some a) r = IsFresh r

-- Steps after which the item has failed or is still fresh.
pub record IsClean {W : Type 0} {A : Type 0} (m : Item W A) : Type 0 where
  pub at : (r : Response) (w : W) → IsFresh r → After (m r w).0 (m r w).1

-- Steps that end the item, with a result or with an error.
pub record Ends {W : Type 0} (m : Item W (Unit {0})) : Type 0 where
  pub at : (r : Response) (w : W) → IsFresh r → IsDone (m r w).1 ⊎ IsFailed (m r w).1

pub blank-IsFresh : IsFresh blank
unfolding blank
blank-IsFresh = record {
  no_error = rw (value-strip_status_data, value-new_response);
  no_result = rw (value-strip_status_data, value-new_response);
}

pub set_error-IsFailed : (v : Value) (r : Response) → IsFresh r → IsFailed (set_error v r)
set_error-IsFailed v r h = record {
  reason = v;
  has_error = rw value-set_error;
  no_result = rw value-set_error h.no_result;
}

pub set_result-IsDone : (v : Value) (r : Response) → IsFresh r → IsDone (set_result v r)
set_result-IsDone v r h = record {
  answer = v;
  has_result = rw value-set_result;
  no_error = rw value-set_result h.no_error;
}

pub add_value-IsFresh :
    (k : String) (v : Value) (r : Response)
    → (k == "error") ≡ false
    → (k == "result") ≡ false
    → IsFresh r
    → IsFresh (add_value k v r)
add_value-IsFresh k v r e f h = record {
  no_error = rw (value-add_value, e) h.no_error;
  no_result = rw (value-add_value, f) h.no_result;
}

pub add_value-IsFailed :
    (k : String) (v : Value) (r : Response)
    → (k == "error") ≡ false
    → (k == "result") ≡ false
    → IsFailed r
    → IsFailed (add_value k v r)
add_value-IsFailed k v r e f h = record {
  reason = h.reason;
  has_error = rw (value-add_value, e) h.has_error;
  no_result = rw (value-add_value, f) h.no_result;
}

add_value-IsDone :
    (k : String) (v : Value) (r : Response)
    → (k == "error") ≡ false
    → (k == "result") ≡ false
    → IsDone r
    → IsDone (add_value k v r)
add_value-IsDone k v r e f h = record {
  answer = h.answer;
  no_error = rw (value-add_value, e) h.no_error;
  has_result = rw (value-add_value, f) h.has_result;
}

pub give_with-IsDone :
    (v : Value) (k : String) (more : Value)
    → (k == "error") ≡ false
    → (k == "result") ≡ false
    → (r : Response) → IsFresh r
    → IsDone (add_value k more (set_result v r))
give_with-IsDone v k more e f r h =
    add_value-IsDone k more (set_result v r) e f (set_result-IsDone v r h)

pub set_status-IsFresh : (code : ℕ) (r : Response) → IsFresh r → IsFresh (set_status code r)
set_status-IsFresh code r h = record {
  no_error = rw value-set_status h.no_error;
  no_result = rw value-set_status h.no_result;
}

-- A finished item has a result or an error, and not both.
abbrev pub IsSettled : Response → Type 0
IsSettled r = IsDone r ⊎ IsFailed r

pub strip-IsDone : (r : Response) → IsDone r → IsDone (strip_status_data r)
strip-IsDone r d = record {
  answer = d.answer;
  no_error = rw value-strip_status_data d.no_error;
  has_result = rw value-strip_status_data d.has_result;
}

pub strip-IsSettled : (r : Response) → IsSettled r → IsSettled (strip_status_data r)
strip-IsSettled r (inl d) = inl (strip-IsDone r d)
strip-IsSettled r (inr d) = inr (record {
  reason = d.reason;
  has_error = rw value-strip_status_data d.has_error;
  no_result = rw value-strip_status_data d.no_result;
})

pub run_item-IsSettled :
    {W : Type 0} (m : Item W (Unit {0})) (w : W) → Ends m → IsSettled (run_item m blank w).0
unfolding run_item
run_item-IsSettled m w h = h.at blank w blank-IsFresh
