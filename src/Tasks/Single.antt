-- ===== src/Tasks/Single.antt =====
-- The field `single_result` that the configurations of tasks.go share: how each `Validate` reads it
-- into `singleResultIndex`, and how each `Run` uses that index at its end.
use mathlib.Core.Path.{subst}
use goexpose.Common.{
  All, ok-injective, Error, List, Option, Result, String, arith, err, get_elem?, get_elem?-of_lt,
  if◌then◌else◌, leb, length, none, ok, panic, some, zero, suc, ℕ, ◌≡◌, Bool, false, refl,
  Bool-cases, inl, inr,
}
use goexpose.Response.{new_response, status_ok, Response, embed, responses, set_result}
use goexpose.Value.{ℤ, negsuc, pos}

-- `index > n - 1`
abbrev pub is_past : ℤ → ℕ → Bool
is_past (pos i) n = leb n i
is_past (negsuc i) n = false

-- The index for `n` results, -1 where none is asked for; `e` is the error of an index past the end.
unfoldable pub single_index : Error → Option ℤ → ℕ → Result ℤ
single_index e none n = ok (negsuc 0)
single_index e (some i) n = if is_past i n then err e else ok i

abbrev pub out_of_range : String
out_of_range = "index out of range"

abbrev pub pick : Option Response → Response → Result Response
pick none response = panic out_of_range
pick (some r) response = ok (set_result (embed r) response)

-- The end of each `Run`: all results for the index -1, else the one at the index.
unfoldable pub finish : ℤ → List Response → Response → Result Response
finish (pos i) results response = pick (get_elem? results i) response
finish (negsuc zero) results response = ok (set_result (responses results) response)
finish (negsuc (suc i)) results response = panic out_of_range

-- What a checked index does at the end of a run with as many results as were configured: without
-- an index, or with -1, all results are given, with an index that is not negative the one result,
-- and with any other negative index, which the check lets through, the run panics.
abbrev pub Finishes : Option ℤ → ℤ → List Response → Response → Type 0
Finishes none i results response =
    finish i results response ≡ ok (set_result (responses results) response)
Finishes (some (pos k)) i results response =
    (r : Response) × (get_elem? results k ≡ some r)
    × (finish i results response ≡ ok (set_result (embed r) response))
Finishes (some (negsuc zero)) i results response =
    finish i results response ≡ ok (set_result (responses results) response)
Finishes (some (negsuc (suc k))) i results response = finish i results response ≡ panic out_of_range

-- The answer of a task with `n` items: it is made from a response for each item, where each has what
-- `P` says, and finished by the index as the configuration asks.
pub record Answers (P : Response → Type 0) (s : Option ℤ) (i : ℤ) (n : ℕ) (out : Result Response)
    : Type 0 where
  pub results : List Response
  pub each_item : All P results
  pub count : length results ≡ n
  pub finished : out ≡ finish i results (new_response status_ok)
  pub finishes : Finishes s i results (new_response status_ok)

-- A `single_result` that the check accepts finishes a run as it asks: without one, or with -1, with
-- all results, with an index that is not negative with the result there, and with any other negative
-- index with a panic.
pub single_index-Finishes :
    (e : Error) (s : Option ℤ) (n : ℕ) (i : ℤ) (results : List Response) (response : Response)
    → single_index e s n ≡ ok i
    → length results ≡ n
    → Finishes s i results response
unfolding single_index finish
single_index-Finishes e none n i results response h k =
    subst (λ x. Finishes none x results response) (ok-injective h) refl
single_index-Finishes e (some (pos j)) n i results response h k = elim (Bool-cases (leb n j)) [
  | inl far ↦ cc (rw far at h)
  | inr near ↦
      let (r, found) = get_elem?-of_lt results j (ground arith) in
      subst (λ x. Finishes (some (pos j)) x results response) (ok-injective (rw near at h))
        (r, found, rw found)
]
single_index-Finishes e (some (negsuc zero)) n i results response h k =
    subst (λ x. Finishes (some (negsuc zero)) x results response) (ok-injective h) refl
single_index-Finishes e (some (negsuc (suc j))) n i results response h k =
    subst (λ x. Finishes (some (negsuc (suc j))) x results response) (ok-injective h) refl
