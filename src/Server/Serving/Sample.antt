-- ===== src/Server/Serving/Sample.antt =====
-- A router that compares paths and methods as they are, for the tests.
use mathlib.Core.List.{Memᴰ}
use goexpose.Common.{
  Bool, Bool-cases, List, [], Option, String, ap, ◌∙◌, arith, eq_iff, if◌then◌else◌, inl, inr, none,
  some, sym, ◌&&◌, ◌==◌, ◌≡◌, ◌∷◌,
}
use goexpose.Dict.{Dict}
use goexpose.Request.{Request}
use goexpose.Response.Writing.{Codec}
use goexpose.Server.Routes.{Registration}
use goexpose.Server.Serving.{Mux}
use goexpose.Server.Serving.Guarded.{IsMux}

module _ {W : Type 0} where
  abbrev pub fits : Registration W → Request → Bool
  fits x r = x.method == r.method && x.path == r.path

  abbrev pub find : List (Registration W) → Request → Option (Registration W × Dict String)
  find [] r = none
  find (x ∷ xs) r = if fits x r then some (x, []) else find xs r

  pub find_sound :
      (xs : List (Registration W)) (r : Request) (x : Registration W) (vars : Dict String)
      → find xs r ≡ some (x, vars)
      → Memᴰ x xs × (x.method ≡ r.method)
  find_sound [] r x vars h = cc
  find_sound (y ∷ xs) r x vars h = elim (Bool-cases (fits y r)) [
    | inl e ↦
        let same : y ≡ x = cc (rw e at h) in
        let method : y.method ≡ r.method = ground (arith, eq_iff y.method r.method) in
        (Memᴰ.head (sym same), ap (λ z. z.method) (sym same) ∙ method)
    | inr e ↦ let (among, method) = find_sound xs r x vars (rw e at h) in (Memᴰ.tail among, method)
  ]

abbrev pub find_mux : {W : Type 0} → Mux W
find_mux = record { redirect = λ r. none; find = find }

abbrev pub mux : Mux (Unit {0})
mux = find_mux

abbrev pub same : String → String
same s = s

pub find_mux-IsMux : {W : Type 0} → IsMux {W = W} same find_mux
find_mux-IsMux = record {
  registered = λ xs r x vars h. (find_sound xs r x vars h).0;
  same_method = λ xs r x vars h. (find_sound xs r x vars h).1;
}

pub mux-IsMux : IsMux same mux
mux-IsMux = find_mux-IsMux

abbrev pub codec : Codec
codec = record {
  marshal = λ v. inr [];
  marshal_indent = λ v. inr [];
  compact = λ b. inr [];
  base64 = λ b. b;
}
