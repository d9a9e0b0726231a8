-- ===== src/Tasks/Item/Steps.antt =====
-- What each step of an item gives, for the descriptions of whole items.
use goexpose.Common.{
  Bool, Error, List, [], Option, String, Sum-cases, ap, false, if◌then◌else◌, inl, inr, none, refl,
  some, true, ◌∙◌, ◌∷◌, ◌≡◌, ◌⊎◌,
}
use goexpose.Dict.{Dict}
use goexpose.Effect.{Call}
use goexpose.Response.{Response, add_value, set_error}
use goexpose.Tasks.Item
use goexpose.Tasks.Item.{
  Item, attempt, check, continue, interpolate_all, pure, put, put_if, run_item, settle,
}
use goexpose.Utils.{Interpolate}
use goexpose.Value.{Value, error}

-- The values of the templates in their order, or the error of the first that has none.
abbrev pub rendered : Interpolate → Dict Value → List String → Error ⊎ List String
rendered interpolate vars [] = inr []
rendered interpolate vars (arg ∷ args) = elim (interpolate arg vars) [
  | inl e ↦ inl e
  | inr first ↦ elim (rendered interpolate vars args) [
    | inl e ↦ inl e
    | inr rest ↦ inr (first ∷ rest)
  ]
]

module _ {W A B : Type 0} where
  pub >>=-some :
      (m : Item W A) (f : A → Item W B) {r r' : Response} {w w' : W} {a : A}
      → m r w ≡ (some a, r', w')
      → Item.◌>>=◌ m f r w ≡ f a r' w'
  unfolding Item.◌>>=◌
  >>=-some m f e = ap (λ x. continue x.0 f x.1 x.2) e

  pub >>=-none :
      (m : Item W A) (f : A → Item W B) {r r' : Response} {w w' : W}
      → m r w ≡ (none, r', w')
      → Item.◌>>=◌ m f r w ≡ (none, r', w')
  unfolding Item.◌>>=◌
  >>=-none m f e = ap (λ x. continue x.0 f x.1 x.2) e

module _ {W A : Type 0} where
  pub check-inl :
      {x : Error ⊎ A} {e : Error} (r : Response) (w : W)
      → x ≡ inl e
      → check x r w ≡ (none, set_error (error e) r, w)
  unfolding check settle
  check-inl r w bad = rw bad refl

  pub check-inr :
      {x : Error ⊎ A} {a : A} (r : Response) (w : W) → x ≡ inr a → check x r w ≡ (some a, r, w)
  unfolding check settle
  check-inr r w good = rw good refl

  pub attempt-inl :
      (c : Call W A) {e : Error} {w w' : W} (r : Response)
      → c w ≡ (inl e, w')
      → attempt c r w ≡ (none, set_error (error e) r, w')
  unfolding attempt settle
  attempt-inl c r bad = rw bad refl

  pub attempt-inr :
      (c : Call W A) {a : A} {w w' : W} (r : Response)
      → c w ≡ (inr a, w')
      → attempt c r w ≡ (some a, r, w')
  unfolding attempt settle
  attempt-inr c r good = rw good refl

module _ {W : Type 0} where
  pub put_if-some :
      (b : Bool) (key : String) (value : Value) (r : Response) (w : W)
      → put_if b key value r w ≡ (some tt, (if b then add_value key value r else r), w)
  unfolding put_if put pure
  put_if-some true key value r w = refl
  put_if-some false key value r w = refl

  pub interpolate_all-rendered :
      (interpolate : Interpolate) (vars : Dict Value) (args : List String) (r : Response) (w : W)
      → interpolate_all interpolate vars args r w ≡ check (rendered interpolate vars args) r w
  unfolding interpolate_all check settle pure Item.◌>>=◌
  interpolate_all-rendered interpolate vars [] r w = refl
  interpolate_all-rendered interpolate vars (arg ∷ args) r w =
      elim (Sum-cases (interpolate arg vars)) [
        | inl (e, bad) ↦ rw (bad, rendered) refl
        | inr (first, good) ↦ elim (Sum-cases (rendered interpolate vars args)) [
          | inl (e, bad) ↦
              rw (good, interpolate_all-rendered interpolate vars args r w, rendered, bad) refl
          | inr (rest, fine) ↦
              rw (good, interpolate_all-rendered interpolate vars args r w, rendered, fine) refl
        ]
      ]

  -- The arguments of an item, where all of its templates render, and where one does not.
  pub interpolate_all-some :
      (interpolate : Interpolate) (vars : Dict Value) (args : List String) {out : List String}
      (r : Response) (w : W)
      → rendered interpolate vars args ≡ inr out
      → interpolate_all interpolate vars args r w ≡ (some out, r, w)
  interpolate_all-some interpolate vars args r w good =
      interpolate_all-rendered interpolate vars args r w ∙ check-inr r w good

  pub interpolate_all-none :
      (interpolate : Interpolate) (vars : Dict Value) (args : List String) {e : Error}
      (r : Response) (w : W)
      → rendered interpolate vars args ≡ inl e
      → interpolate_all interpolate vars args r w ≡ (none, set_error (error e) r, w)
  interpolate_all-none interpolate vars args r w bad =
      interpolate_all-rendered interpolate vars args r w ∙ check-inl r w bad

  -- The response of an item and the state that it leaves.
  pub run_item-eq :
      (m : Item W (Unit {0})) (r : Response) (w : W) {o : Option (Unit {0})} {r' : Response}
      {w' : W}
      → m r w ≡ (o, r', w')
      → run_item m r w ≡ (r', w')
  unfolding run_item
  run_item-eq m r w e = ap (λ x. (x.1, x.2)) e
