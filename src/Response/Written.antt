-- ===== src/Response/Written.antt =====
-- What `Write` sends.
use goexpose.Common.{
  append-nil, sym, ◌∙◌, arith, Error, List, [], Option, String, inl, inr, none, some, ℕ, ◌++◌, ◌∷◌,
  ◌⊎◌, ◌≡◌, arith, refl, Bool,
}
use goexpose.Value.{Bytes, Value, fields_of, obj}
use goexpose.Response.{Response, set_pretty}
use goexpose.Response.Writing.{
  Event, add_header, write_header, write_body, log, Codec, write, body, deliver,
}

-- The status lines among the events.
unfoldable pub statuses : List Event → List ℕ
statuses [] = []
statuses (write_header n ∷ w) = n ∷ statuses w
statuses (add_header k v ∷ w) = statuses w
statuses (write_body b ∷ w) = statuses w
statuses (log m p n t ∷ w) = statuses w

-- The bodies among the events.
unfoldable pub bodies : List Event → List Bytes
bodies [] = []
bodies (write_body b ∷ w) = b ∷ bodies w
bodies (write_header n ∷ w) = bodies w
bodies (add_header k v ∷ w) = bodies w
bodies (log m p n t ∷ w) = bodies w

statuses-append : (v w : List Event) → statuses (v ++ w) ≡ statuses v ++ statuses w
unfolding statuses
statuses-append [] w = refl
statuses-append (write_header n ∷ v) w = rw (statuses-append v w)
statuses-append (_ ∷ v) w = statuses-append v w

bodies-append : (v w : List Event) → bodies (v ++ w) ≡ bodies v ++ bodies w
unfolding bodies
bodies-append [] w = refl
bodies-append (write_body n ∷ v) w = rw (bodies-append v w)
bodies-append (_ ∷ v) w = bodies-append v w

abbrev pub body_list : Error ⊎ Bytes → List Bytes
body_list (inl e) = []
body_list (inr b) = b ∷ []

abbrev pub failure : Error ⊎ Bytes → Option Error
failure (inl e) = some e
failure (inr b) = none

statuses-deliver :
    (b : Error ⊎ Bytes) (m p : String) (n : ℕ) (t : Option ℕ) (w : List Event)
    → statuses (deliver b (log m p n t) w).0 ≡ statuses w
unfolding deliver
statuses-deliver (inl e) m p n t w = refl
statuses-deliver (inr b) m p n t w = rw statuses-append (unfold statuses in append-nil _)

bodies-deliver :
    (b : Error ⊎ Bytes) (m p : String) (n : ℕ) (t : Option ℕ) (w : List Event)
    → bodies (deliver b (log m p n t) w).0 ≡ bodies w ++ body_list b
unfolding deliver
bodies-deliver (inl e) m p n t w = sym (append-nil _)
bodies-deliver (inr b) m p n t w = rw bodies-append (unfold bodies in refl)

failure-deliver : (b : Error ⊎ Bytes) (l : Event) (w : List Event) → (deliver b l w).1 ≡ failure b
unfolding deliver
failure-deliver (inl e) l w = refl
failure-deliver (inr b) l w = refl

-- On every branch `Write` sends one status line, that of the response; it sends one body, unless
-- the fields cannot be marshalled, and then it returns that error.
pub write-once :
    (c : Codec) (r : Response) (method path : String) (elapsed : Option ℕ) (w : List Event)
    → (statuses (write c r method path elapsed w).0 ≡ statuses w ++ r.status ∷ [])
      × (bodies (write c r method path elapsed w).0 ≡ bodies w ++ body_list (body c r))
      × ((write c r method path elapsed w).1 ≡ failure (body c r))
write-once c r method path elapsed w =
    let started = w ++ add_header "Content-Type" "application/json" ∷ write_header r.status ∷ [] in
    let b = body c r in
    (
      unfold write in
          statuses-deliver b method path r.status elapsed started
          ∙ unfold statuses in statuses-append w _,
      unfold write in (rw bodies-deliver (rw bodies-append (unfold bodies in rw append-nil))),
      unfold write in failure-deliver b _ started,
    )

-- The two JSON calls differ in white space alone, which `compact` removes.
abbrev pub IgnoresIndent : Codec → Type 0
IgnoresIndent c =
    (v : Value)
    → (((e : Error) × (c.marshal_indent v ≡ inl e) × (c.marshal v ≡ inl e))
        ⊎ ((a : Bytes) × (b : Bytes) × (c.marshal_indent v ≡ inr a)
            × (c.marshal v ≡ inr b)
            × (c.compact a ≡ c.compact b)))

-- Where compacting forgets the indentation, `Pretty` changes nothing of what `Write` does.
pub write-set_pretty :
    (c : Codec) (r : Response) (pretty : Bool) (method path : String) (elapsed : Option ℕ)
    (w : List Event)
    → IgnoresIndent c
    → write c (set_pretty pretty r) method path elapsed w ≡ write c r method path elapsed w
unfolding write set_pretty
write-set_pretty c r pretty method path elapsed w h = ground (arith, h (obj (fields_of r.fields)))
