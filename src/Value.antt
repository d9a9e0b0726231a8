-- ===== src/Value.antt =====
-- The values that the program keeps in an `interface{}`: what a response holds, what the formats
-- return and what the template data is made of. A number of JSON that is no integer is kept as its
-- text; a `*Response` inside another response is kept whole.
use goexpose.Common.{Bool, Error, List, [], Option, String, ℕ, ◌∷◌}
use goexpose.Dict.{Dict}

-- A signed integer; `negsuc n` is -(n + 1).
pub data ℤ : Type 0 where
  pos negsuc : ℕ → ℤ

abbrev pub Bytes : Type 0
Bytes = List ℕ

mutual
  pub data Value : Type 0 where
    null : Value
    bool : Bool → Value
    num : ℤ → Value
    float : String → Value
    str : String → Value
    bytes : Bytes → Value
    error : Error → Value
    arr : Items → Value
    obj : Fields → Value
    response : ℕ → Bool → Fields → Option Bytes → Value

  pub data Items : Type 0 where
    nil : Items
    cons : Value → Items → Items

  pub data Fields : Type 0 where
    end : Fields
    field : String → Value → Fields → Fields

abbrev pub items : List Value → Items
items [] = nil
items (v ∷ vs) = cons v (items vs)

abbrev pub fields_of : Dict Value → Fields
fields_of [] = end
fields_of ((k, v) ∷ m) = field k v (fields_of m)

-- A `[]string`
abbrev pub strings : List String → Items
strings [] = nil
strings (s ∷ ss) = cons (str s) (strings ss)

-- A `[]map[string]interface{}`
abbrev pub objects : List (Dict Value) → Items
objects [] = nil
objects (m ∷ ms) = cons (obj (fields_of m)) (objects ms)
