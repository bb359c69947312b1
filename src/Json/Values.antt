-- ===== src/Json/Values.antt =====
-- A small library of JSON values, for tests: the parameter with values written out, and numbers for doubles.
use ctm.Prelude.{ℕ, Bool, true, List, [], ◌∷◌, Bytes, ltb, leb, ◌==◌}
use ctm.Json.{JsonLibrary, Kind, null, boolean, unsigned, string, array, object}

mutual
  pub data Value : Type 0 where
    nothing : Value
    truth : Bool → Value
    num : ℕ → Value
    str : Bytes → Value
    arr : Items → Value
    obj : Fields → Value

  pub data Items : Type 0 where
    nil : Items
    cons : Value → Items → Items

  pub data Fields : Type 0 where
    end : Fields
    field : Bytes → Value → Fields → Fields

abbrev pub items : List Value → Items
items [] = nil
items (v ∷ vs) = cons v (items vs)

abbrev pub fields : List (Bytes × Value) → Fields
fields [] = end
fields ((k, v) ∷ vs) = field k v (fields vs)

abbrev list_of : Items → List Value
list_of nil = []
list_of (cons v vs) = v ∷ list_of vs

abbrev members_of : Fields → List (Bytes × Value)
members_of end = []
members_of (field k v vs) = (k, v) ∷ members_of vs

abbrev kind_of : Value → Kind Value
kind_of nothing = null
kind_of (truth b) = boolean b
kind_of (num n) = unsigned n
kind_of (str s) = string s
kind_of (arr vs) = array (list_of vs)
kind_of (obj vs) = object (members_of vs)

abbrev number_of : Value → ℕ
number_of (num n) = n
number_of _ = 0

abbrev pub values : JsonLibrary
values = record {
  Json = Value;
  Double = ℕ;
  kind = kind_of;
  number = number_of;
  is_finite = λ d. true;
  greater = λ a b. ltb b a;
  greater_equal = λ a b. leb b a;
  equal = λ a b. a == b;
  dump_size = λ v. 2;
}
