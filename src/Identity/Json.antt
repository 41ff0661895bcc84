-- ===== src/Identity/Json.antt =====
-- JSON values as `serde_json` gives them to the program, and the methods of `Value` that it calls.
use authguard.Base.{ℕ, Bool, Option, none, some, List, [], ◌∷◌, map, Text}
use authguard.Access.Signer.{Bytes}

-- A number that fits a u64, or the text of any other.
pub data Number : Type 0 where
  unsigned : ℕ → Number
  other : Text → Number

mutual
  pub data Value : Type 0 where
    null : Value
    boolean : Bool → Value
    number : Number → Value
    string : Text → Value
    array : Items → Value
    object : Fields → Value

  pub data Items : Type 0 where
    nil : Items
    cons : Value → Items → Items

  pub data Fields : Type 0 where
    end : Fields
    field : Text → Value → Fields → Fields

-- The fields of an object in the order of its walk.
abbrev pub Object : Type 0
Object = List (Text × Value)

abbrev pub elements : Items → List Value
elements nil = []
elements (cons value items) = value ∷ elements items

abbrev pub entries : Fields → Object
entries end = []
entries (field name value fields) = (name, value) ∷ entries fields

abbrev pub items_of : List Value → Items
items_of [] = nil
items_of (value ∷ values) = cons value (items_of values)

abbrev pub fields_of : Object → Fields
fields_of [] = end
fields_of ((name, value) ∷ rest) = field name value (fields_of rest)

-- `json!` of a list of texts, and of a u64
abbrev pub strings : List Text → Value
strings texts = array (items_of (map string texts))

abbrev pub u64 : ℕ → Value
u64 n = number (unsigned n)

abbrev pub as_str : Value → Option Text
as_str (string text) = some text
as_str _ = none

abbrev pub as_u64 : Value → Option ℕ
as_u64 (number (unsigned n)) = some n
as_u64 _ = none

abbrev pub as_object : Value → Option Object
as_object (object fields) = some (entries fields)
as_object _ = none

-- The library: `from_slice`, `to_vec`, and `to_string` of a u64.
pub record Serde : Type 0 where
  pub from_slice : Bytes → Option Value
  pub to_vec : Value → Option Bytes
  pub u64_to_string : ℕ → Text
