-- ===== src/Python/Values.antt =====
-- The values of a YAML document, and what Python does with a value of the wrong type.
use text.Mathlib.Text.{find?}
use wasteless.Common.{
  String, Bool, true, false, not, ◌&&◌, ◌||◌, Option, none, some, str_eq, if◌then◌else◌, is_some,
}
use wasteless.Common.Int.{ℤ, pos, eqb_ℤ}
use wasteless.Python.Floats.{Numbers}
use wasteless.Python.Errors.{error, type_error, attribute_error, key_error, Result, ok, raised}

mutual
  pub data Value (F : Type 0) : Type 0 where
    null : Value F
    bool : Bool → Value F
    int : ℤ → Value F
    float : F → Value F
    str : String → Value F
    list : Items F → Value F
    dict : Fields F → Value F

  pub data Items (F : Type 0) : Type 0 where
    nil : Items F
    cons : Value F → Items F → Items F

  pub data Fields (F : Type 0) : Type 0 where
    end : Fields F
    field : String → Value F → Fields F → Fields F

module _ {F : Type 0} where
  abbrev pub find_field : String → Fields F → Option (Value F)
  find_field k end = none
  find_field k (field j v fs) = if str_eq j k then some v else find_field k fs

  abbrev pub value_or : Value F → Option (Value F) → Value F
  value_or d none = d
  value_or d (some v) = v

  -- `v.get(k, d)`: only a dict has the method
  abbrev pub get : Value F → String → Value F → Result (Value F)
  get (dict fs) k d = ok (value_or d (find_field k fs))
  get null k d = raised (error attribute_error)
  get (bool b) k d = raised (error attribute_error)
  get (int z) k d = raised (error attribute_error)
  get (float x) k d = raised (error attribute_error)
  get (str s) k d = raised (error attribute_error)
  get (list xs) k d = raised (error attribute_error)

  abbrev pub is_dict : Value F → Bool
  is_dict (dict fs) = true
  is_dict _ = false

  abbrev pub is_list : Value F → Bool
  is_list (list xs) = true
  is_list _ = false

  -- `v == s` for a str s
  abbrev pub equals_str : String → Value F → Bool
  equals_str s (str t) = str_eq s t
  equals_str s _ = false

  abbrev pub any_item : (Value F → Bool) → Items F → Bool
  any_item p nil = false
  any_item p (cons v vs) = p v || any_item p vs

  -- `k in v` for a str k
  abbrev pub contains_key : Value F → String → Result Bool
  contains_key (dict fs) k = ok (is_some (find_field k fs))
  contains_key (list xs) k = ok (any_item (equals_str k) xs)
  contains_key (str s) k = ok (is_some (find? s k))
  contains_key null k = raised (error type_error)
  contains_key (bool b) k = raised (error type_error)
  contains_key (int z) k = raised (error type_error)
  contains_key (float x) k = raised (error type_error)

  abbrev found_or_key_error : Option (Value F) → Result (Value F)
  found_or_key_error none = raised (error key_error)
  found_or_key_error (some v) = ok v

  -- `v[k]` for a str k
  abbrev pub index : Value F → String → Result (Value F)
  index (dict fs) k = found_or_key_error (find_field k fs)
  index null k = raised (error type_error)
  index (bool b) k = raised (error type_error)
  index (int z) k = raised (error type_error)
  index (float x) k = raised (error type_error)
  index (str s) k = raised (error type_error)
  index (list xs) k = raised (error type_error)

module _ {F : Type 0} ⦃n : Numbers F⦄ where
  abbrev pub equals : F → F → Bool
  equals a b = n.le a b && n.le b a

  -- `bool(v)`
  abbrev pub truthy : Value F → Bool
  truthy null = false
  truthy (bool b) = b
  truthy (int z) = not (eqb_ℤ z (pos 0))
  truthy (float x) = not (equals x (n.of_int (pos 0)))
  truthy (str s) = not (str_eq s "")
  truthy (list nil) = false
  truthy (list (cons v vs)) = true
  truthy (dict end) = false
  truthy (dict (field k v fs)) = true

  -- `v or {}`
  abbrev pub or_empty : Value F → Value F
  or_empty v = if truthy v then v else dict end

  -- the number that a value is compared as
  abbrev pub as_number : Value F → Result F
  as_number (int z) = ok (n.of_int z)
  as_number (float x) = ok x
  as_number (bool true) = ok (n.of_int (pos 1))
  as_number (bool false) = ok (n.of_int (pos 0))
  as_number null = raised (error type_error)
  as_number (str s) = raised (error type_error)
  as_number (list xs) = raised (error type_error)
  as_number (dict fs) = raised (error type_error)

  -- `isinstance(v, (int, float)) and not isinstance(v, bool)`
  abbrev pub is_number : Value F → Bool
  is_number (int z) = true
  is_number (float x) = true
  is_number _ = false

  -- `v == z` for an int z
  abbrev pub equals_int : ℤ → Value F → Bool
  equals_int z (int y) = eqb_ℤ z y
  equals_int z (float x) = equals (n.of_int z) x
  equals_int z (bool true) = eqb_ℤ z (pos 1)
  equals_int z (bool false) = eqb_ℤ z (pos 0)
  equals_int z _ = false
