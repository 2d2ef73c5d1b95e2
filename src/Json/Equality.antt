-- ===== src/Json/Equality.antt =====
-- Python's `==` on the values of a document: booleans are the numbers 1 and 0, lists are compared item
-- by item, and dictionaries by their keys, whatever the order. No two fields
-- of a dictionary have one key.
use hpa_with_bmad.Base.{
  ℕ, ℤ, pos, String, Bool, true, false, Option, none, some, if◌then◌else◌, ◌&&◌, ◌==◌, string_eq,
  eqb, eqb_ℤ, suc,
}
use hpa_with_bmad.Json.{Value, null, bool, num, str, arr, obj, Items, nil, cons, Fields, end, field}

abbrev number : Bool → ℤ
number b = if b then pos 1 else pos 0

field_value : String → Fields → Option Value
field_value k end = none
field_value k (field j v fs) = if j == k then some v else field_value k fs

field_count : Fields → ℕ
field_count end = 0
field_count (field k v fs) = suc (field_count fs)

unfoldable mutual
  unfolding field_value field_count

  pub same_value : Value → Value → Bool
  same_value null null = true
  same_value (bool b) (bool c) = eqb_ℤ (number b) (number c)
  same_value (bool b) (num n) = eqb_ℤ (number b) n
  same_value (num n) (bool b) = eqb_ℤ n (number b)
  same_value (num m) (num n) = eqb_ℤ m n
  same_value (str s) (str t) = s == t
  same_value (arr vs) (arr ws) = same_items vs ws
  same_value (obj fs) (obj gs) = eqb (field_count fs) (field_count gs) && same_fields fs gs
  same_value _ _ = false

  pub same_items : Items → Items → Bool
  same_items nil nil = true
  same_items (cons v vs) (cons w ws) = same_value v w && same_items vs ws
  same_items _ _ = false

  pub same_fields : Fields → Fields → Bool
  same_fields end gs = true
  same_fields (field k v fs) gs =
      (elim (field_value k gs) [ none ↦ false | some w ↦ same_value v w ]) && same_fields fs gs
