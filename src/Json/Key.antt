-- ===== src/Json/Key.antt =====
-- The keys that a `dict` takes: lists and dictionaries are not hashable, and `True` and `1` are one
-- key, as are `False` and `0`.
use hpa_with_bmad.Base.{
  ℤ, pos, String, Bool, true, false, Option, none, some, ◌≡◌, ◌↔◌, arith, eqb_ℤ, eqb_ℤ_iff,
  Hashable, ◌==◌, string_eq, eq_iff,
}
use hpa_with_bmad.Json.{Value, null, bool, num, str, arr, obj}

pub data Key : Type 0 where
  none_key : Key
  num_key : ℤ → Key
  text_key : String → Key

abbrev pub key_of : Value → Option Key
key_of null = some none_key
key_of (bool true) = some (num_key (pos 1))
key_of (bool false) = some (num_key (pos 0))
key_of (num n) = some (num_key n)
key_of (str s) = some (text_key s)
key_of (arr _) = none
key_of (obj _) = none

abbrev pub same_key : Key → Key → Bool
same_key none_key none_key = true
same_key (num_key m) (num_key n) = eqb_ℤ m n
same_key (text_key s) (text_key t) = s == t
same_key _ _ = false

pub same_key_iff : (a b : Key) → (same_key a b ≡ true) ↔ (a ≡ b)
same_key_iff (num_key m) (num_key n) = ground (arith, eqb_ℤ_iff m n)
same_key_iff (text_key s) (text_key t) = ground (arith, eq_iff s t)
same_key_iff none_key none_key = ground arith
same_key_iff _ _ = ground arith

instance abbrev pub key_eq : Hashable Key
key_eq = record { same = same_key; same_iff = same_key_iff }
