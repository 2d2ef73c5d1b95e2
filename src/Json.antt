-- ===== src/Json.antt =====
-- JSON documents as Python holds them: what `json.loads` returns and `json.dumps` is given. The
-- numbers of a document are integers. An object is a `dict` with text keys, in insertion order.
pub mod Key
pub mod Number
pub mod Equality
use hpa_with_bmad.Base.{
  ℕ, ℤ, String, Bool, true, false, Option, none, some, List, [], ◌∷◌, if◌then◌else◌, ◌==◌, ◌&&◌,
  not, eqb_ℤ, pos, Dict, string_eq, lookup, ◌≡◌, refl, ap,
}

mutual
  pub data Value : Type 0 where
    null : Value
    bool : Bool → Value
    num : ℤ → Value
    str : String → Value
    arr : Items → Value
    obj : Fields → Value

  pub data Fields : Type 0 where
    end : Fields
    field : String → Value → Fields → Fields

  pub data Items : Type 0 where
    nil : Items
    cons : Value → Items → Items

abbrev pub items : Items → List Value
items nil = []
items (cons v vs) = v ∷ items vs

abbrev pub from_items : List Value → Items
from_items [] = nil
from_items (v ∷ vs) = cons v (from_items vs)

-- the object as a dictionary, and back
abbrev pub entries : Fields → Dict String Value
entries end = []
entries (field k v fs) = (k, v) ∷ entries fs

abbrev pub from_entries : Dict String Value → Fields
from_entries [] = end
from_entries ((k, v) ∷ d) = field k v (from_entries d)

-- `bool(v)`, as `not v`, `v or w` and `if v` read it
abbrev pub truthy : Value → Bool
truthy null = false
truthy (bool b) = b
truthy (num n) = not (eqb_ℤ n (pos 0))
truthy (str s) = not (s == "")
truthy (arr nil) = false
truthy (arr (cons _ _)) = true
truthy (obj end) = false
truthy (obj (field _ _ _)) = true

-- `v.get(...)` needs a dictionary: on any other value it raises AttributeError
abbrev pub as_object : Value → Option (Dict String Value)
as_object (obj fs) = some (entries fs)
as_object _ = none

-- `d.get(k)`, which is None for a missing key
abbrev pub or_null : Option Value → Value
or_null none = null
or_null (some v) = v

abbrev pub get : String → Dict String Value → Value
get k d = or_null (lookup k d)

abbrev pub object : Dict String Value → Value
object d = obj (from_entries d)

abbrev pub is_null : Value → Bool
is_null null = true
is_null _ = false

-- `v == t` for a text `t`
abbrev pub is_text : String → Value → Bool
is_text t (str s) = s == t
is_text t _ = false

-- `v or {}` where only the truth of `v` decides
abbrev pub or_empty : Value → Value
or_empty v = if truthy v then v else obj end

pub entries-from_entries : (d : Dict String Value) → entries (from_entries d) ≡ d
entries-from_entries [] = refl
entries-from_entries ((k, v) ∷ d) =
    ap (λ (r : Dict String Value). (k, v) ∷ r) (entries-from_entries d)
