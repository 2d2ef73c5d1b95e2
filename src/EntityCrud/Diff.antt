-- ===== src/EntityCrud/Diff.antt =====
-- `compute_change_diff`: the keys in which two documents differ.
use Prim.Native.Nat.{Ordering}
use Prim.Native.String.{compare}
use hpa_with_bmad.Base.{
  String, Bool, false, not, ◌&&◌, ◌||◌, Option, none, some, List, [], ◌∷◌, ◌≡◌, refl, arith, Dict,
  lookup, has_key, string_eq, ◌==◌, eq_iff, if◌then◌else◌, any, Bool-cases, inl, inr,
}
use hpa_with_bmad.Json.{Value, null, object, get}
use hpa_with_bmad.Json.Equality.{same_value}

-- One key into a sorted list that has each key once.
unfoldable pub insert_key : String → List String → List String
insert_key k [] = k ∷ []
insert_key k (j ∷ keys) =
    let later = j ∷ insert_key k keys in
    elim (compare k j) [ Ordering.lt ↦ k ∷ j ∷ keys | Ordering.eq ↦ j ∷ keys | Ordering.gt ↦ later ]

-- `sorted(set(d) | set(...))`, from the sorted keys of what stands after the bar
unfoldable pub add_keys : Dict String Value → List String → List String
add_keys [] keys = keys
add_keys ((k, _) ∷ d) keys = insert_key k (add_keys d keys)

abbrev pub change : Value → Value → Value
change from to = object (("from", from) ∷ ("to", to) ∷ [])

unfoldable pub diff_at : Dict String Value → Dict String Value → List String → Dict String Value
diff_at before after [] = []
diff_at before after (k ∷ keys) =
    let later = diff_at before after keys in
    if same_value (get k before) (get k after)
    then later
    else (k, change (get k before) (get k after)) ∷ later

-- `before or {}`
abbrev pub or_empty_dict : Option (Dict String Value) → Dict String Value
or_empty_dict none = []
or_empty_dict (some d) = d

-- `compute_change_diff`
unfoldable pub compute_change_diff :
    Option (Dict String Value) → Dict String Value → Dict String Value
compute_change_diff before after =
    diff_at (or_empty_dict before) after (add_keys (or_empty_dict before) (add_keys after []))

abbrev member : String → List String → Bool
member k keys = any (λ j. j == k) keys

member-insert_key :
    (j k : String) (keys : List String) → member j (insert_key k keys) ≡ (k == j || member j keys)
unfolding insert_key
member-insert_key j k [] = refl
member-insert_key j k (i ∷ keys) =
    ground (arith, member-insert_key j k keys, eq_iff k i, eq_iff i j, eq_iff k j)

has_key-cons :
    (j k : String) (v : Value) (d : Dict String Value)
    → has_key j ((k, v) ∷ d) ≡ (k == j || has_key j d)
unfolding has_key lookup
has_key-cons j k v d = ground arith

member-add_keys :
    (j : String) (d : Dict String Value) (keys : List String)
    → member j (add_keys d keys) ≡ (has_key j d || member j keys)
unfolding add_keys
member-add_keys j [] keys = unfold has_key lookup in refl
member-add_keys j ((k, v) ∷ d) keys =
    ground (
      arith,
      member-insert_key j k (add_keys d keys),
      member-add_keys j d keys,
      has_key-cons j k v d,
    )

get_absent : (k : String) (d : Dict String Value) → has_key k d ≡ false → get k d ≡ null
unfolding has_key
get_absent k d h = ground arith

lookup-diff_at :
    (k : String) (before after : Dict String Value) (keys : List String)
    → lookup k (diff_at before after keys) ≡ (
        if member k keys && not (same_value (get k before) (get k after))
        then some (change (get k before) (get k after))
        else none)
unfolding diff_at lookup
lookup-diff_at k before after [] = refl
lookup-diff_at k before after (j ∷ keys) =
    ground (arith, lookup-diff_at k before after keys, eq_iff j k)

-- The diff of a change is exact: it has a key exactly if the two documents differ in it by Python's
-- `==`, a missing key counting as None, and then it holds the old and the new value.
pub lookup-compute_change_diff :
    (k : String) (before : Option (Dict String Value)) (after : Dict String Value)
    → lookup k (compute_change_diff before after) ≡ (
        if same_value (get k (or_empty_dict before)) (get k after)
        then none
        else some (change (get k (or_empty_dict before)) (get k after)))
unfolding compute_change_diff
lookup-compute_change_diff k before after =
    let d = or_empty_dict before in
    let keys : List String = add_keys d (add_keys after []) in
    let known : member k keys ≡ (has_key k d || (has_key k after || false)) =
      rw (member-add_keys k d (add_keys after []), member-add_keys k after []) refl in
    rw (lookup-diff_at k d after keys, known)
      (elim (Bool-cases (has_key k d || has_key k after)) [
        | inl some_key ↦ ground arith
        | inr no_key ↦
            rw (get_absent k d (ground arith), get_absent k after (ground arith))
              (unfold same_value in ground arith)
      ])
