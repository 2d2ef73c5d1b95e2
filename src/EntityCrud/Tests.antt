-- ===== src/EntityCrud/Tests.antt =====
-- Runs of the entity commands, and their theorems at concrete inputs.
use hpa_with_bmad.Base.{
  pos, ℕ, ◌≤◌, length, String, none, some, [], ◌∷◌, ◌≡◌, ◌⊎◌, refl, lookup, string_eq, remove,
  ◌+++◌, if◌then◌else◌, All, Dict,
}
use hpa_with_bmad.Json.{
  Value, Fields, Items, num, str, arr, obj, end, field, items, object, get, nil, cons,
}
use hpa_with_bmad.Json.Key.{text_key}
use hpa_with_bmad.Json.Equality.{same_value}
use hpa_with_bmad.Http.{Body, document}
use hpa_with_bmad.EntityCrud.{CrudSpec, Moment, Store, Arguments, is_authorized, limit}
use hpa_with_bmad.EntityCrud.Diff.{
  compute_change_diff, change, or_empty_dict, lookup-compute_change_diff,
}
use hpa_with_bmad.EntityCrud.Defs.{
  log_mutation, update_entity, delete_entity, authorize_all, apply_all, apply_op, apply_typed,
  bulk_list, bulk_operations,
}
use hpa_with_bmad.EntityCrud.Commands.{IsCarriedOut, IsRefused, change_outcome}
use hpa_with_bmad.EntityCrud.Bulk.{IsPermitted, bulk_authorized_first}

abbrev path_of : String → String → String
path_of entity_type entity_id = entity_type +++ "/" +++ entity_id +++ ".json"

abbrev shown : Value → String
shown _ = "None"

abbrev clock : ℕ → Moment
clock _ = record { timestamp = "2026-01-01T00:00:00+00:00"; correlation_id = "c"; latency_ms = 1 }

abbrev spec : CrudSpec
spec = record {
  entity_types = "company" ∷ "device" ∷ [];
  users = ("ann", "admin") ∷ ("bob", "viewer") ∷ [];
  operations =
      (text_key "create", "admin" ∷ [])
      ∷ (text_key "update", "admin" ∷ [])
      ∷ (text_key "delete", "admin" ∷ [])
      ∷ [];
  bulk_limit = none;
}

abbrev old : Dict String Value
old = ("name", str "old") ∷ ("size", num (pos 3)) ∷ []

abbrev start : Store
start = record { entities = ("company/1.json", old) ∷ []; mutations = [] }

abbrev new : Fields
new = field "name" (str "new") end

abbrev args : Arguments
args = record {
  entity_type = "company";
  entity_id = "1";
  actor = "ann";
  content = document (obj new);
}

lookup-compute_change_diff_example :
    lookup "size" (compute_change_diff (some old) (("name", str "new") ∷ [])) ≡ (
      if same_value (get "size" (or_empty_dict (some old))) (get "size" (("name", str "new") ∷ []))
      then none
      else some
          (change (get "size" (or_empty_dict (some old))) (get "size" (("name", str "new") ∷ []))))
lookup-compute_change_diff_example =
    lookup-compute_change_diff "size" (some old) (("name", str "new") ∷ [])

change_outcome_example :
    (IsCarriedOut path_of shown clock spec args start "update"
        (update_entity path_of shown clock spec args start)
      ⊎ IsRefused path_of shown clock spec args start
          (update_entity path_of shown clock spec args start))
    × (IsCarriedOut path_of shown clock spec args start "delete"
          (delete_entity path_of shown clock spec args start)
        ⊎ IsRefused path_of shown clock spec args start
            (delete_entity path_of shown clock spec args start))
change_outcome_example = change_outcome path_of shown clock spec args start

abbrev operations : Body
operations = document (
    arr (
      cons
        (object (
          ("operation", str "delete")
          ∷ ("entity_type", str "company")
          ∷ ("entity_id", str "1")
          ∷ []))
        nil))

deleted : (bulk_operations path_of shown clock spec "ann" operations start).1.entities ≡ []
unfolding bulk_operations bulk_list authorize_all apply_all apply_op apply_typed is_authorized
    lookup log_mutation remove ◌+++◌
deleted = refl

bulk_authorized_first_example :
    ((bulk_operations path_of shown clock spec "ann" operations start).1.entities ≡ start.entities)
    ⊎ ((vs : Items) × (operations ≡ document (arr vs))
        × (length (items vs) ≤ limit spec)
        × All (IsPermitted spec "ann") (items vs))
bulk_authorized_first_example =
    bulk_authorized_first path_of shown clock spec "ann" operations start
