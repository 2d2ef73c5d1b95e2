-- ===== src/EntityCrud/Bulk.antt =====
-- Bulk operations: all are authorized before any is carried out, and their types are not checked.
use hpa_with_bmad.Base.{
  ℕ, ◌≤◌, ltb, length, String, true, false, Option, none, some, List, [], ◌∷◌, ◌≡◌, refl, Dict,
  lookup, string_eq, lookup-insert_self, Bool-cases, Option-cases, inl, inr, ◌⊎◌, arith, All,
}
use hpa_with_bmad.Json.{
  Value, Fields, Items, object, null, bool, num, str, arr, obj, items, entries, get, as_object,
}
use hpa_with_bmad.Http.{Body, malformed, document}
use hpa_with_bmad.EntityCrud.{CrudSpec, Moment, Store, Exit, code, member, is_authorized, limit}
use hpa_with_bmad.EntityCrud.Defs.{
  log_mutation, stamped, checked, create_entity, authorize_all, apply_typed, apply_op, apply_all,
  bulk_list, bulk_operations,
}

-- An operation that the actor may carry out.
pub record IsPermitted (spec : CrudSpec) (actor : String) (op : Value) : Type 0 where
  pub fields : Dict String Value
  pub read : as_object op ≡ some fields
  pub authorized : is_authorized spec (get "operation" fields) actor ≡ some true

module _ (entity_path : String → String → String) (show : Value → String) (moment : ℕ → Moment)
    (spec : CrudSpec) (actor : String) where
  -- How the first loop ends: all are permitted, or the files are as they were.
  Gate : List Value → Store → Option (Exit × Store) → Type 0
  Gate ops s none = All (IsPermitted spec actor) ops
  Gate ops s (some r) = r.1.entities ≡ s.entities

  Gate-cons :
      (op : Value) (ops : List Value) (s : Store) (r : Option (Exit × Store))
      → IsPermitted spec actor op
      → Gate ops s r
      → Gate (op ∷ ops) s r
  unfolding Gate
  Gate-cons op ops s none p ps = (p, ps)
  Gate-cons op ops s (some r) p same = same

  authorize_all-Gate :
      (ops : List Value) (s : Store)
      → Gate ops s (authorize_all entity_path show moment spec actor ops s)
  unfolding authorize_all Gate log_mutation
  authorize_all-Gate [] s = tt
  authorize_all-Gate (op ∷ ops) s = elim (Option-cases (as_object op)) [
    | inl e ↦ rw (e, authorize_all) refl
    | inr (d, e) ↦ elim (Option-cases (is_authorized spec (get "operation" d) actor)) [
      | inl a ↦ rw (e, a, authorize_all) refl
      | inr (false, a) ↦ rw (e, a, authorize_all) refl
      | inr (true, a) ↦
          rw (e, a, authorize_all)
            (Gate-cons op ops s _ record { fields = d; read = e; authorized = a }
              (authorize_all-Gate ops s))
    ]
  ]

  bulk_list-Gate :
      (ops : List Value) (s : Store)
      → ((bulk_list entity_path show moment spec actor ops s).1.entities ≡ s.entities)
        ⊎ ((length ops ≤ limit spec) × All (IsPermitted spec actor) ops)
  unfolding bulk_list Gate
  bulk_list-Gate ops s =
      let gate = authorize_all-Gate ops s in
      elim (Bool-cases (ltb (limit spec) (length ops))) [
        | inl over ↦ rw (over, bulk_list) (inl refl)
        | inr within ↦
            elim (Option-cases (authorize_all entity_path show moment spec actor ops s)) [
              | inl e ↦ inr (ground arith, rw (e, Gate) at gate)
              | inr (r, e) ↦ rw (within, e, bulk_list) (inl (rw (e, Gate) at gate))
            ]
      ]

  -- Authorization is all or nothing: a bulk that changes any file at all was sent as a list of at
  -- most `bulk_limit` operations (1000 without one), each a dictionary that the actor may carry out.
  -- A single refused one, wherever it stands, leaves every file as it was.
  pub bulk_authorized_first :
      (content : Body) (s : Store)
      → ((bulk_operations entity_path show moment spec actor content s).1.entities ≡ s.entities)
        ⊎ ((vs : Items) × (content ≡ document (arr vs))
            × (length (items vs) ≤ limit spec)
            × All (IsPermitted spec actor) (items vs))
  unfolding bulk_operations
  bulk_authorized_first (malformed _) s = inl refl
  bulk_authorized_first (document (arr vs)) s = elim (bulk_list-Gate (items vs) s) [
    | inl same ↦ inl same
    | inr (within, permitted) ↦ inr (vs, refl, within, permitted)
  ]
  bulk_authorized_first (document null) s = inl refl
  bulk_authorized_first (document (bool _)) s = inl refl
  bulk_authorized_first (document (num _)) s = inl refl
  bulk_authorized_first (document (str _)) s = inl refl
  bulk_authorized_first (document (obj _)) s = inl refl

  abbrev bulk_create : String → String → Fields → Value
  bulk_create entity_type entity_id fs = object (
      ("operation", str "create")
      ∷ ("entity_type", str entity_type)
      ∷ ("entity_id", str entity_id)
      ∷ ("data", obj fs)
      ∷ [])

  abbrev pub alone : String → String → Fields → Store → Exit × Store
  alone entity_type entity_id fs s =
      bulk_list entity_path show moment spec actor (bulk_create entity_type entity_id fs ∷ []) s

  -- The commands refuse an entity type that is not configured, and a bulk does not: for an actor who
  -- may create, the same creation ends with 400 and no change as a command, and as the only operation
  -- of a bulk it ends with 0 and its document is in the file, if the limit is not 0.
  pub bulk_skips_type :
      (entity_type entity_id : String) (fs : Fields) (s : Store)
      → member entity_type spec.entity_types ≡ false
      → is_authorized spec (str "create") actor ≡ some true
      → ltb (limit spec) 1 ≡ false
      → (create_entity entity_path show moment spec
            record {
              entity_type = entity_type;
              entity_id = entity_id;
              actor = actor;
              content = document (obj fs);
            }
            s
          ≡ (code 400, s))
        × ((alone entity_type entity_id fs s).0 ≡ code 0)
        × (lookup (entity_path entity_type entity_id) (alone entity_type entity_id fs s).1.entities
            ≡ some (stamped entity_path show moment (str entity_type) (str entity_id) (entries fs)))
  unfolding create_entity checked bulk_list authorize_all apply_all apply_op apply_typed lookup
      log_mutation
  bulk_skips_type entity_type entity_id fs s unknown authorized within = (
    rw (checked, unknown) refl,
    rw (bulk_list, within, authorize_all, authorized) refl,
    rw (bulk_list, within, authorize_all, authorized)
        (lookup-insert_self (entity_path entity_type entity_id) _ s.entities),
  )
