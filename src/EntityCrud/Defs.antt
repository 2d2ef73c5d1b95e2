-- ===== src/EntityCrud/Defs.antt =====
-- The commands of entity-api.py on the entity files and the mutation log.
use hpa_with_bmad.Base.{
  ℕ, ltb, length, String, true, false, Option, none, some, List, [], ◌∷◌, ◌++◌, if◌then◌else◌, Dict,
  lookup, insert, remove, string_eq,
}
use hpa_with_bmad.Json.{Value, str, arr, obj, items, end, get, as_object, is_text}
use hpa_with_bmad.Json.Key.{key_eq}
use hpa_with_bmad.Http.{Body, malformed, document}
use hpa_with_bmad.EntityCrud.Diff.{compute_change_diff}
use hpa_with_bmad.EntityCrud.{
  CrudSpec, Moment, Store, Exit, code, raised, Arguments, member, is_authorized, limit,
}
use mathlib.Core.Option

abbrev or_blank : Option Value → Value
or_blank none = str ""
or_blank (some v) = v

-- `op.get("data", {})`
abbrev pub data_of : Dict String Value → Value
data_of op = elim (lookup "data" op) [ none ↦ obj end | some v ↦ v ]

-- A part of a path must be a text.
abbrev pub text_type : Value → Option String
text_type (str s) = some s
text_type _ = none

-- The path of an entity's file, by what pathlib makes of a type and an id, which may be one path for
-- two entities; the text of an id that is none; and what each line of the log is given.
module _ (entity_path : String → String → String) (show : Value → String)
    (moment : ℕ → Moment) where
  -- `f"{entity_id}"`
  abbrev pub text_of : Value → String
  text_of (str s) = s
  text_of v = show v

  -- `log_mutation`
  unfoldable pub log_mutation :
      Value → Value → Value → String → Dict String Value → String → Store → Store
  log_mutation operation entity_type entity_id actor diff result s = record s {
    mutations =
        s.mutations
        ++ record {
          entity_type = entity_type;
          entity_id = entity_id;
          operation = operation;
          actor = actor;
          change_diff = diff;
          result = result;
          moment = moment (length s.mutations);
        }
          ∷ [];
  }

  -- `read_entity`
  abbrev pub read_entity : String → String → Store → Option (Dict String Value)
  read_entity entity_type entity_id s = lookup (entity_path entity_type entity_id) s.entities

  -- `save_entity`
  abbrev pub save_entity : String → String → Dict String Value → Store → Store
  save_entity entity_type entity_id d s = record s {
    entities = insert (entity_path entity_type entity_id) d s.entities;
  }

  -- The file of the entity, unlinked.
  abbrev pub unlink_entity : String → String → Store → Store
  unlink_entity entity_type entity_id s = record s {
    entities = remove (entity_path entity_type entity_id) s.entities;
  }

  -- `data["entity_type"] = ...; data["entity_id"] = ...`
  abbrev pub stamped : Value → Value → Dict String Value → Dict String Value
  stamped entity_type entity_id d =
      insert "entity_id" entity_id (insert "entity_type" entity_type d)

  -- A line about one entity of a command.
  abbrev pub log_args : String → Arguments → Dict String Value → String → Store → Store
  log_args operation args diff result s =
      log_mutation (str operation) (str args.entity_type) (str args.entity_id) args.actor diff
        result s

  -- The two checks with which each command begins.
  unfoldable pub checked : CrudSpec → String → Arguments → Store → Exit × Store → Exit × Store
  checked spec operation args s rest =
      if member args.entity_type spec.entity_types
      then elim (is_authorized spec (str operation) args.actor) [
        | none ↦ (raised, s)
        | some false ↦ (code 403, log_args operation args [] "unauthorized" s)
        | some true ↦ rest
      ]
      else (code 400, s)

  -- The document of `json.loads(args.data)`, which must be a dictionary.
  abbrev pub content_of : Body → Option (Dict String Value)
  content_of (malformed _) = none
  content_of (document v) = as_object v

  -- Saves the document of the arguments and logs the change.
  unfoldable pub write : String → Arguments → Option (Dict String Value) → Store → Exit × Store
  write operation args before s = elim (content_of args.content) [
    | none ↦ (raised, s)
    | some d ↦
        let saved = stamped (str args.entity_type) (str args.entity_id) d in
        (
          code 0,
          log_args operation args (compute_change_diff before saved) "success"
              (save_entity args.entity_type args.entity_id saved s),
        )
  ]

  -- `create_entity`
  unfoldable pub create_entity : CrudSpec → Arguments → Store → Exit × Store
  create_entity spec args s = checked spec "create" args s (write "create" args none s)

  -- `read_command`; what it prints is not modelled
  unfoldable pub read_command : CrudSpec → Arguments → Store → Exit × Store
  read_command spec args s =
      checked spec "read" args s (elim (read_entity args.entity_type args.entity_id s) [
        | none ↦ (code 404, s)
        | some _ ↦ (code 0, s)
      ])

  -- `update_entity`
  unfoldable pub update_entity : CrudSpec → Arguments → Store → Exit × Store
  update_entity spec args s =
      checked spec "update" args s (elim (read_entity args.entity_type args.entity_id s) [
        | none ↦ (code 404, s)
        | some before ↦ write "update" args (some before) s
      ])

  -- `delete_entity`
  unfoldable pub delete_entity : CrudSpec → Arguments → Store → Exit × Store
  delete_entity spec args s =
      checked spec "delete" args s (elim (read_entity args.entity_type args.entity_id s) [
        | none ↦ (code 404, s)
        | some before ↦ (
          code 0,
          log_args "delete" args (compute_change_diff (some before) []) "success"
              (unlink_entity args.entity_type args.entity_id s),
        )
      ])

  -- The first loop of `bulk_operations`: how it ends before the second, if it does.
  unfoldable pub authorize_all : CrudSpec → String → List Value → Store → Option (Exit × Store)
  authorize_all spec actor [] s = none
  authorize_all spec actor (op ∷ ops) s =
      let rest = authorize_all spec actor ops s in
      elim (as_object op) [
        | none ↦ some (raised, s)
        | some d ↦ elim (is_authorized spec (get "operation" d) actor) [
          | none ↦ some (raised, s)
          | some true ↦ rest
          | some false ↦ some (
            code 403,
            log_mutation (get "operation" d) (or_blank (lookup "entity_type" d))
                (or_blank (lookup "entity_id" d)) actor [] "unauthorized" s,
          )
        ]
      ]

  -- One round of the second loop, for a text as the type; `none` is an exception. Each branch saves
  -- or unlinks before it logs.
  unfoldable pub apply_typed : String → String → Dict String Value → Store → Option Store
  apply_typed actor entity_type op s =
      let entity_id = text_of (get "entity_id" op) in
      let before = read_entity entity_type entity_id s in
      let saved = λ (d : Dict String Value). stamped (str entity_type) (get "entity_id" op) d in
      let log = log_mutation (get "operation" op) (str entity_type) (get "entity_id" op) actor in
      if is_text "create" (get "operation" op)
      then Option.map
          (λ d.
            log (compute_change_diff none (saved d)) "success"
              (save_entity entity_type entity_id (saved d) s))
          (as_object (data_of op))
      else if is_text "update" (get "operation" op)
      then elim before [
        | none ↦ some (log [] "not_found" s)
        | some old ↦
            Option.map
              (λ d.
                log (compute_change_diff (some old) (saved d)) "success"
                  (save_entity entity_type entity_id (saved d) s))
              (as_object (data_of op))
      ]
      else if is_text "delete" (get "operation" op)
      then some (
          log (compute_change_diff before []) "success"
            (elim before [ none ↦ s | some _ ↦ unlink_entity entity_type entity_id s ]))
      else some (log [] "unknown_operation" s)

  unfoldable pub apply_op : String → Value → Store → Option Store
  apply_op actor op s = elim (as_object op) [
    | none ↦ none
    | some d ↦ elim (text_type (get "entity_type" d)) [
      | none ↦ none
      | some entity_type ↦ apply_typed actor entity_type d s
    ]
  ]

  -- The second loop: an exception leaves what the rounds before it did.
  unfoldable pub apply_all : String → List Value → Store → Exit × Store
  apply_all actor [] s = (code 0, s)
  apply_all actor (op ∷ ops) s = elim (apply_op actor op s) [
    | none ↦ (raised, s)
    | some t ↦ apply_all actor ops t
  ]

  unfoldable pub bulk_list : CrudSpec → String → List Value → Store → Exit × Store
  bulk_list spec actor ops s =
      if ltb (limit spec) (length ops)
      then (code 400, s)
      else elim (authorize_all spec actor ops s) [
        | some result ↦ result
        | none ↦ apply_all actor ops s
      ]

  -- `bulk_operations`
  unfoldable pub bulk_operations : CrudSpec → String → Body → Store → Exit × Store
  bulk_operations spec actor (malformed _) s = (raised, s)
  bulk_operations spec actor (document (arr vs)) s = bulk_list spec actor (items vs) s
  bulk_operations spec actor (document _) s = (code 400, s)
