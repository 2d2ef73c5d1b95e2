-- ===== src/EntityCrud.antt =====
-- scripts/services/entity-api.py: the command line on the entity files, with its mutation log.
pub mod Diff
pub mod Defs
pub mod Commands
pub mod Bulk
pub mod Tests
use hpa_with_bmad.Base.{
  ℕ, String, Bool, true, false, Option, none, some, List, [], ◌∷◌, Dict, lookup, string_eq, ◌==◌,
  any,
}
use hpa_with_bmad.Json.{Value}
use hpa_with_bmad.Json.Key.{Key, key_of, key_eq}
use hpa_with_bmad.Http.{Body}
use mathlib.Core.Option

-- The spec of the EntityCrud; `none` is a limit that the file leaves out.
pub record CrudSpec : Type 0 where
  pub entity_types : List String
  pub users : Dict String String
  pub operations : Dict Key (List String)
  pub bulk_limit : Option ℕ

-- What the clock and the generator give one line of the mutation log.
pub record Moment : Type 0 where
  pub timestamp : String
  pub correlation_id : String
  pub latency_ms : ℕ

-- A line of mutations.ndjson; its `error` is always null.
pub record Mutation : Type 0 where
  pub entity_type : Value
  pub entity_id : Value
  pub operation : Value
  pub actor : String
  pub change_diff : Dict String Value
  pub result : String
  pub moment : Moment

-- The entity files by their paths, and the mutation log, oldest line first.
pub record Store : Type 0 where
  pub entities : Dict String (Dict String Value)
  pub mutations : List Mutation

-- `raised`: an exception that is not caught
pub data Exit : Type 0 where
  code : ℕ → Exit
  raised : Exit

-- The arguments of a command on one entity.
pub record Arguments : Type 0 where
  pub entity_type : String
  pub entity_id : String
  pub actor : String
  pub content : Body

abbrev pub member : String → List String → Bool
member s names = any (λ n. n == s) names

abbrev pub roles_of : CrudSpec → Key → List String
roles_of spec k = elim (lookup k spec.operations) [ none ↦ [] | some roles ↦ roles ]

-- `is_authorized`; `none` is the TypeError of an operation that cannot be a key
unfoldable pub is_authorized : CrudSpec → Value → String → Option Bool
is_authorized spec operation actor = elim (lookup actor spec.users) [
  | none ↦ some false
  | some role ↦ Option.map (λ k. member role (roles_of spec k)) (key_of operation)
]

abbrev pub limit : CrudSpec → ℕ
limit spec = elim spec.bulk_limit [ none ↦ 1000 | some n ↦ n ]
