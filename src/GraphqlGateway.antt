-- ===== src/GraphqlGateway.antt =====
-- scripts/services/graphql-gateway.py: the check of a cross-store query, and the query log.
pub mod Verdict
pub mod Tests
use hpa_with_bmad.Base.{
  ℕ, zero, suc, ◌+ℤ◌, ltb_ℤ, ℤ, pos, String, Bool, true, false, not, ◌||◌, Option, none, some, List,
  [], ◌∷◌, ◌++◌, Dict, lookup, string_eq, ◌==◌, any, if◌then◌else◌, occurs,
}
use hpa_with_bmad.Json.{Value, truthy}
use hpa_with_bmad.EntityCrud.Diff.{insert_key}

-- The spec of the HasuraGraphQL; `none` is an entry that the file leaves out.
pub record GatewaySpec : Type 0 where
  pub joins : Dict String Value
  pub latency_budget_ms : Option ℤ
  pub endpoint : Option String

pub record Query : Type 0 where
  pub query : String
  pub role : String
  pub simulate_slow : Bool

-- A line of graphql_queries.ndjson; `none` is a key that the line does not have.
pub record Line : Type 0 where
  pub query : String
  pub role : String
  pub stores : List String
  pub result : String
  pub latency_ms : Option ℤ
  pub budget_ms : Option ℤ
  pub endpoint : Option String
  pub timestamp : String

-- Why a store is refused: its join is not configured, or the role may not access it.
pub data Refusal : Type 0 where
  not_joined : Refusal
  unauthorized : Refusal

-- `ALLOWED_STORES`
abbrev pub allowed_stores : List String
allowed_stores = "couchdb_entities" ∷ "yugabytedb_resources" ∷ "clickhouse_telemetry" ∷ []

unfoldable pub role_can_access_store : String → String → Bool
role_can_access_store role store =
    if role == "admin" || role == "platform-engineer"
    then true
    else if role == "viewer"
    then store == "couchdb_entities" || store == "clickhouse_telemetry"
    else false

-- The stores of a list that the text of the query has.
unfoldable pub stores_in : String → List String → List String
stores_in query [] = []
stores_in query (store ∷ stores) =
    let rest = stores_in query stores in if occurs store query then store ∷ rest else rest

-- `query_store_names`, as the list of the set's elements
abbrev pub query_store_names : String → List String
query_store_names query = stores_in query allowed_stores

unfoldable pub sorted : List String → List String
sorted [] = []
sorted (s ∷ names) = insert_key s (sorted names)

-- `query[:200]`
unfoldable pub first_of : ℕ → String → String
first_of zero s = ""
first_of (suc n) String.[] = ""
first_of (suc n) (String.◌∷◌ c s) = String.◌∷◌ c (first_of n s)

-- `joins.get(store, False)`
abbrev pub is_joined : GatewaySpec → String → Bool
is_joined spec store = elim (lookup store spec.joins) [ none ↦ false | some v ↦ truthy v ]

-- The loop over the stores: why the first that is refused is.
unfoldable pub refusal : GatewaySpec → String → List String → Option Refusal
refusal spec role [] = none
refusal spec role (store ∷ stores) =
    let rest = refusal spec role stores in
    if not (is_joined spec store)
    then some not_joined
    else if not (role_can_access_store role store)
    then some unauthorized
    else rest

abbrev pub budget_of : GatewaySpec → ℤ
budget_of spec = elim spec.latency_budget_ms [ none ↦ pos 2000 | some ms ↦ ms ]

abbrev pub endpoint_of : GatewaySpec → String
endpoint_of spec = elim spec.endpoint [ none ↦ "/gql" | some path ↦ path ]

abbrev pub is_empty : List String → Bool
is_empty [] = true
is_empty (_ ∷ _) = false

-- A line of the log with what all lines have.
abbrev pub line : Query → String → String → Line
line q result timestamp = record {
  query = first_of 200 q.query;
  role = q.role;
  stores = sorted (query_store_names q.query);
  result = result;
  latency_ms = none;
  budget_ms = none;
  endpoint = none;
  timestamp = timestamp;
}

-- The latency that counts: the measured one, or a simulated one.
abbrev pub latency_of : GatewaySpec → Query → ℤ → ℤ
latency_of spec q measured = if q.simulate_slow then budget_of spec +ℤ pos 10 else measured

-- The order in which a set of texts is walked, which differs from process to process; the measured
-- latency; the moment.
module _ (order : List String → List String) (measured : ℤ) (timestamp : String) where
  -- From the end of the loop on.
  unfoldable pub resolve : GatewaySpec → Query → List Line → ℕ × List Line
  resolve spec q log =
      let latency = latency_of spec q measured in
      if ltb_ℤ (budget_of spec) latency
      then (
        1,
        log
            ++ record (line q "budget_exceeded" timestamp) {
              latency_ms = some latency;
              budget_ms = some (budget_of spec);
            }
              ∷ [],
      )
      else (
        0,
        log
            ++ record (line q "success" timestamp) {
              latency_ms = some latency;
              endpoint = some (endpoint_of spec);
            }
              ∷ [],
      )

  -- What a refusal leaves: only that of the role has a line.
  abbrev pub refuse : Query → List Line → Refusal → ℕ × List Line
  refuse q log unauthorized = (403, log ++ line q "unauthorized" timestamp ∷ [])
  refuse q log not_joined = (400, log)

  -- `execute`, over the query log: the exit status and the log after it
  unfoldable pub execute : GatewaySpec → Query → List Line → ℕ × List Line
  execute spec q log =
      if is_empty (query_store_names q.query)
      then (400, log)
      else elim (refusal spec q.role (order (query_store_names q.query))) [
        | some why ↦ refuse q log why
        | none ↦ resolve spec q log
      ]
