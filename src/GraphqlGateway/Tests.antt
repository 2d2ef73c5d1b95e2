-- ===== src/GraphqlGateway/Tests.antt =====
-- Queries to the gateway, and its theorem at a concrete one.
use hpa_with_bmad.Base.{
  pos, String, true, false, List, [], ◌∷◌, ◌≡◌, ◌↔◌, refl, none, lookup, occurs, starts_with,
  string_eq,
}
use hpa_with_bmad.Json.{bool}
use hpa_with_bmad.GraphqlGateway.{
  GatewaySpec, Query, role_can_access_store, stores_in, refusal, resolve, execute,
}
use hpa_with_bmad.GraphqlGateway.Verdict.{IsAdmissible, execute_iff}

abbrev spec : GatewaySpec
spec = record {
  joins = ("couchdb_entities", bool true) ∷ ("yugabytedb_resources", bool true) ∷ [];
  latency_budget_ms = none;
  endpoint = none;
}

abbrev admin_query : Query
admin_query = record {
  query = "{ couchdb_entities { id } }";
  role = "admin";
  simulate_slow = false;
}

abbrev as_found : List String → List String
as_found names = names

abbrev swapped : List String → List String
swapped [] = []
swapped (s ∷ []) = s ∷ []
swapped (s ∷ t ∷ names) = t ∷ s ∷ names

answered : (execute as_found (pos 3) "t" spec admin_query []).0 ≡ 0
unfolding execute stores_in occurs starts_with refusal role_can_access_store lookup resolve
answered = refl

execute_iff_example :
    ((execute as_found (pos 3) "t" spec admin_query []).0 ≡ 0)
    ↔ IsAdmissible spec (pos 3) admin_query
execute_iff_example = execute_iff as_found (pos 3) "t" (λ names s. refl) spec admin_query []

abbrev viewer_query : Query
viewer_query = record {
  query = "{ yugabytedb_resources { id } clickhouse_telemetry { id } }";
  role = "viewer";
  simulate_slow = false;
}

-- One query, refused as unauthorized or for a missing join by the order of the set alone.
order_decides :
    ((execute as_found (pos 3) "t" spec viewer_query []).0 ≡ 403)
    × ((execute swapped (pos 3) "t" spec viewer_query []).0 ≡ 400)
unfolding execute stores_in occurs starts_with refusal role_can_access_store lookup
order_decides = (refl, refl)
