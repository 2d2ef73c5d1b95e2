-- ===== src/GraphqlGateway/Verdict.antt =====
-- Which queries are served, whatever the order in which their stores are walked.
use hpa_with_bmad.Base.{
  ltb_ℤ, ℤ, String, Bool, true, false, ◌&&◌, none, List, [], ◌∷◌, string_eq, ◌==◌, eq_iff, any, ◌≡◌,
  ◌≢◌, ◌↔◌, inl, inr, refl, arith, Bool-cases, Option-cases,
}
use hpa_with_bmad.GraphqlGateway.{
  GatewaySpec, Query, Line, Refusal, not_joined, unauthorized, role_can_access_store,
  query_store_names, is_joined, refusal, budget_of, is_empty, latency_of, resolve, refuse, execute,
}

abbrev pub member : String → List String → Bool
member s names = any (λ n. n == s) names

abbrev pub is_open : GatewaySpec → String → String → Bool
is_open spec role store = is_joined spec store && role_can_access_store role store

same_text : (s t : String) → (s == t) ≡ true → s ≡ t
same_text s t h = ground (arith, h, eq_iff s t)

refusal_open :
    (spec : GatewaySpec) (role : String) (stores : List String) (store : String)
    → refusal spec role stores ≡ none
    → member store stores ≡ true
    → is_open spec role store ≡ true
unfolding refusal
refusal_open spec role [] store h m = cc
refusal_open spec role (s ∷ stores) store h m = elim (Bool-cases (s == store)) [
  | inl same ↦
      let first : is_open spec role s ≡ true = ground arith in rw (same_text s store same) at first
  | inr other ↦ refusal_open spec role stores store (ground arith) (rw other at m)
]

open_refusal :
    (spec : GatewaySpec) (role : String) (stores : List String)
    → ((store : String) → member store stores ≡ true → is_open spec role store ≡ true)
    → refusal spec role stores ≡ none
unfolding refusal
open_refusal spec role [] h = refl
open_refusal spec role (s ∷ stores) h =
    let first : is_open spec role s ≡ true = h s (ground (arith, eq_iff s s)) in
    let later = open_refusal spec role stores (λ store m. h store (ground (arith, m))) in
    elim (Bool-cases (is_joined spec s)) [
      | inl a ↦ elim (Bool-cases (role_can_access_store role s)) [
        | inl b ↦ rw (refusal, a, b) later
        | inr b ↦ absurd (let k = rw (a, b) at first in cc)
      ]
      | inr a ↦ absurd (let k = rw a at first in cc)
    ]

-- A query that may be answered: it names a store, all stores that it names are joined and open to the
-- role, and its latency is within the budget.
pub record IsAdmissible (spec : GatewaySpec) (measured : ℤ) (q : Query) : Type 0 where
  pub named : is_empty (query_store_names q.query) ≡ false
  pub admitted :
      (store : String)
      → member store (query_store_names q.query) ≡ true
      → is_open spec q.role store ≡ true
  pub in_time : ltb_ℤ (budget_of spec) (latency_of spec q measured) ≡ false

module _ (order : List String → List String) (measured : ℤ) (timestamp : String)
    (same_stores : (names : List String) (s : String)
      → member s (order names) ≡ member s names) where
  refuse_status :
      (q : Query) (log : List Line) (why : Refusal)
      → (refuse order measured timestamp q log why).0 ≢ 0
  refuse_status q log not_joined = λ h. absurd (ground (arith, h))
  refuse_status q log unauthorized = λ h. absurd (ground (arith, h))

  resolve_status :
      (spec : GatewaySpec) (q : Query) (log : List Line)
      → ((resolve order measured timestamp spec q log).0 ≡ 0)
        ↔ (ltb_ℤ (budget_of spec) (latency_of spec q measured) ≡ false)
  unfolding resolve
  resolve_status spec q log = ground arith

  execute-IsAdmissible :
      (spec : GatewaySpec) (q : Query) (log : List Line)
      → (execute order measured timestamp spec q log).0 ≡ 0
      → IsAdmissible spec measured q
  unfolding execute
  execute-IsAdmissible spec q log h =
      let names = query_store_names q.query in
      elim (Bool-cases (is_empty names)) [
        | inl none_named ↦ absurd (let k = rw (none_named, execute) at h in ground (arith, k))
        | inr named ↦ elim (Option-cases (refusal spec q.role (order names))) [
          | inr (why, e) ↦ absurd (refuse_status q log why (rw (named, e, execute) at h))
          | inl e ↦ record {
            named = named;
            admitted = λ store m.
                refusal_open spec q.role (order names) store e (rw (same_stores names store) m);
            in_time = (resolve_status spec q log).0 (rw (named, e, execute) at h);
          }
        ]
      ]

  open_status :
      (spec : GatewaySpec) (q : Query) (log : List Line)
      → IsAdmissible spec measured q
      → (execute order measured timestamp spec q log).0 ≡ 0
  unfolding execute
  open_status spec q log served =
      let names = query_store_names q.query in
      let open_all : refusal spec q.role (order names) ≡ none =
        open_refusal spec q.role (order names)
          (λ store m. served.admitted store (rw (same_stores names store) at m)) in
      rw (execute, served.named, open_all) ((resolve_status spec q log).1 served.in_time)

  -- A query is answered with 0 exactly if it names a known store, every store that it names is joined
  -- and open to the role, and its latency is within the budget, in whatever order the set of the names
  -- is walked.
  pub execute_iff :
      (spec : GatewaySpec) (q : Query) (log : List Line)
      → ((execute order measured timestamp spec q log).0 ≡ 0) ↔ IsAdmissible spec measured q
  execute_iff spec q log = (execute-IsAdmissible spec q log, open_status spec q log)
