-- ===== src/Identity/Tokens.antt =====
-- What a token of the identity service is good for.
use hpa_with_bmad.Base.{
  String, Char, if◌then◌else◌, Bool, true, false, none, some, [], ◌∷◌, ◌≡◌, ◌↔◌, ◌⊎◌, inl, inr,
  refl, arith, eq_iff, lookup, string_eq, Bool-cases, occurs, starts_with, strip_prefix, ◌+++◌,
  ◌==◌,
}
use hpa_with_bmad.Json.{Value, Fields, str, arr, obj, entries, get, from_items, object}
use hpa_with_bmad.Http.{Request, Response, json, failed, status_of, parsed}
use hpa_with_bmad.Regex.{search_group, is_word_or_dash, match_here, span, span-append, all_in}
use hpa_with_bmad.Identity.{
  role_for_group, token_role, token_valid, bearer, read_body, with_body, jwt_for, login, with_token,
  welcome, role_of, groups, is_allowed, store_of_query, query_of, gql, do_get, do_post, is_in,
  normalized,
}

-- A request with a token that is marked as expired or revoked.
pub record IsMarked (req : Request) : Type 0 where
  pub token : String
  pub sent : bearer req ≡ some token
  pub marked : (occurs "exp=0" token ≡ true) ⊎ (occurs "revoked" token ≡ true)

marked-token_valid :
    (token : String)
    → (occurs "exp=0" token ≡ true) ⊎ (occurs "revoked" token ≡ true)
    → token_valid (some token) ≡ false
unfolding token_valid
marked-token_valid token h = ground arith

marked-with_token :
    (req : Request) (rest : Response)
    → (bearer req ≡ none) ⊎ IsMarked req
    → with_token req rest ≡ failed 401 "unauthorized"
unfolding with_token
marked-with_token req rest (inl h) = rw (h, with_token) (unfold token_valid in refl)
marked-with_token req rest (inr w) =
    rw (w.sent, with_token, marked-token_valid w.token w.marked) refl

-- Without a bearer token, or with one that is marked as expired or revoked, whatever else it says,
-- all of the three protected endpoints answer 401.
pub marked_refused :
    (show : Value → String) (req : Request)
    → (bearer req ≡ none) ⊎ IsMarked req
    → (req.path ≡ "/identity/groups" → do_get req ≡ failed 401 "unauthorized")
      × (starts_with "/api/" req.path ≡ true → do_get req ≡ failed 401 "unauthorized")
      × (req.path ≡ "/gql" → do_post show req ≡ failed 401 "unauthorized")
unfolding do_get do_post groups welcome gql
marked_refused show req h = (
  λ p.
      let here : (req.path == "/identity/groups") ≡ true = (eq_iff _ _).1 p in
      rw (here, do_get) (marked-with_token req _ h),
  λ a. elim (Bool-cases (req.path == "/identity/groups")) [
    | inl p ↦ rw (p, do_get) (marked-with_token req _ h)
    | inr p ↦ rw (p, a, do_get) (marked-with_token req _ h)
  ],
  λ p.
      let no_login : (req.path == "/casdoor/login") ≡ false = rw p refl in
      let here : (req.path == "/gql") ≡ true = (eq_iff _ _).1 p in
      rw (no_login, here, do_post) (marked-with_token req _ h),
)

-- What a query needs, in words of its own: an administrator may query any store, a manager
-- "yugabytedb_resources", nobody else anything.
abbrev pub IsEntitled : String → String → Type 0
IsEntitled role store = (role ≡ "admin") ⊎ (role ≡ "manager") × (store ≡ "yugabytedb_resources")

is_allowed_iff : (role store : String) → (is_allowed role store ≡ true) ↔ IsEntitled role store
unfolding is_allowed lookup
is_allowed_iff role store = elim (Bool-cases ("couchdb_entities" == store)) [
  | inl a ↦
      rw (a, is_allowed)
        (ground (
          arith,
          eq_iff role "admin",
          eq_iff "couchdb_entities" store,
          eq_iff "couchdb_entities" "yugabytedb_resources",
        ))
  | inr a ↦ elim (Bool-cases ("yugabytedb_resources" == store)) [
    | inl b ↦
        rw (a, b, is_allowed)
          (ground (
            arith,
            eq_iff role "admin",
            eq_iff role "manager",
            eq_iff "yugabytedb_resources" store,
          ))
    | inr b ↦
        rw (a, b, is_allowed)
          (ground (arith, eq_iff role "admin", eq_iff "yugabytedb_resources" store))
  ]
]

-- A query is answered 200 exactly when the token is valid and its role is entitled to the store that
-- the query names.
pub gql_iff :
    (req : Request) (fs : Fields) (query : String)
    → read_body req ≡ parsed (obj fs)
    → query_of (entries fs) ≡ some query
    → (status_of (gql req) ≡ some 200)
      ↔ ((token_valid (bearer req) ≡ true) × IsEntitled (role_of req) (store_of_query query))
unfolding gql with_token with_body
gql_iff req fs query body_read has_query = elim (Bool-cases (token_valid (bearer req))) [
  | inr v ↦ rw (v, gql, with_token) (λ e. absurd (ground arith), λ (t, w). cc)
  | inl v ↦
      rw (v, body_read, has_query, gql, with_token, with_body)
        (elim (Bool-cases (is_allowed (role_of req) (store_of_query query))) [
          | inl a ↦
              rw a
                (λ e. (refl, (is_allowed_iff (role_of req) (store_of_query query)).0 a), λ w. refl)
          | inr a ↦ rw a (
            λ e. absurd (ground arith),
            λ (t, w). cc ((is_allowed_iff (role_of req) (store_of_query query)).1 w, a),
          )
        ])
]

jwt_group :
    (g : String)
    → all_in is_word_or_dash g ≡ true
    → (g == "") ≡ false
    → search_group "group=" is_word_or_dash (jwt_for g) ≡ some g
unfolding jwt_for search_group match_here strip_prefix ◌+++◌
jwt_group g h filled =
    let run : span is_word_or_dash (g +++ ".placeholder") ≡ g =
      span-append is_word_or_dash g ".placeholder" h (unfold span in refl) in
    rw (search_group, run, filled) refl

-- The role of the token that a login issues: that of the group.
jwt-token_role :
    (g : String)
    → all_in is_word_or_dash g ≡ true
    → (g == "") ≡ false
    → token_role (jwt_for g) ≡ some (role_for_group g)
unfolding token_role
jwt-token_role g h filled = rw (token_role, jwt_group g h filled) refl

-- A group whose name a token can carry: letters, digits, `_` and `-`, at least one, and nothing that
-- makes its token look expired or revoked.
pub record IsGroup (g : String) : Type 0 where
  pub word : all_in is_word_or_dash g ≡ true
  pub filled : (g == "") ≡ false
  pub unexpired : occurs "exp=0" (jwt_for g) ≡ false
  pub unrevoked : occurs "revoked" (jwt_for g) ≡ false

cons_filled : (c : Char) (s : String) → (String.◌∷◌ c s == "") ≡ false
cons_filled c s = elim (Bool-cases (String.◌∷◌ c s == "")) [
  | inl e ↦ let same = (eq_iff (String.◌∷◌ c s) "").0 e in cc
  | inr e ↦ e
]

jwt-token_valid : (g : String) → IsGroup g → token_valid (some (jwt_for g)) ≡ true
unfolding token_valid
jwt-token_valid g w =
    let not_empty : (jwt_for g == "") ≡ false = unfold jwt_for ◌+++◌ in cons_filled _ _ in
    rw (token_valid, not_empty, w.unexpired, w.unrevoked, jwt-token_role g w.word w.filled) refl

abbrev chosen : Bool → Bool → Bool → String
chosen a b c = if a then "admin" else if b then "operator" else if c then "manager" else "viewer"

chosen_filled : (a b c : Bool) → (chosen a b c == "") ≡ false
chosen_filled true b c = refl
chosen_filled false true c = refl
chosen_filled false false true = refl
chosen_filled false false false = refl

role_for_group-filled : (g : String) → (role_for_group g == "") ≡ false
unfolding role_for_group
role_for_group-filled g =
    let name = normalized g in
    chosen_filled (is_in ("administrator" ∷ "manager" ∷ "operator" ∷ []) name)
      (is_in ("technic" ∷ "developer" ∷ "platform-engineer" ∷ []) name)
      (is_in ("ceo" ∷ "chief-executive-officer" ∷ []) name)

-- A login with such a group is answered with a token, and a request that brings this token is shown
-- the role of the group, and is let in everywhere under /api/.
pub login_then_groups :
    (show : Value → String) (ask req : Request) (fs : Fields) (g : String)
    → read_body ask ≡ parsed (obj fs)
    → get "group" (entries fs) ≡ str g
    → IsGroup g
    → bearer req ≡ some (jwt_for g)
    → (login show ask ≡ json 200 (object (("jwt", str (jwt_for g)) ∷ [])))
      × (groups req
          ≡ json 200 (object (("groups", arr (from_items (str (role_for_group g) ∷ []))) ∷ [])))
      × (welcome req ≡ json 200 (object (("message", str "welcome") ∷ [])))
unfolding login with_body groups with_token role_of welcome
login_then_groups show ask req fs g body_read has_group w brought =
    let valid = jwt-token_valid g w in
    let role = jwt-token_role g w.word w.filled in
    (
      rw (login, with_body, body_read, has_group, w.filled) refl,
      rw (groups, with_token, role_of, brought, valid, role, role_for_group-filled g) refl,
      rw (welcome, with_token, brought, valid) refl,
    )
