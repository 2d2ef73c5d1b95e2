-- ===== src/Identity.antt =====
-- scripts/services/identity-authz-local.py: logins, tokens, and who may run which GraphQL query. The
-- service keeps no state: a handler is a function from a request to its reply.
pub mod Tokens
pub mod Tests
use hpa_with_bmad.Base.{
  ℕ, ◌-◌, pos, String, Char, code, Bool, true, false, Option, none, some, List, [], ◌∷◌,
  if◌then◌else◌, not, ◌&&◌, ◌||◌, leb, eqb, Dict, lookup, string_eq, ◌==◌, any, starts_with,
  strip_prefix, occurs, char_at, ◌+++◌, eqb_ℤ,
}
use hpa_with_bmad.Json.{
  Value, str, arr, end, obj, entries, from_items, object, get, truthy, as_object,
}
use hpa_with_bmad.Http.{
  Request, Response, json, aborted, failed, Reading, parsed, bad_json, bad_value, content_length,
  int_message, loads, header,
}
use hpa_with_bmad.Regex.{search_group, is_word_or_dash, search_block}
use mathlib.Core.Option

-- `.lower().replace("_", "-")` on a character of a group, which is a letter, a digit, `_` or `-`
abbrev normal_char : Char → Char
normal_char c =
    if leb b'A' (code c) && leb (code c) b'Z'
    then char_at "abcdefghijklmnopqrstuvwxyz" (code c - b'A')
    else if eqb (code c) b'_'
    then char_at "-" 0
    else c

unfoldable pub normalized : String → String
normalized String.[] = String.[]
normalized (String.◌∷◌ c s) = String.◌∷◌ (normal_char c) (normalized s)

abbrev pub is_in : List String → String → Bool
is_in names s = any (λ n. s == n) names

-- `role_for_group` of a text
unfoldable pub role_for_group : String → String
unfolding normalized
role_for_group group =
    let name = normalized group in
    if is_in ("administrator" ∷ "manager" ∷ "operator" ∷ []) name
    then "admin"
    else if is_in ("technic" ∷ "developer" ∷ "platform-engineer" ∷ []) name
    then "operator"
    else if is_in ("ceo" ∷ "chief-executive-officer" ∷ []) name
    then "manager"
    else "viewer"

-- `token_role`
unfoldable pub token_role : String → Option String
token_role token = elim (search_group "group=" is_word_or_dash token) [
  | some group ↦ some (role_for_group group)
  | none ↦ search_group "role=" is_word_or_dash token
]

-- `token_valid`
unfoldable pub token_valid : Option String → Bool
token_valid none = false
token_valid (some token) =
    if token == ""
    then false
    else if occurs "exp=0" token || occurs "revoked" token
    then false
    else elim (token_role token) [ none ↦ false | some _ ↦ true ]

-- `_bearer`
unfoldable pub bearer : Request → Option String
bearer req = elim (header req "Authorization") [ none ↦ none | some h ↦ strip_prefix "Bearer " h ]

-- `_read_body`: bytes that are asked for and not sent count as a document that is no JSON.
unfoldable pub read_body : Request → Reading
read_body req = elim (content_length req) [
  | none ↦ bad_value (int_message (header req "Content-Length"))
  | some n ↦ if eqb_ℤ n (pos 0) then parsed (obj end) else loads req.body
]

-- The body's dictionary under `except json.JSONDecodeError`; any other exception is not caught.
unfoldable pub with_body : Request → (Dict String Value → Response) → Response
with_body req k = elim (read_body req) [
  | parsed v ↦ elim (as_object v) [ none ↦ aborted | some body ↦ k body ]
  | bad_json _ ↦ failed 400 "invalid body"
  | bad_value _ ↦ aborted
]

-- The token of `_login`.
unfoldable pub jwt_for : String → String
jwt_for group = "eyJhbGciOiJSUzI1NiJ9.group=" +++ group +++ ".placeholder"

-- `str(v)`, for which `show` stands where the value is no text
abbrev text_of : (Value → String) → Value → String
text_of show (str s) = s
text_of show v = show v

-- `_login`
unfoldable pub login : (Value → String) → Request → Response
login show req = with_body req λ body.
    if truthy (get "group" body)
    then json 200 (object (("jwt", str (jwt_for (text_of show (get "group" body)))) ∷ []))
    else failed 400 "group is required"

-- `if not token_valid(token)` with its reply
unfoldable pub with_token : Request → Response → Response
with_token req rest = if token_valid (bearer req) then rest else failed 401 "unauthorized"

-- `_welcome`
unfoldable pub welcome : Request → Response
welcome req = with_token req (json 200 (object (("message", str "welcome") ∷ [])))

-- `token_role(token) or "viewer"`
unfoldable pub role_of : Request → String
role_of req = elim (bearer req) [
  | none ↦ "viewer"
  | some token ↦ elim (token_role token) [
    | none ↦ "viewer"
    | some r ↦ if r == "" then "viewer" else r
  ]
]

-- `_groups`
unfoldable pub groups : Request → Response
groups req =
    with_token req (json 200 (object (("groups", arr (from_items (str (role_of req) ∷ []))) ∷ [])))

-- GQL_PERMISSIONS
abbrev pub gql_permissions : Dict String (List String)
gql_permissions =
    ("couchdb_entities", "admin" ∷ []) ∷ ("yugabytedb_resources", "admin" ∷ "manager" ∷ []) ∷ []

-- `role in GQL_PERMISSIONS.get(store, {"admin"})`
unfoldable pub is_allowed : String → String → Bool
is_allowed role store = elim (lookup store gql_permissions) [
  | none ↦ role == "admin"
  | some roles ↦ is_in roles role
]

-- `match.group(1) if match else ""`
unfoldable pub store_of_query : String → String
store_of_query query = elim (search_block query) [ none ↦ "" | some store ↦ store ]

-- `body.get("query", "")`; `none` is the TypeError of a search in a value that is no text
unfoldable pub query_of : Dict String Value → Option String
query_of body = elim (lookup "query" body) [
  | none ↦ some ""
  | some (str s) ↦ some s
  | some _ ↦ none
]

abbrev gql_reply : String → String → Response
gql_reply role store =
    if is_allowed role store
    then json 200 (object (("data", object (("store", str store) ∷ [])) ∷ []))
    else failed 403 "forbidden"

-- `_gql`
unfoldable pub gql : Request → Response
gql req = with_token req (
    with_body req λ body. elim (query_of body) [
      | none ↦ aborted
      | some query ↦ gql_reply (role_of req) (store_of_query query)
    ])

-- `do_GET`
unfoldable pub do_get : Request → Response
do_get req =
    if req.path == "/identity/groups"
    then groups req
    else if starts_with "/api/" req.path
    then welcome req
    else failed 404 "not found"

-- `do_POST`
unfoldable pub do_post : (Value → String) → Request → Response
do_post show req =
    if req.path == "/casdoor/login"
    then login show req
    else if req.path == "/gql"
    then gql req
    else failed 404 "not found"
