-- ===== src/Identity/Tests.antt =====
-- Runs of the identity service, and its theorems at concrete inputs.
use hpa_with_bmad.Base.{
  String, some, true, [], ◌∷◌, ◌≡◌, ◌↔◌, refl, inr, lookup, string_eq, strip_prefix, starts_with,
  occurs, ◌+++◌,
}
use hpa_with_bmad.Json.{Value, str, Fields, end, field, obj}
use hpa_with_bmad.Http.{Request, failed, status_of, document, content_length}
use hpa_with_bmad.Json.Number.{int_of_text}
use hpa_with_bmad.Identity.{
  token_valid, role_for_group, bearer, read_body, jwt_for, role_of, store_of_query, query_of, gql,
  do_get, do_post,
}
use hpa_with_bmad.Identity.Tokens.{IsMarked, marked_refused, IsEntitled, gql_iff, IsGroup}

abbrev show : Value → String
show v = "None"

abbrev request : String → String → Fields → Request
request path token fs = record {
  path = path;
  query = [];
  headers = ("Content-Length", "40") ∷ ("Authorization", token) ∷ [];
  body = document (obj fs);
}

abbrev question : Fields
question = field "query" (str "{ couchdb_entities { id } }") end

abbrev ask_store : Request
ask_store = request "/gql" "Bearer role=admin" question

abbrev revoked : Request
revoked = request "/gql" "Bearer role=admin.revoked" question

revoked-IsMarked : IsMarked revoked
revoked-IsMarked = record {
  token = "role=admin.revoked";
  sent = unfold bearer lookup strip_prefix in refl;
  marked = inr (unfold occurs in refl);
}

marked_refused_example :
    (revoked.path ≡ "/identity/groups" → do_get revoked ≡ failed 401 "unauthorized")
    × (starts_with "/api/" revoked.path ≡ true → do_get revoked ≡ failed 401 "unauthorized")
    × (revoked.path ≡ "/gql" → do_post show revoked ≡ failed 401 "unauthorized")
marked_refused_example = marked_refused show revoked (inr revoked-IsMarked)

gql_iff_example : (status_of (gql ask_store) ≡ some 200) ↔ (
    (token_valid (bearer ask_store) ≡ true)
    × IsEntitled (role_of ask_store) (store_of_query "{ couchdb_entities { id } }"))
gql_iff_example =
    gql_iff ask_store question "{ couchdb_entities { id } }"
      (unfold read_body content_length lookup int_of_text in refl) (unfold query_of lookup in refl)

abbrev as_operator : Fields
as_operator = field "group" (str "operator") end

abbrev log_in : Request
log_in = request "/casdoor/login" "" as_operator

abbrev with_jwt : Request
with_jwt = request "/identity/groups" "Bearer eyJhbGciOiJSUzI1NiJ9.group=operator.placeholder" end

operator-IsGroup : IsGroup "operator"
operator-IsGroup = record {
  word = refl;
  filled = refl;
  unexpired = unfold occurs jwt_for ◌+++◌ in refl;
  unrevoked = unfold occurs jwt_for ◌+++◌ in refl;
}

operator_is_admin : role_for_group "operator" ≡ "admin"
unfolding role_for_group
operator_is_admin = refl
