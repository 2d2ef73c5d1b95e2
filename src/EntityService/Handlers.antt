-- ===== src/EntityService/Handlers.antt =====
-- The handlers of entity-api-local.py.
use hpa_with_bmad.Base.{
  ℕ, ◌+◌, ℤ, pos, String, Bool, true, false, not, Option, none, some, List, [], ◌∷◌, ◌++◌,
  if◌then◌else◌, Dict, lookup, insert, remove, has_key, string_eq, ◌==◌, ◌&&◌, ◌||◌, any, occurs,
}
use hpa_with_bmad.Json.{
  Value, null, bool, num, str, arr, obj, items, from_items, entries, object, get, is_null, is_text,
}
use hpa_with_bmad.Json.Key.{Key, none_key, num_key, text_key, key_of, key_eq}
use hpa_with_bmad.Http.{
  Request, Response, json, empty, aborted, failed, read_or_400, with_object, query_param,
}
use hpa_with_bmad.EntityService.{
  StoredDoc, Stores, store_of, with_region, put_store, auth_ok, requester_tenant, can_access,
  make_rev, created_doc, updated_doc,
}

abbrev pub Handler : Type 0
Handler = Request → Stores → Response × Stores

abbrev max_body : ℤ
max_body = pos 65536

-- `"id" in doc`; `none` is the TypeError of a value that is no container
unfoldable pub contains_id : Value → Option Bool
contains_id (obj fs) = some (has_key "id" (entries fs))
contains_id (arr vs) = some (any (is_text "id") (items vs))
contains_id (str s) = some (occurs "id" s)
contains_id _ = none

-- A guard with its reply: `if not self._require_auth(): return`
unfoldable pub require_auth : Request → Stores → Response × Stores → Response × Stores
require_auth req stores rest = if auth_ok req then rest else (failed 401 "unauthorized", stores)

-- The document as it is shown: `dict(record["doc"], _rev=record["_rev"])`
abbrev pub shown : StoredDoc → Dict String Value
shown r = insert "_rev" (str r.rev) r.doc

abbrev pub key_value : Key → Value
key_value none_key = null
key_value (num_key n) = num n
key_value (text_key s) = str s

-- `_get`
unfoldable pub get_document : String → Handler
get_document doc_id req stores =
    require_auth req stores (elim (lookup (text_key doc_id) (store_of req stores).documents) [
      | none ↦ (failed 404 "not found", with_region req stores)
      | some r ↦
          if can_access (requester_tenant req) r
          then (json 200 (object (shown r)), with_region req stores)
          else (failed 404 "not found", with_region req stores)
    ])

-- `requested is not None and requester is not None and requested != requester`
unfoldable pub is_foreign : Option String → Option String → Bool
is_foreign (some requested) (some requester) = not (requested == requester)
is_foreign _ _ = false

abbrev wanted : Option String → Value → Bool
wanted none tenant = true
wanted (some requested) tenant = is_text requested tenant

-- The loop of `_list`.
unfoldable pub listed : Option String → Option String → Dict Key StoredDoc → List Value
listed requested requester [] = []
listed requested requester ((k, r) ∷ documents) =
    let rest = listed requested requester documents in
    if can_access requester r && wanted requested r.tenant
    then object (insert "id" (key_value k) (shown r)) ∷ rest
    else rest

-- `_list`
unfoldable pub list_documents : Handler
list_documents req stores = require_auth req stores (
    if is_foreign (query_param req "tenant") (requester_tenant req)
    then (failed 403 "forbidden", stores)
    else (
      json 200 (
          object (
            (
              "items",
              arr (
                  from_items (
                    listed (query_param req "tenant") (requester_tenant req)
                      (store_of req stores).documents)),
            )
            ∷ [])),
      with_region req stores,
    ))

-- `_delete`
unfoldable pub delete_document : String → Handler
delete_document doc_id req stores =
    require_auth req stores (elim (lookup (text_key doc_id) (store_of req stores).documents) [
      | none ↦ (failed 404 "not found", with_region req stores)
      | some r ↦
          if can_access (requester_tenant req) r
          then (
            empty 204,
            put_store req
                (record (store_of req stores) {
                  documents = remove (text_key doc_id) (store_of req stores).documents;
                })
                stores,
          )
          else (failed 404 "not found", with_region req stores)
    ])

abbrev tenant_is : String → Dict String Value → Bool
tenant_is t e = is_text t (get "tenant" e)

abbrev pub events_for : Option String → List (Dict String Value) → List Value
events_for requested [] = []
events_for none (e ∷ es) = object e ∷ events_for none es
events_for (some t) (e ∷ es) =
    let rest = events_for (some t) es in if tenant_is t e then object e ∷ rest else rest

-- `_changes`
unfoldable pub changes : Handler
changes req stores = require_auth req stores (
    if is_foreign (query_param req "tenant") (requester_tenant req)
    then (failed 403 "forbidden", stores)
    else (
      json 200 (
          object (
            (
              "events",
              arr (
                  from_items
                    (events_for (query_param req "tenant") (store_of req stores).domain_events)),
            )
            ∷ [])),
      with_region req stores,
    ))

abbrev pub ignored : Bool → Response
ignored b = json 200 (object (("ignored", bool b) ∷ []))

-- `_replay` once the body is read
unfoldable pub replay_value : Request → Value → Stores → Response × Stores
replay_value req v stores = with_object v stores λ body.
    if is_text "self" (get "origin" body) then (ignored true, stores) else (
      ignored false,
      put_store req
          (record (store_of req stores) {
            domain_events = (store_of req stores).domain_events ++ body ∷ [];
          })
          stores,
    )

-- `_replay`
unfoldable pub replay : Handler
replay req stores =
    require_auth req stores (read_or_400 max_body req stores λ v. replay_value req v stores)

module _ (digest : Value → ℕ → String) where
  -- `self._store().create(doc, …)`: `doc["id"]` and the write to the dictionary may raise
  unfoldable pub create_value : Request → Value → Stores → Response × Stores
  create_value req v stores = with_object v (with_region req stores) λ doc.
      elim (key_of (get "id" doc)) [
        | none ↦ (aborted, with_region req stores)
        | some key ↦ (
          json 201 (
              object
                (("id", get "id" doc) ∷ ("_rev", str (make_rev digest (get "id" doc) 1)) ∷ [])),
          put_store req
              (record (store_of req stores) {
                documents =
                    insert key (created_doc digest (get "id" doc) doc (requester_tenant req))
                      (store_of req stores).documents;
              })
              stores,
        )
      ]

  unfoldable pub check_id : Request → Value → Stores → Response × Stores
  check_id req v stores = elim (contains_id v) [
    | none ↦ (aborted, stores)
    | some false ↦ (failed 400 "id is required", stores)
    | some true ↦ create_value req v stores
  ]

  -- `_create`
  unfoldable pub create_document : Handler
  create_document req stores =
      require_auth req stores (read_or_400 max_body req stores λ v. check_id req v stores)

  -- The reply and the write of an update that is carried out.
  unfoldable pub commit_update :
      String → Request → Dict String Value → StoredDoc → Stores → Response × Stores
  commit_update doc_id req body r stores = (
    json 200 (
        object (
          ("id", str doc_id) ∷ ("_rev", str (make_rev digest (str doc_id) (r.revision + 1))) ∷ [])),
    put_store req
        (record (store_of req stores) {
          documents =
              insert (text_key doc_id) (updated_doc digest (str doc_id) body r)
                (store_of req stores).documents;
        })
        stores,
  )

  -- `_update` once the record is found and may be accessed
  unfoldable pub update_record : String → Request → Value → StoredDoc → Stores → Response × Stores
  update_record doc_id req v r stores = with_object v (with_region req stores) λ body.
      if is_null (get "_rev" body) || is_text r.rev (get "_rev" body)
      then commit_update doc_id req body r stores
      else (failed 409 "revision conflict", with_region req stores)

  unfoldable pub update_value : String → Request → Value → Stores → Response × Stores
  update_value doc_id req v stores =
      elim (lookup (text_key doc_id) (store_of req stores).documents) [
        | none ↦ (failed 404 "not found", with_region req stores)
        | some r ↦
            if can_access (requester_tenant req) r
            then update_record doc_id req v r stores
            else (failed 404 "not found", with_region req stores)
      ]

  -- `_update`
  unfoldable pub update_document : String → Handler
  update_document doc_id req stores =
      require_auth req stores
        (read_or_400 max_body req stores λ v. update_value doc_id req v stores)
