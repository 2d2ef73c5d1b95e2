-- ===== src/EntityService.antt =====
-- scripts/services/entity-api-local.py: the stores of the entity data plane, one for each region.
pub mod Handlers
pub mod Service
pub mod Effect
pub mod Isolation
pub mod Revisions
pub mod Newer
pub mod Locking
mod Tests
use hpa_with_bmad.Base.{
  ℕ, suc, ◌+◌, String, Bool, true, false, not, Option, none, some, List, [], ◌∷◌, ◌++◌,
  if◌then◌else◌, Dict, lookup, insert, remove, string_eq, ◌==◌, ◌+++◌, decimal, starts_with, ◌&&◌,
  ◌||◌,
}
use hpa_with_bmad.Json.{Value, null, str, get, truthy, is_null, is_text}
use hpa_with_bmad.Json.Key.{Key, key_eq}
use hpa_with_bmad.Http.{Request, header}
use hpa_with_bmad.Regex.{search_group, is_word, is_tenant_char}

-- An entry of `EntityStore.documents`.
pub record StoredDoc : Type 0 where
  pub doc : Dict String Value
  pub revision : ℕ
  pub rev : String
  pub tenant : Value

pub record EntityStore : Type 0 where
  pub documents : Dict Key StoredDoc
  pub domain_events : List (Dict String Value)

abbrev pub empty_store : EntityStore
empty_store = record { documents = []; domain_events = [] }

-- `self.server.stores`
abbrev pub Stores : Type 0
Stores = Dict String EntityStore

-- `self.headers.get("X-Hpdc-Region") or "default"`
unfoldable pub region_of : Request → String
region_of req = elim (header req "X-Hpdc-Region") [
  | none ↦ "default"
  | some r ↦ if r == "" then "default" else r
]

-- The store that `_store` returns, and the stores after it has added a missing one.
unfoldable pub store_of : Request → Stores → EntityStore
store_of req stores = elim (lookup (region_of req) stores) [ none ↦ empty_store | some s ↦ s ]

unfoldable pub with_region : Request → Stores → Stores
with_region req stores = elim (lookup (region_of req) stores) [
  | none ↦ insert (region_of req) empty_store stores
  | some _ ↦ stores
]

-- A store object that a handler has changed in place.
unfoldable pub put_store : Request → EntityStore → Stores → Stores
put_store req s stores = insert (region_of req) s stores

-- `_auth_ok`
unfoldable pub auth_ok : Request → Bool
auth_ok req = elim (header req "Authorization") [
  | none ↦ false
  | some h ↦
      if not (starts_with "Bearer " h) then false else elim (search_group "role=" is_word h) [
        | some _ ↦ true
        | none ↦ elim (search_group "tenant=" is_tenant_char h) [ some _ ↦ true | none ↦ false ]
      ]
]

-- `_requester_tenant`
unfoldable pub requester_tenant : Request → Option String
requester_tenant req = elim (header req "Authorization") [
  | none ↦ none
  | some h ↦ search_group "tenant=" is_tenant_char h
]

-- `_can_access`
unfoldable pub can_access : Option String → StoredDoc → Bool
can_access none r = true
can_access (some tenant) r = is_null r.tenant || is_text tenant r.tenant

-- `tenant or doc.get("company")`
abbrev pub tenant_or_company : Option String → Dict String Value → Value
tenant_or_company none doc = get "company" doc
tenant_or_company (some t) doc = if t == "" then get "company" doc else str t

-- `dict(doc, **{k: v for k, v in body.items() if k != "_rev"})`
unfoldable pub merge : Dict String Value → Dict String Value → Dict String Value
merge doc [] = doc
merge doc ((k, v) ∷ body) = merge (if k == "_rev" then doc else insert k v doc) body

-- `digest id n` is the hexadecimal MD5 of the text "id:n", which `hashlib` computes.
module _ (digest : Value → ℕ → String) where
  -- `_rev`
  unfoldable pub make_rev : Value → ℕ → String
  make_rev doc_id revision = decimal revision +++ "-" +++ digest doc_id revision

  -- The record that `EntityStore.create` stores.
  abbrev pub created_doc : Value → Dict String Value → Option String → StoredDoc
  created_doc doc_id doc tenant = record {
    doc = doc;
    revision = 1;
    rev = make_rev doc_id 1;
    tenant = tenant_or_company tenant doc;
  }

  -- The three assignments of an update, of `EntityStore.update` and of `_update` alike.
  unfoldable pub updated_doc : Value → Dict String Value → StoredDoc → StoredDoc
  updated_doc doc_id body r = record r {
    doc = merge r.doc body;
    revision = r.revision + 1;
    rev = make_rev doc_id (r.revision + 1);
  }
