-- ===== src/EntityService/Isolation.antt =====
-- Regions and tenants of the entity service.
use hpa_with_bmad.Base.{
  ℕ, String, true, false, Option, some, ◌≡◌, ◌≢◌, refl, sym, inl, inr, arith, lookup, lookup-insert,
  lookup-insert_ne, lookup-insert_self, lookup-remove, string_eq, ==_iff, eq_iff, Option-cases,
}
use hpa_with_bmad.Json.{Value, Fields, obj, str, get, entries}
use hpa_with_bmad.Json.Key.{Key, text_key, key_of, key_eq}
use hpa_with_bmad.Http.{Request, Response, failed, with_object}
use hpa_with_bmad.EntityService.{
  StoredDoc, EntityStore, Stores, region_of, store_of, with_region, put_store, auth_ok,
  requester_tenant, empty_store, can_access, created_doc, updated_doc,
}
use hpa_with_bmad.EntityService.Handlers.{
  require_auth, get_document, delete_document, update_value, create_value,
}
use hpa_with_bmad.EntityService.Service.{Method, post_method, handle}
use hpa_with_bmad.EntityService.Effect.{
  Change, creates, updates, removes, appends, Effect, quiet, opened, changed, handle-Effect,
}

module _ (req : Request) (stores : Stores) where
  other_region :
      (region : String) (t : EntityStore)
      → region ≢ region_of req
      → lookup region (put_store req t stores) ≡ lookup region stores
  unfolding put_store
  other_region region t other =
      lookup-insert_ne (region_of req) region t stores (λ e. other (sym e))

  opened_region :
      (region : String)
      → region ≢ region_of req
      → lookup region (with_region req stores) ≡ lookup region stores
  unfolding with_region
  opened_region region other = elim (Option-cases (lookup (region_of req) stores)) [
    | inl e ↦
        rw (e, with_region)
          (lookup-insert_ne (region_of req) region empty_store stores (λ e. other (sym e)))
    | inr (s, e) ↦ rw (e, with_region) refl
  ]

  pub store_of-put_store : (t : EntityStore) → store_of req (put_store req t stores) ≡ t
  unfolding store_of put_store
  store_of-put_store t = rw (lookup-insert_self (region_of req) t stores, store_of) refl

  pub store_of-with_region : store_of req (with_region req stores) ≡ store_of req stores
  unfolding store_of with_region
  store_of-with_region = elim (Option-cases (lookup (region_of req) stores)) [
    | inl e ↦
        rw (e, with_region, store_of)
          (rw (lookup-insert_self (region_of req) empty_store stores) refl)
    | inr (s, e) ↦ rw (e, with_region, store_of) (rw e refl)
  ]

-- A request touches the store of its own region only: whatever it is, the stores of all other
-- regions are as they were.
pub regions_isolated :
    (digest : Value → ℕ → String) (m : Method) (req : Request) (stores : Stores) (region : String)
    → region ≢ region_of req
    → lookup region (handle digest m req stores).1 ≡ lookup region stores
regions_isolated digest m req stores region other = after (handle-Effect digest m req stores)
  where
    after :
        {result : Response × Stores}
        → Effect digest m req stores result
        → lookup region result.1 ≡ lookup region stores
    after (quiet reply) = refl
    after (opened reply) = opened_region req stores region other
    after (changed {t} reply c) = other_region req stores region t other

-- A change other than a creation keeps each document that the requester may not access.
Change-keeps :
    (digest : Value → ℕ → String) (m : Method) (tenant : Option String) (s t : EntityStore)
    (key : Key) (r : StoredDoc)
    → Change digest m tenant s t
    → m ≢ post_method
    → lookup key s.documents ≡ some r
    → can_access tenant r ≡ false
    → lookup key t.documents ≡ some r
Change-keeps digest m tenant s t key r (creates k doc_id doc is_post id_key) not_post h hidden =
    absurd (not_post is_post)
Change-keeps digest m tenant s t key r (updates doc_id body q found allowed ok) not_post h hidden =
    ground (
      arith,
      lookup-insert (text_key doc_id) key (updated_doc digest (str doc_id) body q) s.documents,
      ==_iff (text_key doc_id) key,
    )
Change-keeps digest m tenant s t key r (removes doc_id q is_delete found allowed) not_post h
      hidden =
    ground (arith, lookup-remove (text_key doc_id) key s.documents, ==_iff (text_key doc_id) key)
Change-keeps digest m tenant s t key r (appends e) not_post h hidden = h

-- A GET, PUT or DELETE leaves every document that its requester may not access exactly as it was.
pub tenants_isolated :
    (digest : Value → ℕ → String) (m : Method) (req : Request) (stores : Stores) (key : Key)
    (r : StoredDoc)
    → m ≢ post_method
    → lookup key (store_of req stores).documents ≡ some r
    → can_access (requester_tenant req) r ≡ false
    → lookup key (store_of req (handle digest m req stores).1).documents ≡ some r
tenants_isolated digest m req stores key r not_post h hidden =
    after (handle-Effect digest m req stores)
  where
    after :
        {result : Response × Stores}
        → Effect digest m req stores result
        → lookup key (store_of req result.1).documents ≡ some r
    after (quiet reply) = h
    after (opened reply) = rw (store_of-with_region req stores) h
    after (changed {t} reply c) = rw (store_of-put_store req stores t) (
        Change-keeps digest m (requester_tenant req) (store_of req stores) t key r c not_post h
          hidden)

-- A document of another tenant looks like a document that is not there: read, update and delete
-- give the reply that they give for a missing one, and change the stores as they do for it.
pub hidden_is_missing :
    (digest : Value → ℕ → String) (doc_id : String) (v : Value) (req : Request) (stores : Stores)
    (r : StoredDoc)
    → auth_ok req ≡ true
    → lookup (text_key doc_id) (store_of req stores).documents ≡ some r
    → can_access (requester_tenant req) r ≡ false
    → (get_document doc_id req stores ≡ (failed 404 "not found", with_region req stores))
      × (update_value digest doc_id req v stores ≡ (failed 404 "not found", with_region req stores))
      × (delete_document doc_id req stores ≡ (failed 404 "not found", with_region req stores))
unfolding get_document update_value delete_document require_auth
hidden_is_missing digest doc_id v req stores r ok h hidden = (
  rw (ok, h, hidden, get_document, require_auth) refl,
  rw (h, hidden, update_value) refl,
  rw (ok, h, hidden, delete_document, require_auth) refl,
)

-- A creation under an id that is in use replaces the document there, whosever it was: it is the
-- requester's afterwards, and no other tenant can access it.
pub create_takes_over :
    (digest : Value → ℕ → String) (fs : Fields) (key : Key) (tenant other : String) (req : Request)
    (stores : Stores)
    → key_of (get "id" (entries fs)) ≡ some key
    → requester_tenant req ≡ some tenant
    → tenant ≢ ""
    → tenant ≢ other
    → (r : StoredDoc) × (lookup key
          (store_of req (create_value digest req (obj fs) stores).1).documents
        ≡ some r)
      × (r.doc ≡ entries fs)
      × (can_access (some tenant) r ≡ true)
      × (can_access (some other) r ≡ false)
unfolding create_value with_object can_access
create_takes_over digest fs key tenant other req stores id_key mine nonempty differs =
    let r = created_doc digest (get "id" (entries fs)) (entries fs) (some tenant) in
    (
      r,
      rw (id_key, mine, create_value, with_object)
          (rw (store_of-put_store req stores _)
            (lookup-insert_self key r (store_of req stores).documents)),
      refl,
      ground (arith, eq_iff tenant "", eq_iff tenant tenant),
      ground (arith, eq_iff tenant "", eq_iff other tenant, eq_iff tenant other),
    )
