-- ===== src/EntityService/Newer.antt =====
-- A document's revision only grows under requests that neither create nor delete a document.
use hpa_with_bmad.Base.{
  ℕ, ◌<◌, List, [], ◌∷◌, All, ◌⊎◌, String, Option, none, some, ◌≡◌, ◌≢◌, refl, sym, ap, ◌∙◌, inl,
  inr, arith, Dict, lookup, insert, lookup-insert, string_eq, ◌==◌, ==_iff, eq_iff, Bool-cases,
}
use hpa_with_bmad.Json.{Value, str}
use hpa_with_bmad.Json.Key.{text_key, key_eq}
use hpa_with_bmad.Http.{Request, Response}
use hpa_with_bmad.EntityService.{
  StoredDoc, EntityStore, Stores, region_of, store_of, requester_tenant, can_access, updated_doc,
  make_rev,
}
use hpa_with_bmad.EntityService.Service.{Method, post_method, delete_method, handle}
use hpa_with_bmad.EntityService.Effect.{
  Change, creates, updates, removes, appends, Effect, quiet, opened, changed, handle-Effect,
}
use hpa_with_bmad.EntityService.Isolation.{
  regions_isolated, store_of-put_store, store_of-with_region,
}
use hpa_with_bmad.EntityService.Revisions.{same_store}

module _ (digest : Value → ℕ → String) where
  pub can_access-updated_doc :
      (tenant : Option String) (id : Value) (body : Dict String Value) (r : StoredDoc)
      → can_access tenant (updated_doc digest id body r) ≡ can_access tenant r
  unfolding can_access updated_doc
  can_access-updated_doc none id body r = refl
  can_access-updated_doc (some t) id body r = refl

  -- The document is there under its id with a newer revision, and who may access it is the same.
  pub record IsNewer (doc_id : String) (r : StoredDoc) (s : EntityStore) : Type 0 where
    pub now : StoredDoc
    pub found : lookup (text_key doc_id) s.documents ≡ some now
    pub newer : r.revision < now.revision
    pub stamp : now.rev ≡ make_rev digest (str doc_id) now.revision
    pub access : (tenant : Option String) → can_access tenant now ≡ can_access tenant r

  -- A request to another region leaves the store as it is.
  far_store :
      (m : Method) (q req : Request) (stores : Stores)
      → region_of req ≢ region_of q
      → store_of req (handle digest m q stores).1 ≡ store_of req stores
  unfolding store_of
  far_store m q req stores other =
      rw (store_of, regions_isolated digest m q stores (region_of req) other) refl

  same_doc : {o : Option StoredDoc} {q now : StoredDoc} → o ≡ some q → o ≡ some now → q ≡ now
  same_doc p q = ground (arith, p, q)

  updates-IsNewer :
      (doc_id id : String) (body : Dict String Value) (r q : StoredDoc) (s : EntityStore)
      → lookup (text_key id) s.documents ≡ some q
      → IsNewer doc_id r s
      → IsNewer doc_id r (record s {
        documents = insert (text_key id) (updated_doc digest (str id) body q) s.documents;
      })
  updates-IsNewer doc_id id body r q s here w =
      let stored =
        lookup-insert (text_key id) (text_key doc_id) (updated_doc digest (str id) body q)
          s.documents in
      elim (Bool-cases (text_key id == text_key doc_id)) [
        | inr other ↦ record {
          now = w.now;
          found = rw (stored, other) w.found;
          newer = w.newer;
          stamp = w.stamp;
          access = w.access;
        }
        | inl same ↦
            let ids : id ≡ doc_id = ground (arith, ==_iff (text_key id) (text_key doc_id)) in
            let q_now : q ≡ w.now =
              same_doc (rw (ap (λ (t : String). text_key t) ids) at here) w.found in
            record {
              now = updated_doc digest (str id) body q;
              found = rw (stored, same) refl;
              newer = unfold updated_doc in (rw q_now (omega (arith, w.newer)));
              stamp = rw ids (unfold updated_doc in refl);
              access = λ tenant.
                  can_access-updated_doc tenant (str id) body q
                  ∙ ap (λ (d : StoredDoc). can_access tenant d) q_now
                  ∙ w.access tenant;
            }
      ]

  Change-IsNewer :
      (m : Method) (tenant : Option String) (s t : EntityStore) (doc_id : String) (r : StoredDoc)
      → Change digest m tenant s t
      → m ≢ post_method
      → m ≢ delete_method
      → IsNewer doc_id r s
      → IsNewer doc_id r t
  Change-IsNewer m tenant s t doc_id r (creates key id doc is_post id_key) np nd w =
      absurd (np is_post)
  Change-IsNewer m tenant s t doc_id r (removes id q is_delete here allowed) np nd w =
      absurd (nd is_delete)
  Change-IsNewer m tenant s t doc_id r (updates id body q here allowed ok) np nd w =
      updates-IsNewer doc_id id body r q s here w
  Change-IsNewer m tenant s t doc_id r (appends e) np nd w = record {
    now = w.now;
    found = w.found;
    newer = w.newer;
    stamp = w.stamp;
    access = w.access;
  }

  -- Requests one after another.
  abbrev pub handle_all : List (Method × Request) → Stores → Stores
  handle_all [] stores = stores
  handle_all ((m, q) ∷ later) stores = handle_all later (handle digest m q stores).1

  -- A request to another region, or one that neither creates nor deletes a document.
  abbrev pub Spares : Request → Method × Request → Type 0
  Spares req (m, q) = (region_of req ≢ region_of q) ⊎ ((m ≢ post_method) × (m ≢ delete_method))

  -- What a request does in its own region.
  near-IsNewer :
      (m : Method) (q : Request) (stores : Stores) (doc_id : String) (r : StoredDoc)
      → m ≢ post_method
      → m ≢ delete_method
      → IsNewer doc_id r (store_of q stores)
      → IsNewer doc_id r (store_of q (handle digest m q stores).1)
  near-IsNewer m q stores doc_id r np nd w = after (handle-Effect digest m q stores)
    where
      after :
          {result : Response × Stores}
          → Effect digest m q stores result
          → IsNewer doc_id r (store_of q result.1)
      after (quiet reply) = w
      after (opened reply) = rw (store_of-with_region q stores) w
      after (changed {t} reply c) =
          rw (store_of-put_store q stores t)
            (Change-IsNewer m (requester_tenant q) (store_of q stores) t doc_id r c np nd w)

  handle-IsNewer :
      (m : Method) (q req : Request) (stores : Stores) (doc_id : String) (r : StoredDoc)
      → Spares req (m, q)
      → IsNewer doc_id r (store_of req stores)
      → IsNewer doc_id r (store_of req (handle digest m q stores).1)
  handle-IsNewer m q req stores doc_id r spares w =
      elim (Bool-cases (region_of req == region_of q)) [
        | inr far ↦
            let other : region_of req ≢ region_of q =
              λ e. ground (arith, far, e, eq_iff (region_of req) (region_of q)) in
            rw (far_store m q req stores other) w
        | inl near ↦
            let same : region_of q ≡ region_of req =
              sym ((eq_iff (region_of req) (region_of q)).0 near) in
            elim spares [
              | inl other ↦ absurd (other (sym same))
              | inr (np, nd) ↦
                  rw (← same_store req q (handle digest m q stores).1 same)
                    (near-IsNewer m q stores doc_id r np nd (rw (same_store req q stores same) w))
            ]
      ]

  pub handle_all-IsNewer :
      (later : List (Method × Request)) (req : Request) (stores : Stores) (doc_id : String)
      (r : StoredDoc)
      → All (Spares req) later
      → IsNewer doc_id r (store_of req stores)
      → IsNewer doc_id r (store_of req (handle_all later stores))
  handle_all-IsNewer [] req stores doc_id r h w = w
  handle_all-IsNewer ((m, q) ∷ later) req stores doc_id r (h, hs) w =
      handle_all-IsNewer later req (handle digest m q stores).1 doc_id r hs
        (handle-IsNewer m q req stores doc_id r h w)
