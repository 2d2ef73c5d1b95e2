-- ===== src/EntityService/Revisions.antt =====
-- The revisions that the entity service stamps on its documents.
use hpa_with_bmad.Base.{
  ℕ, ◌+◌, String, true, false, Option, some, ◌≡◌, refl, ap, ◌∙◌, inl, inr, arith, Dict, lookup,
  insert, lookup-insert, lookup-remove, string_eq, ◌==◌, ==_iff, Bool-cases,
}
use hpa_with_bmad.Json.{Value, bool, str}
use hpa_with_bmad.Json.Key.{Key, text_key, key_of, key_eq}
use hpa_with_bmad.Http.{Request, Response}
use hpa_with_bmad.EntityService.{
  StoredDoc, EntityStore, Stores, region_of, store_of, requester_tenant, created_doc, updated_doc,
  make_rev,
}
use hpa_with_bmad.EntityService.Service.{Method, handle}
use hpa_with_bmad.EntityService.Effect.{
  Change, creates, updates, removes, appends, Effect, quiet, opened, changed, handle-Effect,
}
use hpa_with_bmad.EntityService.Isolation.{store_of-put_store, store_of-with_region}

-- Every document under a text id carries the text of its revision.
pub record IsStamped (digest : Value → ℕ → String) (s : EntityStore) : Type 0 where
  pub stamp :
      (doc_id : String) (r : StoredDoc)
      → lookup (text_key doc_id) s.documents ≡ some r
      → r.rev ≡ make_rev digest (str doc_id) r.revision

text_of_key : (v : Value) (s : String) → key_of v ≡ some (text_key s) → v ≡ str s
text_of_key (str t) s h = cc
text_of_key (bool true) s h = cc
text_of_key (bool false) s h = cc
text_of_key _ s h = cc

pub same_store :
    (req req' : Request) (stores : Stores)
    → region_of req' ≡ region_of req
    → store_of req' stores ≡ store_of req stores
unfolding store_of
same_store req req' stores same = rw (same, store_of) refl

module _ (digest : Value → ℕ → String) where
  creates-stamp :
      (tenant : Option String) (s : EntityStore) (key : Key) (id : Value) (doc : Dict String Value)
      → key_of id ≡ some key
      → IsStamped digest s
      → (doc_id : String) (r : StoredDoc)
      → lookup (text_key doc_id) (insert key (created_doc digest id doc tenant) s.documents)
        ≡ some r
      → r.rev ≡ make_rev digest (str doc_id) r.revision
  creates-stamp tenant s key id doc id_key w doc_id r h =
      elim (Bool-cases (key == text_key doc_id)) [
        | inl same ↦
            let new : created_doc digest id doc tenant ≡ r = ground (
              arith,
              lookup-insert key (text_key doc_id) (created_doc digest id doc tenant) s.documents,
            ) in
            let here : key ≡ text_key doc_id = (==_iff key (text_key doc_id)).0 same in
            let v : id ≡ str doc_id = text_of_key id doc_id (id_key ∙ ap some here) in
            rw (← new) (ap (λ (x : Value). make_rev digest x 1) v)
        | inr other ↦ w.stamp doc_id r (
            ground (
              arith,
              lookup-insert key (text_key doc_id) (created_doc digest id doc tenant) s.documents,
            ))
      ]

  updates-stamp :
      (s : EntityStore) (id : String) (body : Dict String Value) (q : StoredDoc)
      → IsStamped digest s
      → (doc_id : String) (r : StoredDoc)
      → lookup
          (text_key doc_id)
          (insert (text_key id) (updated_doc digest (str id) body q) s.documents)
        ≡ some r
      → r.rev ≡ make_rev digest (str doc_id) r.revision
  updates-stamp s id body q w doc_id r h = elim (Bool-cases (text_key id == text_key doc_id)) [
    | inl same ↦
        let new : updated_doc digest (str id) body q ≡ r = ground (
          arith,
          lookup-insert (text_key id) (text_key doc_id) (updated_doc digest (str id) body q)
              s.documents,
        ) in
        let here : id ≡ doc_id = ground (arith, ==_iff (text_key id) (text_key doc_id)) in
        rw (← new)
          (unfold updated_doc in ap (λ (x : String). make_rev digest (str x) (q.revision + 1)) here)
    | inr other ↦ w.stamp doc_id r (
        ground (
          arith,
          lookup-insert (text_key id) (text_key doc_id) (updated_doc digest (str id) body q)
              s.documents,
        ))
  ]

  Change-IsStamped :
      (m : Method) (tenant : Option String) (s t : EntityStore)
      → Change digest m tenant s t
      → IsStamped digest s
      → IsStamped digest t
  Change-IsStamped m tenant s t (creates key id doc is_post id_key) w = record {
    stamp = creates-stamp tenant s key id doc id_key w;
  }
  Change-IsStamped m tenant s t (updates id body q found allowed ok) w = record {
    stamp = updates-stamp s id body q w;
  }
  Change-IsStamped m tenant s t (removes id q is_delete found allowed) w = record {
    stamp = λ doc_id r h.
        w.stamp doc_id r
          (ground (arith, lookup-remove (text_key id) (text_key doc_id) s.documents));
  }
  Change-IsStamped m tenant s t (appends e) w = record { stamp = w.stamp }

-- From a stamped store, whatever the request, the store of its region is stamped afterwards.
pub handle-IsStamped :
    (digest : Value → ℕ → String) (m : Method) (req : Request) (stores : Stores)
    → IsStamped digest (store_of req stores)
    → IsStamped digest (store_of req (handle digest m req stores).1)
handle-IsStamped digest m req stores w = after (handle-Effect digest m req stores)
  where
    after :
        {result : Response × Stores}
        → Effect digest m req stores result
        → IsStamped digest (store_of req result.1)
    after (quiet reply) = w
    after (opened reply) = rw (store_of-with_region req stores) w
    after (changed {t} reply c) =
        rw (store_of-put_store req stores t)
          (Change-IsStamped digest m (requester_tenant req) (store_of req stores) t c w)
