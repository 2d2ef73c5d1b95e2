-- ===== src/EntityService/Effect.antt =====
-- What a request to the entity service can do to the stores, as a relation.
use hpa_with_bmad.Base.{
  ℕ, String, true, false, Option, some, [], ◌∷◌, ◌++◌, ◌≡◌, refl, inl, inr, Dict, lookup, insert,
  remove, string_eq, ◌==◌, ◌||◌, Bool-cases, Option-cases, strip_prefix,
}
use hpa_with_bmad.Json.{Value, str, get, is_null, is_text}
use hpa_with_bmad.Json.Key.{Key, text_key, key_of, key_eq}
use hpa_with_bmad.Http.{
  Request, Response, aborted, failed, on_reading_ind, with_object_ind, query_param,
}
use hpa_with_bmad.EntityService.{
  StoredDoc, EntityStore, Stores, store_of, with_region, put_store, auth_ok, requester_tenant,
  can_access, created_doc, updated_doc,
}
use hpa_with_bmad.EntityService.Handlers.{
  require_auth, get_document, list_documents, is_foreign, delete_document, changes, replay_value,
  replay, contains_id, create_value, check_id, create_document, commit_update, update_record,
  update_value, update_document, ignored,
}
use hpa_with_bmad.EntityService.Service.{
  Method, get_method, post_method, put_method, delete_method, do_get, do_post, do_put, do_delete,
  handle, replication_config,
}

-- A change of one store, by a requester with the given tenant.
pub data Change (digest : Value → ℕ → String) (m : Method) (tenant : Option String)
    (s : EntityStore) : EntityStore → Type 0 where
  creates :
      (key : Key) (doc_id : Value) (doc : Dict String Value)
      → m ≡ post_method
      → key_of doc_id ≡ some key
      → Change digest m tenant s
          (record s { documents = insert key (created_doc digest doc_id doc tenant) s.documents })
  updates :
      (doc_id : String) (body : Dict String Value) (r : StoredDoc)
      → lookup (text_key doc_id) s.documents ≡ some r
      → can_access tenant r ≡ true
      → (is_null (get "_rev" body) || is_text r.rev (get "_rev" body)) ≡ true
      → Change digest m tenant s (record s {
        documents = insert (text_key doc_id) (updated_doc digest (str doc_id) body r) s.documents;
      })
  removes :
      (doc_id : String) (r : StoredDoc)
      → m ≡ delete_method
      → lookup (text_key doc_id) s.documents ≡ some r
      → can_access tenant r ≡ true
      → Change digest m tenant s (record s { documents = remove (text_key doc_id) s.documents })
  appends :
      (e : Dict String Value)
      → Change digest m tenant s (record s { domain_events = s.domain_events ++ e ∷ [] })

-- A request changes nothing, adds the empty store of its region, or changes the store of its region.
pub data Effect (digest : Value → ℕ → String) (m : Method) (req : Request) (stores : Stores)
    : Response × Stores → Type 0 where
  quiet : (reply : Response) → Effect digest m req stores (reply, stores)
  opened : (reply : Response) → Effect digest m req stores (reply, with_region req stores)
  changed :
      {t : EntityStore} (reply : Response)
      → Change digest m (requester_tenant req) (store_of req stores) t
      → Effect digest m req stores (reply, put_store req t stores)

module _ (digest : Value → ℕ → String) (m : Method) (req : Request) (stores : Stores) where
  abbrev Fits : Response × Stores → Type 0
  Fits result = Effect digest m req stores result

  auth-Fits : (rest : Response × Stores) → Fits rest → Fits (require_auth req stores rest)
  unfolding require_auth
  auth-Fits rest h = elim (Bool-cases (auth_ok req)) [
    | inl e ↦ rw (e, require_auth) h
    | inr e ↦ rw (e, require_auth) (quiet (failed 401 "unauthorized"))
  ]

  get-Fits : (doc_id : String) → Fits (get_document doc_id req stores)
  unfolding get_document
  get-Fits doc_id =
      auth-Fits _ (elim (Option-cases (lookup (text_key doc_id) (store_of req stores).documents)) [
        | inl e ↦ rw e (opened _)
        | inr (r, e) ↦ rw e (elim (Bool-cases (can_access (requester_tenant req) r)) [
          | inl a ↦ rw a (opened _)
          | inr a ↦ rw a (opened _)
        ])
      ])

  list-Fits : Fits (list_documents req stores)
  unfolding list_documents
  list-Fits =
      auth-Fits _
        (elim (Bool-cases (is_foreign (query_param req "tenant") (requester_tenant req))) [
          | inl e ↦ rw e (quiet _)
          | inr e ↦ rw e (opened _)
        ])

  changes-Fits : Fits (changes req stores)
  unfolding changes
  changes-Fits =
      auth-Fits _
        (elim (Bool-cases (is_foreign (query_param req "tenant") (requester_tenant req))) [
          | inl e ↦ rw e (quiet _)
          | inr e ↦ rw e (opened _)
        ])

  delete-Fits : m ≡ delete_method → (doc_id : String) → Fits (delete_document doc_id req stores)
  unfolding delete_document
  delete-Fits is_delete doc_id =
      auth-Fits _ (elim (Option-cases (lookup (text_key doc_id) (store_of req stores).documents)) [
        | inl e ↦ rw e (opened _)
        | inr (r, e) ↦ rw e (elim (Bool-cases (can_access (requester_tenant req) r)) [
          | inl a ↦ rw a (changed _ (removes doc_id r is_delete e a))
          | inr a ↦ rw a (opened _)
        ])
      ])

  replay-Fits : Fits (replay req stores)
  unfolding replay replay_value
  replay-Fits = auth-Fits _ (
      on_reading_ind Fits stores _ _ (λ _. quiet _)
        λ v. with_object_ind Fits stores v _ (quiet aborted) λ body.
          elim (Bool-cases (is_text "self" (get "origin" body))) [
            | inl e ↦ rw e (quiet (ignored true))
            | inr e ↦ rw e (changed (ignored false) (appends body))
          ])

  create_value-Fits : m ≡ post_method → (v : Value) → Fits (create_value digest req v stores)
  unfolding create_value
  create_value-Fits is_post v =
      with_object_ind (λ result. Fits (result.0, result.1)) (with_region req stores) v _
        (opened aborted)
        λ doc. elim (Option-cases (key_of (get "id" doc))) [
          | inl e ↦ rw e (opened aborted)
          | inr (key, e) ↦ rw e (changed _ (creates key (get "id" doc) doc is_post e))
        ]

  create-Fits : m ≡ post_method → Fits (create_document digest req stores)
  unfolding create_document check_id
  create-Fits is_post = auth-Fits _ (
      on_reading_ind Fits stores _ _ (λ _. quiet _)
        λ v. elim (Option-cases (contains_id v)) [
          | inl e ↦ rw (e, check_id) (quiet aborted)
          | inr (true, e) ↦ rw (e, check_id) (create_value-Fits is_post v)
          | inr (false, e) ↦ rw (e, check_id) (quiet (failed 400 "id is required"))
        ])

  update_record-Fits :
      (doc_id : String) (v : Value) (r : StoredDoc)
      → lookup (text_key doc_id) (store_of req stores).documents ≡ some r
      → can_access (requester_tenant req) r ≡ true
      → Fits (update_record digest doc_id req v r stores)
  unfolding update_record commit_update
  update_record-Fits doc_id v r found allowed =
      with_object_ind (λ result. Fits (result.0, result.1)) (with_region req stores) v _
        (opened aborted)
        λ body. elim (Bool-cases (is_null (get "_rev" body) || is_text r.rev (get "_rev" body))) [
          | inl e ↦ rw e (changed _ (updates doc_id body r found allowed e))
          | inr e ↦ rw e (opened _)
        ]

  update-Fits : (doc_id : String) → Fits (update_document digest doc_id req stores)
  unfolding update_document update_value
  update-Fits doc_id = auth-Fits _ (
      on_reading_ind Fits stores _ _ (λ _. quiet _)
        λ v. elim (Option-cases (lookup (text_key doc_id) (store_of req stores).documents)) [
          | inl e ↦ rw (e, update_value) (opened _)
          | inr (r, e) ↦
              rw (e, update_value)
                (elim (Bool-cases (can_access (requester_tenant req) r)) [
                  | inl a ↦ rw a (update_record-Fits doc_id v r e a)
                  | inr a ↦ rw a (opened _)
                ])
        ])

  do_get-Fits : Fits (do_get req stores)
  unfolding do_get
  do_get-Fits = elim (Bool-cases (req.path == "/data" || req.path == "/data/")) [
    | inl a ↦ rw (a, do_get) list-Fits
    | inr a ↦ elim (Option-cases (strip_prefix "/data/" req.path)) [
      | inr (doc_id, b) ↦ rw (a, b, do_get) (get-Fits doc_id)
      | inl b ↦ elim (Bool-cases (req.path == "/_changes")) [
        | inl c ↦ rw (a, b, c, do_get) changes-Fits
        | inr c ↦ elim (Bool-cases (req.path == "/sovereignty/replication-config")) [
          | inl d ↦ rw (a, b, c, d, do_get) (quiet replication_config)
          | inr d ↦ rw (a, b, c, d, do_get) (quiet _)
        ]
      ]
    ]
  ]

  do_post-Fits : m ≡ post_method → Fits (do_post digest req stores)
  unfolding do_post
  do_post-Fits is_post = elim (Bool-cases (req.path == "/data")) [
    | inl a ↦ rw (a, do_post) (create-Fits is_post)
    | inr a ↦ elim (Bool-cases (req.path == "/_changes/replay")) [
      | inl b ↦ rw (a, b, do_post) replay-Fits
      | inr b ↦ rw (a, b, do_post) (quiet _)
    ]
  ]

  do_put-Fits : Fits (do_put digest req stores)
  unfolding do_put
  do_put-Fits = elim (Option-cases (strip_prefix "/data/" req.path)) [
    | inr (doc_id, b) ↦ rw (b, do_put) (update-Fits doc_id)
    | inl b ↦ rw (b, do_put) (quiet _)
  ]

  do_delete-Fits : m ≡ delete_method → Fits (do_delete digest req stores)
  unfolding do_delete
  do_delete-Fits is_delete = elim (Option-cases (strip_prefix "/data/" req.path)) [
    | inr (doc_id, b) ↦ rw (b, do_delete) (delete-Fits is_delete doc_id)
    | inl b ↦ rw (b, do_delete) (quiet _)
  ]

-- Every request acts by the relation.
pub handle-Effect :
    (digest : Value → ℕ → String) (m : Method) (req : Request) (stores : Stores)
    → Effect digest m req stores (handle digest m req stores)
unfolding handle
handle-Effect digest get_method req stores = do_get-Fits digest get_method req stores
handle-Effect digest post_method req stores = do_post-Fits digest post_method req stores refl
handle-Effect digest put_method req stores = do_put-Fits digest put_method req stores
handle-Effect digest delete_method req stores = do_delete-Fits digest delete_method req stores refl
