-- ===== src/EntityService/Service.antt =====
-- The routing of entity-api-local.py.
use hpa_with_bmad.Base.{
  ℕ, String, none, some, [], ◌∷◌, true, if◌then◌else◌, ◌==◌, ◌||◌, string_eq, strip_prefix,
}
use hpa_with_bmad.Json.{Value, bool, str, object}
use hpa_with_bmad.Http.{Response, json, failed}
use hpa_with_bmad.EntityService.Handlers.{
  Handler, get_document, list_documents, delete_document, changes, replay, create_document,
  update_document,
}

-- `_replication_config`
abbrev pub replication_config : Response
replication_config = json 200 (
    object (
      (
        "replication",
        object (("default", str "disabled") ∷ ("explicit_configuration_required", bool true) ∷ []),
      )
      ∷ []))

pub data Method : Type 0 where
  get_method post_method put_method delete_method : Method

-- `do_GET`
unfoldable pub do_get : Handler
do_get req stores =
    if req.path == "/data" || req.path == "/data/"
    then list_documents req stores
    else elim (strip_prefix "/data/" req.path) [
      | some doc_id ↦ get_document doc_id req stores
      | none ↦
          if req.path == "/_changes"
          then changes req stores
          else if req.path == "/sovereignty/replication-config"
          then (replication_config, stores)
          else (failed 404 "not found", stores)
    ]

module _ (digest : Value → ℕ → String) where
  -- `do_POST`
  unfoldable pub do_post : Handler
  do_post req stores =
      if req.path == "/data"
      then create_document digest req stores
      else if req.path == "/_changes/replay"
      then replay req stores
      else (failed 404 "not found", stores)

  -- `do_PUT`
  unfoldable pub do_put : Handler
  do_put req stores = elim (strip_prefix "/data/" req.path) [
    | some doc_id ↦ update_document digest doc_id req stores
    | none ↦ (failed 404 "not found", stores)
  ]

  -- `do_DELETE`
  unfoldable pub do_delete : Handler
  do_delete req stores = elim (strip_prefix "/data/" req.path) [
    | some doc_id ↦ delete_document doc_id req stores
    | none ↦ (failed 404 "not found", stores)
  ]

  unfoldable pub handle : Method → Handler
  handle get_method req stores = do_get req stores
  handle post_method req stores = do_post req stores
  handle put_method req stores = do_put req stores
  handle delete_method req stores = do_delete req stores
