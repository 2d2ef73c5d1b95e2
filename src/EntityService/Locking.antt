-- ===== src/EntityService/Locking.antt =====
-- Revisions of the entity service: optimistic locking.
use hpa_with_bmad.Base.{string_eq}
use hpa_with_bmad.Json.Key.{key_eq}
