-- ===== src/ChangeProcessor/Tests.antt =====
-- Runs of the change processor, and its theorems at concrete inputs.
use hpa_with_bmad.Base.{
  arith, pos, Bool, true, false, some, [], ◌∷◌, ◌≡◌, ◌≢◌, refl, lookup, string_eq,
}
use hpa_with_bmad.Json.{str, Fields, end, field, obj}
use hpa_with_bmad.Http.{document}
use hpa_with_bmad.ChangeProcessor.{
  FeedSpec, Run, code, process, process_body, process_event, react, budget, init, process_all,
  is_processed,
}
use hpa_with_bmad.ChangeProcessor.Once.{IsOnce, process_all-IsOnce}
use hpa_with_bmad.ChangeProcessor.Redelivery.{IsEvent, redelivery_ignored}

abbrev spec : FeedSpec
spec = record {
  sources = "couchdb._changes" ∷ "yugabytedb.cdc" ∷ [];
  reaction_time_ms = some (pos 500);
}

abbrev change : Fields
change =
    field "source" (str "couchdb._changes")
      (field "source_change_id" (str "7-abc") (field "entity_id" (str "pump-1") end))

abbrev run : Bool → Run
run force = record {
  event_json = document (obj change);
  force_failure = force;
  latency_ms = pos 0;
  now = "2026-01-01T00:00:00+00:00";
  uuid = "u";
}

run-IsEvent : (force : Bool) → IsEvent spec (run force) change "7-abc"
unfolding lookup
run-IsEvent force = record { sent = refl; known = refl; named = refl; filled = refl }

none_yet : IsOnce init
none_yet id = omega arith

process_all-IsOnce_example : IsOnce (process_all spec (run true ∷ run false ∷ run false ∷ []) init)
process_all-IsOnce_example =
    process_all-IsOnce spec (run true ∷ run false ∷ run false ∷ []) init none_yet

redelivery_ignored_example :
    process spec (run true) (process_all spec [] (process spec (run false) init).1)
    ≡ (code 0, process_all spec [] (process spec (run false) init).1)
redelivery_ignored_example =
    redelivery_ignored spec (run false) (run true) change change "7-abc" [] init (run-IsEvent false)
      (run-IsEvent true)
      (unfold process process_body process_event react budget is_processed lookup in refl)

fails : (process spec (run true) init).0 ≢ code 0
unfolding process process_body process_event react is_processed lookup
fails = λ h. cc
