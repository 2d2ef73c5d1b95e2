-- ===== src/Edge/Service.antt =====
-- The routing of events-ingest.py, and a run of the server over a list of requests.
use hpa_with_bmad.Base.{
  ℤ, pos, negsuc, suc, String, Option, none, some, List, [], ◌∷◌, ◌||◌, if◌then◌else◌, string_eq,
  ◌==◌, ◌+++◌, strip_prefix, strip_suffix, decimal,
}
use hpa_with_bmad.Http.{Request, Response, text, failed}
use hpa_with_bmad.Edge.{Server, Ambient}
use hpa_with_bmad.Edge.Ingest.{Handler, reject_or_accept, telemetry_batch, control_lag}
use hpa_with_bmad.Edge.Alerts.{create_alert, transition_alert, count_alerts}

abbrev show_int : ℤ → String
show_int (pos n) = decimal n
show_int (negsuc n) = "-" +++ decimal (suc n)

-- `_metrics`
unfoldable pub metrics : Handler
metrics req s = (
  text 200 (
      "# HELP ingestion_dropped_total Messages dropped by the ingestion consumer.\ningestion_dropped_total{reason=\"consumer_lag\"} "
      +++ show_int s.dropped_total
      +++ "\n"),
  s,
)

-- `do_GET`
unfoldable pub do_get : Handler
unfolding metrics
do_get req s =
    if req.path == "/metrics"
    then metrics req s
    else if req.path == "/alerts"
    then count_alerts req s
    else (failed 404 "not found", s)

-- The id between "/alerts/" and "/transition". A path that has both, overlapping, is shorter than
-- the two together: its slice is empty.
unfoldable pub transition_id : String → Option String
transition_id path = elim (strip_prefix "/alerts/" path) [
  | none ↦ none
  | some rest ↦ elim (strip_suffix "/transition" path) [
    | none ↦ none
    | some _ ↦ elim (strip_suffix "/transition" rest) [ none ↦ some "" | some id ↦ some id ]
  ]
]

-- `do_POST`
unfoldable pub do_post : Ambient → Handler
do_post env req s =
    if req.path == "/events" || req.path == "/telemetry"
    then reject_or_accept env req.path req s
    else if req.path == "/telemetry/batch"
    then telemetry_batch req s
    else if req.path == "/control/lag"
    then control_lag req s
    else if req.path == "/alerts"
    then create_alert env req s
    else elim (transition_id req.path) [
      | some alert_id ↦ transition_alert alert_id req s
      | none ↦ (failed 404 "not found", s)
    ]

-- One call of the server: the method, what comes from outside, and the request.
pub data Call : Type 0 where
  get_call : Request → Call
  post_call : Ambient → Request → Call

unfoldable pub handle : Call → Server → Response × Server
unfolding do_get do_post
handle (get_call req) s = do_get req s
handle (post_call env req) s = do_post env req s

-- Requests one after another, the handlers taken as atomic.
unfoldable pub serve : List Call → Server → Server
unfolding handle
serve [] s = s
serve (c ∷ cs) s = serve cs (handle c s).1
