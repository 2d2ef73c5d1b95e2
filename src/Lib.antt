-- ===== src/Lib.antt =====
-- A verification library for the services of the High Performance Distributed Cluster (HPDC).
--
-- The program. HPDC is a platform of manifests and Python scripts. Its own logic is in the services
-- under scripts/services: HTTP services with state in memory and NDJSON files, and command lines that
-- work on files; in scripts that set up the cluster (scripts/startup.dev.py, and component_versions.py,
-- render_app_of_apps.py and gen-edge-cert.py under scripts/gitops); and in the telemetry simulator. This
-- library models them as functions on explicit state and proves what they
-- guarantee. A handler takes a request and the server's state and returns its one reply with the new
-- state; a reply may be `aborted`, an exception that the handler does not catch.
--
-- Files and code.
--   Base      what all share: tests on numbers, lists, texts, integers, and Python's dict as an
--             association list in insertion order (Base/Dictionary).
--   Json      what `json.loads` returns (Value), the keys that a dict takes (Json/Key), `==`
--             (Json/Equality) and `int` (Json/Number).
--   Http      http.server as the handlers see it: Request, Response, `_read_body`.
--   Regex     the uses of `re.search` in the services.
--   Edge      scripts/services/events-ingest.py. Edge has the state (Server is EdgeServer and its
--             files), Edge/Envelope validate_envelope, Edge/Ulid ulid, Edge/Ingest and Edge/Alerts the
--             handlers, Edge/Service do_GET and do_POST. Edge/Effect is the step relation of a call,
--             and Edge/Invariant, Edge/Keys, Edge/Idempotency, Edge/Accounting and Edge/Guards have the
--             theorems.
--   AlertHandler   scripts/services/alert-handler.py: handle_action over state.ndjson and audit.ndjson.
--             AlertHandler/Shipped is gitops/alerts/base/alert-handler-actions.yaml.
--   EntityService  scripts/services/entity-api-local.py. EntityService has EntityStore, the regions and
--             the access checks, EntityService/Handlers the handlers, EntityService/Service the
--             routing, EntityService/Effect the relation of a request, and the theorems are in
--             EntityService/Isolation and EntityService/Locking, the latter from EntityService/Revisions
--             and EntityService/Newer.
--   AgentEngine    scripts/services/agent-engine-local.py. AgentEngine has the handlers over the audit
--             and the message file, AgentEngine/Rules what a single call does, AgentEngine/Invariant
--             what holds after any calls.
--   Identity  scripts/services/identity-authz-local.py, whose handlers keep no state; Identity/Tokens
--             has the theorems on its tokens.
--   ChangeProcessor  scripts/services/entity-change-processor.py. ChangeProcessor/Step is the relation of
--             a run, ChangeProcessor/Once and ChangeProcessor/Redelivery have the theorems.
--   DecisionSupport  scripts/services/alert-decision-support.py, with the shipped configuration of
--             gitops/alerts/base/llm-decision-support.yaml; DecisionSupport/Gate has the theorems.
--   Versions  scripts/gitops/component_versions.py: Versions has the functions, Versions/Tables and
--             Versions/Catalog the tables, Versions/Network _derive_network_vars; the theorems are in
--             Versions/Layers, Versions/Toggles, Versions/Images and Versions/Network.
--   EntityCrud  scripts/services/entity-api.py: EntityCrud has the data, EntityCrud/Diff
--             compute_change_diff, EntityCrud/Defs the commands; EntityCrud/Commands has the theorems on
--             the commands on one entity and EntityCrud/Bulk those on bulk_operations.
--   Simulator  scripts/telemetry/telemetry_simulator.py. Simulator has the data, Simulator/Config
--             validate_config and the API key, Simulator/Envelope and Simulator/Generate the messages,
--             Simulator/Emit the three protocols, Simulator/Run run_simulation and main. The theorems
--             are in Simulator/Generated, Simulator/Counts, Simulator/Accounting, Simulator/Completion,
--             Simulator/DryRun and Simulator/Grpc.
--   GraphqlGateway  scripts/services/graphql-gateway.py; GraphqlGateway/Verdict has the theorem on
--             execute.
--   AppOfApps  scripts/gitops/render_app_of_apps.py over the two folders; AppOfApps/Rendered has the
--             theorem on what is written.
--   Startup   scripts/startup.dev.py. Startup/Toggles, Startup/Select and Startup/Modes say which steps
--             run and with what, Startup/Run has the run itself, over a World of answers; Startup/Order
--             and Startup/Main have the theorems on it.
--   EdgeCert  scripts/gitops/gen-edge-cert.py. EdgeCert has the pair on disk, EdgeCert/Cluster the commands
--             on the cluster, EdgeCert/Modes the modes; EdgeCert/Outcome and EdgeCert/Secret have the
--             theorems.
--   Preflight  scripts/services/image-preflight.py; Preflight/Actions, Preflight/Loading and
--             Preflight/Gate have the theorem on what is pulled and loaded and on the exit status.
--
-- How they interact. The services do not call one another. Each handler reads the request through Http,
-- whose rules on_reading_ind and with_object_ind carry a property over the reading of a body; each
-- service's Effect relation then carries it over all routes, and serve_induction over runs.
--
-- Bounds and fuel. Numbers are unbounded, as in Python. Texts are recursed on by their characters, lists
-- by their items. `decimal` has the number plus one as fuel, more than its digits. No other function
-- has fuel.
--
-- What is not modelled, and why. Sockets, threads, the decoding of JSON text, `urlparse` and `parse_qs`:
-- a request holds their results, and requests are taken one after another, each handler as one step.
-- JSON numbers are integers: the services compute with no fractions except where a file says so. A
-- boolean id of a document is listed as the number that it equals. The texts of error messages that
-- Python builds from values that are no texts are shortened. The clock, random bytes, uuid and
-- hashlib.md5 are arguments. Writing files is taken to succeed. Of the telemetry simulator the reading of
-- the configuration file and the floats of the summary are left out; what the network, the random
-- generator and the packages paho and grpc answer are parameters. Of scripts/startup.dev.py --status,
-- --list and the discovery of the step files are left out. What openssl, kubectl, docker, the mirror and
-- talosctl answer is a field of the record of the tools. The remaining scripts drive kubectl, helm,
-- talosctl, skopeo and the like, and are left out, as are printing and argument parsing.
pub mod Base
pub mod Json
pub mod Http
pub mod Regex
pub mod Edge
pub mod AlertHandler
pub mod AgentEngine
pub mod ChangeProcessor
pub mod DecisionSupport
pub mod EntityCrud
pub mod EntityService
pub mod Identity
pub mod Versions
pub mod Simulator
pub mod GraphqlGateway
pub mod AppOfApps
pub mod Startup
pub mod EdgeCert
pub mod Preflight
