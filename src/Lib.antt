-- ===== src/Lib.antt =====
-- Tengen, a pipeline for security alerts: a model of its decision logic and the theorems that
-- make it correct. tengen/ is the Python package.
--
-- Queue models tengen/queue: the publisher of rabbitmq.py over a broker that may refuse each
-- publication (a schedule of refusals is part of the state), and the on_message callback of
-- rabbitmq_consumer.py with its acknowledgements. Routing models tengen/routing: registry.py
-- (Registry), the eight matchers of routes/ (Routes), and _route_alert and _publish_to_dlq of
-- router.py (Router). A callback returns its exception beside the state it leaves.
--
-- N8n models tengen/n8n and the tools of tengen/agents/router.py: the resolver over its YAML
-- table with reloading (Resolver), the client's retries over a server that answers as it likes
-- at each attempt (Client), the response parser (Response) and the agent's tools (Dispatch).
-- The retry loop recurs on the attempts that are left, so it needs no other fuel.
--
-- Triage models tengen/tools/triage_tools.py: correlation of an event with the open incidents
-- (Correlation), the score (Score) and the suppression rules (Suppression). Scores are exact
-- naturals, in hundredths; how Python rounds the floating-point product is a parameter that may
-- be off by half a hundredth. Correlation reads times as microseconds.
--
-- Models holds the records of tengen/models and, in Projection, to_udm of normalized_event.py:
-- each part of the event in the unified data model is a definition.
--
-- Normalizers models tengen/tools/normalizers: the operations on values of any type (Reading),
-- validation and construction (Building), the normalizers of the clouds (Cloud), of CrowdStrike
-- and Kubernetes (Endpoint) and of firewalls and DDoS detectors (Traffic), and detection with
-- dispatch (Registry). An exception is a value of the result type.
--
-- Udm models tengen/udm: the tables and heuristics of mappings.py (Tables, Mappings), the SQL
-- of field_registry.py as functions on rows (FieldRegistry), the parser of parser.py over them
-- (Parser), and the proposals of model_updater.py (Updater).
--
-- Metrics models tengen/dashboard/metrics_store.py with metrics_consumer.py (Store: the
-- counters and the messages; Store/Buckets and Targets: which counter is read, and which an
-- event is counted in; Store/Keys: which values are one key; Store/Rows: the table that is
-- saved and loaded) and tengen/metrics/emitter.py (Emitter). Store/Rows/Restart has the service
-- as a step relation: events that name texts, flushes and restarts over a file that can be
-- opened.
--
-- Consumers models tengen/consumers: what they share (Ingestion), the loops over SQS, Kafka and
-- Pub/Sub (Sqs, Kafka, PubSub) and the endpoint of the universal consumer (Http). A loop recurs
-- on the polls to come, so it needs no fuel. Publishing is the _main of universal_consumer.py:
-- the endpoint with the publisher of Queue.
--
-- Forwarder models tengen/forwarder/splunk_client.py: the buffer with its batches and the retry
-- loop (Splunk). The loop recurs on the attempts that are left, so it needs no other fuel.
--
-- Agents models the tools of tengen/agents/azure_runbook.py, k8s_runbook.py and edr_runbook.py
-- that read an event (Azure, Kubernetes, Edr), with the expressions on JSON that they share
-- (Json). Enrichment models tengen/tools/enrichment.py over an environment and servers as
-- functions. Tools models alert_parser.py, runbook_loader.py and forwarder_tools.py.
-- Forwarder/Workers models the callbacks of tengen/forwarder/enriched_forwarder.py and
-- dlq_forwarder.py.
--
-- Agents/Query models tengen/agents/query.py: the queries of CloudTrail (CloudTrail), of the
-- other clouds and CrowdStrike (Sources) and of a cluster (Cluster), and the search for an
-- address in all sources (Correlation).
--
-- Agents/Normalizer and Agents/Orchestrator model the tools of tengen/agents/normalizer.py and
-- orchestrator.py, over the normalizers and the response parser; Agents/Clouds models the
-- enrichment tools of cloudtrail_runbook.py and gcp_audit_runbook.py.
--
-- The modules below share Prelude (tests, lists, dictionaries in insertion order, results),
-- Text (the methods of Python's str) and Value (JSON values and what the program does with
-- values of any type; Native: values that hold times). Numbers are naturals, and integers of
-- any sign where the program allows them; Python's integers have no width, so nothing wraps
-- around.
--
-- Parameters stand for what is not in the repository: pydantic's validation, the JSON printer,
-- datetime.fromisoformat, str(), int() and float() of some values, the order in which SQLite
-- gives rows, the ids and clocks that are handed out, the broker, the web servers and the
-- rounding of a product of floats. Not modelled are the prompts of the agents and the language
-- model that calls their tools, the tools of containment, the dashboard, the terminal interface
-- and the configuration: most of them are calls of outside services.
pub mod Prelude
pub mod Text
pub mod Value
pub mod Models
pub mod Queue
pub mod Routing
pub mod N8n
pub mod Triage
pub mod Normalizers
pub mod Udm
pub mod Metrics
pub mod Consumers
pub mod Forwarder
pub mod Agents
pub mod Enrichment
pub mod Tools
