-- ===== src/Lib.antt =====
-- The verification library of modular-runtime, a monorepo of gRPC services.
--
-- The program. Services register with the topology service (apps/topology) through a reporter
-- (packages/topology-reporter), send heartbeats and report their activity. The topology service keeps
-- nodes and edges in a store and broadcasts every change to its watchers, among them the dashboard
-- (apps/dashboard), which replays the updates on its own snapshot. The broker (packages/broker) is the
-- registry by which services find each other. The supervisor (apps/supervisor) starts the processes
-- and restarts them. A demo pipeline (apps/demo-domain) sends events through services in batches.
--
-- The files, with the code each one models (paths from the root of the repository):
--   Shared               Boolean tests, lists, the JavaScript Map as an association list (Shared.Dict),
--                        loops over its keys (Shared.Loops, Shared.Pointwise), text (Shared.Text)
--   Topology.Types       the messages of packages/proto/runtime/v1/topology.proto
--   Topology.Store       apps/topology/src/topology-store.ts: State (records, constructor, updates),
--                        Services (registerService, removeService, recordHeartbeat), Activity
--                        (recordActivity, flushActivity), Sweep (sweep). WellFormed is the invariant,
--                        Preservation its proofs, EdgeRules the loops over edges as rules for each
--                        edge, Laws the guarantees
--   Topology.Service     apps/topology/src/topology-service.ts: handlers, timers, broadcast; Watchers
--                        and Answers are its guarantees
--   Topology.Arguments   apps/topology/src/config.ts
--   Dashboard            apps/dashboard/src/hooks/useTopologyStream.ts: applyUpdate. Its children relate
--                        it to the store, operation by operation; Stream is the hook's handlers and
--                        areSnapshotsEqual
--   Broker               packages/broker/src/broker.ts
--   Client               packages/common/src/index.ts: ClientManager; Steady is what it waits for. Registry is
--                        packages/broker/src/BrokerClientManager.ts, with the broker that it calls
--   Ingest               apps/demo-domain/ingest-service: streamEvents, line by line (Ingest, Handler), the work
--                        items (WorkItems) and parseArgs (Arguments); Equivalence, Complete and Events are its
--                        guarantees
--   Reporter             packages/topology-reporter/src/topology-reporter.ts
--   ReporterProxy        apps/topology/src/topology-reporter-proxy.ts: requests and bodies; Handlers is one
--                        function per handler, over the reporter of Reporter; Laws and Lifecycle are its
--                        guarantees
--   EventProxy           apps/topology/src/topology-proxy.ts: the listeners and the stream of updates; Replay is what
--                        a dashboard makes of what is written to it
--   Generator            apps/demo-domain/event-generator: Mulberry is its random numbers from a seed, Bounds
--                        what every event keeps to, Arguments its command line
--   Services             apps/demo-domain/parse-service, its handlers; WorkItems is the three
--                        workitem-processor.ts, Rules, Aggregate and Sink the handlers of those services. Batches
--                        and Equivalence relate batches to single events, LostItems and Transposing are about
--                        work items
--   Supervisor           apps/supervisor/src/supervisor.tsx: the logs and the restart policy; Lifecycle
--                        (one service), Shutdown (all of them); Laws, Restarts, Draining and Logs are its guarantees
--   Pipeline             apps/demo-domain: Options, Batching and Single (pipeline-orchestrator: its
--                        command line, with batches and without), Aggregation (rules-service and
--                        aggregate-service)
-- The modules named Tests and Samples hold the witnesses and runs on concrete data.
--
-- How state and operations correspond. An object's fields are a record, and a method is a function
-- from the record to the new one with what the method returns or sends. A name of the source is spelled
-- in snake case. The clock, generated identifiers, spawned processes and the outcome of a write are
-- arguments. An asynchronous function is split where it waits. What a stream or a callback is given is
-- kept as a list. A parameter stands for numbers that need not be whole (`Number`, of which nothing
-- is assumed), for the printing of numbers and for `parseInt`.
--
-- Bounds. Times, counts and options are natural numbers: the code compares times only by
-- differences, and a difference that would be negative is 0 here, with the same outcome. Negative
-- options on the command line of the topology service are outside the model of its store. The loops
-- are over lists, and the generator's counts down the events that are left: nothing runs on fuel. A number
-- of 32 bits is a natural number below 2 ^ 32.
--
-- Not modelled: gRPC, HTTP and file input and output, logging, rendering, the services in other languages
-- (Rust, C++, Go, Python), and the calculator demo.
pub mod Shared
pub mod Topology
pub mod Dashboard
pub mod Broker
pub mod Client
pub mod EventProxy
pub mod Generator
pub mod Ingest
pub mod Pipeline
pub mod Reporter
pub mod ReporterProxy
pub mod Services
pub mod Supervisor
