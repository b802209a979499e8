-- ===== src/Lib.antt =====
-- Eggwork accepts execution requests over HTTP, runs the commands and journals what happens to
-- them. This library models the protocol types with their validators, the durable execution store,
-- the command runner's own logic, and the node's handling of requests. The server's routes
-- validate a request with the first, admit and record it with the second, run it with the third,
-- and serve events and snapshots from the store and from the records in memory.
--
-- Core and the modules below it are crates/eggwork-core/src/lib.rs. A struct is a record, an enum
-- a data type, and each constructor or `validate` is a function into a result whose errors are
-- those of ValidationError. A string is the list of its UTF-8 bytes. Core/Error, Core/Limits and
-- Core/Id hold the errors, limits and identifiers; Core/RelativePath `RelativePath::new`;
-- Core/Environment and Core/Resources the parts of a command, Core/Command `CommandSpec` and
-- `ExecutionSpec`; Core/Workspace the manifest, below it Portable
-- (`validate_portable_workspace_path`), Manifest (`WorkspaceManifest::validate`) and Patch
-- (`WorkspaceManifestPatch::apply_to`); Core/Execution the states, results and events;
-- Core/Telemetry the telemetry validators; Core/Digest the canonical digests.
--
-- Store and the modules below it are crates/eggwork-server/src/store.rs. Store/Tables has the
-- tables as lists of rows and the SQL statements on them as functions; Store/Reserve is `reserve`,
-- Store/Journal `commit_event` and `recover`, Store/Trim `trim_events`, Store/Leases
-- `update_lease`, Store/Reads the methods that read, Store/Metrics the counters. A method takes
-- the connection's mutex for its whole transaction, so it is a function from tables to an answer
-- and tables, and the clock it reads is an argument. A method that fails has no new tables, since
-- its transaction is dropped. Store/History has the methods as steps, and what sequences of steps
-- and restarts reach.
--
-- Runner and the modules below it are crates/eggwork-runner/src/lib.rs: Runner/Capture
-- `BoundedCapture::push` and `push_per_byte`, the loop it is tested against; Runner/Setup the
-- requests for isolation and resource controls and `prepare` of both setups; Runner/Request
-- `from_spec`, `validate` and the environment that `direct_command` gives the child; Runner/Report
-- `execution_result` and `resource_result`.
--
-- Server and the modules below it are crates/eggwork-server/src/lib.rs: Server/Routes
-- `operation_for`, `resource_for_path` and `dispatch` up to the handler; Server/Admission the
-- checks of `execute` on a request and the node's features; Server/Recent the comparison with an
-- execution that is already there and the room made among the executions in memory; Server/Queries
-- `query_parameter` and `events_route`; Server/Control `control` and `observe`; Server/Events
-- `event_response` and the stream of `event_stream_response`, one poll after the other, on the
-- list of what the broadcast receiver returns; Server/Telemetry (with
-- crates/eggwork-server/src/telemetry.rs) the cache of the host's telemetry, the loop that fills
-- it and the answer of `node_telemetry`; Server/Records the record of an execution, `publish` on
-- the record and the store, and the result that `run_execution` publishes at the end;
-- Server/Forward the loop of `run_execution` that forwards the output.
--
-- Client/Lines is crates/eggwork-client/src/lib.rs, `ExecutionStream::into_events`, on the list of
-- the chunks that the transport gives.
--
-- Prelude and the modules below it have the tests on native numbers, results, byte strings, the
-- ordered map, the slices and the stable sort that the parts use.
--
-- Parameters stand for code that the repository does not hold: Core.Resources.Json and
-- Store.Tables.Json for serde_json, Core.Digest.Hashing for serde_json and SHA-256,
-- Core.Telemetry.Float for the tests on `f32`; Runner.Setup.TrustedSetup for the probes of the
-- host, Runner.Request.FileSystem for the file system, Server.Routes.Policy for the resolver and
-- the authorizer. The hash of a lease (SHA-256), the printing of errors and of numbers, and what
-- the HTTP and TLS libraries read, are arguments. Numbers are unbounded natural numbers; where the
-- source adds with saturation the bound is written out, and the counters stop at the largest
-- `i64`. Times are natural numbers of milliseconds. Sequence numbers are kept exact: each event
-- takes one, and no history is long enough to reach 2^63. Generations are kept exact too: those in
-- the table are at most 2048, since each is admitted after its predecessor, and one from 2^63 on,
-- which a cast makes negative, is absent from the table and stale, as it is here. An
-- `after_sequence` from 2^63 on becomes negative in the query for a page, as in the source; the
-- route that serves pages refuses one.
--
-- The loop of `trim_events` runs on fuel: a round for each row of the event table and one more. A
-- stream is polled once more than there are events for it, which is enough to see it end or wait.
-- The loop of `into_events` takes a round for each byte and chunk, and two more. The other loops
-- are structural recursions.
--
-- Not modelled: the child's lifecycle in the runner, and its system backends; of the routes, the
-- reading of bodies, the lease monitor, and the permits; the workspace, blob and artifact stores,
-- the telemetry provider and its payload, the client's calls, the sandbox helper and the operator
-- commands, most of which is input and output; and the Debug and conversion implementations,
-- wrapper types without operations, `lease_hash`, and the opening of the database file.
pub mod Prelude
pub mod Core
pub mod Store
pub mod Runner
pub mod Server
pub mod Client
