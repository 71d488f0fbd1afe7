-- ===== src/Lib.antt =====
-- A verification library of Loadsmith, an engine that runs a pipeline (a source, perhaps a parser, a
-- destination, perhaps a sink) as plugin processes: it models the engine's core and proves what
-- makes its parts correct. Loadsmith is concurrent Rust; a task is modelled as a function of the
-- events that it takes, in the order in which it takes them, so that a theorem over all lists of
-- events covers all interleavings. Numbers are natural numbers, and a `u64` sum that may wrap is
-- written with `u64`. Error texts are kept as the data that they are made from.
--
-- The parts, and the files that model them (all paths from the repository's root):
--   Flow           crates/loadsmith-core/src/pump.rs (`FlowWindow`), crates/loadsmith-plugin-sdk/
--                  src/flow.rs (`FlowGrant`, `FlowGate`): the credit of a source
--   Pump           crates/loadsmith-core/src/pump.rs (`pump`): the copy of the batches, which grants
--                  the credit of Flow
--   Watermark      crates/loadsmith-plugin-sdk/src/watermark.rs (`TieSafeCursor`): the watermark that
--                  a source reports with its checkpoints
--   State          crates/loadsmith-core/src/state.rs: the state document
--   Lock           the same file (`acquire`, `Lease`, `LocalLock`), state_s3.rs beside it (`S3Lock`)
--                  and crates/loadsmith-aws/src/s3.rs (`S3Client`): the lock of a pipeline's state
--   StateSupervisor  crates/loadsmith-core/src/state_supervisor.rs: the task that writes the state
--                  document, from the checkpoints of the source, the commits of the destination and
--                  the prefixes of SinkSupervisor; SortedMap is its `BTreeMap`
--   SinkSupervisor crates/loadsmith-core/src/sink_supervisor.rs: Delivery is the ledger, Instance the
--                  loop that drives one sink, the module itself the loop that respawns sinks
--   Shutdown       crates/loadsmith-core/src/shutdown.rs: stop requests
--   Peer           crates/loadsmith-core/src/peer.rs (`Peer`): the control channel of a plugin
--   ParserFeed     crates/loadsmith-core/src/parser_feed.rs (`Feed`): the files of a parser;
--                  Schema is the wait for its schema
--   Run            crates/loadsmith-core/src/runner.rs: DataPhase is the loop that supervises a running
--                  pipeline, on the Peer of each plugin and the upstream of ParserFeed; Recovery the
--                  loop over the attempts of a run; Failing the failures of peer.rs beside it
--   Lifecycle      crates/loadsmith-core/src/lifecycle.rs: the handshake and the start of a plugin,
--                  with `Peer::recv_expect`
--   ObjectKey      crates/loadsmith-plugin-sdk/src/object_key.rs: the names of objects; Calendar is
--                  their dates
--   Exit           crates/loadsmith-cli/src/exit.rs, crates/loadsmith-core/src/error.rs: exit codes
--   Config         crates/loadsmith-config/src: Template is template.rs, the substitution of a text;
--                  Mask is mask.rs, which it records its values in
--   Text           the operations on texts that the parts share, on code points
--   Prelude        what the parts share; Tests has runs at concrete inputs
--
-- A function keeps the name of the code's function, and a record the names of the fields. A
-- channel is the value that it holds or the list of what it brings. Stores and pipes that may fail
-- are oracles over the number of the call. The attempts of a run have fuel for each attempt that
-- may be made, the parsing of a key or of a template for each character; each is proved to be enough.
-- `acquire` takes a bound, the number of its `'race` rounds: a round repeats only if the lock
-- vanished after it was found (Lock.Watching says when one is enough).
--
-- Not modelled: processes, pipes and signals, serde, Arrow, HTTP and TLS (calls of other packages);
-- telemetry, which decides nothing; and so far the wiring of a run, the
-- validation of a configuration, the S3 backend's documents and the other parts of the plugin SDK.
mod Prelude
pub mod Flow
pub mod Pump
mod SortedMap
mod Tests
pub mod State
pub mod Lock
pub mod Peer
pub mod Exit
pub mod Run
pub mod Text
pub mod Config
pub mod Lifecycle
pub mod ObjectKey
pub mod ParserFeed
pub mod StateSupervisor
pub mod Shutdown
pub mod SinkSupervisor
pub mod Watermark
