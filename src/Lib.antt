-- ===== src/Lib.antt =====
-- The kernel of grist-agent: a Rust library that runs one agent session. A session has a state
-- (messages, tasks, a status) and an append-only event log; between turns of the model, lifecycle
-- methods take what the handles have queued (user messages, task updates, cancelled tasks), write
-- checkpoints to the log, suspend, resume and end the session. Tools run in sandboxes whose policies
-- are derived from capability atoms.
--
-- The files, and the code they model:
--   Capability, Capability/Hosts, /Paths, /Strings: crates/kernel/src/capability.rs. Coverage,
--     Order and Strings/RoundTrip are proofs.
--   Sandbox: crates/kernel/src/sandbox.rs (`derive_policy_with`), host.rs (`FsPolicy::check`) and the
--     envelope of loop_/registry.rs. Derivation, Success and Access are proofs.
--   Content, Task, State, Event: the data of content.rs, task.rs, state.rs and event.rs.
--   State/Migration: `MigrationRegistry` of state.rs.
--   Kernel: the kernel as one state, with the writes that loop_/mod.rs and loop_/support.rs make.
--     Kernel/Tasks is loop_/tasks.rs; Kernel/Lifecycle is `apply_queued_input`, the drain of the
--     inbox, `suspend`, `resume` and `end` of loop_/mod.rs. Mode, Transitions, Waking (with
--     Waking/Updates), Status, Answers, Answered, Delivery and Ending are proofs.
--   Kernel/Chain: loop_/chain.rs; Kernel/Chain/Resolved is its proof. Kernel/Retry: `call_with_retry`
--     of loop_/retry.rs and the errors of provider.rs; Kernel/Retry/Attempts is its proof.
--   Log, Log/Errors, Log/Reader: log/mod.rs and log/memory.rs; Log/File: `parse_log` of log/file.rs.
--     Effective, Restoring, Appending, Parsing and Torn are proofs.
--   Tool, ModelCall: crates/kernel/src/tool.rs and provider.rs, the types of calls.
--   Kernel/Registry, Kernel/Spill: loop_/registry.rs and loop_/spill.rs. Registry/Lookup,
--     Spill/Contents and Spill/Units are proofs.
--   Kernel/Turn: loop_/turn.rs with the emitter of loop_/support.rs: the session and its parameters.
--     Turn/Invoking, Outputs, Questions, Spilling and Calls are the tool calls, Requests and Body the
--     rest of a turn, Exits its ends and run_turn; the other modules are proofs. Kernel/Writes and
--     Kernel/Drains are the lemmas on what logs and what drains the inbox.
--   Redaction: crates/kernel/src/redact.rs; Redaction/Builtin is the table of its patterns. Markers,
--     Replacing, Spans, Scrubbing, Secrecy, Registering, Hiding and Walking are proofs. The log and the turn
--     take the redactor by its effect, so that they hold for any.
--   Providers/Sse: crates/providers/src/sse.rs; Providers/Sse/Chunks is its proof.
--   Prelude: lists, ordered sets and maps, text, results and stateful methods. Tests: runs of the
--     code on concrete inputs.
--
-- How the code is read: a method on `&mut self` that may fail is a function from the kernel to a
-- result and the kernel it leaves, so that what was written before a failure stays written. The
-- parts that the handles share (mirrored status, cancellation tokens, wakers, inbox) are fields of
-- the kernel; a batch is what the inbox holds when it is read. In a turn, what the other threads do
-- is a list of ticks: at each look at the turn's token, whether it was cancelled and what came into
-- the inbox since the last look. The log of the kernel is the list of bodies that it took, and
-- `log_faults` says which of the next appends fail, so that a run of a method may meet
-- a failure of the log at any place. A `String` is the list of its code points, an absolute
-- `PathBuf` the list of its components, a `BTreeMap` or `BTreeSet` a strictly increasing list, a
-- `Duration` its nanoseconds, a hash its text. Loops are structural recursions, on the list that
-- they go over or on the number of versions or attempts that are left; there is no fuel.
--
-- Parameters: what serde does (the JSON of a payload and back), the effect of the redactor, the
-- digest of canonical JSON, the outcome of a provider's attempt and its back-off, the hooks of the
-- middleware and the tools, the artifact store, the regex engine, the lossy decoding of UTF-8, the
-- clock, and the platform. Error texts that serde or the system produce are not told apart.
--
-- Not modelled: creation and opening of a kernel, its run loop and its handle,
-- canonical JSON, the replay but for the reference to a spilled artifact, the streaming of a
-- provider's response. Not modelled as they are I/O or other programs: sandbox backends, host,
-- extensions, orchestrator, HTTP clients. Profiles and the accumulator of the providers are not
-- modelled either.
mod Prelude
pub mod Capability
pub mod Sandbox
pub mod Content
pub mod Task
pub mod Tool
pub mod ModelCall
pub mod State
pub mod Event
pub mod Redaction
pub mod Kernel
pub mod Log
pub mod Providers
pub mod Tests
