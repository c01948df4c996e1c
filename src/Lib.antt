-- ===== src/Lib.antt =====
-- Verification library of the aHand hub and daemon: the parts that decide, count and remember.
--
-- The hub (crates/ahand-hub with crates/ahand-hub-core) takes jobs for devices and talks to the
-- daemon (crates/ahandd) on each device. Messages carry a seq and an ack, so that either side
-- replays after a reconnect what the other has not acknowledged. The daemon decides by the session
-- of the caller, and by its policy, whether a job may run, or asks for an approval.
--
-- The files and the code they model:
--   Outbox, Frames   crates/ahandd/src/outbox.rs: the daemon's frames; Outbox.Log states the
--                    reconnect against the log of everything sent, Outbox.Bounds the bounds.
--   HubOutbox        crates/ahand-hub-core/src/outbox.rs: the hub's frames, with Invariant and
--                    Replay.
--   OutboxStore      crates/ahand-hub/src/ws/in_memory_outbox.rs: the per-device outbox that
--                    sessions share under a lock. Effects gives what each call does to the entry
--                    of its device; Fencing, Sequence and Reconcile rest on it.
--   Hub, Job         crates/ahand-hub-core/src/error.rs and job.rs, with Job.Lifecycle.
--   JobStore         crates/ahand-hub/src/state.rs (MemoryJobStore), over Job, with Laws.
--   Devices          crates/ahand-hub/src/state.rs (MemoryDeviceStore) and
--                    crates/ahand-hub-core/src/device.rs; Steps and History follow a device
--                    through sequences of operations.
--   JobDispatcher    crates/ahand-hub-core/src/services/job_dispatcher.rs, over interfaces of the
--                    stores, which JobDispatcher.Stores fills with Devices and JobStore.
--   ControlJobs      crates/ahand-hub/src/control_jobs.rs, with Correlation and Finalized.
--   PendingFiles     crates/ahand-hub/src/pending_file_requests.rs, with Capacity.
--   Wire             proto/ahand/v1/envelope.proto: the messages that the other files use.
--   Session          crates/ahandd/src/session.rs, with Trust, Refusals and Settings.
--   Approval         crates/ahandd/src/approval.rs, over Session's refusal log, with Once and
--                    Responses.
--   Policy           crates/ahandd/src/policy.rs, with Remembered and Updates.
--   JobRegistry      crates/ahandd/src/registry.rs, with History.
--   AppTools         crates/ahandd/src/app_tool_registry/mod.rs, with Revisions and Snapshots.
--   Webhook          crates/ahand-hub/src/webhook and the in-memory store of
--                    crates/ahand-hub-store/src/webhook_delivery_store.rs: Store, Sender and Worker
--                    are the code; Kept, Leases, Retries and Wakeups follow a delivery through it.
--   OutputStream     crates/ahand-hub/src/output_stream.rs (MemoryOutputStream), with Resumed and
--                    Rising.
--   FileManager      crates/ahandd/src/file_manager: Paths and Policy are policy.rs; Requests,
--                    Escalation and Dispatch are mod.rs; Replace, Lines, Write, Handlers and
--                    Download are write_ops.rs, over what Os says of the operating system; Reading and ReadText are text_read.rs, and
--                    ReadBinary is binary_read.rs. A write is checked by Policy, asked about by
--                    Escalation and done by Handlers; Confined puts the three together, over
--                    Permitted, Dispatched and Kept. Resolved and Printed are about paths, Edited,
--                    Replaced and Spliced about edits, Covered and ReadBinary.Whole about reads.
--   Base             Boolean tests, equality by instances, lists, maps, byte texts and sorting.
-- The Examples file of each part runs it on concrete data.
--
-- How the code is read. A method that changes its object returns the new one; an error is a value
-- of Hub.Result or of the part's own type. A lock or a concurrent map entry is held for a whole
-- step, and an interleaving is a sequence of steps. A `String` is the list of its bytes. Maps are
-- association lists whose `insert` puts the new entry first; no result depends on their order. A
-- reading of a clock is an argument, in nanoseconds where the code has `Instant`, and a call that
-- reads the clock twice takes two. `u64` and `u32` arithmetic wraps where the code computes in
-- them, and theorems about sequence numbers assume that 2^64 is not reached. Loops are structural
-- recursion. Fuel is used for the decimal digits of a number in Base.Text, where it is the number
-- itself, and for the buffer of a binary read, where it is the number of bytes that are wanted and
-- each turn reads one at least. A file system is a map from resolved paths to nodes, and the paths
-- are those of a Unix daemon.
--
-- Parameters: the encoding of an envelope, the broadcast channel of a kick, the parsing of a URL,
-- JSON values, the `{:?}` rendering of a string, the HMAC, HTTP requests and their answers, the glob
-- patterns and what they match, the resolution of a path by the operating system, its making of
-- directories and its writes with their errors, the pieces in which it hands on a file, the validity of UTF-8, and the text
-- encodings with their decoders and detector come from other packages or from the system.
--
-- Not modelled: sockets, processes and databases; the HTTP handlers; generated protocol code; the
-- device gateway; the Redis and Postgres stores; the file operations of fs_ops.rs, image and PDF
-- reads, and io_safe.rs; waiting for a semaphore's permit.
pub mod Base
mod Frames
pub mod Outbox
pub mod HubOutbox
pub mod Hub
mod Wire
pub mod Session
pub mod AppTools
pub mod Approval
pub mod Policy
pub mod Job
pub mod ControlJobs
pub mod PendingFiles
pub mod Devices
pub mod JobStore
pub mod JobRegistry
pub mod OutboxStore
pub mod Webhook
pub mod FileManager
pub mod OutputStream
pub mod JobDispatcher
