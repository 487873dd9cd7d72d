-- ===== src/Lib.antt =====
-- A model of the core of the ferris agent bridge: the runtime that takes messages from chat platforms,
-- batches them into agent runs and delivers the answers. It is the code under `src/runtime/`.
--
-- The program's parts and the files that model them:
--
--   Ids        the ids of `src/runtime/session.rs`: which texts are ids, and the hexadecimal encoding of
--              the parts of a derived id (`encode_canonical_component`, also in `src/runtime/event.rs`).
--   Session    `src/runtime/session.rs`: `SessionId`, `SessionScope`, `Session`.
--   Message    `src/runtime/message.rs`: authors, content and messages.
--   Event      `src/runtime/event.rs`: event ids, events and the records of the inbound ledger.
--   Run        `src/runtime/run.rs`: `RunRecord` and its transitions `start`, `interrupt`, `complete`,
--              `complete_with_output_deliveries`, `fail`, `cancel`; `validate`; `is_descendant_of`.
--   Outbox     `src/runtime/outbox.rs`: `OutboundDeliveryRecord`, its transitions and `validate`.
--              Outbox/Retry is `src/runtime/outbox/retry.rs`.
--   Queue      `src/runtime/queue.rs`: queued messages, run inputs and `MessageQueuePolicy::poll_where`.
--   State      `src/runtime/state/model.rs`: `RuntimeState` with its operations on sessions and runs.
--              State/Inbound is the ledger of events and the queue, State/Batches the claim of a batch,
--              State/Deliveries the deliveries, State/Startup the recovery after a crash (with
--              `src/runtime/outbox/recovery.rs`), State/Validate the check of a whole state,
--              State/Merge the merge with the state on disk (`preserve_*_from`), and State/Parts a
--              state from the parts of a file.
--   Format     `src/runtime/state/format/`: the state file, what each version of it holds
--              (Format/Versioned), and how it is read and written (Format/Current).
--   Store      `src/runtime/state/store/`: load, save and write, with what an atomic write of
--              `src/runtime/persistence.rs` leaves of the file. Store/Deliveries, Store/Messages and
--              Store/Runs are the operations; Store/Calls has them as values.
--   Adapter    `src/adapter.rs`: the adapter of a messaging platform, and what it exchanges.
--   Worker     `src/runtime/outbox/worker.rs`: one round of the outbox worker.
--   Orchestrator `src/runtime/orchestrator.rs`: an inbound event is persisted, then acknowledged.
--
-- The parts meet in `RuntimeState`: an event is recorded in the ledger and its message is queued, a poll
-- of the queue picks a batch of an idle session, the claim of the batch adds a run with its input, and
-- the outputs of the run become deliveries, which a worker begins and resolves. The store loads the
-- state from its file, runs one operation on it and writes it back.
--
-- How the code corresponds to the model:
--
--   * A method that takes `&mut self` is a function that returns the next value. `Err` of the source is
--     `err` of `Result`, with a constructor of the module's `Error` in place of the formatted text. An
--     error carries no next value; in the source the checks of a method come before its first write,
--     except in the two loops of startup recovery.
--   * Text is the list of its UTF-8 bytes, on which `str` compares and encodes. `trim().is_empty()` is a
--     scan of the encoded white-space characters.
--   * u64 and u32 are natural numbers, with `saturating_add`, `saturating_mul`, `saturating_sub`,
--     `checked_shl` and `checked_add` written out at their bounds. Only additions and products can
--     leave the range, and the code writes each of them with a saturating or checked operation.
--   * The clock (`unix_seconds_now`) is an argument `now`.
--   * The disk is the content of the state file, if there is one. An operation of the store takes the
--     disk and an `Env`, what the operating system does in it: which reads fail, and at which step
--     the write fails. It returns the disk after it. The lock of the store puts the operations of a
--     process in an order, so a history is a list of them; a poisoned lock is a case of `Env`.
--   * `serde_json` is the record `SerdeJson` of functions, and an adapter is the record `ImAdapter`.
--     That `serde_json` reads what it writes is the hypothesis `IsFaithful` of the theorems that
--     need it. An id is a text and a time a natural number in the model; that an id is spelled as
--     its constructor demands and that a time fits a u64, which the constructors and types of the
--     source see to, belongs to that parameter.
--   * A panic of `expect` is an error value; the comments at these places say so. The two
--     `debug_assert_eq!` of `Session::refresh_from`, which only a debug build checks, are not in the
--     model of that function; State/Sessions is about them.
--   * A decimal index is printed on fuel 20, the digits of a 64-bit usize.
--   * `RuntimeState::validate` goes through the owners of outputs in the order of the runs, and not of
--     the delivery ids: of several errors of that loop another one may come first.
--   * A length in hexadecimal (`{:x}`) is printed on fuel 16, the digits of a 64-bit usize: the length
--     of a text in memory is below 2 ^ 64, and each digit divides it by 16.
--   * The sets that the source builds to find duplicates are lists of what was seen. The ordered map of
--     `poll_where` is a list of groups in the order of their first message; the choice compares the
--     ready time and then the session id, so it does not read that order.
--
-- The proofs stand in child modules named for what they show: Run/Valid, Run/Descent, Outbox/Valid,
-- Outbox/Life, Outbox/Answers, Outbox/Backoff, Queue/Grouping, Queue/Choice, Queue/Scan, Queue/Poll,
-- Session/Identity, Event/Ledger, Ids/Encoding, State/Sessions, State/RunInvariant,
-- State/DeliveryInvariant, State/Outputs, State/Completion, State/Frames, State/Steps (the operations
-- as steps of a machine), State/Invariant, State/Idempotence, State/RecoveredRuns, State/Recovery,
-- State/DeliveryRecovery, State/ValidRuns, State/ValidMessages, State/Consistent, State/MergeRuns,
-- Format/Fields, Format/Early and Format/Versions (the versions), Format/Records and Format/RoundTrip,
-- Store/Safety, Store/Merging, Store/Kept, Store/Save, Store/Transact, Store/Marks, Store/Replay,
-- Worker/Recorded, Worker/Ending, Worker/Handoff and Orchestrator/Acknowledged. Base holds the shared
-- helpers: results, tests, searches in lists, equality with its instances, distinct keys and text.
-- Tests runs the model on the records of a small bridge.
--
-- Not modelled: the locks of the store (`src/runtime/state/store/locking.rs`); the agent adapter
-- (`src/adapter/agent.rs`); the policies (`src/runtime/policy/`); configuration, errors, logging, and
-- the daemon with its processes and files, which are input and output. The temporary file of an atomic
-- write does not show in the disk. Startup recovery is a function of the model but no step of State/Steps.
pub mod Base
pub mod Ids
pub mod Session
pub mod Message
pub mod Event
pub mod Run
pub mod Outbox
pub mod Queue
pub mod State
pub mod Format
pub mod Store
pub mod Adapter
pub mod Worker
pub mod Orchestrator
pub mod Tests
