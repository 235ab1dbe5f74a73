-- ===== src/Lib.antt =====
-- Verification of the parts of the Forum Agent desktop program that keep a meeting's record: what
-- was captured, transcribed and translated, under which identifiers, and in which order. The
-- program is written in Rust; the paths below start at the root of the repository.
--
-- The parts, and the files that model them.
--
--   desktop/crates/forum-contracts (Contracts): the events that the processes exchange and their
--   validation. Contracts has the errors and the checks on one field; Contracts.Session the
--   sessions, tracks, audio ranges and the lifecycle table `SessionState::permits`; Contracts.Event
--   the envelope; Contracts.Transcript captures, transcripts, revisions and `SourceSpan`;
--   Contracts.Translation the translation payloads; Contracts.Manifest `capture_manifest_sha256`
--   and `CaptureStopped`. A text (Text) is a list of Unicode scalar values with the widths of their
--   UTF-8 encodings, so that `str::len`, `str::get` and `strip_prefix` are modelled on bytes.
--
--   desktop/crates/forum-core (Core): the store, a SQLite database that only one actor writes.
--   Core.Tables has its tables as lists of rows, newest first; a transaction is a function from the
--   store to a result with the store that it commits. Core.Ingest models `register_event`,
--   `append_outbox` and the frame that every ingesting operation has around its own work:
--   register, return on a duplicate, work, append to the outbox, commit. The works are
--   `transition_work` (Core.Session, `transition_session`), `capture_work` (Core.Capture,
--   `register_capture` and `capture_direction_at`), `stop_work`, `producer_work` and `seal_work`
--   (Core.Seal, `capture_stopped`, `producer_sealed` and `seal_transcript`), `final_work` and
--   `revision_work` (Core.Transcript, `ingest_final` and `revise_transcript`), `gap_work` (Core.Gap,
--   `register_gap`), `direction_work` (Core.Direction, `change_direction`), the works of
--   `request_translation`, `finish_translation` and `fail_translation` (Core.Translation.Works), and
--   `insert_reconciliation` (Core.Reconcile, `reconcile_abandoned_producer`). Core.Session also has
--   `create_session`, `create_track`, the status and its history; Core.Revision the revisions of a
--   segment's text, Core.Coverage `coverage_piece` and `claim_span`, and Core.Artifact the
--   invalidation of artifacts by their dependencies, in analysis.rs. Core.Aside says what the
--   operations on texts leave alone. Core.Operations has the operations as one data type, and runs
--   of them in which a failing transaction changes nothing; its children state what every run keeps.
--   Core.Lifecycle has the law of a session's state and its seals.
--
--   desktop/crates/forum-runtime (Runtime): Runtime.ResourceBudget models the gate that keeps the
--   background owner of the model away from live transcription (resource_budget.rs). A mutex makes
--   each critical section one step, and the other threads are actions in any order. The waiting
--   loop of `enter_live` takes the list of its wake-ups, each with a time and what the others did
--   during the wait; a refused entry gives its claim back in a second critical section, with what
--   the others did before it as an argument.
--   Runtime.Outbox models the journal in which a producer keeps its events until the core has them
--   (outbox.rs): `append`, `pending`, `flush_one` and `flush_pending` over the files of a directory,
--   with what the file system does as a value of each call.
--
--   desktop/node-hub/dora-qwen35-translator (Translator): the buffer of the running transcript
--   (transcript_buffer.rs), the bounds of a generation (generation_control.rs), the window that joins
--   short cuts (phrase_window.rs), the buffer that attributes a translation's input to its sources
--   (attributed_buffer.rs), the plan of requests that is made with it (`plan_requests` of
--   durable_queue.rs, in Translator.RequestPlan) and the allowance of a manual recovery
--   (recovery_budget.rs), whose directory is a list of files and whose file system may fail in
--   each read and write of a call; its calls are one after another.
--
--   desktop/forum-shell: Delivery has the endpoint of a meeting that passes a producer's events to
--   the store (meeting.rs, the request `ingest`), so that the outbox and the store stand together.
--
-- How the parts meet: the works of Core are called by `ingest` and rely on nothing but what
-- `Core.Ingest.Log.Work` says of them, and the theorems on the log hold for any such work. The
-- contract's checks stand before each ingestion, as in the code.
--
-- Numbers. Identifiers (`Uuid`) are natural numbers, 0 the nil one, ordered as their hyphenated
-- texts are. Sequence numbers, samples and milliseconds are natural numbers; where the code adds
-- with `checked_add` the bound of the word is written out, and where it validates a bound of
-- SQLite's integers that bound is in the model. SQLite's own failure at 2^63 rows is not modelled.
--
-- Loops are structural: over the rows of a query, the spans of a request, or the wake-ups of a
-- wait. The work list of `invalidate_artifacts` runs on fuel, the number of the first artifacts and
-- of the rows of dependencies: an artifact is followed once, so that each row is pushed at most
-- once, and a round takes one artifact from the list. Work that is left when the fuel is gone is an
-- error of the model alone, `rounds_spent`. The loop of `plan_requests` over the chunks of a buffer
-- runs on fuel, more than the bytes of the work: every chunk has a byte of a source.
--
-- Parameters: the digests (the crates serde_json and sha2), the identifiers that `Uuid::new_v4`
-- makes, the times that `Instant::now` returns, the length of an event's JSON, what the core
-- answers to a producer, the operation that the store has for an event when Delivery passes it on,
-- and the graphemes of a text (the crate unicode_segmentation).
--
-- Not modelled: the queries that only read, the tasks and drafts of analyses with the validation of
-- artifacts, the Forum and insight tables, the import of old stores, the gateway, the rest of the
-- shell, the audio bridge, the backends of the models, the loops of the nodes and the queue of
-- durable_queue.rs that sends the plan, and everything in other languages: they are other subsystems
-- or I/O. The process and I/O code of forum-runtime, the causes that wrapped errors carry, the serde
-- attributes and the JSON text of values, of which the model keeps the value, are left out. The rows
-- of `ORDER BY start_utf8` with equal starts, which SQLite may return in any order, come newest
-- first.
pub mod Shared
pub mod Text
pub mod Contracts
pub mod Core
pub mod Runtime
pub mod Delivery
pub mod Translator
pub mod Tests
