-- ===== src/Runtime/Outbox.antt =====
-- The durable outbox of a producer, desktop/crates/forum-runtime/src/outbox.rs. The directory is
-- private and locked: its `.json` files are those that producers have written, under the names that
-- `append` makes. The JSON of an event is the event, which reads back as it was written; its length
-- and the call of the core are parameters. The texts of errors are left out.
pub mod Names
pub mod Kept
pub mod Delivery
pub mod Order
use forum_agent.Shared.{
  ℕ, ◌+◌, ◌-◌, ltb, leb, Bool, true, false, ◌&&◌, ◌||◌, not, ◌==◌, Option, none, some, List, [],
  ◌∷◌, Result, ok, err, ensure, ok_or, map_err, any, keep, find, length, is_ok, ◌>>=◌, ◌>>◌, String,
  if◌then◌else◌,
}
use forum_agent.Text.{Text}
use forum_agent.Contracts.{Uuid, ValidationError, checked_add, u64_mod}
use forum_agent.Contracts.Session.{SessionSpec}
use forum_agent.Contracts.Event.{Event, EventType, schema_version, validate_envelope}
use forum_agent.Runtime.Outbox.Names.{FileName, same_name, sort}

pub data OutboxError : Type 0 where
  append_poisoned capacity_exhausted sequence_exhausted event_too_large identity_collision :
      OutboxError
  write_failed io capacity_exceeded invalid_file unreadable scope_mismatch : OutboxError
  identity_mismatch : OutboxError
  invalid_envelope : ValidationError → OutboxError

abbrev pub max_rpc_bytes : ℕ
max_rpc_bytes = 1048576

-- Neither the endpoint nor the directory.
pub record RuntimeConfig : Type 0 where
  pub session : SessionSpec
  pub producer_name : Text

-- A file of the directory; `content` is what its JSON says when that has a message identifier.
pub record OutboxFile {ℓ} (T : Type ℓ) : Type ℓ where
  pub name : FileName
  pub is_regular : Bool
  pub len : ℕ
  pub content : Option (Event T)

pub record PendingEvent {ℓ} (T : Type ℓ) : Type ℓ where
  pub message_id : Uuid
  pub event : Event T
  pub path : FileName

-- With the files of its directory. Of the warning, whether there is one.
pub record DurableProducer {ℓ} (T : Type ℓ) : Type ℓ where
  pub config : RuntimeConfig
  pub run_id : Uuid
  pub sequence : ℕ
  pub append_poisoned : Bool
  pub cleanup_warning : Bool
  pub files : List (OutboxFile T)

-- What `atomic_write` does: it fails before the file has its name, after, or not.
pub data WriteOutcome : Type 0 where
  lost unsure written : WriteOutcome

-- What `remove_file` and the `sync_all` after it do.
pub data Cleanup : Type 0 where
  removed unsynced kept : Cleanup

abbrev pub Appended {ℓ} : Type ℓ → Type ℓ
Appended T = Result OutboxError (PendingEvent T) × DurableProducer T

module _ {ℓ} {T : Type ℓ} where
  abbrev pub of_session : RuntimeConfig → Event T → Bool
  of_session c e =
      not (e.message_id == 0)
      && e.session_id == c.session.session_id
      && e.event_id == c.session.event_id
      && e.room_id == c.session.room_id

  -- The body of the loop of `pending`.
  unfoldable pub check_file : RuntimeConfig → OutboxFile T → Result OutboxError (PendingEvent T)
  check_file c f = do
    ensure (f.is_regular && leb f.len max_rpc_bytes) invalid_file
    e ← ok_or unreadable f.content
    ensure (of_session c e) scope_mismatch
    ensure (f.name.message_id == e.message_id) identity_mismatch
    ok (record { message_id = e.message_id; event = e; path = f.name })

  unfoldable pub check_files :
      RuntimeConfig → List (OutboxFile T) → Result OutboxError (List (PendingEvent T))
  unfolding check_file
  check_files c [] = ok []
  check_files c (f ∷ files) = do e ← check_file c f; events ← check_files c files; ok (e ∷ events)

  -- `listed`: whether the directory could be read.
  unfoldable pub pending :
      Bool → RuntimeConfig → List (OutboxFile T) → Result OutboxError (List (PendingEvent T))
  unfolding check_files
  pending listed c files = do
    ensure listed io
    ensure (leb (length (sort (λ f. f.name) files)) 10000) capacity_exceeded
    check_files c (sort (λ f. f.name) files)

  abbrev pub new_event : DurableProducer T → ℕ → Uuid → EventType → T → Event T
  new_event p seq id event_type payload = record {
    schema_version = schema_version;
    message_id = id;
    event_type = event_type;
    event_id = p.config.session.event_id;
    room_id = p.config.session.room_id;
    session_id = p.config.session.session_id;
    producer = record { name = p.config.producer_name; run_id = p.run_id; seq = seq };
    payload = payload;
  }

  abbrev pub new_file : ℕ → Event T → OutboxFile T
  new_file len e = record {
    name = record { run_id = e.producer.run_id; seq = e.producer.seq; message_id = e.message_id };
    is_regular = true;
    len = len;
    content = some e;
  }

  -- The file of an event that can be written.
  unfoldable pub file_of :
      (Event T → ℕ) → EventType → DurableProducer T → Event T → Result OutboxError (OutboxFile T)
  unfolding validate_envelope
  file_of json_len event_type p e = do
    map_err invalid_envelope (validate_envelope event_type e)
    ensure (ltb (json_len e) (max_rpc_bytes - 4096)) event_too_large
    let file = new_file (json_len e) e
    ensure (not (any (λ f. same_name file.name f.name) p.files)) identity_collision
    ok file

  -- `append` as far as the file to write; `id` is the identifier that `Uuid::new_v4` makes.
  unfoldable pub prepare_append :
      (Event T → ℕ)
      → Bool
      → Uuid
      → EventType
      → T
      → DurableProducer T
      → Result OutboxError (OutboxFile T)
  unfolding pending file_of
  prepare_append json_len listed id event_type payload p = do
    ensure (not p.append_poisoned) append_poisoned
    events ← pending listed p.config p.files
    ensure (ltb (length events) 10000) capacity_exhausted
    seq ← ok_or sequence_exhausted (checked_add u64_mod p.sequence 1)
    file_of json_len event_type p (new_event p seq id event_type payload)

  abbrev appended_event : Option (Event T) → FileName → Result OutboxError (PendingEvent T)
  appended_event none name = err unreadable
  appended_event (some e) name = ok (record { message_id = e.message_id; event = e; path = name })

  abbrev pub write_file : WriteOutcome → OutboxFile T → DurableProducer T → Appended T
  write_file lost f p = (err write_failed, record p { append_poisoned = true })
  write_file unsure f p =
      (err write_failed, record p { append_poisoned = true; files = f ∷ p.files })
  write_file written f p =
      (appended_event f.content f.name, record p { sequence = f.name.seq; files = f ∷ p.files })

  abbrev write_prepared :
      WriteOutcome → Result OutboxError (OutboxFile T) → DurableProducer T → Appended T
  write_prepared outcome (err e) p = (err e, p)
  write_prepared outcome (ok f) p = write_file outcome f p

  unfoldable pub append :
      (Event T → ℕ) → Bool → WriteOutcome → Uuid → EventType → T → DurableProducer T → Appended T
  unfolding prepare_append
  append json_len listed outcome id event_type payload p =
      write_prepared outcome (prepare_append json_len listed id event_type payload p) p

-- Neither the message nor the cause.
pub record RpcError : Type 0 where
  pub code : String
  pub retryable : Bool

abbrev pub outbox_io : RpcError
outbox_io = record { code = "OUTBOX_IO"; retryable = false }

abbrev pub outbox_not_found : RpcError
outbox_not_found = record { code = "OUTBOX_NOT_FOUND"; retryable = false }

abbrev pub invalid_receipt : RpcError
invalid_receipt = record { code = "INVALID_RECEIPT"; retryable = true }

pub record DurableReceipt : Type 0 where
  pub message_id : Uuid
  pub store_seq : ℕ
  pub duplicate : Bool

-- A value that the core returns, read as a receipt.
abbrev pub exact_receipt : Uuid → Option DurableReceipt → Result RpcError DurableReceipt
exact_receipt id none = err invalid_receipt
exact_receipt id (some r) =
    if not (r.message_id == id) || r.store_seq == 0 then err invalid_receipt else ok r

-- What the file system does during one flush.
pub record Turn : Type 0 where
  pub listed : Bool
  pub cleanup : Cleanup

-- What a flush returns, with what it leaves of the producer and of the core.
pub record Flushed {ℓ κ μ} (T : Type ℓ) (S : Type κ) (R : Type μ) : Type (ℓ ⊔ κ ⊔ μ) where
  pub result : R
  pub producer : DurableProducer T
  pub core : S

-- What `RuntimeClient::call` returns for `ingest`, with the core that it leaves.
abbrev pub Call {ℓ κ} : Type ℓ → Type κ → Type (ℓ ⊔ κ)
Call T S = Event T → S → Result RpcError (Option DurableReceipt) × S

module _ {ℓ} {T : Type ℓ} where
  abbrev pub without : FileName → List (OutboxFile T) → List (OutboxFile T)
  without n files = keep (λ f. not (same_name n f.name)) files

  abbrev pub clean_up : Cleanup → FileName → DurableProducer T → DurableProducer T
  clean_up removed n p = record p { files = without n p.files }
  clean_up unsynced n p = record p { files = without n p.files; cleanup_warning = true }
  clean_up kept n p = record p { cleanup_warning = true }

  abbrev pub settled :
      Cleanup → FileName → Result RpcError DurableReceipt → DurableProducer T → DurableProducer T
  settled cleanup n (err e) p = p
  settled cleanup n (ok r) p = clean_up cleanup n p

  -- The event that `flush_one` sends.
  unfoldable pub queued : Bool → Uuid → DurableProducer T → Result RpcError (PendingEvent T)
  unfolding pending
  queued listed id p = do
    events ← map_err (λ e. outbox_io) (pending listed p.config p.files)
    ok_or outbox_not_found (find (λ e. e.message_id == id) events)

module _ {ℓ κ} {T : Type ℓ} {S : Type κ} (call : Call T S) where
  abbrev pub acknowledged : PendingEvent T → S → Result RpcError DurableReceipt
  acknowledged e s = do value ← (call e.event s).0; exact_receipt e.message_id value

  unfoldable pub send :
      Cleanup
      → PendingEvent T
      → DurableProducer T
      → S
      → Flushed T S (Result RpcError DurableReceipt)
  send cleanup e p s = record {
    result = acknowledged e s;
    producer = settled cleanup e.path (acknowledged e s) p;
    core = (call e.event s).1;
  }

  abbrev send_queued :
      Cleanup
      → Result RpcError (PendingEvent T)
      → DurableProducer T
      → S
      → Flushed T S (Result RpcError DurableReceipt)
  send_queued cleanup (err e) p s = record { result = err e; producer = p; core = s }
  send_queued cleanup (ok e) p s = send cleanup e p s

  unfoldable pub flush_one :
      Turn → Uuid → DurableProducer T → S → Flushed T S (Result RpcError DurableReceipt)
  unfolding queued send
  flush_one turn id p s = send_queued turn.cleanup (queued turn.listed id p) p s

  -- The receipts of a loop whose first flush was `one`: it goes on after a success.
  abbrev pub after_one :
      PendingEvent T
      → Flushed T S (Result RpcError DurableReceipt)
      → (DurableProducer T → S → Flushed T S (List (Uuid × Result RpcError DurableReceipt)))
      → Flushed T S (List (Uuid × Result RpcError DurableReceipt))
  after_one e one rest = elim (is_ok one.result) [
    | false ↦ record {
      result = (e.message_id, one.result) ∷ [];
      producer = one.producer;
      core = one.core;
    }
    | true ↦
        let last = rest one.producer one.core in
        record last { result = (e.message_id, one.result) ∷ last.result }
  ]

  -- The loop over the pending events; turn `i` is the next one.
  unfoldable pub flush_all :
      (ℕ → Turn)
      → List (PendingEvent T)
      → ℕ
      → DurableProducer T
      → S
      → Flushed T S (List (Uuid × Result RpcError DurableReceipt))
  unfolding flush_one
  flush_all turns [] i p s = record { result = []; producer = p; core = s }
  flush_all turns (e ∷ events) i p s =
      after_one e (flush_one (turns i) e.message_id p s) (flush_all turns events (i + 1))

  abbrev flush_listed :
      (ℕ → Turn)
      → Result OutboxError (List (PendingEvent T))
      → DurableProducer T
      → S
      → Flushed T S (List (Uuid × Result RpcError DurableReceipt))
  flush_listed turns (err e) p s = record {
    result = (0, err outbox_io) ∷ [];
    producer = p;
    core = s;
  }
  flush_listed turns (ok events) p s = flush_all turns events 1 p s

  -- Turn 0 is the listing that it begins with.
  unfoldable pub flush_pending :
      (ℕ → Turn)
      → DurableProducer T
      → S
      → Flushed T S (List (Uuid × Result RpcError DurableReceipt))
  unfolding pending flush_all
  flush_pending turns p s = flush_listed turns (pending (turns 0).listed p.config p.files) p s
