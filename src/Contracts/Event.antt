-- ===== src/Contracts/Event.antt =====
-- The event envelope: desktop/crates/forum-contracts/src/lib.rs.
use forum_agent.Shared.{ℕ, ◌≡◌, false, ok, arith, not, ◌==◌, if◌then◌else◌, err, ensure, ite, ◌>>◌}
use forum_agent.Text.{Text}
use forum_agent.Contracts.{
  Uuid, invalid, unsupported_schema, event_type_mismatch, Checked, non_nil, non_blank,
  sqlite_integer,
}

pub record Producer : Type 0 where
  pub name : Text
  pub run_id : Uuid
  pub seq : ℕ

pub data EventType : Type 0 where
  session_changed audio_gap capture_stopped producer_sealed producer_reconciled : EventType
  transcript_sealed translation_requested translation_final translation_failed : EventType
  direction_changed audio_segment_closed transcript_final transcript_revised : EventType

unfoldable pub EventType-discrete : Discrete EventType
EventType-discrete = hlevel

pub record Event {ℓ} (T : Type ℓ) : Type ℓ where
  pub schema_version : ℕ
  pub message_id : Uuid
  pub event_type : EventType
  pub event_id : Uuid
  pub room_id : Uuid
  pub session_id : Uuid
  pub producer : Producer
  pub payload : T

abbrev pub schema_version : ℕ
schema_version = 1

-- The loop over the five identifiers is written out.
validate_ids {ℓ} : {T : Type ℓ} → Event T → Checked (Unit {0})
unfolding non_nil non_blank sqlite_integer
validate_ids e = do
  non_nil e.message_id "message_id"
  non_nil e.event_id "event_id"
  non_nil e.room_id "room_id"
  non_nil e.session_id "session_id"
  non_nil e.producer.run_id "producer.run_id"
  non_blank e.producer.name "producer.name"
  ensure (not (e.producer.seq == 0)) (invalid "producer.seq")
  sqlite_integer e.producer.seq "producer.seq"

unfoldable pub validate_envelope {ℓ} : {T : Type ℓ} → EventType → Event T → Checked (Unit {0})
unfolding EventType-discrete validate_ids
validate_envelope expected e =
    if not (e.schema_version == schema_version)
    then err unsupported_schema
    else ite (EventType-discrete e.event_type expected) (validate_ids e) (err event_type_mismatch)

-- An event that was accepted has an identifier.
pub accepted_id {ℓ} :
    {T : Type ℓ} (expected : EventType) (e : Event T)
    → validate_envelope expected e ≡ ok tt
    → (e.message_id == 0) ≡ false
unfolding validate_envelope validate_ids non_nil
accepted_id expected e h = ground arith
