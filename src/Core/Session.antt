-- ===== src/Core/Session.antt =====
-- Sessions, desktop/crates/forum-core/src: their catalog (`create_session` and `create_track` of
-- lib.rs), their status, its history and their transitions (reliable.rs).
pub mod Frame
use forum_agent.Shared.{
  ℕ, Bool, true, false, ◌&&◌, ◌||◌, not, Option, none, some, [], ◌∷◌, ok, err, ensure,
  if◌then◌else◌, any, find, ◌==◌, is_some, ◌>>=◌, ◌>>◌,
}
use forum_agent.Text.{Text}
use forum_agent.Contracts.{Uuid, non_blank, invalid}
use forum_agent.Contracts.Session.{
  SessionSpec, TrackSpec, SessionState, SessionState-discrete, SessionTransition, created, ready,
  recording, stopping, interrupted, permits, validate_session, validate_track,
}
use forum_agent.Contracts.Event.{Event, validate_envelope, session_changed}
use forum_agent.Core.{
  Stored, validated, entity_conflict, scope_mismatch, not_found, invalid_state,
  dependency_not_ready,
}
use forum_agent.Core.Tables.{
  changed, Body, SessionRow, SessionStatus, SegmentRow, TranscriptRecord, RoomRow, Store,
  insert_new, update_where, is_yes, SessionSpec-discrete, TrackSpec-discrete,
}
use forum_agent.Core.Ingest.{Receipt, session_row, require_session, as_body, ingest}

-- The row that `INSERT INTO sessions` makes, by the defaults of the migrations.
abbrev pub new_session : SessionSpec → SessionRow
new_session spec = record {
  spec = spec;
  state = created;
  state_seq = 0;
  direction_epoch = 1;
  targets = [];
  capture_stopped_seq = none;
  sealed_seq = none;
  incomplete = false;
  retroactive_epoch = 1;
  retroactive_targets = none;
}

-- `INSERT OR IGNORE INTO events`.
abbrev pub add_event : Uuid → Store → Store
add_event id st = if any (λ e. e == id) st.events then st else record st { events = id ∷ st.events }

-- `INSERT OR IGNORE INTO rooms`.
abbrev pub add_room : Uuid → Uuid → Store → Store
add_room id event st =
    if any (λ r. r.id == id) st.rooms
    then st
    else record st { rooms = record { id = id; event_id = event } ∷ st.rooms }

abbrev pub foreign_room : Uuid → Option RoomRow → Bool
foreign_room event none = false
foreign_room event (some r) = not (r.event_id == event)

unfoldable pub add_session : SessionSpec → Store → Option SessionRow → Stored Store
add_session spec st (some row) = do
  ensure (is_yes (SessionSpec-discrete row.spec spec)) entity_conflict
  ok st
add_session spec st none = do
  ensure (not (foreign_room spec.event_id (find (λ r. r.id == spec.room_id) st.rooms)))
      scope_mismatch
  let st1 = add_room spec.room_id spec.event_id (add_event spec.event_id st)
  ok (record st1 { sessions = new_session spec ∷ st1.sessions })

unfoldable pub create_session : SessionSpec → Store → Stored Store
unfolding add_session
create_session spec st = do
  validated (validate_session spec)
  ensure (not (any (λ id. id == spec.session_id) st.peer_sessions)) scope_mismatch
  add_session spec st (session_row spec.session_id st)

unfoldable pub add_track : TrackSpec → Store → Option TrackSpec → Stored Store
add_track spec st (some track) = do
  ensure (is_yes (TrackSpec-discrete track spec)) entity_conflict
  ok st
add_track spec st none = ok (record st { tracks = spec ∷ st.tracks })

unfoldable pub create_track : TrackSpec → Store → Stored Store
unfolding add_track
create_track spec st = do
  validated (validate_track spec)
  found ← require_session spec.session_id st
  add_track spec st (find (λ t. t.track_id == spec.track_id) st.tracks)

abbrev pub status_of : SessionRow → SessionStatus
status_of r = record {
  session_id = r.spec.session_id;
  state = r.state;
  direction_epoch = r.direction_epoch;
  target_languages = r.targets;
  capture_stopped = is_some r.capture_stopped_seq;
  transcript_sealed = is_some r.sealed_seq;
  incomplete = r.incomplete;
  state_seq = r.state_seq;
}

abbrev pub status_row : Option SessionRow → Stored SessionStatus
status_row none = err (not_found "session")
status_row (some r) = ok (status_of r)

unfoldable pub load_session_status : Uuid → Store → Stored SessionStatus
load_session_status id st = status_row (session_row id st)

abbrev pub takes_capture : SessionState → Bool
takes_capture recording = true
takes_capture stopping = true
takes_capture interrupted = true
takes_capture _ = false

unfoldable pub require_capture_state : Uuid → Store → Stored (Unit {0})
unfolding load_session_status
require_capture_state id st = do
  status ← load_session_status id st
  ensure (not status.capture_stopped && takes_capture status.state) invalid_state

-- `UPDATE sessions SET … WHERE id`.
abbrev pub update_session : Uuid → (SessionRow → SessionRow) → Store → Store
update_session id change st = record st {
  sessions = update_where (λ r. r.spec.session_id == id) change st.sessions;
}

unfoldable pub save_history : Uuid → ℕ → Store → Stored Store
unfolding load_session_status
save_history id seq st = do
  let st1 = update_session id (λ r. record r { state_seq = seq }) st
  status ← load_session_status id st1
  rows ←
      insert_new (λ h. h.session_id == id && h.store_seq == seq)
        (record { session_id = id; store_seq = seq; status = status }) st1.session_history
  ok (record st1 { session_history = rows })

-- The current revision of a segment, `none` when there is no such row.
abbrev pub current_record : SegmentRow → Store → Option TranscriptRecord
current_record s st = elim s.current_revision [
  | none ↦ none
  | some n ↦
      find (λ r. r.payload.segment_id == s.id && r.payload.revision == n) st.segment_revisions
]

abbrev pub same_state : SessionState → SessionState → Bool
same_state a b = is_yes (SessionState-discrete a b)

abbrev pub mark_incomplete : Bool → Uuid → Store → Store
mark_incomplete true id st = update_session id (λ r. record r { incomplete = true }) st
mark_incomplete false id st = st

unfoldable pub transition_work : Uuid → SessionTransition → ℕ → Store → Stored Store
unfolding load_session_status permits save_history
transition_work id p seq st = do
  status ← load_session_status id st
  ensure (same_state status.state p.expected_state && permits status.state p.next_state)
      invalid_state
  ensure (not (same_state p.next_state recording) || any (λ t. t.session_id == id) st.tracks)
      dependency_not_ready
  let st1 = update_session id (λ r. record r { state = p.next_state }) st
  save_history id seq (mark_incomplete (same_state p.next_state interrupted) id st1)

module _ (digest : Body → Text) where
  unfoldable pub transition_session : Event SessionTransition → Store → Stored (Receipt × Store)
  unfolding ingest transition_work
  transition_session e st = do
    validated (validate_envelope session_changed e)
    validated (non_blank e.payload.reason "reason")
    ingest digest (as_body changed e) (transition_work e.session_id e.payload) st
