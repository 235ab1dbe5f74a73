-- ===== src/Contracts/Session.antt =====
-- Sessions, tracks and audio ranges: desktop/crates/forum-contracts/src/lib.rs and reliable.rs.
use forum_agent.Shared.{
  ℕ, Bool, true, false, ◌&&◌, ◌||◌, not, leb, ltb, ◌==◌, if◌then◌else◌, err, ensure, ◌>>◌,
}
use forum_agent.Text.{Text}
use forum_agent.Contracts.{Uuid, invalid, Checked, non_nil, non_blank, sqlite_integer}

pub record SessionSpec : Type 0 where
  pub session_id : Uuid
  pub event_id : Uuid
  pub room_id : Uuid
  pub owner_device_id : Uuid
  pub title : Text

unfoldable pub validate_session : SessionSpec → Checked (Unit {0})
unfolding non_nil non_blank
validate_session s = do
  non_nil s.session_id "session_id"
  non_nil s.event_id "event_id"
  non_nil s.room_id "room_id"
  non_nil s.owner_device_id "owner_device_id"
  non_blank s.title "title"

pub data TrackKind : Type 0 where
  mic system room_mix replay legacy_import : TrackKind

pub record TrackSpec : Type 0 where
  pub track_id : Uuid
  pub session_id : Uuid
  pub kind : TrackKind
  pub sample_rate : ℕ

unfoldable pub validate_track : TrackSpec → Checked (Unit {0})
unfolding non_nil
validate_track t = do
  non_nil t.track_id "track_id"
  non_nil t.session_id "session_id"
  ensure (not (t.sample_rate == 0)) (invalid "sample_rate")

pub record AudioRange : Type 0 where
  pub start_sample : ℕ
  pub end_sample : ℕ
  pub sample_rate : ℕ
  pub start_ms : ℕ
  pub end_ms : ℕ

-- The loop over the four bounds is written out.
unfoldable pub validate_audio : AudioRange → Checked (Unit {0})
unfolding sqlite_integer
validate_audio a =
    if a.sample_rate == 0 || leb a.end_sample a.start_sample || ltb a.end_ms a.start_ms
    then err (invalid "audio_range")
    else (do
      sqlite_integer a.start_sample "start_sample"
      sqlite_integer a.end_sample "end_sample"
      sqlite_integer a.start_ms "start_ms"
      sqlite_integer a.end_ms "end_ms")

pub data SessionState : Type 0 where
  created preparing ready recording stopping draining completed interrupted : SessionState

unfoldable pub SessionState-discrete : Discrete SessionState
SessionState-discrete = hlevel

abbrev pub advances : SessionState → SessionState → Bool
advances created preparing = true
advances preparing ready = true
advances ready recording = true
advances recording stopping = true
advances _ _ = false

abbrev is_interrupted : SessionState → Bool
is_interrupted interrupted = true
is_interrupted _ = false

abbrev pub is_final : SessionState → Bool
is_final completed = true
is_final interrupted = true
is_final _ = false

unfoldable pub permits : SessionState → SessionState → Bool
permits s next = advances s next || is_interrupted next && not (is_final s)

pub record SessionTransition : Type 0 where
  pub expected_state : SessionState
  pub next_state : SessionState
  pub reason : Text

pub record AudioGap : Type 0 where
  pub gap_id : Uuid
  pub track_id : Uuid
  pub audio : AudioRange
  pub reason : Text
  pub recoverable : Bool

unfoldable pub validate_gap : AudioGap → Checked (Unit {0})
unfolding non_nil non_blank validate_audio
validate_gap g = do
  non_nil g.gap_id "gap_id"
  non_nil g.track_id "track_id"
  validate_audio g.audio
  non_blank g.reason "reason"
