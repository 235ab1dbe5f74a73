-- ===== src/Core/Direction.antt =====
-- Changes of direction, desktop/crates/forum-core/src: `validate_final_direction` and
-- `apply_direction_boundary` of direction.rs, `change_direction` of translation.rs.
pub mod Frame
pub mod Epochs
use forum_agent.Shared.{
  ℕ, ◌+◌, leb, ltb, Bool, true, false, ◌&&◌, ◌||◌, not, Option, none, some, List, [], ◌∷◌, map, ok,
  err, ensure, if◌then◌else◌, any, find, keep, ◌==◌, ◌>>=◌, ◌>>◌,
}
use forum_agent.Text.{Text, text_eq}
use forum_agent.Contracts.{
  Uuid, Checked, invalid, non_nil, non_blank, checked_add, u64_mod, max_safe_integer,
}
use forum_agent.Contracts.Session.{
  SessionState, TrackSpec, recording, ready, preparing, interrupted,
}
use forum_agent.Contracts.Event.{Event, validate_envelope, direction_changed}
use forum_agent.Contracts.Transcript.{TranscriptFinal, validate_targets}
use forum_agent.Contracts.Translation.{DirectionChanged, DirectionBoundary}
use forum_agent.Core.{
  Stored, validated, late_result, scope_mismatch, invalid_state, seal_mismatch, database,
}
use forum_agent.Core.Tables.{
  Body, SessionRow, TranscriptRecord, CaptureRow, Store, insert_new, update_where, direction,
}
use forum_agent.Core.Tables.Translations.{CoverageRow, CoverageState}
use forum_agent.Core.Ingest.{Receipt, session_row, as_body, ingest}
use forum_agent.Core.Session.{load_session_status, update_session, save_history}
use forum_agent.Core.Capture.{session_columns, track_of}
use forum_agent.Core.Revision.{capture_of, capture_columns, is_success, insert_coverage}
use forum_agent.Core.Translation.{update_attempts, go_stale, save_histories}

-- `Vec<String>` with `==`.
unfoldable pub texts_eq : List Text → List Text → Bool
texts_eq [] [] = true
texts_eq [] (u ∷ us) = false
texts_eq (t ∷ ts) [] = false
texts_eq (t ∷ ts) (u ∷ us) = text_eq t u && texts_eq ts us

abbrev same_targets : Option (List Text) → List Text → Bool
same_targets none ts = false
same_targets (some us) ts = texts_eq us ts

abbrev same_configuration : CaptureRow → TranscriptFinal → Option Text → Stored (Unit {0})
same_configuration c p none = ok tt
same_configuration c p (some source) =
    ensure
      (text_eq source p.configured_source_language && same_targets c.targets p.target_languages)
      scope_mismatch

unfoldable pub validate_final_direction : Uuid → TranscriptFinal → Store → Stored (Unit {0})
unfolding texts_eq
validate_final_direction session p st = do
  c ← capture_columns (capture_of p.segment_id st)
  s ← session_columns (session_row session st)
  ensure
      (p.direction_epoch == c.direction_epoch
        || ltb p.direction_epoch c.direction_epoch && c.direction_epoch == s.retroactive_epoch)
      late_result
  same_configuration c p c.configured_source_language

abbrev pub takes_boundary : SessionState → Bool
takes_boundary recording = true
takes_boundary ready = true
takes_boundary preparing = true
takes_boundary interrupted = true
takes_boundary _ = false

abbrev owns_track : Uuid → Option TrackSpec → Bool
owns_track session none = false
owns_track session (some t) = t.session_id == session

-- A capture or another boundary of the track that reaches past the sample.
unfoldable pub reaches_past : Uuid → ℕ → Store → Bool
reaches_past track sample st =
    any
      (λ c.
        ltb sample c.audio.end_sample
        && any (λ s. s.id == c.segment_id && s.track_id == track) st.segments)
      st.capture_segments
    || any (λ b. b.track_id == track && ltb sample b.start_sample) st.direction_boundaries

unfoldable pub apply_direction_boundary :
    Uuid → DirectionChanged → DirectionBoundary → ℕ → Store → Stored Store
unfolding non_nil non_blank load_session_status reaches_past
apply_direction_boundary session p b seq st = do
  validated (non_nil b.track_id "track_id")
  validated (non_blank b.configured_source_language "configured_source_language")
  validated (ensure (leb b.start_sample max_safe_integer) (invalid "start_sample"))
  status ← load_session_status session st
  ensure (not status.capture_stopped && takes_boundary status.state) invalid_state
  ensure (owns_track session (track_of b.track_id st)) scope_mismatch
  ensure (not (reaches_past b.track_id b.start_sample st)) seal_mismatch
  rows ←
      insert_new (λ r. r.session_id == session && r.direction_epoch == p.direction_epoch)
        (record {
          session_id = session;
          direction_epoch = p.direction_epoch;
          track_id = b.track_id;
          start_sample = b.start_sample;
          configured_source_language = b.configured_source_language;
          targets = p.target_languages;
          created_seq = seq;
        })
        st.direction_boundaries
  ok (record st { direction_boundaries = rows })

abbrev pub in_session : Uuid → Uuid → Store → Bool
in_session session segment st = any (λ s. s.id == segment && s.session_id == session) st.segments

-- The five `UPDATE`s of a change with no boundary.
unfoldable pub turn_session : Uuid → DirectionChanged → ℕ → Store → Store
turn_session session p seq st =
    let st1 =
      update_session session
        (λ r. record r {
          retroactive_epoch = p.direction_epoch;
          retroactive_targets = some p.target_languages;
        })
        st in
    let st2 : Store = record st1 {
      capture_segments =
          update_where (λ c. in_session session c.segment_id st)
            (λ c. record c {
              direction_epoch = p.direction_epoch;
              configured_source_language = none;
              targets = some p.target_languages;
            })
            st1.capture_segments;
      translation_coverage =
          update_where (λ r. in_session session r.segment_id st)
            (λ r. record r { state = CoverageState.stale }) st1.translation_coverage;
    } in
    update_attempts
      (λ a. any (λ t. t.id == a.translation_id && t.session_id == session) st.translations)
      (go_stale seq) st2

-- A successful text that is the current one of a segment of the session.
abbrev pub is_live : Uuid → Store → TranscriptRecord → Bool
is_live session st r =
    is_success r.payload.status
    && any
        (λ s.
          s.id == r.payload.segment_id
          && s.session_id == session
          && elim s.current_revision [ none ↦ false | some n ↦ n == r.payload.revision ])
        st.segments

abbrev pub directed : DirectionChanged → TranscriptRecord → TranscriptRecord
directed p r = record r {
  payload = record (r.payload) {
    direction_epoch = p.direction_epoch;
    target_languages = p.target_languages;
  };
}

-- The loop over the records.
unfoldable pub cover_all : DirectionChanged → List TranscriptRecord → Store → Stored Store
unfolding insert_coverage
cover_all p [] st = ok st
cover_all p (r ∷ rows) st = do st1 ← insert_coverage (directed p r) st; cover_all p rows st1

unfoldable pub settle_direction :
    Uuid → DirectionChanged → ℕ → Store → Option DirectionBoundary → Stored Store
unfolding apply_direction_boundary turn_session cover_all save_histories save_history
settle_direction session p seq st (some b) = do
  st1 ← apply_direction_boundary session p b seq st
  save_history session seq st1
settle_direction session p seq st none = do
  let st1 = turn_session session p seq st
  st2 ← cover_all p (keep (is_live session st1) st1.segment_revisions) st1
  st3 ←
      save_histories session
        (map (λ t. t.id) (keep (λ t. t.session_id == session) st2.translations)) seq st2
  save_history session seq st3

unfoldable pub direction_work : Uuid → DirectionChanged → ℕ → Store → Stored Store
unfolding load_session_status settle_direction
direction_work session p seq st = do
  status ← load_session_status session st
  ensure (status.direction_epoch == p.expected_epoch) late_result
  settle_direction session p seq
      (update_session session
        (λ r. record r { direction_epoch = p.direction_epoch; targets = p.target_languages }) st)
      p.boundary

abbrev pub i64_max : ℕ
i64_max = 9_223_372_036_854_775_807

unfoldable pub next_epoch : ℕ → ℕ → Bool
next_epoch expected epoch =
    not (epoch == 0)
    && elim (checked_add u64_mod expected 1) [ none ↦ false | some n ↦ n == epoch ]
    && leb epoch i64_max

module _ (digest : Body → Text) where
  unfoldable pub change_direction : Event DirectionChanged → Store → Stored (Receipt × Store)
  unfolding ingest direction_work next_epoch validate_targets
  change_direction e st = do
    validated (validate_envelope direction_changed e)
    validated (
        ensure (next_epoch e.payload.expected_epoch e.payload.direction_epoch)
          (invalid "direction_epoch"))
    validated (validate_targets "target_languages" [] e.payload.target_languages)
    ingest digest (as_body direction e) (direction_work e.session_id e.payload) st
