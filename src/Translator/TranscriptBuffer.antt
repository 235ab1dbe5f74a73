-- ===== src/Translator/TranscriptBuffer.antt =====
-- The running transcript, desktop/node-hub/dora-qwen35-translator/src/transcript_buffer.rs. A method
-- that changes the buffer takes it and returns it, with its result where it has one. The numbers
-- of the bursts are only compared, so natural numbers stand for the `i64`.
pub mod Spoken
use forum_agent.Shared.{
  ℕ, ◌==◌, Bool, true, false, not, leb, Option, none, some, [], ◌++◌, Result, ok, err,
  if◌then◌else◌, length, ◌∷◌,
}
use forum_agent.Text.{Text, text_eq, is_empty, strip_prefix, trim}

pub record TranscriptBuffer : Type 0 where
  pub buffer : Text
  pub stable_buffer : Text
  pub active_burst_id : Option ℕ
  pub active_burst_text : Text

unfoldable pub new_buffer : TranscriptBuffer
new_buffer = record {
  buffer = [];
  stable_buffer = [];
  active_burst_id = none;
  active_burst_text = [];
}

unfoldable pub rebuild_views : TranscriptBuffer → TranscriptBuffer
rebuild_views s = record s { buffer = s.stable_buffer ++ s.active_burst_text }

unfoldable pub seal_active_burst : TranscriptBuffer → Bool × TranscriptBuffer
unfolding rebuild_views
seal_active_burst s =
    if is_empty s.active_burst_text
    then (false, rebuild_views (record s { active_burst_id = none }))
    else (
      true,
      rebuild_views (record s {
        stable_buffer = s.stable_buffer ++ s.active_burst_text;
        active_burst_text = [];
        active_burst_id = none;
      }),
    )

abbrev pub same_burst : ℕ → Option ℕ → Bool
same_burst a none = false
same_burst a (some b) = a == b

-- The three branches of the match on the active burst.
unfoldable pub take_chunk : Option ℕ → Option ℕ → Text → TranscriptBuffer → TranscriptBuffer
unfolding seal_active_burst
take_chunk none burst chunk s = record s { active_burst_id = burst; active_burst_text = chunk }
take_chunk (some active) burst chunk s =
    if same_burst active burst
    then record s { active_burst_text = chunk }
    else record ((seal_active_burst s).1) { active_burst_id = burst; active_burst_text = chunk }

unfoldable pub update_from_chunk : Option ℕ → Text → TranscriptBuffer → Bool × TranscriptBuffer
unfolding take_chunk rebuild_views
update_from_chunk burst [] s = (false, s)
update_from_chunk burst (c ∷ chunk) s =
    let s1 = rebuild_views (take_chunk s.active_burst_id burst (c ∷ chunk) s) in
    (not (text_eq s1.buffer s.buffer), s1)

abbrev drained : TranscriptBuffer → Option Text → Result Text TranscriptBuffer
drained s none = err []
drained s (some rest) = ok (rebuild_views (record s { stable_buffer = rest }))

-- The text of the error is left out.
unfoldable pub consume_stable_prefix : Text → TranscriptBuffer → Result Text TranscriptBuffer
unfolding rebuild_views
consume_stable_prefix [] s = ok s
consume_stable_prefix (c ∷ prefix) s = drained s (strip_prefix (c ∷ prefix) s.stable_buffer)

unfoldable pub has_stable_text : ℕ → TranscriptBuffer → Bool
has_stable_text min_chars s = leb min_chars (length (trim s.stable_buffer))

unfoldable pub uncommitted_tail : TranscriptBuffer → Text
uncommitted_tail s = trim s.buffer
