-- ===== src/Tests/Attributed.antt =====
-- A buffer that is filled and emptied, with the characters of a text as its graphemes.
use forum_agent.Shared.{err, true, ◌≡◌, refl, List, [], ◌∷◌, ◌++◌, ok, none, some}
use forum_agent.Text.{
  Text, codes, utf8_len, utf8_width, is_blank, is_whitespace, trim, trim_start, trim_end,
  skip_bytes, take_bytes, get_range,
}
use forum_agent.Contracts.Transcript.{SourceSpan}
use forum_agent.Translator.AttributedBuffer.{
  BufferError, is_ending, AttributedBuffer, JoinMode, append_span, chunk_end, cut_chunk, cut_piece,
  cut_pieces, past_blanks, slice, snapshot, sources, split_at_utf8, take_attributed, within_budget,
  new_attributed,
}
use forum_agent.Translator.AttributedBuffer.Covers.{
  IsAttributed, source_bytes, split_at_utf8-covers,
}
use forum_agent.Translator.AttributedBuffer.Chunks.{
  AllRead, IsComplete, Tiles, appended, started, snapshot-AllRead, taken, use_all,
  use_all-IsComplete,
}

abbrev pub characters : Text → List Text
characters [] = []
characters (c ∷ t) = (c ∷ []) ∷ characters t

abbrev pub first : SourceSpan
first = record {
  segment_id = 4;
  segment_revision = 1;
  start_utf8 = 3;
  end_utf8 = 13;
  quote = codes "Yes. It is";
}

abbrev pub second : SourceSpan
second = record {
  segment_id = 5;
  segment_revision = 1;
  start_utf8 = 0;
  end_utf8 = 6;
  quote = codes "中文";
}

abbrev filled : AttributedBuffer
filled = record {
  pieces =
      record { text = codes "Yes. It is"; source = some first }
      ∷ record { text = codes " "; source = none }
      ∷ record { text = codes "中文"; source = some second }
      ∷ [];
  mode = JoinMode.space;
}

abbrev half_filled : AttributedBuffer
half_filled = record {
  pieces = record { text = codes "Yes. It is"; source = some first } ∷ [];
  mode = JoinMode.space;
}

first_append : append_span first (new_attributed JoinMode.space) ≡ ok half_filled
unfolding append_span is_blank is_whitespace trim trim_start trim_end utf8_len utf8_width
first_append = refl

second_append : append_span second half_filled ≡ ok filled
unfolding append_span is_blank is_whitespace trim trim_start trim_end utf8_len utf8_width
second_append = refl

-- A span that it has in part already.
repeated_append :
    append_span (record first { end_utf8 = 8; quote = codes "Yes. " }) filled
    ≡ err BufferError.overlapping
unfolding append_span is_blank is_whitespace trim trim_start trim_end utf8_len utf8_width
repeated_append = refl

line_end : is_ending 10 ≡ true
line_end = refl

abbrev head : AttributedBuffer
head = record {
  pieces =
      record {
        text = codes "Yes. ";
        source = some (record first { end_utf8 = 8; quote = codes "Yes. " });
      }
      ∷ [];
  mode = JoinMode.space;
}

abbrev tail : AttributedBuffer
tail = record {
  pieces =
      record {
        text = codes "It is";
        source = some (record first { start_utf8 = 8; quote = codes "It is" });
      }
      ∷ record { text = codes " "; source = none }
      ∷ record { text = codes "中文"; source = some second }
      ∷ [];
  mode = JoinMode.space;
}

-- The first sentence, with the blank after it.
first_chunk : take_attributed characters 6 filled ≡ ok (some (snapshot head), tail)
unfolding take_attributed chunk_end cut_chunk split_at_utf8 slice cut_pieces cut_piece snapshot
    within_budget past_blanks is_blank is_whitespace trim trim_start trim_end utf8_len utf8_width
    skip_bytes take_bytes get_range
first_chunk = refl

halves : split_at_utf8 characters 5 filled ≡ ok (head, tail)
unfolding split_at_utf8 slice cut_pieces cut_piece utf8_len utf8_width skip_bytes take_bytes
    get_range
halves = refl

-- A cut within a character.
no_halves : split_at_utf8 characters 12 filled ≡ err BufferError.not_utf8_boundary
unfolding split_at_utf8 slice skip_bytes utf8_len utf8_width
no_halves = refl

filled-IsAttributed : IsAttributed filled.pieces
unfolding utf8_len utf8_width
filled-IsAttributed = ((refl, refl), (tt, ((refl, refl), tt)))

split_at_utf8-covers_example :
    (source_bytes (sources head.pieces) ++ source_bytes (sources tail.pieces)
      ≡ source_bytes (sources filled.pieces))
    × IsAttributed head.pieces
    × IsAttributed tail.pieces
split_at_utf8-covers_example =
    split_at_utf8-covers characters 5 filled head tail filled-IsAttributed halves

use_all-IsComplete_example :
    IsComplete (
      use_all characters (appended first ∷ appended second ∷ taken 6 ∷ []) (started JoinMode.space))
use_all-IsComplete_example =
    use_all-IsComplete characters JoinMode.space (appended first ∷ appended second ∷ taken 6 ∷ [])

snapshot-AllRead_example :
    Tiles 0 (utf8_len (snapshot filled).input_text) (snapshot filled).mapping
    × AllRead (snapshot filled).input_text (snapshot filled).mapping
snapshot-AllRead_example = snapshot-AllRead filled filled-IsAttributed
