-- ===== src/Translator/AttributedBuffer.antt =====
-- The buffer that keeps which bytes of which source each byte of a translation's input comes from:
-- desktop/node-hub/dora-qwen35-translator/src/attributed_buffer.rs. The graphemes of a text (the
-- crate unicode_segmentation) are a parameter. A slice of a text that does not fall between two
-- characters panics.
pub mod Covers
pub mod Chunks
use forum_agent.Shared.{
  ℕ, ◌+◌, ◌-◌, ltb, leb, Bool, true, false, ◌&&◌, ◌||◌, not, ◌==◌, Option, none, some, List, [],
  ◌∷◌, ◌++◌, Result, ok, err, ensure, ok_or, any, all, keep, find, min, max, map, get_elem?, take,
  if◌then◌else◌, is_some, String, ◌>>=◌, ◌>>◌,
}
use forum_agent.Text.{
  Text, codes, utf8_len, is_blank, is_empty, is_whitespace, skip_bytes, take_bytes, get_range,
  trim_start, trim_end,
}
use forum_agent.Contracts.{Uuid, Revision}
use forum_agent.Contracts.Transcript.{SourceSpan}

pub data BufferError : Type 0 where
  invalid_coverage overlapping not_utf8_boundary divides_grapheme budget_not_positive : BufferError
  blank_chunk blank_source panicked : BufferError

pub data JoinMode : Type 0 where
  identity space newline : JoinMode

abbrev pub version : JoinMode → String
version identity = "identity-v1"
version space = "join-space-v1"
version newline = "join-newline-v1"

abbrev pub separator_of : JoinMode → Text
separator_of identity = []
separator_of space = codes " "
separator_of newline = 10 ∷ []

pub record MappingPiece : Type 0 where
  pub input_start_utf8 : ℕ
  pub input_end_utf8 : ℕ
  pub source : Option SourceSpan

pub record AttributedText : Type 0 where
  pub input_text : Text
  pub source_spans : List SourceSpan
  pub mapping : List MappingPiece
  pub normalization_version : String

pub record Piece : Type 0 where
  pub text : Text
  pub source : Option SourceSpan

pub record AttributedBuffer : Type 0 where
  pub pieces : List Piece
  pub mode : JoinMode

abbrev pub new_attributed : JoinMode → AttributedBuffer
new_attributed mode = record { pieces = []; mode = mode }

abbrev pub and_source : Option SourceSpan → List SourceSpan → List SourceSpan
and_source none spans = spans
and_source (some s) spans = s ∷ spans

abbrev pub sources : List Piece → List SourceSpan
sources [] = []
sources (p ∷ ps) = and_source p.source (sources ps)

abbrev pub overlapped : SourceSpan → SourceSpan → Bool
overlapped span p =
    p.segment_id == span.segment_id
    && p.segment_revision == span.segment_revision
    && ltb p.start_utf8 span.end_utf8
    && ltb span.start_utf8 p.end_utf8

abbrev pub joined : JoinMode → List Piece → List Piece
joined mode pieces =
    if not (is_empty pieces) && not (is_empty (separator_of mode))
    then pieces ++ (record { text = separator_of mode; source = none } ∷ [])
    else pieces

unfoldable pub append_span : SourceSpan → AttributedBuffer → Result BufferError AttributedBuffer
unfolding is_blank
append_span span b = do
  ensure
      (not (span.segment_id == 0)
        && ltb span.start_utf8 span.end_utf8
        && span.end_utf8 - span.start_utf8 == utf8_len span.quote
        && not (is_blank span.quote))
      invalid_coverage
  ensure (not (any (overlapped span) (sources b.pieces))) overlapping
  ok (record b {
    pieces = joined b.mode b.pieces ++ (record { text = span.quote; source = some span } ∷ []);
  })

abbrev pub text_of : List Piece → Text
text_of [] = []
text_of (p ∷ ps) = p.text ++ text_of ps

-- The mapping from byte `offset` on.
abbrev pub mapping_from : ℕ → List Piece → List MappingPiece
mapping_from offset [] = []
mapping_from offset (p ∷ ps) =
    record {
      input_start_utf8 = offset;
      input_end_utf8 = offset + utf8_len p.text;
      source = p.source;
    }
    ∷ mapping_from (offset + utf8_len p.text) ps

unfoldable pub snapshot : AttributedBuffer → AttributedText
snapshot b = record {
  input_text = text_of b.pieces;
  source_spans = sources b.pieces;
  mapping = mapping_from 0 b.pieces;
  normalization_version = version b.mode;
}

abbrev pub cut_source : ℕ → ℕ → Text → Option SourceSpan → Option SourceSpan
cut_source first last quoted none = none
cut_source first last quoted (some s) =
    some (record s {
      start_utf8 = s.start_utf8 + first;
      end_utf8 = s.start_utf8 + last;
      quote = quoted;
    })

-- The bytes of a piece from `first` to `last`.
unfoldable pub cut_piece : ℕ → ℕ → Piece → Result BufferError Piece
cut_piece first last p = do
  quoted ← ok_or panicked (get_range first last p.text)
  ok (record { text = quoted; source = cut_source first last quoted p.source })

abbrev pub cut_if : Bool → Result BufferError Piece → List Piece → Result BufferError (List Piece)
cut_if false cut rest = ok rest
cut_if true cut rest = do q ← cut; ok (q ∷ rest)

-- The loop of `slice`, at a piece that begins at byte `offset`.
unfoldable pub cut_pieces : ℕ → ℕ → ℕ → List Piece → Result BufferError (List Piece)
unfolding cut_piece
cut_pieces start end offset [] = ok []
cut_pieces start end offset (p ∷ ps) = do
  rest ← cut_pieces start end (offset + utf8_len p.text) ps
  let first = max start offset
  let last = min end (offset + utf8_len p.text)
  cut_if (ltb first last) (cut_piece (first - offset) (last - offset) p) rest

abbrev pub drop_front : List Piece → List Piece
drop_front [] = []
drop_front (p ∷ ps) = if is_some p.source then p ∷ ps else drop_front ps

abbrev pub drop_back : List Piece → List Piece
drop_back [] = []
drop_back (p ∷ ps) =
    let rest = drop_back ps in if is_empty rest && not (is_some p.source) then [] else p ∷ rest

abbrev pub is_char_boundary : ℕ → Text → Bool
is_char_boundary n t = is_some (skip_bytes n t)

-- `grapheme_indices`, from byte `offset` on.
abbrev pub indices : ℕ → List Text → List (ℕ × Text)
indices offset [] = []
indices offset (g ∷ gs) = (offset, g) ∷ indices (offset + utf8_len g) gs

module _ (graphemes : Text → List Text) where
  abbrev pub is_boundary : ℕ → Text → Bool
  is_boundary n t = any (λ x. x.0 == n) (indices 0 (graphemes t)) || n == utf8_len t

  unfoldable pub slice : ℕ → ℕ → AttributedBuffer → Result BufferError AttributedBuffer
  unfolding cut_pieces skip_bytes
  slice start end b = do
    ensure
        (leb start end
          && leb end (utf8_len (text_of b.pieces))
          && is_char_boundary start (text_of b.pieces)
          && is_char_boundary end (text_of b.pieces))
        not_utf8_boundary
    ensure (is_boundary start (text_of b.pieces) && is_boundary end (text_of b.pieces))
        divides_grapheme
    pieces ← cut_pieces start end 0 b.pieces
    ok (record b { pieces = drop_back (drop_front pieces) })

  unfoldable pub trim_buffer : AttributedBuffer → Result BufferError AttributedBuffer
  unfolding slice trim_start trim_end
  trim_buffer b =
      let len = utf8_len (text_of b.pieces) in
      let start = len - utf8_len (trim_start (text_of b.pieces)) in
      slice start (max (utf8_len (trim_end (text_of b.pieces))) start) b

  unfoldable pub split_at_utf8 :
      ℕ → AttributedBuffer → Result BufferError (AttributedBuffer × AttributedBuffer)
  unfolding slice
  split_at_utf8 end b = do
    head ← slice 0 end b
    tail ← slice end (utf8_len (text_of b.pieces)) b
    ok (head, tail)

abbrev pub is_ending : ℕ → Bool
is_ending c = any (λ d. d == c) (codes "。！？.!?;；\n")

abbrev pub is_space : Text → Bool
is_space g = all is_whitespace g

-- `iter().filter(…).last()`.
abbrev pub last_of {ℓ} : {A : Type ℓ} → (A → Bool) → List A → Option A
last_of test [] = none
last_of test (x ∷ xs) =
    let rest = last_of test xs in
    elim rest [ none ↦ (if test x then some x else none) | some y ↦ some y ]

abbrev pub end_of : ℕ × Text → ℕ
end_of x = x.0 + utf8_len x.1

-- The end of the last sentence within the budget, or the last blank after a word.
abbrev pub at_space : Text → ℕ → Option (ℕ × Text) → Option ℕ
at_space text end none = some end
at_space text end (some x) = elim (take_bytes x.0 text) [
  | none ↦ none
  | some before ↦ some (if is_blank before then end else x.0)
]

abbrev pub at_sentence : Text → ℕ → List (ℕ × Text) → Option ℕ
at_sentence text end few = elim (last_of (λ x. any is_ending x.1) few) [
  | some x ↦ some (end_of x)
  | none ↦ at_space text end (last_of (λ x. is_space x.1) few)
]

-- The loop over the graphemes of `text[end..]`.
abbrev pub past_spaces : ℕ → ℕ → List (ℕ × Text) → ℕ
past_spaces len end [] = end
past_spaces len end (x ∷ xs) =
    let rest = past_spaces len end xs in
    if not (is_space x.1) then end + x.0 else if end + end_of x == len then len else rest

-- The loop over the pieces: no piece is cut into blanks and a rest.
abbrev pub whole_blanks : Text → Text → ℕ → ℕ → ℕ → ℕ
whole_blanks before after offset end piece_end =
    if is_blank before && ltb 0 offset then offset else if is_blank after then piece_end else end

abbrev both_sides : ℕ → ℕ → ℕ → Option Text → Option Text → Option ℕ
both_sides offset end piece_end (some before) (some after) =
    some (whole_blanks before after offset end piece_end)
both_sides offset end piece_end none after = none
both_sides offset end piece_end (some before) none = none

abbrev pub spare_blanks : ℕ → ℕ → List Piece → Option ℕ
spare_blanks offset end [] = some end
spare_blanks offset end (p ∷ ps) =
    let rest = spare_blanks (offset + utf8_len p.text) end ps in
    if is_some p.source && ltb offset end && ltb end (offset + utf8_len p.text)
    then both_sides offset end (offset + utf8_len p.text) (take_bytes (end - offset) p.text)
        (skip_bytes (end - offset) p.text)
    else rest

module _ (graphemes : Text → List Text) where
  abbrev pub end_or : ℕ → Option (ℕ × Text) → ℕ
  end_or end none = end
  end_or end (some x) = x.0

  -- `none` where a slice panics.
  unfoldable pub within_budget : ℕ → Text → Option ℕ
  within_budget budget text =
      let all_of = indices 0 (graphemes text) in
      let end = end_or (utf8_len text) (get_elem? all_of budget) in
      if ltb end (utf8_len text)
      then elim (at_sentence text end (take budget all_of)) [
        | none ↦ none
        | some cut ↦ elim (skip_bytes cut text) [
          | none ↦ none
          | some rest ↦ some (past_spaces (utf8_len text) cut (indices 0 (graphemes rest)))
        ]
      ]
      else some end

  -- A chunk has a character that is not blank, where the text has one.
  unfoldable pub past_blanks : Text → ℕ → Option ℕ
  past_blanks text end = elim (take_bytes end text) [
    | none ↦ none
    | some before ↦
        if is_blank before
        then elim (find (λ x. not (is_space x.1)) (indices 0 (graphemes text))) [
          | none ↦ some end
          | some x ↦ some (end_of x)
        ]
        else some end
  ]

  unfoldable pub chunk_end : ℕ → AttributedBuffer → Result BufferError ℕ
  unfolding within_budget past_blanks
  chunk_end budget b = do
    cut ← ok_or panicked (within_budget budget (text_of b.pieces))
    end ← ok_or panicked (past_blanks (text_of b.pieces) cut)
    ok_or panicked (spare_blanks 0 end b.pieces)

  -- From the split on.
  unfoldable pub cut_chunk :
      ℕ → AttributedBuffer → Result BufferError (Option AttributedText × AttributedBuffer)
  unfolding split_at_utf8 snapshot
  cut_chunk end b = do
    halves ← split_at_utf8 graphemes end b
    let result = snapshot halves.0
    ensure (not (is_blank result.input_text)) blank_chunk
    ensure (all (λ s. not (is_blank s.quote)) result.source_spans) blank_source
    ok (some result, halves.1)

  unfoldable pub take_attributed :
      ℕ → AttributedBuffer → Result BufferError (Option AttributedText × AttributedBuffer)
  unfolding chunk_end cut_chunk
  take_attributed budget b = do
    ensure (ltb 0 budget) budget_not_positive
    if is_empty b.pieces then ok (none, b) else chunk_end budget b >>= λ end. cut_chunk end b
