-- ===== src/Translator/AttributedBuffer/Chunks.antt =====
-- What any use of a buffer makes of the sources that it was given, and what a chunk maps to them.
use forum_agent.Shared.{
  ℕ, ◌+◌, ◌-◌, ◌≡◌, refl, ltb, ◌&&◌, not, ◌==◌, Option, none, some, List, [], ◌∷◌, ◌++◌, Result, ok,
  err, ensure, All, arith, ap, sym, ◌∙◌, subst, inl, inr, Bool-cases, Result-cases, >>=-inversion,
  >>-inversion, append_assoc, append-nil, any, all,
}
use forum_agent.Text.{Text, utf8_len, is_blank, is_empty, get_range}
use forum_agent.Text.Slices.{utf8_len-append, get_range_complete}
use forum_agent.Contracts.Transcript.{SourceSpan}
use forum_agent.Translator.AttributedBuffer.{
  AttributedBuffer, AttributedText, BufferError, JoinMode, MappingPiece, Piece, append_span,
  blank_chunk, blank_source, budget_not_positive, chunk_end, cut_chunk, invalid_coverage, joined,
  mapping_from, new_attributed, overlapped, overlapping, separator_of, snapshot, sources,
  split_at_utf8, take_attributed, text_of, and_source,
}
use forum_agent.Translator.AttributedBuffer.Covers.{
  nothing_in, IsAttributed, Quotes, source_bytes, span_bytes, split_at_utf8-covers,
}

pub data Use : Type 0 where
  appended : SourceSpan → Use
  taken : ℕ → Use

-- A buffer with the spans that it accepted and the spans of the chunks that it gave, in order.
pub record Uses : Type 0 where
  pub accepted : List SourceSpan
  pub emitted : List SourceSpan
  pub buffer : AttributedBuffer

abbrev pub started : JoinMode → Uses
started mode = record { accepted = []; emitted = []; buffer = new_attributed mode }

and_source-append :
    (o : Option SourceSpan) (a b : List SourceSpan) → and_source o (a ++ b) ≡ and_source o a ++ b
and_source-append none a b = refl
and_source-append (some s) a b = refl

sources-append : (ps qs : List Piece) → sources (ps ++ qs) ≡ sources ps ++ sources qs
sources-append [] qs = refl
sources-append (p ∷ ps) qs =
    ap (and_source p.source) (sources-append ps qs)
    ∙ and_source-append p.source (sources ps) (sources qs)

pub source_bytes-append :
    (a b : List SourceSpan) → source_bytes (a ++ b) ≡ source_bytes a ++ source_bytes b
source_bytes-append [] b = refl
source_bytes-append (s ∷ a) b =
    ap (λ x. span_bytes s ++ x) (source_bytes-append a b)
    ∙ sym (append_assoc (span_bytes s) (source_bytes a) (source_bytes b))

IsAttributed-append :
    (ps qs : List Piece) → IsAttributed ps → IsAttributed qs → IsAttributed (ps ++ qs)
IsAttributed-append [] qs h k = k
IsAttributed-append (p ∷ ps) qs h k = (h.0, IsAttributed-append ps qs h.1 k)

joined-kept :
    (mode : JoinMode) (ps : List Piece)
    → IsAttributed ps
    → IsAttributed (joined mode ps) × (sources (joined mode ps) ≡ sources ps)
joined-kept mode ps h =
    elim (Bool-cases (not (is_empty ps) && not (is_empty (separator_of mode)))) [
      | inl t ↦
          rw t (IsAttributed-append ps _ h (tt, tt), sources-append ps _ ∙ append-nil (sources ps))
      | inr t ↦ rw t (h, refl)
    ]

pub append_span-kept :
    (span : SourceSpan) (b c : AttributedBuffer)
    → IsAttributed b.pieces
    → append_span span b ≡ ok c
    → IsAttributed c.pieces × (sources c.pieces ≡ sources b.pieces ++ (span ∷ []))
unfolding append_span
append_span-kept span b c h e =
    let (valid, e1) =
      >>-inversion
        (ensure
          (not (span.segment_id == 0)
            && ltb span.start_utf8 span.end_utf8
            && span.end_utf8 - span.start_utf8 == utf8_len span.quote
            && not (is_blank span.quote))
          invalid_coverage)
        _ e in
    let (fresh, e2) =
      >>-inversion (ensure (not (any (overlapped span) (sources b.pieces))) overlapping) _ e1 in
    let (quotes, same) = joined-kept b.mode b.pieces h in
    let shape : joined b.mode b.pieces ++ (record { text = span.quote; source = some span } ∷ [])
        ≡ c.pieces =
      (let whole : (record b {
        pieces = joined b.mode b.pieces ++ (record { text = span.quote; source = some span } ∷ []);
      })
            ≡ c =
          cc e2 in
        ap (λ x. x.pieces) whole) in
    let length_is : span.end_utf8 ≡ span.start_utf8 + utf8_len span.quote = ground arith in
    rw (← shape) (
      IsAttributed-append (joined b.mode b.pieces) _ quotes ((refl, length_is), tt),
      sources-append (joined b.mode b.pieces) _ ∙ ap (λ x. x ++ (span ∷ [])) same,
    )

abbrev pub spans_of : Option AttributedText → List SourceSpan
spans_of none = []
spans_of (some chunk) = chunk.source_spans

abbrev pub accept : SourceSpan → Uses → Result BufferError AttributedBuffer → Uses
accept span u (err e) = u
accept span u (ok b) = record u { accepted = u.accepted ++ (span ∷ []); buffer = b }

abbrev pub emit : Uses → Result BufferError (Option AttributedText × AttributedBuffer) → Uses
emit u (err e) = u
emit u (ok r) = record u { emitted = u.emitted ++ spans_of r.0; buffer = r.1 }

-- What was given out and what is left make up what was taken in.
pub record IsComplete (u : Uses) : Type 0 where
  pub attributed : IsAttributed u.buffer.pieces
  pub complete :
      source_bytes u.emitted ++ source_bytes (sources u.buffer.pieces) ≡ source_bytes u.accepted

accept-IsComplete :
    (span : SourceSpan) (u : Uses)
    → IsComplete u
    → IsComplete (accept span u (append_span span u.buffer))
accept-IsComplete span u h = elim (Result-cases (append_span span u.buffer)) [
  | inr (x, e) ↦ subst (λ r. IsComplete (accept span u r)) (sym e) h
  | inl (b, e) ↦
      let (quotes, shape) = append_span-kept span u.buffer b h.attributed e in
      subst (λ r. IsComplete (accept span u r)) (sym e)
        (record {
          attributed = quotes;
          complete =
              ap (λ x. source_bytes u.emitted ++ source_bytes x) shape
              ∙ ap (λ x. source_bytes u.emitted ++ x)
                  (source_bytes-append (sources u.buffer.pieces) (span ∷ []))
              ∙ sym (
                  append_assoc (source_bytes u.emitted) (source_bytes (sources u.buffer.pieces))
                    (source_bytes (span ∷ [])))
              ∙ ap (λ x. x ++ source_bytes (span ∷ [])) h.complete
              ∙ sym (source_bytes-append u.accepted (span ∷ []));
        })
]

module _ (graphemes : Text → List Text) where
  cut_chunk-kept :
      (end : ℕ) (b c : AttributedBuffer) (out : Option AttributedText)
      → IsAttributed b.pieces
      → cut_chunk graphemes end b ≡ ok (out, c)
      → IsAttributed c.pieces
        × (source_bytes (spans_of out) ++ source_bytes (sources c.pieces)
            ≡ source_bytes (sources b.pieces))
  unfolding cut_chunk snapshot
  cut_chunk-kept end b c out h e =
      let (halves, split, e1) = >>=-inversion (split_at_utf8 graphemes end b) _ e in
      let (words, e2) =
        >>-inversion (ensure (not (is_blank (text_of halves.0.pieces))) blank_chunk) _ e1 in
      let (quotes, e3) =
        >>-inversion
          (ensure (all (λ s. not (is_blank s.quote)) (sources halves.0.pieces)) blank_source) _
          e2 in
      let is_out : some (snapshot halves.0) ≡ out = cc e3 in
      let is_left : halves.1 ≡ c = cc e3 in
      let (bytes, front, back) = split_at_utf8-covers graphemes end b halves.0 halves.1 h split in
      (
        subst (λ x. IsAttributed x.pieces) is_left back,
        subst
            (λ x.
              source_bytes (spans_of x) ++ source_bytes (sources c.pieces)
              ≡ source_bytes (sources b.pieces))
            is_out
            (subst
              (λ x.
                source_bytes (sources halves.0.pieces) ++ source_bytes (sources x.pieces)
                ≡ source_bytes (sources b.pieces))
              is_left bytes),
      )

  pub take_attributed-kept :
      (budget : ℕ) (b c : AttributedBuffer) (out : Option AttributedText)
      → IsAttributed b.pieces
      → take_attributed graphemes budget b ≡ ok (out, c)
      → IsAttributed c.pieces
        × (source_bytes (spans_of out) ++ source_bytes (sources c.pieces)
            ≡ source_bytes (sources b.pieces))
  unfolding take_attributed
  take_attributed-kept budget b c out h e =
      let (positive, e1) = >>-inversion (ensure (ltb 0 budget) budget_not_positive) _ e in
      elim (Bool-cases (is_empty b.pieces)) [
        | inl t ↦
            let e2 = rw t at e1 in
            let is_out : none ≡ out = cc e2 in
            let is_left : b ≡ c = cc e2 in rw (← is_out, ← is_left) (h, refl)
        | inr t ↦
            let e2 = rw t at e1 in
            let (end, found, cut) = >>=-inversion (chunk_end graphemes budget b) _ e2 in
            cut_chunk-kept end b c out h cut
      ]

  -- A buffer without a chunk has no source.
  pub take_attributed-none :
      (budget : ℕ) (b c : AttributedBuffer)
      → take_attributed graphemes budget b ≡ ok (none, c)
      → sources b.pieces ≡ []
  unfolding take_attributed cut_chunk
  take_attributed-none budget b c e =
      let (positive, e1) = >>-inversion (ensure (ltb 0 budget) budget_not_positive) _ e in
      elim (Bool-cases (is_empty b.pieces)) [
        | inl t ↦ ap sources (nothing_in b.pieces t)
        | inr t ↦
            let e2 = rw t at e1 in
            let (end, found, cut) = >>=-inversion (chunk_end graphemes budget b) _ e2 in
            let (halves, split, e3) = >>=-inversion (split_at_utf8 graphemes end b) _ cut in
            let (words, e4) =
              >>-inversion (ensure (not (is_blank (snapshot halves.0).input_text)) blank_chunk) _
                e3 in
            let (quotes, e5) =
              >>-inversion
                (ensure (all (λ s. not (is_blank s.quote)) (snapshot halves.0).source_spans)
                  blank_source)
                _ e4 in
            absurd (cc e5)
      ]

  abbrev pub use_one : Use → Uses → Uses
  use_one (appended span) u = accept span u (append_span span u.buffer)
  use_one (taken budget) u = emit u (take_attributed graphemes budget u.buffer)

  abbrev pub use_all : List Use → Uses → Uses
  use_all [] u = u
  use_all (x ∷ xs) u = use_all xs (use_one x u)

  emit-IsComplete :
      (budget : ℕ) (u : Uses)
      → IsComplete u
      → IsComplete (emit u (take_attributed graphemes budget u.buffer))
  emit-IsComplete budget u h = elim (Result-cases (take_attributed graphemes budget u.buffer)) [
    | inr (x, e) ↦ subst (λ r. IsComplete (emit u r)) (sym e) h
    | inl ((out, c), e) ↦
        let (quotes, bytes) = take_attributed-kept budget u.buffer c out h.attributed e in
        subst (λ r. IsComplete (emit u r)) (sym e)
          (record {
            attributed = quotes;
            complete =
                ap (λ x. x ++ source_bytes (sources c.pieces))
                  (source_bytes-append u.emitted (spans_of out))
                ∙ append_assoc (source_bytes u.emitted) (source_bytes (spans_of out))
                    (source_bytes (sources c.pieces))
                ∙ ap (λ x. source_bytes u.emitted ++ x) bytes
                ∙ h.complete;
          })
  ]

  use_all-kept : (uses : List Use) (u : Uses) → IsComplete u → IsComplete (use_all uses u)
  use_all-kept [] u h = h
  use_all-kept (appended span ∷ uses) u h = use_all-kept uses _ (accept-IsComplete span u h)
  use_all-kept (taken budget ∷ uses) u h = use_all-kept uses _ (emit-IsComplete budget u h)

  -- Whatever spans are appended to a new buffer and whatever chunks are taken from it, in any order:
  -- the bytes of the sources of the chunks, and then those that are left in the buffer, are the bytes
  -- of the spans that were accepted, each once and in order. An operation that fails changes nothing.
  pub use_all-IsComplete :
      (mode : JoinMode) (uses : List Use) → IsComplete (use_all uses (started mode))
  use_all-IsComplete mode uses =
      use_all-kept uses (started mode) (record { attributed = tt; complete = refl })

-- The mapping goes from byte `from` to byte `to` without a gap.
abbrev pub Tiles : ℕ → ℕ → List MappingPiece → Type 0
Tiles from to [] = from ≡ to
Tiles from to (m ∷ ms) = (m.input_start_utf8 ≡ from) × Tiles m.input_end_utf8 to ms

-- A part of the text that has a source reads as its quote.
abbrev pub Reads : Text → ℕ → ℕ → Option SourceSpan → Type 0
Reads text start end none = Unit
Reads text start end (some s) = get_range start end text ≡ some s.quote

abbrev pub AllRead : Text → List MappingPiece → Type 0
AllRead text ms = All (λ m. Reads text m.input_start_utf8 m.input_end_utf8 m.source) ms

mapping_from-Tiles :
    (from : ℕ) (ps : List Piece) → Tiles from (from + utf8_len (text_of ps)) (mapping_from from ps)
unfolding utf8_len
mapping_from-Tiles from [] = omega arith
mapping_from-Tiles from (p ∷ ps) =
    let e : from + utf8_len (p.text ++ text_of ps)
        ≡ from + utf8_len p.text + utf8_len (text_of ps) =
      omega (arith, utf8_len-append p.text (text_of ps)) in
    (refl, rw e (mapping_from-Tiles (from + utf8_len p.text) ps))

piece-Reads :
    (before t after : Text) (o : Option SourceSpan) (start end : ℕ)
    → utf8_len before ≡ start
    → start + utf8_len t ≡ end
    → Quotes t o
    → Reads (before ++ (t ++ after)) start end o
piece-Reads before t after none start end e f h = tt
piece-Reads before t after (some s) start end e f h = rw h.0 (
    get_range_complete start end (before ++ (t ++ after)) t
      (record { before = before; after = after; shape = refl; starts = e; ends = f }))

mapping_from-AllRead :
    (before : Text) (ps : List Piece)
    → IsAttributed ps
    → AllRead (before ++ text_of ps) (mapping_from (utf8_len before) ps)
mapping_from-AllRead before [] h = tt
mapping_from-AllRead before (p ∷ ps) h =
    let further = mapping_from-AllRead (before ++ p.text) ps h.1 in
    let there = utf8_len-append before p.text in
    (
      piece-Reads before p.text (text_of ps) p.source (utf8_len before)
          (utf8_len before + utf8_len p.text) refl refl h.0,
      subst (λ x. AllRead x (mapping_from (utf8_len before + utf8_len p.text) ps))
          (append_assoc before p.text (text_of ps))
          (subst (λ n. AllRead ((before ++ p.text) ++ text_of ps) (mapping_from n ps)) there
            further),
    )

-- The mapping of a snapshot covers its text from end to end, and every part of the text that is
-- mapped to a source is what that source's span quotes. The spans of the buffer quote their pieces.
pub snapshot-AllRead :
    (b : AttributedBuffer)
    → IsAttributed b.pieces
    → Tiles 0 (utf8_len (snapshot b).input_text) (snapshot b).mapping
      × AllRead (snapshot b).input_text (snapshot b).mapping
unfolding snapshot utf8_len
snapshot-AllRead b h =
    let zero_more : 0 + utf8_len (text_of b.pieces) ≡ utf8_len (text_of b.pieces) = omega arith in
    (
      subst (λ n. Tiles 0 n (mapping_from 0 b.pieces)) zero_more (mapping_from-Tiles 0 b.pieces),
      mapping_from-AllRead [] b.pieces h,
    )
