-- ===== src/Contracts/Transcript/Spans.antt =====
-- What `SourceSpan::validate_against` accepts.
use forum_agent.Shared.{◌<◌, ◌≡◌, ◌≢◌, ◌↔◌, Option, none, some, [], arith, ok, ◌∙◌, ap, sym}
use forum_agent.Text.{Text, get_range}
use forum_agent.Text.Slices.{text_eq→eq, text_eq_refl, IsSlice, get_range_sound, get_range_complete}
use forum_agent.Contracts.Transcript.{SourceSpan, validate_against, same_quote}

-- The span names a segment, is not empty, and its quote is the text between its two offsets.
pub record Quotes (s : SourceSpan) (text : Text) : Type 0 where
  pub named : s.segment_id ≢ 0
  pub forward : s.start_utf8 < s.end_utf8
  pub quoted : s.quote ≢ []
  pub slice : IsSlice s.start_utf8 s.end_utf8 text s.quote

same_quote_sound :
    (quote : Text) (o : Option Text) (source : Text)
    → same_quote quote o ≡ ok source
    → (o ≡ some quote) × (source ≡ quote)
same_quote_sound quote none source h = cc
same_quote_sound quote (some t) source h = ground (arith, text_eq→eq t quote)

sound :
    (s : SourceSpan) (text source : Text)
    → validate_against s text ≡ ok source
    → Quotes s text × (source ≡ s.quote)
unfolding validate_against
sound s text source h =
    let (found, same) =
      same_quote_sound s.quote (get_range s.start_utf8 s.end_utf8 text) source (ground arith) in
    (
      record {
        named = ground arith;
        forward = ground arith;
        quoted = ground arith;
        slice = get_range_sound s.start_utf8 s.end_utf8 text s.quote found;
      },
      same,
    )

complete : (s : SourceSpan) (text : Text) → Quotes s text → validate_against s text ≡ ok s.quote
unfolding validate_against
complete s text q = ground (
  arith,
  get_range_complete s.start_utf8 s.end_utf8 text s.quote q.slice,
  text_eq_refl s.quote,
  q.named,
  q.forward,
  q.quoted,
)

-- A span is accepted exactly where it names a segment and its nonempty quote is the text between
-- its two byte offsets, on character boundaries; what is returned is then the quote.
pub validate_against_iff :
    (s : SourceSpan) (text source : Text)
    → (validate_against s text ≡ ok source) ↔ (Quotes s text × (source ≡ s.quote))
validate_against_iff s text source =
    (sound s text source, λ q. complete s text q.0 ∙ ap ok (sym q.1))
