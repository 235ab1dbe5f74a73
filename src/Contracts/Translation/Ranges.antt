-- ===== src/Contracts/Translation/Ranges.antt =====
-- What the loop of `TranslationRequested::validate` accepts: ranges that share no byte.
use forum_agent.Shared.{
  ℕ, ◌+◌, ◌≤◌, ◌<◌, ◌≡◌, refl, ◌≢◌, ◌↔◌, false, List, [], ◌∷◌, arith, ok, inl, inr, any, All,
  All-zip, All-unzip, leb, Bool-cases, ◌∙◌, sym,
}
use forum_agent.Text.{utf8_len}
use forum_agent.Contracts.{Uuid, Revision}
use forum_agent.Contracts.Transcript.{SourceSpan}
use forum_agent.Contracts.Translation.{overlaps, check_spans}

-- The byte `n` of a revision of a segment lies in a range.
abbrev pub HasByte : SourceSpan → Uuid → Revision → ℕ → Type 0
HasByte s id revision n =
    (s.segment_id ≡ id) × (s.segment_revision ≡ revision) × (s.start_utf8 ≤ n) × (n < s.end_utf8)

-- Two ranges share no byte of any revision of any segment.
abbrev pub Apart : SourceSpan → SourceSpan → Type 0
Apart a b =
    (id : Uuid) (revision : Revision) (n : ℕ) → HasByte a id revision n → ¬ HasByte b id revision n

pub record IsRange (s : SourceSpan) : Type 0 where
  pub named : s.segment_id ≢ 0
  pub forward : s.start_utf8 < s.end_utf8
  pub measured : s.start_utf8 + utf8_len s.quote ≡ s.end_utf8

-- Each range is apart from all that follow it.
abbrev pub AllApart : List SourceSpan → Type 0
AllApart [] = Unit
AllApart (s ∷ spans) = All (λ t. Apart s t) spans × AllApart spans

overlaps-Apart : (a b : SourceSpan) → overlaps a b ≡ false → Apart a b
unfolding overlaps
overlaps-Apart a b h id revision n x y =
    let segment : a.segment_id ≡ b.segment_id = x.0 ∙ sym y.0 in
    let text : a.segment_revision ≡ b.segment_revision = x.1 ∙ sym y.1 in
    ground (arith, segment, text, x.2, y.2)

Apart-overlaps : (a b : SourceSpan) → IsRange a → IsRange b → Apart a b → overlaps a b ≡ false
unfolding overlaps
Apart-overlaps a b r s apart = elim (Bool-cases (overlaps a b)) [
  | inr clear ↦ clear
  | inl hit ↦
      let segment : a.segment_id ≡ b.segment_id = ground arith in
      let text : a.segment_revision ≡ b.segment_revision = ground arith in
      let left : a.start_utf8 < b.end_utf8 = ground arith in
      let right : b.start_utf8 < a.end_utf8 = ground arith in
      let x = r.forward in
      let y = s.forward in
      elim (Bool-cases (leb a.start_utf8 b.start_utf8)) [
        | inl first ↦ absurd (
            apart b.segment_id b.segment_revision b.start_utf8 (segment, text, ground arith, right)
              (refl, refl, omega arith, y))
        | inr later ↦ absurd (
            apart b.segment_id b.segment_revision a.start_utf8 (segment, text, omega arith, x)
              (refl, refl, ground arith, left))
      ]
]

-- As the loop tests it.
abbrev Clear : SourceSpan → SourceSpan → Type 0
Clear a b = overlaps a b ≡ false

abbrev AllClear : List SourceSpan → Type 0
AllClear [] = Unit
AllClear (s ∷ spans) = All (λ t. Clear s t) spans × AllClear spans

Clear-Apart :
    (s : SourceSpan) (spans : List SourceSpan)
    → All (λ t. Clear s t) spans
    → All (λ t. Apart s t) spans
Clear-Apart s [] h = tt
Clear-Apart s (t ∷ spans) h = (overlaps-Apart s t h.0, Clear-Apart s spans h.1)

Apart-Clear :
    (s : SourceSpan) (spans : List SourceSpan)
    → IsRange s
    → All IsRange spans
    → All (λ t. Apart s t) spans
    → All (λ t. Clear s t) spans
Apart-Clear s [] r rs h = tt
Apart-Clear s (t ∷ spans) r rs h = (Apart-overlaps s t r rs.0 h.0, Apart-Clear s spans r rs.1 h.1)

AllClear-AllApart : (spans : List SourceSpan) → AllClear spans → AllApart spans
AllClear-AllApart [] h = tt
AllClear-AllApart (s ∷ spans) h = (Clear-Apart s spans h.0, AllClear-AllApart spans h.1)

AllApart-AllClear : (spans : List SourceSpan) → All IsRange spans → AllApart spans → AllClear spans
AllApart-AllClear [] rs h = tt
AllApart-AllClear (s ∷ spans) rs h =
    (Apart-Clear s spans rs.0 rs.1 h.0, AllApart-AllClear spans rs.1 h.1)

none_overlap :
    (span : SourceSpan) (seen : List SourceSpan)
    → (any (λ s. overlaps s span) seen ≡ false) ↔ All (λ s. Clear s span) seen
none_overlap span [] = (λ h. tt, λ h. refl)
none_overlap span (s ∷ seen) = ground (arith, none_overlap span seen)

check_one :
    (seen spans : List SourceSpan) (span : SourceSpan)
    → (check_spans seen (span ∷ spans) ≡ ok tt) ↔ (
        IsRange span
        × (any (λ s. overlaps s span) seen ≡ false)
        × (check_spans (span ∷ seen) spans ≡ ok tt))
unfolding check_spans
check_one seen spans span = (ground arith, ground arith)

-- What the loop accepts, given the ranges that it already holds.
Accepted : List SourceSpan → List SourceSpan → Type 0
Accepted seen spans =
    All IsRange spans × All (λ t. All (λ s. Clear s t) seen) spans × AllClear spans

Accepted-step :
    (seen spans : List SourceSpan) (span : SourceSpan)
    → Accepted seen (span ∷ spans)
      ↔ (IsRange span × All (λ s. Clear s span) seen × Accepted (span ∷ seen) spans)
unfolding Accepted
Accepted-step seen spans span = (
  λ a. (
    a.0.0,
    a.1.0,
    (a.0.1, All-zip (Clear span) (λ t. All (λ s. Clear s t) seen) spans a.2.0 a.1.1, a.2.1),
  ),
  λ b.
      let parts = All-unzip (Clear span) (λ t. All (λ s. Clear s t) seen) spans b.2.1 in
      ((b.0, b.2.0), (b.1, parts.1), (parts.0, b.2.2)),
)

check_spans_iff :
    (seen spans : List SourceSpan) → (check_spans seen spans ≡ ok tt) ↔ Accepted seen spans
unfolding Accepted
check_spans_iff seen [] = (λ h. (tt, tt, tt), λ h. unfold check_spans in refl)
check_spans_iff seen (span ∷ spans) =
    let one = check_one seen spans span in
    let rest = check_spans_iff (span ∷ seen) spans in
    let more = Accepted-step seen spans span in
    (
      λ h. let (r, a, c) = one.0 h in more.1 (r, (none_overlap span seen).0 a, rest.0 c),
      λ h. let (r, a, c) = more.0 h in one.1 (r, (none_overlap span seen).1 a, rest.1 c),
    )

accept-All : (spans : List SourceSpan) → All (λ t. All (λ s. Clear s t) []) spans
accept-All [] = tt
accept-All (s ∷ spans) = (tt, accept-All spans)

-- The checks on all ranges of a request pass exactly where each is a range and no two share a byte.
pub check_spans-IsRange :
    (spans : List SourceSpan)
    → (check_spans [] spans ≡ ok tt) ↔ (All IsRange spans × AllApart spans)
unfolding Accepted
check_spans-IsRange spans =
    let both = check_spans_iff [] spans in
    (
      λ h. let a = both.0 h in (a.0, AllClear-AllApart spans a.2),
      λ h. both.1 (h.0, accept-All spans, AllApart-AllClear spans h.0 h.1),
    )
