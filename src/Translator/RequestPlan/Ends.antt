-- ===== src/Translator/RequestPlan/Ends.antt =====
-- Every chunk has a byte of a source, so that the loop over the chunks of a group ends.
use forum_agent.Shared.{
  ℕ, zero, suc, ◌+◌, ◌-◌, ◌≡◌, ◌≤◌, ◌<◌, refl, ltb, true, false, not, Option, none, some, List, [],
  ◌∷◌, ◌++◌, Result, ok, err, ensure, All, all, any, arith, ap, sym, ◌∙◌, subst, inl, inr,
  Bool-cases, Option-cases, Result-cases, >>=-inversion, >>-inversion, length, length-append,
  is_some, ◌>>=◌, ◌>>◌, map_err,
}
use forum_agent.Text.{Text, utf8_len, is_blank, is_empty, trim, trim_start, trim_end}
use forum_agent.Text.Slices.{utf8_width_pos}
use forum_agent.Contracts.{Uuid, Revision}
use forum_agent.Contracts.Transcript.{SourceSpan}
use forum_agent.Translator.AttributedBuffer.{
  AttributedBuffer, AttributedText, Piece, blank_chunk, blank_source, budget_not_positive,
  chunk_end, cut_chunk, drop_back, drop_front, snapshot, sources, split_at_utf8, slice,
  take_attributed, text_of, and_source,
}
use forum_agent.Translator.AttributedBuffer.Covers.{
  IsAttributed, SourceByte, bytes_at, source_bytes, span_bytes, sliced, split_at_utf8-covers,
  Quotes,
}
use forum_agent.Translator.AttributedBuffer.Chunks.{take_attributed-kept}
use forum_agent.Translator.RequestPlan.{
  Group, Models, PlanError, TranslationWork, after_request, drain, drain_all, group_all,
  plan_requests, request_of, same_coverage, buffer_error, invalid_request,
}
use forum_agent.Contracts.Translation.{TranslationRequested, validate_request}
use forum_agent.Translator.RequestPlan.Groups.{
  AllAttributed, count, distinct, group_all-count, group_bytes, groups_bytes, work_bytes,
}

length-bytes_at : (id : Uuid) (n : Revision) (start k : ℕ) → length (bytes_at id n start k) ≡ k
length-bytes_at id n start zero = refl
length-bytes_at id n start (suc k) = omega (arith, length-bytes_at id n (start + 1) k)

not_blank_length : (t : Text) → is_blank t ≡ false → 0 < utf8_len t
unfolding is_blank trim trim_start trim_end utf8_len
not_blank_length [] h = absurd (cc h)
not_blank_length (c ∷ t) h = omega (arith, utf8_width_pos c)

abbrev IsQuoted : SourceSpan → Type 0
IsQuoted s = s.end_utf8 ≡ s.start_utf8 + utf8_len s.quote

IsQuoted-source :
    (t : Text) (o : Option SourceSpan) (spans : List SourceSpan)
    → Quotes t o
    → All IsQuoted spans
    → All IsQuoted (and_source o spans)
IsQuoted-source t none spans h all = all
IsQuoted-source t (some s) spans h all = (h.1 ∙ ap (λ x. s.start_utf8 + utf8_len x) (sym h.0), all)

IsQuoted-sources : (ps : List Piece) → IsAttributed ps → All IsQuoted (sources ps)
IsQuoted-sources [] h = tt
IsQuoted-sources (p ∷ ps) h =
    IsQuoted-source p.text p.source (sources ps) h.0 (IsQuoted-sources ps h.1)

some_bytes :
    (spans : List SourceSpan)
    → All IsQuoted spans
    → all (λ s. not (is_blank s.quote)) spans ≡ true
    → (spans ≡ [] → ⊥)
    → 0 < length (source_bytes spans)
some_bytes [] quoted words h = absurd (h refl)
some_bytes (s ∷ spans) quoted words h =
    let long = not_blank_length s.quote (ground arith) in
    let bytes =
      length-bytes_at s.segment_id s.segment_revision s.start_utf8 (s.end_utf8 - s.start_utf8) in
    omega (arith, quoted.0, long, bytes, length-append (span_bytes s) (source_bytes spans))

kept_source :
    (p : Piece) (ps : List Piece) (s : SourceSpan)
    → p.source ≡ some s
    → sources (drop_back (p ∷ ps)) ≡ []
    → ⊥
kept_source p ps s e h = elim (Bool-cases (is_empty (drop_back ps))) [
  | inl t ↦ (let k = rw (t, e, drop_back) at h in cc k)
  | inr t ↦ (let k = rw (t, e, drop_back) at h in cc k)
]

blank_nothing : is_blank [] ≡ true
unfolding is_blank trim trim_start trim_end
blank_nothing = refl

-- What is left of a slice begins with a source.
no_sources :
    (ps : List Piece) → sources (drop_back (drop_front ps)) ≡ [] → drop_back (drop_front ps) ≡ []
no_sources [] h = refl
no_sources (p ∷ ps) h = elim (Option-cases p.source) [
  | inl e ↦ rw (e, drop_front) (no_sources ps (rw (e, drop_front) at h))
  | inr (s, e) ↦
      let here : is_some p.source ≡ true = ap is_some e in
      let front : drop_front (p ∷ ps) ≡ p ∷ ps = rw here refl in
      absurd (kept_source p ps s e (sym (ap (λ x. sources (drop_back x)) front) ∙ h))
]

module _ (graphemes : Text → List Text) where
  no_head :
      (end : ℕ) (b : AttributedBuffer) (halves : AttributedBuffer × AttributedBuffer)
      → split_at_utf8 graphemes end b ≡ ok halves
      → sources halves.0.pieces ≡ []
      → text_of halves.0.pieces ≡ []
  unfolding split_at_utf8
  no_head end b halves split h =
      let (front, is_front, e1) = >>=-inversion (slice graphemes 0 end b) _ split in
      let (back, is_back, e2) =
        >>=-inversion (slice graphemes end (utf8_len (text_of b.pieces)) b) _ e1 in
      let same : (front, back) ≡ halves = cc e2 in
      let same_front = ap (λ x. x.0) same in
      let (pieces, cut, shape, mode) = sliced graphemes 0 end b front is_front in
      let left : sources (drop_back (drop_front pieces)) ≡ [] =
        sym (ap sources shape) ∙ ap (λ x. sources x.pieces) same_front ∙ h in
      sym (ap (λ x. text_of x.pieces) same_front) ∙ ap text_of (shape ∙ no_sources pieces left)

  pub chunk_bytes :
      (budget : ℕ) (b c : AttributedBuffer) (chunk : AttributedText)
      → IsAttributed b.pieces
      → take_attributed graphemes budget b ≡ ok (some chunk, c)
      → 0 < length (source_bytes chunk.source_spans)
  unfolding take_attributed cut_chunk snapshot split_at_utf8
  chunk_bytes budget b c chunk h e =
      let (positive, e1) = >>-inversion (ensure (ltb 0 budget) budget_not_positive) _ e in
      elim (Bool-cases (is_empty b.pieces)) [
        | inl t ↦ absurd (let e2 = rw t at e1 in cc e2)
        | inr t ↦
            let e2 = rw t at e1 in
            let (end, found, cut) = >>=-inversion (chunk_end graphemes budget b) _ e2 in
            let (halves, split, e3) = >>=-inversion (split_at_utf8 graphemes end b) _ cut in
            let (words, e4) =
              >>-inversion (ensure (not (is_blank (text_of halves.0.pieces))) blank_chunk) _ e3 in
            let (quotes, e5) =
              >>-inversion
                (ensure (all (λ s. not (is_blank s.quote)) (sources halves.0.pieces)) blank_source)
                _ e4 in
            let shape : snapshot halves.0 ≡ chunk = cc e5 in
            let (bytes, front, back) =
              split_at_utf8-covers graphemes end b halves.0 halves.1 h split in
            let nonempty : (sources halves.0.pieces ≡ [] → ⊥) = (λ none_left.
              let blank = ap is_blank (no_head end b halves split none_left) ∙ blank_nothing in
              let k = rw blank at words in cc k) in
            subst (λ x. 0 < length (source_bytes x.source_spans)) shape
              (some_bytes (sources halves.0.pieces) (IsQuoted-sources halves.0.pieces front)
                (ground arith) nonempty)
      ]

module _ (graphemes : Text → List Text) (fresh : ℕ → ℕ → Uuid) (models : Models) (budget : ℕ) where
  after_request_ends :
      (q : TranslationRequested) (o : Option (Result PlanError (List TranslationRequested)))
      (r : Result PlanError (List TranslationRequested))
      → o ≡ some r
      → (a : Result PlanError (List TranslationRequested)) × (after_request graphemes fresh models
            budget q o
          ≡ some a)
  after_request_ends q o r h =
      (map_err invalid_request (validate_request q) >> (r >>= λ rest. ok (q ∷ rest)), rw h refl)

  drain_ends :
      (fuel i j : ℕ) (g : Group)
      → IsAttributed g.buffer.pieces
      → length (group_bytes g) < fuel
      → (r : Result PlanError (List TranslationRequested)) × (drain graphemes fresh models budget
            fuel i j g
          ≡ some r)
  unfolding drain
  drain_ends zero i j g attributed enough = absurd (omega (arith, enough))
  drain_ends (suc fuel) i j g attributed enough =
      elim (Result-cases (take_attributed graphemes budget g.buffer)) [
        | inr (x, taken) ↦ (err (buffer_error x), rw (taken, drain) refl)
        | inl ((none, b), taken) ↦ (ok [], rw (taken, drain) refl)
        | inl ((some chunk, b), taken) ↦
            let (quotes, bytes) =
              take_attributed-kept graphemes budget g.buffer b (some chunk) attributed taken in
            let long = chunk_bytes graphemes budget g.buffer b chunk attributed taken in
            let total =
              length-append (source_bytes chunk.source_spans) (source_bytes (sources b.pieces)) in
            let (r, later) =
              drain_ends fuel i (j + 1) (record g { buffer = b }) quotes
                (omega (arith, enough, long, total, ap length bytes)) in
            let ended =
              after_request_ends (request_of graphemes fresh models budget i j g chunk)
                (drain graphemes fresh models budget fuel i (j + 1) (record g { buffer = b })) r
                later in
            (ended.0, rw (taken, drain) ended.1)
      ]

  drain_all_ends :
      (fuel i : ℕ) (gs : List Group)
      → AllAttributed gs
      → length (groups_bytes gs) < fuel
      → (r : Result PlanError (List TranslationRequested)) × (drain_all graphemes fresh models
            budget fuel i gs
          ≡ some r)
  unfolding drain_all
  drain_all_ends fuel i [] attributed enough = (ok [], refl)
  drain_all_ends fuel i (g ∷ gs) attributed enough =
      let total = length-append (group_bytes g) (groups_bytes gs) in
      let (a, first) = drain_ends fuel i 0 g attributed.0 (omega (arith, enough, total)) in
      let (b, later) = drain_all_ends fuel (i + 1) gs attributed.1 (omega (arith, enough, total)) in
      ((a >>= λ x. b >>= λ y. ok (x ++ y)), rw (first, later) refl)

count_all : (bytes : List SourceByte) → count (λ b. true) bytes ≡ length bytes
count_all [] = refl
count_all (b ∷ bytes) = omega (arith, count_all bytes)

distinct_bytes :
    (seen work : List TranslationWork)
    → length (work_bytes (distinct seen work)) ≤ length (work_bytes work)
distinct_bytes seen [] = omega arith
distinct_bytes seen (w ∷ work) =
    let total = length-append (span_bytes w.source_span) (work_bytes work) in
    elim (Bool-cases (any (λ v. same_coverage v w) seen)) [
      | inl t ↦ rw t (omega (arith, total, distinct_bytes seen work))
      | inr t ↦ rw t (
          omega (
            arith,
            total,
            distinct_bytes (w ∷ seen) work,
            length-append (span_bytes w.source_span) (work_bytes (distinct (w ∷ seen) work)),
          ))
    ]

module _ (graphemes : Text → List Text) (fresh : ℕ → ℕ → Uuid) (models : Models) (budget : ℕ) where
  -- The plan is made or fails with an error, whatever the graphemes are: the loops over the chunks
  -- end. The fuel is more than the bytes of the work.
  pub plan_requests_ends :
      (fuel : ℕ) (work : List TranslationWork)
      → length (work_bytes work) < fuel
      → (r : Result PlanError (List TranslationRequested)) × (plan_requests graphemes fresh models
            budget fuel work
          ≡ some r)
  unfolding plan_requests
  plan_requests_ends fuel work enough =
      elim (Result-cases (group_all work (record { seen = []; groups = [] }))) [
        | inr (x, failed) ↦ (err x, rw failed refl)
        | inl (s, grouped) ↦
            let (quotes, bytes) =
              group_all-count (λ b. true) work (record { seen = []; groups = [] }) s tt grouped in
            let here = count_all (groups_bytes s.groups) in
            let there = count_all (work_bytes (distinct [] work)) in
            let (r, made) =
              drain_all_ends graphemes fresh models budget fuel 0 s.groups quotes
                (omega (arith, enough, bytes, here, there, distinct_bytes [] work)) in
            (r, rw grouped made)
      ]
