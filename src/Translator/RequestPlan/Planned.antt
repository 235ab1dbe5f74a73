-- ===== src/Translator/RequestPlan/Planned.antt =====
-- The requests of a plan have the bytes of the work.
use forum_agent.Shared.{
  ℕ, zero, suc, ◌+◌, ◌≡◌, refl, Bool, none, some, List, [], ◌∷◌, ◌++◌, ok, map_err, arith, ap, sym,
  ◌∙◌, inl, inr, Option-cases, Result-cases, >>=-inversion, >>-inversion, append_assoc, ◌>>=◌, ◌>>◌,
}
use forum_agent.Text.{Text}
use forum_agent.Contracts.{Uuid}
use forum_agent.Contracts.Translation.{TranslationRequested, validate_request}
use forum_agent.Translator.AttributedBuffer.{take_attributed}
use forum_agent.Translator.AttributedBuffer.Covers.{IsAttributed, SourceByte, source_bytes}
use forum_agent.Translator.AttributedBuffer.Chunks.{take_attributed-kept, take_attributed-none}
use forum_agent.Translator.RequestPlan.{
  Group, Models, TranslationWork, drain, drain_all, group_all, invalid_request, plan_requests,
  request_of,
}
use forum_agent.Translator.RequestPlan.Groups.{
  AllAttributed, count, distinct, group_all-count, group_bytes, groups_bytes, work_bytes,
}

abbrev pub request_bytes : List TranslationRequested → List SourceByte
request_bytes [] = []
request_bytes (r ∷ rs) = source_bytes r.source_spans ++ request_bytes rs

request_bytes-append :
    (a b : List TranslationRequested) → request_bytes (a ++ b) ≡ request_bytes a ++ request_bytes b
request_bytes-append [] b = refl
request_bytes-append (r ∷ a) b =
    ap (λ x. source_bytes r.source_spans ++ x) (request_bytes-append a b)
    ∙ sym (append_assoc (source_bytes r.source_spans) (request_bytes a) (request_bytes b))

module _ (graphemes : Text → List Text) (fresh : ℕ → ℕ → Uuid) (models : Models) (budget : ℕ) where
  drain-bytes :
      (fuel i j : ℕ) (g : Group) (rs : List TranslationRequested)
      → IsAttributed g.buffer.pieces
      → drain graphemes fresh models budget fuel i j g ≡ some (ok rs)
      → request_bytes rs ≡ group_bytes g
  unfolding drain request_of
  drain-bytes zero i j g rs all e = absurd (cc e)
  drain-bytes (suc fuel) i j g rs all e =
      elim (Result-cases (take_attributed graphemes budget g.buffer)) [
        | inr (x, taken) ↦ absurd (let e1 = rw (taken, drain) at e in cc e1)
        | inl ((none, b), taken) ↦
            let e1 = rw (taken, drain) at e in
            let shape : [] ≡ rs = cc e1 in
            ap request_bytes (sym shape)
            ∙ ap source_bytes (sym (take_attributed-none graphemes budget g.buffer b taken))
        | inl ((some chunk, b), taken) ↦
            let e1 = rw (taken, drain) at e in
            let (quotes, bytes) =
              take_attributed-kept graphemes budget g.buffer b (some chunk) all taken in
            elim (Option-cases
              (drain graphemes fresh models budget fuel i (j + 1) (record g { buffer = b }))) [
                | inl missing ↦ absurd (let e2 = rw missing at e1 in cc e2)
                | inr (r, found) ↦
                    let e2 = rw found at e1 in
                    let q = request_of graphemes fresh models budget i j g chunk in
                    let e3 : (map_err invalid_request (validate_request q)
                          >> (r >>= λ requests. ok (q ∷ requests)))
                        ≡ ok rs =
                      cc e2 in
                    let (valid, e4) =
                      >>-inversion (map_err invalid_request (validate_request q)) _ e3 in
                    let (rest, is_rest, e5) = >>=-inversion r _ e4 in
                    let shape : (q ∷ rest) ≡ rs = cc e5 in
                    let later =
                      drain-bytes fuel i (j + 1) (record g { buffer = b }) rest quotes
                        (found ∙ ap some is_rest) in
                    ap request_bytes (sym shape)
                    ∙ ap (λ x. source_bytes chunk.source_spans ++ x) later
                    ∙ bytes
              ]
      ]

  drain_all-bytes :
      (fuel i : ℕ) (gs : List Group) (rs : List TranslationRequested)
      → AllAttributed gs
      → drain_all graphemes fresh models budget fuel i gs ≡ some (ok rs)
      → request_bytes rs ≡ groups_bytes gs
  unfolding drain_all
  drain_all-bytes fuel i [] rs all e = let shape : [] ≡ rs = cc e in ap request_bytes (sym shape)
  drain_all-bytes fuel i (g ∷ gs) rs all e =
      elim (Option-cases (drain graphemes fresh models budget fuel i 0 g)) [
        | inl missing ↦ absurd (let e1 = rw missing at e in cc e1)
        | inr (a, found) ↦
            elim (Option-cases (drain_all graphemes fresh models budget fuel (i + 1) gs)) [
              | inl missing ↦ absurd (let e1 = rw (found, missing) at e in cc e1)
              | inr (b, later) ↦
                  let e1 = rw (found, later) at e in
                  let e2 : (a >>= λ first. b >>= λ rest. ok (first ++ rest)) ≡ ok rs = cc e1 in
                  let (first, is_first, e3) = >>=-inversion a _ e2 in
                  let (rest, is_rest, e4) = >>=-inversion b _ e3 in
                  let shape : (first ++ rest) ≡ rs = cc e4 in
                  ap request_bytes (sym shape)
                  ∙ request_bytes-append first rest
                  ∙ ap (λ x. x ++ request_bytes rest)
                      (drain-bytes fuel i 0 g first all.0 (found ∙ ap some is_first))
                  ∙ ap (λ x. group_bytes g ++ x)
                      (drain_all-bytes fuel (i + 1) gs rest all.1 (later ∙ ap some is_rest))
            ]
      ]

  -- The requests of a plan quote each byte of the work as often as it stands in the work without
  -- its repetitions, whatever test `p` of bytes is counted: nothing is lost, requested twice or
  -- invented. The plan was made.
  pub plan_requests-count :
      (p : SourceByte → Bool) (fuel : ℕ) (work : List TranslationWork)
      (rs : List TranslationRequested)
      → plan_requests graphemes fresh models budget fuel work ≡ some (ok rs)
      → count p (request_bytes rs) ≡ count p (work_bytes (distinct [] work))
  unfolding plan_requests
  plan_requests-count p fuel work rs e =
      elim (Result-cases (group_all work (record { seen = []; groups = [] }))) [
        | inr (x, failed) ↦ absurd (let e1 = rw failed at e in cc e1)
        | inl (s, grouped) ↦
            let e1 = rw grouped at e in
            let (quotes, bytes) =
              group_all-count p work (record { seen = []; groups = [] }) s tt grouped in
            ap (count p) (drain_all-bytes fuel 0 s.groups rs quotes e1) ∙ bytes ∙ omega arith
      ]
