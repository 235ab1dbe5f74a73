-- ===== src/Contracts/Translation/Checks.antt =====
-- What `TranslationRequested::validate` accepts.
use forum_agent.Shared.{
  ◌⊎◌, ◌∙◌, ap, sym, subst, Bool-cases, ◌+◌, ◌≤◌, ◌<◌, ◌≡◌, refl, ◌≢◌, ◌↔◌, true, false, List, [],
  ◌∷◌, ◌++◌, map, arith, ok, inl, inr, All, Result-cases, length,
}
use forum_agent.Text.{codes, Text, text_eq, join, is_blank}
use forum_agent.Text.Slices.{text_eq→eq, text_eq_iff}
use forum_agent.Contracts.{max_safe_integer}
use forum_agent.Contracts.Transcript.{SourceSpan}
use forum_agent.Contracts.Translation.{
  TranslationRequested, separator, check_spans, context_chars, validate_request,
}
use forum_agent.Contracts.Translation.Ranges.{IsRange, AllApart, check_spans-IsRange}

-- The versions and what each puts between the quotes.
abbrev pub IsGlue : Text → Text → Type 0
IsGlue version glue =
    ((version ≡ codes "identity-v1") × (glue ≡ []))
    ⊎ ((version ≡ codes "join-space-v1") × (glue ≡ codes " "))
    ⊎ ((version ≡ codes "join-newline-v1") × (glue ≡ 10 ∷ []))

separator_iff : (version glue : Text) → (separator version ≡ ok glue) ↔ IsGlue version glue
unfolding separator text_eq
separator_iff version glue = (
  λ h. elim (Bool-cases (text_eq version (codes "identity-v1"))) [
    | inl one ↦ inl (text_eq→eq _ _ one, ground arith)
    | inr not_one ↦ elim (Bool-cases (text_eq version (codes "join-space-v1"))) [
      | inl two ↦ inr (inl (text_eq→eq _ _ two, ground arith))
      | inr not_two ↦ elim (Bool-cases (text_eq version (codes "join-newline-v1"))) [
        | inl three ↦ inr (inr (text_eq→eq _ _ three, ground arith))
        | inr no_version ↦ absurd (ground arith)
      ]
    ]
  ],
  λ g. elim g [
    | inl (v, e) ↦ ap separator v ∙ ap ok (sym e)
    | inr (inl (v, e)) ↦ ap separator v ∙ ap ok (sym e)
    | inr (inr (v, e)) ↦ ap separator v ∙ ap ok (sym e)
  ],
)

length-++ : (t u : Text) → length (t ++ u) ≡ length t + length u
length-++ [] u = omega arith
length-++ (c ∷ t) u = omega (arith, length-++ t u)

-- The characters of the spans are those of their quotes in a row.
context_chars-join :
    (spans : List SourceSpan) → context_chars spans ≡ length (join [] (map (λ s. s.quote) spans))
unfolding join
context_chars-join [] = refl
context_chars-join (s ∷ []) = omega arith
context_chars-join (s ∷ t ∷ spans) =
    let rest = context_chars-join (t ∷ spans) in
    omega (arith, rest, length-++ (s.quote) (join [] (t.quote ∷ map (λ x. x.quote) spans)))

-- The documented shape of a request. `total` is the text that the quotes make with `glue` between
-- them.
pub record IsRequest (p : TranslationRequested) : Type 0 where
  pub named : p.translation_id ≢ 0
  pub attempted : 0 < p.attempt
  pub fenced : 0 < p.direction_epoch
  pub stored : p.direction_epoch ≤ max_safe_integer
  pub sourced : p.source_spans ≢ []
  pub language : is_blank p.target_language ≡ false
  pub backed : is_blank p.backend ≡ false
  pub modelled : is_blank p.model_manifest_id ≡ false
  pub glue : Text
  pub versioned : IsGlue p.normalization_version glue
  pub total : join glue (map (λ s. s.quote) p.source_spans) ≡ p.input_text
  pub worded : p.input_text ≢ []
  pub few : length p.context_spans ≤ 4
  pub short : length (join [] (map (λ s. s.quote) p.context_spans)) ≤ 720
  pub ranges : All IsRange (p.source_spans ++ p.context_spans)
  pub apart : AllApart (p.source_spans ++ p.context_spans)

IsRequest-sound : (p : TranslationRequested) → validate_request p ≡ ok tt → IsRequest p
unfolding validate_request
IsRequest-sound p h = elim (Result-cases (separator p.normalization_version)) [
  | inr (e, refused) ↦ absurd (ground arith)
  | inl (g, versioned) ↦
      let spans = p.source_spans ++ p.context_spans in
      let checked : check_spans [] spans ≡ ok tt = ground arith in
      let parts = (check_spans-IsRange spans).0 checked in
      let glued : text_eq (join g (map (λ s. s.quote) p.source_spans)) p.input_text ≡ true =
        ground arith in
      record {
        named = ground arith;
        attempted = ground arith;
        fenced = ground arith;
        stored = ground arith;
        sourced = ground arith;
        language = ground arith;
        backed = ground arith;
        modelled = ground arith;
        glue = g;
        versioned = (separator_iff _ _).0 versioned;
        total = text_eq→eq _ _ glued;
        worded = ground arith;
        few = ground arith;
        short = subst (λ n. n ≤ 720) (context_chars-join p.context_spans) (ground arith);
        ranges = parts.0;
        apart = parts.1;
      }
]

IsRequest-complete : (p : TranslationRequested) → IsRequest p → validate_request p ≡ ok tt
unfolding validate_request
IsRequest-complete p q =
    let spans = p.source_spans ++ p.context_spans in
    let checked : check_spans [] spans ≡ ok tt =
      (check_spans-IsRange spans).1 (q.ranges, q.apart) in
    let glued : text_eq (join q.glue (map (λ s. s.quote) p.source_spans)) p.input_text ≡ true =
      (text_eq_iff _ _).1 q.total in
    let short : context_chars p.context_spans ≤ 720 =
      subst (λ n. n ≤ 720) (sym (context_chars-join p.context_spans)) q.short in
    let versioned = (separator_iff _ _).1 q.versioned in
    ground (arith, checked, glued, versioned, short)

-- A request is accepted exactly where it has the documented shape: identifiers and fences set, the
-- epoch storable, the model named, at least one source, the quotes joined by nothing, a space or a
-- newline as its version says giving the nonempty input text, at most four context spans of at most
-- 720 characters, and all source and context ranges nonempty, as long as their quotes, and pairwise
-- without a byte of one revision of one segment that lies in both.
pub validate_request_iff : (p : TranslationRequested) → (validate_request p ≡ ok tt) ↔ IsRequest p
validate_request_iff p = (IsRequest-sound p, IsRequest-complete p)
