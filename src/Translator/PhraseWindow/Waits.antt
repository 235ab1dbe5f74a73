-- ===== src/Translator/PhraseWindow/Waits.antt =====
-- How long a phrase is held back.
use forum_agent.Shared.{
  ℕ, ◌+◌, ◌-◌, ◌≡◌, ◌<◌, refl, true, ◌&&◌, not, ltb, ◌==◌, none, some, List, [], ◌∷◌, any,
  if◌then◌else◌, arith, All, ap, sym, ◌∙◌, subst,
}
use forum_agent.Text.Slices.{text_eq_iff}
use forum_agent.Contracts.Transcript.{SourceSpan}
use forum_agent.Contracts.Translation.{TranslationRequested}
use forum_agent.Translator.PhraseWindow.{
  PhraseKey, same_phrase, PhraseWindow, is_complete, key_of, started_at, decide, defer, phrase_of,
  Held,
}

same_phrase_refl : (k : PhraseKey) → same_phrase k k ≡ true
unfolding same_phrase
same_phrase_refl k =
    let t = (text_eq_iff k.target_language k.target_language).1 refl in ground arith

decide_waits :
    (first : SourceSpan) (p : TranslationRequested) (now : ℕ) (w next : PhraseWindow)
    → decide first p now w ≡ (true, next)
    → (now - started_at w.pending (key_of first p) now < w.max_wait)
      × (next
          ≡ record w { pending = some (key_of first p, started_at w.pending (key_of first p) now) })
unfolding decide
decide_waits first p now w next h =
    let started = started_at w.pending (key_of first p) now in
    let combined = any (λ s. not (s.segment_id == first.segment_id)) p.source_spans in
    let wait = not combined && not (is_complete p.input_text) && ltb (now - started) w.max_wait in
    let waited : wait ≡ true = ap (λ x. x.0) h in
    let shape : record w { pending = if wait then some (key_of first p, started) else none }
        ≡ next =
      ap (λ x. x.1) h in
    (
      ground arith,
      sym shape
          ∙ ap (λ b. record w { pending = if b then some (key_of first p, started) else none })
              waited,
    )

defer_waits :
    (p : TranslationRequested) (now : ℕ) (k : PhraseKey) (w next : PhraseWindow)
    → phrase_of p ≡ some k
    → defer p now w ≡ some (true, next)
    → (now - started_at w.pending k now < w.max_wait)
      × (next ≡ record w { pending = some (k, started_at w.pending k now) })
unfolding defer decide
defer_waits p now k w next phrase h = waits p.source_spans phrase h
  where
    waits :
        (spans : List SourceSpan)
        → (elim spans [ [] ↦ none | first ∷ others ↦ some (key_of first p) ]) ≡ some k
        → (elim spans [ [] ↦ none | first ∷ others ↦ some (decide first p now w) ])
          ≡ some (true, next)
        → (now - started_at w.pending k now < w.max_wait)
          × (next ≡ record w { pending = some (k, started_at w.pending k now) })
    waits [] e g = absurd (cc g)
    waits (first ∷ others) e g =
        let key : key_of first p ≡ k = cc e in
        let d : decide first p now w ≡ (true, next) = cc g in
        subst
          (λ x.
            (now - started_at w.pending x now < w.max_wait)
            × (next ≡ record w { pending = some (x, started_at w.pending x now) }))
          key (decide_waits first p now w next d)

Held-started :
    (k : PhraseKey) (start : ℕ) (polls : List (TranslationRequested × ℕ)) (w : PhraseWindow)
    → w.pending ≡ some (k, start)
    → All (λ x. phrase_of x.0 ≡ some k) polls
    → Held w polls
    → All (λ x. x.1 < start + w.max_wait) polls
unfolding started_at
Held-started k start [] w e a h = tt
Held-started k start ((p, now) ∷ polls) w e a (next, asked, rest) =
    let (early, shape) = defer_waits p now k w next a.0 asked in
    let same : started_at w.pending k now ≡ start =
      ap (λ o. started_at o k now) e ∙ ap (λ b. if b then start else now) (same_phrase_refl k) in
    let later =
      Held-started k start polls next (ap (λ x. x.pending) shape ∙ ap (λ s. some (k, s)) same) a.1
        rest in
    (ground arith, subst (λ m. All (λ x. x.1 < start + m) polls) (ap (λ x. x.max_wait) shape) later)

-- A phrase is held back for a bounded time: when a window that holds nothing is polled for one
-- phrase and told to wait each time, every poll is less than the longest wait after the first.
pub Held-bounded :
    (k : PhraseKey) (p : TranslationRequested) (start : ℕ) (polls : List (TranslationRequested × ℕ))
    (w : PhraseWindow)
    → w.pending ≡ none
    → All (λ x. phrase_of x.0 ≡ some k) ((p, start) ∷ polls)
    → Held w ((p, start) ∷ polls)
    → All (λ x. x.1 < start + w.max_wait) polls
unfolding started_at
Held-bounded k p start polls w e a (next, asked, rest) =
    let (early, shape) = defer_waits p start k w next a.0 asked in
    let same : started_at w.pending k start ≡ start = ap (λ o. started_at o k start) e in
    subst (λ m. All (λ x. x.1 < start + m) polls) (ap (λ x. x.max_wait) shape)
      (Held-started k start polls next (ap (λ x. x.pending) shape ∙ ap (λ s. some (k, s)) same) a.1
        rest)
