-- ===== src/Translator/TranscriptBuffer/Spoken.antt =====
-- No text is lost or repeated between the chunks that are heard and the text that is taken.
use forum_agent.Shared.{
  ℕ, ◌==◌, ◌≡◌, refl, Bool, true, false, Option, none, some, List, [], ◌∷◌, ◌++◌, append-nil,
  append_assoc, Result, ok, err, arith, ap, sym, ◌∙◌, Bool-cases, inl, inr, Option-cases,
}
use forum_agent.Text.{Text, strip_prefix}
use forum_agent.Translator.TranscriptBuffer.{
  TranscriptBuffer, new_buffer, rebuild_views, seal_active_burst, same_burst, take_chunk,
  update_from_chunk, consume_stable_prefix,
}

pub data Step : Type 0 where
  hear : Option ℕ → Text → Step
  seal : Step
  consume : Text → Step

-- What has been consumed, and the buffer.
abbrev pub State : Type 0
State = Text × TranscriptBuffer

abbrev consumed : Text → State → Result Text TranscriptBuffer → State
consumed prefix (taken, s) (ok s') = (taken ++ prefix, s')
consumed prefix (taken, s) (err e) = (taken, s)

abbrev pub step : Step → State → State
step (hear burst chunk) (taken, s) = (taken, (update_from_chunk burst chunk s).1)
step seal (taken, s) = (taken, (seal_active_burst s).1)
step (consume prefix) (taken, s) = consumed prefix (taken, s) (consume_stable_prefix prefix s)

abbrev pub steps : List Step → State → State
steps [] st = st
steps (x ∷ xs) st = steps xs (step x st)

-- A chunk is a newer hearing of the burst before it, or follows text of no burst.
abbrev renews : Option ℕ → Option ℕ → Bool
renews none next = true
renews (some burst) next = same_burst burst next

-- Whether the next chunk, before any seal, takes the place of a chunk of this burst.
abbrev pub is_renewed : Option ℕ → List Step → Bool
is_renewed burst [] = false
is_renewed burst (hear next [] ∷ xs) = is_renewed burst xs
is_renewed burst (hear next (c ∷ chunk) ∷ xs) = renews burst next
is_renewed burst (seal ∷ xs) = false
is_renewed burst (consume prefix ∷ xs) = is_renewed burst xs

abbrev unless : Bool → Text → Text
unless true t = []
unless false t = t

-- The text of a hearing: each burst in its newest chunk, in order.
abbrev pub spoken : List Step → Text
spoken [] = []
spoken (hear burst [] ∷ xs) = spoken xs
spoken (hear burst (c ∷ chunk) ∷ xs) = unless (is_renewed burst xs) (c ∷ chunk) ++ spoken xs
spoken (seal ∷ xs) = spoken xs
spoken (consume prefix ∷ xs) = spoken xs

abbrev IsBuffer : TranscriptBuffer → Type 0
IsBuffer s = s.buffer ≡ s.stable_buffer ++ s.active_burst_text

-- What a state will have given out: what is consumed, what is stable, the active text unless it is
-- renewed, and what is still to be heard.
abbrev total : State → List Step → Text
total (taken, s) xs =
    taken
    ++ (s.stable_buffer
        ++ (unless (is_renewed s.active_burst_id xs) s.active_burst_text ++ spoken xs))

strip_prefix_sound : (p t u : Text) → strip_prefix p t ≡ some u → t ≡ p ++ u
unfolding strip_prefix
strip_prefix_sound [] t u h = cc h
strip_prefix_sound (c ∷ p) [] u h = absurd (cc h)
strip_prefix_sound (c ∷ p) (d ∷ t) u h = elim (Bool-cases (c == d)) [
  | inl same ↦
      let e : c ≡ d = ground arith in
      let rest = strip_prefix_sound p t u (ground arith) in
      ap (λ x. d ∷ x) rest ∙ ap (λ x. x ∷ (p ++ u)) (sym e)
  | inr other ↦ absurd (ground arith)
]

unless_nil : (b : Bool) → unless b [] ≡ []
unless_nil true = refl
unless_nil false = refl

-- Sealing moves the active text behind the stable text.
seal_text :
    (s : TranscriptBuffer)
    → ((seal_active_burst s).1.stable_buffer ≡ s.stable_buffer ++ s.active_burst_text)
      × ((seal_active_burst s).1.active_burst_text ≡ [])
      × IsBuffer ((seal_active_burst s).1)
unfolding seal_active_burst rebuild_views
seal_text s = sealed s.buffer s.stable_buffer s.active_burst_id s.active_burst_text
  where
    sealed :
        (b st : Text) (id : Option ℕ) (t : Text)
        → ((seal_active_burst (record {
          buffer = b;
          stable_buffer = st;
          active_burst_id = id;
          active_burst_text = t;
        })).1.stable_buffer
            ≡ st ++ t)
          × ((seal_active_burst (record {
            buffer = b;
            stable_buffer = st;
            active_burst_id = id;
            active_burst_text = t;
          })).1.active_burst_text
              ≡ [])
          × IsBuffer (
              (seal_active_burst (record {
                buffer = b;
                stable_buffer = st;
                active_burst_id = id;
                active_burst_text = t;
              })).1)
    sealed b st id [] = (sym (append-nil st), refl, refl)
    sealed b st id (c ∷ t) = (refl, refl, refl)

same_burst-some : (a : ℕ) (o : Option ℕ) → same_burst a o ≡ true → some a ≡ o
same_burst-some a none h = absurd (ground arith)
same_burst-some a (some b) h = ground arith

hear_total :
    (taken : Text) (s : TranscriptBuffer) (burst : Option ℕ) (chunk : Text) (xs : List Step)
    → total (step (hear burst chunk) (taken, s)) xs ≡ total (taken, s) (hear burst chunk ∷ xs)
unfolding update_from_chunk rebuild_views take_chunk
hear_total taken s burst [] xs = refl
hear_total taken s burst (c ∷ chunk) xs = heard s.active_burst_id refl
  where
    heard :
        (id : Option ℕ)
        → s.active_burst_id ≡ id
        → total (taken, rebuild_views (take_chunk id burst (c ∷ chunk) s)) xs
          ≡ taken
            ++ (s.stable_buffer
                ++ (unless (renews id burst) s.active_burst_text
                    ++ (unless (is_renewed burst xs) (c ∷ chunk) ++ spoken xs)))
    heard none e = refl
    heard (some a) e = elim (Bool-cases (same_burst a burst)) [
      | inl same ↦ rw same (
          ap
            (λ o. taken ++ (s.stable_buffer ++ (unless (is_renewed o xs) (c ∷ chunk) ++ spoken xs)))
            (e ∙ same_burst-some a burst same))
      | inr other ↦ rw other (
          ap (λ x. taken ++ (x ++ (unless (is_renewed burst xs) (c ∷ chunk) ++ spoken xs)))
            (seal_text s).0
          ∙ ap (λ x. taken ++ x)
              (append_assoc s.stable_buffer s.active_burst_text
                (unless (is_renewed burst xs) (c ∷ chunk) ++ spoken xs)))
    ]

consume_total :
    (taken : Text) (s : TranscriptBuffer) (prefix : Text) (xs : List Step)
    → total (step (consume prefix) (taken, s)) xs ≡ total (taken, s) (consume prefix ∷ xs)
unfolding consume_stable_prefix rebuild_views
consume_total taken s [] xs =
    ap
      (λ x.
        x
        ++ (s.stable_buffer
            ++ (unless (is_renewed s.active_burst_id xs) s.active_burst_text ++ spoken xs)))
      (append-nil taken)
consume_total taken s (c ∷ prefix) xs =
    let later = unless (is_renewed s.active_burst_id xs) s.active_burst_text ++ spoken xs in
    elim (Option-cases (strip_prefix (c ∷ prefix) s.stable_buffer)) [
      | inl none_there ↦ rw none_there refl
      | inr (u, found) ↦ rw found (
          append_assoc taken (c ∷ prefix) (u ++ later)
          ∙ ap (λ x. taken ++ x)
              (sym (append_assoc (c ∷ prefix) u later)
                ∙ ap (λ x. x ++ later)
                    (sym (strip_prefix_sound (c ∷ prefix) s.stable_buffer u found))))
    ]

step-total : (x : Step) (st : State) (xs : List Step) → total (step x st) xs ≡ total st (x ∷ xs)
step-total (hear burst chunk) (taken, s) xs = hear_total taken s burst chunk xs
step-total seal (taken, s) xs =
    let (stable, active, shape) = seal_text s in
    let r = is_renewed (seal_active_burst s).1.active_burst_id xs in
    ap (λ x. taken ++ (x ++ (unless r (seal_active_burst s).1.active_burst_text ++ spoken xs)))
      stable
    ∙ ap (λ x. taken ++ ((s.stable_buffer ++ s.active_burst_text) ++ (unless r x ++ spoken xs)))
        active
    ∙ ap (λ x. taken ++ ((s.stable_buffer ++ s.active_burst_text) ++ (x ++ spoken xs)))
        (unless_nil r)
    ∙ ap (λ x. taken ++ x) (append_assoc s.stable_buffer s.active_burst_text (spoken xs))
step-total (consume prefix) (taken, s) xs = consume_total taken s prefix xs

step-IsBuffer : (x : Step) (st : State) → IsBuffer st.1 → IsBuffer (step x st).1
unfolding update_from_chunk rebuild_views consume_stable_prefix
step-IsBuffer (hear burst []) (taken, s) i = i
step-IsBuffer (hear burst (c ∷ chunk)) (taken, s) i = refl
step-IsBuffer seal (taken, s) i = (seal_text s).2
step-IsBuffer (consume []) (taken, s) i = i
step-IsBuffer (consume (c ∷ prefix)) (taken, s) i =
    elim (Option-cases (strip_prefix (c ∷ prefix) s.stable_buffer)) [
      | inl none_there ↦ rw none_there i
      | inr (u, found) ↦ rw found refl
    ]

steps-total :
    (xs : List Step) (st : State)
    → IsBuffer st.1
    → (steps xs st).0 ++ (steps xs st).1.buffer ≡ total st xs
steps-total [] (taken, s) i =
    ap (λ x. taken ++ x) (i ∙ ap (λ x. s.stable_buffer ++ x) (sym (append-nil s.active_burst_text)))
steps-total (x ∷ xs) st i = steps-total xs (step x st) (step-IsBuffer x st i) ∙ step-total x st xs

-- Whatever is heard, sealed and consumed, in any order and whether the consumption succeeds or not,
-- the text that was consumed followed by the buffer is what was spoken: each burst once, in its
-- newest chunk, in order; a chunk without a burst gives way to the next one.
pub steps-spoken :
    (xs : List Step)
    → (steps xs ([], new_buffer)).0 ++ (steps xs ([], new_buffer)).1.buffer ≡ spoken xs
unfolding new_buffer
steps-spoken xs =
    steps-total xs ([], new_buffer) refl
    ∙ ap (λ x. x ++ spoken xs) (unless_nil (is_renewed none xs))
