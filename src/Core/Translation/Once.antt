-- ===== src/Core/Translation/Once.antt =====
-- An attempt is answered once: while a translation stays at the attempt that was answered, a result
-- or a failure that comes for it is late. A correction of a source may make that attempt stale, and
-- `request_translation` may open a next revision, which is another attempt and is answered in its
-- turn.
use forum_agent.Shared.{
  ℕ, ◌≡◌, refl, true, false, some, ok, err, find, ◌==◌, ◌∙◌, ap, arith, All, find-All, find-true,
}
use forum_agent.Contracts.{Uuid, Revision}
use forum_agent.Contracts.Translation.{TranslationFinal, TranslationFailed, TranslationStatus}
use forum_agent.Core.{late_result}
use forum_agent.Core.Tables.{Store}
use forum_agent.Core.Tables.Translations.{AttemptRow, TranslationRow, TranslationRecord}
use forum_agent.Core.Translation.{
  translation_of, current_attempt, is_attempt, load_translation, save_translation_history, fence,
  is_open,
}
use forum_agent.Core.Translation.Works.{finish_work, fail_work, finish_attempt, outcome}
use forum_agent.Core.Translation.Answers.{finish_work_cases, finished_store}
use forum_agent.Core.Translation.Loads.{load_translation_cases, load_translation_found}
use forum_agent.Core.Tables.Rows.{find-update_where, changed_if}

-- The key of an attempt is that of its request.
abbrev pub IsKeyed : AttemptRow → Type 0
IsKeyed a = is_attempt a.request.translation_id a.request.revision a.request.attempt a ≡ true

-- The state of an attempt once a result came.
outcome-closed : (s : TranslationStatus) → is_open (outcome s) ≡ false
outcome-closed TranslationStatus.final = refl
outcome-closed TranslationStatus.passthrough = refl

late_fence :
    (session id : Uuid) (n : Revision) (k epoch : ℕ) (st : Store) (r : TranslationRecord)
    → load_translation session id st ≡ ok r
    → is_open r.state ≡ false
    → fence session id n k epoch st ≡ err late_result
unfolding fence
late_fence session id n k epoch st r loaded closed = rw loaded (ground arith)

late_finish :
    (session : Uuid) (q : TranslationFinal) (m : ℕ) (st : Store)
    → fence session q.translation_id q.revision q.attempt q.direction_epoch st ≡ err late_result
    → finish_work session q m st ≡ err late_result
unfolding finish_work
late_finish session q m st h = rw h

late_fail :
    (session : Uuid) (q : TranslationFailed) (m : ℕ) (st : Store)
    → fence session q.translation_id q.revision q.attempt q.direction_epoch st ≡ err late_result
    → fail_work session q m st ≡ err late_result
unfolding fail_work
late_fail session q m st h = rw h

saved_rows :
    (session id : Uuid) (seq : ℕ) (a b : Store)
    → save_translation_history session id seq a ≡ ok b
    → (b.translations ≡ a.translations) × (b.translation_attempts ≡ a.translation_attempts)
unfolding save_translation_history
saved_rows session id seq a b h = ground arith

-- The rows of the translation after the result.
finished_rows :
    (session : Uuid) (p : TranslationFinal) (n : ℕ) (a b : Store)
    → All IsKeyed a.translation_attempts
    → finish_work session p n a ≡ ok b
    → (t : TranslationRow) × (x : AttemptRow) × (translation_of p.translation_id b ≡ some t)
      × (current_attempt t b ≡ some x)
      × ((t.session_id == session) ≡ true)
      × (x.state ≡ outcome p.status)
      × (x.text ≡ some p.text)
      × (x.result ≡ some p)
finished_rows session p n a b keyed h =
    let f = finish_work_cases session p n a b h in
    let x = load_translation_cases session p.translation_id a f.request f.fenced.loaded in
    let (rows, attempts) = saved_rows session p.translation_id n (finished_store p n a) b f.saved in
    let key = find-All IsKeyed _ a.translation_attempts x.attempt keyed x.current in
    let test = is_attempt x.row.id x.row.current_revision x.row.current_attempt in
    let found =
      find-update_where test (is_attempt p.translation_id p.revision p.attempt) (finish_attempt p n)
        (λ y hit. refl) a.translation_attempts in
    let first = find-true (λ t. t.id == p.translation_id) a.translations x.row x.there in
    let second = find-true test a.translation_attempts x.attempt x.current in
    let mine : is_attempt p.translation_id p.revision p.attempt x.attempt ≡ true = ground (
      arith,
      f.fenced.revision,
      f.fenced.attempt_no,
      ap (λ q. q.revision) x.request,
      ap (λ q. q.attempt) x.request,
    ) in
    let now : current_attempt x.row b ≡ some (finish_attempt p n x.attempt) =
      ap (find test) attempts
      ∙ found
      ∙ ap (changed_if (is_attempt p.translation_id p.revision p.attempt) (finish_attempt p n))
          x.current
      ∙ rw mine in
    (
      x.row,
      finish_attempt p n x.attempt,
      ap (find (λ t. t.id == p.translation_id)) rows ∙ x.there,
      now,
      x.owner,
      refl,
      refl,
      refl,
    )

-- The translation stands in both stores in one row, at one attempt.
abbrev pub IsSameAttempt : Uuid → Store → Store → Type 0
IsSameAttempt id b c =
    (translation_of id c ≡ translation_of id b)
    × ((t : TranslationRow)
        → translation_of id b ≡ some t
        → current_attempt t c ≡ current_attempt t b)

-- A result that the store takes is what the translation shows in every store where its row and its
-- current attempt are those that the result left, whatever else has changed there: in such a store
-- every other result or failure for the translation is refused as late, also under another revision,
-- attempt or direction. Nothing is said of a store where the attempt has become stale or a request
-- has opened a next one. In the store before the result each attempt row stands under the key of its
-- request.
pub answered_once :
    (session : Uuid) (p : TranslationFinal) (n : ℕ) (a b c : Store)
    → All IsKeyed a.translation_attempts
    → finish_work session p n a ≡ ok b
    → IsSameAttempt p.translation_id b c
    → ((r : TranslationRecord) × (load_translation session p.translation_id c ≡ ok r)
        × (r.state ≡ outcome p.status)
        × (r.text ≡ some p.text)
        × (r.result ≡ some p))
      × ((q : TranslationFinal) (m : ℕ)
          → q.translation_id ≡ p.translation_id
          → finish_work session q m c ≡ err late_result)
      × ((q : TranslationFailed) (m : ℕ)
          → q.translation_id ≡ p.translation_id
          → fail_work session q m c ≡ err late_result)
answered_once session p n a b c keyed h same =
    let (t, x, there, current, own, state, text, result) = finished_rows session p n a b keyed h in
    let (r, loaded, asked, state', text', result') =
      load_translation_found session p.translation_id c t x (same.0 ∙ there) own
        (same.1 t there ∙ current) in
    let closed : is_open r.state ≡ false = ap is_open (state' ∙ state) ∙ outcome-closed p.status in
    let late : (id : Uuid) (k : Revision) (j epoch : ℕ)
        → id ≡ p.translation_id
        → fence session id k j epoch c ≡ err late_result =
      λ id k j epoch mine.
        late_fence session id k j epoch c r (ap (λ i. load_translation session i c) mine ∙ loaded)
          closed in
    (
      (r, loaded, state' ∙ state, text' ∙ text, result' ∙ result),
      (λ q m mine.
          late_finish session q m c
            (late q.translation_id q.revision q.attempt q.direction_epoch mine)),
      (λ q m mine.
          late_fail session q m c
            (late q.translation_id q.revision q.attempt q.direction_epoch mine)),
    )
