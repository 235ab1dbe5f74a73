-- ===== src/Core/Translation/Loads.antt =====
-- What `load_translation` reads: the row of a translation and its current attempt.
use forum_agent.Shared.{◌≡◌, refl, true, Option, none, some, ok, ◌==◌, arith, Bool-cases, inl, inr}
use forum_agent.Contracts.{Uuid}
use forum_agent.Core.Tables.{Store}
use forum_agent.Core.Tables.Translations.{AttemptRow, TranslationRow, TranslationRecord}
use forum_agent.Core.Translation.{
  translation_of, current_attempt, load_translation, earliest, translation_row, attempt_row,
}

-- The rows that a load has read.
pub record Loaded (session id : Uuid) (st : Store) (r : TranslationRecord) : Type 0 where
  pub row : TranslationRow
  pub attempt : AttemptRow
  pub there : translation_of id st ≡ some row
  pub owner : (row.session_id == session) ≡ true
  pub current : current_attempt row st ≡ some attempt
  pub request : r.request ≡ attempt.request
  pub state : r.state ≡ attempt.state
  pub text : r.text ≡ attempt.text
  pub result : r.result ≡ attempt.result

load_attempt :
    (session id : Uuid) (st : Store) (r : TranslationRecord) (t : TranslationRow)
    (o : Option AttemptRow)
    → translation_of id st ≡ some t
    → current_attempt t st ≡ o
    → attempt_row session t o st ≡ ok r
    → Loaded session id st r
load_attempt session id st r t none there current h = absurd (cc h)
load_attempt session id st r t (some a) there current h =
    elim (Bool-cases (t.session_id == session)) [
      | inr other ↦ absurd (ground arith)
      | inl own ↦ record {
        row = t;
        attempt = a;
        there = there;
        owner = own;
        current = current;
        request = ground arith;
        state = ground arith;
        text = ground arith;
        result = ground arith;
      }
    ]

pub load_translation_cases :
    (session id : Uuid) (st : Store) (r : TranslationRecord)
    → load_translation session id st ≡ ok r
    → Loaded session id st r
unfolding load_translation
load_translation_cases session id st r h = from_row (translation_of id st) refl h
  where
    from_row :
        (o : Option TranslationRow)
        → translation_of id st ≡ o
        → translation_row session o st ≡ ok r
        → Loaded session id st r
    from_row none e g = absurd (cc g)
    from_row (some t) e g = load_attempt session id st r t (current_attempt t st) e refl g

-- A load succeeds when the rows are there.
pub load_translation_found :
    (session id : Uuid) (st : Store) (t : TranslationRow) (a : AttemptRow)
    → translation_of id st ≡ some t
    → (t.session_id == session) ≡ true
    → current_attempt t st ≡ some a
    → (r : TranslationRecord) × (load_translation session id st ≡ ok r)
      × (r.request ≡ a.request)
      × (r.state ≡ a.state)
      × (r.text ≡ a.text)
      × (r.result ≡ a.result)
unfolding load_translation
load_translation_found session id st t a there own current = (
  record {
    session_id = session;
    request = a.request;
    result = a.result;
    state = a.state;
    text = a.text;
    error = a.error;
    created_seq = earliest a.created_seq t.id st.translation_attempts;
    updated_seq = a.updated_seq;
  },
  rw (there, current, own),
  refl,
  refl,
  refl,
  refl,
)
