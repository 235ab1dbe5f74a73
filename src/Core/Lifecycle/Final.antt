-- ===== src/Core/Lifecycle/Final.antt =====
-- The steps of the lifecycle at one session, and what opening a session adds.
use forum_agent.Shared.{
  ◌≡◌, ◌⊎◌, refl, Bool, true, false, Option, none, some, List, [], ◌∷◌, map, ok, arith, ap, ◌∙◌,
  sym, All, find, ◌==◌, any, >>-inversion, ensure, not, Bool-cases, inl, inr,
}
use forum_agent.Contracts.{Uuid}
use forum_agent.Contracts.Session.{SessionSpec, SessionState, permits, validate_session}
use forum_agent.Core.{scope_mismatch, entity_conflict, validated}
use forum_agent.Core.Tables.{SessionRow, Store, is_yes, SessionSpec-discrete}
use forum_agent.Core.Ingest.{session_row, is_sealed_run}
use forum_agent.Core.Session.{
  new_session, add_session, create_session, foreign_room, add_room, add_event,
}
use forum_agent.Core.Seal.{may_stop}
use forum_agent.Core.Lifecycle.{Phase, Lawful}
use forum_agent.Core.Lifecycle.Works.{IsBlind}

pub Lawful-IsBlind : IsBlind Lawful
Lawful-IsBlind = record {
  numbered = λ r n h. h;
  marked = λ r b h. h;
  directed = λ r n t h. h;
  turned = λ r n t h. h;
}

pub permits-Phase :
    (s t : SessionState) (c z : Bool) → permits s t ≡ true → Phase s c z → Phase t c z
unfolding permits
permits-Phase s t c z h p = ground arith

pub may_stop-Phase : (s : SessionState) (c z : Bool) → may_stop s ≡ true → Phase s c z → z ≡ false
may_stop-Phase s c z h p = ground arith

-- What the catalog of forums and rooms does not touch.
pub record Untouched (a b : Store) : Type 0 where
  pub log : b.ingested ≡ a.ingested
  pub queue : b.outbox ≡ a.outbox
  pub counter : b.last_seq ≡ a.last_seq
  pub captured : b.segments ≡ a.segments
  pub texts : b.segment_revisions ≡ a.segment_revisions
  pub closed : (run : Uuid) → is_sealed_run run a ≡ true → is_sealed_run run b ≡ true

add_event_frame :
    (id : Uuid) (st : Store)
    → Untouched st (add_event id st) × ((add_event id st).sessions ≡ st.sessions)
add_event_frame id st = elim (Bool-cases (any (λ e. e == id) st.events)) [
  | inl there ↦ (
    record {
      log = ground arith;
      queue = ground arith;
      counter = ground arith;
      captured = ground arith;
      texts = ground arith;
      closed = λ run h. ground arith;
    },
    ground arith,
  )
  | inr new ↦ (
    record {
      log = ground arith;
      queue = ground arith;
      counter = ground arith;
      captured = ground arith;
      texts = ground arith;
      closed = λ run h. ground arith;
    },
    ground arith,
  )
]

add_room_frame :
    (id event : Uuid) (st : Store)
    → Untouched st (add_room id event st) × ((add_room id event st).sessions ≡ st.sessions)
add_room_frame id event st = elim (Bool-cases (any (λ r. r.id == id) st.rooms)) [
  | inl there ↦ (
    record {
      log = ground arith;
      queue = ground arith;
      counter = ground arith;
      captured = ground arith;
      texts = ground arith;
      closed = λ run h. ground arith;
    },
    ground arith,
  )
  | inr new ↦ (
    record {
      log = ground arith;
      queue = ground arith;
      counter = ground arith;
      captured = ground arith;
      texts = ground arith;
      closed = λ run h. ground arith;
    },
    ground arith,
  )
]

add_session_cases :
    (spec : SessionSpec) (a b : Store) (o : Option SessionRow)
    → add_session spec a o ≡ ok b
    → (a ≡ b) ⊎ ((o ≡ none) × Untouched a b × (b.sessions ≡ new_session spec ∷ a.sessions))
unfolding add_session
add_session_cases spec a b (some row) h =
    let (same, h1) =
      >>-inversion (ensure (is_yes (SessionSpec-discrete row.spec spec)) entity_conflict) (ok a)
        h in
    inl (cc h1)
add_session_cases spec a b none h =
    let st1 = add_room spec.room_id spec.event_id (add_event spec.event_id a) in
    let (same, h1) =
      >>-inversion
        (ensure (not (foreign_room spec.event_id (find (λ r. r.id == spec.room_id) a.rooms)))
          scope_mismatch)
        (ok (record st1 { sessions = new_session spec ∷ st1.sessions })) h in
    let made : record st1 { sessions = new_session spec ∷ st1.sessions } ≡ b = cc h1 in
    let (u, su) = add_event_frame spec.event_id a in
    let (v, sv) = add_room_frame spec.room_id spec.event_id (add_event spec.event_id a) in
    inr (
      refl,
      record {
        log = sym (ap (λ x. x.ingested) made) ∙ v.log ∙ u.log;
        queue = sym (ap (λ x. x.outbox) made) ∙ v.queue ∙ u.queue;
        counter = sym (ap (λ x. x.last_seq) made) ∙ v.counter ∙ u.counter;
        captured = sym (ap (λ x. x.segments) made) ∙ v.captured ∙ u.captured;
        texts = sym (ap (λ x. x.segment_revisions) made) ∙ v.texts ∙ u.texts;
        closed = λ run h. ap (is_sealed_run run) (sym made) ∙ v.closed run (u.closed run h);
      },
      sym (ap (λ x. x.sessions) made) ∙ ap (λ rows. new_session spec ∷ rows) (sv ∙ su),
    )

-- A session that is opened is new.
pub create_session_cases :
    (spec : SessionSpec) (a b : Store)
    → create_session spec a ≡ ok b
    → (a ≡ b)
      ⊎ ((session_row spec.session_id a ≡ none)
          × Untouched a b
          × (b.sessions ≡ new_session spec ∷ a.sessions))
unfolding create_session
create_session_cases spec a b h =
    let (valid, h1) = >>-inversion (validated (validate_session spec)) _ h in
    let (own, h2) =
      >>-inversion (ensure (not (any (λ id. id == spec.session_id) a.peer_sessions)) scope_mismatch)
        _ h1 in
    add_session_cases spec a b (session_row spec.session_id a) h2

pub none_found :
    (id : Uuid) (rows : List SessionRow)
    → find (λ r. r.spec.session_id == id) rows ≡ none
    → All (λ t. (t.session_id == id) ≡ false) (map (λ r. r.spec) rows)
none_found id [] h = tt
none_found id (x ∷ rows) h = elim (Bool-cases (x.spec.session_id == id)) [
  | inl hit ↦ absurd (ground arith)
  | inr miss ↦ (miss, none_found id rows (ground arith))
]
