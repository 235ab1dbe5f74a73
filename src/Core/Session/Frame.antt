-- ===== src/Core/Session/Frame.antt =====
-- What the operations on sessions leave alone: the log, the outbox and the specifications.
use forum_agent.Shared.{
  ℕ, ◌≡◌, refl, Bool, true, false, ◌&&◌, ◌||◌, not, List, [], ◌∷◌, map, ok, ensure, any, ◌==◌,
  >>=-inversion, >>-inversion, arith, sym, Bool-cases, inl, inr,
}
use forum_agent.Contracts.{Uuid}
use forum_agent.Contracts.Session.{SessionTransition, recording, interrupted, permits}
use forum_agent.Core.{invalid_state, dependency_not_ready}
use forum_agent.Core.Tables.{SessionRow, SessionStatus, HistoryRow, Store, insert_new, update_where}
use forum_agent.Core.Ingest.Log.{Keeps, Keeps-refl, Keeps-trans, Work}
use forum_agent.Core.Session.{
  load_session_status, update_session, save_history, same_state, mark_incomplete, transition_work,
}

update_where-map :
    {A B : Type 0} (f : A → B) (test : A → Bool) (change : A → A)
    → ((x : A) → f (change x) ≡ f x)
    → (rows : List A) → map f (update_where test change rows) ≡ map f rows
update_where-map f test change same [] = refl
update_where-map f test change same (row ∷ rows) =
    let rest = update_where-map f test change same rows in
    let here = same row in
    elim (Bool-cases (test row)) [ inl hit ↦ ground arith | inr miss ↦ ground arith ]

pub update_session-Keeps :
    (id : Uuid) (change : SessionRow → SessionRow) (st : Store)
    → ((r : SessionRow) → (change r).spec ≡ r.spec)
    → Keeps st (update_session id change st)
update_session-Keeps id change st same = record {
  log = refl;
  queue = refl;
  counter = refl;
  specs = update_where-map (λ r. r.spec) (λ r. r.spec.session_id == id) change same st.sessions;
  closed = λ run h. h;
}

pub save_history_sessions :
    (id : Uuid) (seq : ℕ) (a b : Store)
    → save_history id seq a ≡ ok b
    → (rows : List HistoryRow) × (b
        ≡ record (update_session id (λ r. record r { state_seq = seq }) a) {
          session_history = rows;
        })
unfolding save_history
save_history_sessions id seq a b h =
    let st1 = update_session id (λ r. record r { state_seq = seq }) a in
    let (status, found, h1) = >>=-inversion (load_session_status id st1) _ h in
    let (rows, put, h2) =
      >>=-inversion
        (insert_new (λ s. s.session_id == id && s.store_seq == seq)
          (record { session_id = id; store_seq = seq; status = status }) st1.session_history)
        (λ rows. ok (record st1 { session_history = rows })) h1 in
    let same : record st1 { session_history = rows } ≡ b = cc h2 in (rows, sym same)

pub save_history-Keeps :
    (id : Uuid) (seq : ℕ) (a b : Store) → save_history id seq a ≡ ok b → Keeps a b
save_history-Keeps id seq a b h =
    let (rows, shape) = save_history_sessions id seq a b h in
    let k = update_session-Keeps id (λ r. record r { state_seq = seq }) a (λ r. refl) in
    let written : Keeps a (record (update_session id (λ r. record r { state_seq = seq }) a) {
      session_history = rows;
    }) =
      record { log = refl; queue = refl; counter = refl; specs = k.specs; closed = λ run h. h } in
    rw shape written

-- What a transition has gone through.
pub record Transitioned (id : Uuid) (p : SessionTransition) (seq : ℕ) (a b : Store) : Type 0 where
  pub status : SessionStatus
  pub found : load_session_status id a ≡ ok status
  pub expected : same_state status.state p.expected_state ≡ true
  pub permitted : permits status.state p.next_state ≡ true
  pub tracks :
      (not (same_state p.next_state recording) || any (λ t. t.session_id == id) a.tracks) ≡ true
  pub saved :
      save_history id seq (
        mark_incomplete
          (same_state p.next_state interrupted)
          id
          (update_session id (λ r. record r { state = p.next_state }) a))
      ≡ ok b

mark_incomplete-Keeps : (m : Bool) (id : Uuid) (st : Store) → Keeps st (mark_incomplete m id st)
mark_incomplete-Keeps true id st =
    update_session-Keeps id (λ r. record r { incomplete = true }) st (λ r. refl)
mark_incomplete-Keeps false id st = Keeps-refl st

pub transition_work_cases :
    (id : Uuid) (p : SessionTransition) (seq : ℕ) (a b : Store)
    → transition_work id p seq a ≡ ok b
    → Transitioned id p seq a b
unfolding transition_work
transition_work_cases id p seq a b h =
    let (status, found, h1) = >>=-inversion (load_session_status id a) _ h in
    let (allowed, h2) =
      >>-inversion
        (ensure (same_state status.state p.expected_state && permits status.state p.next_state)
          invalid_state)
        _ h1 in
    let (ready, h3) =
      >>-inversion
        (ensure (not (same_state p.next_state recording) || any (λ t. t.session_id == id) a.tracks)
          dependency_not_ready)
        _ h2 in
    record {
      status = status;
      found = found;
      expected = ground arith;
      permitted = ground arith;
      tracks = ground arith;
      saved = h3;
    }

pub transition_work-Work : (id : Uuid) (p : SessionTransition) → Work (transition_work id p)
transition_work-Work id p seq a b h =
    let t = transition_work_cases id p seq a b h in
    let change : SessionRow → SessionRow = λ r. record r { state = p.next_state } in
    let st1 = update_session id change a in
    Keeps-trans (update_session-Keeps id change a (λ r. refl)) (
      Keeps-trans (mark_incomplete-Keeps (same_state p.next_state interrupted) id st1)
        (save_history-Keeps id seq _ b t.saved))
