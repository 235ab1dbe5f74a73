-- ===== src/Core/Operations/Completed.antt =====
-- A completed session stays completed.
use forum_agent.Shared.{
  ◌≡◌, refl, true, none, some, List, [], ◌∷◌, map, ok, arith, ap, ◌∙◌, sym, subst, All, inl, inr,
  is_some, find, ◌==◌, Bool-cases, Option-cases,
}
use forum_agent.Text.{Text}
use forum_agent.Contracts.{Uuid}
use forum_agent.Contracts.Session.{SessionSpec, completed, permits}
use forum_agent.Contracts.Manifest.{TrackSeal}
use forum_agent.Core.Tables.{Body, SessionRow, SessionStatus, Store}
use forum_agent.Core.Ingest.{session_row}
use forum_agent.Core.Ingest.Invariant.{ingest_sessions}
use forum_agent.Core.Session.{load_session_status, status_of}
use forum_agent.Core.Lifecycle.{Lawful, Phase, Only, find-Only, find_All, load_session_status_row}
use forum_agent.Core.Operations.{Operation, perform, run}
use forum_agent.Core.Operations.Effects.{
  Effect, stays, opened, tracked, delivered, Task-Work, perform-Effect,
}
use forum_agent.Core.Operations.Consistent.{
  IsKept, IsConsistent, Effect-All, perform-IsConsistent, run-IsConsistent,
}

abbrev Done : Uuid → SessionRow → Type 0
Done id r = (r.spec.session_id == id) ≡ true → r.state ≡ completed

Done-IsKept : (id : Uuid) → IsKept (Done id)
unfolding permits
Done-IsKept id = record {
  blind = record {
    numbered = λ r n f. f;
    marked = λ r b f. f;
    directed = λ r n t f. f;
    turned = λ r n t f. f;
  };
  moved = λ r t allowed f hit. absurd (let done = f hit in ground arith);
  stopped = λ r n running may f hit. absurd (let done = f hit in ground arith);
  sealed = λ r n closed unsealed may f hit. refl;
}

abbrev pub Present : Uuid → List SessionRow → Type 0
Present id rows = is_some (find (λ r. r.spec.session_id == id) rows) ≡ true

Present-map :
    (id : Uuid) (xs ys : List SessionRow)
    → map (λ r. r.spec) xs ≡ map (λ r. r.spec) ys
    → Present id ys
    → Present id xs
Present-map id [] [] h p = p
Present-map id [] (y ∷ ys) h p = absurd (cc h)
Present-map id (x ∷ xs) [] h p = absurd (cc p)
Present-map id (x ∷ xs) (y ∷ ys) h p =
    let head : x.spec ≡ y.spec = cc h in
    let rest = Present-map id xs ys (cc h) in
    let same : (x.spec.session_id == id) ≡ (y.spec.session_id == id) =
      ap (λ s. s.session_id == id) head in
    elim (Bool-cases (x.spec.session_id == id)) [
      | inl here ↦ ground arith
      | inr there ↦
          let later : Present id ys = ground arith in let found = rest later in ground arith
    ]

pub find_hit :
    (id : Uuid) (r : SessionRow) (rows : List SessionRow)
    → find (λ s. s.spec.session_id == id) rows ≡ some r
    → (r.spec.session_id == id) ≡ true
find_hit id r [] h = absurd (cc h)
find_hit id r (x ∷ rows) h = elim (Bool-cases (x.spec.session_id == id)) [
  | inl hit ↦ let same : x ≡ r = ground arith in ap (λ s. s.spec.session_id == id) (sym same) ∙ hit
  | inr miss ↦ find_hit id r rows (ground arith)
]

All-Done :
    (id : Uuid) (r : SessionRow) (rows : List SessionRow)
    → r.state ≡ completed
    → Only id r rows
    → All (Done id) rows
All-Done id r [] done o = tt
All-Done id r (x ∷ rows) done o =
    ((λ hit. ap (λ s. s.state) (o.0 hit) ∙ done), All-Done id r rows done o.1)

-- A session that is opened is not one that is there.
pub new_other :
    (id : Uuid) (st : Store) (spec : SessionSpec)
    → Present id st.sessions
    → session_row spec.session_id st ≡ none
    → (spec.session_id == id) ≡ true
    → ⊥
new_other id st spec p new hit =
    let same : spec.session_id ≡ id = ground arith in
    let there : is_some (session_row spec.session_id st) ≡ true =
      subst (λ k. is_some (session_row k st) ≡ true) (sym same) p in
    let none_there = ap is_some new in ground arith

module _ (manifest : List TrackSeal → Text) (digest : Body → Text) where
  pub Effect-Present :
      (id : Uuid) (a b : Store) → Effect digest a b → Present id a.sessions → Present id b.sessions
  Effect-Present id a _ stays p = p
  Effect-Present id a _ (opened spec b new u made) p = subst (Present id) (sym made) (ground arith)
  Effect-Present id a _ (tracked tracks) p = p
  Effect-Present id a _ (delivered e work receipt b t h) p =
      ingest_sessions digest (Present id) e work a b receipt
        (λ n x y g q. Present-map id y.sessions x.sessions (Task-Work t n x y g).specs q) h p

  -- The session is there and all its rows, there is one, are completed.
  record IsDone (id : Uuid) (st : Store) : Type 0 where
    done : All (Done id) st.sessions
    present : Present id st.sessions

  perform-IsDone :
      (id : Uuid) (op : Operation) (st : Store)
      → IsConsistent st
      → IsDone id st
      → IsDone id (perform manifest digest op st)
  perform-IsDone id op st i d =
      let b = perform manifest digest op st in
      let effect = perform-Effect manifest digest op st i.log in
      record {
        done =
            (Effect-All digest (Done id) st b (Done-IsKept id)
              (λ spec new hit. absurd (new_other id st spec d.present new hit)) effect
              (i.catalog.distinct, d.done)).1;
        present = Effect-Present id st b effect d.present;
      }

  run-IsDone :
      (id : Uuid) (ops : List Operation) (st : Store)
      → IsConsistent st
      → IsDone id st
      → IsDone id (run manifest digest ops st)
  unfolding run
  run-IsDone id [] st i d = d
  run-IsDone id (op ∷ ops) st i d =
      run-IsDone id ops (perform manifest digest op st)
        (perform-IsConsistent manifest digest op st i) (perform-IsDone id op st i d)

  IsDone-status :
      (id : Uuid) (st : Store)
      → IsConsistent st
      → IsDone id st
      → (s : SessionStatus) × (load_session_status id st ≡ ok s)
        × (s.state ≡ completed)
        × (s.capture_stopped ≡ true)
        × (s.transcript_sealed ≡ true)
  unfolding load_session_status
  IsDone-status id st i d = elim (Option-cases (session_row id st)) [
    | inl gone ↦ absurd (let p = d.present in ground arith)
    | inr (r, found) ↦
        let done : r.state ≡ completed =
          find_All (Done id) id r st.sessions d.done found (find_hit id r st.sessions found) in
        let law : Lawful r = find_All Lawful id r st.sessions i.catalog.lawful found in
        let (capture, transcript) =
          subst (λ s. Phase s (is_some r.capture_stopped_seq) (is_some r.sealed_seq)) done law in
        (status_of r, rw found refl, done, capture, transcript)
  ]

  -- Once a session is completed it stays so, whatever operations follow and whether they succeed
  -- or fail: its status can be read, and says that it is completed, that its capture was stopped
  -- and that its transcript is sealed. The store is consistent.
  pub completed_final :
      (id : Uuid) (ops : List Operation) (st : Store) (before : SessionStatus)
      → IsConsistent st
      → load_session_status id st ≡ ok before
      → before.state ≡ completed
      → (after : SessionStatus) × (load_session_status id (run manifest digest ops st) ≡ ok after)
        × (after.state ≡ completed)
        × (after.capture_stopped ≡ true)
        × (after.transcript_sealed ≡ true)
  completed_final id ops st before i h c =
      let (r, found, read) = load_session_status_row id st before h in
      let only = find-Only id r st.sessions i.catalog.distinct found in
      let d : IsDone id st = record {
        done = All-Done id r st.sessions (ap (λ s. s.state) read ∙ c) only;
        present = ap is_some found;
      } in
      IsDone-status id (run manifest digest ops st) (run-IsConsistent manifest digest ops st i)
        (run-IsDone id ops st i d)
