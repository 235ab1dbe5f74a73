-- ===== src/Core/Operations/Consistent.antt =====
-- Every run of the operations keeps the log in order and every session lawful.
use forum_agent.Shared.{
  ℕ, ◌≡◌, ◌≤◌, refl, true, false, none, some, List, [], ◌∷◌, map, ok, ap, ◌∙◌, sym, subst, All,
  is_some,
}
use forum_agent.Text.{Text}
use forum_agent.Contracts.Session.{SessionSpec, SessionState, permits, draining, completed}
use forum_agent.Contracts.Manifest.{TrackSeal}
use forum_agent.Core.{Stored}
use forum_agent.Core.Tables.{Body, SessionRow, Store}
use forum_agent.Core.Ingest.{session_row}
use forum_agent.Core.Ingest.Log.{IsLog, Ordered, sent, received}
use forum_agent.Core.Ingest.Invariant.{ingest-IsLog, ingest_sessions}
use forum_agent.Core.Session.{new_session}
use forum_agent.Core.Seal.{may_stop, may_seal}
use forum_agent.Core.Reconcile.Frame.{insert_reconciliation_sessions}
use forum_agent.Core.Lifecycle.{Lawful, Distinct, IsCatalog}
use forum_agent.Core.Lifecycle.Works.{
  transition_work-All, stop_work-All, seal_work-All, producer_work-All, capture_work-All, IsBlind,
  Settled-All, gap_work-All, direction_work-All,
}
use forum_agent.Core.Lifecycle.Final.{Lawful-IsBlind, permits-Phase, may_stop-Phase, none_found}
use forum_agent.Core.Operations.{Operation, perform, run}
use forum_agent.Core.Operations.Effects.{
  Task, transitions, captures, stops, produces, seals, reconciles, Task-Work, Effect, stays, opened,
  tracked, delivered, perform-Effect, transcribes, revises, misses, redirects, requests, finishes,
  fails,
}
use forum_agent.Core.Transcript.Frame.{final_work-Settled, revision_work-Settled}
use forum_agent.Core.Aside.Translations.{request_work-Quiet, finish_work-Quiet, fail_work-Quiet}

-- What the works keep of each session.
pub record IsKept (P : SessionRow → Type 0) : Type 0 where
  pub blind : IsBlind P
  pub moved :
      (r : SessionRow) (t : SessionState)
      → permits r.state t ≡ true
      → P r
      → P (record r { state = t })
  pub stopped :
      (r : SessionRow) (n : ℕ)
      → is_some r.capture_stopped_seq ≡ false
      → may_stop r.state ≡ true
      → P r
      → P (record r { state = draining; capture_stopped_seq = some n })
  pub sealed :
      (r : SessionRow) (n : ℕ)
      → is_some r.capture_stopped_seq ≡ true
      → is_some r.sealed_seq ≡ false
      → may_seal r.state ≡ true
      → P r
      → P (record r { state = completed; sealed_seq = some n })

Task-All :
    (P : SessionRow → Type 0) {work : ℕ → Store → Stored Store}
    → IsKept P
    → Task work
    → (n : ℕ) (a b : Store) → work n a ≡ ok b
    → Distinct (map (λ r. r.spec) a.sessions) × All P a.sessions
    → Distinct (map (λ r. r.spec) b.sessions) × All P b.sessions
Task-All P {work} k t n a b h (d, all) =
    (subst Distinct (sym (Task-Work t n a b h).specs) d, kept t h)
  where
    kept : {work : ℕ → Store → Stored Store} → Task work → work n a ≡ ok b → All P b.sessions
    kept (transitions id p) g =
        transition_work-All P k.blind id p n a b d (λ r allowed. k.moved r p.next_state allowed) all
          g
    kept (captures id p) g = capture_work-All P k.blind id p n a b all g
    kept (stops id p) g = stop_work-All P k.blind id p n a b d (λ r. k.stopped r n) all g
    kept (produces id p) g = producer_work-All P k.blind id p n a b all g
    kept (seals id p) g = seal_work-All P k.blind id p n a b d (λ r. k.sealed r n) all g
    kept (transcribes id p) g = Settled-All P k.blind id n a b (final_work-Settled id p n a b g) all
    kept (revises id p) g = Settled-All P k.blind id n a b (revision_work-Settled id p n a b g) all
    kept (misses id p) g = gap_work-All P k.blind id p n a b g all
    kept (redirects id p) g = direction_work-All P k.blind id p n a b g all
    kept (requests id p) g = subst (All P) (sym (request_work-Quiet id p n a b g).sessions) all
    kept (finishes id p) g = subst (All P) (sym (finish_work-Quiet id p n a b g).sessions) all
    kept (fails id p) g = subst (All P) (sym (fail_work-Quiet id p n a b g).sessions) all
    kept (reconciles id run p) g =
        subst (All P) (sym (insert_reconciliation_sessions id run p n a b g)) all

IsLog-same :
    (a b : Store)
    → b.ingested ≡ a.ingested
    → b.outbox ≡ a.outbox
    → b.last_seq ≡ a.last_seq
    → IsLog a
    → IsLog b
IsLog-same a b log queue counter l = record {
  bounded =
      subst (λ n. All (λ r. r.store_seq ≤ n) b.ingested) (sym counter)
        (subst (All (λ r. r.store_seq ≤ a.last_seq)) (sym log) l.bounded);
  ordered = subst Ordered (sym log) l.ordered;
  published = ap (map sent) queue ∙ l.published ∙ ap (map received) (sym log);
}

module _ (digest : Body → Text) where
  Effect-IsLog : (a b : Store) → Effect digest a b → IsLog a → IsLog b
  Effect-IsLog a _ stays l = l
  Effect-IsLog a _ (opened spec b new u made) l = IsLog-same a b u.log u.queue u.counter l
  Effect-IsLog a _ (tracked tracks) l = IsLog-same a _ refl refl refl l
  Effect-IsLog a _ (delivered e work receipt b t h) l =
      ingest-IsLog digest e work a b receipt (Task-Work t) l h

  -- What the works keep of each session, an operation keeps, when the session that it opens has it.
  pub Effect-All :
      (P : SessionRow → Type 0) (a b : Store)
      → IsKept P
      → ((spec : SessionSpec) → session_row spec.session_id a ≡ none → P (new_session spec))
      → Effect digest a b
      → Distinct (map (λ r. r.spec) a.sessions) × All P a.sessions
      → Distinct (map (λ r. r.spec) b.sessions) × All P b.sessions
  Effect-All P a _ k f stays p = p
  Effect-All P a _ k f (opened spec b new u made) (d, all) =
      subst (λ rows. Distinct (map (λ r. r.spec) rows) × All P rows) (sym made)
        ((none_found spec.session_id a.sessions new, d), (f spec new, all))
  Effect-All P a _ k f (tracked tracks) p = p
  Effect-All P a _ k f (delivered e work receipt b t h) p =
      ingest_sessions digest (λ rows. Distinct (map (λ r. r.spec) rows) × All P rows) e work a b
        receipt (Task-All P k t) h p

pub record IsConsistent (st : Store) : Type 0 where
  pub log : IsLog st
  pub catalog : IsCatalog st.sessions

Lawful-IsKept : IsKept Lawful
Lawful-IsKept = record {
  blind = Lawful-IsBlind;
  moved = λ r t allowed. permits-Phase r.state t _ _ allowed;
  stopped = λ r n running may p. (refl, may_stop-Phase r.state _ _ may p);
  sealed = λ r n closed unsealed may p. (closed, refl);
}

module _ (manifest : List TrackSeal → Text) (digest : Body → Text) where
  pub perform-IsConsistent :
      (op : Operation) (st : Store) → IsConsistent st → IsConsistent (perform manifest digest op st)
  perform-IsConsistent op st i =
      let b = perform manifest digest op st in
      let effect = perform-Effect manifest digest op st i.log in
      let (d, all) =
        Effect-All digest Lawful st b Lawful-IsKept (λ spec new. (refl, refl)) effect
          (i.catalog.distinct, i.catalog.lawful) in
      record {
        log = Effect-IsLog digest st b effect i.log;
        catalog = record { distinct = d; lawful = all };
      }

  -- Every run of the operations, those that fail included, keeps the store consistent: the log and
  -- the outbox are in order and agree, no two sessions have one identifier, and each session has
  -- exactly the seals of its state, so that it is completed if and only if its transcript is sealed
  -- and a draining or completed session has a capture that was stopped.
  pub run-IsConsistent :
      (ops : List Operation) (st : Store)
      → IsConsistent st
      → IsConsistent (run manifest digest ops st)
  unfolding run
  run-IsConsistent [] st i = i
  run-IsConsistent (op ∷ ops) st i =
      run-IsConsistent ops (perform manifest digest op st) (perform-IsConsistent op st i)
