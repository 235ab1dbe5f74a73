-- ===== src/Core/Operations/Frozen.antt =====
-- What a sealed or reconciled producer run has ingested is all that it ever will.
use forum_agent.Shared.{
  ℕ, ◌≡◌, ◌+◌, refl, true, false, List, [], ◌∷◌, ok, arith, ap, ◌∙◌, subst, inl, inr, ◌==◌, keep,
  Bool-cases,
}
use forum_agent.Text.{Text}
use forum_agent.Contracts.{Uuid}
use forum_agent.Contracts.Manifest.{TrackSeal}
use forum_agent.Core.{Stored}
use forum_agent.Core.Tables.{Body, IngestedRow, Store}
use forum_agent.Core.Ingest.{Receipt, is_sealed_run, new_row, ingest}
use forum_agent.Core.Ingest.Log.{Work, ingest_cases, register_event_found, append_outbox_row}
use forum_agent.Core.Operations.{Operation, perform, run}
use forum_agent.Core.Operations.Effects.{
  Effect, stays, opened, tracked, delivered, Task-Work, perform-Effect,
}
use forum_agent.Core.Operations.Consistent.{IsConsistent, perform-IsConsistent}

abbrev pub events_of : Uuid → Store → List IngestedRow
events_of r st = keep (λ e. e.producer_run_id == r) st.ingested

-- The run is closed in `b`, and has the events that it has in `a`.
record IsFrozen (r : Uuid) (a b : Store) : Type 0 where
  closed : is_sealed_run r b ≡ true
  same : events_of r b ≡ events_of r a

other_run :
    (digest : Body → Text) (e : Body) (n : ℕ) (r : Uuid) (rows : List IngestedRow) (st : Store)
    → is_sealed_run r st ≡ true
    → is_sealed_run e.producer.run_id st ≡ false
    → keep (λ x. x.producer_run_id == r) (new_row digest e n ∷ rows)
      ≡ keep (λ x. x.producer_run_id == r) rows
other_run digest e n r rows st sealed not_sealed = elim (Bool-cases (e.producer.run_id == r)) [
  | inl hit ↦
      let same : e.producer.run_id ≡ r = ground arith in
      absurd (let both = ap (λ k. is_sealed_run k st) same in ground arith)
  | inr miss ↦ ground arith
]

module _ (manifest : List TrackSeal → Text) (digest : Body → Text) where
  delivered-IsFrozen :
      (r : Uuid) (e : Body) (work : ℕ → Store → Stored Store) (receipt : Receipt) (a b : Store)
      → Work work
      → ingest digest e work a ≡ ok (receipt, b)
      → is_sealed_run r a ≡ true
      → IsFrozen r a b
  delivered-IsFrozen r e work receipt a b w h s = elim (ingest_cases digest e work a b receipt h) [
    | inl (dup, found) ↦
        let (row, there, same, seq, st) = register_event_found digest e a b receipt found dup in
        subst (IsFrozen r a) st (record { closed = s; same = refl })
    | inr (new, i) ↦
        let kept = w receipt.store_seq i.before i.after i.worked in
        let shape = append_outbox_row e receipt i.after b i.appended in
        let g = i.registered in
        record {
          closed = ap (is_sealed_run r) shape ∙ kept.closed r (ap (is_sealed_run r) g.store ∙ s);
          same =
              ap (events_of r) shape
              ∙ ap (keep (λ x. x.producer_run_id == r)) kept.log
              ∙ ap (events_of r) g.store
              ∙ other_run digest e (a.last_seq + 1) r a.ingested a s g.unsealed;
        }
  ]

  Effect-IsFrozen :
      (r : Uuid) (a b : Store) → Effect digest a b → is_sealed_run r a ≡ true → IsFrozen r a b
  Effect-IsFrozen r a _ stays s = record { closed = s; same = refl }
  Effect-IsFrozen r a _ (opened spec b new u made) s = record {
    closed = u.closed r s;
    same = ap (keep (λ x. x.producer_run_id == r)) u.log;
  }
  Effect-IsFrozen r a _ (tracked tracks) s = record { closed = s; same = refl }
  Effect-IsFrozen r a _ (delivered e work receipt b t h) s =
      delivered-IsFrozen r e work receipt a b (Task-Work t) h s

  -- Once a producer run is sealed or reconciled, no run of operations adds to what it has ingested,
  -- takes from it or opens it again. The store is consistent.
  pub sealed_run_frozen :
      (r : Uuid) (ops : List Operation) (st : Store)
      → IsConsistent st
      → is_sealed_run r st ≡ true
      → (is_sealed_run r (run manifest digest ops st) ≡ true)
        × (events_of r (run manifest digest ops st) ≡ events_of r st)
  unfolding run
  sealed_run_frozen r [] st i s = (s, refl)
  sealed_run_frozen r (op ∷ ops) st i s =
      let next = perform manifest digest op st in
      let f = Effect-IsFrozen r st next (perform-Effect manifest digest op st i.log) s in
      let (closed, same) =
        sealed_run_frozen r ops next (perform-IsConsistent manifest digest op st i) f.closed in
      (closed, same ∙ f.same)
