-- ===== src/Core/Ingest/Invariant.antt =====
-- `ingest` keeps the invariant of the log: sequence numbers grow, keys stay unique, and the outbox
-- repeats the ingested events one for one.
use forum_agent.Shared.{
  ℕ, ◌+◌, ◌≤◌, ◌<◌, ◌≡◌, false, List, [], ◌∷◌, map, arith, subst, ◌∙◌, ap, sym, inl, inr, All,
  All-map, All-zip, ok, keep,
}
use forum_agent.Text.{Text}
use forum_agent.Core.{Stored}
use forum_agent.Core.Tables.{Body, IngestedRow, SessionRow, Store}
use forum_agent.Core.Ingest.{Receipt, same_key, new_row, ingest}
use forum_agent.Core.Ingest.Log.{
  clash, Ordered, sent, received, IsLog, Work, keep_none, Ingested, append_outbox_row,
  register_event_found, ingest_cases,
}

raise_bound :
    (n : ℕ) (rows : List IngestedRow)
    → All (λ r. r.store_seq ≤ n) rows
    → All (λ r. r.store_seq ≤ n + 1) rows
raise_bound n = All-map (λ r. r.store_seq ≤ n) (λ r. r.store_seq ≤ n + 1) (λ r h. omega arith)

strict :
    (n : ℕ) (rows : List IngestedRow)
    → All (λ r. r.store_seq ≤ n) rows
    → All (λ r. r.store_seq < n + 1) rows
strict n = All-map (λ r. r.store_seq ≤ n) (λ r. r.store_seq < n + 1) (λ r h. omega arith)

module _ (digest : Body → Text) where
  Ordered-new :
      (e : Body) (n : ℕ) (rows : List IngestedRow)
      → All (λ r. r.store_seq ≤ n) rows
      → Ordered rows
      → keep (same_key e) rows ≡ []
      → Ordered (new_row digest e (n + 1) ∷ rows)
  Ordered-new e n rows bound ordered fresh = (
    All-zip (λ s. s.store_seq < n + 1) (λ s. clash s (new_row digest e (n + 1)) ≡ false) rows
        (strict n rows bound) (keep_none (same_key e) rows fresh),
    ordered,
  )

  Ingested-IsLog :
      (e : Body) (work : ℕ → Store → Stored Store) (a c : Store) (receipt : Receipt)
      → Work work
      → IsLog a
      → Ingested digest e work a c receipt
      → IsLog c
  Ingested-IsLog e work a c receipt w l i =
      let kept = w receipt.store_seq i.before i.after i.worked in
      let r = i.registered in
      let n = a.last_seq in
      let row = new_row digest e (n + 1) in
      let shape = append_outbox_row e receipt i.after c i.appended in
      let log : c.ingested ≡ row ∷ a.ingested =
        ap (λ s. s.ingested) shape ∙ kept.log ∙ ap (λ s. s.ingested) r.store in
      let counter : c.last_seq ≡ n + 1 =
        ap (λ s. s.last_seq) shape ∙ kept.counter ∙ ap (λ s. s.last_seq) r.store in
      let queue : i.after.outbox ≡ a.outbox = kept.queue ∙ ap (λ s. s.outbox) r.store in
      let older : receipt.store_seq ≡ n + 1 = r.seq in
      let appended : map sent c.outbox
          ≡ record { store_seq = receipt.store_seq; message_id = e.message_id; body = e }
            ∷ map sent i.after.outbox =
        ap (λ s. map sent s.outbox) shape in
      record {
        bounded =
            subst (λ rows. All (λ s. s.store_seq ≤ c.last_seq) rows) (sym log)
              (subst (λ k. All (λ s. s.store_seq ≤ k) (row ∷ a.ingested)) (sym counter)
                (omega arith, raise_bound n a.ingested l.bounded));
        ordered = rw log (Ordered-new e n a.ingested l.bounded l.ordered r.fresh);
        published =
            appended
            ∙ ap
                (λ k.
                  record { store_seq = k; message_id = e.message_id; body = e }
                  ∷ map sent i.after.outbox)
                older
            ∙ ap (λ q. received row ∷ map sent q) queue
            ∙ ap (λ q. received row ∷ q) l.published
            ∙ ap (map received) (sym log);
      }

  -- An accepted delivery keeps the log: every row is newer than the rows behind it and differs from
  -- them in its message and in its producer's sequence number, no row is newer than the counter,
  -- and the outbox holds the same events under the same numbers in the same order. The work is any
  -- that leaves the log, the outbox and the counter alone.
  pub ingest-IsLog :
      (e : Body) (work : ℕ → Store → Stored Store) (a c : Store) (receipt : Receipt)
      → Work work
      → IsLog a
      → ingest digest e work a ≡ ok (receipt, c)
      → IsLog c
  ingest-IsLog e work a c receipt w l h = elim (ingest_cases digest e work a c receipt h) [
    | inl (dup, found) ↦
        let (r, there, same, seq, stays) = register_event_found digest e a c receipt found dup in
        subst IsLog stays l
    | inr (new, i) ↦ Ingested-IsLog e work a c receipt w l i
  ]

  -- What a delivery makes of the sessions is what its work makes of them.
  pub ingest_sessions :
      (P : List SessionRow → Type 0) (e : Body) (work : ℕ → Store → Stored Store) (a c : Store)
      (receipt : Receipt)
      → ((n : ℕ) (x y : Store) → work n x ≡ ok y → P x.sessions → P y.sessions)
      → ingest digest e work a ≡ ok (receipt, c)
      → P a.sessions
      → P c.sessions
  ingest_sessions P e work a c receipt f h p = elim (ingest_cases digest e work a c receipt h) [
    | inl (dup, found) ↦
        let (r, there, same, seq, stays) = register_event_found digest e a c receipt found dup in
        subst (λ st. P st.sessions) stays p
    | inr (new, i) ↦
        let shape = append_outbox_row e receipt i.after c i.appended in
        subst P (sym (ap (λ s. s.sessions) shape)) (
          f receipt.store_seq i.before i.after i.worked
            (subst P (sym (ap (λ s. s.sessions) i.registered.store)) p))
  ]
