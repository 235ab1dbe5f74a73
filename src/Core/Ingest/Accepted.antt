-- ===== src/Core/Ingest/Accepted.antt =====
-- What it is for a delivery to have been accepted, and that ingestion keeps it so.
use forum_agent.Shared.{
  ℕ, ◌+◌, ◌≡◌, refl, subst, Bool, true, false, ◌&&◌, List, [], ◌∷◌, map, arith, ◌∙◌, ap, sym, ◌==◌,
  inl, inr, Bool-cases, ok, keep, find, >>=-inversion, >>-inversion,
}
use forum_agent.Text.{Text}
use forum_agent.Text.Slices.{text_eq_iff}
use forum_agent.Contracts.{Uuid}
use forum_agent.Contracts.Session.{SessionSpec}
use forum_agent.Core.{Stored}
use forum_agent.Core.Tables.{Body, IngestedRow, SessionRow, Store}
use forum_agent.Core.Ingest.{
  Receipt, spec_of, require_session, same_key, same_delivery, new_row, decide_delivery,
  register_event, ingest,
}
use forum_agent.Core.Ingest.Log.{
  Work, Ingested, append_outbox_row, ingest_cases, register_event_found,
}

-- The session that an event names is there and is of the event's forum and room.
pub record Scoped (e : Body) (st : Store) : Type 0 where
  pub session : SessionSpec
  pub found : require_session e.session_id st ≡ ok session
  pub scope : (session.event_id == e.event_id && session.room_id == e.room_id) ≡ true

find_spec :
    (id : Uuid) (xs ys : List SessionRow)
    → map (λ r. r.spec) xs ≡ map (λ r. r.spec) ys
    → spec_of (find (λ r. r.spec.session_id == id) xs)
      ≡ spec_of (find (λ r. r.spec.session_id == id) ys)
find_spec id [] [] h = refl
find_spec id [] (y ∷ ys) h = absurd (cc h)
find_spec id (x ∷ xs) [] h = absurd (cc h)
find_spec id (x ∷ xs) (y ∷ ys) h =
    let head : x.spec ≡ y.spec = cc h in
    let rest = find_spec id xs ys (cc h) in
    let same : (x.spec.session_id == id) ≡ (y.spec.session_id == id) =
      ap (λ s. s.session_id == id) head in
    elim (Bool-cases (x.spec.session_id == id)) [
      | inl here ↦ ground arith
      | inr there ↦ ground arith
    ]

require_session_same :
    (id : Uuid) (a b : Store)
    → map (λ r. r.spec) b.sessions ≡ map (λ r. r.spec) a.sessions
    → require_session id b ≡ require_session id a
unfolding require_session
require_session_same id a b h = find_spec id b.sessions a.sessions h

Scoped-same :
    (e : Body) (a b : Store)
    → map (λ r. r.spec) b.sessions ≡ map (λ r. r.spec) a.sessions
    → Scoped e a
    → Scoped e b
Scoped-same e a b h s = record {
  session = s.session;
  found = require_session_same e.session_id a b h ∙ s.found;
  scope = s.scope;
}

keep_apart :
    {A : Type 0} (p q : A → Bool) (xs : List A) (r : A)
    → keep p xs ≡ r ∷ []
    → keep q xs ≡ []
    → q r ≡ false
keep_apart p q [] r h n = absurd (cc h)
keep_apart p q (x ∷ xs) r h n = elim (Bool-cases (q x)) [
  | inl now ↦ absurd (ground arith)
  | inr later ↦ elim (Bool-cases (p x)) [
    | inl here ↦ ground arith
    | inr there ↦ keep_apart p q xs r (ground arith) (ground arith)
  ]
]

module _ (digest : Body → Text) where
  -- The delivery `e` has been ingested under the number `n`.
  pub record Accepted (e : Body) (n : ℕ) (st : Store) : Type 0 where
    pub scoped : Scoped e st
    pub row : IngestedRow
    pub there : keep (same_key e) st.ingested ≡ row ∷ []
    pub same : same_delivery digest e row ≡ true
    pub seq : row.store_seq ≡ n

  register_event-Scoped :
      (e : Body) (a b : Store) (receipt : Receipt)
      → register_event digest e a ≡ ok (receipt, b)
      → Scoped e a
  unfolding register_event
  register_event-Scoped e a b receipt h =
      let (session, looked, h1) = >>=-inversion (require_session e.session_id a) _ h in
      let (scoped, h2) =
        >>-inversion _ (decide_delivery digest e a (keep (same_key e) a.ingested)) h1 in
      record { session = session; found = looked; scope = ground arith }

  pub Scoped-register_event :
      (e : Body) (a : Store)
      → Scoped e a
      → register_event digest e a ≡ decide_delivery digest e a (keep (same_key e) a.ingested)
  unfolding register_event
  Scoped-register_event e a s = rw s.found (ground arith)

  Ingested-Scoped :
      (e : Body) (work : ℕ → Store → Stored Store) (a c : Store) (receipt : Receipt)
      → ingest digest e work a ≡ ok (receipt, c)
      → Scoped e a
  unfolding ingest
  Ingested-Scoped e work a c receipt h =
      let (r, looked, h1) = >>=-inversion (register_event digest e a) _ h in
      register_event-Scoped e a r.1 r.0 looked

  same_key-new :
      (e : Body) (n : ℕ) (rows : List IngestedRow)
      → keep (same_key e) rows ≡ []
      → keep (same_key e) (new_row digest e n ∷ rows) ≡ new_row digest e n ∷ []
  same_key-new e n rows h = ground arith

  same_delivery-new : (e : Body) (n : ℕ) → same_delivery digest e (new_row digest e n) ≡ true
  same_delivery-new e n = let t = (text_eq_iff (digest e) (digest e)).1 refl in ground arith

  no_shared_key :
      (e f : Body) (r : IngestedRow)
      → same_delivery digest e r ≡ true
      → same_key f r ≡ false
      → (e2 : ℕ) → same_key e (new_row digest f e2) ≡ false
  no_shared_key e f r same apart n = ground arith

  -- What is ingested besides `e` leaves it accepted.
  Accepted-new :
      (e f : Body) (n m : ℕ) (a : Store) (acc : Accepted e n a)
      → keep (same_key f) a.ingested ≡ []
      → keep (same_key e) (new_row digest f m ∷ a.ingested) ≡ acc.row ∷ []
  Accepted-new e f n m a acc fresh =
      let apart : same_key f acc.row ≡ false =
        keep_apart (same_key e) (same_key f) a.ingested acc.row acc.there fresh in
      let miss = no_shared_key e f acc.row acc.same apart m in let there = acc.there in ground arith

  log_after :
      (e : Body) (work : ℕ → Store → Stored Store) (a c : Store) (receipt : Receipt)
      → Work work
      → Ingested digest e work a c receipt
      → (c.ingested ≡ new_row digest e (a.last_seq + 1) ∷ a.ingested)
        × (map (λ r. r.spec) c.sessions ≡ map (λ r. r.spec) a.sessions)
  log_after e work a c receipt w i =
      let kept = w receipt.store_seq i.before i.after i.worked in
      let shape = append_outbox_row e receipt i.after c i.appended in
      (
        ap (λ s. s.ingested) shape ∙ kept.log ∙ ap (λ s. s.ingested) i.registered.store,
        ap (λ s. map (λ r. r.spec) s.sessions) shape
            ∙ kept.specs
            ∙ ap (λ s. map (λ r. r.spec) s.sessions) i.registered.store,
      )

  pub ingest-Accepted :
      (e : Body) (work : ℕ → Store → Stored Store) (a c : Store) (receipt : Receipt)
      → Work work
      → ingest digest e work a ≡ ok (receipt, c)
      → Accepted e receipt.store_seq c
  ingest-Accepted e work a c receipt w h = elim (ingest_cases digest e work a c receipt h) [
    | inl (dup, found) ↦
        let (r, there, same, seq, stays) = register_event_found digest e a c receipt found dup in
        subst (λ st. Accepted e receipt.store_seq st) stays
          (record {
            scoped = register_event-Scoped e a c receipt found;
            row = r;
            there = there;
            same = same;
            seq = sym seq;
          })
    | inr (new, i) ↦
        let (log, specs) = log_after e work a c receipt w i in
        record {
          scoped = Scoped-same e a c specs (Ingested-Scoped e work a c receipt h);
          row = new_row digest e (a.last_seq + 1);
          there =
              ap (keep (same_key e)) log
              ∙ same_key-new e (a.last_seq + 1) a.ingested i.registered.fresh;
          same = same_delivery-new e (a.last_seq + 1);
          seq = sym i.registered.seq;
        }
  ]

  pub Accepted-ingest :
      (e f : Body) (n : ℕ) (work : ℕ → Store → Stored Store) (a c : Store) (receipt : Receipt)
      → Work work
      → Accepted e n a
      → ingest digest f work a ≡ ok (receipt, c)
      → Accepted e n c
  Accepted-ingest e f n work a c receipt w acc h = elim (ingest_cases digest f work a c receipt h) [
    | inl (dup, found) ↦
        let (r, there, same, seq, stays) = register_event_found digest f a c receipt found dup in
        subst (λ st. Accepted e n st) stays acc
    | inr (new, i) ↦
        let (log, specs) = log_after f work a c receipt w i in
        record {
          scoped = Scoped-same e a c specs acc.scoped;
          row = acc.row;
          there =
              ap (keep (same_key e)) log
              ∙ Accepted-new e f n (a.last_seq + 1) a acc i.registered.fresh;
          same = acc.same;
          seq = acc.seq;
        }
  ]
