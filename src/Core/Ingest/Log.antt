-- ===== src/Core/Ingest/Log.antt =====
-- The invariant of the ingested events and the outbox, and that `ingest` keeps it.
use forum_agent.Shared.{
  ℕ, ◌+◌, ◌≤◌, ◌<◌, ◌≡◌, refl, ◌⊎◌, Bool, true, false, ◌||◌, ◌&&◌, List, [], ◌∷◌, map, arith, ◌∙◌,
  ap, sym, ◌==◌, inl, inr, Bool-cases, All, Result, ok, ◌>>=◌, >>=-inversion, >>-inversion, keep,
}
use forum_agent.Text.{Text}
use forum_agent.Contracts.{Uuid}
use forum_agent.Core.{StoreError, Stored}
use forum_agent.Core.Tables.{Body, IngestedRow, OutboxRow, Store, insert_new}
use forum_agent.Core.Ingest.{
  Receipt, require_session, same_key, same_delivery, new_row, decide_delivery, register_event,
  append_outbox, settle_delivery, ingest, is_sealed_run,
}

-- Two rows that a unique key of `ingested_events` tells to be one.
abbrev pub clash : IngestedRow → IngestedRow → Bool
clash r s =
    r.message_id == s.message_id
    || r.producer_run_id == s.producer_run_id && r.producer_seq == s.producer_seq

-- Each row is newer than all behind it, and shares no key with them.
abbrev pub Ordered : List IngestedRow → Type 0
Ordered [] = Unit
Ordered (r ∷ rows) =
    All (λ s. (s.store_seq < r.store_seq) × (clash s r ≡ false)) rows × Ordered rows

-- What the outbox repeats of an ingested event.
pub record Entry : Type 0 where
  pub store_seq : ℕ
  pub message_id : Uuid
  pub body : Body

abbrev pub sent : OutboxRow → Entry
sent r = record { store_seq = r.store_seq; message_id = r.message_id; body = r.body }

abbrev pub received : IngestedRow → Entry
received r = record { store_seq = r.store_seq; message_id = r.message_id; body = r.body }

pub record IsLog (st : Store) : Type 0 where
  pub bounded : All (λ r. r.store_seq ≤ st.last_seq) st.ingested
  pub ordered : Ordered st.ingested
  pub published : map sent st.outbox ≡ map received st.ingested

-- What an operation's own work leaves alone.
pub record Keeps (a b : Store) : Type 0 where
  pub log : b.ingested ≡ a.ingested
  pub queue : b.outbox ≡ a.outbox
  pub counter : b.last_seq ≡ a.last_seq
  pub specs : map (λ r. r.spec) b.sessions ≡ map (λ r. r.spec) a.sessions
  pub closed : (run : Uuid) → is_sealed_run run a ≡ true → is_sealed_run run b ≡ true

pub Keeps-refl : (a : Store) → Keeps a a
Keeps-refl a = record {
  log = refl;
  queue = refl;
  counter = refl;
  specs = refl;
  closed = λ run h. h;
}

pub Keeps-trans : {a b c : Store} → Keeps a b → Keeps b c → Keeps a c
Keeps-trans p q = record {
  log = q.log ∙ p.log;
  queue = q.queue ∙ p.queue;
  counter = q.counter ∙ p.counter;
  specs = q.specs ∙ p.specs;
  closed = λ run h. q.closed run (p.closed run h);
}

abbrev pub Work : (ℕ → Store → Stored Store) → Type 0
Work work = (n : ℕ) (a b : Store) → work n a ≡ ok b → Keeps a b

pub insert_new_shape :
    {A : Type 0} (clash : A → Bool) (row : A) (rows out : List A)
    → insert_new clash row rows ≡ ok out
    → out ≡ row ∷ rows
insert_new_shape clash row rows out h = ground arith

-- No kept row is one that the test accepts.
pub keep_none :
    {A : Type 0} (p : A → Bool) (rows : List A) → keep p rows ≡ [] → All (λ r. p r ≡ false) rows
keep_none p [] h = tt
keep_none p (r ∷ rows) h = elim (Bool-cases (p r)) [
  | inl e ↦ absurd (ground arith)
  | inr e ↦ (e, keep_none p rows (ground arith))
]

-- What `register_event` does to the store.
pub record Registered (digest : Body → Text) (e : Body) (a b : Store) (receipt : Receipt)
    : Type 0 where
  pub fresh : keep (same_key e) a.ingested ≡ []
  pub unsealed : is_sealed_run e.producer.run_id a ≡ false
  pub seq : receipt.store_seq ≡ a.last_seq + 1
  pub message : receipt.message_id ≡ e.message_id
  pub store : b ≡ record a {
    last_seq = a.last_seq + 1;
    ingested = new_row digest e (a.last_seq + 1) ∷ a.ingested;
  }

pub append_outbox_row :
    (e : Body) (receipt : Receipt) (a b : Store)
    → append_outbox e receipt a ≡ ok b
    → b ≡ record a {
      outbox =
          record {
            store_seq = receipt.store_seq;
            message_id = e.message_id;
            session_id = e.session_id;
            event_type = e.event_type;
            body = e;
          }
          ∷ a.outbox;
    }
unfolding append_outbox
append_outbox_row e receipt a b h = ground arith

pub settle_delivery_cases :
    (e : Body) (work : ℕ → Store → Stored Store) (r receipt : Receipt) (b c : Store)
    → settle_delivery e work r b ≡ ok (receipt, c)
    → (r ≡ receipt)
      × (((r.duplicate ≡ true) × (b ≡ c))
          ⊎ ((d : Store) × (r.duplicate ≡ false)
              × (work r.store_seq b ≡ ok d)
              × (append_outbox e r d ≡ ok c)))
unfolding settle_delivery
settle_delivery_cases e work r receipt b c h = elim (Bool-cases r.duplicate) [
  | inl dup ↦ (ground arith, inl (dup, ground arith))
  | inr new ↦
      let rest : Result StoreError (Receipt × Store) = (do
        st2 ← work r.store_seq b
        st3 ← append_outbox e r st2
        ok (r, st3)) in
      let h' : rest ≡ ok (receipt, c) = ground arith in
      let (d, worked, h1) =
        >>=-inversion {B = Receipt × Store} (work r.store_seq b)
          (λ st2. do st3 ← append_outbox e r st2; ok (r, st3)) {value = (receipt, c)} h' in
      let (x, appended, h2) =
        >>=-inversion {B = Receipt × Store} (append_outbox e r d) (λ st3. ok (r, st3))
          {value = (receipt, c)} h1 in
      let same : r ≡ receipt = cc h2 in
      let stays : x ≡ c = cc h2 in (same, inr (d, new, worked, appended ∙ ap ok stays))
]

module _ (digest : Body → Text) where
  register_new :
      (e : Body) (a b : Store) (receipt : Receipt) (earlier : List IngestedRow)
      → decide_delivery digest e a earlier ≡ ok (receipt, b)
      → receipt.duplicate ≡ false
      → (earlier ≡ [])
        × (receipt.store_seq ≡ a.last_seq + 1)
        × (receipt.message_id ≡ e.message_id)
        × (is_sealed_run e.producer.run_id a ≡ false)
        × (b ≡ record a {
          last_seq = a.last_seq + 1;
          ingested = new_row digest e (a.last_seq + 1) ∷ a.ingested;
        })
  unfolding decide_delivery
  register_new e a b receipt [] h n = ground arith
  register_new e a b receipt (r ∷ rows) h n = ground arith

  pub register_event_new :
      (e : Body) (a b : Store) (receipt : Receipt)
      → register_event digest e a ≡ ok (receipt, b)
      → receipt.duplicate ≡ false
      → Registered digest e a b receipt
  unfolding register_event
  register_event_new e a b receipt h n =
      let (session, looked, h1) = >>=-inversion (require_session e.session_id a) _ h in
      let (scoped, h2) =
        >>-inversion _ (decide_delivery digest e a (keep (same_key e) a.ingested)) h1 in
      let (none_there, seq, message, unsealed, store) = register_new e a b receipt _ h2 n in
      record {
        fresh = none_there;
        unsealed = unsealed;
        seq = seq;
        message = message;
        store = store;
      }

  decide_delivery_found :
      (e : Body) (a b : Store) (receipt : Receipt) (earlier : List IngestedRow)
      → decide_delivery digest e a earlier ≡ ok (receipt, b)
      → receipt.duplicate ≡ true
      → (r : IngestedRow) × (earlier ≡ r ∷ [])
        × (same_delivery digest e r ≡ true)
        × (receipt.store_seq ≡ r.store_seq)
        × (a ≡ b)
  unfolding decide_delivery
  decide_delivery_found e a b receipt [] h n = absurd (ground arith)
  decide_delivery_found e a b receipt (r ∷ []) h n = elim (Bool-cases (same_delivery digest e r)) [
    | inl same ↦ (r, refl, same, ground arith, ground arith)
    | inr other ↦ absurd (ground arith)
  ]
  decide_delivery_found e a b receipt (r ∷ s ∷ rows) h n = absurd (ground arith)

  -- A duplicate is one ingested row with all the keys and the digest of the delivery.
  pub register_event_found :
      (e : Body) (a b : Store) (receipt : Receipt)
      → register_event digest e a ≡ ok (receipt, b)
      → receipt.duplicate ≡ true
      → (r : IngestedRow) × (keep (same_key e) a.ingested ≡ r ∷ [])
        × (same_delivery digest e r ≡ true)
        × (receipt.store_seq ≡ r.store_seq)
        × (a ≡ b)
  unfolding register_event
  register_event_found e a b receipt h dup =
      let (session, looked, h1) = >>=-inversion (require_session e.session_id a) _ h in
      let (scoped, h2) =
        >>-inversion _ (decide_delivery digest e a (keep (same_key e) a.ingested)) h1 in
      decide_delivery_found e a b receipt _ h2 dup

  -- What a delivery that is not a duplicate went through.
  pub record Ingested (e : Body) (work : ℕ → Store → Stored Store) (a c : Store) (receipt : Receipt)
      : Type 0 where
    pub before : Store
    pub after : Store
    pub registered : Registered digest e a before receipt
    pub worked : work receipt.store_seq before ≡ ok after
    pub appended : append_outbox e receipt after ≡ ok c

  -- A delivery returns what `register_event` returned on a duplicate, or has gone through its work
  -- and its outbox row.
  pub ingest_cases :
      (e : Body) (work : ℕ → Store → Stored Store) (a c : Store) (receipt : Receipt)
      → ingest digest e work a ≡ ok (receipt, c)
      → ((receipt.duplicate ≡ true) × (register_event digest e a ≡ ok (receipt, c)))
        ⊎ ((receipt.duplicate ≡ false) × Ingested e work a c receipt)
  unfolding ingest
  ingest_cases e work a c receipt h =
      let (r, looked, h1) = >>=-inversion (register_event digest e a) _ h in
      let (same, how) = settle_delivery_cases e work r.0 receipt r.1 c h1 in
      elim how [
        | inl (dup, stays) ↦
            inl (ap (λ x. x.duplicate) (sym same) ∙ dup, looked ∙ ap ok (ground arith))
        | inr (d, new, worked, appended) ↦
            let new' : receipt.duplicate ≡ false = ap (λ x. x.duplicate) (sym same) ∙ new in
            let looked' : register_event digest e a ≡ ok (receipt, r.1) =
              looked ∙ ap (λ x. ok (x, r.1)) same in
            inr (
              new',
              record {
                before = r.1;
                after = d;
                registered = register_event_new e a r.1 receipt looked' new';
                worked = ap (λ x. work x.store_seq r.1) (sym same) ∙ worked;
                appended = ap (λ x. append_outbox e x d) (sym same) ∙ appended;
              },
            )
      ]
