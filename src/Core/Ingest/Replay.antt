-- ===== src/Core/Ingest/Replay.antt =====
-- A delivery that is repeated, or that contradicts an earlier one.
use forum_agent.Shared.{
  ℕ, ◌≡◌, refl, ◌≢◌, ◌⊎◌, Bool, true, false, ◌&&◌, List, [], ◌∷◌, arith, ◌∙◌, ap, sym, inl, inr,
  Bool-cases, ok, err, keep,
}
use forum_agent.Text.{Text, text_eq, is_empty}
use forum_agent.Text.Slices.{text_eq_iff}
use forum_agent.Core.{Stored, StoreError, event_id_conflict}
use forum_agent.Core.Tables.{Body, IngestedRow, Store}
use forum_agent.Core.Ingest.{
  Receipt, same_key, same_delivery, decide_delivery, register_event, ingest,
}
use forum_agent.Core.Ingest.Log.{Work}
use forum_agent.Core.Ingest.Accepted.{
  Scoped, Accepted, Scoped-register_event, ingest-Accepted, Accepted-ingest,
}

one_or_more :
    {A : Type 0} (x : A) (xs : List A)
    → (x ∷ xs ≡ x ∷ []) ⊎ ((s t : A) × (rest : List A) × (x ∷ xs ≡ s ∷ t ∷ rest))
one_or_more x [] = inl refl
one_or_more x (y ∷ ys) = inr (x, y, ys, refl)

keep_shared :
    {A : Type 0} (p q : A → Bool) (xs : List A) (r : A)
    → keep p xs ≡ r ∷ []
    → q r ≡ true
    → (keep q xs ≡ r ∷ []) ⊎ ((s t : A) × (rest : List A) × (keep q xs ≡ s ∷ t ∷ rest))
keep_shared p q [] r h n = absurd (cc h)
keep_shared p q (x ∷ xs) r h n = elim (Bool-cases (p x)) [
  | inl here ↦
      let now : x ≡ r = ground arith in
      let hit : q x ≡ true = ap q now ∙ n in
      let start : keep q (x ∷ xs) ≡ x ∷ keep q xs = ground arith in
      elim (one_or_more x (keep q xs)) [
        | inl single ↦ inl (start ∙ single ∙ ap (λ y. y ∷ []) now)
        | inr (s, t, rest, several) ↦ inr (s, t, rest, start ∙ several)
      ]
  | inr there ↦ elim (Bool-cases (q x)) [
    | inl hit ↦ elim (keep_shared p q xs r (ground arith) n) [
      | inl single ↦ inr (x, r, [], ground arith)
      | inr (s, t, rest, several) ↦ inr (x, s, t ∷ rest, ground arith)
    ]
    | inr miss ↦ elim (keep_shared p q xs r (ground arith) n) [
      | inl single ↦ inl (ground arith)
      | inr (s, t, rest, several) ↦ inr (s, t, rest, ground arith)
    ]
  ]
]

module _ (digest : Body → Text) where
  ingest-register_event :
      (e : Body) (work : ℕ → Store → Stored Store) (st : Store)
      → ((n : ℕ)
          → register_event digest e st
            ≡ ok (record { message_id = e.message_id; store_seq = n; duplicate = true }, st)
          → ingest digest e work st
            ≡ ok (record { message_id = e.message_id; store_seq = n; duplicate = true }, st))
        × ((x : StoreError) → register_event digest e st ≡ err x → ingest digest e work st ≡ err x)
  unfolding ingest
  ingest-register_event e work st = (λ n h. rw h refl, λ x h. rw h refl)

  decide_delivery-one :
      (e : Body) (st : Store) (r : IngestedRow)
      → same_delivery digest e r ≡ true
      → decide_delivery digest e st (r ∷ [])
        ≡ ok (record { message_id = e.message_id; store_seq = r.store_seq; duplicate = true }, st)
  unfolding decide_delivery
  decide_delivery-one e st r h = rw h refl

  decide_delivery-other :
      (e : Body) (st : Store) (r : IngestedRow) (rows : List IngestedRow)
      → (is_empty rows && same_delivery digest e r) ≡ false
      → decide_delivery digest e st (r ∷ rows) ≡ err event_id_conflict
  unfolding decide_delivery
  decide_delivery-other e st r rows h = rw h refl

  repeat :
      (e : Body) (n : ℕ) (work : ℕ → Store → Stored Store) (st : Store)
      → Accepted digest e n st
      → ingest digest e work st
        ≡ ok (record { message_id = e.message_id; store_seq = n; duplicate = true }, st)
  repeat e n work st acc = (ingest-register_event e work st).0 n (
      Scoped-register_event digest e st acc.scoped
      ∙ ap (decide_delivery digest e st) acc.there
      ∙ decide_delivery-one e st acc.row acc.same
      ∙ ap (λ k. ok (record { message_id = e.message_id; store_seq = k; duplicate = true }, st))
          acc.seq)

  shares :
      (e f : Body) (r : IngestedRow)
      → same_delivery digest e r ≡ true
      → (f.message_id ≡ e.message_id)
        ⊎ ((f.producer.run_id ≡ e.producer.run_id) × (f.producer.seq ≡ e.producer.seq))
      → same_key f r ≡ true
  shares e f r same (inl m) = ground arith
  shares e f r same (inr (p, q)) = ground arith

  differs :
      (e f : Body) (r : IngestedRow)
      → same_delivery digest e r ≡ true
      → digest f ≢ digest e
      → same_delivery digest f r ≡ false
  differs e f r same other = elim (Bool-cases (same_delivery digest f r)) [
    | inr h ↦ h
    | inl h ↦
        let x : text_eq r.body_sha256 (digest e) ≡ true = ground arith in
        let y : text_eq r.body_sha256 (digest f) ≡ true = ground arith in
        absurd (
          other (
            sym ((text_eq_iff r.body_sha256 (digest f)).0 y)
            ∙ (text_eq_iff r.body_sha256 (digest e)).0 x))
  ]

  -- What the ingestion operations lead to.
  pub data Later (a : Store) : Store → Type 0 where
    now : Later a a
    next :
        (f : Body) (work : ℕ → Store → Stored Store) (b c : Store) (receipt : Receipt)
        → Later a b
        → Work work
        → ingest digest f work b ≡ ok (receipt, c)
        → Later a c

  Accepted-Later :
      (e : Body) (n : ℕ) (a b : Store) → Accepted digest e n a → Later a b → Accepted digest e n b
  Accepted-Later e n a _ acc now = acc
  Accepted-Later e n a _ acc (next f work b c receipt l w h) =
      Accepted-ingest digest e f n work b c receipt w (Accepted-Later e n a b acc l) h

  -- An accepted delivery can be repeated: after it has been ingested, and after any number of other
  -- ingestions, the same delivery is answered with its first sequence number, marked as a
  -- duplicate, and changes nothing, whatever work comes with it. The works of the ingestions leave
  -- the log and the sessions' specifications alone.
  pub redelivery :
      (e : Body) (work again : ℕ → Store → Stored Store) (a b c : Store) (receipt : Receipt)
      → Work work
      → ingest digest e work a ≡ ok (receipt, b)
      → Later b c
      → ingest digest e again c
        ≡ ok (
          record { message_id = e.message_id; store_seq = receipt.store_seq; duplicate = true },
          c,
        )
  redelivery e work again a b c receipt w h l =
      repeat e receipt.store_seq again c
        (Accepted-Later e receipt.store_seq b c (ingest-Accepted digest e work a b receipt w h) l)

  -- After a delivery has been ingested, and after any number of other ingestions, a delivery of the
  -- same session, forum and room that shares its message or its producer's sequence number but not
  -- its digest is refused.
  pub conflicting_delivery :
      (e f : Body) (work other : ℕ → Store → Stored Store) (a b c : Store) (receipt : Receipt)
      → Work work
      → ingest digest e work a ≡ ok (receipt, b)
      → Later b c
      → f.session_id ≡ e.session_id
      → f.event_id ≡ e.event_id
      → f.room_id ≡ e.room_id
      → (f.message_id ≡ e.message_id)
        ⊎ ((f.producer.run_id ≡ e.producer.run_id) × (f.producer.seq ≡ e.producer.seq))
      → digest f ≢ digest e
      → ingest digest f other c ≡ err event_id_conflict
  conflicting_delivery e f work other a b c receipt w h l sess forum room shared differ =
      let acc =
        Accepted-Later e receipt.store_seq b c (ingest-Accepted digest e work a b receipt w h) l in
      let s = acc.scoped in
      let scoped : Scoped f c = record {
        session = s.session;
        found = rw sess s.found;
        scope = rw (forum, room) s.scope;
      } in
      let refused : decide_delivery digest f c (keep (same_key f) c.ingested)
          ≡ err event_id_conflict =
        elim (keep_shared (same_key e) (same_key f) c.ingested acc.row acc.there
          (shares e f acc.row acc.same shared)) [
            | inl single ↦
                ap (decide_delivery digest f c) single
                ∙ decide_delivery-other f c acc.row [] (differs e f acc.row acc.same differ)
            | inr (r, t, rest, several) ↦
                ap (decide_delivery digest f c) several
                ∙ decide_delivery-other f c r (t ∷ rest) refl
          ] in
      (ingest-register_event f other c).1 event_id_conflict
        (Scoped-register_event digest f c scoped ∙ refused)
