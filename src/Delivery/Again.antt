-- ===== src/Delivery/Again.antt =====
-- An event that is flushed twice is in the store once.
use forum_agent.Shared.{
  ℕ, ◌≡◌, ◌<◌, refl, Bool, true, false, ◌&&◌, not, ◌==◌, ◌||◌, some, Result, ok, arith, ap, sym,
  ◌∙◌, subst, inl, inr, Bool-cases, Result-cases, >>=-inversion,
}
use forum_agent.Text.{Text}
use forum_agent.Contracts.{Uuid}
use forum_agent.Contracts.Session.{SessionSpec}
use forum_agent.Core.{Stored, StoreError}
use forum_agent.Core.Tables.{Body, Payload, Store}
use forum_agent.Core.Ingest.{Receipt, ingest}
use forum_agent.Core.Ingest.Log.{Work}
use forum_agent.Core.Ingest.Replay.{Later, redelivery}
use forum_agent.Runtime.Outbox.{
  DurableProducer, DurableReceipt, Flushed, RpcError, Turn, acknowledged, exact_receipt, flush_one,
  kept, queued, send,
}
use forum_agent.Runtime.Outbox.Kept.{exact_receipt_exact, queued-IsNamed}
use forum_agent.Delivery.{durable, serve_ingest}

exact_again :
    (id n m : ℕ)
    → n ≡ id
    → 0 < m
    → exact_receipt id (some (record { message_id = n; store_seq = m; duplicate = true }))
      ≡ ok (record { message_id = id; store_seq = m; duplicate = true })
exact_again id n m e h =
    let fits : (not (n == id) || m == 0) ≡ false = ground arith in
    rw fits (ap (λ x. ok (record { message_id = x; store_seq = m; duplicate = true })) e)

queued_again :
    (id : Uuid) (p : DurableProducer Payload) (w : Bool)
    → queued true id (record p { cleanup_warning = w }) ≡ queued true id p
unfolding queued
queued_again id p w = refl

module _ (digest : Body → Text) (checks : Body → Stored (Unit {0}))
    (work : Body → ℕ → Store → Stored Store) (core_error : StoreError → RpcError)
    (scope : SessionSpec) where
  -- What an answer with a receipt says of the store.
  served :
      (e : Body) (a : Store) (r : DurableReceipt)
      → (serve_ingest digest checks work core_error scope e a).0 ≡ ok (some r)
      → (receipt : Receipt) × (b : Store) × (ingest digest e (work e) a ≡ ok (receipt, b))
        × (durable receipt ≡ r)
        × ((c : Store) (again : Receipt)
            → ingest digest e (work e) c ≡ ok (again, c)
            → serve_ingest digest checks work core_error scope e c ≡ (ok (some (durable again)), c))
        × ((serve_ingest digest checks work core_error scope e a).1 ≡ b)
  unfolding serve_ingest
  served e a r h =
      elim (Bool-cases (
        e.session_id == scope.session_id
        && e.event_id == scope.event_id
        && e.room_id == scope.room_id)) [
          | inr t ↦ absurd (let k = rw (t, serve_ingest) at h in cc k)
          | inl t ↦ elim (Result-cases (checks e)) [
            | inr (x, bad) ↦ absurd (let k = rw (t, bad, serve_ingest) at h in cc k)
            | inl (fine, good) ↦ elim (Result-cases (ingest digest e (work e) a)) [
              | inr (x, failed) ↦ absurd (let k = rw (t, good, failed, serve_ingest) at h in cc k)
              | inl ((receipt, b), took) ↦
                  let k = rw (t, good, took, serve_ingest) at h in
                  (
                    receipt,
                    b,
                    took,
                    cc k,
                    λ c again g. rw (t, good, g, serve_ingest) refl,
                    rw (t, good, took, serve_ingest) refl,
                  )
            ]
          ]
        ]

  abbrev pub flushed :
      Turn
      → Uuid
      → DurableProducer Payload
      → Store
      → Flushed Payload Store (Result RpcError DurableReceipt)
  flushed turn id p st = flush_one (serve_ingest digest checks work core_error scope) turn id p st

  -- A flush whose file could not be removed, though the store has the event: the file is flushed
  -- again, after any number of other ingestions. The second flush is answered with the receipt of
  -- the first, marked as a duplicate, and the store is left as it is. Every work leaves the log and
  -- the sessions' specifications alone, and the directory can be listed both times.
  pub delivered_once :
      ((e : Body) → Work (work e))
      → (first second : Turn) (id : Uuid) (p : DurableProducer Payload) (a c : Store)
        (r : DurableReceipt)
      → first.listed ≡ true
      → second.listed ≡ true
      → first.cleanup ≡ kept
      → (flushed first id p a).result ≡ ok r
      → Later digest (flushed first id p a).core c
      → ((flushed second id (flushed first id p a).producer c).result
          ≡ ok (record { message_id = id; store_seq = r.store_seq; duplicate = true }))
        × ((flushed second id (flushed first id p a).producer c).core ≡ c)
  unfolding flush_one send
  delivered_once works first second id p a c r listed listed' unlinked h later =
      elim (Result-cases (queued true id p)) [
        | inr (x, missing) ↦ absurd (let k = rw (listed, missing) at h in cc k)
        | inl (e, found) ↦
            let k = rw (listed, found) at h in
            let (value, replied, exact) =
              >>=-inversion (serve_ingest digest checks work core_error scope e.event a).0 _ k in
            let (is_r, of_r, numbered) = exact_receipt_exact e.message_id value r exact in
            let (asked, named) = queued-IsNamed true id p e found in
            let (receipt, b, took, same, again, core) = served e.event a r (replied ∙ ap ok is_r) in
            let from = rw (listed, found, core) at later in
            let repeated =
              redelivery digest e.event (work e.event) (work e.event) a b c receipt (works e.event)
                took from in
            let reply = again c _ repeated in
            let after : (flushed first id p a).producer ≡ record p { cleanup_warning = true } =
              rw (listed, found, k, unlinked) refl in
            let numbered_too : 0 < receipt.store_seq =
              subst (λ x. 0 < x.store_seq) (sym same) numbered in
            let exact_too : acknowledged (serve_ingest digest checks work core_error scope) e c
                ≡ ok (record { message_id = id; store_seq = receipt.store_seq; duplicate = true }) =
              rw
                (
                  reply,
                  exact_again e.message_id e.event.message_id receipt.store_seq named.of_event
                      numbered_too,
                  asked,
                )
                refl in
            let seq : receipt.store_seq ≡ r.store_seq = ap (λ x. x.store_seq) same in
            let found_too : queued true id (record p { cleanup_warning = true }) ≡ ok e =
              queued_again id p true ∙ found in
            rw (after, listed', found_too)
              (
                exact_too
                    ∙ ap (λ n. ok (record { message_id = id; store_seq = n; duplicate = true }))
                        seq,
                ap (λ x. x.1) reply,
              )
      ]
