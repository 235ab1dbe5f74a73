-- ===== src/Runtime/Outbox/Delivery.antt =====
-- With a core that answers, a flush delivers everything.
use forum_agent.Shared.{
  ℕ, ◌≡◌, ◌<◌, ◌+◌, refl, Bool, true, false, not, ◌==◌, some, List, [], ◌∷◌, Result, ok, keep,
  Bool-cases, inl, inr, arith, All, sym, ◌∙◌, ap, subst, length, leb, ==_refl, All-map, All-zip,
}
use forum_agent.Contracts.{Uuid}
use forum_agent.Runtime.Outbox.Names.{FileName, same_name, sort, keep-sort}
use forum_agent.Runtime.Outbox.{
  OutboxFile, PendingEvent, DurableProducer, RpcError, DurableReceipt, Turn, Call, removed,
  RuntimeConfig, without, queued, exact_receipt, send, flush_one, after_one, flush_all,
  flush_pending, Flushed, pending, check_files,
}
use forum_agent.Runtime.Outbox.Kept.{
  IsNamed, check_file-IsNamed, check_files_cons, check_files-IsNamed, pending_listed,
}

-- A turn without failures.
abbrev pub IsHealthy : Turn → Type 0
IsHealthy t = (t.listed ≡ true) × (t.cleanup ≡ removed)

length-keep {ℓ} :
    {A : Type ℓ} (q : A → Bool) (xs : List A) → leb (length (keep q xs)) (length xs) ≡ true
length-keep q [] = refl
length-keep q (x ∷ xs) = elim (Bool-cases (q x)) [
  | inl e ↦ ground (arith, length-keep q xs)
  | inr e ↦ ground (arith, length-keep q xs)
]

module _ {ℓ} {T : Type ℓ} where
  check_files-keep :
      (c : RuntimeConfig) (q : FileName → Bool) (files : List (OutboxFile T))
      (events : List (PendingEvent T))
      → check_files c files ≡ ok events
      → check_files c (keep (λ f. q f.name) files) ≡ ok (keep (λ e. q e.path) events)
  unfolding check_files
  check_files-keep c q [] events h =
      let done : [] ≡ events = cc h in
      subst (λ es. check_files c [] ≡ ok (keep (λ e. q e.path) es)) done refl
  check_files-keep c q (f ∷ files) events h =
      let (e, rest, here, later, shape) = check_files_cons c f files events h in
      let kept = check_files-keep c q files rest later in
      let path = (check_file-IsNamed c f e here).0 in
      subst (λ es. check_files c (keep (λ f. q f.name) (f ∷ files)) ≡ ok (keep (λ e. q e.path) es))
        shape
        (elim (Bool-cases (q f.name)) [
          | inl t ↦ rw (path, t, here, kept) refl
          | inr t ↦ rw (path, t) kept
        ])

  -- What is pending once a file is gone.
  pending-without :
      (c : RuntimeConfig) (n : FileName) (files : List (OutboxFile T))
      (events : List (PendingEvent T))
      → pending true c files ≡ ok events
      → pending true c (without n files) ≡ ok (keep (λ e. not (same_name n e.path)) events)
  unfolding pending
  pending-without c n files events h =
      let (read, few, checked) = pending_listed true c files events h in
      let kept =
        check_files-keep c (λ m. not (same_name n m)) (sort (λ f. f.name) files) events checked in
      let sorted = keep-sort (λ f. f.name) (λ f. not (same_name n f.name)) files in
      let shorter = length-keep (λ f. not (same_name n f.name)) (sort (λ f. f.name) files) in
      let few : leb (length (keep (λ f. not (same_name n f.name)) (sort (λ f. f.name) files))) 10000
          ≡ true =
        ground arith in
      rw (← sorted, few, kept) refl

  keep_whole :
      (q : PendingEvent T → Bool) (events : List (PendingEvent T))
      → All (λ e. q e ≡ true) events
      → keep q events ≡ events
  keep_whole q [] h = refl
  keep_whole q (e ∷ events) h = ground (arith, h.0, keep_whole q events h.1)

  abbrev pub DistinctIds : List (PendingEvent T) → Type 0
  DistinctIds [] = Unit
  DistinctIds (e ∷ events) =
      All (λ x. (x.message_id == e.message_id) ≡ false) events × DistinctIds events

  keep_others :
      (e : PendingEvent T) (events : List (PendingEvent T))
      → All IsNamed (e ∷ events)
      → DistinctIds (e ∷ events)
      → keep (λ x. not (same_name e.path x.path)) (e ∷ events) ≡ events
  keep_others e events named distinct =
      let others =
        All-map _ (λ x. not (same_name e.path x.path) ≡ true)
          (λ x h.
            let here = named.0.of_path in
            let there = h.1.of_path in let apart = h.0 in ground arith)
          events (All-zip _ _ events distinct.0 named.1) in
      ground (arith, keep_whole (λ x. not (same_name e.path x.path)) events others)

module _ {ℓ κ} {T : Type ℓ} {S : Type κ} (call : Call T S) where
  -- The core takes the events in this order.
  abbrev pub sends : List (PendingEvent T) → S → S
  sends [] s = s
  sends (e ∷ events) s = sends events (call e.event s).1

  -- It answers each with an exact receipt.
  abbrev pub Acknowledges : List (PendingEvent T) → S → Type 0
  Acknowledges [] s = Unit
  Acknowledges (e ∷ events) s =
      ((r : DurableReceipt) × ((call e.event s).0 ≡ ok (some r))
        × (r.message_id ≡ e.message_id)
        × (0 < r.store_seq))
      × Acknowledges events (call e.event s).1

  first_queued :
      (e : PendingEvent T) (events : List (PendingEvent T)) (p : DurableProducer T)
      → pending true p.config p.files ≡ ok (e ∷ events)
      → queued true e.message_id p ≡ ok e
  unfolding queued
  first_queued e events p h = rw h (ground (arith, ==_refl e.message_id))

  first_sent :
      (turn : Turn) (e : PendingEvent T) (events : List (PendingEvent T)) (p : DurableProducer T)
      (s : S) (r : DurableReceipt)
      → IsHealthy turn
      → pending true p.config p.files ≡ ok (e ∷ events)
      → (call e.event s).0 ≡ ok (some r)
      → r.message_id ≡ e.message_id
      → 0 < r.store_seq
      → flush_one call turn e.message_id p s ≡ record {
        result = ok r;
        producer = record p { files = without e.path p.files };
        core = (call e.event s).1;
      }
  unfolding flush_one send
  first_sent turn e events p s r healthy h replied same numbered =
      let exact : exact_receipt e.message_id (some r) ≡ ok r = ground arith in
      rw (healthy.0, healthy.1, first_queued e events p h, replied, exact) refl

  -- Each event has the receipt that the core gave it, in order.
  abbrev pub Answered :
      List (PendingEvent T) → List (Uuid × Result RpcError DurableReceipt) → S → Type 0
  Answered [] [] s = Unit
  Answered [] (x ∷ answers) s = ⊥
  Answered (e ∷ events) [] s = ⊥
  Answered (e ∷ events) (x ∷ answers) s =
      (x.0 ≡ e.message_id)
      × ((r : DurableReceipt) × (x.1 ≡ ok r) × ((call e.event s).0 ≡ ok (some r)))
      × Answered events answers (call e.event s).1

  pub record IsDelivered (events : List (PendingEvent T)) (s : S)
      (out : Flushed T S (List (Uuid × Result RpcError DurableReceipt))) : Type (ℓ ⊔ κ) where
    pub answered : Answered events out.result s
    pub taken : out.core ≡ sends events s
    pub emptied : pending true out.producer.config out.producer.files ≡ ok []

  flush_all-IsDelivered :
      (turns : ℕ → Turn) (events : List (PendingEvent T)) (i : ℕ) (p : DurableProducer T) (s : S)
      → ((j : ℕ) → IsHealthy (turns j))
      → pending true p.config p.files ≡ ok events
      → All IsNamed events
      → DistinctIds events
      → Acknowledges events s
      → IsDelivered events s (flush_all call turns events i p s)
  unfolding flush_all
  flush_all-IsDelivered turns [] i p s healthy h named distinct ack = record {
    answered = tt;
    taken = refl;
    emptied = h;
  }
  flush_all-IsDelivered turns (e ∷ events) i p s healthy h named distinct ack =
      let (r, replied, same, numbered) = ack.0 in
      let one = first_sent (turns i) e events p s r (healthy i) h replied same numbered in
      let left =
        pending-without p.config e.path p.files (e ∷ events) h
        ∙ ap ok (keep_others e events named distinct) in
      let rest =
        flush_all-IsDelivered turns events (i + 1) (record p { files = without e.path p.files })
          (call e.event s).1 healthy left named.1 distinct.1 ack.1 in
      subst
        (λ f. IsDelivered (e ∷ events) s (after_one call e f (flush_all call turns events (i + 1))))
        (sym one)
        (record {
          answered = (refl, (r, refl, replied), rest.answered);
          taken = rest.taken;
          emptied = rest.emptied;
        })

  -- A flush with a core that acknowledges every pending event, and no failure of the file system,
  -- delivers them all: the core takes the pending events in their order and nothing else, each has
  -- the receipt that the core gave, and then nothing is pending. The identifiers of the pending
  -- events are different.
  pub flush_pending-IsDelivered :
      (turns : ℕ → Turn) (p : DurableProducer T) (s : S) (events : List (PendingEvent T))
      → ((j : ℕ) → IsHealthy (turns j))
      → pending true p.config p.files ≡ ok events
      → DistinctIds events
      → Acknowledges events s
      → IsDelivered events s (flush_pending call turns p s)
  unfolding flush_pending
  flush_pending-IsDelivered turns p s events healthy h distinct ack =
      let listed = pending_listed true p.config p.files events h in
      let named = check_files-IsNamed p.config (sort (λ f. f.name) p.files) events listed.2 in
      rw ((healthy 0).0, h) (flush_all-IsDelivered turns events 1 p s healthy h named distinct ack)
