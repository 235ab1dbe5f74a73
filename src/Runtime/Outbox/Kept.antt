-- ===== src/Runtime/Outbox/Kept.antt =====
-- An event stays in the outbox until its receipt has come.
use forum_agent.Shared.{
  ok_or-ok, map_err-ok, ensure, length, leb, subst, ◌||◌, >>-inversion, map_err, ok_or, ◌≡◌, ◌<◌,
  refl, Bool, true, false, ◌&&◌, not, ◌==◌, Option, none, some, List, [], ◌∷◌, ok, any, Bool-cases,
  inl, inr, arith, Result-cases, find, find-true, find-All, All, >>=-inversion, sym, ◌∙◌, ap,
}
use forum_agent.Contracts.{Uuid}
use forum_agent.Runtime.Outbox.Names.{FileName, same_name, sort}
use forum_agent.Runtime.Outbox.{
  OutboxFile, PendingEvent, DurableProducer, DurableReceipt, Turn, Cleanup, Call, removed, unsynced,
  kept, without, clean_up, queued, exact_receipt, acknowledged, send, flush_one, io,
  capacity_exceeded, outbox_io, max_rpc_bytes, invalid_file, outbox_not_found, of_session,
  scope_mismatch, identity_mismatch, RuntimeConfig, unreadable, pending, check_files, check_file,
}

module _ {ℓ} {T : Type ℓ} where
  abbrev pub has_file : FileName → List (OutboxFile T) → Bool
  has_file n files = any (λ f. same_name n f.name) files

  same_name_only :
      (m n : FileName) (files : List (OutboxFile T))
      → has_file m files ≡ true
      → has_file m (without n files) ≡ false
      → same_name m n ≡ true
  same_name_only m n [] h k = absurd (cc h)
  same_name_only m n (f ∷ files) h k = elim (Bool-cases (same_name n f.name)) [
    | inl e ↦ elim (Bool-cases (same_name m f.name)) [
      | inl d ↦ ground arith
      | inr d ↦ same_name_only m n files (ground arith) (ground arith)
    ]
    | inr e ↦ same_name_only m n files (ground arith) (ground arith)
  ]

  clean_up_only :
      (c : Cleanup) (m n : FileName) (p : DurableProducer T)
      → has_file m p.files ≡ true
      → has_file m (clean_up c n p).files ≡ false
      → same_name m n ≡ true
  clean_up_only removed m n p h k = same_name_only m n p.files h k
  clean_up_only unsynced m n p h k = same_name_only m n p.files h k
  clean_up_only kept m n p h k = ground arith

pub exact_receipt_exact :
    (id : Uuid) (v : Option DurableReceipt) (r : DurableReceipt)
    → exact_receipt id v ≡ ok r
    → (v ≡ some r) × (r.message_id ≡ id) × (0 < r.store_seq)
exact_receipt_exact id none r h = absurd (cc h)
exact_receipt_exact id (some v) r h =
    elim (Bool-cases (not (v.message_id == id) || v.store_seq == 0)) [
      | inl e ↦ ground arith
      | inr e ↦ ground arith
    ]

module _ {ℓ} {T : Type ℓ} where
  -- A pending event has the identifier of its event and of its file's name.
  pub record IsNamed (e : PendingEvent T) : Type ℓ where
    pub of_event : e.event.message_id ≡ e.message_id
    pub of_path : e.path.message_id ≡ e.message_id

  pub check_file-IsNamed :
      (c : RuntimeConfig) (f : OutboxFile T) (e : PendingEvent T)
      → check_file c f ≡ ok e
      → (e.path ≡ f.name) × IsNamed e
  unfolding check_file
  check_file-IsNamed c f e h =
      let (sound, h1) =
        >>-inversion (ensure (f.is_regular && leb f.len max_rpc_bytes) invalid_file) _ h in
      let (v, read, h2) = >>=-inversion (ok_or unreadable f.content) _ h1 in
      let (scope, h3) = >>-inversion (ensure (of_session c v) scope_mismatch) _ h2 in
      let (named, h4) =
        >>-inversion (ensure (f.name.message_id == v.message_id) identity_mismatch) _ h3 in
      let same : f.name.message_id ≡ v.message_id = ground arith in
      let shape : (record { message_id = v.message_id; event = v; path = f.name }) ≡ e = cc h4 in
      (
        ap (λ x. x.path) (sym shape),
        subst IsNamed shape (record { of_event = refl; of_path = same }),
      )

  pub check_files_cons :
      (c : RuntimeConfig) (f : OutboxFile T) (files : List (OutboxFile T))
      (events : List (PendingEvent T))
      → check_files c (f ∷ files) ≡ ok events
      → (e : PendingEvent T) × (rest : List (PendingEvent T)) × (check_file c f ≡ ok e)
        × (check_files c files ≡ ok rest)
        × ((e ∷ rest) ≡ events)
  unfolding check_files
  check_files_cons c f files events h =
      let (e, here, h1) = >>=-inversion (check_file c f) _ h in
      let (rest, later, h2) = >>=-inversion (check_files c files) _ h1 in
      (e, rest, here, later, cc h2)

  pub check_files-IsNamed :
      (c : RuntimeConfig) (files : List (OutboxFile T)) (events : List (PendingEvent T))
      → check_files c files ≡ ok events
      → All IsNamed events
  unfolding check_files
  check_files-IsNamed c [] events h =
      let none_left : [] ≡ events = cc h in subst (All IsNamed) none_left tt
  check_files-IsNamed c (f ∷ files) events h =
      let (e, rest, here, later, shape) = check_files_cons c f files events h in
      subst (All IsNamed) shape
        ((check_file-IsNamed c f e here).1, check_files-IsNamed c files rest later)

  -- What a listing that succeeds says.
  pub pending_listed :
      (listed : Bool) (c : RuntimeConfig) (files : List (OutboxFile T))
      (events : List (PendingEvent T))
      → pending listed c files ≡ ok events
      → (listed ≡ true)
        × (leb (length (sort (λ f. f.name) files)) 10000 ≡ true)
        × (check_files c (sort (λ f. f.name) files) ≡ ok events)
  unfolding pending
  pending_listed listed c files events h =
      let (read, h1) = >>-inversion (ensure listed io) _ h in
      let (few, checked) =
        >>-inversion (ensure (leb (length (sort (λ f. f.name) files)) 10000) capacity_exceeded) _
          h1 in
      (ground arith, ground arith, checked)

  pub queued-IsNamed :
      (listed : Bool) (id : Uuid) (p : DurableProducer T) (e : PendingEvent T)
      → queued listed id p ≡ ok e
      → (e.message_id ≡ id) × IsNamed e
  unfolding queued
  queued-IsNamed listed id p e h =
      let (events, listing, h1) =
        >>=-inversion (map_err (λ x. outbox_io) (pending listed p.config p.files)) _ h in
      let read_all = map_err-ok _ (pending listed p.config p.files) events listing in
      let found = ok_or-ok outbox_not_found (find (λ x. x.message_id == id) events) e h1 in
      let (read, few, checked) = pending_listed listed p.config p.files events read_all in
      let hit = find-true (λ x. x.message_id == id) events e found in
      (
        ground arith,
        find-All IsNamed (λ x. x.message_id == id) events e
            (check_files-IsNamed p.config (sort (λ f. f.name) p.files) events checked) found,
      )

module _ {ℓ κ} {T : Type ℓ} {S : Type κ} (call : Call T S) where
  -- One flush takes a file out of the outbox only with the receipt that the core returned for the
  -- event of that file: it names the event and has a sequence number. Whatever the core and the
  -- file system do.
  pub kept_until_acknowledged :
      (turn : Turn) (id : Uuid) (p : DurableProducer T) (s : S) (n : FileName)
      → has_file n p.files ≡ true
      → has_file n (flush_one call turn id p s).producer.files ≡ false
      → (e : PendingEvent T) × (r : DurableReceipt) × ((call e.event s).0 ≡ ok (some r))
        × ((flush_one call turn id p s).result ≡ ok r)
        × (e.event.message_id ≡ n.message_id)
        × (r.message_id ≡ n.message_id)
        × (n.message_id ≡ id)
        × (0 < r.store_seq)
  unfolding flush_one send
  kept_until_acknowledged turn id p s n h k = elim (Result-cases (queued turn.listed id p)) [
    | inr (x, e) ↦ (let same = rw e at k in absurd (cc (h, same)))
    | inl (e, found) ↦ elim (Result-cases (acknowledged call e s)) [
      | inr (x, f) ↦ (let same = rw (found, f) at k in absurd (cc (h, same)))
      | inl (r, f) ↦
          (let gone = rw (found, f) at k in
            let same = clean_up_only turn.cleanup n e.path p h gone in
            let (value, replied, exact) = >>=-inversion (call e.event s).0 _ f in
            let (is_r, of_r, numbered) = exact_receipt_exact e.message_id value r exact in
            let (asked, named) = queued-IsNamed turn.listed id p e found in
            let of_file : n.message_id ≡ e.path.message_id = ground arith in
            (
              e,
              r,
              replied ∙ ap ok is_r,
              rw (found, f) refl,
              named.of_event ∙ sym (of_file ∙ named.of_path),
              of_r ∙ sym (of_file ∙ named.of_path),
              of_file ∙ named.of_path ∙ asked,
              numbered,
            ))
    ]
  ]
