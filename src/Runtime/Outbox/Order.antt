-- ===== src/Runtime/Outbox/Order.antt =====
-- What an append adds to the pending events, and where.
use forum_agent.Shared.{
  ℕ, ◌≡◌, ◌<◌, ◌≤◌, ◌+◌, ◌-◌, refl, Bool, true, false, not, ◌==◌, List, [], ◌∷◌, ◌++◌, ok, any,
  keep, Bool-cases, inl, inr, arith, All, sym, ◌∙◌, ap, subst, length, leb, ltb, All-map,
  >>-inversion, >>=-inversion, Result-cases, ensure, ok_or, map_err, map_err-ok, suc, ==_refl,
}
use forum_agent.Contracts.{Uuid, checked_add, u64_mod}
use forum_agent.Contracts.Event.{Event, EventType, validate_envelope, accepted_id}
use forum_agent.Runtime.Outbox.Names.{
  FileName, same_name, sort, insert, keep-insert, sort-Sorted, insert_last, up_to, Sorted, sort-All,
  length-insert,
}
use forum_agent.Runtime.Outbox.{
  OutboxFile, PendingEvent, DurableProducer, RuntimeConfig, written, append, new_file, file_of,
  identity_collision, new_event, prepare_append, pending, check_files, check_file,
  sequence_exhausted, capacity_exhausted, append_poisoned, max_rpc_bytes, invalid_envelope,
  event_too_large,
}
use forum_agent.Runtime.Outbox.Kept.{check_file-IsNamed, check_files_cons, pending_listed}

counted_next : (s n : ℕ) → ok_or sequence_exhausted (checked_add u64_mod s 1) ≡ ok n → n ≡ s + 1
counted_next s n h = ground arith

module _ {ℓ} {T : Type ℓ} where
  -- The files of this run have the numbers that it has given.
  abbrev pub IsNumbered : DurableProducer T → Type 0
  IsNumbered p = All (λ f. f.name.run_id == p.run_id ≡ true → f.name.seq ≤ p.sequence) p.files

  check_files-insert :
      (c : RuntimeConfig) (f : OutboxFile T) (files : List (OutboxFile T)) (e : PendingEvent T)
      (events : List (PendingEvent T))
      → check_file c f ≡ ok e
      → check_files c files ≡ ok events
      → check_files c (insert (λ f. f.name) f files) ≡ ok (insert (λ e. e.path) e events)
  unfolding check_files insert
  check_files-insert c f [] e events here h =
      let done : [] ≡ events = cc h in
      subst (λ es. check_files c (f ∷ []) ≡ ok (insert (λ e. e.path) e es)) done (rw here refl)
  check_files-insert c f (g ∷ files) e events here h =
      let (d, rest, first, later, shape) = check_files_cons c g files events h in
      let tail = check_files-insert c f files e rest here later in
      let path = (check_file-IsNamed c f e here).0 in
      let other = (check_file-IsNamed c g d first).0 in
      subst
        (λ es. check_files c (insert (λ f. f.name) f (g ∷ files)) ≡ ok (insert (λ e. e.path) e es))
        shape
        (elim (Bool-cases (up_to f.name g.name)) [
          | inl t ↦
              let u : up_to e.path d.path ≡ true = rw (path, other) t in
              rw (t, u, here, first, later) refl
          | inr t ↦
              let u : up_to e.path d.path ≡ false = rw (path, other) t in
              rw (t, u, first, tail) refl
        ])

  check_files_paths {κ} :
      (P : FileName → Type κ) (c : RuntimeConfig) (files : List (OutboxFile T))
      (events : List (PendingEvent T))
      → check_files c files ≡ ok events
      → All (λ f. P f.name) files
      → All (λ e. P e.path) events
  unfolding check_files
  check_files_paths P c [] events h all =
      let done : [] ≡ events = cc h in subst (All (λ e. P e.path)) done tt
  check_files_paths P c (f ∷ files) events h all =
      let (e, rest, here, later, shape) = check_files_cons c f files events h in
      subst (All (λ e. P e.path)) shape (
        subst P (sym (check_file-IsNamed c f e here).0) all.0,
        check_files_paths P c files rest later all.1,
      )

  check_files-Sorted :
      (c : RuntimeConfig) (files : List (OutboxFile T)) (events : List (PendingEvent T))
      → check_files c files ≡ ok events
      → Sorted (λ f. f.name) files
      → Sorted (λ e. e.path) events
  unfolding check_files
  check_files-Sorted c [] events h sorted =
      let done : [] ≡ events = cc h in subst (Sorted (λ e. e.path)) done tt
  check_files-Sorted c (f ∷ files) events h sorted =
      let (e, rest, here, later, shape) = check_files_cons c f files events h in
      let path = sym (check_file-IsNamed c f e here).0 in
      let above = check_files_paths (λ n. up_to f.name n ≡ true) c files rest later sorted.0 in
      subst (Sorted (λ e. e.path)) shape (
        subst (λ n. All (λ x. up_to n x.path ≡ true) rest) path above,
        check_files-Sorted c files rest later sorted.1,
      )

  check_files-length :
      (c : RuntimeConfig) (files : List (OutboxFile T)) (events : List (PendingEvent T))
      → check_files c files ≡ ok events
      → length files ≡ length events
  unfolding check_files
  check_files-length c [] events h = let done : [] ≡ events = cc h in ap length done
  check_files-length c (f ∷ files) events h =
      let (e, rest, here, later, shape) = check_files_cons c f files events h in
      ap (λ n. suc n) (check_files-length c files rest later) ∙ ap length shape

  abbrev pub next_event : DurableProducer T → Uuid → EventType → T → Event T
  next_event p id event_type payload = new_event p (p.sequence + 1) id event_type payload

  file_of_made :
      (json_len : Event T → ℕ) (event_type : EventType) (p : DurableProducer T) (e : Event T)
      (f : OutboxFile T)
      → file_of json_len event_type p e ≡ ok f
      → (new_file (json_len e) e ≡ f)
        × ((e.message_id == 0) ≡ false)
        × (ltb (json_len e) (max_rpc_bytes - 4096) ≡ true)
  unfolding file_of
  file_of_made json_len event_type p e f h =
      let (valid, h1) =
        >>-inversion (map_err invalid_envelope (validate_envelope event_type e)) _ h in
      let (fits, h2) =
        >>-inversion (ensure (ltb (json_len e) (max_rpc_bytes - 4096)) event_too_large) _ h1 in
      let (fresh, h3) =
        >>-inversion
          (ensure (not (any (λ f. same_name (new_file (json_len e) e).name f.name) p.files))
            identity_collision)
          _ h2 in
      (cc h3, accepted_id event_type e (map_err-ok invalid_envelope _ tt valid), ground arith)

  prepared_file :
      (json_len : Event T → ℕ) (listed : Bool) (id : Uuid) (event_type : EventType) (payload : T)
      (p : DurableProducer T) (f : OutboxFile T) (events : List (PendingEvent T))
      → pending listed p.config p.files ≡ ok events
      → prepare_append json_len listed id event_type payload p ≡ ok f
      → (ltb (length events) 10000 ≡ true)
        × (file_of json_len event_type p (next_event p id event_type payload) ≡ ok f)
  unfolding prepare_append
  prepared_file json_len listed id event_type payload p f events listing h =
      let (clean, h1) = >>-inversion (ensure (not p.append_poisoned) append_poisoned) _ h in
      let (found, again, h2) = >>=-inversion (pending listed p.config p.files) _ h1 in
      let same : found ≡ events = cc (again, listing) in
      let (room, h3) = >>-inversion (ensure (ltb (length found) 10000) capacity_exhausted) _ h2 in
      let (seq, counted, h4) =
        >>=-inversion (ok_or sequence_exhausted (checked_add u64_mod p.sequence 1)) _ h3 in
      let next : seq ≡ p.sequence + 1 = counted_next p.sequence seq counted in
      let few : ltb (length found) 10000 ≡ true = ground arith in
      (
        subst (λ es. ltb (length es) 10000 ≡ true) same few,
        subst (λ n. file_of json_len event_type p (new_event p n id event_type payload) ≡ ok f) next
            h4,
      )

  abbrev pub of_run : Uuid → PendingEvent T → Bool
  of_run r e = e.path.run_id == r

  new_file_checks :
      (p : DurableProducer T) (len : ℕ) (id : Uuid) (event_type : EventType) (payload : T)
      → (id == 0) ≡ false
      → ltb len (max_rpc_bytes - 4096) ≡ true
      → check_file p.config (new_file len (next_event p id event_type payload))
        ≡ ok (record {
          message_id = id;
          event = next_event p id event_type payload;
          path = record { run_id = p.run_id; seq = p.sequence + 1; message_id = id };
        })
  unfolding check_file
  new_file_checks p len id event_type payload named fits =
      let small : leb len max_rpc_bytes ≡ true = ground arith in
      rw
        (
          small,
          named,
          ==_refl p.config.session.session_id,
          ==_refl p.config.session.event_id,
          ==_refl p.config.session.room_id,
          ==_refl id,
        )
        refl

  keep_lower :
      (r : Uuid) (n : ℕ) (e : PendingEvent T) (events : List (PendingEvent T))
      → All (λ x. (x.path.run_id == r) ≡ true → x.path.seq ≤ n) events
      → e.path.run_id ≡ r
      → n < e.path.seq
      → All (λ x. up_to e.path x.path ≡ false) (keep (of_run r) events)
  unfolding up_to
  keep_lower r n e [] numbered own above = tt
  keep_lower r n e (x ∷ events) numbered own above = elim (Bool-cases (x.path.run_id == r)) [
    | inl t ↦
        rw (t, keep, All)
          (let low = numbered.0 t in ground arith, keep_lower r n e events numbered.1 own above)
    | inr t ↦ rw (t, keep, All) (keep_lower r n e events numbered.1 own above)
  ]

  keep_run_last :
      (r : Uuid) (n : ℕ) (e : PendingEvent T) (events : List (PendingEvent T))
      → Sorted (λ x. x.path) events
      → All (λ x. (x.path.run_id == r) ≡ true → x.path.seq ≤ n) events
      → e.path.run_id ≡ r
      → n < e.path.seq
      → keep (of_run r) (insert (λ x. x.path) e events) ≡ keep (of_run r) events ++ (e ∷ [])
  keep_run_last r n e events sorted numbered own above =
      let later = keep_lower r n e events numbered own above in
      keep-insert (λ x. x.path) (of_run r) e events sorted
      ∙ (let hit : (e.path.run_id == r) ≡ true = ground arith in
          rw hit (insert_last (λ x. x.path) e (keep (of_run r) events) later))

  -- `q` is `p` with `e` after its other events; `events` were pending before.
  pub record IsAppended (p : DurableProducer T) (events : List (PendingEvent T))
      (e : PendingEvent T) (q : DurableProducer T) : Type ℓ where
    pub after : List (PendingEvent T)
    pub listing : pending true p.config q.files ≡ ok after
    pub last : keep (of_run p.run_id) after ≡ keep (of_run p.run_id) events ++ (e ∷ [])
    pub others :
        keep (λ x. not (of_run p.run_id x)) after ≡ keep (λ x. not (of_run p.run_id x)) events
    pub next : e.event.producer.seq ≡ p.sequence + 1
    pub counted : q.sequence ≡ p.sequence + 1
    pub numbered : IsNumbered q

  abbrev next_pending : DurableProducer T → Uuid → EventType → T → PendingEvent T
  next_pending p id event_type payload = record {
    message_id = id;
    event = next_event p id event_type payload;
    path = record { run_id = p.run_id; seq = p.sequence + 1; message_id = id };
  }

  abbrev with_next : DurableProducer T → ℕ → Uuid → EventType → T → DurableProducer T
  with_next p len id event_type payload = record p {
    sequence = p.sequence + 1;
    files = new_file len (next_event p id event_type payload) ∷ p.files;
  }

  added_last :
      (p : DurableProducer T) (len : ℕ) (id : Uuid) (event_type : EventType) (payload : T)
      (events : List (PendingEvent T))
      → IsNumbered p
      → check_files p.config (sort (λ f. f.name) p.files) ≡ ok events
      → ltb (length events) 10000 ≡ true
      → (id == 0) ≡ false
      → ltb len (max_rpc_bytes - 4096) ≡ true
      → IsAppended p events
          (next_pending p id event_type payload)
          (with_next p len id event_type payload)
  unfolding pending sort
  added_last p len id event_type payload events numbered checked few named fits =
      let name = λ (f : OutboxFile T). f.name in
      let new = new_file len (next_event p id event_type payload) in
      let e = next_pending p id event_type payload in
      let sorted =
        check_files-Sorted p.config (sort name p.files) events checked (sort-Sorted name p.files) in
      let numbers =
        check_files_paths (λ m. (m.run_id == p.run_id) ≡ true → m.seq ≤ p.sequence) p.config
          (sort name p.files) events checked (sort-All name _ p.files numbered) in
      let all =
        check_files-insert p.config new (sort name p.files) e events
          (new_file_checks p len id event_type payload named fits) checked in
      let count = length-insert name new (sort name p.files) in
      let same = check_files-length p.config (sort name p.files) events checked in
      let room : leb (length (insert name new (sort name p.files))) 10000 ≡ true = ground arith in
      record {
        after = insert (λ x. x.path) e events;
        listing = rw (room, all) refl;
        last = keep_run_last p.run_id p.sequence e events sorted numbers refl (omega arith);
        others =
            keep-insert (λ x. x.path) (λ x. not (of_run p.run_id x)) e events sorted
            ∙ rw (==_refl p.run_id) refl;
        next = refl;
        counted = refl;
        numbered = (
          λ own. omega arith,
          All-map _ _ (λ f low own. let below = low own in omega (arith, below)) p.files numbered,
        );
      }

  -- An append that succeeds takes the next number and adds its event to the pending ones: last of
  -- its run, and the other runs' events stay as they are. The directory could be listed, and the
  -- files of this run have the numbers that it has given; they have after it, too.
  pub append_last :
      (json_len : Event T → ℕ) (listed : Bool) (id : Uuid) (event_type : EventType) (payload : T)
      (p : DurableProducer T) (events : List (PendingEvent T)) (e : PendingEvent T)
      → IsNumbered p
      → pending listed p.config p.files ≡ ok events
      → (append json_len listed written id event_type payload p).0 ≡ ok e
      → IsAppended p events e (append json_len listed written id event_type payload p).1
  unfolding append
  append_last json_len listed id event_type payload p events e numbered listing h =
      elim (Result-cases (prepare_append json_len listed id event_type payload p)) [
        | inr (x, failed) ↦ absurd (let same = rw failed at h in cc same)
        | inl (f, made) ↦
            let (few, file) =
              prepared_file json_len listed id event_type payload p f events listing made in
            let (shape, named, fits) =
              file_of_made json_len event_type p (next_event p id event_type payload) f file in
            let is_new : next_pending p id event_type payload ≡ e =
              (let put = rw (made, ← shape) at h in cc put) in
            let last =
              added_last p (json_len (next_event p id event_type payload)) id event_type payload
                events numbered (pending_listed listed p.config p.files events listing).2 few named
                fits in
            let left : with_next p (json_len (next_event p id event_type payload)) id event_type
                  payload
                ≡ (append json_len listed written id event_type payload p).1 =
              rw (made, ← shape) refl in
            subst (IsAppended p events e) left (
              subst
                (λ x. IsAppended p events x (
                  with_next p (json_len (next_event p id event_type payload)) id event_type
                    payload))
                is_new last)
      ]
