-- ===== src/Core/Artifact/Closure.antt =====
-- What an invalidation reaches: the artifacts that rest on the first ones, directly or through
-- other artifacts, and no others.
use forum_agent.Shared.{
  ℕ, zero, suc, ◌+◌, ◌≤◌, ◌≡◌, refl, Bool, true, false, ◌||◌, List, [], ◌∷◌, ok, keep, length, map,
  ◌==◌, ◌∙◌, ap, sym, arith, subst, inl, inr, Bool-cases, >>=-inversion, ==_refl,
}
use forum_agent.Contracts.{Uuid}
use forum_agent.Core.Tables.{Store}
use forum_agent.Core.Tables.Artifacts.{DependencyRow}
use forum_agent.Core.Artifact.{
  mark_stale, rests_on_source, dependents, push_all, Visit, invalidate_loop, rounds_of,
  invalidate_artifacts, invalidate_analysis_source,
}
use forum_agent.Core.Artifact.Marks.{
  mem, artifact_of, stale_in, stale_at, rests_on, mem-push_all, length-push_all, mem-dependents,
  unseen, unseen-visit, unseen_bound, Marked, mark_stale-Marked,
}

pub data Reaches (rows : List DependencyRow) (initial : List Uuid) : Uuid → Type 0 where
  first : (id : Uuid) → mem id initial ≡ true → Reaches rows initial id
  through :
      (s id : Uuid) → Reaches rows initial s → rests_on s id rows ≡ true → Reaches rows initial id

-- What the loop keeps: what was visited is stale, with its dependents visited or pending.
module _ (rows : List DependencyRow) (initial : List Uuid) (before : Store) where
  abbrev known : List Uuid → List Uuid → Uuid → Bool
  known pending seen id = mem id seen || mem id pending

  record IsVisit (pending seen : List Uuid) (st : Store) : Type 0 where
    deps : st.artifact_dependencies ≡ rows
    stale : (id : Uuid) → mem id seen ≡ true → stale_at id st ≡ true
    closed :
        (s id : Uuid) → mem s seen ≡ true → rests_on s id rows ≡ true → known pending seen id ≡ true
    started : (id : Uuid) → mem id initial ≡ true → known pending seen id ≡ true
    reached : (id : Uuid) → known pending seen id ≡ true → Reaches rows initial id
    others : (id : Uuid) → mem id seen ≡ false → artifact_of id st ≡ artifact_of id before

  skip-IsVisit :
      (id : Uuid) (pending seen : List Uuid) (st : Store)
      → mem id seen ≡ true
      → IsVisit (id ∷ pending) seen st
      → IsVisit pending seen st
  skip-IsVisit id pending seen st old v =
      let drop : (k : Uuid) → known (id ∷ pending) seen k ≡ true → known pending seen k ≡ true =
        λ k h. elim (Bool-cases (id == k)) [
          | inl here ↦
              let same : id ≡ k = ground arith in
              let old' = ap (λ j. mem j seen) (sym same) ∙ old in ground arith
          | inr miss ↦ ground arith
        ] in
      let more : (k : Uuid) → known pending seen k ≡ true → known (id ∷ pending) seen k ≡ true =
        λ k h. ground arith in
      record {
        deps = v.deps;
        stale = v.stale;
        closed = λ s k m r. drop k (v.closed s k m r);
        started = λ k m. drop k (v.started k m);
        reached = λ k m. v.reached k (more k m);
        others = v.others;
      }

  known_next :
      (id : Uuid) (pending seen : List Uuid) (k : Uuid)
      → known (push_all (dependents id rows) pending) (id ∷ seen) k
        ≡ ((id == k || mem k seen) || (rests_on id k rows || mem k pending))
  known_next id pending seen k =
      ap (λ b. (id == k || mem k seen) || b)
        (mem-push_all k (dependents id rows) pending
          ∙ ap (λ b. b || mem k pending) (mem-dependents id k rows))

  reached_next :
      (id : Uuid) (pending seen : List Uuid) (st : Store) (k : Uuid)
      → IsVisit (id ∷ pending) seen st
      → ((id == k || mem k seen) || (rests_on id k rows || mem k pending)) ≡ true
      → Reaches rows initial k
  reached_next id pending seen st k v h = elim (Bool-cases (rests_on id k rows)) [
    | inl rests ↦
        let here : known (id ∷ pending) seen id ≡ true = ground (arith, ==_refl id) in
        through id k (v.reached id here) rests
    | inr other ↦ let there : known (id ∷ pending) seen k ≡ true = ground arith in v.reached k there
  ]

  stale_next :
      (id : Uuid) (pending seen : List Uuid) (st st1 : Store) (k : Uuid)
      → Marked id st st1
      → IsVisit (id ∷ pending) seen st
      → mem k (id ∷ seen) ≡ true
      → stale_at k st1 ≡ true
  stale_next id pending seen st st1 k m v e = elim (Bool-cases (id == k)) [
    | inl here ↦ let same : id ≡ k = ground arith in subst (λ j. stale_at j st1 ≡ true) same m.stale
    | inr miss ↦ ap stale_in (m.other k miss) ∙ v.stale k (ground arith)
  ]

  closed_next :
      (id : Uuid) (pending seen : List Uuid) (st : Store) (s k : Uuid)
      → IsVisit (id ∷ pending) seen st
      → mem s (id ∷ seen) ≡ true
      → rests_on s k rows ≡ true
      → ((id == k || mem k seen) || (rests_on id k rows || mem k pending)) ≡ true
  closed_next id pending seen st s k v e r = elim (Bool-cases (id == s)) [
    | inl here ↦
        let same : id ≡ s = ground arith in
        let rests = ap (λ j. rests_on j k rows) same ∙ r in ground arith
    | inr miss ↦ let there = v.closed s k (ground arith) r in ground arith
  ]

  take-IsVisit :
      (id : Uuid) (pending seen : List Uuid) (st st1 : Store)
      → mem id seen ≡ false
      → mark_stale id st ≡ ok st1
      → IsVisit (id ∷ pending) seen st
      → IsVisit (push_all (dependents id rows) pending) (id ∷ seen) st1
  take-IsVisit id pending seen st st1 new h v =
      let m = mark_stale-Marked id st st1 h in
      let next = known_next id pending seen in
      record {
        deps = m.rows ∙ v.deps;
        stale = λ k e. stale_next id pending seen st st1 k m v e;
        closed = λ s k e r. next k ∙ closed_next id pending seen st s k v e r;
        started = λ k e. next k ∙ (let there = v.started k e in ground arith);
        reached = λ k e. reached_next id pending seen st k v (sym (next k) ∙ e);
        others = λ k e. m.other k (ground arith) ∙ v.others k (ground arith);
      }

  -- With enough fuel the loop ends with nothing pending.
  loop-IsVisit :
      (fuel : ℕ) (pending seen : List Uuid) (st : Store) (v : Visit)
      → length pending + unseen seen rows ≤ fuel
      → IsVisit pending seen st
      → invalidate_loop fuel pending seen st ≡ ok v
      → IsVisit [] v.seen v.store
  unfolding invalidate_loop
  loop-IsVisit zero (id ∷ pending) seen st v enough i h = absurd (cc h)
  loop-IsVisit zero [] seen st v enough i h =
      let same : record { seen = seen; store = st } ≡ v = cc h in
      subst (λ (w : Visit). IsVisit [] w.seen w.store) same i
  loop-IsVisit (suc fuel) [] seen st v enough i h =
      let same : record { seen = seen; store = st } ≡ v = cc h in
      subst (λ (w : Visit). IsVisit [] w.seen w.store) same i
  loop-IsVisit (suc fuel) (id ∷ pending) seen st v enough i h = elim (Bool-cases (mem id seen)) [
    | inl old ↦
        loop-IsVisit fuel pending seen st v (omega arith) (skip-IsVisit id pending seen st old i)
          (rw (old, invalidate_loop) at h)
    | inr new ↦
        let (st1, marked, h1) =
          >>=-inversion (mark_stale id st) _ (rw (new, invalidate_loop) at h) in
        let deps = (mark_stale-Marked id st st1 marked).rows ∙ i.deps in
        let less : length (push_all (dependents id rows) pending) + unseen (id ∷ seen) rows ≤ fuel =
          omega
            (arith, length-push_all (dependents id rows) pending, unseen-visit id seen rows new) in
        loop-IsVisit fuel (push_all (dependents id rows) pending) (id ∷ seen) st1 v less
          (take-IsVisit id pending seen st st1 new marked i)
          (subst
            (λ deps.
              invalidate_loop fuel (push_all (dependents id deps) pending) (id ∷ seen) st1 ≡ ok v)
            deps h1)
  ]

reached-seen :
    (rows : List DependencyRow) (initial : List Uuid) (before : Store) (v : Visit) (id : Uuid)
    → IsVisit rows initial before [] v.seen v.store
    → Reaches rows initial id
    → mem id v.seen ≡ true
reached-seen rows initial before v id i (first _ h) = let there = i.started id h in ground arith
reached-seen rows initial before v id i (through s _ r e) =
    let there = i.closed s id (reached-seen rows initial before v s i r) e in ground arith

invalidate_artifacts-IsVisit :
    (initial : List Uuid) (a b : Store)
    → invalidate_artifacts initial a ≡ ok b
    → (seen : List Uuid) × IsVisit a.artifact_dependencies initial a [] seen b
unfolding invalidate_artifacts
invalidate_artifacts-IsVisit initial a b h =
    let rows = a.artifact_dependencies in
    let (v, looped, h1) =
      >>=-inversion (invalidate_loop (rounds_of initial a) (push_all initial []) [] a) _ h in
    let stack : (k : Uuid) → mem k (push_all initial []) ≡ mem k initial =
      λ k. mem-push_all k initial [] ∙ ground arith in
    let begin : IsVisit rows initial a (push_all initial []) [] a = record {
      deps = refl;
      stale = λ k e. absurd (cc e);
      closed = λ s k e r. absurd (cc e);
      started = λ k e. stack k ∙ e;
      reached = λ k e. first k (sym (stack k) ∙ e);
      others = λ k e. refl;
    } in
    let enough : length (push_all initial []) + unseen [] rows ≤ rounds_of initial a =
      omega (arith, length-push_all initial [], unseen_bound [] rows) in
    let done =
      loop-IsVisit rows initial a (rounds_of initial a) (push_all initial []) [] a v enough begin
        looped in
    let same : v.store ≡ b = cc h1 in (v.seen, subst (IsVisit rows initial a [] v.seen) same done)

-- The artifacts that rest on the segment themselves.
abbrev pub rest_on_segment : Uuid → Store → List Uuid
rest_on_segment segment st =
    map (λ d. d.artifact_id) (keep (rests_on_source segment) st.artifact_dependencies)

-- When the text of a segment changes, the invalidation reaches the whole of what rests on it and
-- nothing else: every artifact that rests on the segment, directly or through a chain of artifacts
-- of any length and also around a cycle, is stale, and every other artifact is as it was.
pub invalidation_closure :
    (segment : Uuid) (a b : Store)
    → invalidate_analysis_source segment a ≡ ok b
    → ((id : Uuid)
        → Reaches a.artifact_dependencies (rest_on_segment segment a) id
        → stale_at id b ≡ true)
      × ((id : Uuid)
          → ¬ Reaches a.artifact_dependencies (rest_on_segment segment a) id
          → artifact_of id b ≡ artifact_of id a)
unfolding invalidate_analysis_source
invalidation_closure segment a b h =
    let rows = a.artifact_dependencies in
    let initial = rest_on_segment segment a in
    let (seen, i) = invalidate_artifacts-IsVisit initial a b h in
    let v : Visit = record { seen = seen; store = b } in
    (
      (λ id r. i.stale id (reached-seen rows initial a v id i r)),
      (λ id n. elim (Bool-cases (mem id seen)) [
        | inl there ↦ absurd (n (i.reached id (ground arith)))
        | inr apart ↦ i.others id apart
      ]),
    )
