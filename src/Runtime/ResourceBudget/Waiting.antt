-- ===== src/Runtime/ResourceBudget/Waiting.antt =====
-- The live side of the gate: `prepare_live`, `enter_live` and what they keep out.
use forum_agent.Shared.{
  ℕ, ◌≤◌, ◌<◌, ◌≡◌, ◌≢◌, Bool, true, false, none, ◌⊎◌, inl, inr, some, List, [], ◌∷◌, ◌++◌, arith,
  Option, All, refl, any, ltb, ap, sym, ◌∙◌,
}
use forum_agent.Runtime.ResourceBudget.{
  State, Prepared, ready, refused, prepare_begin, wait_background, prepare_live, finish_live,
  settle, enter_live,
}
use forum_agent.Runtime.ResourceBudget.Steps.{Action, prepare, got_ready, finish, World, step, run}

-- The loop ends on the state that its last test read: `ready` says that no background owner was
-- left, `refused` that one was and that the deadline had passed at a wake-up.
wait_background_exit :
    (deadline : ℕ) (wakes : List (ℕ × (State → State))) (s t : State) (p : Prepared)
    → wait_background deadline wakes s ≡ some (p, t)
    → ((p ≡ ready) × (t.background ≡ false)) ⊎ ((p ≢ ready) × (t.background ≡ true))
unfolding wait_background
wait_background_exit deadline [] s t p h = ground arith
wait_background_exit deadline ((now, others) ∷ wakes) s t p h =
    ground (arith, wait_background_exit deadline wakes (others s) t p)

-- The loop ends: a wake-up past the deadline ends it whatever the others did before.
wait_background_ends :
    (deadline : ℕ) (wakes : List (ℕ × (State → State))) (now : ℕ) (others : State → State)
    → deadline < now
    → (s : State) → wait_background deadline (wakes ++ ((now, others) ∷ [])) s ≢ none
unfolding wait_background
wait_background_ends deadline [] now others late s = ground arith
wait_background_ends deadline ((at, act) ∷ wakes) now others late s =
    ground (arith, wait_background_ends deadline wakes now others late (act s))

-- `enter_live` returns once a wake-up comes later than its deadline, whatever the other threads did
-- at that wake-up and at all earlier ones.
pub enter_live_ends :
    (deadline : ℕ) (wakes : List (ℕ × (State → State))) (now : ℕ) (others between : State → State)
    (s : State)
    → deadline < now
    → enter_live deadline (wakes ++ ((now, others) ∷ [])) between s ≢ none
unfolding enter_live
enter_live_ends deadline wakes now others between s late =
    ground (arith, wait_background_ends deadline wakes now others late (prepare_begin s))

-- A wake-up at which the deadline had passed.
abbrev pub any_late : ℕ → List (ℕ × (State → State)) → Bool
any_late deadline wakes = any (λ w. ltb deadline w.0) wakes

wait_background_late :
    (deadline : ℕ) (wakes : List (ℕ × (State → State))) (s t : State) (p : Prepared)
    → wait_background deadline wakes s ≡ some (p, t)
    → p ≢ ready
    → any_late deadline wakes ≡ true
unfolding wait_background
wait_background_late deadline [] s t p h n = absurd (ground arith)
wait_background_late deadline ((now, others) ∷ wakes) s t p h n =
    ground (arith, wait_background_late deadline wakes (others s) t p)

-- A refused entry: the last test of its wait, and the state that it leaves.
pub record IsRefused (deadline : ℕ) (wakes : List (ℕ × (State → State))) (between : State → State)
    (s t : State) (p : Prepared) : Type 0 where
  pub turned : p ≢ ready
  pub late : any_late deadline wakes ≡ true
  pub last : State
  pub tested : prepare_live deadline wakes s ≡ some (p, last)
  pub owned : last.background ≡ true
  pub unclaimed : t.live ≡ false
  pub unprepared : t.preparing ≡ false
  pub unpressed : t.pressure ≡ none
  pub no_slices : t.pressure_yield_at ≡ none
  pub owner : t.background ≡ (between last).background
  pub shut : t.shutdown ≡ (between last).shutdown

-- When `enter_live` returns, either the entry is granted and no background owner was left at its
-- last test; or it is refused, which happens only where a wake-up came after the deadline. Then the
-- last test found an owner, and the state that is left has neither the live claim, nor the
-- preparation, nor any pressure or slices; whether there is an owner, and whether the gate is shut
-- down, is as the other threads left it between that test and the release of the claim.
pub enter_live_exit :
    (deadline : ℕ) (wakes : List (ℕ × (State → State))) (between : State → State) (s t : State)
    (p : Prepared)
    → enter_live deadline wakes between s ≡ some (p, t)
    → ((p ≡ ready) × (t.background ≡ false)) ⊎ IsRefused deadline wakes between s t p
unfolding enter_live finish_live prepare_live
enter_live_exit deadline wakes between s t p h = by_last (prepare_live deadline wakes s) refl h
  where
    by_last :
        (o : Option (Prepared × State))
        → prepare_live deadline wakes s ≡ o
        → (elim o as (λ x. Option (Prepared × State)) [
          | none ↦ none
          | some (q, u) ↦ some (settle between q u)
        ])
          ≡ some (p, t)
        → ((p ≡ ready) × (t.background ≡ false)) ⊎ IsRefused deadline wakes between s t p
    by_last none e g = absurd (cc g)
    by_last (some (ready, u)) e g =
        let last = wait_background_exit deadline wakes (prepare_begin s) u ready e in
        inl (ground (arith, last))
    by_last (some (refused reason, u)) e g =
        let last = wait_background_exit deadline wakes (prepare_begin s) u (refused reason) e in
        let n : refused reason ≢ ready = λ x. cc x in
        let late = wait_background_late deadline wakes (prepare_begin s) u (refused reason) e n in
        let same : refused reason ≡ p = cc g in
        let left : finish_live (between u) ≡ t = cc g in
        inr (record {
          turned = ground arith;
          late = late;
          last = u;
          tested = e ∙ ap (λ q. some (q, u)) same;
          owned = ground arith;
          unclaimed = sym (ap (λ x. x.live) left);
          unprepared = sym (ap (λ x. x.preparing) left);
          unpressed = sym (ap (λ x. x.pressure) left);
          no_slices = sym (ap (λ x. x.pressure_yield_at) left);
          owner = sym (ap (λ x. x.background) left);
          shut = sym (ap (λ x. x.shutdown) left);
        })

-- Actions other than the two that end a preparation.
abbrev keeps_preparing : Action → Bool
keeps_preparing got_ready = false
keeps_preparing finish = false
keeps_preparing _ = true

step_preparing :
    (a : Action) (w : World)
    → keeps_preparing a ≡ true
    → w.gate.preparing ≡ true
    → ((step a w).gate.preparing ≡ true) × ((step a w).permits ≤ w.permits)
unfolding step
step_preparing got_ready w k h = cc
step_preparing a w k h = ground arith

run-keeps_preparing :
    (actions : List Action) (w : World)
    → All (λ a. keeps_preparing a ≡ true) actions
    → w.gate.preparing ≡ true
    → ((run actions w).gate.preparing ≡ true) × ((run actions w).permits ≤ w.permits)
unfolding run
run-keeps_preparing [] w k h = (h, omega arith)
run-keeps_preparing (a ∷ as') w k h =
    let here = step_preparing a w k.0 h in
    let there = run-keeps_preparing as' (step a w) k.1 here.0 in
    (there.0, omega (arith, here.1, there.1))

-- From the critical section in which `prepare_live` begins, whatever the state was, until the next
-- `live_ready` or `finish_live`, no action of any thread admits a background owner: the flag
-- `preparing` is set and stays, and there are never more permits than before it began.
pub run_preparing :
    (actions : List Action) (w : World)
    → All (λ a. keeps_preparing a ≡ true) actions
    → ((run actions (step prepare w)).gate.preparing ≡ true)
      × ((run actions (step prepare w)).permits ≤ w.permits)
unfolding step prepare_begin
run_preparing actions w k = run-keeps_preparing actions (step prepare w) k refl
