-- ===== src/Runtime/ResourceBudget/Reasons.antt =====
-- What the gate tells a background owner: admission, yield and pause agree.
use forum_agent.Shared.{
  ℕ, ◌+◌, ◌*◌, ◌-◌, ◌/◌, ◌%◌, ◌≤◌, ◌<◌, ◌≡◌, refl, ◌≢◌, ◌↔◌, String, Bool, true, ◌&&◌, ◌||◌, not,
  none, some, List, [], ◌∷◌, arith, is_some,
}
use forum_agent.Runtime.ResourceBudget.{
  State, set_transient_pressure_at, admit, pause_reason_at, yield_reason_at,
}
use forum_agent.Runtime.ResourceBudget.Steps.{Action, got_ready, exit, World, step, run}

-- A background owner that was just admitted is told neither to yield nor to pause at that moment.
pub admit-yield :
    (s : State) (live_eligible : Bool) (now : ℕ)
    → (admit live_eligible now s).0 ≡ none
    → (yield_reason_at (admit live_eligible now s).1 now ≡ none)
      × (pause_reason_at (admit live_eligible now s).1 now ≡ none)
unfolding admit yield_reason_at pause_reason_at
admit-yield s live_eligible now h = ground arith

-- A reason to pause is always a reason to yield, in the same words.
pub pause-yield :
    (s : State) (now : ℕ) (reason : String)
    → pause_reason_at s now ≡ some reason
    → yield_reason_at s now ≡ some reason
unfolding pause_reason_at yield_reason_at
pause-yield s now reason h = ground arith

abbrev pub leaving : String
leaving = "应用正在退出"

step_exit :
    (a : Action) (w : World)
    → w.gate.shutdown ≡ true
    → ((step a w).gate.shutdown ≡ true) × ((step a w).permits ≤ w.permits)
unfolding step
step_exit got_ready w h = (h, omega arith)
step_exit a w h = ground arith

run_exit :
    (actions : List Action) (w : World)
    → w.gate.shutdown ≡ true
    → ((run actions w).gate.shutdown ≡ true) × ((run actions w).permits ≤ w.permits)
unfolding run
run_exit [] w h = (h, omega arith)
run_exit (a ∷ as') w h =
    let here = step_exit a w h in
    let there = run_exit as' (step a w) here.0 in (there.0, omega (arith, here.1, there.1))

-- After `shutdown`, through every later sequence of actions, no permit is added, every request is
-- refused and every background owner is told to yield, at any time, because the application exits.
pub shut_down_final :
    (actions : List Action) (w : World) (live_eligible : Bool) (now : ℕ)
    → let s = (run actions (step exit w)).gate in
      ((run actions (step exit w)).permits ≤ w.permits)
      × ((admit live_eligible now s).0 ≡ some leaving)
      × (yield_reason_at s now ≡ some leaving)
unfolding admit yield_reason_at step
shut_down_final actions w live_eligible now = ground (arith, run_exit actions (step exit w))

-- Later reports of the same backlog, each with its reason, grace and time.
unfoldable pub report : List (String × ℕ × ℕ) → State → State
report [] s = s
report ((reason, grace, now) ∷ more) s = report more (set_transient_pressure_at reason grace now s)

abbrev pub may_pause : State → Bool
may_pause s = not (s.shutdown || s.preparing || s.live && not s.background_live_eligible)

report_start :
    (more : List (String × ℕ × ℕ)) (s : State) (start : ℕ)
    → is_some s.pressure ≡ true
    → s.pressure_yield_at ≡ some start
    → may_pause s ≡ true
    → let t = report more s in
      (is_some t.pressure ≡ true) × (t.pressure_yield_at ≡ some start) × (may_pause t ≡ true)
unfolding report
report_start [] s start p y m = (p, y, m)
report_start ((reason, grace, now) ∷ more) s start p y m =
    report_start more (set_transient_pressure_at reason grace now s) start
      (unfold set_transient_pressure_at in refl) (unfold set_transient_pressure_at in rw p y)
      (unfold set_transient_pressure_at in m)

abbrev Reported : State → ℕ → Type 0
Reported t start =
    (is_some t.pressure ≡ true) × (t.pressure_yield_at ≡ some start) × (may_pause t ≡ true)

pause_early :
    (t : State) (start early : ℕ)
    → Reported t start
    → early < start
    → pause_reason_at t early ≡ none
unfolding pause_reason_at
pause_early t start early r e = ground arith

offset :
    (start rounds lapse : ℕ)
    → lapse < 8000
    → (start + (8000 * rounds + lapse) * 1_000_000 - start) / 1_000_000 % 8000 ≡ lapse
offset start rounds lapse h = omega arith

pause_in_slice :
    (t : State) (start rounds lapse : ℕ)
    → lapse < 8000
    → Reported t start
    → (pause_reason_at t (start + (8000 * rounds + lapse) * 1_000_000) ≢ none) ↔ (lapse < 2000)
unfolding pause_reason_at
pause_in_slice t start rounds lapse h r = ground (arith, offset start rounds lapse h)

-- Sustained pressure pauses the background owner for the first two of every eight seconds, counted
-- from the end of the first report's grace: later reports never restart or shorten that count, and
-- before it there is no pause. `lapse` is the time in milliseconds since the grace ended.
pub pause_slices :
    (reason : String) (grace now : ℕ) (more : List (String × ℕ × ℕ)) (s : State) (rounds lapse : ℕ)
    → s.pressure ≡ none
    → may_pause s ≡ true
    → lapse < 8000
    → let t = report more (set_transient_pressure_at reason grace now s) in
      ((early : ℕ) → early < now + grace → pause_reason_at t early ≡ none)
      × ((pause_reason_at t (now + grace + (8000 * rounds + lapse) * 1_000_000) ≢ none)
          ↔ (lapse < 2000))
unfolding pause_reason_at
pause_slices reason grace now more s rounds lapse p m h =
    let start = now + grace in
    let first = set_transient_pressure_at reason grace now s in
    let kept =
      report_start more first start (unfold set_transient_pressure_at in refl)
        (unfold set_transient_pressure_at in rw p) (unfold set_transient_pressure_at in m) in
    (
      λ early e. pause_early (report more first) start early kept e,
      pause_in_slice (report more first) start rounds lapse h kept,
    )
