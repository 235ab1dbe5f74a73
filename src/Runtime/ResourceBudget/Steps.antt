-- ===== src/Runtime/ResourceBudget/Steps.antt =====
-- The gate under every interleaving: each action is one critical section of some thread, and the
-- permits that are held are counted beside the state.
use forum_agent.Shared.{
  ℕ, suc, zero, ◌+◌, ◌≤◌, ◌≡◌, refl, ◌↔◌, String, Bool, true, Option, none, some, List, [], ◌∷◌,
  arith, if◌then◌else◌,
}
use forum_agent.Runtime.ResourceBudget.{
  State, default, prepare_begin, live_ready, finish_live, set_pressure, set_transient_pressure_at,
  shut_down, admit, release,
}

pub data Action : Type 0 where
  prepare : Action
  got_ready : Action
  finish : Action
  press : Option String → Action
  press_transient : String → ℕ → ℕ → Action
  exit : Action
  ask : Bool → ℕ → Action
  drop_permit : Action

-- The gate, and the number of `BackgroundPermit` values alive.
pub record World : Type 0 where
  pub gate : State
  pub permits : ℕ

abbrev pub granted : Option String × State → ℕ → World
granted (none, s) n = record { gate = s; permits = n + 1 }
granted (some reason, s) n = record { gate = s; permits = n }

-- A permit can be dropped only where one is alive.
abbrev pub drop_one : ℕ → State → World
unfolding release
drop_one zero s = record { gate = s; permits = 0 }
drop_one (suc n) s = record { gate = release s; permits = n }

unfoldable pub step : Action → World → World
unfolding prepare_begin live_ready finish_live set_pressure set_transient_pressure_at shut_down
    admit release
step prepare w = record w { gate = prepare_begin w.gate }
step got_ready w = record w { gate = live_ready w.gate }
step finish w = record w { gate = finish_live w.gate }
step (press reason) w = record w { gate = set_pressure reason w.gate }
step (press_transient reason grace now) w = record w {
  gate = set_transient_pressure_at reason grace now w.gate;
}
step exit w = record w { gate = shut_down w.gate }
step (ask live_eligible now) w = granted (admit live_eligible now w.gate) w.permits
step drop_permit w = drop_one w.permits w.gate

unfoldable pub run : List Action → World → World
run [] w = w
run (a ∷ as') w = run as' (step a w)

abbrev pub start : World
start = record { gate = default; permits = 0 }

-- The flag says whether a permit is alive.
abbrev Counted : World → Type 0
Counted w = w.permits ≡ (if w.gate.background then 1 else 0)

step-Counted : (a : Action) (w : World) → Counted w → Counted (step a w)
unfolding step release
step-Counted prepare w h = h
step-Counted a w h = ground arith

run-Counted : (actions : List Action) (w : World) → Counted w → Counted (run actions w)
unfolding run
run-Counted [] w h = h
run-Counted (a ∷ as') w h = run-Counted as' (step a w) (step-Counted a w h)

-- Whatever the threads do, at most one background permit is alive, and the flag `background` is
-- set exactly while one is.
pub permits_exclusive :
    (actions : List Action)
    → ((run actions start).permits ≤ 1)
      × (((run actions start).gate.background ≡ true) ↔ ((run actions start).permits ≡ 1))
permits_exclusive actions = ground (arith, run-Counted actions start refl)
