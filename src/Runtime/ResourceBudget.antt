-- ===== src/Runtime/ResourceBudget.antt =====
-- The foreground admission gate, desktop/crates/forum-runtime/src/resource_budget.rs.
-- `State` is what the mutex guards; an `Instant` is a number of nanoseconds. Each public method
-- is one critical section and becomes a function on `State`; the waiting loop of `prepare_live`
-- runs over the list of its wake-ups, with what the other threads did during each wait.
pub mod Steps
pub mod Waiting
pub mod Reasons
use forum_agent.Shared.{
  ℕ, ◌+◌, ◌-◌, ◌/◌, ◌%◌, String, Bool, true, false, ◌&&◌, ◌||◌, not, Option, none, some, List, [],
  ◌∷◌, ltb, leb, if◌then◌else◌, is_some, filter_by,
}

pub record State : Type 0 where
  pub live : Bool
  pub preparing : Bool
  pub pressure : Option String
  pub pressure_yield_at : Option ℕ
  pub background : Bool
  pub background_live_eligible : Bool
  pub shutdown : Bool

-- `State::default()`.
abbrev pub default : State
default = record {
  live = false;
  preparing = false;
  pressure = none;
  pressure_yield_at = none;
  background = false;
  background_live_eligible = false;
  shutdown = false;
}

abbrev pub in_slice : Option ℕ → ℕ → Bool
in_slice none now = false
in_slice (some start) now = leb start now && ltb ((now - start) / 1_000_000 % 8000) 2000

unfoldable pub catch_up_slice : State → ℕ → Bool
catch_up_slice state now = in_slice state.pressure_yield_at now

-- `prepare_live` up to its loop: the flags that preempt the background owner.
unfoldable pub prepare_begin : State → State
prepare_begin s = record s { live = true; preparing = true }

pub data Prepared : Type 0 where
  ready : Prepared
  refused : String → Prepared

-- `while state.background`: each wake-up is the clock that the deadline test reads, and what the
-- other threads did to the state during the wait that followed. `none` is a loop still waiting.
unfoldable pub wait_background : ℕ → List (ℕ × (State → State)) → State → Option (Prepared × State)
wait_background deadline [] s = if s.background then none else some (ready, s)
wait_background deadline ((now, others) ∷ wakes) s =
    let rest = wait_background deadline wakes (others s) in
    if s.background
    then if leb now deadline then rest else some (refused "后台模型尚未退出，暂不能开始采音", s)
    else some (ready, s)

unfoldable pub prepare_live : ℕ → List (ℕ × (State → State)) → State → Option (Prepared × State)
unfolding prepare_begin wait_background
prepare_live deadline wakes s = wait_background deadline wakes (prepare_begin s)

unfoldable pub live_ready : State → State
live_ready s = record s { preparing = false }

-- Also what dropping a `LivePermit` does.
unfoldable pub finish_live : State → State
finish_live s = record s {
  live = false;
  preparing = false;
  pressure = none;
  pressure_yield_at = none;
}

abbrev pub settle : (State → State) → Prepared → State → Prepared × State
settle between ready s = (ready, s)
settle between (refused error) s = (refused error, finish_live (between s))

-- `enter_live`: a refused preparation gives the live claim back, in a critical section of its own.
-- `between` is what the other threads did after the refusal released the lock.
unfoldable pub enter_live :
    ℕ → List (ℕ × (State → State)) → (State → State) → State → Option (Prepared × State)
unfolding prepare_live finish_live
enter_live deadline wakes between s = elim (prepare_live deadline wakes s) [
  | none ↦ none
  | some (p, t) ↦ some (settle between p t)
]

unfoldable pub set_pressure : Option String → State → State
set_pressure reason s = record s { pressure = reason; pressure_yield_at = none }

unfoldable pub set_transient_pressure_at : String → ℕ → ℕ → State → State
set_transient_pressure_at reason grace now s = record s {
  pressure = some reason;
  pressure_yield_at = if is_some s.pressure then s.pressure_yield_at else some (now + grace);
}

unfoldable pub shut_down : State → State
shut_down s = record s { shutdown = true }

unfoldable pub admit_reason : State → Bool → ℕ → Option String
unfolding catch_up_slice
admit_reason s live_eligible now =
    if s.shutdown
    then some "应用正在退出"
    else if s.preparing
    then some "正在准备实时字幕"
    else if s.background
    then some "已有分析任务正在运行"
    else if s.live && not live_eligible
    then some "等待采音及字幕收尾完成"
    else filter_by (not (is_some s.pressure_yield_at) || not live_eligible || catch_up_slice s now)
        s.pressure

abbrev pub grant : Option String → Bool → State → Option String × State
grant (some reason) live_eligible s = (some reason, s)
grant none live_eligible s =
    (none, record s { background = true; background_live_eligible = live_eligible })

-- `admit`: a reason for refusal, or none and the lease is taken.
unfoldable pub admit : Bool → ℕ → State → Option String × State
unfolding admit_reason
admit live_eligible now s = grant (admit_reason s live_eligible now) live_eligible s

unfoldable pub pause_reason_at : State → ℕ → Option String
unfolding catch_up_slice
pause_reason_at s now =
    if s.shutdown || s.preparing || s.live && not s.background_live_eligible
    then none
    else filter_by (catch_up_slice s now) s.pressure

unfoldable pub yield_reason_at : State → ℕ → Option String
unfolding catch_up_slice
yield_reason_at s now =
    if s.shutdown
    then some "应用正在退出"
    else if s.preparing
    then some "新会议优先，已请求后台模型退出"
    else if s.live && not s.background_live_eligible
    then some "实时字幕优先"
    else filter_by (not (is_some s.pressure_yield_at) || catch_up_slice s now) s.pressure

-- Dropping a `BackgroundPermit`.
unfoldable pub release : State → State
release s = record s { background = false }
