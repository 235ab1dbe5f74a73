-- ===== src/Tests/Gate.antt =====
-- The admission gate of desktop/crates/forum-runtime/src/resource_budget.rs at concrete inputs.
use forum_agent.Shared.{
  ℕ, ◌+◌, ◌*◌, ◌≤◌, ◌<◌, ◌≡◌, ◌≢◌, refl, ◌↔◌, ◌⊎◌, String, true, false, none, some, List, [], ◌∷◌,
  arith,
}
use forum_agent.Runtime.ResourceBudget.{
  State, default, ready, refused, enter_live, admit, yield_reason_at, pause_reason_at,
  set_transient_pressure_at, release,
}
use forum_agent.Runtime.ResourceBudget.Steps.{
  Action, prepare, ask, drop_permit, exit, World, step, run, start, permits_exclusive,
}
use forum_agent.Runtime.ResourceBudget.Waiting
use forum_agent.Runtime.ResourceBudget.Reasons

abbrev busy : State
busy = record default { background = true; background_live_eligible = true }

abbrev owned : World
owned = record { gate = busy; permits = 1 }

abbrev morning : List Action
morning = ask true 0 ∷ ask true 1 ∷ prepare ∷ drop_permit ∷ []

permits_exclusive_example :
    ((run morning start).permits ≤ 1)
    × (((run morning start).gate.background ≡ true) ↔ ((run morning start).permits ≡ 1))
permits_exclusive_example = permits_exclusive morning

-- The background owner drops its permit during the first wait.
entered :
    enter_live 100 ((50, release) ∷ []) (λ s. s) busy
    ≡ some (ready, record busy { live = true; preparing = true; background = false })
unfolding enter_live release
entered = refl

-- The owner leaves after the refusal, before the claim is given back.
abbrev turned_away : String
turned_away = "后台模型尚未退出，暂不能开始采音"

abbrev given_back : State
given_back = record busy { background = false }

turned :
    enter_live 100 ((50, λ s. s) ∷ (101, λ s. s) ∷ []) release busy
    ≡ some (refused turned_away, given_back)
unfolding enter_live release
turned = refl

enter_live_exit_example :
    ((refused turned_away ≡ ready) × (given_back.background ≡ false))
    ⊎ Waiting.IsRefused 100
        ((50, λ s. s) ∷ (101, λ s. s) ∷ [])
        release
        busy
        given_back
        (refused turned_away)
enter_live_exit_example =
    Waiting.enter_live_exit 100 ((50, λ s. s) ∷ (101, λ s. s) ∷ []) release busy given_back
      (refused turned_away) turned

enter_live_ends_example : enter_live 100 ((50, λ s. s) ∷ (101, λ s. s) ∷ []) (λ s. s) busy ≢ none
enter_live_ends_example =
    Waiting.enter_live_ends 100 ((50, λ s. s) ∷ []) 101 (λ s. s) (λ s. s) busy (omega arith)

abbrev meanwhile : List Action
meanwhile = ask true 3 ∷ drop_permit ∷ ask true 4 ∷ []

run_preparing_example :
    ((run meanwhile (step prepare owned)).gate.preparing ≡ true)
    × ((run meanwhile (step prepare owned)).permits ≤ 1)
run_preparing_example = Waiting.run_preparing meanwhile owned (refl, (refl, (refl, tt)))

admitted : (admit true 7 default).0 ≡ none
unfolding admit
admitted = refl

admit-yield_example :
    (yield_reason_at (admit true 7 default).1 7 ≡ none)
    × (pause_reason_at (admit true 7 default).1 7 ≡ none)
admit-yield_example = Reasons.admit-yield default true 7 admitted

abbrev backlog : State
backlog = record busy { pressure = some "ASR backlog"; pressure_yield_at = some 6_000_000_000 }

shut_down_final_example :
    let s = (run morning (step exit owned)).gate in
    ((run morning (step exit owned)).permits ≤ 1)
    × ((admit true 9 s).0 ≡ some Reasons.leaving)
    × (yield_reason_at s 9 ≡ some Reasons.leaving)
shut_down_final_example = Reasons.shut_down_final morning owned true 9

pause_slices_example :
    let t =
      Reasons.report
        (("larger backlog", 6_000_000_000, 5_000_000_000) ∷ [])
        (set_transient_pressure_at "ASR backlog" 6_000_000_000 0 busy) in
    ((early : ℕ) → early < 0 + 6_000_000_000 → pause_reason_at t early ≡ none)
    × ((pause_reason_at t (0 + 6_000_000_000 + (8000 * 1 + 500) * 1_000_000) ≢ none) ↔ (500 < 2000))
pause_slices_example =
    Reasons.pause_slices "ASR backlog" 6_000_000_000 0
      (("larger backlog", 6_000_000_000, 5_000_000_000) ∷ []) busy 1 500 refl refl (omega arith)
