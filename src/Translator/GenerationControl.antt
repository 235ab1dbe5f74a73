-- ===== src/Translator/GenerationControl.antt =====
-- The bounds of one generation, desktop/node-hub/dora-qwen35-translator/src/generation_control.rs.
-- The flag that all clones share is read at each test and is an argument, as `Instant::now` is;
-- `cancel`, which only sets it, is left out. Times are nanoseconds.
use forum_agent.Shared.{
  ℕ, ◌+◌, ◌≡◌, ◌↔◌, ◌<◌, ◌⊎◌, Bool, true, false, ◌&&◌, not, leb, Result, ok, ensure, arith, ◌>>◌,
}

pub data GenerationError : Type 0 where
  cancelled deadline_exceeded token_budget_exhausted : GenerationError

pub record GenerationControl : Type 0 where
  pub deadline : ℕ
  pub require_eos : Bool

unfoldable pub new_control : ℕ → Bool → ℕ → GenerationControl
new_control budget require_eos now = record { deadline = now + budget; require_eos = require_eos }

unfoldable pub check : GenerationControl → Bool → ℕ → Result GenerationError (Unit {0})
check c stopped now = do
  ensure (not stopped) cancelled
  ensure (not (leb c.deadline now)) deadline_exceeded

unfoldable pub finish : GenerationControl → Bool → Bool → ℕ → Result GenerationError (Unit {0})
unfolding check
finish c stopped saw_eos now = do
  check c stopped now
  ensure (not (c.require_eos && not saw_eos)) token_budget_exhausted

-- A translation is final exactly when it was not cancelled, its budget has not passed since the
-- control was made, and the end of the sequence was seen where it is required.
pub finish_iff :
    (budget start now : ℕ) (require_eos stopped saw_eos : Bool)
    → (finish (new_control budget require_eos start) stopped saw_eos now ≡ ok tt)
      ↔ ((stopped ≡ false) × (now < start + budget) × ((require_eos ≡ false) ⊎ (saw_eos ≡ true)))
unfolding check finish new_control
finish_iff budget start now require_eos stopped saw_eos = ground arith
