-- ===== src/Translator/RecoveryBudget.antt =====
-- The allowance of a manual recovery, desktop/node-hub/dora-qwen35-translator/src/recovery_budget.rs.
-- The directory is a list of allowance files, newest first, by the names that the code gives them;
-- the JSON of a file is its value. How the file system behaves in a call, in its reads as in its
-- writes, is an argument. Calls stand one after another: the test for the file and the rename that
-- gives it its name are one step, and a file that has its name keeps it. `from_env`, which only
-- reads the environment, is left out.
pub mod Allowances
use forum_agent.Shared.{
  ℕ, Bool, false, ◌&&◌, not, ◌==◌, Option, none, some, List, [], ◌∷◌, Result, ok, err, ensure, find,
  if◌then◌else◌, All, ◌>>◌,
}
use forum_agent.Contracts.{Uuid, checked_add, u32_mod}

pub data RecoveryError : Type 0 where
  nil_action scope_mismatch attempt_exhausted io : RecoveryError

pub record Allowance : Type 0 where
  pub session_id : Uuid
  pub action_id : Uuid
  pub translation_id : Uuid
  pub initial_attempt : ℕ
  pub ceiling : ℕ

-- A file, by the two identifiers in its name.
pub record AllowanceFile : Type 0 where
  pub action_id : Uuid
  pub translation_id : Uuid
  pub allowance : Allowance

pub record RecoveryBudget : Type 0 where
  pub session_id : Uuid
  pub action_id : Option Uuid

abbrev is_nil : Option Uuid → Bool
is_nil none = false
is_nil (some id) = id == 0

unfoldable pub for_action : Uuid → Option Uuid → Result RecoveryError RecoveryBudget
for_action session action = do
  ensure (not (is_nil action)) nil_action
  ok (record { session_id = session; action_id = action })

abbrev pub is_sum : ℕ → ℕ → Bool
is_sum attempt ceiling = elim (checked_add u32_mod attempt 3) [
  | none ↦ false
  | some n ↦ n == ceiling
]

abbrev pub in_scope : RecoveryBudget → Uuid → Uuid → Allowance → Bool
in_scope b action translation a =
    a.session_id == b.session_id
    && a.action_id == action
    && a.translation_id == translation
    && is_sum a.initial_attempt a.ceiling

-- What the file system does with a new file: it fails before the file has its name, after, or not.
pub data Outcome : Type 0 where
  lost unsure written : Outcome

-- How the file system behaves in one call: whether `try_exists` succeeds, whether a file that exists
-- can be opened, is a regular file of at most 1024 bytes, and can be read and parsed, and what
-- becomes of a new file.
pub record Disk : Type 0 where
  pub tested : Bool
  pub readable : Bool
  pub outcome : Outcome

abbrev pub Answer : Type 0
Answer = Result RecoveryError ℕ × List AllowanceFile

abbrev pub store_file : AllowanceFile → Outcome → List AllowanceFile → Answer
store_file f lost files = (err io, files)
store_file f unsure files = (err io, f ∷ files)
store_file f written files = (ok f.allowance.ceiling, f ∷ files)

abbrev pub new_file : RecoveryBudget → Uuid → Uuid → ℕ → ℕ → AllowanceFile
new_file b action translation attempt ceiling = record {
  action_id = action;
  translation_id = translation;
  allowance = record {
    session_id = b.session_id;
    action_id = action;
    translation_id = translation;
    initial_attempt = attempt;
    ceiling = ceiling;
  };
}

-- A new allowance, with the sum of `checked_add(3)`.
abbrev pub issue :
    RecoveryBudget → Uuid → Uuid → ℕ → Outcome → List AllowanceFile → Option ℕ → Answer
issue b action translation attempt outcome files none = (err attempt_exhausted, files)
issue b action translation attempt outcome files (some ceiling) =
    store_file (new_file b action translation attempt ceiling) outcome files

-- What follows the search for the file.
unfoldable pub grant :
    RecoveryBudget → Uuid → Uuid → ℕ → Disk → Option AllowanceFile → List AllowanceFile → Answer
grant b action translation attempt disk (some f) files =
    if not (disk.tested && disk.readable)
    then (err io, files)
    else if in_scope b action translation f.allowance
    then (ok f.allowance.ceiling, files)
    else (err scope_mismatch, files)
grant b action translation attempt disk none files =
    if not disk.tested
    then (err io, files)
    else issue b action translation attempt disk.outcome files (checked_add u32_mod attempt 3)

abbrev pub named : Uuid → Uuid → AllowanceFile → Bool
named action translation f = f.action_id == action && f.translation_id == translation

abbrev pub granted : RecoveryBudget → Option Uuid → Uuid → ℕ → Disk → List AllowanceFile → Answer
granted b none translation attempt disk files = (ok 3, files)
granted b (some action) translation attempt disk files =
    grant b action translation attempt disk (find (named action translation) files) files

unfoldable pub ceiling_of : RecoveryBudget → Uuid → ℕ → Disk → List AllowanceFile → Answer
unfolding grant
ceiling_of b translation attempt disk files = granted b b.action_id translation attempt disk files

-- Calls one after another, of any actions and translations, before and after restarts.
pub record Call : Type 0 where
  pub budget : RecoveryBudget
  pub translation : Uuid
  pub attempt : ℕ
  pub disk : Disk

abbrev pub calls : List Call → List AllowanceFile → List AllowanceFile
calls [] files = files
calls (c ∷ cs) files = calls cs (ceiling_of c.budget c.translation c.attempt c.disk files).1
