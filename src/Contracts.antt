-- ===== src/Contracts.antt =====
-- The ingestion contract, desktop/crates/forum-contracts: shared checks here, the records and
-- their `validate` methods in the children.
pub mod Session
pub mod Event
pub mod Transcript
pub mod Translation
pub mod Manifest
use forum_agent.Shared.{
  ℕ, ◌+◌, String, Option, none, some, ltb, ◌==◌, if◌then◌else◌, Result, ok, err,
}
use forum_agent.Text.{Text, is_blank}

-- An identifier is its 128-bit value; `Uuid::nil()` is 0.
abbrev pub Uuid : Type 0
Uuid = ℕ

pub data ValidationError : Type 0 where
  invalid : String → ValidationError
  unsupported_schema : ValidationError
  event_type_mismatch : ValidationError
  invalid_span : ValidationError

abbrev pub Checked {ℓ} : Type ℓ → Type ℓ
Checked A = Result ValidationError A

unfoldable pub non_nil : Uuid → String → Checked (Unit {0})
non_nil id field = if id == 0 then err (invalid field) else ok tt

unfoldable pub non_blank : Text → String → Checked (Unit {0})
non_blank value field = if is_blank value then err (invalid field) else ok tt

abbrev pub max_safe_integer : ℕ
max_safe_integer = 9_007_199_254_740_991

unfoldable pub sqlite_integer : ℕ → String → Checked (Unit {0})
sqlite_integer value field = if ltb max_safe_integer value then err (invalid field) else ok tt

abbrev pub u32_mod : ℕ
u32_mod = 4_294_967_296

abbrev pub u64_mod : ℕ
u64_mod = 18_446_744_073_709_551_616

-- `checked_add` on an unsigned word of the given modulus.
abbrev pub checked_add : ℕ → ℕ → ℕ → Option ℕ
checked_add modulus a b = if ltb (a + b) modulus then some (a + b) else none

-- `Revision` wraps a `u32`; `try_from` is its only constructor.
abbrev pub Revision : Type 0
Revision = ℕ

abbrev pub first_revision : Revision
first_revision = 1

unfoldable pub revision_try_from : ℕ → Checked Revision
revision_try_from value = if value == 0 then err (invalid "revision") else ok value

abbrev or_invalid : Option ℕ → (ℕ → Checked ℕ) → Checked ℕ
or_invalid none f = err (invalid "revision")
or_invalid (some n) f = f n

unfoldable pub revision_next : Revision → Checked Revision
unfolding revision_try_from
revision_next r = or_invalid (checked_add u32_mod r 1) revision_try_from
