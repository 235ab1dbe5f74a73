-- ===== src/Translator/RecoveryBudget/Allowances.antt =====
-- An allowance is given once: restarts and retries find it again.
use forum_agent.Shared.{
  ℕ, ◌≡◌, refl, Bool, true, false, ◌==◌, Option, none, some, List, [], ◌∷◌, ok, err, ◌&&◌,
  if◌then◌else◌, find, arith, Bool-cases, inl, inr, ap, sym, ◌∙◌, subst, ==_refl,
}
use forum_agent.Contracts.{Uuid, checked_add, u32_mod}
use forum_agent.Translator.RecoveryBudget.{
  AllowanceFile, RecoveryBudget, is_sum, in_scope, Outcome, lost, unsure, written, store_file, Disk,
  io, new_file, issue, grant, named, granted, ceiling_of, Call, calls,
}

-- A file of a new name hides no other.
new_name :
    (g : AllowanceFile) (action translation : Uuid) (files : List AllowanceFile) (f : AllowanceFile)
    → find (named g.action_id g.translation_id) files ≡ none
    → find (named action translation) files ≡ some f
    → find (named action translation) (g ∷ files) ≡ some f
new_name g action translation files f e h = elim (Bool-cases (named action translation g)) [
  | inr other ↦ ground arith
  | inl same ↦
      let x : g.action_id ≡ action = ground arith in
      let y : g.translation_id ≡ translation = ground arith in
      let found : find (named g.action_id g.translation_id) files ≡ some f =
        subst (λ a. find (named a g.translation_id) files ≡ some f) (sym x)
          (subst (λ t. find (named action t) files ≡ some f) (sym y) h) in
      absurd (cc (e, found))
]

-- The file of a name stays once it is there.
grant-find :
    (b : RecoveryBudget) (x y action translation : Uuid) (attempt : ℕ) (disk : Disk)
    (files : List AllowanceFile) (f : AllowanceFile)
    → find (named action translation) files ≡ some f
    → find (named action translation) (grant b x y attempt disk (find (named x y) files) files).1
      ≡ some f
unfolding grant
grant-find b x y action translation attempt disk files f h = by_file (find (named x y) files) refl
  where
    by_sum :
        (m : Option ℕ)
        → find (named x y) files ≡ none
        → find (named action translation) (issue b x y attempt disk.outcome files m).1 ≡ some f
    by_sum none e = h
    by_sum (some n) e = stored disk.outcome
      where
        stored :
            (o : Outcome)
            → find (named action translation) (store_file (new_file b x y attempt n) o files).1
              ≡ some f
        stored lost = h
        stored unsure = new_name (new_file b x y attempt n) action translation files f e h
        stored written = new_name (new_file b x y attempt n) action translation files f e h

    by_file :
        (o : Option AllowanceFile)
        → find (named x y) files ≡ o
        → find (named action translation) (grant b x y attempt disk o files).1 ≡ some f
    by_file none e =
        let issued = by_sum (checked_add u32_mod attempt 3) e in
        elim (Bool-cases disk.tested) [ inl there ↦ rw there issued | inr failed ↦ rw failed h ]
    by_file (some g) e = ground arith

ceiling_of-find :
    (c : Call) (action translation : Uuid) (files : List AllowanceFile) (f : AllowanceFile)
    → find (named action translation) files ≡ some f
    → find (named action translation) (ceiling_of c.budget c.translation c.attempt c.disk files).1
      ≡ some f
unfolding ceiling_of
ceiling_of-find c action translation files f h = by_action c.budget.action_id
  where
    by_action :
        (o : Option Uuid)
        → find
            (named action translation)
            (granted c.budget o c.translation c.attempt c.disk files).1
          ≡ some f
    by_action none = h
    by_action (some x) =
        grant-find c.budget x c.translation action translation c.attempt c.disk files f h

calls-find :
    (cs : List Call) (action translation : Uuid) (files : List AllowanceFile) (f : AllowanceFile)
    → find (named action translation) files ≡ some f
    → find (named action translation) (calls cs files) ≡ some f
calls-find [] action translation files f h = h
calls-find (c ∷ cs) action translation files f h =
    calls-find cs action translation _ f (ceiling_of-find c action translation files f h)

new_file_scope :
    (b : RecoveryBudget) (action translation : Uuid) (attempt c : ℕ)
    → checked_add u32_mod attempt 3 ≡ some c
    → in_scope b action translation (new_file b action translation attempt c).allowance ≡ true
new_file_scope b action translation attempt c e =
    let sum : is_sum attempt c ≡ true =
      ap (λ m. elim m as (λ k. Bool) [ none ↦ false | some n ↦ n == c ]) e ∙ ==_refl c in
    ground arith

grant_file :
    (b : RecoveryBudget) (action translation : Uuid) (attempt n : ℕ) (disk : Disk)
    (files : List AllowanceFile)
    → (grant b action translation attempt disk (find (named action translation) files) files).0
      ≡ ok n
    → (f : AllowanceFile) × (find
          (named action translation)
          (grant b action translation attempt disk (find (named action translation) files) files).1
        ≡ some f)
      × (in_scope b action translation f.allowance ≡ true)
      × (f.allowance.ceiling ≡ n)
unfolding grant
grant_file b action translation attempt n disk files h =
    by_file (find (named action translation) files) refl h
  where
    by_sum :
        (m : Option ℕ)
        → checked_add u32_mod attempt 3 ≡ m
        → (issue b action translation attempt disk.outcome files m).0 ≡ ok n
        → (f : AllowanceFile) × (find
              (named action translation)
              (issue b action translation attempt disk.outcome files m).1
            ≡ some f)
          × (in_scope b action translation f.allowance ≡ true)
          × (f.allowance.ceiling ≡ n)
    by_sum none e g = absurd (cc g)
    by_sum (some c) e g = made disk.outcome g
      where
        made :
            (o : Outcome)
            → (store_file (new_file b action translation attempt c) o files).0 ≡ ok n
            → (f : AllowanceFile) × (find
                  (named action translation)
                  (store_file (new_file b action translation attempt c) o files).1
                ≡ some f)
              × (in_scope b action translation f.allowance ≡ true)
              × (f.allowance.ceiling ≡ n)
        made lost k = absurd (cc k)
        made unsure k = absurd (cc k)
        made written k = (
          new_file b action translation attempt c,
          ground arith,
          new_file_scope b action translation attempt c e,
          cc k,
        )

    by_file :
        (o : Option AllowanceFile)
        → find (named action translation) files ≡ o
        → (grant b action translation attempt disk o files).0 ≡ ok n
        → (f : AllowanceFile) × (find
              (named action translation)
              (grant b action translation attempt disk o files).1
            ≡ some f)
          × (in_scope b action translation f.allowance ≡ true)
          × (f.allowance.ceiling ≡ n)
    by_file none e g = elim (Bool-cases disk.tested) [
      | inl there ↦
          let (f, found, own, ceiling) =
            by_sum (checked_add u32_mod attempt 3) refl (rw there at g) in
          (f, rw there found, own, ceiling)
      | inr failed ↦ absurd (ground arith)
    ]
    by_file (some f) e g = elim (Bool-cases (in_scope b action translation f.allowance)) [
      | inl own ↦ (f, ground arith, own, ground arith)
      | inr other ↦ absurd (ground arith)
    ]

grant_again :
    (b : RecoveryBudget) (action translation : Uuid) (attempt : ℕ) (disk : Disk)
    (files : List AllowanceFile) (f : AllowanceFile)
    → find (named action translation) files ≡ some f
    → in_scope b action translation f.allowance ≡ true
    → grant b action translation attempt disk (find (named action translation) files) files
      ≡ (if disk.tested && disk.readable then ok f.allowance.ceiling else err io, files)
unfolding grant
grant_again b action translation attempt disk files f e own = rw (e, own) (ground arith)

-- Once a recovery action has been told the ceiling of a translation, then after any further calls,
-- one after another, it is told the same number again wherever its file can be read, and gets an
-- error where it cannot, never another number; whatever attempt has been reached, nothing is
-- written. The file system may fail in any way in the calls before, in their reads and their writes.
pub ceiling_of-calls :
    (b : RecoveryBudget) (action translation : Uuid) (attempt later n : ℕ) (first again : Disk)
    (files : List AllowanceFile) (cs : List Call)
    → b.action_id ≡ some action
    → (ceiling_of b translation attempt first files).0 ≡ ok n
    → ceiling_of b translation later again
        (calls cs (ceiling_of b translation attempt first files).1)
      ≡ (
        if again.tested && again.readable then ok n else err io,
        calls cs (ceiling_of b translation attempt first files).1,
      )
unfolding ceiling_of
ceiling_of-calls b action translation attempt later n first again files cs e h =
    let start = granted b (some action) translation attempt first files in
    let same : ceiling_of b translation attempt first files ≡ start =
      ap (λ o. granted b o translation attempt first files) e in
    let (f, there, own, ceiling) =
      grant_file b action translation attempt n first files (ap (λ x. x.0) (sym same) ∙ h) in
    let kept = calls-find cs action translation start.1 f there in
    let told : ceiling_of b translation later again (calls cs start.1)
        ≡ (if again.tested && again.readable then ok n else err io, calls cs start.1) =
      ap (λ o. granted b o translation later again (calls cs start.1)) e
      ∙ grant_again b action translation later again (calls cs start.1) f kept own
      ∙ ap (λ c. (if again.tested && again.readable then ok c else err io, calls cs start.1))
          ceiling in
    subst
      (λ x.
        ceiling_of b translation later again (calls cs x.1)
        ≡ (if again.tested && again.readable then ok n else err io, calls cs x.1))
      (sym same) told
