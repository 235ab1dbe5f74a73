-- ===== src/Core/Tables/Rows.antt =====
-- What an update makes of a search.
use forum_agent.Shared.{
  ◌≡◌, refl, Bool, true, Option, none, some, List, [], ◌∷◌, find, if◌then◌else◌, arith, All,
  Bool-cases, inl, inr, subst, sym,
}
use forum_agent.Core.Tables.{update_where}

abbrev pub changed_if {ℓ} : {A : Type ℓ} → (A → Bool) → (A → A) → Option A → Option A
changed_if test change none = none
changed_if test change (some x) = some (if test x then change x else x)

-- An update that does not move a row in or out of a search changes what the search finds.
pub find-update_where :
    {A : Type 0} (p test : A → Bool) (change : A → A)
    → ((x : A) → test x ≡ true → p (change x) ≡ p x)
    → (rows : List A)
    → find p (update_where test change rows) ≡ changed_if test change (find p rows)
find-update_where p test change same [] = refl
find-update_where p test change same (x ∷ rows) =
    ground (arith, find-update_where p test change same rows, λ (h : test x ≡ true). same x h)

pub update_where-All_kept :
    {A : Type 0} (P : A → Type 0) (test : A → Bool) (change : A → A)
    → ((x : A) → P x → P (change x))
    → (rows : List A) → All P rows
    → All P (update_where test change rows)
update_where-All_kept P test change keep [] h = tt
update_where-All_kept P test change keep (x ∷ rows) h = elim (Bool-cases (test x)) [
  | inl hit ↦ (
    subst (λ b. P (if b then change x else x)) (sym hit) (keep x h.0),
    update_where-All_kept P test change keep rows h.1,
  )
  | inr miss ↦ (
    subst (λ b. P (if b then change x else x)) (sym miss) h.0,
    update_where-All_kept P test change keep rows h.1,
  )
]
