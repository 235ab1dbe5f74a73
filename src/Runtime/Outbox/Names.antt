-- ===== src/Runtime/Outbox/Names.antt =====
-- The names of the outbox's files and their order, desktop/crates/forum-runtime/src/outbox.rs.
use forum_agent.Shared.{
  ℕ, ◌≡◌, refl, ltb, leb, Bool, true, false, ◌&&◌, ◌||◌, ◌==◌, List, [], ◌∷◌, ◌++◌, if◌then◌else◌,
  keep, All, All-map, Bool-cases, inl, inr, arith, length, suc,
}
use forum_agent.Contracts.{Uuid}

-- `{run_id}-{seq:020}-{message_id}.json`.
pub record FileName : Type 0 where
  pub run_id : Uuid
  pub seq : ℕ
  pub message_id : Uuid

abbrev pub same_name : FileName → FileName → Bool
same_name a b = a.run_id == b.run_id && a.seq == b.seq && a.message_id == b.message_id

-- Names compare as their texts do: a `u64` has at most twenty digits, so that the three parts have
-- fixed widths.
unfoldable pub up_to : FileName → FileName → Bool
up_to a b =
    ltb a.run_id b.run_id
    || a.run_id == b.run_id && (ltb a.seq b.seq || a.seq == b.seq && leb a.message_id b.message_id)

up_to_trans : (a b c : FileName) → up_to a b ≡ true → up_to b c ≡ true → up_to a c ≡ true
unfolding up_to
up_to_trans a b c h k = ground arith

up_to_total : (a b : FileName) → up_to a b ≡ false → up_to b a ≡ true
unfolding up_to
up_to_total a b h = ground arith

module _ {ℓ} {A : Type ℓ} (name : A → FileName) where
  unfoldable pub insert : A → List A → List A
  unfolding up_to
  insert x [] = x ∷ []
  insert x (y ∷ ys) =
      let rest = insert x ys in if up_to (name x) (name y) then x ∷ y ∷ ys else y ∷ rest

  -- `sort`, on paths with different names.
  unfoldable pub sort : List A → List A
  unfolding insert
  sort [] = []
  sort (x ∷ xs) = insert x (sort xs)

  abbrev pub Sorted : List A → Type 0
  Sorted [] = Unit
  Sorted (x ∷ xs) = All (λ y. up_to (name x) (name y) ≡ true) xs × Sorted xs

  pub insert-All {κ} : (P : A → Type κ) (x : A) (xs : List A) → P x → All P xs → All P (insert x xs)
  unfolding insert
  insert-All P x [] p h = (p, tt)
  insert-All P x (y ∷ ys) p h = elim (Bool-cases (up_to (name x) (name y))) [
    | inl e ↦ rw e (p, h)
    | inr e ↦ rw e (h.0, insert-All P x ys p h.1)
  ]

  insert-Sorted : (x : A) (xs : List A) → Sorted xs → Sorted (insert x xs)
  unfolding insert
  insert-Sorted x [] h = (tt, tt)
  insert-Sorted x (y ∷ ys) h = elim (Bool-cases (up_to (name x) (name y))) [
    | inl e ↦ rw e ((e, All-map _ _ (λ z. up_to_trans (name x) (name y) (name z) e) ys h.0), h)
    | inr e ↦ rw e (insert-All _ x ys (up_to_total (name x) (name y) e) h.0, insert-Sorted x ys h.1)
  ]

  pub sort-Sorted : (xs : List A) → Sorted (sort xs)
  unfolding sort
  sort-Sorted [] = tt
  sort-Sorted (x ∷ xs) = insert-Sorted x (sort xs) (sort-Sorted xs)

  insert_first :
      (x : A) (xs : List A) → All (λ y. up_to (name x) (name y) ≡ true) xs → insert x xs ≡ x ∷ xs
  unfolding insert
  insert_first x [] h = refl
  insert_first x (y ∷ ys) h = ground (arith, h.0)

  pub insert_last :
      (x : A) (xs : List A)
      → All (λ y. up_to (name x) (name y) ≡ false) xs
      → insert x xs ≡ xs ++ (x ∷ [])
  unfolding insert
  insert_last x [] h = refl
  insert_last x (y ∷ ys) h = ground (arith, h.0, insert_last x ys h.1)

  pub keep-All {κ} : (P : A → Type κ) (q : A → Bool) (xs : List A) → All P xs → All P (keep q xs)
  keep-All P q [] h = tt
  keep-All P q (x ∷ xs) h = elim (Bool-cases (q x)) [
    | inl e ↦ rw (e, keep, All) (h.0, keep-All P q xs h.1)
    | inr e ↦ rw (e, keep, All) (keep-All P q xs h.1)
  ]

  pub keep-insert :
      (q : A → Bool) (x : A) (xs : List A)
      → Sorted xs
      → keep q (insert x xs) ≡ (if q x then insert x (keep q xs) else keep q xs)
  unfolding insert
  keep-insert q x [] h = ground arith
  keep-insert q x (y ∷ ys) h = elim (Bool-cases (up_to (name x) (name y))) [
    | inl e ↦
        let above = All-map _ _ (λ z. up_to_trans (name x) (name y) (name z) e) ys h.0 in
        ground (arith, insert_first x (keep q (y ∷ ys)) (keep-All _ q (y ∷ ys) (e, above)))
    | inr e ↦ ground (arith, keep-insert q x ys h.1)
  ]

  pub keep-sort : (q : A → Bool) (xs : List A) → keep q (sort xs) ≡ sort (keep q xs)
  unfolding sort
  keep-sort q [] = refl
  keep-sort q (x ∷ xs) =
      let i = keep-sort q xs in
      let j = keep-insert q x (sort xs) (sort-Sorted xs) in
      elim (Bool-cases (q x)) [ inl e ↦ ground arith | inr e ↦ ground arith ]

  pub sort-All {κ} : (P : A → Type κ) (xs : List A) → All P xs → All P (sort xs)
  unfolding sort
  sort-All P [] h = tt
  sort-All P (x ∷ xs) h = insert-All P x (sort xs) h.0 (sort-All P xs h.1)

  pub length-insert : (x : A) (xs : List A) → length (insert x xs) ≡ suc (length xs)
  unfolding insert
  length-insert x [] = refl
  length-insert x (y ∷ ys) = ground (arith, length-insert x ys)
