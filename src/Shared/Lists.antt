-- ===== src/Shared/Lists.antt =====
-- Lists measured and indexed by native numbers, under the library's names.
use Prim.Native.Nat.{ℕ, zero, suc, ◌+◌, ◌-◌, min}
use mathlib.Core.Path.{◌≡◌, subst}
use mathlib.Core.Logic.{inl, inr}
use forum_agent.Shared.Tests.{Bool-cases}
use mathlib.Core.List.{List, [], ◌∷◌, ◌++◌}
use mathlib.Core.Option.{Option, none, some}
use mathlib.Core.Bool.{Bool, true, false, ◌&&◌, ◌||◌}
use native.Mathlib.Omega.{arith}

module _ {ℓ} {A : Type ℓ} where
  abbrev pub length : List A → ℕ
  length [] = 0
  length (x ∷ xs) = suc (length xs)

  abbrev pub get_elem? : List A → ℕ → Option A
  get_elem? [] i = none
  get_elem? (x ∷ xs) zero = some x
  get_elem? (x ∷ xs) (suc i) = get_elem? xs i

  abbrev pub take : ℕ → List A → List A
  take zero xs = []
  take (suc n) [] = []
  take (suc n) (x ∷ xs) = x ∷ take n xs

  abbrev pub drop : ℕ → List A → List A
  drop zero xs = xs
  drop (suc n) [] = []
  drop (suc n) (x ∷ xs) = drop n xs

  pub length-append : (xs ys : List A) → length (xs ++ ys) ≡ length xs + length ys
  length-append [] ys = omega arith
  length-append (x ∷ xs) ys = omega (arith, length-append xs ys)

  pub length-take : (n : ℕ) (xs : List A) → length (take n xs) ≡ min n (length xs)
  length-take zero xs = omega arith
  length-take (suc n) [] = omega arith
  length-take (suc n) (x ∷ xs) = omega (arith, length-take n xs)

  pub length-drop : (n : ℕ) (xs : List A) → length (drop n xs) ≡ length xs - n
  length-drop zero xs = omega arith
  length-drop (suc n) [] = omega arith
  length-drop (suc n) (x ∷ xs) = omega (arith, length-drop n xs)

  -- `any` and `all` of an iterator.
  abbrev pub any : (A → Bool) → List A → Bool
  any p [] = false
  any p (x ∷ xs) = p x || any p xs

  abbrev pub all : (A → Bool) → List A → Bool
  all p [] = true
  all p (x ∷ xs) = p x && all p xs

  -- The rows that a test keeps, in order.
  abbrev pub keep : (A → Bool) → List A → List A
  keep p [] = []
  keep p (x ∷ xs) = let rest = keep p xs in elim (p x) [ true ↦ x ∷ rest | false ↦ rest ]

  -- The first row that a test accepts.
  abbrev pub find : (A → Bool) → List A → Option A
  find p [] = none
  find p (x ∷ xs) = let rest = find p xs in elim (p x) [ true ↦ some x | false ↦ rest ]

module _ {ℓ} {A : Type ℓ} where
  pub find-any : (p : A → Bool) (xs : List A) (x : A) → find p xs ≡ some x → any p xs ≡ true
  find-any p [] x h = absurd (cc h)
  find-any p (y ∷ xs) x h = ground (arith, find-any p xs x)

  pub find-true : (p : A → Bool) (xs : List A) (x : A) → find p xs ≡ some x → p x ≡ true
  find-true p [] x h = absurd (cc h)
  find-true p (y ∷ xs) x h = elim (Bool-cases (p y)) [
    | inl hit ↦ let same : y ≡ x = ground arith in subst (λ z. p z ≡ true) same hit
    | inr miss ↦ find-true p xs x (ground arith)
  ]

module _ {ℓ κ} {A : Type ℓ} (P : A → Type κ) where
  -- `P` holds of every element; at a list with constructors this computes to a tuple.
  abbrev pub All : List A → Type κ
  All [] = Unit
  All (here ∷ later) = P here × All later

module _ {ℓ κ μ} {A : Type ℓ} (P : A → Type κ) (Q : A → Type μ) where
  pub All-unzip : (xs : List A) → All (λ x. P x × Q x) xs → All P xs × All Q xs
  All-unzip [] h = (tt, tt)
  All-unzip (x ∷ xs) h = let rest = All-unzip xs h.1 in ((h.0.0, rest.0), (h.0.1, rest.1))

  pub All-zip : (xs : List A) → All P xs → All Q xs → All (λ x. P x × Q x) xs
  All-zip [] p q = tt
  All-zip (x ∷ xs) p q = ((p.0, q.0), All-zip xs p.1 q.1)

  pub All-map : ((x : A) → P x → Q x) → (xs : List A) → All P xs → All Q xs
  All-map f [] h = tt
  All-map f (x ∷ xs) h = (f x h.0, All-map f xs h.1)

module _ {ℓ κ} {A : Type ℓ} (P : A → Type κ) where
  -- What a search finds has what all elements have.
  pub find-All : (p : A → Bool) (xs : List A) (x : A) → All P xs → find p xs ≡ some x → P x
  find-All p [] x h e = absurd (cc e)
  find-All p (y ∷ xs) x h e = elim (Bool-cases (p y)) [
    | inl hit ↦ let same : y ≡ x = ground arith in subst P same h.0
    | inr miss ↦ find-All p xs x h.1 (ground arith)
  ]

  -- An element that a test accepts, with what all elements have.
  pub any-All :
      (p : A → Bool) (xs : List A) → any p xs ≡ true → All P xs → (x : A) × (p x ≡ true) × P x
  any-All p [] e h = absurd (cc e)
  any-All p (x ∷ xs) e h = elim (Bool-cases (p x)) [
    | inl hit ↦ (x, hit, h.0)
    | inr miss ↦ any-All p xs (ground arith) h.1
  ]
