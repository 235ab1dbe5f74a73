-- ===== src/Shared/Results.antt =====
-- `std::result::Result` with the `?` chains as `do` blocks.
use mathlib.Core.Path.{◌≡◌, refl}
use mathlib.Core.Bool.{Bool, true, false}
use mathlib.Core.Option.{Option, none, some}
use mathlib.Core.Logic.{◌⊎◌, inl, inr}
use mathlib.Core.List.{List, [], ◌∷◌}
use forum_agent.Shared.Lists.{All}

pub data Result {ℓ κ} (E : Type ℓ) (A : Type κ) : Type (ℓ ⊔ κ) where
  ok : A → Result E A
  err : E → Result E A

module _ {ℓ κ} {E : Type ℓ} {A : Type κ} where
  infixl 5 ◌>>=◌ ◌>>◌
  -- `let a = m?; …`.
  abbrev pub ◌>>=◌ {μ} : {B : Type μ} → Result E A → (A → Result E B) → Result E B
  err failure >>= next = err failure
  ok value >>= next = next value

  -- `check?; …`.
  abbrev pub ◌>>◌ : Result E (Unit {0}) → Result E A → Result E A
  err failure >> next = err failure
  ok _ >> next = next

-- `if !test { return Err(error) }`.
abbrev pub ensure {ℓ} : {E : Type ℓ} → Bool → E → Result E (Unit {0})
ensure false failure = err failure
ensure true failure = ok tt

-- `Option::ok_or`.
abbrev pub ok_or {ℓ κ} : {E : Type ℓ} {A : Type κ} → E → Option A → Result E A
ok_or e none = err e
ok_or e (some a) = ok a

-- `From` on the error of a `?`.
abbrev pub map_err {ℓ κ μ} :
    {E : Type ℓ} {F : Type κ} {A : Type μ} → (E → F) → Result E A → Result F A
map_err f (ok a) = ok a
map_err f (err e) = err (f e)

abbrev pub is_ok {ℓ κ} : {E : Type ℓ} {A : Type κ} → Result E A → Bool
is_ok (ok a) = true
is_ok (err e) = false

-- What a successful chain says of its first step and of the rest.
module _ {ℓ κ} {E : Type ℓ} {A : Type κ} where
  pub >>=-inversion {μ} :
      {B : Type μ} (first : Result E A) (next : A → Result E B) {value : B}
      → (first >>= next) ≡ ok value
      → (a : A) × (first ≡ ok a) × (next a ≡ ok value)
  >>=-inversion (err failure) next done = cc
  >>=-inversion (ok a) next done = (a, refl, done)

  pub >>-inversion :
      (check : Result E (Unit {0})) (next : Result E A) {value : A}
      → (check >> next) ≡ ok value
      → (check ≡ ok tt) × (next ≡ ok value)
  >>-inversion (err failure) next done = cc
  >>-inversion (ok _) next done = (refl, done)

pub ok_or-ok {ℓ κ} :
    {E : Type ℓ} {A : Type κ} (e : E) (o : Option A) (a : A) → ok_or e o ≡ ok a → o ≡ some a
ok_or-ok e none a h = cc h
ok_or-ok e (some b) a h = cc h

pub map_err-ok {ℓ κ μ} :
    {E : Type ℓ} {F : Type κ} {A : Type μ} (f : E → F) (r : Result E A) (a : A)
    → map_err f r ≡ ok a
    → r ≡ ok a
map_err-ok f (ok b) a h = cc h
map_err-ok f (err e) a h = cc h

pub Result-cases {ℓ κ} :
    {E : Type ℓ} {A : Type κ} (r : Result E A) → ((a : A) × (r ≡ ok a)) ⊎ ((e : E) × (r ≡ err e))
Result-cases (ok a) = inl (a, refl)
Result-cases (err e) = inr (e, refl)

-- The first failure of `for x in xs { check(x)?; }`.
abbrev pub for_each {ℓ κ} :
    {E : Type ℓ} {A : Type κ} → (A → Result E (Unit {0})) → List A → Result E (Unit {0})
for_each check [] = ok tt
for_each check (x ∷ xs) = check x >> for_each check xs

-- What a loop of checks that succeeds says of each element.
pub for_each-All {ℓ κ μ} :
    {E : Type ℓ} {A : Type κ} (P : A → Type μ) (check : A → Result E (Unit {0}))
    → ((x : A) → check x ≡ ok tt → P x)
    → (xs : List A) → for_each check xs ≡ ok tt
    → All P xs
for_each-All P check f [] h = tt
for_each-All P check f (x ∷ xs) h =
    let (here, later) = >>-inversion (check x) (for_each check xs) h in
    (f x here, for_each-All P check f xs later)
