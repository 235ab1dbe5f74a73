-- ===== src/Core/Lifecycle.antt =====
-- The life of a session: what the state of a session says of its two seals, and that the works of
-- the operations keep it. A work updates the rows of one session; as identifiers are distinct,
-- that is the row whose status it has read.
pub mod Works
pub mod Final
use forum_agent.Shared.{
  ◌≡◌, refl, Bool, true, false, Option, none, some, List, [], ◌∷◌, map, ok, err, find, ◌==◌,
  is_some, arith, ap, sym, subst, Bool-cases, inl, inr, All, if◌then◌else◌,
}
use forum_agent.Contracts.{Uuid}
use forum_agent.Contracts.Session.{SessionSpec, SessionState, draining, completed, interrupted}
use forum_agent.Core.Tables.{SessionRow, SessionStatus, Store, update_where}
use forum_agent.Core.Session.{load_session_status, status_of, status_row}

-- Which seals a session in a state has: of its capture, and of its transcript.
abbrev pub Phase : SessionState → Bool → Bool → Type 0
Phase draining capture transcript = (capture ≡ true) × (transcript ≡ false)
Phase completed capture transcript = (capture ≡ true) × (transcript ≡ true)
Phase interrupted capture transcript = transcript ≡ false
Phase _ capture transcript = (capture ≡ false) × (transcript ≡ false)

abbrev pub Lawful : SessionRow → Type 0
Lawful r = Phase r.state (is_some r.capture_stopped_seq) (is_some r.sealed_seq)

abbrev pub Distinct : List SessionSpec → Type 0
Distinct [] = Unit
Distinct (s ∷ specs) = All (λ t. (t.session_id == s.session_id) ≡ false) specs × Distinct specs

-- The sessions have different identifiers, and each has the seals of its state.
pub record IsCatalog (rows : List SessionRow) : Type 0 where
  pub distinct : Distinct (map (λ r. r.spec) rows)
  pub lawful : All Lawful rows

-- Every row of an identifier is the row `r`.
abbrev pub Only : Uuid → SessionRow → List SessionRow → Type 0
Only id r rows = All (λ s. (s.spec.session_id == id) ≡ true → s ≡ r) rows

none_other :
    (id : Uuid) (r x : SessionRow) (rows : List SessionRow)
    → (x.spec.session_id == id) ≡ true
    → All (λ t. (t.session_id == x.spec.session_id) ≡ false) (map (λ s. s.spec) rows)
    → Only id r rows
none_other id r x [] h n = tt
none_other id r x (y ∷ rows) h n =
    let miss = n.0 in ((λ e. absurd (ground arith)), none_other id r x rows h n.1)

pub find-Only :
    (id : Uuid) (r : SessionRow) (rows : List SessionRow)
    → Distinct (map (λ s. s.spec) rows)
    → find (λ s. s.spec.session_id == id) rows ≡ some r
    → Only id r rows
find-Only id r [] d h = tt
find-Only id r (x ∷ rows) d h = elim (Bool-cases (x.spec.session_id == id)) [
  | inl hit ↦ let same : x ≡ r = ground arith in ((λ e. same), none_other id r x rows hit d.0)
  | inr miss ↦ ((λ e. absurd (ground arith)), find-Only id r rows d.1 (ground arith))
]

pub find_All :
    (P : SessionRow → Type 0) (id : Uuid) (r : SessionRow) (rows : List SessionRow)
    → All P rows
    → find (λ s. s.spec.session_id == id) rows ≡ some r
    → P r
find_All P id r [] a h = absurd (cc h)
find_All P id r (x ∷ rows) a h = elim (Bool-cases (x.spec.session_id == id)) [
  | inl hit ↦ let same : x ≡ r = ground arith in subst P same a.0
  | inr miss ↦ find_All P id r rows a.1 (ground arith)
]

-- An update keeps what holds of all rows when it keeps it at the row that it changes.
pub update_where-All :
    (P : SessionRow → Type 0) (id : Uuid) (r : SessionRow) (change : SessionRow → SessionRow)
    (rows : List SessionRow)
    → Only id r rows
    → (P r → P (change r))
    → All P rows
    → All P (update_where (λ s. s.spec.session_id == id) change rows)
update_where-All P id r change [] o f a = tt
update_where-All P id r change (x ∷ rows) o f a =
    let rest = update_where-All P id r change rows o.1 f a.1 in
    let test = x.spec.session_id == id in
    let here : P (if test then change x else x) = elim (Bool-cases test) [
      | inl hit ↦
          let moved : P (change x) =
            subst (λ y. P (change y)) (sym (o.0 hit)) (f (subst P (o.0 hit) a.0)) in
          subst (λ b. P (if b then change x else x)) (sym hit) moved
      | inr miss ↦ subst (λ b. P (if b then change x else x)) (sym miss) a.0
    ] in
    (here, rest)

pub update_where-All_each :
    (P : SessionRow → Type 0) (id : Uuid) (change : SessionRow → SessionRow)
    (rows : List SessionRow)
    → ((r : SessionRow) → P r → P (change r))
    → All P rows
    → All P (update_where (λ s. s.spec.session_id == id) change rows)
update_where-All_each P id change [] f a = tt
update_where-All_each P id change (x ∷ rows) f a =
    let rest = update_where-All_each P id change rows f a.1 in
    let test = x.spec.session_id == id in
    let here : P (if test then change x else x) = elim (Bool-cases test) [
      | inl hit ↦ subst (λ b. P (if b then change x else x)) (sym hit) (f x a.0)
      | inr miss ↦ subst (λ b. P (if b then change x else x)) (sym miss) a.0
    ] in
    (here, rest)

-- The row that a status was read from.
pub load_session_status_row :
    (id : Uuid) (st : Store) (status : SessionStatus)
    → load_session_status id st ≡ ok status
    → (r : SessionRow) × (find (λ s. s.spec.session_id == id) st.sessions ≡ some r)
      × (status_of r ≡ status)
unfolding load_session_status
load_session_status_row id st status h =
    row_found (find (λ s. s.spec.session_id == id) st.sessions) h
  where
    row_found :
        (o : Option SessionRow)
        → status_row o ≡ ok status
        → (r : SessionRow) × (o ≡ some r) × (status_of r ≡ status)
    row_found none g = absurd (cc g)
    row_found (some r) g = (r, refl, cc g)
