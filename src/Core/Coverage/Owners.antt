-- ===== src/Core/Coverage/Owners.antt =====
-- Who owns a byte of a text: what the rows of the coverage say of one offset.
use forum_agent.Shared.{
  ℕ, ◌≤◌, ◌<◌, ◌≡◌, ◌⊎◌, refl, ltb, leb, Bool, true, false, ◌&&◌, not, Option, none, some, List, [],
  ◌∷◌, if◌then◌else◌, keep, arith, inl, inr, All, Bool-cases, ap, sym, ◌∙◌, subst, All-map,
}
use forum_agent.Contracts.Transcript.{SourceSpan}
use forum_agent.Contracts.Translation.{TranslationRequested}
use forum_agent.Core.Coverage.{of_text, has_range}
use forum_agent.Core.Tables.Translations.{CoverageState, is_pending, Owner, CoverageRow}

-- A row has bytes, and a pending one has no owner.
pub record IsRow (r : CoverageRow) : Type 0 where
  pub ordered : r.start_utf8 < r.end_utf8
  pub free : is_pending r.state ≡ true → r.owner ≡ none

abbrev pub In : CoverageRow → List CoverageRow → Type 0
In r [] = ⊥
In r (s ∷ rows) = (s ≡ r) ⊎ In r rows

module _ (span : SourceSpan) (p : TranslationRequested) where
  abbrev pub covers : ℕ → CoverageRow → Bool
  covers n r = of_text span p r && leb r.start_utf8 n && ltb n r.end_utf8

  -- The state and the owner of a byte.
  abbrev pub byte_at : ℕ → List CoverageRow → Option (CoverageState × Option Owner)
  byte_at n [] = none
  byte_at n (r ∷ rows) =
      let rest = byte_at n rows in if covers n r then some (r.state, r.owner) else rest

  abbrev pub Apart : CoverageRow → CoverageRow → Type 0
  Apart r s =
      of_text span p r ≡ true
      → of_text span p s ≡ true
      → (r.end_utf8 ≤ s.start_utf8) ⊎ (s.end_utf8 ≤ r.start_utf8)

  -- The rows of the text have bytes and share none.
  abbrev pub Tiles : List CoverageRow → Type 0
  Tiles [] = Unit
  Tiles (r ∷ rows) = IsRow r × All (Apart r) rows × Tiles rows

  pub All-keep :
      (P : CoverageRow → Type 0) (q : CoverageRow → Bool) (rows : List CoverageRow)
      → All P rows
      → All (λ r. P r × (q r ≡ true)) (keep q rows)
  All-keep P q [] a = tt
  All-keep P q (r ∷ rows) a =
      let rest = All-keep P q rows a.1 in
      elim (Bool-cases (q r)) [
        | inl yes' ↦
            let shape : keep q (r ∷ rows) ≡ r ∷ keep q rows = ground arith in
            subst (All (λ s. P s × (q s ≡ true))) (sym shape) ((a.0, yes'), rest)
        | inr no' ↦
            let shape : keep q (r ∷ rows) ≡ keep q rows = ground arith in
            subst (All (λ s. P s × (q s ≡ true))) (sym shape) rest
      ]

  All-weaken :
      (P Q : CoverageRow → Type 0) (rows : List CoverageRow)
      → ((r : CoverageRow) → P r → Q r)
      → All P rows
      → All Q rows
  All-weaken P Q rows f a = All-map P Q f rows a

  pub Tiles-keep :
      (q : CoverageRow → Bool) (rows : List CoverageRow) → Tiles rows → Tiles (keep q rows)
  Tiles-keep q [] t = tt
  Tiles-keep q (r ∷ rows) t =
      let rest = Tiles-keep q rows t.2 in
      let apart : All (Apart r) (keep q rows) =
        All-weaken _ (Apart r) (keep q rows) (λ s h. h.0) (All-keep (Apart r) q rows t.1) in
      elim (Bool-cases (q r)) [
        | inl yes' ↦
            let shape : keep q (r ∷ rows) ≡ r ∷ keep q rows = ground arith in
            subst Tiles (sym shape) (t.0, apart, rest)
        | inr no' ↦
            let shape : keep q (r ∷ rows) ≡ keep q rows = ground arith in
            subst Tiles (sym shape) rest
      ]

  pub In-IsRow : (r : CoverageRow) (rows : List CoverageRow) → Tiles rows → In r rows → IsRow r
  In-IsRow r [] t h = absurd h
  In-IsRow r (s ∷ rows) t (inl e) = subst IsRow e t.0
  In-IsRow r (s ∷ rows) t (inr h) = In-IsRow r rows t.2 h

  In-Apart :
      (s r : CoverageRow) (rows : List CoverageRow) → All (Apart s) rows → In r rows → Apart s r
  In-Apart s r [] a h = absurd h
  In-Apart s r (x ∷ rows) a (inl e) = subst (Apart s) e a.0
  In-Apart s r (x ∷ rows) a (inr h) = In-Apart s r rows a.1 h

  -- The rows of a tiling are a row of it, or share no byte with that row.
  pub Tiles-In :
      (r : CoverageRow) (rows : List CoverageRow)
      → Tiles rows
      → In r rows
      → All (λ s. (s ≡ r) ⊎ Apart r s) rows
  Tiles-In r [] t h = tt
  Tiles-In r (s ∷ rows) t (inl e) =
      (inl e, All-weaken (Apart s) _ rows (λ x a. inr (subst (λ y. Apart y x) e a)) t.1)
  Tiles-In r (s ∷ rows) t (inr h) =
      let a = In-Apart s r rows t.1 h in
      (inr (λ x y. elim (a y x) [ inl u ↦ inr u | inr u ↦ inl u ]), Tiles-In r rows t.2 h)

  pub both_cover :
      (n : ℕ) (r s : CoverageRow) → covers n r ≡ true → covers n s ≡ true → Apart r s → ⊥
  both_cover n r s c d a = elim (a (ground arith) (ground arith)) [
    | inl u ↦ ground arith
    | inr u ↦ ground arith
  ]

  pub byte_at-In :
      (n : ℕ) (r : CoverageRow) (rows : List CoverageRow)
      → Tiles rows
      → In r rows
      → covers n r ≡ true
      → byte_at n rows ≡ some (r.state, r.owner)
  byte_at-In n r [] t h c = absurd h
  byte_at-In n r (s ∷ rows) t (inl e) c =
      let here : covers n s ≡ true = ap (covers n) e ∙ c in
      let first : byte_at n (s ∷ rows) ≡ some (s.state, s.owner) = ground arith in
      first ∙ ap (λ x. some (x.state, x.owner)) e
  byte_at-In n r (s ∷ rows) t (inr h) c =
      let rest = byte_at-In n r rows t.2 h c in
      let a = In-Apart s r rows t.1 h in
      elim (Bool-cases (covers n s)) [
        | inr miss ↦ ground arith
        | inl hit ↦ absurd (both_cover n s r hit c a)
      ]

  pub byte_at-keep :
      (n x y : ℕ) (rows : List CoverageRow)
      → (leb x n && ltb n y) ≡ false
      → byte_at n (keep (λ s. not (of_text span p s && has_range x y s)) rows) ≡ byte_at n rows
  byte_at-keep n x y [] h = refl
  byte_at-keep n x y (s ∷ rows) h =
      let rest = byte_at-keep n x y rows h in
      elim (Bool-cases (of_text span p s && has_range x y s)) [
        | inl gone ↦ ground arith
        | inr kept ↦ ground arith
      ]
