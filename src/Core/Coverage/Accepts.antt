-- ===== src/Core/Coverage/Accepts.antt =====
-- `claim_span` accepts every span whose bytes are pending.
use forum_agent.Shared.{
  ℕ, ◌≤◌, ◌<◌, ◌≡◌, refl, ltb, leb, Bool, true, false, ◌&&◌, List, [], ◌∷◌, ok, any, keep, ◌==◌,
  min, max, arith, inl, inr, All, All-map, Bool-cases, sym, subst,
}
use forum_agent.Contracts.Transcript.{SourceSpan}
use forum_agent.Contracts.Translation.{TranslationRequested}
use forum_agent.Core.Coverage.{
  of_text, piece, has_range, coverage_piece, claim_row, by_start, insert_row, touches,
}
use forum_agent.Core.Tables.Translations.{is_pending, CoverageRow}
use forum_agent.Core.Coverage.Owners.{In, Tiles, Tiles-keep, In-IsRow}
use forum_agent.Core.Coverage.Claims.{Clear, coverage_piece-IsAdded, without, without-Clear}
use forum_agent.Core.Coverage.Spans.{All-insert_row}

abbrev pub Sorted : List CoverageRow → Type 0
Sorted [] = Unit
Sorted (r ∷ rows) = All (λ s. r.start_utf8 ≤ s.start_utf8) rows × Sorted rows

Sorted-insert_row :
    (r : CoverageRow) (rows : List CoverageRow) → Sorted rows → Sorted (insert_row r rows)
Sorted-insert_row r [] h = (tt, tt)
Sorted-insert_row r (s ∷ rows) h = elim (Bool-cases (leb r.start_utf8 s.start_utf8)) [
  | inl first ↦
      let shape : insert_row r (s ∷ rows) ≡ r ∷ s ∷ rows = ground arith in
      let le : r.start_utf8 ≤ s.start_utf8 = ground arith in
      subst Sorted (sym shape) ((le, All-map _ _ (λ x l. omega arith) rows h.0), h)
  | inr later ↦
      let shape : insert_row r (s ∷ rows) ≡ s ∷ insert_row r rows = ground arith in
      let le : s.start_utf8 ≤ r.start_utf8 = ground arith in
      subst Sorted (sym shape) (
        All-insert_row (λ x. s.start_utf8 ≤ x.start_utf8) r rows le h.0,
        Sorted-insert_row r rows h.1,
      )
]

pub Sorted-by_start : (rows : List CoverageRow) → Sorted (by_start rows)
Sorted-by_start [] = tt
Sorted-by_start (r ∷ rows) = Sorted-insert_row r (by_start rows) (Sorted-by_start rows)

In-insert_row :
    (x r : CoverageRow) (rows : List CoverageRow) → In x (r ∷ rows) → In x (insert_row r rows)
In-insert_row x r [] h = h
In-insert_row x r (s ∷ rows) h = elim (Bool-cases (leb r.start_utf8 s.start_utf8)) [
  | inl first ↦
      let shape : insert_row r (s ∷ rows) ≡ r ∷ s ∷ rows = ground arith in
      subst (In x) (sym shape) h
  | inr later ↦
      let shape : insert_row r (s ∷ rows) ≡ s ∷ insert_row r rows = ground arith in
      subst (In x) (sym shape) (elim h [
        | inl e ↦ inr (In-insert_row x r rows (inl e))
        | inr there ↦ elim there [
          | inl e ↦ inl e
          | inr deep ↦ inr (In-insert_row x r rows (inr deep))
        ]
      ])
]

pub In-by_start : (x : CoverageRow) (rows : List CoverageRow) → In x rows → In x (by_start rows)
In-by_start x [] h = h
In-by_start x (r ∷ rows) (inl e) = In-insert_row x r (by_start rows) (inl e)
In-by_start x (r ∷ rows) (inr h) = In-insert_row x r (by_start rows) (inr (In-by_start x rows h))

module _ (span : SourceSpan) (p : TranslationRequested) where
  no_clash :
      (x y z : ℕ) (rows : List CoverageRow)
      → x < y
      → y ≤ z
      → Clear span p x z rows
      → any (λ r. of_text span p r && has_range x y r) rows ≡ false
  no_clash x y z [] lt le c = refl
  no_clash x y z (s ∷ rows) lt le c =
      let rest = no_clash x y z rows lt le c.1 in
      elim (Bool-cases (of_text span p s && has_range x y s)) [
        | inr miss ↦ ground arith
        | inl hit ↦
            let mine : of_text span p s ≡ true = ground arith in
            absurd (elim (c.0 mine) [ inl u ↦ ground arith | inr u ↦ ground arith ])
      ]

  piece_added :
      (x y z : ℕ) (owned : Bool) (rows : List CoverageRow)
      → x ≤ y
      → y ≤ z
      → Clear span p x z rows
      → (out : List CoverageRow) × (coverage_piece span p x y owned rows ≡ ok out)
  unfolding coverage_piece
  piece_added x y z owned rows xy le c = elim (Bool-cases (x == y)) [
    | inl same ↦ (rows, rw same refl)
    | inr apart ↦
        let lt : x < y = ground arith in
        let clear = no_clash x y z rows lt le c in
        let less : ltb x y ≡ true = ground arith in
        (piece span p x y owned ∷ rows, rw (apart, less, clear) refl)
  ]

  pub claim_row_added :
      (cursor : ℕ) (r : CoverageRow) (table : List CoverageRow)
      → span.start_utf8 < span.end_utf8
      → Tiles span p table
      → In r table
      → touches span p r ≡ true
      → is_pending r.state ≡ true
      → max r.start_utf8 span.start_utf8 ≡ cursor
      → (out : List CoverageRow) × (claim_row span p cursor r table
          ≡ ok (min r.end_utf8 span.end_utf8, out))
  unfolding claim_row
  claim_row_added cursor r table ne t h touch free left_eq =
      let left = max r.start_utf8 span.start_utf8 in
      let right = min r.end_utf8 span.end_utf8 in
      let rest = keep (without span p r) table in
      let row = (In-IsRow span p r table t h).ordered in
      let mine : of_text span p r ≡ true = ground arith in
      let bounds : left ≤ right = ground arith in
      let clear = without-Clear span p r table t h mine in
      let (before, e1) =
        piece_added r.start_utf8 left r.end_utf8 false rest (omega arith) (omega arith) clear in
      let a1 =
        coverage_piece-IsAdded span p r.start_utf8 left r.end_utf8 false rest before (omega arith)
          (Tiles-keep span p (without span p r) table t) clear e1 in
      let (middle, e2) =
        piece_added left right r.end_utf8 true before bounds (omega arith) a1.clear in
      let a2 =
        coverage_piece-IsAdded span p left right r.end_utf8 true before middle (omega arith)
          a1.tiles a1.clear e2 in
      let (last, e3) =
        piece_added right r.end_utf8 r.end_utf8 false middle (omega arith) (omega arith) a2.clear in
      let at : (left == cursor) ≡ true = ground arith in (last, rw (free, at, e1, e2, e3) refl)
