-- ===== src/Core/Coverage/Spans.antt =====
-- `claim_span` as a whole: a span is given to a request or nothing is.
use forum_agent.Shared.{
  ℕ, ◌≤◌, ◌<◌, ◌≡◌, refl, ltb, leb, true, false, ◌&&◌, none, some, List, [], ◌∷◌, ok, ensure, keep,
  ◌==◌, arith, inl, inr, All, All-map, Bool-cases, sym, ◌∙◌, subst, >>=-inversion, >>-inversion,
  All-zip,
}
use forum_agent.Contracts.Transcript.{SourceSpan}
use forum_agent.Contracts.Translation.{TranslationRequested}
use forum_agent.Core.{coverage_conflict}
use forum_agent.Core.Coverage.{claim_row, claim_rows, claim_span, by_start, insert_row, touches}
use forum_agent.Core.Tables.Translations.{CoverageRow, CoverageState}
use forum_agent.Core.Coverage.Owners.{
  IsRow, In, byte_at, Apart, Tiles, Tiles-keep, In-IsRow, All-keep,
}
use forum_agent.Core.Coverage.Claims.{claimed, IsClaimed, claim_row-IsClaimed}

pub All-insert_row :
    (P : CoverageRow → Type 0) (r : CoverageRow) (rows : List CoverageRow)
    → P r
    → All P rows
    → All P (insert_row r rows)
All-insert_row P r [] h a = (h, tt)
All-insert_row P r (s ∷ rows) h a =
    let rest = All-insert_row P r rows h a.1 in
    elim (Bool-cases (leb r.start_utf8 s.start_utf8)) [
      | inl first ↦
          let shape : insert_row r (s ∷ rows) ≡ r ∷ s ∷ rows = ground arith in
          subst (All P) (sym shape) (h, a)
      | inr later ↦
          let shape : insert_row r (s ∷ rows) ≡ s ∷ insert_row r rows = ground arith in
          subst (All P) (sym shape) (a.0, rest)
    ]

pub All-by_start :
    (P : CoverageRow → Type 0) (rows : List CoverageRow) → All P rows → All P (by_start rows)
All-by_start P [] a = tt
All-by_start P (r ∷ rows) a = All-insert_row P r (by_start rows) a.0 (All-by_start P rows a.1)

pub All-In : (rows : List CoverageRow) → All (λ r. In r rows) rows
All-In [] = tt
All-In (r ∷ rows) = (inl refl, All-map _ _ (λ s h. inr h) rows (All-In rows))

module _ (span : SourceSpan) (p : TranslationRequested) where
  Tiles-insert_row :
      (r : CoverageRow) (rows : List CoverageRow)
      → IsRow r
      → All (Apart span p r) rows
      → Tiles span p rows
      → Tiles span p (insert_row r rows)
  Tiles-insert_row r [] i a t = (i, tt, tt)
  Tiles-insert_row r (s ∷ rows) i a t =
      let rest = Tiles-insert_row r rows i a.1 t.2 in
      let back : Apart span p s r = λ x y. elim (a.0 y x) [ inl u ↦ inr u | inr u ↦ inl u ] in
      elim (Bool-cases (leb r.start_utf8 s.start_utf8)) [
        | inl first ↦
            let shape : insert_row r (s ∷ rows) ≡ r ∷ s ∷ rows = ground arith in
            subst (Tiles span p) (sym shape) (i, a, t)
        | inr later ↦
            let shape : insert_row r (s ∷ rows) ≡ s ∷ insert_row r rows = ground arith in
            subst (Tiles span p) (sym shape)
              (t.0, All-insert_row (Apart span p s) r rows back t.1, rest)
      ]

  pub Tiles-by_start : (rows : List CoverageRow) → Tiles span p rows → Tiles span p (by_start rows)
  Tiles-by_start [] t = tt
  Tiles-by_start (r ∷ rows) t =
      Tiles-insert_row r (by_start rows) t.0 (All-by_start (Apart span p r) rows t.1)
        (Tiles-by_start rows t.2)

  -- The bytes from `from` to `to` were free and are the request's; the others are as they were.
  pub record IsGiven (from to : ℕ) (table out : List CoverageRow) : Type 0 where
    pub tiles : Tiles span p out
    pub grows : from ≤ to
    pub inside : (n : ℕ) → from ≤ n → n < to → byte_at span p n out ≡ some (claimed span p)
    pub was :
        (n : ℕ) → from ≤ n → n < to → byte_at span p n table ≡ some (CoverageState.pending, none)
    pub outside :
        (n : ℕ) → (leb from n && ltb n to) ≡ false → byte_at span p n out ≡ byte_at span p n table

  IsGiven-next :
      (from mid to : ℕ) (r : CoverageRow) (table next out : List CoverageRow)
      → from ≤ mid
      → IsClaimed span p from mid r table next
      → IsGiven mid to next out
      → IsGiven from to table out
  IsGiven-next from mid to r table next out le c g = record {
    tiles = g.tiles;
    grows = let more = g.grows in omega arith;
    inside = λ n a b. elim (Bool-cases (ltb n mid)) [
      | inl low ↦ g.outside n (ground arith) ∙ c.inside n a (ground arith)
      | inr high ↦ g.inside n (ground arith) b
    ];
    was = λ n a b. elim (Bool-cases (ltb n mid)) [
      | inl low ↦ c.was n a (ground arith)
      | inr high ↦ sym (c.outside n (ground arith)) ∙ g.was n (ground arith) b
    ];
    outside =
        λ n far. let more = g.grows in g.outside n (ground arith) ∙ c.outside n (ground arith);
  }

  claim_rows-IsGiven :
      (from to : ℕ) (rows table out : List CoverageRow)
      → span.start_utf8 < span.end_utf8
      → Tiles span p table
      → Tiles span p rows
      → All (λ r. In r table × (touches span p r ≡ true)) rows
      → claim_rows span p from rows table ≡ ok (to, out)
      → IsGiven from to table out
  unfolding claim_rows
  claim_rows-IsGiven from to [] table out ne t u a h =
      let same : table ≡ out = cc h in
      let stop : from ≡ to = cc h in
      subst (λ x. IsGiven from x table out) stop
        (subst (IsGiven from from table) same (record {
          tiles = t;
          grows = omega arith;
          inside = λ n x y. absurd (omega arith);
          was = λ n x y. absurd (omega arith);
          outside = λ n x. refl;
        }))
  claim_rows-IsGiven from to (r ∷ rows) table out ne t u a h =
      let ((mid, next), e1, h1) = >>=-inversion (claim_row span p from r table) _ h in
      let c = claim_row-IsClaimed span p from mid r table next ne t a.0.0 a.0.1 e1 in
      let row = (In-IsRow span p r table t a.0.0).ordered in
      let touch = a.0.1 in
      let grown : from ≤ mid = let x = c.starts in let y = c.ends in ground arith in
      IsGiven-next from mid to r table next out grown c (
        claim_rows-IsGiven mid to rows next out ne c.tiles u.2
          (All-map _ (λ s. In s next × (touches span p s ≡ true))
            (λ s f. (c.kept s f.0.0 (ground (arith, f.0.1)) f.1, f.0.1)) rows
            (All-zip (λ s. In s table × (touches span p s ≡ true)) (Apart span p r) rows a.1 u.1))
          h1)

  -- A span that `claim_span` accepts had all its bytes pending and free, and all belong to the
  -- request afterwards; the other bytes of the text are as before, and the rows still share no
  -- byte. The span is not empty, and the rows of the text share no byte and the pending ones have
  -- no owner.
  pub claim_span-IsGiven :
      (table out : List CoverageRow)
      → span.start_utf8 < span.end_utf8
      → Tiles span p table
      → claim_span span p table ≡ ok out
      → IsGiven span.start_utf8 span.end_utf8 table out
  unfolding claim_span
  claim_span-IsGiven table out ne t h =
      let rows = by_start (keep (touches span p) table) in
      let ((to, last), e, h1) = >>=-inversion (claim_rows span p span.start_utf8 rows table) _ h in
      let (full, h2) = >>-inversion (ensure (to == span.end_utf8) coverage_conflict) (ok last) h1 in
      let same : last ≡ out = cc h2 in
      let stop : to ≡ span.end_utf8 = ground arith in
      subst (λ x. IsGiven span.start_utf8 x table out) stop
        (subst (IsGiven span.start_utf8 to table) same (
          claim_rows-IsGiven span.start_utf8 to rows table last ne t
            (Tiles-by_start (keep (touches span p) table)
              (Tiles-keep span p (touches span p) table t))
            (All-by_start _ (keep (touches span p) table)
              (All-keep span p (λ r. In r table) (touches span p) table (All-In table)))
            e))
