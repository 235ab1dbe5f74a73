-- ===== src/Core/Coverage/Complete.antt =====
-- When `claim_span` accepts a span.
use forum_agent.Shared.{
  ℕ, ◌≤◌, ◌<◌, ◌≡◌, ◌↔◌, refl, ltb, true, Option, none, some, List, [], ◌∷◌, ok, keep, ◌==◌, min,
  max, arith, inl, inr, All, All-map, All-zip, Bool-cases, ap, sym, ◌∙◌, subst, ==_refl,
}
use forum_agent.Contracts.Transcript.{SourceSpan}
use forum_agent.Contracts.Translation.{TranslationRequested}
use forum_agent.Core.Coverage.{of_text, claim_rows, claim_span, by_start, touches}
use forum_agent.Core.Tables.Translations.{CoverageState, is_pending, Owner, CoverageRow}
use forum_agent.Core.Coverage.Owners.{
  IsRow, In, covers, byte_at, Apart, Tiles, Tiles-keep, In-IsRow, byte_at-In, All-keep,
}
use forum_agent.Core.Coverage.Claims.{In-keep, IsClaimed, claim_row-IsClaimed}
use forum_agent.Core.Coverage.Spans.{All-by_start, All-In, Tiles-by_start, claim_span-IsGiven}
use forum_agent.Core.Coverage.Accepts.{Sorted, Sorted-by_start, In-by_start, claim_row_added}

module _ (span : SourceSpan) (p : TranslationRequested) where
  abbrev pub Free : ℕ → List CoverageRow → Type 0
  Free from table =
      (n : ℕ)
      → from ≤ n
      → n < span.end_utf8
      → byte_at span p n table ≡ some (CoverageState.pending, none)

  -- What the loop can rely on when it has come to a cursor.
  record IsReady (cursor : ℕ) (rows table : List CoverageRow) : Type 0 where
    tiles : Tiles span p table
    apart : Tiles span p rows
    sorted : Sorted rows
    there : All (λ r. In r table × (touches span p r ≡ true)) rows
    free : Free cursor table
    covered :
        (n : ℕ)
        → cursor ≤ n
        → n < span.end_utf8
        → (r : CoverageRow) × In r rows × (covers span p n r ≡ true)
    within : cursor ≤ span.end_utf8
    begun : span.start_utf8 ≤ cursor
    ahead : All (λ r. cursor ≤ max r.start_utf8 span.start_utf8) rows

  In-All :
      (P : CoverageRow → Type 0) (r : CoverageRow) (rows : List CoverageRow)
      → All P rows
      → In r rows
      → P r
  In-All P r [] a h = absurd h
  In-All P r (s ∷ rows) a (inl e) = subst P e a.0
  In-All P r (s ∷ rows) a (inr h) = In-All P r rows a.1 h

  -- The first row starts at the cursor and is pending.
  first_row :
      (cursor : ℕ) (r : CoverageRow) (rows table : List CoverageRow)
      → span.start_utf8 < span.end_utf8
      → IsReady cursor (r ∷ rows) table
      → (max r.start_utf8 span.start_utf8 ≡ cursor) × (is_pending r.state ≡ true)
  first_row cursor r rows table ne i =
      let touch = i.there.0.1 in
      let row = (In-IsRow span p r table i.tiles i.there.0.0).ordered in
      let ahead = i.ahead.0 in
      let below : cursor < span.end_utf8 = ground arith in
      let (x, x_in, x_covers) = i.covered cursor (omega arith) below in
      let least : r.start_utf8 ≤ x.start_utf8 =
        In-All (λ s. r.start_utf8 ≤ s.start_utf8) x (r ∷ rows) (omega arith, i.sorted.0) x_in in
      let x_start : x.start_utf8 ≤ cursor = ground arith in
      let begun = i.begun in
      let left_eq : max r.start_utf8 span.start_utf8 ≡ cursor = omega arith in
      let here : covers span p cursor r ≡ true = ground arith in
      let says : some (r.state, r.owner) ≡ some (CoverageState.pending, none) =
        sym (byte_at-In span p cursor r table i.tiles i.there.0.0 here)
        ∙ i.free cursor (omega arith) below in
      let state : r.state ≡ CoverageState.pending = cc says in (left_eq, ap is_pending state)

  Tiles-IsRow : (rows : List CoverageRow) → Tiles span p rows → All IsRow rows
  Tiles-IsRow [] t = tt
  Tiles-IsRow (r ∷ rows) t = (t.0, Tiles-IsRow rows t.2)

  after :
      (r s : CoverageRow)
      → of_text span p r ≡ true
      → r.start_utf8 ≤ s.start_utf8
      → Apart span p r s
      → IsRow s
      → {T : Type 0} → T × (touches span p s ≡ true)
      → min r.end_utf8 span.end_utf8 ≤ max s.start_utf8 span.start_utf8
  after r s mine le apart row touch =
      let t = touch.1 in
      let its : of_text span p s ≡ true = ground arith in
      let less = row.ordered in elim (apart mine its) [ inl u ↦ omega arith | inr u ↦ omega arith ]

  IsReady-next :
      (cursor : ℕ) (r : CoverageRow) (rows table out : List CoverageRow)
      → span.start_utf8 < span.end_utf8
      → IsReady cursor (r ∷ rows) table
      → IsClaimed span p cursor (min r.end_utf8 span.end_utf8) r table out
      → IsReady (min r.end_utf8 span.end_utf8) rows out
  IsReady-next cursor r rows table out ne i c =
      let touch = i.there.0.1 in
      let mine : of_text span p r ≡ true = ground arith in
      let grown : cursor ≤ min r.end_utf8 span.end_utf8 =
        let row = (In-IsRow span p r table i.tiles i.there.0.0).ordered in
        let starts = c.starts in ground arith in
      record {
        tiles = c.tiles;
        apart = i.apart.2;
        sorted = i.sorted.1;
        there =
            All-map _ (λ s. In s out × (touches span p s ≡ true))
              (λ s f. (c.kept s f.0.0 (ground (arith, f.0.1)) f.1, f.0.1)) rows
              (All-zip (λ s. In s table × (touches span p s ≡ true)) (Apart span p r) rows i.there.1
                i.apart.1);
        free = λ n a b. c.outside n (ground arith) ∙ i.free n (omega arith) b;
        covered = λ n a b.
            let (x, x_in, x_covers) = i.covered n (omega arith) b in
            elim x_in [
              | inl e ↦
                  let mine : covers span p n r ≡ true = ap (covers span p n) e ∙ x_covers in
                  absurd (ground arith)
              | inr h ↦ (x, h, x_covers)
            ];
        within = omega arith;
        begun = let begun = i.begun in omega arith;
        ahead =
            All-map _ _ (λ s f. after r s mine f.0.0 f.0.1 f.1.0 f.1.1) rows
              (All-zip _ _ rows (All-zip _ _ rows i.sorted.0 i.apart.1)
                (All-zip _ _ rows (Tiles-IsRow rows i.apart.2) i.there.1));
      }

  claim_rows_added :
      (cursor : ℕ) (rows table : List CoverageRow)
      → span.start_utf8 < span.end_utf8
      → IsReady cursor rows table
      → (out : List CoverageRow) × (claim_rows span p cursor rows table ≡ ok (span.end_utf8, out))
  unfolding claim_rows
  claim_rows_added cursor [] table ne i = elim (Bool-cases (ltb cursor span.end_utf8)) [
    | inl below ↦ absurd (i.covered cursor (omega arith) (ground arith)).1
    | inr done ↦
        let within = i.within in
        let e : cursor ≡ span.end_utf8 = ground arith in (table, ap (λ k. ok (k, table)) e)
  ]
  claim_rows_added cursor (r ∷ rows) table ne i =
      let (left_eq, free) = first_row cursor r rows table ne i in
      let right = min r.end_utf8 span.end_utf8 in
      let (next, e) =
        claim_row_added span p cursor r table ne i.tiles i.there.0.0 i.there.0.1 free left_eq in
      let c =
        claim_row-IsClaimed span p cursor right r table next ne i.tiles i.there.0.0 i.there.0.1 e in
      let (out, e1) =
        claim_rows_added right rows next ne (IsReady-next cursor r rows table next ne i c) in
      (out, rw e e1)

  byte_at-some :
      (n : ℕ) (v : CoverageState × Option Owner) (rows : List CoverageRow)
      → byte_at span p n rows ≡ some v
      → (r : CoverageRow) × In r rows × (covers span p n r ≡ true)
  byte_at-some n v [] h = absurd (cc h)
  byte_at-some n v (r ∷ rows) h = elim (Bool-cases (covers span p n r)) [
    | inl hit ↦ (r, inl refl, hit)
    | inr miss ↦ let (x, there, c) = byte_at-some n v rows (ground arith) in (x, inr there, c)
  ]

  IsReady-start :
      (table : List CoverageRow)
      → span.start_utf8 < span.end_utf8
      → Tiles span p table
      → Free span.start_utf8 table
      → IsReady span.start_utf8 (by_start (keep (touches span p) table)) table
  IsReady-start table ne t f =
      let rows = keep (touches span p) table in
      record {
        tiles = t;
        apart = Tiles-by_start span p rows (Tiles-keep span p (touches span p) table t);
        sorted = Sorted-by_start rows;
        there =
            All-by_start _ rows
              (All-keep span p (λ r. In r table) (touches span p) table (All-In table));
        free = f;
        covered = λ n a b.
            let (x, there, c) = byte_at-some n (CoverageState.pending, none) table (f n a b) in
            (
              x,
              In-by_start x rows (In-keep span p (touches span p) x table there (ground arith)),
              c,
            );
        within = omega arith;
        begun = omega arith;
        ahead =
            All-by_start _ rows
              (All-map (λ r. In r rows) _ (λ r h. omega arith) rows (All-In rows));
      }

  -- `claim_span` accepts a span exactly when all its bytes are pending and free, whatever rows they
  -- are divided into. The span is not empty, and the rows of the text share no byte and the
  -- pending ones have no owner.
  pub claim_span_iff :
      (table : List CoverageRow)
      → span.start_utf8 < span.end_utf8
      → Tiles span p table
      → ((out : List CoverageRow) × (claim_span span p table ≡ ok out)) ↔ Free span.start_utf8 table
  unfolding claim_span
  claim_span_iff table ne t = (
    λ given. (claim_span-IsGiven span p table given.0 ne t given.1).was,
    λ f.
        let (out, e) =
          claim_rows_added span.start_utf8 (by_start (keep (touches span p) table)) table ne
            (IsReady-start table ne t f) in
        let full : (span.end_utf8 == span.end_utf8) ≡ true = ==_refl span.end_utf8 in
        (out, rw (e, full) refl),
  )
