-- ===== src/Core/Coverage/Claims.antt =====
-- What the loop of `claim_span` does to the owners of the bytes, and the theorem on the whole.
use forum_agent.Shared.{
  ℕ, ◌≤◌, ◌<◌, ◌≡◌, ◌⊎◌, refl, ltb, leb, Bool, true, false, ◌&&◌, not, Option, none, some, List, [],
  ◌∷◌, ok, ◌>>◌, ensure, keep, ◌==◌, min, max, arith, inl, inr, All, All-map, Bool-cases, ap, sym,
  ◌∙◌, subst, >>=-inversion, >>-inversion,
}
use forum_agent.Text.Slices.{text_eq_iff}
use forum_agent.Contracts.Transcript.{SourceSpan}
use forum_agent.Contracts.Translation.{TranslationRequested}
use forum_agent.Core.{Stored, coverage_conflict, database}
use forum_agent.Core.Tables.{insert_new}
use forum_agent.Core.Ingest.Log.{insert_new_shape}
use forum_agent.Core.Coverage.{of_text, piece, has_range, coverage_piece, claim_row, touches}
use forum_agent.Core.Tables.Translations.{CoverageState, is_pending, Owner, CoverageRow}
use forum_agent.Core.Coverage.Owners.{
  IsRow, In, byte_at, Apart, Tiles, Tiles-keep, Tiles-In, In-IsRow, byte_at-In, byte_at-keep,
  All-keep,
}

module _ (span : SourceSpan) (p : TranslationRequested) where
  -- No row of the text has a byte of the range.
  abbrev pub Clear : ℕ → ℕ → List CoverageRow → Type 0
  Clear x y = All (λ s. of_text span p s ≡ true → (s.end_utf8 ≤ x) ⊎ (y ≤ s.start_utf8))

  of_text-piece : (x y : ℕ) (owned : Bool) → of_text span p (piece span p x y owned) ≡ true
  unfolding of_text
  of_text-piece x y owned =
      let t = (text_eq_iff p.target_language p.target_language).1 refl in ground arith

  piece-IsRow : (x y : ℕ) (owned : Bool) → x < y → IsRow (piece span p x y owned)
  piece-IsRow x y true h = record { ordered = h; free = λ e. absurd (ground arith) }
  piece-IsRow x y false h = record { ordered = h; free = λ e. refl }

  piece-Apart :
      (x y z : ℕ) (owned : Bool) (s : CoverageRow)
      → y ≤ z
      → (of_text span p s ≡ true → (s.end_utf8 ≤ x) ⊎ (z ≤ s.start_utf8))
      → Apart span p (piece span p x y owned) s
  piece-Apart x y z owned s h f a b = elim (f b) [ inl u ↦ inr u | inr u ↦ inl (omega arith) ]

  -- What one piece of the range from `x` to `z` adds.
  pub record IsAdded (x y z : ℕ) (owned : Bool) (rows out : List CoverageRow) : Type 0 where
    pub tiles : Tiles span p out
    pub clear : Clear y z out
    pub inside :
        (n : ℕ)
        → x ≤ n
        → n < y
        → byte_at span p n out
          ≡ some ((piece span p x y owned).state, (piece span p x y owned).owner)
    pub outside :
        (n : ℕ) → (leb x n && ltb n y) ≡ false → byte_at span p n out ≡ byte_at span p n rows
    pub kept : (s : CoverageRow) → In s rows → In s out

  pub coverage_piece-IsAdded :
      (x y z : ℕ) (owned : Bool) (rows out : List CoverageRow)
      → y ≤ z
      → Tiles span p rows
      → Clear x z rows
      → coverage_piece span p x y owned rows ≡ ok out
      → IsAdded x y z owned rows out
  unfolding coverage_piece
  coverage_piece-IsAdded x y z owned rows out le t c h = elim (Bool-cases (x == y)) [
    | inl same ↦
        let stays : rows ≡ out = ground arith in
        let e : x ≡ y = ground arith in
        subst (IsAdded x y z owned rows) stays (record {
          tiles = t;
          clear = subst (λ k. Clear k z rows) e c;
          inside = λ n a b. absurd (omega arith);
          outside = λ n a. refl;
          kept = λ s a. a;
        })
    | inr apart ↦
        let new = piece span p x y owned in
        let rest : Stored (List CoverageRow) = (do
          ensure (ltb x y) database
          insert_new (λ r. of_text span p r && has_range x y r) new rows) in
        let h' : rest ≡ ok out = ground arith in
        let (less, h1) = >>-inversion (ensure (ltb x y) database) _ h' in
        let lt : x < y = ground arith in
        let made : out ≡ new ∷ rows = insert_new_shape _ new rows out h1 in
        let mine : of_text span p new ≡ true = of_text-piece x y owned in
        subst (IsAdded x y z owned rows) (sym made) (record {
          tiles = (
            piece-IsRow x y owned lt,
            All-map _ (Apart span p new) (λ s f. piece-Apart x y z owned s le f) rows c,
            t,
          );
          clear = (
            (λ a. inl (omega arith)),
            All-map _ _ (λ s f a. elim (f a) [ inl u ↦ inl (omega arith) | inr u ↦ inr u ]) rows c,
          );
          inside = λ n a b. ground arith;
          outside = λ n a. ground arith;
          kept = λ s a. inr a;
        })
  ]

  pub In-keep :
      (q : CoverageRow → Bool) (s : CoverageRow) (rows : List CoverageRow)
      → In s rows
      → q s ≡ true
      → In s (keep q rows)
  In-keep q s [] h k = h
  In-keep q s (x ∷ rows) (inl e) k =
      let hit : q x ≡ true = ap q e ∙ k in
      let shape : keep q (x ∷ rows) ≡ x ∷ keep q rows = ground arith in
      subst (In s) (sym shape) (inl e)
  In-keep q s (x ∷ rows) (inr h) k =
      let rest = In-keep q s rows h k in
      elim (Bool-cases (q x)) [
        | inl hit ↦
            let shape : keep q (x ∷ rows) ≡ x ∷ keep q rows = ground arith in
            subst (In s) (sym shape) (inr rest)
        | inr miss ↦
            let shape : keep q (x ∷ rows) ≡ keep q rows = ground arith in
            subst (In s) (sym shape) rest
      ]

  abbrev pub without : CoverageRow → CoverageRow → Bool
  without r s = not (of_text span p s && has_range r.start_utf8 r.end_utf8 s)

  pub without-Clear :
      (r : CoverageRow) (rows : List CoverageRow)
      → Tiles span p rows
      → In r rows
      → of_text span p r ≡ true
      → Clear r.start_utf8 r.end_utf8 (keep (without r) rows)
  without-Clear r rows t h mine =
      All-map _ _ (λ s f. clear_of s f.0 f.1) (keep (without r) rows)
        (All-keep span p (λ s. (s ≡ r) ⊎ Apart span p r s) (without r) rows
          (Tiles-In span p r rows t h))
    where
      clear_of :
          (s : CoverageRow)
          → (s ≡ r) ⊎ Apart span p r s
          → without r s ≡ true
          → of_text span p s ≡ true
          → (s.end_utf8 ≤ r.start_utf8) ⊎ (r.end_utf8 ≤ s.start_utf8)
      clear_of s (inl e) k m =
          let x : s.start_utf8 ≡ r.start_utf8 = ap (λ y. y.start_utf8) e in
          let y : s.end_utf8 ≡ r.end_utf8 = ap (λ y. y.end_utf8) e in absurd (ground arith)
      clear_of s (inr a) k m = elim (a mine m) [ inl u ↦ inr u | inr u ↦ inl u ]

  abbrev pub claimed : CoverageState × Option Owner
  claimed = (
    CoverageState.requested,
    some (record { translation_id = p.translation_id; revision = p.revision; attempt = p.attempt }),
  )

  -- What claiming one row does: the bytes from the cursor on were pending and are the request's.
  pub record IsClaimed (cursor next : ℕ) (r : CoverageRow) (table out : List CoverageRow)
      : Type 0 where
    pub tiles : Tiles span p out
    pub ends : next ≡ min r.end_utf8 span.end_utf8
    pub starts : cursor ≡ max r.start_utf8 span.start_utf8
    pub inside : (n : ℕ) → cursor ≤ n → n < next → byte_at span p n out ≡ some claimed
    pub was :
        (n : ℕ)
        → cursor ≤ n
        → n < next
        → byte_at span p n table ≡ some (CoverageState.pending, none)
    pub outside :
        (n : ℕ)
        → (leb cursor n && ltb n next) ≡ false
        → byte_at span p n out ≡ byte_at span p n table
    pub kept :
        (s : CoverageRow) → In s table → of_text span p s ≡ true → Apart span p r s → In s out

  -- What `byte_at` says of a row that is to be claimed.
  pending_bytes :
      (n : ℕ) (r : CoverageRow) (table : List CoverageRow)
      → Tiles span p table
      → In r table
      → of_text span p r ≡ true
      → is_pending r.state ≡ true
      → r.start_utf8 ≤ n
      → n < r.end_utf8
      → byte_at span p n table ≡ some (CoverageState.pending, none)
  pending_bytes n r table t h mine free a b =
      let row = In-IsRow span p r table t h in
      byte_at-In span p n r table t h (ground arith)
      ∙ ap some (
          ap (λ x. (x, r.owner)) (is_pending_eq r.state free)
          ∙ ap (λ o. (CoverageState.pending, o)) (row.free free))
    where
      is_pending_eq : (c : CoverageState) → is_pending c ≡ true → c ≡ CoverageState.pending
      is_pending_eq c e = ground arith

  three_pieces :
      (left right : ℕ) (r : CoverageRow) (table before middle last : List CoverageRow)
      → left ≡ max r.start_utf8 span.start_utf8
      → right ≡ min r.end_utf8 span.end_utf8
      → left < right
      → Tiles span p table
      → In r table
      → of_text span p r ≡ true
      → is_pending r.state ≡ true
      → IsAdded r.start_utf8 left r.end_utf8 false (keep (without r) table) before
      → IsAdded left right r.end_utf8 true before middle
      → IsAdded right r.end_utf8 r.end_utf8 false middle last
      → IsClaimed left right r table last
  three_pieces left right r table before middle last el er lt t h mine free a1 a2 a3 = record {
    tiles = a3.tiles;
    ends = er;
    starts = el;
    inside = λ n a b. a3.outside n (ground arith) ∙ a2.inside n a b;
    was = λ n a b. pending_bytes n r table t h mine free (omega arith) (omega arith);
    outside = λ n out. elim (Bool-cases (leb r.start_utf8 n && ltb n r.end_utf8)) [
      | inr far ↦
          a3.outside n (ground arith)
          ∙ a2.outside n out
          ∙ a1.outside n (ground arith)
          ∙ byte_at-keep span p n r.start_utf8 r.end_utf8 table far
      | inl near ↦
          let was = pending_bytes n r table t h mine free (ground arith) (ground arith) in
          elim (Bool-cases (ltb n left)) [
            | inl low ↦
                a3.outside n (ground arith)
                ∙ a2.outside n out
                ∙ a1.inside n (ground arith) (ground arith)
                ∙ sym was
            | inr high ↦ a3.inside n (ground arith) (ground arith) ∙ sym was
          ]
    ];
    kept = λ s there its apart.
        a3.kept s
          (a2.kept s (a1.kept s (In-keep (without r) s table there (differs s there its apart))));
  }
    where
      differs :
          (s : CoverageRow)
          → In s table
          → of_text span p s ≡ true
          → Apart span p r s
          → without r s ≡ true
      differs s there its apart =
          let row = (In-IsRow span p s table t there).ordered in
          let own = (In-IsRow span p r table t h).ordered in
          elim (apart mine its) [ inl u ↦ ground arith | inr u ↦ ground arith ]

  pub claim_row-IsClaimed :
      (cursor next : ℕ) (r : CoverageRow) (table out : List CoverageRow)
      → span.start_utf8 < span.end_utf8
      → Tiles span p table
      → In r table
      → touches span p r ≡ true
      → claim_row span p cursor r table ≡ ok (next, out)
      → IsClaimed cursor next r table out
  unfolding claim_row
  claim_row-IsClaimed cursor next r table out nonempty t h touch g =
      let left = max r.start_utf8 span.start_utf8 in
      let right = min r.end_utf8 span.end_utf8 in
      let rest = keep (without r) table in
      let (allowed, g1) =
        >>-inversion (ensure (is_pending r.state && left == cursor) coverage_conflict) _ g in
      let (before, e1, g2) =
        >>=-inversion (coverage_piece span p r.start_utf8 left false rest) _ g1 in
      let (middle, e2, g3) = >>=-inversion (coverage_piece span p left right true before) _ g2 in
      let (last, e3, g4) =
        >>=-inversion {B = ℕ × List CoverageRow}
          (coverage_piece span p right r.end_utf8 false middle) (λ x. ok (right, x)) g3 in
      let same : last ≡ out = cc g4 in
      let ends : right ≡ next = cc g4 in
      let mine : of_text span p r ≡ true = ground arith in
      let free : is_pending r.state ≡ true = ground arith in
      let starts : left ≡ cursor = ground arith in
      let row = In-IsRow span p r table t h in
      let bounds : left < right = let o = row.ordered in ground arith in
      let a1 =
        coverage_piece-IsAdded r.start_utf8 left r.end_utf8 false rest before (omega arith)
          (Tiles-keep span p (without r) table t) (without-Clear r table t h mine) e1 in
      let a2 =
        coverage_piece-IsAdded left right r.end_utf8 true before middle (omega arith) a1.tiles
          a1.clear e2 in
      let a3 =
        coverage_piece-IsAdded right r.end_utf8 r.end_utf8 false middle last (omega arith) a2.tiles
          a2.clear e3 in
      subst (λ k. IsClaimed k next r table out) starts
        (subst (λ k. IsClaimed left k r table out) ends
          (subst (IsClaimed left right r table) same (
            three_pieces left right r table before middle last refl refl bounds t h mine free a1 a2
              a3)))
