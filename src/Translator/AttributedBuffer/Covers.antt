-- ===== src/Translator/AttributedBuffer/Covers.antt =====
-- The bytes of the sources that a buffer holds, and what a split makes of them.
use forum_agent.Shared.{
  ℕ, zero, suc, ◌+◌, ◌-◌, ◌≡◌, ◌≤◌, refl, ltb, leb, true, ◌&&◌, not, Option, none, some, List, [],
  ◌∷◌, ◌++◌, ok, ensure, ok_or, min, max, All, arith, ap, sym, ◌∙◌, subst, inl, inr, &&_true,
  Bool-cases, Option-cases, >>=-inversion, >>-inversion, ok_or-ok, is_some, append_assoc,
  append-nil, if◌then◌else◌,
}
use forum_agent.Text.{Text, utf8_len, is_empty, get_range}
use forum_agent.Text.Slices.{utf8_len-append, get_range_sound}
use forum_agent.Contracts.{Uuid, Revision}
use forum_agent.Contracts.Transcript.{SourceSpan}
use forum_agent.Translator.AttributedBuffer.{
  Piece, AttributedBuffer, panicked, sources, text_of, cut_source, cut_piece, cut_pieces, cut_if,
  drop_front, drop_back, slice, split_at_utf8, and_source, is_char_boundary, is_boundary,
  not_utf8_boundary, divides_grapheme,
}

-- One byte of one revision of one source.
pub record SourceByte : Type 0 where
  pub segment_id : Uuid
  pub segment_revision : Revision
  pub offset : ℕ

abbrev pub bytes_at : Uuid → Revision → ℕ → ℕ → List SourceByte
bytes_at id n start zero = []
bytes_at id n start (suc count) =
    (record { segment_id = id; segment_revision = n; offset = start })
    ∷ bytes_at id n (start + 1) count

abbrev pub span_bytes : SourceSpan → List SourceByte
span_bytes s = bytes_at s.segment_id s.segment_revision s.start_utf8 (s.end_utf8 - s.start_utf8)

abbrev pub source_bytes : List SourceSpan → List SourceByte
source_bytes [] = []
source_bytes (s ∷ spans) = span_bytes s ++ source_bytes spans

-- A span quotes the text of its piece, to the byte.
abbrev pub Quotes : Text → Option SourceSpan → Type 0
Quotes t none = Unit
Quotes t (some s) = (s.quote ≡ t) × (s.end_utf8 ≡ s.start_utf8 + utf8_len t)

abbrev pub IsAttributed : List Piece → Type 0
IsAttributed pieces = All (λ p. Quotes p.text p.source) pieces

abbrev pub option_bytes : Option SourceSpan → List SourceByte
option_bytes none = []
option_bytes (some s) = span_bytes s

pub and_source-bytes :
    (o : Option SourceSpan) (spans : List SourceSpan)
    → source_bytes (and_source o spans) ≡ option_bytes o ++ source_bytes spans
and_source-bytes none spans = refl
and_source-bytes (some s) spans = refl

bytes_at-append :
    (id : Uuid) (n start a b : ℕ)
    → bytes_at id n start (a + b) ≡ bytes_at id n start a ++ bytes_at id n (start + a) b
bytes_at-append id n start zero b =
    let e : start + 0 ≡ start = omega arith in let f : 0 + b ≡ b = omega arith in rw (e, f) refl
bytes_at-append id n start (suc a) b =
    let e : suc a + b ≡ suc (a + b) = omega arith in
    let f : start + suc a ≡ (start + 1) + a = omega arith in
    rw (e, f)
      (ap (◌∷◌ (record { segment_id = id; segment_revision = n; offset = start }))
        (bytes_at-append id n (start + 1) a b))

-- The bytes of a source that a part of its piece has.
abbrev part : Option SourceSpan → ℕ → ℕ → List SourceByte
part none first count = []
part (some s) first count = bytes_at s.segment_id s.segment_revision (s.start_utf8 + first) count

part-append :
    (o : Option SourceSpan) (first a b : ℕ)
    → part o first (a + b) ≡ part o first a ++ part o (first + a) b
part-append none first a b = refl
part-append (some s) first a b =
    let e : s.start_utf8 + (first + a) ≡ s.start_utf8 + first + a = omega arith in
    rw e (bytes_at-append s.segment_id s.segment_revision (s.start_utf8 + first) a b)

whole_part :
    (t : Text) (o : Option SourceSpan) → Quotes t o → option_bytes o ≡ part o 0 (utf8_len t)
whole_part t none h = refl
whole_part t (some s) h =
    let e : s.start_utf8 + 0 ≡ s.start_utf8 = omega arith in
    let f : s.end_utf8 - s.start_utf8 ≡ utf8_len t = omega (arith, h.1) in rw (e, f) refl

cut_source-part :
    (first last : ℕ) (quoted : Text) (o : Option SourceSpan)
    → first + utf8_len quoted ≡ last
    → Quotes quoted (cut_source first last quoted o)
      × (option_bytes (cut_source first last quoted o) ≡ part o first (last - first))
cut_source-part first last quoted none h = (tt, refl)
cut_source-part first last quoted (some s) h =
    let e : s.start_utf8 + last - (s.start_utf8 + first) ≡ last - first = omega arith in
    ((refl, omega (arith, h)), rw e refl)

cut_piece-part :
    (first last : ℕ) (p q : Piece)
    → cut_piece first last p ≡ ok q
    → Quotes q.text q.source × (option_bytes q.source ≡ part p.source first (last - first))
unfolding cut_piece
cut_piece-part first last p q h =
    let (quoted, sliced, h1) = >>=-inversion (ok_or panicked (get_range first last p.text)) _ h in
    let s = get_range_sound first last p.text quoted (ok_or-ok panicked _ quoted sliced) in
    let shape : (record { text = quoted; source = cut_source first last quoted p.source }) ≡ q =
      cc h1 in
    subst
      (λ q. Quotes q.text q.source × (option_bytes q.source ≡ part p.source first (last - first)))
      shape (cut_source-part first last quoted p.source s.ends)

abbrev pub covered : List Piece → List SourceByte
covered pieces = source_bytes (sources pieces)

part_empty : (o : Option SourceSpan) (first : ℕ) → part o first 0 ≡ []
part_empty none first = refl
part_empty (some s) first = refl

cut_if-part :
    (first last offset : ℕ) (p : Piece) (rest out : List Piece)
    → offset ≤ first
    → cut_if (ltb first last) (cut_piece (first - offset) (last - offset) p) rest ≡ ok out
    → (IsAttributed rest → IsAttributed out)
      × (covered out ≡ part p.source (first - offset) (last - first) ++ covered rest)
cut_if-part first last offset p rest out low h = elim (Bool-cases (ltb first last)) [
  | inl t ↦
      let h0 = rw t at h in
      let (q, cut, h1) = >>=-inversion (cut_piece (first - offset) (last - offset) p) _ h0 in
      let shape : (q ∷ rest) ≡ out = cc h1 in
      let (quotes, bytes) = cut_piece-part (first - offset) (last - offset) p q cut in
      let count : (last - offset) - (first - offset) ≡ last - first = ground arith in
      (
        λ all. subst IsAttributed shape (quotes, all),
        ap covered (sym shape)
            ∙ and_source-bytes q.source (sources rest)
            ∙ ap (λ x. x ++ covered rest) (bytes ∙ ap (part p.source (first - offset)) count),
      )
  | inr t ↦
      let h0 = rw t at h in
      let shape : rest ≡ out = cc h0 in
      let none_left : last - first ≡ 0 = ground arith in
      (
        λ all. subst IsAttributed shape all,
        ap covered (sym shape)
            ∙ ap (λ x. x ++ covered rest)
                (sym (
                  ap (part p.source (first - offset)) none_left
                  ∙ part_empty p.source (first - offset))),
      )
]

-- What the loop makes of one piece.
cut_pieces_cons :
    (start end offset : ℕ) (p : Piece) (ps out : List Piece)
    → cut_pieces start end offset (p ∷ ps) ≡ ok out
    → (rest : List Piece) × (cut_pieces start end (offset + utf8_len p.text) ps ≡ ok rest)
      × (IsAttributed rest → IsAttributed out)
      × (covered out
          ≡ part p.source
              (max start offset - offset)
              (min end (offset + utf8_len p.text) - max start offset)
            ++ covered rest)
unfolding cut_pieces
cut_pieces_cons start end offset p ps out h =
    let (rest, later, h1) =
      >>=-inversion (cut_pieces start end (offset + utf8_len p.text) ps) _ h in
    let (quotes, bytes) =
      cut_if-part (max start offset) (min end (offset + utf8_len p.text)) offset p rest out
        (omega arith) h1 in
    (rest, later, quotes, bytes)

-- The loop keeps the attribution.
pub cut_pieces-IsAttributed :
    (start end offset : ℕ) (ps out : List Piece)
    → cut_pieces start end offset ps ≡ ok out
    → IsAttributed out
unfolding cut_pieces
cut_pieces-IsAttributed start end offset [] out h =
    let done : [] ≡ out = cc h in subst IsAttributed done tt
cut_pieces-IsAttributed start end offset (p ∷ ps) out h =
    let (rest, later, keeps, bytes) = cut_pieces_cons start end offset p ps out h in
    keeps (cut_pieces-IsAttributed start end (offset + utf8_len p.text) ps rest later)

-- Past its end the loop takes nothing.
cut_pieces_past :
    (start end offset : ℕ) (ps out : List Piece)
    → end ≤ offset
    → cut_pieces start end offset ps ≡ ok out
    → covered out ≡ []
unfolding cut_pieces
cut_pieces_past start end offset [] out past h = let done : [] ≡ out = cc h in ap covered (sym done)
cut_pieces_past start end offset (p ∷ ps) out past h =
    let (rest, later, keeps, bytes) = cut_pieces_cons start end offset p ps out h in
    let nothing : min end (offset + utf8_len p.text) - max start offset ≡ 0 = omega (arith, past) in
    bytes
    ∙ rw (nothing, part_empty p.source (max start offset - offset))
        (cut_pieces_past start end (offset + utf8_len p.text) ps rest (omega (arith, past)) later)

-- From its start on, as far as the text goes, it takes everything.
cut_pieces_whole :
    (start end offset : ℕ) (ps out : List Piece)
    → IsAttributed ps
    → start ≤ offset
    → offset + utf8_len (text_of ps) ≤ end
    → cut_pieces start end offset ps ≡ ok out
    → covered out ≡ covered ps
unfolding cut_pieces utf8_len
cut_pieces_whole start end offset [] out all low high h =
    let done : [] ≡ out = cc h in ap covered (sym done)
cut_pieces_whole start end offset (p ∷ ps) out all low high h =
    let (rest, later, keeps, bytes) = cut_pieces_cons start end offset p ps out h in
    let total = utf8_len-append p.text (text_of ps) in
    let count : min end (offset + utf8_len p.text) - max start offset ≡ utf8_len p.text =
      omega (arith, low, high, total) in
    let first : max start offset - offset ≡ 0 = omega (arith, low) in
    bytes
    ∙ rw (count, first)
        (ap (λ x. part p.source 0 (utf8_len p.text) ++ x)
          (cut_pieces_whole start end (offset + utf8_len p.text) ps rest all.1 (omega (arith, low))
            (omega (arith, high, total)) later))
    ∙ ap (λ x. x ++ covered ps) (sym (whole_part p.text p.source all.0))
    ∙ sym (and_source-bytes p.source (sources ps))

-- The two loops of a split take each byte once, in order.
cut_pieces_split :
    (cut end offset : ℕ) (ps heads tails : List Piece)
    → IsAttributed ps
    → offset + utf8_len (text_of ps) ≤ end
    → cut_pieces 0 cut offset ps ≡ ok heads
    → cut_pieces cut end offset ps ≡ ok tails
    → covered heads ++ covered tails ≡ covered ps
unfolding cut_pieces utf8_len
cut_pieces_split cut end offset [] heads tails all high h k =
    let done : [] ≡ heads = cc h in let done_too : [] ≡ tails = cc k in rw (← done, ← done_too) refl
cut_pieces_split cut end offset (p ∷ ps) heads tails all high h k =
    let (rest, later, keeps, bytes) = cut_pieces_cons 0 cut offset p ps heads h in
    let (rest', later', keeps', bytes') = cut_pieces_cons cut end offset p ps tails k in
    let n = utf8_len p.text in
    let total = utf8_len-append p.text (text_of ps) in
    let first : max 0 offset - offset ≡ 0 = omega arith in
    let whole =
      and_source-bytes p.source (sources ps)
      ∙ ap (λ x. x ++ covered ps) (whole_part p.text p.source all.0) in
    elim (Bool-cases (leb (offset + n) cut)) [
      | inl t ↦
          let before : min cut (offset + n) - max 0 offset ≡ n = ground arith in
          let nothing : min end (offset + n) - max cut offset ≡ 0 = ground arith in
          let split =
            cut_pieces_split cut end (offset + n) ps rest rest' all.1 (omega (arith, high, total))
              later later' in
          let heads_are : covered heads ≡ part p.source 0 n ++ covered rest =
            bytes ∙ rw (first, before) refl in
          let tails_are : covered tails ≡ covered rest' =
            bytes' ∙ rw (nothing, part_empty p.source (max cut offset - offset)) refl in
          ap (λ x. x ++ covered tails) heads_are
          ∙ ap (λ x. (part p.source 0 n ++ covered rest) ++ x) tails_are
          ∙ append_assoc (part p.source 0 n) (covered rest) (covered rest')
          ∙ ap (λ x. part p.source 0 n ++ x) split
          ∙ sym whole
      | inr t ↦
          let count : min cut (offset + n) - max 0 offset ≡ max cut offset - offset =
            ground arith in
          let count' : min end (offset + n) - max cut offset ≡ n - (max cut offset - offset) =
            ground (arith, total, high) in
          let sum : (max cut offset - offset) + (n - (max cut offset - offset)) ≡ n =
            ground arith in
          let nothing = cut_pieces_past 0 cut (offset + n) ps rest (ground arith) later in
          let everything =
            cut_pieces_whole cut end (offset + n) ps rest' all.1 (ground arith)
              (omega (arith, high, total)) later' in
          let a = max cut offset - offset in
          let heads_are : covered heads ≡ part p.source 0 a =
            bytes ∙ rw (first, count, nothing) (append-nil (part p.source 0 a)) in
          let tails_are : covered tails ≡ part p.source a (n - a) ++ covered ps =
            bytes' ∙ rw (count', everything) refl in
          let zero_more : 0 + a ≡ a = omega arith in
          let joined : part p.source 0 n ≡ part p.source 0 a ++ part p.source a (n - a) =
            ap (part p.source 0) (sym sum)
            ∙ part-append p.source 0 a (n - a)
            ∙ ap (λ f. part p.source 0 a ++ part p.source f (n - a)) zero_more in
          ap (λ x. x ++ covered tails) heads_are
          ∙ ap (λ x. part p.source 0 a ++ x) tails_are
          ∙ sym (append_assoc (part p.source 0 a) (part p.source a (n - a)) (covered ps))
          ∙ ap (λ x. x ++ covered ps) (sym joined)
          ∙ sym whole
    ]

drop_front-covered : (ps : List Piece) → covered (drop_front ps) ≡ covered ps
drop_front-covered [] = refl
drop_front-covered (p ∷ ps) = elim (Option-cases p.source) [
  | inl e ↦ rw (e, drop_front) (drop_front-covered ps)
  | inr (s, e) ↦ rw (e, drop_front) refl
]

pub nothing_in {ℓ} : {A : Type ℓ} (xs : List A) → is_empty xs ≡ true → xs ≡ []
nothing_in [] h = refl
nothing_in (x ∷ xs) h = absurd (cc h)

drop_back-covered : (ps : List Piece) → covered (drop_back ps) ≡ covered ps
drop_back-covered [] = refl
drop_back-covered (p ∷ ps) = elim (Bool-cases (is_empty (drop_back ps) && not (is_some p.source))) [
  | inl t ↦
      let (blank, bare) = &&_true (is_empty (drop_back ps)) (not (is_some p.source)) t in
      let left : covered ps ≡ [] =
        sym (drop_back-covered ps) ∙ ap covered (nothing_in (drop_back ps) blank) in
      let none_here : p.source ≡ none = (elim (Option-cases p.source) [
        | inl e ↦ e
        | inr (s, e) ↦ absurd (let two = rw e at bare in cc two)
      ]) in
      rw t (sym (and_source-bytes p.source (sources ps) ∙ rw (none_here, left) refl))
  | inr t ↦ rw t (
      and_source-bytes p.source (sources (drop_back ps))
      ∙ ap (λ x. option_bytes p.source ++ x) (drop_back-covered ps)
      ∙ sym (and_source-bytes p.source (sources ps)))
]

drop_front-IsAttributed : (ps : List Piece) → IsAttributed ps → IsAttributed (drop_front ps)
drop_front-IsAttributed [] h = tt
drop_front-IsAttributed (p ∷ ps) h = elim (Option-cases p.source) [
  | inl e ↦ rw (e, drop_front) (drop_front-IsAttributed ps h.1)
  | inr (s, e) ↦ subst (λ o. IsAttributed (if is_some o then p ∷ ps else drop_front ps)) (sym e) h
]

drop_back-IsAttributed : (ps : List Piece) → IsAttributed ps → IsAttributed (drop_back ps)
drop_back-IsAttributed [] h = tt
drop_back-IsAttributed (p ∷ ps) h =
    elim (Bool-cases (is_empty (drop_back ps) && not (is_some p.source))) [
      | inl t ↦ rw t tt
      | inr t ↦ rw t (h.0, drop_back-IsAttributed ps h.1)
    ]

module _ (graphemes : Text → List Text) where
  pub sliced :
      (start end : ℕ) (b c : AttributedBuffer)
      → slice graphemes start end b ≡ ok c
      → (pieces : List Piece) × (cut_pieces start end 0 b.pieces ≡ ok pieces)
        × (c.pieces ≡ drop_back (drop_front pieces))
        × (c.mode ≡ b.mode)
  unfolding slice
  sliced start end b c h =
      let (bytes, h1) =
        >>-inversion
          (ensure
            (leb start end
              && leb end (utf8_len (text_of b.pieces))
              && is_char_boundary start (text_of b.pieces)
              && is_char_boundary end (text_of b.pieces))
            not_utf8_boundary)
          _ h in
      let (whole, h2) =
        >>-inversion
          (ensure
            (is_boundary graphemes start (text_of b.pieces)
              && is_boundary graphemes end (text_of b.pieces))
            divides_grapheme)
          _ h1 in
      let (pieces, cut, h3) = >>=-inversion (cut_pieces start end 0 b.pieces) _ h2 in
      let shape : (record b { pieces = drop_back (drop_front pieces) }) ≡ c = cc h3 in
      (pieces, cut, ap (λ x. x.pieces) (sym shape), ap (λ x. x.mode) (sym shape))

  -- A buffer that is a part of another: what `slice` and so the two halves of a split keep.
  pub slice-IsAttributed :
      (start end : ℕ) (b c : AttributedBuffer)
      → slice graphemes start end b ≡ ok c
      → IsAttributed c.pieces
  slice-IsAttributed start end b c h =
      let (pieces, cut, shape, mode) = sliced start end b c h in
      rw shape (
        drop_back-IsAttributed (drop_front pieces) (
          drop_front-IsAttributed pieces (cut_pieces-IsAttributed start end 0 b.pieces pieces cut)))

  -- A split loses no byte of a source and takes none twice: the bytes of the head and then those of
  -- the tail are the bytes of the buffer, in order. The spans of the buffer quote their pieces; so
  -- do those of the two halves.
  pub split_at_utf8-covers :
      (end : ℕ) (b head tail : AttributedBuffer)
      → IsAttributed b.pieces
      → split_at_utf8 graphemes end b ≡ ok (head, tail)
      → (source_bytes (sources head.pieces) ++ source_bytes (sources tail.pieces)
          ≡ source_bytes (sources b.pieces))
        × IsAttributed head.pieces
        × IsAttributed tail.pieces
  unfolding split_at_utf8
  split_at_utf8-covers end b head tail all h =
      let (front, is_front, h1) = >>=-inversion (slice graphemes 0 end b) _ h in
      let (back, is_back, h2) =
        >>=-inversion (slice graphemes end (utf8_len (text_of b.pieces)) b) _ h1 in
      let same_head : front ≡ head = cc h2 in
      let same_tail : back ≡ tail = cc h2 in
      let (heads, cut, shape, mode) = sliced 0 end b front is_front in
      let (tails, cut', shape', mode') = sliced end (utf8_len (text_of b.pieces)) b back is_back in
      let split =
        cut_pieces_split end (utf8_len (text_of b.pieces)) 0 b.pieces heads tails all (omega arith)
          cut cut' in
      let heads_are =
        ap covered shape ∙ drop_back-covered (drop_front heads) ∙ drop_front-covered heads in
      let tails_are =
        ap covered shape' ∙ drop_back-covered (drop_front tails) ∙ drop_front-covered tails in
      rw (← same_head, ← same_tail)
        (
          ap (λ x. x ++ covered back.pieces) heads_are
              ∙ ap (λ x. covered heads ++ x) tails_are
              ∙ split,
          slice-IsAttributed 0 end b front is_front,
          slice-IsAttributed end (utf8_len (text_of b.pieces)) b back is_back,
        )
