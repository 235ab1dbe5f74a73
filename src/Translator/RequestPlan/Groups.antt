-- ===== src/Translator/RequestPlan/Groups.antt =====
-- What the groups hold of the work, byte by byte.
use forum_agent.Shared.{
  ℕ, ◌+◌, ◌≡◌, refl, ltb, Bool, false, none, some, List, [], ◌∷◌, ◌++◌, ok, err, ensure, map_err,
  any, find, All, arith, ap, sym, ◌∙◌, subst, inl, inr, Bool-cases, Option-cases, >>=-inversion,
  >>-inversion, map_err-ok, if◌then◌else◌, is_some, find-any, ◌>>=◌, append-nil, suc,
}
use forum_agent.Text.{text_eq}
use forum_agent.Translator.AttributedBuffer.{append_span, sources}
use forum_agent.Translator.AttributedBuffer.Covers.{
  IsAttributed, SourceByte, source_bytes, span_bytes,
}
use forum_agent.Translator.AttributedBuffer.Chunks.{append_span-kept, source_bytes-append}
use forum_agent.Translator.RequestPlan.{
  Group, Grouped, TranslationWork, buffer_error, canonical_language, conflicting_duplicate, extend,
  group_all, group_one, in_last, invalid_epoch, joins, new_group, or_new, same_coverage,
  unsupported_target,
}

-- How many of the bytes a test accepts; for the test of one byte, how often it occurs.
abbrev pub count : (SourceByte → Bool) → List SourceByte → ℕ
count p [] = 0
count p (b ∷ bytes) = let rest = count p bytes in if p b then suc rest else rest

pub count-append :
    (p : SourceByte → Bool) (a b : List SourceByte) → count p (a ++ b) ≡ count p a + count p b
count-append p [] b = omega arith
count-append p (x ∷ a) b = ground (arith, count-append p a b)

abbrev pub group_bytes : Group → List SourceByte
group_bytes g = source_bytes (sources g.buffer.pieces)

abbrev pub groups_bytes : List Group → List SourceByte
groups_bytes [] = []
groups_bytes (g ∷ gs) = group_bytes g ++ groups_bytes gs

abbrev pub work_bytes : List TranslationWork → List SourceByte
work_bytes [] = []
work_bytes (w ∷ work) = span_bytes w.source_span ++ work_bytes work

abbrev pub AllAttributed : List Group → Type 0
AllAttributed gs = All (λ g. IsAttributed g.buffer.pieces) gs

-- The work without what is repeated.
abbrev pub distinct : List TranslationWork → List TranslationWork → List TranslationWork
distinct seen [] = []
distinct seen (w ∷ work) =
    let again = distinct seen work in
    let rest = distinct (w ∷ seen) work in
    if any (λ v. same_coverage v w) seen then again else w ∷ rest

find-none {ℓ} : {A : Type ℓ} (q : A → Bool) (xs : List A) → find q xs ≡ none → any q xs ≡ false
find-none q [] h = refl
find-none q (x ∷ xs) h = ground (arith, find-none q xs)

module _ (p : SourceByte → Bool) where
  extend-count :
      (w : TranslationWork) (g h : Group)
      → IsAttributed g.buffer.pieces
      → extend w g ≡ ok h
      → IsAttributed h.buffer.pieces
        × (count p (group_bytes h) ≡ count p (group_bytes g) + count p (span_bytes w.source_span))
  unfolding extend
  extend-count w g h all e =
      let (b, appended, e1) =
        >>=-inversion (map_err buffer_error (append_span w.source_span g.buffer)) _ e in
      let same : b ≡ h.buffer =
        (let whole : (record g {
          last_start = w.audio.start_ms;
          last_end = w.audio.end_ms;
          buffer = b;
        })
              ≡ h =
            cc e1 in
          ap (λ x. x.buffer) whole) in
      let (quotes, shape) =
        append_span-kept w.source_span g.buffer b all (map_err-ok buffer_error _ b appended) in
      let bytes : source_bytes (sources b.pieces) ≡ group_bytes g ++ span_bytes w.source_span =
        ap source_bytes shape
        ∙ source_bytes-append (sources g.buffer.pieces) (w.source_span ∷ [])
        ∙ ap (λ x. group_bytes g ++ x) (append-nil (span_bytes w.source_span)) in
      subst
        (λ x.
          IsAttributed x.pieces
          × (count p (source_bytes (sources x.pieces))
              ≡ count p (group_bytes g) + count p (span_bytes w.source_span)))
        same
        (quotes, ap (count p) bytes ∙ count-append p (group_bytes g) (span_bytes w.source_span))

  -- The groups have the bytes of `w` besides those that they had.
  abbrev pub Grown : TranslationWork → List Group → List Group → Type 0
  Grown w gs hs =
      AllAttributed hs
      × (count p (groups_bytes hs) ≡ count p (groups_bytes gs) + count p (span_bytes w.source_span))

  Grown-later :
      (w : TranslationWork) (g : Group) (gs later : List Group)
      → AllAttributed (g ∷ gs)
      → Grown w gs later
      → Grown w (g ∷ gs) (g ∷ later)
  Grown-later w g gs later all h = (
    (all.0, h.0),
    omega (
      arith,
      h.1,
      count-append p (group_bytes g) (groups_bytes gs),
      count-append p (group_bytes g) (groups_bytes later),
    ),
  )

  Grown-here :
      (w : TranslationWork) (g h : Group) (gs : List Group)
      → AllAttributed (g ∷ gs)
      → extend w g ≡ ok h
      → Grown w (g ∷ gs) (h ∷ gs)
  Grown-here w g h gs all e =
      let (quotes, bytes) = extend-count w g h all.0 e in
      (
        (quotes, all.1),
        omega (
          arith,
          bytes,
          count-append p (group_bytes g) (groups_bytes gs),
          count-append p (group_bytes h) (groups_bytes gs),
        ),
      )

  in_last-Grown :
      (w : TranslationWork) (gs hs : List Group)
      → AllAttributed gs
      → in_last w gs ≡ some (ok hs)
      → Grown w gs hs
  unfolding in_last
  in_last-Grown w [] hs all e = absurd (cc e)
  in_last-Grown w (g ∷ gs) hs all e = elim (Option-cases (in_last w gs)) [
    | inl missing ↦ elim (Bool-cases (joins w g)) [
      | inr apart ↦ absurd (let e1 = rw (missing, apart) at e in cc e1)
      | inl t ↦
          let e1 = rw (missing, t) at e in
          let e2 : (extend w g >>= λ h. ok (h ∷ gs)) ≡ ok hs = cc e1 in
          let (h, extended, e3) = >>=-inversion (extend w g) _ e2 in
          let shape : (h ∷ gs) ≡ hs = cc e3 in
          subst (Grown w (g ∷ gs)) shape (Grown-here w g h gs all extended)
    ]
    | inr (err x, found) ↦ absurd (let e1 = rw found at e in cc e1)
    | inr (ok later, found) ↦
        let e1 = rw found at e in
        let shape : (g ∷ later) ≡ hs = cc e1 in
        subst (Grown w (g ∷ gs)) shape
          (Grown-later w g gs later all (in_last-Grown w gs later all.1 found))
  ]

  appended-Grown :
      (w : TranslationWork) (g : Group) (gs : List Group)
      → AllAttributed gs
      → extend w (new_group w) ≡ ok g
      → Grown w gs (gs ++ (g ∷ []))
  appended-Grown w g [] all e =
      let (quotes, bytes) = extend-count w (new_group w) g tt e in
      ((quotes, tt), ap (count p) (append-nil (group_bytes g)) ∙ bytes)
  appended-Grown w g (h ∷ gs) all e =
      Grown-later w h gs (gs ++ (g ∷ [])) all (appended-Grown w g gs all.1 e)

  or_new-Grown :
      (w : TranslationWork) (gs hs : List Group)
      → AllAttributed gs
      → or_new w gs (in_last w gs) ≡ ok hs
      → Grown w gs hs
  or_new-Grown w gs hs all e = elim (Option-cases (in_last w gs)) [
    | inl missing ↦
        let e1 = rw missing at e in
        let (g, extended, e2) = >>=-inversion (extend w (new_group w)) _ e1 in
        let shape : (gs ++ (g ∷ [])) ≡ hs = cc e2 in
        subst (Grown w gs) shape (appended-Grown w g gs all extended)
    | inr (r, found) ↦ let e1 = rw found at e in in_last-Grown w gs hs all (found ∙ ap some e1)
  ]

  -- The loop puts each piece of work into one group, once.
  pub group_all-count :
      (work : List TranslationWork) (s t : Grouped)
      → AllAttributed s.groups
      → group_all work s ≡ ok t
      → AllAttributed t.groups
        × (count p (groups_bytes t.groups)
            ≡ count p (groups_bytes s.groups) + count p (work_bytes (distinct s.seen work)))
  unfolding group_all group_one
  group_all-count [] s t all e =
      let same : s ≡ t = cc e in
      subst
        (λ t.
          AllAttributed t.groups
          × (count p (groups_bytes t.groups) ≡ count p (groups_bytes s.groups) + 0))
        same (all, omega arith)
  group_all-count (w ∷ work) s t all e =
      let (m, one, e1) = >>=-inversion (group_one w s) _ e in
      let (supported, e2) =
        >>-inversion (ensure (is_some (canonical_language w.target_language)) unsupported_target) _
          one in
      let (positive, e3) = >>-inversion (ensure (ltb 0 w.direction_epoch) invalid_epoch) _ e2 in
      elim (Option-cases (find (λ v. same_coverage v w) s.seen)) [
        | inr (v, found) ↦
            let e4 = rw found at e3 in
            let (agree, e5) =
              >>-inversion
                (ensure (text_eq v.source_span.quote w.source_span.quote) conflicting_duplicate) _
                e4 in
            let same : s ≡ m = cc e5 in
            let again = find-any (λ v. same_coverage v w) s.seen v found in
            let all' = subst (λ m. AllAttributed m.groups) same all in
            let (quotes, rest) = group_all-count work m t all' e1 in
            (quotes, rw again (rest ∙ rw (← same) refl))
        | inl unseen ↦
            let e4 = rw unseen at e3 in
            let (groups, placed, e5) =
              >>=-inversion (or_new w s.groups (in_last w s.groups)) _ e4 in
            let grown = or_new-Grown w s.groups groups all placed in
            let same : (record { seen = w ∷ s.seen; groups = groups }) ≡ m = cc e5 in
            let fresh = find-none (λ v. same_coverage v w) s.seen unseen in
            let (quotes, rest) =
              group_all-count work (record { seen = w ∷ s.seen; groups = groups }) t grown.0
                (subst (λ m. group_all work m ≡ ok t) (sym same) e1) in
            (
              quotes,
              rw fresh (
                  omega (
                    arith,
                    rest,
                    grown.1,
                    count-append p (span_bytes w.source_span)
                        (work_bytes (distinct (w ∷ s.seen) work)),
                  )),
            )
      ]
