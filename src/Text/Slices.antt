-- ===== src/Text/Slices.antt =====
-- Slices by byte offsets: what `get_range` returns, and when.
use forum_agent.Shared.{
  ℕ, ◌+◌, ◌-◌, ◌<◌, ◌≡◌, refl, ◌↔◌, true, Option, none, some, [], ◌∷◌, ◌++◌, arith, leb, ◌==◌,
  Bool-cases, inl, inr, ap, sym, ◌∙◌, Option-cases,
}
use forum_agent.Text.{
  Text, utf8_width, utf8_len, text_eq, prepend, skip_bytes, take_bytes, get_range,
}

pub utf8_width_pos : (c : ℕ) → 0 < utf8_width c
unfolding utf8_width
utf8_width_pos c = ground arith

pub utf8_len-append : (t u : Text) → utf8_len (t ++ u) ≡ utf8_len t + utf8_len u
unfolding utf8_len
utf8_len-append [] u = omega arith
utf8_len-append (c ∷ t) u = omega (arith, utf8_len-append t u)

pub text_eq→eq : (t u : Text) → text_eq t u ≡ true → t ≡ u
unfolding text_eq
text_eq→eq [] [] h = refl
text_eq→eq [] (d ∷ u) h = cc
text_eq→eq (c ∷ t) [] h = cc
text_eq→eq (c ∷ t) (d ∷ u) h = ground (arith, text_eq→eq t u)

pub text_eq_refl : (t : Text) → text_eq t t ≡ true
unfolding text_eq
text_eq_refl [] = refl
text_eq_refl (c ∷ t) = ground (arith, text_eq_refl t)

pub text_eq_iff : (t u : Text) → (text_eq t u ≡ true) ↔ (t ≡ u)
text_eq_iff t u = (text_eq→eq t u, λ e. rw (← e) (text_eq_refl t))

pub skip_bytes_sound :
    (n : ℕ) (t : Text) {u : Text}
    → skip_bytes n t ≡ some u
    → (p : Text) × (utf8_len p ≡ n) × (t ≡ p ++ u)
unfolding skip_bytes utf8_len
skip_bytes_sound n [] h = ([], ground arith, ground arith)
skip_bytes_sound n (c ∷ t) {u} h = elim (Bool-cases (n == 0)) [
  | inl z ↦ ([], ground arith, ground arith)
  | inr nz ↦
      let (p, l, e) = skip_bytes_sound (n - utf8_width c) t {u = u} (ground arith) in
      (c ∷ p, ground arith, ap (◌∷◌ c) e)
]

prepend-some :
    (c : ℕ) (o : Option Text) {q : Text}
    → prepend c o ≡ some q
    → (r : Text) × (o ≡ some r) × (q ≡ c ∷ r)
prepend-some c none h = cc
prepend-some c (some r) h = (r, refl, cc)

pub take_bytes_sound :
    (n : ℕ) (t : Text) {q : Text}
    → take_bytes n t ≡ some q
    → (r : Text) × (utf8_len q ≡ n) × (t ≡ q ++ r)
unfolding take_bytes utf8_len
take_bytes_sound n [] {q} h = ([], ground arith, ground arith)
take_bytes_sound n (c ∷ t) {q} h = elim (Bool-cases (n == 0)) [
  | inl z ↦ (c ∷ t, ground arith, ground arith)
  | inr nz ↦
      let (q', found, shape) =
        prepend-some c (take_bytes (n - utf8_width c) t) {q = q} (ground arith) in
      let (r, l, e) = take_bytes_sound (n - utf8_width c) t {q = q'} found in
      (r, ap utf8_len shape ∙ ground (arith, l), ap (◌∷◌ c) e ∙ ap (λ x. x ++ r) (sym shape))
]

pub skip_bytes-append : (p u : Text) → skip_bytes (utf8_len p) (p ++ u) ≡ some u
unfolding skip_bytes utf8_len
skip_bytes-append [] [] = refl
skip_bytes-append [] (d ∷ u) = refl
skip_bytes-append (c ∷ p) u = ground (arith, utf8_width_pos c, skip_bytes-append p u)

pub take_bytes-append : (q r : Text) → take_bytes (utf8_len q) (q ++ r) ≡ some q
unfolding take_bytes utf8_len
take_bytes-append [] [] = refl
take_bytes-append [] (d ∷ r) = refl
take_bytes-append (c ∷ q) r = ground (arith, utf8_width_pos c, take_bytes-append q r)

-- The slice from byte `start` to byte `end` exists exactly where the text splits there, and is the
-- middle part.
pub record IsSlice (start end : ℕ) (t q : Text) : Type 0 where
  pub before : Text
  pub after : Text
  pub shape : t ≡ before ++ (q ++ after)
  pub starts : utf8_len before ≡ start
  pub ends : start + utf8_len q ≡ end

pub get_range_sound :
    (start end : ℕ) (t q : Text) → get_range start end t ≡ some q → IsSlice start end t q
unfolding get_range
get_range_sound start end t q h = elim (Option-cases (skip_bytes start t)) [
  | inl missing ↦ absurd (ground arith)
  | inr (u, skipped) ↦
      let (p, lp, ep) = skip_bytes_sound start t {u = u} skipped in
      let (r, lq, eq) = take_bytes_sound (end - start) u {q = q} (ground arith) in
      record {
        before = p;
        after = r;
        shape = ep ∙ ap (◌++◌ p) eq;
        starts = lp;
        ends = ground arith;
      }
]

pub get_range_complete :
    (start end : ℕ) (t q : Text) → IsSlice start end t q → get_range start end t ≡ some q
unfolding get_range
get_range_complete start end t q s =
    let skipped : skip_bytes start t ≡ some (q ++ s.after) =
      rw (s.shape, ← s.starts) (skip_bytes-append s.before (q ++ s.after)) in
    let taken : take_bytes (end - start) (q ++ s.after) ≡ some q =
      let l : end - start ≡ utf8_len q = omega (arith, s.ends) in
      rw l (take_bytes-append q s.after) in
    let ordered : leb start end ≡ true = ground (arith, s.ends) in rw (ordered, skipped, taken)
