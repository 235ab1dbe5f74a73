-- ===== src/Text.antt =====
-- Rust's `str`, which all parts use: a text is its list of Unicode scalar values, and offsets and
-- lengths count the bytes of its UTF-8 encoding. These are functions of Rust's standard library.
pub mod Slices
use Prim.Native.Char.{code}
use forum_agent.Shared.{
  ℕ, ◌+◌, ◌-◌, String, Bool, true, false, ◌&&◌, ◌||◌, Option, none, some, List, [], ◌∷◌, ◌++◌, ltb,
  leb, ◌==◌, if◌then◌else◌,
}

abbrev pub Text : Type 0
Text = List ℕ

abbrev pub codes : String → Text
codes String.[] = []
codes (String.◌∷◌ c s) = code c ∷ codes s

-- The bytes that one scalar value takes.
unfoldable pub utf8_width : ℕ → ℕ
utf8_width c = if ltb c 0x80 then 1 else if ltb c 0x800 then 2 else if ltb c 0x10000 then 3 else 4

-- `str::len`.
unfoldable pub utf8_len : Text → ℕ
utf8_len [] = 0
utf8_len (c ∷ t) = utf8_width c + utf8_len t

unfoldable pub text_eq : Text → Text → Bool
text_eq [] [] = true
text_eq [] (d ∷ u) = false
text_eq (c ∷ t) [] = false
text_eq (c ∷ t) (d ∷ u) = c == d && text_eq t u

-- `char::is_whitespace`.
unfoldable pub is_whitespace : ℕ → Bool
is_whitespace c =
    leb 9 c && leb c 13
    || c == 0x20
    || c == 0x85
    || c == 0xa0
    || c == 0x1680
    || leb 0x2000 c && leb c 0x200a
    || c == 0x2028
    || c == 0x2029
    || c == 0x202f
    || c == 0x205f
    || c == 0x3000

abbrev pub is_empty {ℓ} : {A : Type ℓ} → List A → Bool
is_empty [] = true
is_empty (c ∷ t) = false

unfoldable pub trim_start : Text → Text
unfolding is_whitespace
trim_start [] = []
trim_start (c ∷ t) = if is_whitespace c then trim_start t else c ∷ t

unfoldable pub trim_end : Text → Text
unfolding is_whitespace
trim_end [] = []
trim_end (c ∷ t) =
    let rest = trim_end t in if is_empty rest && is_whitespace c then [] else c ∷ rest

-- `str::trim`.
unfoldable pub trim : Text → Text
unfolding trim_start trim_end
trim t = trim_end (trim_start t)

-- `value.trim().is_empty()`.
unfoldable pub is_blank : Text → Bool
unfolding trim
is_blank t = is_empty (trim t)

-- The text after its first `n` bytes, where these end between two characters.
unfoldable pub skip_bytes : ℕ → Text → Option Text
skip_bytes n [] = if n == 0 then some [] else none
skip_bytes n (c ∷ t) =
    if n == 0
    then some (c ∷ t)
    else if ltb n (utf8_width c)
    then none
    else skip_bytes (n - utf8_width c) t

abbrev prepend : ℕ → Option Text → Option Text
prepend c none = none
prepend c (some t) = some (c ∷ t)

-- The first `n` bytes.
unfoldable pub take_bytes : ℕ → Text → Option Text
take_bytes n [] = if n == 0 then some [] else none
take_bytes n (c ∷ t) =
    if n == 0
    then some []
    else if ltb n (utf8_width c)
    then none
    else prepend c (take_bytes (n - utf8_width c) t)

abbrev and_then : Option Text → (Text → Option Text) → Option Text
and_then none f = none
and_then (some t) f = f t

-- `str::get(start..end)`.
unfoldable pub get_range : ℕ → ℕ → Text → Option Text
unfolding skip_bytes take_bytes
get_range start end t =
    if leb start end then and_then (skip_bytes start t) (take_bytes (end - start)) else none

-- `str::starts_with` with the rest that follows the prefix.
unfoldable pub strip_prefix : Text → Text → Option Text
strip_prefix [] t = some t
strip_prefix (c ∷ p) [] = none
strip_prefix (c ∷ p) (d ∷ t) = if c == d then strip_prefix p t else none

-- `[&str]::join`.
unfoldable pub join : Text → List Text → Text
join separator [] = []
join separator (t ∷ []) = t
join separator (t ∷ u ∷ ts) = t ++ (separator ++ join separator (u ∷ ts))
