-- ===== src/Translator/PhraseWindow.antt =====
-- The look-ahead window, desktop/node-hub/dora-qwen35-translator/src/phrase_window.rs. Times are
-- milliseconds; a request without spans, on which the code panics, has no result.
pub mod Waits
use forum_agent.Shared.{
  ℕ, ◌+◌, ◌-◌, ◌≡◌, Bool, true, false, ◌&&◌, ◌||◌, not, ltb, leb, ◌==◌, Option, none, some, List,
  [], ◌∷◌, any, if◌then◌else◌,
}
use forum_agent.Text.{Text, text_eq, is_whitespace, trim}
use forum_agent.Contracts.{Uuid, Revision}
use forum_agent.Contracts.Transcript.{SourceSpan}
use forum_agent.Contracts.Translation.{TranslationRequested}

pub record PhraseKey : Type 0 where
  pub segment_id : Uuid
  pub segment_revision : Revision
  pub start_utf8 : ℕ
  pub target_language : Text
  pub direction_epoch : ℕ

unfoldable pub same_phrase : PhraseKey → PhraseKey → Bool
same_phrase a b =
    a.segment_id == b.segment_id
    && a.segment_revision == b.segment_revision
    && a.start_utf8 == b.start_utf8
    && text_eq a.target_language b.target_language
    && a.direction_epoch == b.direction_epoch

pub record PhraseWindow : Type 0 where
  pub pending : Option (PhraseKey × ℕ)
  pub max_wait : ℕ

unfoldable pub default_window : PhraseWindow
default_window = record { pending = none; max_wait = 3500 }

-- `. ! ? 。 ！ ？`
abbrev ends_sentence : ℕ → Bool
ends_sentence c = c == 0x2E || c == 0x21 || c == 0x3F || c == 0x3002 || c == 0xFF01 || c == 0xFF1F

unfoldable pub has_end : Text → Bool
has_end [] = false
has_end (c ∷ []) = ends_sentence c
has_end (c ∷ d ∷ t) = has_end (d ∷ t)

-- `split_whitespace().count()`; the flag says that the text before ends inside a word.
unfoldable pub count_words : Bool → Text → ℕ
count_words inside [] = 0
count_words inside (c ∷ t) =
    let after_space = count_words false t in
    let after_letter = count_words true t in
    if is_whitespace c then after_space else if inside then after_letter else 1 + after_letter

unfoldable pub count_han : Text → ℕ
count_han [] = 0
count_han (c ∷ t) =
    let rest = count_han t in if leb 0x4E00 c && leb c 0x9FFF then 1 + rest else rest

unfoldable pub is_complete : Text → Bool
is_complete text =
    let source = trim text in
    has_end source && (leb 12 (count_words false source) || leb 18 (count_han source))

abbrev pub key_of : SourceSpan → TranslationRequested → PhraseKey
key_of first p = record {
  segment_id = first.segment_id;
  segment_revision = first.segment_revision;
  start_utf8 = first.start_utf8;
  target_language = p.target_language;
  direction_epoch = p.direction_epoch;
}

-- When the window of a key was opened.
unfoldable pub started_at : Option (PhraseKey × ℕ) → PhraseKey → ℕ → ℕ
started_at none key now = now
started_at (some (old, started)) key now = if same_phrase old key then started else now

unfoldable pub decide : SourceSpan → TranslationRequested → ℕ → PhraseWindow → Bool × PhraseWindow
decide first p now w =
    let key = key_of first p in
    let started = started_at w.pending key now in
    let combined = any (λ s. not (s.segment_id == first.segment_id)) p.source_spans in
    let wait = not combined && not (is_complete p.input_text) && ltb (now - started) w.max_wait in
    (wait, record w { pending = if wait then some (key, started) else none })

unfoldable pub defer : TranslationRequested → ℕ → PhraseWindow → Option (Bool × PhraseWindow)
unfolding decide
defer p now w = elim p.source_spans [ [] ↦ none | first ∷ others ↦ some (decide first p now w) ]

abbrev pub phrase_of : TranslationRequested → Option PhraseKey
phrase_of p = elim p.source_spans [ [] ↦ none | first ∷ others ↦ some (key_of first p) ]

-- A series of polls that are all told to wait.
abbrev pub Held : PhraseWindow → List (TranslationRequested × ℕ) → Type 0
Held w [] = Unit
Held w ((p, now) ∷ polls) =
    (next : PhraseWindow) × (defer p now w ≡ some (true, next)) × Held next polls
