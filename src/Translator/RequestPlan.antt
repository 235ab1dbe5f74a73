-- ===== src/Translator/RequestPlan.antt =====
-- Translation requests for the text that has none: `plan_requests` with `is_passthrough`,
-- desktop/node-hub/dora-qwen35-translator/src/durable_queue.rs. The identifiers of the requests and
-- the graphemes of a text are parameters; an identifier is by the group and the chunk in it.
pub mod Groups
pub mod Planned
pub mod Ends
use forum_agent.Shared.{
  ℕ, zero, suc, ◌+◌, ◌-◌, min, ltb, leb, Bool, true, false, ◌&&◌, ◌||◌, not, ◌==◌, Option, none,
  some, List, [], ◌∷◌, ◌++◌, map, Result, ok, err, ensure, map_err, any, find, is_some,
  if◌then◌else◌, ◌>>=◌, ◌>>◌,
}
use forum_agent.Text.{Text, codes, text_eq, trim}
use forum_agent.Contracts.{Uuid, ValidationError, u64_mod, first_revision}
use forum_agent.Contracts.Session.{AudioRange}
use forum_agent.Contracts.Transcript.{SourceSpan}
use forum_agent.Contracts.Translation.{TranslationRequested, validate_request}
use forum_agent.Translator.AttributedBuffer.{
  AttributedBuffer, AttributedText, BufferError, JoinMode, new_attributed, append_span,
  take_attributed,
}

pub data PlanError : Type 0 where
  unsupported_target invalid_epoch conflicting_duplicate : PlanError
  buffer_error : BufferError → PlanError
  invalid_request : ValidationError → PlanError

pub record TranslationWork : Type 0 where
  pub track_id : Uuid
  pub audio : AudioRange
  pub source_span : SourceSpan
  pub configured_source_language : Text
  pub detected_language : Option Text
  pub target_language : Text
  pub direction_epoch : ℕ

pub data Language : Type 0 where
  zh en ja ko fr de es ru : Language

unfoldable pub Language-discrete : Discrete Language
Language-discrete = hlevel

-- `char::to_lowercase`, of the characters that become letters of ASCII alone.
abbrev pub lower : ℕ → ℕ
lower c = if leb 65 c && leb c 90 then c + 32 else if c == 0x212a then 107 else c

abbrev one_of : Text → List Text → Bool
one_of t names = any (λ n. text_eq n t) names

abbrev pub language_of : Text → Option Language
language_of t =
    if one_of t (codes "zh" ∷ codes "zh-cn" ∷ codes "chinese" ∷ [])
    then some zh
    else if one_of t (codes "en" ∷ codes "en-us" ∷ codes "english" ∷ [])
    then some en
    else if one_of t (codes "ja" ∷ codes "japanese" ∷ [])
    then some ja
    else if one_of t (codes "ko" ∷ codes "korean" ∷ [])
    then some ko
    else if one_of t (codes "fr" ∷ codes "french" ∷ [])
    then some fr
    else if one_of t (codes "de" ∷ codes "german" ∷ [])
    then some de
    else if one_of t (codes "es" ∷ codes "spanish" ∷ [])
    then some es
    else if one_of t (codes "ru" ∷ codes "russian" ∷ [])
    then some ru
    else none

unfoldable pub canonical_language : Text → Option Language
unfolding trim text_eq
canonical_language value = language_of (map lower (trim value))

unfoldable pub has_han : Text → Bool
has_han t =
    any
      (λ c.
        leb 0x3400 c && leb c 0x4dbf
        || leb 0x4e00 c && leb c 0x9fff
        || leb 0x20000 c && leb c 0x323af)
      t

abbrev pub is_ascii_alphabetic : ℕ → Bool
is_ascii_alphabetic c = leb 65 c && leb c 90 || leb 97 c && leb c 122

abbrev pub same_language : Language → Language → Bool
same_language a b = elim (Language-discrete a b) [ yes e ↦ true | no ne ↦ false ]

-- The script of a text that is in its target language already.
abbrev pub fits_script : Text → Language → Bool
fits_script quote zh = not (any is_ascii_alphabetic quote)
fits_script quote en = not (has_han quote)
fits_script quote language = false

abbrev pub passes : Text → Option Language → Option Language → Bool
passes quote none target = false
passes quote (some source) none = false
passes quote (some source) (some target) =
    if same_language source target then fits_script quote target else false

abbrev pub or_configured : TranslationWork → Option Text → Text
or_configured w none = w.configured_source_language
or_configured w (some detected) = detected

unfoldable pub is_passthrough : TranslationWork → Bool
unfolding canonical_language has_han Language-discrete
is_passthrough w =
    passes w.source_span.quote (canonical_language (or_configured w w.detected_language))
      (canonical_language w.target_language)

pub record Group : Type 0 where
  pub target : Text
  pub epoch : ℕ
  pub passthrough : Bool
  pub track : Uuid
  pub last_start : ℕ
  pub last_end : ℕ
  pub buffer : AttributedBuffer

abbrev pub same_bool : Bool → Bool → Bool
same_bool true b = b
same_bool false b = not b

-- With `saturating_add(1500)`.
unfoldable pub joins : TranslationWork → Group → Bool
unfolding is_passthrough text_eq
joins w g =
    text_eq g.target w.target_language
    && g.epoch == w.direction_epoch
    && same_bool g.passthrough (is_passthrough w)
    && g.track == w.track_id
    && leb g.last_start w.audio.start_ms
    && leb w.audio.start_ms (min (g.last_end + 1500) (u64_mod - 1))

unfoldable pub extend : TranslationWork → Group → Result PlanError Group
unfolding append_span
extend w g = do
  b ← map_err buffer_error (append_span w.source_span g.buffer)
  ok (record g { last_start = w.audio.start_ms; last_end = w.audio.end_ms; buffer = b })

abbrev pub new_group : TranslationWork → Group
new_group w = record {
  target = w.target_language;
  epoch = w.direction_epoch;
  passthrough = is_passthrough w;
  track = w.track_id;
  last_start = w.audio.start_ms;
  last_end = w.audio.end_ms;
  buffer = new_attributed JoinMode.space;
}

abbrev before_group : Group → Result PlanError (List Group) → Result PlanError (List Group)
before_group g rest = do groups ← rest; ok (g ∷ groups)

abbrev pub or_here :
    TranslationWork
    → Group
    → List Group
    → Option (Result PlanError (List Group))
    → Option (Result PlanError (List Group))
or_here w g gs (some later) = some (before_group g later)
or_here w g gs none = if joins w g then some (do h ← extend w g; ok (h ∷ gs)) else none

-- In the last group that fits (`rposition`), if there is one.
unfoldable pub in_last : TranslationWork → List Group → Option (Result PlanError (List Group))
unfolding joins extend
in_last w [] = none
in_last w (g ∷ gs) = or_here w g gs (in_last w gs)

abbrev pub or_new :
    TranslationWork
    → List Group
    → Option (Result PlanError (List Group))
    → Result PlanError (List Group)
or_new w groups (some r) = r
or_new w groups none = do g ← extend w (new_group w); ok (groups ++ (g ∷ []))

-- One key of the map `seen`.
unfoldable pub same_coverage : TranslationWork → TranslationWork → Bool
unfolding text_eq
same_coverage v w =
    v.source_span.segment_id == w.source_span.segment_id
    && v.source_span.segment_revision == w.source_span.segment_revision
    && v.source_span.start_utf8 == w.source_span.start_utf8
    && v.source_span.end_utf8 == w.source_span.end_utf8
    && text_eq v.target_language w.target_language
    && v.direction_epoch == w.direction_epoch

-- The groups with the work that was seen.
pub record Grouped : Type 0 where
  pub seen : List TranslationWork
  pub groups : List Group

abbrev pub add_unseen :
    TranslationWork → Grouped → Option TranslationWork → Result PlanError Grouped
add_unseen w s (some v) = do
  ensure (text_eq v.source_span.quote w.source_span.quote) conflicting_duplicate
  ok s
add_unseen w s none = do
  groups ← or_new w s.groups (in_last w s.groups)
  ok (record { seen = w ∷ s.seen; groups = groups })

-- The body of the loop over the work.
unfoldable pub group_one : TranslationWork → Grouped → Result PlanError Grouped
unfolding canonical_language in_last same_coverage
group_one w s = do
  ensure (is_some (canonical_language w.target_language)) unsupported_target
  ensure (ltb 0 w.direction_epoch) invalid_epoch
  add_unseen w s (find (λ v. same_coverage v w) s.seen)

unfoldable pub group_all : List TranslationWork → Grouped → Result PlanError Grouped
unfolding group_one
group_all [] s = ok s
group_all (w ∷ work) s = do t ← group_one w s; group_all work t

-- The backend and the model of a request.
pub record Models : Type 0 where
  pub model_backend : Text
  pub model_manifest : Text

module _ (graphemes : Text → List Text) (fresh : ℕ → ℕ → Uuid) (models : Models) (budget : ℕ) where
  unfoldable pub request_of : ℕ → ℕ → Group → AttributedText → TranslationRequested
  request_of i j g chunk = record {
    translation_id = fresh i j;
    revision = first_revision;
    attempt = 1;
    target_language = g.target;
    direction_epoch = g.epoch;
    source_spans = chunk.source_spans;
    context_spans = [];
    input_text = chunk.input_text;
    normalization_version = codes chunk.normalization_version;
    backend = if g.passthrough then codes "identity-passthrough" else models.model_backend;
    model_manifest_id = if g.passthrough then codes "identity-text-v1" else models.model_manifest;
  }

  abbrev pub after_request :
      TranslationRequested
      → Option (Result PlanError (List TranslationRequested))
      → Option (Result PlanError (List TranslationRequested))
  after_request r none = none
  after_request r (some rest) =
      some (do map_err invalid_request (validate_request r); requests ← rest; ok (r ∷ requests))

  -- The loop that takes the chunks of a group, with fuel; `none` where that is not enough.
  unfoldable pub drain : ℕ → ℕ → ℕ → Group → Option (Result PlanError (List TranslationRequested))
  unfolding take_attributed request_of validate_request
  drain zero i j g = none
  drain (suc fuel) i j g = elim (take_attributed graphemes budget g.buffer) [
    | err e ↦ some (err (buffer_error e))
    | ok r ↦ elim (r.0) [
      | none ↦ some (ok [])
      | some chunk ↦
          after_request (request_of i j g chunk) (drain fuel i (j + 1) (record g { buffer = r.1 }))
    ]
  ]

  abbrev pub both_lists :
      Option (Result PlanError (List TranslationRequested))
      → Option (Result PlanError (List TranslationRequested))
      → Option (Result PlanError (List TranslationRequested))
  both_lists (some a) (some b) = some (do first ← a; rest ← b; ok (first ++ rest))
  both_lists none b = none
  both_lists (some a) none = none

  -- Group `i` and those after it.
  unfoldable pub drain_all :
      ℕ → ℕ → List Group → Option (Result PlanError (List TranslationRequested))
  unfolding drain
  drain_all fuel i [] = some (ok [])
  drain_all fuel i (g ∷ gs) = both_lists (drain fuel i 0 g) (drain_all fuel (i + 1) gs)

  abbrev drain_grouped :
      ℕ → Result PlanError Grouped → Option (Result PlanError (List TranslationRequested))
  drain_grouped fuel (err e) = some (err e)
  drain_grouped fuel (ok s) = drain_all fuel 0 s.groups

  unfoldable pub plan_requests :
      ℕ → List TranslationWork → Option (Result PlanError (List TranslationRequested))
  unfolding group_all drain_all
  plan_requests fuel work = drain_grouped fuel (group_all work (record { seen = []; groups = [] }))
