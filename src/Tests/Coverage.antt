-- ===== src/Tests/Coverage.antt =====
-- A request that takes the middle of a text.
use forum_agent.Shared.{◌≡◌, refl, List, [], ◌∷◌, ok, err, false, true, arith, ◌↔◌}
use forum_agent.Text.{codes, text_eq}
use forum_agent.Contracts.Transcript.{SourceSpan}
use forum_agent.Contracts.Translation.{TranslationRequested}
use forum_agent.Core.{coverage_conflict}
use forum_agent.Core.Coverage.{piece, of_text, coverage_piece, claim_row, claim_rows, claim_span}
use forum_agent.Core.Tables.Translations.{CoverageRow}
use forum_agent.Core.Coverage.Owners.{Tiles}
use forum_agent.Core.Coverage.Spans.{IsGiven, claim_span-IsGiven}
use forum_agent.Core.Coverage.Complete.{Free, claim_span_iff}

abbrev middle : SourceSpan
middle = record {
  segment_id = 7;
  segment_revision = 1;
  start_utf8 = 2;
  end_utf8 = 6;
  quote = codes "gend";
}

abbrev ask_middle : TranslationRequested
ask_middle = record {
  translation_id = 9;
  revision = 1;
  attempt = 1;
  target_language = codes "en";
  direction_epoch = 1;
  source_spans = middle ∷ [];
  context_spans = [];
  input_text = codes "gend";
  normalization_version = codes "identity-v1";
  backend = codes "qwen";
  model_manifest_id = codes "m1";
}

abbrev whole : List CoverageRow
whole = piece middle ask_middle 0 10 false ∷ []

abbrev parts : List CoverageRow
parts =
    piece middle ask_middle 6 10 false
    ∷ piece middle ask_middle 2 6 true
    ∷ piece middle ask_middle 0 2 false
    ∷ []

middle_claimed : claim_span middle ask_middle whole ≡ ok parts
unfolding claim_span claim_rows claim_row coverage_piece of_text text_eq
middle_claimed = refl

claimed_once : claim_span middle ask_middle parts ≡ err coverage_conflict
unfolding claim_span claim_rows claim_row coverage_piece of_text text_eq
claimed_once = refl

whole-Tiles : Tiles middle ask_middle whole
whole-Tiles = (record { ordered = omega arith; free = λ e. refl }, tt, tt)

claim_span-IsGiven_example : IsGiven middle ask_middle 2 6 whole parts
claim_span-IsGiven_example =
    claim_span-IsGiven middle ask_middle whole parts (omega arith) whole-Tiles middle_claimed

claim_span_iff_example :
    ((out : List CoverageRow) × (claim_span middle ask_middle whole ≡ ok out))
    ↔ Free middle ask_middle 2 whole
claim_span_iff_example = claim_span_iff middle ask_middle whole (omega arith) whole-Tiles
