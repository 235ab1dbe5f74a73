-- ===== src/Tests/Plan.antt =====
-- A plan of requests for two sources, one of which comes twice.
use forum_agent.Shared.{
  ℕ, Bool, ◌==◌, ◌&&◌, ◌≡◌, ◌+◌, ◌*◌, ◌<◌, refl, none, some, List, [], ◌∷◌, ok, arith, length,
  Result,
}
use forum_agent.Text.{
  Text, codes, utf8_len, utf8_width, is_blank, is_whitespace, trim, trim_start, trim_end,
  skip_bytes, take_bytes, get_range, text_eq, join,
}
use forum_agent.Contracts.{Uuid, non_nil, non_blank}
use forum_agent.Contracts.Transcript.{SourceSpan}
use forum_agent.Contracts.Translation.{
  TranslationRequested, validate_request, check_spans, separator,
}
use forum_agent.Translator.AttributedBuffer.{
  append_span, chunk_end, cut_chunk, cut_piece, cut_pieces, past_blanks, slice, snapshot,
  split_at_utf8, take_attributed, within_budget,
}
use forum_agent.Translator.RequestPlan.{
  Language, Models, PlanError, TranslationWork, canonical_language, drain, drain_all, extend,
  group_all, group_one, has_han, in_last, is_passthrough, joins, plan_requests, request_of,
  same_coverage, Language-discrete,
}
use forum_agent.Translator.AttributedBuffer.Covers.{SourceByte}
use forum_agent.Translator.RequestPlan.Groups.{count, distinct, work_bytes}
use forum_agent.Translator.RequestPlan.Planned.{plan_requests-count, request_bytes}
use forum_agent.Translator.RequestPlan.Ends.{plan_requests_ends}
use forum_agent.Tests.Attributed.{characters, first, second}

abbrev models : Models
models = record { model_backend = codes "hy-mt2-mlx"; model_manifest = codes "m1" }

abbrev fresh : ℕ → ℕ → Uuid
fresh i j = 100 + 10 * i + j

abbrev spoken : ℕ → ℕ → SourceSpan → TranslationWork
spoken start end span = record {
  track_id = 2;
  audio = record {
    start_sample = 16 * start;
    end_sample = 16 * end;
    sample_rate = 16000;
    start_ms = start;
    end_ms = end;
  };
  source_span = span;
  configured_source_language = codes "English ";
  detected_language = none;
  target_language = codes "ja";
  direction_epoch = 1;
}

abbrev work : List TranslationWork
work = spoken 0 800 first ∷ spoken 900 1500 second ∷ spoken 0 800 first ∷ []

abbrev request : ℕ → SourceSpan → Text → TranslationRequested
request id span text = record {
  translation_id = id;
  revision = 1;
  attempt = 1;
  target_language = codes "ja";
  direction_epoch = 1;
  source_spans = span ∷ [];
  context_spans = [];
  input_text = text;
  normalization_version = codes "join-space-v1";
  backend = codes "hy-mt2-mlx";
  model_manifest_id = codes "m1";
}

abbrev requests : List TranslationRequested
requests =
    request 100 (record first { end_utf8 = 8; quote = codes "Yes. " }) (codes "Yes. ")
    ∷ request 101 (record first { start_utf8 = 8; quote = codes "It is" }) (codes "It is")
    ∷ request 102 second (codes "中文")
    ∷ []

english : canonical_language (codes " EN-us") ≡ some Language.en
unfolding canonical_language trim trim_start trim_end is_whitespace text_eq
english = refl

planned : plan_requests characters fresh models 6 40 work ≡ some (ok requests)
unfolding plan_requests drain_all drain group_all group_one in_last joins extend same_coverage
    is_passthrough canonical_language has_han Language-discrete request_of validate_request
    check_spans separator append_span take_attributed chunk_end cut_chunk split_at_utf8 slice
    cut_pieces cut_piece snapshot within_budget past_blanks is_blank is_whitespace trim trim_start
    trim_end utf8_len utf8_width skip_bytes take_bytes get_range text_eq join non_nil non_blank
planned = refl

-- How often byte 5 of the first source is quoted.
abbrev fifth : SourceByte → Bool
fifth b = b.segment_id == 4 && b.offset == 5

plan_requests-count_example :
    count fifth (request_bytes requests) ≡ count fifth (work_bytes (distinct [] work))
plan_requests-count_example =
    plan_requests-count characters fresh models 6 fifth 40 work requests planned

few_bytes : length (work_bytes work) < 40
few_bytes = omega arith

plan_requests_ends_example :
    (r : Result PlanError (List TranslationRequested)) × (plan_requests characters fresh models 6 40
        work
      ≡ some r)
plan_requests_ends_example = plan_requests_ends characters fresh models 6 40 work few_bytes
