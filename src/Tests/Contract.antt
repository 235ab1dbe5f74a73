-- ===== src/Tests/Contract.antt =====
-- The contract of desktop/crates/forum-contracts at concrete inputs.
use forum_agent.Shared.{◌≡◌, refl, ◌↔◌, List, [], ◌∷◌, ok, err}
use forum_agent.Text.{Text, codes, text_eq, is_blank, get_range, utf8_len, utf8_width, join}
use forum_agent.Contracts.{invalid}
use forum_agent.Contracts.Transcript.{SourceSpan, validate_against}
use forum_agent.Contracts.Transcript.Spans.{Quotes, validate_against_iff}
use forum_agent.Contracts.Translation.{
  TranslationRequested, validate_request, separator, check_spans,
}
use forum_agent.Contracts.Translation.Checks.{IsRequest, validate_request_iff}
use forum_agent.Contracts.Manifest.{
  TrackSeal, capture_manifest_sha256, check_tracks, sort_tracks, sort_ids, check_ids,
}
use forum_agent.Contracts.Manifest.Order.{exchange_tracks}
use forum_agent.Contracts.Manifest.Checks.{manifest_order}

abbrev phrase : Text
phrase = codes "议程 agenda"

abbrev agenda : SourceSpan
agenda = record {
  segment_id = 7;
  segment_revision = 1;
  start_utf8 = 7;
  end_utf8 = 13;
  quote = codes "agenda";
}

agenda_quoted : validate_against agenda phrase ≡ ok (codes "agenda")
unfolding validate_against get_range text_eq utf8_width
agenda_quoted = refl

validate_against_iff_example :
    (validate_against agenda phrase ≡ ok (codes "agenda"))
    ↔ (Quotes agenda phrase × (codes "agenda" ≡ agenda.quote))
validate_against_iff_example = validate_against_iff agenda phrase (codes "agenda")

abbrev ask_translation : TranslationRequested
ask_translation = record {
  translation_id = 9;
  revision = 1;
  attempt = 1;
  target_language = codes "en";
  direction_epoch = 1;
  source_spans = agenda ∷ [];
  context_spans = [];
  input_text = codes "agenda";
  normalization_version = codes "identity-v1";
  backend = codes "qwen";
  model_manifest_id = codes "m1";
}

request_accepted : validate_request ask_translation ≡ ok tt
unfolding validate_request separator check_spans text_eq is_blank join utf8_len utf8_width
request_accepted = refl

overlap_refused :
    validate_request (record ask_translation { context_spans = agenda ∷ [] })
    ≡ err (invalid "overlapping_sources")
unfolding validate_request separator check_spans text_eq is_blank join utf8_len utf8_width
overlap_refused = refl

validate_request_iff_example :
    (validate_request ask_translation ≡ ok tt) ↔ IsRequest ask_translation
validate_request_iff_example = validate_request_iff ask_translation

abbrev mic_seal : TrackSeal
mic_seal = record { track_id = 5; final_sample = 16000; segment_ids = 3 ∷ 2 ∷ [] }

abbrev system_seal : TrackSeal
system_seal = record { track_id = 4; final_sample = 16000; segment_ids = 6 ∷ [] }

-- A digest that tells two manifests apart by their first track.
abbrev first_id : List TrackSeal → Text
first_id [] = []
first_id (t ∷ ts) = t.track_id ∷ t.segment_ids

sealed : capture_manifest_sha256 first_id (mic_seal ∷ system_seal ∷ []) ≡ ok (4 ∷ 6 ∷ [])
unfolding capture_manifest_sha256 check_tracks sort_tracks sort_ids check_ids
sealed = refl

manifest_order_example :
    capture_manifest_sha256 first_id (system_seal ∷ mic_seal ∷ []) ≡ ok (4 ∷ 6 ∷ [])
manifest_order_example =
    manifest_order first_id {hash = 4 ∷ 6 ∷ []} (exchange_tracks mic_seal system_seal []) sealed
