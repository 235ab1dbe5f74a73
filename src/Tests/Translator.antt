-- ===== src/Tests/Translator.antt =====
-- The translator at concrete inputs.
use forum_agent.Shared.{
  ◌+◌, ◌≡◌, ◌↔◌, ◌<◌, ◌⊎◌, refl, true, false, List, [], ◌∷◌, ◌++◌, some, none, ok, All, ℕ,
}
use forum_agent.Text.{codes, is_whitespace, trim, trim_start, trim_end, strip_prefix, text_eq}
use forum_agent.Contracts.Transcript.{SourceSpan}
use forum_agent.Contracts.Translation.{TranslationRequested}
use forum_agent.Translator.TranscriptBuffer.{
  new_buffer, seal_active_burst, rebuild_views, take_chunk, update_from_chunk,
  consume_stable_prefix,
}
use forum_agent.Translator.TranscriptBuffer.Spoken.{
  Step, hear, seal, consume, steps, spoken, steps-spoken,
}
use forum_agent.Translator.GenerationControl.{finish, new_control, finish_iff}
use forum_agent.Translator.PhraseWindow.Waits.{Held-bounded}
use forum_agent.Translator.RecoveryBudget.{
  RecoveryBudget, Disk, written, lost, Call, calls, ceiling_of, grant,
}
use forum_agent.Translator.RecoveryBudget.Allowances.{ceiling_of-calls}
use forum_agent.Translator.PhraseWindow.{
  default_window, defer, decide, is_complete, has_end, count_words, count_han, started_at,
  same_phrase, key_of, Held,
}

abbrev two_bursts : List Step
two_bursts =
    hear (some 1) (codes "Hel")
    ∷ hear (some 1) (codes "Hello.")
    ∷ hear (some 2) (codes "We")
    ∷ consume (codes "Hello.")
    ∷ hear (some 2) (codes "Well.")
    ∷ seal
    ∷ []

both_spoken : spoken two_bursts ≡ codes "Hello.Well."
both_spoken = refl

both_kept :
    ((steps two_bursts ([], new_buffer)).0 ≡ codes "Hello.")
    × ((steps two_bursts ([], new_buffer)).1.stable_buffer ≡ codes "Well.")
unfolding new_buffer seal_active_burst rebuild_views take_chunk update_from_chunk
    consume_stable_prefix strip_prefix
both_kept = (refl, refl)

steps-spoken_example :
    (steps two_bursts ([], new_buffer)).0 ++ (steps two_bursts ([], new_buffer)).1.buffer
    ≡ spoken two_bursts
steps-spoken_example = steps-spoken two_bursts

finish_iff_example :
    (finish (new_control 2000 true 10) false true 500 ≡ ok tt)
    ↔ ((false ≡ false) × (500 < 10 + 2000) × ((true ≡ false) ⊎ (true ≡ true)))
finish_iff_example = finish_iff 2000 10 500 true false true

abbrev short_cut : SourceSpan
short_cut = record {
  segment_id = 7;
  segment_revision = 1;
  start_utf8 = 0;
  end_utf8 = 6;
  quote = codes "in or";
}

abbrev ask_phrase : TranslationRequested
ask_phrase = record {
  translation_id = 9;
  revision = 1;
  attempt = 1;
  target_language = codes "zh";
  direction_epoch = 1;
  source_spans = short_cut ∷ [];
  context_spans = [];
  input_text = codes "in or";
  normalization_version = codes "identity-v1";
  backend = codes "qwen";
  model_manifest_id = codes "m1";
}

Held-twice : Held default_window ((ask_phrase, 100) ∷ (ask_phrase, 3000) ∷ [])
unfolding default_window defer decide is_complete has_end count_words count_han started_at
    same_phrase is_whitespace trim trim_start trim_end text_eq
Held-twice = (
  record { pending = some (key_of short_cut ask_phrase, 100); max_wait = 3500 },
  refl,
  (record { pending = some (key_of short_cut ask_phrase, 100); max_wait = 3500 }, refl, tt),
)

nothing_pending : default_window.pending ≡ none
unfolding default_window
nothing_pending = refl

Held-bounded_example :
    All {A = TranslationRequested × ℕ}
      (λ x. x.1 < 100 + default_window.max_wait)
      ((ask_phrase, 3000) ∷ [])
Held-bounded_example =
    Held-bounded (key_of short_cut ask_phrase) ask_phrase 100 ((ask_phrase, 3000) ∷ [])
      default_window nothing_pending (refl, (refl, tt)) Held-twice

abbrev recovering : RecoveryBudget
recovering = record { session_id = 3; action_id = some 40 }

abbrev healthy : Disk
healthy = record { tested = true; readable = true; outcome = written }

-- The same action after a restart, at a later attempt, and another one.
abbrev restarted : List Call
restarted =
    record { budget = recovering; translation = 9; attempt = 6; disk = healthy }
    ∷ record {
      budget = record { session_id = 3; action_id = some 41 };
      translation = 9;
      attempt = 6;
      disk = record { tested = true; readable = false; outcome = lost };
    }
    ∷ []

first_told : (ceiling_of recovering 9 3 healthy []).0 ≡ ok 6
unfolding ceiling_of grant
first_told = refl

ceiling_of-calls_example :
    ceiling_of recovering 9 6 healthy (calls restarted (ceiling_of recovering 9 3 healthy []).1)
    ≡ (ok 6, calls restarted (ceiling_of recovering 9 3 healthy []).1)
ceiling_of-calls_example =
    ceiling_of-calls recovering 40 9 3 6 6 healthy healthy [] restarted refl first_told
