-- ===== src/Translator.antt =====
-- The translator node, desktop/node-hub/dora-qwen35-translator/src: the parts that keep text or
-- bound a generation.
pub mod TranscriptBuffer
pub mod GenerationControl
pub mod PhraseWindow
pub mod RecoveryBudget
pub mod AttributedBuffer
pub mod RequestPlan
