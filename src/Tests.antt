-- ===== src/Tests.antt =====
-- Runs of the models at concrete inputs, and the theorems at inputs that meet their hypotheses.
mod Gate
mod Contract
mod Store
mod Texts
mod Outbox
mod Attributed
mod Plan
mod Again
mod Coverage
mod Translator
