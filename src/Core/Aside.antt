-- ===== src/Core/Aside.antt =====
-- What the operations on texts, translations and artifacts leave alone: the log, the outbox, the
-- sessions, the sealed runs, and of the segments all but their current revision.
pub mod Texts
pub mod Translations
use forum_agent.Shared.{
  ℕ, ◌≡◌, refl, List, [], ◌∷◌, map, ok, ap, ◌∙◌, arith, true, ◌==◌, none, some,
}
use forum_agent.Contracts.{Uuid, Revision}
use forum_agent.Core.Tables.{SegmentRow, Store, ProducerSealRow, ReconciliationRow, update_where}
use forum_agent.Core.Ingest.Log.{Keeps}

-- A segment as it was captured.
abbrev pub as_captured : SegmentRow → SegmentRow
as_captured s = record s { current_revision = none }

pub record Aside (a b : Store) : Type 0 where
  pub log : b.ingested ≡ a.ingested
  pub queue : b.outbox ≡ a.outbox
  pub counter : b.last_seq ≡ a.last_seq
  pub sessions : b.sessions ≡ a.sessions
  pub seals : b.producer_seals ≡ a.producer_seals
  pub recovered : b.producer_reconciliations ≡ a.producer_reconciliations
  pub segments : map as_captured b.segments ≡ map as_captured a.segments

pub Aside-refl : (a : Store) → Aside a a
Aside-refl a = record {
  log = refl;
  queue = refl;
  counter = refl;
  sessions = refl;
  seals = refl;
  recovered = refl;
  segments = refl;
}

pub Aside-trans : {a b c : Store} → Aside a b → Aside b c → Aside a c
Aside-trans p q = record {
  log = q.log ∙ p.log;
  queue = q.queue ∙ p.queue;
  counter = q.counter ∙ p.counter;
  sessions = q.sessions ∙ p.sessions;
  seals = q.seals ∙ p.seals;
  recovered = q.recovered ∙ p.recovered;
  segments = q.segments ∙ p.segments;
}

pub Aside-Keeps : {a b : Store} → Aside a b → Keeps a b
Aside-Keeps p = record {
  log = p.log;
  queue = p.queue;
  counter = p.counter;
  specs = ap (map (λ r. r.spec)) p.sessions;
  closed = λ run h. rw (p.seals, p.recovered) h;
}

-- As `Aside`, for an operation that writes no text.
pub record Quiet (a b : Store) : Type 0 where
  pub log : b.ingested ≡ a.ingested
  pub queue : b.outbox ≡ a.outbox
  pub counter : b.last_seq ≡ a.last_seq
  pub sessions : b.sessions ≡ a.sessions
  pub seals : b.producer_seals ≡ a.producer_seals
  pub recovered : b.producer_reconciliations ≡ a.producer_reconciliations
  pub segments : b.segments ≡ a.segments
  pub texts : b.segment_revisions ≡ a.segment_revisions

pub Quiet-refl : (a : Store) → Quiet a a
Quiet-refl a = record {
  log = refl;
  queue = refl;
  counter = refl;
  sessions = refl;
  seals = refl;
  recovered = refl;
  segments = refl;
  texts = refl;
}

pub Quiet-trans : {a b c : Store} → Quiet a b → Quiet b c → Quiet a c
Quiet-trans p q = record {
  log = q.log ∙ p.log;
  queue = q.queue ∙ p.queue;
  counter = q.counter ∙ p.counter;
  sessions = q.sessions ∙ p.sessions;
  seals = q.seals ∙ p.seals;
  recovered = q.recovered ∙ p.recovered;
  segments = q.segments ∙ p.segments;
  texts = q.texts ∙ p.texts;
}

pub Quiet-Aside : {a b : Store} → Quiet a b → Aside a b
Quiet-Aside p = record {
  log = p.log;
  queue = p.queue;
  counter = p.counter;
  sessions = p.sessions;
  seals = p.seals;
  recovered = p.recovered;
  segments = ap (map as_captured) p.segments;
}

-- The segments of an updated table.
pub update_where-as_captured :
    (id : Uuid) (n : Revision) (rows : List SegmentRow)
    → map as_captured
        (update_where (λ s. s.id == id) (λ s. record s { current_revision = some n }) rows)
      ≡ map as_captured rows
update_where-as_captured id n [] = refl
update_where-as_captured id n (s ∷ rows) = ground (arith, update_where-as_captured id n rows)
