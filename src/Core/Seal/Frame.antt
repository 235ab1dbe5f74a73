-- ===== src/Core/Seal/Frame.antt =====
-- What the operations that close a session went through when they succeeded, and what they leave
-- alone.
use forum_agent.Shared.{
  ℕ, ◌≡◌, refl, true, false, ◌&&◌, not, some, List, map, ok, ensure, any, find, keep, ◌==◌, is_some,
  for_each, >>=-inversion, >>-inversion, arith, sym, subst,
}
use forum_agent.Text.{Text, text_eq}
use forum_agent.Contracts.{Uuid}
use forum_agent.Contracts.Manifest.{CaptureStopped}
use forum_agent.Contracts.Session.{draining, completed}
use forum_agent.Core.{invalid_state, dependency_not_ready, seal_mismatch, scope_mismatch}
use forum_agent.Core.Tables.{
  SessionRow, SessionStatus, CaptureSealRow, ProducerSealRow, Store, insert_new, ProducerSeal,
  TranscriptSeal, greatest,
}
use forum_agent.Core.Ingest.Log.{Keeps, Keeps-trans, Work, insert_new_shape}
use forum_agent.Core.Session.{load_session_status, update_session, save_history}
use forum_agent.Core.Session.Frame.{update_session-Keeps, save_history-Keeps}
use forum_agent.Core.Seal.{
  refresh_integrity, same_set, check_seal, may_stop, may_seal, stop_work, is_final_of, segments_of,
  producer_work, capture_hash, is_open_run, seal_work,
}

pub refresh_integrity-Keeps : (id : Uuid) (st : Store) → Keeps st (refresh_integrity id st)
unfolding refresh_integrity
refresh_integrity-Keeps id st = update_session-Keeps id _ st (λ r. refl)

pub record Stopped (id : Uuid) (p : CaptureStopped) (seq : ℕ) (a b : Store) : Type 0 where
  pub status : SessionStatus
  pub found : load_session_status id a ≡ ok status
  pub running : status.capture_stopped ≡ false
  pub stoppable : may_stop status.state ≡ true
  pub tracks :
      same_set
        (map (λ t. t.track_id) (keep (λ t. t.session_id == id) a.tracks))
        (map (λ t. t.track_id) p.tracks)
      ≡ true
  pub segments : for_each (check_seal id a) p.tracks ≡ ok tt
  pub seals : List CaptureSealRow
  pub put :
      insert_new
        (λ c. c.session_id == id)
        (record {
          session_id = id;
          manifest_sha256 = p.manifest_sha256;
          payload = p;
          created_seq = seq;
        })
        a.capture_seals
      ≡ ok seals
  pub saved :
      save_history id seq (
        refresh_integrity id (
          update_session id
            (λ r. record r { state = draining; capture_stopped_seq = some seq })
            (record a { capture_seals = seals })))
      ≡ ok b

pub stop_work_cases :
    (id : Uuid) (p : CaptureStopped) (seq : ℕ) (a b : Store)
    → stop_work id p seq a ≡ ok b
    → Stopped id p seq a b
unfolding stop_work
stop_work_cases id p seq a b h =
    let (status, found, h1) = >>=-inversion (load_session_status id a) _ h in
    let (allowed, h2) =
      >>-inversion (ensure (not status.capture_stopped && may_stop status.state) invalid_state) _
        h1 in
    let (tracks, h3) =
      >>-inversion
        (ensure
          (same_set (map (λ t. t.track_id) (keep (λ t. t.session_id == id) a.tracks))
            (map (λ t. t.track_id) p.tracks))
          seal_mismatch)
        _ h2 in
    let (segments, h4) = >>-inversion (for_each (check_seal id a) p.tracks) _ h3 in
    let (seals, put, h5) =
      >>=-inversion
        (insert_new (λ c. c.session_id == id)
          (record {
            session_id = id;
            manifest_sha256 = p.manifest_sha256;
            payload = p;
            created_seq = seq;
          })
          a.capture_seals)
        _ h4 in
    record {
      status = status;
      found = found;
      running = ground arith;
      stoppable = ground arith;
      tracks = ground arith;
      segments = segments;
      seals = seals;
      put = put;
      saved = h5;
    }

pub record Produced (id : Uuid) (p : ProducerSeal) (seq : ℕ) (a b : Store) : Type 0 where
  pub last :
      greatest
          (λ r. r.producer_seq)
          (keep
            (λ r. r.producer_run_id == p.producer_run_id && not (r.store_seq == seq))
            a.ingested)
        == p.final_seq
      ≡ true
  pub actual : List Uuid
  pub found : segments_of (keep (is_final_of p.producer_run_id) a.ingested) ≡ ok actual
  pub segments : same_set p.segment_ids actual ≡ true
  pub seals : List ProducerSealRow
  pub put :
      insert_new
        (λ s. s.producer_run_id == p.producer_run_id)
        (record {
          producer_run_id = p.producer_run_id;
          session_id = id;
          final_seq = p.final_seq;
          payload = p;
          created_seq = seq;
        })
        a.producer_seals
      ≡ ok seals
  pub shape : b ≡ record a { producer_seals = seals }

pub producer_work_cases :
    (id : Uuid) (p : ProducerSeal) (seq : ℕ) (a b : Store)
    → producer_work id p seq a ≡ ok b
    → Produced id p seq a b
unfolding producer_work
producer_work_cases id p seq a b h =
    let (last, h1) =
      >>-inversion
        (ensure
          (greatest (λ r. r.producer_seq)
              (keep (λ r. r.producer_run_id == p.producer_run_id && not (r.store_seq == seq))
                a.ingested)
            == p.final_seq)
          dependency_not_ready)
        _ h in
    let (own, h2) =
      >>-inversion
        (ensure
          (not (
            any (λ r. r.producer_run_id == p.producer_run_id && not (r.session_id == id))
              a.ingested))
          scope_mismatch)
        _ h1 in
    let (actual, found, h3) =
      >>=-inversion (segments_of (keep (is_final_of p.producer_run_id) a.ingested)) _ h2 in
    let (segments, h4) = >>-inversion (ensure (same_set p.segment_ids actual) seal_mismatch) _ h3 in
    let (seals, put, h5) =
      >>=-inversion
        (insert_new (λ s. s.producer_run_id == p.producer_run_id)
          (record {
            producer_run_id = p.producer_run_id;
            session_id = id;
            final_seq = p.final_seq;
            payload = p;
            created_seq = seq;
          })
          a.producer_seals)
        (λ seals. ok (record a { producer_seals = seals })) h4 in
    let same : record a { producer_seals = seals } ≡ b = cc h5 in
    record {
      last = ground arith;
      actual = actual;
      found = found;
      segments = ground arith;
      seals = seals;
      put = put;
      shape = sym same;
    }

pub record Sealed (id : Uuid) (p : TranscriptSeal) (seq : ℕ) (a b : Store) : Type 0 where
  pub status : SessionStatus
  pub found : load_session_status id a ≡ ok status
  pub stopped : status.capture_stopped ≡ true
  pub unsealed : status.transcript_sealed ≡ false
  pub sealable : may_seal status.state ≡ true
  pub hash : Text
  pub seal : capture_hash (find (λ c. c.session_id == id) a.capture_seals) ≡ ok hash
  pub same_hash : text_eq hash p.capture_manifest_sha256 ≡ true
  pub transcribed :
      any (λ s. s.session_id == id && not (is_some s.current_revision)) a.segments ≡ false
  pub runs : any (λ r. r.session_id == id && is_open_run a r) a.ingested ≡ false
  pub saved :
      save_history id seq (
        refresh_integrity id
          (update_session id (λ r. record r { state = completed; sealed_seq = some seq }) a))
      ≡ ok b

pub seal_work_cases :
    (id : Uuid) (p : TranscriptSeal) (seq : ℕ) (a b : Store)
    → seal_work id p seq a ≡ ok b
    → Sealed id p seq a b
unfolding seal_work
seal_work_cases id p seq a b h =
    let (status, found, h1) = >>=-inversion (load_session_status id a) _ h in
    let (allowed, h2) =
      >>-inversion
        (ensure (status.capture_stopped && not status.transcript_sealed && may_seal status.state)
          invalid_state)
        _ h1 in
    let (hash, seal, h3) =
      >>=-inversion (capture_hash (find (λ c. c.session_id == id) a.capture_seals)) _ h2 in
    let (same, h4) =
      >>-inversion (ensure (text_eq hash p.capture_manifest_sha256) seal_mismatch) _ h3 in
    let (all_there, h5) =
      >>-inversion
        (ensure (not (any (λ s. s.session_id == id && not (is_some s.current_revision)) a.segments))
          dependency_not_ready)
        _ h4 in
    let (closed, h6) =
      >>-inversion
        (ensure (not (any (λ r. r.session_id == id && is_open_run a r) a.ingested))
          dependency_not_ready)
        _ h5 in
    record {
      status = status;
      found = found;
      stopped = ground arith;
      unsealed = ground arith;
      sealable = ground arith;
      hash = hash;
      seal = seal;
      same_hash = ground arith;
      transcribed = ground arith;
      runs = ground arith;
      saved = h6;
    }

pub stop_work-Work : (id : Uuid) (p : CaptureStopped) → Work (stop_work id p)
stop_work-Work id p seq a b h =
    let s = stop_work_cases id p seq a b h in
    let change : SessionRow → SessionRow =
      λ r. record r { state = draining; capture_stopped_seq = some seq } in
    let st1 : Store = record a { capture_seals = s.seals } in
    let first : Keeps a st1 = record {
      log = refl;
      queue = refl;
      counter = refl;
      specs = refl;
      closed = λ run h. h;
    } in
    Keeps-trans first (
      Keeps-trans (update_session-Keeps id change st1 (λ r. refl)) (
        Keeps-trans (refresh_integrity-Keeps id (update_session id change st1))
          (save_history-Keeps id seq _ b s.saved)))

pub producer_work-Work : (id : Uuid) (p : ProducerSeal) → Work (producer_work id p)
producer_work-Work id p seq a b h =
    let s = producer_work_cases id p seq a b h in
    let k : Keeps a (record a { producer_seals = s.seals }) = record {
      log = refl;
      queue = refl;
      counter = refl;
      specs = refl;
      closed =
          λ run k. let made = insert_new_shape _ _ a.producer_seals s.seals s.put in ground arith;
    } in
    subst (Keeps a) (sym s.shape) k

pub seal_work-Work : (id : Uuid) (p : TranscriptSeal) → Work (seal_work id p)
seal_work-Work id p seq a b h =
    let s = seal_work_cases id p seq a b h in
    let change : SessionRow → SessionRow =
      λ r. record r { state = completed; sealed_seq = some seq } in
    Keeps-trans (update_session-Keeps id change a (λ r. refl)) (
      Keeps-trans (refresh_integrity-Keeps id (update_session id change a))
        (save_history-Keeps id seq _ b s.saved))
