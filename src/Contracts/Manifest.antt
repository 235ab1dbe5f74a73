-- ===== src/Contracts/Manifest.antt =====
-- The capture manifest: desktop/crates/forum-contracts/src/reliable.rs. The digest of the sorted
-- tracks' JSON (the crates serde_json and sha2) is the parameter `digest`.
pub mod Order
pub mod Checks
use forum_agent.Shared.{
  ℕ, not, List, [], ◌∷◌, leb, ◌==◌, if◌then◌else◌, ok, ensure, any, ◌>>=◌, ◌>>◌,
}
use forum_agent.Text.{Text, text_eq, is_empty}
use forum_agent.Contracts.{Uuid, invalid, Checked, non_nil, sqlite_integer}

pub record TrackSeal : Type 0 where
  pub track_id : Uuid
  pub final_sample : ℕ
  pub segment_ids : List Uuid

abbrev pub insert_id : Uuid → List Uuid → List Uuid
insert_id a [] = a ∷ []
insert_id a (b ∷ l) = if leb a b then a ∷ b ∷ l else b ∷ insert_id a l

-- `track.segment_ids.sort()`.
unfoldable pub sort_ids : List Uuid → List Uuid
sort_ids [] = []
sort_ids (a ∷ l) = insert_id a (sort_ids l)

abbrev pub insert_track : TrackSeal → List TrackSeal → List TrackSeal
insert_track a [] = a ∷ []
insert_track a (b ∷ l) = if leb a.track_id b.track_id then a ∷ b ∷ l else b ∷ insert_track a l

-- `sorted.sort_by_key(|t| t.track_id)`.
unfoldable pub sort_tracks : List TrackSeal → List TrackSeal
sort_tracks [] = []
sort_tracks (a ∷ l) = insert_track a (sort_tracks l)

-- The identifiers behind the first, each compared with the one before it.
unfoldable pub check_following : Uuid → List Uuid → Checked (Unit {0})
unfolding non_nil
check_following previous [] = ok tt
check_following previous (id ∷ ids) =
    let rest = check_following id ids in
    (do non_nil id "segment_id"; ensure (not (previous == id)) (invalid "duplicate_segment"); rest)

unfoldable pub check_ids : List Uuid → Checked (Unit {0})
unfolding check_following non_nil
check_ids [] = ok tt
check_ids (id ∷ ids) = do non_nil id "segment_id"; check_following id ids

abbrev pub tidy : TrackSeal → TrackSeal
tidy t = record t { segment_ids = sort_ids t.segment_ids }

-- The loop over the tracks; `seen` is the set of track identifiers met so far.
unfoldable pub check_tracks : List Uuid → List TrackSeal → Checked (List TrackSeal)
unfolding non_nil sqlite_integer
check_tracks seen [] = ok []
check_tracks seen (t ∷ ts) =
    let rest = check_tracks (t.track_id ∷ seen) ts in
    (do
      non_nil t.track_id "track_id"
      sqlite_integer t.final_sample "final_sample"
      ensure (not (any (λ id. t.track_id == id) seen)) (invalid "duplicate_track")
      check_ids (sort_ids t.segment_ids)
      sorted ← rest
      ok (tidy t ∷ sorted))

pub record CaptureStopped : Type 0 where
  pub tracks : List TrackSeal
  pub manifest_sha256 : Text

module _ (digest : List TrackSeal → Text) where
  unfoldable pub capture_manifest_sha256 : List TrackSeal → Checked Text
  capture_manifest_sha256 tracks = do
    sorted ← check_tracks [] tracks
    ok (digest (sort_tracks sorted))

  unfoldable pub validate_stopped : CaptureStopped → Checked (Unit {0})
  unfolding capture_manifest_sha256
  validate_stopped c = do
    ensure (not (is_empty c.tracks)) (invalid "capture_manifest")
    hash ← capture_manifest_sha256 c.tracks
    ensure (text_eq hash c.manifest_sha256) (invalid "capture_manifest")
