-- ===== src/Contracts/Manifest/Checks.antt =====
-- When a capture manifest is accepted, and that its digest does not depend on any order.
use forum_agent.Shared.{
  ◌≤◌, ◌≡◌, refl, ◌≢◌, ◌↔◌, false, List, [], ◌∷◌, map, arith, ◌∙◌, ap, sym, ◌==◌, inl, inr, any,
  All, ok, All-zip, All-unzip, Result-cases, >>=-inversion,
}
use forum_agent.Text.{Text}
use forum_agent.Contracts.{Uuid, max_safe_integer}
use forum_agent.Contracts.Manifest.{
  TrackSeal, sort_ids, sort_tracks, tidy, check_ids, check_tracks, capture_manifest_sha256,
}
use forum_agent.Contracts.Manifest.Order.{
  SameSeals, no_track, track, exchange_tracks, chain_tracks, Distinct, Distinct-SameSeals,
  sort_ids-SameIds, sort_tracks-SameSeals,
}

pub record IsSeal (t : TrackSeal) : Type 0 where
  pub named : t.track_id ≢ 0
  pub stored : t.final_sample ≤ max_safe_integer
  pub listed : check_ids (sort_ids t.segment_ids) ≡ ok tt

abbrev New : List Uuid → TrackSeal → Type 0
New seen t = All (λ id. t.track_id ≢ id) seen

New-iff :
    (t : TrackSeal) (seen : List Uuid) → (any (λ id. t.track_id == id) seen ≡ false) ↔ New seen t
New-iff t [] = (λ h. tt, λ h. refl)
New-iff t (id ∷ seen) = ground (arith, New-iff t seen)

check_one :
    (seen : List Uuid) (t : TrackSeal) (ts : List TrackSeal) (sorted : List TrackSeal)
    → IsSeal t
    → (any (λ id. t.track_id == id) seen ≡ false)
    → check_tracks (t.track_id ∷ seen) ts ≡ ok sorted
    → check_tracks seen (t ∷ ts) ≡ ok (tidy t ∷ sorted)
unfolding check_tracks
check_one seen t ts sorted g n h = ground (arith, g.listed, g.named, g.stored)

check_one_inv :
    (seen : List Uuid) (t : TrackSeal) (ts : List TrackSeal) {out : List TrackSeal}
    → check_tracks seen (t ∷ ts) ≡ ok out
    → (sorted : List TrackSeal) × (check_tracks (t.track_id ∷ seen) ts ≡ ok sorted)
      × IsSeal t
      × (any (λ id. t.track_id == id) seen ≡ false)
      × (out ≡ tidy t ∷ sorted)
unfolding check_tracks
check_one_inv seen t ts {out} h = elim (Result-cases (check_tracks (t.track_id ∷ seen) ts)) [
  | inr (e, refused) ↦ absurd (ground arith)
  | inl (sorted, rest) ↦ (sorted, rest, ground arith, ground arith, ground arith)
]

symmetric :
    (t : TrackSeal) (ts : List TrackSeal)
    → All (λ u. u.track_id ≢ t.track_id) ts
    → All (λ u. t.track_id ≢ u.track_id) ts
symmetric t [] h = tt
symmetric t (u ∷ ts) h = (λ e. h.0 (sym e), symmetric t ts h.1)

symmetric' :
    (t : TrackSeal) (ts : List TrackSeal)
    → All (λ u. t.track_id ≢ u.track_id) ts
    → All (λ u. u.track_id ≢ t.track_id) ts
symmetric' t [] h = tt
symmetric' t (u ∷ ts) h = (λ e. h.0 (sym e), symmetric' t ts h.1)

check_tracks_sound :
    (seen : List Uuid) (ts : List TrackSeal) {out : List TrackSeal}
    → check_tracks seen ts ≡ ok out
    → All IsSeal ts × All (New seen) ts × Distinct ts × (out ≡ map tidy ts)
unfolding check_tracks
check_tracks_sound seen [] {out} h = (tt, tt, tt, ground arith)
check_tracks_sound seen (t ∷ ts) {out} h =
    let (sorted, rest, good, fresh, shape) = check_one_inv seen t ts {out = out} h in
    let (goods, news, distinct, tail) =
      check_tracks_sound (t.track_id ∷ seen) ts {out = sorted} rest in
    let parts = All-unzip (λ u. u.track_id ≢ t.track_id) (New seen) ts news in
    (
      (good, goods),
      ((New-iff t seen).0 fresh, parts.1),
      (symmetric t ts parts.0, distinct),
      shape ∙ ap (◌∷◌ (tidy t)) tail,
    )

check_tracks_complete :
    (seen : List Uuid) (ts : List TrackSeal)
    → All IsSeal ts
    → All (New seen) ts
    → Distinct ts
    → check_tracks seen ts ≡ ok (map tidy ts)
check_tracks_complete seen [] g n d = unfold check_tracks in refl
check_tracks_complete seen (t ∷ ts) g n d =
    check_one seen t ts (map tidy ts) g.0 ((New-iff t seen).1 n.0) (
      check_tracks_complete (t.track_id ∷ seen) ts g.1
        (All-zip (λ u. u.track_id ≢ t.track_id) (New seen) ts (symmetric' t ts d.0) n.1) d.1)

All-New : (ts : List TrackSeal) → All (New []) ts
All-New [] = tt
All-New (t ∷ ts) = (tt, All-New ts)

IsSeal-SameSeals : {ts us : List TrackSeal} → SameSeals ts us → All IsSeal ts → All IsSeal us
IsSeal-SameSeals no_track g = tt
IsSeal-SameSeals (track s ss) g = (
  record {
    named = ground (arith, s.track, g.0.named);
    stored = ground (arith, s.ending, g.0.stored);
    listed = ap check_ids (sym (sort_ids-SameIds s.segments)) ∙ g.0.listed;
  },
  IsSeal-SameSeals ss g.1,
)
IsSeal-SameSeals (exchange_tracks t u ts) g = (g.1.0, (g.0, g.1.1))
IsSeal-SameSeals (chain_tracks p q) g = IsSeal-SameSeals q (IsSeal-SameSeals p g)

module _ (digest : List TrackSeal → Text) where
  -- The digest of a manifest does not depend on the order of the tracks, nor on the order of the
  -- segments of a track; and a list in another order is accepted where the first one is.
  pub manifest_order :
      {ts us : List TrackSeal} {hash : Text}
      → SameSeals ts us
      → capture_manifest_sha256 digest ts ≡ ok hash
      → capture_manifest_sha256 digest us ≡ ok hash
  unfolding capture_manifest_sha256
  manifest_order {ts} {us} {hash} s h =
      let (sorted, checked, made) =
        >>=-inversion (check_tracks [] ts) (λ l. ok (digest (sort_tracks l))) {value = hash} h in
      let (goods, news, distinct, shape) = check_tracks_sound [] ts {out = sorted} checked in
      let there =
        check_tracks_complete [] us (IsSeal-SameSeals s goods) (All-New us)
          (Distinct-SameSeals s distinct) in
      rw there (
        ap (λ l. ok (digest l))
          (sym (sort_tracks-SameSeals s distinct) ∙ ap sort_tracks (sym shape))
        ∙ made)
