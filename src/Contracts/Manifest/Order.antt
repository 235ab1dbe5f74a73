-- ===== src/Contracts/Manifest/Order.antt =====
-- Sorting forgets the order in which identifiers and tracks were listed.
use mathlib.Core.Path.{ap₂, subst}
use forum_agent.Shared.{◌≡◌, refl, ◌≢◌, List, [], ◌∷◌, map, arith, ◌∙◌, ap, sym, All}
use forum_agent.Contracts.{Uuid}
use forum_agent.Contracts.Manifest.{TrackSeal, insert_id, sort_ids, insert_track, sort_tracks, tidy}

-- The same identifiers, listed in another order.
pub data SameIds : List Uuid → List Uuid → Type 0 where
  none_left : SameIds [] []
  next : (a : Uuid) {l m : List Uuid} → SameIds l m → SameIds (a ∷ l) (a ∷ m)
  exchange : (a b : Uuid) (l : List Uuid) → SameIds (a ∷ b ∷ l) (b ∷ a ∷ l)
  chain : {l m n : List Uuid} → SameIds l m → SameIds m n → SameIds l n

insert_id_comm :
    (a b : Uuid) (l : List Uuid) → insert_id a (insert_id b l) ≡ insert_id b (insert_id a l)
insert_id_comm a b [] = ground arith
insert_id_comm a b (c ∷ l) = ground (arith, insert_id_comm a b l)

pub sort_ids-SameIds : {l m : List Uuid} → SameIds l m → sort_ids l ≡ sort_ids m
unfolding sort_ids
sort_ids-SameIds none_left = refl
sort_ids-SameIds (next a s) = ap (insert_id a) (sort_ids-SameIds s)
sort_ids-SameIds (exchange a b l) = insert_id_comm a b (sort_ids l)
sort_ids-SameIds (chain s t) = sort_ids-SameIds s ∙ sort_ids-SameIds t

-- The same track, with its segments in another order.
pub record SameTrack (t u : TrackSeal) : Type 0 where
  pub track : t.track_id ≡ u.track_id
  pub ending : t.final_sample ≡ u.final_sample
  pub segments : SameIds t.segment_ids u.segment_ids

-- The same tracks, listed in another order.
pub data SameSeals : List TrackSeal → List TrackSeal → Type 0 where
  no_track : SameSeals [] []
  track :
      {t u : TrackSeal} {ts us : List TrackSeal}
      → SameTrack t u
      → SameSeals ts us
      → SameSeals (t ∷ ts) (u ∷ us)
  exchange_tracks : (t u : TrackSeal) (ts : List TrackSeal) → SameSeals (t ∷ u ∷ ts) (u ∷ t ∷ ts)
  chain_tracks : {ts us vs : List TrackSeal} → SameSeals ts us → SameSeals us vs → SameSeals ts vs

pub tidy-SameTrack : {t u : TrackSeal} → SameTrack t u → tidy t ≡ tidy u
tidy-SameTrack s = ground (arith, s.track, s.ending, sort_ids-SameIds s.segments)

insert_track_comm :
    (a b : TrackSeal) (l : List TrackSeal)
    → a.track_id ≢ b.track_id
    → insert_track a (insert_track b l) ≡ insert_track b (insert_track a l)
insert_track_comm a b [] h = ground arith
insert_track_comm a b (c ∷ l) h = ground (arith, insert_track_comm a b l h)

-- No two tracks have one identifier.
abbrev pub Distinct : List TrackSeal → Type 0
Distinct [] = Unit
Distinct (t ∷ ts) = All (λ u. t.track_id ≢ u.track_id) ts × Distinct ts

differs :
    (a : Uuid) {ts us : List TrackSeal}
    → SameSeals ts us
    → All (λ u. a ≢ u.track_id) ts
    → All (λ u. a ≢ u.track_id) us
differs a no_track h = tt
differs a (track s ss) h = (ground (arith, s.track, h.0), differs a ss h.1)
differs a (exchange_tracks t u ts) h = (h.1.0, (h.0, h.1.1))
differs a (chain_tracks p q) h = differs a q (differs a p h)

pub Distinct-SameSeals : {ts us : List TrackSeal} → SameSeals ts us → Distinct ts → Distinct us
Distinct-SameSeals no_track d = tt
Distinct-SameSeals (track {u = u} {ts = ts} s ss) d = (
  differs u.track_id ss (subst (λ a. All (λ v. a ≢ v.track_id) ts) s.track d.0),
  Distinct-SameSeals ss d.1,
)
Distinct-SameSeals (exchange_tracks t u ts) d = ((λ e. d.0.0 (sym e), d.1.0), (d.0.1, d.1.1))
Distinct-SameSeals (chain_tracks p q) d = Distinct-SameSeals q (Distinct-SameSeals p d)

pub sort_tracks-SameSeals :
    {ts us : List TrackSeal}
    → SameSeals ts us
    → Distinct ts
    → sort_tracks (map tidy ts) ≡ sort_tracks (map tidy us)
unfolding sort_tracks
sort_tracks-SameSeals no_track d = refl
sort_tracks-SameSeals (track s ss) d =
    ap₂ insert_track (tidy-SameTrack s) (sort_tracks-SameSeals ss d.1)
sort_tracks-SameSeals (exchange_tracks t u ts) d =
    insert_track_comm (tidy t) (tidy u) (sort_tracks (map tidy ts)) d.0.0
sort_tracks-SameSeals (chain_tracks p q) d =
    sort_tracks-SameSeals p d ∙ sort_tracks-SameSeals q (Distinct-SameSeals p d)
