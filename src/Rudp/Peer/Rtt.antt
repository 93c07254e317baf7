-- ===== src/Rudp/Peer/Rtt.antt =====
-- Bounds of the round-trip estimate and of the retransmission time-out.
use dynaxis.Base.{
  ℕ, ◌+◌, ◌-◌, ◌*◌, ◌/◌, ◌^◌, ◌≤◌, ◌<◌, ◌≡◌, refl, min, max, Bool, true, false, arith,
}
use dynaxis.Rudp.Peer.{RttEstimator, clamp, smooth, update}

clamp_bounds : (v lo hi : ℕ) → lo ≤ hi → (lo ≤ clamp v lo hi) × (clamp v lo hi ≤ hi)
clamp_bounds v lo hi h = ground arith

smooth_between :
    (r : RttEstimator) (sample : ℕ)
    → r.initialized ≡ true
    → r.srtt_ms < 2 ^ 32
    → sample < 2 ^ 32
    → (min r.srtt_ms sample ≤ (smooth r sample).srtt_ms)
      × ((smooth r sample).srtt_ms ≤ max r.srtt_ms sample)
unfolding smooth
smooth_between r sample h small fits = ground arith

smooth_first :
    (r : RttEstimator) (sample : ℕ)
    → r.initialized ≡ false
    → ((smooth r sample).srtt_ms ≡ sample) × ((smooth r sample).rttvar_ms ≡ max 1 (sample / 2))
unfolding smooth
smooth_first r sample h = ground (arith, h)

smooth_var :
    (r : RttEstimator) (sample : ℕ)
    → r.initialized ≡ true
    → r.srtt_ms < 2 ^ 31
    → sample < 2 ^ 31
    → r.rttvar_ms < 2 ^ 31
    → ((smooth r sample).rttvar_ms
        ≡ (3 * r.rttvar_ms + (max r.srtt_ms sample - min r.srtt_ms sample)) / 4)
unfolding smooth
smooth_var r sample h a b c = ground arith

-- What a sample makes of an estimate, by whether it had one before.
abbrev pub Estimates : RttEstimator → ℕ → Bool → RttEstimator → Type 0
Estimates r sample false r' = (r'.srtt_ms ≡ sample) × (r'.rttvar_ms ≡ max 1 (sample / 2))
Estimates r sample true r' =
    (min r.srtt_ms sample ≤ r'.srtt_ms)
    × (r'.srtt_ms ≤ max r.srtt_ms sample)
    × (r'.rttvar_ms ≡ (3 * r.rttvar_ms + (max r.srtt_ms sample - min r.srtt_ms sample)) / 4)

update-Estimates :
    (r : RttEstimator) (sample lo hi : ℕ) (started : Bool)
    → r.initialized ≡ started
    → r.srtt_ms < 2 ^ 31
    → r.rttvar_ms < 2 ^ 31
    → 0 < sample
    → sample < 2 ^ 31
    → Estimates r sample started (update r sample lo hi)
unfolding update
update-Estimates r sample lo hi true started small spread positive fits = ground (
  arith,
  smooth_between r sample started (omega arith) (omega arith),
  smooth_var r sample started small fits spread,
)
update-Estimates r sample lo hi false fresh small spread positive fits =
    ground (arith, smooth_first r sample fresh)

-- A positive sample gives a time-out within the bounds, the lower of which is not above the other;
-- the first sample becomes the smoothed time, and half of it, but at least 1, the variation; after a
-- later one the smoothed time stays between the old one and the sample, and the variation becomes
-- three quarters of the old one and a quarter of their distance, where all three are below 2 ^ 31.
pub update_bounds :
    (r : RttEstimator) (sample lo hi : ℕ)
    → lo ≤ hi
    → r.srtt_ms < 2 ^ 31
    → r.rttvar_ms < 2 ^ 31
    → 0 < sample
    → sample < 2 ^ 31
    → (lo ≤ (update r sample lo hi).rto_ms)
      × ((update r sample lo hi).rto_ms ≤ hi)
      × Estimates r sample r.initialized (update r sample lo hi)
unfolding update
update_bounds r sample lo hi order small spread positive fits = (
  ground (arith, order),
  ground (arith, order),
  update-Estimates r sample lo hi r.initialized refl small spread positive fits,
)
