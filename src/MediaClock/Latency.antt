-- ===== src/MediaClock/Latency.antt =====
-- The latency that playout runs at, the timeline, and when a new latency is anchored.
use inferno_esp32_p.MediaClock.{
  Clock, View, effective_us, mclk_set_latency_floor_us, samples_at, apply_latency, frames_of,
  mclk_anchor, anchor_at,
}
use inferno_esp32_p.Prelude.{
  ℕ, ◌≡◌, if◌then◌else◌, ◌*◌, ◌≢◌, ◌+◌, ◌==◌, min, ◌/◌, arith, max, ◌<◌, ◌^◌,
}

-- Without the override the effective latency is the largest of the controller's setting, the
-- transmitters' demand and the build's minimum, up to 10 ms; with it, the largest of the override
-- and the minimum.
pub effective_us_lem :
    (s : Clock) (v : View)
    → effective_us s v ≡ (
        if s.force_us == 0
        then min 10000 (max v.latency_min_us (max s.cfg_us s.floor_us))
        else max v.latency_min_us s.force_us)
unfolding effective_us
effective_us_lem s v = ground arith

-- The sample index of an instant is, below 2 ^ 64, the whole number of samples since the epoch: the
-- exact product of the time and the rate, rounded down.
pub samples_at_lem :
    (seconds nanoseconds hz : ℕ)
    → seconds * hz + nanoseconds * hz / 1000000000 < 2 ^ 64
    → samples_at seconds nanoseconds hz ≡ (seconds * 1000000000 + nanoseconds) * hz / 1000000000
unfolding samples_at
samples_at_lem seconds nanoseconds hz h = omega arith

-- What a change of the latency leaves in force.
pub record InForce (s s' : Clock) (v : View) : Type 0 where
  pub latency : s'.latency_us ≡ effective_us s' v
  pub kept : effective_us s' v ≡ s.latency_us → (s'.calls ≡ s.calls) × (s'.anchors ≡ s.anchors)
  pub frames : effective_us s' v ≢ s.latency_us → s'.latency_frames ≡ frames_of s'.latency_us v.hz

-- After a demand of the transmitters the effective latency is in force, with its frames if it has
-- changed; if it has not, nothing is called and nothing anchored.
pub mclk_set_latency_floor_us-InForce :
    (s : Clock) (v : View) (us : ℕ) → InForce s (mclk_set_latency_floor_us s v us) v
unfolding mclk_set_latency_floor_us apply_latency mclk_anchor anchor_at
mclk_set_latency_floor_us-InForce s v us = ground arith
