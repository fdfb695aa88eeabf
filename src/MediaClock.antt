-- ===== src/MediaClock.antt =====
-- main/media_clock.c: the state, the latency and the anchor. The child modules hold the tick.
pub mod Tick
pub mod Latency
pub mod Bounds
pub mod Stepping
mod Tests
use inferno_esp32_p.Prelude.{
  ℕ, Bool, true, false, Option, none, some, List, [], ◌∷◌, ◌+◌, ◌-◌, ◌*◌, ◌/◌, ◌%◌, ◌^◌, ltb, not,
  ◌==◌, if◌then◌else◌,
}
use inferno_esp32_p.Prelude.Int.{ℤ, pos, ◌+ℤ◌}
use inferno_esp32_p.Prelude.Words.{inc32}

-- What the media clock asks of the ring, of the clock generator and of NVS, latest first.
pub data Call : Type 0 where
  reset_ring : ℕ → Call
  step_playout : ℤ → Call
  set_ppb : ℤ → Call
  store_latency : ℕ → Call

-- `mclk_state_t` and the static variables.
pub record Clock : Type 0 where
  pub armed : Bool
  pub anchored : Bool
  pub error_frames : ℤ
  pub ppb_target : ℤ
  pub ppb_applied : ℤ
  pub ppb_ff : ℤ
  pub integral : ℤ
  pub anchors : ℕ
  pub reset_steps : ℕ
  pub dma_depth_frames : ℕ
  pub latency_frames : ℕ
  pub latency_us : ℕ
  pub cfg_us : ℕ
  pub floor_us : ℕ
  pub force_us : ℕ
  pub last_ptp_steps : ℕ
  pub out_of_band : ℕ
  pub calls : List Call

-- What it reads of the other parts at one instant: the PTP slave's state, the hardware clock
-- (seconds and nanoseconds), the ring, and the rate profile.
pub record View : Type 0 where
  pub locked : Bool
  pub have_master : Bool
  pub rate_ppb : ℤ
  pub step_count : ℕ
  pub time : Option (ℕ × ℕ)
  pub ring_ready : Bool
  pub playout_idx : ℕ
  pub hz : ℕ
  pub latency_min_us : ℕ

abbrev pub latency_us_max : ℕ
latency_us_max = 10000

-- The latency that playout runs at.
unfoldable pub effective_us : Clock → View → ℕ
effective_us s v =
    if not (s.force_us == 0)
    then (if ltb s.force_us v.latency_min_us then v.latency_min_us else s.force_us)
    else let asked = if ltb s.floor_us s.cfg_us then s.cfg_us else s.floor_us in
      let least = if ltb asked v.latency_min_us then v.latency_min_us else asked in
      if ltb latency_us_max least then latency_us_max else least

-- (uint32_t)((uint64_t)us * hz / 1000000)
unfoldable pub frames_of : ℕ → ℕ → ℕ
frames_of us hz = us * hz / 1000000 % 2 ^ 32

-- `mclk_init` for a stored latency, or none where NVS has none.
unfoldable pub mclk_init : Clock → View → ℕ → Option ℕ → Clock
unfolding effective_us frames_of
mclk_init s v depth stored =
    let cfg : ℕ = elim stored [ none ↦ s.cfg_us | some us ↦ (if us == 0 then s.cfg_us else us) ] in
    let s' = record s { dma_depth_frames = depth; cfg_us = cfg } in
    record s' {
      latency_us = effective_us s' v;
      latency_frames = frames_of (effective_us s' v) v.hz;
    }

unfoldable pub samples_at : ℕ → ℕ → ℕ → ℕ
samples_at seconds nanoseconds hz = (seconds * hz + nanoseconds * hz / 1000000000) % 2 ^ 64

unfoldable pub mclk_now_samples : View → Option ℕ
unfolding samples_at
mclk_now_samples v = if not v.have_master then none else elim v.time [
  | none ↦ none
  | some (seconds, nanoseconds) ↦ some (samples_at seconds nanoseconds v.hz)
]

-- now - latency + depth on 64 bits.
unfoldable pub target : Clock → ℕ → ℕ
target s now = ((now + 2 ^ 64 - s.latency_frames) % 2 ^ 64 + s.dma_depth_frames) % 2 ^ 64

unfoldable pub anchor_at : Clock → View → ℕ → Clock
unfolding target
anchor_at s v now = record s {
  integral = pos 0;
  anchored = true;
  anchors = inc32 s.anchors;
  last_ptp_steps = v.step_count;
  calls = reset_ring (target s now) ∷ s.calls;
}

unfoldable pub mclk_anchor : Clock → View → Clock
unfolding mclk_now_samples anchor_at
mclk_anchor s v =
    if not v.ring_ready
    then s
    else elim (mclk_now_samples v) [ none ↦ s | some now ↦ anchor_at s v now ]

-- A new effective latency is anchored anew.
unfoldable pub apply_latency : Clock → View → Clock
unfolding effective_us mclk_anchor frames_of
apply_latency s v =
    if effective_us s v == s.latency_us
    then s
    else mclk_anchor
        (record s {
          latency_us = effective_us s v;
          latency_frames = frames_of (effective_us s v) v.hz;
        })
        v

unfoldable pub mclk_set_latency_us : Clock → View → ℕ → Clock
unfolding apply_latency
mclk_set_latency_us s v asked =
    let us = if ltb latency_us_max asked then latency_us_max else asked in
    apply_latency
      (if us == s.cfg_us then s else record s { cfg_us = us; calls = store_latency us ∷ s.calls }) v

unfoldable pub mclk_set_latency_floor_us : Clock → View → ℕ → Clock
unfolding apply_latency
mclk_set_latency_floor_us s v us = apply_latency (record s { floor_us = us }) v

unfoldable pub mclk_force_latency_us : Clock → View → ℕ → Clock
unfolding apply_latency
mclk_force_latency_us s v us = apply_latency (record s { force_us = us }) v

-- The feed-forward and the phase term go to the clock generator.
unfoldable pub apply : Clock → Clock
apply s = record s { calls = set_ppb (s.ppb_ff +ℤ s.ppb_applied) ∷ s.calls }

unfoldable pub mclk_arm : Clock → Bool → Clock
unfolding apply
mclk_arm s on =
    if on
    then record s { armed = true }
    else apply (record s { armed = false; ppb_applied = pos 0 })
