-- ===== src/Rate.antt =====
-- main/rate.c and rate.h: the sample rates, the one chosen at boot, and what follows from it.
pub mod Choice
mod Tests
use inferno_esp32_p.Prelude.{
  ℕ, Bool, true, false, Option, none, some, List, [], ◌∷◌, ◌+◌, ◌*◌, ◌/◌, ◌==◌, ◌||◌, not, ◌&&◌,
  if◌then◌else◌, ◌⊎◌, inl, inr,
}

-- `rate_profile_t`, without the label.
pub record Profile : Type 0 where
  pub hz : ℕ
  pub fpp : ℕ
  pub dma_frames : ℕ
  pub dma_depth_frames : ℕ
  pub dma_depth_us : ℕ
  pub scki_fs : ℕ
  pub bck_fs : ℕ
  pub pcm1690_fmt : ℕ
  pub latency_min_us : ℕ

abbrev pub blocks_per_s : ℕ
blocks_per_s = 3000

abbrev pub dma_ahead_frames : ℕ
dma_ahead_frames = 16

abbrev pub i2s_fifo_frames : ℕ
i2s_fifo_frames = 8

abbrev pub latency_margin_us : ℕ
latency_margin_us = 500

abbrev pub profiles : List Profile
profiles =
    record {
      hz = 48000;
      fpp = 48000 / blocks_per_s;
      dma_frames = 48000 / blocks_per_s;
      dma_depth_frames = 0;
      dma_depth_us = 0;
      scki_fs = 256;
      bck_fs = 256;
      pcm1690_fmt = 8;
      latency_min_us = 0;
    }
    ∷ record {
      hz = 96000;
      fpp = 96000 / blocks_per_s;
      dma_frames = 96000 / blocks_per_s;
      dma_depth_frames = 0;
      dma_depth_us = 0;
      scki_fs = 256;
      bck_fs = 256;
      pcm1690_fmt = 8;
      latency_min_us = 0;
    }
    ∷ []

-- The first profile of a rate, as the two loops look for it.
unfoldable pub find_profile : List Profile → ℕ → Option Profile
find_profile [] hz = none
find_profile (p ∷ ps) hz = let rest = find_profile ps hz in if p.hz == hz then some p else rest

unfoldable pub rate_supported : ℕ → Bool
unfolding find_profile
rate_supported hz = elim (find_profile profiles hz) [ none ↦ false | some p ↦ true ]

-- The build's settings: AP_RATE_PINNED, AP_RATE_DEFAULT and whether AP_PIN_RATE_SEL is a pin.
pub record Build : Type 0 where
  pub pinned : Bool
  pub default_hz : ℕ
  pub has_pin : Bool

-- What the hardware says: the level of the pin, or none where it cannot be configured; and the
-- rate in NVS, or none where it cannot be read.
pub record Boot : Type 0 where
  pub pin_level : Option Bool
  pub nvs_hz : Option ℕ

pub data RequestError : Type 0 where
  not_supported : RequestError
  invalid_arg : RequestError

-- The rate that `rate_request` puts in NVS, or why it does not; the errors of NVS are not modelled.
unfoldable pub rate_request : Build → ℕ → RequestError ⊎ ℕ
unfolding rate_supported
rate_request build hz =
    if build.pinned
    then inl not_supported
    else if not (rate_supported hz)
    then inl invalid_arg
    else inr hz

-- The rate that the pin selects.
unfoldable pub pin_rate : Build → Boot → ℕ
pin_rate build boot =
    if build.has_pin && not build.pinned
    then elim boot.pin_level [
      | none ↦ build.default_hz
      | some level ↦ (if level then 48000 else 96000)
    ]
    else build.default_hz

unfoldable pub nvs_rate : Boot → ℕ
nvs_rate boot = elim boot.nvs_hz [ none ↦ 0 | some hz ↦ hz ]

-- The rate that `rate_select` looks for: the build's, the controller's, the pin's.
unfoldable pub wanted : Build → Boot → ℕ
unfolding pin_rate rate_supported nvs_rate
wanted build boot =
    if build.pinned
    then build.default_hz
    else if not (nvs_rate boot == 0) && rate_supported (nvs_rate boot)
    then nvs_rate boot
    else pin_rate build boot

-- What follows from the rate.
unfoldable pub complete : Profile → Profile
complete p =
    let depth = dma_ahead_frames + i2s_fifo_frames in
    let us = depth * 1000000 / p.hz in
    record p {
      dma_depth_frames = depth;
      dma_depth_us = us;
      latency_min_us = us + latency_margin_us;
    }

-- The profile that is latched for a rate, or none where there is no profile or SCKI is not BCK.
unfoldable pub latch : ℕ → Option Profile
unfolding find_profile complete
latch hz = elim (find_profile profiles hz) [
  | none ↦ none
  | some p ↦ (if p.scki_fs == p.bck_fs then some (complete p) else none)
]

unfoldable pub rate_select : Build → Boot → Option Profile
unfolding wanted latch
rate_select build boot = latch (wanted build boot)
