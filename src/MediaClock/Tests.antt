-- ===== src/MediaClock/Tests.antt =====
-- Witnesses for the media clock.
use inferno_esp32_p.MediaClock.{Clock, View, samples_at, mclk_now_samples, target, apply}
use inferno_esp32_p.MediaClock.Bounds.{IsValid, mclk_tick-IsValid}
use inferno_esp32_p.Prelude.{arith, true, ◌≡◌, [], some, ◌∷◌, refl}
use inferno_esp32_p.MediaClock.Tick.{
  mclk_tick, feed_forward, correct, count_out, must_step, step, step_band, phase_error,
}
use inferno_esp32_p.MediaClock.Stepping.{
  RatesWithin, mclk_tick-RatesWithin, mclk_tick-Steps, Told, steps_of,
}
use inferno_esp32_p.Prelude.Int.{pos, ◌-ℤ◌}
use inferno_esp32_p.MediaClock.Latency.{samples_at_lem}
use inferno_esp32_p.Prelude.Words.{to_signed}

abbrev playing : Clock
playing = record {
  armed = true;
  anchored = true;
  error_frames = pos 0;
  ppb_target = pos 40;
  ppb_applied = pos 30;
  ppb_ff = pos 12000;
  integral = pos 100;
  anchors = 1;
  reset_steps = 0;
  dma_depth_frames = 0;
  latency_frames = 96;
  latency_us = 2000;
  cfg_us = 2000;
  floor_us = 0;
  force_us = 0;
  last_ptp_steps = 1;
  out_of_band = 4;
  calls = [];
}

-- One second in, the DAC 60 frames behind the target.
abbrev late : View
late = record {
  locked = true;
  have_master = true;
  rate_ppb = pos 12500;
  step_count = 1;
  time = some (1, 0);
  ring_ready = true;
  playout_idx = 47844;
  hz = 48000;
  latency_min_us = 1000;
}

playing-IsValid : IsValid playing
playing-IsValid = ground arith

mclk_tick-IsValid_example : IsValid (mclk_tick playing late)
mclk_tick-IsValid_example = mclk_tick-IsValid playing late playing-IsValid

mclk_tick-RatesWithin_example : RatesWithin 202000 (mclk_tick playing late).calls
mclk_tick-RatesWithin_example = mclk_tick-RatesWithin playing late playing-IsValid tt

mclk_tick-Steps_example : Told playing late (steps_of (mclk_tick playing late).calls)
mclk_tick-Steps_example = mclk_tick-Steps playing late

-- The fifth tick in a row beyond the band steps.
late_step : steps_of (mclk_tick playing late).calls ≡ pos 60 ∷ []
unfolding mclk_tick mclk_now_samples samples_at target feed_forward apply correct count_out
    must_step step step_band phase_error to_signed ◌-ℤ◌
late_step = refl

samples_at_lem_example : samples_at 3 500000000 48000 ≡ 168000
samples_at_lem_example = samples_at_lem 3 500000000 48000 (ground arith)
