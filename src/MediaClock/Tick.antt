-- ===== src/MediaClock/Tick.antt =====
-- `mclk_tick` of main/media_clock.c, in the order of its stages.
use inferno_esp32_p.MediaClock.{
  Clock, View, apply, mclk_anchor, step_playout, mclk_now_samples, target,
}
use inferno_esp32_p.Prelude.{ℕ, Bool, if◌then◌else◌, ◌/◌, ◌||◌, leb, ltb, not, ◌&&◌, ◌+◌, ◌∷◌, ◌==◌}
use inferno_esp32_p.Prelude.Int.{ℤ, pos, ltb_ℤ, scale, ◌+ℤ◌, clamp, neg, quotient, ◌-ℤ◌}
use inferno_esp32_p.Prelude.Words.{to_i32, to_signed, inc32}
use inferno_esp32_p.Prelude.{none, some}

abbrev pub reset_frames : ℕ
reset_frames = 480

abbrev pub ff_ppb_max : ℕ
ff_ppb_max = 200000

abbrev pub ppb_clamp : ℕ
ppb_clamp = 2000

-- AP_MCLK_SLEW_PPB_PER_S / AP_MCLK_UPDATE_HZ
abbrev pub step_max : ℕ
step_max = 100 / 10

-- AP_MCLK_UPDATE_HZ / 2
abbrev pub persist_ticks : ℕ
persist_ticks = 10 / 2

-- x > b || x < -b
abbrev pub beyond : ℕ → ℤ → Bool
beyond b x = ltb_ℤ (pos b) x || ltb_ℤ x (neg b)

unfoldable pub feed_forward : Clock → View → Clock
unfolding apply
feed_forward s v = apply (record s { ppb_ff = clamp ff_ppb_max v.rate_ppb })

-- (int64_t)target - (int64_t)playout
unfoldable pub phase_error : ℕ → ℕ → ℤ
phase_error goal playout = to_signed 64 goal -ℤ to_signed 64 playout

-- Half the latency, between 32 and 480 frames.
unfoldable pub step_band : ℕ → ℕ
step_band latency =
    let band = if ltb (latency / 2) reset_frames then latency / 2 else reset_frames in
    if ltb band 32 then 32 else band

-- The ticks in a row for which the error has been beyond the band.
unfoldable pub count_out : Clock → ℤ → ℕ
unfolding step_band
count_out s err = if beyond (step_band s.latency_frames) err then s.out_of_band + 1 else 0

unfoldable pub must_step : ℕ → ℤ → Bool
must_step ticks err = beyond reset_frames err || leb persist_ticks ticks

unfoldable pub step : Clock → ℤ → Clock
step s err = record s {
  out_of_band = 0;
  calls = step_playout err ∷ s.calls;
  integral = pos 0;
  reset_steps = inc32 s.reset_steps;
}

-- The proportional and the integral part.
unfoldable pub control : ℤ → ℤ → ℤ
control err integral = scale err 40 +ℤ quotient (scale integral 3) 1000

-- The integral moves only while the output is inside the clamp.
unfoldable pub integrate : Clock → ℤ → ℤ
unfolding control
integrate s err =
    let ppb = control err s.integral in
    if ltb_ℤ ppb (pos ppb_clamp) && ltb_ℤ (neg ppb_clamp) ppb
    then clamp 1000000 (s.integral +ℤ err)
    else s.integral

-- The phase term goes towards what the loop wants, by one step of the slew at most.
unfoldable pub slew : ℤ → ℤ → ℤ
slew cur goal = cur +ℤ clamp step_max (goal -ℤ cur)

unfoldable pub phase_loop : Clock → ℤ → Clock
unfolding integrate control slew apply
phase_loop s err =
    let integral = integrate s err in
    let ppb = to_i32 (clamp ppb_clamp (control err integral)) in
    apply (record s { integral = integral; ppb_target = ppb; ppb_applied = slew s.ppb_applied ppb })

-- With the error known: step, stay, or steer.
unfoldable pub correct : Clock → ℤ → Clock
unfolding count_out must_step step phase_loop
correct s err =
    let s' = record s { error_frames = to_i32 err; out_of_band = count_out s err } in
    if must_step (count_out s err) err
    then step s' err
    else if not s.armed
    then s'
    else phase_loop s' err

unfoldable pub mclk_tick : Clock → View → Clock
unfolding feed_forward mclk_anchor mclk_now_samples target phase_error correct
mclk_tick s v =
    if not v.locked
    then s
    else let s' = feed_forward s v in
      if not (v.step_count == s.last_ptp_steps)
      then mclk_anchor s' v
      else if not s.anchored
      then mclk_anchor s' v
      else elim (mclk_now_samples v) [
        | none ↦ s'
        | some now ↦ correct s' (phase_error (target s' now) v.playout_idx)
      ]
