-- ===== src/MediaClock/Bounds.antt =====
-- The bounds of the media clock's actuator, and its slew.
use inferno_esp32_p.MediaClock.{
  Clock, View, mclk_anchor, anchor_at, apply, target, mclk_now_samples,
}
use inferno_esp32_p.Prelude.{
  ℕ, ◌≡◌, arith, ◌<◌, ◌^◌, false, Bool-cases, Option, inl, subst, sym, if_true, inr, if_false,
  if_both, not, none, some, ◌==◌,
}
use inferno_esp32_p.Prelude.Int.{
  Within, ℤ, clamp, +ℤ_parts, clamp-Within, -ℤ_parts, ◌+ℤ◌, ◌-ℤ◌, clamp_parts, parts_zero,
}
use inferno_esp32_p.MediaClock.Tick.{
  correct, feed_forward, integrate, phase_loop, slew, step, control, count_out, must_step,
  mclk_tick, phase_error,
}
use inferno_esp32_p.Prelude.Words.{to_i32, to_i32-eq_of_Within}

-- What every tick keeps: the clamps of the feed-forward, the phase term and the integral, and the
-- count of ticks beyond the band.
pub record IsValid (s : Clock) : Type 0 where
  pub ff_in : Within 200000 s.ppb_ff
  pub applied_in : Within 2000 s.ppb_applied
  pub target_in : Within 2000 s.ppb_target
  pub integral_in : Within 1000000 s.integral
  pub out_in : s.out_of_band < 5

slew-Within : (cur goal : ℤ) → Within 2000 cur → Within 2000 goal → Within 2000 (slew cur goal)
unfolding slew
slew-Within cur goal h k =
    let c = clamp 10 (goal -ℤ cur) in
    ground (
      arith,
      +ℤ_parts cur c,
      -ℤ_parts goal cur,
      clamp_parts 10 (goal -ℤ cur),
      parts_zero (cur +ℤ c),
      parts_zero cur,
      parts_zero goal,
      parts_zero (goal -ℤ cur),
    )

to_i32-clamp : (b : ℕ) (x : ℤ) → b < 2 ^ 31 → to_i32 (clamp b x) ≡ clamp b x
to_i32-clamp b x h = let w = clamp-Within b x in to_i32-eq_of_Within (clamp b x) (omega (arith, w))

integrate-Within :
    (s : Clock) (err : ℤ) → Within 1000000 s.integral → Within 1000000 (integrate s err)
unfolding integrate
integrate-Within s err h = ground (arith, clamp-Within 1000000 (s.integral +ℤ err))

pub phase_loop-IsValid : {s : Clock} (err : ℤ) → IsValid s → IsValid (phase_loop s err)
unfolding phase_loop apply
phase_loop-IsValid {s} err v =
    let ppb = control err (integrate s err) in
    let goal : Within 2000 (to_i32 (clamp 2000 ppb)) =
      rw (to_i32-clamp 2000 ppb (omega arith)) (clamp-Within 2000 ppb) in
    record {
      ff_in = v.ff_in;
      applied_in = slew-Within s.ppb_applied (to_i32 (clamp 2000 ppb)) v.applied_in goal;
      target_in = goal;
      integral_in = integrate-Within s err v.integral_in;
      out_in = v.out_in;
    }

mclk_anchor-IsValid : {s : Clock} (v : View) → IsValid s → IsValid (mclk_anchor s v)
unfolding mclk_anchor anchor_at
mclk_anchor-IsValid {s} v w = ground arith

pub correct-IsValid : {s : Clock} (err : ℤ) → IsValid s → IsValid (correct s err)
unfolding correct step must_step
correct-IsValid {s} err v =
    let counted : Clock = record s { error_frames = to_i32 err; out_of_band = count_out s err } in
    let few : must_step (count_out s err) err ≡ false → IsValid counted = λ h. record {
      ff_in = v.ff_in;
      applied_in = v.applied_in;
      target_in = v.target_in;
      integral_in = v.integral_in;
      out_in = ground arith;
    } in
    elim (Bool-cases (must_step (count_out s err) err)) [
      | inl now ↦ subst IsValid (sym (if_true (must_step (count_out s err) err) _ _ now)) (record {
        ff_in = v.ff_in;
        applied_in = v.applied_in;
        target_in = v.target_in;
        integral_in = omega arith;
        out_in = omega arith;
      })
      | inr later ↦
          subst IsValid (sym (if_false (must_step (count_out s err) err) _ _ later))
            (if_both IsValid (not s.armed) (few later) (phase_loop-IsValid err (few later)))
    ]

pub feed_forward-IsValid : {s : Clock} (v : View) → IsValid s → IsValid (feed_forward s v)
unfolding feed_forward apply
feed_forward-IsValid {s} v w = record {
  ff_in = clamp-Within 200000 v.rate_ppb;
  applied_in = w.applied_in;
  target_in = w.target_in;
  integral_in = w.integral_in;
  out_in = w.out_in;
}

-- From a clock within its clamps, every tick leaves one within them, whatever it sees of the other
-- parts.
pub mclk_tick-IsValid : (s : Clock) (v : View) → IsValid s → IsValid (mclk_tick s v)
unfolding mclk_tick
mclk_tick-IsValid s v w =
    let w' = feed_forward-IsValid v w in
    if_both IsValid (not v.locked) w (
      if_both IsValid (not (v.step_count == s.last_ptp_steps)) (mclk_anchor-IsValid v w') (
        if_both IsValid (not s.anchored) (mclk_anchor-IsValid v w')
          (corrected (mclk_now_samples v))))
  where
    corrected :
        (now : Option ℕ)
        → IsValid (elim now [
          | none ↦ feed_forward s v
          | some n ↦
              correct (feed_forward s v) (phase_error (target (feed_forward s v) n) v.playout_idx)
        ])
    corrected none = feed_forward-IsValid v w
    corrected (some n) =
        correct-IsValid (phase_error (target (feed_forward s v) n) v.playout_idx)
          (feed_forward-IsValid v w)
