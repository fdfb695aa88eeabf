-- ===== src/Servo/Steps.antt =====
-- Phase steps: what a call that asks for one leaves behind.
use inferno_esp32_p.Servo.{Servo, ℤ, pos}
use inferno_esp32_p.Servo.Update.{
  update, steer, jump, after_jump, pi, outside, rate_of, track_phase, step_max_ns, jump_ns, ki_num,
  Outcome, coarse_step,
}
use inferno_esp32_p.Servo.Estimate.{Doubles, integral_for, ki_acq_num, ki_den}
use inferno_esp32_p.Servo.Window.{window_push}
use inferno_esp32_p.Prelude.{◌≢◌, ◌≡◌, arith, true, false, ◌<◌, ℕ, ap, ◌∙◌, if_both, not, refl}
use inferno_esp32_p.Prelude.Int.{
  opposite, Within, magnitude, quotient, scale, int_laws, clamp, clamp-eq_of_Within,
}
use inferno_esp32_p.Prelude.Words.{inc32}
use inferno_esp32_p.Servo.Hysteresis.{low_offset, update_steers}

module _ {D : Type 0} where
  -- The rate that goes with a step: the estimate, which the call leaves as it was.
  abbrev KeepsRate : Servo D → Outcome D → Type 0
  KeepsRate s out = out.step_ns ≢ pos 0 → (out.ppb ≡ s.rate_ppb) × (out.servo.rate_ppb ≡ s.rate_ppb)

  pi_no_step : (s : Servo D) (f : ℤ) → KeepsRate s (pi s f)
  unfolding pi
  pi_no_step s f h = absurd (h refl)

  after_jump_drops : (s : Servo D) (f t : ℤ) → KeepsRate s (after_jump (jump s f t) f)
  unfolding jump after_jump
  after_jump_drops s f t h = ground (
    arith,
    pi_no_step s f,
    pi_no_step (record s { jump_run = 0 }) f,
    pi_no_step
        (record s {
          jump_run = 0;
          jump_strikes = 0;
          last_jump_t_ns = t;
          locked = false;
          lock_streak = 0;
          integral_ns = integral_for s.rate_ppb ki_acq_num;
        })
        f,
  )

  steer_drops : (s : Servo D) (x t : ℤ) → KeepsRate s (steer s x t)
  unfolding steer window_push track_phase
  steer_drops s x t =
      let pushed = window_push (track_phase s t) x in
      after_jump_drops (record pushed.0 { filtered_ns = pushed.1 }) pushed.1 t

  coarse_step_drops : (s : Servo D) (x : ℤ) → KeepsRate s (coarse_step s x)
  unfolding coarse_step
  coarse_step_drops s x h = (refl, refl)

  -- Whenever the servo asks for a step, the rate it applies is its rate estimate: the P term is
  -- dropped, and the estimate itself is unchanged.
  pub step_drops_phase_term :
      (F : Doubles D) (s : Servo D) (x t : ℤ)
      → (update F s x t).step_ns ≢ pos 0
      → ((update F s x t).ppb ≡ s.rate_ppb) × ((update F s x t).servo.rate_ppb ≡ s.rate_ppb)
  unfolding update
  step_drops_phase_term F s x t =
      let s' = record s { offset_ns = x } in
      if_both (KeepsRate s) (outside step_max_ns x) (coarse_step_drops s' x)
        (if_both (KeepsRate s) (not s.est_done) (λ h. absurd (h refl)) (steer_drops s' x t))

  -- Beyond 1 ms the whole offset is taken out by one step, and the servo starts over: no lock, no
  -- integral, an empty window, and a new frequency estimate, at the rate that it had estimated.
  pub coarse_step_resets :
      (F : Doubles D) (s : Servo D) (x t : ℤ)
      → outside step_max_ns x ≡ true
      → let out = update F s x t in
        (out.step_ns ≡ opposite x)
        × (out.ppb ≡ s.rate_ppb)
        × (out.servo.locked ≡ false)
        × (out.servo.est_done ≡ false)
        × (out.servo.integral_ns ≡ pos 0)
        × (out.servo.win_count ≡ 0)
        × (out.servo.steps ≡ inc32 s.steps)
  unfolding update
  coarse_step_resets F s x t h = ground arith

  after_jump_shift :
      (s : Servo D) (f t : ℤ)
      → s.locked ≡ true
      → (after_jump (jump s f t) f).step_ns ≢ pos 0
      → let out = after_jump (jump s f t) f in
        (out.step_ns ≡ opposite f)
        × (jump_ns < magnitude f)
        × (out.servo.locked ≡ true)
        × (out.servo.win_count ≡ 0)
        × (out.servo.shifts ≡ inc32 s.shifts)
  unfolding jump after_jump pi
  after_jump_shift s f t h k = ground arith

  steer_shift :
      (s : Servo D) (x t : ℤ)
      → s.locked ≡ true
      → (steer s x t).step_ns ≢ pos 0
      → let out = steer s x t in
        let f = (window_push (track_phase s t) x).1 in
        (out.step_ns ≡ opposite f)
        × (jump_ns < magnitude f)
        × (out.servo.locked ≡ true)
        × (out.servo.win_count ≡ 0)
        × (out.servo.shifts ≡ inc32 s.shifts)
  unfolding steer window_push track_phase
  steer_shift s x t k n =
      let pushed = window_push (track_phase s t) x in
      after_jump_shift (record pushed.0 { filtered_ns = pushed.1 }) pushed.1 t k n

  -- A step of a locked servo by an offset within 1 ms is the filtered offset, beyond 8 us; the lock
  -- is kept, the window emptied, and the shift counted.
  pub small_step_keeps_lock :
      (F : Doubles D) (s : Servo D) (x t : ℤ)
      → outside step_max_ns x ≡ false
      → s.est_done ≡ true
      → s.locked ≡ true
      → (update F s x t).step_ns ≢ pos 0
      → let out = update F s x t in
        let f = low_offset s x t in
        (out.step_ns ≡ opposite f)
        × (jump_ns < magnitude f)
        × (out.servo.locked ≡ true)
        × (out.servo.win_count ≡ 0)
        × (out.servo.shifts ≡ inc32 s.shifts)
  small_step_keeps_lock F s x t h e k n =
      let steers = update_steers F s x t h e in
      rw steers (steer_shift (record s { offset_ns = x }) x t k (rw steers at n))

-- The integral that is set for a rate within 100 ppm stands for that rate, with the gain of a
-- locked servo and with that of an unlocked one, so that the rate is the same before and after a
-- gain switch.
pub integral_for-rate_of :
    (r : ℤ)
    → Within 100000 r
    → (rate_of (integral_for r ki_num) ki_num ≡ r)
      × (rate_of (integral_for r ki_acq_num) ki_acq_num ≡ r)
unfolding rate_of integral_for
integral_for-rate_of r h = (
  ap (clamp 100000) locked ∙ clamp-eq_of_Within 100000 r h,
  ap (clamp 100000) acquiring ∙ clamp-eq_of_Within 100000 r h,
)
  where
    back : ℕ → ℤ
    back gain = quotient (opposite (scale (quotient (opposite (scale r ki_den)) gain) gain)) ki_den

    locked : back ki_num ≡ r
    locked = omega int_laws

    acquiring : back ki_acq_num ≡ r
    acquiring = omega int_laws
