-- ===== src/Servo/Update.antt =====
-- `ptp_servo_update` of main/ptp_servo.c: coarse step, estimate, window, jump, PI and lock.
use inferno_esp32_p.Prelude.{
  ℕ, Bool, true, false, not, ◌&&◌, ◌||◌, ltb, leb, if◌then◌else◌, Option, none, some,
}
use inferno_esp32_p.Prelude.Int.{
  ℤ, pos, neg, ◌+ℤ◌, ◌-ℤ◌, ◌*ℤ◌, ltb_ℤ, clamp, scale, quotient, opposite, magnitude,
}
use inferno_esp32_p.Prelude.Words.{inc8, inc32, to_i32}
use inferno_esp32_p.Servo.{Servo, clear_filter}
use inferno_esp32_p.Servo.Window.{window_push}
use inferno_esp32_p.Servo.Estimate.{Doubles, estimate, integral_for, ki_den, ki_acq_num}

abbrev pub step_max_ns : ℕ
step_max_ns = 1000000

abbrev pub lock_ns : ℕ
lock_ns = 3000

abbrev pub unlock_ns : ℕ
unlock_ns = 10000

abbrev pub jump_ns : ℕ
jump_ns = 8000

abbrev pub ki_num : ℕ
ki_num = 20000

-- x > b || x < -b
abbrev pub outside : ℕ → ℤ → Bool
outside b x = ltb_ℤ (pos b) x || ltb_ℤ x (neg b)

-- |f| > 1 us takes the fast gain.
unfoldable pub p_gain : Bool → ℤ → ℕ
p_gain locked f =
    let big = outside 1000 f in
    if locked then (if big then 500 else 300) else (if big then 700 else 500)

unfoldable pub i_gain : Bool → ℕ
i_gain locked = if locked then ki_num else ki_acq_num

unfoldable pub rate_of : ℤ → ℕ → ℤ
rate_of integral gain = clamp 100000 (quotient (opposite (scale integral gain)) ki_den)

unfoldable pub phase_of : ℤ → ℕ → ℤ
phase_of f gain = clamp 50000 (quotient (opposite (scale f gain)) 1000)

-- What a call leaves: the state, the ppb to apply, and `*step_ns`.
pub record Outcome (D : Type 0) : Type 0 where
  pub servo : Servo D
  pub ppb : ℤ
  pub step_ns : ℤ

module _ {D : Type 0} where
  -- |offset| > PS_STEP_NS
  unfoldable pub coarse_step : Servo D → ℤ → Outcome D
  unfolding clear_filter
  coarse_step s offset = record {
    servo = record (clear_filter s) {
      integral_ns = pos 0;
      last_t_ns = pos 0;
      steps = inc32 s.steps;
      locked = false;
      lock_streak = 0;
      est_done = false;
      est_n = 0;
      applied_ppb = s.rate_ppb;
    };
    ppb = s.rate_ppb;
    step_ns = opposite offset;
  }

  -- The phase that the P term has moved the clock by since the last Sync.
  unfoldable pub track_phase : Servo D → ℤ → Servo D
  track_phase s t =
      let dt = t -ℤ s.last_t_ns in
      let moved = quotient ((s.applied_ppb -ℤ s.rate_ppb) *ℤ dt) 1000000000 in
      record s {
        comp_ns =
            if outside 0 s.last_t_ns && ltb_ℤ s.last_t_ns t && ltb_ℤ dt (pos 2000000000)
            then s.comp_ns +ℤ moved
            else s.comp_ns;
        last_t_ns = t;
      }

  -- The rate is held and the offset kept out of the PI.
  unfoldable pub hold : Servo D → Servo D
  hold s = record s { applied_ppb = s.rate_ppb }

  -- The strikes after one more jump: those within 30 s of one another count up.
  unfoldable pub count_strike : Servo D → ℤ → ℕ
  count_strike s t =
      if outside 0 s.last_jump_t_ns && ltb_ℤ (t -ℤ s.last_jump_t_ns) (pos 30000000000)
      then inc8 s.jump_strikes
      else 1

  -- The jump block while locked: `some` returns early, `none` goes on with the state beside it.
  unfoldable pub jump : Servo D → ℤ → ℤ → Servo D × Option (Outcome D)
  unfolding hold count_strike clear_filter integral_for
  jump s f t =
      if not s.locked
      then (s, none)
      else if ltb jump_ns (magnitude f)
      then (if ltb (inc8 s.jump_run) 8
          then (let held = hold (record s { jump_run = inc8 s.jump_run }) in
              (held, some (record { servo = held; ppb = held.applied_ppb; step_ns = pos 0 })))
          else (let strikes = count_strike s t in
              if ltb strikes 3
              then (let shifted = hold (record (clear_filter s) {
                jump_run = 0;
                jump_strikes = strikes;
                last_jump_t_ns = t;
                shifts = inc32 s.shifts;
              }) in
                  (
                    shifted,
                    some (record {
                      servo = shifted;
                      ppb = shifted.applied_ppb;
                      step_ns = opposite f;
                    }),
                  ))
              else (
                record s {
                  jump_run = 0;
                  jump_strikes = 0;
                  last_jump_t_ns = t;
                  locked = false;
                  lock_streak = 0;
                  integral_ns = integral_for s.rate_ppb ki_acq_num;
                },
                none,
              )))
      else (record s { jump_run = 0 }, none)

  -- The lock decision, after the integral and the rate are set.
  unfoldable pub lock_logic : Servo D → ℤ → Servo D
  unfolding integral_for
  lock_logic s f =
      if not s.locked
      then (if ltb (magnitude f) lock_ns
          then (if leb 8 (inc8 s.lock_streak)
              then record s {
                lock_streak = inc8 s.lock_streak;
                locked = true;
                unlock_streak = 0;
                integral_ns = integral_for s.rate_ppb ki_num;
              }
              else record s { lock_streak = inc8 s.lock_streak })
          else record s { lock_streak = 0 })
      else (if ltb unlock_ns (magnitude f)
          then (if leb 8 (inc8 s.unlock_streak)
              then record s {
                unlock_streak = inc8 s.unlock_streak;
                locked = false;
                lock_streak = 0;
                integral_ns = integral_for s.rate_ppb ki_acq_num;
              }
              else record s { unlock_streak = inc8 s.unlock_streak })
          else record s { unlock_streak = 0 })

  -- The integral and the rate estimate.
  unfoldable pub integrate : Servo D → ℤ → Servo D
  unfolding rate_of i_gain
  integrate s f =
      let integral = clamp 100000000 (s.integral_ns +ℤ f) in
      record s { integral_ns = integral; rate_ppb = to_i32 (rate_of integral (i_gain s.locked)) }

  unfoldable pub pi : Servo D → ℤ → Outcome D
  unfolding integrate phase_of p_gain lock_logic
  pi s f =
      let s' = integrate s f in
      let out = to_i32 (
        clamp 200000
          (rate_of s'.integral_ns (i_gain s.locked) +ℤ phase_of f (p_gain s.locked f))) in
      let s'' = lock_logic s' f in
      record {
        servo = record s'' { updates = inc32 s''.updates; applied_ppb = out };
        ppb = out;
        step_ns = pos 0;
      }

  -- The early return of the jump block, or the PI.
  unfoldable pub after_jump : Servo D × Option (Outcome D) → ℤ → Outcome D
  unfolding pi
  after_jump (s, none) f = pi s f
  after_jump (s, some early) f = early

  -- Window, jump and PI, with the estimate done.
  unfoldable pub steer : Servo D → ℤ → ℤ → Outcome D
  unfolding track_phase window_push jump after_jump
  steer s offset t =
      let (s', f) = window_push (track_phase s t) offset in
      after_jump (jump (record s' { filtered_ns = f }) f t) f

  unfoldable pub update : Doubles D → Servo D → ℤ → ℤ → Outcome D
  unfolding coarse_step estimate steer
  update F old offset t =
      let s = record old { offset_ns = offset } in
      if outside step_max_ns offset
      then coarse_step s offset
      else if not s.est_done
      then (let (s', ppb) = estimate F s offset t in
          record { servo = s'; ppb = ppb; step_ns = pos 0 })
      else steer s offset t
