-- ===== src/Servo/Hysteresis.antt =====
-- When the servo gains and loses its lock.
use inferno_esp32_p.Servo.{Servo, IsValid, ℤ, ◌<◌, ◌≡◌, false}
use inferno_esp32_p.Prelude.Int.{magnitude, ltb_ℤ, ◌-ℤ◌, pos}
use inferno_esp32_p.Servo.Update.{
  jump, outside, pi, after_jump, step_max_ns, lock_ns, jump_ns, steer, update, track_phase,
}
use inferno_esp32_p.Servo.Bounds.{
  Settled, with_filtered-IsValid, with_offset-IsValid, window_push-IsValid, track_phase-IsValid,
}
use inferno_esp32_p.Prelude.{true, arith, ◌⊎◌}
use inferno_esp32_p.Servo.Window.{window_push}
use inferno_esp32_p.Servo.Estimate.{estimate, Doubles}

module _ {D : Type 0} where
  -- The measurement with which a lock is gained.
  pub record GainsLock (s : Servo D) (x f : ℤ) : Type 0 where
    pub near : magnitude f < lock_ns
    pub eighth : s.lock_streak ≡ 7
    pub fine : outside step_max_ns x ≡ false
    pub estimated : s.est_done ≡ true

  -- A filtered offset beyond the jump threshold with seven counted before it, and two strikes, the
  -- last of them less than 30 s ago.
  abbrev pub Third : Servo D → ℤ → ℤ → Type 0
  Third s f t =
      (jump_ns < magnitude f)
      × (s.jump_run ≡ 7)
      × (s.jump_strikes ≡ 2)
      × (ltb_ℤ (t -ℤ s.last_jump_t_ns) (pos 30000000000) ≡ true)

  abbrev pub LosesLock : Servo D → ℤ → ℤ → ℤ → Type 0
  LosesLock s x t f = (outside step_max_ns x ≡ true) ⊎ Third s f t

  pi_gains :
      (s : Servo D) (f : ℤ)
      → IsValid s
      → s.locked ≡ false
      → (pi s f).servo.locked ≡ true
      → (magnitude f < lock_ns) × (s.lock_streak ≡ 7)
  unfolding pi
  pi_gains s f v h k = ground arith

  pi_keeps : (s : Servo D) (f : ℤ) → Settled s f → s.locked ≡ true → (pi s f).servo.locked ≡ true
  unfolding pi
  pi_keeps s f settled h = ground arith

  after_jump_gains :
      (s : Servo D) (f t : ℤ)
      → IsValid s
      → s.locked ≡ false
      → (after_jump (jump s f t) f).servo.locked ≡ true
      → (magnitude f < lock_ns) × (s.lock_streak ≡ 7)
  unfolding jump after_jump
  after_jump_gains s f t v h k = ground (arith, pi_gains s f v h)

  after_jump_loses :
      (s : Servo D) (f t : ℤ)
      → IsValid s
      → s.locked ≡ true
      → (after_jump (jump s f t) f).servo.locked ≡ false
      → Third s f t
  unfolding jump after_jump
  after_jump_loses s f t v h k = ground (arith, pi_keeps (record s { jump_run = 0 }) f)

  steer_gains :
      (s : Servo D) (x t : ℤ)
      → IsValid s
      → s.locked ≡ false
      → (steer s x t).servo.locked ≡ true
      → (magnitude (window_push (track_phase s t) x).1 < lock_ns) × (s.lock_streak ≡ 7)
  unfolding steer window_push track_phase
  steer_gains s x t v h k =
      let pushed = (window_push (track_phase s t) x) in
      after_jump_gains (record pushed.0 { filtered_ns = pushed.1 }) pushed.1 t
        (with_filtered-IsValid pushed.1 (window_push-IsValid x (track_phase-IsValid t v))) h k

  steer_loses :
      (s : Servo D) (x t : ℤ)
      → IsValid s
      → s.locked ≡ true
      → (steer s x t).servo.locked ≡ false
      → Third s (window_push (track_phase s t) x).1 t
  unfolding steer window_push track_phase
  steer_loses s x t v h k =
      let pushed = (window_push (track_phase s t) x) in
      after_jump_loses (record pushed.0 { filtered_ns = pushed.1 }) pushed.1 t
        (with_filtered-IsValid pushed.1 (window_push-IsValid x (track_phase-IsValid t v))) h k

  -- The filtered offset that a call of the servo computes.
  abbrev pub low_offset : Servo D → ℤ → ℤ → ℤ
  low_offset s x t = (window_push (track_phase (record s { offset_ns = x }) t) x).1

  -- Past the coarse step and the estimate a call is `steer`.
  pub update_steers :
      (F : Doubles D) (s : Servo D) (x t : ℤ)
      → outside step_max_ns x ≡ false
      → s.est_done ≡ true
      → update F s x t ≡ steer (record s { offset_ns = x }) x t
  unfolding update
  update_steers F s x t h e = rw (h, e)

  estimate_lock : (F : Doubles D) (s : Servo D) (x t : ℤ) → (estimate F s x t).0.locked ≡ s.locked
  unfolding estimate
  estimate_lock F s x t = ground arith

  -- An unlocked servo that keeps its bounds gains the lock only with a measurement within 1 ms,
  -- the estimate done, whose filtered offset is within 3 us and is the eighth such in a row.
  pub update-GainsLock :
      (F : Doubles D) (s : Servo D) (x t : ℤ)
      → IsValid s
      → s.locked ≡ false
      → (update F s x t).servo.locked ≡ true
      → GainsLock s x (low_offset s x t)
  unfolding update
  update-GainsLock F s x t v h k = ground (
    arith,
    estimate_lock F (record s { offset_ns = x }) x t,
    steer_gains (record s { offset_ns = x }) x t (with_offset-IsValid x v) h,
  )

  -- A locked servo with its estimate done that keeps its bounds loses the lock only by an offset
  -- beyond 1 ms, or by a filtered offset beyond 8 us while the count of such offsets stands at seven,
  -- two jumps are counted, and the last of them is less than 30 s old.
  pub update-LosesLock :
      (F : Doubles D) (s : Servo D) (x t : ℤ)
      → IsValid s
      → s.est_done ≡ true
      → s.locked ≡ true
      → (update F s x t).servo.locked ≡ false
      → LosesLock s x t (low_offset s x t)
  unfolding update
  update-LosesLock F s x t v e h k =
      ground (arith, steer_loses (record s { offset_ns = x }) x t (with_offset-IsValid x v) h)
