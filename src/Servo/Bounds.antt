-- ===== src/Servo/Bounds.antt =====
-- The bounds that every call of the servo keeps: window indices, clamps and counters.
use inferno_esp32_p.Prelude.{
  ℕ, ◌≤◌, ◌≡◌, refl, true, none, some, arith, length-set, ap, Option-cases, inl, ◌∙◌, inr, List, [],
  ◌∷◌,
}
use inferno_esp32_p.Prelude.Int.{
  ℤ, Within, clamp, clamp-Within, quotient, opposite, scale, ◌+ℤ◌, ◌-ℤ◌, magnitude, quotient_parts,
  opposite_parts, scale_parts,
}
use inferno_esp32_p.Prelude.Words.{to_i32, to_i32-eq_of_Within}
use inferno_esp32_p.Servo.{Servo, IsValid, init, clear_filter}
use inferno_esp32_p.Servo.Window.{store, window_push}
use inferno_esp32_p.Servo.Estimate.{
  Doubles, estimate, start_estimate, add_sample, seed, integral_for, ki_acq_num, ki_den, slope,
}
use inferno_esp32_p.Servo.Update.{
  Outcome, update, coarse_step, track_phase, jump, integrate, lock_logic, pi, after_jump, steer,
  rate_of, i_gain, ki_num, phase_of, p_gain, jump_ns,
}

to_i32-Within : (b : ℕ) (x : ℤ) → b ≤ 200000 → Within b x → Within b (to_i32 x)
to_i32-Within b x h w = let e = to_i32-eq_of_Within x (omega arith) in ground arith

pub to_i32-clamp-Within : (b : ℕ) (x : ℤ) → b ≤ 200000 → Within b (to_i32 (clamp b x))
to_i32-clamp-Within b x h = to_i32-Within b (clamp b x) h (clamp-Within b x)

integral_for_acq-Within : (r : ℤ) → Within 100000 r → Within 100000000 (integral_for r ki_acq_num)
unfolding integral_for
integral_for_acq-Within r h = omega (
  arith,
  quotient_parts (opposite (scale r 1000000)) 40000,
  opposite_parts (scale r 1000000),
  scale_parts r 1000000,
)

integral_for_locked-Within : (r : ℤ) → Within 100000 r → Within 100000000 (integral_for r ki_num)
unfolding integral_for
integral_for_locked-Within r h = omega (
  arith,
  quotient_parts (opposite (scale r 1000000)) 20000,
  opposite_parts (scale r 1000000),
  scale_parts r 1000000,
)

module _ {D : Type 0} where
  clear_filter-IsValid : {s : Servo D} → IsValid s → IsValid (clear_filter s)
  unfolding clear_filter
  clear_filter-IsValid v = ground arith

  coarse_step-IsValid : {s : Servo D} (x : ℤ) → IsValid s → IsValid (coarse_step s x).servo
  unfolding coarse_step
  coarse_step-IsValid x v = ground arith

  store-IsValid : {s : Servo D} (x : ℤ) → IsValid s → IsValid (store s x)
  unfolding store
  store-IsValid {s} x v = ground (arith, length-set s.win s.win_pos (x -ℤ s.comp_ns))

  pub track_phase-IsValid : {s : Servo D} (t : ℤ) → IsValid s → IsValid (track_phase s t)
  unfolding track_phase
  track_phase-IsValid t v = ground arith

  start_estimate-IsValid :
      (F : Doubles D) {s : Servo D} (x t : ℤ) → IsValid s → IsValid (start_estimate F s x t)
  unfolding start_estimate
  start_estimate-IsValid F x t v = ground arith

  add_sample-IsValid :
      (F : Doubles D) {s : Servo D} (x t : ℤ) → IsValid s → IsValid (add_sample F s x t)
  unfolding add_sample
  add_sample-IsValid F x t v = ground arith

  seed-IsValid : (F : Doubles D) {s : Servo D} (k : ℤ) → IsValid s → IsValid (seed F s k)
  unfolding seed
  seed-IsValid F {s} k v =
      let total = clamp 100000 (s.applied_ppb -ℤ k) in
      ground (
        arith,
        to_i32-clamp-Within 100000 (s.applied_ppb -ℤ k),
        integral_for_acq-Within total (clamp-Within 100000 (s.applied_ppb -ℤ k)),
      )

  estimate-IsValid :
      (F : Doubles D) {s : Servo D} (x t : ℤ) → IsValid s → IsValid (estimate F s x t).0
  unfolding estimate
  estimate-IsValid F {s} x t v =
      let added = add_sample-IsValid F x t (start_estimate-IsValid F x t v) in
      ground (
        arith,
        added,
        seed-IsValid F (F.to_ℤ (slope F (add_sample F (start_estimate F s x t) x t))) added,
      )

  -- What the PI finds after the jump block: a locked servo has a filtered offset within the jump
  -- threshold.
  abbrev pub Settled : Servo D → ℤ → Type 0
  Settled s f = s.locked ≡ true → magnitude f ≤ jump_ns

  pub jump-Settled : (s : Servo D) (f t : ℤ) → (jump s f t).1 ≡ none → Settled (jump s f t).0 f
  unfolding jump
  jump-Settled s f t h = ground arith

  jump-IsValid : {s : Servo D} (f t : ℤ) → IsValid s → IsValid (jump s f t).0
  unfolding jump
  jump-IsValid {s} f t v = ground (arith, integral_for_acq-Within s.rate_ppb)

  -- An early return leaves the state of the block, and applies the rate estimate.
  jump_early :
      (s : Servo D) (f t : ℤ) (o : Outcome D)
      → (jump s f t).1 ≡ some o
      → (o.servo ≡ (jump s f t).0) × (o.ppb ≡ s.rate_ppb)
  unfolding jump
  jump_early s f t o h = ground arith

  after_jump_go :
      (s : Servo D) (f t : ℤ)
      → (jump s f t).1 ≡ none
      → after_jump (jump s f t) f ≡ pi (jump s f t).0 f
  after_jump_go s f t h = ap (λ r. after_jump ((jump s f t).0, r) f) h ∙ (unfold after_jump in refl)

  after_jump_stop :
      (s : Servo D) (f t : ℤ) (o : Outcome D)
      → (jump s f t).1 ≡ some o
      → after_jump (jump s f t) f ≡ o
  after_jump_stop s f t o h =
      ap (λ r. after_jump ((jump s f t).0, r) f) h ∙ (unfold after_jump in refl)

  integrate-IsValid : {s : Servo D} (f : ℤ) → IsValid s → IsValid (integrate s f)
  unfolding integrate
  integrate-IsValid {s} f v =
      let integral = clamp 100000000 (s.integral_ns +ℤ f) in
      ground (
        arith,
        clamp-Within 100000000 (s.integral_ns +ℤ f),
        to_i32-clamp-Within 100000 (quotient (opposite (scale integral (i_gain s.locked))) ki_den),
      )

  lock_logic-IsValid : {s : Servo D} (f : ℤ) → IsValid s → Settled s f → IsValid (lock_logic s f)
  unfolding lock_logic
  lock_logic-IsValid {s} f v settled =
      ground (arith, integral_for_acq-Within s.rate_ppb, integral_for_locked-Within s.rate_ppb)

  integrate-Settled : (s : Servo D) (f : ℤ) → Settled s f → Settled (integrate s f) f
  unfolding integrate
  integrate-Settled s f h = h

  pi-IsValid : {s : Servo D} (f : ℤ) → IsValid s → Settled s f → IsValid (pi s f).servo
  unfolding pi
  pi-IsValid {s} f v settled =
      let rate = rate_of (integrate s f).integral_ns (i_gain s.locked) in
      ground (
        arith,
        lock_logic-IsValid f (integrate-IsValid f v) (integrate-Settled s f settled),
        to_i32-clamp-Within 200000 (rate +ℤ phase_of f (p_gain s.locked f)),
      )

  pub pi_ppb : (s : Servo D) (f : ℤ) → (pi s f).ppb ≡ (pi s f).servo.applied_ppb
  unfolding pi
  pi_ppb s f = refl

  after_jump-IsValid :
      {s : Servo D} (f t : ℤ) → IsValid s → IsValid (after_jump (jump s f t) f).servo
  after_jump-IsValid {s} f t v = elim (Option-cases (jump s f t).1) [
    | inl goes ↦
        rw (after_jump_go s f t goes) (pi-IsValid f (jump-IsValid f t v) (jump-Settled s f t goes))
    | inr (o, early) ↦
        rw (after_jump_stop s f t o early, (jump_early s f t o early).0) (jump-IsValid f t v)
  ]

  pub window_push-IsValid : {s : Servo D} (x : ℤ) → IsValid s → IsValid (window_push s x).0
  unfolding window_push
  window_push-IsValid x v = store-IsValid x v

  pub with_filtered-IsValid :
      {s : Servo D} (f : ℤ) → IsValid s → IsValid (record s { filtered_ns = f })
  with_filtered-IsValid f v = ground arith

  pub with_offset-IsValid : {s : Servo D} (x : ℤ) → IsValid s → IsValid (record s { offset_ns = x })
  with_offset-IsValid x v = ground arith

  steer-IsValid : {s : Servo D} (x t : ℤ) → IsValid s → IsValid (steer s x t).servo
  unfolding steer
  steer-IsValid {s} x t v =
      let pushed = window_push-IsValid x (track_phase-IsValid t v) in
      let f = (window_push (track_phase s t) x).1 in
      after_jump-IsValid f t (with_filtered-IsValid f pushed)

  -- From a servo that keeps its bounds, every call leaves one that does, whatever the offset, the
  -- time and the doubles are.
  pub update-IsValid :
      (F : Doubles D) {s : Servo D} (x t : ℤ) → IsValid s → IsValid (update F s x t).servo
  unfolding update
  update-IsValid F {s} x t v =
      let v' = with_offset-IsValid x v in
      ground (arith, coarse_step-IsValid x v', estimate-IsValid F x t v', steer-IsValid x t v')

  after_jump_ppb :
      (s : Servo D) (f t : ℤ)
      → (after_jump (jump s f t) f).ppb ≡ (after_jump (jump s f t) f).servo.applied_ppb
  unfolding jump after_jump
  after_jump_ppb s f t = ground arith

  -- What is applied to the clock is what the state records as applied.
  pub update_ppb :
      (F : Doubles D) (s : Servo D) (x t : ℤ)
      → (update F s x t).ppb ≡ (update F s x t).servo.applied_ppb
  unfolding update estimate steer
  update_ppb F s x t =
      let f = (window_push (track_phase (record s { offset_ns = x }) t) x).1 in
      ground (
        arith,
        after_jump_ppb
            (record (window_push (track_phase (record s { offset_ns = x }) t) x).0 {
              filtered_ns = f;
            })
            f t,
      )

  -- The servo after a run of measurements, each an offset and the time of its Sync.
  unfoldable pub run : Doubles D → Servo D → List (ℤ × ℤ) → Servo D
  run F s [] = s
  run F s ((x, t) ∷ events) = run F (update F s x t).servo events

  pub init-IsValid : (zero : D) → IsValid (init zero)
  init-IsValid zero = ground arith

  run-IsValid :
      (F : Doubles D) {s : Servo D} (events : List (ℤ × ℤ)) → IsValid s → IsValid (run F s events)
  unfolding run
  run-IsValid F {s} [] v = v
  run-IsValid F {s} ((x, t) ∷ events) v =
      run-IsValid F {s = (update F s x t).servo} events (update-IsValid F x t v)

  -- From power-on, after any run of measurements, the next output to the clock is within 200 ppm
  -- and the rate estimate within 100 ppm.
  pub output_bounds :
      (F : Doubles D) (zero : D) (events : List (ℤ × ℤ)) (x t : ℤ)
      → let out = update F (run F (init zero) events) x t in
        Within 200000 out.ppb × Within 100000 out.servo.rate_ppb
  output_bounds F zero events x t =
      let s = run F (init zero) events in
      let v = update-IsValid F x t (run-IsValid F events (init-IsValid zero)) in
      ground (arith, update_ppb F s x t, v)

  -- From power-on, after any run of measurements, the counter that the 10 us unlock threshold
  -- needs at 8 is 0.
  pub unlock_streak_zero :
      (F : Doubles D) (zero : D) (events : List (ℤ × ℤ))
      → (run F (init zero) events).unlock_streak ≡ 0
  unlock_streak_zero F zero events = (run-IsValid F events (init-IsValid zero)).unlock_idle
