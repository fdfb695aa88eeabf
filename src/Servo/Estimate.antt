-- ===== src/Servo/Estimate.antt =====
-- `estimate` of main/ptp_servo.c: the frequency pre-estimate, a least-squares slope.
use inferno_esp32_p.Prelude.{ℕ, ◌==◌, Bool, true, ltb, if◌then◌else◌, ◌||◌}
use inferno_esp32_p.Prelude.Int.{ℤ, pos, ◌-ℤ◌, ltb_ℤ, clamp, scale, quotient, opposite}
use inferno_esp32_p.Prelude.Words.{inc8, to_i32}
use inferno_esp32_p.Servo.{Servo}

-- The operations of `double` that the estimate uses.
pub record Doubles (D : Type 0) : Type 0 where
  pub of_ℤ : ℤ → D
  pub add : D → D → D
  pub sub : D → D → D
  pub mul : D → D → D
  pub div : D → D → D
  pub nano : D
  pub not_positive : D → Bool
  pub to_ℤ : D → ℤ

abbrev pub est_min_ns : ℕ
est_min_ns = 4000000000

abbrev pub est_min_n : ℕ
est_min_n = 12

abbrev pub ki_den : ℕ
ki_den = 1000000

abbrev pub ki_acq_num : ℕ
ki_acq_num = 40000

-- The integral at which a gain yields the rate estimate: -(rate * KI_DEN) / gain.
unfoldable pub integral_for : ℤ → ℕ → ℤ
integral_for rate gain = quotient (opposite (scale rate ki_den)) gain

module _ {D : Type 0} (F : Doubles D) where
  open F use {of_ℤ, add, sub, mul, div, nano, not_positive, to_ℤ}

  unfoldable pub start_estimate : Servo D → ℤ → ℤ → Servo D
  start_estimate s offset t =
      if s.est_n == 0
      then record s {
        est_t0_ns = t;
        est_off0_ns = offset;
        est_sx = of_ℤ (pos 0);
        est_sy = of_ℤ (pos 0);
        est_sxx = of_ℤ (pos 0);
        est_sxy = of_ℤ (pos 0);
      }
      else s

  unfoldable pub add_sample : Servo D → ℤ → ℤ → Servo D
  add_sample s offset t =
      let x = mul (of_ℤ (t -ℤ s.est_t0_ns)) nano in
      let y = of_ℤ (offset -ℤ s.est_off0_ns) in
      record s {
        est_n = inc8 s.est_n;
        est_sx = add s.est_sx x;
        est_sy = add s.est_sy y;
        est_sxx = add s.est_sxx (mul x x);
        est_sxy = add s.est_sxy (mul x y);
      }

  unfoldable pub seed : Servo D → ℤ → Servo D
  unfolding integral_for
  seed s slope =
      let total = clamp 100000 (s.applied_ppb -ℤ slope) in
      record s {
        integral_ns = integral_for total ki_acq_num;
        rate_ppb = to_i32 total;
        est_done = true;
        applied_ppb = to_i32 total;
      }

  -- The denominator and the slope, in ns per second.
  unfoldable pub denominator : Servo D → D
  denominator s = sub (mul (of_ℤ (pos s.est_n)) s.est_sxx) (mul s.est_sx s.est_sx)

  unfoldable pub slope : Servo D → D
  unfolding denominator
  slope s = div (sub (mul (of_ℤ (pos s.est_n)) s.est_sxy) (mul s.est_sx s.est_sy)) (denominator s)

  unfoldable pub estimate : Servo D → ℤ → ℤ → Servo D × ℤ
  unfolding start_estimate add_sample seed denominator slope
  estimate s offset t =
      let s' = add_sample (start_estimate s offset t) offset t in
      if ltb_ℤ (t -ℤ s'.est_t0_ns) (pos est_min_ns) || ltb s'.est_n est_min_n
      then (s', s'.applied_ppb)
      else if not_positive (denominator s')
      then (s', s'.applied_ppb)
      else (let done = seed s' (to_ℤ (slope s')) in (done, done.applied_ppb))
