-- ===== src/Servo/Tests.antt =====
-- The servo at concrete offsets.
use inferno_esp32_p.Servo.{Servo, IsValid, init}
use inferno_esp32_p.Servo.Estimate.{Doubles}
use inferno_esp32_p.Servo.Update.{update, Outcome}
use inferno_esp32_p.Servo.Window.{low_edge, window_push, samples, newest, in_use}
use inferno_esp32_p.Prelude.Int.{
  magnitude, opposite, pos, ℤ, clamp, ◌+ℤ◌, neg, negsuc, quotient, ◌-ℤ◌, Within, scale,
}
use inferno_esp32_p.Prelude.{arith, true, ◌∷◌, ◌≡◌, ◌≢◌, [], refl, ◌-◌}
use inferno_esp32_p.Prelude.Words.{to_i32}
use inferno_esp32_p.Servo.Bounds.{run, unlock_streak_zero, output_bounds}
use inferno_esp32_p.Servo.Hysteresis.{
  GainsLock, LosesLock, low_offset, update-GainsLock, update-LosesLock,
}
use inferno_esp32_p.Servo.LowEdge.{AtRank, window_push_lem}

-- Doubles cut down to whole numbers, with a nanosecond as the unit of time.
abbrev whole : Doubles ℤ
whole = record {
  of_ℤ = λ x. x;
  add = λ x y. x;
  sub = λ x y. x;
  mul = λ x y. y;
  div = λ x y. x;
  nano = pos 1;
  not_positive = λ x. true;
  to_ℤ = λ x. x;
}

low_edge_run : low_edge (pos 5 ∷ negsuc 2 ∷ pos 9 ∷ pos 1 ∷ []) ≡ pos 1
unfolding low_edge
low_edge_run = refl

-- A servo at 40 ppm with its estimate done, one good sample from the lock.
abbrev tracking : Servo ℤ
tracking = record (init (pos 0)) {
  est_done = true;
  rate_ppb = pos 40000;
  applied_ppb = pos 40000;
  integral_ns = neg 1000000;
  lock_streak = 7;
}

-- The same, locked, one sample from the third jump.
abbrev jumpy : Servo ℤ
jumpy = record tracking {
  locked = true;
  lock_streak = 8;
  jump_run = 7;
  jump_strikes = 2;
  last_jump_t_ns = pos 4000000000;
  integral_ns = neg 2000000;
}

tracking-IsValid : IsValid tracking
tracking-IsValid = omega arith

jumpy-IsValid : IsValid jumpy
jumpy-IsValid = ground arith

first_run : (update whole tracking (pos 2000) (pos 5000000000)).ppb ≡ pos 38520
unfolding update to_i32 clamp ◌+ℤ◌ quotient opposite scale ◌-ℤ◌
first_run = refl

output_bounds_example :
    let out =
      update whole (run whole (init (pos 0)) ((pos 900, pos 1) ∷ [])) (negsuc 5000000) (pos 9) in
    Within 200000 out.ppb × Within 100000 out.servo.rate_ppb
output_bounds_example = output_bounds whole (pos 0) ((pos 900, pos 1) ∷ []) (negsuc 5000000) (pos 9)

unlock_streak_zero_example : (run whole (init (pos 0)) ((pos 900, pos 1) ∷ [])).unlock_streak ≡ 0
unlock_streak_zero_example = unlock_streak_zero whole (pos 0) ((pos 900, pos 1) ∷ [])

update-GainsLock_example :
    GainsLock tracking (pos 2000) (low_offset tracking (pos 2000) (pos 5000000000))
unfolding update magnitude ◌+ℤ◌ ◌-ℤ◌
update-GainsLock_example =
    update-GainsLock whole tracking (pos 2000) (pos 5000000000) tracking-IsValid refl refl

update-LosesLock_example :
    LosesLock jumpy (pos 9000) (pos 5000000000) (low_offset jumpy (pos 9000) (pos 5000000000))
unfolding update magnitude ◌+ℤ◌ ◌-ℤ◌
update-LosesLock_example =
    update-LosesLock whole jumpy (pos 9000) (pos 5000000000) jumpy-IsValid refl refl refl

-- A jump of a locked servo with no strikes yet.
abbrev first_jump : Servo ℤ
first_jump = record jumpy { jump_strikes = 0 }

abbrev shifted : Outcome ℤ
shifted = update whole first_jump (pos 9000) (pos 5000000000)

differs : opposite (pos 9000) ≢ pos 0
unfolding opposite
differs e = cc e

window_push_lem_example :
    let (s', f) = window_push tracking (pos 2000) in
    (v : ℤ) × (f ≡ v +ℤ pos 0)
    × AtRank v (samples s')
    × (samples s'
        ≡ (pos 2000 -ℤ pos 0) ∷ newest tracking.win 0 0 (in_use s'.win_n4 s'.win_count - 1))
window_push_lem_example = window_push_lem tracking (pos 2000) tracking-IsValid
