-- ===== src/Servo.antt =====
-- main/ptp_servo.c and ptp_servo.h: the state of the PI servo on the PTP offset. Its parts are in
-- the modules below: the low-edge window, the frequency pre-estimate, and the update.
pub mod Window
pub mod Estimate
pub mod Update
pub mod Bounds
pub mod Hysteresis
pub mod Steps
pub mod LowEdge
mod Tests
use inferno_esp32_p.Prelude.{ℕ, ◌≡◌, ◌<◌, ◌≤◌, Bool, false, List, length, replicate}
use inferno_esp32_p.Prelude.Int.{ℤ, pos, Within}

abbrev pub win_locked : ℕ
win_locked = 32

abbrev pub win_acq : ℕ
win_acq = 8

-- `ptp_servo_t`. `D` is the type of the four `double` sums of the estimate.
pub record Servo (D : Type 0) : Type 0 where
  pub locked : Bool
  pub offset_ns : ℤ
  pub filtered_ns : ℤ
  pub rate_ppb : ℤ
  pub integral_ns : ℤ
  pub updates : ℕ
  pub steps : ℕ
  pub win : List ℤ
  pub win_pos : ℕ
  pub win_count : ℕ
  pub win_n4 : ℕ
  pub comp_ns : ℤ
  pub last_t_ns : ℤ
  pub lock_streak : ℕ
  pub unlock_streak : ℕ
  pub jump_run : ℕ
  pub jump_strikes : ℕ
  pub last_jump_t_ns : ℤ
  pub shifts : ℕ
  pub est_done : Bool
  pub est_n : ℕ
  pub est_t0_ns : ℤ
  pub est_off0_ns : ℤ
  pub est_sx : D
  pub est_sy : D
  pub est_sxx : D
  pub est_sxy : D
  pub applied_ppb : ℤ

-- memset to zero bytes; `zero` is the double whose bytes are all zero.
abbrev pub init : {D : Type 0} → D → Servo D
init zero = record {
  locked = false;
  offset_ns = pos 0;
  filtered_ns = pos 0;
  rate_ppb = pos 0;
  integral_ns = pos 0;
  updates = 0;
  steps = 0;
  win = replicate win_locked (pos 0);
  win_pos = 0;
  win_count = 0;
  win_n4 = 0;
  comp_ns = pos 0;
  last_t_ns = pos 0;
  lock_streak = 0;
  unlock_streak = 0;
  jump_run = 0;
  jump_strikes = 0;
  last_jump_t_ns = pos 0;
  shifts = 0;
  est_done = false;
  est_n = 0;
  est_t0_ns = pos 0;
  est_off0_ns = pos 0;
  est_sx = zero;
  est_sy = zero;
  est_sxx = zero;
  est_sxy = zero;
  applied_ppb = pos 0;
}

unfoldable pub clear_filter : {D : Type 0} → Servo D → Servo D
clear_filter s = record s { win_pos = 0; win_count = 0; comp_ns = pos 0 }

-- What every call of the servo keeps: the indices of the window, the clamps, and the counters of
-- the lock logic.
pub record IsValid {D : Type 0} (s : Servo D) : Type 0 where
  pub win_len : length s.win ≡ win_locked
  pub pos_in : s.win_pos < win_locked
  pub count_in : s.win_count ≤ win_locked
  pub n4_in : s.win_n4 ≤ 128
  pub rate_in : Within 100000 s.rate_ppb
  pub applied_in : Within 200000 s.applied_ppb
  pub integral_in : Within 100000000 s.integral_ns
  pub streak_in : s.lock_streak ≤ 8
  pub streak_low : s.locked ≡ false → s.lock_streak < 8
  pub unlock_idle : s.unlock_streak ≡ 0
  pub run_in : s.jump_run < 8
  pub strikes_in : s.jump_strikes < 3
