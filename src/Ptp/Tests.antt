-- ===== src/Ptp/Tests.antt =====
-- The PTP slave at concrete frames.
use inferno_esp32_p.Servo.{init}
use inferno_esp32_p.Servo.Estimate.{Doubles}
use inferno_esp32_p.Ptp.{Ptp, Public, PathMean, no_path, ◌∷◌}
use inferno_esp32_p.Ptp.Offset.{Env, path_known}
use inferno_esp32_p.Ptp.Frames.{Frame, handle_sync, handle_followup, ptp_assist}
use inferno_esp32_p.Ptp.Mean.{feed, mean_above_every_sample}
use inferno_esp32_p.Ptp.Pairing.{TwoStep, received, origin, TwoStep-tracking}
use inferno_esp32_p.Prelude.Int.{pos, ℤ, ◌<ℤ◌, ◌-ℤ◌}
use inferno_esp32_p.Prelude.{
  arith, false, replicate, some, ℕ, ◌≡◌, List, [], inr, refl, true, inl, ◌++◌, ◌+◌,
}
use inferno_esp32_p.Wire.{rd16}
use inferno_esp32_p.Servo.Update.{update}

abbrev whole : Doubles ℤ
whole = record {
  of_ℤ = λ x. x;
  add = λ x y. x;
  sub = λ x y. x;
  mul = λ x y. y;
  div = λ x y. x;
  nano = pos 1;
  not_positive = λ x. true;
  to_ℤ = λ x. x;
}

abbrev env : Env ℤ
env = record { doubles = whole; set_rate_err = λ ppb. 0 }

abbrev silent : Public
silent = record {
  locked = false;
  have_master = false;
  master_uuid = [];
  master_port_id = 0;
  offset_ns = pos 0;
  filtered_ns = pos 0;
  lock_losses = 0;
  mean_path_delay_ns = pos 0;
  rx_sync = 0;
  rx_followup = 0;
  rx_delay_resp = 0;
  rx_other = 0;
  lost_followup = 0;
  orphan_followup = 0;
  mispair = 0;
  no_hw_ts = 0;
  tx_delay_req = 0;
  servo_updates = 0;
  rate_ppb = pos 0;
  step_count = 0;
  path_delay_rejected = 0;
  phase_shifts = 0;
  out_ppb = pos 0;
  rate_adj_failed = 0;
  rate_adj_last_err = 0;
}

abbrev boot : Ptp ℤ
boot = record {
  global = silent;
  servo = init (pos 0);
  uuid = 2 ∷ 2 ∷ 2 ∷ 2 ∷ 2 ∷ 2 ∷ [];
  port_id = 1;
  delay_req_seq = 0;
  t1 = pos 0;
  t2 = pos 0;
  t3 = pos 0;
  t4 = pos 0;
  have_t1 = false;
  have_t2 = false;
  have_t3 = false;
  awaiting_followup = false;
  pending_sync_seq = 0;
  path = no_path;
  last_ms = pos 0;
  have_ms = false;
  snapped = false;
  path_fresh = false;
  was_est = false;
  was_locked = false;
  calls = [];
}

-- The estimate done, the path delay known and the phase snapped.
abbrev steady : Ptp ℤ
steady = record boot {
  servo = record boot.servo { est_done = true };
  global = record silent { mean_path_delay_ns = pos 24000 };
  path_fresh = true;
  snapped = true;
}

-- A PTPv1 header with the flags in byte 35, then the words of the body.
abbrev packet : ℕ → ℕ → ℕ → List ℕ → List ℕ
packet control seq flags body =
    0 ∷ 1 ∷ 0 ∷ 1 ∷ b'_' ∷ b'D' ∷ b'F' ∷ b'L' ∷ b'T' ∷ replicate 11 0
    ++ 1 ∷ 1 ∷ 9 ∷ 9 ∷ 9 ∷ 9 ∷ 9 ∷ 9 ∷ 0 ∷ 1 ∷ 0 ∷ seq ∷ control ∷ 0 ∷ 0 ∷ flags ∷ 0 ∷ 0 ∷ 0 ∷ 0
      ∷ body

abbrev sync : Frame
sync = record {
  payload = packet 0 5 8 (replicate 84 0);
  len = 124;
  ts_seconds = 10;
  ts_nanoseconds = 500;
  ts_valid = true;
}

abbrev followup : Frame
followup = record {
  payload = packet 2 6 0 (0 ∷ 0 ∷ 0 ∷ 5 ∷ 0 ∷ 0 ∷ 0 ∷ 10 ∷ 0 ∷ 0 ∷ 0 ∷ 100 ∷ []);
  len = 52;
  ts_seconds = 10;
  ts_nanoseconds = 900;
  ts_valid = true;
}

two_frames : TwoStep sync followup
unfolding rd16 ptp_assist
two_frames = record {
  sync_len = omega arith;
  fu_len = omega arith;
  stamped = refl;
  assist = refl;
  named = refl;
}

TwoStep-tracking_example :
    (handle_followup env (handle_sync env steady sync) followup).servo
    ≡ (update whole steady.servo
        (received sync -ℤ origin followup -ℤ pos 24000)
        (received sync)).servo
unfolding path_known
TwoStep-tracking_example = TwoStep-tracking env steady sync followup two_frames refl refl refl

mean_above_every_sample_example :
    pos 24000 <ℤ (feed boot (replicate (18 + 2) (pos 24000))).global.mean_path_delay_ns
mean_above_every_sample_example =
    mean_above_every_sample 24000 (omega arith) boot 2 refl (omega arith)

-- Twenty samples of 24 us read as 26 us.
biased_run : (feed boot (replicate 20 (pos 24000))).global.mean_path_delay_ns ≡ pos 25090
unfolding feed inferno_esp32_p.Ptp.PathDelay.path_sample inferno_esp32_p.Prelude.Int.quotient
    inferno_esp32_p.Prelude.Int.◌+ℤ◌
biased_run = refl
