-- ===== src/Ptp/Offset.antt =====
-- `apply_servo` and `compute_offset` of main/ptpv1.c.
use inferno_esp32_p.Ptp.{Ptp, step_time, set_rate, path_delay_invalidate, no_path}
use inferno_esp32_p.Servo.Estimate.{Doubles}
use inferno_esp32_p.Prelude.{Bool, if◌then◌else◌, ℕ, false, not, true, ◌&&◌, ◌∷◌, ◌==◌, ◌||◌}
use inferno_esp32_p.Prelude.Int.{ℤ, opposite, ◌+ℤ◌, ◌-ℤ◌}
use inferno_esp32_p.Servo.{clear_filter}
use inferno_esp32_p.Servo.Update.{outside, update}
use inferno_esp32_p.Prelude.Words.{inc32}

-- What the module asks of others: the doubles of the servo's estimate, and the error code with
-- which the Ethernet driver answers a rate (0 is ESP_OK).
pub record Env (D : Type 0) : Type 0 where
  pub doubles : Doubles D
  pub set_rate_err : ℤ → ℕ

abbrev pub small_step_ns : ℕ
small_step_ns = 100000

module _ {D : Type 0} where
  -- The branch for a step of the clock.
  unfoldable pub take_step : Ptp D → ℤ → ℤ → Ptp D
  unfolding path_delay_invalidate
  take_step s ppb step =
      let s' =
        path_delay_invalidate (record s { calls = set_rate ppb ∷ step_time step ∷ s.calls }) in
      record s' {
        global =
            if outside small_step_ns step
            then record s'.global { out_ppb = ppb; step_count = inc32 s'.global.step_count }
            else record s'.global { out_ppb = ppb; phase_shifts = inc32 s'.global.phase_shifts };
      }

  -- The branch without one.
  unfoldable pub take_rate : Env D → Ptp D → ℤ → Ptp D
  take_rate env s ppb =
      let g = record s.global { out_ppb = ppb } in
      record s {
        calls = set_rate ppb ∷ s.calls;
        global = if env.set_rate_err ppb == 0 then g else record g {
          rate_adj_failed = inc32 g.rate_adj_failed;
          rate_adj_last_err = env.set_rate_err ppb;
        };
      }

  -- The milestones, and what the other parts read of the servo.
  unfoldable pub publish : Ptp D → Ptp D
  publish s = record s {
    was_est = s.servo.est_done;
    was_locked = s.servo.locked;
    global = record s.global {
      lock_losses =
          if not s.servo.locked && s.was_locked
          then inc32 s.global.lock_losses
          else s.global.lock_losses;
      locked = s.servo.locked;
      offset_ns = s.servo.offset_ns;
      filtered_ns = s.servo.filtered_ns;
      rate_ppb = s.servo.rate_ppb;
      servo_updates = s.servo.updates;
    };
  }

  unfoldable pub apply_servo : Env D → Ptp D → ℤ → Ptp D
  unfolding take_step take_rate publish
  apply_servo env s offset =
      let out = update env.doubles s.servo offset s.t2 in
      let s' = record s { servo = out.servo } in
      publish (
        if outside 0 out.step_ns
        then take_step s' out.ppb out.step_ns
        else take_rate env s' out.ppb)

  -- The frequency is not known yet: feed the raw difference, and drop the path samples once it is.
  unfoldable pub acquire : Env D → Ptp D → ℤ → Ptp D
  unfolding apply_servo
  acquire env s raw =
      let s' = apply_servo env (record s { snapped = false }) raw in
      if s'.servo.est_done then record s' { path = no_path; path_fresh = false } else s'

  -- The phase is snapped once, by a step beyond 5 us.
  unfoldable pub snap : Env D → Ptp D → ℤ → Ptp D
  unfolding apply_servo clear_filter
  snap env s offset =
      let s' = record s { snapped = true } in
      if outside 5000 offset
      then record s' {
        calls = step_time (opposite offset) ∷ s'.calls;
        have_t3 = false;
        have_ms = false;
        servo = clear_filter s'.servo;
        global = record s'.global { step_count = inc32 s'.global.step_count };
      }
      else apply_servo env s' offset

  unfoldable pub follow : Env D → Ptp D → ℤ → Ptp D
  unfolding apply_servo
  follow env s offset =
      let s' = apply_servo env s offset in
      if s'.servo.est_done && s'.servo.locked
      then record s' { last_ms = s'.servo.filtered_ns +ℤ s'.global.mean_path_delay_ns }
      else s'

  unfoldable pub path_known : Ptp D → Bool
  path_known s = outside 0 s.global.mean_path_delay_ns && s.path_fresh

  -- The stage of the acquisition that the offset of a pair goes to.
  unfoldable pub use_offset : Env D → Ptp D → Ptp D
  unfolding acquire snap follow path_known
  use_offset env s =
      let raw = s.t2 -ℤ s.t1 in
      let offset = raw -ℤ s.global.mean_path_delay_ns in
      let paired = record s { last_ms = raw; have_ms = true } in
      if not s.servo.est_done
      then acquire env paired raw
      else if not (path_known s)
      then record paired { global = record s.global { offset_ns = offset } }
      else if not s.snapped
      then snap env paired offset
      else follow env paired offset

  unfoldable pub compute_offset : Env D → Ptp D → Ptp D
  unfolding use_offset
  compute_offset env s =
      if not s.have_t1 || not s.have_t2
      then s
      else record (use_offset env s) { have_t1 = false; have_t2 = false }
