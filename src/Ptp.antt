-- ===== src/Ptp.antt =====
-- main/ptpv1.c: the slave's state and what its parts share. Timestamps are in nanoseconds.
pub mod PathDelay
pub mod Offset
pub mod Frames
pub mod Task
pub mod Mean
pub mod Bounds
pub mod Pairing
mod Tests
use inferno_esp32_p.Prelude.{ℕ, Bool, true, false, List, [], ◌∷◌, ◌+◌, ◌*◌}
use inferno_esp32_p.Prelude.Int.{ℤ, pos}
use inferno_esp32_p.Servo.{Servo}
use inferno_esp32_p.Servo

-- `ptpv1_state_t`, the state that the other parts read.
pub record Public : Type 0 where
  pub locked : Bool
  pub have_master : Bool
  pub master_uuid : List ℕ
  pub master_port_id : ℕ
  pub offset_ns : ℤ
  pub filtered_ns : ℤ
  pub lock_losses : ℕ
  pub mean_path_delay_ns : ℤ
  pub rx_sync : ℕ
  pub rx_followup : ℕ
  pub rx_delay_resp : ℕ
  pub rx_other : ℕ
  pub lost_followup : ℕ
  pub orphan_followup : ℕ
  pub mispair : ℕ
  pub no_hw_ts : ℕ
  pub tx_delay_req : ℕ
  pub servo_updates : ℕ
  pub rate_ppb : ℤ
  pub step_count : ℕ
  pub path_delay_rejected : ℕ
  pub phase_shifts : ℕ
  pub out_ppb : ℤ
  pub rate_adj_failed : ℕ
  pub rate_adj_last_err : ℕ

-- The average of the path delay.
pub record PathMean : Type 0 where
  pub acc : ℤ
  pub n : ℕ

-- What the slave tells the clock, latest first.
pub data ClockCall : Type 0 where
  step_time : ℤ → ClockCall
  set_rate : ℤ → ClockCall

-- The static variables of the module.
pub record Ptp (D : Type 0) : Type 0 where
  pub global : Public
  pub servo : Servo D
  pub uuid : List ℕ
  pub port_id : ℕ
  pub delay_req_seq : ℕ
  pub t1 : ℤ
  pub t2 : ℤ
  pub t3 : ℤ
  pub t4 : ℤ
  pub have_t1 : Bool
  pub have_t2 : Bool
  pub have_t3 : Bool
  pub awaiting_followup : Bool
  pub pending_sync_seq : ℕ
  pub path : PathMean
  pub last_ms : ℤ
  pub have_ms : Bool
  pub snapped : Bool
  pub path_fresh : Bool
  pub was_est : Bool
  pub was_locked : Bool
  pub calls : List ClockCall

abbrev pub no_path : PathMean
no_path = record { acc = pos 0; n = 0 }

-- (int64_t)sec * 1000000000LL + nsec
unfoldable pub ts_ns : ℕ → ℕ → ℤ
ts_ns sec nsec = pos (sec * 1000000000 + nsec)

unfoldable pub path_delay_invalidate : {D : Type 0} → Ptp D → Ptp D
path_delay_invalidate s = record s {
  path_fresh = false;
  have_t3 = false;
  have_ms = false;
  path = no_path;
}
