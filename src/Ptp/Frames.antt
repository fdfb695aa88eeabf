-- ===== src/Ptp/Frames.antt =====
-- The handlers of main/ptpv1.c for Sync, Follow_Up and Delay_Resp.
use inferno_esp32_p.Ptp.{Ptp, ts_ns}
use inferno_esp32_p.Prelude.{
  List, if◌then◌else◌, ℕ, Bool, ltb, take, true, ◌+◌, ◌-◌, ◌/◌, drop, not, ◌^◌, false, ◌%◌, ◌==◌,
}
use inferno_esp32_p.Wire.{rd16, rd32, byte}
use inferno_esp32_p.Ptp.Offset.{Env, compute_offset}
use inferno_esp32_p.Ptp.PathDelay.{delay_resp_at}
use inferno_esp32_p.Prelude.Words.{inc32}
use inferno_esp32_p.Prelude.Bytes.{same_bytes}

-- `eth_ts_ptp_frame_t`: the UDP payload and the hardware timestamp of its receipt.
pub record Frame : Type 0 where
  pub payload : List ℕ
  pub len : ℕ
  pub ts_seconds : ℕ
  pub ts_nanoseconds : ℕ
  pub ts_valid : Bool

-- flags & PTP1_FLAG_PTP_ASSIST
unfoldable pub ptp_assist : ℕ → Bool
ptp_assist flags = flags / 2 ^ 3 % 2 == 1

module _ {D : Type 0} where
  -- The Leader is whoever sends Sync.
  unfoldable pub note_master : Ptp D → Frame → Ptp D
  unfolding rd16
  note_master s f = record s {
    global = record s.global {
      rx_sync = inc32 s.global.rx_sync;
      master_uuid = take 6 (drop 22 f.payload);
      master_port_id = rd16 f.payload 28;
      have_master = true;
    };
  }

  -- A Sync while the last one waits for its Follow_Up means that one was lost.
  unfoldable pub count_lost : Ptp D → Ptp D
  count_lost s =
      if s.awaiting_followup
      then record s { global = record s.global { lost_followup = inc32 s.global.lost_followup } }
      else s

  -- With a hardware stamp: wait for the Follow_Up, or take t1 from the Sync itself.
  unfoldable pub sync_at : Env D → Ptp D → Frame → Ptp D
  unfolding ts_ns count_lost ptp_assist compute_offset rd32 rd16
  sync_at env s f =
      let s' = count_lost (record s { t2 = ts_ns f.ts_seconds f.ts_nanoseconds; have_t2 = true }) in
      if ptp_assist (byte f.payload 35)
      then record s' {
        pending_sync_seq = rd16 f.payload 30;
        awaiting_followup = true;
        have_t1 = false;
      }
      else compute_offset env (record s' {
        t1 = ts_ns (rd32 f.payload 40) (rd32 f.payload 44);
        have_t1 = true;
        awaiting_followup = false;
      })

  unfoldable pub handle_sync : Env D → Ptp D → Frame → Ptp D
  unfolding note_master sync_at
  handle_sync env s f =
      if ltb (f.len - 40) 8
      then s
      else let s' = note_master s f in
        if not f.ts_valid
        then record s' { global = record s'.global { no_hw_ts = inc32 s'.global.no_hw_ts } }
        else sync_at env s' f

  unfoldable pub handle_followup : Env D → Ptp D → Frame → Ptp D
  unfolding ts_ns compute_offset rd16 rd32
  handle_followup env s f =
      if ltb f.len (40 + 12)
      then s
      else let s' = record s {
        global = record s.global { rx_followup = inc32 s.global.rx_followup };
      } in
        if not s.awaiting_followup
        then record s' {
          global = record s'.global { orphan_followup = inc32 s'.global.orphan_followup };
        }
        else if not (rd16 f.payload 42 == s.pending_sync_seq)
        then record s' { global = record s'.global { mispair = inc32 s'.global.mispair } }
        else compute_offset env (record s' {
          t1 = ts_ns (rd32 f.payload 44) (rd32 f.payload 48);
          have_t1 = true;
          awaiting_followup = false;
        })

  unfoldable pub handle_delay_resp : Ptp D → Frame → Ptp D
  unfolding ts_ns delay_resp_at rd16 rd32 same_bytes
  handle_delay_resp s f =
      if ltb f.len (40 + 20)
      then s
      else let s' = record s {
        global = record s.global { rx_delay_resp = inc32 s.global.rx_delay_resp };
      } in
        if not (same_bytes (take 6 (drop 50 f.payload)) s.uuid)
        then s'
        else if not (rd16 f.payload 56 == s.port_id)
        then s'
        else if not s.have_t3
        then s'
        else delay_resp_at s' (ts_ns (rd32 f.payload 40) (rd32 f.payload 44))
