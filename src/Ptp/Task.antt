-- ===== src/Ptp/Task.antt =====
-- `send_delay_req` and one round of `ptp_task` of main/ptpv1.c.
use inferno_esp32_p.Ptp.{Ptp, ts_ns}
use inferno_esp32_p.Ptp.Offset.{Env}
use inferno_esp32_p.Ptp.Frames.{Frame, handle_sync, handle_followup, handle_delay_resp}
use inferno_esp32_p.Prelude.{
  Option, ℕ, List, if◌then◌else◌, some, not, replicate, true, ◌&&◌, take, drop, ◌+◌, leb, ◌==◌, ◌*◌,
  ◌∷◌, none,
}
use inferno_esp32_p.Prelude.Int.{ℤ, ltb_ℤ, ◌+ℤ◌, pos}
use inferno_esp32_p.Wire.{ptp_header_ok, ptp_put_header, ptp_hdr_len, byte}
use inferno_esp32_p.Prelude.Words.{inc16, inc32}
use inferno_esp32_p.Prelude.Bytes.{same_bytes}
use inferno_esp32_p.Ptp.PathDelay.{pd_min_samples}

abbrev pub delay_req_ms : ℕ
delay_req_ms = 4000

abbrev pub delay_req_fast_ms : ℕ
delay_req_fast_ms = 250

-- The task's variables: the module's state, the next Delay_Req, and the requests sent, latest first.
pub record Task (D : Type 0) : Type 0 where
  pub ptp : Ptp D
  pub next_dreq_us : ℤ
  pub sent : List (List ℕ)

-- The Delay_Req packet: the header and a body of zeros.
unfoldable pub delay_req : {D : Type 0} → Ptp D → List ℕ
unfolding ptp_put_header
delay_req s = ptp_put_header (replicate (ptp_hdr_len + 84) 0) s.uuid s.port_id 1 1 s.delay_req_seq

-- `stamp` is the transmit timestamp that the driver returns, `none` if the send failed.
unfoldable pub send_delay_req : {D : Type 0} → Ptp D → Option (ℕ × ℕ) → Ptp D
unfolding ts_ns
send_delay_req s none = record s { delay_req_seq = inc16 s.delay_req_seq }
send_delay_req s (some (sec, nsec)) = record s {
  t3 = ts_ns sec nsec;
  have_t3 = true;
  delay_req_seq = inc16 s.delay_req_seq;
  global = record s.global { tx_delay_req = inc32 s.global.tx_delay_req };
}

-- The frame of a round: a PTPv1 header from another sender goes to the handler of its control
-- field.
unfoldable pub dispatch : {D : Type 0} → Env D → Ptp D → Frame → Ptp D
unfolding ptp_header_ok same_bytes handle_sync handle_followup handle_delay_resp
dispatch env s f =
    if not (ptp_header_ok f.payload f.len)
    then s
    else if same_bytes (take 6 (drop 22 f.payload)) s.uuid
    then s
    else let control = byte f.payload 32 in
      if control == 0
      then handle_sync env s f
      else if control == 2
      then handle_followup env s f
      else if control == 3
      then handle_delay_resp s f
      else record s { global = record s.global { rx_other = inc32 s.global.rx_other } }

-- The Delay_Req of a round, if one is due.
unfoldable pub request : {D : Type 0} → Task D → ℤ → Option (ℕ × ℕ) → Task D
unfolding send_delay_req
request k now stamp =
    if k.ptp.global.have_master && not (ltb_ℤ now k.next_dreq_us)
    then record {
      ptp = send_delay_req k.ptp stamp;
      next_dreq_us =
          now
          +ℤ pos (
              (if leb pd_min_samples k.ptp.path.n then delay_req_ms else delay_req_fast_ms) * 1000);
      sent = delay_req k.ptp ∷ k.sent;
    }
    else k

-- A round: a frame from the queue, if any, and then the clock.
unfoldable pub round : {D : Type 0} → Env D → Task D → Option Frame → ℤ → Option (ℕ × ℕ) → Task D
unfolding dispatch request
round env k none now stamp = request k now stamp
round env k (some f) now stamp = request (record k { ptp = dispatch env k.ptp f }) now stamp
