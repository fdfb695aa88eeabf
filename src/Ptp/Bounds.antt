-- ===== src/Ptp/Bounds.antt =====
-- The bounds of the path delay that every round of the PTP task keeps.
use inferno_esp32_p.Ptp.{Ptp, PathMean, no_path, ts_ns}
use inferno_esp32_p.Ptp.PathDelay.{implausible, add_path_sample, mean, path_sample, delay_resp_at}
use inferno_esp32_p.Ptp.Mean.{
  Bounded, next_mean-Bounded, mean_le, no_negative, path_sample_path, mean_room,
}
use inferno_esp32_p.Prelude.Int.{
  neg_part, ℤ, pos, pos_part, negsuc, quotient, ◌+ℤ◌, quotient_parts, ◌-ℤ◌, +ℤ_parts, ltb_ℤ,
}
use inferno_esp32_p.Prelude.{
  ℕ, Bool-cases, arith, ◌≡◌, ◌≤◌, false, inl, true, ◌+◌, if◌then◌else◌, inr, leb, refl, Option,
  some, none, if_both, ltb, not, ◌&&◌, take, drop, ◌==◌, ◌-◌,
}
use inferno_esp32_p.Prelude.Words.{inc32}
use inferno_esp32_p.Ptp.Offset.{Env, acquire, apply_servo, compute_offset, follow, snap, use_offset}
use inferno_esp32_p.Ptp.Frames.{
  handle_delay_resp, handle_followup, handle_sync, sync_at, Frame, count_lost, note_master,
  ptp_assist,
}
use inferno_esp32_p.Ptp.Task.{dispatch, request, round, Task, send_delay_req}
use inferno_esp32_p.Wire.{rd32, byte, ptp_header_ok, rd16}
use inferno_esp32_p.Prelude.Bytes.{same_bytes}

-- What holds of the path delay between any two frames: the average is within its bound, and the
-- mean reported is at most 12.5 ms.
pub record PathIsValid {D : Type 0} (s : Ptp D) : Type 0 where
  pub kept : Bounded 10000000 s.path
  pub nonneg : neg_part s.global.mean_path_delay_ns ≡ 0
  pub below : pos_part s.global.mean_path_delay_ns ≤ 12500000

mean-le :
    (p : PathMean) (d : ℕ)
    → d ≤ 10000000
    → Bounded 10000000 p
    → 4 ≤ p.n + 1
    → (neg_part (mean (add_path_sample p (pos d))) ≡ 0)
      × (pos_part (mean (add_path_sample p (pos d))) ≤ 12500000)
mean-le p d h v k =
    let total = p.acc +ℤ pos d in
    rw (mean_room p (pos d) v.few) (
      omega (
        arith,
        quotient_parts total (p.n + 1),
        no_negative p.acc d v.positive,
        +ℤ_parts p.acc (pos d),
        mean_le (pos_part total) (p.n + 1) 10000000 k
            (omega (arith, +ℤ_parts p.acc (pos d), no_negative p.acc d v.positive)),
      ))

-- A plausible sample is a number up to 10 ms.
plausible : (d : ℤ) → implausible d ≡ false → (n : ℕ) × (d ≡ pos n) × (n ≤ 10000000)
unfolding implausible
plausible (pos n) h = (n, refl, ground arith)
plausible (negsuc n) h = absurd (ground arith)

no_path-Bounded : (b : ℕ) → Bounded b no_path
no_path-Bounded b = omega arith

module _ {D : Type 0} where
  -- The mean is reported from the fourth sample on.
  path_sample_report :
      (s : Ptp D) (d : ℤ)
      → implausible d ≡ false
      → (path_sample s d).global.mean_path_delay_ns ≡ (
          if leb 4 (inc32 s.path.n)
          then mean (add_path_sample s.path d)
          else s.global.mean_path_delay_ns)
  unfolding path_sample
  path_sample_report s d h = ground arith

  path_sample_rejected :
      (s : Ptp D) (d : ℤ)
      → implausible d ≡ true
      → ((path_sample s d).path ≡ s.path)
        × ((path_sample s d).global.mean_path_delay_ns ≡ s.global.mean_path_delay_ns)
  unfolding path_sample
  path_sample_rejected s d h = ground arith

  path_sample_nat :
      {s : Ptp D} (d : ℕ)
      → implausible (pos d) ≡ false
      → d ≤ 10000000
      → PathIsValid s
      → PathIsValid (path_sample s (pos d))
  path_sample_nat {s} d e h v = ground (
    arith,
    path_sample_path s (pos d) e,
    path_sample_report s (pos d) e,
    next_mean-Bounded 10000000 s.path d h v.kept,
    mean-le s.path d h v.kept,
  )

  path_sample-PathIsValid : {s : Ptp D} (d : ℤ) → PathIsValid s → PathIsValid (path_sample s d)
  path_sample-PathIsValid {s} d v = elim (Bool-cases (implausible d)) [
    | inl bad ↦ ground (arith, path_sample_rejected s d bad)
    | inr good ↦ let (n, e, h) = plausible d good in rw e (path_sample_nat n (rw e at good) h v)
  ]

  delay_resp_at-PathIsValid : {s : Ptp D} (t : ℤ) → PathIsValid s → PathIsValid (delay_resp_at s t)
  unfolding delay_resp_at
  delay_resp_at-PathIsValid {s} t v = ground (
    arith,
    path_sample-PathIsValid {s = record s { t4 = t; have_t3 = false }}
        (quotient (s.last_ms +ℤ (t -ℤ s.t3)) 2)
        (record { kept = v.kept; nonneg = v.nonneg; below = v.below }),
  )

  module _ (env : Env D) where
    apply_servo-PathIsValid :
        {s : Ptp D} (x : ℤ) → PathIsValid s → PathIsValid (apply_servo env s x)
    unfolding apply_servo
    apply_servo-PathIsValid x v = ground (arith, no_path-Bounded 10000000)

    acquire-PathIsValid : {s : Ptp D} (x : ℤ) → PathIsValid s → PathIsValid (acquire env s x)
    unfolding acquire
    acquire-PathIsValid {s} x v = ground (
      arith,
      no_path-Bounded 10000000,
      apply_servo-PathIsValid {s = record s { snapped = false }} x
          (record { kept = v.kept; nonneg = v.nonneg; below = v.below }),
    )

    snap-PathIsValid : {s : Ptp D} (x : ℤ) → PathIsValid s → PathIsValid (snap env s x)
    unfolding snap
    snap-PathIsValid {s} x v = ground (
      arith,
      apply_servo-PathIsValid {s = record s { snapped = true }} x
          (record { kept = v.kept; nonneg = v.nonneg; below = v.below }),
    )

    follow-PathIsValid : {s : Ptp D} (x : ℤ) → PathIsValid s → PathIsValid (follow env s x)
    unfolding follow
    follow-PathIsValid {s} x v = ground (arith, apply_servo-PathIsValid {s = s} x v)

    compute_offset-PathIsValid : {s : Ptp D} → PathIsValid s → PathIsValid (compute_offset env s)
    unfolding compute_offset use_offset
    compute_offset-PathIsValid {s} v =
        let raw = s.t2 -ℤ s.t1 in
        let paired : Ptp D = record s { last_ms = raw; have_ms = true } in
        let v' : PathIsValid paired = record {
          kept = v.kept;
          nonneg = v.nonneg;
          below = v.below;
        } in
        let offset = raw -ℤ s.global.mean_path_delay_ns in
        ground (
          arith,
          acquire-PathIsValid raw v',
          snap-PathIsValid offset v',
          follow-PathIsValid offset v',
        )

    count_lost-PathIsValid : {s : Ptp D} → PathIsValid s → PathIsValid (count_lost s)
    unfolding count_lost
    count_lost-PathIsValid {s} v =
        if_both PathIsValid s.awaiting_followup
          (record { kept = v.kept; nonneg = v.nonneg; below = v.below }) v

    sync_at-PathIsValid : {s : Ptp D} (f : Frame) → PathIsValid s → PathIsValid (sync_at env s f)
    unfolding sync_at
    sync_at-PathIsValid {s} f v =
        let got : Ptp D = record s { t2 = ts_ns f.ts_seconds f.ts_nanoseconds; have_t2 = true } in
        let w =
          count_lost-PathIsValid {s = got}
            (record { kept = v.kept; nonneg = v.nonneg; below = v.below }) in
        if_both PathIsValid (ptp_assist (byte f.payload 35))
          (record { kept = w.kept; nonneg = w.nonneg; below = w.below })
          (compute_offset-PathIsValid
            {s = record (count_lost got) {
              t1 = ts_ns (rd32 f.payload 40) (rd32 f.payload 44);
              have_t1 = true;
              awaiting_followup = false;
            }}
            (record { kept = w.kept; nonneg = w.nonneg; below = w.below }))

    handle_sync-PathIsValid :
        {s : Ptp D} (f : Frame) → PathIsValid s → PathIsValid (handle_sync env s f)
    unfolding handle_sync
    handle_sync-PathIsValid {s} f v =
        let noted : PathIsValid (note_master s f) = record {
          kept = v.kept;
          nonneg = v.nonneg;
          below = v.below;
        } in
        if_both PathIsValid (ltb (f.len - 40) 8) v (
          if_both PathIsValid (not f.ts_valid)
            (record { kept = v.kept; nonneg = v.nonneg; below = v.below })
            (sync_at-PathIsValid f noted))

    handle_followup-PathIsValid :
        {s : Ptp D} (f : Frame) → PathIsValid s → PathIsValid (handle_followup env s f)
    unfolding handle_followup
    handle_followup-PathIsValid {s} f v =
        let answered : Ptp D = record s {
          t1 = ts_ns (rd32 f.payload 44) (rd32 f.payload 48);
          have_t1 = true;
          awaiting_followup = false;
          global = record s.global { rx_followup = inc32 s.global.rx_followup };
        } in
        if_both PathIsValid (ltb f.len (40 + 12)) v (
          if_both PathIsValid (not s.awaiting_followup)
            (record { kept = v.kept; nonneg = v.nonneg; below = v.below })
            (if_both PathIsValid (not (rd16 f.payload 42 == s.pending_sync_seq))
              (record { kept = v.kept; nonneg = v.nonneg; below = v.below })
              (compute_offset-PathIsValid {s = answered}
                (record { kept = v.kept; nonneg = v.nonneg; below = v.below }))))

    handle_delay_resp-PathIsValid :
        {s : Ptp D} (f : Frame) → PathIsValid s → PathIsValid (handle_delay_resp s f)
    unfolding handle_delay_resp
    handle_delay_resp-PathIsValid {s} f v =
        let s' : Ptp D = record s {
          global = record s.global { rx_delay_resp = inc32 s.global.rx_delay_resp };
        } in
        let v' : PathIsValid s' = record { kept = v.kept; nonneg = v.nonneg; below = v.below } in
        if_both PathIsValid (ltb f.len (40 + 20)) v (
          if_both PathIsValid (not (same_bytes (take 6 (drop 50 f.payload)) s.uuid)) v' (
            if_both PathIsValid (not (rd16 f.payload 56 == s.port_id)) v' (
              if_both PathIsValid (not s.have_t3) v'
                (delay_resp_at-PathIsValid (ts_ns (rd32 f.payload 40) (rd32 f.payload 44)) v'))))

    dispatch-PathIsValid : {s : Ptp D} (f : Frame) → PathIsValid s → PathIsValid (dispatch env s f)
    unfolding dispatch
    dispatch-PathIsValid {s} f v =
        let control = byte f.payload 32 in
        if_both PathIsValid (not (ptp_header_ok f.payload f.len)) v (
          if_both PathIsValid (same_bytes (take 6 (drop 22 f.payload)) s.uuid) v (
            if_both PathIsValid (control == 0) (handle_sync-PathIsValid f v) (
              if_both PathIsValid (control == 2) (handle_followup-PathIsValid f v) (
                if_both PathIsValid (control == 3) (handle_delay_resp-PathIsValid f v)
                  (record { kept = v.kept; nonneg = v.nonneg; below = v.below })))))

    send_delay_req-PathIsValid :
        {s : Ptp D} (stamp : Option (ℕ × ℕ)) → PathIsValid s → PathIsValid (send_delay_req s stamp)
    unfolding send_delay_req
    send_delay_req-PathIsValid none v = record { kept = v.kept; nonneg = v.nonneg; below = v.below }
    send_delay_req-PathIsValid (some (a, b)) v = record {
      kept = v.kept;
      nonneg = v.nonneg;
      below = v.below;
    }

    request-PathIsValid :
        (k : Task D) (now : ℤ) (stamp : Option (ℕ × ℕ))
        → PathIsValid k.ptp
        → PathIsValid (request k now stamp).ptp
    unfolding request
    request-PathIsValid k now stamp v =
        if_both (λ (j : Task D). PathIsValid j.ptp)
          (k.ptp.global.have_master && not (ltb_ℤ now k.next_dreq_us))
          (send_delay_req-PathIsValid stamp v) v

    -- Every round of the PTP task, whatever the frame, the time and the driver are, keeps the average
    -- of the path delay within its bound and the reported mean between 0 and 12.5 ms.
    pub round-PathIsValid :
        (k : Task D) (frame : Option Frame) (now : ℤ) (stamp : Option (ℕ × ℕ))
        → PathIsValid k.ptp
        → PathIsValid (round env k frame now stamp).ptp
    unfolding round
    round-PathIsValid k none now stamp v = request-PathIsValid k now stamp v
    round-PathIsValid k (some f) now stamp v =
        request-PathIsValid (record k { ptp = dispatch env k.ptp f }) now stamp
          (dispatch-PathIsValid f v)
