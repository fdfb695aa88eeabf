-- ===== src/Ptp/Pairing.antt =====
-- How Sync, Follow_Up and Delay_Resp pair up.
use inferno_esp32_p.Ptp.{Ptp, ts_ns, Servo}
use inferno_esp32_p.Ptp.Offset.{
  Env, compute_offset, acquire, apply_servo, follow, path_known, use_offset,
}
use inferno_esp32_p.Ptp.Frames.{
  Frame, handle_sync, handle_followup, count_lost, sync_at, note_master, ptp_assist,
}
use inferno_esp32_p.Prelude.{
  ◌≡◌, false, ◌⊎◌, ◌≢◌, inl, arith, inr, ◌<◌, lt→ltb, Bool-cases, ltb, ◌==◌, refl, ◌≤◌,
  le→ltb_false, true, ◌-◌, ==_iff, ap, if_false, if_true, ◌∙◌, not, ap₂, ◌||◌, Bool, ◌&&◌,
}
use inferno_esp32_p.Wire.{rd16, rd32, byte}
use inferno_esp32_p.Prelude.Int.{ℤ, ◌-ℤ◌}
use inferno_esp32_p.Prelude.Words.{inc32}
use inferno_esp32_p.Servo.Update.{update, outside}

-- The state with other counters only.
abbrev pub SameTiming : {D : Type 0} → Ptp D → Ptp D → Type 0
SameTiming a b = (record a { global = b.global }) ≡ b

-- The two frames of a two-step Sync: both long enough, the Sync stamped and announcing a
-- Follow_Up, and the Follow_Up naming its sequence number.
pub record TwoStep (sync fu : Frame) : Type 0 where
  pub sync_len : 48 ≤ sync.len
  pub fu_len : 52 ≤ fu.len
  pub stamped : sync.ts_valid ≡ true
  pub assist : ptp_assist (byte sync.payload 35) ≡ true
  pub named : rd16 fu.payload 42 ≡ rd16 sync.payload 30

-- The time of receipt of a Sync, and the origin time in a Follow_Up.
abbrev pub received : Frame → ℤ
received f = ts_ns f.ts_seconds f.ts_nanoseconds

abbrev pub origin : Frame → ℤ
origin f = ts_ns (rd32 f.payload 44) (rd32 f.payload 48)

module _ {D : Type 0} (env : Env D) where
  -- A Follow_Up that is short, unexpected or for another Sync changes counters at most: no
  -- timestamp, no flag, nothing of the servo, no call to the clock, and none of the public values.
  pub stray_followup :
      (s : Ptp D) (f : Frame)
      → ((f.len < 52) ⊎ ((s.awaiting_followup ≡ false) ⊎ (rd16 f.payload 42 ≢ s.pending_sync_seq)))
      → let s' = handle_followup env s f in
        SameTiming s s'
        × (s'.global.locked ≡ s.global.locked)
        × (s'.global.offset_ns ≡ s.global.offset_ns)
        × (s'.global.mean_path_delay_ns ≡ s.global.mean_path_delay_ns)
        × (s'.global.step_count ≡ s.global.step_count)
  unfolding handle_followup
  stray_followup s f (inl short) = rw (lt→ltb f.len 52 short) (refl, refl, refl, refl, refl)
  stray_followup s f (inr (inl idle)) = elim (Bool-cases (ltb f.len 52)) [
    | inl short ↦ rw short (refl, refl, refl, refl, refl)
    | inr long ↦ rw (long, idle) (refl, refl, refl, refl, refl)
  ]
  stray_followup s f (inr (inr other)) =
      let e : (rd16 f.payload 42 == s.pending_sync_seq) ≡ false = ground arith in
      elim (Bool-cases (ltb f.len 52)) [
        | inl short ↦ rw short (refl, refl, refl, refl, refl)
        | inr long ↦ elim (Bool-cases s.awaiting_followup) [
          | inl waits ↦ rw (long, waits, e) (refl, refl, refl, refl, refl)
          | inr idle ↦ rw (long, idle) (refl, refl, refl, refl, refl)
        ]
      ]

  -- The state in which the second frame of a pair is paired.
  abbrev paired : Ptp D → Frame → Frame → Ptp D
  paired s sync fu =
      let noted = count_lost (record (note_master s sync) { t2 = received sync; have_t2 = true }) in
      record noted {
        pending_sync_seq = rd16 sync.payload 30;
        awaiting_followup = false;
        t1 = origin fu;
        have_t1 = true;
        global = record noted.global { rx_followup = inc32 noted.global.rx_followup };
      }

  count_lost_kept :
      (s : Ptp D)
      → ((count_lost s).servo ≡ s.servo)
        × ((count_lost s).have_t2 ≡ s.have_t2)
        × ((count_lost s).t2 ≡ s.t2)
        × ((count_lost s).path_fresh ≡ s.path_fresh)
        × ((count_lost s).snapped ≡ s.snapped)
        × ((count_lost s).global.mean_path_delay_ns ≡ s.global.mean_path_delay_ns)
  unfolding count_lost
  count_lost_kept s = ground arith

  two_step :
      (s : Ptp D) (sync fu : Frame)
      → TwoStep sync fu
      → handle_followup env (handle_sync env s sync) fu ≡ compute_offset env (paired s sync fu)
  unfolding handle_followup handle_sync sync_at
  two_step s sync fu w = rw (
    le→ltb_false (sync.len - 40) 8 (omega (arith, w.sync_len)),
    w.stamped,
    w.assist,
    le→ltb_false fu.len 52 w.fu_len,
    (==_iff (rd16 fu.payload 42) (rd16 sync.payload 30)).1 w.named,
  )

  apply_servo_servo :
      (s : Ptp D) (x : ℤ) → (apply_servo env s x).servo ≡ (update env.doubles s.servo x s.t2).servo
  unfolding apply_servo
  apply_servo_servo s x = ground arith

  acquire_servo :
      (s : Ptp D) (x : ℤ) → (acquire env s x).servo ≡ (update env.doubles s.servo x s.t2).servo
  unfolding acquire
  acquire_servo s x = ground (arith, apply_servo_servo (record s { snapped = false }) x)

  follow_servo :
      (s : Ptp D) (x : ℤ) → (follow env s x).servo ≡ (update env.doubles s.servo x s.t2).servo
  unfolding follow
  follow_servo s x = ground (arith, apply_servo_servo s x)

  compute_offset_servo :
      (s : Ptp D)
      → s.have_t1 ≡ true
      → s.have_t2 ≡ true
      → (compute_offset env s).servo ≡ (use_offset env s).servo
  unfolding compute_offset
  compute_offset_servo s a b =
      ap (λ (r : Ptp D). r.servo) (if_false (not s.have_t1 || not s.have_t2) _ _ (ground arith))

  use_offset_acquiring :
      (s : Ptp D)
      → s.servo.est_done ≡ false
      → (use_offset env s).servo ≡ (update env.doubles s.servo (s.t2 -ℤ s.t1) s.t2).servo
  unfolding use_offset
  use_offset_acquiring s h =
      ap (λ (r : Ptp D). r.servo) (if_true (not s.servo.est_done) _ _ (ground arith))
      ∙ acquire_servo (record s { last_ms = s.t2 -ℤ s.t1; have_ms = true }) (s.t2 -ℤ s.t1)

  use_offset_tracking :
      (s : Ptp D)
      → s.servo.est_done ≡ true
      → path_known s ≡ true
      → s.snapped ≡ true
      → (use_offset env s).servo
        ≡ (update env.doubles s.servo (s.t2 -ℤ s.t1 -ℤ s.global.mean_path_delay_ns) s.t2).servo
  unfolding use_offset
  use_offset_tracking s h k n =
      ap (λ (r : Ptp D). r.servo)
        (if_false (not s.servo.est_done) _ _ (ap not h)
          ∙ if_false (not (path_known s)) _ _ (ap not k)
          ∙ if_false (not s.snapped) _ _ (ap not n))
      ∙ follow_servo (record s { last_ms = s.t2 -ℤ s.t1; have_ms = true })
          (s.t2 -ℤ s.t1 -ℤ s.global.mean_path_delay_ns)

  -- While the frequency is being estimated, a two-step Sync and its Follow_Up feed the servo the
  -- time of receipt less the origin time, at that time of receipt, whatever was pending before.
  pub TwoStep-acquiring :
      (s : Ptp D) (sync fu : Frame)
      → TwoStep sync fu
      → s.servo.est_done ≡ false
      → (handle_followup env (handle_sync env s sync) fu).servo
        ≡ (update env.doubles s.servo (received sync -ℤ origin fu) (received sync)).servo
  unfolding note_master
  TwoStep-acquiring s sync fu w h =
      let p = paired s sync fu in
      let kept =
        count_lost_kept (record (note_master s sync) { t2 = received sync; have_t2 = true }) in
      ap (λ (r : Ptp D). r.servo) (two_step s sync fu w)
      ∙ compute_offset_servo p refl kept.1
      ∙ use_offset_acquiring p (ap (λ (v : Servo D). v.est_done) kept.0 ∙ h)
      ∙ ap₂ (λ (v : Servo D) (t : ℤ). (update env.doubles v (t -ℤ origin fu) t).servo) kept.0 kept.2

  -- Once the frequency and the path delay are known and the phase is snapped, a two-step Sync and
  -- its Follow_Up feed the servo the time of receipt less the origin time and less the mean path
  -- delay, at that time of receipt.
  pub TwoStep-tracking :
      (s : Ptp D) (sync fu : Frame)
      → TwoStep sync fu
      → s.servo.est_done ≡ true
      → path_known s ≡ true
      → s.snapped ≡ true
      → (handle_followup env (handle_sync env s sync) fu).servo
        ≡ (update env.doubles s.servo
            (received sync -ℤ origin fu -ℤ s.global.mean_path_delay_ns)
            (received sync)).servo
  unfolding note_master path_known
  TwoStep-tracking s sync fu w h k n =
      let p = paired s sync fu in
      let kept =
        count_lost_kept (record (note_master s sync) { t2 = received sync; have_t2 = true }) in
      let known = ap₂ (λ (m : ℤ) (b : Bool). outside 0 m && b) kept.5 kept.3 in
      ap (λ (r : Ptp D). r.servo) (two_step s sync fu w)
      ∙ compute_offset_servo p refl kept.1
      ∙ use_offset_tracking p (ap (λ (v : Servo D). v.est_done) kept.0 ∙ h) (known ∙ k) (kept.4 ∙ n)
      ∙ ap
          (λ (v : Servo D).
            (update env.doubles v (p.t2 -ℤ origin fu -ℤ p.global.mean_path_delay_ns) p.t2).servo)
          kept.0
      ∙ ap₂ (λ (t m : ℤ). (update env.doubles s.servo (t -ℤ origin fu -ℤ m) t).servo) kept.2 kept.5
