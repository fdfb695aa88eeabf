-- ===== src/Ptp/PathDelay.antt =====
-- The path delay of main/ptpv1.c: the part of `handle_delay_resp` behind the checks of the frame.
use inferno_esp32_p.Ptp.{Ptp, PathMean}
use inferno_esp32_p.Prelude.{ℕ, Bool, false, ltb, not, ◌/◌, leb, ◌||◌, ◌&&◌, true, if◌then◌else◌}
use inferno_esp32_p.Prelude.Int.{ℤ, quotient, ◌+ℤ◌, ltb_ℤ, pos, ◌-ℤ◌}
use inferno_esp32_p.Prelude.Words.{inc32}

abbrev pub pd_min_samples : ℕ
pd_min_samples = 4

-- d < 0 || d > 10000000
unfoldable pub implausible : ℤ → Bool
implausible d = ltb_ℤ d (pos 0) || ltb_ℤ (pos 10000000) d

unfoldable pub add_path_sample : PathMean → ℤ → PathMean
add_path_sample p d = record { acc = p.acc +ℤ d; n = inc32 p.n }

-- s_path_delay_acc / (int64_t)s_path_delay_n
unfoldable pub mean : PathMean → ℤ
mean p = quotient p.acc p.n

-- Past sixteen samples both halves are halved.
unfoldable pub slide : PathMean → PathMean
slide p = if ltb 16 p.n then record { acc = quotient p.acc 2; n = p.n / 2 } else p

-- One sample of the path delay, from `d` on.
unfoldable pub path_sample : {D : Type 0} → Ptp D → ℤ → Ptp D
unfolding implausible add_path_sample mean slide
path_sample s d =
    if implausible d
    then record s {
      global = record s.global { path_delay_rejected = inc32 s.global.path_delay_rejected };
    }
    else let p = add_path_sample s.path d in
      if leb pd_min_samples p.n
      then record s {
        path = slide p;
        path_fresh = if s.servo.est_done && not s.path_fresh then true else s.path_fresh;
        global = record s.global { mean_path_delay_ns = mean p };
      }
      else record s { path = p }

-- From the arrival of t4 on: t3 is used up, and pairs with the last t2 - t1 if there is one.
unfoldable pub delay_resp_at : {D : Type 0} → Ptp D → ℤ → Ptp D
unfolding path_sample
delay_resp_at s t4 =
    let s' = record s { t4 = t4; have_t3 = false } in
    if not s.have_ms then s' else path_sample s' (quotient (s.last_ms +ℤ (t4 -ℤ s.t3)) 2)
