-- ===== src/AudioRx/Packet.antt =====
-- `handle_packet` of main/aoip_rx.c: what one packet does to its flow, to the ring and the meters.
use inferno_esp32_p.AudioRx.{Flow, Receiver, RxStats, flow_at, with_flow}
use inferno_esp32_p.JitterBuf.{Ring}
use inferno_esp32_p.JitterBuf.Write.{jb_write, is_local}
use inferno_esp32_p.Wire.{audio_parse, ts_to_samples, rd24}
use inferno_esp32_p.Prelude.{
  ℕ, Bool, Option, none, some, List, if◌then◌else◌, suc, ◌+◌, drop, ltb, not, ◌&&◌, ◌^◌, ◌∷◌,
  get_or, ◌%◌, ◌*◌, ◌-◌, ◌/◌, ◌||◌, max, true, ◌==◌, set, zero, [],
}
use inferno_esp32_p.Prelude.Int.{ℤ, pos, magnitude, ltb_ℤ, shift_right, pos_part}
use inferno_esp32_p.Prelude.Words.{to_signed, inc32, to_i32}

-- What a packet is handled at: the media clock's sample index, if there is one, the time in
-- microseconds, and the rate.
pub record Now : Type 0 where
  pub samples : Option ℕ
  pub time_us : ℤ
  pub hz : ℕ

-- The difference of two sample indices, modulo 2 ^ 64 and as a signed number.
unfoldable pub ahead_of : ℕ → ℕ → ℤ
ahead_of a b = to_signed 64 ((a + 2 ^ 64 - b) % 2 ^ 64)

-- The measured latency of a packet at `idx`, with 0 in place of more than 50 ms.
unfoldable pub latency : ℕ → ℕ → ℕ → ℤ
unfolding ahead_of
latency now idx hz = let d = ahead_of now idx in if ltb_ℤ (pos (hz / 20)) d then pos 0 else d

unfoldable pub note_latency : Now → ℕ → Flow → Flow
unfolding latency
note_latency now idx f = elim now.samples [
  | none ↦ f
  | some n ↦ record f {
    lat_max =
        if ltb_ℤ f.lat_max (latency n idx now.hz) then to_i32 (latency n idx now.hz) else f.lat_max;
  }
]

unfoldable pub note_latency_max : Now → ℕ → RxStats → RxStats
unfolding latency
note_latency_max now idx s = elim now.samples [
  | none ↦ s
  | some n ↦ record s {
    lat_max_samples =
        if ltb_ℤ s.lat_max_samples (latency n idx now.hz)
        then to_i32 (latency n idx now.hz)
        else s.lat_max_samples;
  }
]

-- The packets that a jump of the timestamps has left out, up to 1000.
unfoldable pub gap : ℕ → ℕ → ℕ → ℕ
gap idx next nframes =
    let g = (idx + 2 ^ 64 - next) % 2 ^ 64 / nframes in if ltb 1000 g then 1000 else g

unfoldable pub count_missed : ℕ → ℕ → Flow → Flow
unfolding ahead_of gap
count_missed idx nframes f =
    if f.have_next && ltb_ℤ (pos 0) (ahead_of idx f.next_idx)
    then record f { missed = (f.missed + gap idx f.next_idx nframes) % 2 ^ 32 }
    else f

unfoldable pub expect_next : ℕ → ℕ → Flow → Flow
unfolding ahead_of
expect_next idx nframes f =
    if not f.have_next || not (ltb_ℤ (ahead_of idx f.next_idx) (pos 0))
    then record f { next_idx = (idx + nframes) % 2 ^ 64; have_next = true }
    else f

-- |sample| on 24 bits.
unfoldable pub level : List ℕ → ℕ
level p = magnitude (shift_right (to_signed 32 (rd24 p 0 * 2 ^ 8)) 8)

-- The highest level of slot `s` in the frames from `p` on.
unfoldable pub slot_peak : ℕ → ℕ → ℕ → List ℕ → ℕ → ℕ
unfolding level
slot_peak zero nslots s p pk = pk
slot_peak (suc n) nslots s p pk =
    slot_peak n nslots s (drop (nslots * 3) p) (max pk (level (drop (s * 3) p)))

-- The input meters: slot `s` and the `n` - 1 after it.
unfoldable pub meter : ℕ → ℕ → ℕ → ℕ → List ℤ → List ℕ → Receiver → Receiver
unfolding slot_peak is_local
meter zero s nslots nframes chans p r = r
meter (suc n) s nslots nframes [] p r = r
meter (suc n) s nslots nframes (ch ∷ chans) p r =
    let pk = slot_peak nframes nslots s p (get_or r.peak_in (pos_part ch) 0) in
    meter n (s + 1) nslots nframes chans p (
      if is_local ch
      then record r {
        peak_in = set r.peak_in (pos_part ch) pk;
        peak_hb = set r.peak_hb (pos_part ch) (max (get_or r.peak_hb (pos_part ch) 0) pk);
      }
      else r)

-- The flow after a packet that the ring takes or not.
unfoldable pub flow_after : Now → ℕ → Bool → Flow → Flow
unfolding note_latency count_missed expect_next
flow_after now idx landed f =
    let f' = expect_next idx f.fpp (count_missed idx f.fpp (note_latency now idx f)) in
    record f' { missed = if landed then f'.missed else inc32 f'.missed; packets = inc32 f'.packets }

-- A packet of the right length: latency, missed packets, the ring, the meters, the counters.
unfoldable pub take_packet : Now → ℕ → ℕ → List ℕ → Receiver → Ring → Receiver × Ring
unfolding flow_after note_latency_max jb_write meter
take_packet now i idx samples r ring =
    let f = flow_at r i in
    let (landed, ring') =
      jb_write ring now.time_us now.hz idx f.fpp f.nslots f.slot_to_ch samples in
    let stats = note_latency_max now idx r.stats in
    let r' = meter f.nslots 0 f.nslots f.fpp f.slot_to_ch samples r in
    (
      record (with_flow r' i (flow_after now idx landed f)) {
        stats = record stats { packets = inc32 stats.packets };
      },
      ring',
    )

-- A packet `p` of `len` bytes for flow `i`.
unfoldable pub handle_packet : Now → ℕ → List ℕ → ℕ → Receiver → Ring → Receiver × Ring
unfolding audio_parse ts_to_samples take_packet
handle_packet now i p len r ring = elim (audio_parse p len) [
  | none ↦ (
    record r {
      stats =
          if ltb len 12
          then record r.stats { short_pkt = inc32 r.stats.short_pkt }
          else record r.stats { bad_magic = inc32 r.stats.bad_magic };
    },
    ring,
  )
  | some h ↦
      (let per_frame = (flow_at r i).nslots * 3 in
        if per_frame == 0 || not (h.sample_bytes == per_frame * (flow_at r i).fpp)
        then (record r { stats = record r.stats { wrong_len = inc32 r.stats.wrong_len } }, ring)
        else take_packet now i (ts_to_samples h.seconds h.subsec_samples now.hz) h.samples r ring)
]
