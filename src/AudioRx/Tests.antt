-- ===== src/AudioRx/Tests.antt =====
-- Witnesses for the receiver.
use inferno_esp32_p.AudioRx.{Flow, Receiver, no_flow, flow_at}
use inferno_esp32_p.AudioRx.Packet.{Now, handle_packet}
use inferno_esp32_p.AudioRx.Missed.{Arrival}
use inferno_esp32_p.AudioRx.Guards.{handle_packet_refuses, handle_packet_takes, packet, written}
use inferno_esp32_p.JitterBuf.{Ring}
use inferno_esp32_p.Prelude.{[], arith, some, ◌∷◌, false, replicate, true, ◌≡◌, refl, List}
use inferno_esp32_p.Prelude.Int.{pos, negsuc}
use inferno_esp32_p.Wire.{ts_to_samples}
use inferno_esp32_p.JitterBuf.Write.{jb_write}

abbrev stereo : Flow
stereo = record no_flow {
  sock = some 55;
  active = true;
  nslots = 2;
  slot_to_ch = pos 0 ∷ pos 1 ∷ replicate 6 (negsuc 0);
  fpp = 16;
  port = 14336;
  next_idx = 48000;
  have_next = true;
}

abbrev listening : Receiver
listening = record {
  flows = stereo ∷ no_flow ∷ no_flow ∷ no_flow ∷ [];
  peak_in = replicate 8 0;
  peak_hb = replicate 8 0;
  stats = record {
    packets = 0;
    bad_magic = 0;
    short_pkt = 0;
    wrong_len = 0;
    ka_sent = 0;
    ka_failed = 0;
    lat_max_samples = pos 0;
    fast_packets = 0;
    stray_packets = 0;
    src_other = 0;
  };
  fast = true;
  ka_now = false;
}

abbrev idle_ring : Ring
idle_ring = record {
  buf = [];
  words = [];
  nbufs = 0;
  frames = 0;
  fshift = 0;
  mapped = 0;
  ready = false;
  next_k = 0;
  dma_end = 0;
  t_isr = pos 0;
  off = pos 0;
  anchored = false;
  rx_head = 0;
  stats = record {
    pkt_written = 0;
    pkt_late = 0;
    pkt_future = 0;
    pkt_malformed = 0;
    frames_underrun = 0;
    playout_steps = 0;
    isr_gaps = 0;
  };
  gain_q16 = 65536;
  gain_db = pos 0;
  mute = false;
  isr_max_us = 0;
}

abbrev at_one : Now
at_one = record { samples = some 48100; time_us = pos 1000000; hz = 48000 }

-- Two packets lost before the first, none before the second, which is too late.
abbrev arrivals : List Arrival
arrivals =
    record { lost = 2; now = at_one; landed = true }
    ∷ record { lost = 0; now = at_one; landed = false }
    ∷ []

-- A packet of one slot more.
handle_packet_refuses_example :
    let (r, ring) = handle_packet at_one 0 (2 ∷ replicate 152 0) 153 listening idle_ring in
    (r.flows ≡ listening.flows)
    × (ring ≡ idle_ring)
    × (r.peak_in ≡ listening.peak_in)
    × (r.peak_hb ≡ listening.peak_hb)
handle_packet_refuses_example =
    handle_packet_refuses at_one 0 (2 ∷ replicate 152 0) 153 listening idle_ring
      (λ e. absurd (omega (arith, e)))

-- A packet with two missing before it; the ring, which is not ready, does not take it.
handle_packet_takes_example :
    let (r, ring) = handle_packet at_one 0 (packet 1 32 (replicate 96 0)) 105 listening idle_ring in
    (ring ≡ (written at_one 0 1 32 (replicate 96 0) listening idle_ring).1)
    × ((flow_at r 0).missed ≡ 3)
    × ((flow_at r 0).packets ≡ 1)
    × ((flow_at r 0).next_idx ≡ 48048)
    × (flow_at r 1 ≡ no_flow)
    × (r.stats.packets ≡ 1)
unfolding ts_to_samples jb_write
handle_packet_takes_example =
    handle_packet_takes at_one 0 1 32 (replicate 96 0) listening idle_ring (omega arith)
      (omega arith) refl (omega arith) 2 1 (omega arith) (λ e. absurd (omega (arith, e))) refl refl
      (omega arith) (omega arith) (omega arith) (omega arith)
