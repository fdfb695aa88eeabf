-- ===== src/AudioRx/Guards.antt =====
-- What a packet of main/aoip_rx.c does to its receiver: one that is refused, and one that is taken.
use inferno_esp32_p.AudioRx.Missed.{Arrival, after_forward}
use inferno_esp32_p.AudioRx.{Flow, Receiver, flow_at, no_flow, RxStats}
use inferno_esp32_p.AudioRx.Packet.{
  Now, handle_packet, take_packet, meter, note_latency, flow_after, note_latency_max,
}
use inferno_esp32_p.JitterBuf.{Ring}
use inferno_esp32_p.Prelude.{
  ℕ, ◌≡◌, List, arith, length, Option, ◌≢◌, ◌≤◌, Bool, true, ◌+◌, ◌*◌, ◌<◌, false, refl, if_both,
  suc, ◌∷◌, get_or, ◌||◌, ◌∙◌, set, ◌==◌, ltb, sym, zero, [], not, none, some, if◌then◌else◌, ◌^◌,
  ◌++◌, ap, ℕ_discrete, if_false, get_or-set_same, get_or-set_other,
}
use inferno_esp32_p.Prelude.Int.{ℤ}
use inferno_esp32_p.Wire.{audio_parse, AudioHdr, ts_to_samples, audio_magic, be32}
use inferno_esp32_p.JitterBuf.Write.{is_local, jb_write}
use inferno_esp32_p.Prelude.Words.{inc32}
use inferno_esp32_p.AudioRx.Missed.{Arrival}
use inferno_esp32_p.Wire.Headers.{audio_parse_encoded}

-- A packet whose length is not exactly that of the header and of `fpp` frames of the flow's slots
-- leaves the flows, the ring and the meters as they are.
pub handle_packet_refuses :
    (now : Now) (i : ℕ) (p : List ℕ) (len : ℕ) (r : Receiver) (ring : Ring)
    → len ≢ 9 + (flow_at r i).nslots * 3 * (flow_at r i).fpp
    → let (r', ring') = handle_packet now i p len r ring in
      (r'.flows ≡ r.flows) × (ring' ≡ ring) × (r'.peak_in ≡ r.peak_in) × (r'.peak_hb ≡ r.peak_hb)
unfolding handle_packet audio_parse
handle_packet_refuses now i p len r ring h = ground arith

-- The meters leave the flows and the counts.
meter_flows :
    (n s nslots nframes : ℕ) (chans : List ℤ) (p : List ℕ) (r : Receiver)
    → (meter n s nslots nframes chans p r).flows ≡ r.flows
unfolding meter
meter_flows zero s nslots nframes chans p r = refl
meter_flows (suc n) s nslots nframes [] p r = refl
meter_flows (suc n) s nslots nframes (ch ∷ chans) p r =
    meter_flows n (s + 1) nslots nframes chans p _
    ∙ if_both (λ (x : Receiver). x.flows ≡ r.flows) (is_local ch) refl refl

meter_stats :
    (n s nslots nframes : ℕ) (chans : List ℤ) (p : List ℕ) (r : Receiver)
    → (meter n s nslots nframes chans p r).stats ≡ r.stats
unfolding meter
meter_stats zero s nslots nframes chans p r = refl
meter_stats (suc n) s nslots nframes [] p r = refl
meter_stats (suc n) s nslots nframes (ch ∷ chans) p r =
    meter_stats n (s + 1) nslots nframes chans p _
    ∙ if_both (λ (x : Receiver). x.stats ≡ r.stats) (is_local ch) refl refl

note_latency_max_packets :
    (now : Now) (idx : ℕ) (s : RxStats) → (note_latency_max now idx s).packets ≡ s.packets
unfolding note_latency_max
note_latency_max_packets now idx s = ground arith

at_most_one : (b : Bool) → (if b then 0 else 1) ≤ 1
at_most_one true = omega arith
at_most_one false = omega arith

-- The bytes of a packet.
abbrev pub packet : ℕ → ℕ → List ℕ → List ℕ
packet seconds subsec samples = audio_magic ∷ be32 seconds ++ be32 subsec ++ samples

module _ (now : Now) (i seconds subsec : ℕ) (samples : List ℕ) (r : Receiver) (ring : Ring) where
  abbrev pub idx : ℕ
  idx = ts_to_samples seconds subsec now.hz

  -- What the ring makes of it: whether it takes it, and the ring.
  abbrev pub written : Bool × Ring
  written =
      jb_write ring now.time_us now.hz idx (flow_at r i).fpp (flow_at r i).nslots
        (flow_at r i).slot_to_ch samples

  module _ (s_fits : seconds < 2 ^ 32) (u_fits : subsec < 2 ^ 32)
      (whole : length samples ≡ (flow_at r i).nslots * 3 * (flow_at r i).fpp)
      (some_samples : 3 ≤ length samples) where
    frames_there : 0 < (flow_at r i).fpp
    frames_there = elim (ℕ_discrete (flow_at r i).fpp 0) [
      | yes none_there ↦ absurd (
          omega
            (arith, whole, ap (λ (k : ℕ). (flow_at r i).nslots * 3 * k) none_there, some_samples))
      | no there ↦ omega arith
    ]

    slots_there : ((flow_at r i).nslots * 3 == 0) ≡ false
    slots_there = elim (ℕ_discrete ((flow_at r i).nslots * 3) 0) [
      | yes none_there ↦
          absurd
            (omega (arith, whole, ap (λ (k : ℕ). k * (flow_at r i).fpp) none_there, some_samples))
      | no there ↦ ground arith
    ]

    handle_packet-take_packet :
        handle_packet now i (packet seconds subsec samples) (9 + length samples) r ring
        ≡ take_packet now i idx samples r ring
    unfolding handle_packet
    handle_packet-take_packet =
        let per_frame = (flow_at r i).nslots * 3 in
        ap
          (λ (o : Option AudioHdr). elim o as (λ _. Receiver × Ring) [
            | none ↦ (
              record r {
                stats =
                    if ltb (9 + length samples) 12
                    then record r.stats { short_pkt = inc32 r.stats.short_pkt }
                    else record r.stats { bad_magic = inc32 r.stats.bad_magic };
              },
              ring,
            )
            | some h ↦
                (if per_frame == 0 || not (h.sample_bytes == per_frame * (flow_at r i).fpp)
                  then (
                    record r { stats = record r.stats { wrong_len = inc32 r.stats.wrong_len } },
                    ring,
                  )
                  else take_packet now i (ts_to_samples h.seconds h.subsec_samples now.hz) h.samples
                      r ring)
          ])
          (audio_parse_encoded seconds subsec samples s_fits u_fits some_samples)
        ∙ if_false (per_frame == 0 || not (length samples == per_frame * (flow_at r i).fpp)) _ _
            (ground (arith, slots_there, whole))

    metered :
        (take_packet now i idx samples r ring).0.flows
        ≡ set r.flows i (flow_after now idx written.0 (flow_at r i))
    unfolding take_packet
    metered =
        let f = flow_at r i in
        ap (λ fs. set fs i (flow_after now idx written.0 f))
          (meter_flows f.nslots 0 f.nslots f.fpp f.slot_to_ch samples r)

    take_packet-ring : (take_packet now i idx samples r ring).1 ≡ written.1
    unfolding take_packet
    take_packet-ring = refl

    take_packet-packets :
        (take_packet now i idx samples r ring).0.stats.packets ≡ inc32 r.stats.packets
    unfolding take_packet
    take_packet-packets = ap inc32 (note_latency_max_packets now idx r.stats)

    -- The 24-bit samples of a packet that lies `k` packets beyond the one that its flow expects go to
    -- the ring at the index that the timestamp says. The flow has counted the packet, the `k` that are
    -- missing and the packet itself if the ring does not take it, and expects the next; another flow
    -- is as it was, and the receiver has counted one packet. For `k` up to 1000, an index below 2 ^ 63
    -- and counts below 2 ^ 32, and a packet of exactly the flow's length with at least one sample.
    pub handle_packet_takes :
        (k j : ℕ)
        → i < length r.flows
        → j ≢ i
        → (flow_at r i).have_next ≡ true
        → idx ≡ (flow_at r i).next_idx + k * (flow_at r i).fpp
        → idx + (flow_at r i).fpp < 2 ^ 63
        → k ≤ 1000
        → (flow_at r i).missed + k + 1 < 2 ^ 32
        → (flow_at r i).packets + 1 < 2 ^ 32
        → let (r', ring') =
            handle_packet now i (packet seconds subsec samples) (9 + length samples) r ring in
          (ring' ≡ written.1)
          × ((flow_at r' i).missed ≡ (flow_at r i).missed + (k + (if written.0 then 0 else 1)))
          × ((flow_at r' i).packets ≡ (flow_at r i).packets + 1)
          × ((flow_at r' i).next_idx ≡ idx + (flow_at r i).fpp)
          × (flow_at r' j ≡ flow_at r j)
          × (r'.stats.packets ≡ inc32 r.stats.packets)
    handle_packet_takes k j there other expects e far few m_room p_room =
        let f = flow_at r i in
        let a : Arrival = record { lost = k; now = now; landed = written.0 } in
        let g : Flow = record f {
          lat_max = (note_latency now (f.next_idx + k * f.fpp) f).lat_max;
          missed = f.missed + (k + (if written.0 then 0 else 1));
          next_idx = f.next_idx + (k + 1) * f.fpp;
          have_next = true;
          packets = f.packets + 1;
        } in
        let after : flow_after now idx written.0 f ≡ g =
          ap (λ n. flow_after now n written.0 f) e
          ∙ after_forward f.fpp a f refl expects (omega (arith, e)) frames_there few
              (omega (arith, at_most_one written.0)) p_room in
        let path = handle_packet-take_packet in
        let flows : (handle_packet now i (packet seconds subsec samples) (9 + length samples) r
              ring).0.flows
            ≡ set r.flows i g =
          ap (λ (x : Receiver × Ring). x.0.flows) path ∙ metered ∙ ap (set r.flows i) after in
        let at_i =
          ap (λ (fs : List Flow). get_or fs i no_flow) flows
          ∙ get_or-set_same r.flows i g no_flow there in
        (
          ap (λ (x : Receiver × Ring). x.1) path ∙ take_packet-ring,
          ap (λ (x : Flow). x.missed) at_i,
          ap (λ (x : Flow). x.packets) at_i,
          ap (λ (x : Flow). x.next_idx) at_i ∙ omega (arith, e),
          ap (λ (fs : List Flow). get_or fs j no_flow) flows
              ∙ get_or-set_other r.flows i j g no_flow (λ x. other (sym x)),
          ap (λ (x : Receiver × Ring). x.0.stats.packets) path ∙ take_packet-packets,
        )
