-- ===== src/AudioRx/Flows.antt =====
-- The fast path, the flows' life, and the keepalives of main/aoip_rx.c.
use inferno_esp32_p.AudioRx.{
  Flow, Receiver, RxStats, flow_at, with_flow, max_flows, max_ch_per_flow, audio_port,
}
use inferno_esp32_p.AudioRx.Packet.{Now, handle_packet}
use inferno_esp32_p.JitterBuf.{Ring}
use inferno_esp32_p.Prelude.{
  ℕ, Bool, Option, none, some, List, if◌then◌else◌, replicate, take, true, ◌+◌, ◌∷◌, ◌⊎◌, leb, not,
  ◌++◌, ◌==◌, ◌^◌, false, ◌&&◌, ◌-◌, ◌||◌, is_none, ltb, ◌%◌, [], inl, inr,
}
use inferno_esp32_p.Prelude.Int.{ℤ, pos, negsuc, pos_part}
use inferno_esp32_p.Prelude.Words.{inc32}

-- The first source is latched, and asks for a keepalive at once; another is counted.
unfoldable pub latch_source : Receiver → ℕ → ℕ → ℕ → Receiver
latch_source r i ip port = elim (flow_at r i).src [
  | none ↦ record (with_flow r i (record (flow_at r i) { src = some (ip, port) })) { ka_now = true }
  | some (ip', port') ↦
      (if ip' == ip && port' == port
        then r
        else record r { stats = record r.stats { src_other = inc32 r.stats.src_other } })
]

-- A frame from the EMAC task, and whether it is used up.
unfoldable pub fast_input : Now → ℕ → ℕ → ℕ → List ℕ → ℕ → Receiver → Ring → Bool × Receiver × Ring
unfolding handle_packet latch_source
fast_input now ip src_port dst_port p len r ring =
    let i = (dst_port + 2 ^ 16 - audio_port) % 2 ^ 16 in
    if not r.fast
    then (false, r, ring)
    else if leb max_flows i
    then (false, r, ring)
    else if not (flow_at r i).active || is_none (flow_at r i).sock
    then (
      true,
      record r { stats = record r.stats { stray_packets = inc32 r.stats.stray_packets } },
      ring,
    )
    else let (r', ring') = handle_packet now i p len (latch_source r i ip src_port) ring in
      (
        true,
        record r' { stats = record r'.stats { fast_packets = inc32 r'.stats.fast_packets } },
        ring',
      )

pub data FlowError : Type 0 where
  invalid_arg : FlowError
  invalid_state : FlowError
  fail : FlowError

-- `nslots` entries, and -1 in the rest.
unfoldable pub padded : ℕ → List ℤ → List ℤ
padded nslots chans = take nslots chans ++ replicate (max_ch_per_flow - nslots) (negsuc 0)

unfoldable pub aoip_rx_unbind_flow : Receiver → ℕ → Receiver
aoip_rx_unbind_flow r i =
    if leb max_flows i
    then r
    else with_flow r i (record (flow_at r i) { active = false; sock = none })

-- `sock` and `bound` are what the sockets answer.
unfoldable pub aoip_rx_bind_flow :
    Receiver → ℕ → ℕ → List ℤ → ℕ → Option ℕ → Bool → Receiver × (FlowError ⊎ ℕ)
unfolding aoip_rx_unbind_flow padded
aoip_rx_bind_flow r i nslots chans fpp sock bound =
    if leb max_flows i || nslots == 0 || ltb max_ch_per_flow nslots
    then (r, inl invalid_arg)
    else if is_none sock || not bound
    then (aoip_rx_unbind_flow r i, inl fail)
    else (
      with_flow r i (record (flow_at r i) {
        sock = sock;
        nslots = nslots;
        slot_to_ch = padded nslots chans;
        fpp = fpp;
        port = audio_port + i;
        packets = 0;
        missed = 0;
        have_next = false;
        src = none;
        active = true;
      }),
      inr (audio_port + i),
    )

unfoldable pub aoip_rx_remap_flow : Receiver → ℕ → ℕ → List ℤ → Receiver × Option FlowError
unfolding padded
aoip_rx_remap_flow r i nslots chans =
    if leb max_flows i || nslots == 0 || ltb max_ch_per_flow nslots
    then (r, some invalid_arg)
    else if not (flow_at r i).active
    then (r, some invalid_state)
    else (
      with_flow r i (record (flow_at r i) { nslots = nslots; slot_to_ch = padded nslots chans }),
      none,
    )

-- One keepalive for every flow that has a source; `sends` says whether the socket takes it.
unfoldable pub send_keepalives : (Flow → Bool) → List Flow → RxStats → RxStats
send_keepalives sends [] s = s
send_keepalives sends (f ∷ fs) s = send_keepalives sends fs (
    if not f.active || is_none f.sock || is_none f.src
    then s
    else if sends f
    then record s { ka_sent = inc32 s.ka_sent }
    else record s { ka_failed = inc32 s.ka_failed })

-- The highest latency since it was last taken.
unfoldable pub aoip_rx_take_latency : Receiver → ℕ → ℕ × Receiver
aoip_rx_take_latency r i =
    if leb max_flows i || not (flow_at r i).active
    then (0, r)
    else (pos_part (flow_at r i).lat_max, with_flow r i (record (flow_at r i) { lat_max = pos 0 }))

unfoldable pub aoip_rx_take_peaks : Receiver → List ℕ × Receiver
aoip_rx_take_peaks r = (r.peak_in, record r { peak_in = replicate 8 0 })

unfoldable pub aoip_rx_take_peaks_hb : Receiver → List ℕ × Receiver
aoip_rx_take_peaks_hb r = (r.peak_hb, record r { peak_hb = replicate 8 0 })

unfoldable pub aoip_rx_flow_packets : Receiver → ℕ → ℕ
aoip_rx_flow_packets r i = if ltb i max_flows then (flow_at r i).packets else 0
