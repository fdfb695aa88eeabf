-- ===== src/AudioRx.antt =====
-- main/aoip_rx.c: the flows, a received packet, the fast path, binding, and the keepalives.
pub mod Packet
pub mod Flows
pub mod Missed
pub mod Guards
mod Tests
use inferno_esp32_p.Prelude.{ℕ, Bool, Option, List, get_or, none, set, false, replicate}
use inferno_esp32_p.Prelude.Int.{ℤ, pos}
use inferno_esp32_p.JitterBuf.{Ring}

abbrev pub max_flows : ℕ
max_flows = 4

abbrev pub max_ch_per_flow : ℕ
max_ch_per_flow = 8

abbrev pub audio_port : ℕ
audio_port = 14336

-- `flow_t`; `src` is the latched source, address and port, once there is one, and `sock` the
-- socket, once there is one.
pub record Flow : Type 0 where
  pub sock : Option ℕ
  pub active : Bool
  pub nslots : ℕ
  pub slot_to_ch : List ℤ
  pub fpp : ℕ
  pub port : ℕ
  pub packets : ℕ
  pub lat_max : ℤ
  pub missed : ℕ
  pub next_idx : ℕ
  pub have_next : Bool
  pub src : Option (ℕ × ℕ)

-- `aoip_rx_stats_t`, less what only the logs and the timing of a send show.
pub record RxStats : Type 0 where
  pub packets : ℕ
  pub bad_magic : ℕ
  pub short_pkt : ℕ
  pub wrong_len : ℕ
  pub ka_sent : ℕ
  pub ka_failed : ℕ
  pub lat_max_samples : ℤ
  pub fast_packets : ℕ
  pub stray_packets : ℕ
  pub src_other : ℕ

-- The static variables: the flows, the peaks for telemetry and for the heartbeat, and the flags.
pub record Receiver : Type 0 where
  pub flows : List Flow
  pub peak_in : List ℕ
  pub peak_hb : List ℕ
  pub stats : RxStats
  pub fast : Bool
  pub ka_now : Bool

abbrev pub no_flow : Flow
no_flow = record {
  sock = none;
  active = false;
  nslots = 0;
  slot_to_ch = replicate max_ch_per_flow (pos 0);
  fpp = 0;
  port = 0;
  packets = 0;
  lat_max = pos 0;
  missed = 0;
  next_idx = 0;
  have_next = false;
  src = none;
}

abbrev pub flow_at : Receiver → ℕ → Flow
flow_at r i = get_or r.flows i no_flow

abbrev pub with_flow : Receiver → ℕ → Flow → Receiver
with_flow r i f = record r { flows = set r.flows i f }
