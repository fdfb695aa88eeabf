-- ===== src/Subscriber.antt =====
-- main/subscriber.c: the subscriptions, the flows that serve them, and what the controller does to
-- them. The children hold the resolve cache, the wanted flows, the rebuild and the task.
pub mod Commands
pub mod Resolve
pub mod Wants
pub mod Reconcile
pub mod Rebuild
pub mod Task
pub mod Status
pub mod Life
pub mod Ghosts
pub mod Unghosted
pub mod Unsubscribed
pub mod Table
pub mod Requests
pub mod Granted
pub mod Asked
pub mod Grouping
pub mod Gathered
pub mod Wanted
pub mod Reconciled
pub mod Matched
pub mod Rebuilt
pub mod Renewed
pub mod Replacing
pub mod Cache
pub mod Liveness
pub mod Reboot
pub mod Race
mod Tests
use inferno_esp32_p.Prelude.{
  ℕ, Bool, Option, none, some, true, false, List, [], ◌∷◌, ◌+◌, ◌==◌, get_or, set, replicate, take,
  leb, not, if◌then◌else◌, map, is_none, length, zero, suc,
}
use inferno_esp32_p.Prelude.Int.{ℤ, pos}
use inferno_esp32_p.FlowsClient.{Request, Client, Host}
use inferno_esp32_p.AudioRx.{Receiver}
use inferno_esp32_p.ChanResolve.{TxChannel, no_tx}
use inferno_esp32_p.ChanResolve.Answers.{MdnsResult}

abbrev pub nch : ℕ
nch = 8

abbrev pub max_flows : ℕ
max_flows = 4

abbrev pub max_ch_per_flow : ℕ
max_ch_per_flow = 8

-- ARC_SUB_NONE, ARC_SUB_PENDING and ARC_SUB_ACTIVE.
abbrev pub sub_none : ℕ
sub_none = 0

abbrev pub sub_pending : ℕ
sub_pending = 1

abbrev pub sub_active : ℕ
sub_active = 0x01010009

-- `rx_channel_t`; a name is its bytes before the NUL.
pub record Channel : Type 0 where
  pub tx_channel : List ℕ
  pub tx_device : List ℕ
  pub friendly : List ℕ
  pub status : ℕ

abbrev pub no_channel : Channel
no_channel = record { tx_channel = []; tx_device = []; friendly = []; status = sub_none }

-- `flow_slot_t`; `active` is F_ACTIVE.
pub record FlowSlot : Type 0 where
  pub active : Bool
  pub device : List ℕ
  pub req : Request
  pub handle : List ℕ
  pub slot_to_ch : List ℤ
  pub next_action_us : ℕ
  pub last_packets : ℕ

abbrev pub no_request : Request
no_request = record {
  tx_ip = 0;
  tx_flow_port = 0;
  tx_channel_id = replicate max_ch_per_flow 0;
  nslots = 0;
  fpp = 0;
  rx_port = 0;
  rx_flow_name = [];
}

-- A slot of zero bytes.
abbrev pub no_slot : FlowSlot
no_slot = record {
  active = false;
  device = [];
  req = no_request;
  handle = replicate 6 0;
  slot_to_ch = replicate max_ch_per_flow (pos 0);
  next_action_us = 0;
  last_packets = 0;
}

-- `resolved_t`, an entry of the resolve cache.
pub record Resolved : Type 0 where
  pub tx_channel : List ℕ
  pub tx_device : List ℕ
  pub tx : TxChannel
  pub valid : Bool

abbrev pub no_resolved : Resolved
no_resolved = record { tx_channel = []; tx_device = []; tx = no_tx; valid = false }

-- `subscriber_stats_t`, without the number of flows, which is counted when it is asked for.
pub record SubStats : Type 0 where
  pub requests_ok : ℕ
  pub requests_failed : ℕ
  pub keepalives_ok : ℕ
  pub keepalives_lost : ℕ
  pub resolve_failed : ℕ
  pub fallbacks : ℕ

-- What the subscriber asks of others: a notification of a channel's change, the latency that the
-- transmitters demand, a request for the flow of a slot, the stop of one.
pub data Effect : Type 0 where
  notify : ℕ → Effect
  latency_floor : ℕ → Effect
  ask_flow : ℕ → Effect
  stop_flow : ℕ → Effect

-- `saved_ch_t`.
pub record Saved : Type 0 where
  pub tx_channel : List ℕ
  pub tx_device : List ℕ
  pub friendly : List ℕ

-- The static variables, with the receiver and the flow client that the task drives, the entry in
-- NVS, and the effects so far, latest first.
pub record Subscriber : Type 0 where
  pub ch : List Channel
  pub flow : List FlowSlot
  pub res : List Resolved
  pub stats : SubStats
  pub dirty : Bool
  pub rx : Receiver
  pub client : Client
  pub nvs : Option (List Saved)
  pub effects : List Effect

abbrev pub channel_at : Subscriber → ℕ → Channel
channel_at s c = get_or s.ch c no_channel

abbrev pub with_channel : Subscriber → ℕ → Channel → Subscriber
with_channel s c x = record s { ch = set s.ch c x }

abbrev pub slot_at : Subscriber → ℕ → FlowSlot
slot_at s i = get_or s.flow i no_slot

abbrev pub with_slot : Subscriber → ℕ → FlowSlot → Subscriber
with_slot s i f = record s { flow = set s.flow i f }

abbrev pub effect : Effect → Subscriber → Subscriber
effect e s = record s { effects = e ∷ s.effects }

-- strncpy into an array of 32 bytes whose last is NUL, or strlcpy.
abbrev pub name32 : List ℕ → List ℕ
name32 name = take 31 name

-- s[0] == 0
abbrev pub is_empty : List ℕ → Bool
is_empty [] = true
is_empty (x ∷ xs) = false

-- A call of `subscriber_set` by the ARC server, from its own task.
pub record Patch : Type 0 where
  pub opened : Bool
  pub channel : ℕ
  pub tx_channel : List ℕ
  pub tx_device : List ℕ

-- What the other parts and the network answer during one rebuild: the mDNS answers for a channel, the
-- rate, what the controller patches before each channel and each request, what it patches between
-- the check and the write of a status (of a channel, then the status), the host, the sockets,
-- and the datagrams on the first and the second request for a wanted flow and on the stop of one.
pub record World : Type 0 where
  pub answers : ℕ → Option (List MdnsResult)
  pub hz : ℕ
  pub fpp : ℕ
  pub patches : ℕ → List Patch
  pub patches_asking : ℕ → List Patch
  pub gaps : ℕ → ℕ → List Patch
  pub host : Host
  pub sock : ℕ → Option ℕ
  pub bound : ℕ → Bool
  pub sent : ℕ → Bool → Bool
  pub replies : ℕ → Bool → List (List ℕ)
  pub stop_sent : ℕ → Bool
  pub stop_replies : ℕ → List (List ℕ)
  pub now : ℕ → ℕ

-- `s_snap`, the channels as a rebuild found them, with what the controller patches in its gaps.
pub record Snapshot : Type 0 where
  pub ch : List Channel
  pub gaps : ℕ → ℕ → List Patch

abbrev pub snapshot : World → Subscriber → Snapshot
snapshot world s = record { ch = s.ch; gaps = world.gaps }
