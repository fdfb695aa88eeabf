-- ===== src/Subscriber/Wants.antt =====
-- Step 1 of `rebuild` in main/subscriber.c: one wanted flow for each transmitter.
use inferno_esp32_p.Subscriber.{
  Subscriber, Channel, World, no_request, is_empty, name32, effect, latency_floor, max_flows,
  max_ch_per_flow, sub_pending, Snapshot, snapshot,
}
use inferno_esp32_p.Subscriber.Commands.{meanwhile}
use inferno_esp32_p.Subscriber.Resolve.{resolve_cached, set_status_if_current, entry_at, with_entry}
use inferno_esp32_p.FlowsClient.{Request}
use inferno_esp32_p.ChanResolve.{TxChannel}
use inferno_esp32_p.Prelude.{
  ℕ, Bool, Option, none, some, false, List, [], ◌∷◌, ◌++◌, ◌+◌, ◌/◌, ◌==◌, get_or, set, not, length,
  replicate, ltb, leb, max, if◌then◌else◌,
}
use inferno_esp32_p.Prelude.Int.{ℤ, pos, negsuc}
use inferno_esp32_p.Prelude.Words.{inc32}
use inferno_esp32_p.Prelude.Bytes.{same_bytes}
use inferno_esp32_p.ChanResolve.Answers.{chan_resolve}

-- `want_t`; `replaces` is the slot to retire, or none for -1.
pub record Want : Type 0 where
  pub device : List ℕ
  pub req : Request
  pub slot_to_ch : List ℤ
  pub done : Bool
  pub replaces : Option ℕ

abbrev pub no_want : Want
no_want = record {
  device = [];
  req = no_request;
  slot_to_ch = replicate max_ch_per_flow (pos 0);
  done = false;
  replaces = none;
}

-- The wanted flows so far, and the largest latency of their transmitters.
pub record Plan : Type 0 where
  pub wants : List Want
  pub floor_us : ℕ

-- The first wanted flow of a device, counted from `i`.
unfoldable pub seek_from : ℕ → List ℕ → List Want → Option ℕ
seek_from i dev [] = none
seek_from i dev (w ∷ ws) =
    let rest = seek_from (i + 1) dev ws in if same_bytes w.device dev then some i else rest

-- fpp: ours, clamped to what this transmitter does.
unfoldable pub clamp_fpp : ℕ → TxChannel → ℕ
clamp_fpp fpp tx =
    let low = if ltb tx.fpp_max fpp then tx.fpp_max else fpp in
    if ltb low tx.fpp_min then tx.fpp_min else low

-- A flow without channels.
unfoldable pub new_want : ℕ → Channel → TxChannel → Want
new_want fpp ch tx = record no_want {
  device = name32 ch.tx_device;
  req = record no_request { tx_ip = tx.ip; tx_flow_port = tx.flow_port; fpp = clamp_fpp fpp tx };
  slot_to_ch = replicate max_ch_per_flow (negsuc 0);
}

-- The wanted flow for a channel, a new one where there is none yet and there is room.
unfoldable pub choose : ℕ → Channel → TxChannel → List Want → Option (List Want × ℕ)
choose fpp ch tx ws = elim (seek_from 0 ch.tx_device ws) [
  | some w ↦ some (ws, w)
  | none ↦
      (if leb max_flows (length ws) then none else some (ws ++ new_want fpp ch tx ∷ [], length ws))
]

-- The channel is the next slot of the flow.
unfoldable pub add_slot : ℕ → TxChannel → Want → Want
add_slot c tx w =
    let k = w.req.nslots in
    record w {
      req = record w.req {
        nslots = k + 1;
        tx_channel_id = set w.req.tx_channel_id k tx.tx_channel_id;
      };
      slot_to_ch = set w.slot_to_ch k (pos c);
    }

-- The channel in a plan, or none where the source leaves it pending.
unfoldable pub place : ℕ → ℕ → Channel → TxChannel → Plan → Option Plan
place fpp c ch tx plan = elim (choose fpp ch tx plan.wants) [
  | none ↦ none
  | some (ws, w) ↦
      (if leb max_ch_per_flow (get_or ws w no_want).req.nslots
        then none
        else some (record {
          wants = set ws w (add_slot c tx (get_or ws w no_want));
          floor_us = max plan.floor_us (tx.latency_ns / 1000);
        }))
]

-- A channel that cannot be placed is pending, and the plan stays: a new flow always has room.
unfoldable pub place_or_pend :
    Snapshot → ℕ → ℕ → Channel → TxChannel → Subscriber × Plan → Subscriber × Plan
place_or_pend snap fpp c ch tx (s, plan) = elim (place fpp c ch tx plan) [
  | none ↦ (set_status_if_current snap c sub_pending s, plan)
  | some plan' ↦ (s, plan')
]

-- One channel of the snapshot.
unfoldable pub want_channel : World → Snapshot → ℕ → Channel → Subscriber × Plan → Subscriber × Plan
want_channel world snap c ch (s, plan) =
    let s0 = meanwhile (world.patches c) s in
    if is_empty ch.tx_channel
    then (with_entry s0 c (record (entry_at s0 c) { valid = false }), plan)
    else let (s1, found) = resolve_cached c ch (chan_resolve (world.answers c)) s0 in
      elim found [
        | none ↦ (
          set_status_if_current snap c sub_pending (record s1 {
            stats = record s1.stats { resolve_failed = inc32 s1.stats.resolve_failed };
          }),
          plan,
        )
        | some tx ↦
            (if not (tx.sample_rate == world.hz)
              then (set_status_if_current snap c sub_pending s1, plan)
              else place_or_pend snap world.fpp c ch tx (s1, plan))
      ]

-- The channels from `c` on.
unfoldable pub want_from :
    World → Snapshot → ℕ → List Channel → Subscriber × Plan → Subscriber × Plan
want_from world snap c [] sp = sp
want_from world snap c (ch ∷ chs) sp =
    want_from world snap (c + 1) chs (want_channel world snap c ch sp)

-- What is wanted, with the latency that it demands.
unfoldable pub gather : World → Subscriber → Subscriber × List Want
gather world s =
    let (s', plan) =
      want_from world (snapshot world s) 0 s.ch (s, record { wants = []; floor_us = 0 }) in
    (effect (latency_floor plan.floor_us) s', plan.wants)
