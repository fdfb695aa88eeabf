-- ===== src/Subscriber/Tests.antt =====
-- Lives of main/subscriber.c at concrete inputs.
use inferno_esp32_p.Subscriber.Table.{slot, dev, OneFlow}
use inferno_esp32_p.Subscriber.Life.{
  Event, live, started, subscriber_start, patched, renamed, turned, numbered, happen,
}
use inferno_esp32_p.Subscriber.Wants.{
  Want, gather, want_from, want_channel, place_or_pend, place, choose, seek_from, new_want,
  add_slot, clamp_fpp,
}
use inferno_esp32_p.AudioRx.{Receiver, no_flow}
use inferno_esp32_p.FlowsClient.{
  Client, assemble, await_reply, build_request_body, flows_client_request, flows_client_stop, names,
  pad, push_name, settle, transact, timeout,
}
use inferno_esp32_p.Subscriber.{
  Subscriber, TxChannel, World, no_slot, channel_at, no_resolved, sub_pending, sub_active, slot_at,
  Channel, Effect, FlowSlot, Patch, no_request, sub_none, no_channel, stop_flow, ask_flow,
  MdnsResult, no_tx, Snapshot, snapshot,
}
use inferno_esp32_p.Prelude.{
  List, ℕ, Bool, replicate, ◌∷◌, [], false, some, true, ◌+◌, ◌≡◌, none, refl, ap, get_or, suc, ◌<◌,
  ◌≢◌, arith, zero, if◌then◌else◌, ◌++◌, ◌||◌, ◌==◌,
}
use inferno_esp32_p.Subscriber.Rebuild.{
  rebuild, ask_from, ask_want, free_from, ask, bring_up, fall_back, grant, refuse, request_flow,
  conclude,
}
use inferno_esp32_p.Prelude.Int.{pos, negsuc}
use inferno_esp32_p.Subscriber.Reconcile.{
  reconcile_from, reconcile_slot, activate_slots, mark_slots, same_slots, same_slots_from,
  seek_undone_from, tear_down,
}
use inferno_esp32_p.Subscriber.Task.{
  turn, rebuild_if_due, check_from, check_slot, any_pending, SubTask, Turn,
}
use inferno_esp32_p.Subscriber.Commands.{
  meanwhile, subscriber_rename, load, restore_all, save, set_status, subscriber_set,
}
use inferno_esp32_p.Subscriber.Resolve.{
  resolve_cached, forget_device, forget_in, is_current, set_status_if_current,
}
use inferno_esp32_p.AudioRx.Flows.{
  aoip_rx_flow_packets, aoip_rx_bind_flow, aoip_rx_unbind_flow, padded,
}
use inferno_esp32_p.Prelude.Bytes.{same_bytes}
use inferno_esp32_p.Wire.{rd16}
use inferno_esp32_p.Subscriber.Grouping.{DevicesNamed, Grouped, SubscribedTo}
use inferno_esp32_p.Subscriber.Replacing.{
  ask_from_full, Notices, refused_twice, granted_then_stopped,
}
use inferno_esp32_p.Subscriber.Cache.{resolve_cached_again}
use inferno_esp32_p.Subscriber.Race.{set_status_if_current_late}
use inferno_esp32_p.Subscriber.Unsubscribed.{live_without_ghosts, Quiet}
use inferno_esp32_p.Subscriber.Liveness.{verdict, any_dead, check_from-verdict}
use inferno_esp32_p.Subscriber.Reboot.{Restored, subscriber_start-save, FitsNames}
use inferno_esp32_p.Subscriber.Renewed.{rebuild-OneFlow}
use inferno_esp32_p.Subscriber.Wanted.{gather-Grouped}
use inferno_esp32_p.ChanResolve.Answers.{chan_resolve, v6, v4}
use inferno_esp32_p.Subscriber.Status.{Keeps}

abbrev receiver : Receiver
receiver = record {
  flows = replicate 4 no_flow;
  peak_in = replicate 8 0;
  peak_hb = replicate 8 0;
  stats = record {
    packets = 0;
    bad_magic = 0;
    short_pkt = 0;
    wrong_len = 0;
    ka_sent = 0;
    ka_failed = 0;
    lat_max_samples = pos 0;
    fast_packets = 0;
    stray_packets = 0;
    src_other = 0;
  };
  fast = true;
  ka_now = false;
}

abbrev client : Client
client = record { seq = 1; last_opcode = 0; last_code = 0; refused = 0; timeouts = 0 }

-- The subscriber at power-on, with nothing in NVS.
abbrev power_on : Subscriber
power_on = record {
  ch = numbered 0 8;
  flow = replicate 4 no_slot;
  res = replicate 8 no_resolved;
  stats = record {
    requests_ok = 0;
    requests_failed = 0;
    keepalives_ok = 0;
    keepalives_lost = 0;
    resolve_failed = 0;
    fallbacks = 0;
  };
  dirty = true;
  rx = receiver;
  client = client;
  nvs = none;
  effects = [];
}

-- A transmitter's answer: its channel `id` (a digit), and an IPv6 address before the IPv4 one.
abbrev answer_of : ℕ → MdnsResult
answer_of id = record {
  txt =
      record { key = some (b'i' ∷ b'd' ∷ []); value = some ((48 + id) ∷ []) }
      ∷ record {
        key = some (b'f' ∷ b'p' ∷ b'p' ∷ []);
        value = some (b'1' ∷ b'6' ∷ b',' ∷ b'2' ∷ []);
      }
      ∷ [];
  addr = v6 ∷ v4 0x0a000001 ∷ [];
  host_addr = none;
  port = 4455;
}

-- "A" and "B", two transmitters, and "1" and "2", channels.
abbrev dev_a : List ℕ
dev_a = 65 ∷ []

abbrev dev_b : List ℕ
dev_b = 66 ∷ []

-- A granting reply to the request with the sequence number `seq`, with the handle 1 to 6.
abbrev grant_of : ℕ → List ℕ
grant_of seq = 0x11 ∷ 0x02 ∷ 0 ∷ 16 ∷ 0 ∷ seq ∷ 1 ∷ 0 ∷ 0 ∷ 1 ∷ 1 ∷ 2 ∷ 3 ∷ 4 ∷ 5 ∷ 6 ∷ []

-- The transmitter grants what is asked in the order of the sequence numbers.
abbrev granting : (ℕ → Bool → List (List ℕ)) → World
granting replies = record {
  answers = λ c. some (answer_of (c + 1) ∷ []);
  hz = 48000;
  fpp = 16;
  patches = λ c. [];
  patches_asking = λ k. [];
  gaps = λ c st. [];
  host = record { hostname = 82 ∷ []; ip = some 7; hz = 48000 };
  sock = λ k. some 9;
  bound = λ k. true;
  sent = λ k second. true;
  replies = replies;
  stop_sent = λ i. false;
  stop_replies = λ i. [];
  now = λ k. 1000;
}

-- Channel 1 wants "1" of the transmitter A.
abbrev subscribed : Subscriber
subscribed = record power_on {
  ch =
      record { tx_channel = 49 ∷ []; tx_device = dev_a; friendly = 49 ∷ []; status = sub_pending }
      ∷ numbered 1 7;
}

-- What a rebuild and a life compute.
run_rebuild : World → Subscriber → Subscriber
unfolding rebuild ask_from reconcile_from reconcile_slot gather want_from want_channel meanwhile
    resolve_cached place_or_pend place choose seek_from new_want ask_want add_slot free_from
    aoip_rx_bind_flow aoip_rx_unbind_flow padded assemble await_reply build_request_body
    flows_client_request flows_client_stop names pad push_name settle transact same_bytes save
    set_status subscriber_set ask bring_up fall_back grant refuse request_flow activate_slots
    mark_slots same_slots same_slots_from seek_undone_from tear_down forget_device forget_in
    is_current set_status_if_current clamp_fpp rd16 chan_resolve
run_rebuild = rebuild

run_live : List Event → SubTask → SubTask
unfolding live happen turn rebuild_if_due check_from check_slot any_pending subscriber_rename
    subscriber_start load restore_all aoip_rx_flow_packets run_rebuild
run_live = live

rebuild_active :
    let s = rebuild (granting (λ k second. grant_of 1 ∷ [])) subscribed in
    ((channel_at s 0).status ≡ sub_active)
    × ((slot_at s 0).handle ≡ 1 ∷ 2 ∷ 3 ∷ 4 ∷ 5 ∷ 6 ∷ [])
    × (s.stats.requests_ok ≡ 1)
unfolding run_rebuild
rebuild_active = (refl, refl, refl)

-- Channel 1 is subscribed to A, the task has two turns, the subscription is cleared in the midst of
-- the second, and the task has a third.
abbrev a_turn : List Patch → Turn
a_turn ps = record {
  world = record (granting (λ k second. grant_of 1 ∷ [])) {
    patches = λ c. if c == 3 then ps else [];
  };
  before_us = 0;
  after_us = 10;
  live_us = 20;
  received = λ r. r;
}

abbrev clearing : Patch
clearing = record { opened = true; channel = 0; tx_channel = []; tx_device = [] }

abbrev events : List Event
events =
    patched (record { opened = true; channel = 0; tx_channel = 49 ∷ []; tx_device = dev_a })
    ∷ turned (a_turn (clearing ∷ []))
    ∷ renamed true 0 (88 ∷ [])
    ∷ turned (a_turn [])
    ∷ []

no_gaps : (c st : ℕ) → Keeps c []
no_gaps c st = tt

events-Quiet : Quiet events
events-Quiet = (no_gaps, (no_gaps, tt))

live_without_ghosts_example :
    (channel_at (live events (started none receiver client)).sub 0).status ≡ sub_none
unfolding run_live
live_without_ghosts_example = live_without_ghosts none receiver client events 0 events-Quiet refl

numbered_empty : (c n d : ℕ) → (get_or (numbered c n) d no_channel).tx_channel ≡ []
numbered_empty c zero d = refl
numbered_empty c (suc n) zero = refl
numbered_empty c (suc n) (suc d) = numbered_empty (c + 1) n d

subscribed-DevicesNamed : DevicesNamed subscribed.ch
subscribed-DevicesNamed zero full = (λ e. cc, refl)
subscribed-DevicesNamed (suc c) full = absurd (full (numbered_empty 1 7 c))

empty_slot : (n i : ℕ) → slot (replicate n no_slot) i ≡ no_slot
empty_slot zero i = refl
empty_slot (suc n) zero = refl
empty_slot (suc n) (suc i) = empty_slot n i

empty-OneFlow : OneFlow (replicate 4 no_slot)
empty-OneFlow = record {
  size = refl;
  distinct = λ i j full e. absurd (full (ap (λ (f : FlowSlot). f.device) (empty_slot 4 i)));
  running = λ i full. absurd (full (ap (λ (f : FlowSlot). f.device) (empty_slot 4 i)));
  idle = λ i e. ap (λ (f : FlowSlot). f.active) (empty_slot 4 i);
}

abbrev granted : World
granted = granting (λ k second. grant_of 1 ∷ [])

rebuild-OneFlow_example :
    OneFlow (rebuild granted subscribed).flow
    × ((j : ℕ)
        → dev (rebuild granted subscribed).flow j ≢ []
        → (c : ℕ) × SubscribedTo subscribed.ch (dev (rebuild granted subscribed).flow j) c)
rebuild-OneFlow_example = rebuild-OneFlow granted subscribed subscribed-DevicesNamed empty-OneFlow

gather-Grouped_example : Grouped subscribed.ch (gather granted subscribed).1
gather-Grouped_example = gather-Grouped granted subscribed subscribed-DevicesNamed

-- A flow of A in slot 0, and a wanted flow that is to replace it from slot 1.
abbrev playing : FlowSlot
playing = record no_slot { active = true; device = dev_a; handle = 9 ∷ 9 ∷ 9 ∷ 9 ∷ 9 ∷ 9 ∷ [] }

abbrev replacing : Want
replacing = record {
  device = dev_a;
  req = record no_request {
    tx_ip = 10;
    tx_flow_port = 4455;
    tx_channel_id = 1 ∷ replicate 7 0;
    nslots = 1;
    fpp = 16;
  };
  slot_to_ch = pos 0 ∷ replicate 7 (negsuc 0);
  done = false;
  replaces = some 0;
}

abbrev asked : Subscriber
asked = record subscribed {
  flow =
      playing
      ∷ record no_slot { device = dev_a; req = replacing.req; slot_to_ch = replacing.slot_to_ch }
      ∷ no_slot
      ∷ no_slot
      ∷ [];
}

granted_then_stopped_example :
    (ns : List Effect) × Notices ns
    × ((conclude granted
          (snapshot granted subscribed)
          0
          replacing
          1
          (request_flow granted 0 1 replacing.replaces asked)).effects
        ≡ ns ++ (stop_flow 0 ∷ ask_flow 1 ∷ []))
unfolding run_rebuild
granted_then_stopped_example =
    granted_then_stopped granted (snapshot granted subscribed) 0 replacing 1 0 asked
      (1 ∷ 2 ∷ 3 ∷ 4 ∷ 5 ∷ 6 ∷ []) refl (λ e. absurd (omega arith)) refl refl

-- A transmitter that does not answer.
abbrev silent : World
silent = granting (λ k second. [])

refused_twice_example :
    let s' =
      conclude silent
        (snapshot silent subscribed)
        0
        replacing
        1
        (request_flow silent 0 1 replacing.replaces asked) in
    ((slot_at s' 0).device ≡ []) × ((slot_at s' 1).device ≡ [])
unfolding run_rebuild
refused_twice_example =
    refused_twice silent (snapshot silent subscribed) 0 replacing 1 0 asked timeout timeout refl
      (λ e. absurd (omega arith)) (omega arith) refl refl

-- Four flows, of A and three others.
abbrev crowded : Subscriber
crowded = record subscribed {
  flow =
      playing
      ∷ record playing { device = dev_b }
      ∷ record playing { device = 67 ∷ [] }
      ∷ record playing { device = 68 ∷ [] }
      ∷ [];
}

crowded_full : (j : ℕ) → j < 4 → dev crowded.flow j ≢ []
crowded_full zero lt = λ e. cc
crowded_full (suc zero) lt = λ e. cc
crowded_full (suc (suc zero)) lt = λ e. cc
crowded_full (suc (suc (suc zero))) lt = λ e. cc
crowded_full (suc (suc (suc (suc j)))) lt = absurd (omega arith)

ask_from_full_example :
    ((ask_from granted (snapshot granted crowded) 0 (replacing ∷ []) crowded).flow ≡ crowded.flow)
    × ((ask_from granted (snapshot granted crowded) 0 (replacing ∷ []) crowded).client ≡ client)
ask_from_full_example =
    ask_from_full granted (snapshot granted crowded) 0 (replacing ∷ []) crowded crowded_full

abbrev known_tx : TxChannel
known_tx = record no_tx { ip = 1; tx_channel_id = 5 }

abbrev other_tx : TxChannel
other_tx = record no_tx { ip = 2; tx_channel_id = 5 }

abbrev first_channel : Channel
first_channel = channel_at subscribed 0

resolve_cached_again_example :
    resolve_cached 0 first_channel none
      (resolve_cached 0 first_channel (some known_tx) subscribed).0
    ≡ ((resolve_cached 0 first_channel (some known_tx) subscribed).0, some known_tx)
unfolding run_rebuild
resolve_cached_again_example =
    resolve_cached_again 0 first_channel known_tx (some known_tx) none subscribed (omega arith) refl
      refl refl

check_from-verdict_example :
    ((j : ℕ)
      → j < 4
      → slot (check_from granted 5000000 0 4 asked).flow j
        ≡ verdict 5000000 (aoip_rx_flow_packets receiver j) (slot asked.flow j))
    × ((check_from granted 5000000 0 4 asked).dirty
        ≡ (true || any_dead 5000000 receiver asked.flow 0 4))
check_from-verdict_example = check_from-verdict granted 5000000 asked refl

channel-FitsNames : (d : ℕ) → FitsNames (channel_at subscribed d)
channel-FitsNames zero = record { tx_channel = refl; tx_device = refl; friendly = refl }
channel-FitsNames (suc d) = numbered-FitsNames 1 7 d
  where
    numbered-FitsNames : (c n d : ℕ) → FitsNames (get_or (numbered c n) d no_channel)
    numbered-FitsNames c zero d = record { tx_channel = refl; tx_device = refl; friendly = refl }
    numbered-FitsNames c (suc n) zero = record {
      tx_channel = refl;
      tx_device = refl;
      friendly = refl;
    }
    numbered-FitsNames c (suc n) (suc d) = numbered-FitsNames (c + 1) n d

subscriber_start-save_example :
    Restored
      (channel_at subscribed 0)
      (channel_at (subscriber_start (save true subscribed).nvs receiver client) 0)
subscriber_start-save_example =
    subscriber_start-save subscribed receiver client 0 refl channel-FitsNames (omega arith)

-- The controller ends the subscription just before a rebuild writes that it is active.
abbrev late_end : Snapshot
late_end = record {
  ch = subscribed.ch;
  gaps = λ c st. record { opened = true; channel = 0; tx_channel = []; tx_device = [] } ∷ [];
}

set_status_if_current_late_example :
    let x = channel_at (set_status_if_current late_end 0 sub_active subscribed) 0 in
    (x.tx_channel ≡ []) × (x.status ≡ sub_active)
unfolding is_current same_bytes
set_status_if_current_late_example =
    set_status_if_current_late late_end true 0 sub_active [] subscribed refl (omega arith) refl refl
