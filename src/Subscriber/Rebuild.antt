-- ===== src/Subscriber/Rebuild.antt =====
-- Step 3 of `rebuild` in main/subscriber.c, the requests, and the whole of it.
use inferno_esp32_p.Subscriber.{
  Subscriber, FlowSlot, World, no_slot, slot_at, with_slot, is_empty, effect, name32, ask_flow,
  sub_pending, max_flows, Receiver, Snapshot, snapshot,
}
use inferno_esp32_p.Subscriber.Commands.{meanwhile}
use inferno_esp32_p.Subscriber.Resolve.{forget_device}
use inferno_esp32_p.Subscriber.Wants.{Want, gather}
use inferno_esp32_p.Subscriber.Reconcile.{tear_down, activate_slots, mark_slots, reconcile_from}
use inferno_esp32_p.FlowsClient.{Failure, flows_client_request}
use inferno_esp32_p.AudioRx.Flows.{aoip_rx_bind_flow, aoip_rx_unbind_flow}
use inferno_esp32_p.Prelude.{
  ℕ, Bool, Option, none, some, true, false, List, [], ◌∷◌, ◌+◌, ◌⊎◌, inl, inr, take, if◌then◌else◌,
}
use inferno_esp32_p.Prelude.Words.{inc32}

abbrev pub keepalive_us : ℕ
keepalive_us = 3000000

-- The first slot without a device, counted from `i`.
unfoldable pub free_from : ℕ → List FlowSlot → Option ℕ
free_from i [] = none
free_from i (f ∷ fs) = let rest = free_from (i + 1) fs in if is_empty f.device then some i else rest

-- The slot before its socket is bound.
abbrev pub fresh_slot : Want → FlowSlot
fresh_slot w = record no_slot { device = name32 w.device; req = w.req; slot_to_ch = w.slot_to_ch }

-- "rx%d"
abbrev pub flow_name : ℕ → List ℕ
flow_name i = 114 ∷ 120 ∷ (48 + i) ∷ []

-- The request for the flow of slot `i`; `second` says that it is the one of the fallback.
unfoldable pub ask : World → ℕ → Bool → ℕ → Subscriber → Subscriber × (Failure ⊎ List ℕ)
ask world k second i s =
    let (client, answer) =
      flows_client_request world.host s.client (slot_at s i).req (world.sent k second)
        (world.replies k second) in
    (effect (ask_flow i) (record s { client = client }), answer)

-- Some transmitters refuse a second flow: the old one is stopped, and the request made again.
unfoldable pub fall_back : World → ℕ → ℕ → ℕ → Subscriber → Subscriber × (Failure ⊎ List ℕ)
fall_back world k i old s =
    let (s', answer) = ask world k true i (tear_down world old s) in
    (record s' { stats = record s'.stats { fallbacks = inc32 s'.stats.fallbacks } }, answer)

-- The request and its fallback: the state, the answer, and what is still to be retired.
unfoldable pub request_flow :
    World → ℕ → ℕ → Option ℕ → Subscriber → (Subscriber × (Failure ⊎ List ℕ)) × Option ℕ
request_flow world k i replaces s =
    let (s', answer) = ask world k false i s in
    elim answer [
      | inr handle ↦ ((s', inr handle), replaces)
      | inl e ↦ elim replaces [
        | none ↦ ((s', inl e), none)
        | some old ↦ (fall_back world k i old s', none)
      ]
    ]

abbrev pub retire : World → Option ℕ → Subscriber → Subscriber
retire world none s = s
retire world (some old) s = tear_down world old s

-- The slot of a flow that the transmitter grants, and the count.
abbrev pub up : World → ℕ → ℕ → List ℕ → Subscriber → Subscriber
up world k i handle s =
    record (with_slot s i (record (slot_at s i) {
      active = true;
      handle = handle;
      last_packets = 0;
      next_action_us = world.now k + keepalive_us;
    })) { stats = record s.stats { requests_ok = inc32 s.stats.requests_ok } }

-- The flow it replaces is stopped only now.
unfoldable pub grant : World → Snapshot → ℕ → ℕ → List ℕ → Option ℕ → Subscriber → Subscriber
grant world snap k i handle replaces s =
    let s' = retire world replaces (up world k i handle s) in activate_slots snap (slot_at s' i) s'

-- A flow that is refused for good: its slot is given back.
abbrev pub dropped : Want → ℕ → Subscriber → Subscriber
dropped w i s =
    let s' =
      forget_device w.device
        (record s { stats = record s.stats { requests_failed = inc32 s.stats.requests_failed } }) in
    with_slot (record s' { rx = aoip_rx_unbind_flow s'.rx i }) i
      (record (slot_at s' i) { device = [] })

unfoldable pub refuse : Snapshot → Want → ℕ → Subscriber → Subscriber
refuse snap w i s = mark_slots snap sub_pending (take w.req.nslots w.slot_to_ch) (dropped w i s)

abbrev pub conclude :
    World → Snapshot → ℕ → Want → ℕ → (Subscriber × (Failure ⊎ List ℕ)) × Option ℕ → Subscriber
conclude world snap k w i ((s, inr handle), replaces) = grant world snap k i handle replaces s
conclude world snap k w i ((s, inl e), replaces) = refuse snap w i s

-- The slot once its socket is bound.
abbrev pub with_socket : Want → ℕ → Receiver → ℕ → Subscriber → Subscriber
with_socket w i rx port s =
    let f = fresh_slot w in
    with_slot (record s { rx = rx }) i
      (record f { req = record f.req { rx_port = port; rx_flow_name = flow_name i } })

-- The wanted flow `k` in the free slot `i`.
unfoldable pub bring_up : World → Snapshot → ℕ → Want → ℕ → Subscriber → Subscriber
bring_up world snap k w i s =
    let (rx, answer) =
      aoip_rx_bind_flow s.rx i w.req.nslots w.slot_to_ch w.req.fpp (world.sock k) (world.bound k) in
    elim answer [
      | inl e ↦ with_slot (record s { rx = rx }) i (record (fresh_slot w) { device = [] })
      | inr port ↦
          conclude world snap k w i (request_flow world k i w.replaces (with_socket w i rx port s))
    ]

-- Nothing is done where the flow is served already, or where no slot is free.
unfoldable pub ask_want : World → Snapshot → ℕ → Want → Subscriber → Subscriber
ask_want world snap k w s =
    let s' = meanwhile (world.patches_asking k) s in
    if w.done
    then s'
    else elim (free_from 0 s'.flow) [ none ↦ s' | some i ↦ bring_up world snap k w i s' ]

-- The wanted flows from `k` on.
unfoldable pub ask_from : World → Snapshot → ℕ → List Want → Subscriber → Subscriber
ask_from world snap k [] s = s
ask_from world snap k (w ∷ ws) s = ask_from world snap (k + 1) ws (ask_want world snap k w s)

unfoldable pub rebuild : World → Subscriber → Subscriber
rebuild world s =
    let (s2, ws) = reconcile_from world (snapshot world s) 0 max_flows (gather world s) in
    ask_from world (snapshot world s) 0 ws s2
