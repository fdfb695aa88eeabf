-- ===== src/Subscriber/Reconcile.antt =====
-- Step 2 of `rebuild` in main/subscriber.c: the flows there are against those that are wanted.
use inferno_esp32_p.Subscriber.{
  Subscriber, FlowSlot, World, no_slot, slot_at, with_slot, is_empty, effect, stop_flow, sub_active,
  Snapshot,
}
use inferno_esp32_p.Subscriber.Resolve.{set_status_if_current}
use inferno_esp32_p.Subscriber.Wants.{Want, no_want}
use inferno_esp32_p.FlowsClient.{flows_client_stop}
use inferno_esp32_p.AudioRx.Flows.{aoip_rx_unbind_flow}
use inferno_esp32_p.Prelude.{
  ℕ, Bool, Option, none, some, true, false, zero, suc, List, [], ◌∷◌, ◌&&◌, ◌+◌, ◌==◌, get_or, set,
  not, take, if◌then◌else◌,
}
use inferno_esp32_p.Prelude.Int.{ℤ, pos, negsuc}
use inferno_esp32_p.Prelude.Bytes.{same_bytes}

-- A slot is emptied; an active flow is stopped and unbound first.
unfoldable pub tear_down : World → ℕ → Subscriber → Subscriber
tear_down world i s =
    let f = slot_at s i in
    let stopped = effect (stop_flow i) (record s {
      client = (flows_client_stop s.client f.handle (world.stop_sent i) (world.stop_replies i)).0;
      rx = aoip_rx_unbind_flow s.rx i;
    }) in
    with_slot (if f.active then stopped else s) i no_slot

-- The channels of the first slots get a status; a slot without a channel is passed over.
unfoldable pub mark_slots : Snapshot → ℕ → List ℤ → Subscriber → Subscriber
mark_slots snap st [] s = s
mark_slots snap st (pos c ∷ cs) s = mark_slots snap st cs (set_status_if_current snap c st s)
mark_slots snap st (negsuc n ∷ cs) s = mark_slots snap st cs s

unfoldable pub activate_slots : Snapshot → FlowSlot → Subscriber → Subscriber
activate_slots snap f s = mark_slots snap sub_active (take f.req.nslots f.slot_to_ch) s

abbrev pub same_channel : ℤ → ℤ → Bool
same_channel (pos m) (pos n) = m == n
same_channel (negsuc m) (negsuc n) = m == n
same_channel (pos m) (negsuc n) = false
same_channel (negsuc m) (pos n) = false

-- The slots from `k` on, `n` of them.
unfoldable pub same_slots_from : ℕ → ℕ → FlowSlot → Want → Bool
same_slots_from k zero f w = true
same_slots_from k (suc n) f w =
    get_or f.req.tx_channel_id k 0 == get_or w.req.tx_channel_id k 0
    && same_channel (get_or f.slot_to_ch k (pos 0)) (get_or w.slot_to_ch k (pos 0))
    && same_slots_from (k + 1) n f w

unfoldable pub same_slots : FlowSlot → Want → Bool
same_slots f w = f.req.nslots == w.req.nslots && same_slots_from 0 w.req.nslots f w

-- The first wanted flow of a device that is not served yet, counted from `k`.
unfoldable pub seek_undone_from : ℕ → List ℕ → List Want → Option ℕ
seek_undone_from k dev [] = none
seek_undone_from k dev (w ∷ ws) =
    let rest = seek_undone_from (k + 1) dev ws in
    if not w.done && same_bytes w.device dev then some k else rest

-- One slot.
unfoldable pub reconcile_slot :
    World → Snapshot → ℕ → Subscriber × List Want → Subscriber × List Want
reconcile_slot world snap i (s, ws) =
    let f = slot_at s i in
    if is_empty f.device then (s, ws) else elim (seek_undone_from 0 f.device ws) [
      | none ↦ (tear_down world i s, ws)
      | some k ↦
          (if not f.active
            then (tear_down world i s, ws)
            else if same_slots f (get_or ws k no_want)
            then (activate_slots snap f s, set ws k (record (get_or ws k no_want) { done = true }))
            else (s, set ws k (record (get_or ws k no_want) { replaces = some i })))
    ]

-- `n` slots from `i` on.
unfoldable pub reconcile_from :
    World → Snapshot → ℕ → ℕ → Subscriber × List Want → Subscriber × List Want
reconcile_from world snap i zero sw = sw
reconcile_from world snap i (suc n) sw =
    reconcile_from world snap (i + 1) n (reconcile_slot world snap i sw)
