-- ===== src/Subscriber/Liveness.antt =====
-- The liveness check of main/subscriber.c against what it promises for one flow.
use inferno_esp32_p.AudioRx
use inferno_esp32_p.Subscriber.Table.{slot}
use inferno_esp32_p.Subscriber.Requests.{tear_down-flow}
use inferno_esp32_p.Prelude.{
  ℕ, ◌≡◌, Bool, if_both, if◌then◌else◌, ◌<◌, ◌≢◌, length, ◌&&◌, ◌||◌, leb, refl, ◌+◌, ◌==◌, List,
  ap, false, not, true, if_split, ltb, suc, ◌≤◌, ap₂, arith, get_or, sym, zero, get_or-set_same,
  none, ℕ_discrete, set, ◌∙◌, get_or-set_cases, get_or-set_other, inl, length-set, inr,
  get_or-set_default,
}
use inferno_esp32_p.Subscriber.{Subscriber, FlowSlot, World, Receiver, no_slot, slot_at}
use inferno_esp32_p.AudioRx.Flows.{aoip_rx_flow_packets, aoip_rx_unbind_flow}
use inferno_esp32_p.Subscriber.Reconcile.{tear_down}
use inferno_esp32_p.Subscriber.Task.{check_slot, check_from}
use inferno_esp32_p.Subscriber.Rebuild.{keepalive_us}
use inferno_esp32_p.Subscriber.Resolve.{forget_device}
use inferno_esp32_p.AudioRx.{Flow, flow_at, no_flow, max_flows}
use inferno_esp32_p.Prelude.Words.{inc32}

-- A flow that is due and has had no packet since the last check.
unfoldable pub is_dead : ℕ → ℕ → FlowSlot → Bool
is_dead now packets f = f.active && leb f.next_action_us now && packets == f.last_packets

-- What becomes of one slot: a dead flow is dropped, one with new packets is due 3 s later, and any
-- other stays.
unfoldable pub verdict : ℕ → ℕ → FlowSlot → FlowSlot
verdict now packets f =
    if is_dead now packets f
    then no_slot
    else if f.active && leb f.next_action_us now
    then record f { last_packets = packets; next_action_us = now + keepalive_us }
    else f

abbrev packets_of : Subscriber → ℕ → ℕ
packets_of s i = aoip_rx_flow_packets s.rx i

set-packets :
    (fs : List Flow) (i j : ℕ) (f : Flow)
    → f.packets ≡ (get_or fs i no_flow).packets
    → (get_or (set fs i f) j no_flow).packets ≡ (get_or fs j no_flow).packets
set-packets fs i j f same = elim (get_or-set_cases fs i f no_flow j) [
  | inl (e, at) ↦
      ap (λ (x : Flow). x.packets) at ∙ same ∙ ap (λ k. (get_or fs k no_flow).packets) (sym e)
  | inr at ↦ ap (λ (x : Flow). x.packets) at
]

unbind-packets :
    (r : Receiver) (i j : ℕ)
    → aoip_rx_flow_packets (aoip_rx_unbind_flow r i) j ≡ aoip_rx_flow_packets r j
unfolding aoip_rx_flow_packets aoip_rx_unbind_flow
unbind-packets r i j =
    if_both (λ (x : Receiver). aoip_rx_flow_packets x j ≡ aoip_rx_flow_packets r j)
      (leb AudioRx.max_flows i) refl
      (ap (λ n. if ltb j AudioRx.max_flows then n else 0)
        (set-packets r.flows i j (record (flow_at r i) { active = false; sock = none }) refl))

tear_down-packets :
    (world : World) (i : ℕ) (s : Subscriber) (j : ℕ)
    → packets_of (tear_down world i s) j ≡ packets_of s j
unfolding tear_down
tear_down-packets world i s j =
    if_both (λ (t : Subscriber). packets_of t j ≡ packets_of s j) (slot_at s i).active
      (unbind-packets s.rx i j) refl

record Checked (now i : ℕ) (s s' : Subscriber) : Type 0 where
  pub here : slot s'.flow i ≡ verdict now (packets_of s i) (slot s.flow i)
  pub others : (j : ℕ) → j ≢ i → slot s'.flow j ≡ slot s.flow j
  pub packets : (j : ℕ) → packets_of s' j ≡ packets_of s j
  pub size : length s'.flow ≡ length s.flow
  pub dirty : s'.dirty ≡ (s.dirty || is_dead now (packets_of s i) (slot s.flow i))

verdict_waits :
    (now pk : ℕ) (f : FlowSlot)
    → (not f.active || ltb now f.next_action_us) ≡ true
    → (verdict now pk f ≡ f) × (is_dead now pk f ≡ false)
unfolding verdict is_dead
verdict_waits now pk f h = ground arith

verdict_moves :
    (now pk : ℕ) (f : FlowSlot)
    → (not f.active || ltb now f.next_action_us) ≡ false
    → not (pk == f.last_packets) ≡ true
    → (verdict now pk f ≡ record f { last_packets = pk; next_action_us = now + keepalive_us })
      × (is_dead now pk f ≡ false)
unfolding verdict is_dead
verdict_moves now pk f h k = ground arith

verdict_dies :
    (now pk : ℕ) (f : FlowSlot)
    → (not f.active || ltb now f.next_action_us) ≡ false
    → not (pk == f.last_packets) ≡ false
    → (verdict now pk f ≡ no_slot) × (is_dead now pk f ≡ true)
unfolding verdict is_dead
verdict_dies now pk f h k = ground arith

check_slot-Checked :
    (world : World) (now i : ℕ) (s : Subscriber)
    → i < length s.flow
    → Checked now i s (check_slot world now i s)
unfolding check_slot forget_device
check_slot-Checked world now i s lt =
    let f = slot_at s i in
    let pk = packets_of s i in
    if_split (Checked now i s) (not f.active || ltb now f.next_action_us)
      (λ h.
        let (same, live) = verdict_waits now pk f h in
        record {
          here = sym same;
          others = λ j ne. refl;
          packets = λ j. refl;
          size = refl;
          dirty = rw live (or_false s.dirty);
        })
      (λ h.
        if_split (Checked now i s) (not (pk == f.last_packets))
          (λ k.
            let (moved, live) = verdict_moves now pk f h k in
            let g = record f { last_packets = pk; next_action_us = now + keepalive_us } in
            record {
              here = get_or-set_same s.flow i g no_slot lt ∙ sym moved;
              others = λ j ne. get_or-set_other s.flow i j g no_slot (λ e. ne (sym e));
              packets = λ j. refl;
              size = length-set s.flow i g;
              dirty = rw live (or_false s.dirty);
            })
          (λ k.
            let (gone, dead) = verdict_dies now pk f h k in
            let s1 = forget_device f.device (record s {
              stats = record s.stats { keepalives_lost = inc32 s.stats.keepalives_lost };
            }) in
            let cleared = tear_down-flow world i s1 in
            record {
              here = ap (λ fs. slot fs i) cleared ∙ get_or-set_default s.flow i no_slot ∙ sym gone;
              others = λ j ne.
                  ap (λ fs. slot fs j) cleared
                  ∙ get_or-set_other s.flow i j no_slot no_slot (λ e. ne (sym e));
              packets = λ j. tear_down-packets world i s1 j;
              size = ap (λ (fs : List FlowSlot). length fs) cleared ∙ length-set s.flow i no_slot;
              dirty = rw dead (or_true s.dirty);
            }))
  where
    or_false : (b : Bool) → b ≡ (b || false)
    or_false true = refl
    or_false false = refl

    or_true : (b : Bool) → true ≡ (b || true)
    or_true true = refl
    or_true false = refl

-- Whether one of `n` slots from `i` on is dead.
unfoldable pub any_dead : ℕ → Receiver → List FlowSlot → ℕ → ℕ → Bool
any_dead now rx fs i zero = false
any_dead now rx fs i (suc n) =
    is_dead now (aoip_rx_flow_packets rx i) (slot fs i) || any_dead now rx fs (i + 1) n

any_dead-same :
    (now : ℕ) (rx rx' : Receiver) (fs fs' : List FlowSlot) (i n : ℕ)
    → ((j : ℕ) → i ≤ j → slot fs' j ≡ slot fs j)
    → ((j : ℕ) → aoip_rx_flow_packets rx' j ≡ aoip_rx_flow_packets rx j)
    → any_dead now rx' fs' i n ≡ any_dead now rx fs i n
unfolding any_dead
any_dead-same now rx rx' fs fs' i zero slots packets = refl
any_dead-same now rx rx' fs fs' i (suc n) slots packets =
    ap₂ (λ a b. a || b) (ap₂ (is_dead now) (packets i) (slots i (omega arith)))
      (any_dead-same now rx rx' fs fs' (i + 1) n (λ j h. slots j (omega arith)) packets)

or_assoc : (a b c : Bool) → ((a || b) || c) ≡ (a || (b || c))
or_assoc true b c = refl
or_assoc false b c = refl

check_from_lem :
    (world : World) (now i n : ℕ) (s : Subscriber)
    → i + n ≤ length s.flow
    → ((j : ℕ)
        → i ≤ j
        → j < i + n
        → slot (check_from world now i n s).flow j ≡ verdict now (packets_of s j) (slot s.flow j))
      × ((j : ℕ) → j < i → slot (check_from world now i n s).flow j ≡ slot s.flow j)
      × ((check_from world now i n s).dirty ≡ (s.dirty || any_dead now s.rx s.flow i n))
unfolding check_from any_dead
check_from_lem world now i zero s h =
    (λ j lo hi. absurd (omega arith), λ j lt. refl, or_none s.dirty)
  where
    or_none : (b : Bool) → b ≡ (b || false)
    or_none true = refl
    or_none false = refl
check_from_lem world now i (suc n) s h =
    let s' = check_slot world now i s in
    let c = check_slot-Checked world now i s (omega arith) in
    let (later, before, dirty) = check_from_lem world now (i + 1) n s' (omega (arith, c.size)) in
    (
      λ j lo hi. elim (ℕ_discrete j i) [
        | yes e ↦
            ap (slot (check_from world now (i + 1) n s').flow) e
            ∙ before i (omega arith)
            ∙ c.here
            ∙ ap (λ k. verdict now (packets_of s k) (slot s.flow k)) (sym e)
        | no ne ↦
            later j (omega arith) (omega arith) ∙ ap₂ (verdict now) (c.packets j) (c.others j ne)
      ],
      λ j lt. before j (omega arith) ∙ c.others j (omega arith),
      dirty
          ∙ ap₂ (λ a b. a || b) c.dirty
              (any_dead-same now s.rx s'.rx s.flow s'.flow (i + 1) n
                (λ j lo. c.others j (omega arith)) c.packets)
          ∙ or_assoc s.dirty (is_dead now (packets_of s i) (slot s.flow i))
              (any_dead now s.rx s.flow (i + 1) n),
    )

-- The check of all four slots at the time `now`: each slot becomes what the verdict on it alone is,
-- from its own packet count (a dead flow is dropped, one with new packets is due 3 s later, any
-- other stays), and a rebuild is asked for exactly where it was before or where a flow is dead.
pub check_from-verdict :
    (world : World) (now : ℕ) (s : Subscriber)
    → length s.flow ≡ max_flows
    → ((j : ℕ)
        → j < max_flows
        → slot (check_from world now 0 max_flows s).flow j
          ≡ verdict now (aoip_rx_flow_packets s.rx j) (slot s.flow j))
      × ((check_from world now 0 max_flows s).dirty
          ≡ (s.dirty || any_dead now s.rx s.flow 0 max_flows))
check_from-verdict world now s size =
    let all = check_from_lem world now 0 max_flows s (omega arith) in
    (λ j lt. all.0 j (omega arith) lt, all.2)
