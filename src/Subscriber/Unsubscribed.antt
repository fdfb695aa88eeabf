-- ===== src/Subscriber/Unsubscribed.antt =====
-- Over a life of main/subscriber.c, no channel without a subscription has a status.
use inferno_esp32_p.Subscriber.Status.{
  NoGhost, NoGhosts, subscriber_set-NoGhosts, subscriber_rename-NoGhosts, QuietGaps,
}
use inferno_esp32_p.Subscriber.{
  World, Subscriber, Channel, max_flows, Receiver, slot_at, is_empty, sub_pending, Saved,
  channel_at, sub_none, name32, nch,
}
use inferno_esp32_p.Prelude.{
  List, Option, ℕ, ◌≡◌, if_both, refl, some, none, suc, ◌∷◌, ◌+◌, [], false, zero, if◌then◌else◌,
  not, length, ◌||◌, ltb, ◌==◌, leb, ◌&&◌,
}
use inferno_esp32_p.FlowsClient.{Client}
use inferno_esp32_p.Subscriber.Resolve.{forget_device}
use inferno_esp32_p.Subscriber.Commands.{load, restore_all, restore}
use inferno_esp32_p.AudioRx.Flows.{aoip_rx_flow_packets}
use inferno_esp32_p.Subscriber.Task.{
  check_from, check_slot, turn, rebuild_if_due, SubTask, Turn, any_pending,
}
use inferno_esp32_p.Subscriber.Life.{
  happen, live, numbered, subscriber_start, Event, patched, started, renamed, turned,
}
use inferno_esp32_p.Prelude.Words.{inc32}
use inferno_esp32_p.Subscriber.Ghosts.{tear_down-NoGhosts}
use inferno_esp32_p.Subscriber.Unghosted.{rebuild-NoGhosts}

check_slot-NoGhosts :
    (world : World) (now i : ℕ) (s : Subscriber)
    → NoGhosts s.ch
    → NoGhosts (check_slot world now i s).ch
unfolding check_slot forget_device
check_slot-NoGhosts world now i s h =
    let P : Subscriber → Type 0 = λ t. NoGhosts t.ch in
    let f = slot_at s i in
    if_both P (not f.active || ltb now f.next_action_us) h (
      if_both P (not (aoip_rx_flow_packets s.rx i == f.last_packets)) h (
        tear_down-NoGhosts world i
          (forget_device f.device (record s {
            stats = record s.stats { keepalives_lost = inc32 s.stats.keepalives_lost };
          }))
          h))

check_from-NoGhosts :
    (world : World) (now i n : ℕ) (s : Subscriber)
    → NoGhosts s.ch
    → NoGhosts (check_from world now i n s).ch
unfolding check_from
check_from-NoGhosts world now i zero s h = h
check_from-NoGhosts world now i (suc n) s h =
    check_from-NoGhosts world now (i + 1) n (check_slot world now i s)
      (check_slot-NoGhosts world now i s h)

turn-NoGhosts :
    (t : Turn) (k : SubTask)
    → QuietGaps t.world.gaps
    → NoGhosts k.sub.ch
    → NoGhosts (turn t k).sub.ch
unfolding turn rebuild_if_due
turn-NoGhosts t k quiet h =
    check_from-NoGhosts t.world t.live_us 0 max_flows
      (record (rebuild_if_due t k).sub { rx = t.received (rebuild_if_due t k).sub.rx })
      (if_both (λ (k' : SubTask). NoGhosts k'.sub.ch) k.sub.dirty
        (rebuild-NoGhosts t.world (record k.sub { dirty = false }) quiet h)
        (if_both (λ (k' : SubTask). NoGhosts k'.sub.ch)
          (leb k.next_retry t.before_us && any_pending k.sub.ch)
          (rebuild-NoGhosts t.world k.sub quiet h) h))

-- No command between the check and the write of a status ends the subscription of that channel.
abbrev pub Quiet : List Event → Type 0
Quiet [] = Unit {0}
Quiet (turned t ∷ es) = QuietGaps t.world.gaps × Quiet es
Quiet (patched p ∷ es) = Quiet es
Quiet (renamed opened c friendly ∷ es) = Quiet es

happen-NoGhosts :
    (e : Event) (es : List Event) (k : SubTask)
    → Quiet (e ∷ es)
    → NoGhosts k.sub.ch
    → NoGhosts (happen e k).sub.ch × Quiet es
unfolding happen
happen-NoGhosts (patched p) es k q h =
    (subscriber_set-NoGhosts p.opened p.channel p.tx_channel p.tx_device k.sub h, q)
happen-NoGhosts (renamed opened c friendly) es k q h =
    (subscriber_rename-NoGhosts opened c friendly k.sub h, q)
happen-NoGhosts (turned t) es k (q, qs) h = (turn-NoGhosts t k q h, qs)

live-NoGhosts :
    (es : List Event) (k : SubTask) → Quiet es → NoGhosts k.sub.ch → NoGhosts (live es k).sub.ch
unfolding live
live-NoGhosts [] k q h = h
live-NoGhosts (e ∷ es) k q h =
    let (g, qs) = happen-NoGhosts e es k q h in live-NoGhosts es (happen e k) qs g

restore-NoGhost : (x : Channel) (v : Saved) → NoGhost (restore x v)
restore-NoGhost x v = by_name (name32 v.tx_channel)
  where
    by_name : (n : List ℕ) → n ≡ [] → (if is_empty n then sub_none else sub_pending) ≡ sub_none
    by_name [] e = refl
    by_name (b ∷ n) e = cc

restore_all-NoGhosts :
    (xs : List Channel) (vs : List Saved) → NoGhosts xs → NoGhosts (restore_all xs vs)
unfolding restore_all
restore_all-NoGhosts [] vs h c = h c
restore_all-NoGhosts (x ∷ xs) [] h c = h c
restore_all-NoGhosts (x ∷ xs) (v ∷ vs) h zero = restore-NoGhost x v
restore_all-NoGhosts (x ∷ xs) (v ∷ vs) h (suc c) = restore_all-NoGhosts xs vs (λ d. h (suc d)) c

numbered-NoGhosts : (c n : ℕ) → NoGhosts (numbered c n)
numbered-NoGhosts c zero d e = refl
numbered-NoGhosts c (suc n) zero e = refl
numbered-NoGhosts c (suc n) (suc d) e = numbered-NoGhosts (c + 1) n d e

load-NoGhosts : (s : Subscriber) → NoGhosts s.ch → NoGhosts (load s).ch
unfolding load
load-NoGhosts s h = loaded s.nvs
  where
    loaded :
        (o : Option (List Saved))
        → NoGhosts
            (elim o as (λ _. Subscriber) [
              | none ↦ s
              | some vs ↦ (if length vs == nch then record s { ch = restore_all s.ch vs } else s)
            ]).ch
    loaded none = h
    loaded (some vs) =
        if_both (λ (t : Subscriber). NoGhosts t.ch) (length vs == nch)
          (restore_all-NoGhosts s.ch vs h) h

-- From the start, whatever NVS holds, and after any turns of the task and commands of the
-- controller, some of them arriving in the midst of a rebuild, a channel that is not subscribed has
-- the status "none": no rebuild brings it back, as long as no command ends the subscription of a
-- channel between the check and the write of a status of that channel.
pub live_without_ghosts :
    (nvs : Option (List Saved)) (rx : Receiver) (client : Client) (es : List Event) (c : ℕ)
    → Quiet es
    → (channel_at (live es (started nvs rx client)).sub c).tx_channel ≡ []
    → (channel_at (live es (started nvs rx client)).sub c).status ≡ sub_none
unfolding subscriber_start
live_without_ghosts nvs rx client es c quiet =
    live-NoGhosts es (started nvs rx client) quiet (load-NoGhosts _ (numbered-NoGhosts 0 nch)) c
