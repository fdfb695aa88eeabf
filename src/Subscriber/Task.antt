-- ===== src/Subscriber/Task.antt =====
-- The task of main/subscriber.c: rebuilds, retries and the liveness of the flows.
use inferno_esp32_p.Subscriber.{
  Subscriber, Channel, World, slot_at, with_slot, is_empty, sub_active, max_flows,
}
use inferno_esp32_p.Subscriber.Resolve.{forget_device}
use inferno_esp32_p.Subscriber.Reconcile.{tear_down}
use inferno_esp32_p.Subscriber.Rebuild.{rebuild, keepalive_us}
use inferno_esp32_p.AudioRx.{Receiver}
use inferno_esp32_p.AudioRx.Flows.{aoip_rx_flow_packets}
use inferno_esp32_p.Prelude.{
  ℕ, Bool, true, false, zero, suc, List, [], ◌∷◌, ◌+◌, ◌==◌, ◌&&◌, ◌||◌, not, ltb, leb,
  if◌then◌else◌,
}
use inferno_esp32_p.Prelude.Words.{inc32}

abbrev pub retry_us : ℕ
retry_us = 5000000

unfoldable pub any_pending : List Channel → Bool
any_pending [] = false
any_pending (x ∷ xs) = not (is_empty x.tx_channel) && not (x.status == sub_active) || any_pending xs

-- One slot at the time `now`: audio that has moved on, or a flow that is dropped and asked anew.
unfoldable pub check_slot : World → ℕ → ℕ → Subscriber → Subscriber
check_slot world now i s =
    let f = slot_at s i in
    let pk = aoip_rx_flow_packets s.rx i in
    if not f.active || ltb now f.next_action_us
    then s
    else if not (pk == f.last_packets)
    then record (with_slot s i
        (record f { last_packets = pk; next_action_us = now + keepalive_us })) {
          stats = record s.stats { keepalives_ok = inc32 s.stats.keepalives_ok };
        }
    else record (tear_down world i (
        forget_device f.device (record s {
          stats = record s.stats { keepalives_lost = inc32 s.stats.keepalives_lost };
        }))) { dirty = true }

-- `n` slots from `i` on.
unfoldable pub check_from : World → ℕ → ℕ → ℕ → Subscriber → Subscriber
check_from world now i zero s = s
check_from world now i (suc n) s = check_from world now (i + 1) n (check_slot world now i s)

-- What a round sees: the answers to a rebuild, the time when it looks for one to do, after it, and
-- at the liveness check, and what the packets that came have made of the receiver.
pub record Turn : Type 0 where
  pub world : World
  pub before_us : ℕ
  pub after_us : ℕ
  pub live_us : ℕ
  pub received : Receiver → Receiver

-- The task: the time of the next retry, and the rest.
pub record SubTask : Type 0 where
  pub next_retry : ℕ
  pub sub : Subscriber

-- A rebuild where one is asked for, or a retry that is due.
unfoldable pub rebuild_if_due : Turn → SubTask → SubTask
rebuild_if_due t k =
    let s = k.sub in
    if s.dirty
    then record {
      next_retry = t.after_us + retry_us;
      sub = rebuild t.world (record s { dirty = false });
    }
    else if leb k.next_retry t.before_us && any_pending s.ch
    then record { next_retry = t.after_us + retry_us; sub = rebuild t.world s }
    else k

-- A turn of the loop of `sub_task`.
unfoldable pub turn : Turn → SubTask → SubTask
turn t k =
    let k' = rebuild_if_due t k in
    record k' {
      sub = check_from t.world t.live_us 0 max_flows (record k'.sub { rx = t.received k'.sub.rx });
    }
