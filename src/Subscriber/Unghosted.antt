-- ===== src/Subscriber/Unghosted.antt =====
-- No request of a rebuild of main/subscriber.c gives a status to a channel without a subscription.
use inferno_esp32_p.Subscriber.Status.{NoGhosts, gather-NoGhosts, meanwhile-NoGhosts, QuietGaps}
use inferno_esp32_p.Subscriber.Reconcile.{reconcile_from, tear_down}
use inferno_esp32_p.Subscriber.{
  World, Subscriber, max_flows, Receiver, slot_at, sub_pending, with_slot, Snapshot, snapshot,
}
use inferno_esp32_p.Subscriber.Rebuild.{
  ask, ask_from, ask_want, bring_up, fall_back, grant, refuse, rebuild, retire, conclude, free_from,
  up, dropped, fresh_slot, flow_name, with_socket, request_flow,
}
use inferno_esp32_p.Prelude.{
  List, Option, ℕ, Bool, subst, ◌≡◌, if_both, refl, some, sym, true, ◌⊎◌, inr, none, ◌∙◌, ◌∷◌, inl,
  take, ◌+◌, [], false,
}
use inferno_esp32_p.FlowsClient.{Failure}
use inferno_esp32_p.Subscriber.Resolve.{forget_device}
use inferno_esp32_p.Subscriber.Wants.{Want, gather}
use inferno_esp32_p.Subscriber.Commands.{meanwhile}
use inferno_esp32_p.AudioRx.Flows.{FlowError, aoip_rx_bind_flow}
use inferno_esp32_p.Subscriber.Ghosts.{
  tear_down-ch, tear_down-NoGhosts, mark_slots-NoGhosts, activate_slots-NoGhosts,
  reconcile_from-NoGhosts,
}

ask-ch :
    (world : World) (k : ℕ) (second : Bool) (i : ℕ) (s : Subscriber)
    → (ask world k second i s).0.ch ≡ s.ch
unfolding ask
ask-ch world k second i s = refl

fall_back-ch :
    (world : World) (k i old : ℕ) (s : Subscriber) → (fall_back world k i old s).0.ch ≡ s.ch
unfolding fall_back
fall_back-ch world k i old s =
    ask-ch world k true i (tear_down world old s) ∙ tear_down-ch world old s

request_flow-NoGhosts :
    (world : World) (k i : ℕ) (replaces : Option ℕ) (s : Subscriber)
    → NoGhosts s.ch
    → NoGhosts (request_flow world k i replaces s).0.0.ch
unfolding request_flow
request_flow-NoGhosts world k i replaces s h =
    answered (ask world k false i s) replaces (subst NoGhosts (sym (ask-ch world k false i s)) h)
  where
    answered :
        (r : Subscriber × (Failure ⊎ List ℕ)) (replaces : Option ℕ)
        → NoGhosts r.0.ch
        → NoGhosts
            (elim r.1 as (λ _. (Subscriber × (Failure ⊎ List ℕ)) × Option ℕ) [
              | inr handle ↦ ((r.0, inr handle), replaces)
              | inl e ↦ elim replaces [
                | none ↦ ((r.0, inl e), none)
                | some old ↦ (fall_back world k i old r.0, none)
              ]
            ]).0.0.ch
    answered (s', inr handle) replaces g = g
    answered (s', inl e) none g = g
    answered (s', inl e) (some old) g = subst NoGhosts (sym (fall_back-ch world k i old s')) g

retire-NoGhosts :
    (world : World) (replaces : Option ℕ) (s : Subscriber)
    → NoGhosts s.ch
    → NoGhosts (retire world replaces s).ch
retire-NoGhosts world none s h = h
retire-NoGhosts world (some old) s h = tear_down-NoGhosts world old s h

conclude-NoGhosts :
    (world : World) (snap : Snapshot) (quiet : QuietGaps snap.gaps) (k : ℕ) (w : Want) (i : ℕ)
    (r : (Subscriber × (Failure ⊎ List ℕ)) × Option ℕ)
    → NoGhosts r.0.0.ch
    → NoGhosts (conclude world snap k w i r).ch
unfolding grant refuse forget_device
conclude-NoGhosts world snap quiet k w i ((s, inr handle), replaces) h =
    activate_slots-NoGhosts snap quiet (slot_at (retire world replaces (up world k i handle s)) i)
      (retire world replaces (up world k i handle s))
      (retire-NoGhosts world replaces (up world k i handle s) h)
conclude-NoGhosts world snap quiet k w i ((s, inl e), replaces) h =
    mark_slots-NoGhosts snap quiet sub_pending (take w.req.nslots w.slot_to_ch) (dropped w i s) h

bring_up-NoGhosts :
    (world : World) (snap : Snapshot) (quiet : QuietGaps snap.gaps) (k : ℕ) (w : Want) (i : ℕ)
    (s : Subscriber)
    → NoGhosts s.ch
    → NoGhosts (bring_up world snap k w i s).ch
unfolding bring_up
bring_up-NoGhosts world snap quiet k w i s h =
    bound
      (aoip_rx_bind_flow s.rx i w.req.nslots w.slot_to_ch w.req.fpp (world.sock k) (world.bound k))
  where
    bound :
        (r : Receiver × (FlowError ⊎ ℕ))
        → NoGhosts
            (elim r.1 as (λ _. Subscriber) [
              | inl e ↦ with_slot (record s { rx = r.0 }) i (record (fresh_slot w) { device = [] })
              | inr port ↦ conclude world snap k w i (
                  request_flow world k i w.replaces (
                    with_slot
                      (record s { rx = r.0 })
                      i
                      (record (fresh_slot w) {
                        req = record w.req { rx_port = port; rx_flow_name = flow_name i };
                      })))
            ]).ch
    bound (rx, inl e) = h
    bound (rx, inr port) =
        conclude-NoGhosts world snap quiet k w i
          (request_flow world k i w.replaces (with_socket w i rx port s))
          (request_flow-NoGhosts world k i w.replaces (with_socket w i rx port s) h)

ask_want-NoGhosts :
    (world : World) (snap : Snapshot) (quiet : QuietGaps snap.gaps) (k : ℕ) (w : Want)
    (s : Subscriber)
    → NoGhosts s.ch
    → NoGhosts (ask_want world snap k w s).ch
unfolding ask_want
ask_want-NoGhosts world snap quiet k w s h =
    let s' = meanwhile (world.patches_asking k) s in
    let h' = meanwhile-NoGhosts (world.patches_asking k) s h in
    if_both (λ (t : Subscriber). NoGhosts t.ch) w.done h'
      (elim (free_from 0 s'.flow)
        as (λ o.
          NoGhosts
            (elim o as (λ _. Subscriber) [
              | none ↦ s'
              | some i ↦ bring_up world snap k w i s'
            ]).ch) [ none ↦ h' | some i ↦ bring_up-NoGhosts world snap quiet k w i s' h' ])

ask_from-NoGhosts :
    (world : World) (snap : Snapshot) (quiet : QuietGaps snap.gaps) (k : ℕ) (ws : List Want)
    (s : Subscriber)
    → NoGhosts s.ch
    → NoGhosts (ask_from world snap k ws s).ch
unfolding ask_from
ask_from-NoGhosts world snap quiet k [] s h = h
ask_from-NoGhosts world snap quiet k (w ∷ ws) s h =
    ask_from-NoGhosts world snap quiet (k + 1) ws (ask_want world snap k w s)
      (ask_want-NoGhosts world snap quiet k w s h)

pub rebuild-NoGhosts :
    (world : World) (s : Subscriber)
    → QuietGaps world.gaps
    → NoGhosts s.ch
    → NoGhosts (rebuild world s).ch
unfolding rebuild
rebuild-NoGhosts world s quiet h =
    let sw = reconcile_from world (snapshot world s) 0 max_flows (gather world s) in
    ask_from-NoGhosts world (snapshot world s) quiet 0 sw.1 sw.0 (
      reconcile_from-NoGhosts world (snapshot world s) quiet 0 max_flows (gather world s)
        (gather-NoGhosts world s quiet h))
