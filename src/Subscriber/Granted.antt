-- ===== src/Subscriber/Granted.antt =====
-- A wanted flow of main/subscriber.c, from the socket to the transmitter's answer.
use inferno_esp32_p.Subscriber.Table.{slot, dev, Upshot}
use inferno_esp32_p.Subscriber.Requests.{
  Upshot-alone, Upshot-after, Upshot-before, activate_slots-flow, mark_slots-flow, tear_down-flow,
  fall_back-flow,
}
use inferno_esp32_p.Subscriber.Rebuild.{
  grant, refuse, keepalive_us, retire, request_flow, up, ask, conclude, dropped, fall_back,
}
use inferno_esp32_p.FlowsClient.{Failure}
use inferno_esp32_p.Subscriber.Wants.{Want}
use inferno_esp32_p.Subscriber.{
  FlowSlot, World, Subscriber, slot_at, sub_pending, no_slot, Snapshot,
}
use inferno_esp32_p.Prelude.{
  List, [], ℕ, ◌≡◌, false, true, Option, ◌+◌, ◌<◌, length, set, some, ◌≢◌, ◌⊎◌, none, take,
  get_or-set_other, inr, inl, subst, ◌∙◌, get_or-set_same, sym, ap, refl,
}
use inferno_esp32_p.Subscriber.Resolve.{forget_device}

pub grant-flow :
    (world : World) (snap : Snapshot) (k i : ℕ) (handle : List ℕ) (replaces : Option ℕ)
    (s : Subscriber)
    → (grant world snap k i handle replaces s).flow
      ≡ (retire world replaces (up world k i handle s)).flow
unfolding grant
grant-flow world snap k i handle replaces s =
    activate_slots-flow snap (slot_at (retire world replaces (up world k i handle s)) i)
      (retire world replaces (up world k i handle s))

pub refuse-flow :
    (snap : Snapshot) (w : Want) (i : ℕ) (s : Subscriber)
    → (refuse snap w i s).flow ≡ set s.flow i (record (slot_at s i) { device = [] })
unfolding refuse forget_device
refuse-flow snap w i s =
    mark_slots-flow snap sub_pending (take w.req.nslots w.slot_to_ch) (dropped w i s)

-- The entry of the slot while the request is out, and those it may become.
abbrev pub Asking : Want → FlowSlot → Type 0
Asking w f = (f.device ≡ w.device) × (f.active ≡ false)

abbrev pub lit : World → ℕ → List ℕ → FlowSlot → FlowSlot
lit world k handle f = record f {
  active = true;
  handle = handle;
  last_packets = 0;
  next_action_us = world.now k + keepalive_us;
}

abbrev unlit : FlowSlot → FlowSlot
unlit f = record f { device = [] }

module _ (world : World) (snap : Snapshot) (k : ℕ) (w : Want) (i : ℕ) (fs : List FlowSlot)
    (free : dev fs i ≡ []) (lt : i < length fs) where
  module _ (f : FlowSlot) (q : Asking w f) where
    -- The table after the request of a flow that replaces none.
    concluded_alone :
        (r : Subscriber × (Failure ⊎ List ℕ))
        → w.replaces ≡ none
        → r.0.flow ≡ set fs i f
        → Upshot w i fs (conclude world snap k w i (r, none)).flow
    concluded_alone (s, inr handle) no_old e =
        subst (Upshot w i fs) (sym (grant-flow world snap k i handle none s)) (
          subst (λ t. Upshot w i fs (set t i (lit world k handle (slot t i)))) (sym e)
            (subst (λ (x : FlowSlot). Upshot w i fs (set (set fs i f) i (lit world k handle x)))
              (sym (get_or-set_same fs i f no_slot lt))
              (Upshot-alone w i fs free lt f (lit world k handle f) (inl (q.0, refl))
                (inl no_old))))
    concluded_alone (s, inl x) no_old e = subst (Upshot w i fs) (sym (refuse-flow snap w i s)) (
        subst (λ t. Upshot w i fs (set t i (unlit (slot t i)))) (sym e)
          (subst (λ (x : FlowSlot). Upshot w i fs (set (set fs i f) i (unlit x)))
            (sym (get_or-set_same fs i f no_slot lt))
            (Upshot-alone w i fs free lt f (unlit f) (inr (refl, q.1)) (inl no_old))))

    module _ (old : ℕ) (rep : w.replaces ≡ some old) (ne_old : old ≢ i) where
      -- The slot is as it was when the old one is retired.
      kept : slot (set (set fs i f) old no_slot) i ≡ f
      kept =
          get_or-set_other (set fs i f) old i no_slot no_slot ne_old
          ∙ get_or-set_same fs i f no_slot lt

      -- After the fallback.
      concluded_fallen :
          (r : Subscriber × (Failure ⊎ List ℕ))
          → r.0.flow ≡ set (set fs i f) old no_slot
          → Upshot w i fs (conclude world snap k w i (r, none)).flow
      concluded_fallen (s, inr handle) e =
          subst (Upshot w i fs) (sym (grant-flow world snap k i handle none s)) (
            subst (λ t. Upshot w i fs (set t i (lit world k handle (slot t i)))) (sym e)
              (subst
                (λ (x : FlowSlot).
                  Upshot w i fs (set (set (set fs i f) old no_slot) i (lit world k handle x)))
                (sym kept)
                (Upshot-before w i fs free lt old rep ne_old f (lit world k handle f)
                  (inl (q.0, refl)))))
      concluded_fallen (s, inl x) e = subst (Upshot w i fs) (sym (refuse-flow snap w i s)) (
          subst (λ t. Upshot w i fs (set t i (unlit (slot t i)))) (sym e)
            (subst
              (λ (x : FlowSlot). Upshot w i fs (set (set (set fs i f) old no_slot) i (unlit x)))
              (sym kept)
              (Upshot-before w i fs free lt old rep ne_old f (unlit f) (inr (refl, q.1)))))

      -- Granted at once: the old flow is retired last.
      concluded_made :
          (s : Subscriber) (handle : List ℕ)
          → s.flow ≡ set fs i f
          → Upshot w i fs (conclude world snap k w i ((s, inr handle), some old)).flow
      concluded_made s handle e =
          subst (Upshot w i fs) (sym (grant-flow world snap k i handle (some old) s)) (
            subst (Upshot w i fs) (sym (tear_down-flow world old (up world k i handle s))) (
              subst (λ t. Upshot w i fs (set (set t i (lit world k handle (slot t i))) old no_slot))
                (sym e)
                (subst
                  (λ (x : FlowSlot).
                    Upshot w i fs (set (set (set fs i f) i (lit world k handle x)) old no_slot))
                  (sym (get_or-set_same fs i f no_slot lt))
                  (Upshot-after w i fs free lt old rep ne_old f (lit world k handle f)
                    (inl (q.0, refl))))))

    pub requested :
        (s : Subscriber)
        → s.flow ≡ set fs i f
        → ((j : ℕ) → w.replaces ≡ some j → j ≢ i)
        → Upshot w i fs (conclude world snap k w i (request_flow world k i w.replaces s)).flow
    unfolding request_flow ask
    requested s e aims = answered (ask world k false i s) w.replaces refl e
      where
        answered :
            (r : Subscriber × (Failure ⊎ List ℕ)) (replaces : Option ℕ)
            → w.replaces ≡ replaces
            → r.0.flow ≡ set fs i f
            → Upshot w i fs
                (conclude world snap k w i
                  (elim r.1 as (λ _. (Subscriber × (Failure ⊎ List ℕ)) × Option ℕ) [
                    | inr handle ↦ ((r.0, inr handle), replaces)
                    | inl e ↦ elim replaces [
                      | none ↦ ((r.0, inl e), none)
                      | some old ↦ (fall_back world k i old r.0, none)
                    ]
                  ])).flow
        answered (s', inr handle) none rep e' = concluded_alone (s', inr handle) rep e'
        answered (s', inr handle) (some old) rep e' =
            concluded_made old rep (aims old rep) s' handle e'
        answered (s', inl x) none rep e' = concluded_alone (s', inl x) rep e'
        answered (s', inl x) (some old) rep e' =
            concluded_fallen old rep (aims old rep) (fall_back world k i old s')
              (fall_back-flow world k i old s' ∙ ap (λ t. set t old no_slot) e')
