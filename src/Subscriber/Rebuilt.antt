-- ===== src/Subscriber/Rebuilt.antt =====
-- A rebuild of main/subscriber.c as a whole, on the flow table.
use inferno_esp32_p.Subscriber.Table.{dev}
use inferno_esp32_p.Subscriber.Asked.{want_at}
use inferno_esp32_p.Subscriber.Requests.{
  tear_down-flow, activate_slots-flow, meanwhile-flow, set_status_if_current-flow,
}
use inferno_esp32_p.Subscriber.Reconciled.{
  Reconciled, seek_undone_found, Reconciled-free, Reconciled-cleared,
}
use inferno_esp32_p.Prelude.{
  List, ℕ, ◌<◌, ◌≡◌, false, length, true, ◌+◌, [], set, subst, ◌≢◌, arith, some, sym, ◌∷◌, Option,
  ap, refl, suc, ◌∙◌, zero, none, if◌then◌else◌, not, get_or, if_both, if_split, ◌==◌,
}
use inferno_esp32_p.Subscriber.Reconcile.{
  reconcile_from, reconcile_slot, tear_down, seek_undone_from, same_slots, activate_slots,
}
use inferno_esp32_p.Subscriber.{
  World, Channel, is_empty, Subscriber, slot_at, TxChannel, sub_pending, Snapshot, snapshot,
}
use inferno_esp32_p.Subscriber.Wants.{
  Want, no_want, gather, place_or_pend, want_channel, want_from, Plan, place,
}
use inferno_esp32_p.Subscriber.Matched.{Reconciled-done, Reconciled-replaces}
use inferno_esp32_p.Subscriber.Resolve.{resolve_cached, is_hit, set_status_if_current, entry_at}
use inferno_esp32_p.Prelude.Words.{inc32}
use inferno_esp32_p.Subscriber.Commands.{meanwhile}
use inferno_esp32_p.ChanResolve.Answers.{chan_resolve}

is_empty_nil : (xs : List ℕ) → is_empty xs ≡ true → xs ≡ []
is_empty_nil [] h = refl
is_empty_nil (x ∷ xs) h = cc

is_empty_full : (xs : List ℕ) → is_empty xs ≡ false → xs ≢ []
is_empty_full [] h e = cc
is_empty_full (x ∷ xs) h e = cc

-- One slot.
reconcile_slot-Reconciled :
    (D : List ℕ → Type 0) (world : World) (snap : Snapshot) (i : ℕ) (s : Subscriber)
    (ws : List Want)
    → Reconciled D i s.flow ws
    → Reconciled D
        (i + 1)
        (reconcile_slot world snap i (s, ws)).0.flow
        (reconcile_slot world snap i (s, ws)).1
unfolding reconcile_slot
reconcile_slot-Reconciled D world snap i s ws r =
    if_split P (is_empty (slot_at s i).device)
      (λ e. Reconciled-free s.flow i ws D r (is_empty_nil _ e))
      (λ full. sought (is_empty_full _ full) (seek_undone_from 0 (slot_at s i).device ws) refl)
  where
    P : Subscriber × List Want → Type 0
    P p = Reconciled D (i + 1) p.0.flow p.1

    cleared : Reconciled D (i + 1) (tear_down world i s).flow ws
    cleared =
        subst (λ t. Reconciled D (i + 1) t ws) (sym (tear_down-flow world i s))
          (Reconciled-cleared s.flow i ws D r)

    sought :
        dev s.flow i ≢ []
        → (o : Option ℕ) → seek_undone_from 0 (slot_at s i).device ws ≡ o
        → P (elim o as (λ _. Subscriber × List Want) [
          | none ↦ (tear_down world i s, ws)
          | some k ↦
              (if not (slot_at s i).active
                then (tear_down world i s, ws)
                else if same_slots (slot_at s i) (get_or ws k no_want)
                then (
                  activate_slots snap (slot_at s i) s,
                  set ws k (record (get_or ws k no_want) { done = true }),
                )
                else (s, set ws k (record (get_or ws k no_want) { replaces = some i })))
        ])
    sought full none e = cleared
    sought full (some k) e =
        let (n, at, lt, todo, same) = seek_undone_found 0 (slot_at s i).device ws k e in
        let kn : k ≡ n = omega arith in
        let lk : k < length ws = omega arith in
        let same_k : (want_at ws k).device ≡ dev s.flow i =
          ap (λ x. (want_at ws x).device) kn ∙ same in
        if_both P (not (slot_at s i).active) cleared (
          if_both P (same_slots (slot_at s i) (get_or ws k no_want))
            (subst
              (λ t.
                Reconciled D (i + 1) t (set ws k (record (get_or ws k no_want) { done = true })))
              (sym (activate_slots-flow snap (slot_at s i) s))
              (Reconciled-done s.flow i ws D r k lk same_k))
            (Reconciled-replaces s.flow i ws D r k lk same_k full))

pub reconcile_from-Reconciled :
    (D : List ℕ → Type 0) (world : World) (snap : Snapshot) (i n : ℕ) (sw : Subscriber × List Want)
    → Reconciled D i sw.0.flow sw.1
    → Reconciled D
        (i + n)
        (reconcile_from world snap i n sw).0.flow
        (reconcile_from world snap i n sw).1
unfolding reconcile_from
reconcile_from-Reconciled D world snap i zero sw r =
    subst (λ k. Reconciled D k sw.0.flow sw.1) (omega arith) r
reconcile_from-Reconciled D world snap i (suc n) sw r =
    subst
      (λ k.
        Reconciled D k (reconcile_from world snap i (suc n) sw).0.flow
          (reconcile_from world snap i (suc n) sw).1)
      (omega arith)
      (reconcile_from-Reconciled D world snap (i + 1) n (reconcile_slot world snap i sw)
        (reconcile_slot-Reconciled D world snap i sw.0 sw.1 r))

-- Step 1 leaves the table.
resolve_cached-flow :
    (c : ℕ) (ch : Channel) (lookup : Option TxChannel) (s : Subscriber)
    → (resolve_cached c ch lookup s).0.flow ≡ s.flow
unfolding resolve_cached
resolve_cached-flow c ch none s =
    if_both (λ (p : Subscriber × Option TxChannel). p.0.flow ≡ s.flow) (is_hit (entry_at s c) ch)
      refl refl
resolve_cached-flow c ch (some tx) s =
    if_both (λ (p : Subscriber × Option TxChannel). p.0.flow ≡ s.flow) (is_hit (entry_at s c) ch)
      refl refl

place_or_pend-flow :
    (snap : Snapshot) (fpp c : ℕ) (ch : Channel) (tx : TxChannel) (s : Subscriber) (plan : Plan)
    → (place_or_pend snap fpp c ch tx (s, plan)).0.flow ≡ s.flow
unfolding place_or_pend
place_or_pend-flow snap fpp c ch tx s plan =
    elim (place fpp c ch tx plan)
      as (λ o.
        (elim o as (λ _. Subscriber × Plan) [
          | none ↦ (set_status_if_current snap c sub_pending s, plan)
          | some plan' ↦ (s, plan')
        ]).0.flow
        ≡ s.flow) [ none ↦ set_status_if_current-flow snap c sub_pending s | some plan' ↦ refl ]

want_channel-flow :
    (world : World) (snap : Snapshot) (c : ℕ) (ch : Channel) (s : Subscriber) (plan : Plan)
    → (want_channel world snap c ch (s, plan)).0.flow ≡ s.flow
unfolding want_channel
want_channel-flow world snap c ch s plan =
    let s0 = meanwhile (world.patches c) s in
    let e0 = meanwhile-flow (world.patches c) s in
    if_both (λ (p : Subscriber × Plan). p.0.flow ≡ s.flow) (is_empty ch.tx_channel) e0
      (found (resolve_cached c ch (chan_resolve (world.answers c)) s0)
        (resolve_cached-flow c ch (chan_resolve (world.answers c)) s0 ∙ e0))
  where
    found :
        (r : Subscriber × Option TxChannel)
        → r.0.flow ≡ s.flow
        → (elim r.1 as (λ _. Subscriber × Plan) [
          | none ↦ (
            set_status_if_current snap c sub_pending (record r.0 {
              stats = record r.0.stats { resolve_failed = inc32 r.0.stats.resolve_failed };
            }),
            plan,
          )
          | some tx ↦
              (if not (tx.sample_rate == world.hz)
                then (set_status_if_current snap c sub_pending r.0, plan)
                else place_or_pend snap world.fpp c ch tx (r.0, plan))
        ]).0.flow
          ≡ s.flow
    found (s1, none) e =
        set_status_if_current-flow snap c sub_pending
          (record s1 { stats = record s1.stats { resolve_failed = inc32 s1.stats.resolve_failed } })
        ∙ e
    found (s1, some tx) e =
        if_both (λ (p : Subscriber × Plan). p.0.flow ≡ s.flow) (not (tx.sample_rate == world.hz))
          (set_status_if_current-flow snap c sub_pending s1 ∙ e)
          (place_or_pend-flow snap world.fpp c ch tx s1 plan ∙ e)

want_from-flow :
    (world : World) (snap : Snapshot) (c : ℕ) (chs : List Channel) (sp : Subscriber × Plan)
    → (want_from world snap c chs sp).0.flow ≡ sp.0.flow
unfolding want_from
want_from-flow world snap c [] sp = refl
want_from-flow world snap c (ch ∷ chs) sp =
    want_from-flow world snap (c + 1) chs (want_channel world snap c ch sp)
    ∙ want_channel-flow world snap c ch sp.0 sp.1

pub gather-flow : (world : World) (s : Subscriber) → (gather world s).0.flow ≡ s.flow
unfolding gather
gather-flow world s =
    want_from-flow world (snapshot world s) 0 s.ch (s, record { wants = []; floor_us = 0 })
