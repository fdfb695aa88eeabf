-- ===== src/Subscriber/Ghosts.antt =====
-- No rebuild of main/subscriber.c gives a status to a channel without a subscription.
use inferno_esp32_p.Subscriber.Status.{NoGhosts, set_status_if_current-NoGhosts, QuietGaps}
use inferno_esp32_p.Subscriber.Reconcile.{
  activate_slots, mark_slots, reconcile_from, reconcile_slot, tear_down, seek_undone_from,
  same_slots,
}
use inferno_esp32_p.Subscriber.{
  World, Subscriber, FlowSlot, slot_at, sub_active, is_empty, Snapshot,
}
use inferno_esp32_p.Prelude.{
  List, ℕ, subst, ◌≡◌, if_both, refl, some, sym, true, none, suc, ◌∷◌, take, ◌+◌, [], zero,
  if◌then◌else◌, not, get_or, set,
}
use inferno_esp32_p.Subscriber.Resolve.{set_status_if_current}
use inferno_esp32_p.Prelude.Int.{ℤ, pos, negsuc}
use inferno_esp32_p.Subscriber.Wants.{Want, no_want}

pub tear_down-ch : (world : World) (i : ℕ) (s : Subscriber) → (tear_down world i s).ch ≡ s.ch
unfolding tear_down
tear_down-ch world i s = if_both (λ (t : Subscriber). t.ch ≡ s.ch) (slot_at s i).active refl refl

pub tear_down-NoGhosts :
    (world : World) (i : ℕ) (s : Subscriber) → NoGhosts s.ch → NoGhosts (tear_down world i s).ch
tear_down-NoGhosts world i s h = subst NoGhosts (sym (tear_down-ch world i s)) h

pub mark_slots-NoGhosts :
    (snap : Snapshot) (quiet : QuietGaps snap.gaps) (st : ℕ) (cs : List ℤ) (s : Subscriber)
    → NoGhosts s.ch
    → NoGhosts (mark_slots snap st cs s).ch
unfolding mark_slots
mark_slots-NoGhosts snap quiet st [] s h = h
mark_slots-NoGhosts snap quiet st (pos c ∷ cs) s h =
    mark_slots-NoGhosts snap quiet st cs (set_status_if_current snap c st s)
      (set_status_if_current-NoGhosts snap quiet c st s h)
mark_slots-NoGhosts snap quiet st (negsuc n ∷ cs) s h = mark_slots-NoGhosts snap quiet st cs s h

pub activate_slots-NoGhosts :
    (snap : Snapshot) (quiet : QuietGaps snap.gaps) (f : FlowSlot) (s : Subscriber)
    → NoGhosts s.ch
    → NoGhosts (activate_slots snap f s).ch
unfolding activate_slots
activate_slots-NoGhosts snap quiet f s h =
    mark_slots-NoGhosts snap quiet sub_active (take f.req.nslots f.slot_to_ch) s h

reconcile_slot-NoGhosts :
    (world : World) (snap : Snapshot) (quiet : QuietGaps snap.gaps) (i : ℕ) (s : Subscriber)
    (ws : List Want)
    → NoGhosts s.ch
    → NoGhosts (reconcile_slot world snap i (s, ws)).0.ch
unfolding reconcile_slot
reconcile_slot-NoGhosts world snap quiet i s ws h =
    let P : Subscriber × List Want → Type 0 = λ p. NoGhosts p.0.ch in
    let f = slot_at s i in
    if_both P (is_empty f.device) h
      (elim (seek_undone_from 0 f.device ws)
        as (λ o. P (elim o as (λ _. Subscriber × List Want) [
          | none ↦ (tear_down world i s, ws)
          | some k ↦
              (if not f.active
                then (tear_down world i s, ws)
                else if same_slots f (get_or ws k no_want)
                then (
                  activate_slots snap f s,
                  set ws k (record (get_or ws k no_want) { done = true }),
                )
                else (s, set ws k (record (get_or ws k no_want) { replaces = some i })))
        ])) [
          | none ↦ tear_down-NoGhosts world i s h
          | some k ↦ if_both P (not f.active) (tear_down-NoGhosts world i s h) (
              if_both P (same_slots f (get_or ws k no_want))
                (activate_slots-NoGhosts snap quiet f s h) h)
        ])

pub reconcile_from-NoGhosts :
    (world : World) (snap : Snapshot) (quiet : QuietGaps snap.gaps) (i n : ℕ)
    (sw : Subscriber × List Want)
    → NoGhosts sw.0.ch
    → NoGhosts (reconcile_from world snap i n sw).0.ch
unfolding reconcile_from
reconcile_from-NoGhosts world snap quiet i zero sw h = h
reconcile_from-NoGhosts world snap quiet i (suc n) sw h =
    reconcile_from-NoGhosts world snap quiet (i + 1) n (reconcile_slot world snap i sw)
      (reconcile_slot-NoGhosts world snap quiet i sw.0 sw.1 h)
