-- ===== src/Subscriber/Replacing.antt =====
-- How a rebuild of main/subscriber.c replaces a flow, and when it cannot.
use inferno_esp32_p.Subscriber.Table.{dev}
use inferno_esp32_p.Subscriber.Requests.{meanwhile-flow, free_from_lem, fall_back-flow}
use inferno_esp32_p.Subscriber.Granted.{refuse-flow, lit}
use inferno_esp32_p.Prelude.{
  List, ℕ, ◌∷◌, ◌≡◌, ap, if_both, some, ◌++◌, ◌≢◌, true, [], false, get_or, if_true, inr,
  get_or-set_other, ◌==◌, ◌⊎◌, Option, sym, subst, ◌∙◌, take, inl, ◌<◌, length, none, Bool,
  Option-cases, refl, set, ◌+◌, leb, get_or-set_default, get_or-set_same, arith, length-set,
}
use inferno_esp32_p.Subscriber.Resolve.{set_status_if_current, is_current}
use inferno_esp32_p.Subscriber.Reconcile.{mark_slots, tear_down, activate_slots}
use inferno_esp32_p.Subscriber.Rebuild.{
  grant, request_flow, ask, up, conclude, ask_from, ask_want, fall_back, free_from, refuse,
  bring_up,
}
use inferno_esp32_p.Subscriber.{
  Effect, World, Subscriber, notify, latency_floor, slot_at, ask_flow, channel_at, stop_flow,
  FlowSlot, no_channel, no_slot, sub_active, Patch, nch, Snapshot,
}
use inferno_esp32_p.Subscriber.Commands.{set_status, meanwhile, subscriber_set, save}
use inferno_esp32_p.Prelude.Int.{ℤ, pos, negsuc}
use inferno_esp32_p.Subscriber.Wants.{Want}
use inferno_esp32_p.FlowsClient.{Failure}
use mathlib.Core.Option.{some-injective, none-ne-some}
use mathlib.Core.Sum.{inl-ne-inr, inr-injective}

-- Nothing but notifications.
abbrev pub Notices : List Effect → Type 0
Notices [] = Unit {0}
Notices (notify c ∷ es) = Notices es
Notices (latency_floor n ∷ es) = ⊥
Notices (ask_flow i ∷ es) = ⊥
Notices (stop_flow i ∷ es) = ⊥

-- The effects `es'` are `es` with notifications after them.
abbrev pub NoticesThen : List Effect → List Effect → Type 0
NoticesThen es es' = (ns : List Effect) × Notices ns × (es' ≡ ns ++ es)

NoticesThen-cons :
    (c : ℕ) (es es' : List Effect) → NoticesThen es es' → NoticesThen es (notify c ∷ es')
NoticesThen-cons c es es' (ns, q, e) = (notify c ∷ ns, q, ap (λ xs. notify c ∷ xs) e)

save-effects : (opened : Bool) (s : Subscriber) → (save opened s).effects ≡ s.effects
unfolding save
save-effects opened s = if_both (λ (t : Subscriber). t.effects ≡ s.effects) opened refl refl

-- Commands of the controller cause notifications only.
meanwhile-effects :
    (ps : List Patch) (s : Subscriber) (es : List Effect)
    → NoticesThen es s.effects
    → NoticesThen es (meanwhile ps s).effects
unfolding meanwhile subscriber_set
meanwhile-effects [] s es q = q
meanwhile-effects (p ∷ ps) s es q =
    meanwhile-effects ps (subscriber_set p.opened p.channel p.tx_channel p.tx_device s) es (
      if_both (λ (t : Subscriber). NoticesThen es t.effects) (leb nch p.channel) q
        (NoticesThen-cons p.channel es _
          (subst (NoticesThen es) (sym (save-effects p.opened _)) q)))

set_status_if_current-effects :
    (snap : Snapshot) (c st : ℕ) (s : Subscriber) (es : List Effect)
    → NoticesThen es s.effects
    → NoticesThen es (set_status_if_current snap c st s).effects
unfolding set_status_if_current set_status
set_status_if_current-effects snap c st s es q =
    let s' = meanwhile (snap.gaps c st) s in
    let q' = meanwhile-effects (snap.gaps c st) s es q in
    if_both (λ (t : Subscriber). NoticesThen es t.effects)
      (is_current (channel_at s c) (get_or snap.ch c no_channel))
      (if_both (λ (t : Subscriber). NoticesThen es t.effects) ((channel_at s' c).status == st) q'
        (NoticesThen-cons c es s'.effects q'))
      q

mark_slots-effects :
    (snap : Snapshot) (st : ℕ) (cs : List ℤ) (s : Subscriber) (es : List Effect)
    → NoticesThen es s.effects
    → NoticesThen es (mark_slots snap st cs s).effects
unfolding mark_slots
mark_slots-effects snap st [] s es q = q
mark_slots-effects snap st (pos c ∷ cs) s es q =
    mark_slots-effects snap st cs (set_status_if_current snap c st s) es
      (set_status_if_current-effects snap c st s es q)
mark_slots-effects snap st (negsuc n ∷ cs) s es q = mark_slots-effects snap st cs s es q

tear_down-effects :
    (world : World) (i : ℕ) (s : Subscriber)
    → (slot_at s i).active ≡ true
    → (tear_down world i s).effects ≡ stop_flow i ∷ s.effects
unfolding tear_down
tear_down-effects world i s h =
    ap (λ (t : Subscriber). t.effects) (if_true (slot_at s i).active _ _ h)

grant-effects :
    (world : World) (snap : Snapshot) (k i old : ℕ) (handle : List ℕ) (s : Subscriber)
    → old ≢ i
    → (slot_at s old).active ≡ true
    → NoticesThen (stop_flow old ∷ s.effects) (grant world snap k i handle (some old) s).effects
unfolding grant activate_slots
grant-effects world snap k i old handle s ne live =
    let s1 = up world k i handle s in
    let s2 = tear_down world old s1 in
    let e = tear_down-effects world old s1 (
      ap (λ (f : FlowSlot). f.active)
        (get_or-set_other s.flow i old (lit world k handle (slot_at s i)) no_slot (λ x. ne (sym x)))
      ∙ live) in
    mark_slots-effects snap sub_active (take (slot_at s2 i).req.nslots (slot_at s2 i).slot_to_ch) s2
      (stop_flow old ∷ s.effects) ([], tt, e)

-- Make before break: where the transmitter grants the new flow of slot `i` at the first request,
-- the active flow that it replaces is stopped after that request, and after it there are only
-- notifications.
pub granted_then_stopped :
    (world : World) (snap : Snapshot) (k : ℕ) (w : Want) (i old : ℕ) (s : Subscriber)
    (handle : List ℕ)
    → w.replaces ≡ some old
    → old ≢ i
    → (slot_at s old).active ≡ true
    → (ask world k false i s).1 ≡ inr handle
    → (ns : List Effect) × Notices ns
      × ((conclude world snap k w i (request_flow world k i w.replaces s)).effects
          ≡ ns ++ (stop_flow old ∷ ask_flow i ∷ s.effects))
unfolding request_flow ask
granted_then_stopped world snap k w i old s handle rep ne live got =
    subst Goal (sym path)
      (grant-effects world snap k i old handle (ask world k false i s).0 ne live)
  where
    Goal : (Subscriber × (Failure ⊎ List ℕ)) × Option ℕ → Type 0
    Goal r =
        (ns : List Effect) × Notices ns
        × ((conclude world snap k w i r).effects ≡ ns ++ (stop_flow old ∷ ask_flow i ∷ s.effects))

    settled :
        (r : Subscriber × (Failure ⊎ List ℕ)) (o : Option ℕ)
        → r.1 ≡ inr handle
        → o ≡ some old
        → (elim r.1 as (λ _. (Subscriber × (Failure ⊎ List ℕ)) × Option ℕ) [
          | inr handle ↦ ((r.0, inr handle), o)
          | inl e ↦ elim o [
            | none ↦ ((r.0, inl e), none)
            | some old ↦ (fall_back world k i old r.0, none)
          ]
        ])
          ≡ ((r.0, inr handle), some old)
    settled (s', inr h) o e eo =
        let R : Type 0 = (Subscriber × (Failure ⊎ List ℕ)) × Option ℕ in
        subst (λ y. ◌≡◌ {A = R} ((s', inr h), o) ((s', inr handle), y)) eo
          (ap {B = R} (λ (x : List ℕ). ((s', inr x), o)) (inr-injective h handle e))
    settled (s', inl x) o e eo = absurd (inl-ne-inr e)

    path : request_flow world k i w.replaces s ≡ (((ask world k false i s).0, inr handle), some old)
    path = settled (ask world k false i s) w.replaces got rep

-- Break before make: where the transmitter refuses the new flow of slot `i` and then again once the
-- old flow has been stopped for it, neither slot holds a flow: the old flow is not kept.
pub refused_twice :
    (world : World) (snap : Snapshot) (k : ℕ) (w : Want) (i old : ℕ) (s : Subscriber)
    (first second : Failure)
    → w.replaces ≡ some old
    → old ≢ i
    → i < length s.flow
    → (ask world k false i s).1 ≡ inl first
    → (ask world k true i (tear_down world old (ask world k false i s).0)).1 ≡ inl second
    → let s' = conclude world snap k w i (request_flow world k i w.replaces s) in
      ((slot_at s' old).device ≡ []) × ((slot_at s' i).device ≡ [])
unfolding request_flow ask
refused_twice world snap k w i old s first second rep ne lt denied again =
    settled (ask world k false i s) w.replaces denied rep again refl
  where
    empty : Subscriber → Type 0
    empty t = ((slot_at t old).device ≡ []) × ((slot_at t i).device ≡ [])

    over :
        (r : Subscriber × (Failure ⊎ List ℕ))
        → r.1 ≡ inl second
        → r.0.flow ≡ set s.flow old no_slot
        → empty (conclude world snap k w i (r, none))
    over (t, inr h) e flow = absurd (inl-ne-inr (sym e))
    over (t, inl x) e flow =
        let g = record (slot_at t i) { device = [] } in
        let there : (refuse snap w i t).flow ≡ set (set s.flow old no_slot) i g =
          refuse-flow snap w i t ∙ ap (λ fs. set fs i g) flow in
        (
          ap (λ fs. dev fs old) there
              ∙ ap (λ (f : FlowSlot). f.device)
                  (get_or-set_other (set s.flow old no_slot) i old g no_slot (λ x. ne (sym x))
                    ∙ get_or-set_default s.flow old no_slot),
          ap (λ fs. dev fs i) there
              ∙ ap (λ (f : FlowSlot). f.device)
                  (get_or-set_same (set s.flow old no_slot) i g no_slot
                    (omega (arith, length-set s.flow old no_slot))),
        )

    settled :
        (r : Subscriber × (Failure ⊎ List ℕ)) (o : Option ℕ)
        → r.1 ≡ inl first
        → o ≡ some old
        → (ask world k true i (tear_down world old r.0)).1 ≡ inl second
        → r.0.flow ≡ s.flow
        → empty (
            conclude world snap k w i
              (elim r.1 as (λ _. (Subscriber × (Failure ⊎ List ℕ)) × Option ℕ) [
                | inr handle ↦ ((r.0, inr handle), o)
                | inl e ↦ elim o [
                  | none ↦ ((r.0, inl e), none)
                  | some old ↦ (fall_back world k i old r.0, none)
                ]
              ]))
    settled (t, inr h) o e eo again flow = absurd (inl-ne-inr (sym e))
    settled (t, inl x) none e eo again flow = absurd (none-ne-some old eo)
    settled (t, inl x) (some old') e eo again flow =
        let same : old' ≡ old = some-injective old' old eo in
        subst (λ m. empty (conclude world snap k w i (fall_back world k i m t, none))) (sym same)
          (over (fall_back world k i old t) (unfold fall_back in again)
            (fall_back-flow world k i old t ∙ ap (λ fs. set fs old no_slot) flow))

subscriber_set-client :
    (opened : Bool) (c : ℕ) (tx_channel tx_device : List ℕ) (s : Subscriber)
    → (subscriber_set opened c tx_channel tx_device s).client ≡ s.client
unfolding subscriber_set save
subscriber_set-client opened c tx_channel tx_device s =
    if_both (λ (t : Subscriber). t.client ≡ s.client) (leb nch c) refl
      (if_both (λ (t : Subscriber). t.client ≡ s.client) opened refl refl)

meanwhile-client : (ps : List Patch) (s : Subscriber) → (meanwhile ps s).client ≡ s.client
unfolding meanwhile
meanwhile-client [] s = refl
meanwhile-client (p ∷ ps) s =
    meanwhile-client ps (subscriber_set p.opened p.channel p.tx_channel p.tx_device s)
    ∙ subscriber_set-client p.opened p.channel p.tx_channel p.tx_device s

ask_want_full :
    (world : World) (snap : Snapshot) (k : ℕ) (w : Want) (s : Subscriber)
    → ((j : ℕ) → j < length s.flow → dev s.flow j ≢ [])
    → ((ask_want world snap k w s).flow ≡ s.flow) × ((ask_want world snap k w s).client ≡ s.client)
unfolding ask_want
ask_want_full world snap k w s full =
    let s' = meanwhile (world.patches_asking k) s in
    let kept : Kept s' =
      (meanwhile-flow (world.patches_asking k) s, meanwhile-client (world.patches_asking k) s) in
    if_both Kept w.done kept (elim (Option-cases (free_from 0 s'.flow)) [
      | inl e ↦
          subst
            (λ (o : Option ℕ).
              Kept
                (elim o as (λ _. Subscriber) [ none ↦ s' | some i ↦ bring_up world snap k w i s' ]))
            (sym e) kept
      | inr (i, e) ↦
          let (j, at, lt, free) = free_from_lem 0 s'.flow i e in
          absurd (
            full j (subst (λ fs. j < length fs) kept.0 lt)
              (subst (λ fs. dev fs j ≡ []) kept.0 free))
    ])
  where
    Kept : Subscriber → Type 0
    Kept t = (t.flow ≡ s.flow) × (t.client ≡ s.client)

-- Where no slot is free, the requests leave the flow table as it is, however much of it is to be
-- replaced, and send nothing to any transmitter.
pub ask_from_full :
    (world : World) (snap : Snapshot) (k : ℕ) (ws : List Want) (s : Subscriber)
    → ((j : ℕ) → j < length s.flow → dev s.flow j ≢ [])
    → ((ask_from world snap k ws s).flow ≡ s.flow)
      × ((ask_from world snap k ws s).client ≡ s.client)
unfolding ask_from
ask_from_full world snap k [] s full = (refl, refl)
ask_from_full world snap k (w ∷ ws) s full =
    let (flow, client) = ask_want_full world snap k w s full in
    let (flow', client') =
      ask_from_full world snap (k + 1) ws (ask_want world snap k w s)
        (subst (λ fs. (j : ℕ) → j < length fs → dev fs j ≢ []) (sym flow) full) in
    (flow' ∙ flow, client' ∙ client)
