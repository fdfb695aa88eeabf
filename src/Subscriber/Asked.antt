-- ===== src/Subscriber/Asked.antt =====
-- The requests of a rebuild of main/subscriber.c keep one flow for each transmitter.
use inferno_esp32_p.Subscriber.Table.{slot, dev, OneFlow, Upshot, Asks, Upshot-OneFlow, Upshot-Asks}
use inferno_esp32_p.Subscriber.Requests.{free_from_lem, meanwhile-flow}
use inferno_esp32_p.Subscriber.Granted.{requested}
use inferno_esp32_p.Prelude.{
  List, ℕ, get_or, ◌<◌, length, ℕ_discrete, ◌≢◌, [], inl, ◌∷◌, ◌≡◌, arith, false, subst, suc, sym,
  ◌⊎◌, Option, ap, ◌+◌, inr, ◌∙◌, set, get_or-set_same, get_or-set_other, refl, none, some,
  if_split, length-set,
}
use inferno_esp32_p.Subscriber.Rebuild.{
  ask_from, ask_want, bring_up, free_from, fresh_slot, conclude, request_flow, with_socket,
  flow_name,
}
use inferno_esp32_p.Subscriber.Wants.{Want, no_want}
use inferno_esp32_p.Subscriber.{World, FlowSlot, Subscriber, Receiver, with_slot, no_slot, Snapshot}
use inferno_esp32_p.AudioRx.Flows.{FlowError, aoip_rx_bind_flow}
use inferno_esp32_p.Subscriber.Commands.{meanwhile}

abbrev pub want_at : List Want → ℕ → Want
want_at ws n = get_or ws n no_want

-- No two wanted flows are of one transmitter.
abbrev pub Apart : List Want → Type 0
Apart ws =
    (m n : ℕ)
    → m < length ws
    → n < length ws
    → (want_at ws m).device ≡ (want_at ws n).device
    → m ≡ n

-- All that are not served yet can be asked for.
abbrev pub AsksAll : List Want → List FlowSlot → Type 0
AsksAll ws fs = (n : ℕ) → n < length ws → (want_at ws n).done ≡ false → Asks (want_at ws n) fs

-- The device of every slot that has one.
abbrev pub Devices : (List ℕ → Type 0) → List FlowSlot → Type 0
Devices D fs = (j : ℕ) → dev fs j ≢ [] → D (dev fs j)

bring_up-Upshot :
    (world : World) (snap : Snapshot) (k : ℕ) (w : Want) (i : ℕ) (s : Subscriber)
    → dev s.flow i ≡ []
    → i < length s.flow
    → Asks w s.flow
    → Upshot w i s.flow (bring_up world snap k w i s).flow
unfolding bring_up
bring_up-Upshot world snap k w i s free lt a =
    bound
      (aoip_rx_bind_flow s.rx i w.req.nslots w.slot_to_ch w.req.fpp (world.sock k) (world.bound k))
  where
    bound :
        (r : Receiver × (FlowError ⊎ ℕ))
        → Upshot w i s.flow
            (elim r.1 as (λ _. Subscriber) [
              | inl e ↦ with_slot (record s { rx = r.0 }) i (record (fresh_slot w) { device = [] })
              | inr port ↦
                  conclude world snap k w i
                    (request_flow world k i w.replaces (with_socket w i r.0 port s))
            ]).flow
    bound (rx, inl e) = record {
      size = length-set s.flow i (record (fresh_slot w) { device = [] });
      free = free;
      here = inr (ap (λ (f : FlowSlot). f.device) at, ap (λ (f : FlowSlot). f.active) at);
      others = λ j ne. inl (
          get_or-set_other s.flow i j (record (fresh_slot w) { device = [] }) no_slot
            (λ e'. ne (sym e')));
      retired = λ j ne e' full. absurd (full (ap (λ (f : FlowSlot). f.device) at));
    }
      where
        at :
            slot (set s.flow i (record (fresh_slot w) { device = [] })) i
            ≡ record (fresh_slot w) { device = [] }
        at = get_or-set_same s.flow i (record (fresh_slot w) { device = [] }) no_slot lt
    bound (rx, inr port) =
        requested world snap k w i s.flow free lt
          (record (fresh_slot w) {
            req = record w.req { rx_port = port; rx_flow_name = flow_name i };
          })
          (a.short, refl) (with_socket w i rx port s) refl
          (λ j rep e. a.named (sym (a.aims j rep) ∙ ap (dev s.flow) e ∙ free))

-- A wanted flow is done, finds no slot, or is asked for in a free one.
ask_want_lem :
    (world : World) (snap : Snapshot) (k : ℕ) (w : Want) (s : Subscriber)
    → (w.done ≡ false → Asks w s.flow)
    → ((ask_want world snap k w s).flow ≡ s.flow)
      ⊎ ((w.done ≡ false) × (i : ℕ) × Upshot w i s.flow (ask_want world snap k w s).flow)
unfolding ask_want
ask_want_lem world snap k w s a =
    let s' = meanwhile (world.patches_asking k) s in
    let same = meanwhile-flow (world.patches_asking k) s in
    if_split
      (λ (t : Subscriber).
        (t.flow ≡ s.flow) ⊎ ((w.done ≡ false) × (i : ℕ) × Upshot w i s.flow t.flow))
      w.done (λ _. inl same) (λ todo. searched todo (free_from 0 s'.flow) refl)
  where
    searched :
        w.done ≡ false
        → (o : Option ℕ) → free_from 0 (meanwhile (world.patches_asking k) s).flow ≡ o
        → ((elim o as (λ _. Subscriber) [
          | none ↦ meanwhile (world.patches_asking k) s
          | some i ↦ bring_up world snap k w i (meanwhile (world.patches_asking k) s)
        ]).flow
            ≡ s.flow)
          ⊎ ((w.done ≡ false)
              × (i : ℕ) × Upshot w i s.flow
                  (elim o as (λ _. Subscriber) [
                    | none ↦ meanwhile (world.patches_asking k) s
                    | some i ↦ bring_up world snap k w i (meanwhile (world.patches_asking k) s)
                  ]).flow)
    searched todo none e = inl (meanwhile-flow (world.patches_asking k) s)
    searched todo (some i) e =
        let s' = meanwhile (world.patches_asking k) s in
        let same = meanwhile-flow (world.patches_asking k) s in
        let (j, at, lt, free) = free_from_lem 0 s'.flow i e in
        let ei : i ≡ j = omega arith in
        inr (
          todo,
          i,
          subst (λ t. Upshot w i t (bring_up world snap k w i s').flow) same
              (bring_up-Upshot world snap k w i s' (ap (dev s'.flow) ei ∙ free) (omega arith)
                (subst (Asks w) (sym same) (a todo))),
        )

Upshot-Devices :
    (D : List ℕ → Type 0) (w : Want) (i : ℕ) (fs fs' : List FlowSlot)
    → Upshot w i fs fs'
    → D w.device
    → Devices D fs
    → Devices D fs'
Upshot-Devices D w i fs fs' u d all j full = elim (ℕ_discrete j i) [
  | yes e ↦ elim u.here [
    | inl h ↦ subst D (sym (ap (dev fs') e ∙ h.0)) d
    | inr h ↦ absurd (full (ap (dev fs') e ∙ h.0))
  ]
  | no n ↦ elim (u.others j n) [
    | inl same ↦
        let at = ap (λ (f : FlowSlot). f.device) same in
        subst D (sym at) (all j (λ e. full (at ∙ e)))
    | inr gone ↦ absurd (full (ap (λ (f : FlowSlot). f.device) gone.1))
  ]
]

-- The requests keep one flow for each transmitter, all of them wanted or there before.
pub ask_from-OneFlow :
    (D : List ℕ → Type 0) (world : World) (snap : Snapshot) (k : ℕ) (ws : List Want)
    (s : Subscriber)
    → OneFlow s.flow
    → Devices D s.flow
    → Apart ws
    → AsksAll ws s.flow
    → ((n : ℕ) → n < length ws → D (want_at ws n).device)
    → OneFlow (ask_from world snap k ws s).flow × Devices D (ask_from world snap k ws s).flow
unfolding ask_from
ask_from-OneFlow D world snap k [] s o all apart asks d = (o, all)
ask_from-OneFlow D world snap k (w ∷ ws) s o all apart asks d =
    let s' = ask_want world snap k w s in
    let apart' : Apart ws =
      λ m n lm ln e. omega (arith, apart (suc m) (suc n) (omega arith) (omega arith) e) in
    let later = ask_from-OneFlow D world snap (k + 1) ws s' in
    let d' : (n : ℕ) → n < length ws → D (want_at ws n).device = λ n lt. d (suc n) (omega arith) in
    elim (ask_want_lem world snap k w s (asks 0 (omega arith))) [
      | inl same ↦
          later (subst OneFlow (sym same) o) (subst (Devices D) (sym same) all) apart'
            (λ n lt todo. subst (Asks (want_at ws n)) (sym same) (asks (suc n) (omega arith) todo))
            d'
      | inr (todo, i, u) ↦
          let a = asks 0 (omega arith) todo in
          later (Upshot-OneFlow u o a)
            (Upshot-Devices D w i s.flow s'.flow u (d 0 (omega arith)) all) apart'
            (λ n lt todo'.
              Upshot-Asks u a
                (λ e. absurd (omega (arith, apart 0 (suc n) (omega arith) (omega arith) e)))
                (asks (suc n) (omega arith) todo'))
            d'
    ]
