-- ===== src/Subscriber/Renewed.antt =====
-- A rebuild of main/subscriber.c as a whole keeps one flow for each transmitter.
use inferno_esp32_p.Subscriber.Table.{dev, OneFlow}
use inferno_esp32_p.Subscriber.Asked.{AsksAll, Devices, ask_from-OneFlow}
use inferno_esp32_p.Subscriber.Grouping.{SubscribedTo, DevicesNamed}
use inferno_esp32_p.Subscriber.Wanted.{gather-Grouped}
use inferno_esp32_p.Subscriber.Reconciled.{Reconciled}
use mathlib.Core.Option.{none-ne-some}
use inferno_esp32_p.Prelude.{
  List, ℕ, ◌≡◌, [], subst, ◌≢◌, arith, sym, ap, ◌∙◌, ◌≤◌, dec_lt, get_or-beyond,
}
use inferno_esp32_p.Subscriber.Reconcile.{reconcile_from}
use inferno_esp32_p.Subscriber.{FlowSlot, World, Channel, Subscriber, no_slot, max_flows, snapshot}
use inferno_esp32_p.Subscriber.Wants.{Want, gather}
use inferno_esp32_p.Subscriber.Rebuild.{rebuild}
use inferno_esp32_p.Subscriber.Rebuilt.{reconcile_from-Reconciled, gather-flow}

-- A device that a channel is subscribed to.
abbrev pub Demanded : List Channel → List ℕ → Type 0
Demanded snap device = (c : ℕ) × SubscribedTo snap device c

gather-Reconciled :
    (world : World) (s : Subscriber)
    → DevicesNamed s.ch
    → OneFlow s.flow
    → Reconciled (Demanded s.ch) 0 (gather world s).0.flow (gather world s).1
gather-Reconciled world s named o =
    let g = gather-Grouped world s named in
    record {
      one = subst OneFlow (sym (gather-flow world s)) o;
      apart = g.apart;
      named = λ n lt. let w = g.each n lt in (w.named, w.short, w.demanded);
      points = λ n lt todo j lj at. absurd (omega arith);
      aims = λ n lt j e. absurd (none-ne-some j (sym (g.each n lt).no_old ∙ e));
      served = λ j lj full. absurd (omega arith);
    }

-- What is left after the last slot can be asked for.
Reconciled-AsksAll :
    (D : List ℕ → Type 0) (fs : List FlowSlot) (ws : List Want)
    → Reconciled D 4 fs ws
    → AsksAll ws fs
Reconciled-AsksAll D fs ws r n lt todo = record {
  named = (r.named n lt).0;
  short = (r.named n lt).1;
  points = λ j at. elim (dec_lt j 4) [
    | yes lj ↦ r.points n lt todo j lj at
    | no far ↦ absurd ((r.named n lt).0 (sym at ∙ beyond j (omega arith)))
  ];
  aims = λ j e. (r.aims n lt j e).1;
}
  where
    beyond : (j : ℕ) → 4 ≤ j → dev fs j ≡ []
    beyond j far =
        ap (λ (f : FlowSlot). f.device) (get_or-beyond fs j no_slot (omega (arith, r.one.size)))

-- From a table with one flow for each transmitter (four slots, no two of one device, active exactly
-- where there is a device), and subscriptions that all name a device in up to 31 bytes, a rebuild
-- leaves such a table again, whatever the network, the sockets and the transmitters answer and the
-- controller does meanwhile; and every flow in it is of a device that a channel was subscribed to
-- when the rebuild began.
pub rebuild-OneFlow :
    (world : World) (s : Subscriber)
    → DevicesNamed s.ch
    → OneFlow s.flow
    → OneFlow (rebuild world s).flow
      × ((j : ℕ)
          → dev (rebuild world s).flow j ≢ []
          → (c : ℕ) × SubscribedTo s.ch (dev (rebuild world s).flow j) c)
unfolding rebuild
rebuild-OneFlow world s named o =
    let D = Demanded s.ch in
    let sw = reconcile_from world (snapshot world s) 0 max_flows (gather world s) in
    let r =
      reconcile_from-Reconciled D world (snapshot world s) 0 4 (gather world s)
        (gather-Reconciled world s named o) in
    ask_from-OneFlow D world (snapshot world s) 0 sw.1 sw.0 r.one (served sw r) r.apart
      (Reconciled-AsksAll D sw.0.flow sw.1 r) (λ n lt. (r.named n lt).2)
  where
    served :
        (sw : Subscriber × List Want)
        → Reconciled (Demanded s.ch) 4 sw.0.flow sw.1
        → Devices (Demanded s.ch) sw.0.flow
    served sw r j full = elim (dec_lt j 4) [
      | yes lj ↦ let (n, lt, at) = r.served j lj full in subst (Demanded s.ch) at (r.named n lt).2
      | no far ↦ absurd (
          full (
            ap (λ (f : FlowSlot). f.device)
              (get_or-beyond sw.0.flow j no_slot (omega (arith, r.one.size)))))
    ]
