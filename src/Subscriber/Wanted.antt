-- ===== src/Subscriber/Wanted.antt =====
-- What step 1 of a rebuild of main/subscriber.c wants, over all channels.
use inferno_esp32_p.Subscriber.Grouping.{DevicesNamed, Grouped}
use inferno_esp32_p.Subscriber.Gathered.{place-Grouped}
use inferno_esp32_p.Prelude.{
  List, ℕ, [], ap, ◌≡◌, false, get_or, ◌+◌, ◌≢◌, Option, arith, ◌∷◌, none, some, ◌∙◌, suc, refl,
  if◌then◌else◌, not, ◌==◌, if_both, if_split,
}
use inferno_esp32_p.Subscriber.{
  World, Channel, Subscriber, is_empty, TxChannel, no_channel, sub_pending, Snapshot, snapshot,
}
use inferno_esp32_p.Subscriber.Wants.{gather, place_or_pend, want_channel, want_from, Plan, place}
use inferno_esp32_p.Subscriber.Resolve.{set_status_if_current, resolve_cached}
use inferno_esp32_p.Prelude.Words.{inc32}
use inferno_esp32_p.Subscriber.Commands.{meanwhile}
use inferno_esp32_p.ChanResolve.Answers.{chan_resolve}

not_empty : (xs : List ℕ) → is_empty xs ≡ false → xs ≢ []
not_empty [] h e = cc
not_empty (x ∷ xs) h e = cc

module _ (world : World) (snap : Snapshot) (named : DevicesNamed snap.ch) where
  place_or_pend-Grouped :
      (c : ℕ) (ch : Channel) (tx : TxChannel) (s : Subscriber) (plan : Plan)
      → get_or snap.ch c no_channel ≡ ch
      → ch.tx_channel ≢ []
      → Grouped snap.ch plan.wants
      → Grouped snap.ch (place_or_pend snap world.fpp c ch tx (s, plan)).1.wants
  unfolding place_or_pend
  place_or_pend-Grouped c ch tx s plan at_c sub g = by (place world.fpp c ch tx plan) refl
    where
      by :
          (o : Option Plan)
          → place world.fpp c ch tx plan ≡ o
          → Grouped snap.ch
              (elim o as (λ _. Subscriber × Plan) [
                | none ↦ (set_status_if_current snap c sub_pending s, plan)
                | some plan' ↦ (s, plan')
              ]).1.wants
      by none e = g
      by (some plan') e = place-Grouped snap.ch named c ch at_c sub world.fpp tx plan plan' g e

  want_channel-Grouped :
      (c : ℕ) (ch : Channel) (s : Subscriber) (plan : Plan)
      → get_or snap.ch c no_channel ≡ ch
      → Grouped snap.ch plan.wants
      → Grouped snap.ch (want_channel world snap c ch (s, plan)).1.wants
  unfolding want_channel
  want_channel-Grouped c ch s plan at_c g =
      if_split (λ (p : Subscriber × Plan). Grouped snap.ch p.1.wants) (is_empty ch.tx_channel)
        (λ _. g)
        (λ sub.
          found (not_empty ch.tx_channel sub)
            (resolve_cached c ch (chan_resolve (world.answers c)) (meanwhile (world.patches c) s)))
    where
      found :
          ch.tx_channel ≢ []
          → (r : Subscriber × Option TxChannel)
          → Grouped snap.ch
              (elim r.1 as (λ _. Subscriber × Plan) [
                | none ↦ (
                  set_status_if_current snap c sub_pending (record r.0 {
                    stats = record r.0.stats { resolve_failed = inc32 r.0.stats.resolve_failed };
                  }),
                  plan,
                )
                | some tx ↦
                    (if not (tx.sample_rate == world.hz)
                      then (set_status_if_current snap c sub_pending r.0, plan)
                      else place_or_pend snap world.fpp c ch tx (r.0, plan))
              ]).1.wants
      found sub (s', none) = g
      found sub (s', some tx) =
          if_both (λ (p : Subscriber × Plan). Grouped snap.ch p.1.wants)
            (not (tx.sample_rate == world.hz)) g (place_or_pend-Grouped c ch tx s' plan at_c sub g)

  want_from-Grouped :
      (c : ℕ) (chs : List Channel) (sp : Subscriber × Plan)
      → ((n : ℕ) → get_or snap.ch (c + n) no_channel ≡ get_or chs n no_channel)
      → Grouped snap.ch sp.1.wants
      → Grouped snap.ch (want_from world snap c chs sp).1.wants
  unfolding want_from
  want_from-Grouped c [] sp same g = g
  want_from-Grouped c (ch ∷ chs) sp same g =
      want_from-Grouped (c + 1) chs (want_channel world snap c ch sp)
        (λ n. ap (λ m. get_or snap.ch m no_channel) (omega arith) ∙ same (suc n))
        (want_channel-Grouped c ch sp.0 sp.1
          (ap (λ m. get_or snap.ch m no_channel) (omega arith) ∙ same 0) g)

-- When every subscription names a device, in up to 31 bytes: the wanted flows are at most four, no
-- two of one transmitter, each of a transmitter that a channel is subscribed to, with at most eight
-- slots, and every slot is for a channel that is subscribed to that transmitter.
pub gather-Grouped :
    (world : World) (s : Subscriber) → DevicesNamed s.ch → Grouped s.ch (gather world s).1
unfolding gather
gather-Grouped world s named =
    want_from-Grouped world (snapshot world s) named 0 s.ch (s, record { wants = []; floor_us = 0 })
      (λ n. ap (λ m. get_or s.ch m no_channel) (omega arith))
      (record {
        apart = λ m n lm ln e. absurd (omega arith);
        most = omega arith;
        each = λ n lt. absurd (omega arith);
      })
