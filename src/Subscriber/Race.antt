-- ===== src/Subscriber/Race.antt =====
-- The check of a subscription and the write of its status in main/subscriber.c are two critical
-- sections: what a command of the controller between them does.
use inferno_esp32_p.Subscriber.Commands.{set_status, subscriber_set, meanwhile}
use inferno_esp32_p.Prelude.{
  Bool, ℕ, List, length, ◌≡◌, ◌<◌, [], if_both, set, ap, ◌==◌, get_or-set_same, if_false, get_or,
  leb, arith, ◌∙◌, length-set, ◌∷◌, refl, true, if_true,
}
use inferno_esp32_p.Subscriber.{
  Subscriber, nch, channel_at, sub_none, Channel, no_channel, Patch, Snapshot,
}
use inferno_esp32_p.Subscriber.Status.{save-ch}
use inferno_esp32_p.Subscriber.Resolve.{set_status_if_current, is_current}

set_status_lem :
    (c st : ℕ) (s : Subscriber)
    → c < length s.ch
    → channel_at (set_status c st s) c ≡ record (channel_at s c) { status = st }
unfolding set_status
set_status_lem c st s lt =
    let x = record (channel_at s c) { status = st } in
    if_both (λ (t : Subscriber). channel_at t c ≡ x) ((channel_at s c).status == st)
      (get_or-set_same s.ch c x no_channel lt) (get_or-set_same s.ch c x no_channel lt)

cleared_ch :
    (opened : Bool) (c : ℕ) (tx_device : List ℕ) (s : Subscriber)
    → c < nch
    → (subscriber_set opened c [] tx_device s).ch
      ≡ set s.ch c (record (channel_at s c) { tx_channel = []; tx_device = []; status = sub_none })
unfolding subscriber_set
cleared_ch opened c tx_device s lt =
    ap (λ (t : Subscriber). t.ch) (if_false (leb nch c) _ _ (ground arith)) ∙ save-ch opened _

cleared_then_set :
    (opened : Bool) (c st : ℕ) (tx_device : List ℕ) (s : Subscriber)
    → length s.ch ≡ nch
    → c < nch
    → let x = channel_at (set_status c st (subscriber_set opened c [] tx_device s)) c in
      (x.tx_channel ≡ []) × (x.status ≡ st)
cleared_then_set opened c st tx_device s len lt =
    let x = record (channel_at s c) { tx_channel = []; tx_device = []; status = sub_none } in
    let s' = subscriber_set opened c [] tx_device s in
    let ch = cleared_ch opened c tx_device s lt in
    let at : channel_at s' c ≡ x =
      ap (λ (xs : List Channel). get_or xs c no_channel) ch
      ∙ get_or-set_same s.ch c x no_channel (omega (arith, len)) in
    let wide : length s'.ch ≡ 8 =
      ap (λ (xs : List Channel). length xs) ch ∙ length-set s.ch c x ∙ len in
    let after = set_status_lem c st s' (omega (arith, wide)) in
    (
      ap (λ (y : Channel). y.tx_channel)
          (after ∙ ap (λ (y : Channel). record y { status = st }) at),
      ap (λ (y : Channel). y.status) after,
    )

meanwhile_one :
    (p : Patch) (s : Subscriber)
    → meanwhile (p ∷ []) s ≡ subscriber_set p.opened p.channel p.tx_channel p.tx_device s
unfolding meanwhile
meanwhile_one p s = refl

-- `set_status_if_current` writes the status that a rebuild gives to a channel whose subscription it
-- has found to be current, where the controller ends that subscription between the check and the
-- write: the channel has no subscription then, and the status of the rebuild.
pub set_status_if_current_late :
    (snap : Snapshot) (opened : Bool) (c st : ℕ) (tx_device : List ℕ) (s : Subscriber)
    → length s.ch ≡ nch
    → c < nch
    → is_current (channel_at s c) (get_or snap.ch c no_channel) ≡ true
    → snap.gaps c st
      ≡ record { opened = opened; channel = c; tx_channel = []; tx_device = tx_device } ∷ []
    → ((channel_at (set_status_if_current snap c st s) c).tx_channel ≡ [])
      × ((channel_at (set_status_if_current snap c st s) c).status ≡ st)
unfolding set_status_if_current
set_status_if_current_late snap opened c st tx_device s len lt current gap =
    let s' = subscriber_set opened c [] tx_device s in
    let p : Patch = record {
      opened = opened;
      channel = c;
      tx_channel = [];
      tx_device = tx_device;
    } in
    let path : set_status_if_current snap c st s ≡ set_status c st s' =
      if_true (is_current (channel_at s c) (get_or snap.ch c no_channel))
        (set_status c st (meanwhile (snap.gaps c st) s)) s current
      ∙ ap (λ ps. set_status c st (meanwhile ps s)) gap
      ∙ ap (set_status c st) (meanwhile_one p s) in
    let (none_left, written) = cleared_then_set opened c st tx_device s len lt in
    (
      ap (λ (t : Subscriber). (channel_at t c).tx_channel) path ∙ none_left,
      ap (λ (t : Subscriber). (channel_at t c).status) path ∙ written,
    )
