-- ===== src/Subscriber/Reboot.antt =====
-- The subscriptions of main/subscriber.c over a reboot.
use inferno_esp32_p.Subscriber.Life.{subscriber_start, numbered}
use inferno_esp32_p.Subscriber.{
  Channel, name32, Subscriber, Receiver, Client, sub_none, is_empty, nch, no_channel, sub_pending,
  channel_at,
}
use inferno_esp32_p.Subscriber.Commands.{load, restore_all, restore, save, saved_of}
use inferno_esp32_p.Prelude.{
  List, ◌≡◌, ℕ, ◌≢◌, [], length, get_or, if◌then◌else◌, ◌<◌, ◌∷◌, map, sym, true, arith, subst, ◌∙◌,
  if_true, refl, suc, zero, ◌==◌, length-map,
}

-- Names that fit into 32 bytes with a NUL.
pub record FitsNames (x : Channel) : Type 0 where
  pub tx_channel : name32 x.tx_channel ≡ x.tx_channel
  pub tx_device : name32 x.tx_device ≡ x.tx_device
  pub friendly : name32 x.friendly ≡ x.friendly

-- A channel as it was saved: the same subscription, pending if there is one, and the same name if
-- there is one.
pub record Restored (x y : Channel) : Type 0 where
  pub tx_channel : y.tx_channel ≡ x.tx_channel
  pub tx_device : y.tx_device ≡ x.tx_device
  pub friendly : x.friendly ≢ [] → y.friendly ≡ x.friendly
  pub unsubscribed : x.tx_channel ≡ [] → y.status ≡ sub_none
  pub subscribed : x.tx_channel ≢ [] → y.status ≡ sub_pending

restore-Restored : (x x0 : Channel) → FitsNames x → Restored x (restore x0 (saved_of x))
restore-Restored x x0 f = record {
  tx_channel = f.tx_channel;
  tx_device = f.tx_device;
  friendly = λ named. kept (name32 x.friendly) (λ e. named (sym f.friendly ∙ e)) ∙ f.friendly;
  unsubscribed = λ e. none_for (name32 x.tx_channel) (f.tx_channel ∙ e);
  subscribed = λ ne. pending_for (name32 x.tx_channel) (λ e. ne (sym f.tx_channel ∙ e));
}
  where
    kept : (n : List ℕ) → n ≢ [] → (if is_empty n then x0.friendly else n) ≡ n
    kept [] h = absurd (h refl)
    kept (b ∷ n) h = refl

    none_for : (n : List ℕ) → n ≡ [] → (if is_empty n then sub_none else sub_pending) ≡ sub_none
    none_for [] e = refl
    none_for (b ∷ n) e = cc

    pending_for :
        (n : List ℕ) → n ≢ [] → (if is_empty n then sub_none else sub_pending) ≡ sub_pending
    pending_for [] h = absurd (h refl)
    pending_for (b ∷ n) h = refl

restore_all-Restored :
    (chs xs : List Channel) (c : ℕ)
    → length xs ≡ length chs
    → ((d : ℕ) → FitsNames (get_or chs d no_channel))
    → c < length chs
    → Restored (get_or chs c no_channel) (get_or (restore_all xs (map saved_of chs)) c no_channel)
unfolding restore_all
restore_all-Restored [] xs c len fits lt = absurd (omega arith)
restore_all-Restored (x ∷ chs) [] c len fits lt = absurd (omega arith)
restore_all-Restored (x ∷ chs) (x0 ∷ xs) zero len fits lt = restore-Restored x x0 (fits 0)
restore_all-Restored (x ∷ chs) (x0 ∷ xs) (suc c) len fits lt =
    restore_all-Restored chs xs c (omega arith) (λ d. fits (suc d)) (omega arith)

-- After a save that reaches NVS, a reboot has every one of the eight channels back, with names that
-- fit: the same subscription, pending if there is one, and the same name if there is one.
pub subscriber_start-save :
    (s : Subscriber) (rx : Receiver) (client : Client) (c : ℕ)
    → length s.ch ≡ nch
    → ((d : ℕ) → FitsNames (channel_at s d))
    → c < nch
    → Restored (channel_at s c) (channel_at (subscriber_start (save true s).nvs rx client) c)
unfolding subscriber_start load save
subscriber_start-save s rx client c len fits lt =
    subst (λ (t : Subscriber). Restored (channel_at s c) (channel_at t c))
      (sym (
        if_true (length (map saved_of s.ch) == nch) _ _ (ground (arith, length-map s.ch saved_of))))
      (restore_all-Restored s.ch (numbered 0 nch) c (sym len) fits (omega arith))
