-- ===== src/Subscriber/Cache.antt =====
-- What the resolve cache of main/subscriber.c answers.
use inferno_esp32_p.Subscriber.{Resolved, Channel, TxChannel, no_resolved, Subscriber, name32}
use inferno_esp32_p.Subscriber.Resolve.{
  forget_in, resolve_cached, is_hit, entry_at, forget_device, with_entry,
}
use inferno_esp32_p.Prelude.{
  List, ℕ, get_or, ◌≡◌, Option, true, false, arith, ◌<◌, ◌∷◌, length, suc, [], refl, some, zero,
  if_split, if◌then◌else◌, subst, ap, if_true, ◌&&◌, if_false, ◌∙◌, none, get_or-set_same, sym,
}
use inferno_esp32_p.Prelude.Bytes.{same_bytes_refl, same_bytes}
use mathlib.Core.Option.{none-ne-some}

-- A cache of which the entry hits.
hit :
    (r : Resolved) (ch : Channel)
    → r.valid ≡ true
    → r.tx_channel ≡ ch.tx_channel
    → r.tx_device ≡ ch.tx_device
    → is_hit r ch ≡ true
hit r ch v c d =
    rw (v, c, d) (ground (arith, same_bytes_refl ch.tx_channel, same_bytes_refl ch.tx_device))

-- What has been resolved, from the network or from the cache, for names of up to 31 bytes, is
-- answered again from the cache, whatever a new look-up would answer, and changes nothing.
pub resolve_cached_again :
    (c : ℕ) (ch : Channel) (tx : TxChannel) (first again : Option TxChannel) (s : Subscriber)
    → c < length s.res
    → name32 ch.tx_channel ≡ ch.tx_channel
    → name32 ch.tx_device ≡ ch.tx_device
    → (resolve_cached c ch first s).1 ≡ some tx
    → resolve_cached c ch again (resolve_cached c ch first s).0
      ≡ ((resolve_cached c ch first s).0, some tx)
unfolding resolve_cached
resolve_cached_again c ch tx none again s lt short_c short_d =
    if_split
      (λ (p : Subscriber × Option TxChannel).
        p.1 ≡ some tx → resolve_cached c ch again p.0 ≡ (p.0, some tx))
      (is_hit (entry_at s c) ch)
      (λ h e. if_true (is_hit (entry_at s c) ch) _ _ h ∙ ap (λ o. (s, o)) e)
      (λ _ e. absurd (none-ne-some tx e))
resolve_cached_again c ch tx (some new) again s lt short_c short_d =
    if_split
      (λ (p : Subscriber × Option TxChannel).
        p.1 ≡ some tx → resolve_cached c ch again p.0 ≡ (p.0, some tx))
      (is_hit (entry_at s c) ch)
      (λ h e. if_true (is_hit (entry_at s c) ch) _ _ h ∙ ap (λ o. (s, o)) e)
      (λ _ e.
        if_true (is_hit (entry_at s' c) ch) _ _ fresh
        ∙ ap (λ o. (s', o)) (ap (λ (r : Resolved). some r.tx) at ∙ e))
  where
    r : Resolved
    r = record {
      tx_channel = name32 ch.tx_channel;
      tx_device = name32 ch.tx_device;
      tx = new;
      valid = true;
    }

    s' : Subscriber
    s' = with_entry s c r

    at : entry_at (with_entry s c r) c ≡ r
    at = get_or-set_same s.res c r no_resolved lt

    fresh : is_hit (entry_at (with_entry s c r) c) ch ≡ true
    fresh = subst (λ (x : Resolved). is_hit x ch ≡ true) (sym at) (hit r ch refl short_c short_d)

-- The entry after the device `d` is forgotten, against the names of a channel of it.
abbrev Missed : Resolved → List ℕ → List ℕ → Type 0
Missed r d name =
    is_hit (if r.valid && same_bytes r.tx_device d then record r { valid = false } else r)
      (record { tx_channel = name; tx_device = d; friendly = []; status = 0 })
    ≡ false

missed : (r : Resolved) (d name : List ℕ) → Missed r d name
missed r d name = ground arith

forget_in-miss :
    (device : List ℕ) (rs : List Resolved) (c : ℕ) (ch : Channel)
    → ch.tx_device ≡ device
    → is_hit (get_or (forget_in device rs) c no_resolved) ch ≡ false
unfolding forget_in
forget_in-miss device [] c ch e = refl
forget_in-miss device (r ∷ rs) zero ch e =
    subst
      (λ d.
        is_hit (if r.valid && same_bytes r.tx_device d then record r { valid = false } else r) ch
        ≡ false)
      e (missed r ch.tx_device ch.tx_channel)
forget_in-miss device (r ∷ rs) (suc c) ch e = forget_in-miss device rs c ch e

-- Once a device is forgotten, a channel of it is resolved by a fresh look-up, whatever the cache
-- held.
pub forget_device-resolve_cached :
    (device : List ℕ) (c : ℕ) (ch : Channel) (lookup : Option TxChannel) (s : Subscriber)
    → ch.tx_device ≡ device
    → (resolve_cached c ch lookup (forget_device device s)).1 ≡ lookup
unfolding resolve_cached forget_device
forget_device-resolve_cached device c ch none s e =
    ap (λ (p : Subscriber × Option TxChannel). p.1)
      (if_false (is_hit (get_or (forget_in device s.res) c no_resolved) ch) _ _
        (forget_in-miss device s.res c ch e))
forget_device-resolve_cached device c ch (some tx) s e =
    ap (λ (p : Subscriber × Option TxChannel). p.1)
      (if_false (is_hit (get_or (forget_in device s.res) c no_resolved) ch) _ _
        (forget_in-miss device s.res c ch e))
