-- ===== src/Arc/Items.antt =====
-- A subscription request of main/aoip_arc.c does what its items say.
use inferno_esp32_p.Subscriber.Commands.{subscriber_set}
use inferno_esp32_p.Arc.{
  set_subscriptions, subscribe_from, subscribe_item, subscriber_set, is_empty, Subscriber, byte,
  rd16, is_channel,
}
use inferno_esp32_p.Prelude.{
  List, ℕ, Bool, ◌+◌, ◌∷◌, take, ◌*◌, ◌≤◌, [], if◌then◌else◌, length, ◌≡◌, ap, if_false, refl,
  if_true, ltb, ◌-◌, ap₂, leb, le→ltb_false, arith, le→leb, ◌∙◌,
}
use inferno_esp32_p.Arc.Strings.{StringAt, req_str-take}
use inferno_esp32_p.Prelude.Append.{take-take}

-- A receive channel, from 1, and the names of what it is to play.
pub record Item : Type 0 where
  pub ch : ℕ
  pub tx_channel : List ℕ
  pub tx_device : List ℕ

-- An item at `at` of a packet of `len` bytes, with its names behind it.
pub record ItemAt (pkt : List ℕ) (len at : ℕ) (x : Item) : Type 0 where
  pub inside : at + 6 ≤ len
  pub ch_at : rd16 pkt at ≡ x.ch
  pub tx_channel_at : StringAt pkt len (rd16 pkt (at + 2)) x.tx_channel
  pub tx_device_at : StringAt pkt len (rd16 pkt (at + 4)) x.tx_device

-- The items from the index `i` on.
abbrev pub ItemsAt : List ℕ → ℕ → ℕ → List Item → Type 0
ItemsAt pkt len i [] = Unit
ItemsAt pkt len i (x ∷ xs) = ItemAt pkt len (10 + (2 + i * 6)) x × ItemsAt pkt len (i + 1) xs

-- What the items ask for, with `opened i` for NVS at the item `i`.
unfoldable pub subscribe_all : (ℕ → Bool) → ℕ → List Item → Subscriber → Subscriber
subscribe_all opened i [] s = s
subscribe_all opened i (x ∷ xs) s =
    subscribe_all opened (i + 1) xs (
      if is_channel x.ch
      then subscriber_set (opened i) (x.ch - 1) x.tx_channel x.tx_device s
      else s)

pub is_empty-take : (xs : List ℕ) → is_empty (take 31 xs) ≡ is_empty xs
is_empty-take [] = refl
is_empty-take (x ∷ xs) = refl

-- A name that is cut before is stored as the whole one.
subscriber_set-take :
    (opened : Bool) (c : ℕ) (nm host : List ℕ) (s : Subscriber)
    → subscriber_set opened c (take 31 nm) (take 31 host) s ≡ subscriber_set opened c nm host s
unfolding subscriber_set
subscriber_set-take opened c nm host s =
    rw (is_empty-take nm, take-take 31 31 nm (omega arith), take-take 31 31 host (omega arith)) refl

subscribe_item_lem :
    (opened : Bool) (req : List ℕ) (len at : ℕ) (x : Item) (s : Subscriber)
    → ItemAt req len (10 + at) x
    → subscribe_item opened req len at s
      ≡ (if is_channel x.ch then subscriber_set opened (x.ch - 1) x.tx_channel x.tx_device s else s)
unfolding subscribe_item
subscribe_item_lem opened req len at x s h =
    ap₂
      (λ (nm host : List ℕ).
        let ch = rd16 req (10 + at) in
        if is_channel ch then subscriber_set opened (ch - 1) nm host s else s)
      (req_str-take 32 req len (rd16 req (10 + at + 2)) x.tx_channel h.tx_channel_at)
      (req_str-take 32 req len (rd16 req (10 + at + 4)) x.tx_device h.tx_device_at)
    ∙ ap
        (λ (ch : ℕ).
          if is_channel ch
          then subscriber_set opened (ch - 1) (take 31 x.tx_channel) (take 31 x.tx_device) s
          else s)
        h.ch_at
    ∙ ap (λ t. if is_channel x.ch then t else s)
        (subscriber_set-take opened (x.ch - 1) x.tx_channel x.tx_device s)

subscribe_from_lem :
    (opened : ℕ → Bool) (req : List ℕ) (len i : ℕ) (xs : List Item) (s : Subscriber)
    → ItemsAt req len i xs
    → subscribe_from opened req len (length xs) i s ≡ subscribe_all opened i xs s
unfolding subscribe_from subscribe_all
subscribe_from_lem opened req len i [] s h = refl
subscribe_from_lem opened req len i (x ∷ xs) s (here, there) =
    if_false (ltb (len - 10) (2 + i * 6 + 6)) s
      (subscribe_from opened req len (length xs) (i + 1)
        (subscribe_item (opened i) req len (2 + i * 6) s))
      (le→ltb_false (len - 10) (2 + i * 6 + 6) (omega (arith, here.inside)))
    ∙ ap (subscribe_from opened req len (length xs) (i + 1))
        (subscribe_item_lem (opened i) req len (2 + i * 6) x s here)
    ∙ subscribe_from_lem opened req len (i + 1) xs _ there

-- A subscription request of 12 bytes or more that has as many items as it says, each within it and with its two names
-- behind the header as NUL-terminated strings, has the effect that the items ask for one after the
-- other: each with a receive channel of 1 to 8 subscribes that channel to the whole names, cut at 31
-- bytes, or unsubscribes it where the first is empty; one with another channel does nothing.
pub set_subscriptions-subscribe_all :
    (opened : ℕ → Bool) (req : List ℕ) (len : ℕ) (xs : List Item) (s : Subscriber)
    → 12 ≤ len
    → byte req 11 ≡ length xs
    → ItemsAt req len 0 xs
    → set_subscriptions opened req len s ≡ subscribe_all opened 0 xs s
unfolding set_subscriptions
set_subscriptions-subscribe_all opened req len xs s long count h =
    ap (λ n. subscribe_from opened req len n 0 s)
      (if_true (leb 2 (len - 10)) (byte req 11) 0 (le→leb 2 (len - 10) (omega arith)) ∙ count)
    ∙ subscribe_from_lem opened req len 0 xs s h
