-- ===== src/Subscriber/Resolve.antt =====
-- The resolve cache of main/subscriber.c, and the statuses that a rebuild may still set.
use inferno_esp32_p.Subscriber.{
  Subscriber, Channel, Resolved, no_resolved, no_channel, channel_at, is_empty, name32, Snapshot,
}
use inferno_esp32_p.Subscriber.Commands.{set_status, meanwhile}
use inferno_esp32_p.ChanResolve.{TxChannel}
use inferno_esp32_p.Prelude.{
  ℕ, Bool, Option, none, some, true, false, List, [], ◌∷◌, ◌&&◌, get_or, set, not, if◌then◌else◌,
}
use inferno_esp32_p.Prelude.Bytes.{same_bytes}

abbrev pub entry_at : Subscriber → ℕ → Resolved
entry_at s c = get_or s.res c no_resolved

abbrev pub with_entry : Subscriber → ℕ → Resolved → Subscriber
with_entry s c r = record s { res = set s.res c r }

-- Whether the entry is for these names.
abbrev pub is_hit : Resolved → Channel → Bool
is_hit r ch =
    r.valid && same_bytes r.tx_channel ch.tx_channel && same_bytes r.tx_device ch.tx_device

-- The cached resolution, or a fresh one, which is kept.
unfoldable pub resolve_cached :
    ℕ → Channel → Option TxChannel → Subscriber → Subscriber × Option TxChannel
resolve_cached c ch lookup s =
    let miss : Subscriber × Option TxChannel = elim lookup [
      | none ↦ (with_entry s c (record (entry_at s c) { valid = false }), none)
      | some tx ↦ (
        with_entry s c (record {
          tx_channel = name32 ch.tx_channel;
          tx_device = name32 ch.tx_device;
          tx = tx;
          valid = true;
        }),
        some tx,
      )
    ] in
    if is_hit (entry_at s c) ch then (s, some (entry_at s c).tx) else miss

-- Every entry of a device loses its validity.
unfoldable pub forget_in : List ℕ → List Resolved → List Resolved
forget_in dev [] = []
forget_in dev (r ∷ rs) =
    (if r.valid && same_bytes r.tx_device dev then record r { valid = false } else r)
    ∷ forget_in dev rs

unfoldable pub forget_device : List ℕ → Subscriber → Subscriber
forget_device dev s = record s { res = forget_in dev s.res }

-- Whether the subscription of a channel is still the one of the snapshot.
unfoldable pub is_current : Channel → Channel → Bool
is_current x snap =
    same_bytes x.tx_channel snap.tx_channel
    && same_bytes x.tx_device snap.tx_device
    && not (is_empty x.tx_channel)

-- The check and the write are two critical sections: what the controller patches between them is
-- not seen.
unfoldable pub set_status_if_current : Snapshot → ℕ → ℕ → Subscriber → Subscriber
set_status_if_current snap c st s =
    if is_current (channel_at s c) (get_or snap.ch c no_channel)
    then set_status c st (meanwhile (snap.gaps c st) s)
    else s
