-- ===== src/Subscriber/Commands.antt =====
-- What the controller does to the subscriptions of main/subscriber.c, and their copy in NVS.
use inferno_esp32_p.Subscriber.{
  Subscriber, Channel, Saved, Patch, channel_at, with_channel, name32, is_empty, effect, notify,
  nch, sub_none, sub_pending,
}
use inferno_esp32_p.Prelude.{
  ℕ, Bool, List, if◌then◌else◌, true, leb, some, ◌==◌, ◌∷◌, [], map, none, length,
}

abbrev pub saved_of : Channel → Saved
saved_of x = record { tx_channel = x.tx_channel; tx_device = x.tx_device; friendly = x.friendly }

-- The names of all channels go to NVS, if it can be opened.
unfoldable pub save : Bool → Subscriber → Subscriber
save opened s = if opened then record s { nvs = some (map saved_of s.ch) } else s

-- One channel from its entry.
abbrev pub restore : Channel → Saved → Channel
restore x v =
    let y : Channel = record x {
      tx_channel = name32 v.tx_channel;
      tx_device = name32 v.tx_device;
      friendly = if is_empty (name32 v.friendly) then x.friendly else name32 v.friendly;
    } in
    record y { status = if is_empty y.tx_channel then sub_none else sub_pending }

unfoldable pub restore_all : List Channel → List Saved → List Channel
restore_all [] vs = []
restore_all (x ∷ xs) [] = x ∷ xs
restore_all (x ∷ xs) (v ∷ vs) = restore x v ∷ restore_all xs vs

-- An entry of another size is not taken.
unfoldable pub load : Subscriber → Subscriber
unfolding restore_all
load s = elim s.nvs [
  | none ↦ s
  | some vs ↦ (if length vs == nch then record s { ch = restore_all s.ch vs } else s)
]

-- An empty channel clears the subscription; `opened` says whether NVS can be opened.
unfoldable pub subscriber_set : Bool → ℕ → List ℕ → List ℕ → Subscriber → Subscriber
unfolding save
subscriber_set opened c tx_channel tx_device s =
    if leb nch c
    then s
    else effect (notify c) (
        save opened
          (record (with_channel s c (
            if is_empty tx_channel
            then record (channel_at s c) { tx_channel = []; tx_device = []; status = sub_none }
            else record (channel_at s c) {
              tx_channel = name32 tx_channel;
              tx_device = name32 tx_device;
              status = sub_pending;
            })) { dirty = true }))

unfoldable pub subscriber_rename : Bool → ℕ → List ℕ → Subscriber → Subscriber
unfolding save
subscriber_rename opened c friendly s =
    if leb nch c
    then s
    else effect (notify c)
        (save opened (with_channel s c (record (channel_at s c) { friendly = name32 friendly })))

unfoldable pub subscriber_force_refresh : Subscriber → Subscriber
subscriber_force_refresh s = record s { dirty = true }

-- A notification goes out if the status changes.
unfoldable pub set_status : ℕ → ℕ → Subscriber → Subscriber
set_status c st s =
    let s' = with_channel s c (record (channel_at s c) { status = st }) in
    if (channel_at s c).status == st then s' else effect (notify c) s'

unfoldable pub meanwhile : List Patch → Subscriber → Subscriber
unfolding subscriber_set
meanwhile [] s = s
meanwhile (p ∷ ps) s = meanwhile ps (subscriber_set p.opened p.channel p.tx_channel p.tx_device s)
