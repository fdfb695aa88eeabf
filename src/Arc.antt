-- ===== src/Arc.antt =====
-- main/aoip_arc.c: the strings of a request, and the requests of `handle` that change something.
pub mod Strings
pub mod Items
pub mod Tables
pub mod Replies
pub mod Channels
pub mod Handle
pub mod Renames
pub mod Patching
pub mod Latency
mod Tests
use inferno_esp32_p.Prelude.{
  ℕ, zero, suc, Bool, true, false, not, List, [], ◌∷◌, ◌+◌, ◌-◌, ◌*◌, ◌/◌, ◌==◌, ◌&&◌, ◌||◌, ltb,
  leb, take, drop, if◌then◌else◌,
}
use inferno_esp32_p.Wire.{byte, rd16, rd32, drr_hdr_len}
use inferno_esp32_p.Msg.{Msg, hdr_len, code_ok, aoip_msg_bytes}
use inferno_esp32_p.Subscriber.{Subscriber, nch, is_empty}
use inferno_esp32_p.Subscriber.Commands.{subscriber_set, subscriber_rename}
use inferno_esp32_p.MediaClock.{Clock, View, mclk_set_latency_us}

abbrev pub code_unsupported : ℕ
code_unsupported = 0x0022

-- At most `room` bytes up to a NUL or the end.
unfoldable pub copy_str : ℕ → List ℕ → List ℕ
copy_str zero xs = []
copy_str (suc room) [] = []
copy_str (suc room) (x ∷ xs) = if x == 0 then [] else x ∷ copy_str room xs

-- The string at the offset `off` of a packet of `len` bytes, for an array of `cap`.
unfoldable pub req_str : ℕ → List ℕ → ℕ → ℕ → List ℕ
unfolding copy_str
req_str cap pkt len off =
    if ltb off drr_hdr_len || leb len off
    then []
    else copy_str (cap - 1) (take (len - off) (drop off pkt))

abbrev pub is_channel : ℕ → Bool
is_channel ch = leb 1 ch && leb ch nch

-- The bytes of the content.
abbrev pub content_len : ℕ → ℕ
content_len len = len - hdr_len

-- content[1], the number of items.
abbrev pub item_count : List ℕ → ℕ → ℕ
item_count req len = if leb 2 (content_len len) then byte req (hdr_len + 1) else 0

-- One item of ARC_OP_SET_SUBSCRIPTIONS, `at` in the content.
unfoldable pub subscribe_item : Bool → List ℕ → ℕ → ℕ → Subscriber → Subscriber
unfolding rd16 req_str subscriber_set
subscribe_item opened req len at s =
    let ch = rd16 req (hdr_len + at) in
    let nm = req_str 32 req len (rd16 req (hdr_len + at + 2)) in
    let host = req_str 32 req len (rd16 req (hdr_len + at + 4)) in
    if is_channel ch then subscriber_set opened (ch - 1) nm host s else s

-- `n` items from the index `i` on; `opened i` says whether NVS can be opened then.
unfoldable pub subscribe_from : (ℕ → Bool) → List ℕ → ℕ → ℕ → ℕ → Subscriber → Subscriber
unfolding subscribe_item
subscribe_from opened req len zero i s = s
subscribe_from opened req len (suc n) i s =
    let at = 2 + i * 6 in
    let rest = subscribe_from opened req len n (i + 1) (subscribe_item (opened i) req len at s) in
    if ltb (content_len len) (at + 6) then s else rest

-- ARC_OP_SET_SUBSCRIPTIONS
unfoldable pub set_subscriptions : (ℕ → Bool) → List ℕ → ℕ → Subscriber → Subscriber
unfolding subscribe_from
set_subscriptions opened req len s = subscribe_from opened req len (item_count req len) 0 s

-- One item of ARC_OP_RENAME_RX_CHANNELS; the Boolean is `any`.
unfoldable pub rename_item : Bool → List ℕ → ℕ → ℕ → Bool × Subscriber → Bool × Subscriber
unfolding rd16 req_str subscriber_rename
rename_item opened req len at (any, s) =
    let ch = rd16 req (hdr_len + at) in
    let nm = req_str 32 req len (rd16 req (hdr_len + at + 2)) in
    if is_channel ch && not (is_empty nm)
    then (true, subscriber_rename opened (ch - 1) nm s)
    else (any, s)

unfoldable pub rename_from : (ℕ → Bool) → List ℕ → ℕ → ℕ → ℕ → Bool × Subscriber → Bool × Subscriber
unfolding rename_item
rename_from opened req len zero i s = s
rename_from opened req len (suc n) i s =
    let at = 2 + i * 4 in
    let rest = rename_from opened req len n (i + 1) (rename_item (opened i) req len at s) in
    if ltb (content_len len) (at + 4) then s else rest

-- ARC_OP_RENAME_RX_CHANNELS, with the code of the reply.
unfoldable pub rename_rx_channels : (ℕ → Bool) → List ℕ → ℕ → Subscriber → ℕ × Subscriber
unfolding rename_from
rename_rx_channels opened req len s =
    let (any, s') = rename_from opened req len (item_count req len) 0 (false, s) in
    (if any then code_ok else code_unsupported, s')

-- 0x3014
unfoldable pub unsubscribe : Bool → List ℕ → ℕ → Subscriber → Subscriber
unfolding rd16 subscriber_set
unsubscribe opened req len s =
    let ch = rd16 req (hdr_len + 4) in
    if leb 6 (content_len len) && is_channel ch then subscriber_set opened (ch - 1) [] [] s else s

-- ARC_OP_SET_LATENCY: the code, the clock and the reply.
unfoldable pub set_latency : View → List ℕ → ℕ → Clock → Msg → ℕ × Clock × Msg
unfolding rd32 mclk_set_latency_us aoip_msg_bytes
set_latency v req len c m =
    let v1 = rd32 req (hdr_len + 22) in
    let v2 = rd32 req (hdr_len + 26) in
    if ltb (content_len len) 30
    then (code_unsupported, c, m)
    else if not (v1 == v2) || ltb v1 100000 || ltb 40000000 v1
    then (code_unsupported, c, m)
    else (
      code_ok,
      mclk_set_latency_us c v (v1 / 1000),
      aoip_msg_bytes (take (content_len len) (drop hdr_len req)) m,
    )
