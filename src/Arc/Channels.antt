-- ===== src/Arc/Channels.antt =====
-- main/aoip_arc.c: ARC_OP_GET_RX_CHANNELS, a page of the receive channels.
use inferno_esp32_p.Prelude.{ℕ, zero, suc, List, ◌+◌, ◌-◌, ◌==◌, ◌&&◌, ltb, leb, if◌then◌else◌}
use inferno_esp32_p.Prelude.Words.{inc32}
use inferno_esp32_p.Wire.{rd16, wr16, wr32}
use inferno_esp32_p.Msg.{Msg, hdr_len, code_ok, code_more, aoip_msg_str}
use inferno_esp32_p.Subscriber.{Subscriber, Channel, nch, is_empty, channel_at}
use inferno_esp32_p.Arc.{content_len}
use inferno_esp32_p.Arc.Replies.{
  Page, page_begin, page_slot, page_end, put_common_descriptor, packet_size_soft_limit,
}

-- The names of a subscription: the offsets of the channel's and of the device's, 0 for none.
unfoldable pub put_source : Channel → Msg → ℕ × ℕ × Msg
unfolding aoip_msg_str
put_source x m =
    let (tx_off, m1) = aoip_msg_str x.tx_channel m in
    let (host_off, m2) = aoip_msg_str x.tx_device m1 in
    if is_empty x.tx_channel
    then (0, 0, m)
    else if is_empty x.tx_device
    then (tx_off, 0, m1)
    else (tx_off, host_off, m2)

-- The twenty bytes of an item, at `at`.
unfoldable pub put_item : ℕ → ℕ → ℕ → ℕ → ℕ → ℕ → ℕ → List ℕ → List ℕ
unfolding wr16 wr32
put_item at idx common tx_off host_off name_off status buf =
    let b1 = wr16 (wr16 (wr16 buf at idx) (at + 2) 6) (at + 4) common in
    let b2 = wr16 (wr16 (wr16 b1 (at + 6) tx_off) (at + 8) host_off) (at + 10) name_off in
    wr32 (wr32 b2 (at + 12) status) (at + 16) 0

-- The page under construction, with the offset of the common descriptor, 0 before it is put.
pub record Listing : Type 0 where
  pub pg : Page
  pub common : ℕ
  pub msg : Msg

unfoldable pub put_channel : ℕ → Subscriber → ℕ → Listing → Listing
unfolding put_common_descriptor aoip_msg_str put_source put_item
put_channel hz s idx l =
    let (common, m1) =
      if l.common == 0 then put_common_descriptor hz l.msg else (l.common, l.msg) in
    let x = channel_at s (idx - 1) in
    let (name_off, m2) = aoip_msg_str x.friendly m1 in
    let (tx_off, host_off, m3) = put_source x m2 in
    record {
      pg = record l.pg { actual = inc32 l.pg.actual };
      common = common;
      msg = record m3 {
        buf = put_item (page_slot l.pg) idx common tx_off host_off name_off x.status m3.buf;
      };
    }

-- The channels from `idx` on, at most `n` of them, and the one that is next.
unfoldable pub put_channels : ℕ → Subscriber → ℕ → ℕ → Listing → ℕ × Listing
unfolding put_channel
put_channels hz s zero idx l = (idx, l)
put_channels hz s (suc n) idx l =
    let l' = put_channel hz s idx l in
    let rest = put_channels hz s n (idx + 1) l' in
    if leb idx nch && ltb l.pg.actual l.pg.space
    then (if leb packet_size_soft_limit l'.msg.len then (idx + 1, l') else rest)
    else (idx, l)

-- content[2..4], from 1, where there is one
unfoldable pub start_of : List ℕ → ℕ → ℕ
unfolding rd16
start_of req len =
    let start = if leb 4 (content_len len) then rd16 req (hdr_len + 2) else 1 in
    if start == 0 then 1 else start

-- The reply with its code.
unfoldable pub rx_channels : ℕ → Subscriber → List ℕ → ℕ → Msg → ℕ × Msg
unfolding start_of page_begin put_channels page_end
rx_channels hz s req len m =
    let (pg, m1) = page_begin 20 nch m in
    let (idx, l) =
      put_channels hz s nch (start_of req len) (record { pg = pg; common = 0; msg = m1 }) in
    (if leb idx nch then code_more else code_ok, page_end l.pg l.msg)
