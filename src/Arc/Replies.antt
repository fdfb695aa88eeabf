-- ===== src/Arc/Replies.antt =====
-- main/aoip_arc.c: the replies of `handle` that only show the state.
use inferno_esp32_p.Prelude.{
  ℕ, zero, suc, Option, none, some, List, [], ◌∷◌, ◌+◌, ◌-◌, ◌*◌, ◌%◌, ◌^◌, ◌==◌, ltb, set, take,
  length, min, replicate, if◌then◌else◌,
}
use inferno_esp32_p.Prelude.Int.{ℤ, pos, negsuc}
use inferno_esp32_p.Prelude.Words.{inc32}
use inferno_esp32_p.Wire.{wr16}
use inferno_esp32_p.Msg.{
  Msg, aoip_msg_u8, aoip_msg_u16, aoip_msg_u32, aoip_msg_bytes, aoip_msg_zeros, aoip_msg_str,
  aoip_msg_patch_u16,
}
use inferno_esp32_p.Subscriber.{Subscriber, FlowSlot, nch, max_flows}

abbrev pub bits_per_sample : ℕ
bits_per_sample = 24

abbrev pub packet_size_soft_limit : ℕ
packet_size_soft_limit = 800

-- `put_common_descriptor`, its offset first.
unfoldable pub put_common_descriptor : ℕ → Msg → ℕ × Msg
unfolding aoip_msg_u8 aoip_msg_u16 aoip_msg_u32
put_common_descriptor hz m =
    let m1 = aoip_msg_u8 1 (aoip_msg_u8 1 (aoip_msg_u32 hz m)) in
    let m2 = aoip_msg_u16 bits_per_sample (aoip_msg_u16 0x400 (aoip_msg_u16 bits_per_sample m1)) in
    (m.len % 2 ^ 16, aoip_msg_u16 0xe (aoip_msg_u16 bits_per_sample m2))

-- `page_t`
pub record Page : Type 0 where
  pub items_at : ℕ
  pub item_size : ℕ
  pub space : ℕ
  pub actual : ℕ

unfoldable pub page_begin : ℕ → ℕ → Msg → Page × Msg
unfolding aoip_msg_u8 aoip_msg_zeros
page_begin item_size wanted m =
    let space = if ltb 255 wanted then 255 else wanted in
    let m' = aoip_msg_u8 0 (aoip_msg_u8 space m) in
    (
      record { items_at = m'.len; item_size = item_size; space = space; actual = 0 },
      aoip_msg_zeros (item_size * space) m',
    )

-- The index of the next item.
abbrev pub page_slot : Page → ℕ
page_slot pg = pg.items_at + pg.actual * pg.item_size

unfoldable pub page_end : Page → Msg → Msg
page_end pg m = record m { buf = set m.buf (pg.items_at - 1) (pg.actual % 2 ^ 8) }

-- ARC_OP_CHANNEL_COUNTS
unfoldable pub channel_counts : Msg → Msg
unfolding aoip_msg_u8 aoip_msg_u16 aoip_msg_zeros
channel_counts m =
    let m1 = aoip_msg_u16 nch (aoip_msg_u16 0 (aoip_msg_u8 0xf9 (aoip_msg_u8 0x0d m))) in
    let m2 = aoip_msg_u16 0 (aoip_msg_u16 8 (aoip_msg_u16 0 (aoip_msg_u16 0 m1))) in
    let m3 = aoip_msg_u16 1 (aoip_msg_u16 1 (aoip_msg_u16 0 (aoip_msg_u16 max_flows m2))) in
    aoip_msg_zeros 12 m3

-- "N-Series AoIP" and ":705"
abbrev pub board_name : List ℕ
board_name =
    b'N' ∷ b'-' ∷ b'S' ∷ b'e' ∷ b'r' ∷ b'i' ∷ b'e' ∷ b's' ∷ b' ' ∷ b'A' ∷ b'o' ∷ b'I' ∷ b'P' ∷ []

abbrev pub revision_name : List ℕ
revision_name = b':' ∷ b'7' ∷ b'0' ∷ b'5' ∷ []

-- A name in a field of 32 bytes.
unfoldable pub put_name32 : List ℕ → Msg → Msg
unfolding aoip_msg_bytes aoip_msg_zeros
put_name32 name m =
    let nl = min (length name) 31 in aoip_msg_zeros (32 - nl) (aoip_msg_bytes (take nl name) m)

-- A run of fields at their offsets in the message.
unfoldable pub patch_all : List (ℕ × ℕ) → Msg → Msg
unfolding aoip_msg_patch_u16
patch_all [] m = m
patch_all ((at, v) ∷ fields) m = patch_all fields (aoip_msg_patch_u16 at v m)

-- ARC_OP_GET_DEVICE_NAMES
unfoldable pub device_names : List ℕ → Msg → Msg
unfolding aoip_msg_zeros put_name32 aoip_msg_str patch_all
device_names name m =
    let head = m.len in
    let m1 = aoip_msg_zeros 2 (aoip_msg_zeros 48 m) in
    let friendly = m1.len % 2 ^ 16 in
    let m2 = put_name32 name m1 in
    let factory = m2.len % 2 ^ 16 in
    let (board, m3) = aoip_msg_str board_name (put_name32 name m2) in
    let (revision, m4) = aoip_msg_str revision_name m3 in
    patch_all
      ((head, 0x001c)
        ∷ (head + 2, 0x001c)
        ∷ (head + 4, 0x0028)
        ∷ (head + 6, board)
        ∷ (head + 8, revision)
        ∷ (head + 18, 0x0500)
        ∷ (head + 20, friendly)
        ∷ (head + 22, factory)
        ∷ (head + 24, friendly)
        ∷ (head + 30, 0x0a0a)
        ∷ (head + 34, 0x0404)
        ∷ (head + 38, 0x2809)
        ∷ (head + 40, 0x0204)
        ∷ (head + 42, 0x1200)
        ∷ (head + 44, 0x1004)
        ∷ [])
      m4

-- The transmit lists, which are empty.
unfoldable pub empty_page : Msg → Msg
unfolding page_begin page_end
empty_page m = let (pg, m') = page_begin 8 0 m in page_end pg m'

-- while (m.len & 3) aoip_msg_u8(&m, 0): three bytes at most
unfoldable pub align_from : ℕ → Msg → Msg
unfolding aoip_msg_u8
align_from zero m = m
align_from (suc n) m =
    let rest = align_from n (aoip_msg_u8 0 m) in if m.len % 4 == 0 then m else rest

abbrev pub align : Msg → Msg
align m = align_from 3 m

-- `subscriber_flow_t`
pub record ShownFlow : Type 0 where
  pub slot : ℕ
  pub rx_port : ℕ
  pub nslots : ℕ
  pub slot_to_ch : List ℤ

-- The active slots from the index `i` on; the caller has room for all four.
unfoldable pub get_flows_from : ℕ → List FlowSlot → List ShownFlow
get_flows_from i [] = []
get_flows_from i (f ∷ fs) =
    let rest = get_flows_from (i + 1) fs in
    let shown : ShownFlow = record {
      slot = i;
      rx_port = f.req.rx_port;
      nslots = f.req.nslots;
      slot_to_ch = f.slot_to_ch;
    } in
    if f.active then shown ∷ rest else rest

abbrev pub subscriber_get_flows : Subscriber → List ShownFlow
subscriber_get_flows s = get_flows_from 0 s.flow

-- c >= 0 ? (uint16_t)(1u << c) : 0
unfoldable pub mask_of : ℤ → ℕ
mask_of (pos c) = 2 ^ c % 2 ^ 16
mask_of (negsuc c) = 0

-- A bitmask for each slot, with their offsets.
unfoldable pub put_masks : List ℤ → Msg → List ℕ × Msg
unfolding aoip_msg_u16 mask_of
put_masks [] m = ([], m)
put_masks (c ∷ cs) m =
    let (masks, m') = put_masks cs (aoip_msg_u16 (mask_of c) m) in ((m.len % 2 ^ 16) ∷ masks, m')

unfoldable pub put_all : List ℕ → Msg → Msg
unfolding aoip_msg_u16
put_all [] m = m
put_all (v ∷ vs) m = put_all vs (aoip_msg_u16 v m)

-- One flow of 0x3200, at the rate `hz` and the effective latency in microseconds.
unfoldable pub put_flow : List ℕ → ℕ → ℕ → ShownFlow → Page × Msg → Page × Msg
unfolding align_from aoip_msg_u16 aoip_msg_u32 aoip_msg_bytes put_masks put_all wr16
put_flow ip hz latency_us f (pg, m) =
    let m1 = align m in
    let sock = m1.len % 2 ^ 16 in
    let m2 = aoip_msg_bytes ip (aoip_msg_u16 f.rx_port (aoip_msg_u16 0x8002 m1)) in
    let lat = m2.len % 2 ^ 16 in
    let m3 = put_all (9 ∷ 1 ∷ 0x800 ∷ 0 ∷ []) m2 in
    let m4 = aoip_msg_u32 0 (aoip_msg_u32 (latency_us * 1000 % 2 ^ 32) m3) in
    let (masks, m5) = put_masks (take f.nslots f.slot_to_ch) m4 in
    let m6 = align m5 in
    let desc = m6.len % 2 ^ 16 in
    let m7 = aoip_msg_u32 hz (aoip_msg_u16 1 (aoip_msg_u16 (f.slot + 1) m6)) in
    let m8 = put_all (0 ∷ bits_per_sample ∷ 1 ∷ f.nslots ∷ 1 ∷ sock ∷ []) m7 in
    let m9 = aoip_msg_u16 lat (put_all masks m8) in
    (record pg { actual = inc32 pg.actual }, record m9 { buf = wr16 m9.buf (page_slot pg) desc })

unfoldable pub put_flows : List ℕ → ℕ → ℕ → List ShownFlow → Page × Msg → Page × Msg
unfolding put_flow
put_flows ip hz latency_us [] pm = pm
put_flows ip hz latency_us (f ∷ fs) pm =
    put_flows ip hz latency_us fs (put_flow ip hz latency_us f pm)

-- 0x3200, at the address `ip`, or zeros where there is none.
unfoldable pub rx_flows : Option (List ℕ) → ℕ → ℕ → Subscriber → Msg → Msg
unfolding page_begin put_flows page_end get_flows_from
rx_flows ip hz latency_us s m =
    let (pg, m') =
      put_flows (elim ip [ none ↦ replicate 4 0 | some a ↦ a ]) hz latency_us
        (subscriber_get_flows s) (page_begin 2 max_flows m) in
    page_end pg m'
