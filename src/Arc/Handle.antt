-- ===== src/Arc/Handle.antt =====
-- main/aoip_arc.c: `handle` and a round of `arc_task`.
use inferno_esp32_p.Prelude.{
  ℕ, Bool, Option, none, some, List, [], ◌∷◌, ◌*◌, ◌^◌, ◌%◌, ◌==◌, ◌||◌, ltb, not, length,
  if◌then◌else◌,
}
use inferno_esp32_p.Wire.{rd16}
use inferno_esp32_p.Msg.{
  Msg, hdr_len, code_ok, aoip_msg_begin, aoip_msg_u16, aoip_msg_bytes, aoip_msg_str,
  aoip_msg_finish,
}
use inferno_esp32_p.Subscriber.{Subscriber}
use inferno_esp32_p.MediaClock.{Clock, View}
use inferno_esp32_p.Reqlog.{Log, reqlog_add}
use inferno_esp32_p.Arc.{
  code_unsupported, set_subscriptions, rename_rx_channels, unsubscribe, set_latency,
}
use inferno_esp32_p.Arc.Tables.{arc_1102_body, arc_1100_patch_u32}
use inferno_esp32_p.Arc.Replies.{channel_counts, device_names, empty_page, rx_flows, put_all}
use inferno_esp32_p.Arc.Channels.{rx_channels}

-- What a request can change: the property table, the subscriber, the media clock, the request log.
pub record Server : Type 0 where
  pub body_1100 : List ℕ
  pub sub : Subscriber
  pub clock : Clock
  pub log : Log

-- What the server reads of the other parts while it handles one request: the host's name, its
-- address, whether NVS can be opened at each save, the time, and what the media clock reads.
pub record Site : Type 0 where
  pub hostname : List ℕ
  pub ip : Option (List ℕ)
  pub opened : ℕ → Bool
  pub t_ms : ℕ
  pub view : View

-- The table with the latencies and the rate of the moment, for 0x1100.
unfoldable pub refresh_1100 : Site → Clock → List ℕ → List ℕ
unfolding arc_1100_patch_u32
refresh_1100 e c body =
    let cur_ns = c.cfg_us * 1000 % 2 ^ 32 in
    let b = arc_1100_patch_u32 0x8301 cur_ns (arc_1100_patch_u32 0x8205 cur_ns body) in
    arc_1100_patch_u32 0x8020 e.view.hz
      (arc_1100_patch_u32 0x8306 (e.view.latency_min_us * 1000 % 2 ^ 32) b)

-- A reply under construction with its code, and the state.
pub record Handled : Type 0 where
  pub code : ℕ
  pub msg : Msg
  pub server : Server

abbrev pub ok : Msg → Server → Handled
ok m k = record { code = code_ok; msg = m; server = k }

-- The opcodes that change nothing but the table of 0x1100.
unfoldable pub show_state : Site → ℕ → List ℕ → ℕ → Msg → Server → Handled
unfolding channel_counts device_names empty_page rx_flows rx_channels put_all refresh_1100
show_state e opcode req len m k =
    let body = refresh_1100 e k.clock k.body_1100 in
    let (code, listed) = rx_channels e.view.hz k.sub req len m in
    if opcode == 0x1000
    then ok (channel_counts m) k
    else if opcode == 0x1002
    then ok (aoip_msg_str e.hostname m).1 k
    else if opcode == 0x1003
    then ok (device_names e.hostname m) k
    else if opcode == 0x2000 || opcode == 0x2010 || opcode == 0x2200 || opcode == 0x2204
    then ok (empty_page m) k
    else if opcode == 0x3200
    then ok (rx_flows e.ip e.view.hz k.clock.latency_us k.sub m) k
    else if opcode == 0x3000
    then record { code = code; msg = listed; server = k }
    else if opcode == 0x3300
    then ok (put_all (0x3800 ∷ 0x38fd ∷ 0x38fe ∷ 0x38ff ∷ []) m) k
    else if opcode == 0x1100
    then ok (aoip_msg_bytes body m) (record k { body_1100 = body })
    else if opcode == 0x1102
    then ok (aoip_msg_bytes arc_1102_body m) k
    else if opcode == 0x2320 || opcode == 0x4100
    then record { code = 0x30; msg = m; server = k }
    else if opcode == 0x2032
    then ok (aoip_msg_u16 0 m) k
    else record { code = code_unsupported; msg = m; server = k }

-- The switch over the opcode.
unfoldable pub dispatch : Site → ℕ → List ℕ → ℕ → Msg → Server → Handled
unfolding show_state set_subscriptions rename_rx_channels unsubscribe set_latency
dispatch e opcode req len m k =
    let (code, renamed) = rename_rx_channels e.opened req len k.sub in
    let (answer, clock, echoed) = set_latency e.view req len k.clock m in
    if opcode == 0x3001
    then record { code = code; msg = m; server = record k { sub = renamed } }
    else if opcode == 0x3010
    then ok m (record k { sub = set_subscriptions e.opened req len k.sub })
    else if opcode == 0x3014
    then ok m (record k { sub = unsubscribe (e.opened 0) req len k.sub })
    else if opcode == 0x1101
    then record { code = answer; msg = echoed; server = record k { clock = clock } }
    else show_state e opcode req len m k

-- `handle`: the reply, in the buffer `buf`, and the state behind it.
unfoldable pub handle : Site → List ℕ → ℕ → List ℕ → Server → Msg × Server
unfolding dispatch aoip_msg_begin aoip_msg_finish rd16
handle e req len buf k =
    let h = dispatch e (rd16 req 6) req len (aoip_msg_begin buf req) k in
    (aoip_msg_finish h.code h.msg, h.server)

-- The opcodes of routine polling, which are not logged.
unfoldable pub is_polling : ℕ → Bool
is_polling op =
    op == 0x1000
    || op == 0x1002
    || op == 0x1003
    || op == 0x1102
    || op == 0x2000
    || op == 0x2010
    || op == 0x2032
    || op == 0x2200
    || op == 0x2204
    || op == 0x2320
    || op == 0x3000
    || op == 0x3200
    || op == 0x3300
    || op == 0x4100

-- "arc"
abbrev pub svc_arc : List ℕ
svc_arc = b'a' ∷ b'r' ∷ b'c' ∷ []

abbrev pub logged : Site → ℕ → List ℕ → Server → Server
logged e from req k =
    if is_polling (rd16 req 6)
    then k
    else record k { log = reqlog_add e.t_ms svc_arc from req k.log }

-- A round of `arc_task`: a datagram from the address `from`, the reply buffer being `buf`: what is sent, and the state.
unfoldable pub serve : Site → ℕ → List ℕ → List ℕ → Server → Option Msg × Server
unfolding is_polling reqlog_add handle rd16
serve e from req buf k =
    let (reply, k') = handle e req (length req) buf (logged e from req k) in
    if ltb (length req) hdr_len || not (rd16 req 8 == 0) then (none, k) else (some reply, k')
