-- ===== src/Arc/Latency.antt =====
-- The latency as the controller sets it and reads it back from main/aoip_arc.c.
use inferno_esp32_p.Wire.{rd16, rd32, wr16, byte}
use inferno_esp32_p.Wire.Fields.{rd16-wr16, length-wr16}
use inferno_esp32_p.MediaClock.{effective_us, frames_of, mclk_now_samples, store_latency}
use inferno_esp32_p.Arc.{set_latency, Clock, View, rd32, Msg, rd16}
use inferno_esp32_p.Arc.Handle.{Site, Server, Handled, handle, dispatch, show_state, refresh_1100}
use inferno_esp32_p.Arc.Patching.{
  keys, IsTable, filled, refresh_1100_lem, length-filled, Shows, filled-Shows,
}
use inferno_esp32_p.Msg.{
  aoip_msg_begin, aoip_msg_finish, aoip_msg_bytes, append, aoip_msg_patch_u16,
}
use inferno_esp32_p.MediaClock.{
  mclk_set_latency_us, apply_latency, mclk_anchor, anchor_at, effective_us, frames_of,
  store_latency, mclk_now_samples,
}
use inferno_esp32_p.Wire.{wr16, be16}
use inferno_esp32_p.Prelude.{
  List, ℕ, ◌≡◌, Option, length, min, ◌+◌, ◌≤◌, if◌then◌else◌, none, some, ◌++◌, ◌/◌, ◌<◌, get_or,
  ltb, take, ◌^◌, ◌∙◌, ap, arith, ◌*◌, ◌-◌, drop, if_both, ◌∷◌, if_false, ◌==◌, if_split,
  le→ltb_false, not, refl, ◌||◌, [],
}
use inferno_esp32_p.Prelude.Bytes.{
  length-write_at, write_at, get_or-write_at_after, get_or-write_at,
}
use inferno_esp32_p.Prelude.Append.{get_or-append}

-- A byte of the content of a finished reply.
byte-placed :
    (buf body : List ℕ) (n code j i : ℕ)
    → 10 + length body ≤ length buf
    → j ≡ 10 + i
    → i < length body
    → get_or (wr16 (wr16 (write_at buf 10 body) 2 n) 8 code) j 0 ≡ get_or body i 0
unfolding wr16
byte-placed buf body n code j i room e inside =
    get_or-write_at_after (write_at (write_at buf 10 body) 2 (be16 n)) 8 (be16 code) j (omega arith)
    ∙ get_or-write_at_after (write_at buf 10 body) 2 (be16 n) j (omega arith)
    ∙ get_or-write_at buf 10 body i j e inside room

rd32-placed :
    (buf body : List ℕ) (n code j i : ℕ)
    → 10 + length body ≤ length buf
    → j ≡ 10 + i
    → i + 4 ≤ length body
    → rd32 (wr16 (wr16 (write_at buf 10 body) 2 n) 8 code) j ≡ rd32 body i
unfolding rd32
rd32-placed buf body n code j i room e inside = omega (
  arith,
  byte-placed buf body n code j i room e (omega arith),
  byte-placed buf body n code (j + 1) (i + 1) room (omega arith) (omega arith),
  byte-placed buf body n code (j + 2) (i + 2) room (omega arith) (omega arith),
  byte-placed buf body n code (j + 3) (i + 3) room (omega arith) (omega arith),
)

rd32-append : (xs ys : List ℕ) (n i : ℕ) → n ≡ length xs + i → rd32 (xs ++ ys) n ≡ rd32 ys i
unfolding rd32
rd32-append xs ys n i e = omega (
  arith,
  get_or-append xs ys n i e,
  get_or-append xs ys (n + 1) (i + 1) (omega arith),
  get_or-append xs ys (n + 2) (i + 2) (omega arith),
  get_or-append xs ys (n + 3) (i + 3) (omega arith),
)

length-begin : (buf req : List ℕ) → length (aoip_msg_begin buf req).buf ≡ length buf
unfolding aoip_msg_begin
length-begin buf req = length-write_at buf 0 (
    byte req 0
    ∷ byte req 1
    ∷ 0
    ∷ 0
    ∷ byte req 4
    ∷ byte req 5
    ∷ byte req 6
    ∷ byte req 7
    ∷ 0
    ∷ 0
    ∷ [])

length-aoip_msg_bytes : (p : List ℕ) (m : Msg) → length (aoip_msg_bytes p m).buf ≡ length m.buf
unfolding aoip_msg_bytes append
length-aoip_msg_bytes p m = length-write_at m.buf m.len p

-- The code of a finished reply.
code_read :
    (code : ℕ) (q : Msg)
    → code < 2 ^ 16
    → 10 ≤ length q.buf
    → rd16 (aoip_msg_finish code q).buf 8 ≡ code
unfolding aoip_msg_finish aoip_msg_patch_u16
code_read code q small h =
    rd16-wr16 (wr16 q.buf 2 q.len) 8 code small (omega (arith, length-wr16 q.buf 2 q.len))

-- The word that a device property's offset points at in the reply to 0x1100.
word_lem :
    (e : Site) (req : List ℕ) (len : ℕ) (buf blob : List ℕ) (k : Server) (i : ℕ)
    → rd16 req 6 ≡ 0x1100
    → k.body_1100 ≡ keys ++ blob
    → length blob ≡ 76
    → 212 ≤ length buf
    → i + 4 ≤ 76
    → rd32 (handle e req len buf k).0.buf (136 + i) ≡ rd32 (filled e k.clock blob) i
unfolding handle dispatch show_state aoip_msg_finish aoip_msg_patch_u16 aoip_msg_bytes append
word_lem e req len buf blob k i op is size room inside =
    let m = aoip_msg_begin buf req in
    let f = filled e k.clock blob in
    let f_size : length f ≡ 76 = length-filled e k.clock blob ∙ size in
    let body = refresh_1100 e k.clock k.body_1100 in
    let body_is : body ≡ keys ++ f =
      ap (refresh_1100 e k.clock) is ∙ refresh_1100_lem e k.clock blob size in
    let reply = λ (b : List ℕ). aoip_msg_finish 1 (aoip_msg_bytes b m) in
    ap
      (λ o.
        rd32 (aoip_msg_finish (dispatch e o req len m k).code (dispatch e o req len m k).msg).buf
          (136 + i))
      op
    ∙ ap (λ b. rd32 (reply b).buf (136 + i)) body_is
    ∙ rd32-placed m.buf (keys ++ f) _ 1 (136 + i) (126 + i)
        (omega (arith, length-begin buf req, f_size)) (omega arith) (omega (arith, f_size))
    ∙ rd32-append keys f (126 + i) i (omega arith)

-- With the table's keys in place and room for the reply, a request of the device properties is
-- answered with the configured latency, twice, the lowest latency of the profile, both in
-- nanoseconds, and the sample rate, each at the offset that its key holds, from the packet's start.
pub handle-Shows :
    (e : Site) (req : List ℕ) (len : ℕ) (buf : List ℕ) (k : Server)
    → rd16 req 6 ≡ 0x1100
    → IsTable k.body_1100
    → e.view.hz < 2 ^ 32
    → 212 ≤ length buf
    → Shows e k.clock (rd32 (handle e req len buf k).0.buf)
handle-Shows e req len buf k op (blob, is, size) hz room =
    let s = filled-Shows e k.clock blob size hz in
    let w = word_lem e req len buf blob k in
    record {
      current = w 48 op is size room (omega arith) ∙ s.current;
      current_again = w 52 op is size room (omega arith) ∙ s.current_again;
      minimum = w 56 op is size room (omega arith) ∙ s.minimum;
      rate = w 20 op is size room (omega arith) ∙ s.rate;
    }

apply_latency-cfg : (c : Clock) (v : View) → (apply_latency c v).cfg_us ≡ c.cfg_us
unfolding apply_latency mclk_anchor anchor_at
apply_latency-cfg c v =
    let c' : Clock = record c {
      latency_us = effective_us c v;
      latency_frames = frames_of (effective_us c v) v.hz;
    } in
    if_both (λ (d : Clock). d.cfg_us ≡ c.cfg_us) (effective_us c v == c.latency_us) refl
      (if_both (λ (d : Clock). d.cfg_us ≡ c.cfg_us) (not v.ring_ready) refl
        (anchored c' (mclk_now_samples v)))
  where
    anchored :
        (d : Clock) (o : Option ℕ)
        → (elim o as (λ _. Clock) [ none ↦ d | some now ↦ anchor_at d v now ]).cfg_us ≡ d.cfg_us
    anchored d none = refl
    anchored d (some now) = refl

mclk_set_latency_us-cfg :
    (c : Clock) (v : View) (us : ℕ) → (mclk_set_latency_us c v us).cfg_us ≡ min us 10000
unfolding mclk_set_latency_us
mclk_set_latency_us-cfg c v us =
    let capped = if ltb 10000 us then 10000 else us in
    let c' = record c { cfg_us = capped; calls = store_latency capped ∷ c.calls } in
    apply_latency-cfg (if capped == c.cfg_us then c else c') v
    ∙ if_split (λ (d : Clock). d.cfg_us ≡ capped) (capped == c.cfg_us) (λ t. ground arith)
        (λ _. refl)
    ∙ ground arith

-- A latency of `ns` in both places of a request of ARC_OP_SET_LATENCY.
pub record AsksLatency (req : List ℕ) (len ns : ℕ) : Type 0 where
  pub opcode : rd16 req 6 ≡ 0x1101
  pub long : 40 ≤ len
  pub once : rd32 req 32 ≡ ns
  pub twice : rd32 req 36 ≡ ns

set_latency_lem :
    (v : View) (req : List ℕ) (len ns : ℕ) (c : Clock) (m : Msg)
    → AsksLatency req len ns
    → 100000 ≤ ns
    → ns ≤ 40000000
    → set_latency v req len c m
      ≡ (1, mclk_set_latency_us c v (ns / 1000), aoip_msg_bytes (take (len - 10) (drop 10 req)) m)
unfolding set_latency
set_latency_lem v req len ns c m a low high =
    if_false (ltb (len - 10) 30) _ _ (le→ltb_false (len - 10) 30 (omega (arith, a.long)))
    ∙ if_false
        (not (rd32 req 32 == rd32 req 36) || ltb (rd32 req 32) 100000 || ltb 40000000 (rd32 req 32))
        _ _ (rw (a.once, a.twice) (ground arith))
    ∙ ap
        (λ (n : ℕ).
          let r : ℕ × Clock × Msg = (
            1,
            mclk_set_latency_us c v (n / 1000),
            aoip_msg_bytes (take (len - 10) (drop 10 req)) m,
          ) in
          r)
        a.once

-- With the keys of the property table in place and room for both replies: a request that asks twice
-- for the same latency of 0.1 to 40 ms is answered with the code OK, and the next request of the
-- device properties, at a rate below 2 ^ 32 Hz, with that latency in whole microseconds where it is
-- at most 10 ms, and with 10 ms beyond that.
pub handle-read_back :
    (e e' : Site) (req req' : List ℕ) (len len' : ℕ) (buf buf' : List ℕ) (k : Server) (ns : ℕ)
    → AsksLatency req len ns
    → 100000 ≤ ns
    → ns ≤ 40000000
    → rd16 req' 6 ≡ 0x1100
    → IsTable k.body_1100
    → e'.view.hz < 2 ^ 32
    → 10 ≤ length buf
    → 212 ≤ length buf'
    → (rd16 (handle e req len buf k).0.buf 8 ≡ 1)
      × (rd32 (handle e' req' len' buf' (handle e req len buf k).1).0.buf 0xb8
          ≡ min (ns / 1000) 10000 * 1000)
unfolding handle dispatch
handle-read_back e e' req req' len len' buf buf' k ns a low high op table hz room room' =
    let m = aoip_msg_begin buf req in
    let p = aoip_msg_bytes (take (len - 10) (drop 10 req)) m in
    let accepted : dispatch e (rd16 req 6) req len m k ≡ record {
      code = 1;
      msg = p;
      server = record k { clock = mclk_set_latency_us k.clock e.view (ns / 1000) };
    } =
      ap (λ o. dispatch e o req len m k) a.opcode
      ∙ ap
          (λ (t : ℕ × Clock × Msg).
            let h : Handled = record { code = t.0; msg = t.2; server = record k { clock = t.1 } } in
            h)
          (set_latency_lem e.view req len ns k.clock m a low high) in
    (
      ap (λ (h : Handled). rd16 (aoip_msg_finish h.code h.msg).buf 8) accepted
          ∙ code_read 1 p (omega arith) (
              omega (
                arith,
                length-aoip_msg_bytes (take (len - 10) (drop 10 req)) m,
                length-begin buf req,
              )),
      ap (λ (h : Handled). rd32 (handle e' req' len' buf' h.server).0.buf 0xb8) accepted
          ∙ (handle-Shows e' req' len' buf'
              (record k { clock = mclk_set_latency_us k.clock e.view (ns / 1000) }) op table hz
              room').current
          ∙ omega (arith, mclk_set_latency_us-cfg k.clock e.view (ns / 1000)),
    )
