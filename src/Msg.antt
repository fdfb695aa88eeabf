-- ===== src/Msg.antt =====
-- main/aoip_msg.c and aoip_msg.h: a response under construction, and the fields of a request.
pub mod Strings
mod Tests
use inferno_esp32_p.Prelude.{ℕ, List, [], ◌∷◌, ◌++◌, ◌+◌, ◌%◌, ◌^◌, length, replicate}
use inferno_esp32_p.Prelude.Bytes.{write_at}
use inferno_esp32_p.Wire.{byte, be16, be32, wr16}

abbrev pub hdr_len : ℕ
hdr_len = 10

abbrev pub code_ok : ℕ
code_ok = 1

abbrev pub code_more : ℕ
code_more = 0x8112

-- `aoip_msg_t`: the buffer, and the bytes used, the header's included.
pub record Msg : Type 0 where
  pub buf : List ℕ
  pub len : ℕ

-- m->buf[m->len++] for each of the bytes
unfoldable pub append : List ℕ → Msg → Msg
unfolding write_at
append xs m = record { buf = write_at m.buf m.len xs; len = (m.len + length xs) % 2 ^ 32 }

-- The protocol version, the sequence number and the opcode are the request's.
unfoldable pub aoip_msg_begin : List ℕ → List ℕ → Msg
unfolding write_at
aoip_msg_begin buf req = record {
  buf = write_at buf 0 (
      byte req 0
      ∷ byte req 1
      ∷ 0
      ∷ 0
      ∷ byte req 4
      ∷ byte req 5
      ∷ byte req 6
      ∷ byte req 7
      ∷ 0
      ∷ 0
      ∷ []);
  len = hdr_len;
}

unfoldable pub aoip_msg_u8 : ℕ → Msg → Msg
unfolding append
aoip_msg_u8 v m = append ((v % 2 ^ 8) ∷ []) m

unfoldable pub aoip_msg_u16 : ℕ → Msg → Msg
unfolding append
aoip_msg_u16 v m = append (be16 v) m

unfoldable pub aoip_msg_u32 : ℕ → Msg → Msg
unfolding append
aoip_msg_u32 v m = append (be32 v) m

unfoldable pub aoip_msg_bytes : List ℕ → Msg → Msg
unfolding append
aoip_msg_bytes p m = append p m

unfoldable pub aoip_msg_zeros : ℕ → Msg → Msg
unfolding append
aoip_msg_zeros n m = append (replicate n 0) m

-- A string is its bytes before the NUL. The offset comes first.
unfoldable pub aoip_msg_str : List ℕ → Msg → ℕ × Msg
unfolding append
aoip_msg_str s m = (m.len % 2 ^ 16, append (s ++ 0 ∷ []) m)

unfoldable pub aoip_msg_patch_u16 : ℕ → ℕ → Msg → Msg
unfolding wr16
aoip_msg_patch_u16 at v m = record m { buf = wr16 m.buf at v }

-- The number of bytes to send is the `len` of the result.
unfoldable pub aoip_msg_finish : ℕ → Msg → Msg
unfolding aoip_msg_patch_u16
aoip_msg_finish opcode2 m = aoip_msg_patch_u16 8 opcode2 (aoip_msg_patch_u16 2 m.len m)
