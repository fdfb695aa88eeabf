-- ===== src/Wire.antt =====
-- main/aoip_wire.h: big-endian fields, the audio packet, and the headers of the control plane and
-- of PTPv1. A read past the end of a list gives 0; the callers check lengths first.
pub mod Fields
pub mod Headers
mod Tests
use inferno_esp32_p.Prelude.{
  ℕ, ◌+◌, ◌-◌, ◌*◌, ◌/◌, ◌%◌, ◌^◌, ltb, ◌==◌, ◌&&◌, Bool, not, if◌then◌else◌, List, [], ◌∷◌, ◌++◌,
  Option, none, some, get_or, drop, take, replicate,
}
use inferno_esp32_p.Prelude.Bytes.{write_at}

abbrev pub byte : List ℕ → ℕ → ℕ
byte p i = get_or p i 0

-- (a << 8) | b and its like: the bytes do not overlap, so the bits are a sum.
unfoldable pub rd16 : List ℕ → ℕ → ℕ
rd16 p i = byte p i * 2 ^ 8 + byte p (i + 1)

unfoldable pub rd24 : List ℕ → ℕ → ℕ
rd24 p i = byte p i * 2 ^ 16 + byte p (i + 1) * 2 ^ 8 + byte p (i + 2)

unfoldable pub rd32 : List ℕ → ℕ → ℕ
rd32 p i = byte p i * 2 ^ 24 + byte p (i + 1) * 2 ^ 16 + byte p (i + 2) * 2 ^ 8 + byte p (i + 3)

-- The bytes that `dw_wr16` and `dw_wr32` store; the argument is cast to the field's width.
abbrev pub be16 : ℕ → List ℕ
be16 v = (v / 2 ^ 8 % 2 ^ 8) ∷ (v % 2 ^ 8) ∷ []

abbrev pub be32 : ℕ → List ℕ
be32 v = (v / 2 ^ 24 % 2 ^ 8) ∷ (v / 2 ^ 16 % 2 ^ 8) ∷ (v / 2 ^ 8 % 2 ^ 8) ∷ (v % 2 ^ 8) ∷ []

unfoldable pub wr16 : List ℕ → ℕ → ℕ → List ℕ
wr16 p i v = write_at p i (be16 v)

unfoldable pub wr32 : List ℕ → ℕ → ℕ → List ℕ
wr32 p i v = write_at p i (be32 v)

abbrev pub audio_magic : ℕ
audio_magic = 2

abbrev pub audio_hdr_len : ℕ
audio_hdr_len = 9

-- `aoip_audio_hdr_t`; `samples` is the packet from its ninth byte on.
pub record AudioHdr : Type 0 where
  pub seconds : ℕ
  pub subsec_samples : ℕ
  pub samples : List ℕ
  pub sample_bytes : ℕ

unfoldable pub audio_parse : List ℕ → ℕ → Option AudioHdr
audio_parse p len =
    if ltb len (audio_hdr_len + 3)
    then none
    else if not (byte p 0 == audio_magic)
    then none
    else some (record {
      seconds = rd32 p 1;
      subsec_samples = rd32 p 5;
      samples = drop audio_hdr_len p;
      sample_bytes = len - audio_hdr_len;
    })

-- (uint64_t)seconds * rate + subsec
unfoldable pub ts_to_samples : ℕ → ℕ → ℕ → ℕ
ts_to_samples seconds subsec rate = (seconds * rate + subsec) % 2 ^ 64

abbrev pub drr_hdr_len : ℕ
drr_hdr_len = 10

unfoldable pub put_header : List ℕ → ℕ → ℕ → ℕ → ℕ → ℕ → List ℕ
put_header p start_code seqnum opcode1 opcode2 total_len =
    wr16 (wr16 (wr16 (wr16 (wr16 p 0 start_code) 2 total_len) 4 seqnum) 6 opcode1) 8 opcode2

abbrev pub ptp_hdr_len : ℕ
ptp_hdr_len = 40

-- "_DFLT"
abbrev pub subdomain : List ℕ
subdomain = b'_' ∷ b'D' ∷ b'F' ∷ b'L' ∷ b'T' ∷ []

unfoldable pub ptp_header_ok : List ℕ → ℕ → Bool
unfolding rd16
ptp_header_ok p len =
    not (ltb len ptp_hdr_len)
    && rd16 p 0 == 1
    && byte p 4 == b'_'
    && byte p 5 == b'D'
    && byte p 6 == b'F'
    && byte p 7 == b'L'
    && byte p 8 == b'T'

-- memset, then the fields in the source's order; `uuid` holds six bytes.
unfoldable pub ptp_put_header : List ℕ → List ℕ → ℕ → ℕ → ℕ → ℕ → List ℕ
unfolding wr16
ptp_put_header p uuid port_id control port_type seq =
    let cleared = write_at p 0 (replicate ptp_hdr_len 0) in
    let named = write_at (wr16 (wr16 cleared 0 1) 2 1) 4 subdomain in
    let sourced =
      write_at (write_at (write_at named 20 (port_type ∷ [])) 21 (1 ∷ [])) 22 (take 6 uuid) in
    write_at (wr16 (wr16 sourced 28 port_id) 30 seq) 32 (control ∷ [])
