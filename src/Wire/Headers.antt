-- ===== src/Wire/Headers.antt =====
-- The headers: what is put is what is read.
use inferno_esp32_p.Wire.{
  rd16, wr16, put_header, ptp_put_header, ptp_header_ok, audio_parse, byte, rd32, audio_magic,
  ts_to_samples, be32,
}
use inferno_esp32_p.Prelude.{
  List, ℕ, ◌≤◌, length, ◌<◌, ◌^◌, ◌≡◌, some, ◌+◌, ◌∷◌, [], inl, true, arith, drop, take, ◌∙◌,
  replicate, refl, ◌++◌, ◌*◌, ap, dec_lt, ◌-◌, suc,
}
use inferno_esp32_p.Wire.Fields.{length-wr16, rd16-wr16_other, rd16-wr16}
use inferno_esp32_p.Prelude.Bytes.{write_at, write_at_start}
use native.Mathlib.Nat.{mul-le-mul_right}

-- Written into a buffer of at least ten bytes, the five fields of the request header read back.
pub put_header_lem :
    (p : List ℕ) (start_code seqnum opcode1 opcode2 total : ℕ)
    → 10 ≤ length p
    → start_code < 2 ^ 16
    → seqnum < 2 ^ 16
    → opcode1 < 2 ^ 16
    → opcode2 < 2 ^ 16
    → total < 2 ^ 16
    → let h = put_header p start_code seqnum opcode1 opcode2 total in
      (rd16 h 0 ≡ start_code)
      × (rd16 h 2 ≡ total)
      × (rd16 h 4 ≡ seqnum)
      × (rd16 h 6 ≡ opcode1)
      × (rd16 h 8 ≡ opcode2)
unfolding put_header
put_header_lem p a b c d e n ha hb hc hd he =
    let p0 = wr16 p 0 a in
    let p1 = wr16 p0 2 e in
    let p2 = wr16 p1 4 b in
    let p3 = wr16 p2 6 c in
    let l0 = length-wr16 p 0 a in
    let l1 = length-wr16 p0 2 e in
    let l2 = length-wr16 p1 4 b in
    let l3 = length-wr16 p2 6 c in
    let before = λ (q : List ℕ) (i v j : ℕ) (h : j + 2 ≤ i). rd16-wr16_other q i v j (inl h) in
    (
      before p3 8 d 0 (omega arith)
          ∙ before p2 6 c 0 (omega arith)
          ∙ before p1 4 b 0 (omega arith)
          ∙ before p0 2 e 0 (omega arith)
          ∙ rd16-wr16 p 0 a ha (omega arith),
      before p3 8 d 2 (omega arith)
          ∙ before p2 6 c 2 (omega arith)
          ∙ before p1 4 b 2 (omega arith)
          ∙ rd16-wr16 p0 2 e he (omega arith),
      before p3 8 d 4 (omega arith)
          ∙ before p2 6 c 4 (omega arith)
          ∙ rd16-wr16 p1 4 b hb (omega arith),
      before p3 8 d 6 (omega arith) ∙ rd16-wr16 p2 6 c hc (omega arith),
      rd16-wr16 p3 8 d hd (omega arith),
    )

-- A PTPv1 header put into a buffer of at least forty bytes is one that the receiver accepts, at
-- any length that holds it, and its sender, port, sequence number and control field read back.
pub ptp_put_header_lem :
    (p : List ℕ) (a b c d e f port control port_type seq len : ℕ)
    → 40 ≤ length p
    → 40 ≤ len
    → port < 2 ^ 16
    → seq < 2 ^ 16
    → let h = ptp_put_header p (a ∷ b ∷ c ∷ d ∷ e ∷ f ∷ []) port control port_type seq in
      (ptp_header_ok h len ≡ true)
      × (take 6 (drop 22 h) ≡ a ∷ b ∷ c ∷ d ∷ e ∷ f ∷ [])
      × (rd16 h 28 ≡ port)
      × (rd16 h 30 ≡ seq)
      × (byte h 32 ≡ control)
unfolding ptp_put_header ptp_header_ok rd16 wr16 write_at
ptp_put_header_lem p a b c d e f port control port_type seq len n l hp hs =
    rw (write_at_start p (replicate 40 0) n) (ground arith, refl, omega arith, omega arith, refl)

-- A packet made of the magic byte, the two timestamp words and at least one sample parses back to
-- its timestamp and samples.
pub audio_parse_encoded :
    (seconds subsec : ℕ) (samples : List ℕ)
    → seconds < 2 ^ 32
    → subsec < 2 ^ 32
    → 3 ≤ length samples
    → audio_parse (audio_magic ∷ be32 seconds ++ be32 subsec ++ samples) (9 + length samples)
      ≡ some (record {
        seconds = seconds;
        subsec_samples = subsec;
        samples = samples;
        sample_bytes = length samples;
      })
unfolding audio_parse rd32
audio_parse_encoded a b xs ha hb n = ground arith

fits : (a b rate : ℕ) → a < 2 ^ 32 → rate < 2 ^ 32 → b < rate → a * rate + b < 2 ^ 64
fits a b rate ha hr hb = omega (arith, mul-le-mul_right {m = a} {n = 2 ^ 32 - 1} rate (omega arith))

-- A number has one quotient and remainder by `rate`.
two_digits : (a b c d rate : ℕ) → b < rate → d < rate → a * rate + b ≡ c * rate + d → a ≡ c
two_digits a b c d rate hb hd e = elim (dec_lt a c) [
  | yes up ↦ absurd (omega (arith, mul-le-mul_right {m = suc a} {n = c} rate up))
  | no rest ↦ elim (dec_lt c a) [
    | yes down ↦ absurd (omega (arith, mul-le-mul_right {m = suc c} {n = a} rate down))
    | no same ↦ omega arith
  ]
]

-- On the timeline of a rate no timestamp wraps and no two meet: the sample index of 32-bit seconds
-- and a sample count below the rate, which is of 32 bits, is the exact one, and it determines both.
pub ts_to_samples-injective :
    (a b c d rate : ℕ)
    → a < 2 ^ 32
    → c < 2 ^ 32
    → rate < 2 ^ 32
    → b < rate
    → d < rate
    → ts_to_samples a b rate ≡ ts_to_samples c d rate
    → (ts_to_samples a b rate ≡ a * rate + b) × (a ≡ c) × (b ≡ d)
unfolding ts_to_samples
ts_to_samples-injective a b c d rate ha hc hr hb hd e =
    let e' : a * rate + b ≡ c * rate + d =
      omega (arith, e, fits a b rate ha hr hb, fits c d rate hc hr hd) in
    let same = two_digits a b c d rate hb hd e' in
    (omega (arith, fits a b rate ha hr hb), same, omega (arith, e', ap (λ (k : ℕ). k * rate) same))
