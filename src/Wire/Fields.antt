-- ===== src/Wire/Fields.antt =====
-- Reading back what was written, and what a write leaves alone.
use inferno_esp32_p.Wire.{rd16, rd32, wr16, wr32, be16, be32}
use inferno_esp32_p.Prelude.{List, ℕ, get_or, length, ◌+◌, ◌<◌, ◌^◌, ◌≡◌, ◌≤◌, arith, ◌⊎◌, inl, inr}
use inferno_esp32_p.Prelude.Bytes.{
  length-write_at, get_or-write_at, write_at, get_or-write_at_before, get_or-write_at_after,
}

pub length-wr16 : (p : List ℕ) (i v : ℕ) → length (wr16 p i v) ≡ length p
unfolding wr16
length-wr16 p i v = length-write_at p i (be16 v)

pub length-wr32 : (p : List ℕ) (i v : ℕ) → length (wr32 p i v) ≡ length p
unfolding wr32
length-wr32 p i v = length-write_at p i (be32 v)

-- A 16-bit field that lies in the buffer reads back as written.
pub rd16-wr16 : (p : List ℕ) (i v : ℕ) → v < 2 ^ 16 → i + 2 ≤ length p → rd16 (wr16 p i v) i ≡ v
unfolding rd16 wr16
rd16-wr16 p i v h r = omega (
  arith,
  get_or-write_at p i (be16 v) 0 i (omega arith) (omega arith) r,
  get_or-write_at p i (be16 v) 1 (i + 1) (omega arith) (omega arith) r,
)

-- A 32-bit field that lies in the buffer reads back as written.
pub rd32-wr32 : (p : List ℕ) (i v : ℕ) → v < 2 ^ 32 → i + 4 ≤ length p → rd32 (wr32 p i v) i ≡ v
unfolding rd32 wr32
rd32-wr32 p i v h r = omega (
  arith,
  get_or-write_at p i (be32 v) 0 i (omega arith) (omega arith) r,
  get_or-write_at p i (be32 v) 1 (i + 1) (omega arith) (omega arith) r,
  get_or-write_at p i (be32 v) 2 (i + 2) (omega arith) (omega arith) r,
  get_or-write_at p i (be32 v) 3 (i + 3) (omega arith) (omega arith) r,
)

-- A field that ends before the write, or starts after it, reads as before.
pub rd16-write_at_other :
    (p : List ℕ) (i : ℕ) (xs : List ℕ) (j : ℕ)
    → (j + 2 ≤ i) ⊎ (i + length xs ≤ j)
    → rd16 (write_at p i xs) j ≡ rd16 p j
unfolding rd16
rd16-write_at_other p i xs j (inl h) = omega (
  arith,
  get_or-write_at_before p i xs j (omega arith),
  get_or-write_at_before p i xs (j + 1) (omega arith),
)
rd16-write_at_other p i xs j (inr h) =
    omega
      (arith, get_or-write_at_after p i xs j h, get_or-write_at_after p i xs (j + 1) (omega arith))

pub rd16-wr16_other :
    (p : List ℕ) (i v j : ℕ) → (j + 2 ≤ i) ⊎ (i + 2 ≤ j) → rd16 (wr16 p i v) j ≡ rd16 p j
unfolding wr16
rd16-wr16_other p i v j h = rd16-write_at_other p i (be16 v) j h

-- Two bytes make a 16-bit number.
pub rd16-lt :
    (p : List ℕ) (i : ℕ) → get_or p i 0 < 256 → get_or p (i + 1) 0 < 256 → rd16 p i < 2 ^ 16
unfolding rd16
rd16-lt p i h k = omega arith
