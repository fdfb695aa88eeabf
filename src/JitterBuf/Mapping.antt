-- ===== src/JitterBuf/Mapping.antt =====
-- The mapping of the timeline onto the ring: what an anchor and a step do to the playout.
use inferno_esp32_p.JitterBuf.{Ring, shift_for, clear_words, clear_ring, suc}
use inferno_esp32_p.JitterBuf.Dma.{jb_reset, jb_playout_idx, jb_step_playout, dma_pos_now, elapsed}
use inferno_esp32_p.Prelude.{
  ℕ, ◌≡◌, ◌<◌, true, ◌^◌, arith, List, get_or, refl, ◌≤◌, [], ap, replicate, if_false, ◌*◌, not,
  suc, zero, ◌∷◌, ◌∙◌, ◌+◌, le→ltb_false, sym, if_true, ltb, lt→ltb,
}
use inferno_esp32_p.Prelude.Words.{to_unsigned, to_signed}
use inferno_esp32_p.Prelude.Int.{ℤ, ◌-ℤ◌, int_laws, pos, ◌+ℤ◌}

-- A number of 64 bits, as a signed number and back.
to_unsigned-to_signed : (n : ℕ) → n < 2 ^ 64 → to_unsigned 64 (to_signed 64 n) ≡ n
unfolding to_unsigned to_signed
to_unsigned-to_signed n h = ground arith

cancel : (a b : ℤ) → a -ℤ (a -ℤ b) ≡ b
cancel a b = omega int_laws

dma_pos_now_kept :
    (r : Ring) (off : ℤ) (head : ℕ) (now : ℤ) (hz : ℕ)
    → dma_pos_now (clear_ring (record r { off = off; rx_head = head; anchored = true })) now hz
      ≡ dma_pos_now r now hz
unfolding dma_pos_now elapsed clear_ring
dma_pos_now_kept r off head now hz = refl

-- Once the ring is ready, an anchor at a 64-bit sample index puts that sample at the DAC at the
-- same instant.
pub jb_reset-jb_playout_idx :
    (r : Ring) (now : ℤ) (hz playout : ℕ)
    → r.ready ≡ true
    → playout < 2 ^ 64
    → jb_playout_idx (jb_reset r now hz playout) now hz ≡ playout
unfolding jb_playout_idx jb_reset clear_ring
jb_reset-jb_playout_idx r now hz playout h k =
    let dac = dma_pos_now r now hz -ℤ pos 8 in
    let off = dac -ℤ to_signed 64 playout in
    ap (λ (c : Ring). to_unsigned 64 (dma_pos_now c now hz -ℤ pos 8 -ℤ c.off))
      (if_false (not r.ready) _ _ (ap not h))
    ∙ ap (λ (x : ℤ). to_unsigned 64 (x -ℤ pos 8 -ℤ off)) (dma_pos_now_kept r off playout now hz)
    ∙ ap (to_unsigned 64) (cancel dac (to_signed 64 playout))
    ∙ to_unsigned-to_signed playout k

step_moves : (a off d : ℤ) → a -ℤ (off -ℤ d) ≡ a -ℤ off +ℤ d
step_moves a off d = omega int_laws

zeros : (n i : ℕ) → get_or (replicate n (pos 0)) i (pos 0) ≡ pos 0
zeros zero i = refl
zeros (suc n) zero = refl
zeros (suc n) (suc i) = zeros n i

cleared :
    (m n : ℕ) (ws : List (List ℤ)) (k i : ℕ)
    → k < m
    → get_or (get_or (clear_words m n ws) k []) i (pos 0) ≡ pos 0
unfolding clear_words
cleared zero n ws k i h = absurd (omega arith)
cleared (suc m) n [] k i h = refl
cleared (suc m) n (w ∷ ws) zero i h = zeros n i
cleared (suc m) n (w ∷ ws) (suc k) i h = cleared m n ws k i (omega arith)

-- A step by `delta` moves the sample at the DAC by that many, at the same instant; what was written
-- for the old mapping is cleared from every buffer that is known.
pub jb_step_playout_lem :
    (r : Ring) (now delta : ℤ) (hz : ℕ)
    → let r' = jb_step_playout r delta in
      (jb_playout_idx r' now hz ≡ to_unsigned 64 (dma_pos_now r now hz -ℤ pos 8 -ℤ r.off +ℤ delta))
      × ((k i : ℕ) → k < r.mapped → get_or (get_or r'.words k []) i (pos 0) ≡ pos 0)
unfolding jb_playout_idx jb_step_playout clear_ring dma_pos_now elapsed
jb_step_playout_lem r now delta hz = (
  ap (to_unsigned 64) (step_moves (dma_pos_now r now hz -ℤ pos 8) r.off delta),
  λ k i h. cleared r.mapped (r.frames * 8) r.words k i h,
)

pow_suc : (n : ℕ) → 2 ^ suc n ≡ 2 * 2 ^ n
pow_suc n = omega arith

pow_positive : (n : ℕ) → 0 < 2 ^ n
pow_positive zero = omega arith
pow_positive (suc n) = omega (arith, pow_suc n, pow_positive n)

pow_grows : (s d : ℕ) → 2 ^ s < 2 ^ (s + suc d)
pow_grows s zero =
    omega (
      arith,
      pow_positive s,
      pow_suc s,
      ap (λ (k : ℕ). 2 ^ k) {x = s + 1} {y = suc s} (omega arith),
    )
pow_grows s (suc d) =
    let e : 2 ^ (s + suc (suc d)) ≡ 2 ^ suc (s + suc d) = ap (λ (k : ℕ). 2 ^ k) (omega arith) in
    omega (arith, pow_grows s d, e, pow_suc (s + suc d))

shift_for_from : (fuel s d : ℕ) → d ≤ fuel → shift_for fuel (2 ^ (s + d)) s ≡ s + d
unfolding shift_for
shift_for_from zero s d h = omega arith
shift_for_from (suc fuel) s zero h =
    let e : s + 0 ≡ s = omega arith in rw (e, le→ltb_false (2 ^ s) (2 ^ s) (omega arith)) refl
shift_for_from (suc fuel) s (suc d) h =
    let e : s + suc d ≡ s + 1 + d = omega arith in
    if_true (ltb (2 ^ s) (2 ^ (s + suc d))) _ _ (lt→ltb _ _ (pow_grows s d))
    ∙ ap (λ (k : ℕ). shift_for fuel (2 ^ k) (s + 1)) e
    ∙ shift_for_from fuel (s + 1) d (omega arith)
    ∙ sym e

-- For a descriptor of a power of two of frames, up to 2 ^ 32, the shift is its exponent.
pub shift_for_lem : (j : ℕ) → j ≤ 32 → shift_for 32 (2 ^ j) 0 ≡ j
shift_for_lem j h =
    let e : 0 + j ≡ j = omega arith in
    ap (λ (k : ℕ). shift_for 32 (2 ^ k) 0) (sym e) ∙ shift_for_from 32 0 j h ∙ e
