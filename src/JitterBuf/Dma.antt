-- ===== src/JitterBuf/Dma.antt =====
-- The TX interrupt and the position of the DMA in main/jitterbuf.c.
use inferno_esp32_p.JitterBuf.{Ring, clear_ring, suc, i2s_fifo_frames}
use inferno_esp32_p.Prelude.{
  ℕ, Option, none, some, List, if◌then◌else◌, set, ◌+◌, get_or, not, ◌%◌, ◌*◌, ◌∷◌, ltb, ◌==◌, ◌^◌,
  suc, true, zero, ◌-◌, [],
}
use inferno_esp32_p.Prelude.Int.{ℤ, pos, quotient, scale, ◌+ℤ◌, ◌-ℤ◌, ltb_ℤ, pos_part}
use inferno_esp32_p.Prelude.Words.{to_signed, to_unsigned, to_i32, inc32}

-- The first of `n` buffers with an address.
unfoldable pub find_buf : List ℕ → ℕ → ℕ → ℕ → Option ℕ
find_buf bufs zero j b = none
find_buf [] (suc n) j b = none
find_buf (x ∷ xs) (suc n) j b =
    let rest = find_buf xs n (j + 1) b in if x == b then some j else rest

-- The first lap: the descriptors finish in order.
unfoldable pub learn : Ring → ℕ → Ring
learn r b = record r {
  buf = set r.buf r.mapped b;
  mapped = r.mapped + 1;
  dma_end = (r.dma_end + r.frames) % 2 ^ 64;
  next_k = (r.mapped + 1) % r.nbufs;
  ready = r.mapped + 1 == r.nbufs;
}

-- The number of descriptors that an interrupt covers, and the one that has finished.
unfoldable pub covered : Ring → ℕ → ℕ × ℕ
unfolding find_buf
covered r b =
    if get_or r.buf r.next_k 0 == b then (1, r.next_k) else elim (find_buf r.buf r.nbufs 0 b) [
      | none ↦ (1, r.next_k)
      | some j ↦ ((j + r.nbufs - r.next_k) % r.nbufs + 1, j)
    ]

unfoldable pub advance : Ring → ℕ → Ring
unfolding covered
advance r b =
    let (adv, k) = covered r b in
    record r {
      dma_end = (r.dma_end + adv * r.frames) % 2 ^ 64;
      next_k = (k + 1) % r.nbufs;
      stats =
          if get_or r.buf r.next_k 0 == b
          then r.stats
          else record r.stats { isr_gaps = inc32 r.stats.isr_gaps };
    }

-- The frames of the descriptor just played that nobody wrote.
unfoldable pub underrun : Ring → ℤ
underrun r =
    let a_end = to_signed 64 r.dma_end -ℤ r.off in
    let a_start = a_end -ℤ pos r.frames in
    let head = to_signed 64 r.rx_head in
    if ltb_ℤ head a_end then a_end -ℤ (if ltb_ℤ a_start head then head else a_start) else pos 0

unfoldable pub count_underrun : Ring → Ring
unfolding underrun
count_underrun r =
    if r.anchored
    then record r {
      stats = record r.stats {
        frames_underrun = (r.stats.frames_underrun + to_unsigned 32 (underrun r)) % 2 ^ 32;
      };
    }
    else r

-- The interrupt at time `t`, left at time `t'`.
unfoldable pub jb_isr_sent : Ring → ℕ → ℤ → ℤ → Ring
unfolding learn advance count_underrun
jb_isr_sent r b t t' =
    let r' =
      count_underrun (record (if not r.ready then learn r b else advance r b) { t_isr = t }) in
    let us = to_unsigned 32 (t' -ℤ t) in
    record r' { isr_max_us = if ltb r'.isr_max_us us then us else r'.isr_max_us }

-- The frames played since the last interrupt, up to two descriptors.
unfoldable pub elapsed : Ring → ℤ → ℕ → ℕ
elapsed r now hz =
    let el = quotient (scale (now -ℤ r.t_isr) hz) 1000000 in
    let low = if ltb_ℤ el (pos 0) then pos 0 else el in
    pos_part (if ltb_ℤ (pos (2 * r.frames)) low then pos (2 * r.frames) else low)

-- Where the DMA is, in unwrapped slots.
unfoldable pub dma_pos_now : Ring → ℤ → ℕ → ℤ
unfolding elapsed
dma_pos_now r now hz = to_signed 64 r.dma_end +ℤ pos (elapsed r now hz)

unfoldable pub jb_reset : Ring → ℤ → ℕ → ℕ → Ring
unfolding dma_pos_now clear_ring
jb_reset r now hz playout =
    if not r.ready
    then r
    else clear_ring (record r {
      off = dma_pos_now r now hz -ℤ pos i2s_fifo_frames -ℤ to_signed 64 playout;
      rx_head = playout;
      anchored = true;
    })

unfoldable pub jb_playout_idx : Ring → ℤ → ℕ → ℕ
unfolding dma_pos_now
jb_playout_idx r now hz = to_unsigned 64 (dma_pos_now r now hz -ℤ pos i2s_fifo_frames -ℤ r.off)

unfoldable pub jb_step_playout : Ring → ℤ → Ring
unfolding clear_ring
jb_step_playout r delta = clear_ring (record r {
  off = r.off -ℤ delta;
  stats = record r.stats { playout_steps = inc32 r.stats.playout_steps };
})

-- The level that `jb_get_stats` reports.
unfoldable pub level_frames : Ring → ℤ → ℕ → ℤ
unfolding jb_playout_idx
level_frames r now hz =
    let play = if r.ready then jb_playout_idx r now hz else 0 in
    to_i32 (to_signed 64 r.rx_head -ℤ to_signed 64 play)
