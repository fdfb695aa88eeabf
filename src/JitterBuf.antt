-- ===== src/JitterBuf.antt =====
-- main/jitterbuf.c: the ring that the I2S DMA plays. The child modules hold the interrupt, the
-- position, and the write of a packet. Times are in microseconds.
pub mod Dma
pub mod Write
pub mod Position
pub mod Gain
pub mod Mapping
pub mod Rows
pub mod Landing
pub mod Packets
mod Tests
use inferno_esp32_p.Prelude.{
  ℕ, Bool, List, false, if◌then◌else◌, suc, ◌*◌, ◌/◌, ◌+◌, ◌∷◌, ltb, replicate, zero, ◌^◌, [],
}
use inferno_esp32_p.Prelude.Int.{ℤ, pos, ltb_ℤ, neg}

-- `jb_stats_t`, its counters.
pub record Stats : Type 0 where
  pub pkt_written : ℕ
  pub pkt_late : ℕ
  pub pkt_future : ℕ
  pub pkt_malformed : ℕ
  pub frames_underrun : ℕ
  pub playout_steps : ℕ
  pub isr_gaps : ℕ

-- The static variables. `buf` holds the addresses of the DMA buffers, and `words` the memory of
-- the buffer at each of them, eight words to a frame.
pub record Ring : Type 0 where
  pub buf : List ℕ
  pub words : List (List ℤ)
  pub nbufs : ℕ
  pub frames : ℕ
  pub fshift : ℕ
  pub mapped : ℕ
  pub ready : Bool
  pub next_k : ℕ
  pub dma_end : ℕ
  pub t_isr : ℤ
  pub off : ℤ
  pub anchored : Bool
  pub rx_head : ℕ
  pub stats : Stats
  pub gain_q16 : ℕ
  pub gain_db : ℤ
  pub mute : Bool
  pub isr_max_us : ℕ

abbrev pub nch : ℕ
nch = 8

abbrev pub i2s_fifo_frames : ℕ
i2s_fifo_frames = 8

abbrev pub dma_ahead_frames : ℕ
dma_ahead_frames = 16

abbrev pub ring_frames : ℕ
ring_frames = 4096

abbrev pub future_guard_frames : ℕ
future_guard_frames = ring_frames / 2

-- `db` clamped to -60..4; `of_db` is the rounded Q16 factor of a number of dB.
unfoldable pub gain_apply : (ℤ → ℕ) → Ring → ℤ → Ring
gain_apply of_db r db =
    let low = if ltb_ℤ db (neg 60) then neg 60 else db in
    let db' = if ltb_ℤ (pos 4) low then pos 4 else low in
    record r { gain_db = db'; gain_q16 = if r.mute then 0 else of_db db' }

unfoldable pub jb_set_mute : (ℤ → ℕ) → Ring → Bool → Ring
unfolding gain_apply
jb_set_mute of_db r on = gain_apply of_db (record r { mute = on }) r.gain_db

-- The least shift from `s` on with 2^shift ≥ F, in `fuel` steps at most.
unfoldable pub shift_for : ℕ → ℕ → ℕ → ℕ
shift_for zero F s = s
shift_for (suc fuel) F s = let rest = shift_for fuel F (s + 1) in if ltb (2 ^ s) F then rest else s

unfoldable pub jb_attach_dma : Ring → ℕ → ℕ → Ring
unfolding shift_for
jb_attach_dma r nbufs frames = record r {
  nbufs = nbufs;
  frames = frames;
  fshift = shift_for 32 frames 0;
  mapped = 0;
  ready = false;
  next_k = 0;
  dma_end = 0;
}

-- Zeros in the buffers learned so far.
unfoldable pub clear_words : ℕ → ℕ → List (List ℤ) → List (List ℤ)
clear_words zero n ws = ws
clear_words (suc k) n [] = []
clear_words (suc k) n (w ∷ ws) = replicate n (pos 0) ∷ clear_words k n ws

unfoldable pub clear_ring : Ring → Ring
unfolding clear_words
clear_ring r = record r { words = clear_words r.mapped (r.frames * nch) r.words }
