-- ===== src/JitterBuf/Tests.antt =====
-- Witnesses for the ring.
use inferno_esp32_p.JitterBuf.{Ring, Stats, ◌∷◌}
use inferno_esp32_p.JitterBuf.Dma.{jb_isr_sent, jb_reset, jb_playout_idx, dma_pos_now, elapsed}
use inferno_esp32_p.JitterBuf.Position.{Known, Tracks, jb_isr_sent-Tracks}
use inferno_esp32_p.Prelude.{
  ℕ, ◌≡◌, [], arith, ◌<◌, get_or, refl, replicate, true, false, suc, zero, List, length-replicate,
  ap, length, ◌∙◌, drop,
}
use inferno_esp32_p.Prelude.Int.{neg, pos, ◌-ℤ◌, ◌+ℤ◌, ℤ}
use inferno_esp32_p.JitterBuf.Gain.{Clipped, exact, amplify_lem}
use inferno_esp32_p.JitterBuf.Mapping.{jb_reset-jb_playout_idx}
use inferno_esp32_p.Prelude.Words.{to_signed}
use inferno_esp32_p.JitterBuf.Write.{amplify, jb_write, read_head, slot_of, sample}
use inferno_esp32_p.JitterBuf.Landing.{Whole, word}
use inferno_esp32_p.JitterBuf.Packets.{jb_write_lands}

abbrev no_stats : Stats
no_stats = record {
  pkt_written = 0;
  pkt_late = 0;
  pkt_future = 0;
  pkt_malformed = 0;
  frames_underrun = 0;
  playout_steps = 0;
  isr_gaps = 0;
}

-- Three buffers of four frames, and five descriptors finished.
abbrev looping : Ring
looping = record {
  buf = 100 ∷ 200 ∷ 300 ∷ 0 ∷ [];
  words = replicate 32 (pos 7) ∷ replicate 32 (pos 7) ∷ replicate 32 (pos 7) ∷ [];
  nbufs = 3;
  frames = 4;
  fshift = 2;
  mapped = 3;
  ready = true;
  next_k = 2;
  dma_end = 20;
  t_isr = pos 1000;
  off = pos 0;
  anchored = true;
  rx_head = 18;
  stats = no_stats;
  gain_q16 = 65536;
  gain_db = pos 0;
  mute = false;
  isr_max_us = 3;
}

looping-Known : Known looping
looping-Known = record {
  lapped = refl;
  some_bufs = omega arith;
  in_array = omega arith;
  distinct = λ i j h k e. apart i j h k e;
}
  where
    apart : (i j : ℕ) → i < 3 → j < 3 → get_or looping.buf i 0 ≡ get_or looping.buf j 0 → i ≡ j
    apart zero zero h k e = refl
    apart zero (suc zero) h k e = absurd (omega arith)
    apart zero (suc (suc zero)) h k e = absurd (omega arith)
    apart (suc zero) zero h k e = absurd (omega arith)
    apart (suc zero) (suc zero) h k e = refl
    apart (suc zero) (suc (suc zero)) h k e = absurd (omega arith)
    apart (suc (suc zero)) zero h k e = absurd (omega arith)
    apart (suc (suc zero)) (suc zero) h k e = absurd (omega arith)
    apart (suc (suc zero)) (suc (suc zero)) h k e = refl
    apart (suc (suc (suc i))) j h k e = absurd (omega arith)
    apart i (suc (suc (suc j))) h k e = absurd (omega arith)

-- The next two descriptors finish before the interrupt is served.
jb_isr_sent-Tracks_example : Tracks (jb_isr_sent looping 100 (pos 1200) (pos 1203)) 7
jb_isr_sent-Tracks_example =
    jb_isr_sent-Tracks looping 5 1 (pos 1200) (pos 1203) looping-Known
      (record { position = refl; expected = refl }) (omega arith) (omega arith)

jb_reset-jb_playout_idx_example :
    jb_playout_idx (jb_reset looping (pos 1100) 48000 960000) (pos 1100) 48000 ≡ 960000
jb_reset-jb_playout_idx_example =
    jb_reset-jb_playout_idx looping (pos 1100) 48000 960000 refl (omega arith)

-- Full scale with +4 dB.
amplify_lem_example : Clipped (exact 103868 (pos 2147483392)) (amplify 103868 (pos 2147483392))
amplify_lem_example = amplify_lem 103868 (pos 2147483392) (omega arith) (omega arith)

get_or-replicate : (n k : ℕ) (row : List ℤ) → k < n → get_or (replicate n row) k [] ≡ row
get_or-replicate zero k row h = absurd (omega arith)
get_or-replicate (suc n) zero row h = refl
get_or-replicate (suc n) (suc k) row h = get_or-replicate n k row (omega arith)

-- The ring at 48 kHz, anchored, with 100 descriptors finished.
abbrev playing : Ring
playing = record looping {
  words = replicate 256 (replicate 128 (pos 0));
  nbufs = 256;
  frames = 16;
  fshift = 4;
  mapped = 256;
  next_k = 100;
  dma_end = 1600;
  rx_head = 1600;
}

playing-Whole : Whole playing playing.words
playing-Whole = record {
  shift = refl;
  positive = omega arith;
  total = omega arith;
  bufs = length-replicate 256 (replicate 128 (pos 0));
  rows = λ k h.
      ap length (get_or-replicate 256 k (replicate 128 (pos 0)) h) ∙ length-replicate 128 (pos 0);
}

-- The third frame of a packet of 16 frames in one slot, for the first channel.
jb_write_lands_example :
    word playing
      (jb_write playing (pos 1000) 48000 1700 16 1 (pos 0 ∷ []) (replicate 48 1)).1.words
      (slot_of (to_signed 64 1700 +ℤ pos 2) (pos 0))
      0
    ≡ amplify 65536 (sample (drop 6 (replicate 48 1)))
unfolding jb_write read_head dma_pos_now elapsed to_signed ◌+ℤ◌ ◌-ℤ◌
    inferno_esp32_p.Prelude.Int.quotient inferno_esp32_p.Prelude.Int.scale
jb_write_lands_example =
    jb_write_lands playing (pos 1000) 48000 1700 16 1 (pos 0 ∷ []) (replicate 48 1) 0 0 2
      playing-Whole refl (omega arith) (omega arith) refl tt (omega arith) (omega arith) refl
