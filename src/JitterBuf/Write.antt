-- ===== src/JitterBuf/Write.antt =====
-- `jb_write` of main/jitterbuf.c. The write-back of the cache is left out.
use inferno_esp32_p.JitterBuf.{Ring, nch, suc, dma_ahead_frames, ring_frames, future_guard_frames}
use inferno_esp32_p.JitterBuf.Dma.{dma_pos_now}
use inferno_esp32_p.Prelude.{
  ℕ, Bool, List, if◌then◌else◌, not, ◌+◌, ◌/◌, drop, ◌%◌, ◌-◌, ◌==◌, ◌^◌, ◌∷◌, set, ◌&&◌, ◌*◌, ◌||◌,
  false, get_or, suc, zero, [], true,
}
use inferno_esp32_p.Prelude.Int.{ℤ, pos, ◌+ℤ◌, ltb_ℤ, shift_right, ◌-ℤ◌, pos_part, scale, neg}
use inferno_esp32_p.Prelude.Words.{to_signed, to_unsigned, inc32}
use inferno_esp32_p.Wire.{byte}

-- A sample of 24 bits, big-endian, at the top of a word of 32.
unfoldable pub sample : List ℕ → ℤ
sample p = to_signed 32 (byte p 0 * 2 ^ 24 + byte p 1 * 2 ^ 16 + byte p 2 * 2 ^ 8)

-- The output gain in Q16, clipped at full scale.
unfoldable pub amplify : ℕ → ℤ → ℤ
amplify gain v =
    if gain == 65536
    then v
    else let g = shift_right (scale v gain) 16 in
      if ltb_ℤ (pos (2 ^ 31 - 1)) g
      then pos (2 ^ 31 - 1)
      else if ltb_ℤ g (neg (2 ^ 31))
      then neg (2 ^ 31)
      else g

-- AP_OUT_SLOT
abbrev pub out_slot : ℕ → ℕ
out_slot ch = nch - 1 - ch

-- ch >= 0 && ch < AP_NCH
unfoldable pub is_local : ℤ → Bool
is_local ch = not (ltb_ℤ ch (pos 0)) && ltb_ℤ ch (pos nch)

-- One frame: the slots' samples go to their channels' places in the row at `base`.
unfoldable pub put_slots : ℕ → ℕ → List ℤ → List ℕ → ℕ → List ℤ → List ℤ
unfolding sample amplify is_local
put_slots zero gain chans p base ws = ws
put_slots (suc n) gain [] p base ws = ws
put_slots (suc n) gain (ch ∷ chans) p base ws =
    put_slots n gain chans (drop 3 p) base
      (if is_local ch then set ws (base + out_slot (pos_part ch)) (amplify gain (sample p)) else ws)

-- (uint64_t)(a + off) & AP_RING_MASK
unfoldable pub slot_of : ℤ → ℤ → ℕ
slot_of a off = to_unsigned 64 (a +ℤ off) % ring_frames

-- The row of frame `a`: (slot >> fshift) % nbufs, and slot & (F - 1) for F a power of two.
unfoldable pub put_frame : Ring → ℕ → List ℤ → List ℕ → ℤ → List (List ℤ) → List (List ℤ)
unfolding slot_of put_slots
put_frame r nslots chans p a ws =
    let slot = slot_of a r.off in
    let k = slot / 2 ^ r.fshift % r.nbufs in
    set ws k (put_slots nslots r.gain_q16 chans p (slot % r.frames * nch) (get_or ws k []))

-- The frames from `a` on; one before `read` is late and left out.
unfoldable pub put_frames : Ring → ℕ → List ℤ → ℤ → ℕ → List ℕ → ℤ → List (List ℤ) → List (List ℤ)
unfolding put_frame
put_frames r nslots chans read zero p a ws = ws
put_frames r nslots chans read (suc n) p a ws =
    put_frames r nslots chans read n (drop (nslots * 3) p) (a +ℤ pos 1)
      (if ltb_ℤ a read then ws else put_frame r nslots chans p a ws)

-- The sample that the DMA's read head is at, with what it may have fetched already.
unfoldable pub read_head : Ring → ℤ → ℕ → ℤ
unfolding dma_pos_now
read_head r now hz = dma_pos_now r now hz +ℤ pos dma_ahead_frames -ℤ r.off

unfoldable pub accept : Ring → ℤ → ℕ → ℕ → ℕ → List ℤ → List ℕ → Ring
unfolding put_frames
accept r read first nframes nslots chans p =
    let end = (first + nframes) % 2 ^ 64 in
    record r {
      words = put_frames r nslots chans read nframes p (to_signed 64 first) r.words;
      rx_head =
          if ltb_ℤ (pos 0) (to_signed 64 end -ℤ to_signed 64 r.rx_head) then end else r.rx_head;
      stats = record r.stats { pkt_written = inc32 r.stats.pkt_written };
    }

-- Whether the packet landed, and the ring after it.
unfoldable pub jb_write : Ring → ℤ → ℕ → ℕ → ℕ → ℕ → List ℤ → List ℕ → Bool × Ring
unfolding read_head accept
jb_write r now hz first nframes nslots chans p =
    if nframes == 0 || nslots == 0
    then (
      false,
      record r { stats = record r.stats { pkt_malformed = inc32 r.stats.pkt_malformed } },
    )
    else if not r.ready || not r.anchored
    then (false, r)
    else let read = read_head r now hz in
      let past = to_signed 64 first -ℤ read +ℤ pos nframes in
      if not (ltb_ℤ (pos 0) past)
      then (false, record r { stats = record r.stats { pkt_late = inc32 r.stats.pkt_late } })
      else if ltb_ℤ (pos future_guard_frames) past
      then (false, record r { stats = record r.stats { pkt_future = inc32 r.stats.pkt_future } })
      else (true, accept r read first nframes nslots chans p)
