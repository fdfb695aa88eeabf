-- ===== src/JitterBuf/Packets.antt =====
-- A packet that is accepted is played where its timestamp says.
use inferno_esp32_p.JitterBuf.{Ring}
use inferno_esp32_p.JitterBuf.Write.{
  put_frame, put_frames, slot_of, amplify, sample, jb_write, accept, read_head,
}
use inferno_esp32_p.JitterBuf.Rows.{Silent}
use inferno_esp32_p.JitterBuf.Landing.{
  Whole, word, slot-lt, put_frame-other, put_frame_lands, put_frame-Whole,
}
use inferno_esp32_p.Prelude.{
  ℕ, zero, suc, List, ◌≡◌, ◌≢◌, if_both, if◌then◌else◌, ◌<◌, ap, drop, get_elem?, ◌%◌, arith, refl,
  some, sym, ◌*◌, ◌-◌, ◌∙◌, ◌+◌, ◌≤◌, false, if_false, drop-drop, true, Bool, ◌==◌, ◌||◌, not,
}
use inferno_esp32_p.Prelude.Int.{ℤ, pos, negsuc, ◌+ℤ◌, int_laws, ltb_ℤ, ◌-ℤ◌}
use inferno_esp32_p.Prelude.Words.{to_unsigned, to_signed}

wrapped_apart :
    (x : ℤ) (d : ℕ)
    → 0 < d
    → d < 4096
    → to_unsigned 64 (x +ℤ pos d) % 4096 ≢ to_unsigned 64 x % 4096
unfolding to_unsigned ◌+ℤ◌
wrapped_apart (pos m) d h k = λ e. absurd (ground arith)
wrapped_apart (negsuc m) d h k = λ e. absurd (ground arith)

shift_sum : (a off : ℤ) (d : ℕ) → a +ℤ pos d +ℤ off ≡ a +ℤ off +ℤ pos d
shift_sum a off d = omega int_laws

-- Fewer than 4096 frames apart, two frames have different slots.
slot_apart : (a off : ℤ) (d : ℕ) → 0 < d → d < 4096 → slot_of (a +ℤ pos d) off ≢ slot_of a off
unfolding slot_of
slot_apart a off d h k e =
    wrapped_apart (a +ℤ off) d h k
      (ap (λ (x : ℤ). to_unsigned 64 x % 4096) (sym (shift_sum a off d)) ∙ e)

next_sum : (a : ℤ) (d : ℕ) → a +ℤ pos 1 +ℤ pos d ≡ a +ℤ pos (suc d)
next_sum a d = omega int_laws

sum_zero : (a : ℤ) → a +ℤ pos 0 ≡ a
sum_zero a = omega int_laws

module _ (r : Ring) (nslots : ℕ) (chans : List ℤ) (read : ℤ) where
  -- What one round of the loop leaves.
  abbrev one : List ℕ → ℤ → List (List ℤ) → List (List ℤ)
  one p a ws = if ltb_ℤ a read then ws else put_frame r nslots chans p a ws

  one-Whole : (p : List ℕ) (a : ℤ) (ws : List (List ℤ)) → Whole r ws → Whole r (one p a ws)
  one-Whole p a ws w = if_both (Whole r) (ltb_ℤ a read) w (put_frame-Whole r nslots chans p a ws w)

  one_other :
      (p : List ℕ) (a : ℤ) (ws : List (List ℤ)) (t c : ℕ)
      → Whole r ws
      → t < 4096
      → c < 8
      → slot_of a r.off ≢ t
      → word r (one p a ws) t c ≡ word r ws t c
  one_other p a ws t c w h lt ne =
      if_both (λ (x : List (List ℤ)). word r x t c ≡ word r ws t c) (ltb_ℤ a read) refl
        (put_frame-other r nslots chans p a ws t c w h lt ne)

  put_frames-other :
      (n : ℕ) (p : List ℕ) (a : ℤ) (ws : List (List ℤ)) (t c : ℕ)
      → Whole r ws
      → t < 4096
      → c < 8
      → ((d : ℕ) → d < n → slot_of (a +ℤ pos d) r.off ≢ t)
      → word r (put_frames r nslots chans read n p a ws) t c ≡ word r ws t c
  unfolding put_frames
  put_frames-other zero p a ws t c w h lt ne = refl
  put_frames-other (suc n) p a ws t c w h lt ne =
      put_frames-other n (drop (nslots * 3) p) (a +ℤ pos 1) (one p a ws) t c (one-Whole p a ws w) h
        lt
        (λ d k e.
          ne (suc d) (omega arith) (ap (λ (x : ℤ). slot_of x r.off) (sym (next_sum a d)) ∙ e))
      ∙ one_other p a ws t c w h lt
          (λ e. ne 0 (omega arith) (ap (λ (x : ℤ). slot_of x r.off) (sum_zero a) ∙ e))

  module _ (s c : ℕ) (s_in : s < nslots) (is : get_elem? chans s ≡ some (pos c))
      (last : Silent c (nslots - s - 1) (drop (s + 1) chans)) (c_in : c < 8) where
    put_frames_lands :
        (n j : ℕ) (p : List ℕ) (a : ℤ) (ws : List (List ℤ))
        → Whole r ws
        → j < n
        → n ≤ 4096
        → ltb_ℤ (a +ℤ pos j) read ≡ false
        → word r (put_frames r nslots chans read n p a ws) (slot_of (a +ℤ pos j) r.off) c
          ≡ amplify r.gain_q16 (sample (drop (j * (nslots * 3) + s * 3) p))
    unfolding put_frames
    put_frames_lands zero j p a ws w h k late = absurd (omega arith)
    put_frames_lands (suc n) zero p a ws w h k late =
        let t = slot_of a r.off in
        let now : ltb_ℤ a read ≡ false = ap (λ (x : ℤ). ltb_ℤ x read) (sym (sum_zero a)) ∙ late in
        ap (λ (x : ℤ). word r (put_frames r nslots chans read (suc n) p a ws) (slot_of x r.off) c)
          (sum_zero a)
        ∙ put_frames-other n (drop (nslots * 3) p) (a +ℤ pos 1) (one p a ws) t c
            (one-Whole p a ws w) (slot-lt a r.off) c_in
            (λ d lt e.
              slot_apart a r.off (suc d) (omega arith) (omega arith)
                (ap (λ (x : ℤ). slot_of x r.off) (sym (next_sum a d)) ∙ e))
        ∙ ap (λ (x : List (List ℤ)). word r x t c) (if_false (ltb_ℤ a read) _ _ now)
        ∙ put_frame_lands r nslots s c chans p a ws w s_in is last c_in
        ∙ ap (λ (i : ℕ). amplify r.gain_q16 (sample (drop i p))) {x = s * 3}
            {y = 0 * (nslots * 3) + s * 3} (omega arith)
    put_frames_lands (suc n) (suc j) p a ws w h k late =
        let e = next_sum a j in
        ap (λ (x : ℤ). word r (put_frames r nslots chans read (suc n) p a ws) (slot_of x r.off) c)
          (sym e)
        ∙ put_frames_lands n j (drop (nslots * 3) p) (a +ℤ pos 1) (one p a ws) (one-Whole p a ws w)
            (omega arith) (omega arith) (ap (λ (x : ℤ). ltb_ℤ x read) e ∙ late)
        ∙ ap (λ (x : List ℕ). amplify r.gain_q16 (sample x))
            (drop-drop (j * (nslots * 3) + s * 3) (nslots * 3) p
              ∙ ap (λ (i : ℕ). drop i p) {x = nslots * 3 + (j * (nslots * 3) + s * 3)}
                  {y = suc j * (nslots * 3) + s * 3} (omega arith))

-- In a ring whose buffers make up its 4096 frames, a packet of at most that many frames that
-- `jb_write` accepts is played where its timestamp says: for every frame that the DMA has not
-- passed, and every channel of the eight that a slot of the packet is for, the word of that channel
-- in the frame that the mapping gives to the sample index holds the sample of the last such slot,
-- with the output gain.
pub jb_write_lands :
    (r : Ring) (now : ℤ) (hz first nframes nslots : ℕ) (chans : List ℤ) (p : List ℕ) (s c j : ℕ)
    → Whole r r.words
    → (jb_write r now hz first nframes nslots chans p).0 ≡ true
    → nframes ≤ 4096
    → s < nslots
    → get_elem? chans s ≡ some (pos c)
    → Silent c (nslots - s - 1) (drop (s + 1) chans)
    → c < 8
    → j < nframes
    → ltb_ℤ (to_signed 64 first +ℤ pos j) (read_head r now hz) ≡ false
    → word r
        (jb_write r now hz first nframes nslots chans p).1.words
        (slot_of (to_signed 64 first +ℤ pos j) r.off)
        c
      ≡ amplify r.gain_q16 (sample (drop (j * (nslots * 3) + s * 3) p))
unfolding jb_write accept
jb_write_lands r now hz first nframes nslots chans p s c j w took few s_in is last c_in j_in late =
    let read = read_head r now hz in
    let past = to_signed 64 first -ℤ read +ℤ pos nframes in
    let P : Bool × Ring → Type 0 = λ x.
      x.0 ≡ true
      → word r x.1.words (slot_of (to_signed 64 first +ℤ pos j) r.off) c
        ≡ amplify r.gain_q16 (sample (drop (j * (nslots * 3) + s * 3) p)) in
    let all : P (jb_write r now hz first nframes nslots chans p) =
      if_both P (nframes == 0 || nslots == 0) (λ e. absurd (ground arith))
        (if_both P (not r.ready || not r.anchored) (λ e. absurd (ground arith))
          (if_both P (not (ltb_ℤ (pos 0) past)) (λ e. absurd (ground arith))
            (if_both P (ltb_ℤ (pos 2048) past) (λ e. absurd (ground arith))
              (λ _.
                put_frames_lands r nslots chans read s c s_in is last c_in nframes j p
                  (to_signed 64 first) r.words w j_in few late)))) in
    all took
