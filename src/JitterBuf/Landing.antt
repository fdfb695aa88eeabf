-- ===== src/JitterBuf/Landing.antt =====
-- Where the samples of an accepted packet land in the ring.
use inferno_esp32_p.JitterBuf.{Ring}
use inferno_esp32_p.JitterBuf.Write.{put_slots, put_frame, slot_of, amplify, sample, out_slot}
use inferno_esp32_p.JitterBuf.Rows.{Silent, put_slots_outside, put_slots_lands, length-put_slots}
use inferno_esp32_p.Prelude.{
  ℕ, List, [], ◌≡◌, ◌≢◌, get_or, sym, ◌/◌, ◌<◌, ◌^◌, ◌%◌, ◌*◌, length, ℕ_discrete, ◌+◌, ◌∙◌, ap,
  ap₂, get_or-set_other, set, get_or-set_same, arith, get_elem?, length-set, ◌⊎◌, some, ◌≤◌, dec_lt,
  ◌-◌, drop, inr, inl,
}
use inferno_esp32_p.Prelude.Int.{ℤ, pos}
use native.Mathlib.Nat.{mod-lt, mod-eq_of_lt, div-add-mod', div-lt_iff_lt-mul}

-- The word of the channel `c` in the frame that the slot `t` of the ring is.
abbrev pub word : Ring → List (List ℤ) → ℕ → ℕ → ℤ
word r ws t c =
    get_or (get_or ws (t / 2 ^ r.fshift % r.nbufs) []) (t % r.frames * 8 + out_slot c) (pos 0)

-- The buffers make up the ring of 4096 frames, each of a power of two of them.
pub record Whole (r : Ring) (ws : List (List ℤ)) : Type 0 where
  pub shift : 2 ^ r.fshift ≡ r.frames
  pub positive : 0 < r.frames
  pub total : r.nbufs * r.frames ≡ 4096
  pub bufs : length ws ≡ r.nbufs
  pub rows : (k : ℕ) → k < r.nbufs → length (get_or ws k []) ≡ r.frames * 8

pub slot-lt : (a off : ℤ) → slot_of a off < 4096
unfolding slot_of
slot-lt a off = omega arith

rows_apart : (x y o : ℕ) → x ≢ y → o < 8 → (y * 8 + o < x * 8) ⊎ (x * 8 + 8 ≤ y * 8 + o)
rows_apart x y o ne h = elim (dec_lt x y) [
  | yes lt ↦ inr (omega arith)
  | no ge ↦ inl (ground arith)
]

module _ (r : Ring) where
  abbrev buffer : ℕ → ℕ
  buffer t = t / 2 ^ r.fshift % r.nbufs

  some_bufs : (ws : List (List ℤ)) → Whole r ws → 0 < r.nbufs
  some_bufs ws w = elim (ℕ_discrete r.nbufs 0) [
    | yes none_left ↦ absurd (omega (arith, ap (λ (k : ℕ). k * r.frames) none_left, w.total))
    | no ne ↦ ground arith
  ]

  -- The number of the buffer is the whole part, as the ring is no longer than the buffers.
  buffer_lem : (ws : List (List ℤ)) (t : ℕ) → Whole r ws → t < 4096 → buffer t ≡ t / r.frames
  buffer_lem ws t w h =
      ap (λ (k : ℕ). t / k % r.nbufs) w.shift
      ∙ mod-eq_of_lt ((div-lt_iff_lt-mul w.positive).1 (omega (arith, w.total)))

  -- Slots at the same place of the same buffer are the same.
  slot_unique :
      (ws : List (List ℤ)) (t u : ℕ)
      → Whole r ws
      → t < 4096
      → u < 4096
      → buffer t ≡ buffer u
      → t % r.frames ≡ u % r.frames
      → t ≡ u
  slot_unique ws t u w h k a b =
      let q : t / r.frames ≡ u / r.frames = sym (buffer_lem ws t w h) ∙ a ∙ buffer_lem ws u w k in
      sym (div-add-mod' t r.frames)
      ∙ ap₂ (λ (x y : ℕ). x * r.frames + y) q b
      ∙ div-add-mod' u r.frames

  -- Frames of different slots have no word in common.
  pub put_frame-other :
      (nslots : ℕ) (chans : List ℤ) (p : List ℕ) (a : ℤ) (ws : List (List ℤ)) (t c : ℕ)
      → Whole r ws
      → t < 4096
      → c < 8
      → slot_of a r.off ≢ t
      → word r (put_frame r nslots chans p a ws) t c ≡ word r ws t c
  unfolding put_frame
  put_frame-other nslots chans p a ws t c w h lt ne =
      let u = slot_of a r.off in
      let new = put_slots nslots r.gain_q16 chans p (u % r.frames * 8) (get_or ws (buffer u) []) in
      elim (ℕ_discrete (buffer u) (buffer t)) [
        | no apart ↦
            ap (λ (row : List ℤ). get_or row (t % r.frames * 8 + out_slot c) (pos 0))
              (get_or-set_other ws (buffer u) (buffer t) new [] apart)
        | yes same ↦
            let away : u % r.frames ≢ t % r.frames =
              λ e. ne (slot_unique ws u t w (slot_below a) h same e) in
            ap
              (λ (k : ℕ).
                get_or (get_or (set ws (buffer u) new) k []) (t % r.frames * 8 + out_slot c)
                  (pos 0))
              (sym same)
            ∙ ap (λ (row : List ℤ). get_or row (t % r.frames * 8 + out_slot c) (pos 0))
                (get_or-set_same ws (buffer u) new [] (in_bufs u))
            ∙ put_slots_outside nslots r.gain_q16 chans p (u % r.frames * 8)
                (t % r.frames * 8 + out_slot c) (get_or ws (buffer u) [])
                (rows_apart (u % r.frames) (t % r.frames) (out_slot c) away (omega arith))
            ∙ ap (λ (k : ℕ). get_or (get_or ws k []) (t % r.frames * 8 + out_slot c) (pos 0)) same
      ]
    where
      slot_below : (b : ℤ) → slot_of b r.off < 4096
      slot_below b = slot-lt b r.off

      in_bufs : (u : ℕ) → buffer u < length ws
      in_bufs u = rw w.bufs (mod-lt (u / 2 ^ r.fshift) (some_bufs ws w))

  pub put_frame_lands :
      (nslots s c : ℕ) (chans : List ℤ) (p : List ℕ) (a : ℤ) (ws : List (List ℤ))
      → Whole r ws
      → s < nslots
      → get_elem? chans s ≡ some (pos c)
      → Silent c (nslots - s - 1) (drop (s + 1) chans)
      → c < 8
      → word r (put_frame r nslots chans p a ws) (slot_of a r.off) c
        ≡ amplify r.gain_q16 (sample (drop (s * 3) p))
  unfolding put_frame
  put_frame_lands nslots s c chans p a ws w h e q lt =
      let u = slot_of a r.off in
      let base = u % r.frames * 8 in
      let old = get_or ws (buffer u) [] in
      let new = put_slots nslots r.gain_q16 chans p base old in
      let k_in : buffer u < r.nbufs = mod-lt (u / 2 ^ r.fshift) (some_bufs ws w) in
      let i_in : u % r.frames < r.frames = mod-lt u w.positive in
      let room : base + 8 ≤ length old = rw (w.rows (buffer u) k_in) (omega arith) in
      ap (λ (row : List ℤ). get_or row (base + out_slot c) (pos 0))
        (get_or-set_same ws (buffer u) new [] (rw w.bufs k_in))
      ∙ put_slots_lands nslots r.gain_q16 s chans p base c old h e q lt room

  pub put_frame-Whole :
      (nslots : ℕ) (chans : List ℤ) (p : List ℕ) (a : ℤ) (ws : List (List ℤ))
      → Whole r ws
      → Whole r (put_frame r nslots chans p a ws)
  unfolding put_frame
  put_frame-Whole nslots chans p a ws w =
      let u = slot_of a r.off in
      let base = u % r.frames * 8 in
      let new = put_slots nslots r.gain_q16 chans p base (get_or ws (buffer u) []) in
      let k_in : buffer u < r.nbufs = mod-lt (u / 2 ^ r.fshift) (some_bufs ws w) in
      record {
        shift = w.shift;
        positive = w.positive;
        total = w.total;
        bufs = length-set ws (buffer u) new ∙ w.bufs;
        rows = λ k h. elim (ℕ_discrete (buffer u) k) [
          | yes same ↦
              ap (λ (j : ℕ). length (get_or (set ws (buffer u) new) j [])) (sym same)
              ∙ ap length (get_or-set_same ws (buffer u) new [] (rw w.bufs k_in))
              ∙ length-put_slots nslots r.gain_q16 chans p base (get_or ws (buffer u) [])
              ∙ w.rows (buffer u) k_in
          | no apart ↦ ap length (get_or-set_other ws (buffer u) k new [] apart) ∙ w.rows k h
        ];
      }
