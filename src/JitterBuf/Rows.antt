-- ===== src/JitterBuf/Rows.antt =====
-- What one frame of a packet does to the row of words that it is written to.
use inferno_esp32_p.JitterBuf.Write.{put_slots, amplify, sample, out_slot, is_local}
use inferno_esp32_p.Prelude.{
  ℕ, zero, suc, List, [], ◌∷◌, ◌≡◌, ◌≢◌, if◌then◌else◌, length, true, ◌<◌, arith, drop, get_elem?,
  get_or, if_both, set, ◌+◌, ◌⊎◌, ap, if_split, length-set, some, ◌∙◌, ◌≤◌, get_or-set_other,
  if_true, refl, ◌-◌, get_or-set_same, ◌*◌, subst, drop-drop,
}
use inferno_esp32_p.Prelude.Int.{ℤ, pos, pos_part, parts_zero, negsuc}
use mathlib.Core.Option.{some-injective, none-ne-some}

-- None of the first `n` slots is for channel `c`.
abbrev pub Silent : ℕ → ℕ → List ℤ → Type 0
Silent c zero chans = Unit {0}
Silent c (suc n) [] = Unit {0}
Silent c (suc n) (ch ∷ chans) = (ch ≢ pos c) × Silent c n chans

-- One slot's write.
abbrev put_slot : ℕ → ℤ → List ℕ → ℕ → List ℤ → List ℤ
put_slot gain ch p base ws =
    if is_local ch then set ws (base + out_slot (pos_part ch)) (amplify gain (sample p)) else ws

length-put_slot :
    (gain : ℕ) (ch : ℤ) (p : List ℕ) (base : ℕ) (ws : List ℤ)
    → length (put_slot gain ch p base ws) ≡ length ws
length-put_slot gain ch p base ws =
    if_both (λ (x : List ℤ). length x ≡ length ws) (is_local ch)
      (length-set ws (base + out_slot (pos_part ch)) (amplify gain (sample p))) refl

pub length-put_slots :
    (n gain : ℕ) (chans : List ℤ) (p : List ℕ) (base : ℕ) (ws : List ℤ)
    → length (put_slots n gain chans p base ws) ≡ length ws
unfolding put_slots
length-put_slots zero gain chans p base ws = refl
length-put_slots (suc n) gain [] p base ws = refl
length-put_slots (suc n) gain (ch ∷ chans) p base ws =
    length-put_slots n gain chans (drop 3 p) base (put_slot gain ch p base ws)
    ∙ length-put_slot gain ch p base ws

local_range : (ch : ℤ) → is_local ch ≡ true → pos_part ch < 8
unfolding is_local
local_range ch h = ground (arith, parts_zero ch)

put_slot_outside :
    (gain : ℕ) (ch : ℤ) (p : List ℕ) (base i : ℕ) (ws : List ℤ)
    → (i < base) ⊎ (base + 8 ≤ i)
    → get_or (put_slot gain ch p base ws) i (pos 0) ≡ get_or ws i (pos 0)
put_slot_outside gain ch p base i ws h =
    if_split (λ (x : List ℤ). get_or x i (pos 0) ≡ get_or ws i (pos 0)) (is_local ch)
      (λ l.
        let lt = local_range ch l in
        get_or-set_other ws (base + out_slot (pos_part ch)) i (amplify gain (sample p)) (pos 0)
          (λ e. absurd (ground arith)))
      (λ _. refl)

-- Outside the row nothing changes.
pub put_slots_outside :
    (n gain : ℕ) (chans : List ℤ) (p : List ℕ) (base i : ℕ) (ws : List ℤ)
    → (i < base) ⊎ (base + 8 ≤ i)
    → get_or (put_slots n gain chans p base ws) i (pos 0) ≡ get_or ws i (pos 0)
unfolding put_slots
put_slots_outside zero gain chans p base i ws h = refl
put_slots_outside (suc n) gain [] p base i ws h = refl
put_slots_outside (suc n) gain (ch ∷ chans) p base i ws h =
    put_slots_outside n gain chans (drop 3 p) base i (put_slot gain ch p base ws) h
    ∙ put_slot_outside gain ch p base i ws h

local_channel : (c : ℕ) (ch : ℤ) → is_local ch ≡ true → pos_part ch ≡ c → ch ≡ pos c
unfolding is_local
local_channel c (pos n) l e = ap pos e
local_channel c (negsuc n) l e = absurd (ground arith)

put_slot-other :
    (gain : ℕ) (ch : ℤ) (p : List ℕ) (base c : ℕ) (ws : List ℤ)
    → c < 8
    → ch ≢ pos c
    → get_or (put_slot gain ch p base ws) (base + out_slot c) (pos 0)
      ≡ get_or ws (base + out_slot c) (pos 0)
put_slot-other gain ch p base c ws lt h =
    if_split
      (λ (x : List ℤ). get_or x (base + out_slot c) (pos 0) ≡ get_or ws (base + out_slot c) (pos 0))
      (is_local ch)
      (λ l.
        let lt' = local_range ch l in
        get_or-set_other ws (base + out_slot (pos_part ch)) (base + out_slot c)
          (amplify gain (sample p)) (pos 0) (λ e. h (local_channel c ch l (omega (arith, e)))))
      (λ _. refl)

-- A channel that no slot is for keeps its word.
put_slots-Silent :
    (n gain : ℕ) (chans : List ℤ) (p : List ℕ) (base c : ℕ) (ws : List ℤ)
    → c < 8
    → Silent c n chans
    → get_or (put_slots n gain chans p base ws) (base + out_slot c) (pos 0)
      ≡ get_or ws (base + out_slot c) (pos 0)
unfolding put_slots
put_slots-Silent zero gain chans p base c ws lt h = refl
put_slots-Silent (suc n) gain [] p base c ws lt h = refl
put_slots-Silent (suc n) gain (ch ∷ chans) p base c ws lt h =
    put_slots-Silent n gain chans (drop 3 p) base c (put_slot gain ch p base ws) lt h.1
    ∙ put_slot-other gain ch p base c ws lt h.0

is_local_pos : (c : ℕ) → c < 8 → is_local (pos c) ≡ true
unfolding is_local
is_local_pos c h = ground arith

put_slot_lands :
    (gain : ℕ) (p : List ℕ) (base c : ℕ) (ws : List ℤ)
    → c < 8
    → base + 8 ≤ length ws
    → get_or (put_slot gain (pos c) p base ws) (base + out_slot c) (pos 0) ≡ amplify gain (sample p)
put_slot_lands gain p base c ws lt h =
    ap (λ (x : List ℤ). get_or x (base + out_slot c) (pos 0))
      (if_true (is_local (pos c)) _ _ (is_local_pos c lt))
    ∙ get_or-set_same ws (base + out_slot c) (amplify gain (sample p)) (pos 0) (omega arith)

-- The last slot that is for channel `c` gives its word.
pub put_slots_lands :
    (n gain s : ℕ) (chans : List ℤ) (p : List ℕ) (base c : ℕ) (ws : List ℤ)
    → s < n
    → get_elem? chans s ≡ some (pos c)
    → Silent c (n - s - 1) (drop (s + 1) chans)
    → c < 8
    → base + 8 ≤ length ws
    → get_or (put_slots n gain chans p base ws) (base + out_slot c) (pos 0)
      ≡ amplify gain (sample (drop (s * 3) p))
unfolding put_slots
put_slots_lands zero gain s chans p base c ws h e q lt r = absurd (omega arith)
put_slots_lands (suc n) gain s [] p base c ws h e q lt r = absurd (none-ne-some (pos c) e)
put_slots_lands (suc n) gain zero (ch ∷ chans) p base c ws h e q lt r =
    let is : ch ≡ pos c = some-injective ch (pos c) e in
    let k : suc n - 0 - 1 ≡ n = omega arith in
    put_slots-Silent n gain chans (drop 3 p) base c (put_slot gain ch p base ws) lt
      (subst (λ (m : ℕ). Silent c m chans) k q)
    ∙ ap (λ (x : ℤ). get_or (put_slot gain x p base ws) (base + out_slot c) (pos 0)) is
    ∙ put_slot_lands gain p base c ws lt r
put_slots_lands (suc n) gain (suc s) (ch ∷ chans) p base c ws h e q lt r =
    let k : suc n - suc s - 1 ≡ n - s - 1 = omega arith in
    let j : suc s + 1 ≡ suc (s + 1) = omega arith in
    put_slots_lands n gain s chans (drop 3 p) base c (put_slot gain ch p base ws) (omega arith) e
      (subst (λ (m : ℕ). Silent c m (drop (s + 1) chans)) k
        (subst (λ (m : ℕ). Silent c (suc n - suc s - 1) (drop m (ch ∷ chans))) j q))
      lt (omega (arith, length-put_slot gain ch p base ws))
    ∙ ap (λ (x : List ℕ). amplify gain (sample x))
        (drop-drop (s * 3) 3 p ∙ ap (λ m. drop m p) {x = 3 + s * 3} {y = suc s * 3} (omega arith))
