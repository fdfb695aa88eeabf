-- ===== src/JitterBuf/Gain.antt =====
-- The output gain: its range, and that it clips instead of wrapping.
use inferno_esp32_p.JitterBuf.{Ring, gain_apply}
use inferno_esp32_p.JitterBuf.Write.{amplify}
use inferno_esp32_p.Prelude.{
  ℕ, ◌≡◌, ◌<◌, ◌^◌, ◌≤◌, ◌-◌, ℕ_discrete, ap, arith, if◌then◌else◌, subst, suc, sym, if_false, ◌*◌,
  ◌+◌, ◌==◌, refl,
}
use inferno_esp32_p.Prelude.Int.{
  ℤ, pos_part, shift_right, scale, neg_part, pos, neg, negsuc, ◌≤ℤ◌, ltb_ℤ, parts_zero,
}

-- The exact product, rounded down to a whole number.
abbrev pub exact : ℕ → ℤ → ℤ
exact gain v = shift_right (scale v gain) 16

-- What the clip makes of the exact product.
abbrev pub Clipped : ℤ → ℤ → Type 0
Clipped g r =
    (pos_part r < 2 ^ 31)
    × (neg_part r ≤ 2 ^ 31)
    × (pos_part g < 2 ^ 31 → neg_part g ≤ 2 ^ 31 → r ≡ g)
    × (2 ^ 31 ≤ pos_part g → r ≡ pos (2 ^ 31 - 1))
    × (2 ^ 31 < neg_part g → r ≡ neg (2 ^ 31))

clip_lem :
    (g : ℤ)
    → Clipped g (
        if ltb_ℤ (pos (2 ^ 31 - 1)) g
        then pos (2 ^ 31 - 1)
        else if ltb_ℤ g (neg (2 ^ 31))
        then neg (2 ^ 31)
        else g)
clip_lem g = ground (arith, parts_zero g)

exact_unit : (a : ℤ) → exact 65536 a ≡ a
unfolding shift_right scale
exact_unit (pos n) = ap pos (omega arith)
exact_unit (negsuc n) =
    let e : suc n * 65536 ≡ suc (n * 65536 + 65535) = omega arith in rw e (ap negsuc (omega arith))

-- A word of 32 bits stays one whatever the gain, and is the exact product rounded down where that
-- fits into one; else it is the full scale of the product's sign.
pub amplify_lem :
    (gain : ℕ) (v : ℤ)
    → pos_part v < 2 ^ 31
    → neg_part v ≤ 2 ^ 31
    → Clipped (exact gain v) (amplify gain v)
unfolding amplify
amplify_lem gain v h k = elim (ℕ_discrete gain 65536) [
  | yes unit ↦
      subst (λ (n : ℕ). Clipped (exact n v) (amplify n v)) (sym unit)
        (subst (λ g. Clipped g v) (sym (exact_unit v)) (in_range h k))
  | no other ↦
      subst (Clipped (exact gain v)) (sym (if_false (gain == 65536) _ _ (ground arith)))
        (clip_lem (exact gain v))
]
  where
    in_range : pos_part v < 2 ^ 31 → neg_part v ≤ 2 ^ 31 → Clipped v v
    in_range a b = (a, b, λ _ _. refl, λ big. absurd (omega arith), λ low. absurd (omega arith))

-- The gain that is kept is within -60..4 dB, and the factor that of it, or 0 when muted.
pub gain_apply_lem :
    (of_db : ℤ → ℕ) (r : Ring) (db : ℤ)
    → let r' = gain_apply of_db r db in
      (neg 60 ≤ℤ r'.gain_db)
      × (r'.gain_db ≤ℤ pos 4)
      × (r'.gain_q16 ≡ (if r.mute then 0 else of_db r'.gain_db))
unfolding gain_apply
gain_apply_lem of_db r db = ground arith
