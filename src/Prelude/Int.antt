-- ===== src/Prelude/Int.antt =====
-- Signed C integers as integers over the native numbers. Sums and orders go through the two parts
-- of an integer, which are numbers that `omega` reads.
use inferno_esp32_p.Prelude.{
  ℕ, zero, suc, ◌+◌, ◌-◌, ◌*◌, ◌/◌, ◌%◌, ◌^◌, ◌≤◌, ◌≡◌, refl, Bool, arith, ltb, leb, if◌then◌else◌,
  min, ◌⊎◌, inr, inl,
}

-- `negsuc n` is -(n + 1).
pub data ℤ : Type 0 where
  pos : ℕ → ℤ
  negsuc : ℕ → ℤ

abbrev pub pos_part : ℤ → ℕ
pos_part (pos n) = n
pos_part (negsuc n) = 0

abbrev pub neg_part : ℤ → ℕ
neg_part (pos n) = 0
neg_part (negsuc n) = suc n

-- -n
abbrev pub neg : ℕ → ℤ
neg zero = pos 0
neg (suc n) = negsuc n

-- a - b, as an integer.
abbrev pub sub_ℕ : ℕ → ℕ → ℤ
sub_ℕ a b = if leb b a then pos (a - b) else negsuc (b - a - 1)

infixl 65 ◌+ℤ◌ ◌-ℤ◌
infixl 70 ◌*ℤ◌
infix 50 ◌≤ℤ◌ ◌<ℤ◌
unfoldable pub ◌+ℤ◌ : ℤ → ℤ → ℤ
a +ℤ b = sub_ℕ (pos_part a + pos_part b) (neg_part a + neg_part b)

unfoldable pub ◌-ℤ◌ : ℤ → ℤ → ℤ
a -ℤ b = sub_ℕ (pos_part a + neg_part b) (neg_part a + pos_part b)

unfoldable pub ◌*ℤ◌ : ℤ → ℤ → ℤ
a *ℤ b =
    sub_ℕ (pos_part a * pos_part b + neg_part a * neg_part b)
      (pos_part a * neg_part b + neg_part a * pos_part b)

unfoldable pub opposite : ℤ → ℤ
opposite (pos n) = neg n
opposite (negsuc n) = pos (suc n)

-- |a|
unfoldable pub magnitude : ℤ → ℕ
magnitude a = pos_part a + neg_part a

-- a * k for k ≥ 0
unfoldable pub scale : ℤ → ℕ → ℤ
scale (pos n) k = pos (n * k)
scale (negsuc n) k = neg (suc n * k)

-- a / d for d > 0: division in C rounds towards zero.
unfoldable pub quotient : ℤ → ℕ → ℤ
quotient (pos n) d = pos (n / d)
quotient (negsuc n) d = neg (suc n / d)

-- a >> k: the shift of a negative number rounds down.
unfoldable pub shift_right : ℤ → ℕ → ℤ
shift_right (pos n) k = pos (n / 2 ^ k)
shift_right (negsuc n) k = negsuc (n / 2 ^ k)

abbrev pub ◌≤ℤ◌ : ℤ → ℤ → Type 0
a ≤ℤ b = pos_part a + neg_part b ≤ pos_part b + neg_part a

abbrev pub ◌<ℤ◌ : ℤ → ℤ → Type 0
a <ℤ b = suc (pos_part a + neg_part b) ≤ pos_part b + neg_part a

abbrev pub ltb_ℤ : ℤ → ℤ → Bool
ltb_ℤ a b = ltb (pos_part a + neg_part b) (pos_part b + neg_part a)

-- if (x > b) x = b; if (x < -b) x = -b;
unfoldable pub clamp : ℕ → ℤ → ℤ
clamp b x =
    let high = if ltb_ℤ (pos b) x then pos b else x in if ltb_ℤ high (neg b) then neg b else high

-- |x| ≤ b
abbrev pub Within : ℕ → ℤ → Type 0
Within b x = (pos_part x ≤ b) × (neg_part x ≤ b)

-- One lemma for each operation lets `omega` work with the operations shut, at any depth.
pub +ℤ_parts :
    (a b : ℤ)
    → pos_part (a +ℤ b) + neg_part a + neg_part b ≡ neg_part (a +ℤ b) + pos_part a + pos_part b
unfolding ◌+ℤ◌
+ℤ_parts a b = ground arith

pub -ℤ_parts :
    (a b : ℤ)
    → pos_part (a -ℤ b) + neg_part a + pos_part b ≡ neg_part (a -ℤ b) + pos_part a + neg_part b
unfolding ◌-ℤ◌
-ℤ_parts a b = ground arith

pub parts_apart : (a : ℤ) → (pos_part a) * (neg_part a) ≡ 0
parts_apart (pos n) = omega arith
parts_apart (negsuc n) = omega arith

pub parts_zero : (a : ℤ) → (pos_part a ≡ 0) ⊎ (neg_part a ≡ 0)
parts_zero (pos n) = inr refl
parts_zero (negsuc n) = inl refl

pub eq_of_parts : (a b : ℤ) → pos_part a + neg_part b ≡ pos_part b + neg_part a → a ≡ b
eq_of_parts a b h = ground arith

pub neg_parts : (n : ℕ) → (pos_part (neg n) ≡ 0) × (neg_part (neg n) ≡ n)
neg_parts zero = (refl, refl)
neg_parts (suc n) = (refl, refl)

pub opposite_parts :
    (a : ℤ) → (pos_part (opposite a) ≡ neg_part a) × (neg_part (opposite a) ≡ pos_part a)
unfolding opposite
opposite_parts (pos n) = neg_parts n
opposite_parts (negsuc n) = (refl, refl)

pub scale_parts :
    (a : ℤ) (k : ℕ)
    → (pos_part (scale a k) ≡ pos_part a * k) × (neg_part (scale a k) ≡ neg_part a * k)
unfolding scale
scale_parts (pos n) k = omega arith
scale_parts (negsuc n) k = omega (arith, neg_parts (suc n * k))

pub quotient_parts :
    (a : ℤ) (d : ℕ)
    → (pos_part (quotient a d) ≡ pos_part a / d) × (neg_part (quotient a d) ≡ neg_part a / d)
unfolding quotient
quotient_parts (pos n) zero = omega arith
quotient_parts (pos n) (suc d) = omega arith
quotient_parts (negsuc n) zero = omega (arith, neg_parts (suc n / 0))
quotient_parts (negsuc n) (suc d) = omega (arith, neg_parts (suc n / suc d))

pub clamp-Within : (b : ℕ) (x : ℤ) → Within b (clamp b x)
unfolding clamp
clamp-Within b x = ground (arith, neg_parts b)

pub clamp-eq_of_Within : (b : ℕ) (x : ℤ) → Within b x → clamp b x ≡ x
unfolding clamp
clamp-eq_of_Within b x h = ground (arith, neg_parts b)

pub clamp_parts :
    (b : ℕ) (x : ℤ)
    → (pos_part (clamp b x) ≡ min b (pos_part x)) × (neg_part (clamp b x) ≡ min b (neg_part x))
unfolding clamp
clamp_parts b x = ground (arith, neg_parts b)

pub ruleset int_laws =
    (arith, +ℤ_parts, -ℤ_parts, eq_of_parts, neg_parts, opposite_parts, scale_parts, quotient_parts)
