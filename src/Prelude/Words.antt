-- ===== src/Prelude/Words.antt =====
-- Casts between C integer types, and unsigned counters that wrap.
use inferno_esp32_p.Prelude.{ℕ, ◌+◌, ◌-◌, ◌%◌, ◌^◌, ◌≡◌, arith, ltb, if◌then◌else◌}
use inferno_esp32_p.Prelude.Int.{ℤ, pos, negsuc, Within}

-- x++ on uint8_t, uint16_t, uint32_t
abbrev pub inc8 : ℕ → ℕ
inc8 n = (n + 1) % 2 ^ 8

abbrev pub inc16 : ℕ → ℕ
inc16 n = (n + 1) % 2 ^ 16

abbrev pub inc32 : ℕ → ℕ
inc32 n = (n + 1) % 2 ^ 32

-- The pattern of w bits that a signed number is cast to.
unfoldable pub to_unsigned : ℕ → ℤ → ℕ
to_unsigned w (pos n) = n % 2 ^ w
to_unsigned w (negsuc n) = 2 ^ w - 1 - n % 2 ^ w

-- The number that a pattern of w bits stands for in two's complement.
unfoldable pub to_signed : ℕ → ℕ → ℤ
to_signed w n =
    if ltb (n % 2 ^ w) (2 ^ (w - 1)) then pos (n % 2 ^ w) else negsuc (2 ^ w - 1 - n % 2 ^ w)

-- (int32_t)x
unfoldable pub to_i32 : ℤ → ℤ
unfolding to_unsigned to_signed
to_i32 x = to_signed 32 (to_unsigned 32 x)

-- The cast keeps a number that fits.
pub to_i32-eq_of_Within : (x : ℤ) → Within (2 ^ 31 - 1) x → to_i32 x ≡ x
unfolding to_i32
to_i32-eq_of_Within (pos n) h = ground arith
to_i32-eq_of_Within (negsuc n) h = ground arith
