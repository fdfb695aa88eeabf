-- ===== src/ChanResolve/Numbers.antt =====
-- The numbers in the TXT records that main/chan_resolve.c reads: strtoul and sscanf("%u,%u"), as the
-- C library of a 32-bit machine has them.
use inferno_esp32_p.Prelude.{
  ℕ, Bool, Option, none, some, true, false, List, [], ◌∷◌, ◌+◌, ◌-◌, ◌*◌, ◌%◌, ◌^◌, ◌==◌, ◌&&◌,
  ◌||◌, ltb, leb, if◌then◌else◌,
}

abbrev pub is_space : ℕ → Bool
is_space c = c == 32 || leb 9 c && leb c 13

unfoldable pub skip_space : List ℕ → List ℕ
skip_space [] = []
skip_space (c ∷ cs) = let rest = skip_space cs in if is_space c then rest else c ∷ cs

-- The value of a digit in a base of up to 16.
unfoldable pub digit : ℕ → ℕ → Option ℕ
digit base c =
    let v =
      if leb 48 c && leb c 57
      then c - 48
      else if leb 97 c && leb c 102
      then c - 87
      else if leb 65 c && leb c 70
      then c - 55
      else 16 in
    if ltb v base then some v else none

-- The digits at the head, after the number `acc`, and what follows them.
unfoldable pub scan_digits : ℕ → ℕ → List ℕ → ℕ × List ℕ
scan_digits base acc [] = (acc, [])
scan_digits base acc (c ∷ cs) = elim (digit base c) [
  | none ↦ (acc, c ∷ cs)
  | some v ↦ scan_digits base (acc * base + v) cs
]

-- A number that does not fit is the largest; a minus sign negates modulo 2 ^ 32.
unfoldable pub as_u32 : Bool → ℕ → ℕ
as_u32 negative n =
    if leb (2 ^ 32) n then 2 ^ 32 - 1 else if negative then (2 ^ 32 - n) % 2 ^ 32 else n

-- The sign, and what follows it.
unfoldable pub sign : List ℕ → Bool × List ℕ
sign [] = (false, [])
sign (c ∷ cs) = if c == b'-' then (true, cs) else if c == b'+' then (false, cs) else (false, c ∷ cs)

unfoldable pub is_digit : ℕ → List ℕ → Bool
unfolding digit
is_digit base [] = false
is_digit base (c ∷ cs) = elim (digit base c) [ none ↦ false | some v ↦ true ]

-- The base that a prefix gives, and what follows it: 0x before a hexadecimal digit, or 0.
unfoldable pub prefix : List ℕ → ℕ × List ℕ
unfolding is_digit
prefix (z ∷ x ∷ cs) =
    if z == b'0' && (x == b'x' || x == b'X') && is_digit 16 cs
    then (16, cs)
    else if z == b'0'
    then (8, z ∷ x ∷ cs)
    else (10, z ∷ x ∷ cs)
prefix cs = (10, cs)

-- strtoul(s, NULL, 0)
unfoldable pub strtoul_any : List ℕ → ℕ
unfolding skip_space sign prefix scan_digits as_u32
strtoul_any s =
    let (negative, cs) = sign (skip_space s) in
    let (base, ds) = prefix cs in as_u32 negative (scan_digits base 0 ds).0

-- strtoul(s, NULL, 10)
unfoldable pub strtoul_10 : List ℕ → ℕ
unfolding skip_space sign scan_digits as_u32
strtoul_10 s = let (negative, cs) = sign (skip_space s) in as_u32 negative (scan_digits 10 0 cs).0

-- "%u": a number and what follows it, or none where there is no digit.
unfoldable pub scan_u : List ℕ → Option (ℕ × List ℕ)
unfolding skip_space sign is_digit scan_digits as_u32
scan_u s =
    let (negative, cs) = sign (skip_space s) in
    let (n, rest) = scan_digits 10 0 cs in
    if is_digit 10 cs then some (as_u32 negative n, rest) else none

-- The comma that the format wants.
unfoldable pub after_comma : List ℕ → Option (List ℕ)
after_comma [] = none
after_comma (c ∷ cs) = if c == b',' then some cs else none

-- sscanf(s, "%u,%u", &mx, &mn) == 2, with both numbers
unfoldable pub scan_pair : List ℕ → Option (ℕ × ℕ)
unfolding scan_u after_comma
scan_pair s = elim (scan_u s) [
  | none ↦ none
  | some (mx, rest) ↦ elim (after_comma rest) [
    | none ↦ none
    | some rest' ↦ elim (scan_u rest') [ none ↦ none | some (mn, _) ↦ some (mx, mn) ]
  ]
]
