-- ===== src/ChanResolve/Fpp.antt =====
-- The fpp item of main/chan_resolve.c, read back from its decimal digits.
use inferno_esp32_p.ChanResolve.{TxChannel}
use inferno_esp32_p.ChanResolve.Numbers.{
  scan_digits, digit, is_digit, scan_u, scan_pair, sign, skip_space, after_comma, as_u32, is_space,
}
use inferno_esp32_p.ChanResolve.Answers.{Txt, parse_fpp, find_txt, value_for}
use inferno_esp32_p.Prelude.{
  ℕ, List, ◌<◌, [], ◌+◌, ◌^◌, ◌++◌, ◌∷◌, ◌≡◌, arith, some, refl, ◌%◌, if◌then◌else◌, ap, false,
  Option, if_true, Bool, ◌∙◌, none, true, if_false, leb, subst, sym, ◌-◌,
}
use inferno_esp32_p.Prelude.Bytes.{same_bytes}
use inferno_esp32_p.Prelude.Append.{append_nil}
use inferno_esp32_p.ChanResolve.Decimal.{
  digits, decimal, digit_of, scan-digits, scan_stop, digits-Leads,
}

-- What `scan_u` makes of what follows the sign.
abbrev scan_after : Bool × List ℕ → Option (ℕ × List ℕ)
scan_after p =
    if is_digit 10 p.1
    then some (as_u32 p.0 (scan_digits 10 0 p.1).0, (scan_digits 10 0 p.1).1)
    else none

scan_u-after : (s : List ℕ) → scan_u s ≡ scan_after (sign (skip_space s))
unfolding scan_u
scan_u-after s = refl

no_space : (d : ℕ) (cs : List ℕ) → d < 10 → skip_space ((48 + d) ∷ cs) ≡ (48 + d) ∷ cs
unfolding skip_space
no_space d cs h = if_false (is_space (48 + d)) (skip_space cs) ((48 + d) ∷ cs) (ground arith)

no_sign : (d : ℕ) (cs : List ℕ) → d < 10 → sign ((48 + d) ∷ cs) ≡ (false, (48 + d) ∷ cs)
unfolding sign
no_sign d cs h = ground arith

leads_digit : (d : ℕ) (cs : List ℕ) → d < 10 → is_digit 10 ((48 + d) ∷ cs) ≡ true
unfolding is_digit
leads_digit d cs h = rw (digit_of d h, is_digit) refl

as_u32_small : (n : ℕ) → n < 2 ^ 32 → as_u32 false n ≡ n
unfolding as_u32
as_u32_small n h = if_false (leb (2 ^ 32) n) (2 ^ 32 - 1) n (ground arith)

scan_leading :
    (d : ℕ) (cs : List ℕ)
    → d < 10
    → scan_u ((48 + d) ∷ cs)
      ≡ some
          (as_u32 false (scan_digits 10 0 ((48 + d) ∷ cs)).0, (scan_digits 10 0 ((48 + d) ∷ cs)).1)
scan_leading d cs h =
    scan_u-after ((48 + d) ∷ cs)
    ∙ ap (λ xs. scan_after (sign xs)) (no_space d cs h)
    ∙ ap scan_after (no_sign d cs h)
    ∙ if_true (is_digit 10 ((48 + d) ∷ cs)) _ none (leads_digit d cs h)

-- A number in decimal digits is scanned as it is.
scan_u-decimal :
    (n : ℕ) (rest : List ℕ)
    → n < 2 ^ 32
    → is_digit 10 rest ≡ false
    → scan_u (decimal n ++ rest) ≡ some (n, rest)
unfolding decimal
scan_u-decimal n rest h stop =
    let l = digits-Leads 9 n (omega arith) in
    let is : digits 10 n ++ rest ≡ (48 + l.lead) ∷ (l.more ++ rest) =
      ap (λ (ds : List ℕ). ds ++ rest) l.is in
    let scanned : scan_digits 10 0 (digits 10 n ++ rest) ≡ (n, rest) =
      scan-digits 10 n rest (omega arith) (omega arith) ∙ scan_stop n rest stop in
    subst (λ (ds : List ℕ). scan_digits 10 0 ds ≡ (n, rest) → scan_u ds ≡ some (n, rest)) (sym is)
      (λ e.
        scan_leading l.lead (l.more ++ rest) l.small
        ∙ ap (λ (p : ℕ × List ℕ). some (as_u32 false p.0, p.1)) e
        ∙ ap (λ m. some (m, rest)) (as_u32_small n h))
      scanned

-- What `scan_pair` makes of its first number.
abbrev pair_after : Option (ℕ × List ℕ) → Option (ℕ × ℕ)
pair_after o = elim o [
  | none ↦ none
  | some (mx, rest) ↦ elim (after_comma rest) [
    | none ↦ none
    | some rest' ↦ elim (scan_u rest') [ none ↦ none | some (mn, _) ↦ some (mx, mn) ]
  ]
]

-- "<MAX>,<MIN>" is scanned as the two numbers.
scan_pair-decimal :
    (mx mn : ℕ)
    → mx < 2 ^ 32
    → mn < 2 ^ 32
    → scan_pair (decimal mx ++ (b',' ∷ decimal mn)) ≡ some (mx, mn)
unfolding scan_pair after_comma is_digit digit
scan_pair-decimal mx mn hx hn =
    let second : scan_u (decimal mn) ≡ some (mn, []) =
      subst (λ (ds : List ℕ). scan_u ds ≡ some (mn, [])) (append_nil (decimal mn))
        (scan_u-decimal mn [] hn refl) in
    ap pair_after (scan_u-decimal mx (b',' ∷ decimal mn) hx refl)
    ∙ ap
        (λ (o : Option (ℕ × List ℕ)). elim o as (λ _. Option (ℕ × ℕ)) [
          | none ↦ none
          | some (mn, _) ↦ some (mx, mn)
        ])
        second

-- No earlier item has the key with a value.
abbrev pub NoValue : List ℕ → List Txt → Type 0
NoValue key [] = Unit {0}
NoValue key (t ∷ ts) = (value_for key t ≡ none) × NoValue key ts

find_txt-append :
    (key : List ℕ) (before after : List Txt) (t : Txt) (v : List ℕ)
    → NoValue key before
    → value_for key t ≡ some v
    → find_txt key (before ++ t ∷ after) ≡ some v
unfolding find_txt
find_txt-append key [] after t v none_before is = rw (is, find_txt) refl
find_txt-append key (b ∷ before) after t v none_before is =
    rw (none_before.0, find_txt) (find_txt-append key before after t v none_before.1 is)

-- What `parse_fpp` makes of the value it finds.
abbrev fpp_after : TxChannel → Option (List ℕ) → TxChannel
fpp_after out o = elim o [
  | none ↦ record out { fpp_max = 16; fpp_min = 2 }
  | some v ↦ elim (scan_pair v) [
    | none ↦ record out { fpp_max = 16; fpp_min = 2 }
    | some (mx, mn) ↦ record out { fpp_max = mx % 2 ^ 16; fpp_min = mn % 2 ^ 16 }
  ]
]

-- The item "fpp=<MAX>,<MIN>" with two 16-bit numbers in decimal digits gives these numbers, behind
-- any items that are not a value for "fpp" and before any others.
pub parse_fpp-decimal :
    (before after : List Txt) (mx mn : ℕ) (out : TxChannel)
    → mx < 2 ^ 16
    → mn < 2 ^ 16
    → NoValue (b'f' ∷ b'p' ∷ b'p' ∷ []) before
    → parse_fpp
        (before
          ++ record {
            key = some (b'f' ∷ b'p' ∷ b'p' ∷ []);
            value = some (decimal mx ++ (b',' ∷ decimal mn));
          }
            ∷ after)
        out
      ≡ record out { fpp_max = mx; fpp_min = mn }
unfolding parse_fpp value_for same_bytes
parse_fpp-decimal before after mx mn out hx hn none_before =
    let item : Txt = record {
      key = some (b'f' ∷ b'p' ∷ b'p' ∷ []);
      value = some (decimal mx ++ (b',' ∷ decimal mn));
    } in
    ap (fpp_after out) (
      find_txt-append (b'f' ∷ b'p' ∷ b'p' ∷ []) before after item
        (decimal mx ++ (b',' ∷ decimal mn)) none_before refl)
    ∙ ap
        (λ (o : Option (ℕ × ℕ)). elim o as (λ _. TxChannel) [
          | none ↦ record out { fpp_max = 16; fpp_min = 2 }
          | some (mx, mn) ↦ record out { fpp_max = mx % 2 ^ 16; fpp_min = mn % 2 ^ 16 }
        ])
        (scan_pair-decimal mx mn (omega arith) (omega arith))
    ∙ ap (λ a. record out { fpp_max = a; fpp_min = mn % 2 ^ 16 }) {x = mx % 2 ^ 16} {y = mx}
        (omega arith)
    ∙ ap (λ b. record out { fpp_max = mx; fpp_min = b }) {x = mn % 2 ^ 16} {y = mn} (omega arith)
