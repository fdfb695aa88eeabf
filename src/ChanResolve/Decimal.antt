-- ===== src/ChanResolve/Decimal.antt =====
-- The numbers of main/chan_resolve.c, read back from their decimal digits.
use inferno_esp32_p.ChanResolve.Numbers.{scan_digits, digit, is_digit}
use inferno_esp32_p.Prelude.{
  ℕ, List, ◌<◌, [], ◌+◌, suc, ◌++◌, ◌∷◌, ◌≡◌, arith, some, ◌*◌, ◌/◌, if_split, refl, ◌%◌,
  if◌then◌else◌, ltb, zero, ap, false, ltb→lt, Option, if_true, Bool, ◌∙◌, Bool-cases, none, inl,
  true, inr, if_false,
}

-- The decimal digits of `n`, in `fuel` of them at most.
unfoldable pub digits : ℕ → ℕ → List ℕ
digits zero n = []
digits (suc fuel) n =
    let rest = digits fuel (n / 10) ++ (48 + n % 10) ∷ [] in
    if ltb n 10 then (48 + n) ∷ [] else rest

-- printf("%u")
unfoldable pub decimal : ℕ → List ℕ
unfolding digits
decimal n = digits 10 n

pub digit_of : (d : ℕ) → d < 10 → digit 10 (48 + d) ≡ some d
unfolding digit
digit_of d h = ground arith

scan_digit :
    (acc d : ℕ) (rest : List ℕ)
    → d < 10
    → scan_digits 10 acc ((48 + d) ∷ rest) ≡ scan_digits 10 (acc * 10 + d) rest
unfolding scan_digits
scan_digit acc d rest h = rw (digit_of d h, scan_digits) refl

-- 10 ^ fuel
abbrev pub below : ℕ → ℕ
below zero = 1
below (suc fuel) = 10 * below fuel

append_assoc_one : (xs ys : List ℕ) (y : ℕ) → (xs ++ y ∷ []) ++ ys ≡ xs ++ (y ∷ ys)
append_assoc_one [] ys y = refl
append_assoc_one (x ∷ xs) ys y = ap (λ zs. x ∷ zs) (append_assoc_one xs ys y)

pub scan-digits :
    (fuel n : ℕ) (rest : List ℕ)
    → n < below fuel
    → 0 < fuel
    → scan_digits 10 0 (digits fuel n ++ rest) ≡ scan_digits 10 n rest
unfolding digits
scan-digits zero n rest h pos = absurd (omega arith)
scan-digits (suc zero) n rest h pos =
    ap (λ (ds : List ℕ). scan_digits 10 0 (ds ++ rest))
      (if_true (ltb n 10) ((48 + n) ∷ []) (digits 0 (n / 10) ++ (48 + n % 10) ∷ []) (ground arith))
    ∙ scan_digit 0 n rest (omega arith)
    ∙ ap (λ m. scan_digits 10 m rest) (omega arith)
scan-digits (suc (suc fuel)) n rest h pos = elim (Bool-cases (ltb n 10)) [
  | inl small ↦
      ap (λ (ds : List ℕ). scan_digits 10 0 (ds ++ rest))
        (if_true (ltb n 10) ((48 + n) ∷ []) (digits (suc fuel) (n / 10) ++ (48 + n % 10) ∷ [])
          small)
      ∙ scan_digit 0 n rest (ltb→lt n 10 small)
      ∙ ap (λ m. scan_digits 10 m rest) (omega arith)
  | inr large ↦
      ap (λ (ds : List ℕ). scan_digits 10 0 (ds ++ rest))
        (if_false (ltb n 10) ((48 + n) ∷ []) (digits (suc fuel) (n / 10) ++ (48 + n % 10) ∷ [])
          large)
      ∙ ap (scan_digits 10 0) (append_assoc_one (digits (suc fuel) (n / 10)) rest (48 + n % 10))
      ∙ scan-digits (suc fuel) (n / 10) ((48 + n % 10) ∷ rest) (omega arith) (omega arith)
      ∙ scan_digit (n / 10) (n % 10) rest (omega arith)
      ∙ ap (λ m. scan_digits 10 m rest) (omega arith)
]

-- A number is followed by no digit.
pub scan_stop :
    (n : ℕ) (rest : List ℕ) → is_digit 10 rest ≡ false → scan_digits 10 n rest ≡ (n, rest)
unfolding scan_digits is_digit
scan_stop n [] h = refl
scan_stop n (c ∷ cs) h = stopped (digit 10 c) h
  where
    stopped :
        (o : Option ℕ)
        → (elim o as (λ _. Bool) [ none ↦ false | some v ↦ true ]) ≡ false
        → (elim o as (λ _. ℕ × List ℕ) [
          | none ↦ (n, c ∷ cs)
          | some v ↦ scan_digits 10 (n * 10 + v) cs
        ])
          ≡ (n, c ∷ cs)
    stopped none e = refl
    stopped (some v) e = cc

-- The first digit of a number.
pub record Leads (ds : List ℕ) : Type 0 where
  pub lead : ℕ
  pub more : List ℕ
  pub is : ds ≡ (48 + lead) ∷ more
  pub small : lead < 10

pub digits-Leads : (fuel n : ℕ) → n < below (suc fuel) → Leads (digits (suc fuel) n)
unfolding digits
digits-Leads zero n h =
    if_split Leads (ltb n 10)
      (λ s. record { lead = n; more = []; is = refl; small = ltb→lt n 10 s })
      (λ large. absurd (ground arith))
digits-Leads (suc fuel) n h =
    let l = digits-Leads fuel (n / 10) (omega arith) in
    if_split Leads (ltb n 10)
      (λ s. record { lead = n; more = []; is = refl; small = ltb→lt n 10 s })
      (λ large. record {
        lead = l.lead;
        more = l.more ++ (48 + n % 10) ∷ [];
        is = ap (λ (ds : List ℕ). ds ++ (48 + n % 10) ∷ []) l.is;
        small = l.small;
      })
