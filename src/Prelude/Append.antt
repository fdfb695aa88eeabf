-- ===== src/Prelude/Append.antt =====
-- Parts of two lists put together, found again.
use inferno_esp32_p.Prelude.{
  ℕ, zero, suc, List, ◌++◌, ◌<◌, ◌≡◌, ◌≤◌, [], length, ◌∷◌, ap, drop, get_or, take, ◌+◌, arith,
  refl,
}

pub drop-append : (xs ys : List ℕ) (n k : ℕ) → n ≡ length xs + k → drop n (xs ++ ys) ≡ drop k ys
drop-append [] ys n k e = ap (λ i. drop i ys) (omega (arith, e))
drop-append (x ∷ xs) ys zero k e = absurd (omega arith)
drop-append (x ∷ xs) ys (suc n) k e = drop-append xs ys n k (omega arith)

-- Within the first list.
pub drop-append_left :
    (xs ys : List ℕ) (n : ℕ) → n ≤ length xs → drop n (xs ++ ys) ≡ drop n xs ++ ys
drop-append_left xs ys zero h = refl
drop-append_left [] ys (suc n) h = absurd (omega arith)
drop-append_left (x ∷ xs) ys (suc n) h = drop-append_left xs ys n (omega arith)

pub take-append_left : (xs ys : List ℕ) (n : ℕ) → n ≤ length xs → take n (xs ++ ys) ≡ take n xs
take-append_left xs ys zero h = refl
take-append_left [] ys (suc n) h = absurd (omega arith)
take-append_left (x ∷ xs) ys (suc n) h = ap (λ zs. x ∷ zs) (take-append_left xs ys n (omega arith))

pub take_all : (xs : List ℕ) (n : ℕ) → n ≡ length xs → take n xs ≡ xs
take_all [] zero e = refl
take_all [] (suc n) e = refl
take_all (x ∷ xs) zero e = absurd (omega arith)
take_all (x ∷ xs) (suc n) e = ap (λ zs. x ∷ zs) (take_all xs n (omega arith))

pub get_or-append :
    (xs ys : List ℕ) (n i : ℕ) → n ≡ length xs + i → get_or (xs ++ ys) n 0 ≡ get_or ys i 0
get_or-append [] ys n i e = ap (λ k. get_or ys k 0) (omega (arith, e))
get_or-append (x ∷ xs) ys zero i e = absurd (omega arith)
get_or-append (x ∷ xs) ys (suc n) i e = get_or-append xs ys n i (omega arith)

pub get_or-append_left :
    (xs ys : List ℕ) (n : ℕ) → n < length xs → get_or (xs ++ ys) n 0 ≡ get_or xs n 0
get_or-append_left [] ys n h = absurd (omega arith)
get_or-append_left (x ∷ xs) ys zero h = refl
get_or-append_left (x ∷ xs) ys (suc n) h = get_or-append_left xs ys n (omega arith)

pub append_nil : (xs : List ℕ) → xs ++ [] ≡ xs
append_nil [] = refl
append_nil (x ∷ xs) = ap (λ zs. x ∷ zs) (append_nil xs)

pub append_cons : (xs ys : List ℕ) (y : ℕ) → xs ++ (y ∷ []) ++ ys ≡ xs ++ (y ∷ ys)
append_cons [] ys y = refl
append_cons (x ∷ xs) ys y = ap (λ zs. x ∷ zs) (append_cons xs ys y)

pub take-take : (a b : ℕ) (xs : List ℕ) → a ≤ b → take a (take b xs) ≡ take a xs
take-take zero b xs h = refl
take-take (suc a) zero xs h = absurd (omega arith)
take-take (suc a) (suc b) [] h = refl
take-take (suc a) (suc b) (x ∷ xs) h = ap (λ zs. x ∷ zs) (take-take a b xs (omega arith))
