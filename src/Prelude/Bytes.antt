-- ===== src/Prelude/Bytes.antt =====
-- Byte buffers: reads at an index, and the writes of a run of bytes.
use inferno_esp32_p.Prelude.{
  ℕ, zero, suc, ◌+◌, ◌≤◌, ◌<◌, ◌≡◌, ◌≢◌, refl, ap, ◌∙◌, List, [], ◌∷◌, arith, length, get_or, set,
  length-set, take, ◌++◌, drop, Bool, true, false, ◌==◌, ◌&&◌,
}

-- memcpy(buf + at, xs, n). A write past the end changes nothing.
unfoldable pub write_at : List ℕ → ℕ → List ℕ → List ℕ
write_at buf at [] = buf
write_at buf at (x ∷ xs) = write_at (set buf at x) (at + 1) xs

pub get_or-set_self : (xs : List ℕ) (i v : ℕ) → i < length xs → get_or (set xs i v) i 0 ≡ v
get_or-set_self [] i v h = absurd (omega arith)
get_or-set_self (x ∷ xs) zero v h = refl
get_or-set_self (x ∷ xs) (suc i) v h = get_or-set_self xs i v (omega arith)

pub get_or-set_ne : (xs : List ℕ) (i j v : ℕ) → i ≢ j → get_or (set xs i v) j 0 ≡ get_or xs j 0
get_or-set_ne [] i j v h = refl
get_or-set_ne (x ∷ xs) zero zero v h = absurd (h refl)
get_or-set_ne (x ∷ xs) zero (suc j) v h = refl
get_or-set_ne (x ∷ xs) (suc i) zero v h = refl
get_or-set_ne (x ∷ xs) (suc i) (suc j) v h = get_or-set_ne xs i j v (λ e. h (ap suc e))

pub length-write_at :
    (buf : List ℕ) (at : ℕ) (xs : List ℕ) → length (write_at buf at xs) ≡ length buf
unfolding write_at
length-write_at buf at [] = refl
length-write_at buf at (x ∷ xs) = length-write_at (set buf at x) (at + 1) xs ∙ length-set buf at x

-- Outside the run nothing changes.
pub get_or-write_at_before :
    (buf : List ℕ) (at : ℕ) (xs : List ℕ) (j : ℕ)
    → j < at
    → get_or (write_at buf at xs) j 0 ≡ get_or buf j 0
unfolding write_at
get_or-write_at_before buf at [] j h = refl
get_or-write_at_before buf at (x ∷ xs) j h =
    get_or-write_at_before (set buf at x) (at + 1) xs j (omega arith)
    ∙ get_or-set_ne buf at j x (omega arith)

pub get_or-write_at_after :
    (buf : List ℕ) (at : ℕ) (xs : List ℕ) (j : ℕ)
    → at + length xs ≤ j
    → get_or (write_at buf at xs) j 0 ≡ get_or buf j 0
unfolding write_at
get_or-write_at_after buf at [] j h = refl
get_or-write_at_after buf at (x ∷ xs) j h =
    get_or-write_at_after (set buf at x) (at + 1) xs j (omega arith)
    ∙ get_or-set_ne buf at j x (omega arith)

-- Inside it the bytes of the run are read back.
pub get_or-write_at :
    (buf : List ℕ) (at : ℕ) (xs : List ℕ) (i j : ℕ)
    → j ≡ at + i
    → i < length xs
    → at + length xs ≤ length buf
    → get_or (write_at buf at xs) j 0 ≡ get_or xs i 0
unfolding write_at
get_or-write_at buf at [] i j e h r = absurd (omega arith)
get_or-write_at buf at (x ∷ xs) zero j e h r =
    let e' : j ≡ at = omega arith in
    rw e' (
      get_or-write_at_before (set buf at x) (at + 1) xs at (omega arith)
      ∙ get_or-set_self buf at x (omega arith))
get_or-write_at buf at (x ∷ xs) (suc i) j e h r =
    get_or-write_at (set buf at x) (at + 1) xs i j (omega arith) (omega arith)
      (omega (arith, length-set buf at x))

pub write_at-cons :
    (y : ℕ) (ys : List ℕ) (at : ℕ) (xs : List ℕ)
    → write_at (y ∷ ys) (suc at) xs ≡ y ∷ write_at ys at xs
unfolding write_at
write_at-cons y ys at [] = refl
write_at-cons y ys at (x ∷ xs) =
    let e : suc at + 1 ≡ suc (at + 1) = omega arith in
    ap (λ k. write_at (y ∷ set ys at x) k xs) e ∙ write_at-cons y (set ys at x) (at + 1) xs

-- A run at the start of a buffer stands before what it did not reach.
pub write_at_start :
    (p xs : List ℕ) → length xs ≤ length p → write_at p 0 xs ≡ xs ++ drop (length xs) p
unfolding write_at
write_at_start p [] h = refl
write_at_start [] (x ∷ xs) h = absurd (omega arith)
write_at_start (y ∷ p) (x ∷ xs) h =
    ap (λ k. write_at (x ∷ p) k xs) (omega arith)
    ∙ write_at-cons x p 0 xs
    ∙ ap (◌∷◌ x) (write_at_start p xs (omega arith))

take-append : (xs ys : List ℕ) → take (length xs) (xs ++ ys) ≡ xs
take-append [] ys = refl
take-append (x ∷ xs) ys = ap (◌∷◌ x) (take-append xs ys)

-- The bytes up to the end of a run are those before it and the run.
pub take-write_at :
    (p : List ℕ) (at : ℕ) (xs : List ℕ) (n : ℕ)
    → n ≡ at + length xs
    → n ≤ length p
    → take n (write_at p at xs) ≡ take at p ++ xs
take-write_at p zero xs n e h =
    rw (write_at_start p xs (omega arith))
      (ap (λ k. take k (xs ++ drop (length xs) p)) e' ∙ take-append xs (drop (length xs) p))
  where
    e' : n ≡ length xs
    e' = omega arith
take-write_at [] (suc at) xs n e h = absurd (omega arith)
take-write_at (y ∷ p) (suc at) xs zero e h = absurd (omega arith)
take-write_at (y ∷ p) (suc at) xs (suc n) e h =
    rw (write_at-cons y p at xs) (ap (◌∷◌ y) (take-write_at p at xs n (omega arith) (omega arith)))

-- memcmp(a, b, n) == 0, at lists of n bytes
unfoldable pub same_bytes : List ℕ → List ℕ → Bool
same_bytes [] [] = true
same_bytes [] (y ∷ ys) = false
same_bytes (x ∷ xs) [] = false
same_bytes (x ∷ xs) (y ∷ ys) = x == y && same_bytes xs ys

pub same_bytes_refl : (xs : List ℕ) → same_bytes xs xs ≡ true
unfolding same_bytes
same_bytes_refl [] = refl
same_bytes_refl (x ∷ xs) = ground (arith, same_bytes_refl xs)

pub same_bytes-eq : (xs ys : List ℕ) → same_bytes xs ys ≡ true → xs ≡ ys
unfolding same_bytes
same_bytes-eq [] [] h = refl
same_bytes-eq [] (y ∷ ys) h = cc
same_bytes-eq (x ∷ xs) [] h = cc
same_bytes-eq (x ∷ xs) (y ∷ ys) h = ground (arith, same_bytes-eq xs ys)
