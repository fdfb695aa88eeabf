-- ===== src/Servo/LowEdge.antt =====
-- What the low-edge filter returns: a sample with at most one sample below it, and at least one
-- other at or below it.
use mathlib.Core.List.{reverse, reverse-cons}
use inferno_esp32_p.Servo.Window.{
  sift, sort_onto, rank, low_edge, newest, in_use, store, samples, window_push,
}
use inferno_esp32_p.Prelude.Int.{ℤ, ◌≤ℤ◌, pos, ltb_ℤ, ◌+ℤ◌, ◌-ℤ◌}
use inferno_esp32_p.Prelude.{
  ℕ, ◌≡◌, ◌≤◌, arith, if◌then◌else◌, min, ◌+◌, length-append, length, refl, List, [], get_or, ◌++◌,
  ◌<◌, ◌∷◌, ◌≢◌, set, suc, ◌%◌, ◌-◌, ap₂, ap, ◌∙◌, zero,
}
use inferno_esp32_p.Servo.{Servo, IsValid}

-- How many samples lie below `v`, and how many at or below it.
abbrev pub below : ℤ → List ℤ → ℕ
below v [] = 0
below v (x ∷ xs) = (if ltb_ℤ x v then 1 else 0) + below v xs

abbrev pub up_to : ℤ → List ℤ → ℕ
up_to v [] = 0
up_to v (x ∷ xs) = (if ltb_ℤ v x then 0 else 1) + up_to v xs

abbrev AllAtMost : ℤ → List ℤ → Type 0
AllAtMost b [] = Unit {0}
AllAtMost b (x ∷ xs) = (x ≤ℤ b) × AllAtMost b xs

abbrev AllAtLeast : ℤ → List ℤ → Type 0
AllAtLeast b [] = Unit {0}
AllAtLeast b (x ∷ xs) = (b ≤ℤ x) × AllAtLeast b xs

abbrev Falling : List ℤ → Type 0
Falling [] = Unit {0}
Falling (x ∷ xs) = AllAtMost x xs × Falling xs

abbrev Rising : List ℤ → Type 0
Rising [] = Unit {0}
Rising (x ∷ xs) = AllAtLeast x xs × Rising xs

AllAtMost-mono : (a b : ℤ) (xs : List ℤ) → a ≤ℤ b → AllAtMost a xs → AllAtMost b xs
AllAtMost-mono a b [] h w = tt
AllAtMost-mono a b (x ∷ xs) h w = (omega arith, AllAtMost-mono a b xs h w.1)

sift-AllAtMost : (b k : ℤ) (xs : List ℤ) → k ≤ℤ b → AllAtMost b xs → AllAtMost b (sift k xs)
unfolding sift
sift-AllAtMost b k [] h w = (h, tt)
sift-AllAtMost b k (x ∷ xs) h w = ground (arith, sift-AllAtMost b k xs h w.1)

sift-Falling : (k : ℤ) (xs : List ℤ) → Falling xs → Falling (sift k xs)
unfolding sift
sift-Falling k [] w = (tt, tt)
sift-Falling k (x ∷ xs) w =
    ground (arith, sift-Falling k xs w.1, sift-AllAtMost x k xs, AllAtMost-mono x k xs)

sort_onto-Falling : (prefix xs : List ℤ) → Falling prefix → Falling (sort_onto prefix xs)
unfolding sort_onto
sort_onto-Falling prefix [] w = w
sort_onto-Falling prefix (k ∷ xs) w = sort_onto-Falling (sift k prefix) xs (sift-Falling k prefix w)

below-sift : (v k : ℤ) (xs : List ℤ) → below v (sift k xs) ≡ below v (k ∷ xs)
unfolding sift
below-sift v k [] = refl
below-sift v k (x ∷ xs) = ground (arith, below-sift v k xs)

up_to-sift : (v k : ℤ) (xs : List ℤ) → up_to v (sift k xs) ≡ up_to v (k ∷ xs)
unfolding sift
up_to-sift v k [] = refl
up_to-sift v k (x ∷ xs) = ground (arith, up_to-sift v k xs)

length-sift : (k : ℤ) (xs : List ℤ) → length (sift k xs) ≡ length xs + 1
unfolding sift
length-sift k [] = omega arith
length-sift k (x ∷ xs) = ground (arith, length-sift k xs)

below-sort_onto :
    (v : ℤ) (prefix xs : List ℤ) → below v (sort_onto prefix xs) ≡ below v prefix + below v xs
unfolding sort_onto
below-sort_onto v prefix [] = omega arith
below-sort_onto v prefix (k ∷ xs) =
    omega (arith, below-sort_onto v (sift k prefix) xs, below-sift v k prefix)

up_to-sort_onto :
    (v : ℤ) (prefix xs : List ℤ) → up_to v (sort_onto prefix xs) ≡ up_to v prefix + up_to v xs
unfolding sort_onto
up_to-sort_onto v prefix [] = omega arith
up_to-sort_onto v prefix (k ∷ xs) =
    omega (arith, up_to-sort_onto v (sift k prefix) xs, up_to-sift v k prefix)

length-sort_onto : (prefix xs : List ℤ) → length (sort_onto prefix xs) ≡ length prefix + length xs
unfolding sort_onto
length-sort_onto prefix [] = omega arith
length-sort_onto prefix (k ∷ xs) =
    omega (arith, length-sort_onto (sift k prefix) xs, length-sift k prefix)

below-append : (v : ℤ) (xs ys : List ℤ) → below v (xs ++ ys) ≡ below v xs + below v ys
below-append v [] ys = omega arith
below-append v (x ∷ xs) ys = omega (arith, below-append v xs ys)

up_to-append : (v : ℤ) (xs ys : List ℤ) → up_to v (xs ++ ys) ≡ up_to v xs + up_to v ys
up_to-append v [] ys = omega arith
up_to-append v (x ∷ xs) ys = omega (arith, up_to-append v xs ys)

-- The reverse of a list holds the same samples, in the other order.
below-reverse : (v : ℤ) (xs : List ℤ) → below v (reverse xs) ≡ below v xs
below-reverse v [] = refl
below-reverse v (x ∷ xs) =
    rw (reverse-cons x xs) (omega (arith, below-append v (reverse xs) (x ∷ []), below-reverse v xs))

up_to-reverse : (v : ℤ) (xs : List ℤ) → up_to v (reverse xs) ≡ up_to v xs
up_to-reverse v [] = refl
up_to-reverse v (x ∷ xs) =
    rw (reverse-cons x xs) (omega (arith, up_to-append v (reverse xs) (x ∷ []), up_to-reverse v xs))

length-reverse : (xs : List ℤ) → length (reverse xs) ≡ length xs
length-reverse [] = refl
length-reverse (x ∷ xs) =
    rw (reverse-cons x xs) (omega (arith, length-append (reverse xs) (x ∷ []), length-reverse xs))

AllAtLeast-append :
    (b : ℤ) (xs : List ℤ) (y : ℤ) → AllAtLeast b xs → b ≤ℤ y → AllAtLeast b (xs ++ y ∷ [])
AllAtLeast-append b [] y w h = (h, tt)
AllAtLeast-append b (x ∷ xs) y w h = (w.0, AllAtLeast-append b xs y w.1 h)

AllAtMost-append :
    (b : ℤ) (xs : List ℤ) (y : ℤ) → AllAtMost b xs → y ≤ℤ b → AllAtMost b (xs ++ y ∷ [])
AllAtMost-append b [] y w h = (h, tt)
AllAtMost-append b (x ∷ xs) y w h = (w.0, AllAtMost-append b xs y w.1 h)

AllAtMost-reverse : (b : ℤ) (xs : List ℤ) → AllAtMost b xs → AllAtMost b (reverse xs)
AllAtMost-reverse b [] w = tt
AllAtMost-reverse b (x ∷ xs) w =
    rw (reverse-cons x xs) (AllAtMost-append b (reverse xs) x (AllAtMost-reverse b xs w.1) w.0)

Rising-append : (xs : List ℤ) (y : ℤ) → Rising xs → AllAtMost y xs → Rising (xs ++ y ∷ [])
Rising-append [] y r w = (tt, tt)
Rising-append (x ∷ xs) y r w = (AllAtLeast-append x xs y r.0 w.0, Rising-append xs y r.1 w.1)

Rising-reverse : (xs : List ℤ) → Falling xs → Rising (reverse xs)
Rising-reverse [] w = tt
Rising-reverse (x ∷ xs) w =
    rw (reverse-cons x xs)
      (Rising-append (reverse xs) x (Rising-reverse xs w.1) (AllAtMost-reverse x xs w.0))

below_of_AllAtLeast : (v b : ℤ) (xs : List ℤ) → v ≤ℤ b → AllAtLeast b xs → below v xs ≡ 0
below_of_AllAtLeast v b [] h w = refl
below_of_AllAtLeast v b (x ∷ xs) h w = ground (arith, below_of_AllAtLeast v b xs h w.1)

-- At least `k` samples of those at hand.
abbrev pub AtRank : ℤ → List ℤ → Type 0
AtRank v xs = (below v xs ≤ 1) × (min 2 (length xs) ≤ up_to v xs)

-- The second of a rising list has at most the first below it.
second_of_Rising : (xs : List ℤ) → Rising xs → AtRank (get_or xs (rank (length xs)) (pos 0)) xs
unfolding rank
second_of_Rising [] w = omega arith
second_of_Rising (a ∷ []) w = ground arith
second_of_Rising (a ∷ b ∷ xs) w = ground (arith, below_of_AllAtLeast b b xs)

-- The low edge of a list of samples has at most one sample below it, and at least two (one, if
-- there is only one) at or below it.
pub low_edge-AtRank : (xs : List ℤ) → AtRank (low_edge xs) xs
unfolding low_edge
low_edge-AtRank xs =
    let s = sort_onto [] xs in
    let v = low_edge xs in
    let n : length (reverse s) ≡ length xs =
      omega (arith, length-reverse s, length-sort_onto [] xs) in
    let at = second_of_Rising (reverse s) (Rising-reverse s (sort_onto-Falling [] xs tt)) in
    let at' = rw n at at in
    omega (
      arith,
      at',
      below-reverse v s,
      below-sort_onto v [] xs,
      up_to-reverse v s,
      up_to-sort_onto v [] xs,
      n,
    )

set_ne :
    (xs : List ℤ) (i j : ℕ) (v : ℤ) → i ≢ j → get_or (set xs i v) j (pos 0) ≡ get_or xs j (pos 0)
set_ne [] i j v h = refl
set_ne (x ∷ xs) zero zero v h = absurd (h refl)
set_ne (x ∷ xs) zero (suc j) v h = refl
set_ne (x ∷ xs) (suc i) zero v h = refl
set_ne (x ∷ xs) (suc i) (suc j) v h = set_ne xs i j v (λ e. h (ap suc e))

set_self : (xs : List ℤ) (i : ℕ) (v : ℤ) → i < length xs → get_or (set xs i v) i (pos 0) ≡ v
set_self [] i v h = absurd (omega arith)
set_self (x ∷ xs) zero v h = refl
set_self (x ∷ xs) (suc i) v h = set_self xs i v (omega arith)

-- One place further on, the samples before the one just stored are those before it.
newest-set_older :
    (win : List ℤ) (p i n : ℕ) (v : ℤ)
    → p < 32
    → i + n < 32
    → newest (set win p v) ((p + 1) % 32) (i + 1) n ≡ newest win p i n
unfolding newest
newest-set_older win p i zero v h k = refl
newest-set_older win p i (suc n) v h k =
    let e : ((p + 1) % 32 + 32 - 1 - (i + 1)) % 32 ≡ (p + 32 - 1 - i) % 32 = omega arith in
    ap₂ ◌∷◌
      (ap (λ j. get_or (set win p v) j (pos 0)) e
        ∙ set_ne win p ((p + 32 - 1 - i) % 32) v (omega arith))
      (newest-set_older win p (i + 1) n v h (omega arith))

-- The ring of samples keeps the order of arrival: after a store the newest n + 1 samples are the
-- stored one and the n that were newest before it.
newest-set :
    (win : List ℤ) (p n : ℕ) (v : ℤ)
    → length win ≡ 32
    → p < 32
    → n < 32
    → newest (set win p v) ((p + 1) % 32) 0 (suc n) ≡ v ∷ newest win p 0 n
unfolding newest
newest-set win p n v l h k =
    let e : ((p + 1) % 32 + 32 - 1 - 0) % 32 ≡ p = omega arith in
    ap₂ ◌∷◌ (ap (λ j. get_or (set win p v) j (pos 0)) e ∙ set_self win p v (omega arith))
      (newest-set_older win p 0 n v h (omega arith))

in_use_bounds : (n4 count : ℕ) → 0 < count → (0 < in_use n4 count) × (in_use n4 count ≤ count)
unfolding in_use
in_use_bounds n4 count h = ground arith

-- For a servo that keeps its bounds, the filtered offset is `v` plus the phase that the servo has
-- moved the clock by, where `v` has at most one of the samples in use below it and two (or the only
-- one) at or below it; the samples in use are the new offset less that phase, and then the newest
-- of those stored before.
pub window_push_lem :
    {D : Type 0} (s : Servo D) (x : ℤ)
    → IsValid s
    → let (s', f) = window_push s x in
      (v : ℤ) × (f ≡ v +ℤ s.comp_ns)
      × AtRank v (samples s')
      × (samples s'
          ≡ (x -ℤ s.comp_ns) ∷ newest s.win s.win_pos 0 (in_use s'.win_n4 s'.win_count - 1))
unfolding window_push samples store
window_push_lem s x v =
    let n = in_use (store s x).win_n4 (store s x).win_count in
    let b = in_use_bounds (store s x).win_n4 (store s x).win_count (ground arith) in
    let e : n ≡ suc (n - 1) = omega arith in
    (
      low_edge (samples (store s x)),
      refl,
      low_edge-AtRank (samples (store s x)),
      ap (newest (store s x).win (store s x).win_pos 0) e
          ∙ newest-set s.win s.win_pos (n - 1) (x -ℤ s.comp_ns) v.win_len v.pos_in (ground arith),
    )
