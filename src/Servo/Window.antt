-- ===== src/Servo/Window.antt =====
-- `window_push` of main/ptp_servo.c: the second lowest of the newest samples.
use mathlib.Core.List.{reverse}
use inferno_esp32_p.Prelude.{
  ℕ, zero, suc, ◌+◌, ◌-◌, ◌*◌, ◌/◌, ◌%◌, Bool, List, [], ◌∷◌, get_or, set, length, ltb,
  if◌then◌else◌,
}
use inferno_esp32_p.Prelude.Int.{ℤ, pos, ◌+ℤ◌, ◌-ℤ◌, ltb_ℤ}
use inferno_esp32_p.Prelude.Words.{inc8}
use inferno_esp32_p.Servo.{Servo, win_locked, win_acq}

-- tmp[0 .. n) = the n samples before `at`, newest first; `i` of them are taken already.
unfoldable pub newest : List ℤ → ℕ → ℕ → ℕ → List ℤ
newest win at i zero = []
newest win at i (suc n) =
    get_or win ((at + win_locked - 1 - i) % win_locked) (pos 0) ∷ newest win at (i + 1) n

-- The inner loop of the insertion sort: `j` walks down the sorted prefix while tmp[j] > k. The
-- list is the prefix from its end, tmp[i - 1] first.
unfoldable pub sift : ℤ → List ℤ → List ℤ
sift k [] = k ∷ []
sift k (x ∷ xs) = if ltb_ℤ k x then x ∷ sift k xs else k ∷ x ∷ xs

-- The outer loop, with the sorted prefix.
unfoldable pub sort_onto : List ℤ → List ℤ → List ℤ
sort_onto prefix [] = prefix
sort_onto prefix (k ∷ rest) = sort_onto (sift k prefix) rest

unfoldable pub sorted : List ℤ → List ℤ
unfolding sort_onto sift
sorted xs = reverse (sort_onto [] xs)

-- The window grows by a sample for every four Syncs while locked.
unfoldable pub next_n4 : Bool → ℕ → ℕ
next_n4 locked n4 =
    if locked then (if ltb n4 (win_locked * 4) then inc8 n4 else n4) else win_acq * 4

-- The samples in use: from the window's size in quarters and the samples at hand.
unfoldable pub in_use : ℕ → ℕ → ℕ
in_use n4 count =
    let n = n4 / 4 in
    let grown = if ltb n win_acq then win_acq else n in if ltb count grown then count else grown

-- The second lowest, or the only one.
unfoldable pub rank : ℕ → ℕ
rank n = if ltb 1 n then 1 else n - 1

unfoldable pub low_edge : List ℤ → ℤ
unfolding sorted rank
low_edge xs = get_or (sorted xs) (rank (length xs)) (pos 0)

-- The state after a sample is stored.
unfoldable pub store : {D : Type 0} → Servo D → ℤ → Servo D
unfolding next_n4
store s offset = record s {
  win = set s.win s.win_pos (offset -ℤ s.comp_ns);
  win_pos = (s.win_pos + 1) % win_locked;
  win_count = if ltb s.win_count win_locked then inc8 s.win_count else s.win_count;
  win_n4 = next_n4 s.locked s.win_n4;
}

-- The samples that the filter looks at.
unfoldable pub samples : {D : Type 0} → Servo D → List ℤ
unfolding in_use newest
samples s = newest s.win s.win_pos 0 (in_use s.win_n4 s.win_count)

unfoldable pub window_push : {D : Type 0} → Servo D → ℤ → Servo D × ℤ
unfolding store samples low_edge
window_push s offset = let s' = store s offset in (s', low_edge (samples s') +ℤ s.comp_ns)
