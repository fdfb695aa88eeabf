-- ===== src/FlowsClient/Padding.antt =====
-- The padding of the strings in a flow request.
use inferno_esp32_p.FlowsClient.{pad}
use inferno_esp32_p.Prelude.{
  ℕ, zero, suc, List, some, Option, length, ◌-◌, ◌+◌, ◌≡◌, ◌%◌, ◌++◌, ◌≤◌, ap, arith, replicate,
  ◌≢◌, length-append, sym, ◌∷◌, [], if_split, ◌<◌, ◌==◌, leb, ◌∙◌,
}
use inferno_esp32_p.Prelude.Append.{append_nil, append_cons}

-- What a pad of at most `fuel` NULs has to be.
abbrev pub Padded : ℕ → ℕ → List ℕ → Option (List ℕ) → Type 0
Padded fuel at s o =
    (z : ℕ) × (o ≡ some (s ++ replicate z 0)) × ((length s + z + at) % 8 ≡ 0) × (z ≤ fuel)

none_needed : (fuel at : ℕ) (s : List ℕ) → (length s + at) % 8 ≡ 0 → Padded fuel at s (some s)
none_needed fuel at s e = (0, ap some (sym (append_nil s)), omega (arith, e), omega arith)

pad_one_less :
    (at fuel : ℕ) (s : List ℕ)
    → (8 - (length s + at) % 8) % 8 ≤ suc fuel
    → (length s + at) % 8 ≢ 0
    → (8 - (length (s ++ 0 ∷ []) + at) % 8) % 8 ≤ fuel
pad_one_less at fuel s h k =
    let n = length-append s (0 ∷ []) in
    let positive : 0 < (length s + at) % 8 = ground arith in omega (arith, n)

-- The pad ends within its steps and the buffer.
pub pad-Padded :
    (fuel at : ℕ) (s : List ℕ)
    → length s + fuel ≤ 128
    → (8 - (length s + at) % 8) % 8 ≤ fuel
    → Padded fuel at s (pad fuel at s)
unfolding pad
pad-Padded zero at s a d = none_needed 0 at s (omega arith)
pad-Padded (suc fuel) at s a d =
    let n = length-append s (0 ∷ []) in
    if_split (Padded (suc fuel) at s) ((length s + at) % 8 == 0)
      (λ e. none_needed (suc fuel) at s (ground arith))
      (λ more.
        let off : (length s + at) % 8 ≢ 0 = λ e. absurd (ground arith) in
        if_split (Padded (suc fuel) at s) (leb 128 (length s)) (λ full. absurd (ground arith))
          (λ room.
            let (z, e, al, small) =
              pad-Padded fuel at (s ++ 0 ∷ []) (omega (arith, n)) (pad_one_less at fuel s d off) in
            (
              suc z,
              e ∙ ap some (append_cons s (replicate z 0) 0),
              omega (arith, n, al),
              omega (arith, small),
            )))
