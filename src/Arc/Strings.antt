-- ===== src/Arc/Strings.antt =====
-- What a request of main/aoip_arc.c says at an offset.
use inferno_esp32_p.Arc.{copy_str, req_str}
use inferno_esp32_p.Prelude.Append.{take-take}
use inferno_esp32_p.Prelude.{
  List, ℕ, take, ◌<◌, ◌≡◌, ◌≤◌, length, suc, ◌+◌, ◌-◌, drop, get_or, if_false, ◌++◌, ltb, ◌∷◌, ◌≢◌,
  [], ◌||◌, if_true, leb, arith, ◌==◌, ==_iff, ◌∙◌, ap, sym, ap₂, zero, refl,
}

-- Each byte of a string is one.
abbrev pub NoNul : List ℕ → Type 0
NoNul s = (i : ℕ) → i < length s → get_or s i 0 ≢ 0

-- A packet of `len` bytes has the string `s` with its NUL at `off`, behind the header.
pub record StringAt (pkt : List ℕ) (len off : ℕ) (s : List ℕ) : Type 0 where
  pub behind : 10 ≤ off
  pub inside : off + length s < len
  pub bytes : take (suc (length s)) (drop off pkt) ≡ s ++ 0 ∷ []
  pub no_nul : NoNul s

copy_str_lem :
    (room : ℕ) (xs s : List ℕ)
    → take (suc (length s)) xs ≡ s ++ 0 ∷ []
    → NoNul s
    → copy_str room xs ≡ take room s
unfolding copy_str
copy_str_lem zero xs s e h = refl
copy_str_lem (suc room) [] [] e h = refl
copy_str_lem (suc room) [] (y ∷ s) e h = cc
copy_str_lem (suc room) (x ∷ xs) [] e h =
    if_true (x == 0) _ _ ((==_iff x 0).1 (ap (λ l. get_or l 0 1) e))
copy_str_lem (suc room) (x ∷ xs) (y ∷ s) e h =
    let first : x ≡ y = ap (λ l. get_or l 0 0) e in
    let x_no_nul : x ≢ 0 = λ z. h 0 (omega arith) (sym first ∙ z) in
    let rest : take (suc (length s)) xs ≡ s ++ 0 ∷ [] = ap (λ l. drop 1 l) e in
    if_false (x == 0) [] (x ∷ copy_str room xs) (ground arith)
    ∙ ap₂ (λ a b. a ∷ b) first (copy_str_lem room xs s rest (λ i lt. h (suc i) (omega arith)))

-- It is read, as far as the array has room.
pub req_str-take :
    (cap : ℕ) (pkt : List ℕ) (len off : ℕ) (s : List ℕ)
    → StringAt pkt len off s
    → req_str cap pkt len off ≡ take (cap - 1) s
unfolding req_str
req_str-take cap pkt len off s h =
    if_false (ltb off 10 || leb len off) [] (copy_str (cap - 1) (take (len - off) (drop off pkt)))
      (ground (arith, h.behind, h.inside))
    ∙ copy_str_lem (cap - 1) (take (len - off) (drop off pkt)) s
        (take-take (suc (length s)) (len - off) (drop off pkt) (omega (arith, h.inside)) ∙ h.bytes)
        h.no_nul
