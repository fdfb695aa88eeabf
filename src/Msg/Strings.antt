-- ===== src/Msg/Strings.antt =====
-- The strings of a response of main/aoip_msg.c are found at the offsets it gives.
use inferno_esp32_p.Msg.{Msg, aoip_msg_str, aoip_msg_bytes, aoip_msg_finish, be16}
use inferno_esp32_p.Arc.{req_str}
use inferno_esp32_p.Arc.Strings.{StringAt, NoNul, req_str-take}
use inferno_esp32_p.Prelude.{
  take, drop, List, ℕ, length, ◌+◌, ◌≡◌, ◌≤◌, ◌<◌, get_or, arith, ◌∙◌, suc, ◌∷◌, zero, refl, [],
  ap₂, ◌++◌, ◌^◌, length-append, ◌%◌, ◌-◌, ap,
}
use inferno_esp32_p.Prelude.Bytes.{
  write_at, write_at_start, write_at-cons, length-write_at, get_or-write_at_after,
  get_or-write_at_before,
}
use inferno_esp32_p.Prelude.Append.{take-append_left, take_all}

-- Bytes from `at` on: the same before and after what is written elsewhere.
window-ext :
    (p q : List ℕ) (at n : ℕ)
    → length p ≡ length q
    → ((j : ℕ) → at ≤ j → j < at + n → get_or p j 0 ≡ get_or q j 0)
    → take n (drop at p) ≡ take n (drop at q)
window-ext [] [] zero zero e h = refl
window-ext [] [] zero (suc n) e h = refl
window-ext [] [] (suc at) zero e h = refl
window-ext [] [] (suc at) (suc n) e h = refl
window-ext [] (y ∷ q) at n e h = absurd (omega arith)
window-ext (x ∷ p) [] at n e h = absurd (omega arith)
window-ext (x ∷ p) (y ∷ q) zero zero e h = refl
window-ext (x ∷ p) (y ∷ q) zero (suc n) e h =
    ap₂ (λ a b. a ∷ b) (h 0 (omega arith) (omega arith))
      (window-ext p q 0 n (omega arith) (λ j lo hi. h (suc j) (omega arith) (omega arith)))
window-ext (x ∷ p) (y ∷ q) (suc at) n e h =
    window-ext p q at n (omega arith) (λ j lo hi. h (suc j) (omega arith) (omega arith))

window-write_at :
    (p : List ℕ) (at : ℕ) (xs : List ℕ)
    → at + length xs ≤ length p
    → take (length xs) (drop at (write_at p at xs)) ≡ xs
window-write_at p zero xs h = rw (write_at_start p xs (omega arith)) (
    take-append_left xs (drop (length xs) p) (length xs) (omega arith)
    ∙ take_all xs (length xs) refl)
window-write_at [] (suc at) xs h = absurd (omega arith)
window-write_at (y ∷ p) (suc at) xs h =
    rw (write_at-cons y p at xs) (window-write_at p at xs (omega arith))

length-nul : (s : List ℕ) → length (s ++ 0 ∷ []) ≡ length s + 1
length-nul s = length-append s (0 ∷ [])

module _ (m : Msg) (s xs : List ℕ) (code : ℕ) where
  -- The string, what follows it, and the two fields of the header that are set last.
  abbrev pub finished : Msg
  finished = aoip_msg_finish code (aoip_msg_bytes xs (aoip_msg_str s m).1)

  abbrev with_string : List ℕ
  with_string = write_at m.buf m.len (s ++ 0 ∷ [])

  module _ (begun : 10 ≤ m.len) (room : m.len + length s + 1 + length xs ≤ length m.buf)
      (small : length m.buf < 2 ^ 16) where
    finished-buf :
        finished.buf
        ≡ write_at
            (write_at
              (write_at with_string (m.len + length s + 1) xs)
              2
              (be16 (m.len + length s + 1 + length xs)))
            8
            (be16 code)
    unfolding aoip_msg_finish aoip_msg_bytes aoip_msg_str
    finished-buf =
        let next : (m.len + length (s ++ 0 ∷ [])) % 2 ^ 32 ≡ m.len + length s + 1 =
          omega (arith, length-nul s) in
        let last : (m.len + length s + 1 + length xs) % 2 ^ 32 ≡ m.len + length s + 1 + length xs =
          omega arith in
        rw (next, last) refl

    finished-len : finished.len ≡ m.len + length s + 1 + length xs
    unfolding aoip_msg_finish aoip_msg_bytes aoip_msg_str
    finished-len = omega (arith, length-nul s)

    finished-StringAt : NoNul s → StringAt finished.buf finished.len (aoip_msg_str s m).0 s
    unfolding aoip_msg_str
    finished-StringAt h =
        let at_len : m.len % 2 ^ 16 ≡ m.len = omega arith in
        let n = length-write_at m.buf m.len (s ++ 0 ∷ []) in
        let behind_it = write_at with_string (m.len + length s + 1) xs in
        let b = length-write_at with_string (m.len + length s + 1) xs in
        let size = be16 (m.len + length s + 1 + length xs) in
        let k = length-write_at behind_it 2 size in
        let stays : (j : ℕ)
            → m.len ≤ j
            → j < m.len + suc (length s)
            → get_or (write_at (write_at behind_it 2 size) 8 (be16 code)) j 0
              ≡ get_or with_string j 0 =
          λ j lo hi.
            get_or-write_at_after (write_at behind_it 2 size) 8 (be16 code) j (omega arith)
            ∙ get_or-write_at_after behind_it 2 size j (omega arith)
            ∙ get_or-write_at_before with_string (m.len + length s + 1) xs j (omega arith) in
        record {
          behind = omega arith;
          inside = omega (arith, finished-len);
          bytes =
              ap₂ (λ i p. take (suc (length s)) (drop i p)) at_len finished-buf
              ∙ window-ext (write_at (write_at behind_it 2 size) 8 (be16 code)) with_string m.len
                  (suc (length s))
                  (length-write_at (write_at behind_it 2 size) 8 (be16 code) ∙ k ∙ b) stays
              ∙ ap (λ i. take i (drop m.len with_string)) {x = suc (length s)}
                  {y = length (s ++ 0 ∷ [])} (omega (arith, length-nul s))
              ∙ window-write_at m.buf m.len (s ++ 0 ∷ []) (omega (arith, length-nul s));
          no_nul = h;
        }

    -- In a response whose header is begun, a string with no NUL that is appended, within a buffer of
    -- less than 64 KB, is found again by `req_str` at the offset that `aoip_msg_str` gave, whatever is
    -- appended behind it and whatever the code is that the response is finished with, as far as the
    -- reader's array has room.
    pub req_str-aoip_msg_str :
        (array : ℕ)
        → NoNul s
        → req_str array finished.buf finished.len (aoip_msg_str s m).0 ≡ take (array - 1) s
    req_str-aoip_msg_str array h =
        req_str-take array finished.buf finished.len (aoip_msg_str s m).0 s (finished-StringAt h)
