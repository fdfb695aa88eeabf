-- ===== src/JitterBuf/Position.antt =====
-- The position of the DMA stays exact, also when an interrupt covers several descriptors.
use inferno_esp32_p.JitterBuf.{Ring, suc}
use inferno_esp32_p.JitterBuf.Dma.{jb_isr_sent, covered, find_buf, advance, count_underrun, learn}
use native.Mathlib.Nat.{mod-lt, mod-eq_of_lt, mod-eq-sub-mod, mod-add-mod, add-mod_right, mod_self}
use inferno_esp32_p.Prelude.{
  ℕ, ◌≡◌, List, true, ◌*◌, ◌<◌, get_or, ◌%◌, ◌+◌, ◌≤◌, length, ◌-◌, arith, some, dec_lt, sym, ◌∷◌,
  ◌∙◌, ◌≢◌, ap, suc, zero, [], Bool-cases, ◌==◌, ◌^◌, if◌then◌else◌, inl, ==_iff, not, if_false,
  if_true, ap₂, subst, inr, Option, ltb, none,
}
use inferno_esp32_p.Prelude.Int.{ℤ, ◌-ℤ◌}
use inferno_esp32_p.Prelude.Words.{to_unsigned}

-- The DMA has finished `m` descriptors since it started, and the ring knows.
pub record Tracks (r : Ring) (m : ℕ) : Type 0 where
  pub position : r.dma_end ≡ m * r.frames
  pub expected : r.next_k ≡ m % r.nbufs

-- The first lap is over: every buffer's address is known, and no two are the same.
pub record Known (r : Ring) : Type 0 where
  pub lapped : r.ready ≡ true
  pub some_bufs : 0 < r.nbufs
  pub in_array : r.nbufs ≤ length r.buf
  pub distinct : (i j : ℕ) → i < r.nbufs → j < r.nbufs → get_or r.buf i 0 ≡ get_or r.buf j 0 → i ≡ j

find_buf-get_or :
    (bufs : List ℕ) (n j i : ℕ)
    → i < n
    → n ≤ length bufs
    → ((k : ℕ) → k < n → get_or bufs k 0 ≡ get_or bufs i 0 → k ≡ i)
    → find_buf bufs n j (get_or bufs i 0) ≡ some (j + i)
unfolding find_buf
find_buf-get_or bufs zero j i h l u = absurd (omega arith)
find_buf-get_or [] (suc n) j i h l u = absurd (omega arith)
find_buf-get_or (x ∷ xs) (suc n) j zero h l u = ground arith
find_buf-get_or (x ∷ xs) (suc n) j (suc i) h l u =
    let other : x ≢ get_or xs i 0 = λ e. absurd (omega (arith, u 0 (omega arith) e)) in
    let rest =
      find_buf-get_or xs n (j + 1) i (omega arith) (omega arith)
        (λ k lt e. omega (arith, u (suc k) (omega arith) e)) in
    ground (arith, rest, other)

-- How far the finished descriptor is ahead of the expected one.
distance : (m d n : ℕ) → d < n → ((m + d) % n + n - m % n) % n ≡ d
distance m d n h =
    let a = m % n in
    let below = mod-lt m {m = n} (omega arith) in
    let shift = mod-add-mod m n d in
    elim (dec_lt (a + d) n) [
      | yes near ↦
          let c : (m + d) % n ≡ a + d = sym shift ∙ mod-eq_of_lt near in
          let e : (m + d) % n + n - a ≡ d + n = omega arith in
          ap (λ k. k % n) e ∙ add-mod_right d n ∙ mod-eq_of_lt h
      | no far ↦
          let c : (m + d) % n ≡ a + d - n =
            sym shift ∙ mod-eq-sub-mod (omega arith) ∙ mod-eq_of_lt (omega arith) in
          let e : (m + d) % n + n - a ≡ d = omega arith in ap (λ k. k % n) e ∙ mod-eq_of_lt h
    ]

covered-get_or :
    (r : Ring) (m d : ℕ)
    → Known r
    → Tracks r m
    → d < r.nbufs
    → covered r (get_or r.buf ((m + d) % r.nbufs) 0) ≡ (d + 1, (m + d) % r.nbufs)
unfolding covered
covered-get_or r m d w t h =
    let n = r.nbufs in
    let k = (m + d) % n in
    let b = get_or r.buf k 0 in
    let k_in = mod-lt (m + d) {m = n} w.some_bufs in
    let next_in : r.next_k < n = rw t.expected (mod-lt m {m = n} w.some_bufs) in
    let ahead : (k + n - r.next_k) % n ≡ d = rw t.expected (distance m d n h) in
    let found : find_buf r.buf n 0 b ≡ some k =
      find_buf-get_or r.buf n 0 k k_in w.in_array (λ j lt e. w.distinct j k lt k_in e)
      ∙ ap some (omega arith) in
    elim (Bool-cases (get_or r.buf r.next_k 0 == b)) [
      | inl here ↦
          let same : r.next_k ≡ k = w.distinct r.next_k k next_in k_in ((==_iff _ _).0 here) in
          let none_ahead : d ≡ 0 =
            sym ahead
            ∙ ap (λ j. (k + n - j) % n) same
            ∙ ap (λ j. j % n) (omega arith)
            ∙ mod_self n in
          if_true (get_or r.buf r.next_k 0 == b) _ _ here
          ∙ ap₂ (λ (x y : ℕ). (x, y)) (omega (arith, none_ahead)) same
      | inr gone ↦
          if_false (get_or r.buf r.next_k 0 == b) _ _ gone
          ∙ ap
              (λ (o : Option ℕ). elim o as (λ _. ℕ × ℕ) [
                | none ↦ (1, r.next_k)
                | some j ↦ ((j + n - r.next_k) % n + 1, j)
              ])
              found
          ∙ ap (λ (x : ℕ). (x + 1, k)) ahead
    ]

advance-Tracks :
    (r : Ring) (m d b : ℕ)
    → covered r b ≡ (d + 1, (m + d) % r.nbufs)
    → Tracks r m
    → (m + d + 1) * r.frames < 2 ^ 64
    → Tracks (advance r b) (m + d + 1)
unfolding advance
advance-Tracks r m d b c t small =
    let total : r.dma_end + (d + 1) * r.frames ≡ (m + d + 1) * r.frames =
      omega (arith, t.position) in
    record {
      position =
          ap (λ (x : ℕ × ℕ). (r.dma_end + x.0 * r.frames) % 2 ^ 64) c
          ∙ ap (λ (x : ℕ). x % 2 ^ 64) total
          ∙ mod-eq_of_lt small;
      expected = ap (λ (x : ℕ × ℕ). (x.1 + 1) % r.nbufs) c ∙ mod-add-mod (m + d) r.nbufs 1;
    }

count_underrun-Tracks : (r : Ring) (m : ℕ) → Tracks r m → Tracks (count_underrun r) m
unfolding count_underrun
count_underrun-Tracks r m t = ground arith

-- Once the first lap is over, with all buffers at different addresses and fewer than 2 ^ 64 frames
-- played: when the DMA has finished `d` descriptors more than the ring knows and one on top, at
-- most a lap in all, the interrupt for the last of them makes the ring know all of them, whether it
-- expected this one or not.
pub jb_isr_sent-Tracks :
    (r : Ring) (m d : ℕ) (t t' : ℤ)
    → Known r
    → Tracks r m
    → d < r.nbufs
    → (m + d + 1) * r.frames < 2 ^ 64
    → Tracks (jb_isr_sent r (get_or r.buf ((m + d) % r.nbufs) 0) t t') (m + d + 1)
unfolding jb_isr_sent advance count_underrun
jb_isr_sent-Tracks r m d t t' w k h small =
    let b = get_or r.buf ((m + d) % r.nbufs) 0 in
    let c = covered-get_or r m d w k h in
    let there = advance-Tracks r m d b c k small in
    let r' : Ring = record (advance r b) { t_isr = t } in
    let step : (if not r.ready then learn r b else advance r b) ≡ advance r b =
      if_false (not r.ready) _ _ (ap not w.lapped) in
    let done : Tracks (count_underrun r') (m + d + 1) =
      count_underrun-Tracks r' (m + d + 1)
        (record { position = there.position; expected = there.expected }) in
    subst
      (λ (a : Ring).
        Tracks
          (let c' = count_underrun (record a { t_isr = t }) in
            let us = to_unsigned 32 (t' -ℤ t) in
            record c' { isr_max_us = if ltb c'.isr_max_us us then us else c'.isr_max_us })
          (m + d + 1))
      (sym step) (record { position = done.position; expected = done.expected })
