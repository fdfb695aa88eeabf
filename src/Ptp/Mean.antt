-- ===== src/Ptp/Mean.antt =====
-- The mean path delay: how far above its samples it can lie.
use inferno_esp32_p.Ptp.{Ptp, PathMean, no_path}
use inferno_esp32_p.Ptp.PathDelay.{
  implausible, add_path_sample, mean, slide, path_sample, pd_min_samples,
}
use inferno_esp32_p.Prelude.Int.{
  ℤ, neg_part, pos, pos_part, +ℤ_parts, quotient_parts, ◌+ℤ◌, eq_of_parts, quotient, ◌<ℤ◌,
}
use inferno_esp32_p.Prelude.{
  ℕ, if◌then◌else◌, ◌≡◌, ◌≤◌, false, leb, arith, ◌+◌, ◌*◌, Bool-cases, ltb, inl, ap, inr, List, ◌/◌,
  ◌<◌, ◌∷◌, [], ◌%◌, dec_lt, ◌^◌, le→leb, subst, le→ltb_false, sym, replicate, suc, zero, refl,
}
use native.Mathlib.Nat.{le_of_mul-le-mul_right, div-mul-le_self, mul-le-mul_right, zero-add}

-- The average after one plausible sample.
abbrev pub next_mean : PathMean → ℤ → PathMean
next_mean p d = let q = add_path_sample p d in if leb pd_min_samples q.n then slide q else q

pub path_sample_path :
    {D : Type 0} (s : Ptp D) (d : ℤ)
    → implausible d ≡ false
    → (path_sample s d).path ≡ next_mean s.path d
unfolding path_sample
path_sample_path s d h = ground arith

path_sample-mean :
    {D : Type 0} (s : Ptp D) (d : ℤ)
    → implausible d ≡ false
    → 4 ≤ (add_path_sample s.path d).n
    → (path_sample s d).global.mean_path_delay_ns ≡ mean (add_path_sample s.path d)
unfolding path_sample
path_sample-mean s d h k = ground arith

-- At most sixteen samples are kept, and their sum is at most one bound more than their number.
pub record Bounded (b : ℕ) (p : PathMean) : Type 0 where
  pub few : p.n ≤ 16
  pub positive : neg_part p.acc ≡ 0
  pub sum : pos_part p.acc ≤ (p.n + 1) * b

slide-Bounded :
    (b : ℕ) (p : PathMean)
    → p.n ≤ 17
    → neg_part p.acc ≡ 0
    → pos_part p.acc ≤ (p.n + 1) * b
    → Bounded b (slide p)
unfolding slide
slide-Bounded b p few nonneg sum = elim (Bool-cases (ltb 16 p.n)) [
  | inl full ↦
      let e : p.n ≡ 17 = ground arith in
      rw full (record {
        few = omega arith;
        positive = omega (arith, quotient_parts p.acc 2);
        sum = rw e (omega (arith, quotient_parts p.acc 2, ap (λ (k : ℕ). (k + 1) * b) e));
      })
  | inr room ↦ rw room (record { few = ground arith; positive = nonneg; sum = sum })
]

pub next_mean-Bounded :
    (b : ℕ) (p : PathMean) (d : ℕ) → d ≤ b → Bounded b p → Bounded b (next_mean p (pos d))
unfolding add_path_sample slide
next_mean-Bounded b p d h v =
    ground (arith, slide-Bounded b (add_path_sample p (pos d)), +ℤ_parts p.acc (pos d))

-- A run of path samples.
unfoldable pub feed : {D : Type 0} → Ptp D → List ℤ → Ptp D
feed s [] = s
feed s (d ∷ ds) = feed (path_sample s d) ds

-- A quotient by at least four of a sum with at most one bound more than its number.
pub mean_le : (acc n b : ℕ) → 4 ≤ n → acc ≤ (n + 1) * b → 4 * (acc / n) ≤ 5 * b
mean_le acc n b h k =
    le_of_mul-le-mul_right {m = 4 * (acc / n)} {n = 5 * b} {k = n}
      (omega (arith, div-mul-le_self acc n, mul-le-mul_right b h)) (omega arith)

mean_gt : (acc n d : ℕ) → 0 < n → n * d + n ≤ acc → d < acc / n
mean_gt acc n d h k = grind arith

pub no_negative : (a : ℤ) (d : ℕ) → neg_part a ≡ 0 → neg_part (a +ℤ pos d) ≡ 0
unfolding ◌+ℤ◌
no_negative a d h = ground arith

-- The warm-up: `j` equal samples, none slid out.
record Warm (d j : ℕ) (p : PathMean) : Type 0 where
  few : p.n ≡ j
  total : p.acc ≡ pos (j * d)

-- After the first slide the sum carries half a sample too many, and never loses it.
record Biased (d : ℕ) (p : PathMean) : Type 0 where
  least : 8 ≤ p.n
  most : p.n ≤ 16
  positive : neg_part p.acc ≡ 0
  excess : p.n * d + d / 2 ≤ pos_part p.acc + 1

next_mean-Warm :
    (d j : ℕ) (p : PathMean) → j < 16 → Warm d j p → Warm d (j + 1) (next_mean p (pos d))
unfolding add_path_sample slide
next_mean-Warm d j p h w =
    ground (arith, +ℤ_parts p.acc (pos d), eq_of_parts (p.acc +ℤ pos d) (pos ((j + 1) * d)))

next_mean_first : (d : ℕ) (p : PathMean) → Warm d 16 p → Biased d (next_mean p (pos d))
unfolding add_path_sample slide
next_mean_first d p w = ground (arith, +ℤ_parts p.acc (pos d), quotient_parts (p.acc +ℤ pos d) 2)

-- A slide at seventeen samples keeps the excess.
slide-Biased : (d acc : ℕ) → 4 ≤ d → 17 * d + d / 2 ≤ acc + 1 → 8 * d + d / 2 ≤ acc / 2 + 1
slide-Biased d acc h k = omega arith

next_mean_full :
    (p : PathMean) (d : ℤ)
    → p.n ≡ 16
    → next_mean p d ≡ record { acc = quotient (p.acc +ℤ d) 2; n = 8 }
unfolding add_path_sample slide
next_mean_full p d e = rw e

next_mean_room :
    (p : PathMean) (d : ℤ)
    → p.n < 16
    → 3 ≤ p.n
    → next_mean p d ≡ record { acc = p.acc +ℤ d; n = p.n + 1 }
unfolding add_path_sample slide
next_mean_room p d h k =
    let e : (p.n + 1) % 2 ^ 32 ≡ p.n + 1 = omega arith in
    rw (e, le→leb 4 (p.n + 1) (omega arith), le→ltb_false 16 (p.n + 1) (omega arith))

next_mean-Biased : (d : ℕ) (p : PathMean) → 4 ≤ d → Biased d p → Biased d (next_mean p (pos d))
next_mean-Biased d p h w = elim (dec_lt p.n 16) [
  | yes room ↦ subst (Biased d) (sym (next_mean_room p (pos d) room (omega arith))) (kept room)
  | no full ↦ subst (Biased d) (sym (next_mean_full p (pos d) (omega arith))) (slid (omega arith))
]
  where
    kept : p.n < 16 → Biased d (record { acc = p.acc +ℤ pos d; n = p.n + 1 })
    kept room = omega (arith, +ℤ_parts p.acc (pos d), no_negative p.acc d w.positive)

    slid : p.n ≡ 16 → Biased d (record { acc = quotient (p.acc +ℤ pos d) 2; n = 8 })
    slid e = omega (
      arith,
      ap (λ (k : ℕ). k * d) e,
      +ℤ_parts p.acc (pos d),
      quotient_parts (p.acc +ℤ pos d) 2,
      no_negative p.acc d w.positive,
    )

implausible_pos : (d : ℕ) → d ≤ 10000000 → implausible (pos d) ≡ false
unfolding implausible
implausible_pos d h = ground arith

pub mean_room :
    (p : PathMean) (d : ℤ) → p.n ≤ 16 → mean (add_path_sample p d) ≡ quotient (p.acc +ℤ d) (p.n + 1)
unfolding add_path_sample mean
mean_room p d h = let e : (p.n + 1) % 2 ^ 32 ≡ p.n + 1 = omega arith in rw e

module _ {D : Type 0} (d : ℕ) (small : d ≤ 10000000) where
  feed-Biased :
      (k : ℕ) (s : Ptp D) → 4 ≤ d → Biased d s.path → Biased d (feed s (replicate k (pos d))).path
  unfolding feed
  feed-Biased zero s h w = w
  feed-Biased (suc k) s h w = feed-Biased k (path_sample s (pos d)) h (
      subst (Biased d) (sym (path_sample_path s (pos d) (implausible_pos d small)))
        (next_mean-Biased d s.path h w))

  -- One more of the same sample puts the reported mean above it.
  Biased_above :
      (s : Ptp D)
      → 40 ≤ d
      → Biased d s.path
      → pos d <ℤ (path_sample s (pos d)).global.mean_path_delay_ns
  unfolding add_path_sample
  Biased_above s h w =
      let total = s.path.acc +ℤ pos d in
      let sign = no_negative s.path.acc d w.positive in
      rw
        (
          path_sample-mean s (pos d) (implausible_pos d small) (ground arith),
          mean_room s.path (pos d) w.most,
        )
        (omega (
          arith,
          quotient_parts total (s.path.n + 1),
          sign,
          mean_gt (pos_part total) (s.path.n + 1) d (omega arith)
              (omega (arith, +ℤ_parts s.path.acc (pos d), sign)),
        ))

  feed_above :
      (k : ℕ) (s : Ptp D)
      → 40 ≤ d
      → Biased d s.path
      → pos d <ℤ (feed s (replicate (suc k) (pos d))).global.mean_path_delay_ns
  unfolding feed
  feed_above zero s h w = Biased_above s h w
  feed_above (suc k) s h w = feed_above k (path_sample s (pos d)) h (
      subst (Biased d) (sym (path_sample_path s (pos d) (implausible_pos d small)))
        (next_mean-Biased d s.path (omega arith) w))

  advance :
      (P : PathMean → Type 0) (s : Ptp D)
      → P (next_mean s.path (pos d))
      → P (path_sample s (pos d)).path
  advance P s h = subst P (sym (path_sample_path s (pos d) (implausible_pos d small))) h

  -- From the warm-up on, `k` more samples fill it, the next slides, and any after that shows the
  -- excess.
  feed_warm_up :
      (j k m : ℕ) (s : Ptp D)
      → j + k ≡ 16
      → 40 ≤ d
      → Warm d j s.path
      → pos d <ℤ (feed s (replicate (suc (k + suc m)) (pos d))).global.mean_path_delay_ns
  unfolding feed
  feed_warm_up j zero m s e h w =
      let e' : j ≡ 16 = omega arith in
      let full = subst (λ i. Warm d i s.path) e' w in
      rw zero-add (
        feed_above m (path_sample s (pos d)) h
          (advance (Biased d) s (next_mean_first d s.path full)))
  feed_warm_up j (suc k) m s e h w =
      let e' : suc k + suc m ≡ suc (k + suc m) = omega arith in
      rw e' (
        feed_warm_up (j + 1) k m (path_sample s (pos d)) (omega arith) h
          (advance (Warm d (j + 1)) s (next_mean-Warm d j s.path (omega arith) w)))

  -- From a fresh average, when every sample of the path delay is the same `d` of 40 ns to 10 ms, the
  -- mean reported after the eighteenth sample and after every later one is above `d`: the slide
  -- halves the sum of seventeen samples but rounds their number down to eight.
  pub mean_above_every_sample :
      (s : Ptp D) (m : ℕ)
      → s.path ≡ no_path
      → 40 ≤ d
      → pos d <ℤ (feed s (replicate (18 + m) (pos d))).global.mean_path_delay_ns
  mean_above_every_sample s m e h =
      let n : 18 + m ≡ suc (16 + suc m) = omega arith in
      rw n
        (feed_warm_up 0 16 m s refl h (rw e (record { few = refl; total = ap pos (omega arith) })))
