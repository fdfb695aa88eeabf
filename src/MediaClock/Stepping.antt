-- ===== src/MediaClock/Stepping.antt =====
-- When the playout is stepped, and by how much, and what the clock generator is told.
use mathlib.Core.Option.{some-injective, none-ne-some}
use inferno_esp32_p.MediaClock.{step_playout, reset_ring, store_latency}
use inferno_esp32_p.MediaClock.{
  Clock, View, Call, set_ppb, mclk_anchor, anchor_at, apply, target, mclk_now_samples,
}
use inferno_esp32_p.MediaClock.Bounds.{IsValid, feed_forward-IsValid, phase_loop-IsValid}
use inferno_esp32_p.Prelude.{
  ℕ, ◌≡◌, List, arith, ◌∷◌, ◌≤◌, Option, [], if_both, not, none, some, ◌<◌, true, ◌⊎◌, subst, sym,
  ◌==◌, false, inl, inr, if_split, refl, Bool, ◌∙◌, ap, ==_iff,
}
use inferno_esp32_p.MediaClock.Tick.{
  correct, mclk_tick, feed_forward, step, phase_loop, must_step, count_out, phase_error, step_band,
}
use inferno_esp32_p.Prelude.Int.{
  magnitude, ℤ, Within, clamp, +ℤ_parts, parts_zero, ◌+ℤ◌, clamp-Within,
}

-- Every rate that the clock generator is told is within the bound that its hardware allows for.
abbrev pub RatesWithin : ℕ → List Call → Type 0
RatesWithin b [] = Unit {0}
RatesWithin b (set_ppb x ∷ cs) = Within b x × RatesWithin b cs
RatesWithin b (c ∷ cs) = RatesWithin b cs

apply-Within :
    (s : Clock)
    → Within 200000 s.ppb_ff
    → Within 2000 s.ppb_applied
    → Within 202000 (s.ppb_ff +ℤ s.ppb_applied)
apply-Within s h k = ground (
  arith,
  +ℤ_parts s.ppb_ff s.ppb_applied,
  parts_zero s.ppb_ff,
  parts_zero s.ppb_applied,
  parts_zero (s.ppb_ff +ℤ s.ppb_applied),
)

mclk_anchor-RatesWithin :
    (s : Clock) (v : View) → RatesWithin 202000 s.calls → RatesWithin 202000 (mclk_anchor s v).calls
unfolding mclk_anchor anchor_at
mclk_anchor-RatesWithin s v h =
    if_both (λ (c : Clock). RatesWithin 202000 c.calls) (not v.ring_ready) h
      (at (mclk_now_samples v))
  where
    at :
        (now : Option ℕ)
        → RatesWithin 202000
            (elim now as (λ _. Clock) [ none ↦ s | some n ↦ anchor_at s v n ]).calls
    at none = h
    at (some n) = h

feed_forward-RatesWithin :
    (s : Clock) (v : View)
    → IsValid s
    → RatesWithin 202000 s.calls
    → RatesWithin 202000 (feed_forward s v).calls
unfolding feed_forward apply
feed_forward-RatesWithin s v w h = (
  apply-Within (record s { ppb_ff = clamp 200000 v.rate_ppb }) (clamp-Within 200000 v.rate_ppb)
      w.applied_in,
  h,
)

correct-RatesWithin :
    (s : Clock) (err : ℤ)
    → IsValid s
    → RatesWithin 202000 s.calls
    → RatesWithin 202000 (correct s err).calls
unfolding correct step phase_loop apply
correct-RatesWithin s err w h =
    let R : Clock → Type 0 = λ c. RatesWithin 202000 c.calls in
    let steered = phase_loop-IsValid err w in
    if_both R (must_step (count_out s err) err) h (
      if_both R (not s.armed) h
        (apply-Within (phase_loop s err) steered.ff_in steered.applied_in, h))

-- From a clock within its clamps, every rate that a tick tells the clock generator is within 202
-- ppm, if those told before are.
pub mclk_tick-RatesWithin :
    (s : Clock) (v : View)
    → IsValid s
    → RatesWithin 202000 s.calls
    → RatesWithin 202000 (mclk_tick s v).calls
unfolding mclk_tick
mclk_tick-RatesWithin s v w h =
    let R : Clock → Type 0 = λ c. RatesWithin 202000 c.calls in
    let fed = feed_forward-RatesWithin s v w h in
    let anchored = mclk_anchor-RatesWithin (feed_forward s v) v fed in
    if_both R (not v.locked) h (
      if_both R (not (v.step_count == s.last_ptp_steps)) anchored
        (if_both R (not s.anchored) anchored (corrected (mclk_now_samples v) fed)))
  where
    corrected :
        (now : Option ℕ)
        → RatesWithin 202000 (feed_forward s v).calls
        → RatesWithin 202000
            (elim now as (λ _. Clock) [
              | none ↦ feed_forward s v
              | some n ↦
                  correct
                    (feed_forward s v)
                    (phase_error (target (feed_forward s v) n) v.playout_idx)
            ]).calls
    corrected none f = f
    corrected (some n) f =
        correct-RatesWithin (feed_forward s v)
          (phase_error (target (feed_forward s v) n) v.playout_idx) (feed_forward-IsValid v w) f

-- The error that makes a tick step the playout.
abbrev pub Steps : Clock → ℤ → Type 0
Steps s err =
    (480 < magnitude err) ⊎ ((step_band s.latency_frames < magnitude err) × (4 ≤ s.out_of_band))

-- How far the ring has been told to step, latest first.
abbrev pub steps_of : List Call → List ℤ
steps_of [] = []
steps_of (step_playout x ∷ cs) = x ∷ steps_of cs
steps_of (reset_ring n ∷ cs) = steps_of cs
steps_of (set_ppb x ∷ cs) = steps_of cs
steps_of (store_latency n ∷ cs) = steps_of cs

-- With the error known: the ring is stepped by it, or there is no reason to.
abbrev Corrected : Clock → ℤ → List ℤ → Type 0
Corrected s err xs =
    (Steps s err × (xs ≡ err ∷ steps_of s.calls)) ⊎ (¬ Steps s err × (xs ≡ steps_of s.calls))

must_step-Steps : (s : Clock) (err : ℤ) → must_step (count_out s err) err ≡ true → Steps s err
unfolding count_out must_step magnitude
must_step-Steps s err h = ground (arith, parts_zero err)

must_step_not : (s : Clock) (err : ℤ) → must_step (count_out s err) err ≡ false → ¬ Steps s err
unfolding count_out must_step magnitude
must_step_not s err h k = ground (arith, parts_zero err)

correct-Corrected : (s : Clock) (err : ℤ) → Corrected s err (steps_of (correct s err).calls)
unfolding correct step phase_loop apply
correct-Corrected s err =
    let P : Clock → Type 0 = λ c. Corrected s err (steps_of c.calls) in
    if_split P (must_step (count_out s err) err) (λ h. inl (must_step-Steps s err h, refl))
      (λ h.
        if_both P (not s.armed) (inr (must_step_not s err h, refl))
          (inr (must_step_not s err h, refl)))

-- Without a time the ring is not stepped by an anchor.
mclk_anchor-steps_of : (s : Clock) (v : View) → steps_of (mclk_anchor s v).calls ≡ steps_of s.calls
unfolding mclk_anchor anchor_at
mclk_anchor-steps_of s v =
    if_both (λ (c : Clock). steps_of c.calls ≡ steps_of s.calls) (not v.ring_ready) refl
      (at (mclk_now_samples v))
  where
    at :
        (now : Option ℕ)
        → steps_of (elim now as (λ _. Clock) [ none ↦ s | some n ↦ anchor_at s v n ]).calls
          ≡ steps_of s.calls
    at none = refl
    at (some n) = refl

-- A tick that is to step, by the error `err`.
pub record MustStep (s : Clock) (v : View) (err : ℤ) : Type 0 where
  pub locked : v.locked ≡ true
  pub anchored : s.anchored ≡ true
  pub timeline : v.step_count ≡ s.last_ptp_steps
  pub now : ℕ
  pub at_now : mclk_now_samples v ≡ some now
  pub by : err ≡ phase_error (target s now) v.playout_idx
  pub far : Steps s err

-- What a tick tells the ring: nothing of a step, or one by the error.
abbrev pub Told : Clock → View → List ℤ → Type 0
Told s v xs =
    (((err : ℤ) → ¬ MustStep s v err) × (xs ≡ steps_of s.calls))
    ⊎ ((err : ℤ) × MustStep s v err × (xs ≡ err ∷ steps_of s.calls))

feed_forward-Corrected :
    (s : Clock) (v : View) (err : ℤ) (xs : List ℤ)
    → Corrected (feed_forward s v) err xs
    → Corrected s err xs
unfolding feed_forward apply
feed_forward-Corrected s v err xs h = h

feed_forward-steps_of :
    (s : Clock) (v : View) → steps_of (feed_forward s v).calls ≡ steps_of s.calls
unfolding feed_forward apply
feed_forward-steps_of s v = refl

feed_forward-target : (s : Clock) (v : View) (n : ℕ) → target (feed_forward s v) n ≡ target s n
unfolding feed_forward apply target
feed_forward-target s v n = refl

contradict : (b : Bool) → not b ≡ true → b ≡ true → ⊥
contradict true h e = cc
contradict false h e = cc

-- With the conditions met and the time known.
told :
    (s : Clock) (v : View) (n : ℕ) (xs : List ℤ)
    → v.locked ≡ true
    → s.anchored ≡ true
    → v.step_count ≡ s.last_ptp_steps
    → mclk_now_samples v ≡ some n
    → Corrected s (phase_error (target s n) v.playout_idx) xs
    → Told s v xs
told s v n xs lock there same e (inl (far, is)) =
    let err = phase_error (target s n) v.playout_idx in
    inr (
      err,
      record {
        locked = lock;
        anchored = there;
        timeline = same;
        now = n;
        at_now = e;
        by = refl;
        far = far;
      },
      is,
    )
told s v n xs lock there same e (inr (near, is)) = inl (
  λ err m.
      let now : m.now ≡ n = some-injective _ _ (sym m.at_now ∙ e) in
      near (subst (Steps s) (m.by ∙ ap (λ k. phase_error (target s k) v.playout_idx) now) m.far),
  is,
)

-- A tick steps the playout exactly when PTP is locked, the clock is anchored on the current timeline
-- and the time is known, and the phase error of that instant is beyond 480 frames, or beyond the
-- band with four ticks beyond it counted before. The step that the ring is told then is that error,
-- and otherwise it is told of none.
pub mclk_tick-Steps : (s : Clock) (v : View) → Told s v (steps_of (mclk_tick s v).calls)
unfolding mclk_tick
mclk_tick-Steps s v =
    let P : Clock → Type 0 = λ c. Told s v (steps_of c.calls) in
    let fed = feed_forward-steps_of s v in
    let anchored = mclk_anchor-steps_of (feed_forward s v) v ∙ fed in
    if_split P (not v.locked) (λ e. inl (λ err m. contradict v.locked e m.locked, refl))
      (λ lock.
        if_split P (not (v.step_count == s.last_ptp_steps))
          (λ e. inl (
            λ err m. contradict (v.step_count == s.last_ptp_steps) e ((==_iff _ _).1 m.timeline),
            anchored,
          ))
          (λ same.
            if_split P (not s.anchored)
              (λ e. inl (λ err m. contradict s.anchored e m.anchored, anchored))
              (λ there.
                corrected (ground arith) (ground arith) (ground arith) (mclk_now_samples v) refl
                  fed)))
  where
    corrected :
        v.locked ≡ true
        → v.step_count ≡ s.last_ptp_steps
        → s.anchored ≡ true
        → (o : Option ℕ) → mclk_now_samples v ≡ o
        → steps_of (feed_forward s v).calls ≡ steps_of s.calls
        → Told s v (
            steps_of
              (elim o as (λ _. Clock) [
                | none ↦ feed_forward s v
                | some n ↦
                    correct
                      (feed_forward s v)
                      (phase_error (target (feed_forward s v) n) v.playout_idx)
              ]).calls)
    corrected lock same there none e fed = inl (λ err m. none-ne-some m.now (sym e ∙ m.at_now), fed)
    corrected lock same there (some n) e fed =
        let err = phase_error (target (feed_forward s v) n) v.playout_idx in
        told s v n (steps_of (correct (feed_forward s v) err).calls) lock there same e (
          subst (λ (x : ℤ). Corrected s x (steps_of (correct (feed_forward s v) err).calls))
            (ap (λ k. phase_error k v.playout_idx) (feed_forward-target s v n))
            (feed_forward-Corrected s v err (steps_of (correct (feed_forward s v) err).calls)
              (correct-Corrected (feed_forward s v) err)))
