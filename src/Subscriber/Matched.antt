-- ===== src/Subscriber/Matched.antt =====
-- Step 2 of a rebuild of main/subscriber.c at a slot whose transmitter is wanted.
use inferno_esp32_p.Subscriber.Table.{dev}
use inferno_esp32_p.Subscriber.Asked.{want_at, Apart}
use inferno_esp32_p.Subscriber.Reconciled.{Reconciled}
use mathlib.Core.Option.{some-injective}
use inferno_esp32_p.Prelude.{
  List, ℕ, ◌<◌, ◌≡◌, false, length, true, ◌+◌, [], set, subst, ◌≢◌, arith, get_or-set_cases,
  length-set, some, sym, ℕ_discrete, ap, refl, ◌∙◌, get_or-set_same, inl, get_or-set_other, inr,
}
use inferno_esp32_p.Subscriber.{FlowSlot, name32}
use inferno_esp32_p.Subscriber.Wants.{Want, no_want}

module _ (fs : List FlowSlot) (i : ℕ) (ws : List Want) (D : List ℕ → Type 0)
    (r : Reconciled D i fs ws) (m : ℕ) (lm : m < length ws)
    (at_m : (want_at ws m).device ≡ dev fs i) where
  -- The wanted flow of the slot, written with the same device.
  module _ (w : Want) (same : w.device ≡ (want_at ws m).device) where
    written : (n : ℕ) → (want_at (set ws m w) n).device ≡ (want_at ws n).device
    written n = elim (get_or-set_cases ws m w no_want n) [
      | inl (e, at) ↦
          ap (λ (x : Want). x.device) at ∙ same ∙ ap (λ k. (want_at ws k).device) (sym e)
      | inr at ↦ ap (λ (x : Want). x.device) at
    ]

    len : length (set ws m w) ≡ length ws
    len = length-set ws m w

    -- What does not depend on the flag and the slot to retire.
    apart' : Apart (set ws m w)
    apart' = λ a b la lb e.
        r.apart a b (omega (arith, len)) (omega (arith, len)) (sym (written a) ∙ e ∙ written b)

    named' :
        (n : ℕ)
        → n < length (set ws m w)
        → ((want_at (set ws m w) n).device ≢ [])
          × (name32 (want_at (set ws m w) n).device ≡ (want_at (set ws m w) n).device)
          × D (want_at (set ws m w) n).device
    named' n lt =
        subst (λ d. (d ≢ []) × (name32 d ≡ d) × D d) (sym (written n))
          (r.named n (omega (arith, len)))

    served' :
        (j : ℕ)
        → j < i + 1
        → dev fs j ≢ []
        → (n : ℕ) × (n < length (set ws m w)) × ((want_at (set ws m w) n).device ≡ dev fs j)
    served' j lj full = elim (ℕ_discrete j i) [
      | yes e ↦ (m, omega (arith, len), written m ∙ at_m ∙ ap (dev fs) (sym e))
      | no ne ↦
          let (n, lt, at) = r.served j (omega arith) full in (n, omega (arith, len), written n ∙ at)
    ]

    -- Another wanted flow is not of the slot's device.
    other_device : (n : ℕ) → n ≢ m → n < length ws → dev fs i ≢ (want_at ws n).device
    other_device n ne lt e = ne (r.apart n m lt lm (sym e ∙ sym at_m))

    others_point :
        (n : ℕ)
        → n ≢ m
        → n < length ws
        → (want_at ws n).done ≡ false
        → (j : ℕ) → j < i + 1
        → dev fs j ≡ (want_at ws n).device
        → (want_at ws n).replaces ≡ some j
    others_point n ne lt todo j lj at = elim (ℕ_discrete j i) [
      | yes e ↦ absurd (other_device n ne lt (sym (ap (dev fs) e) ∙ at))
      | no nj ↦ r.points n lt todo j (omega arith) at
    ]

  -- A flow that stays as it is.
  pub Reconciled-done : Reconciled D (i + 1) fs (set ws m (record (want_at ws m) { done = true }))
  Reconciled-done = record {
    one = r.one;
    apart = apart' w refl;
    named = named' w refl;
    points = λ n lt todo j lj at. elim (ℕ_discrete n m) [
      | yes e ↦ cc (
        todo,
        ap (λ (x : Want). x.done) (ap (want_at (set ws m w)) e ∙ get_or-set_same ws m w no_want lm),
      )
      | no ne ↦
          let here = get_or-set_other ws m n w no_want (λ e. ne (sym e)) in
          ap (λ (x : Want). x.replaces) here
          ∙ others_point w refl n ne (omega (arith, len w refl))
              (sym (ap (λ (x : Want). x.done) here) ∙ todo) j lj
              (at ∙ ap (λ (x : Want). x.device) here)
    ];
    aims = λ n lt j e.
        let (lj, at) = r.aims n (omega (arith, len w refl)) j (sym (replaces n) ∙ e) in
        (omega arith, at ∙ sym (written w refl n));
    served = served' w refl;
  }
    where
      w : Want
      w = record (want_at ws m) { done = true }

      replaces :
          (n : ℕ)
          → (want_at (set ws m (record (want_at ws m) { done = true })) n).replaces
            ≡ (want_at ws n).replaces
      replaces n = elim (get_or-set_cases ws m (record (want_at ws m) { done = true }) no_want n) [
        | inl (e, at) ↦ ap (λ (x : Want). x.replaces) at ∙ ap (λ k. (want_at ws k).replaces) (sym e)
        | inr at ↦ ap (λ (x : Want). x.replaces) at
      ]

  -- A flow that is to be replaced.
  pub Reconciled-replaces :
      dev fs i ≢ []
      → Reconciled D (i + 1) fs (set ws m (record (want_at ws m) { replaces = some i }))
  Reconciled-replaces full = record {
    one = r.one;
    apart = apart' w refl;
    named = named' w refl;
    points = λ n lt todo j lj at. elim (ℕ_discrete n m) [
      | yes e ↦
          let here = ap (want_at (set ws m w)) e ∙ get_or-set_same ws m w no_want lm in
          let there : dev fs i ≡ dev fs j = sym (at ∙ ap (λ (x : Want). x.device) here ∙ at_m) in
          ap (λ (x : Want). x.replaces) here ∙ ap some (r.one.distinct i j full there)
      | no ne ↦
          let here = get_or-set_other ws m n w no_want (λ e. ne (sym e)) in
          ap (λ (x : Want). x.replaces) here
          ∙ others_point w refl n ne (omega (arith, len w refl))
              (sym (ap (λ (x : Want). x.done) here) ∙ todo) j lj
              (at ∙ ap (λ (x : Want). x.device) here)
    ];
    aims = λ n lt j e. elim (ℕ_discrete n m) [
      | yes en ↦
          let here = ap (want_at (set ws m w)) en ∙ get_or-set_same ws m w no_want lm in
          let ij : i ≡ j = some-injective i j (sym (ap (λ (x : Want). x.replaces) here) ∙ e) in
          (omega arith, sym (ap (dev fs) ij) ∙ sym at_m ∙ sym (ap (λ (x : Want). x.device) here))
      | no ne ↦
          let here = get_or-set_other ws m n w no_want (λ x. ne (sym x)) in
          let (lj, at) =
            r.aims n (omega (arith, len w refl)) j (sym (ap (λ (x : Want). x.replaces) here) ∙ e) in
          (omega arith, at ∙ sym (ap (λ (x : Want). x.device) here))
    ];
    served = served' w refl;
  }
    where
      w : Want
      w = record (want_at ws m) { replaces = some i }
