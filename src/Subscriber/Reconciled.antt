-- ===== src/Subscriber/Reconciled.antt =====
-- Step 2 of a rebuild of main/subscriber.c: what is left to ask for fits the flows that are left.
use inferno_esp32_p.Subscriber.Table.{slot, dev, OneFlow}
use inferno_esp32_p.Subscriber.Asked.{want_at, Apart}
use mathlib.Core.Option.{some-injective, none-ne-some}
use inferno_esp32_p.Prelude.{
  List, ℕ, set, ◌+◌, ◌<◌, ◌≡◌, [], length, some, false, inl, length-set, ℕ_discrete, ◌≢◌, ◌⊎◌, ap,
  sym, ◌∙◌, ◌∷◌, Option, arith, get_or-set_default, inr, get_or-set_other, suc, if_split, not, ◌&&◌,
}
use inferno_esp32_p.Subscriber.Reconcile.{seek_undone_from}
use inferno_esp32_p.Subscriber.{FlowSlot, no_slot, name32}
use inferno_esp32_p.Subscriber.Wants.{Want}
use inferno_esp32_p.Prelude.Bytes.{same_bytes, same_bytes-eq}

-- After the slots below `i`: a wanted flow that is not served yet is to replace the flow of its
-- device among them, and every flow among them is wanted; `D` is
-- what holds of the devices wanted.
pub record Reconciled (D : List ℕ → Type 0) (i : ℕ) (fs : List FlowSlot) (ws : List Want)
    : Type 0 where
  pub one : OneFlow fs
  pub apart : Apart ws
  pub named :
      (n : ℕ)
      → n < length ws
      → ((want_at ws n).device ≢ [])
        × (name32 (want_at ws n).device ≡ (want_at ws n).device)
        × D (want_at ws n).device
  pub points :
      (n : ℕ)
      → n < length ws
      → (want_at ws n).done ≡ false
      → (j : ℕ) → j < i
      → dev fs j ≡ (want_at ws n).device
      → (want_at ws n).replaces ≡ some j
  pub aims :
      (n : ℕ)
      → n < length ws
      → (j : ℕ) → (want_at ws n).replaces ≡ some j
      → (j < i) × (dev fs j ≡ (want_at ws n).device)
  pub served :
      (j : ℕ)
      → j < i
      → dev fs j ≢ []
      → (n : ℕ) × (n < length ws) × ((want_at ws n).device ≡ dev fs j)

pub seek_undone_found :
    (k : ℕ) (device : List ℕ) (ws : List Want) (m : ℕ)
    → seek_undone_from k device ws ≡ some m
    → (n : ℕ) × (m ≡ k + n)
      × (n < length ws)
      × ((want_at ws n).done ≡ false)
      × ((want_at ws n).device ≡ device)
unfolding seek_undone_from
seek_undone_found k device [] m = λ e. absurd (none-ne-some m e)
seek_undone_found k device (w ∷ ws) m =
    let P : Option ℕ → Type 0 = λ o.
      o ≡ some m
      → (n : ℕ) × (m ≡ k + n)
        × (n < suc (length ws))
        × ((want_at (w ∷ ws) n).done ≡ false)
        × ((want_at (w ∷ ws) n).device ≡ device) in
    if_split P (not w.done && same_bytes w.device device)
      (λ h e. (
        0,
        omega (arith, some-injective k m e),
        omega arith,
        ground arith,
        same_bytes-eq w.device device (ground arith),
      ))
      (λ _ e.
        let (n, at, lt, todo, same) = seek_undone_found (k + 1) device ws m e in
        (suc n, omega arith, omega arith, todo, same))

module _ (fs : List FlowSlot) (i : ℕ) where
  -- A slot that is emptied.
  cleared_cases :
      (j : ℕ)
      → (slot (set fs i no_slot) j ≡ no_slot) ⊎ ((j ≢ i) × (slot (set fs i no_slot) j ≡ slot fs j))
  cleared_cases j = elim (ℕ_discrete j i) [
    | yes e ↦ inl (ap (slot (set fs i no_slot)) e ∙ get_or-set_default fs i no_slot)
    | no n ↦ inr (n, get_or-set_other fs i j no_slot no_slot (λ e. n (sym e)))
  ]

  cleared_kept : (j : ℕ) → dev (set fs i no_slot) j ≢ [] → slot (set fs i no_slot) j ≡ slot fs j
  cleared_kept j full = elim (cleared_cases j) [
    | inl e ↦ absurd (full (ap (λ (f : FlowSlot). f.device) e))
    | inr e ↦ e.1
  ]

  pub cleared-OneFlow : OneFlow fs → OneFlow (set fs i no_slot)
  cleared-OneFlow o = record {
    size = length-set fs i no_slot ∙ o.size;
    distinct = λ j k full e.
        let kj = ap (λ (f : FlowSlot). f.device) (cleared_kept j full) in
        let kk = ap (λ (f : FlowSlot). f.device) (cleared_kept k (λ x. full (e ∙ x))) in
        o.distinct j k (λ x. full (kj ∙ x)) (sym kj ∙ e ∙ kk);
    running = λ j full.
        let kj = cleared_kept j full in
        ap (λ (f : FlowSlot). f.active) kj
        ∙ o.running j (λ x. full (ap (λ (f : FlowSlot). f.device) kj ∙ x));
    idle = λ j free. elim (cleared_cases j) [
      | inl e ↦ ap (λ (f : FlowSlot). f.active) e
      | inr e ↦
          ap (λ (f : FlowSlot). f.active) e.1
          ∙ o.idle j (sym (ap (λ (f : FlowSlot). f.device) e.1) ∙ free)
    ];
  }

  module _ (ws : List Want) (D : List ℕ → Type 0) (r : Reconciled D i fs ws) where
    -- A slot without a device.
    pub Reconciled-free : dev fs i ≡ [] → Reconciled D (i + 1) fs ws
    Reconciled-free free = record {
      one = r.one;
      apart = r.apart;
      named = r.named;
      points = λ n lt todo j lj at. elim (ℕ_discrete j i) [
        | yes e ↦ absurd ((r.named n lt).0 (sym at ∙ ap (dev fs) e ∙ free))
        | no ne ↦ r.points n lt todo j (omega arith) at
      ];
      aims = λ n lt j e. let (lj, at) = r.aims n lt j e in (omega arith, at);
      served = λ j lj full. elim (ℕ_discrete j i) [
        | yes e ↦ absurd (full (ap (dev fs) e ∙ free))
        | no ne ↦ r.served j (omega arith) full
      ];
    }

    -- A flow that nobody wants.
    pub Reconciled-cleared : Reconciled D (i + 1) (set fs i no_slot) ws
    Reconciled-cleared = record {
      one = cleared-OneFlow r.one;
      apart = r.apart;
      named = r.named;
      points = λ n lt todo j lj at. elim (cleared_cases j) [
        | inl e ↦ absurd ((r.named n lt).0 (sym at ∙ ap (λ (f : FlowSlot). f.device) e))
        | inr e ↦
            let ne = e.0 in
            r.points n lt todo j (omega arith) (sym (ap (λ (f : FlowSlot). f.device) e.1) ∙ at)
      ];
      aims = λ n lt j e.
          let (lj, at) = r.aims n lt j e in
          (
            omega arith,
            ap (λ (f : FlowSlot). f.device) (get_or-set_other fs i j no_slot no_slot (omega arith))
                ∙ at,
          );
      served = λ j lj full. elim (cleared_cases j) [
        | inl e ↦ absurd (full (ap (λ (f : FlowSlot). f.device) e))
        | inr e ↦
            let ne = e.0 in
            let at = ap (λ (f : FlowSlot). f.device) e.1 in
            let (n, lt, same) = r.served j (omega arith) (λ x. full (at ∙ x)) in
            (n, lt, same ∙ sym at)
      ];
    }
