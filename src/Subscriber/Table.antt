-- ===== src/Subscriber/Table.antt =====
-- The flow table of main/subscriber.c: one flow for each transmitter, and what a step of the
-- requests does to it.
use inferno_esp32_p.Subscriber.{FlowSlot, no_slot, name32, max_flows}
use inferno_esp32_p.Subscriber.Wants.{Want}
use inferno_esp32_p.Prelude.{
  List, ℕ, get_or, ◌≡◌, ◌≢◌, [], true, ℕ_discrete, false, inl, some, ◌∙◌, ◌⊎◌, ap, inr, sym, subst,
  length,
}

abbrev pub slot : List FlowSlot → ℕ → FlowSlot
slot fs i = get_or fs i no_slot

abbrev pub dev : List FlowSlot → ℕ → List ℕ
dev fs i = (slot fs i).device

-- One flow for each transmitter: of the four slots no two slots have the same device, a slot with a device is active,
-- and one without is not.
pub record OneFlow (fs : List FlowSlot) : Type 0 where
  pub size : length fs ≡ max_flows
  pub distinct : (i j : ℕ) → dev fs i ≢ [] → dev fs i ≡ dev fs j → i ≡ j
  pub running : (i : ℕ) → dev fs i ≢ [] → (slot fs i).active ≡ true
  pub idle : (i : ℕ) → dev fs i ≡ [] → (slot fs i).active ≡ false

-- What has become of the table when a wanted flow has been asked for in the slot `i`.
pub record Upshot (w : Want) (i : ℕ) (fs fs' : List FlowSlot) : Type 0 where
  pub size : length fs' ≡ length fs
  pub free : dev fs i ≡ []
  pub here :
      ((dev fs' i ≡ w.device) × ((slot fs' i).active ≡ true))
      ⊎ ((dev fs' i ≡ []) × ((slot fs' i).active ≡ false))
  pub others :
      (j : ℕ) → j ≢ i → (slot fs' j ≡ slot fs j) ⊎ ((w.replaces ≡ some j) × (slot fs' j ≡ no_slot))
  pub retired : (j : ℕ) → j ≢ i → w.replaces ≡ some j → dev fs' i ≢ [] → slot fs' j ≡ no_slot

-- A wanted flow that is still to be asked for: a slot of its device is the one to be replaced.
pub record Asks (w : Want) (fs : List FlowSlot) : Type 0 where
  pub named : w.device ≢ []
  pub short : name32 w.device ≡ w.device
  pub points : (j : ℕ) → dev fs j ≡ w.device → w.replaces ≡ some j
  pub aims : (j : ℕ) → w.replaces ≡ some j → dev fs j ≡ w.device

module _ {w : Want} {i : ℕ} {fs fs' : List FlowSlot} (u : Upshot w i fs fs') where
  -- Another slot with a device is as it was.
  other_kept : (j : ℕ) → j ≢ i → dev fs' j ≢ [] → slot fs' j ≡ slot fs j
  other_kept j ne full = elim (u.others j ne) [
    | inl e ↦ e
    | inr h ↦ absurd (full (ap (λ (f : FlowSlot). f.device) h.1))
  ]

  module _ (o : OneFlow fs) (a : Asks w fs) where
    -- No other slot has the device of the new flow.
    not_twice : (j : ℕ) → j ≢ i → dev fs' i ≢ [] → dev fs' i ≡ dev fs' j → ⊥
    not_twice j ne full same =
        let full' : dev fs' j ≢ [] = λ e. full (same ∙ e) in
        let kept = other_kept j ne full' in
        let w_dev : dev fs' i ≡ w.device = elim u.here [
          | inl h ↦ h.0
          | inr h ↦ absurd (full h.0)
        ] in
        let at : dev fs j ≡ w.device =
          sym (ap (λ (f : FlowSlot). f.device) kept) ∙ sym same ∙ w_dev in
        full' (ap (λ (f : FlowSlot). f.device) (u.retired j ne (a.points j at) full))

    Upshot-distinct : (j k : ℕ) → dev fs' j ≢ [] → dev fs' j ≡ dev fs' k → j ≡ k
    Upshot-distinct j k full same = elim (ℕ_discrete j i) [
      | yes ej ↦ elim (ℕ_discrete k i) [
        | yes ek ↦ ej ∙ sym ek
        | no nk ↦ absurd (
            not_twice k nk (subst (λ n. dev fs' n ≢ []) ej full)
              (subst (λ n. dev fs' n ≡ dev fs' k) ej same))
      ]
      | no nj ↦ elim (ℕ_discrete k i) [
        | yes ek ↦ absurd (
            not_twice j nj (λ e. full (same ∙ ap (dev fs') ek ∙ e))
              (sym (ap (dev fs') ek) ∙ sym same))
        | no nk ↦
            let kj = ap (λ (f : FlowSlot). f.device) (other_kept j nj full) in
            let kk = ap (λ (f : FlowSlot). f.device) (other_kept k nk (λ e. full (same ∙ e))) in
            o.distinct j k (λ e. full (kj ∙ e)) (sym kj ∙ same ∙ kk)
      ]
    ]

    Upshot-running : (j : ℕ) → dev fs' j ≢ [] → (slot fs' j).active ≡ true
    Upshot-running j full = elim (ℕ_discrete j i) [
      | yes e ↦ elim u.here [
        | inl h ↦ ap (λ n. (slot fs' n).active) e ∙ h.1
        | inr h ↦ absurd (full (ap (dev fs') e ∙ h.0))
      ]
      | no n ↦
          let kept = other_kept j n full in
          ap (λ (f : FlowSlot). f.active) kept
          ∙ o.running j (λ e. full (ap (λ (f : FlowSlot). f.device) kept ∙ e))
    ]

    Upshot-idle : (j : ℕ) → dev fs' j ≡ [] → (slot fs' j).active ≡ false
    Upshot-idle j free = elim (ℕ_discrete j i) [
      | yes e ↦ elim u.here [
        | inl h ↦ absurd (a.named (sym h.0 ∙ sym (ap (dev fs') e) ∙ free))
        | inr h ↦ ap (λ n. (slot fs' n).active) e ∙ h.1
      ]
      | no n ↦ elim (u.others j n) [
        | inl same ↦
            ap (λ (f : FlowSlot). f.active) same
            ∙ o.idle j (sym (ap (λ (f : FlowSlot). f.device) same) ∙ free)
        | inr gone ↦ ap (λ (f : FlowSlot). f.active) gone.1
      ]
    ]

    pub Upshot-OneFlow : OneFlow fs'
    Upshot-OneFlow = record {
      size = u.size ∙ o.size;
      distinct = Upshot-distinct;
      running = Upshot-running;
      idle = Upshot-idle;
    }

  -- A wanted flow of another device is to be asked for as before.
  pub Upshot-Asks : {w' : Want} → Asks w fs → w.device ≢ w'.device → Asks w' fs → Asks w' fs'
  Upshot-Asks {w'} b ne a = record {
    short = a.short;
    aims = λ j e. elim (ℕ_discrete j i) [
      | yes at ↦ absurd (a.named (sym (a.aims j e) ∙ ap (dev fs) at ∙ u.free))
      | no n ↦ elim (u.others j n) [
        | inl same ↦ ap (λ (f : FlowSlot). f.device) same ∙ a.aims j e
        | inr gone ↦ absurd (ne (sym (b.aims j gone.0) ∙ a.aims j e))
      ]
    ];
    named = a.named;
    points = λ j at. elim (ℕ_discrete j i) [
      | yes e ↦ elim u.here [
        | inl h ↦ absurd (ne (sym h.0 ∙ sym (ap (dev fs') e) ∙ at))
        | inr h ↦ absurd (a.named (sym at ∙ ap (dev fs') e ∙ h.0))
      ]
      | no n ↦
          a.points j (
            sym (ap (λ (f : FlowSlot). f.device) (other_kept j n (λ e. a.named (sym at ∙ e)))) ∙ at)
    ];
  }
