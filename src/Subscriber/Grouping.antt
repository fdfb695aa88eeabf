-- ===== src/Subscriber/Grouping.antt =====
-- The wanted flows of main/subscriber.c: one for each transmitter, with the channels subscribed to
-- it.
use inferno_esp32_p.Subscriber.Asked.{want_at, Apart}
use mathlib.Core.Option.{some-injective, none-ne-some}
use inferno_esp32_p.Prelude.{
  List, ℕ, get_or, length, ◌≡◌, ◌≢◌, [], none, set, some, ◌≤◌, get_or-set_cases, subst, ◌+◌, ◌<◌,
  arith, false, sym, ◌∷◌, ap, if_split, inl, ◌∙◌, Option, inr, length-set, suc, refl, ℕ_discrete,
  get_or-set_same, get_or-set_other, zero,
}
use inferno_esp32_p.Subscriber.Wants.{seek_from, Want, add_slot, new_want, no_want}
use inferno_esp32_p.Subscriber.{Channel, no_channel, max_flows, name32, TxChannel, max_ch_per_flow}
use inferno_esp32_p.Prelude.Bytes.{same_bytes, same_bytes-eq, same_bytes_refl}
use inferno_esp32_p.Prelude.Int.{pos}

-- A channel of the snapshot that is subscribed to a device.
abbrev pub SubscribedTo : List Channel → List ℕ → ℕ → Type 0
SubscribedTo snap device c =
    ((get_or snap c no_channel).tx_channel ≢ []) × ((get_or snap c no_channel).tx_device ≡ device)

-- Every subscription names a device, in a name that fits.
abbrev pub DevicesNamed : List Channel → Type 0
DevicesNamed snap =
    (c : ℕ)
    → (get_or snap c no_channel).tx_channel ≢ []
    → ((get_or snap c no_channel).tx_device ≢ [])
      × (name32 (get_or snap c no_channel).tx_device ≡ (get_or snap c no_channel).tx_device)

-- A wanted flow as it is gathered.
pub record IsWanted (snap : List Channel) (w : Want) : Type 0 where
  pub named : w.device ≢ []
  pub short : name32 w.device ≡ w.device
  pub todo : w.done ≡ false
  pub no_old : w.replaces ≡ none
  pub wide : length w.slot_to_ch ≡ max_ch_per_flow
  pub few : w.req.nslots ≤ max_ch_per_flow
  pub demanded : (c : ℕ) × SubscribedTo snap w.device c
  pub carries :
      (k : ℕ)
      → k < w.req.nslots
      → (c : ℕ) × (get_or w.slot_to_ch k (pos 0) ≡ pos c) × SubscribedTo snap w.device c

pub record Grouped (snap : List Channel) (ws : List Want) : Type 0 where
  pub apart : Apart ws
  pub most : length ws ≤ max_flows
  pub each : (n : ℕ) → n < length ws → IsWanted snap (want_at ws n)

pub seek_from_found :
    (i : ℕ) (device : List ℕ) (ws : List Want) (w : ℕ)
    → seek_from i device ws ≡ some w
    → (j : ℕ) × (w ≡ i + j) × (j < length ws) × ((want_at ws j).device ≡ device)
unfolding seek_from
seek_from_found i device [] w = λ e. absurd (none-ne-some w e)
seek_from_found i device (x ∷ ws) w =
    if_split
      (λ (o : Option ℕ).
        o ≡ some w
        → (j : ℕ) × (w ≡ i + j) × (j < suc (length ws)) × ((want_at (x ∷ ws) j).device ≡ device))
      (same_bytes x.device device)
      (λ h e.
        (0, omega (arith, some-injective i w e), omega arith, same_bytes-eq x.device device h))
      (λ _ e.
        let (j, at, lt, same) = seek_from_found (i + 1) device ws w e in
        (suc j, omega arith, omega arith, same))

not_here :
    (x : Want) (ws : List Want) (device : List ℕ)
    → same_bytes x.device device ≡ false
    → ((j : ℕ) → j < length ws → (want_at ws j).device ≢ device)
    → (j : ℕ) → j < suc (length ws)
    → (want_at (x ∷ ws) j).device ≢ device
not_here x ws device h later zero lt same = cc (same_bytes_refl x.device)
not_here x ws device h later (suc j) lt same = later j (omega arith) same

pub seek_from_missed :
    (i : ℕ) (device : List ℕ) (ws : List Want)
    → seek_from i device ws ≡ none
    → (j : ℕ) → j < length ws
    → (want_at ws j).device ≢ device
unfolding seek_from
seek_from_missed i device [] = λ h j lt. absurd (omega arith)
seek_from_missed i device (x ∷ ws) =
    let later = seek_from_missed (i + 1) device ws in
    if_split
      (λ (o : Option ℕ).
        o ≡ none → (j : ℕ) → j < suc (length ws) → (want_at (x ∷ ws) j).device ≢ device)
      (same_bytes x.device device) (λ _ e. absurd (none-ne-some i (sym e)))
      (λ h e. not_here x ws device h (later e))

module _ (snap : List Channel) where
  -- A flow written over one of the same device.
  pub Grouped-set :
      (ws : List Want) (n : ℕ) (w : Want)
      → w.device ≡ (want_at ws n).device
      → IsWanted snap w
      → Grouped snap ws
      → Grouped snap (set ws n w)
  Grouped-set ws n w same ok g = record {
    apart = λ a b la lb e.
        g.apart a b (omega (arith, length-set ws n w)) (omega (arith, length-set ws n w))
          (sym (device a) ∙ e ∙ device b);
    most = omega (arith, length-set ws n w, g.most);
    each = λ a la. elim (get_or-set_cases ws n w no_want a) [
      | inl (e, at) ↦ subst (IsWanted snap) (sym at) ok
      | inr at ↦ subst (IsWanted snap) (sym at) (g.each a (omega (arith, length-set ws n w)))
    ];
  }
    where
      device : (a : ℕ) → (want_at (set ws n w) a).device ≡ (want_at ws a).device
      device a = elim (get_or-set_cases ws n w no_want a) [
        | inl (e, at) ↦
            ap (λ (x : Want). x.device) at ∙ same ∙ ap (λ m. (want_at ws m).device) (sym e)
        | inr at ↦ ap (λ (x : Want). x.device) at
      ]

  module _ (c : ℕ) (ch : Channel) (at_c : get_or snap c no_channel ≡ ch)
      (subscribed : ch.tx_channel ≢ []) where
    pub to_device : SubscribedTo snap ch.tx_device c
    to_device = (
      subst (λ (x : Channel). x.tx_channel ≢ []) (sym at_c) subscribed,
      ap (λ (x : Channel). x.tx_device) at_c,
    )

    pub add_slot-IsWanted :
        (tx : TxChannel) (w : Want)
        → w.device ≡ ch.tx_device
        → w.req.nslots < max_ch_per_flow
        → IsWanted snap w
        → IsWanted snap (add_slot c tx w)
    unfolding add_slot
    add_slot-IsWanted tx w same lt ok = record {
      named = ok.named;
      short = ok.short;
      todo = ok.todo;
      no_old = ok.no_old;
      wide = length-set w.slot_to_ch w.req.nslots (pos c) ∙ ok.wide;
      few = omega arith;
      demanded = ok.demanded;
      carries = λ k lk. elim (ℕ_discrete k w.req.nslots) [
        | yes e ↦ (
          c,
          ap (λ m. get_or (set w.slot_to_ch w.req.nslots (pos c)) m (pos 0)) e
              ∙ get_or-set_same w.slot_to_ch w.req.nslots (pos c) (pos 0) (omega (arith, ok.wide)),
          subst (λ d. SubscribedTo snap d c) (sym same) to_device,
        )
        | no n ↦
            let (c', is, sub) = ok.carries k (omega arith) in
            (
              c',
              get_or-set_other w.slot_to_ch w.req.nslots k (pos c) (pos 0) (λ e. n (sym e)) ∙ is,
              sub,
            )
      ];
    }

    pub new_want-IsWanted :
        (fpp : ℕ) (tx : TxChannel)
        → ch.tx_device ≢ []
        → name32 ch.tx_device ≡ ch.tx_device
        → IsWanted snap (new_want fpp ch tx)
    unfolding new_want
    new_want-IsWanted fpp tx named short = record {
      named = λ e. named (sym short ∙ e);
      short = ap name32 short;
      todo = refl;
      no_old = refl;
      wide = refl;
      few = omega arith;
      demanded = (c, subst (λ d. SubscribedTo snap d c) (sym short) to_device);
      carries = λ k lk. absurd (omega arith);
    }
