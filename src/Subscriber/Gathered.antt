-- ===== src/Subscriber/Gathered.antt =====
-- Step 1 of a rebuild of main/subscriber.c gathers one wanted flow for each transmitter.
use inferno_esp32_p.Subscriber.Asked.{want_at}
use inferno_esp32_p.Subscriber.Grouping.{
  DevicesNamed, IsWanted, Grouped, seek_from_found, seek_from_missed, Grouped-set,
  add_slot-IsWanted, new_want-IsWanted,
}
use mathlib.Core.Option.{some-injective, none-ne-some}
use inferno_esp32_p.Prelude.{
  List, ℕ, get_or, ◌≡◌, ◌≢◌, [], subst, some, sym, ◌<◌, Option, length, none, if◌then◌else◌, ◌++◌,
  leb, ◌∷◌, arith, ◌+◌, ap, length-append, set, get_or-snoc_cases, ◌∙◌, if_split, inl, max, inr,
  ◌/◌, refl,
}
use inferno_esp32_p.Subscriber.{Channel, no_channel, TxChannel, name32, max_flows, max_ch_per_flow}
use inferno_esp32_p.Subscriber.Wants.{
  choose, place, Plan, Want, seek_from, new_want, no_want, add_slot,
}

module _ (snap : List Channel) (named : DevicesNamed snap) where
  module _ (c : ℕ) (ch : Channel) (at_c : get_or snap c no_channel ≡ ch)
      (subscribed : ch.tx_channel ≢ []) where
    ch_named : (ch.tx_device ≢ []) × (name32 ch.tx_device ≡ ch.tx_device)
    ch_named =
        subst (λ (x : Channel). (x.tx_device ≢ []) × (name32 x.tx_device ≡ x.tx_device)) at_c
          (named c (subst (λ (x : Channel). x.tx_channel ≢ []) (sym at_c) subscribed))

    -- A new flow at the end.
    Grouped-snoc :
        (fpp : ℕ) (tx : TxChannel) (ws : List Want)
        → ((j : ℕ) → j < length ws → (want_at ws j).device ≢ ch.tx_device)
        → length ws < max_flows
        → Grouped snap ws
        → Grouped snap (ws ++ new_want fpp ch tx ∷ [])
    Grouped-snoc fpp tx ws missed lt g = record {
      apart = λ a b la lb e. elim (get_or-snoc_cases ws new no_want a (omega (arith, len))) [
        | inl (xa, ea) ↦ elim (get_or-snoc_cases ws new no_want b (omega (arith, len))) [
          | inl (xb, eb) ↦ g.apart a b xa xb (sym (dev_of ea) ∙ e ∙ dev_of eb)
          | inr (xb, eb) ↦ absurd (missed a xa (sym (dev_of ea) ∙ e ∙ dev_of eb ∙ new_device))
        ]
        | inr (xa, ea) ↦ elim (get_or-snoc_cases ws new no_want b (omega (arith, len))) [
          | inl (xb, eb) ↦ absurd (missed b xb (sym (dev_of eb) ∙ sym e ∙ dev_of ea ∙ new_device))
          | inr (xb, eb) ↦ xa ∙ sym xb
        ]
      ];
      most = omega (arith, len);
      each = λ a la. elim (get_or-snoc_cases ws new no_want a (omega (arith, len))) [
        | inl (xa, ea) ↦ subst (IsWanted snap) (sym ea) (g.each a xa)
        | inr (xa, ea) ↦
            subst (IsWanted snap) (sym ea)
              (new_want-IsWanted snap c ch at_c subscribed fpp tx ch_named.0 ch_named.1)
      ];
    }
      where
        new : Want
        new = new_want fpp ch tx

        len : length (ws ++ new_want fpp ch tx ∷ []) ≡ length ws + 1
        len = length-append ws (new_want fpp ch tx ∷ [])

        dev_of : {x y : Want} → x ≡ y → x.device ≡ y.device
        dev_of e = ap (λ (w : Want). w.device) e

        new_device : (new_want fpp ch tx).device ≡ ch.tx_device
        new_device = unfold new_want in ch_named.1

    choose-Grouped :
        (fpp : ℕ) (tx : TxChannel) (ws ws' : List Want) (w : ℕ)
        → Grouped snap ws
        → choose fpp ch tx ws ≡ some (ws', w)
        → Grouped snap ws' × (w < length ws') × ((want_at ws' w).device ≡ ch.tx_device)
    unfolding choose
    choose-Grouped fpp tx ws ws' w g = by (seek_from 0 ch.tx_device ws) refl
      where
        by :
            (o : Option ℕ)
            → seek_from 0 ch.tx_device ws ≡ o
            → (elim o as (λ _. Option (List Want × ℕ)) [
              | some w ↦ some (ws, w)
              | none ↦
                  (if leb max_flows (length ws)
                    then none
                    else some (ws ++ new_want fpp ch tx ∷ [], length ws))
            ])
              ≡ some (ws', w)
            → Grouped snap ws' × (w < length ws') × ((want_at ws' w).device ≡ ch.tx_device)
        by (some j) found = λ e.
            let (i, at, lt, same) = seek_from_found 0 ch.tx_device ws j found in
            let e' : (ws, j) ≡ (ws', w) = some-injective (ws, j) (ws', w) e in
            subst
              (λ (p : List Want × ℕ).
                Grouped snap p.0 × (p.1 < length p.0) × ((want_at p.0 p.1).device ≡ ch.tx_device))
              e' (g, omega arith, ap (λ m. (want_at ws m).device) (omega arith) ∙ same)
        by none missed =
            if_split
              (λ (o : Option (List Want × ℕ)).
                o ≡ some (ws', w)
                → Grouped snap ws' × (w < length ws') × ((want_at ws' w).device ≡ ch.tx_device))
              (leb max_flows (length ws)) (λ _ e. absurd (none-ne-some (ws', w) e))
              (λ room e.
                let ws2 = ws ++ new_want fpp ch tx ∷ [] in
                let len : length ws2 ≡ length ws + 1 = length-append ws (new_want fpp ch tx ∷ []) in
                subst
                  (λ (p : List Want × ℕ).
                    Grouped snap p.0
                    × (p.1 < length p.0)
                    × ((want_at p.0 p.1).device ≡ ch.tx_device))
                  (some-injective (ws2, length ws) (ws', w) e)
                  (
                    Grouped-snoc fpp tx ws (seek_from_missed 0 ch.tx_device ws missed)
                        (ground arith) g,
                    omega arith,
                    elim (get_or-snoc_cases ws (new_want fpp ch tx) no_want (length ws)
                        (omega arith)) [
                          | inl (lt, at) ↦ absurd (omega arith)
                          | inr (lt, at) ↦
                              ap (λ (x : Want). x.device) at ∙ (unfold new_want in ch_named.1)
                        ],
                  ))

    pub place-Grouped :
        (fpp : ℕ) (tx : TxChannel) (plan plan' : Plan)
        → Grouped snap plan.wants
        → place fpp c ch tx plan ≡ some plan'
        → Grouped snap plan'.wants
    unfolding place
    place-Grouped fpp tx plan plan' g = by (choose fpp ch tx plan.wants) refl
      where
        by :
            (o : Option (List Want × ℕ))
            → choose fpp ch tx plan.wants ≡ o
            → (elim o as (λ _. Option Plan) [
              | none ↦ none
              | some (ws, w) ↦
                  (if leb max_ch_per_flow (get_or ws w no_want).req.nslots
                    then none
                    else some (record {
                      wants = set ws w (add_slot c tx (get_or ws w no_want));
                      floor_us = max plan.floor_us (tx.latency_ns / 1000);
                    }))
            ])
              ≡ some plan'
            → Grouped snap plan'.wants
        by none _ = λ e. absurd (none-ne-some plan' e)
        by (some (ws, w)) chosen =
            let (g', lt, same) = choose-Grouped fpp tx plan.wants ws w g chosen in
            if_split (λ (o : Option Plan). o ≡ some plan' → Grouped snap plan'.wants)
              (leb max_ch_per_flow (get_or ws w no_want).req.nslots)
              (λ _ e. absurd (none-ne-some plan' e))
              (λ room e.
                let next : Plan = record {
                  wants = set ws w (add_slot c tx (get_or ws w no_want));
                  floor_us = max plan.floor_us (tx.latency_ns / 1000);
                } in
                subst (λ (p : Plan). Grouped snap p.wants) (some-injective next plan' e)
                  (Grouped-set snap ws w (add_slot c tx (get_or ws w no_want))
                    (unfold add_slot in refl)
                    (add_slot-IsWanted snap c ch at_c subscribed tx (get_or ws w no_want) same
                      (ground arith) (g'.each w lt))
                    g'))
