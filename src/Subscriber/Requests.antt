-- ===== src/Subscriber/Requests.antt =====
-- What the requests of a rebuild make of the flow table of main/subscriber.c.
use inferno_esp32_p.Subscriber.Table.{slot, dev, Upshot}
use mathlib.Core.Option.{some-injective, none-ne-some}
use inferno_esp32_p.Subscriber.Commands.{meanwhile, set_status, subscriber_set}
use inferno_esp32_p.Subscriber.Resolve.{set_status_if_current, is_current}
use inferno_esp32_p.Subscriber.Reconcile.{activate_slots, mark_slots, tear_down}
use inferno_esp32_p.Subscriber.Rebuild.{fall_back, free_from, ask}
use inferno_esp32_p.Subscriber.Wants.{Want}
use inferno_esp32_p.Prelude.{
  Bool, List, ℕ, ◌≡◌, [], if_both, set, some, ◌∷◌, leb, take, ◌+◌, ◌<◌, ◌∙◌, get_or, length, refl,
  ◌==◌, none, true, ◌≢◌, get_or-set_other, get_or-set_same, if_split, subst, ◌⊎◌, Option, arith,
  false, sym, length-set, suc, ℕ_discrete, get_or-set_default, inl, inr, ap,
}
use inferno_esp32_p.Subscriber.{
  World, FlowSlot, Patch, Subscriber, sub_active, channel_at, no_slot, nch, slot_at, is_empty,
  no_channel, Snapshot,
}
use inferno_esp32_p.Prelude.Int.{ℤ, pos, negsuc}

pub subscriber_set-flow :
    (opened : Bool) (c : ℕ) (tx_channel tx_device : List ℕ) (s : Subscriber)
    → (subscriber_set opened c tx_channel tx_device s).flow ≡ s.flow
unfolding subscriber_set
subscriber_set-flow opened c tx_channel tx_device s =
    if_both (λ (t : Subscriber). t.flow ≡ s.flow) (leb nch c) refl
      (if_both (λ (t : Subscriber). t.flow ≡ s.flow) opened refl refl)

pub meanwhile-flow : (ps : List Patch) (s : Subscriber) → (meanwhile ps s).flow ≡ s.flow
unfolding meanwhile
meanwhile-flow [] s = refl
meanwhile-flow (p ∷ ps) s =
    meanwhile-flow ps (subscriber_set p.opened p.channel p.tx_channel p.tx_device s)
    ∙ subscriber_set-flow p.opened p.channel p.tx_channel p.tx_device s

set_status-flow : (c st : ℕ) (s : Subscriber) → (set_status c st s).flow ≡ s.flow
unfolding set_status
set_status-flow c st s =
    if_both (λ (t : Subscriber). t.flow ≡ s.flow) ((channel_at s c).status == st) refl refl

pub set_status_if_current-flow :
    (snap : Snapshot) (c st : ℕ) (s : Subscriber)
    → (set_status_if_current snap c st s).flow ≡ s.flow
unfolding set_status_if_current
set_status_if_current-flow snap c st s =
    if_both (λ (t : Subscriber). t.flow ≡ s.flow)
      (is_current (channel_at s c) (get_or snap.ch c no_channel))
      (set_status-flow c st (meanwhile (snap.gaps c st) s) ∙ meanwhile-flow (snap.gaps c st) s) refl

pub mark_slots-flow :
    (snap : Snapshot) (st : ℕ) (cs : List ℤ) (s : Subscriber)
    → (mark_slots snap st cs s).flow ≡ s.flow
unfolding mark_slots
mark_slots-flow snap st [] s = refl
mark_slots-flow snap st (pos c ∷ cs) s =
    mark_slots-flow snap st cs (set_status_if_current snap c st s)
    ∙ set_status_if_current-flow snap c st s
mark_slots-flow snap st (negsuc n ∷ cs) s = mark_slots-flow snap st cs s

pub activate_slots-flow :
    (snap : Snapshot) (f : FlowSlot) (s : Subscriber) → (activate_slots snap f s).flow ≡ s.flow
unfolding activate_slots
activate_slots-flow snap f s = mark_slots-flow snap sub_active (take f.req.nslots f.slot_to_ch) s

pub tear_down-flow :
    (world : World) (i : ℕ) (s : Subscriber) → (tear_down world i s).flow ≡ set s.flow i no_slot
unfolding tear_down
tear_down-flow world i s =
    if_both (λ (t : Subscriber). set t.flow i no_slot ≡ set s.flow i no_slot) (slot_at s i).active
      refl refl

pub fall_back-flow :
    (world : World) (k i old : ℕ) (s : Subscriber)
    → (fall_back world k i old s).0.flow ≡ set s.flow old no_slot
unfolding fall_back ask
fall_back-flow world k i old s = tear_down-flow world old s

-- The first slot without a device is one.
pub free_from_lem :
    (n : ℕ) (fs : List FlowSlot) (i : ℕ)
    → free_from n fs ≡ some i
    → (j : ℕ) × (i ≡ n + j) × (j < length fs) × (dev fs j ≡ [])
unfolding free_from
free_from_lem n [] i = λ e. absurd (none-ne-some i e)
free_from_lem n (f ∷ fs) i =
    if_split
      (λ (o : Option ℕ).
        o ≡ some i → (j : ℕ) × (i ≡ n + j) × (j < suc (length fs)) × (dev (f ∷ fs) j ≡ []))
      (is_empty f.device)
      (λ h e. (0, omega (arith, some-injective n i e), omega arith, empty f.device h))
      (λ _ e.
        let (j, at, lt, free) = free_from_lem (n + 1) fs i e in
        (suc j, omega arith, omega arith, free))
  where
    empty : (xs : List ℕ) → is_empty xs ≡ true → xs ≡ []
    empty [] h = refl
    empty (x ∷ xs) h = cc

module _ (w : Want) (i : ℕ) (fs : List FlowSlot) (free : dev fs i ≡ []) (lt : i < length fs) where
  -- What a new entry `g` for the slot says of it.
  abbrev pub EntryOf : FlowSlot → Type 0
  EntryOf g = ((g.device ≡ w.device) × (g.active ≡ true)) ⊎ ((g.device ≡ []) × (g.active ≡ false))

  pub Upshot-alone :
      (f g : FlowSlot)
      → EntryOf g
      → (w.replaces ≡ none) ⊎ (g.device ≡ [])
      → Upshot w i fs (set (set fs i f) i g)
  Upshot-alone f g here no_old = record {
    size = length-set (set fs i f) i g ∙ length-set fs i f;
    free = free;
    here = subst EntryOf (sym at) here;
    others = λ j ne. inl (
        get_or-set_other (set fs i f) i j g no_slot (λ e. ne (sym e))
        ∙ get_or-set_other fs i j f no_slot (λ e. ne (sym e)));
    retired = λ j ne e full. elim no_old [
      | inl no_one ↦ absurd (none-ne-some j (sym no_one ∙ e))
      | inr empty ↦ absurd (full (ap (λ (x : FlowSlot). x.device) at ∙ empty))
    ];
  }
    where
      at : slot (set (set fs i f) i g) i ≡ g
      at = get_or-set_same (set fs i f) i g no_slot (omega (arith, length-set fs i f))

  module _ (old : ℕ) (rep : w.replaces ≡ some old) (ne_old : old ≢ i) where
    -- A table that differs from the old one in the slot and in the one that is retired.
    Upshot-pair :
        (fs' : List FlowSlot) (g : FlowSlot)
        → EntryOf g
        → slot fs' i ≡ g
        → slot fs' old ≡ no_slot
        → ((j : ℕ) → j ≢ i → j ≢ old → slot fs' j ≡ slot fs j)
        → length fs' ≡ length fs
        → Upshot w i fs fs'
    Upshot-pair fs' g here at gone rest size = record {
      size = size;
      free = free;
      here = subst EntryOf (sym at) here;
      others = λ j ne. elim (ℕ_discrete j old) [
        | yes e ↦ inr (rep ∙ ap some (sym e), ap (slot fs') e ∙ gone)
        | no n ↦ inl (rest j ne n)
      ];
      retired = λ j ne e full. ap (slot fs') (some-injective j old (sym e ∙ rep)) ∙ gone;
    }

    -- Retired after the slot is written, and before.
    pub Upshot-after :
        (f g : FlowSlot) → EntryOf g → Upshot w i fs (set (set (set fs i f) i g) old no_slot)
    Upshot-after f g here =
        Upshot-pair (set (set (set fs i f) i g) old no_slot) g here
          (get_or-set_other (set (set fs i f) i g) old i no_slot no_slot ne_old
            ∙ get_or-set_same (set fs i f) i g no_slot (omega (arith, length-set fs i f)))
          (get_or-set_default (set (set fs i f) i g) old no_slot)
          (λ j ne n.
            get_or-set_other (set (set fs i f) i g) old j no_slot no_slot (λ e. n (sym e))
            ∙ get_or-set_other (set fs i f) i j g no_slot (λ e. ne (sym e))
            ∙ get_or-set_other fs i j f no_slot (λ e. ne (sym e)))
          (length-set (set (set fs i f) i g) old no_slot
            ∙ length-set (set fs i f) i g
            ∙ length-set fs i f)

    pub Upshot-before :
        (f g : FlowSlot) → EntryOf g → Upshot w i fs (set (set (set fs i f) old no_slot) i g)
    Upshot-before f g here =
        Upshot-pair (set (set (set fs i f) old no_slot) i g) g here
          (get_or-set_same (set (set fs i f) old no_slot) i g no_slot
            (omega (arith, length-set fs i f, length-set (set fs i f) old no_slot)))
          (get_or-set_other (set (set fs i f) old no_slot) i old g no_slot (λ e. ne_old (sym e))
            ∙ get_or-set_default (set fs i f) old no_slot)
          (λ j ne n.
            get_or-set_other (set (set fs i f) old no_slot) i j g no_slot (λ e. ne (sym e))
            ∙ get_or-set_other (set fs i f) old j no_slot no_slot (λ e. n (sym e))
            ∙ get_or-set_other fs i j f no_slot (λ e. ne (sym e)))
          (length-set (set (set fs i f) old no_slot) i g
            ∙ length-set (set fs i f) old no_slot
            ∙ length-set fs i f)
