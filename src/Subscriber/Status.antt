-- ===== src/Subscriber/Status.antt =====
-- The statuses of main/subscriber.c: a channel without a subscription never has one.
use inferno_esp32_p.Subscriber.{
  Subscriber, Channel, World, Patch, no_channel, channel_at, with_channel, is_empty, sub_none,
  name32, nch, TxChannel, sub_pending, Snapshot, snapshot,
}
use inferno_esp32_p.Subscriber.Commands.{
  subscriber_set, subscriber_rename, set_status, meanwhile, save,
}
use inferno_esp32_p.Subscriber.Resolve.{
  resolve_cached, is_current, set_status_if_current, is_hit, entry_at,
}
use inferno_esp32_p.Subscriber.Wants.{Plan, place, place_or_pend, want_channel, want_from, gather}
use inferno_esp32_p.Prelude.{
  ℕ, Bool, Option, none, some, true, false, not, List, [], ◌∷◌, ◌≡◌, ◌==◌, get_or, get_or-set, refl,
  arith, if_both, if_split, leb, subst, sym, ◌+◌, if◌then◌else◌, get_or-set_cases, inl, ap, ◌∙◌,
  inr,
}
use inferno_esp32_p.Prelude.Words.{inc32}
use inferno_esp32_p.ChanResolve.Answers.{chan_resolve}

abbrev pub NoGhost : Channel → Type 0
NoGhost x = x.tx_channel ≡ [] → x.status ≡ sub_none

abbrev pub NoGhosts : List Channel → Type 0
NoGhosts chs = (c : ℕ) → NoGhost (get_or chs c no_channel)

-- What a save, a notification and such leave alone.
pub save-ch : (opened : Bool) (s : Subscriber) → (save opened s).ch ≡ s.ch
unfolding save
save-ch opened s = if_both (λ (t : Subscriber). t.ch ≡ s.ch) opened refl refl

take_cons : (xs : List ℕ) → is_empty xs ≡ false → name32 xs ≡ [] → is_empty xs ≡ true
take_cons [] h e = refl
take_cons (x ∷ xs) h e = cc

pub subscriber_set-NoGhosts :
    (opened : Bool) (c : ℕ) (tx_channel tx_device : List ℕ) (s : Subscriber)
    → NoGhosts s.ch
    → NoGhosts (subscriber_set opened c tx_channel tx_device s).ch
unfolding subscriber_set
subscriber_set-NoGhosts opened c tx_channel tx_device s h =
    if_both (λ (t : Subscriber). NoGhosts t.ch) (leb nch c) h
      (subst NoGhosts (sym (save-ch opened _)) (
        get_or-set NoGhost s.ch no_channel c _
          (if_split NoGhost (is_empty tx_channel) (λ e _. refl)
            (λ e empty. cc (take_cons tx_channel e empty)))
          h))

pub subscriber_rename-NoGhosts :
    (opened : Bool) (c : ℕ) (friendly : List ℕ) (s : Subscriber)
    → NoGhosts s.ch
    → NoGhosts (subscriber_rename opened c friendly s).ch
unfolding subscriber_rename
subscriber_rename-NoGhosts opened c friendly s h =
    if_both (λ (t : Subscriber). NoGhosts t.ch) (leb nch c) h
      (subst NoGhosts (sym (save-ch opened _)) (get_or-set NoGhost s.ch no_channel c _ (h c) h))

pub meanwhile-NoGhosts :
    (ps : List Patch) (s : Subscriber) → NoGhosts s.ch → NoGhosts (meanwhile ps s).ch
unfolding meanwhile
meanwhile-NoGhosts [] s h = h
meanwhile-NoGhosts (p ∷ ps) s h =
    meanwhile-NoGhosts ps (subscriber_set p.opened p.channel p.tx_channel p.tx_device s)
      (subscriber_set-NoGhosts p.opened p.channel p.tx_channel p.tx_device s h)

is_current_subscribed :
    (x snap : Channel) → is_current x snap ≡ true → is_empty x.tx_channel ≡ false
unfolding is_current
is_current_subscribed x snap h = ground arith

-- None of the commands ends the subscription of the channel `c`.
abbrev pub Keeps : ℕ → List Patch → Type 0
Keeps c [] = Unit {0}
Keeps c (p ∷ ps) = ((p.channel ≡ c → is_empty p.tx_channel ≡ false)) × Keeps c ps

-- No command in a gap ends the subscription of the channel whose status is written then.
abbrev pub QuietGaps : (ℕ → ℕ → List Patch) → Type 0
QuietGaps gaps = (c st : ℕ) → Keeps c (gaps c st)

is_empty-take : (xs : List ℕ) → is_empty (name32 xs) ≡ is_empty xs
is_empty-take [] = refl
is_empty-take (x ∷ xs) = refl

-- A command for another channel, or with a name, leaves a subscribed channel subscribed.
subscriber_set-subscribed :
    (opened : Bool) (d c : ℕ) (nm dev : List ℕ) (s : Subscriber)
    → (d ≡ c → is_empty nm ≡ false)
    → is_empty (channel_at s c).tx_channel ≡ false
    → is_empty (channel_at (subscriber_set opened d nm dev s) c).tx_channel ≡ false
unfolding subscriber_set
subscriber_set-subscribed opened d c nm dev s keeps h =
    let P : Subscriber → Type 0 = λ t. is_empty (channel_at t c).tx_channel ≡ false in
    let y : Channel =
      if is_empty nm
      then record (channel_at s d) { tx_channel = []; tx_device = []; status = sub_none }
      else record (channel_at s d) {
        tx_channel = name32 nm;
        tx_device = name32 dev;
        status = sub_pending;
      } in
    if_both P (leb nch d) h (
      subst (λ (xs : List Channel). is_empty (get_or xs c no_channel).tx_channel ≡ false)
        (sym (save-ch opened _))
        (elim (get_or-set_cases s.ch d y no_channel c) [
          | inl (e, at) ↦
              ap (λ (z : Channel). is_empty z.tx_channel) at
              ∙ if_split (λ (z : Channel). is_empty z.tx_channel ≡ false) (is_empty nm)
                  (λ empty. cc (keeps (sym e))) (λ full. is_empty-take nm ∙ full)
          | inr at ↦ ap (λ (z : Channel). is_empty z.tx_channel) at ∙ h
        ]))

meanwhile-subscribed :
    (ps : List Patch) (c : ℕ) (s : Subscriber)
    → Keeps c ps
    → is_empty (channel_at s c).tx_channel ≡ false
    → is_empty (channel_at (meanwhile ps s) c).tx_channel ≡ false
unfolding meanwhile
meanwhile-subscribed [] c s k h = h
meanwhile-subscribed (p ∷ ps) c s (k, ks) h =
    meanwhile-subscribed ps c (subscriber_set p.opened p.channel p.tx_channel p.tx_device s) ks
      (subscriber_set-subscribed p.opened p.channel c p.tx_channel p.tx_device s k h)

set_status-NoGhosts :
    (c st : ℕ) (s : Subscriber)
    → is_empty (channel_at s c).tx_channel ≡ false
    → NoGhosts s.ch
    → NoGhosts (set_status c st s).ch
unfolding set_status
set_status-NoGhosts c st s sub h =
    if_both (λ (t : Subscriber). NoGhosts t.ch) ((channel_at s c).status == st) all all
  where
    all : NoGhosts (with_channel s c (record (channel_at s c) { status = st })).ch
    all =
        get_or-set NoGhost s.ch no_channel c (record (channel_at s c) { status = st })
          (λ e. ground (arith, e, sub)) h

pub set_status_if_current-NoGhosts :
    (snap : Snapshot) (quiet : QuietGaps snap.gaps) (c st : ℕ) (s : Subscriber)
    → NoGhosts s.ch
    → NoGhosts (set_status_if_current snap c st s).ch
unfolding set_status_if_current
set_status_if_current-NoGhosts snap quiet c st s h =
    if_split (λ (t : Subscriber). NoGhosts t.ch)
      (is_current (channel_at s c) (get_or snap.ch c no_channel))
      (λ e.
        set_status-NoGhosts c st (meanwhile (snap.gaps c st) s)
          (meanwhile-subscribed (snap.gaps c st) c s (quiet c st)
            (is_current_subscribed (channel_at s c) (get_or snap.ch c no_channel) e))
          (meanwhile-NoGhosts (snap.gaps c st) s h))
      (λ _. h)

resolve_cached-ch :
    (c : ℕ) (ch : Channel) (lookup : Option TxChannel) (s : Subscriber)
    → (resolve_cached c ch lookup s).0.ch ≡ s.ch
unfolding resolve_cached
resolve_cached-ch c ch none s =
    if_both (λ (p : Subscriber × Option TxChannel). p.0.ch ≡ s.ch) (is_hit (entry_at s c) ch) refl
      refl
resolve_cached-ch c ch (some tx) s =
    if_both (λ (p : Subscriber × Option TxChannel). p.0.ch ≡ s.ch) (is_hit (entry_at s c) ch) refl
      refl

place_or_pend-NoGhosts :
    (snap : Snapshot) (quiet : QuietGaps snap.gaps) (fpp c : ℕ) (ch : Channel) (tx : TxChannel)
    (s : Subscriber) (plan : Plan)
    → NoGhosts s.ch
    → NoGhosts (place_or_pend snap fpp c ch tx (s, plan)).0.ch
unfolding place_or_pend
place_or_pend-NoGhosts snap quiet fpp c ch tx s plan h =
    elim (place fpp c ch tx plan)
      as (λ o.
        NoGhosts
          (elim o as (λ _. Subscriber × Plan) [
            | none ↦ (set_status_if_current snap c sub_pending s, plan)
            | some plan' ↦ (s, plan')
          ]).0.ch) [
            | none ↦ set_status_if_current-NoGhosts snap quiet c sub_pending s h
            | some plan' ↦ h
          ]

want_channel-NoGhosts :
    (world : World) (snap : Snapshot) (quiet : QuietGaps snap.gaps) (c : ℕ) (ch : Channel)
    (s : Subscriber) (plan : Plan)
    → NoGhosts s.ch
    → NoGhosts (want_channel world snap c ch (s, plan)).0.ch
unfolding want_channel
want_channel-NoGhosts world snap quiet c ch s plan h =
    let s0 = meanwhile (world.patches c) s in
    let h0 = meanwhile-NoGhosts (world.patches c) s h in
    if_both (λ (p : Subscriber × Plan). NoGhosts p.0.ch) (is_empty ch.tx_channel) h0
      (found (resolve_cached c ch (chan_resolve (world.answers c)) s0)
        (subst NoGhosts (sym (resolve_cached-ch c ch (chan_resolve (world.answers c)) s0)) h0))
  where
    found :
        (r : Subscriber × Option TxChannel)
        → NoGhosts r.0.ch
        → NoGhosts
            (elim r.1 as (λ _. Subscriber × Plan) [
              | none ↦ (
                set_status_if_current snap c sub_pending (record r.0 {
                  stats = record r.0.stats { resolve_failed = inc32 r.0.stats.resolve_failed };
                }),
                plan,
              )
              | some tx ↦
                  (if not (tx.sample_rate == world.hz)
                    then (set_status_if_current snap c sub_pending r.0, plan)
                    else place_or_pend snap world.fpp c ch tx (r.0, plan))
            ]).0.ch
    found (s1, none) k =
        set_status_if_current-NoGhosts snap quiet c sub_pending
          (record s1 { stats = record s1.stats { resolve_failed = inc32 s1.stats.resolve_failed } })
          k
    found (s1, some tx) k =
        if_both (λ (p : Subscriber × Plan). NoGhosts p.0.ch) (not (tx.sample_rate == world.hz))
          (set_status_if_current-NoGhosts snap quiet c sub_pending s1 k)
          (place_or_pend-NoGhosts snap quiet world.fpp c ch tx s1 plan k)

want_from-NoGhosts :
    (world : World) (snap : Snapshot) (quiet : QuietGaps snap.gaps) (c : ℕ) (chs : List Channel)
    (sp : Subscriber × Plan)
    → NoGhosts sp.0.ch
    → NoGhosts (want_from world snap c chs sp).0.ch
unfolding want_from
want_from-NoGhosts world snap quiet c [] sp h = h
want_from-NoGhosts world snap quiet c (ch ∷ chs) sp h =
    want_from-NoGhosts world snap quiet (c + 1) chs (want_channel world snap c ch sp)
      (want_channel-NoGhosts world snap quiet c ch sp.0 sp.1 h)

pub gather-NoGhosts :
    (world : World) (s : Subscriber)
    → QuietGaps world.gaps
    → NoGhosts s.ch
    → NoGhosts (gather world s).0.ch
unfolding gather
gather-NoGhosts world s quiet h =
    want_from-NoGhosts world (snapshot world s) quiet 0 s.ch
      (s, record { wants = []; floor_us = 0 }) h
