-- ===== src/Reqlog/Adding.antt =====
-- What adding a request to the ring of main/reqlog.c does to its history.
use inferno_esp32_p.Reqlog.{Log, no_entry, entry_at, repeats_entry, overwrite, reqlog_add, rl_n}
use inferno_esp32_p.Prelude.{
  List, length, take, ℕ, min, ◌∷◌, ◌≡◌, ◌≤◌, get_or, suc, ◌+◌, ◌<◌, ◌==◌, ap, arith, ◌&&◌, ◌-◌, ◌^◌,
  ◌%◌, ◌∙◌, ◌≢◌, set, ap₂, sym, false, ℕ_discrete, true, get_or-set_same, if_split, if_true, not,
  if_false,
}
use inferno_esp32_p.Prelude.Words.{inc16, inc32}
use inferno_esp32_p.Reqlog.History.{
  Shown, show, newest_from, history, repeats_shown, fresh, note_request, IsRing, newest_from-set,
  take-newest_from, repeats_entry-show, show-overwrite,
}

module _ (t_ms : ℕ) (svc : List ℕ) (ip : ℕ) (p : List ℕ) (long : 6 ≤ length p)
    (short : length p < 2 ^ 16) where
  -- Behind an entry that is written, the others of its lap are as they were.
  pushed :
      (l : Log)
      → IsRing l
      → newest_from
          (set l.ring (l.wr % rl_n) (overwrite (entry_at l (l.wr % rl_n)) t_ms svc ip p))
          (l.wr + 1)
          (min (l.wr + 1) rl_n)
        ≡ fresh t_ms svc ip p ∷ newest_from l.ring l.wr (min l.wr 23)
  unfolding newest_from
  pushed l r =
      let i = l.wr % rl_n in
      let e = overwrite (entry_at l i) t_ms svc ip p in
      let ring' = set l.ring i e in
      ap (newest_from ring' (l.wr + 1)) {x = min (l.wr + 1) rl_n} {y = suc (min l.wr 23)}
        (omega arith)
      ∙ ap₂ (λ x xs. x ∷ xs)
          (ap (λ m. show (get_or ring' m no_entry)) {x = (l.wr + 1 - 1) % rl_n} {y = i}
              (omega arith)
            ∙ ap show (get_or-set_same l.ring i e no_entry (omega (arith, r.size)))
            ∙ show-overwrite (entry_at l i) t_ms svc ip p short (r.room i))
          (ap (λ m. newest_from ring' m (min l.wr 23)) {x = l.wr + 1 - 1} {y = l.wr} (omega arith)
            ∙ newest_from-set l.ring i e l.wr (min l.wr 23) (omega arith)
                (λ k lt x. absurd (omega arith)))

  -- The count before the last entry, as the code has it.
  abbrev last_of : Log → ℕ
  last_of l = (l.wr + 2 ^ 32 - 1) % 2 ^ 32 % rl_n

  history-last :
      (l : Log)
      → l.wr < 2 ^ 32 - 1
      → l.wr ≢ 0
      → history l
        ≡ show (entry_at l (last_of l)) ∷ newest_from l.ring (l.wr - 1) (min l.wr rl_n - 1)
  unfolding history newest_from
  history-last l count some_entry =
      ap (newest_from l.ring l.wr) {x = min l.wr rl_n} {y = suc (min l.wr rl_n - 1)} (omega arith)
      ∙ ap
          (λ m. show (get_or l.ring m no_entry) ∷ newest_from l.ring (l.wr - 1) (min l.wr rl_n - 1))
          {x = (l.wr - 1) % rl_n} {y = last_of l} (omega arith)

  -- A repeat of the newest entry.
  folded :
      (l : Log)
      → IsRing l
      → l.wr ≢ 0
      → repeats_entry (entry_at l (last_of l)) svc ip p ≡ true
      → history (record l {
        ring = set l.ring (last_of l) (record (entry_at l (last_of l)) {
          repeats = inc16 (entry_at l (last_of l)).repeats;
          t_ms = t_ms;
        });
      })
        ≡ note_request t_ms svc ip p (history l)
  unfolding note_request show
  folded l r some_entry same =
      let k = last_of l in
      let prev = entry_at l k in
      let prev' = record prev { repeats = inc16 prev.repeats; t_ms = t_ms } in
      let l' : Log = record l { ring = set l.ring k prev' } in
      let xs = newest_from l.ring (l.wr - 1) (min l.wr rl_n - 1) in
      let x = show prev in
      history-last l' r.count some_entry
      ∙ ap₂ (λ (y : Shown) ys. y ∷ ys)
          (ap show (get_or-set_same l.ring k prev' no_entry (omega (arith, r.size))))
          (newest_from-set l.ring k prev' (l.wr - 1) (min l.wr rl_n - 1) (omega (arith, r.count))
            (λ j lt e. absurd (omega (arith, r.count))))
      ∙ (sym (
          if_true (repeats_shown x svc ip p)
            (record x { repeats = inc16 x.repeats; t_ms = t_ms } ∷ xs)
            (take rl_n (fresh t_ms svc ip p ∷ x ∷ xs))
            (sym (repeats_entry-show prev svc ip p long) ∙ same)))
      ∙ ap (note_request t_ms svc ip p) (sym (history-last l r.count some_entry))

  -- A request that starts the log, or that does not repeat the newest.
  unfolded :
      (l : Log)
      → IsRing l
      → (not (l.wr == 0) && repeats_entry (entry_at l (last_of l)) svc ip p) ≡ false
      → fresh t_ms svc ip p ∷ newest_from l.ring l.wr (min l.wr 23)
        ≡ note_request t_ms svc ip p (history l)
  unfolding note_request newest_from history
  unfolded l r other = elim (ℕ_discrete l.wr 0) [
    | yes none_yet ↦
        ap (λ n. fresh t_ms svc ip p ∷ newest_from l.ring l.wr n) {x = min l.wr 23} {y = 0}
          (omega arith)
        ∙ ap (note_request t_ms svc ip p) (
            sym (
              unfold history in
              (ap (newest_from l.ring l.wr) {x = min l.wr rl_n} {y = 0} (omega arith))))
    | no some_entry ↦
        let x = show (entry_at l (last_of l)) in
        let xs = newest_from l.ring (l.wr - 1) (min l.wr rl_n - 1) in
        ap (λ ys. fresh t_ms svc ip p ∷ ys)
          (ap (newest_from l.ring l.wr) {x = min l.wr 23} {y = min 23 (min l.wr rl_n)} (omega arith)
            ∙ sym (take-newest_from l.ring 23 l.wr (min l.wr rl_n))
            ∙ ap (take 23) (history-last l r.count some_entry))
        ∙ sym (
            if_false (repeats_shown x svc ip p)
              (record x { repeats = inc16 x.repeats; t_ms = t_ms } ∷ xs)
              (take rl_n (fresh t_ms svc ip p ∷ x ∷ xs))
              (sym (repeats_entry-show (entry_at l (last_of l)) svc ip p long) ∙ ground arith))
        ∙ ap (note_request t_ms svc ip p) (sym (history-last l r.count some_entry))
  ]

  -- From a ring of 24 entries of 96 bytes that has not counted to 2 ^ 32 - 1, a request of 6 bytes
  -- up to 64 KB is logged as the specification says: the history, which is the last 24 entries at
  -- most with the bytes of each request that are kept, newest first, counts the request in its
  -- newest entry where it repeats that, and else has it as a new one.
  pub reqlog_add-history :
      (l : Log)
      → IsRing l
      → history (reqlog_add t_ms svc ip p l) ≡ note_request t_ms svc ip p (history l)
  unfolding reqlog_add history
  reqlog_add-history l r =
      let P : Log → Type 0 = λ l'. history l' ≡ note_request t_ms svc ip p (history l) in
      if_split P (length p == 0) (λ e. absurd (ground arith))
        (λ _.
          if_split P (not (l.wr == 0) && repeats_entry (entry_at l (last_of l)) svc ip p)
            (λ e. folded l r (ground arith) (ground arith))
            (λ e.
              ((ap
                  (λ w.
                    newest_from
                      (set l.ring (l.wr % rl_n)
                        (overwrite (entry_at l (l.wr % rl_n)) t_ms svc ip p))
                      w (min w rl_n))
                  {x = inc32 l.wr} {y = l.wr + 1} (omega (arith, r.count))
                ∙ pushed l r))
              ∙ unfolded l r e))
