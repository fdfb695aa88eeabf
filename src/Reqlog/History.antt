-- ===== src/Reqlog/History.antt =====
-- The ring of main/reqlog.c against a plain list of the last requests, newest first.
use inferno_esp32_p.Reqlog.{Entry, Log, no_entry, keep, repeats_entry, overwrite, rl_n, rl_bytes}
use inferno_esp32_p.Prelude.{
  List, length, take, ℕ, Bool, [], drop, min, ◌∷◌, ◌≡◌, ◌≤◌, get_or, if◌then◌else◌, suc, ◌+◌, ◌<◌,
  ◌==◌, ap, arith, ◌&&◌, ◌-◌, ◌^◌, zero, ◌%◌, ◌∙◌, refl, ◌≢◌, set, ap₂, get_or-set_other, sym,
  false, ℕ_discrete, length-drop, length-take, true,
}
use inferno_esp32_p.Prelude.Words.{inc16}
use inferno_esp32_p.Prelude.Bytes.{same_bytes, write_at, take-write_at}
use inferno_esp32_p.Prelude.Append.{take-take}

-- A request as the log shows it: only the bytes of the request itself.
pub record Shown : Type 0 where
  pub t_ms : ℕ
  pub ip : ℕ
  pub svc : List ℕ
  pub len : ℕ
  pub repeats : ℕ
  pub bytes : List ℕ

unfoldable pub show : Entry → Shown
show e = record {
  t_ms = e.t_ms;
  ip = e.ip;
  svc = e.svc;
  len = e.len;
  repeats = e.repeats;
  bytes = take (min e.len rl_bytes) e.bytes;
}

-- The last `n` entries before the count `wr`, newest first.
unfoldable pub newest_from : List Entry → ℕ → ℕ → List Shown
newest_from ring wr zero = []
newest_from ring wr (suc n) =
    show (get_or ring ((wr - 1) % rl_n) no_entry) ∷ newest_from ring (wr - 1) n

-- The abstract log.
unfoldable pub history : Log → List Shown
history l = newest_from l.ring l.wr (min l.wr rl_n)

-- The specification: a request that repeats the newest one, in all but the sequence number and
-- within the bytes shown, is counted there; any other is put before it, and 24 are kept.
unfoldable pub repeats_shown : Shown → List ℕ → ℕ → List ℕ → Bool
repeats_shown x svc ip p =
    x.len == length p
    && x.ip == ip
    && same_bytes x.svc svc
    && same_bytes (take 4 x.bytes) (take 4 p)
    && same_bytes (drop 6 x.bytes) (drop 6 (take rl_bytes p))

abbrev pub fresh : ℕ → List ℕ → ℕ → List ℕ → Shown
fresh t_ms svc ip p = record {
  t_ms = t_ms;
  ip = ip;
  svc = take 5 svc;
  len = length p;
  repeats = 0;
  bytes = take rl_bytes p;
}

unfoldable pub note_request : ℕ → List ℕ → ℕ → List ℕ → List Shown → List Shown
note_request t_ms svc ip p [] = fresh t_ms svc ip p ∷ []
note_request t_ms svc ip p (x ∷ xs) =
    if repeats_shown x svc ip p
    then record x { repeats = inc16 x.repeats; t_ms = t_ms } ∷ xs
    else take rl_n (fresh t_ms svc ip p ∷ x ∷ xs)

-- A ring of 24 entries with room for 96 bytes each, before its count wraps.
pub record IsRing (l : Log) : Type 0 where
  pub size : length l.ring ≡ rl_n
  pub room : (i : ℕ) → length (get_or l.ring i no_entry).bytes ≡ rl_bytes
  pub count : l.wr < 2 ^ 32 - 1

take_nil : (n : ℕ) → take {A = ℕ} n [] ≡ []
take_nil zero = refl
take_nil (suc n) = refl

drop-take : (a b n : ℕ) (xs : List ℕ) → n ≡ a + b → drop a (take n xs) ≡ take b (drop a xs)
drop-take zero b n xs e = ap (λ m. take m xs) (omega arith)
drop-take (suc a) b n [] e = ap (drop (suc a)) (take_nil n) ∙ sym (take_nil b)
drop-take (suc a) b zero (x ∷ xs) e = absurd (omega arith)
drop-take (suc a) b (suc n) (x ∷ xs) e = drop-take a b n xs (omega arith)

take-min : (n : ℕ) (xs : List ℕ) → take n xs ≡ take (min n (length xs)) xs
take-min zero xs = ap (λ m. take m xs) {x = 0} {y = min 0 (length xs)} (omega arith)
take-min (suc n) [] = sym (take_nil (min (suc n) 0))
take-min (suc n) (x ∷ xs) =
    ap (λ zs. x ∷ zs) (take-min n xs)
    ∙ ap (λ m. take m (x ∷ xs)) {x = suc (min n (length xs))} {y = min (suc n) (suc (length xs))}
        (omega arith)

-- Entries at other counts within a lap stay.
pub newest_from-set :
    (ring : List Entry) (i : ℕ) (e : Entry) (wr n : ℕ)
    → n ≤ wr
    → ((k : ℕ) → k < n → (wr - 1 - k) % rl_n ≢ i)
    → newest_from (set ring i e) wr n ≡ newest_from ring wr n
unfolding newest_from
newest_from-set ring i e wr zero h apart = refl
newest_from-set ring i e wr (suc n) h apart =
    ap₂ (λ x xs. x ∷ xs)
      (ap show (
        get_or-set_other ring i ((wr - 1) % rl_n) e no_entry
          (λ x. apart 0 (omega arith) (ap (λ m. m % rl_n) (omega arith) ∙ sym x))))
      (newest_from-set ring i e (wr - 1) n (omega arith)
        (λ k lt x. apart (suc k) (omega arith) (ap (λ m. m % rl_n) (omega arith) ∙ x)))

pub take-newest_from :
    (ring : List Entry) (a wr n : ℕ)
    → take a (newest_from ring wr n) ≡ newest_from ring wr (min a n)
unfolding newest_from
take-newest_from ring zero wr n = ap (newest_from ring wr) {x = 0} {y = min 0 n} (omega arith)
take-newest_from ring (suc a) wr zero =
    ap (newest_from ring wr) {x = 0} {y = min (suc a) 0} (omega arith)
take-newest_from ring (suc a) wr (suc n) =
    ap (λ zs. show (get_or ring ((wr - 1) % rl_n) no_entry) ∷ zs)
      (take-newest_from ring a (wr - 1) n)
    ∙ ap (newest_from ring wr) {x = suc (min a n)} {y = min (suc a) (suc n)} (omega arith)

-- The two comparisons agree.
pub repeats_entry-show :
    (e : Entry) (svc : List ℕ) (ip : ℕ) (p : List ℕ)
    → 6 ≤ length p
    → repeats_entry e svc ip p ≡ repeats_shown (show e) svc ip p
unfolding repeats_entry repeats_shown show
repeats_entry-show e svc ip p long = elim (ℕ_discrete e.len (length p)) [
  | yes same ↦
      ap₂ (λ a b. e.len == length p && e.ip == ip && same_bytes e.svc svc && a && b)
        (ap (λ xs. same_bytes xs (take 4 p))
          (sym (take-take 4 (min e.len rl_bytes) e.bytes (omega arith))))
        (ap₂ same_bytes (sym (drop-take 6 (keep p - 6) (min e.len rl_bytes) e.bytes (omega arith)))
          (sym (
            drop-take 6 90 rl_bytes p refl
            ∙ take-min 90 (drop 6 p)
            ∙ ap (λ m. take m (drop 6 p)) {x = min 90 (length (drop 6 p))} {y = keep p - 6}
                (omega (arith, length-drop 6 p)))))
  | no other ↦
      cut (e.len == length p) (ground arith) (e.ip == ip) (same_bytes e.svc svc)
        (same_bytes (take 4 e.bytes) (take 4 p))
        (same_bytes (take (keep p - 6) (drop 6 e.bytes)) (take (keep p - 6) (drop 6 p)))
        (same_bytes (take 4 (show e).bytes) (take 4 p))
        (same_bytes (drop 6 (show e).bytes) (drop 6 (take rl_bytes p)))
]
  where
    cut :
        (t : Bool)
        → t ≡ false
        → (i s a b a' b' : Bool) → (t && i && s && a && b) ≡ (t && i && s && a' && b')
    cut true h i s a b a' b' = cc
    cut false h i s a b a' b' = refl

pub show-overwrite :
    (e : Entry) (t_ms : ℕ) (svc : List ℕ) (ip : ℕ) (p : List ℕ)
    → length p < 2 ^ 16
    → length e.bytes ≡ rl_bytes
    → show (overwrite e t_ms svc ip p) ≡ fresh t_ms svc ip p
unfolding show overwrite
show-overwrite e t_ms svc ip p short room =
    ap₂
      (λ n xs.
        let x : Shown = record {
          t_ms = t_ms;
          ip = ip;
          svc = take 5 svc;
          len = n;
          repeats = 0;
          bytes = xs;
        } in
        x)
      whole bytes
  where
    whole : length p % 2 ^ 16 ≡ length p
    whole = omega arith

    bytes :
        take (min (length p % 2 ^ 16) rl_bytes) (write_at e.bytes 0 (take (keep p) p))
        ≡ take rl_bytes p
    bytes =
        take-write_at e.bytes 0 (take (keep p) p) (min (length p % 2 ^ 16) rl_bytes)
          (omega (arith, length-take (keep p) p)) (omega arith)
        ∙ ap (λ m. take m p) {x = keep p} {y = min rl_bytes (length p)} (omega arith)
        ∙ sym (take-min rl_bytes p)
