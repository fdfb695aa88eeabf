-- ===== src/AudioRx/Missed.antt =====
-- The count of missed packets of a flow.
use inferno_esp32_p.AudioRx.{Flow}
use inferno_esp32_p.AudioRx.Packet.{
  count_missed, expect_next, ahead_of, gap, Now, flow_after, note_latency, latency,
}
use inferno_esp32_p.Prelude.{
  ℕ, ◌≡◌, List, ◌∷◌, ◌+◌, [], ◌*◌, true, ◌<◌, ◌≤◌, ◌^◌, ap, arith, ◌-◌, refl, suc, ◌%◌, ◌∙◌, zero,
  ◌/◌, le→ltb_false, not, ◌&&◌, ◌||◌, ap₂, false, Bool, if_false, if_true, lt→ltb, if◌then◌else◌,
  Option, none, some,
}
use inferno_esp32_p.Prelude.Words.{to_signed, inc32, to_i32}
use inferno_esp32_p.Prelude.Int.{pos, ltb_ℤ, ℤ}
use native.Mathlib.Nat.{mul-div_left, mod-eq_of_lt}

-- What a packet at `idx` does to the count of its flow.
abbrev pub arrive : ℕ → ℕ → Flow → Flow
arrive n idx f = expect_next idx n (count_missed idx n f)

to_signed_small : (m : ℕ) → m < 2 ^ 63 → to_signed 64 m ≡ pos m
unfolding to_signed
to_signed_small m h = ground arith

-- Forward by `d` in the lower half of the range.
forward : (a b d : ℕ) → a ≡ b + d → a < 2 ^ 63 → (a + 2 ^ 64 - b) % 2 ^ 64 ≡ d
forward a b d e h = omega arith

ahead_of_forward : (a b d : ℕ) → a ≡ b + d → a < 2 ^ 63 → ahead_of a b ≡ pos d
unfolding ahead_of
ahead_of_forward a b d e h = ap (to_signed 64) (forward a b d e h) ∙ to_signed_small d (omega arith)

gap_forward : (a b k n : ℕ) → a ≡ b + k * n → a < 2 ^ 63 → 0 < n → k ≤ 1000 → gap a b n ≡ k
unfolding gap
gap_forward a b k n e h p q =
    let g : (a + 2 ^ 64 - b) % 2 ^ 64 / n ≡ k =
      ap (λ (x : ℕ). x / n) (forward a b (k * n) e h) ∙ mul-div_left k p in
    rw (g, le→ltb_false 1000 k q) refl

count_missed_forward :
    (n k idx : ℕ) (f : Flow)
    → f.have_next ≡ true
    → idx ≡ f.next_idx + k * n
    → idx < 2 ^ 63
    → 0 < n
    → k ≤ 1000
    → f.missed + k < 2 ^ 32
    → count_missed idx n f ≡ record f { missed = f.missed + k }
unfolding count_missed
count_missed_forward n zero idx f h e r p q s =
    let a = ahead_of_forward idx f.next_idx (0 * n) e r in
    let still : (f.have_next && ltb_ℤ (pos 0) (ahead_of idx f.next_idx)) ≡ false =
      ap₂ (λ (b : Bool) (x : ℤ). b && ltb_ℤ (pos 0) x) h a
      ∙ le→ltb_false 0 (0 * n + 0) (omega arith) in
    if_false (f.have_next && ltb_ℤ (pos 0) (ahead_of idx f.next_idx)) _ _ still
    ∙ ap (λ (m : ℕ). record f { missed = m }) (omega arith)
count_missed_forward n (suc k) idx f h e r p q s =
    let a = ahead_of_forward idx f.next_idx (suc k * n) e r in
    let g = gap_forward idx f.next_idx (suc k) n e r p q in
    let jump : (f.have_next && ltb_ℤ (pos 0) (ahead_of idx f.next_idx)) ≡ true =
      ap₂ (λ (b : Bool) (x : ℤ). b && ltb_ℤ (pos 0) x) h a
      ∙ lt→ltb 0 (suc k * n + 0) (omega arith) in
    let total : (f.missed + gap idx f.next_idx n) % 2 ^ 32 ≡ f.missed + suc k =
      ap (λ (x : ℕ). (f.missed + x) % 2 ^ 32) g ∙ mod-eq_of_lt s in
    if_true (f.have_next && ltb_ℤ (pos 0) (ahead_of idx f.next_idx)) _ _ jump
    ∙ ap (λ (m : ℕ). record f { missed = m }) total

expect_next_forward :
    (n d idx : ℕ) (f : Flow)
    → f.have_next ≡ true
    → idx ≡ f.next_idx + d
    → idx + n < 2 ^ 63
    → expect_next idx n f ≡ record f { next_idx = idx + n; have_next = true }
unfolding expect_next
expect_next_forward n d idx f h e r =
    let a = ahead_of_forward idx f.next_idx d e (omega arith) in
    let w : (idx + n) % 2 ^ 64 ≡ idx + n = omega arith in
    let on : (not f.have_next || not (ltb_ℤ (ahead_of idx f.next_idx) (pos 0))) ≡ true =
      ap₂ (λ (b : Bool) (x : ℤ). not b || not (ltb_ℤ x (pos 0))) h a
      ∙ ap not (le→ltb_false (d + 0) 0 (omega arith)) in
    if_true (not f.have_next || not (ltb_ℤ (ahead_of idx f.next_idx) (pos 0))) _ _ on
    ∙ ap (λ (m : ℕ). record f { next_idx = m; have_next = true }) w

arrive_forward :
    (n k idx : ℕ) (f : Flow)
    → f.have_next ≡ true
    → idx ≡ f.next_idx + k * n
    → idx + n < 2 ^ 63
    → 0 < n
    → k ≤ 1000
    → f.missed + k < 2 ^ 32
    → arrive n idx f ≡ record f { missed = f.missed + k; next_idx = idx + n; have_next = true }
arrive_forward n k idx f h e r p q s =
    ap (expect_next idx n) (count_missed_forward n k idx f h e (omega arith) p q s)
    ∙ expect_next_forward n (k * n) idx (record f { missed = f.missed + k }) h e r

-- A packet of a stream: how many are lost before it, when it arrives, and whether the ring takes it
-- or it is too late to play.
pub record Arrival : Type 0 where
  pub lost : ℕ
  pub now : Now
  pub landed : Bool

-- Those that do not play for it: the lost ones before it, and itself if it is too late.
abbrev pub unplayed : Arrival → ℕ
unplayed a = a.lost + (if a.landed then 0 else 1)

note_latency_same :
    (now : Now) (idx : ℕ) (f : Flow)
    → note_latency now idx f ≡ record f { lat_max = (note_latency now idx f).lat_max }
unfolding note_latency
note_latency_same now idx f = by now.samples
  where
    by :
        (o : Option ℕ)
        → let g : Flow = elim o [
          | none ↦ f
          | some n ↦ record f {
            lat_max =
                if ltb_ℤ f.lat_max (latency n idx now.hz)
                then to_i32 (latency n idx now.hz)
                else f.lat_max;
          }
        ] in
          g ≡ record f { lat_max = g.lat_max }
    by none = refl
    by (some n) = refl

count_one :
    (missed lost : ℕ) (landed : Bool)
    → missed + (lost + (if landed then 0 else 1)) < 2 ^ 32
    → (if landed then missed + lost else inc32 (missed + lost))
      ≡ missed + (lost + (if landed then 0 else 1))
count_one missed lost true h = omega arith
count_one missed lost false h = omega arith

-- The flow after a packet in order.
pub after_forward :
    (n : ℕ) (a : Arrival) (f : Flow)
    → f.fpp ≡ n
    → f.have_next ≡ true
    → f.next_idx + (a.lost + 1) * n < 2 ^ 63
    → 0 < n
    → a.lost ≤ 1000
    → f.missed + unplayed a < 2 ^ 32
    → f.packets + 1 < 2 ^ 32
    → flow_after a.now (f.next_idx + a.lost * n) a.landed f ≡ record f {
      lat_max = (note_latency a.now (f.next_idx + a.lost * n) f).lat_max;
      missed = f.missed + unplayed a;
      next_idx = f.next_idx + (a.lost + 1) * n;
      have_next = true;
      packets = f.packets + 1;
    }
unfolding flow_after
after_forward n a f w h r p q s u =
    let idx = f.next_idx + a.lost * n in
    let put : Flow → Flow = λ g. record g {
      missed = if a.landed then g.missed else inc32 g.missed;
      packets = inc32 g.packets;
    } in
    let top : Flow = record f { lat_max = (note_latency a.now idx f).lat_max } in
    ap (λ m. put (expect_next idx m (count_missed idx m (note_latency a.now idx f)))) w
    ∙ ap (λ g. put (arrive n idx g)) (note_latency_same a.now idx f)
    ∙ ap put (arrive_forward n a.lost idx top h refl (omega arith) p q (omega arith))
    ∙ put_lem a.landed s
  where
    put_lem :
        (landed : Bool)
        → f.missed + (a.lost + (if landed then 0 else 1)) < 2 ^ 32
        → let g : Flow = record f {
          lat_max = (note_latency a.now (f.next_idx + a.lost * n) f).lat_max;
          missed = f.missed + a.lost;
          next_idx = f.next_idx + a.lost * n + n;
          have_next = true;
        } in
          record g {
            missed = if landed then g.missed else inc32 g.missed;
            packets = inc32 g.packets;
          }
          ≡ record f {
            lat_max = (note_latency a.now (f.next_idx + a.lost * n) f).lat_max;
            missed = f.missed + (a.lost + (if landed then 0 else 1));
            next_idx = f.next_idx + (a.lost + 1) * n;
            have_next = true;
            packets = f.packets + 1;
          }
    put_lem landed room =
        let B : ℕ → ℕ → ℕ → Flow = λ m i p. record f {
          lat_max = (note_latency a.now (f.next_idx + a.lost * n) f).lat_max;
          missed = m;
          next_idx = i;
          have_next = true;
          packets = p;
        } in
        let m = f.missed + (a.lost + (if landed then 0 else 1)) in
        let i = f.next_idx + (a.lost + 1) * n in
        let counted : (if landed then f.missed + a.lost else inc32 (f.missed + a.lost)) ≡ m =
          count_one f.missed a.lost landed room in
        let next : f.next_idx + a.lost * n + n ≡ i = omega arith in
        let one_more : inc32 f.packets ≡ f.packets + 1 = omega arith in
        ap (λ x. B x (f.next_idx + a.lost * n + n) (inc32 f.packets)) counted
        ∙ ap (λ x. B m x (inc32 f.packets)) next
        ∙ ap (B m i) one_more

-- A flow that expects a timestamp, after the packets.
abbrev pub stream : ℕ → List Arrival → Flow → Flow
stream n [] f = f
stream n (a ∷ rest) f = stream n rest (flow_after a.now (f.next_idx + a.lost * n) a.landed f)

abbrev pub all_unplayed : List Arrival → ℕ
all_unplayed [] = 0
all_unplayed (a ∷ rest) = unplayed a + all_unplayed rest

-- The packets of the stream up to the last that arrives, lost or not.
abbrev pub sent : List Arrival → ℕ
sent [] = 0
sent (a ∷ rest) = a.lost + 1 + sent rest

abbrev pub AtMost1000 : List Arrival → Type 0
AtMost1000 [] = Unit {0}
AtMost1000 (a ∷ rest) = (a.lost ≤ 1000) × AtMost1000 rest
