-- ===== src/Arc/Patching.antt =====
-- The property table of main/aoip_arc.c: its keys stay, and the words behind them are read back.
use inferno_esp32_p.Arc.Tables.{arc_1100_body, arc_1100_patch_u32, patch_from}
use inferno_esp32_p.Arc.Handle.{Site, refresh_1100}
use inferno_esp32_p.Prelude.{
  List, drop, ℕ, length, take, ◌≡◌, ◌++◌, refl, ◌+◌, ap, arith, if_false, ltb, ◌∷◌, le→ltb_false,
  suc, ◌∙◌, [], ◌*◌, ◌<◌, ◌≤◌, ◌%◌, ◌^◌, ◌⊎◌, inl, ◌-◌, inr,
}
use inferno_esp32_p.Prelude.Bytes.{
  write_at, write_at-cons, get_or-write_at_before, get_or-write_at_after,
}
use inferno_esp32_p.Wire.{rd16, wr32, be32, rd32}
use inferno_esp32_p.MediaClock.{Clock}
use inferno_esp32_p.Wire.Fields.{length-wr32, rd32-wr32}

-- The keys, up to the blob.
abbrev pub keys : List ℕ
keys = take 126 arc_1100_body

-- A table with the keys of the source, whatever its blob is.
abbrev pub IsTable : List ℕ → Type 0
IsTable body = (blob : List ℕ) × (body ≡ keys ++ blob) × (length blob ≡ 76)

pub arc_1100_body-IsTable : IsTable arc_1100_body
arc_1100_body-IsTable = (drop 126 arc_1100_body, refl, refl)

write_at-append :
    (xs ys : List ℕ) (k : ℕ) (zs : List ℕ)
    → write_at (xs ++ ys) (length xs + k) zs ≡ xs ++ write_at ys k zs
write_at-append [] ys k zs = ap (λ i. write_at ys i zs) (omega arith)
write_at-append (x ∷ xs) ys k zs =
    ap (λ i. write_at (x ∷ xs ++ ys) i zs) {x = suc (length xs) + k} {y = suc (length xs + k)}
      (omega arith)
    ∙ write_at-cons x (xs ++ ys) (length xs + k) zs
    ∙ ap (λ l. x ∷ l) (write_at-append xs ys k zs)

module _ (blob : List ℕ) (size : length blob ≡ 76) where
  patch_8205 : (v : ℕ) → arc_1100_patch_u32 0x8205 v (keys ++ blob) ≡ keys ++ wr32 blob 48 v
  unfolding arc_1100_patch_u32 patch_from rd16 wr32
  patch_8205 v =
      if_false (ltb (length (keys ++ blob)) 178) (keys ++ blob)
        (write_at (keys ++ blob) 174 (be32 v))
        (le→ltb_false (length (keys ++ blob)) 178 (omega (arith, size)))
      ∙ write_at-append keys blob 48 (be32 v)

  patch_8301 : (v : ℕ) → arc_1100_patch_u32 0x8301 v (keys ++ blob) ≡ keys ++ wr32 blob 52 v
  unfolding arc_1100_patch_u32 patch_from rd16 wr32
  patch_8301 v =
      if_false (ltb (length (keys ++ blob)) 182) (keys ++ blob)
        (write_at (keys ++ blob) 178 (be32 v))
        (le→ltb_false (length (keys ++ blob)) 182 (omega (arith, size)))
      ∙ write_at-append keys blob 52 (be32 v)

  patch_8306 : (v : ℕ) → arc_1100_patch_u32 0x8306 v (keys ++ blob) ≡ keys ++ wr32 blob 56 v
  unfolding arc_1100_patch_u32 patch_from rd16 wr32
  patch_8306 v =
      if_false (ltb (length (keys ++ blob)) 186) (keys ++ blob)
        (write_at (keys ++ blob) 182 (be32 v))
        (le→ltb_false (length (keys ++ blob)) 186 (omega (arith, size)))
      ∙ write_at-append keys blob 56 (be32 v)

  patch_8020 : (v : ℕ) → arc_1100_patch_u32 0x8020 v (keys ++ blob) ≡ keys ++ wr32 blob 20 v
  unfolding arc_1100_patch_u32 patch_from rd16 wr32
  patch_8020 v =
      if_false (ltb (length (keys ++ blob)) 150) (keys ++ blob)
        (write_at (keys ++ blob) 146 (be32 v))
        (le→ltb_false (length (keys ++ blob)) 150 (omega (arith, size)))
      ∙ write_at-append keys blob 20 (be32 v)

-- The blob with the latencies and the rate of the moment.
abbrev pub filled : Site → Clock → List ℕ → List ℕ
filled e c blob =
    let cur_ns = c.cfg_us * 1000 % 2 ^ 32 in
    let b = wr32 (wr32 blob 48 cur_ns) 52 cur_ns in
    wr32 (wr32 b 56 (e.view.latency_min_us * 1000 % 2 ^ 32)) 20 e.view.hz

pub refresh_1100_lem :
    (e : Site) (c : Clock) (blob : List ℕ)
    → length blob ≡ 76
    → refresh_1100 e c (keys ++ blob) ≡ keys ++ filled e c blob
unfolding refresh_1100
refresh_1100_lem e c blob size =
    let cur_ns = c.cfg_us * 1000 % 2 ^ 32 in
    let min_ns = e.view.latency_min_us * 1000 % 2 ^ 32 in
    let b1 = wr32 blob 48 cur_ns in
    let b2 = wr32 b1 52 cur_ns in
    let b3 = wr32 b2 56 min_ns in
    let s1 : length b1 ≡ 76 = length-wr32 blob 48 cur_ns ∙ size in
    let s2 : length b2 ≡ 76 = length-wr32 b1 52 cur_ns ∙ s1 in
    let s3 : length b3 ≡ 76 = length-wr32 b2 56 min_ns ∙ s2 in
    ap
      (λ t.
        arc_1100_patch_u32 0x8020 e.view.hz
          (arc_1100_patch_u32 0x8306 min_ns (arc_1100_patch_u32 0x8301 cur_ns t)))
      (patch_8205 blob size cur_ns)
    ∙ ap (λ t. arc_1100_patch_u32 0x8020 e.view.hz (arc_1100_patch_u32 0x8306 min_ns t))
        (patch_8301 b1 s1 cur_ns)
    ∙ ap (arc_1100_patch_u32 0x8020 e.view.hz) (patch_8306 b2 s2 min_ns)
    ∙ patch_8020 b3 s3 e.view.hz

pub length-filled : (e : Site) (c : Clock) (blob : List ℕ) → length (filled e c blob) ≡ length blob
length-filled e c blob =
    let cur_ns = c.cfg_us * 1000 % 2 ^ 32 in
    let min_ns = e.view.latency_min_us * 1000 % 2 ^ 32 in
    let b1 = wr32 blob 48 cur_ns in
    let b2 = wr32 b1 52 cur_ns in
    length-wr32 (wr32 b2 56 min_ns) 20 e.view.hz
    ∙ length-wr32 b2 56 min_ns
    ∙ length-wr32 b1 52 cur_ns
    ∙ length-wr32 blob 48 cur_ns

-- The table stays one.
pub refresh_1100-IsTable :
    (e : Site) (c : Clock) (body : List ℕ) → IsTable body → IsTable (refresh_1100 e c body)
refresh_1100-IsTable e c body (blob, is, size) = (
  filled e c blob,
  ap (refresh_1100 e c) is ∙ refresh_1100_lem e c blob size,
  length-filled e c blob ∙ size,
)

rd32-wr32_other :
    (p : List ℕ) (i v j : ℕ) → (j + 4 ≤ i) ⊎ (i + 4 ≤ j) → rd32 (wr32 p i v) j ≡ rd32 p j
unfolding rd32 wr32
rd32-wr32_other p i v j (inl h) = omega (
  arith,
  get_or-write_at_before p i (be32 v) j (omega arith),
  get_or-write_at_before p i (be32 v) (j + 1) (omega arith),
  get_or-write_at_before p i (be32 v) (j + 2) (omega arith),
  get_or-write_at_before p i (be32 v) (j + 3) (omega arith),
)
rd32-wr32_other p i v j (inr h) = omega (
  arith,
  get_or-write_at_after p i (be32 v) j (omega arith),
  get_or-write_at_after p i (be32 v) (j + 1) (omega arith),
  get_or-write_at_after p i (be32 v) (j + 2) (omega arith),
  get_or-write_at_after p i (be32 v) (j + 3) (omega arith),
)

-- The words that the blob is filled with.
pub record Shows (e : Site) (c : Clock) (at : ℕ → ℕ) : Type 0 where
  pub current : at 0xb8 ≡ c.cfg_us * 1000 % 2 ^ 32
  pub current_again : at 0xbc ≡ c.cfg_us * 1000 % 2 ^ 32
  pub minimum : at 0xc0 ≡ e.view.latency_min_us * 1000 % 2 ^ 32
  pub rate : at 0x9c ≡ e.view.hz

-- A word of the blob, by its offset in a reply.
pub filled-Shows :
    (e : Site) (c : Clock) (blob : List ℕ)
    → length blob ≡ 76
    → e.view.hz < 2 ^ 32
    → Shows e c (λ off. rd32 (filled e c blob) (off - 136))
filled-Shows e c blob size hz =
    let cur_ns = c.cfg_us * 1000 % 2 ^ 32 in
    let min_ns = e.view.latency_min_us * 1000 % 2 ^ 32 in
    let b1 = wr32 blob 48 cur_ns in
    let b2 = wr32 b1 52 cur_ns in
    let b3 = wr32 b2 56 min_ns in
    let s1 : length b1 ≡ 76 = length-wr32 blob 48 cur_ns ∙ size in
    let s2 : length b2 ≡ 76 = length-wr32 b1 52 cur_ns ∙ s1 in
    let s3 : length b3 ≡ 76 = length-wr32 b2 56 min_ns ∙ s2 in
    record {
      current =
          rd32-wr32_other b3 20 e.view.hz 48 (inr (omega arith))
          ∙ rd32-wr32_other b2 56 min_ns 48 (inl (omega arith))
          ∙ rd32-wr32_other b1 52 cur_ns 48 (inl (omega arith))
          ∙ rd32-wr32 blob 48 cur_ns (omega arith) (omega (arith, size));
      current_again =
          rd32-wr32_other b3 20 e.view.hz 52 (inr (omega arith))
          ∙ rd32-wr32_other b2 56 min_ns 52 (inl (omega arith))
          ∙ rd32-wr32 b1 52 cur_ns (omega arith) (omega (arith, s1));
      minimum =
          rd32-wr32_other b3 20 e.view.hz 56 (inr (omega arith))
          ∙ rd32-wr32 b2 56 min_ns (omega arith) (omega (arith, s2));
      rate = rd32-wr32 b3 20 e.view.hz hz (omega (arith, s3));
    }
