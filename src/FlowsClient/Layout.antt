-- ===== src/FlowsClient/Layout.antt =====
-- The offsets in a flow request point at what they name.
use inferno_esp32_p.FlowsClient.Padding.{pad-Padded}
use inferno_esp32_p.Prelude.Append.{
  drop-append, drop-append_left, take-append_left, take_all, get_or-append, get_or-append_left,
}
use inferno_esp32_p.FlowsClient.{
  Request, Host, build_request_body, names, fields, pad, push_name, address, channel_ids,
  strings_offset, front, back, assemble,
}
use inferno_esp32_p.Wire.{rd16, rd32}
use inferno_esp32_p.Prelude.{
  ℕ, ◌≡◌, List, length, drop, take, ◌*◌, ◌+◌, ◌<◌, get_or, ◌++◌, ◌^◌, ◌∷◌, ◌≤◌, ap, arith, ◌-◌, [],
  ap₂, ◌%◌, refl, some, ◌∙◌, replicate, Option, length-append, ◌==◌, ltb, false, length-take,
  le→ltb_false, if_false, length-replicate, none, not, ==_iff,
}

length-channel_ids : (ids : List ℕ) → length (channel_ids ids) ≡ 2 * length ids
length-channel_ids [] = refl
length-channel_ids (id ∷ ids) = omega (arith, length-channel_ids ids)

-- A body whose three offsets, less the header's ten bytes, are those of the host's name, the flow's
-- name and the address, each name with its NUL and the address on a multiple of eight.
pub record LaidOut (h : Host) (r : Request) (ip : ℕ) (body : List ℕ) : Type 0 where
  pub host_at : take (length h.hostname + 1) (drop (rd16 body 0 - 10) body) ≡ h.hostname ++ 0 ∷ []
  pub flow_at :
      take (length r.rx_flow_name + 1) (drop (rd16 body (24 + 2 * r.nslots) - 10) body)
      ≡ r.rx_flow_name ++ 0 ∷ []
  pub addr_at : drop (rd16 body 14 - 10) body ≡ address r ip
  pub aligned : rd16 body 14 % 8 ≡ 0
  pub rate_at : rd32 body 2 ≡ h.hz
  pub nslots_at : rd16 body 12 ≡ r.nslots
  pub fpp_at : rd16 body (22 + 2 * r.nslots) ≡ r.fpp

-- What is asked of a request: names that fit their buffers, up to eight slots, each with a channel.
pub record Fits (h : Host) (r : Request) : Type 0 where
  pub host : length h.hostname ≤ 31
  pub flow : length r.rx_flow_name ≤ 31
  pub slots : r.nslots ≤ 8
  pub channels : r.nslots ≤ length r.tx_channel_id
  pub rate : h.hz < 2 ^ 32
  pub fpp : r.fpp < 2 ^ 16

push_name_fits :
    (s name : List ℕ)
    → length s + length name + 1 ≤ 128
    → push_name s name ≡ some (s ++ name ++ 0 ∷ [])
unfolding push_name
push_name_fits s name h = if_false (ltb 128 (length s + length name + 1)) _ _ (le→ltb_false 128 _ h)

module _ (h : Host) (r : Request) (w : Fits h r) where
  abbrev both_names : List ℕ
  both_names = h.hostname ++ 0 ∷ [] ++ r.rx_flow_name ++ 0 ∷ []

  length-both_names : length both_names ≡ length h.hostname + 1 + (length r.rx_flow_name + 1)
  length-both_names = omega (
    arith,
    length-append (h.hostname ++ 0 ∷ [] ++ r.rx_flow_name) (0 ∷ []),
    length-append (h.hostname ++ 0 ∷ []) r.rx_flow_name,
    length-append h.hostname (0 ∷ []),
  )

  names_lem :
      (z : ℕ) × (names h r ≡ some (both_names ++ replicate z 0))
      × ((length both_names + z + strings_offset r.nslots) % 8 ≡ 0)
      × (z ≤ 8)
  unfolding names
  names_lem =
      let H = h.hostname ++ 0 ∷ [] in
      let at = strings_offset r.nslots in
      let (z, e, al, small) =
        pad-Padded 8 at both_names (omega (arith, w.host, w.flow, length-both_names))
          (omega arith) in
      (
        z,
        ap
              (λ (o : Option (List ℕ)). elim o as (λ _. Option (List ℕ)) [
                | none ↦ none
                | some s ↦ elim (push_name s r.rx_flow_name) as (λ _. Option (List ℕ)) [
                  | none ↦ none
                  | some s' ↦ pad 8 at s'
                ]
              ])
              (push_name_fits [] h.hostname (omega (arith, w.host)))
            ∙ ap
                (λ (o : Option (List ℕ)). elim o as (λ _. Option (List ℕ)) [
                  | none ↦ none
                  | some s' ↦ pad 8 at s'
                ])
                (push_name_fits H r.rx_flow_name
                  (omega (arith, w.host, w.flow, length-append h.hostname (0 ∷ []))))
            ∙ e,
        al,
        small,
      )

  abbrev ids : List ℕ
  ids = take r.nslots r.tx_channel_id

  length-fields : (addr : ℕ) → length (fields h r addr) ≡ 38 + 2 * r.nslots
  length-fields addr = omega (
    arith,
    length-append (front h r addr) (channel_ids ids ++ back h r),
    length-append (channel_ids ids) (back h r),
    length-channel_ids ids,
    length-take r.nslots r.tx_channel_id,
    w.channels,
  )

  -- The strings from their padding on do not matter to the names before it.
  first_name :
      (z : ℕ) (ys : List ℕ)
      → take (length h.hostname + 1) (both_names ++ replicate z 0 ++ ys) ≡ h.hostname ++ 0 ∷ []
  first_name z ys =
      let H = h.hostname ++ 0 ∷ [] in
      let n = length-append h.hostname (0 ∷ []) in
      let k = length h.hostname + 1 in
      take-append_left (both_names ++ replicate z 0) ys k
        (omega (arith, length-append both_names (replicate z 0), length-both_names))
      ∙ take-append_left both_names (replicate z 0) k (omega (arith, length-both_names))
      ∙ take-append_left (H ++ r.rx_flow_name) (0 ∷ []) k
          (omega (arith, n, length-append H r.rx_flow_name))
      ∙ take-append_left H r.rx_flow_name k (omega (arith, n))
      ∙ take_all H k (omega (arith, n))

  second_name :
      (z : ℕ) (ys : List ℕ)
      → take
          (length r.rx_flow_name + 1)
          (drop (length h.hostname + 1) (both_names ++ replicate z 0 ++ ys))
        ≡ r.rx_flow_name ++ 0 ∷ []
  second_name z ys =
      let H = h.hostname ++ 0 ∷ [] in
      let N = r.rx_flow_name in
      let n = length-append h.hostname (0 ∷ []) in
      let k = length h.hostname + 1 in
      let j = length N + 1 in
      let dropped : drop k (both_names ++ replicate z 0 ++ ys)
          ≡ N ++ 0 ∷ [] ++ replicate z 0 ++ ys =
        drop-append_left (both_names ++ replicate z 0) ys k
          (omega (arith, length-append both_names (replicate z 0), length-both_names))
        ∙ ap (λ xs. xs ++ ys)
            (drop-append_left both_names (replicate z 0) k (omega (arith, length-both_names))
              ∙ ap (λ xs. xs ++ replicate z 0)
                  (drop-append_left (H ++ N) (0 ∷ []) k (omega (arith, n, length-append H N))
                    ∙ ap (λ xs. xs ++ 0 ∷ []) (drop-append H N k 0 (omega (arith, n))))) in
      let m = length-append N (0 ∷ []) in
      ap (take j) dropped
      ∙ take-append_left (N ++ 0 ∷ [] ++ replicate z 0) ys j
          (omega (arith, m, length-append (N ++ 0 ∷ []) (replicate z 0)))
      ∙ take-append_left (N ++ 0 ∷ []) (replicate z 0) j (omega (arith, m))
      ∙ take_all (N ++ 0 ∷ []) j (omega (arith, m))

  offset_0 : (addr : ℕ) (ys : List ℕ) → rd16 (fields h r addr ++ ys) 0 ≡ strings_offset r.nslots
  unfolding rd16
  offset_0 addr ys = omega (arith, w.slots)

  offset_14 : (addr : ℕ) (ys : List ℕ) → addr < 2 ^ 16 → rd16 (fields h r addr ++ ys) 14 ≡ addr
  unfolding rd16
  offset_14 addr ys h' = omega arith

  offset_12 : (addr : ℕ) (ys : List ℕ) → rd16 (fields h r addr ++ ys) 12 ≡ r.nslots
  unfolding rd16
  offset_12 addr ys = omega (arith, w.slots)

  rate_2 : (addr : ℕ) (ys : List ℕ) → rd32 (fields h r addr ++ ys) 2 ≡ h.hz
  unfolding rd32
  rate_2 addr ys = omega (arith, w.rate)

  -- A byte behind the channels.
  behind :
      (addr i : ℕ) (ys : List ℕ)
      → i < 22
      → get_or (fields h r addr ++ ys) (16 + 2 * r.nslots + i) 0 ≡ get_or (back h r) i 0
  behind addr i ys lt =
      let c = length-channel_ids ids in
      let t = length-take r.nslots r.tx_channel_id in
      get_or-append_left (fields h r addr) ys (16 + 2 * r.nslots + i)
        (omega (arith, length-fields addr))
      ∙ get_or-append (front h r addr) (channel_ids ids ++ back h r) (16 + 2 * r.nslots + i)
          (2 * r.nslots + i) (omega arith)
      ∙ get_or-append (channel_ids ids) (back h r) (2 * r.nslots + i) i
          (omega (arith, c, t, w.channels))

  offset_flow :
      (addr : ℕ) (ys : List ℕ)
      → rd16 (fields h r addr ++ ys) (24 + 2 * r.nslots)
        ≡ length h.hostname + 1 + strings_offset r.nslots
  unfolding rd16
  offset_flow addr ys =
      let at = λ (k : ℕ). get_or (fields h r addr ++ ys) k 0 in
      ap₂ (λ (x y : ℕ). x * 256 + y)
        (ap at {x = 24 + 2 * r.nslots} {y = 16 + 2 * r.nslots + 8} (omega arith)
          ∙ behind addr 8 ys (omega arith))
        (ap at {x = 24 + 2 * r.nslots + 1} {y = 16 + 2 * r.nslots + 9} (omega arith)
          ∙ behind addr 9 ys (omega arith))
      ∙ omega (arith, w.host, w.slots)

  fpp_field : (addr : ℕ) (ys : List ℕ) → rd16 (fields h r addr ++ ys) (22 + 2 * r.nslots) ≡ r.fpp
  unfolding rd16
  fpp_field addr ys =
      let at = λ (k : ℕ). get_or (fields h r addr ++ ys) k 0 in
      ap₂ (λ (x y : ℕ). x * 256 + y)
        (ap at {x = 22 + 2 * r.nslots} {y = 16 + 2 * r.nslots + 6} (omega arith)
          ∙ behind addr 6 ys (omega arith))
        (ap at {x = 22 + 2 * r.nslots + 1} {y = 16 + 2 * r.nslots + 7} (omega arith)
          ∙ behind addr 7 ys (omega arith))
      ∙ omega (arith, w.fpp)

  -- The body that the source builds.
  abbrev built : ℕ → ℕ → List ℕ
  built z ip =
      fields h r (length both_names + z + strings_offset r.nslots)
      ++ (both_names ++ replicate z 0 ++ address r ip)

  built-LaidOut :
      (z ip : ℕ)
      → (length both_names + z + strings_offset r.nslots) % 8 ≡ 0
      → z ≤ 8
      → LaidOut h r ip (built z ip)
  built-LaidOut z ip al small =
      let addr = length both_names + z + strings_offset r.nslots in
      let n = length-fields addr in
      let F = fields h r addr in
      let S = both_names ++ replicate z 0 in
      let tail = S ++ address r ip in
      let b = length-both_names in
      let s_len = length-append both_names (replicate z 0) in
      let z_len = length-replicate {A = ℕ} z 0 in
      let small_addr : addr < 2 ^ 16 = omega (arith, b, w.host, w.flow, w.slots) in
      record {
        host_at =
            ap (take (length h.hostname + 1)) (
              ap (λ k. drop (k - 10) (built z ip)) (offset_0 addr tail)
              ∙ drop-append F tail (strings_offset r.nslots - 10) 0 (omega (arith, n)))
            ∙ first_name z (address r ip);
        flow_at =
            ap (take (length r.rx_flow_name + 1)) (
              ap (λ k. drop (k - 10) (built z ip)) (offset_flow addr tail)
              ∙ drop-append F tail (length h.hostname + 1 + strings_offset r.nslots - 10)
                  (length h.hostname + 1) (omega (arith, n)))
            ∙ second_name z (address r ip);
        addr_at =
            ap (λ k. drop (k - 10) (built z ip)) (offset_14 addr tail small_addr)
            ∙ drop-append F tail (addr - 10) (length S) (omega (arith, n, s_len, z_len))
            ∙ drop-append S (address r ip) (length S) 0 (omega arith);
        aligned = ap (λ k. k % 8) (offset_14 addr tail small_addr) ∙ al;
        rate_at = rate_2 addr tail;
        nslots_at = offset_12 addr tail;
        fpp_at = fpp_field addr tail;
      }

  assemble_lem :
      (z ip : ℕ) → z ≤ 8 → assemble h r 384 ip (both_names ++ replicate z 0) ≡ some (built z ip)
  unfolding assemble
  assemble_lem z ip small =
      let S = both_names ++ replicate z 0 in
      let s_len = length-append both_names (replicate z 0) in
      let z_len = length-replicate {A = ℕ} z 0 in
      let there : length S ≡ length both_names + z = omega (arith, s_len, z_len) in
      let n = length-fields (length S + strings_offset r.nslots) in
      let room : ltb 384 (strings_offset r.nslots - 10 + length (S ++ address r ip)) ≡ false =
        le→ltb_false 384 _ (
          omega (
            arith,
            there,
            length-append S (address r ip),
            length-both_names,
            w.host,
            w.flow,
            w.slots,
          )) in
      let right : not (
            length (fields h r (length S + strings_offset r.nslots))
            == strings_offset r.nslots - 10)
          ≡ false =
        ap not ((==_iff _ _).1 (omega (arith, n))) in
      if_false (ltb 384 (strings_offset r.nslots - 10 + length (S ++ address r ip))) _ _ room
      ∙ if_false
          (not (
            length (fields h r (length S + strings_offset r.nslots))
            == strings_offset r.nslots - 10))
          _ _ right
      ∙ ap (λ (k : ℕ). some (fields h r (k + strings_offset r.nslots) ++ (S ++ address r ip))) there

  -- With a host that has an address, a request with names of up to 31 bytes and up to eight slots,
  -- each with a channel, is built into a buffer of 384 bytes, and its three offsets point at the
  -- two names and the address, which is on a multiple of eight.
  pub build_request_body-LaidOut :
      (ip : ℕ)
      → h.ip ≡ some ip
      → (body : List ℕ) × (build_request_body h r 384 ≡ some body) × LaidOut h r ip body
  unfolding build_request_body
  build_request_body-LaidOut ip e =
      let (z, got, al, small) = names_lem in
      (
        built z ip,
        ap
              (λ (o : Option (List ℕ)). elim o as (λ _. Option (List ℕ)) [
                | none ↦ none
                | some strings ↦ elim h.ip as (λ _. Option (List ℕ)) [
                  | none ↦ none
                  | some i ↦ assemble h r 384 i strings
                ]
              ])
              got
            ∙ ap
                (λ (o : Option ℕ). elim o as (λ _. Option (List ℕ)) [
                  | none ↦ none
                  | some i ↦ assemble h r 384 i (both_names ++ replicate z 0)
                ])
                e
            ∙ assemble_lem z ip small,
        built-LaidOut z ip al small,
      )
