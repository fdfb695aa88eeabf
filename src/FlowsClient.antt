-- ===== src/FlowsClient.antt =====
-- main/flows_client.c: the body of a flow request, and the transactions on the flow-control port.
pub mod Padding
pub mod Layout
pub mod Replies
mod Tests
use inferno_esp32_p.Wire.{be16, be32, rd16, drr_hdr_len}
use inferno_esp32_p.Wire
use inferno_esp32_p.Prelude.{
  ℕ, Bool, Option, none, some, List, [], if◌then◌else◌, length, replicate, suc, ◌++◌, ◌+◌, ◌∷◌, ◌⊎◌,
  inl, ltb, not, take, ◌%◌, ◌*◌, inr, ◌-◌, ◌==◌, drop, leb, zero,
}
use inferno_esp32_p.Prelude.Words.{inc16, inc32}

-- `flow_request_t`; the name is its bytes before the NUL.
pub record Request : Type 0 where
  pub tx_ip : ℕ
  pub tx_flow_port : ℕ
  pub tx_channel_id : List ℕ
  pub nslots : ℕ
  pub fpp : ℕ
  pub rx_port : ℕ
  pub rx_flow_name : List ℕ

-- What the builder asks of others: the host's name, its address if there is one, and the rate.
pub record Host : Type 0 where
  pub hostname : List ℕ
  pub ip : Option ℕ
  pub hz : ℕ

abbrev pub strings_cap : ℕ
strings_cap = 128

-- The offset of the strings in the packet, with the header of ten bytes.
abbrev pub strings_offset : ℕ → ℕ
strings_offset nch = 38 + nch * 2 + drr_hdr_len

-- A name and its NUL at the end of the strings, if they fit.
unfoldable pub push_name : List ℕ → List ℕ → Option (List ℕ)
push_name strings name =
    if ltb strings_cap (length strings + length name + 1)
    then none
    else some (strings ++ name ++ 0 ∷ [])

-- NULs up to the next multiple of eight in the packet; a step for each, eight at most.
unfoldable pub pad : ℕ → ℕ → List ℕ → Option (List ℕ)
pad zero at strings = some strings
pad (suc fuel) at strings =
    let rest = pad fuel at (strings ++ 0 ∷ []) in
    if (length strings + at) % 8 == 0
    then some strings
    else if leb strings_cap (length strings)
    then none
    else rest

-- Our address, at the end of the strings.
abbrev pub address : Request → ℕ → List ℕ
address r ip = be16 2050 ++ be16 r.rx_port ++ be32 ip

-- The two strings, padded.
unfoldable pub names : Host → Request → Option (List ℕ)
unfolding push_name pad
names h r = elim (push_name [] h.hostname) [
  | none ↦ none
  | some strings ↦ elim (push_name strings r.rx_flow_name) [
    | none ↦ none
    | some strings' ↦ pad 8 (strings_offset r.nslots) strings'
  ]
]

abbrev pub channel_ids : List ℕ → List ℕ
channel_ids [] = []
channel_ids (id ∷ ids) = be16 id ++ channel_ids ids

-- The fields before the channels, and those behind them; `addr` is the offset of the address.
abbrev pub front : Host → Request → ℕ → List ℕ
front h r addr =
    be16 (strings_offset r.nslots) ++ be32 h.hz ++ be32 24 ++ be16 1 ++ be16 r.nslots ++ be16 addr

abbrev pub back : Host → Request → List ℕ
back h r =
    be16 (28 + 2 * r.nslots)
    ++ be16 2560
    ++ be16 2
    ++ be16 r.fpp
    ++ be16 (length h.hostname + 1 + strings_offset r.nslots)
    ++ replicate 12 0

abbrev pub fields : Host → Request → ℕ → List ℕ
fields h r addr = front h r addr ++ (channel_ids (take r.nslots r.tx_channel_id) ++ back h r)

-- The body for strings that are ready, in a buffer of `cap` bytes.
unfoldable pub assemble : Host → Request → ℕ → ℕ → List ℕ → Option (List ℕ)
assemble h r cap ip strings =
    let head = fields h r (length strings + strings_offset r.nslots) in
    let strings' = strings ++ address r ip in
    if ltb cap (strings_offset r.nslots - drr_hdr_len + length strings')
    then none
    else if not (length head == strings_offset r.nslots - drr_hdr_len)
    then none
    else some (head ++ strings')

-- The body of a request, or none where the source returns 0.
unfoldable pub build_request_body : Host → Request → ℕ → Option (List ℕ)
unfolding names assemble
build_request_body h r cap = elim (names h r) [
  | none ↦ none
  | some strings ↦ elim h.ip [ none ↦ none | some ip ↦ assemble h r cap ip strings ]
]

-- `flows_client_diag_t` and the sequence number.
pub record Client : Type 0 where
  pub seq : ℕ
  pub last_opcode : ℕ
  pub last_code : ℕ
  pub refused : ℕ
  pub timeouts : ℕ

pub data Failure : Type 0 where
  fail : Failure
  not_found : Failure
  timeout : Failure
  invalid_size : Failure
  invalid_response : Failure

-- The first of the datagrams that answers the request, in `fuel` receptions at most; a short one,
-- or none within the time limit, ends the wait.
unfoldable pub await_reply : ℕ → ℕ → ℕ → List (List ℕ) → Option (List ℕ)
unfolding rd16
await_reply zero seq opcode rs = none
await_reply (suc fuel) seq opcode [] = none
await_reply (suc fuel) seq opcode (p ∷ rs) =
    let rest = await_reply fuel seq opcode rs in
    if ltb (length p) drr_hdr_len
    then none
    else if not (rd16 p 4 == seq)
    then rest
    else if not (rd16 p 6 == opcode)
    then rest
    else some p

-- What a reply means: a code, or up to `room` bytes of content.
unfoldable pub settle : Client → ℕ → ℕ → List ℕ → Client × (Failure ⊎ List ℕ)
unfolding rd16
settle c opcode room p =
    if not (rd16 p 8 == 1)
    then (
      record c { last_opcode = opcode; last_code = rd16 p 8; refused = inc32 c.refused },
      inl (if rd16 p 8 == 259 then not_found else fail),
    )
    else (c, inr (take room (drop drr_hdr_len p)))

-- A transaction: what the client is after it, and the content of the reply, up to `room` bytes.
-- `sent` says whether the packet could be sent, and `replies` what arrives within the time limits.
unfoldable pub transact :
    Client → ℕ → List ℕ → Bool → List (List ℕ) → ℕ → Client × (Failure ⊎ List ℕ)
unfolding await_reply settle
transact c opcode body sent replies room =
    let c' = record c { seq = inc16 c.seq } in
    if ltb 512 (drr_hdr_len + length body)
    then (c, inl invalid_size)
    else if not sent
    then (record c' { last_opcode = opcode; last_code = 65534 }, inl fail)
    else elim (await_reply 4 c.seq opcode replies) [
      | none ↦ (
        record c' { last_opcode = opcode; last_code = 65535; timeouts = inc32 c.timeouts },
        inl timeout,
      )
      | some p ↦ settle c' opcode room p
    ]

-- The packet that a transaction sends.
abbrev pub request_packet : Client → ℕ → List ℕ → List ℕ
request_packet c opcode body =
    Wire.put_header (replicate drr_hdr_len 0) 4354 c.seq opcode 0 (drr_hdr_len + length body)
    ++ body

abbrev pub handle_len : ℕ
handle_len = 6

-- A request for a flow gives its handle.
unfoldable pub flows_client_request :
    Host → Client → Request → Bool → List (List ℕ) → Client × (Failure ⊎ List ℕ)
unfolding build_request_body transact
flows_client_request h c r sent replies = elim (build_request_body h r 384) [
  | none ↦ (c, inl invalid_size)
  | some body ↦
      (let (c', answer) = transact c 256 body sent replies 64 in
        (
          c',
          elim answer [
            | inl e ↦ inl e
            | inr content ↦
                (if ltb (length content) handle_len
                  then inl invalid_response
                  else inr (take handle_len content))
          ],
        ))
]

unfoldable pub flows_client_update :
    Client → Request → List ℕ → Bool → List (List ℕ) → Client × (Failure ⊎ List ℕ)
unfolding transact
flows_client_update c r handle sent replies =
    transact c 258
      (take handle_len handle ++ be16 r.nslots ++ channel_ids (take r.nslots r.tx_channel_id)) sent
      replies 0

unfoldable pub flows_client_stop :
    Client → List ℕ → Bool → List (List ℕ) → Client × (Failure ⊎ List ℕ)
unfolding transact
flows_client_stop c handle sent replies = transact c 257 (take handle_len handle) sent replies 0
