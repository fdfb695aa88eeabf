-- ===== src/ChanResolve/Answers.antt =====
-- main/chan_resolve.c: the TXT keys of an answer, and the answer that is taken.
use inferno_esp32_p.ChanResolve.{TxChannel, no_tx}
use inferno_esp32_p.ChanResolve.Numbers.{strtoul_any, strtoul_10, scan_pair}
use inferno_esp32_p.Prelude.{
  ℕ, Option, none, some, true, List, [], ◌∷◌, ◌+◌, ◌*◌, ◌/◌, ◌%◌, ◌^◌, ◌==◌, ◌&&◌, if◌then◌else◌,
}
use inferno_esp32_p.Prelude.Bytes.{same_bytes}

-- A TXT item; the key and the value are none for NULL.
pub record Txt : Type 0 where
  pub key : Option (List ℕ)
  pub value : Option (List ℕ)

-- An entry of the address list: IPv4 in network order, as the four bytes are read, or IPv6.
pub data Address : Type 0 where
  v4 : ℕ → Address
  v6 : Address

-- `mdns_result_t`, and what `mdns_query_a` answers for its host name: none where there is no name
-- or no answer.
pub record MdnsResult : Type 0 where
  pub txt : List Txt
  pub addr : List Address
  pub host_addr : Option ℕ
  pub port : ℕ

-- The value of an item with this key.
unfoldable pub value_for : List ℕ → Txt → Option (List ℕ)
unfolding same_bytes
value_for key t = elim t.key [ none ↦ none | some k ↦ (if same_bytes k key then t.value else none) ]

-- The first value of the key.
unfoldable pub find_txt : List ℕ → List Txt → Option (List ℕ)
unfolding value_for
find_txt key [] = none
find_txt key (t ∷ ts) =
    let rest = find_txt key ts in elim (value_for key t) [ none ↦ rest | some v ↦ some v ]

unfoldable pub txt_u32 : List Txt → List ℕ → ℕ → ℕ
unfolding find_txt strtoul_any
txt_u32 ts key dflt = elim (find_txt key ts) [ none ↦ dflt | some v ↦ strtoul_any v ]

-- "fpp=<MAX>,<MIN>"
unfoldable pub parse_fpp : List Txt → TxChannel → TxChannel
unfolding find_txt scan_pair
parse_fpp ts out =
    let dflt = record out { fpp_max = 16; fpp_min = 2 } in
    elim (find_txt (b'f' ∷ b'p' ∷ b'p' ∷ []) ts) [
      | none ↦ dflt
      | some v ↦ elim (scan_pair v) [
        | none ↦ dflt
        | some (mx, mn) ↦ record out { fpp_max = mx % 2 ^ 16; fpp_min = mn % 2 ^ 16 }
      ]
    ]

-- What follows "b." in a key.
unfoldable pub bundle_of : List ℕ → Option (List ℕ)
bundle_of [] = none
bundle_of (b ∷ []) = none
bundle_of (b ∷ dot ∷ id) = if b == b'b' && dot == b'.' then some id else none

unfoldable pub bundle_key : Txt → Option (List ℕ)
unfolding bundle_of
bundle_key t = elim t.key [ none ↦ none | some k ↦ bundle_of k ]

unfoldable pub bundle_position : Txt → ℕ
unfolding strtoul_10
bundle_position t = elim t.value [ none ↦ 0 | some v ↦ strtoul_10 v % 2 ^ 8 ]

-- The first key that begins with "b.".
unfoldable pub parse_bundle : List Txt → TxChannel → TxChannel
unfolding bundle_key bundle_position strtoul_10
parse_bundle [] out = out
parse_bundle (t ∷ ts) out =
    let rest = parse_bundle ts out in
    elim (bundle_key t) [
      | none ↦ rest
      | some id ↦ record out {
        multicast = true;
        bundle_id = strtoul_10 id % 2 ^ 16;
        bundle_pos = bundle_position t;
      }
    ]

-- ntohl
unfoldable pub ntohl : ℕ → ℕ
ntohl n =
    n % 2 ^ 8 * 2 ^ 24
    + n / 2 ^ 8 % 2 ^ 8 * 2 ^ 16
    + n / 2 ^ 16 % 2 ^ 8 * 2 ^ 8
    + n / 2 ^ 24 % 2 ^ 8

-- The first IPv4 address of the list, or 0.
unfoldable pub first_v4 : List Address → ℕ
first_v4 [] = 0
first_v4 (v4 ip ∷ more) = ip
first_v4 (v6 ∷ more) = first_v4 more

unfoldable pub address_of : MdnsResult → ℕ
unfolding first_v4
address_of r =
    if first_v4 r.addr == 0 then elim r.host_addr [ none ↦ 0 | some ip ↦ ip ] else first_v4 r.addr

-- What an answer with the address `ip` says.
unfoldable pub describe : MdnsResult → ℕ → TxChannel
unfolding ntohl txt_u32 parse_fpp parse_bundle
describe r ip = parse_bundle r.txt (
    parse_fpp r.txt (record no_tx {
      ip = ntohl ip;
      flow_port = if r.port == 0 then 4455 else r.port;
      tx_channel_id = txt_u32 r.txt (b'i' ∷ b'd' ∷ []) 0 % 2 ^ 16;
      dbcp1 = txt_u32 r.txt (b'd' ∷ b'b' ∷ b'c' ∷ b'p' ∷ b'1' ∷ []) 0x1102 % 2 ^ 16;
      sample_rate = txt_u32 r.txt (b'r' ∷ b'a' ∷ b't' ∷ b'e' ∷ []) 48000;
      bits = txt_u32 r.txt (b'e' ∷ b'n' ∷ b'c' ∷ []) (txt_u32 r.txt (b'e' ∷ b'n' ∷ []) 24);
      nchan = txt_u32 r.txt (b'n' ∷ b'c' ∷ b'h' ∷ b'a' ∷ b'n' ∷ []) 8 % 2 ^ 16;
      latency_ns =
          txt_u32 r.txt (b'l' ∷ b'a' ∷ b't' ∷ b'e' ∷ b'n' ∷ b'c' ∷ b'y' ∷ b'_' ∷ b'n' ∷ b's' ∷ [])
            0;
    }))

-- The first answer with an address.
unfoldable pub first_usable : List MdnsResult → Option TxChannel
unfolding address_of describe
first_usable [] = none
first_usable (r ∷ rs) =
    let rest = first_usable rs in
    if address_of r == 0 then rest else some (describe r (address_of r))

-- `answer` is none where the query fails.
unfoldable pub chan_resolve : Option (List MdnsResult) → Option TxChannel
unfolding first_usable
chan_resolve answer = elim answer [ none ↦ none | some rs ↦ first_usable rs ]
