-- ===== src/Reqlog.antt =====
-- main/reqlog.c: the ring of the last requests, with repeats folded.
pub mod History
pub mod Adding
mod Tests
use inferno_esp32_p.Prelude.{
  ℕ, Bool, List, [], ◌∷◌, ◌+◌, ◌-◌, ◌%◌, ◌^◌, ◌==◌, ◌&&◌, not, length, get_or, set, take, drop,
  replicate, min, if◌then◌else◌,
}
use inferno_esp32_p.Prelude.Bytes.{same_bytes, write_at}
use inferno_esp32_p.Prelude.Words.{inc16, inc32}

abbrev pub rl_n : ℕ
rl_n = 24

abbrev pub rl_bytes : ℕ
rl_bytes = 96

-- `rl_entry_t`; the name of the port is its bytes before the NUL.
pub record Entry : Type 0 where
  pub t_ms : ℕ
  pub ip : ℕ
  pub svc : List ℕ
  pub len : ℕ
  pub repeats : ℕ
  pub bytes : List ℕ

abbrev pub no_entry : Entry
no_entry = record { t_ms = 0; ip = 0; svc = []; len = 0; repeats = 0; bytes = replicate rl_bytes 0 }

-- The ring, and the number of entries ever written.
pub record Log : Type 0 where
  pub ring : List Entry
  pub wr : ℕ

abbrev pub entry_at : Log → ℕ → Entry
entry_at l i = get_or l.ring i no_entry

-- The bytes of a request that are kept.
abbrev pub keep : List ℕ → ℕ
keep p = min (length p) rl_bytes

-- Whether a request of six bytes or more repeats an entry: all but the sequence number.
unfoldable pub repeats_entry : Entry → List ℕ → ℕ → List ℕ → Bool
unfolding same_bytes
repeats_entry e svc ip p =
    e.len == length p
    && e.ip == ip
    && same_bytes e.svc svc
    && same_bytes (take 4 e.bytes) (take 4 p)
    && same_bytes (take (keep p - 6) (drop 6 e.bytes)) (take (keep p - 6) (drop 6 p))

-- A new entry; what the request does not fill keeps the bytes of the entry before it.
unfoldable pub overwrite : Entry → ℕ → List ℕ → ℕ → List ℕ → Entry
unfolding write_at
overwrite e t_ms svc ip p = record {
  t_ms = t_ms;
  ip = ip;
  svc = take 5 svc;
  len = length p % 2 ^ 16;
  repeats = 0;
  bytes = write_at e.bytes 0 (take (keep p) p);
}

-- A request `p` from `ip` on the port `svc` at the time `t_ms`.
unfoldable pub reqlog_add : ℕ → List ℕ → ℕ → List ℕ → Log → Log
unfolding repeats_entry overwrite
reqlog_add t_ms svc ip p l =
    let k = (l.wr + 2 ^ 32 - 1) % 2 ^ 32 % rl_n in
    let prev = entry_at l k in
    let added : Log = record {
      ring = set l.ring (l.wr % rl_n) (overwrite (entry_at l (l.wr % rl_n)) t_ms svc ip p);
      wr = inc32 l.wr;
    } in
    if length p == 0
    then l
    else if not (l.wr == 0) && repeats_entry prev svc ip p
    then record l {
      ring = set l.ring k (record prev { repeats = inc16 prev.repeats; t_ms = t_ms });
    }
    else added
