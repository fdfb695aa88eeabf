-- ===== src/Reqlog/Tests.antt =====
-- Witnesses for the request log.
use inferno_esp32_p.Reqlog.{Log, no_entry, reqlog_add}
use inferno_esp32_p.Reqlog.History.{history, note_request}
use inferno_esp32_p.Reqlog.Adding.{reqlog_add-history}
use inferno_esp32_p.Prelude.{
  List, replicate, ℕ, ◌≡◌, arith, get_or, length, ◌∷◌, [], refl, suc, zero,
}

abbrev empty_log : Log
empty_log = record { ring = replicate 24 no_entry; wr = 0 }

-- A request, and the same with another sequence number.
abbrev request_one : List ℕ
request_one = 17 ∷ 2 ∷ 0 ∷ 12 ∷ 0 ∷ 1 ∷ 48 ∷ 16 ∷ 0 ∷ 0 ∷ 1 ∷ 1 ∷ []

abbrev request_two : List ℕ
request_two = 17 ∷ 2 ∷ 0 ∷ 12 ∷ 0 ∷ 2 ∷ 48 ∷ 16 ∷ 0 ∷ 0 ∷ 1 ∷ 1 ∷ []

abbrev arc : List ℕ
arc = 97 ∷ 114 ∷ 99 ∷ []

repeat_folded :
    let l = reqlog_add 20 arc 9 request_two (reqlog_add 10 arc 9 request_one empty_log) in
    (l.wr ≡ 1) × ((get_or l.ring 0 no_entry).repeats ≡ 1)
unfolding reqlog_add
repeat_folded = (refl, refl)

empty-room : (n i : ℕ) → length (get_or (replicate n no_entry) i no_entry).bytes ≡ 96
empty-room zero i = refl
empty-room (suc n) zero = refl
empty-room (suc n) (suc i) = empty-room n i

reqlog_add-history_example :
    history (reqlog_add 10 arc 9 request_one empty_log)
    ≡ note_request 10 arc 9 request_one (history empty_log)
reqlog_add-history_example =
    reqlog_add-history 10 arc 9 request_one (omega arith) (omega arith) empty_log
      (record { size = refl; room = empty-room 24; count = omega arith })
