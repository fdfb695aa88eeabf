-- ===== src/Msg/Tests.antt =====
-- A witness for the responses.
use inferno_esp32_p.Msg.{Msg, aoip_msg_u16, aoip_msg_str}
use inferno_esp32_p.Msg.Strings.{finished, req_str-aoip_msg_str}
use inferno_esp32_p.Arc.{req_str}
use inferno_esp32_p.Arc.Strings.{NoNul}
use inferno_esp32_p.Prelude.{zero, suc, replicate, ◌∷◌, [], arith, ◌≡◌}

channel-NoNul : NoNul (b'0' ∷ b'1' ∷ [])
channel-NoNul zero h = omega arith
channel-NoNul (suc zero) h = omega arith
channel-NoNul (suc (suc i)) h = absurd (omega arith)

abbrev reply_begun : Msg
reply_begun = aoip_msg_u16 24 (record { buf = replicate 64 0; len = 10 })

req_str-aoip_msg_str_example :
    req_str 32
      (finished reply_begun (b'0' ∷ b'1' ∷ []) (7 ∷ 7 ∷ []) 1).buf
      (finished reply_begun (b'0' ∷ b'1' ∷ []) (7 ∷ 7 ∷ []) 1).len
      (aoip_msg_str (b'0' ∷ b'1' ∷ []) reply_begun).0
    ≡ b'0' ∷ b'1' ∷ []
unfolding aoip_msg_u16
req_str-aoip_msg_str_example =
    req_str-aoip_msg_str reply_begun (b'0' ∷ b'1' ∷ []) (7 ∷ 7 ∷ []) 1 (omega arith) (omega arith)
      (omega arith) 32 channel-NoNul
