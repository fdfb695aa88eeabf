-- ===== src/FlowsClient/Tests.antt =====
-- Witnesses for the flow-control client.
use inferno_esp32_p.FlowsClient.{
  Client, Request, Host, transact, build_request_body, rd16, ◌∷◌, await_reply, settle,
}
use inferno_esp32_p.FlowsClient.Replies.{Taken, transact_sound, transact_answered}
use inferno_esp32_p.Prelude.{List, [], ℕ, some, ◌≡◌, arith, refl, true, inr, inl}
use inferno_esp32_p.FlowsClient.Layout.{LaidOut, build_request_body-LaidOut}
use inferno_esp32_p.Wire.{rd16}

abbrev client : Client
client = record { seq = 7; last_opcode = 0; last_code = 0; refused = 0; timeouts = 0 }

-- A reply to the request before, and the one to this.
abbrev stale : List ℕ
stale = 17 ∷ 2 ∷ 0 ∷ 12 ∷ 0 ∷ 6 ∷ 1 ∷ 0 ∷ 0 ∷ 1 ∷ []

abbrev accepted : List ℕ
accepted = 17 ∷ 2 ∷ 0 ∷ 12 ∷ 0 ∷ 7 ∷ 1 ∷ 0 ∷ 0 ∷ 1 ∷ 170 ∷ 187 ∷ []

transact_answered_example :
    transact client 256 [] true (stale ∷ accepted ∷ []) 64
    ≡ (record client { seq = 8 }, inr (170 ∷ 187 ∷ []))
unfolding rd16
transact_answered_example =
    transact_answered client 256 64 [] (stale ∷ []) accepted [] (omega arith) (omega arith)
      (record { whole = omega arith; other = inl (λ e. absurd (omega (arith, e))) }, tt)
      (record { whole = omega arith; same_seq = refl; same_opcode = refl }) refl

transact_sound_example : Taken client 256 64 (stale ∷ accepted ∷ []) (170 ∷ 187 ∷ [])
unfolding rd16 transact await_reply settle
transact_sound_example =
    transact_sound client 256 64 [] true (stale ∷ accepted ∷ []) (170 ∷ 187 ∷ []) refl

abbrev board : Host
board = record { hostname = 68 ∷ 65 ∷ 67 ∷ []; ip = some 2851995904; hz = 48000 }

abbrev patch : Request
patch = record {
  tx_ip = 2851995905;
  tx_flow_port = 4455;
  tx_channel_id = 5 ∷ 6 ∷ 0 ∷ 0 ∷ 0 ∷ 0 ∷ 0 ∷ 0 ∷ [];
  nslots = 2;
  fpp = 16;
  rx_port = 14336;
  rx_flow_name = 49 ∷ [];
}

build_request_body-LaidOut_example :
    (body : List ℕ) × (build_request_body board patch 384 ≡ some body)
    × LaidOut board patch 2851995904 body
build_request_body-LaidOut_example =
    build_request_body-LaidOut board patch
      (record {
        host = omega arith;
        flow = omega arith;
        slots = omega arith;
        channels = omega arith;
        rate = omega arith;
        fpp = omega arith;
      })
      2851995904 refl
