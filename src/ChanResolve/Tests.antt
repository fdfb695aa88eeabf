-- ===== src/ChanResolve/Tests.antt =====
-- Witnesses for the resolution of channels.
use inferno_esp32_p.ChanResolve.Answers.{MdnsResult, v4, v6, describe, chan_resolve, parse_fpp}
use inferno_esp32_p.ChanResolve.Decimal.{decimal}
use inferno_esp32_p.ChanResolve.Fpp.{parse_fpp-decimal}
use inferno_esp32_p.ChanResolve.Choice.{chan_resolve-first}
use inferno_esp32_p.Prelude.{[], some, ◌∷◌, none, ◌++◌, ◌≡◌, arith, true, refl}
use inferno_esp32_p.ChanResolve.{no_tx}

abbrev deaf : MdnsResult
deaf = record { txt = []; addr = v6 ∷ []; host_addr = none; port = 4455 }

-- An A16R, with an IPv6 address first.
abbrev a16r : MdnsResult
a16r = record {
  txt =
      record { key = some (b'i' ∷ b'd' ∷ []); value = some (b'7' ∷ []) }
      ∷ record { key = some (b'f' ∷ b'p' ∷ b'p' ∷ []); value = some (b'4' ∷ b',' ∷ b'2' ∷ []) }
      ∷ record { key = some (b'b' ∷ b'.' ∷ b'3' ∷ []); value = none }
      ∷ [];
  addr = v6 ∷ v4 0x0500a8c0 ∷ [];
  host_addr = none;
  port = 0;
}

a16r_resolved :
    chan_resolve (some (deaf ∷ a16r ∷ []))
    ≡ some (record {
      ip = 0xc0a80005;
      flow_port = 4455;
      tx_channel_id = 7;
      dbcp1 = 0x1102;
      sample_rate = 48000;
      bits = 24;
      fpp_min = 2;
      fpp_max = 4;
      nchan = 8;
      latency_ns = 0;
      multicast = true;
      bundle_id = 3;
      bundle_pos = 0;
    })
unfolding chan_resolve
a16r_resolved = refl

chan_resolve-first_example :
    chan_resolve (some (deaf ∷ a16r ∷ [])) ≡ some (describe a16r 0x0500a8c0)
unfolding chan_resolve
chan_resolve-first_example =
    chan_resolve-first (deaf ∷ []) [] a16r 1 0x0500a8c0 [] (refl, tt) refl
      (λ e. absurd (omega (arith, e)))

parse_fpp-decimal_example :
    parse_fpp
      (record {
        key = some (b'f' ∷ b'p' ∷ b'p' ∷ []);
        value = some (decimal 128 ++ (b',' ∷ decimal 16));
      }
        ∷ [])
      no_tx
    ≡ record no_tx { fpp_max = 128; fpp_min = 16 }
parse_fpp-decimal_example = parse_fpp-decimal [] [] 128 16 no_tx (omega arith) (omega arith) tt
