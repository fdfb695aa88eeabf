-- ===== src/ChanResolve.antt =====
-- main/chan_resolve.c and chan_resolve.h: what an mDNS answer says of a transmit channel.
pub mod Numbers
pub mod Answers
pub mod Decimal
pub mod Fpp
pub mod Choice
mod Tests
use inferno_esp32_p.Prelude.{ℕ, Bool, false}

-- `tx_channel_t`.
pub record TxChannel : Type 0 where
  pub ip : ℕ
  pub flow_port : ℕ
  pub tx_channel_id : ℕ
  pub dbcp1 : ℕ
  pub sample_rate : ℕ
  pub bits : ℕ
  pub fpp_min : ℕ
  pub fpp_max : ℕ
  pub nchan : ℕ
  pub latency_ns : ℕ
  pub multicast : Bool
  pub bundle_id : ℕ
  pub bundle_pos : ℕ

abbrev pub no_tx : TxChannel
no_tx = record {
  ip = 0;
  flow_port = 0;
  tx_channel_id = 0;
  dbcp1 = 0;
  sample_rate = 0;
  bits = 0;
  fpp_min = 0;
  fpp_max = 0;
  nchan = 0;
  latency_ns = 0;
  multicast = false;
  bundle_id = 0;
  bundle_pos = 0;
}
