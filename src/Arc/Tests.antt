-- ===== src/Arc/Tests.antt =====
-- Witnesses for the ARC server.
use inferno_esp32_p.Wire.{rd16, rd32}
use inferno_esp32_p.Subscriber.Commands.{subscriber_set, save, load}
use inferno_esp32_p.Arc.Items.{Item, ItemsAt, subscribe_all, set_subscriptions-subscribe_all}
use inferno_esp32_p.Arc.Handle.{Site, Server, handle}
use inferno_esp32_p.Arc.Renames.{Renaming, RenamingsAt, rename_all, rename_rx_channels-rename_all}
use inferno_esp32_p.Arc.Latency.{AsksLatency, handle-read_back}
use inferno_esp32_p.Arc.Patching.{arc_1100_body-IsTable}
use inferno_esp32_p.Arc.Strings.{NoNul}
use inferno_esp32_p.Arc.Tables.{arc_1100_body}
use inferno_esp32_p.Subscriber.Life.{subscriber_start}
use inferno_esp32_p.Subscriber.{Subscriber, channel_at}
use inferno_esp32_p.AudioRx.{Receiver, no_flow}
use inferno_esp32_p.FlowsClient.{Client}
use inferno_esp32_p.Reqlog.{no_entry}
use inferno_esp32_p.Prelude.{
  List, none, replicate, ◌∷◌, [], arith, true, ℕ, ◌≡◌, false, length-replicate, refl, ◌++◌, suc,
  zero,
}
use inferno_esp32_p.MediaClock.{Clock}
use inferno_esp32_p.Wire.{rd16}
use inferno_esp32_p.Arc.{
  req_str, set_subscriptions, rd32, subscribe_from, subscribe_item, suc, copy_str, subscriber_set,
  rename_rx_channels,
}
use inferno_esp32_p.Prelude.Int.{pos}
use inferno_esp32_p.Subscriber.Commands.{save, load}

abbrev receiver : Receiver
receiver = record {
  flows = replicate 4 no_flow;
  peak_in = replicate 8 0;
  peak_hb = replicate 8 0;
  stats = record {
    packets = 0;
    bad_magic = 0;
    short_pkt = 0;
    wrong_len = 0;
    ka_sent = 0;
    ka_failed = 0;
    lat_max_samples = pos 0;
    fast_packets = 0;
    stray_packets = 0;
    src_other = 0;
  };
  fast = true;
  ka_now = false;
}

abbrev client : Client
client = record { seq = 1; last_opcode = 0; last_code = 0; refused = 0; timeouts = 0 }

abbrev idle : Subscriber
idle = subscriber_start none receiver client

abbrev clock : Clock
clock = record {
  armed = true;
  anchored = false;
  error_frames = pos 0;
  ppb_target = pos 0;
  ppb_applied = pos 0;
  ppb_ff = pos 0;
  integral = pos 0;
  anchors = 0;
  reset_steps = 0;
  dma_depth_frames = 24;
  latency_frames = 96;
  latency_us = 2000;
  cfg_us = 2000;
  floor_us = 0;
  force_us = 0;
  last_ptp_steps = 0;
  out_of_band = 0;
  calls = [];
}

abbrev server : Server
server = record {
  body_1100 = arc_1100_body;
  sub = idle;
  clock = clock;
  log = record { ring = replicate 24 no_entry; wr = 0 };
}

abbrev site : Site
site = record {
  hostname = b'a' ∷ b'p' ∷ [];
  ip = none;
  opened = λ _. true;
  t_ms = 0;
  view = record {
    locked = false;
    have_master = false;
    rate_ppb = pos 0;
    step_count = 0;
    time = none;
    ring_ready = false;
    playout_idx = 0;
    hz = 48000;
    latency_min_us = 750;
  };
}

-- A subscription of the first channel to "01" of "A16R".
abbrev subscription : List ℕ
subscription =
    0x12 ∷ 0 ∷ 0 ∷ 26 ∷ 0 ∷ 7 ∷ 0x30 ∷ 0x10 ∷ 0 ∷ 0 ∷ 2 ∷ 1 ∷ 0 ∷ 1 ∷ 0 ∷ 18 ∷ 0 ∷ 21 ∷ b'0' ∷ b'1'
    ∷ 0 ∷ b'A' ∷ b'1' ∷ b'6' ∷ b'R' ∷ 0 ∷ []

abbrev subscription_items : List Item
subscription_items =
    record { ch = 1; tx_channel = b'0' ∷ b'1' ∷ []; tx_device = b'A' ∷ b'1' ∷ b'6' ∷ b'R' ∷ [] }
    ∷ []

channel-NoNul : NoNul (b'0' ∷ b'1' ∷ [])
channel-NoNul zero h = omega arith
channel-NoNul (suc zero) h = omega arith
channel-NoNul (suc (suc i)) h = absurd (omega arith)

device-NoNul : NoNul (b'A' ∷ b'1' ∷ b'6' ∷ b'R' ∷ [])
device-NoNul zero h = omega arith
device-NoNul (suc zero) h = omega arith
device-NoNul (suc (suc zero)) h = omega arith
device-NoNul (suc (suc (suc zero))) h = omega arith
device-NoNul (suc (suc (suc (suc i)))) h = absurd (omega arith)

subscription-ItemsAt : ItemsAt subscription 26 0 subscription_items
unfolding rd16
subscription-ItemsAt = (
  record {
    inside = omega arith;
    ch_at = refl;
    tx_channel_at = record {
      behind = omega arith;
      inside = omega arith;
      bytes = refl;
      no_nul = channel-NoNul;
    };
    tx_device_at = record {
      behind = omega arith;
      inside = omega arith;
      bytes = refl;
      no_nul = device-NoNul;
    };
  },
  tt,
)

set_subscriptions-subscribe_all_example :
    set_subscriptions (λ _. true) subscription 26 idle
    ≡ subscribe_all (λ _. true) 0 subscription_items idle
set_subscriptions-subscribe_all_example =
    set_subscriptions-subscribe_all (λ _. true) subscription 26 subscription_items idle
      (omega arith) refl subscription-ItemsAt

-- It subscribes the channel.
subscribed_run :
    (channel_at (set_subscriptions (λ _. true) subscription 26 idle) 0).tx_device
    ≡ b'A' ∷ b'1' ∷ b'6' ∷ b'R' ∷ []
unfolding set_subscriptions subscribe_from subscribe_item req_str copy_str rd16 subscriber_set save
    subscriber_start load
subscribed_run = refl

-- A rename of the second channel to "Kick".
abbrev rename : List ℕ
rename =
    0x12 ∷ 0 ∷ 0 ∷ 21 ∷ 0 ∷ 7 ∷ 0x30 ∷ 0x01 ∷ 0 ∷ 0 ∷ 1 ∷ 1 ∷ 0 ∷ 2 ∷ 0 ∷ 16 ∷ b'K' ∷ b'i' ∷ b'c'
    ∷ b'k' ∷ 0 ∷ []

abbrev renamings : List Renaming
renamings = record { ch = 2; name = b'K' ∷ b'i' ∷ b'c' ∷ b'k' ∷ [] } ∷ []

name-NoNul : NoNul (b'K' ∷ b'i' ∷ b'c' ∷ b'k' ∷ [])
name-NoNul zero h = omega arith
name-NoNul (suc zero) h = omega arith
name-NoNul (suc (suc zero)) h = omega arith
name-NoNul (suc (suc (suc zero))) h = omega arith
name-NoNul (suc (suc (suc (suc i)))) h = absurd (omega arith)

rename-RenamingsAt : RenamingsAt rename 21 0 renamings
unfolding rd16
rename-RenamingsAt = (
  record {
    inside = omega arith;
    ch_at = refl;
    name_at = record {
      behind = omega arith;
      inside = omega arith;
      bytes = refl;
      no_nul = name-NoNul;
    };
  },
  tt,
)

rename_rx_channels-rename_all_example :
    rename_rx_channels (λ _. true) rename 21 idle ≡ (1, rename_all (λ _. true) 0 renamings idle)
rename_rx_channels-rename_all_example =
    rename_rx_channels-rename_all (λ _. true) rename 21 renamings idle (omega arith) refl
      rename-RenamingsAt

-- The latency 40 ms, twice, and a request of the device properties.
abbrev latency_request : List ℕ
latency_request =
    0x12 ∷ 0 ∷ 0 ∷ 40 ∷ 0 ∷ 8 ∷ 0x11 ∷ 1 ∷ replicate 24 0
    ++ (2 ∷ 0x62 ∷ 0x5a ∷ 0 ∷ 2 ∷ 0x62 ∷ 0x5a ∷ 0 ∷ [])

abbrev properties_request : List ℕ
properties_request = 0x12 ∷ 0 ∷ 0 ∷ 10 ∷ 0 ∷ 9 ∷ 0x11 ∷ 0 ∷ 0 ∷ 0 ∷ []

latency_request-AsksLatency : AsksLatency latency_request 40 40000000
unfolding rd16 rd32
latency_request-AsksLatency = record {
  opcode = refl;
  long = omega arith;
  once = refl;
  twice = refl;
}

handle-read_back_example :
    (rd16 (handle site latency_request 40 (replicate 1024 0) server).0.buf 8 ≡ 1)
    × (rd32
          (handle site properties_request 10
            (replicate 1024 0)
            (handle site latency_request 40 (replicate 1024 0) server).1).0.buf
          0xb8
        ≡ 10000000)
unfolding rd16
handle-read_back_example =
    handle-read_back site site latency_request properties_request 40 10 (replicate 1024 0)
      (replicate 1024 0) server 40000000 latency_request-AsksLatency (omega arith) (omega arith)
      refl arc_1100_body-IsTable (omega arith) (omega (arith, length-replicate {A = ℕ} 1024 0))
      (omega (arith, length-replicate {A = ℕ} 1024 0))
