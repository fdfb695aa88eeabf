-- ===== src/Subscriber/Life.antt =====
-- A life of main/subscriber.c: the start, and then the task's turns among the controller's commands.
use inferno_esp32_p.Subscriber.{
  Subscriber, Channel, Saved, Patch, no_slot, no_resolved, max_flows, nch,
}
use inferno_esp32_p.Subscriber.Commands.{load, subscriber_set, subscriber_rename}
use inferno_esp32_p.Subscriber.Task.{SubTask, Turn, turn}
use inferno_esp32_p.AudioRx.{Receiver}
use inferno_esp32_p.FlowsClient.{Client}
use inferno_esp32_p.Prelude.{ℕ, zero, suc, Bool, true, Option, List, [], ◌∷◌, ◌+◌, replicate}

-- snprintf(s_ch[c].friendly, ..., "%u", c + 1), for `n` channels from `c` on
abbrev pub numbered : ℕ → ℕ → List Channel
numbered c zero = []
numbered c (suc n) =
    record { tx_channel = []; tx_device = []; friendly = (49 + c) ∷ []; status = 0 }
    ∷ numbered (c + 1) n

-- `subscriber_start`, with what NVS holds; the static variables are zero before it.
unfoldable pub subscriber_start : Option (List Saved) → Receiver → Client → Subscriber
subscriber_start nvs rx client = load (record {
  ch = numbered 0 nch;
  flow = replicate max_flows no_slot;
  res = replicate nch no_resolved;
  stats = record {
    requests_ok = 0;
    requests_failed = 0;
    keepalives_ok = 0;
    keepalives_lost = 0;
    resolve_failed = 0;
    fallbacks = 0;
  };
  dirty = true;
  rx = rx;
  client = client;
  nvs = nvs;
  effects = [];
})

pub data Event : Type 0 where
  patched : Patch → Event
  renamed : Bool → ℕ → List ℕ → Event
  turned : Turn → Event

unfoldable pub happen : Event → SubTask → SubTask
happen (patched p) k = record k {
  sub = subscriber_set p.opened p.channel p.tx_channel p.tx_device k.sub;
}
happen (renamed opened c friendly) k = record k { sub = subscriber_rename opened c friendly k.sub }
happen (turned t) k = turn t k

-- From the start of the task on.
unfoldable pub live : List Event → SubTask → SubTask
live [] k = k
live (e ∷ es) k = live es (happen e k)

abbrev pub started : Option (List Saved) → Receiver → Client → SubTask
started nvs rx client = record { next_retry = 0; sub = subscriber_start nvs rx client }
