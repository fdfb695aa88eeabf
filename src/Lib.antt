-- ===== src/Lib.antt =====
-- Verification of the firmware core of Inferno-ESP32-P4, an eight-channel network audio receiver.
--
-- The program. A PTPv1 slave (main/ptpv1.c) pairs the frames of the network's Leader and feeds the
-- offsets to a servo (main/ptp_servo.c), which steers the hardware clock. The media clock
-- (main/media_clock.c) keeps the DAC on that timeline: it anchors the ring once, then trims the rate
-- of the clock generator. The ring (main/jitterbuf.c) is the I2S DMA's own buffers; a packet
-- (main/aoip_rx.c) is written straight to the slot where it will be played. The flow-control client
-- (main/flows_client.c) asks transmitters to send. The subscriber (main/subscriber.c) turns the
-- controller's subscriptions into flows: it resolves each transmitter (main/chan_resolve.c), asks
-- through the flow-control client, and binds a socket of the receiver for each flow. The ARC server
-- (main/aoip_arc.c, with the messages of main/aoip_msg.c) takes the controller's requests: it changes
-- the subscriptions and the latency, and shows the channels, the flows and the device. The rate
-- (main/rate.c) is chosen at boot. All share the formats of main/aoip_wire.h.
--
-- The files. A module carries the name of its part, and its functions the names of the source.
--   Servo        main/ptp_servo.c: Window is the low-edge filter, Estimate the frequency estimate,
--                Update the rest of ptp_servo_update; Bounds, Hysteresis, LowEdge, Steps are proofs
--   Ptp          main/ptpv1.c: PathDelay, Offset, Frames and Task follow the source from the path
--                delay to a round of ptp_task; Mean, Bounds and Pairing are proofs
--   Wire         main/aoip_wire.h: the fields, headers and the audio packet
--   MediaClock   main/media_clock.c: the parent holds the latency and the anchor, Tick the tick
--   JitterBuf    main/jitterbuf.c: Dma is the interrupt, the position and the mapping, Write jb_write;
--                Position, Mapping, Gain, Rows, Landing and Packets are proofs
--   AudioRx      main/aoip_rx.c: Packet is handle_packet, Flows the fast path and the flows' life
--   FlowsClient  main/flows_client.c
--   Subscriber   main/subscriber.c: Commands, Resolve, Wants, Reconcile, Rebuild and Task follow the
--                source, Life is a run of the task among the controller's commands; the rest are
--                proofs: Status, Ghosts, Unghosted and Unsubscribed on the statuses, Table, Requests,
--                Granted, Asked, Grouping, Gathered, Wanted, Reconciled, Matched, Rebuilt and Renewed
--                on the flow table, Replacing, Cache, Liveness, Reboot and Race on what they name
--   Arc          main/aoip_arc.c: the parent holds the requests that set something, Tables the property
--                tables, Replies and Channels the replies, Handle the handler and a round of the task;
--                Strings, Items, Renames, Patching and Latency are proofs
--   Msg          main/aoip_msg.c
--   ChanResolve  main/chan_resolve.c: Numbers holds strtoul and sscanf, Answers the rest
--   Reqlog       main/reqlog.c
--   Rate         main/rate.c
--   Prelude      what they share: lists, bytes, integers, machine words, Boolean tests
-- Each Tests module holds concrete inputs at which the theorems apply.
--
-- How the code is modelled. The static variables of a file are one record, and a function takes it
-- and gives it back. What a part asks of others is a list of calls, latest first (ClockCall of Ptp,
-- Call of MediaClock); what it reads of them is an argument (View, Now, Host, Env, Boot,
-- World, Site). Code that is not in the repository's main folder answers by such arguments: the
-- time, the sockets' datagrams, NVS, the gain of a number of dB. The double arithmetic of the
-- servo's estimate is a record of operations (Doubles of Servo), so that what is proved holds for
-- any of them.
-- A signed integer is an exact integer (its overflow is undefined in C); a cast to a narrower type
-- and an unsigned number wrap as written out. A read past the end of a list of bytes gives 0; the
-- source checks lengths first.
--
-- Bounds and fuel. Loops are recursion on a list or a count. The shift of jb_attach_dma has 32 steps
-- (a descriptor of up to 2 ^ 32 frames), the padding of a flow request eight (the strings reach a
-- multiple of eight within them), and the wait for a reply the source's four.
--
-- The rebuild of the subscriber works on a snapshot while the controller goes on: World lists the
-- commands that arrive before each resolution and each request. Between
-- the check of a status and its write, two critical sections in the source, come its gaps. A name of
-- 32 bytes is its bytes before the NUL, cut at 31 where the source cuts it.
--
-- Not modelled: device information (main/aoip_info.c); the dump of the request log; mDNS, telemetry,
-- console and web page (input and output); the set-up of I2S, APLL, DAC and EMAC (hardware
-- registers); logs; and the copy of the Ethernet driver under components/.
pub mod Prelude
pub mod Servo
pub mod Wire
pub mod Ptp
pub mod MediaClock
pub mod Msg
pub mod JitterBuf
pub mod Arc
pub mod AudioRx
pub mod FlowsClient
pub mod Rate
pub mod ChanResolve
pub mod Reqlog
pub mod Subscriber
