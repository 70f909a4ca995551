-- ===== src/Examples/Clients.antt =====
-- A client and a server of examples/, from their options to a line that is sent.
use mprtplib.Prelude.{
  ◌==◌, ◌/◌, ℕ, ◌+◌, ◌^◌, ◌<◌, ◌≤◌, ◌≡◌, refl, arith, Bool, true, false, some, List, [], ◌∷◌, map,
  length,
}
use mprtplib.Prelude.Int.{pos}
use mprtplib.Prelude.Result.{Result, ok, fault, stuck}
use mprtplib.Address.{Text, in_same_subnet, subnet_mask}
use mprtplib.Interface
use mprtplib.Interface.{
  Interface, poll_loop, receive, rtp_select, Datagram, open_sockets, new_interface, get_address,
}
use mprtplib.Struct.{reads}
use mprtplib.Time.{is_zero}
use mprtplib.Stat
use mprtplib.Stat.{first_packet, source_stats}
use mprtplib.Source
use mprtplib.Source.{new_source, find_or_add, find_subflow, store_subflow}
use mprtplib.Packet.{
  RtpPacket, rtp_packet, parse_raw, parse_type, parse_padding, parse_extension, parse_mprtp,
  parse_payload,
}
use mprtplib.Address.Subnet.{in_same_subnet-prefix}
use mprtplib.Packet.Build.{data_packet}
use mprtplib.Subflow
use mprtplib.Subflow.{new_subflow}
use mprtplib.World.{take_time, take_random}
use mprtplib.Session.{process_rtp_packet, accept_rtp_packet}
use mprtplib.Session.Poll.{
  Session, Rounds, add_interface, fetch_packet, poll_session, poll_interfaces, process_interfaces,
  process_packets,
}
use mprtplib.Sender.{Sender, new_sender, send_data}
use mprtplib.Sender.Connect.{connect, connect_loop, connect_interface}
use mprtplib.Sender.Cycle.{poll}
use mprtplib.Sender.Lists.{route, IsSoundSubflow}
use mprtplib.Sender.Sending.{arriving}
use mprtplib.Sender.Steady.{IsSound}
use mprtplib.Sender.Invariant.{poll-poll_session, send_data-IsSound}
use mprtplib.Sender.Routes.{connect-IsSound}
use mprtplib.Receiver
use mprtplib.Receiver.{
  Receiver, receiver_handlers, new_receiver, on_rtp_packet, get_source, find_source, put_source,
  poll_sources,
}
use mprtplib.Programs.{Opening, add_interfaces}
use mprtplib.Programs.Client.{ClientSettings, start_client, new_client, destinations, is_path_valid}
use mprtplib.Programs.Client.Start.{client_routes}
use mprtplib.Programs.Client.Threads.{
  Client, sending, sent, waiting, joining, locking, main_thread, threads_of, Step, check, read_line,
  lock_main, Reach, here, next,
}
use mprtplib.Programs.Client.Threads.Laws.{IsRunning, Reach-IsRunning}
use mprtplib.Programs.Client.Threads.Stops.{IsDeadlocked, interrupt-IsDeadlocked}
use mprtplib.Programs.Client.Threads.Progress.{Goes, Reach-Goes}
use mprtplib.Programs.Server.{
  ServerSettings, Line, drain, print_packet, start_server, serve, serve_once,
}
use mprtplib.Programs.Server.Printing.{line_of}
use mprtplib.Programs.Server.Serving.{serve-drain}
use mprtplib.Programs.Delivery.{sending-printed}
use mprtplib.Examples.{whole, world, wlan, payload, path, paths}
use mprtplib.Examples.Sending.{camera}

-- An address is its last byte.
abbrev pub inet_addr : Text → ℕ
inet_addr text = length text

abbrev pub opens : ℕ → Opening
opens k = record {
  rtp_sock = pos (3 + k);
  rtcp_sock = pos (4 + k);
  bind_rtp = pos 0;
  bind_rtcp = pos 0;
}

abbrev pub settings : ClientSettings
settings = record {
  local_ifaces = (1 ∷ []) ∷ [];
  remote_ifaces = (1 ∷ 2 ∷ []) ∷ [];
  local_port = 23000;
  remote_port = 22000;
}

-- One interface and one destination in its /24.
pub connected : (start_client inet_addr opens settings world).0 ≡ true
unfolding start_client new_client add_interfaces add_interface open_sockets new_interface
    destinations connect connect_loop connect_interface get_address is_path_valid in_same_subnet
    subnet_mask new_sender
connected = refl

abbrev pub laptop : Session ℕ (Sender ℕ)
laptop = (start_client inet_addr opens settings world).1

-- The poll thread is at `lock`, and the main thread at `send_data` with a line.
abbrev at_send : Client ℕ
at_send = record (threads_of laptop) {
  poller = locking;
  sync = main_thread;
  reader = sending payload;
}

Reach-at_send : Reach (threads_of laptop) at_send
Reach-at_send =
    next
      (next (next here (check (threads_of laptop) refl refl)) (
        read_line (record (threads_of laptop) { poller = locking }) payload refl (λ e. cc)
          (omega arith)))
      (lock_main (record (threads_of laptop) { poller = locking; reader = waiting payload }) payload
        refl refl)

Reach-IsRunning_example : IsRunning (client_routes inet_addr settings laptop.interfaces) at_send
Reach-IsRunning_example =
    Reach-IsRunning inet_addr opens settings world at_send connected Reach-at_send

interrupt-IsDeadlocked_example :
    (c' : Client ℕ) × Step at_send c' × IsDeadlocked c' × ((c'' : Client ℕ) → ¬ Step c' c'')
interrupt-IsDeadlocked_example =
    interrupt-IsDeadlocked inet_addr opens settings world at_send payload connected Reach-at_send
      refl refl

-- The sockets bring nothing.
abbrev pub silence : ℕ → Rounds ℕ
silence k = record { rtp_rounds = []; rtcp_rounds = [] }

Reach-Goes_example : Goes silence at_send
Reach-Goes_example =
    Reach-Goes inet_addr opens settings world at_send silence connected Reach-at_send

abbrev joining_laptop : Client ℕ
joining_laptop = record (threads_of laptop) { reader = joining; poller = locking }

abbrev empty_receiver : Receiver ℕ
empty_receiver = record { sources = []; timestamp_unit = 1; ssrc = 0xBEAF; world = world }

sending-printed_example :
    (s' : Sender ℕ) × (out : Datagram) × (pkt : RtpPacket ℕ) × (r' : Receiver ℕ) × Step at_send
      (record at_send { reader = sent; cli = record laptop { object = s' } })
    × (s'.world.sent ≡ out ∷ laptop.object.world.sent)
    × (process_rtp_packet receiver_handlers
          (arriving (7, 5000) 40 false out.bytes)
          wlan
          empty_receiver
          []
        ≡ ok (r', pkt ∷ []))
    × (print_packet pkt ≡ ok (2, payload))
sending-printed_example =
    sending-printed inet_addr opens settings world at_send payload (7, 5000) 40 wlan empty_receiver
      [] connected Reach-at_send refl

-- The counts of the stream are those of its two subflows.
abbrev steady : Sender ℕ
steady = record camera { packet_count = 6; octet_count = 60 }

steady-IsSound : IsSound (map route paths) 9 steady
steady-IsSound = record {
  sequence_fits = omega arith;
  timestamp_fits = omega arith;
  subflows_sound = (
    path-IsSound 1 0 (omega arith) (omega arith),
    (path-IsSound 2 1 (omega arith) (omega arith), tt),
  );
  packets_add_up = refl;
  octets_add_up = refl;
  same_routes = refl;
  same_ssrc = refl;
}
  where
    path-IsSound :
        (id indicator : ℕ) → id < 2 ^ 16 → indicator ≤ 3 → IsSoundSubflow (path id indicator)
    path-IsSound id indicator h k = record {
      id_fits = h;
      sequence_fits = omega arith;
      packets_fit = omega arith;
      octets_fit = omega arith;
      congestion_fits = k;
    }

send_data-IsSound_example :
    (whole_packet : Bool) × (s' : Sender ℕ) × (send_data payload steady ≡ ok (whole_packet, s'))
    × IsSound (map route paths) 9 s'
send_data-IsSound_example =
    send_data-IsSound (map route paths) 9 steady payload (λ e. cc) steady-IsSound

abbrev streaming : Session ℕ (Sender ℕ)
streaming = record { interfaces = wlan ∷ []; packets = []; object = steady }

poll-poll_session_example :
    (s' : Session ℕ (Sender ℕ)) × (poll silence streaming ≡ ok (pos 0, s'))
    × IsSound (map route paths) 9 s'.object
unfolding poll_session poll_interfaces Interface.poll poll_loop process_interfaces process_packets
poll-poll_session_example =
    poll-poll_session (map route paths) 9 silence streaming streaming (pos 0) steady-IsSound
      (omega arith) (omega arith) refl

connect-IsSound_example :
    let (done, s) =
      connect (λ a b. true) (wlan ∷ []) 9 ((7, 5000) ∷ (8, 5000) ∷ []) (new_sender 1 world) in
    IsSound ((1, (7, 5000), wlan) ∷ (2, (8, 5000), wlan) ∷ []) 9 s × (done ≡ true)
connect-IsSound_example =
    connect-IsSound (λ a b. true) (wlan ∷ []) 9 ((7, 5000) ∷ (8, 5000) ∷ []) 1 world (λ e. cc)

-- A server with one interface gets a data packet in its first pass.
abbrev pub station : ServerSettings
station = record { ifaces = (1 ∷ []) ∷ []; port = 22000 }

abbrev arrival : ℕ → Rounds ℕ
arrival k = record {
  rtp_rounds =
      record {
        waiting = 26;
        polled = record { status = pos 0; interrupted = false; revents = false };
        received = some (data_packet 65535 100 9 1 17 payload, 7, 5000);
        recvtime = 40;
      }
      ∷ [];
  rtcp_rounds = [];
}

abbrev pub value_or : {A : Type 0} → A → Result A → A
value_or a (ok b) = b
value_or a fault = a
value_or a stuck = a

abbrev pub idle : Session ℕ (Receiver ℕ)
idle = record { interfaces = []; packets = []; object = empty_receiver }

abbrev pub started : Session ℕ (Receiver ℕ)
started = value_or idle (start_server inet_addr opens station world)

abbrev served : List Line × Session ℕ (Receiver ℕ)
served = value_or ([], idle) (serve (arrival ∷ []) started)

pub starts : start_server inet_addr opens station world ≡ ok started
unfolding start_server new_receiver
starts = refl

serves : serve (arrival ∷ []) started ≡ ok served
unfolding start_server new_receiver serve serve_once drain add_interfaces add_interface open_sockets
    fetch_packet Receiver.poll poll_session poll_interfaces Interface.poll poll_loop receive
    rtp_select process_interfaces process_packets new_interface process_rtp_packet accept_rtp_packet
    rtp_packet parse_raw parse_type parse_padding parse_extension parse_mprtp parse_payload
    data_packet reads receiver_handlers on_rtp_packet Source.process_packet get_source find_source
    put_source new_source Stat.process_packet first_packet find_or_add find_subflow store_subflow
    new_subflow source_stats Subflow.process_rtp_packet take_time take_random is_zero poll_sources
    Source.poll
serves = refl

serve-drain_example :
    drain (length served.1.packets + 1) served.1
    ≡ ok (map line_of served.1.packets, record (served.1) { packets = [] })
serve-drain_example =
    serve-drain inet_addr opens station world (arrival ∷ []) served.0 started served.1 starts serves

-- 10.0.0.1 and 10.0.0.2, and the first 24 bits.
in_same_subnet-prefix_example :
    in_same_subnet (0x0A000001, 22000) (0x0A000002, 23000) 24
    ≡ (0x0A000001 / 256 == 0x0A000002 / 256)
in_same_subnet-prefix_example =
    in_same_subnet-prefix (0x0A000001, 22000) (0x0A000002, 23000) 24 (omega arith) (omega arith)
      (omega arith) (omega arith)
