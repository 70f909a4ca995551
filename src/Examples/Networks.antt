-- ===== src/Examples/Networks.antt =====
-- A client and a server of examples/ over a network.
use mathlib.Core.List.{Memᴰ}
use mprtplib.Prelude.{
  ◌≤◌, length, ℕ, ◌≡◌, refl, arith, Bool, false, some, List, [], ◌∷◌, ◌++◌, map, All,
}
use mprtplib.Prelude.Int.{pos}
use mprtplib.Prelude.Result.{ok}
use mprtplib.Address.{in_same_subnet, subnet_mask}
use mprtplib.Bytes.{Memory}
use mprtplib.Interface
use mprtplib.Interface.{
  Interface, poll_loop, receive, rtp_select, Datagram, open_sockets, new_interface, get_address,
  datagram, sendto,
}
use mprtplib.Struct.{reads}
use mprtplib.Time.{is_zero, rtp_time}
use mprtplib.Stat
use mprtplib.Stat.{first_packet, source_stats}
use mprtplib.Source
use mprtplib.Source.{new_source, find_or_add, find_subflow, store_subflow}
use mprtplib.Packet.{
  rtp_packet, parse_raw, parse_type, parse_padding, parse_extension, parse_mprtp, parse_payload,
}
use mprtplib.Packet.Build.{data_packet}
use mprtplib.Subflow
use mprtplib.Subflow.{new_subflow}
use mprtplib.World.{take_time, take_random, log_sent}
use mprtplib.Session.{process_rtp_packet, accept_rtp_packet}
use mprtplib.Session.Poll.{
  Session, Rounds, add_interface, fetch_packet, poll_session, poll_interfaces, process_interfaces,
  process_packets,
}
use mprtplib.Sender.{
  Sender, new_sender, send_data, select_subflow, select_from, get_next_timestamp, send_via,
  count_data, update_stream_bitrate,
}
use mprtplib.Sender.Connect.{connect, connect_loop, connect_interface}
use mprtplib.Receiver
use mprtplib.Receiver.{
  Receiver, receiver_handlers, new_receiver, on_rtp_packet, get_source, find_source, put_source,
  poll_sources,
}
use mprtplib.Programs.{add_interfaces}
use mprtplib.Programs.Client.{start_client, new_client, destinations, is_path_valid}
use mprtplib.Programs.Client.Threads.{
  sending, sent, waiting, locking, main_thread, threads_of, read_line, lock_main, do_send, check,
}
use mprtplib.Programs.Server.{
  Line, drain, print_packet, payload_data, read_bytes, start_server, serve_once,
}
use mprtplib.Programs.Delivery.{whole as whole_line}
use mprtplib.Programs.Network.{
  Carried, Directed, System, system_of, Run, begin, move, client_moves, server_passes,
}
use mprtplib.Programs.Network.Authentic.{Run-printed}
use mprtplib.Programs.Network.Returns.{Run-serve_once}
use mprtplib.Examples.{whole, world, payload}
use mprtplib.Examples.Clients.{
  inet_addr, opens, settings, connected, laptop, silence, station, value_or, idle, started, starts,
}

-- The client sends the line.
abbrev sent_line : Bool × Sender ℕ
sent_line = value_or (false, laptop.object) (send_data payload laptop.object)

-- A test that runs both programs unfolds this name alone.
unfoldable programs : Unit {0}
unfolding start_client new_client add_interfaces add_interface open_sockets new_interface
    destinations connect connect_loop connect_interface get_address is_path_valid in_same_subnet
    subnet_mask new_sender send_data select_subflow select_from get_next_timestamp send_via
    count_data update_stream_bitrate Subflow.send sendto datagram take_time take_random new_subflow
    log_sent is_zero start_server new_receiver serve_once drain fetch_packet Receiver.poll
    poll_session poll_interfaces Interface.poll poll_loop receive rtp_select process_interfaces
    process_packets process_rtp_packet accept_rtp_packet rtp_packet parse_raw parse_type
    parse_padding parse_extension parse_mprtp parse_payload data_packet reads receiver_handlers
    on_rtp_packet Source.process_packet get_source find_source put_source new_source
    Stat.process_packet first_packet find_or_add find_subflow store_subflow source_stats
    Subflow.process_rtp_packet poll_sources Source.poll rtp_time print_packet payload_data
    read_bytes
programs = tt

sends : send_data payload laptop.object ≡ ok sent_line
unfolding programs
sends = refl

abbrev first_bytes : List Datagram → Memory
first_bytes [] = []
first_bytes (out ∷ rest) = out.bytes

-- What the sockets bring in the server's first pass.
abbrev arrival : ℕ → Rounds ℕ
arrival k = record {
  rtp_rounds =
      record {
        waiting = 26;
        polled = record { status = pos 0; interrupted = false; revents = false };
        received = some (first_bytes sent_line.1.world.sent, 7, 5000);
        recvtime = 40;
      }
      ∷ [];
  rtcp_rounds = [];
}

abbrev pass1 : List Line × Session ℕ (Receiver ℕ)
pass1 = value_or ([], idle) (serve_once arrival started)

abbrev pass2 : List Line × Session ℕ (Receiver ℕ)
pass2 = value_or ([], idle) (serve_once silence pass1.1)

first_pass : serve_once arrival started ≡ ok pass1
unfolding programs
first_pass = refl

second_pass : serve_once silence pass1.1 ≡ ok pass2
unfolding programs
second_pass = refl

-- The threads of the client with the line, up to `send_data`.
abbrev begun : System ℕ
begun = system_of laptop started

abbrev checked : System ℕ
checked = record begun { client = record (threads_of laptop) { poller = locking } }

abbrev typing : System ℕ
typing = record checked {
  client = record (checked.client) { reader = waiting payload };
  typed = payload ∷ [];
}

abbrev at_send : System ℕ
at_send = record typing {
  client = record (typing.client) { reader = sending payload; sync = main_thread };
}

abbrev on_the_way : System ℕ
on_the_way = record at_send {
  client = record (at_send.client) { reader = sent; cli = record laptop { object = sent_line.1 } };
}

abbrev queued : System ℕ
queued = record on_the_way { server = pass1.1; printed = pass1.0 }

abbrev printed : System ℕ
printed = record queued { server = pass2.1; printed = pass1.0 ++ pass2.0 }

both-Run :
    (Net : List Datagram → (ℕ → Rounds ℕ) → Type 0)
    → Net sent_line.1.world.sent arrival
    → Net sent_line.1.world.sent silence
    → Run Net begun printed
unfolding programs
both-Run Net brought nothing =
    move
      (move
        (move
          (move
            (move
              (move begin (client_moves begun checked.client (check (threads_of laptop) refl refl)))
              (client_moves checked typing.client
                (read_line checked.client payload refl (λ e. cc) (omega arith))))
            (client_moves typing at_send.client (lock_main typing.client payload refl refl)))
          (client_moves at_send on_the_way.client
            (do_send at_send.client payload sent_line.0 sent_line.1 refl sends)))
        (server_passes on_the_way arrival pass1.0 pass1.1 brought first_pass))
      (server_passes queued silence pass2.0 pass2.1 nothing second_pass)

prints : printed.printed ≡ (2, payload) ∷ []
unfolding programs
prints = refl

carried : Carried sent_line.1.world.sent arrival
unfolding programs
carried = λ k. ((Memᴰ.head refl, tt), tt)

Run-printed_example : All (λ l. Memᴰ l (map whole_line (payload ∷ []))) printed.printed
Run-printed_example =
    Run-printed inet_addr opens settings world inet_addr opens station world started printed
      connected refl starts (both-Run Carried carried (λ k. (tt, tt)))

-- The network brings the datagram to the RTP socket of the server, and then brings it again.
to_rtp : Directed sent_line.1.world.sent arrival
unfolding programs
to_rtp = λ k. (((Memᴰ.head refl, refl), tt), tt)

few_subflows : length (laptop.object).subflows ≤ 1819
unfolding programs
few_subflows = omega arith

Run-serve_once_example :
    (lines : List Line) × (server' : Session ℕ (Receiver ℕ)) × (serve_once arrival printed.server
      ≡ ok (lines, server'))
Run-serve_once_example =
    Run-serve_once inet_addr opens settings world inet_addr opens station world started printed
      arrival (λ x. omega arith) connected refl few_subflows starts
      (both-Run Directed to_rtp (λ k. (tt, tt))) to_rtp
