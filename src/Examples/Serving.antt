-- ===== src/Examples/Serving.antt =====
-- A server of examples/ that gets a sender report.
use mprtplib.Prelude.{false, ℕ, ◌≡◌, refl, arith, true, some, List, [], ◌∷◌, ◌++◌}
use mprtplib.Prelude.Int.{ℤ, pos}
use mprtplib.Prelude.Result.{ok, fault}
use mprtplib.Interface
use mprtplib.Interface.{poll_loop, receive, rtp_select, open_sockets, new_interface}
use mprtplib.Struct.{reads}
use mprtplib.Time.{rtp_time}
use mprtplib.Stat.{source_stats}
use mprtplib.Packet.{RawPacket}
use mprtplib.Rtcp.{sr_packet, sr_load, rr_blocks}
use mprtplib.Rtcp.Build.{
  sender_report_packet, make_sender_report, make_subflow_sender_report, sender_block,
}
use mprtplib.Subflow
use mprtplib.Subflow.{new_subflow}
use mprtplib.World.{World, take_random}
use mprtplib.Session
use mprtplib.Session.{
  Handlers, process_rtcp_packet, rtcp_loop, dispatch_rtcp, process_mprtcp_packet, mprtcp_loop,
  process_block, process_subflow_block,
}
use mprtplib.Session.Poll.{
  Session, Rounds, add_interface, poll_session, poll_interfaces, process_interfaces,
  process_packets,
}
use mprtplib.Source
use mprtplib.Source.{Source, new_source, find_or_add, find_subflow, store_subflow}
use mprtplib.Receiver.{
  Receiver, receiver_handlers, new_receiver, on_rtcp_sr_packet, get_source, find_source, put_source,
  poll_sources,
}
use mprtplib.Receiver.Faults.{process_rtcp_packet-poll_sources}
use mprtplib.Programs.{add_interfaces}
use mprtplib.Programs.Server.{start_server, serve}
use mprtplib.Examples.{whole, world, wlan}
use mprtplib.Examples.Clients.{value_or, idle, started}
use mprtplib.Examples.Receiving.{screen, stream}
use mprtplib.Examples.Reports.{stamp, counts, stamp-FitsStamp}

abbrev report_raw : RawPacket ℕ
report_raw = record {
  bytes = sender_report_packet 9 stamp (counts 0 30) (counts 1 20 ∷ []);
  from_address = (7, 5000);
  is_rtcp = true;
  recvtime = 40;
}

-- The report comes to the RTCP socket.
abbrev report_comes : ℕ → Rounds ℕ
report_comes k = record {
  rtp_rounds = [];
  rtcp_rounds =
      record {
        waiting = 64;
        polled = record { status = pos 0; interrupted = false; revents = false };
        received = some (report_raw.bytes, 7, 5000);
        recvtime = 40;
      }
      ∷ [];
}

abbrev polled : ℤ × Session ℕ (Receiver ℕ)
polled =
    value_or (pos 0, idle)
      (poll_session receiver_handlers report_comes (record started { packets = [] }))

-- A test that runs the server unfolds this name alone.
unfoldable server : Unit {0}
unfolding start_server new_receiver add_interfaces add_interface open_sockets new_interface
    poll_session poll_interfaces Interface.poll poll_loop receive rtp_select process_interfaces
    process_packets process_rtcp_packet rtcp_loop dispatch_rtcp Session.process_sr_packet
    process_mprtcp_packet mprtcp_loop process_block process_subflow_block sr_packet sr_load
    rr_blocks reads sender_report_packet make_sender_report make_subflow_sender_report sender_block
    receiver_handlers on_rtcp_sr_packet get_source find_source put_source new_source
    Source.process_sr_packet Subflow.process_sr_packet find_or_add find_subflow store_subflow
    new_subflow take_random source_stats rtp_time serve
server = tt

-- The source that the report has made.
abbrev source_of : List (ℕ × Source ℕ) → Source ℕ
source_of [] = stream
source_of ((key, src) ∷ rest) = src

abbrev reporter : Source ℕ
reporter = source_of (polled.1.object.sources)

-- The sender that gets the reports writes down the subflow and the highest number of each.
abbrev noting : Handlers ℕ ℕ (List ℕ)
noting = record {
  on_rtp_packet = λ pkt i s. ok (true, pkt, s);
  on_rtcp_sr_packet = λ pkt id i s. ok s;
  on_rtcp_rr_packet = λ pkt id ssrc i s. ok (s ++ (id ∷ pkt.exthighseqnr ∷ []));
}

-- The same report with no subflow, at a receiver that knows the sources 9 and 12.
process_rtcp_packet-poll_sources_example :
    (r' : Receiver ℕ) × (process_rtcp_packet receiver_handlers
        (record report_raw { bytes = sender_report_packet 5 stamp (counts 0 30) [] })
        wlan
        screen
      ≡ ok r')
    × (poll_sources r'.sources r'.world ≡ fault)
unfolding find_source
process_rtcp_packet-poll_sources_example =
    process_rtcp_packet-poll_sources wlan
      (record report_raw { bytes = sender_report_packet 5 stamp (counts 0 30) [] }) 5 stamp
      (counts 0 30) screen refl (omega arith) stamp-FitsStamp
      (record { id_fits = omega arith; packets_fit = omega arith; octets_fit = omega arith }) refl
