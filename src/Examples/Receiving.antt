-- ===== src/Examples/Receiving.antt =====
-- What a source, a receiver and an interface do with packets.
use mprtplib.Prelude.{ℕ, ◌≡◌, refl, arith, true, false, none, some, [], ◌∷◌}
use mprtplib.Prelude.Int.{pos}
use mprtplib.Prelude.Result.{ok}
use mprtplib.Packet.{RtpPacket}
use mprtplib.Interface
use mprtplib.Interface.{
  Interface, Datagram, Round, datagram, sendto, suspend, poll_loop, open_sockets, close_sockets,
}
use mprtplib.Interface.Laws.{poll-suspend}
use mprtplib.Stat
use mprtplib.Subflow.{Subflow}
use mprtplib.Source.{Source, find_subflow, process_packet}
use mprtplib.Source.Packets.{Distinct, from_raw, process_packet_new_subflow}
use mprtplib.Receiver.{Receiver, find_source, on_rtp_packet, get_source}
use mprtplib.Receiver.Sources.{RisesFrom, on_rtp_packet-sources}
use mprtplib.World.{World}
use mprtplib.Examples.{paths, path, payload, whole, wlan, world, raw_of, packet_of}

abbrev pub stream : Source ℕ
stream = record {
  ssrc = 9;
  sender_ssrc = 8;
  stat = (path 1 0).recv_stat;
  subflows = paths;
  last_sender_report = none;
  last_receiver_report_time = 0;
  send_rr = true;
}

process_packet_new_subflow_example :
    (src' : Source ℕ) × (pack' : RtpPacket ℕ) × (w' : World ℕ) × (process_packet stream
        (from_raw (raw_of []) (packet_of 500 7 3))
        1
        wlan
        world
      ≡ ok (src', pack', w'))
    × (pack'.extseqnr ≡ 7)
unfolding find_subflow
process_packet_new_subflow_example =
    process_packet_new_subflow stream (packet_of 500 7 3) (raw_of []) 1 wlan world refl
      (omega arith, omega arith)

abbrev pub screen : Receiver ℕ
screen = record {
  sources = (9, stream) ∷ (12, stream) ∷ [];
  timestamp_unit = 1;
  ssrc = 8;
  world = world;
}

abbrev round : Round ℕ
round = record {
  waiting = 26;
  polled = record { status = pos 0; interrupted = false; revents = false };
  received = some (payload, 7, 5000);
  recvtime = 40;
}

poll-suspend_example :
    (Interface.poll true (round ∷ []) (suspend true wlan) ≡ (
      (Interface.poll true (round ∷ []) wlan).0,
      suspend true (Interface.poll true (round ∷ []) wlan).1,
    ))
    × (sendto world.net (suspend true wlan) payload (7, 5000) true
        ≡ sendto world.net wlan payload (7, 5000) true)
poll-suspend_example = poll-suspend true true (round ∷ []) wlan world.net payload (7, 5000)

on_rtp_packet-sources_example :
    (src : Source ℕ) × (sf : Subflow ℕ) × (pkt' : RtpPacket ℕ) × (r' : Receiver ℕ) × (on_rtp_packet
        (from_raw (raw_of []) (packet_of 500 7 2))
        wlan
        screen
      ≡ ok (true, pkt', r'))
    × RisesFrom 0 r'.sources
    × (find_source 9 r'.sources ≡ some src)
    × (find_subflow 2 src.subflows ≡ some sf)
    × (let counted =
          Stat.process_packet stream.stat (from_raw (raw_of []) (packet_of 500 7 2)) false 40 1 in
        (src.stat ≡ counted.0)
        × (sf.recv_stat ≡ (Stat.process_packet (path 2 1).recv_stat counted.1 true 40 1).0))
    × Distinct src.subflows
    × (find_source 12 r'.sources ≡ find_source 12 screen.sources)
unfolding get_source find_source find_subflow
on_rtp_packet-sources_example =
    on_rtp_packet-sources (packet_of 500 7 2) (raw_of []) wlan screen 12
      (omega arith, (omega arith, tt)) (((λ e. cc), tt), (tt, tt)) (λ e. omega arith)
