-- ===== src/Examples/Exchanges.antt =====
-- The reports of a receiver, and its map of sources.
use mprtplib.Prelude.{
  none, ◌<◌, ◌^◌, ℕ, ◌≡◌, refl, arith, true, false, List, [], ◌∷◌, ◌++◌, map, some,
}
use mprtplib.Prelude.Result.{ok, ◌>>=◌, Holds}
use mprtplib.Interface.{Datagram}
use mprtplib.Rtcp.Build.{ReceiverReport, make_rr_packet, subflows_rr_packet}
use mprtplib.Subflow.{Subflow}
use mprtplib.World.{World, take_time}
use mprtplib.Session.{Handlers, process_rtcp_packet}
use mprtplib.Session.Blocks.{each}
use mprtplib.Session.Poll.{Session}
use mprtplib.Session.Reports.{rr_of}
use mprtplib.Sender.Sending.{arriving}
use mprtplib.Source
use mprtplib.Source.{Source, find_subflow}
use mprtplib.Sender.{Sender}
use mprtplib.Sender.Cycle.{sender_handlers}
use mprtplib.Sender.Feedback.{latest, poll-last_receiver_report}
use mprtplib.Examples.Sending.{camera}
use mprtplib.Stat.Ranges.{FitsStat}
use mprtplib.Source.Ranges.{FitsSubflow, FitsSource}
use mprtplib.Source.Exchange.{ReportsOn, total_of, poll-process_rtcp_packet}
use mprtplib.Receiver.{Receiver, poll}
use mprtplib.Receiver.Invariant.{IsOrdered, poll-IsOrdered}
use mprtplib.Examples.{path, whole, wlan, world, loss_report}
use mprtplib.Examples.Receiving.{stream}

-- The sender that gets the reports writes down the subflow and the highest number of each.
abbrev noting : Handlers ℕ ℕ (List ℕ)
noting = record {
  on_rtp_packet = λ pkt i s. ok (true, pkt, s);
  on_rtcp_sr_packet = λ pkt id i s. ok s;
  on_rtcp_rr_packet = λ pkt id ssrc i s. ok (s ++ (id ∷ pkt.exthighseqnr ∷ []));
}

stat-FitsStat : FitsStat ((path 1 0).recv_stat)
stat-FitsStat = record {
  packets_received_fits = omega arith;
  num_cycles_fits = omega arith;
  baseseqnr_fits = omega arith;
  exthighseqnr_fits = omega arith;
  prev_ext_high_seqnr_fits = omega arith;
  jitter_fits = omega arith;
  prev_timestamp_fits = omega arith;
  num_new_packets_fits = omega arith;
  saved_ext_seqnr_fits = omega arith;
}

path-FitsSubflow : (id indicator : ℕ) → id < 2 ^ 16 → FitsSubflow (path id indicator)
path-FitsSubflow id indicator h = record {
  id_fits = h;
  sequence_fits = omega arith;
  packet_count_fits = omega arith;
  octet_count_fits = omega arith;
  packet_count_tt_fits = omega arith;
  octet_count_tt_fits = omega arith;
  report_fits = tt;
  stat_fits = stat-FitsStat;
}

stream-FitsSource : FitsSource stream
stream-FitsSource = record {
  sender_ssrc_fits = omega arith;
  ssrc_fits = omega arith;
  stat_fits = stat-FitsStat;
  report_fits = tt;
  subflows_fit = (path-FitsSubflow 1 0 (omega arith), (path-FitsSubflow 2 1 (omega arith), tt));
}

poll-process_rtcp_packet_example :
    (src' : Source ℕ) × (w' : World ℕ) × (out : Datagram) × (rs : List (ℕ × ReceiverReport))
    × (Source.poll stream world ≡ ok (src', w'))
    × (src'.send_rr ≡ false)
    × (w'.sent ≡ out ∷ [])
    × (map (λ r. r.0) rs ≡ 1 ∷ 2 ∷ [])
    × ReportsOn 9 none rs stream.subflows
    × (out.bytes
        ≡ make_rr_packet 8 (total_of stream (take_time world).1) ++ subflows_rr_packet 8 9 rs)
    × (process_rtcp_packet noting (arriving {W = ℕ} (7, 5000) 40 true out.bytes) 0 [] ≡ (
        noting.on_rtcp_rr_packet (rr_of (7, 5000) 40 (total_of stream (take_time world).1)) 0 8 0 []
        >>= each (λ r s'. noting.on_rtcp_rr_packet (rr_of {W = ℕ} (7, 5000) 40 r.1) r.0 8 0 s') rs))
poll-process_rtcp_packet_example =
    poll-process_rtcp_packet (λ x. omega arith) (λ x. omega arith) noting 0 (7, 5000) 40 [] stream
      world refl (omega arith) (omega arith) stream-FitsSource

abbrev two_streams : Session ℕ (Receiver ℕ)
two_streams = record {
  interfaces = wlan ∷ [];
  packets = [];
  object = record {
    sources = (9, stream) ∷ (12, record stream { ssrc = 12 }) ∷ [];
    timestamp_unit = 1;
    ssrc = 8;
    world = world;
  };
}

poll-IsOrdered_example :
    Holds
      (λ r. IsOrdered (r.1).object.sources)
      (poll (λ k. record { rtp_rounds = []; rtcp_rounds = [] }) two_streams)
poll-IsOrdered_example =
    poll-IsOrdered (λ k. record { rtp_rounds = []; rtcp_rounds = [] }) two_streams
      (record {
        rises = (omega arith, (omega arith, tt));
        placed = ((refl, (((λ e. cc), tt), (tt, tt))), ((refl, (((λ e. cc), tt), (tt, tt))), tt));
      })

poll-last_receiver_report_example :
    (src' : Source ℕ) × (w' : World ℕ) × (out : Datagram) × (rs : List (ℕ × ReceiverReport))
    × (s' : Sender ℕ) × (sf' : Subflow ℕ) × (Source.poll stream world ≡ ok (src', w'))
    × (w'.sent ≡ out ∷ [])
    × ReportsOn 9 none rs stream.subflows
    × (out.bytes
        ≡ make_rr_packet 8 (total_of stream (take_time world).1) ++ subflows_rr_packet 8 9 rs)
    × (process_rtcp_packet sender_handlers
          (arriving {W = ℕ} (7, 5000) 40 true out.bytes)
          wlan
          camera
        ≡ ok s')
    × (find_subflow 2 s'.subflows ≡ some sf')
    × (sf'.last_receiver_report ≡ latest 2 (7, 5000) 40 (some (loss_report 0)) rs)
unfolding find_subflow
poll-last_receiver_report_example =
    poll-last_receiver_report (λ x. omega arith) (λ x. omega arith) wlan (7, 5000) 40 stream world
      camera 2 (path 2 1) refl (omega arith) (omega arith) stream-FitsSource (λ e. omega (arith, e))
      refl
