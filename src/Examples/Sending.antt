-- ===== src/Examples/Sending.antt =====
-- A sender with two subflows, and what it sends.
use mprtplib.Prelude.{
  ℕ, ◌++◌, if◌then◌else◌, suc, ◌^◌, ◌<◌, ◌≤◌, ◌≡◌, ◌⊎◌, arith, Bool, true, false, some, drop, List,
  [], ◌∷◌, set, get_elem?,
}
use mprtplib.Prelude.Result.{ok}
use mprtplib.Packet.{rtp_packet}
use mprtplib.Packet.RoundTrip.{received}
use mprtplib.Interface.{Datagram, datagram}
use mprtplib.Subflow.{Subflow, process_rr_packet}
use mprtplib.Subflow.Congestion.{Moves, IsMeasured, process_rr_packet_step}
use mprtplib.Sender.{Sender, select_subflow, send_data, get_next_timestamp}
use mprtplib.Sender.Cycle.{send_sender_report, report_of}
use mprtplib.Session.{Handlers, process_rtcp_packet}
use mprtplib.Sender.Reporting.{
  FitsSender, send_sender_report_lem, send_sender_report-process_rtcp_packet,
}
use mprtplib.Sender.Selection.{reached, NoneBefore, select_subflow_lem}
use mprtplib.Sender.Sending.{
  after_send, arriving, data_datagram, send_data_lem, send_data-rtp_packet,
}
use mprtplib.World.{take_random}
use mprtplib.Examples.{paths, path, payload, loss_report, whole, world}

abbrev pub camera : Sender ℕ
camera = record {
  sequence_number = 65535;
  timestamp = 5;
  next_subflow_id = 3;
  ssrc = 9;
  dest_addr = [];
  timestamp_unit = 1;
  subflows = paths;
  recalc_distribution = false;
  packet_count = 1;
  octet_count = 10;
  last_packet_time = 1;
  last_sender_report_time = 1;
  stream_bitrate = 1;
  sb_size = 0;
  sb_time = 0;
  world = world;
}

process_rr_packet_step_example :
    let after = process_rr_packet (path 1 2) (loss_report 20) 60 61 in
    let ci = after.congestion_indicator in
    (ci ≤ 3)
    × ((IsMeasured (path 1 2) × Moves 20 2 ci) ⊎ (¬ IsMeasured (path 1 2) × (ci ≡ 2)))
    × (after.last_receiver_report ≡ some (loss_report 20))
    × (after.packet_count_tt ≡ 0)
    × (after.octet_count_tt ≡ 0)
process_rr_packet_step_example =
    process_rr_packet_step (path 1 2) (loss_report 20) 60 61 (omega arith)

select_subflow_lem_example :
    (k : ℕ) × (select_subflow camera ≡ ok (k, record camera { world = (take_random world).1 }))
    × (k < 2)
    × (((whole.lt 0 (reached 0 paths (suc k)) ≡ true) × NoneBefore 0 paths 0 k)
        ⊎ ((k ≡ 0) × NoneBefore 0 paths 0 2))
select_subflow_lem_example = select_subflow_lem camera (λ e. cc)

send_data_lem_example :
    (k : ℕ) × (sf : Subflow ℕ) × (sent : Bool) × (s' : Sender ℕ) × (send_data payload camera
      ≡ ok (sent, s'))
    × (get_elem? paths k ≡ some sf)
    × (sent ≡ true)
    × (s'.world.sent ≡ data_datagram camera sf payload s'.timestamp ∷ [])
    × (s'.subflows ≡ set paths k (after_send sent sf 2))
    × (s'.sequence_number ≡ 0)
    × (s'.timestamp < 2 ^ 32)
    × (s'.packet_count ≡ (if sent then 2 else 1))
    × (s'.octet_count ≡ (if sent then 12 else 10))
    × (s'.ssrc ≡ 9)
send_data_lem_example = send_data_lem camera payload (λ e. cc)

send_data-rtp_packet_example :
    (k : ℕ) × (sf : Subflow ℕ) × (sent : Bool) × (s' : Sender ℕ) × (out : Datagram) × (send_data
        payload camera
      ≡ ok (sent, s'))
    × (get_elem? paths k ≡ some sf)
    × (s'.world.sent ≡ out ∷ [])
    × (let raw = arriving {W = ℕ} (7, 5000) 40 false out.bytes in
        rtp_packet raw
        ≡ ok (received raw 65535 s'.timestamp 9 sf.subflow_id sf.sequence_number payload))
    × (drop 24 out.bytes ≡ payload)
send_data-rtp_packet_example =
    send_data-rtp_packet camera payload (7, 5000) 40 (λ e. cc) (omega arith) (omega arith)
      ((omega arith, omega arith), ((omega arith, omega arith), tt))

send_sender_report_lem_example :
    (k : ℕ) × (sf : Subflow ℕ) × (s' : Sender ℕ) × (send_sender_report camera ≡ ok s')
    × (get_elem? paths k ≡ some sf)
    × (s'.world.sent
        ≡ datagram sf.iface (report_of (get_next_timestamp camera)) sf.remote true ∷ [])
    × (s'.subflows ≡ paths)
    × (s'.last_sender_report_time ≡ (get_next_timestamp camera).last_packet_time)
send_sender_report_lem_example = send_sender_report_lem camera (λ e. cc) (omega arith)

camera-FitsSender : FitsSender camera
camera-FitsSender = record {
  ssrc_fits = omega arith;
  total_fits = record {
    id_fits = omega arith;
    packets_fit = omega arith;
    octets_fit = omega arith;
  };
  subflows_fit = (
    record { id_fits = omega arith; packets_fit = omega arith; octets_fit = omega arith },
    (record { id_fits = omega arith; packets_fit = omega arith; octets_fit = omega arith }, tt),
  );
}

-- The receiver of the report writes down the subflow and the packet count of each part.
abbrev pub counting : Handlers ℕ ℕ (List ℕ)
counting = record {
  on_rtp_packet = λ pkt i s. ok (true, pkt, s);
  on_rtcp_sr_packet = λ pkt id i s. ok (s ++ (id ∷ pkt.packet_count ∷ []));
  on_rtcp_rr_packet = λ pkt id ssrc i s. ok s;
}

send_sender_report-process_rtcp_packet_example :
    (s' : Sender ℕ) × (out : Datagram) × (send_sender_report camera ≡ ok s')
    × (s'.world.sent ≡ out ∷ [])
    × (process_rtcp_packet counting (arriving (7, 5000) 40 true out.bytes) 0 []
        ≡ ok (0 ∷ 1 ∷ 1 ∷ 3 ∷ 2 ∷ 3 ∷ []))
send_sender_report-process_rtcp_packet_example =
    send_sender_report-process_rtcp_packet counting 0 (7, 5000) 40 [] camera (λ e. cc) (omega arith)
      camera-FitsSender (λ x. omega arith)
