-- ===== src/Session/Reports.antt =====
-- What a session makes of the reports that the other side builds (Rtcp/Build), for any handlers.
use mprtplib.Prelude.{ℕ, ◌^◌, ◌<◌, ◌≡◌, true, arith, [], ◌++◌}
use mprtplib.Prelude.Result.{ok}
use mprtplib.Address.{Endpoint}
use mprtplib.Bytes.{Memory}
use mprtplib.Bytes.Laws.{u32_of_htonl}
use mprtplib.Struct.{reads}
use mprtplib.Rtcp.{SrPacket, RrPacket, sr_packet, rr_packet, rr_blocks}
use mprtplib.Rtcp.Build.{Counts, Stamp, ReceiverReport, make_sender_report, receiver_report_bytes}

abbrev IsU32 : ℕ → Type 0
IsU32 x = x < 2 ^ 32

-- The ranges of the C++ types of these fields.
pub record FitsCounts (c : Counts) : Type 0 where
  pub id_fits : c.subflow_id < 2 ^ 16
  pub packets_fit : IsU32 c.packet_count
  pub octets_fit : IsU32 c.octet_count

pub record FitsStamp (t : Stamp) : Type 0 where
  pub timestamp_fits : IsU32 t.timestamp
  pub msw_fits : IsU32 t.ntp_msw
  pub lsw_fits : IsU32 t.ntp_lsw

pub record FitsReport (rr : ReceiverReport) : Type 0 where
  pub ssrc_fits : IsU32 rr.ssrc
  pub fraction_fits : rr.fractionlost < 256
  pub lost_fits : rr.packetslost < 2 ^ 24
  pub seq_fits : IsU32 rr.exthighseqnr
  pub jitter_fits : IsU32 rr.jitter
  pub lsr_fits : IsU32 rr.lsr
  pub dlsr_fits : IsU32 rr.dlsr

module _ {W : Type 0} (recv_from : Endpoint) (recvtime : W) where
  -- The sender report that arrives.
  abbrev pub sr_of : ℕ → Stamp → Counts → SrPacket W
  sr_of ssrc t c = record {
    is_loaded = true;
    recv_time = recvtime;
    recv_from = recv_from;
    sender_ssrc = ssrc;
    ntp_msw = t.ntp_msw;
    ntp_lsw = t.ntp_lsw;
    rtp_timestamp = t.timestamp;
    packet_count = c.packet_count;
    octet_count = c.octet_count;
    rr_reports = [];
  }

  -- The receiver report that arrives.
  abbrev pub rr_of : ReceiverReport → RrPacket W
  rr_of rr = record {
    recv_time = recvtime;
    recv_from = recv_from;
    ssrc = rr.ssrc;
    fractionlost = rr.fractionlost;
    packetslost = rr.packetslost;
    exthighseqnr = rr.exthighseqnr;
    jitter = rr.jitter;
    lsr = rr.lsr;
    dlsr = rr.dlsr;
  }

  -- The parser of sender reports reads back what `make_sender_report` wrote.
  pub sr_packet-make_sender_report :
      (ssrc : ℕ) (t : Stamp) (c : Counts) (rest : Memory)
      → ssrc < 2 ^ 32
      → FitsStamp t
      → FitsCounts c
      → sr_packet (make_sender_report ssrc t c ++ rest) recv_from recvtime ≡ ok (sr_of ssrc t c)
  unfolding sr_packet make_sender_report reads rr_blocks
  sr_packet-make_sender_report ssrc t c rest h ft fc = ground (
    arith,
    u32_of_htonl ssrc,
    u32_of_htonl t.timestamp,
    u32_of_htonl t.ntp_msw,
    u32_of_htonl t.ntp_lsw,
    u32_of_htonl c.packet_count,
    u32_of_htonl c.octet_count,
  )

  -- The parser of report blocks reads back what `fill_receiver_report` left.
  pub rr_packet-receiver_report_bytes :
      (rr : ReceiverReport) (rest : Memory)
      → FitsReport rr
      → rr_packet (receiver_report_bytes rr ++ rest) recv_from recvtime ≡ ok (rr_of rr)
  unfolding rr_packet receiver_report_bytes reads
  rr_packet-receiver_report_bytes rr rest f = ground (
    arith,
    u32_of_htonl rr.ssrc,
    u32_of_htonl rr.exthighseqnr,
    u32_of_htonl rr.jitter,
    u32_of_htonl rr.lsr,
    u32_of_htonl rr.dlsr,
  )
