-- ===== src/Rtcp.antt =====
-- include/mprtp_rr_packet.h, src/mprtp_rr_packet.cpp, include/mprtp_sr_packet.h and
-- src/mprtp_sr_packet.cpp: receiver and sender reports and their parsers. `data` of the code is the
-- memory from the report on. The `print` functions are output for debugging and are not modelled.
pub mod Build
pub mod Ranges
use mprtplib.Prelude.{
  ℕ, zero, suc, ◌+◌, ◌*◌, ◌==◌, Bool, true, false, List, [], ◌∷◌, drop, if◌then◌else◌,
}
use mprtplib.Prelude.Result.{Result, ok, ◌>>=◌}
use mprtplib.Address.{Endpoint}
use mprtplib.Bytes.{Memory, u8_at, u32_at}
use mprtplib.Struct.{
  packettype_at, count_at, rtcptype_sr, sizeof_rtcp_common_header, sizeof_rtp_source_identifier,
  sizeof_rtcp_sender_report, sizeof_rtcp_receiver_report,
}

pub record RrPacket (W : Type 0) : Type 0 where
  pub recv_time : W
  pub recv_from : Endpoint
  pub ssrc : ℕ
  pub fractionlost : ℕ
  pub packetslost : ℕ
  pub exthighseqnr : ℕ
  pub jitter : ℕ
  pub lsr : ℕ
  pub dlsr : ℕ

pub record SrPacket (W : Type 0) : Type 0 where
  pub is_loaded : Bool
  pub recv_time : W
  pub recv_from : Endpoint
  pub sender_ssrc : ℕ
  pub ntp_msw : ℕ
  pub ntp_lsw : ℕ
  pub rtp_timestamp : ℕ
  pub packet_count : ℕ
  pub octet_count : ℕ
  pub rr_reports : List (RrPacket W)

module _ {W : Type 0} where
  -- `rtcp_rr_packet`'s constructor: `parse` always answers true.
  unfoldable pub rr_packet : Memory → Endpoint → W → Result (RrPacket W)
  rr_packet p recv_from recvtime = do
    ssrc ← u32_at p 0
    fractionlost ← u8_at p 4
    lost2 ← u8_at p 7
    lost1 ← u8_at p 6
    lost0 ← u8_at p 5
    exthighseqnr ← u32_at p 8
    jitter ← u32_at p 12
    lsr ← u32_at p 16
    dlsr ← u32_at p 20
    ok (record {
      recv_time = recvtime;
      recv_from = recv_from;
      ssrc = ssrc;
      fractionlost = fractionlost;
      packetslost = lost2 + lost1 * 256 + lost0 * 65536;
      exthighseqnr = exthighseqnr;
      jitter = jitter;
      lsr = lsr;
      dlsr = dlsr;
    })

  -- The loop over the report blocks, on the blocks that are left.
  unfoldable pub rr_blocks : ℕ → Memory → Endpoint → W → Result (List (RrPacket W))
  rr_blocks zero p recv_from recvtime = ok []
  rr_blocks (suc n) p recv_from recvtime = do
    rr ← rr_packet p recv_from recvtime
    rest ← rr_blocks n (drop sizeof_rtcp_receiver_report p) recv_from recvtime
    ok (rr ∷ rest)

  -- The members as `rtcp_sr_packet`'s constructor sets them, before it calls `parse`.
  pub sr_blank : Endpoint → W → SrPacket W
  sr_blank recv_from recvtime = record {
    is_loaded = false;
    recv_time = recvtime;
    recv_from = recv_from;
    sender_ssrc = 0;
    ntp_msw = 0;
    ntp_lsw = 0;
    rtp_timestamp = 0;
    packet_count = 0;
    octet_count = 0;
    rr_reports = [];
  }

  -- The rest of `parse`, where the packet type is right.
  unfoldable pub sr_load : Memory → SrPacket W → Result (SrPacket W)
  sr_load hdr blank = do
    let ssrc_hdr = drop sizeof_rtcp_common_header hdr
    ssrc ← u32_at ssrc_hdr 0
    let sr = drop sizeof_rtp_source_identifier ssrc_hdr
    msw ← u32_at sr 0
    lsw ← u32_at sr 4
    ts ← u32_at sr 8
    packets ← u32_at sr 12
    octets ← u32_at sr 16
    count ← count_at hdr
    reports ← rr_blocks count (drop sizeof_rtcp_sender_report sr) blank.recv_from blank.recv_time
    ok (record blank {
      is_loaded = true;
      sender_ssrc = ssrc;
      ntp_msw = msw;
      ntp_lsw = lsw;
      rtp_timestamp = ts;
      packet_count = packets;
      octet_count = octets;
      rr_reports = reports;
    })

  -- `rtcp_sr_packet`'s constructor; `is_loaded` is the result of `parse`.
  unfoldable pub sr_packet : Memory → Endpoint → W → Result (SrPacket W)
  unfolding sr_load sr_blank
  sr_packet hdr recv_from recvtime = do
    packettype ← packettype_at hdr
    let blank = sr_blank recv_from recvtime
    if packettype == rtcptype_sr then sr_load hdr blank else ok blank
