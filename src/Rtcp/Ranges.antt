-- ===== src/Rtcp/Ranges.antt =====
-- The ranges of what the parser of src/mprtp_sr_packet.cpp stores.
use mprtplib.Prelude.{◌^◌, ◌<◌, ◌==◌, arith, drop, if_both}
use mprtplib.Prelude.Result.{ok, Holds, Holds->>=, Holds-after}
use mprtplib.Address.{Endpoint}
use mprtplib.Bytes.{Memory, AreBytes, u32_at}
use mprtplib.Bytes.Ranges.{AreBytes-drop, u32_at-Holds}
use mprtplib.Struct.{packettype_at, count_at}
use mprtplib.Rtcp.{SrPacket, rr_blocks, sr_blank, sr_load, sr_packet}

module _ {W : Type 0} where
  -- The numbers of a sender report, which are `uint32_t`.
  pub record FitsSr (sr : SrPacket W) : Type 0 where
    pub sender_ssrc_fits : sr.sender_ssrc < 2 ^ 32
    pub ntp_msw_fits : sr.ntp_msw < 2 ^ 32
    pub ntp_lsw_fits : sr.ntp_lsw < 2 ^ 32
    pub rtp_timestamp_fits : sr.rtp_timestamp < 2 ^ 32
    pub packet_count_fits : sr.packet_count < 2 ^ 32
    pub octet_count_fits : sr.octet_count < 2 ^ 32

  sr_load-FitsSr :
      (hdr : Memory) (blank : SrPacket W) → AreBytes hdr → Holds FitsSr (sr_load hdr blank)
  unfolding sr_load
  sr_load-FitsSr hdr blank bytes =
      let ssrc_hdr = drop 4 hdr in
      let sr = drop 4 ssrc_hdr in
      let ssrc_bytes = AreBytes-drop 4 hdr bytes in
      let sr_bytes = AreBytes-drop 4 ssrc_hdr ssrc_bytes in
      Holds->>= _ FitsSr (u32_at ssrc_hdr 0) _ (u32_at-Holds ssrc_hdr 0 ssrc_bytes) λ ssrc a.
        Holds->>= _ FitsSr (u32_at sr 0) _ (u32_at-Holds sr 0 sr_bytes) λ msw b.
          Holds->>= _ FitsSr (u32_at sr 4) _ (u32_at-Holds sr 4 sr_bytes) λ lsw c.
            Holds->>= _ FitsSr (u32_at sr 8) _ (u32_at-Holds sr 8 sr_bytes) λ ts e.
              Holds->>= _ FitsSr (u32_at sr 12) _ (u32_at-Holds sr 12 sr_bytes) λ packets f.
                Holds->>= _ FitsSr (u32_at sr 16) _ (u32_at-Holds sr 16 sr_bytes) λ octets g.
                  Holds-after FitsSr (count_at hdr) _ λ n.
                    Holds-after FitsSr (rr_blocks n (drop 20 sr) blank.recv_from blank.recv_time) _
                      λ reports. record {
                        sender_ssrc_fits = a;
                        ntp_msw_fits = b;
                        ntp_lsw_fits = c;
                        rtp_timestamp_fits = e;
                        packet_count_fits = f;
                        octet_count_fits = g;
                      }

  pub sr_packet-FitsSr :
      (hdr : Memory) (from : Endpoint) (recvtime : W)
      → AreBytes hdr
      → Holds FitsSr (sr_packet hdr from recvtime)
  unfolding sr_packet sr_blank
  sr_packet-FitsSr hdr from recvtime bytes = Holds-after FitsSr (packettype_at hdr) _ λ type.
      if_both (Holds FitsSr) (type == 200) _ (ok _)
        (sr_load-FitsSr hdr (sr_blank from recvtime) bytes)
        (record {
          sender_ssrc_fits = omega arith;
          ntp_msw_fits = omega arith;
          ntp_lsw_fits = omega arith;
          rtp_timestamp_fits = omega arith;
          packet_count_fits = omega arith;
          octet_count_fits = omega arith;
        })
