-- ===== src/Rtcp/Build.antt =====
-- The bytes of the reports that `sender` (src/mprtp_sender.cpp) and `source` (src/mprtp_source.cpp)
-- write. The buffers are zero before they are filled in. A block of an MPRTP packet is the report
-- for one subflow behind a `mprtp_rtcp_subflow` header.
use mprtplib.Prelude.{ℕ, ◌+◌, ◌-◌, ◌/◌, ◌%◌, List, [], ◌∷◌, ◌++◌, length}
use mprtplib.Bytes.{Memory, htonl}
use mprtplib.Struct.{
  rtcp_common_header_bytes, mprtp_rtcp_subflow_bytes, rtcptype_sr, rtcptype_rr, rtcptype_mprtp,
  mprtcp_type_subflow, sizeof_mprtp_rtcp_subflow, sizeof_rtcp_common_header,
  sizeof_rtp_source_identifier, sizeof_rtcp_receiver_report,
}

-- What `make_sender_report` writes of the stream or of one subflow.
pub record Counts : Type 0 where
  pub subflow_id : ℕ
  pub packet_count : ℕ
  pub octet_count : ℕ

-- The times of a sender report.
pub record Stamp : Type 0 where
  pub timestamp : ℕ
  pub ntp_msw : ℕ
  pub ntp_lsw : ℕ

-- `struct rtcp_receiver_report`, in host order, with the 24 bits of `packetslost` as one number.
pub record ReceiverReport : Type 0 where
  pub ssrc : ℕ
  pub fractionlost : ℕ
  pub packetslost : ℕ
  pub exthighseqnr : ℕ
  pub jitter : ℕ
  pub lsr : ℕ
  pub dlsr : ℕ

-- A row of blocks, one behind the other.
abbrev pub concat_map {ℓ} : {A : Type ℓ} → (A → Memory) → List A → Memory
concat_map f [] = []
concat_map f (a ∷ rest) = f a ++ concat_map f rest

-- `sender::make_sender_report`
unfoldable pub make_sender_report : (ssrc : ℕ) → Stamp → Counts → Memory
make_sender_report ssrc t c =
    rtcp_common_header_bytes 0 rtcptype_sr 6
    ++ (htonl ssrc
        ++ (htonl t.ntp_msw
            ++ (htonl t.ntp_lsw
                ++ (htonl t.timestamp ++ (htonl c.packet_count ++ htonl c.octet_count)))))

-- One round of the loop in `make_subflow_sender_report`.
unfoldable pub sender_block : (ssrc : ℕ) → Stamp → Counts → Memory
sender_block ssrc t c =
    let report = make_sender_report ssrc t c in
    mprtp_rtcp_subflow_bytes mprtcp_type_subflow
      ((sizeof_mprtp_rtcp_subflow + length report) / 4 % 256) c.subflow_id
    ++ report

-- `sender::make_subflow_sender_report`: `htons((uint16_t) ((data - start - 1) / 4))`
unfoldable pub make_subflow_sender_report : (ssrc : ℕ) → Stamp → List Counts → Memory
make_subflow_sender_report ssrc t subflows =
    let blocks = concat_map (sender_block ssrc t) subflows in
    rtcp_common_header_bytes 0 rtcptype_mprtp ((12 + length blocks - 1) / 4 % 65536)
    ++ (htonl ssrc ++ (htonl ssrc ++ blocks))

-- The packet of `sender::send_sender_report`.
unfoldable pub sender_report_packet : (ssrc : ℕ) → Stamp → Counts → List Counts → Memory
sender_report_packet ssrc t total subflows =
    make_sender_report ssrc t total ++ make_subflow_sender_report ssrc t subflows

-- The structure that `fill_receiver_report` leaves.
unfoldable pub receiver_report_bytes : ReceiverReport → Memory
receiver_report_bytes rr =
    htonl rr.ssrc
    ++ (rr.fractionlost
        ∷ (rr.packetslost / 65536 % 256)
        ∷ (rr.packetslost / 256 % 256)
        ∷ (rr.packetslost % 256)
        ∷ (htonl rr.exthighseqnr ++ (htonl rr.jitter ++ (htonl rr.lsr ++ htonl rr.dlsr))))

-- `source::make_rr_packet`
unfoldable pub make_rr_packet : (sender_ssrc : ℕ) → ReceiverReport → Memory
make_rr_packet sender_ssrc rr =
    let pkt_len =
      sizeof_rtcp_common_header + sizeof_rtp_source_identifier + sizeof_rtcp_receiver_report in
    rtcp_common_header_bytes 1 rtcptype_rr (pkt_len / 4 - 1)
    ++ (htonl sender_ssrc ++ receiver_report_bytes rr)

-- One round of the loop in `create_subflows_rr_packet`.
unfoldable pub receiver_block : (sender_ssrc : ℕ) → ℕ × ReceiverReport → Memory
receiver_block sender_ssrc (subflow_id, rr) =
    let report = make_rr_packet sender_ssrc rr in
    mprtp_rtcp_subflow_bytes mprtcp_type_subflow
      ((sizeof_mprtp_rtcp_subflow + length report) / 4 % 256) subflow_id
    ++ report

-- What `source::create_subflows_rr_packet` adds to the compound packet.
unfoldable pub subflows_rr_packet : (sender_ssrc ssrc : ℕ) → List (ℕ × ReceiverReport) → Memory
subflows_rr_packet sender_ssrc ssrc reports =
    let blocks = concat_map (receiver_block sender_ssrc) reports in
    rtcp_common_header_bytes 0 rtcptype_mprtp (((12 + length blocks) / 4 - 1) % 65536)
    ++ (htonl sender_ssrc ++ (htonl ssrc ++ blocks))
