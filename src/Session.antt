-- ===== src/Session.antt =====
-- include/mprtp_session.h and src/mprtp_session.cpp: the session takes received packets apart and
-- calls the handlers that `sender` and `receiver` override. `S` is the state of the whole object, and
-- a handler takes it and returns the new one. `fault` in a handler is a fault of the session.
pub mod Blocks
pub mod Compound
pub mod Reports
pub mod SenderReports
pub mod Poll
pub mod Termination
pub mod Repeats
pub mod Invariants
pub mod Traffic
pub mod ReceiverReports
use mprtplib.Prelude.{
  ℕ, zero, suc, ◌+◌, ◌*◌, Bool, true, false, Option, none, some, List, [], ◌∷◌, ◌++◌, ltb, ◌==◌,
  length, drop, if◌then◌else◌,
}
use mprtplib.Prelude.Int.{ℤ, pos, is_pos}
use mprtplib.Prelude.Result.{Result, ok, fault, stuck, ◌>>=◌}
use mprtplib.Address.{Endpoint}
use mprtplib.Bytes.{Memory, u8_at, u16_at, u32_at}
use mprtplib.Struct.{
  packettype_at, length_at, count_at, mprtcp_type_at, block_length_at, rtcptype_sr, rtcptype_rr,
  rtcptype_mprtp, mprtcp_type_subflow, sizeof_rtcp_common_header, sizeof_rtp_source_identifier,
  sizeof_rtcp_receiver_report, sizeof_mprtp_rtcp,
}
use mprtplib.Packet.{RawPacket, RtpPacket, rtp_packet}
use mprtplib.Rtcp.{RrPacket, SrPacket, rr_packet, sr_packet}

-- The virtual functions of `session`. `on_rtp_packet` may change the packet, and says whether to
-- queue it. The results of the other two are not used. `I` is the type of interface pointers.
pub record Handlers (W : Type 0) (I : Type 0) (S : Type 0) : Type 0 where
  pub on_rtp_packet : RtpPacket W → I → S → Result (Bool × RtpPacket W × S)
  pub on_rtcp_sr_packet : SrPacket W → ℕ → I → S → Result S
  pub on_rtcp_rr_packet : RrPacket W → ℕ → ℕ → I → S → Result S

module _ {W I S : Type 0} where
  -- What `session` itself does.
  pub session_handlers : Handlers W I S
  session_handlers = record {
    on_rtp_packet = λ pkt iface s. ok (true, pkt, s);
    on_rtcp_sr_packet = λ pkt subflow_id iface s. ok s;
    on_rtcp_rr_packet = λ pkt subflow_id sender_ssrc iface s. ok s;
  }

module _ {W I S : Type 0} (h : Handlers W I S) (iface : I) (recv_from : Endpoint)
    (recvtime : W) where
  unfoldable pub process_sr_packet : Memory → ℕ → S → Result S
  process_sr_packet pkt subflow_id s = do
    sr ← sr_packet pkt recv_from recvtime
    if sr.is_loaded then h.on_rtcp_sr_packet sr subflow_id iface s else ok s

  -- The loop of `process_rr_packet`, on the number of blocks that are left; `pkt` does not move.
  unfoldable pub process_rr_blocks : ℕ → Memory → Memory → ℕ → S → Result S
  process_rr_blocks zero ssrc_hdr pkt subflow_id s = ok s
  process_rr_blocks (suc n) ssrc_hdr pkt subflow_id s = do
    rr ← rr_packet pkt recv_from recvtime
    sender_ssrc ← u32_at ssrc_hdr 0
    s' ← h.on_rtcp_rr_packet rr subflow_id sender_ssrc iface s
    process_rr_blocks n ssrc_hdr pkt subflow_id s'

  unfoldable pub process_rr_packet : Memory → ℕ → S → Result S
  process_rr_packet pkt subflow_id s = do
    count ← count_at pkt
    let ssrc_hdr = drop sizeof_rtcp_common_header pkt
    process_rr_blocks count ssrc_hdr (drop sizeof_rtp_source_identifier ssrc_hdr) subflow_id s

  -- `case MPRTCP_TYPE_SUBFLOW`: a report for one subflow
  unfoldable pub process_subflow_block : Memory → S → Result S
  process_subflow_block block s = do
    let report = drop 2 (drop sizeof_mprtp_rtcp block)
    packettype ← packettype_at report
    subflow_id ← u16_at (drop sizeof_mprtp_rtcp block) 0
    if packettype == rtcptype_sr
        then process_sr_packet report subflow_id s
        else if packettype == rtcptype_rr
        then process_rr_packet report subflow_id s
        else ok s

  -- One round of the loop in `process_mprtcp_packet`. The interface advertisements are empty cases.
  unfoldable pub process_block : Memory → S → Result S
  process_block block s = do
    mprtcp_type ← mprtcp_type_at block
    if mprtcp_type == mprtcp_type_subflow then process_subflow_block block s else ok s

  -- `while (data - pkt < data_len)`, with `off` for `data - pkt`
  unfoldable pub mprtcp_loop : (fuel : ℕ) → Memory → (data_len off : ℕ) → S → Result S
  mprtcp_loop zero pkt data_len off s = if ltb off data_len then stuck else ok s
  mprtcp_loop (suc fuel) pkt data_len off s = elim (ltb off data_len) [
    | true ↦ do
      s' ← process_block (drop off pkt) s
      block_length ← block_length_at (drop off pkt)
      mprtcp_loop fuel pkt data_len (off + block_length * 4) s'
    | false ↦ ok s
  ]

  -- A block takes four bytes at least, unless its length is 0: `data_len` rounds are enough.
  unfoldable pub process_mprtcp_packet : Memory → S → Result S
  process_mprtcp_packet pkt s = do
    len ← length_at pkt
    let data_len = (len + 1) * 4
    mprtcp_loop data_len pkt data_len 12 s

  -- The `switch` of `process_rtcp_packet`. SDES, BYE, APP and unknown packets have empty handlers.
  unfoldable pub dispatch_rtcp : Memory → S → Result S
  dispatch_rtcp pkt s = do
    packettype ← packettype_at pkt
    if packettype == rtcptype_sr
        then process_sr_packet pkt 0 s
        else if packettype == rtcptype_rr
        then process_rr_packet pkt 0 s
        else if packettype == rtcptype_mprtp
        then process_mprtcp_packet pkt s
        else ok s

  -- `while ((packet_data - pkt->data()) < pkt->data_len())`
  unfoldable pub rtcp_loop : (fuel : ℕ) → Memory → (off : ℕ) → S → Result S
  rtcp_loop zero bytes off s = if ltb off (length bytes) then stuck else ok s
  rtcp_loop (suc fuel) bytes off s = elim (ltb off (length bytes)) [
    | true ↦ do
      s' ← dispatch_rtcp (drop off bytes) s
      len ← length_at (drop off bytes)
      rtcp_loop fuel bytes (off + (len + 1) * 4) s'
    | false ↦ ok s
  ]

module _ {W I S : Type 0} (h : Handlers W I S) where
  unfoldable pub process_rtcp_packet : RawPacket W → I → S → Result S
  process_rtcp_packet raw iface s =
      rtcp_loop h iface raw.from_address raw.recvtime (length raw.bytes) raw.bytes 0 s

  -- `if(on_rtp_packet(rtppkt.get(), iface))`
  unfoldable pub accept_rtp_packet :
      RtpPacket W → I → S → List (RtpPacket W) → Result (S × List (RtpPacket W))
  accept_rtp_packet pkt iface s queue = do
    (keep, pkt', s') ← h.on_rtp_packet pkt iface s
    ok (s', if keep then queue ++ (pkt' ∷ []) else queue)

  -- `m_packets`, the queue that `fetch_packet` reads, stands beside the object's own state.
  unfoldable pub process_rtp_packet :
      RawPacket W → I → S → List (RtpPacket W) → Result (S × List (RtpPacket W))
  process_rtp_packet raw iface s queue = do
    pkt ← rtp_packet raw
    if is_pos pkt.error 0 then accept_rtp_packet pkt iface s queue else ok (s, queue)
