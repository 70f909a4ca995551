-- ===== src/Session/SenderReports.antt =====
-- `sender::send_sender_report`'s packet, as `session::process_rtcp_packet` of the other side takes it.
use mprtplib.Prelude.{
  ℕ, ◌+◌, ◌*◌, ◌^◌, ◌≤◌, ◌<◌, ◌≡◌, refl, ap, arith, List, [], ◌++◌, length, length-append,
  append-nil, take, All,
}
use mprtplib.Prelude.Result.{Result, ok, ◌>>=◌}
use mprtplib.Address.{Endpoint}
use mprtplib.Bytes.{Memory, u16_at, u8_at}
use mprtplib.Bytes.Laws.{u16_of_htons}
use mprtplib.Struct.{block_length_at, packettype_at, length_at, mprtcp_type_at, reads}
use mprtplib.Packet.{RawPacket}
use mprtplib.Rtcp.Build.{
  Counts, Stamp, concat_map, make_sender_report, sender_block, make_subflow_sender_report,
  sender_report_packet,
}
use mprtplib.Session.{
  Handlers, process_block, process_subflow_block, process_sr_packet, process_mprtcp_packet,
  dispatch_rtcp, process_rtcp_packet,
}
use mprtplib.Session.Blocks.{each, length-concat_map, mprtcp_loop-blocks}
use mprtplib.Session.Compound.{rtcp_loop-two}
use mprtplib.Session.Reports.{FitsCounts, FitsStamp, sr_of, sr_packet-make_sender_report}

pub length-make_sender_report :
    (ssrc : ℕ) (t : Stamp) (c : Counts) → length (make_sender_report ssrc t c) ≡ 28
unfolding make_sender_report
length-make_sender_report ssrc t c = refl

length-sender_block : (ssrc : ℕ) (t : Stamp) (c : Counts) → length (sender_block ssrc t c) ≡ 32
unfolding sender_block make_sender_report
length-sender_block ssrc t c = refl

packettype_at-make_sender_report :
    (ssrc : ℕ) (t : Stamp) (c : Counts) (rest : Memory)
    → packettype_at (make_sender_report ssrc t c ++ rest) ≡ ok 200
unfolding make_sender_report reads
packettype_at-make_sender_report ssrc t c rest = refl

length_at-make_sender_report :
    (ssrc : ℕ) (t : Stamp) (c : Counts) (rest : Memory)
    → length_at (make_sender_report ssrc t c ++ rest) ≡ ok 6
unfolding make_sender_report reads
length_at-make_sender_report ssrc t c rest = refl

block_length_at-sender_block :
    (ssrc : ℕ) (t : Stamp) (c : Counts) (rest : Memory)
    → block_length_at (sender_block ssrc t c ++ rest) ≡ ok 8
unfolding sender_block make_sender_report reads
block_length_at-sender_block ssrc t c rest = refl

sender_blocks :
    (ssrc : ℕ) (t : Stamp) (cs : List Counts)
    → length (concat_map (sender_block ssrc t) cs) ≡ length cs * 32
sender_blocks ssrc t cs = length-concat_map (sender_block ssrc t) 32 cs (length-sender_block ssrc t)

-- The length field counts the words of the whole packet less one, as the session reads it.
length_at-make_subflow_sender_report :
    (ssrc : ℕ) (t : Stamp) (cs : List Counts)
    → length cs ≤ 8191
    → length_at (make_subflow_sender_report ssrc t cs) ≡ ok (2 + length cs * 8)
unfolding make_subflow_sender_report reads
length_at-make_subflow_sender_report ssrc t cs few = ap ok (omega (arith, sender_blocks ssrc t cs))

pub length-make_subflow_sender_report :
    (ssrc : ℕ) (t : Stamp) (cs : List Counts)
    → length (make_subflow_sender_report ssrc t cs) ≡ 12 + length cs * 32
unfolding make_subflow_sender_report
length-make_subflow_sender_report ssrc t cs = omega (arith, sender_blocks ssrc t cs)

packettype_at-make_subflow_sender_report :
    (ssrc : ℕ) (t : Stamp) (cs : List Counts)
    → packettype_at (make_subflow_sender_report ssrc t cs) ≡ ok 211
unfolding make_subflow_sender_report reads
packettype_at-make_subflow_sender_report ssrc t cs = refl

module _ {W I S : Type 0} (h : Handlers W I S) (iface : I) (recv_from : Endpoint)
    (recvtime : W) where
  process_sr_packet-make_sender_report :
      (ssrc : ℕ) (t : Stamp) (c : Counts) (rest : Memory) (id : ℕ) (s : S)
      → ssrc < 2 ^ 32
      → FitsStamp t
      → FitsCounts c
      → process_sr_packet h iface recv_from recvtime (make_sender_report ssrc t c ++ rest) id s
        ≡ h.on_rtcp_sr_packet (sr_of recv_from recvtime ssrc t c) id iface s
  unfolding process_sr_packet
  process_sr_packet-make_sender_report ssrc t c rest id s hs ft fc =
      rw (sr_packet-make_sender_report recv_from recvtime ssrc t c rest hs ft fc)

  process_block-sender_block :
      (ssrc : ℕ) (t : Stamp) (c : Counts) (rest : Memory) (s : S)
      → ssrc < 2 ^ 32
      → FitsStamp t
      → FitsCounts c
      → process_block h iface recv_from recvtime (sender_block ssrc t c ++ rest) s
        ≡ h.on_rtcp_sr_packet (sr_of recv_from recvtime ssrc t c) c.subflow_id iface s
  unfolding process_block process_subflow_block sender_block mprtcp_type_at u16_at u8_at
  process_block-sender_block ssrc t c rest s hs ft fc =
      rw (packettype_at-make_sender_report ssrc t c rest, u16_of_htons c.subflow_id fc.id_fits)
        (process_sr_packet-make_sender_report ssrc t c rest c.subflow_id s hs ft fc)

  abbrev subflow_report : (ssrc : ℕ) → Stamp → Counts → S → Result S
  subflow_report ssrc t c s =
      h.on_rtcp_sr_packet (sr_of recv_from recvtime ssrc t c) c.subflow_id iface s

  process_mprtcp_packet-make_subflow_sender_report :
      (ssrc : ℕ) (t : Stamp) (cs : List Counts) (s : S)
      → ssrc < 2 ^ 32
      → FitsStamp t
      → All FitsCounts cs
      → length cs ≤ 8191
      → process_mprtcp_packet h iface recv_from recvtime (make_subflow_sender_report ssrc t cs) s
        ≡ each (subflow_report ssrc t) cs s
  unfolding process_mprtcp_packet
  process_mprtcp_packet-make_subflow_sender_report ssrc t cs s hs ft fcs few =
      rw (length_at-make_subflow_sender_report ssrc t cs few) (
        mprtcp_loop-blocks h iface recv_from recvtime FitsCounts (sender_block ssrc t)
          (subflow_report ssrc t) 8 (length-sender_block ssrc t)
          (λ c rest _. block_length_at-sender_block ssrc t c rest)
          (λ c rest s' fc. process_block-sender_block ssrc t c rest s' hs ft fc) cs _ _ 12
          (take 12 (make_subflow_sender_report ssrc t cs)) [] _ s fcs (omega arith)
          (unfold make_subflow_sender_report in refl) (omega (arith, sender_blocks ssrc t cs))
          (omega arith) (unfold make_subflow_sender_report in rw append-nil refl))

  dispatch_rtcp-make_sender_report :
      (ssrc : ℕ) (t : Stamp) (c : Counts) (rest : Memory) (s : S)
      → ssrc < 2 ^ 32
      → FitsStamp t
      → FitsCounts c
      → dispatch_rtcp h iface recv_from recvtime (make_sender_report ssrc t c ++ rest) s
        ≡ h.on_rtcp_sr_packet (sr_of recv_from recvtime ssrc t c) 0 iface s
  unfolding dispatch_rtcp
  dispatch_rtcp-make_sender_report ssrc t c rest s hs ft fc =
      rw (packettype_at-make_sender_report ssrc t c rest)
        (process_sr_packet-make_sender_report ssrc t c rest 0 s hs ft fc)

  dispatch_rtcp-make_subflow_sender_report :
      (ssrc : ℕ) (t : Stamp) (cs : List Counts) (s : S)
      → ssrc < 2 ^ 32
      → FitsStamp t
      → All FitsCounts cs
      → length cs ≤ 8191
      → dispatch_rtcp h iface recv_from recvtime (make_subflow_sender_report ssrc t cs) s
        ≡ each (subflow_report ssrc t) cs s
  unfolding dispatch_rtcp
  dispatch_rtcp-make_subflow_sender_report ssrc t cs s hs ft fcs few =
      rw (packettype_at-make_subflow_sender_report ssrc t cs)
        (process_mprtcp_packet-make_subflow_sender_report ssrc t cs s hs ft fcs few)

-- Of the packet of `send_sender_report` the session hands the report on the stream to the handler
-- under subflow 0, and then one report for each subflow under its own number, in order, with the
-- counts and times that were sent; each field is in the range of its C++ type, and there are at most
-- 8191 subflows.
pub process_rtcp_packet-sender_report_packet :
    {W I S : Type 0} (h : Handlers W I S) (iface : I) (raw : RawPacket W) (ssrc : ℕ) (t : Stamp)
    (total : Counts) (cs : List Counts) (s : S)
    → raw.bytes ≡ sender_report_packet ssrc t total cs
    → ssrc < 2 ^ 32
    → FitsStamp t
    → FitsCounts total
    → All FitsCounts cs
    → length cs ≤ 8191
    → process_rtcp_packet h raw iface s ≡ (
        h.on_rtcp_sr_packet (sr_of raw.from_address raw.recvtime ssrc t total) 0 iface s
        >>= each
            (λ c s'.
              h.on_rtcp_sr_packet
                (sr_of raw.from_address raw.recvtime ssrc t c)
                c.subflow_id
                iface
                s')
            cs)
unfolding process_rtcp_packet sender_report_packet
process_rtcp_packet-sender_report_packet h iface raw ssrc t total cs s e hs ft fc fcs few =
    let first = make_sender_report ssrc t total in
    let second = make_subflow_sender_report ssrc t cs in
    rw e (
      rtcp_loop-two h iface raw.from_address raw.recvtime first second 6 (2 + length cs * 8) _ _
        (length-make_sender_report ssrc t total)
        (omega (arith, length-make_subflow_sender_report ssrc t cs))
        (length_at-make_sender_report ssrc t total second)
        (length_at-make_subflow_sender_report ssrc t cs few)
        (λ s'. dispatch_rtcp-make_sender_report h iface _ _ ssrc t total second s' hs ft fc)
        (λ s'. dispatch_rtcp-make_subflow_sender_report h iface _ _ ssrc t cs s' hs ft fcs few) _ s
        (omega (arith, length-append first second, length-make_sender_report ssrc t total)))
