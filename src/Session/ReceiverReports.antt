-- ===== src/Session/ReceiverReports.antt =====
-- `source::poll`'s packet, as `session::process_rtcp_packet` of the sender's side takes it.
use mprtplib.Prelude.{
  ℕ, ◌+◌, ◌*◌, ◌^◌, ◌≤◌, ◌<◌, ◌≡◌, refl, ap, arith, List, [], ◌++◌, length, take, length-append,
  append-nil, All,
}
use mprtplib.Prelude.Result.{Result, ok, ◌>>=◌, >>=-ok}
use mprtplib.Address.{Endpoint}
use mprtplib.Bytes.{Memory, u16_at, u8_at, u32_at}
use mprtplib.Bytes.Laws.{u16_of_htons, u32_of_htonl}
use mprtplib.Struct.{block_length_at, packettype_at, length_at, count_at, mprtcp_type_at, reads}
use mprtplib.Packet.{RawPacket}
use mprtplib.Rtcp.Build.{
  ReceiverReport, concat_map, receiver_report_bytes, make_rr_packet, receiver_block,
  subflows_rr_packet,
}
use mprtplib.Session.{
  Handlers, process_block, process_subflow_block, process_rr_packet, process_rr_blocks,
  process_mprtcp_packet, dispatch_rtcp, process_rtcp_packet,
}
use mprtplib.Session.Blocks.{each, length-concat_map, mprtcp_loop-blocks}
use mprtplib.Session.Compound.{rtcp_loop-two}
use mprtplib.Session.Reports.{FitsReport, rr_of, rr_packet-receiver_report_bytes}

-- A report for one subflow: its number is 16 bits wide.
pub record FitsBlock (r : ℕ × ReceiverReport) : Type 0 where
  pub id_fits : r.0 < 2 ^ 16
  pub report_fits : FitsReport r.1

length-make_rr_packet : (id : ℕ) (rr : ReceiverReport) → length (make_rr_packet id rr) ≡ 32
unfolding make_rr_packet receiver_report_bytes
length-make_rr_packet id rr = refl

length-receiver_block : (id : ℕ) (r : ℕ × ReceiverReport) → length (receiver_block id r) ≡ 36
unfolding receiver_block make_rr_packet receiver_report_bytes
length-receiver_block id r = refl

packettype_at-make_rr_packet :
    (id : ℕ) (rr : ReceiverReport) (rest : Memory)
    → packettype_at (make_rr_packet id rr ++ rest) ≡ ok 201
unfolding make_rr_packet reads
packettype_at-make_rr_packet id rr rest = refl

length_at-make_rr_packet :
    (id : ℕ) (rr : ReceiverReport) (rest : Memory) → length_at (make_rr_packet id rr ++ rest) ≡ ok 7
unfolding make_rr_packet reads
length_at-make_rr_packet id rr rest = refl

block_length_at-receiver_block :
    (id : ℕ) (r : ℕ × ReceiverReport) (rest : Memory)
    → block_length_at (receiver_block id r ++ rest) ≡ ok 9
unfolding receiver_block make_rr_packet receiver_report_bytes reads
block_length_at-receiver_block id r rest = refl

receiver_blocks :
    (id : ℕ) (rs : List (ℕ × ReceiverReport))
    → length (concat_map (receiver_block id) rs) ≡ length rs * 36
receiver_blocks id rs = length-concat_map (receiver_block id) 36 rs (length-receiver_block id)

-- The length field counts the words of the whole packet less one, as the session reads it.
length_at-subflows_rr_packet :
    (id ssrc : ℕ) (rs : List (ℕ × ReceiverReport))
    → length rs ≤ 7281
    → length_at (subflows_rr_packet id ssrc rs) ≡ ok (2 + length rs * 9)
unfolding subflows_rr_packet reads
length_at-subflows_rr_packet id ssrc rs few = ap ok (omega (arith, receiver_blocks id rs))

pub length-subflows_rr_packet :
    (id ssrc : ℕ) (rs : List (ℕ × ReceiverReport))
    → length (subflows_rr_packet id ssrc rs) ≡ 12 + length rs * 36
unfolding subflows_rr_packet
length-subflows_rr_packet id ssrc rs = omega (arith, receiver_blocks id rs)

packettype_at-subflows_rr_packet :
    (id ssrc : ℕ) (rs : List (ℕ × ReceiverReport))
    → packettype_at (subflows_rr_packet id ssrc rs) ≡ ok 211
unfolding subflows_rr_packet reads
packettype_at-subflows_rr_packet id ssrc rs = refl

module _ {W I S : Type 0} (h : Handlers W I S) (iface : I) (recv_from : Endpoint)
    (recvtime : W) where
  process_rr_packet-make_rr_packet :
      (sender_ssrc : ℕ) (rr : ReceiverReport) (rest : Memory) (id : ℕ) (s : S)
      → sender_ssrc < 2 ^ 32
      → FitsReport rr
      → process_rr_packet h iface recv_from recvtime (make_rr_packet sender_ssrc rr ++ rest) id s
        ≡ h.on_rtcp_rr_packet (rr_of recv_from recvtime rr) id sender_ssrc iface s
  unfolding process_rr_packet process_rr_blocks make_rr_packet count_at u32_at u16_at u8_at
  process_rr_packet-make_rr_packet sender_ssrc rr rest id s hs f =
      rw (rr_packet-receiver_report_bytes recv_from recvtime rr rest f, u32_of_htonl sender_ssrc hs)
        (>>=-ok _)

  abbrev subflow_report : (sender_ssrc : ℕ) → ℕ × ReceiverReport → S → Result S
  subflow_report sender_ssrc r s =
      h.on_rtcp_rr_packet (rr_of recv_from recvtime r.1) r.0 sender_ssrc iface s

  process_block-receiver_block :
      (sender_ssrc : ℕ) (r : ℕ × ReceiverReport) (rest : Memory) (s : S)
      → sender_ssrc < 2 ^ 32
      → FitsBlock r
      → process_block h iface recv_from recvtime (receiver_block sender_ssrc r ++ rest) s
        ≡ subflow_report sender_ssrc r s
  unfolding process_block process_subflow_block receiver_block mprtcp_type_at u16_at u8_at
  process_block-receiver_block sender_ssrc r rest s hs f =
      rw (packettype_at-make_rr_packet sender_ssrc r.1 rest, u16_of_htons r.0 f.id_fits)
        (process_rr_packet-make_rr_packet sender_ssrc r.1 rest r.0 s hs f.report_fits)

  process_mprtcp_packet-subflows_rr_packet :
      (sender_ssrc ssrc : ℕ) (rs : List (ℕ × ReceiverReport)) (s : S)
      → sender_ssrc < 2 ^ 32
      → All FitsBlock rs
      → length rs ≤ 7281
      → process_mprtcp_packet h iface recv_from recvtime (subflows_rr_packet sender_ssrc ssrc rs) s
        ≡ each (subflow_report sender_ssrc) rs s
  unfolding process_mprtcp_packet
  process_mprtcp_packet-subflows_rr_packet sender_ssrc ssrc rs s hs fs few =
      rw (length_at-subflows_rr_packet sender_ssrc ssrc rs few) (
        mprtcp_loop-blocks h iface recv_from recvtime FitsBlock (receiver_block sender_ssrc)
          (subflow_report sender_ssrc) 9 (length-receiver_block sender_ssrc)
          (λ r rest _. block_length_at-receiver_block sender_ssrc r rest)
          (λ r rest s' f. process_block-receiver_block sender_ssrc r rest s' hs f) rs _ _ 12
          (take 12 (subflows_rr_packet sender_ssrc ssrc rs)) [] _ s fs (omega arith)
          (unfold subflows_rr_packet in refl) (omega (arith, receiver_blocks sender_ssrc rs))
          (omega arith) (unfold subflows_rr_packet in rw append-nil refl))

  dispatch_rtcp-make_rr_packet :
      (sender_ssrc : ℕ) (rr : ReceiverReport) (rest : Memory) (s : S)
      → sender_ssrc < 2 ^ 32
      → FitsReport rr
      → dispatch_rtcp h iface recv_from recvtime (make_rr_packet sender_ssrc rr ++ rest) s
        ≡ h.on_rtcp_rr_packet (rr_of recv_from recvtime rr) 0 sender_ssrc iface s
  unfolding dispatch_rtcp
  dispatch_rtcp-make_rr_packet sender_ssrc rr rest s hs f =
      rw (packettype_at-make_rr_packet sender_ssrc rr rest)
        (process_rr_packet-make_rr_packet sender_ssrc rr rest 0 s hs f)

  dispatch_rtcp-subflows_rr_packet :
      (sender_ssrc ssrc : ℕ) (rs : List (ℕ × ReceiverReport)) (s : S)
      → sender_ssrc < 2 ^ 32
      → All FitsBlock rs
      → length rs ≤ 7281
      → dispatch_rtcp h iface recv_from recvtime (subflows_rr_packet sender_ssrc ssrc rs) s
        ≡ each (subflow_report sender_ssrc) rs s
  unfolding dispatch_rtcp
  dispatch_rtcp-subflows_rr_packet sender_ssrc ssrc rs s hs fs few =
      rw (packettype_at-subflows_rr_packet sender_ssrc ssrc rs)
        (process_mprtcp_packet-subflows_rr_packet sender_ssrc ssrc rs s hs fs few)

-- Of the compound packet of `source::poll` the session hands the report on the whole source to the
-- handler under subflow 0, and then one report for each subflow under its own number, in order, with
-- the values that `fill_receiver_report` computed; each field is in the range of its C++ type, the
-- lost packets in 24 bits, and there are at most 7281 subflows.
pub process_rtcp_packet-rr_packets :
    {W I S : Type 0} (h : Handlers W I S) (iface : I) (raw : RawPacket W) (sender_ssrc ssrc : ℕ)
    (total : ReceiverReport) (rs : List (ℕ × ReceiverReport)) (s : S)
    → raw.bytes ≡ make_rr_packet sender_ssrc total ++ subflows_rr_packet sender_ssrc ssrc rs
    → sender_ssrc < 2 ^ 32
    → FitsReport total
    → All FitsBlock rs
    → length rs ≤ 7281
    → process_rtcp_packet h raw iface s ≡ (
        h.on_rtcp_rr_packet (rr_of raw.from_address raw.recvtime total) 0 sender_ssrc iface s
        >>= each
            (λ r s'.
              h.on_rtcp_rr_packet
                (rr_of raw.from_address raw.recvtime r.1)
                r.0
                sender_ssrc
                iface
                s')
            rs)
unfolding process_rtcp_packet
process_rtcp_packet-rr_packets h iface raw sender_ssrc ssrc total rs s e hs f fs few =
    let first = make_rr_packet sender_ssrc total in
    let second = subflows_rr_packet sender_ssrc ssrc rs in
    rw e (
      rtcp_loop-two h iface raw.from_address raw.recvtime first second 7 (2 + length rs * 9) _ _
        (length-make_rr_packet sender_ssrc total)
        (omega (arith, length-subflows_rr_packet sender_ssrc ssrc rs))
        (length_at-make_rr_packet sender_ssrc total second)
        (length_at-subflows_rr_packet sender_ssrc ssrc rs few)
        (λ s'. dispatch_rtcp-make_rr_packet h iface _ _ sender_ssrc total second s' hs f)
        (λ s'. dispatch_rtcp-subflows_rr_packet h iface _ _ sender_ssrc ssrc rs s' hs fs few) _ s
        (omega (arith, length-append first second, length-make_rr_packet sender_ssrc total)))
