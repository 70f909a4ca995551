-- ===== src/Source.antt =====
-- include/mprtp_source.h, src/mprtp_source.cpp and include/mprtp_compound_packet.h: one stream that a
-- receiver gets, with its subflows, and the receiver reports on them. A subflow is shared with
-- nobody else, so a change through its pointer is a change of the list. `fault` is a null pointer,
-- the front of an empty vector, or a write behind the end of the report's buffer.
pub mod Packets
pub mod Reports
pub mod Exchange
pub mod Returns
pub mod Ranges
use mprtplib.Prelude.{
  ℕ, zero, suc, ◌+◌, ◌*◌, Bool, true, false, Option, none, some, List, [], ◌∷◌, ◌++◌, ltb, ◌==◌,
  if◌then◌else◌, length,
}
use mprtplib.Prelude.Result.{Result, ok, fault, ◌>>=◌, or_fault}
use mprtplib.Address.{Endpoint}
use mprtplib.Bytes.{Memory}
use mprtplib.Double.{Double}
use mprtplib.Time.{time_zero, is_zero}
use mprtplib.Packet.{RtpPacket}
use mprtplib.Rtcp.{SrPacket}
use mprtplib.Rtcp.Build.{ReceiverReport, make_rr_packet, subflows_rr_packet}
use mprtplib.Interface.{Interface, datagram}
use mprtplib.Stat
use mprtplib.Stat.{SourceStats, source_stats, fill_receiver_report}
use mprtplib.Subflow
use mprtplib.Subflow.{Subflow, new_subflow}
use mprtplib.World.{World, take_time, take_random, log_sent}

abbrev pub max_packet_size : ℕ
max_packet_size = 65535

pub record Source (W : Type 0) : Type 0 where
  pub ssrc : ℕ
  pub sender_ssrc : ℕ
  pub stat : SourceStats W
  pub subflows : List (Subflow W)
  pub last_sender_report : Option (SrPacket W)
  pub last_receiver_report_time : W
  pub send_rr : Bool

-- `compound_packet::add_packet`
unfoldable pub add_packet : Memory → Memory → Memory
add_packet comp pack = comp ++ pack

module _ {W : Type 0} where
  -- `find_subflow(uint16_t id)`
  unfoldable pub find_subflow : ℕ → List (Subflow W) → Option (Subflow W)
  find_subflow id [] = none
  find_subflow id (sf ∷ rest) = if sf.subflow_id == id then some sf else find_subflow id rest

  -- A change through the pointer that `find_subflow` returns.
  unfoldable pub store_subflow : Subflow W → List (Subflow W) → List (Subflow W)
  store_subflow new [] = []
  store_subflow new (sf ∷ rest) =
      if sf.subflow_id == new.subflow_id then new ∷ rest else sf ∷ store_subflow new rest

  -- `select_subflow`, and the subflows behind it
  unfoldable pub select_front : List (Subflow W) → Result (Subflow W)
  select_front [] = fault
  select_front (sf ∷ rest) = ok sf

module _ {W : Type 0} ⦃d : Double W⦄ where
  -- The constructor.
  unfoldable pub new_source : (ssrc sender_ssrc : ℕ) → Source W
  new_source ssrc sender_ssrc = record {
    ssrc = ssrc;
    sender_ssrc = sender_ssrc;
    stat = source_stats;
    subflows = [];
    last_sender_report = none;
    last_receiver_report_time = time_zero;
    send_rr = false;
  }

  -- `find_subflow(uint16_t id, const endpoint& addr, interface::shared_ptr& iface)`
  unfoldable pub find_or_add :
      ℕ
      → Endpoint
      → Interface W
      → List (Subflow W)
      → World W
      → Subflow W × List (Subflow W) × World W
  find_or_add id addr iface subflows w = elim (find_subflow id subflows) [
    | some sf ↦ (sf, subflows, w)
    | none ↦
        let (random, w') = take_random w in
        let sf = new_subflow random id iface addr in (sf, subflows ++ (sf ∷ []), w')
  ]

  -- `process_packet`: the packet passes through the statistics of the stream, then the subflow's.
  unfoldable pub process_packet :
      Source W
      → RtpPacket W
      → (tsunit : W) → Interface W
      → World W
      → Result (Source W × RtpPacket W × World W)
  process_packet src pack tsunit iface w = do
    raw ← or_fault pack.rawpack
    let (st, pack1) = Stat.process_packet src.stat pack false raw.recvtime tsunit
    let (sf, sfs, w1) = find_or_add pack1.subflow_id raw.from_address iface src.subflows w
    let (sf', pack2) = Subflow.process_rtp_packet sf pack1 raw.recvtime tsunit
    let first = is_zero src.last_receiver_report_time
    let (now, w2) = take_time w1
    let src' = record src {
      stat = st;
      subflows = store_subflow sf' sfs;
      last_receiver_report_time = if first then now else src.last_receiver_report_time;
    }
    ok (src', pack2, if first then w2 else w1)

  -- `process_sr_packet`
  unfoldable pub process_sr_packet :
      Source W → SrPacket W → (subflow_id : ℕ) → Interface W → World W → Source W × World W
  process_sr_packet src pkt subflow_id iface w =
      let (sf, sfs, w') = find_or_add subflow_id pkt.recv_from iface src.subflows w in
      let sf' = Subflow.process_sr_packet sf pkt in
      if subflow_id == 0
      then (record src { last_sender_report = some pkt; send_rr = true }, w)
      else (record src { subflows = store_subflow sf' sfs }, w')

  -- The reports of the loop in `create_subflows_rr_packet`, and the subflows after it.
  unfoldable pub fill_subflows :
      (ssrc : ℕ)
      → Option (SrPacket W)
      → List (Subflow W)
      → World W
      → List (ℕ × ReceiverReport) × List (Subflow W) × World W
  fill_subflows ssrc sr [] w = ([], [], w)
  fill_subflows ssrc sr (sf ∷ rest) w =
      let (now, w1) = take_time w in
      let (rr, st) = fill_receiver_report sf.recv_stat ssrc sr now in
      let (rrs, sfs, w2) = fill_subflows ssrc sr rest w1 in
      ((sf.subflow_id, rr) ∷ rrs, record sf { recv_stat = st } ∷ sfs, w2)

  -- `create_rr_packet` and `create_subflows_rr_packet`: the compound packet.
  unfoldable pub create_report : Source W → World W → Result (Memory × Source W × World W)
  create_report src w = do
    let (now, w1) = take_time w
    let (rr, st) = fill_receiver_report src.stat src.ssrc src.last_sender_report now
    let (rrs, sfs, w2) = fill_subflows src.ssrc src.last_sender_report src.subflows w1
    let packet = subflows_rr_packet src.sender_ssrc src.ssrc rrs
    let comp_pkt = add_packet (add_packet [] (make_rr_packet src.sender_ssrc rr)) packet
    let src' = record src { stat = st; subflows = sfs }
    if ltb max_packet_size (length packet) then fault else ok (comp_pkt, src', w2)

  -- The body of `poll`'s `if(m_send_rr)`; the packet is never empty.
  unfoldable pub send_report : Source W → World W → Result (Source W × World W)
  send_report src w = do
    let (curtime, w1) = take_time w
    (comp_pkt, src', w2) ← create_report (record src { send_rr = false }) w1
    sf ← select_front src'.subflows
    let (sf', ret) = Subflow.send w2.net sf comp_pkt (length comp_pkt) 0 true
    let w3 = log_sent (datagram sf.iface comp_pkt sf.remote true) w2
    ok (record src' { subflows = store_subflow sf' src'.subflows }, w3)

  unfoldable pub poll : Source W → World W → Result (Source W × World W)
  poll src w = let sent = send_report src w in if src.send_rr then sent else ok (src, w)
