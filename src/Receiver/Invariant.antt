-- ===== src/Receiver/Invariant.antt =====
-- What every operation of `receiver` (src/mprtp_receiver.cpp) keeps.
use mprtplib.Prelude.{
  ℕ, suc, ◌≡◌, refl, arith, false, inl, inr, Option, List, [], ◌∷◌, All, ◌==◌, Option-cases,
  if_both,
}
use mprtplib.Prelude.Result.{ok, fault, or_fault, Holds, Holds->>=, Holds-after}
use mprtplib.Double.{Double}
use mprtplib.Interface.{Interface}
use mprtplib.Packet.{RtpPacket}
use mprtplib.Rtcp.{SrPacket}
use mprtplib.Subflow.{Subflow}
use mprtplib.World.{World, take_time}
use mprtplib.Session.Invariants.{HandlersKeep, poll_session-Holds}
use mprtplib.Session.Poll.{Session, Rounds, poll_session}
use mprtplib.Source
use mprtplib.Source.{
  Source, new_source, find_or_add, store_subflow, fill_subflows, create_report, select_front,
  send_report,
}
use mprtplib.Source.Packets.{Absent, Distinct, Distinct-store, find_or_add_lem}
use mprtplib.Receiver.{
  Receiver, Sources, find_source, put_source, get_source, on_rtp_packet, on_rtcp_sr_packet,
  receiver_handlers, poll_sources, poll,
}
use mprtplib.Receiver.Sources.{RisesFrom, put_source-RisesFrom, put_source-All, find_source-All}

module _ {W : Type 0} where
  -- A source stands under its own SSRC, and each of its subflows has a number of its own.
  abbrev pub IsPlaced : ℕ × Source W → Type 0
  IsPlaced entry = (entry.1.ssrc ≡ entry.0) × Distinct entry.1.subflows

  -- The map is in the order of the SSRCs.
  pub record IsOrdered (m : Sources W) : Type 0 where
    pub rises : RisesFrom 0 m
    pub placed : All IsPlaced m

module _ {W : Type 0} ⦃d : Double W⦄ where
  pub get_source-IsPlaced :
      (ssrc : ℕ) (r : Receiver W) → IsOrdered r.sources → IsPlaced (ssrc, get_source ssrc r)
  unfolding get_source new_source
  get_source-IsPlaced ssrc r h = elim (Option-cases (find_source ssrc r.sources)) [
    | inl e ↦ rw (e, get_source) (refl, tt)
    | inr (src, e) ↦ rw (e, get_source) (find_source-All IsPlaced ssrc r.sources src h.placed e)
  ]

  pub put_source-IsOrdered :
      (ssrc : ℕ) (src : Source W) (m : Sources W)
      → IsOrdered m
      → IsPlaced (ssrc, src)
      → IsOrdered (put_source ssrc src m)
  put_source-IsOrdered ssrc src m h placed = record {
    rises = put_source-RisesFrom 0 ssrc src m h.rises (omega arith);
    placed = put_source-All IsPlaced ssrc src m h.placed placed;
  }

  pub process_packet-IsPlaced :
      (ssrc : ℕ) (src : Source W) (pkt : RtpPacket W) (tsunit : W) (iface : Interface W)
      (w : World W)
      → IsPlaced (ssrc, src)
      → Holds (λ r. IsPlaced (ssrc, r.0)) (Source.process_packet src pkt tsunit iface w)
  unfolding Source.process_packet
  process_packet-IsPlaced ssrc src pkt tsunit iface w (own, dist) =
      Holds-after (λ r. IsPlaced (ssrc, r.0)) (or_fault pkt.rawpack) _
        λ raw.
          (own, Distinct-store _ _ (find_or_add_lem _ raw.from_address iface src.subflows w dist).2)

  pub process_sr_packet-IsPlaced :
      (ssrc : ℕ) (src : Source W) (pkt : SrPacket W) (id : ℕ) (iface : Interface W) (w : World W)
      → IsPlaced (ssrc, src)
      → IsPlaced (ssrc, (Source.process_sr_packet src pkt id iface w).0)
  unfolding Source.process_sr_packet
  process_sr_packet-IsPlaced ssrc src pkt id iface w (own, dist) =
      if_both (λ (r : Source W × World W). IsPlaced (ssrc, r.0)) (id == 0) _ _ (own, dist)
        (own, Distinct-store _ _ (find_or_add_lem id pkt.recv_from iface src.subflows w dist).2)

  pub on_rtp_packet-IsOrdered :
      (pkt : RtpPacket W) (iface : Interface W) (r : Receiver W)
      → IsOrdered r.sources
      → Holds (λ res. IsOrdered res.2.sources) (on_rtp_packet pkt iface r)
  unfolding on_rtp_packet
  on_rtp_packet-IsOrdered pkt iface r h =
      Holds->>= (λ res. IsPlaced (pkt.ssrc, res.0)) (λ res. IsOrdered res.2.sources)
        (Source.process_packet (get_source pkt.ssrc r) pkt r.timestamp_unit iface r.world) _
        (process_packet-IsPlaced pkt.ssrc (get_source pkt.ssrc r) pkt r.timestamp_unit iface r.world
          (get_source-IsPlaced pkt.ssrc r h))
        λ res placed. put_source-IsOrdered pkt.ssrc res.0 r.sources h placed

  receiver_handlers-keep :
      HandlersKeep {W = W} receiver_handlers (λ (r : Receiver W). IsOrdered r.sources)
  unfolding receiver_handlers on_rtcp_sr_packet
  receiver_handlers-keep = record {
    rtp_keeps = λ pkt iface r h. on_rtp_packet-IsOrdered pkt iface r h;
    sr_keeps = λ pkt id iface r h. put_source-IsOrdered pkt.sender_ssrc _ r.sources h (
        process_sr_packet-IsPlaced pkt.sender_ssrc (get_source pkt.sender_ssrc r) pkt id iface
          r.world (get_source-IsPlaced pkt.sender_ssrc r h));
    rr_keeps = λ pkt id sender_ssrc iface r h. h;
  }

  Absent-fill_subflows :
      (id ssrc : ℕ) (sr : Option (SrPacket W)) (sfs : List (Subflow W)) (w : World W)
      → Absent id sfs
      → Absent id (fill_subflows ssrc sr sfs w).1
  unfolding fill_subflows
  Absent-fill_subflows id ssrc sr [] w a = tt
  Absent-fill_subflows id ssrc sr (sf ∷ rest) w a =
      (a.0, Absent-fill_subflows id ssrc sr rest _ a.1)

  pub Distinct-fill_subflows :
      (ssrc : ℕ) (sr : Option (SrPacket W)) (sfs : List (Subflow W)) (w : World W)
      → Distinct sfs
      → Distinct (fill_subflows ssrc sr sfs w).1
  unfolding fill_subflows
  Distinct-fill_subflows ssrc sr [] w dist = tt
  Distinct-fill_subflows ssrc sr (sf ∷ rest) w dist = (
    Absent-fill_subflows sf.subflow_id ssrc sr rest _ dist.0,
    Distinct-fill_subflows ssrc sr rest _ dist.1,
  )

  create_report-IsPlaced :
      (key : ℕ) (src : Source W) (w : World W)
      → IsPlaced (key, src)
      → Holds (λ r. IsPlaced (key, r.1)) (create_report src w)
  unfolding create_report
  create_report-IsPlaced key src w (own, dist) =
      if_both (Holds (λ r. IsPlaced (key, r.1))) _ fault (ok _) tt
        (own, Distinct-fill_subflows _ _ src.subflows _ dist)

  poll-IsPlaced :
      (key : ℕ) (src : Source W) (w : World W)
      → IsPlaced (key, src)
      → Holds (λ r. IsPlaced (key, r.0)) (Source.poll src w)
  unfolding Source.poll send_report
  poll-IsPlaced key src w h =
      if_both (Holds (λ r. IsPlaced (key, r.0))) src.send_rr _ (ok (src, w))
        (Holds->>= (λ r. IsPlaced (key, r.1)) (λ r. IsPlaced (key, r.0))
          (create_report (record src { send_rr = false }) (take_time w).1) _
          (create_report-IsPlaced key (record src { send_rr = false }) (take_time w).1 h)
          λ r placed.
            Holds-after (λ x. IsPlaced (key, x.0)) (select_front r.1.subflows) _
              λ sf. (placed.0, Distinct-store r.1.subflows _ placed.1))
        h

  pub poll_sources-IsOrdered :
      (low : ℕ) (m : Sources W) (w : World W)
      → RisesFrom low m
      → All IsPlaced m
      → Holds (λ r. RisesFrom low r.0 × All IsPlaced r.0) (poll_sources m w)
  unfolding poll_sources
  poll_sources-IsOrdered low [] w rises all = (tt, tt)
  poll_sources-IsOrdered low ((key, src) ∷ rest) w rises all =
      Holds->>= (λ r. IsPlaced (key, r.0)) (λ r. RisesFrom low r.0 × All IsPlaced r.0)
        (Source.poll src w) _ (poll-IsPlaced key src w all.0)
        λ r placed.
          Holds->>= (λ r. RisesFrom (suc key) r.0 × All IsPlaced r.0)
            (λ r. RisesFrom low r.0 × All IsPlaced r.0) (poll_sources rest r.1) _
            (poll_sources-IsOrdered (suc key) rest r.1 rises.1 all.1)
            λ r2 kept. ((rises.0, kept.0), (placed, kept.1))

  -- `receiver::poll` keeps the map of the sources in the order of the SSRCs, each source under its own,
  -- and the numbers of its subflows distinct, whatever the sockets received.
  pub poll-IsOrdered :
      (rounds : ℕ → Rounds W) (s : Session W (Receiver W))
      → IsOrdered s.object.sources
      → Holds (λ r. IsOrdered (r.1).object.sources) (poll rounds s)
  unfolding poll
  poll-IsOrdered rounds s h =
      Holds->>= (λ r. IsOrdered (r.1).object.sources) (λ r. IsOrdered (r.1).object.sources)
        (poll_session receiver_handlers rounds s) _
        (poll_session-Holds receiver_handlers (λ r. IsOrdered r.sources) receiver_handlers-keep
          rounds s h)
        λ r kept.
          Holds->>= (λ x. RisesFrom 0 x.0 × All IsPlaced x.0) (λ x. IsOrdered (x.1).object.sources)
            (poll_sources (r.1).object.sources (r.1).object.world) _
            (poll_sources-IsOrdered 0 (r.1).object.sources (r.1).object.world kept.rises
              kept.placed)
            λ x both. record { rises = both.0; placed = both.1 }
