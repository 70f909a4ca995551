-- ===== src/Programs/Server/Queue.antt =====
-- The packets in the queue of examples/server.cpp, and how they come there.
use mprtplib.Prelude.{ℕ, ◌≡◌, refl, ap, ◌∙◌, arith, Bool, true, false, Option, some, All}
use mprtplib.Prelude.Int.{pos}
use mprtplib.Prelude.Result.{ok, or_fault, Holds, Holds->>=, Holds-after, Holds-any, Holds-weaken}
use mprtplib.Session.Traffic.Kept.{poll_session-Carries}
use mprtplib.Session.Traffic.{Anything, any_rounds, any_interfaces, Bring, Carries, HandlersCarry}
use mprtplib.Double.{Double}
use mprtplib.Interface.{Interface}
use mprtplib.Packet.{
  RawPacket, RtpPacket, rtp_packet, parse_raw, parse_type, parse_padding, parse_extension,
  parse_payload, parse_mprtp,
}
use mprtplib.Packet.Bounds.{rtp_packet-IsInside}
use mprtplib.Stat
use mprtplib.Stat.{SourceStats, first_packet, next_packet}
use mprtplib.Subflow
use mprtplib.Subflow.{Subflow}
use mprtplib.World.{World}
use mprtplib.Source
use mprtplib.Source.{Source, find_or_add}
use mprtplib.Source.Packets.{from_raw}
use mprtplib.Session.{process_rtcp_packet}
use mprtplib.Session.Poll.{Session, Rounds, poll_session}
use mprtplib.Receiver.{Receiver, on_rtp_packet, receiver_handlers, poll_sources, poll}
use mprtplib.Programs.Server.Printing.{IsPrintable}

module _ {W : Type 0} where
  -- Where the payload of a packet is, which the statistics do not change.
  abbrev pub located : RtpPacket W → Option (RawPacket W) × Option ℕ × ℕ
  located pkt = (pkt.rawpack, pkt.payload, pkt.payloadlength)

  rtp_packet-rawpack :
      (raw : RawPacket W) (p : RtpPacket W)
      → rtp_packet raw ≡ ok p
      → p.error ≡ pos 0
      → p.rawpack ≡ some raw
  unfolding rtp_packet parse_raw parse_type parse_padding parse_extension parse_mprtp parse_payload
  rtp_packet-rawpack raw p e z = ground arith

  pub rtp_packet-IsPrintable :
      (raw : RawPacket W) (p : RtpPacket W)
      → rtp_packet raw ≡ ok p
      → p.error ≡ pos 0
      → IsPrintable p
  rtp_packet-IsPrintable raw p e z =
      let inside = rtp_packet-IsInside raw p e z in
      record {
        raw = raw;
        start = _;
        has_raw = rtp_packet-rawpack raw p e z;
        has_payload = inside.has_payload;
        ends = inside.payload_ends;
      }

  pub located-IsPrintable :
      (p q : RtpPacket W) → located q ≡ located p → IsPrintable p → IsPrintable q
  located-IsPrintable p q e h = record {
    raw = h.raw;
    start = h.start;
    has_raw = ap (λ l. l.0) e ∙ h.has_raw;
    has_payload = ap (λ l. l.1) e ∙ h.has_payload;
    ends = rw (ap (λ l. l.2) e) h.ends;
  }

module _ {W : Type 0} ⦃d : Double W⦄ where
  process_packet-located :
      (st : SourceStats W) (pack : RtpPacket W) (subflow : Bool) (recvtime tsunit : W)
      → located (Stat.process_packet st pack subflow recvtime tsunit).1 ≡ located pack
  unfolding Stat.process_packet first_packet next_packet
  process_packet-located st pack subflow recvtime tsunit = ground arith

  source-located :
      (src : Source W) (pkt : RtpPacket W) (tsunit : W) (iface : Interface W) (w : World W)
      → Holds (λ res. located res.1 ≡ located pkt) (Source.process_packet src pkt tsunit iface w)
  unfolding Source.process_packet Subflow.process_rtp_packet
  source-located src pkt tsunit iface w =
      Holds-after (λ res. located res.1 ≡ located pkt) (or_fault pkt.rawpack) _
        λ raw.
          process_packet-located _ _ true _ _
          ∙ process_packet-located src.stat pkt false raw.recvtime tsunit

  pub source-returns :
      (src : Source W) (pkt : RtpPacket W) (raw : RawPacket W) (tsunit : W) (iface : Interface W)
      (w : World W)
      → (src' : Source W) × (pkt' : RtpPacket W) × (w' : World W) × (Source.process_packet src
            (from_raw raw pkt)
            tsunit
            iface
            w
          ≡ ok (src', pkt', w'))
        × (located pkt' ≡ located (from_raw raw pkt))
  unfolding Source.process_packet Subflow.process_rtp_packet
  source-returns src pkt raw tsunit iface w =
      let (st, pack1) = Stat.process_packet src.stat (from_raw raw pkt) false raw.recvtime tsunit in
      let sf = (find_or_add pack1.subflow_id raw.from_address iface src.subflows w).0 in
      (
        _,
        _,
        _,
        refl,
        process_packet-located sf.recv_stat pack1 true raw.recvtime tsunit
            ∙ process_packet-located src.stat (from_raw raw pkt) false raw.recvtime tsunit,
      )

  -- The receiver leaves the payload of a packet where it was.
  pub on_rtp_packet-Holds :
      (pkt : RtpPacket W) (iface : Interface W) (r : Receiver W)
      → Holds (λ res. located res.1 ≡ located pkt) (on_rtp_packet pkt iface r)
  unfolding on_rtp_packet
  on_rtp_packet-Holds pkt iface r =
      Holds->>= (λ res. located res.1 ≡ located pkt) (λ res. located res.1 ≡ located pkt)
        (Source.process_packet _ pkt r.timestamp_unit iface r.world) _
        (source-located _ pkt _ iface r.world) λ res e. e

  on_rtp_packet-IsPrintable :
      (pkt : RtpPacket W) (iface : Interface W) (r : Receiver W)
      → IsPrintable pkt
      → Holds (λ res. IsPrintable res.1) (on_rtp_packet pkt iface r)
  on_rtp_packet-IsPrintable pkt iface r h =
      Holds-weaken (λ res. located res.1 ≡ located pkt) (λ res. IsPrintable res.1)
        (on_rtp_packet pkt iface r) (on_rtp_packet-Holds pkt iface r)
        λ res e. located-IsPrintable pkt res.1 e h

module _ {W : Type 0} ⦃d : Double W⦄ (R : RawPacket W → Type 0) (Q : RtpPacket W → Type 0) where
  -- What the handlers of `receiver` carry, `receiver::poll` carries: its reports touch neither queue.
  pub poll-Carries :
      (rounds : ℕ → Rounds W) (s : Session W (Receiver W))
      → HandlersCarry receiver_handlers R Q (λ r. Unit {0})
      → Bring R rounds
      → Carries R Q (λ r. Unit {0}) s
      → Holds (λ r. Carries R Q (λ r. Unit {0}) r.1) (poll rounds s)
  unfolding poll
  poll-Carries rounds s carry brings c =
      Holds->>= (λ r. Carries R Q (λ r. Unit {0}) r.1) (λ r. Carries R Q (λ r. Unit {0}) r.1)
        (poll_session receiver_handlers rounds s) _
        (poll_session-Carries receiver_handlers R Q (λ r. Unit {0}) carry rounds s brings c)
        λ r c1.
          Holds-after (λ r. Carries R Q (λ r. Unit {0}) r.1)
            (poll_sources (r.1).object.sources (r.1).object.world) _
            λ x. record { waiting = c1.waiting; queued = c1.queued; kept = tt }

module _ {W : Type 0} ⦃d : Double W⦄ where
  receiver_handlers-IsPrintable :
      HandlersCarry {W = W} receiver_handlers Anything IsPrintable (λ r. Unit {0})
  unfolding receiver_handlers
  receiver_handlers-IsPrintable = record {
    rtcp_carries = λ raw i s r p. Holds-any (process_rtcp_packet receiver_handlers raw i s);
    rtp_carries = λ raw pkt i s r parsed good p.
        Holds-weaken (λ res. IsPrintable res.1) _ (on_rtp_packet pkt i s)
          (on_rtp_packet-IsPrintable pkt i s (rtp_packet-IsPrintable raw pkt parsed good))
          λ res h. (h, tt);
  }

  -- Whatever the sockets brought, each packet that `receiver::poll` leaves in the queue has its payload
  -- inside its datagram.
  pub poll-IsPrintable :
      (rounds : ℕ → Rounds W) (s : Session W (Receiver W))
      → All IsPrintable s.packets
      → Holds (λ r. All IsPrintable (r.1).packets) (poll rounds s)
  poll-IsPrintable rounds s all =
      Holds-weaken (λ r. Carries Anything IsPrintable (λ r. Unit {0}) r.1) _ (poll rounds s)
        (poll-Carries Anything IsPrintable rounds s receiver_handlers-IsPrintable
          (any_rounds rounds)
          (record { waiting = any_interfaces s.interfaces; queued = all; kept = tt }))
        λ r c. c.queued
