-- ===== src/Receiver/Ranges.antt =====
-- The numbers that the receiver of src/mprtp_receiver.cpp keeps stay in the ranges of their types,
-- whatever bytes the sockets bring.
use mprtplib.Prelude.{ℕ, ◌^◌, ◌<◌, arith, inl, inr, [], ◌∷◌, All, subst, Option-cases}
use mprtplib.Prelude.Result.{Holds, Holds->>=}
use mprtplib.Bytes.{AreBytes}
use mprtplib.Bytes.Ranges.{AreBytes-drop, u16_at-Holds}
use mprtplib.Double.{Double}
use mprtplib.Interface.{Interface}
use mprtplib.Packet.{RtpPacket}
use mprtplib.Packet.Ranges.{FitsPacket, rtp_packet-FitsPacket}
use mprtplib.Rtcp.Ranges.{FitsSr, sr_packet-FitsSr}
use mprtplib.Stat.Ranges.{FitsNumbers}
use mprtplib.World.{World}
use mprtplib.Session.Invariants.{Wire, ReportsKeep, process_rtcp_packet-Holds}
use mprtplib.Session.Traffic.Kept.{poll_session-Carries}
use mprtplib.Session.Traffic.{Bring, Carries, HandlersCarry}
use mprtplib.Session.Poll.{Session, Rounds, poll_session}
use mprtplib.Source
use mprtplib.Source.{Source, new_source}
use mprtplib.Source.Ranges.{FitsSource, new_source-FitsSource, process_sr_packet-FitsSource}
use mprtplib.Source.Ranges.Steps.{process_packet-FitsSource, poll-FitsSource}
use mprtplib.Receiver.Sources.{put_source-All, find_source-All}
use mprtplib.Receiver.{
  Receiver, Sources, find_source, get_source, on_rtp_packet, on_rtcp_sr_packet, receiver_handlers,
  poll_sources, poll,
}

module _ {W : Type 0} where
  abbrev FitsEntry : ℕ × Source W → Type 0
  FitsEntry entry = FitsSource entry.1

  abbrev pub FitsSources : Sources W → Type 0
  FitsSources = All FitsEntry

  pub record FitsReceiver (r : Receiver W) : Type 0 where
    pub ssrc_fits : r.ssrc < 2 ^ 32
    pub sources_fit : FitsSources r.sources

  -- The datagrams that wait hold bytes, and the numbers of the queued packets and of the receiver are
  -- in their ranges.
  abbrev pub IsTyped : Session W (Receiver W) → Type 0
  IsTyped = Carries (λ raw. AreBytes raw.bytes) FitsNumbers FitsReceiver

  fits_numbers : (pkt : RtpPacket W) → FitsPacket pkt → FitsNumbers pkt
  fits_numbers pkt h = record {
    extseqnr_fits = omega (arith, h.extseqnr_fits);
    subflow_extseqnr_fits = omega (arith, h.subflow_extseqnr_fits);
    subflow_id_fits = h.subflow_id_fits;
    timestamp_fits = h.timestamp_fits;
    ssrc_fits = h.ssrc_fits;
  }

  bytes_wire : Wire {W = W} AreBytes FitsSr (λ id. id < 2 ^ 16)
  bytes_wire = record {
    drops = λ n p b. AreBytes-drop n p b;
    sr_reads = λ p from t b. sr_packet-FitsSr p from t b;
    id_reads = λ p b. u16_at-Holds p 0 b;
    id_zero = omega arith;
  }

module _ {W : Type 0} ⦃d : Double W⦄ where
  get_source-FitsSource :
      (ssrc : ℕ) (r : Receiver W) → ssrc < 2 ^ 32 → FitsReceiver r → FitsSource (get_source ssrc r)
  unfolding get_source
  get_source-FitsSource ssrc r s h = elim (Option-cases (find_source ssrc r.sources)) [
    | inl e ↦ rw (e, get_source) (new_source-FitsSource ssrc r.ssrc s h.ssrc_fits)
    | inr (src, e) ↦
        rw (e, get_source) (find_source-All FitsEntry ssrc r.sources src h.sources_fit e)
  ]

module _ {W : Type 0} ⦃d : Double W⦄ (range32 : (x : W) → d.to_uint32 x < 2 ^ 32) where
  on_rtp_packet-FitsReceiver :
      (pkt : RtpPacket W) (iface : Interface W) (r : Receiver W)
      → FitsNumbers pkt
      → FitsReceiver r
      → Holds (λ res. FitsNumbers res.1 × FitsReceiver res.2) (on_rtp_packet pkt iface r)
  unfolding on_rtp_packet
  on_rtp_packet-FitsReceiver pkt iface r n h =
      Holds->>= (λ res. FitsSource res.0 × FitsNumbers res.1)
        (λ res. FitsNumbers res.1 × FitsReceiver res.2)
        (Source.process_packet (get_source pkt.ssrc r) pkt r.timestamp_unit iface r.world) _
        (process_packet-FitsSource range32 (get_source pkt.ssrc r) pkt r.timestamp_unit iface
          r.world n (get_source-FitsSource pkt.ssrc r n.ssrc_fits h))
        λ res f. (
          f.1,
          record {
            ssrc_fits = h.ssrc_fits;
            sources_fit = put_source-All FitsEntry pkt.ssrc res.0 r.sources h.sources_fit f.0;
          },
        )

  receiver_reports-keep :
      ReportsKeep {W = W} receiver_handlers FitsSr (λ id. id < 2 ^ 16) FitsReceiver
  unfolding receiver_handlers on_rtcp_sr_packet
  receiver_reports-keep = record {
    sr_keeps = λ p id iface r sr n h. record {
      ssrc_fits = h.ssrc_fits;
      sources_fit = put_source-All FitsEntry p.sender_ssrc _ r.sources h.sources_fit (
          process_sr_packet-FitsSource (get_source p.sender_ssrc r) p id iface r.world n sr
            (get_source-FitsSource p.sender_ssrc r sr.sender_ssrc_fits h));
    };
    rr_keeps = λ p id ssrc iface r n h. h;
  }

  receiver_handlers-carry :
      HandlersCarry {W = W} receiver_handlers (λ raw. AreBytes raw.bytes) FitsNumbers FitsReceiver
  unfolding receiver_handlers
  receiver_handlers-carry = record {
    rtcp_carries = λ raw iface r b h.
        process_rtcp_packet-Holds receiver_handlers AreBytes FitsSr (λ id. id < 2 ^ 16) FitsReceiver
          raw iface r bytes_wire receiver_reports-keep b h;
    rtp_carries = λ raw pkt iface r b parsed good h.
        on_rtp_packet-FitsReceiver pkt iface r
          (fits_numbers pkt (subst (Holds FitsPacket) parsed (rtp_packet-FitsPacket raw b))) h;
  }

  poll_sources-FitsSources :
      (m : Sources W) (w : World W)
      → FitsSources m
      → Holds (λ r. FitsSources r.0) (poll_sources m w)
  unfolding poll_sources
  poll_sources-FitsSources [] w all = tt
  poll_sources-FitsSources ((key, src) ∷ rest) w all =
      Holds->>= (λ r. FitsSource r.0) (λ r. FitsSources r.0) (Source.poll src w) _
        (poll-FitsSource range32 src w all.0)
        λ r f.
          Holds->>= (λ r. FitsSources r.0) (λ r. FitsSources r.0) (poll_sources rest r.1) _
            (poll_sources-FitsSources rest r.1 all.1) λ r2 fs. (f, fs)

  pub poll_session-IsTyped :
      (rounds : ℕ → Rounds W) (s : Session W (Receiver W))
      → Bring (λ raw. AreBytes raw.bytes) rounds
      → IsTyped s
      → Holds (λ r. IsTyped r.1) (poll_session receiver_handlers rounds s)
  poll_session-IsTyped rounds s brings c =
      poll_session-Carries receiver_handlers (λ raw. AreBytes raw.bytes) FitsNumbers FitsReceiver
        receiver_handlers-carry rounds s brings c

  -- Where a conversion to `uint32_t` is in the range of that type, and the sockets bring bytes, whatever
  -- these are, `receiver::poll` keeps the numbers in their ranges, if it returns.
  pub poll-IsTyped :
      (rounds : ℕ → Rounds W) (s : Session W (Receiver W))
      → Bring (λ raw. AreBytes raw.bytes) rounds
      → IsTyped s
      → Holds (λ r. IsTyped r.1) (poll rounds s)
  unfolding poll
  poll-IsTyped rounds s brings c =
      Holds->>= (λ r. IsTyped r.1) (λ r. IsTyped r.1) (poll_session receiver_handlers rounds s) _
        (poll_session-IsTyped rounds s brings c)
        λ r c1.
          Holds->>= (λ x. FitsSources x.0) (λ r. IsTyped r.1)
            (poll_sources (r.1).object.sources (r.1).object.world) _
            (poll_sources-FitsSources (r.1).object.sources (r.1).object.world (c1.kept).sources_fit)
            λ x fs. record {
              waiting = c1.waiting;
              queued = c1.queued;
              kept = record { ssrc_fits = (c1.kept).ssrc_fits; sources_fit = fs };
            }
