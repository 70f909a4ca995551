-- ===== src/Session/Invariants.antt =====
-- What the handlers keep, `session::poll` (src/mprtp_session.cpp) keeps.
use mprtplib.Prelude.{
  ℕ, All, zero, suc, ◌+◌, ◌*◌, inl, inr, List, [], ◌∷◌, length, ltb, ◌==◌, drop, if_both,
  Bool-cases,
}
use mprtplib.Prelude.Result.{ok, stuck, Holds, Holds->>=, Holds-after, Holds-any, Holds-weaken}
use mprtplib.Address.{Endpoint}
use mprtplib.Bytes.{Memory, u16_at, u32_at}
use mprtplib.Struct.{packettype_at, count_at, length_at, mprtcp_type_at, block_length_at}
use mprtplib.Packet.{RawPacket, RtpPacket}
use mprtplib.Rtcp.{SrPacket, RrPacket, sr_packet, rr_packet}
use mprtplib.Interface.{Interface}
use mprtplib.Session.{
  Handlers, process_sr_packet, process_rr_blocks, process_rr_packet, process_subflow_block,
  process_block, mprtcp_loop, process_mprtcp_packet, dispatch_rtcp, rtcp_loop, process_rtcp_packet,
}
use mprtplib.Session.Traffic.Kept.{poll_session-Carries}
use mprtplib.Session.Traffic.{Anything, any_rounds, any_interfaces, Carries, HandlersCarry}
use mprtplib.Session.Poll.{Session, Rounds, poll_session}

-- The handlers keep `P`, wherever they come to an end.
pub record HandlersKeep {W I S : Type 0} (h : Handlers W I S) (P : S → Type 0) : Type 0 where
  pub rtp_keeps :
      (p : RtpPacket W) (i : I) (s : S) → P s → Holds (λ r. P r.2) (h.on_rtp_packet p i s)
  pub sr_keeps :
      (p : SrPacket W) (id : ℕ) (i : I) (s : S) → P s → Holds P (h.on_rtcp_sr_packet p id i s)
  pub rr_keeps :
      (p : RrPacket W) (id ssrc : ℕ) (i : I) (s : S)
      → P s
      → Holds P (h.on_rtcp_rr_packet p id ssrc i s)

-- What is read of memory of which `B` holds: the memory behind it, sender reports and the numbers of
-- subflows.
pub record Wire {W : Type 0} (B : Memory → Type 0) (Sr : SrPacket W → Type 0) (Num : ℕ → Type 0)
    : Type 0 where
  pub drops : (n : ℕ) (p : Memory) → B p → B (drop n p)
  pub sr_reads : (p : Memory) (from : Endpoint) (t : W) → B p → Holds Sr (sr_packet p from t)
  pub id_reads : (p : Memory) → B p → Holds Num (u16_at p 0)
  pub id_zero : Num 0

-- The handlers of reports keep `P`, on reports and numbers that were read.
pub record ReportsKeep {W I S : Type 0} (h : Handlers W I S) (Sr : SrPacket W → Type 0)
    (Num : ℕ → Type 0) (P : S → Type 0) : Type 0 where
  pub sr_keeps :
      (p : SrPacket W) (id : ℕ) (i : I) (s : S)
      → Sr p
      → Num id
      → P s
      → Holds P (h.on_rtcp_sr_packet p id i s)
  pub rr_keeps :
      (p : RrPacket W) (id ssrc : ℕ) (i : I) (s : S)
      → Num id
      → P s
      → Holds P (h.on_rtcp_rr_packet p id ssrc i s)

module _ {W I S : Type 0} (h : Handlers W I S) (B : Memory → Type 0) (Sr : SrPacket W → Type 0)
    (Num : ℕ → Type 0) (P : S → Type 0) (wire : Wire B Sr Num) (keeps : ReportsKeep h Sr Num P)
    (iface : I) (recv_from : Endpoint) (recvtime : W) where
  process_sr_packet-Holds :
      (pkt : Memory) (id : ℕ) (s : S)
      → B pkt
      → Num id
      → P s
      → Holds P (process_sr_packet h iface recv_from recvtime pkt id s)
  unfolding process_sr_packet
  process_sr_packet-Holds pkt id s b n p =
      Holds->>= Sr P (sr_packet pkt recv_from recvtime) _ (wire.sr_reads pkt recv_from recvtime b)
        λ sr read. if_both (Holds P) sr.is_loaded _ _ (keeps.sr_keeps sr id iface s read n p) p

  process_rr_blocks-Holds :
      (n : ℕ) (hdr pkt : Memory) (id : ℕ) (s : S)
      → Num id
      → P s
      → Holds P (process_rr_blocks h iface recv_from recvtime n hdr pkt id s)
  unfolding process_rr_blocks
  process_rr_blocks-Holds zero hdr pkt id s i p = p
  process_rr_blocks-Holds (suc n) hdr pkt id s i p =
      Holds-after P (rr_packet pkt recv_from recvtime) _ λ rr.
        Holds-after P (u32_at hdr 0) _ λ ssrc.
          Holds->>= P P (h.on_rtcp_rr_packet rr id ssrc iface s) _
            (keeps.rr_keeps rr id ssrc iface s i p)
            λ s' p'. process_rr_blocks-Holds n hdr pkt id s' i p'

  process_rr_packet-Holds :
      (pkt : Memory) (id : ℕ) (s : S)
      → Num id
      → P s
      → Holds P (process_rr_packet h iface recv_from recvtime pkt id s)
  unfolding process_rr_packet
  process_rr_packet-Holds pkt id s i p =
      Holds-after P (count_at pkt) _ λ n. process_rr_blocks-Holds n _ _ id s i p

  process_block-Holds :
      (block : Memory) (s : S)
      → B block
      → P s
      → Holds P (process_block h iface recv_from recvtime block s)
  unfolding process_block process_subflow_block
  process_block-Holds block s b p = Holds-after P (mprtcp_type_at block) _ λ type.
      if_both (Holds P) (type == 0) _ _
        (Holds-after P (packettype_at (drop 2 (drop 2 block))) _ λ packettype.
          Holds->>= Num P (u16_at (drop 2 block) 0) _
            (wire.id_reads (drop 2 block) (wire.drops 2 block b))
            λ id i.
              if_both (Holds P) (packettype == 200) _ _
                (process_sr_packet-Holds (drop 2 (drop 2 block)) id s
                  (wire.drops 2 (drop 2 block) (wire.drops 2 block b)) i p)
                (if_both (Holds P) (packettype == 201) _ _
                  (process_rr_packet-Holds (drop 2 (drop 2 block)) id s i p) p))
        p

  mprtcp_loop-Holds :
      (fuel : ℕ) (pkt : Memory) (data_len off : ℕ) (s : S)
      → B pkt
      → P s
      → Holds P (mprtcp_loop h iface recv_from recvtime fuel pkt data_len off s)
  unfolding mprtcp_loop
  mprtcp_loop-Holds zero pkt data_len off s b p =
      if_both (Holds P) (ltb off data_len) stuck (ok s) tt p
  mprtcp_loop-Holds (suc fuel) pkt data_len off s b p = elim (Bool-cases (ltb off data_len)) [
    | inr over ↦ rw (over, mprtcp_loop) p
    | inl more ↦
        rw (more, mprtcp_loop)
          (Holds->>= P P (process_block h iface recv_from recvtime (drop off pkt) s) _
            (process_block-Holds (drop off pkt) s (wire.drops off pkt b) p)
            λ s' p'.
              Holds-after P (block_length_at (drop off pkt)) _
                λ len. mprtcp_loop-Holds fuel pkt data_len (off + len * 4) s' b p')
  ]

  process_mprtcp_packet-Holds :
      (pkt : Memory) (s : S)
      → B pkt
      → P s
      → Holds P (process_mprtcp_packet h iface recv_from recvtime pkt s)
  unfolding process_mprtcp_packet
  process_mprtcp_packet-Holds pkt s b p =
      Holds-after P (length_at pkt) _ λ len. mprtcp_loop-Holds _ pkt _ 12 s b p

  dispatch_rtcp-Holds :
      (pkt : Memory) (s : S)
      → B pkt
      → P s
      → Holds P (dispatch_rtcp h iface recv_from recvtime pkt s)
  unfolding dispatch_rtcp
  dispatch_rtcp-Holds pkt s b p = Holds-after P (packettype_at pkt) _ λ type.
      if_both (Holds P) (type == 200) _ _ (process_sr_packet-Holds pkt 0 s b wire.id_zero p) (
        if_both (Holds P) (type == 201) _ _ (process_rr_packet-Holds pkt 0 s wire.id_zero p)
          (if_both (Holds P) (type == 211) _ _ (process_mprtcp_packet-Holds pkt s b p) p))

  rtcp_loop-Holds :
      (fuel : ℕ) (bytes : Memory) (off : ℕ) (s : S)
      → B bytes
      → P s
      → Holds P (rtcp_loop h iface recv_from recvtime fuel bytes off s)
  unfolding rtcp_loop
  rtcp_loop-Holds zero bytes off s b p =
      if_both (Holds P) (ltb off (length bytes)) stuck (ok s) tt p
  rtcp_loop-Holds (suc fuel) bytes off s b p = elim (Bool-cases (ltb off (length bytes))) [
    | inr over ↦ rw (over, rtcp_loop) p
    | inl more ↦
        rw (more, rtcp_loop)
          (Holds->>= P P (dispatch_rtcp h iface recv_from recvtime (drop off bytes) s) _
            (dispatch_rtcp-Holds (drop off bytes) s (wire.drops off bytes b) p)
            λ s' p'.
              Holds-after P (length_at (drop off bytes)) _
                λ len. rtcp_loop-Holds fuel bytes (off + (len + 1) * 4) s' b p')
  ]

module _ {W I S : Type 0} (h : Handlers W I S) where
  -- What the handlers keep of each report, `process_rtcp_packet` keeps.
  pub process_rtcp_packet-Holds :
      (B : Memory → Type 0) (Sr : SrPacket W → Type 0) (Num : ℕ → Type 0) (P : S → Type 0)
      (raw : RawPacket W) (iface : I) (s : S)
      → Wire B Sr Num
      → ReportsKeep h Sr Num P
      → B raw.bytes
      → P s
      → Holds P (process_rtcp_packet h raw iface s)
  unfolding process_rtcp_packet
  process_rtcp_packet-Holds B Sr Num P raw iface s wire keeps b p =
      rtcp_loop-Holds h B Sr Num P wire keeps iface raw.from_address raw.recvtime _ raw.bytes 0 s b
        p

module _ {W S : Type 0} (h : Handlers W (Interface W) S) (P : S → Type 0)
    (keeps : HandlersKeep h P) where
  -- Whatever is read.
  any_wire : Wire {W = W} (λ p. Unit {0}) (λ sr. Unit {0}) (λ id. Unit {0})
  any_wire = record {
    drops = λ n p b. tt;
    sr_reads = λ p from t b. Holds-any (sr_packet p from t);
    id_reads = λ p b. Holds-any (u16_at p 0);
    id_zero = tt;
  }

  any_reports : ReportsKeep h (λ sr. Unit {0}) (λ id. Unit {0}) P
  any_reports = record {
    sr_keeps = λ p id i s read n held. keeps.sr_keeps p id i s held;
    rr_keeps = λ p id ssrc i s n held. keeps.rr_keeps p id ssrc i s held;
  }

  handlers_carry : HandlersCarry h Anything (λ pkt. Unit {0}) P
  handlers_carry = record {
    rtcp_carries = λ raw i s r p.
        process_rtcp_packet-Holds h (λ p. Unit {0}) (λ sr. Unit {0}) (λ id. Unit {0}) P raw i s
          any_wire any_reports tt p;
    rtp_carries = λ raw pkt i s r parsed good p.
        Holds-weaken (λ r. P r.2) _ (h.on_rtp_packet pkt i s) (keeps.rtp_keeps pkt i s p)
          λ res p'. (tt, p');
  }

  any_packets : (queue : List (RtpPacket W)) → All (λ pkt. Unit {0}) queue
  any_packets [] = tt
  any_packets (pkt ∷ rest) = (tt, any_packets rest)

  -- What holds of the object and is kept by its handlers holds after `session::poll`.
  pub poll_session-Holds :
      (rounds : ℕ → Rounds W) (s : Session W S)
      → P s.object
      → Holds (λ r. P (r.1).object) (poll_session h rounds s)
  poll_session-Holds rounds s p =
      Holds-weaken (λ r. Carries Anything (λ pkt. Unit {0}) P r.1) _ (poll_session h rounds s)
        (poll_session-Carries h Anything (λ pkt. Unit {0}) P handlers_carry rounds s
          (any_rounds rounds)
          (record {
            waiting = any_interfaces s.interfaces;
            queued = any_packets s.packets;
            kept = p;
          }))
        λ r c. c.kept
