-- ===== src/Receiver/Sources.antt =====
-- The map of sources of src/mprtp_receiver.cpp, and which source a packet reaches.
use mprtplib.Prelude.{
  false, inr, inl, if_both, Bool-cases, ==_iff, ltb, subst, All, ℕ, suc, ◌<◌, ◌≤◌, ap, ◌≡◌, ◌≢◌,
  refl, arith, Bool, true, none, some, [], ◌∷◌, ◌==◌, if◌then◌else◌,
}
use mprtplib.Prelude.Result.{Result, ok, ◌>>=◌}
use mprtplib.World.{World}
use mprtplib.Double.{Double}
use mprtplib.Packet.{RtpPacket, RawPacket}
use mprtplib.Subflow.{Subflow}
use mprtplib.Interface.{Interface}
use mprtplib.Stat
use mprtplib.Source.{Source, find_subflow}
use mprtplib.Source.Packets.{Distinct, from_raw, stat_of, process_packet-subflows}
use mprtplib.Receiver.{Receiver, Sources, find_source, put_source, get_source, on_rtp_packet}

module _ {W : Type 0} where
  -- The keys rise along the map, from `low` on.
  abbrev pub RisesFrom : ℕ → Sources W → Type 0
  RisesFrom low [] = Unit {0}
  RisesFrom low ((key, src) ∷ rest) = (low ≤ key) × RisesFrom (suc key) rest

  pub put_source-RisesFrom :
      (low ssrc : ℕ) (src : Source W) (m : Sources W)
      → RisesFrom low m
      → low ≤ ssrc
      → RisesFrom low (put_source ssrc src m)
  unfolding put_source
  put_source-RisesFrom low ssrc src [] r h = (h, tt)
  put_source-RisesFrom low ssrc src ((key, old) ∷ rest) r h =
      ground (arith, put_source-RisesFrom (suc key) ssrc src rest)

  -- What holds of the entries, with what is written.
  pub put_source-All :
      (P : ℕ × Source W → Type 0) (ssrc : ℕ) (src : Source W) (m : Sources W)
      → All P m
      → P (ssrc, src)
      → All P (put_source ssrc src m)
  unfolding put_source
  put_source-All P ssrc src [] all h = (h, tt)
  put_source-All P ssrc src ((key, old) ∷ rest) all h =
      if_both (All P) (key == ssrc) _ _ (h, all.1)
        (if_both (All P) (ltb ssrc key) _ _ (h, all)
          (all.0, put_source-All P ssrc src rest all.1 h))

  pub find_source-All :
      (P : ℕ × Source W → Type 0) (ssrc : ℕ) (m : Sources W) (src : Source W)
      → All P m
      → find_source ssrc m ≡ some src
      → P (ssrc, src)
  unfolding find_source
  find_source-All P ssrc [] src all e = cc
  find_source-All P ssrc ((key, old) ∷ rest) src all e = elim (Bool-cases (key == ssrc)) [
    | inl here ↦
        let found : some old ≡ some src = rw (here, find_source) at e in
        let same : old ≡ src = cc in
        subst (λ x. P (ssrc, x)) same (subst (λ k. P (k, old)) ((==_iff key ssrc).0 here) all.0)
    | inr later ↦ find_source-All P ssrc rest src all.1 (rw (later, find_source) at e)
  ]

  find_source-below :
      (low ssrc : ℕ) (m : Sources W) → RisesFrom low m → ssrc < low → find_source ssrc m ≡ none
  unfolding find_source
  find_source-below low ssrc [] r h = refl
  find_source-below low ssrc ((key, src) ∷ rest) r h =
      ground (arith, find_source-below (suc key) ssrc rest)

  -- In a map that is in order, a write is read back, and every other key reads as before.
  pub find_source-put_source :
      (low ssrc other : ℕ) (src : Source W) (m : Sources W)
      → RisesFrom low m
      → find_source other (put_source ssrc src m)
        ≡ (if ssrc == other then some src else find_source other m)
  unfolding find_source put_source
  find_source-put_source low ssrc other src [] r = ground arith
  find_source-put_source low ssrc other src ((key, old) ∷ rest) r = ground (
    arith,
    find_source-put_source (suc key) ssrc other src rest r.1,
    find_source-below (suc key) ssrc rest r.1,
  )

module _ {W : Type 0} ⦃d : Double W⦄ where
  abbrev pub stored :
      Receiver W → ℕ → Source W × RtpPacket W × World W → Result (Bool × RtpPacket W × Receiver W)
  stored r ssrc (src, pkt, w) =
      ok (true, pkt, record r { sources = put_source ssrc src r.sources; world = w })

  -- Where the map is in order and the numbers of the subflows are distinct, an RTP packet with its
  -- datagram is taken. The statistics of the source of its SSRC, which is made if there is none, go on
  -- by the packet, and then those of its subflow, made if there is none, by the packet as the first
  -- have left it; no other source changes. The map stays in order, and the numbers of the subflows
  -- distinct.
  pub on_rtp_packet-sources :
      (pkt : RtpPacket W) (raw : RawPacket W) (iface : Interface W) (r : Receiver W) (other : ℕ)
      → RisesFrom 0 r.sources
      → Distinct (get_source pkt.ssrc r).subflows
      → other ≢ pkt.ssrc
      → (src : Source W) × (sf : Subflow W) × (pkt' : RtpPacket W) × (r' : Receiver W)
        × (on_rtp_packet (from_raw raw pkt) iface r ≡ ok (true, pkt', r'))
        × RisesFrom 0 r'.sources
        × (find_source pkt.ssrc r'.sources ≡ some src)
        × (find_subflow pkt.subflow_id src.subflows ≡ some sf)
        × (let here = get_source pkt.ssrc r in
            let counted =
              Stat.process_packet here.stat
                (from_raw raw pkt)
                false
                raw.recvtime
                r.timestamp_unit in
            (src.stat ≡ counted.0)
            × (sf.recv_stat
                ≡ (Stat.process_packet
                    (stat_of (find_subflow pkt.subflow_id here.subflows))
                    counted.1
                    true
                    raw.recvtime
                    r.timestamp_unit).0))
        × Distinct src.subflows
        × (find_source other r'.sources ≡ find_source other r.sources)
  unfolding on_rtp_packet
  on_rtp_packet-sources pkt raw iface r other rises dist ne =
      let (src, pkt', w', sf, e, found, dist', counted) =
        process_packet-subflows (get_source pkt.ssrc r) pkt raw r.timestamp_unit iface r.world
          dist in
      let own = find_source-put_source 0 pkt.ssrc pkt.ssrc src r.sources rises in
      let others = find_source-put_source 0 pkt.ssrc other src r.sources rises in
      (
        src,
        sf,
        pkt',
        record r { sources = put_source pkt.ssrc src r.sources; world = w' },
        ap (λ p. p >>= stored r pkt.ssrc) e,
        put_source-RisesFrom 0 pkt.ssrc src r.sources rises (omega arith),
        ground arith,
        found,
        counted,
        dist',
        ground arith,
      )
