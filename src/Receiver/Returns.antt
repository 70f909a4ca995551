-- ===== src/Receiver/Returns.antt =====
-- The receiver of src/mprtp_receiver.cpp on data packets and sender reports that are whole: its
-- handlers and its poll come to an end.
use mprtplib.Prelude.{
  ℕ, Bool, suc, ◌<◌, ◌≤◌, ◌≡◌, ◌≢◌, refl, sym, arith, true, false, inl, inr, List, [], ◌∷◌, ◌==◌,
  ==_iff, ltb, All, subst, Option-cases, if_cases,
}
use mprtplib.Prelude.Result.{Holds, Ends, ◌>>=◌, Ends->>=, Ends-weaken, Ends-value}
use mprtplib.Double.{Double}
use mprtplib.Interface.{Interface}
use mprtplib.Packet.{RawPacket, RtpPacket}
use mprtplib.Rtcp.{SrPacket}
use mprtplib.World.{World}
use mprtplib.Session.Blocks.{each}
use mprtplib.Source
use mprtplib.Source.{Source, new_source}
use mprtplib.Source.Packets.{from_raw}
use mprtplib.Source.Returns.{Below, IsReady}
use mprtplib.Source.Returns.Steps.{
  new_source-IsReady, process_packet-IsReady, process_sr_packet-subflows, poll-IsReady,
}
use mprtplib.Receiver.{
  Receiver, Sources, find_source, put_source, get_source, on_rtp_packet, on_rtcp_sr_packet,
  poll_sources,
}
use mprtplib.Receiver.Sources.{RisesFrom, put_source-All, find_source-All}
use mprtplib.Receiver.Invariant.{
  IsPlaced, IsOrdered, get_source-IsPlaced, put_source-IsOrdered, process_packet-IsPlaced,
  process_sr_packet-IsPlaced,
}

module _ {W : Type 0} where
  abbrev Ready : ℕ → ℕ × Source W → Type 0
  Ready n entry = IsReady n entry.1

  -- The map is in order, and each source that is to report can do so.
  pub record IsServing (n : ℕ) (r : Receiver W) : Type 0 where
    pub ordered : IsOrdered r.sources
    pub ready : All (Ready n) r.sources

  -- The source of the SSRC `k` may be to report before it has a subflow.
  abbrev Pending : (n k : ℕ) → ℕ × Source W → Type 0
  Pending n k entry = Below n entry.1.subflows × (entry.0 ≢ k → IsReady n entry.1)

  record IsPending (n k : ℕ) (r : Receiver W) : Type 0 where
    ordered : IsOrdered r.sources
    pending : All (Pending n k) r.sources

  Ready-Pending : (n k : ℕ) (m : Sources W) → All (Ready n) m → All (Pending n k) m
  Ready-Pending n k [] all = tt
  Ready-Pending n k ((key, src) ∷ rest) all =
      (((all.0).below, λ e. all.0), Ready-Pending n k rest all.1)

  above-Ready :
      (n k low : ℕ) (m : Sources W)
      → RisesFrom low m
      → k < low
      → All (Pending n k) m
      → All (Ready n) m
  above-Ready n k low [] rises h all = tt
  above-Ready n k low ((key, src) ∷ rest) rises h all = (
    (all.0).1 (λ e. omega (arith, e, rises.0)),
    above-Ready n k (suc key) rest rises.1 (omega (arith, rises.0)) all.1,
  )

  -- The source gets its subflow.
  put_source-Ready :
      (n k low : ℕ) (src : Source W) (m : Sources W)
      → RisesFrom low m
      → All (Pending n k) m
      → IsReady n src
      → All (Ready n) (put_source k src m)
  unfolding put_source
  put_source-Ready n k low src [] rises all h = (h, tt)
  put_source-Ready n k low src ((key, old) ∷ rest) rises all h =
      if_cases (All (Ready n)) (key == k) _ _
        (λ same.
          let e : key ≡ k = (==_iff key k).0 same in
          (h, above-Ready n k (suc key) rest rises.1 (omega (arith, e)) all.1))
        (λ other.
          let ne : key ≢ k = λ e. absurd_bool other ((==_iff key k).1 e) in
          if_cases (All (Ready n)) (ltb k key) _ _
            (λ less.
              let lt : k < key = ground arith in
              (h, ((all.0).1 ne, above-Ready n k (suc key) rest rises.1 (omega (arith, lt)) all.1)))
            (λ more. ((all.0).1 ne, put_source-Ready n k (suc key) src rest rises.1 all.1 h)))
    where
      absurd_bool : {b : Bool} → b ≡ false → b ≡ true → ⊥
      absurd_bool e f = cc

module _ {W : Type 0} ⦃d : Double W⦄ where
  get_source-IsReady :
      (n ssrc : ℕ) (r : Receiver W) → All (Ready n) r.sources → IsReady n (get_source ssrc r)
  unfolding get_source
  get_source-IsReady n ssrc r all = elim (Option-cases (find_source ssrc r.sources)) [
    | inl e ↦ rw (e, get_source) (new_source-IsReady n ssrc r.ssrc)
    | inr (src, e) ↦ rw (e, get_source) (find_source-All (Ready n) ssrc r.sources src all e)
  ]

  get_source-Below :
      (n k ssrc : ℕ) (r : Receiver W)
      → All (Pending n k) r.sources
      → Below n (get_source ssrc r).subflows
  unfolding get_source new_source
  get_source-Below n k ssrc r all = elim (Option-cases (find_source ssrc r.sources)) [
    | inl e ↦ rw (e, get_source) tt
    | inr (src, e) ↦ rw (e, get_source) (find_source-All (Pending n k) ssrc r.sources src all e).0
  ]

  -- A packet on a subflow with a number below `n`.
  pub on_rtp_packet-IsServing :
      (n : ℕ) (pkt : RtpPacket W) (raw : RawPacket W) (iface : Interface W) (r : Receiver W)
      → pkt.subflow_id < n
      → IsServing n r
      → Ends (λ res. IsServing n res.2) (on_rtp_packet (from_raw raw pkt) iface r)
  unfolding on_rtp_packet
  on_rtp_packet-IsServing n pkt raw iface r h s =
      let src = get_source pkt.ssrc r in
      let (res, ran, ready) =
        Ends-value (λ x. IsReady n x.0)
          (Source.process_packet src (from_raw raw pkt) r.timestamp_unit iface r.world)
          (process_packet-IsReady n src pkt raw r.timestamp_unit iface r.world h
            (get_source-IsReady n pkt.ssrc r s.ready)) in
      let placed = subst (Holds (λ x. IsPlaced (pkt.ssrc, x.0))) ran (
        process_packet-IsPlaced pkt.ssrc src (from_raw raw pkt) r.timestamp_unit iface r.world
          (get_source-IsPlaced pkt.ssrc r s.ordered)) in
      rw ran (record {
        ordered = put_source-IsOrdered pkt.ssrc res.0 r.sources s.ordered placed;
        ready = put_source-All (Ready n) pkt.ssrc res.0 r.sources s.ready ready;
      })

  module _ (n : ℕ) (iface : Interface W) where
    on_rtcp_sr_packet-IsPending :
        (pkt : SrPacket W) (id : ℕ) (r : Receiver W)
        → id < n
        → IsPending n pkt.sender_ssrc r
        → Ends
            (λ r'. IsPending n pkt.sender_ssrc r' × (id ≢ 0 → IsServing n r'))
            (on_rtcp_sr_packet pkt id iface r)
    unfolding on_rtcp_sr_packet
    on_rtcp_sr_packet-IsPending pkt id r h p =
        let k = pkt.sender_ssrc in
        let src = get_source k r in
        let placed = get_source-IsPlaced k r p.ordered in
        let (_, below, ready) =
          process_sr_packet-subflows n src pkt id iface r.world h placed.1
            (get_source-Below n k k r p.pending) in
        let src' = (Source.process_sr_packet src pkt id iface r.world).0 in
        let ordered =
          put_source-IsOrdered k src' r.sources p.ordered
            (process_sr_packet-IsPlaced k src pkt id iface r.world placed) in
        (
          record {
            ordered = ordered;
            pending =
                put_source-All (Pending n k) k src' r.sources p.pending
                  (below, λ ne. absurd (ne refl));
          },
          λ ne. record {
            ordered = ordered;
            ready = put_source-Ready n k 0 src' r.sources (p.ordered).rises p.pending (ready ne);
          },
        )

    -- The reports on the subflows, after one of which no source is pending.
    each-IsServing :
        {A : Type 0} (report : A → SrPacket W) (id_of : A → ℕ) (k : ℕ) (items : List A)
        (r : Receiver W)
        → ((a : A) → (report a).sender_ssrc ≡ k)
        → All (λ a. (id_of a < n) × (id_of a ≢ 0)) items
        → IsServing n r
        → Ends
            (IsServing n)
            (each (λ a r'. on_rtcp_sr_packet (report a) (id_of a) iface r') items r)
    each-IsServing report id_of k [] r same all s = s
    each-IsServing report id_of k (a ∷ rest) r same all s =
        Ends->>= (IsServing n) (IsServing n) (on_rtcp_sr_packet (report a) (id_of a) iface r)
          (each (λ a r'. on_rtcp_sr_packet (report a) (id_of a) iface r') rest)
          (Ends-weaken _ (IsServing n) (on_rtcp_sr_packet (report a) (id_of a) iface r)
            (on_rtcp_sr_packet-IsPending (report a) (id_of a) r (all.0).0 (record {
              ordered = s.ordered;
              pending = Ready-Pending n (report a).sender_ssrc r.sources s.ready;
            }))
            λ r' both. both.1 (all.0).1)
          λ r' s'. each-IsServing report id_of k rest r' same all.1 s'

    -- The reports of one packet: that on the stream, and one at least on a subflow.
    pub reports-IsServing :
        {A : Type 0} (total : SrPacket W) (report : A → SrPacket W) (id_of : A → ℕ) (items : List A)
        (r : Receiver W)
        → ((a : A) → (report a).sender_ssrc ≡ total.sender_ssrc)
        → All (λ a. (id_of a < n) × (id_of a ≢ 0)) items
        → items ≢ []
        → 0 < n
        → IsServing n r
        → Ends (IsServing n) (
            on_rtcp_sr_packet total 0 iface r
            >>= each (λ a r'. on_rtcp_sr_packet (report a) (id_of a) iface r') items)
    reports-IsServing total report id_of [] r same all some_item pos s = absurd (some_item refl)
    reports-IsServing total report id_of (a ∷ rest) r same all some_item pos s =
        Ends->>= (IsPending n total.sender_ssrc) (IsServing n) (on_rtcp_sr_packet total 0 iface r) _
          (Ends-weaken _ (IsPending n total.sender_ssrc) (on_rtcp_sr_packet total 0 iface r)
            (on_rtcp_sr_packet-IsPending total 0 r pos (record {
              ordered = s.ordered;
              pending = Ready-Pending n total.sender_ssrc r.sources s.ready;
            }))
            λ r' both. both.0)
          λ r1 p.
            Ends->>= (IsServing n) (IsServing n) (on_rtcp_sr_packet (report a) (id_of a) iface r1) _
              (Ends-weaken _ (IsServing n) (on_rtcp_sr_packet (report a) (id_of a) iface r1)
                (on_rtcp_sr_packet-IsPending (report a) (id_of a) r1 (all.0).0
                  (subst (λ k. IsPending n k r1) (sym (same a)) p))
                λ r' both. both.1 (all.0).1)
              λ r2 s2. each-IsServing report id_of total.sender_ssrc rest r2 same all.1 s2

  -- The reports of the receiver itself.
  pub poll_sources-Ends :
      (n : ℕ) (m : Sources W) (w : World W)
      → n ≤ 1820
      → All (Ready n) m
      → Ends (λ x. All (Ready n) x.0) (poll_sources m w)
  unfolding poll_sources
  poll_sources-Ends n [] w few all = tt
  poll_sources-Ends n ((key, src) ∷ rest) w few all =
      Ends->>= (λ x. IsReady n x.0) (λ x. All (Ready n) x.0) (Source.poll src w) _
        (poll-IsReady n src w few all.0)
        λ x ready.
          Ends->>= (λ y. All (Ready n) y.0) (λ y. All (Ready n) y.0) (poll_sources rest x.1) _
            (poll_sources-Ends n rest x.1 few all.1) λ y readies. (ready, readies)
