-- ===== src/Source/Packets.antt =====
-- What a packet does to a source of src/mprtp_source.cpp and to its subflows.
use mprtplib.Prelude.{
  ℕ, sym, ◌^◌, ◌<◌, ◌∙◌, ap, ◌≡◌, ◌≢◌, inl, inr, refl, arith, false, true, none, Option, some,
  Option-cases, List, [], ◌∷◌, ◌++◌, ◌==◌, if◌then◌else◌, All,
}
use mprtplib.Prelude.Result.{ok}
use mprtplib.Address.{Endpoint}
use mprtplib.Double.{Double}
use mprtplib.Packet.{RtpPacket, RawPacket}
use mprtplib.Interface.{Interface}
use mprtplib.Stat
use mprtplib.Stat.{SourceStats, source_stats, first_packet, next_packet}
use mprtplib.Subflow
use mprtplib.Subflow.{Subflow, new_subflow}
use mprtplib.World.{World, take_random}
use mprtplib.Source.{Source, find_subflow, store_subflow, find_or_add, process_packet}

module _ {W : Type 0} where
  -- No subflow of the list has the number.
  abbrev pub Absent : ℕ → List (Subflow W) → Type 0
  Absent id sfs = All (λ sf. sf.subflow_id ≢ id) sfs

  -- Each subflow has a number of its own.
  abbrev pub Distinct : List (Subflow W) → Type 0
  Distinct [] = Unit {0}
  Distinct (sf ∷ rest) = Absent sf.subflow_id rest × Distinct rest

  find_subflow-none : (id : ℕ) (sfs : List (Subflow W)) → find_subflow id sfs ≡ none → Absent id sfs
  unfolding find_subflow
  find_subflow-none id [] e = tt
  find_subflow-none id (sf ∷ rest) e = (ground arith, find_subflow-none id rest (ground arith))

  pub find_subflow-some :
      (id : ℕ) (sfs : List (Subflow W)) (sf : Subflow W)
      → find_subflow id sfs ≡ some sf
      → sf.subflow_id ≡ id
  unfolding find_subflow
  find_subflow-some id [] sf e = cc
  find_subflow-some id (x ∷ rest) sf e = ground (arith, find_subflow-some id rest sf)

  Absent-append :
      (id : ℕ) (sfs : List (Subflow W)) (new : Subflow W)
      → Absent id sfs
      → new.subflow_id ≢ id
      → Absent id (sfs ++ (new ∷ []))
  Absent-append id [] new a n = (n, tt)
  Absent-append id (sf ∷ rest) new a n = (a.0, Absent-append id rest new a.1 n)

  Distinct-append :
      (sfs : List (Subflow W)) (new : Subflow W)
      → Distinct sfs
      → Absent new.subflow_id sfs
      → Distinct (sfs ++ (new ∷ []))
  Distinct-append [] new dist a = (tt, tt)
  Distinct-append (sf ∷ rest) new dist a = (
    Absent-append sf.subflow_id rest new dist.0 (λ e. a.0 (sym e)),
    Distinct-append rest new dist.1 a.1,
  )

  Absent-store :
      (id : ℕ) (sfs : List (Subflow W)) (new : Subflow W)
      → Absent id sfs
      → Absent id (store_subflow new sfs)
  unfolding store_subflow
  Absent-store id [] new a = tt
  Absent-store id (sf ∷ rest) new a = ground (arith, Absent-store id rest new a.1)

  pub Distinct-store :
      (sfs : List (Subflow W)) (new : Subflow W) → Distinct sfs → Distinct (store_subflow new sfs)
  unfolding store_subflow
  Distinct-store [] new dist = tt
  Distinct-store (sf ∷ rest) new dist =
      ground (arith, Absent-store sf.subflow_id rest new dist.0, Distinct-store rest new dist.1)

  find_subflow-append :
      (id : ℕ) (sfs : List (Subflow W)) (new : Subflow W)
      → find_subflow id sfs ≡ none
      → new.subflow_id ≡ id
      → find_subflow id (sfs ++ (new ∷ [])) ≡ some new
  unfolding find_subflow
  find_subflow-append id [] new e n = ground arith
  find_subflow-append id (sf ∷ rest) new e n = ground (arith, find_subflow-append id rest new)

  -- A change through the pointer is read back under its number, and no other subflow changes.
  pub find_subflow-store_subflow :
      (id : ℕ) (sfs : List (Subflow W)) (old new : Subflow W)
      → find_subflow new.subflow_id sfs ≡ some old
      → find_subflow id (store_subflow new sfs)
        ≡ (if new.subflow_id == id then some new else find_subflow id sfs)
  unfolding find_subflow store_subflow
  find_subflow-store_subflow id [] old new e = cc
  find_subflow-store_subflow id (sf ∷ rest) old new e =
      ground (arith, find_subflow-store_subflow id rest old new)

module _ {W : Type 0} ⦃d : Double W⦄ where
  -- What `find_or_add` returns is in the list that it leaves, under the number that was asked for;
  -- the subflows that were there are found as before, and the numbers stay distinct.
  pub find_or_add_lem :
      (id : ℕ) (addr : Endpoint) (iface : Interface W) (sfs : List (Subflow W)) (w : World W)
      → Distinct sfs
      → let (sf, after, _) = find_or_add id addr iface sfs w in
        (sf.subflow_id ≡ id) × (find_subflow id after ≡ some sf) × Distinct after
  unfolding find_or_add take_random new_subflow
  find_or_add_lem id addr iface sfs w dist = elim (Option-cases (find_subflow id sfs)) [
    | inr (sf, e) ↦ rw (e, find_or_add) (find_subflow-some id sfs sf e, e, dist)
    | inl e ↦
        let new = new_subflow (w.randoms w.randoms_taken) id iface addr in
        let numbered : new.subflow_id ≡ id = refl in
        rw (e, find_or_add)
          (
            numbered,
            find_subflow-append id sfs new e numbered,
            Distinct-append sfs new dist (find_subflow-none id sfs e),
          )
  ]

  pub subflow_id-stat :
      (st : SourceStats W) (pack : RtpPacket W) (recvtime tsunit : W)
      → (Stat.process_packet st pack false recvtime tsunit).1.subflow_id ≡ pack.subflow_id
  unfolding Stat.process_packet first_packet next_packet
  subflow_id-stat st pack recvtime tsunit = ground arith

  process_rtp_packet-subflow_id :
      (sf : Subflow W) (pack : RtpPacket W) (recvtime tsunit : W)
      → (Subflow.process_rtp_packet sf pack recvtime tsunit).0.subflow_id ≡ sf.subflow_id
  unfolding Subflow.process_rtp_packet
  process_rtp_packet-subflow_id sf pack recvtime tsunit = refl

  -- A packet whose datagram is `raw`.
  abbrev pub from_raw : RawPacket W → RtpPacket W → RtpPacket W
  from_raw raw pack = record pack { rawpack = some raw }

  -- The statistics of a subflow that was found, and of a new one.
  abbrev pub stat_of : Option (Subflow W) → SourceStats W
  stat_of none = source_stats
  stat_of (some sf) = sf.recv_stat

  recv_stat-find_or_add :
      (id : ℕ) (addr : Endpoint) (iface : Interface W) (sfs : List (Subflow W)) (w : World W)
      → (find_or_add id addr iface sfs w).0.recv_stat ≡ stat_of (find_subflow id sfs)
  unfolding find_or_add take_random new_subflow
  recv_stat-find_or_add id addr iface sfs w = elim (Option-cases (find_subflow id sfs)) [
    | inl e ↦ rw (e, find_or_add) refl
    | inr (sf, e) ↦ rw (e, find_or_add) refl
  ]

  process_rtp_packet-recv_stat :
      (sf : Subflow W) (pack : RtpPacket W) (recvtime tsunit : W)
      → (Subflow.process_rtp_packet sf pack recvtime tsunit).0.recv_stat
        ≡ (Stat.process_packet sf.recv_stat pack true recvtime tsunit).0
  unfolding Subflow.process_rtp_packet
  process_rtp_packet-recv_stat sf pack recvtime tsunit = refl

  -- A packet with its datagram is taken; afterwards its subflow is found under its number, the
  -- statistics of the stream and of the subflow follow the packet, and the numbers of the subflows stay
  -- distinct.
  pub process_packet-subflows :
      (src : Source W) (pack : RtpPacket W) (raw : RawPacket W) (tsunit : W) (iface : Interface W)
      (w : World W)
      → Distinct src.subflows
      → (src' : Source W) × (pack' : RtpPacket W) × (w' : World W) × (sf : Subflow W)
        × (process_packet src (from_raw raw pack) tsunit iface w ≡ ok (src', pack', w'))
        × (find_subflow pack.subflow_id src'.subflows ≡ some sf)
        × Distinct src'.subflows
        × (let counted =
              Stat.process_packet src.stat (from_raw raw pack) false raw.recvtime tsunit in
            (src'.stat ≡ counted.0)
            × (sf.recv_stat
                ≡ (Stat.process_packet
                    (stat_of (find_subflow pack.subflow_id src.subflows))
                    counted.1
                    true
                    raw.recvtime
                    tsunit).0))
  unfolding process_packet
  process_packet-subflows src pack raw tsunit iface w dist =
      let pack1 = (Stat.process_packet src.stat (from_raw raw pack) false raw.recvtime tsunit).1 in
      let same = subflow_id-stat src.stat (from_raw raw pack) raw.recvtime tsunit in
      let found = find_or_add pack1.subflow_id raw.from_address iface src.subflows w in
      let (n, f, after) =
        find_or_add_lem pack1.subflow_id raw.from_address iface src.subflows w dist in
      let sf' = (Subflow.process_rtp_packet found.0 pack1 raw.recvtime tsunit).0 in
      let kept = process_rtp_packet-subflow_id found.0 pack1 raw.recvtime tsunit in
      let numbered : sf'.subflow_id ≡ pack.subflow_id = kept ∙ n ∙ same in
      let read =
        find_subflow-store_subflow pack.subflow_id found.1 found.0 sf'
          (ap (λ i. find_subflow i found.1) (kept ∙ n) ∙ f) in
      (
        _,
        _,
        _,
        sf',
        refl,
        read ∙ ground (arith, numbered),
        Distinct-store found.1 sf' after,
        (
          refl,
          process_rtp_packet-recv_stat found.0 pack1 raw.recvtime tsunit
              ∙ ap (λ st. (Stat.process_packet st pack1 true raw.recvtime tsunit).0)
                  (recv_stat-find_or_add pack1.subflow_id raw.from_address iface src.subflows w
                    ∙ ap (λ i. stat_of (find_subflow i src.subflows)) same),
        ),
      )

  subflow_extseqnr-stat :
      (st : SourceStats W) (pack : RtpPacket W) (recvtime tsunit : W)
      → (Stat.process_packet st pack false recvtime tsunit).1.subflow_extseqnr
        ≡ pack.subflow_extseqnr
  unfolding Stat.process_packet first_packet next_packet
  subflow_extseqnr-stat st pack recvtime tsunit = ground arith

  find_or_add-new :
      (id : ℕ) (addr : Endpoint) (iface : Interface W) (sfs : List (Subflow W)) (w : World W)
      → find_subflow id sfs ≡ none
      → (find_or_add id addr iface sfs w).0.recv_stat.received_data ≡ false
  unfolding find_or_add take_random new_subflow source_stats
  find_or_add-new id addr iface sfs w e = rw (e, find_or_add) refl

  process_rtp_packet-new :
      (sf : Subflow W) (pack : RtpPacket W) (recvtime tsunit : W)
      → sf.recv_stat.received_data ≡ false
      → (0 < pack.subflow_extseqnr) × (pack.subflow_extseqnr < 2 ^ 16)
      → (Subflow.process_rtp_packet sf pack recvtime tsunit).1.extseqnr ≡ pack.subflow_extseqnr
  unfolding Subflow.process_rtp_packet Stat.process_packet first_packet
  process_rtp_packet-new sf pack recvtime tsunit e h = ground arith

  -- The first packet of a subflow has its number in
  -- the stream replaced by its number in the subflow.
  pub process_packet_new_subflow :
      (src : Source W) (pack : RtpPacket W) (raw : RawPacket W) (tsunit : W) (iface : Interface W)
      (w : World W)
      → find_subflow pack.subflow_id src.subflows ≡ none
      → (0 < pack.subflow_extseqnr) × (pack.subflow_extseqnr < 2 ^ 16)
      → (src' : Source W) × (pack' : RtpPacket W) × (w' : World W) × (process_packet src
            (from_raw raw pack)
            tsunit
            iface
            w
          ≡ ok (src', pack', w'))
        × (pack'.extseqnr ≡ pack.subflow_extseqnr)
  unfolding process_packet
  process_packet_new_subflow src pack raw tsunit iface w n h =
      let pack1 = (Stat.process_packet src.stat (from_raw raw pack) false raw.recvtime tsunit).1 in
      let same = subflow_id-stat src.stat (from_raw raw pack) raw.recvtime tsunit in
      let same_number = subflow_extseqnr-stat src.stat (from_raw raw pack) raw.recvtime tsunit in
      let found = find_or_add pack1.subflow_id raw.from_address iface src.subflows w in
      let new =
        find_or_add-new pack1.subflow_id raw.from_address iface src.subflows w (rw same n) in
      (
        _,
        _,
        _,
        refl,
        process_rtp_packet-new found.0 pack1 raw.recvtime tsunit new (rw same_number h)
            ∙ same_number,
      )
