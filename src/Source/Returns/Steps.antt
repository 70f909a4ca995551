-- ===== src/Source/Returns/Steps.antt =====
-- A packet, a sender report and the poll of a source of src/mprtp_source.cpp whose subflows are few.
use mprtplib.Prelude.{
  ℕ, suc, ◌<◌, ◌≤◌, ◌≡◌, ◌≢◌, refl, ap, arith, false, inl, inr, Option, some, List, [], ◌∷◌, length,
  ◌==◌, ==_iff, Bool-cases, Option-cases, if_cases,
}
use mprtplib.Prelude.Result.{ok, Ends}
use mprtplib.Address.{Endpoint}
use mprtplib.Double.{Double}
use mprtplib.Interface.{Interface}
use mprtplib.Packet.{RawPacket, RtpPacket}
use mprtplib.Rtcp.{SrPacket}
use mprtplib.Stat
use mprtplib.Subflow
use mprtplib.Subflow.{Subflow, new_subflow}
use mprtplib.World.{World, take_time, take_random}
use mprtplib.Session.Traffic.{All-end}
use mprtplib.Source.{
  Source, new_source, find_subflow, store_subflow, find_or_add, process_packet, process_sr_packet,
  fill_subflows, select_front, send_report, poll,
}
use mprtplib.Source.Packets.{Distinct, Distinct-store, find_or_add_lem, subflow_id-stat, from_raw}
use mprtplib.Source.Exchange.{create_report-few, reports_of, select_front-some}
use mprtplib.Source.Returns.{
  Below, length-Below, IsReady, store_subflow-Below, store_subflow-some, found-some,
}
use mprtplib.Receiver.Invariant.{Distinct-fill_subflows}

module _ {W : Type 0} ⦃d : Double W⦄ where
  pub new_source-IsReady :
      (n ssrc sender_ssrc : ℕ) → IsReady {W = W} n (new_source ssrc sender_ssrc)
  unfolding new_source
  new_source-IsReady n ssrc sender_ssrc = record {
    distinct = tt;
    below = tt;
    some_subflow = λ e. cc;
  }

  find_or_add-Below :
      (n id : ℕ) (addr : Endpoint) (iface : Interface W) (sfs : List (Subflow W)) (w : World W)
      → id < n
      → Below n sfs
      → Below n (find_or_add id addr iface sfs w).1
  unfolding find_or_add take_random new_subflow
  find_or_add-Below n id addr iface sfs w h below = elim (Option-cases (find_subflow id sfs)) [
    | inr (sf, e) ↦ rw (e, find_or_add) below
    | inl e ↦
        rw (e, find_or_add)
          (All-end (λ sf. sf.subflow_id < n) sfs
            (new_subflow (w.randoms w.randoms_taken) id iface addr) below h)
  ]

  -- The list after a change of the subflow that was found or added.
  changed :
      (n id : ℕ) (addr : Endpoint) (iface : Interface W) (sfs : List (Subflow W)) (w : World W)
      (new : Subflow W)
      → id < n
      → Distinct sfs
      → Below n sfs
      → new.subflow_id ≡ (find_or_add id addr iface sfs w).0.subflow_id
      → let after = store_subflow new (find_or_add id addr iface sfs w).1 in
        Distinct after × Below n after × (after ≢ [])
  changed n id addr iface sfs w new h dist below same =
      let (numbered, found, dist') = find_or_add_lem id addr iface sfs w dist in
      let (sf, after, _) = find_or_add id addr iface sfs w in
      (
        Distinct-store after new dist',
        store_subflow-Below n new after (omega (arith, same, numbered))
            (find_or_add-Below n id addr iface sfs w h below),
        store_subflow-some new after (found-some id after sf found),
      )

  pub process_packet-IsReady :
      (n : ℕ) (src : Source W) (pkt : RtpPacket W) (raw : RawPacket W) (tsunit : W)
      (iface : Interface W) (w : World W)
      → pkt.subflow_id < n
      → IsReady n src
      → Ends (λ r. IsReady n r.0) (process_packet src (from_raw raw pkt) tsunit iface w)
  unfolding process_packet Subflow.process_rtp_packet
  process_packet-IsReady n src pkt raw tsunit iface w h ready =
      let pack1 = (Stat.process_packet src.stat (from_raw raw pkt) false raw.recvtime tsunit).1 in
      let same = subflow_id-stat src.stat (from_raw raw pkt) raw.recvtime tsunit in
      let (dist, below, some_left) =
        changed n pack1.subflow_id raw.from_address iface src.subflows w _ (rw same h)
          ready.distinct ready.below refl in
      record { distinct = dist; below = below; some_subflow = λ e. some_left }

  -- A report on the stream makes a report due; one on a subflow leaves a subflow.
  pub process_sr_packet-subflows :
      (n : ℕ) (src : Source W) (pkt : SrPacket W) (id : ℕ) (iface : Interface W) (w : World W)
      → id < n
      → Distinct src.subflows
      → Below n src.subflows
      → let src' = (process_sr_packet src pkt id iface w).0 in
        Distinct src'.subflows × Below n src'.subflows × (id ≢ 0 → IsReady n src')
  unfolding process_sr_packet Subflow.process_sr_packet
  process_sr_packet-subflows n src pkt id iface w h dist below =
      let (dist', below', some_left) =
        changed n id pkt.recv_from iface src.subflows w
          (record ((find_or_add id pkt.recv_from iface src.subflows w).0) {
            last_sender_report = some pkt;
          })
          h dist below refl in
      elim (Bool-cases (id == 0)) [
        | inl total ↦ rw total (dist, below, λ n. absurd (n ((==_iff id 0).0 total)))
        | inr other ↦ rw other (
          dist',
          below',
          λ n. record { distinct = dist'; below = below'; some_subflow = λ e. some_left },
        )
      ]

  fill_subflows-Below :
      (n ssrc : ℕ) (sr : Option (SrPacket W)) (sfs : List (Subflow W)) (w : World W)
      → Below n sfs
      → Below n (fill_subflows ssrc sr sfs w).1
  unfolding fill_subflows
  fill_subflows-Below n ssrc sr [] w below = tt
  fill_subflows-Below n ssrc sr (sf ∷ rest) w below =
      (below.0, fill_subflows-Below n ssrc sr rest (take_time w).1 below.1)

  fill_subflows-lengths :
      (ssrc : ℕ) (sr : Option (SrPacket W)) (sfs : List (Subflow W)) (w : World W)
      → (length (fill_subflows ssrc sr sfs w).0 ≡ length sfs)
        × (length (fill_subflows ssrc sr sfs w).1 ≡ length sfs)
  unfolding fill_subflows
  fill_subflows-lengths ssrc sr [] w = (refl, refl)
  fill_subflows-lengths ssrc sr (sf ∷ rest) w =
      let (reports, after) = fill_subflows-lengths ssrc sr rest (take_time w).1 in
      (ap suc reports, ap suc after)

  some-length : (sfs : List (Subflow W)) → sfs ≢ [] → 0 < length sfs
  some-length [] n = absurd (n refl)
  some-length (sf ∷ rest) n = omega arith

  front-Below :
      (n : ℕ) (sfs : List (Subflow W)) (front : Subflow W)
      → select_front sfs ≡ ok front
      → Below n sfs
      → front.subflow_id < n
  unfolding select_front
  front-Below n [] front e below = cc
  front-Below n (sf ∷ rest) front e below =
      let same : ok sf ≡ ok front = e in let eq : sf ≡ front = cc in rw⁻¹ eq below.0

  due-IsReady :
      (n : ℕ) (src : Source W) (w : World W)
      → n ≤ 1820
      → src.subflows ≢ []
      → IsReady n src
      → Ends (λ r. IsReady n r.0) (send_report src w)
  unfolding send_report Subflow.send
  due-IsReady n src w few some_left ready =
      let quiet = record src { send_rr = false } in
      let w1 = (take_time w).1 in
      let (reports, after) =
        fill_subflows-lengths src.ssrc src.last_sender_report src.subflows (take_time w1).1 in
      let count = length-Below n src.subflows ready.distinct ready.below in
      let sfs = (reports_of quiet w1).1 in
      let dist =
        Distinct-fill_subflows src.ssrc src.last_sender_report src.subflows (take_time w1).1
          ready.distinct in
      let below =
        fill_subflows-Below n src.ssrc src.last_sender_report src.subflows (take_time w1).1
          ready.below in
      let made = create_report-few quiet w1 (omega (arith, reports, count)) in
      let (front, chosen) =
        select_front-some sfs (omega (arith, after, some-length src.subflows some_left)) in
      rw (made, chosen)
        (record {
          distinct = Distinct-store sfs front dist;
          below = store_subflow-Below n front sfs (front-Below n sfs front chosen below) below;
          some_subflow = λ e. cc;
        })

  -- With fewer than 1820 numbers a source polls to an end.
  pub poll-IsReady :
      (n : ℕ) (src : Source W) (w : World W)
      → n ≤ 1820
      → IsReady n src
      → Ends (λ r. IsReady n r.0) (poll src w)
  unfolding poll
  poll-IsReady n src w few ready =
      if_cases (Ends (λ r. IsReady n r.0)) src.send_rr (send_report src w) (ok (src, w))
        (λ due. due-IsReady n src w few (ready.some_subflow due) ready) (λ quiet. ready)
