-- ===== src/Sender/Feedback.antt =====
-- The reports of `source::poll` (src/mprtp_source.cpp) in the hands of `sender::on_rtcp_rr_packet`
-- (src/mprtp_sender.cpp).
use mprtplib.Prelude.{
  ℕ, ◌+◌, ◌<◌, ◌≤◌, ◌≡◌, ◌≢◌, refl, ap, sym, ◌∙◌, Bool, true, inl, inr, Option, some, List, [], ◌∷◌,
  ◌++◌, ◌==◌, ==_iff, ne→==, Bool-cases, not, ◌&&◌, if_both, if◌then◌else◌, length, ◌^◌,
}
use mprtplib.Prelude.Result.{ok, ◌>>=◌}
use mprtplib.Address.{Endpoint}
use mprtplib.Double.{Double}
use mprtplib.Interface.{Interface, Datagram}
use mprtplib.Rtcp.{RrPacket}
use mprtplib.Rtcp.Build.{ReceiverReport, make_rr_packet, subflows_rr_packet}
use mprtplib.Subflow.{Subflow}
use mprtplib.World.{World, take_time}
use mprtplib.Session.{process_rtcp_packet}
use mprtplib.Session.Blocks.{each}
use mprtplib.Session.Reports.{rr_of}
use mprtplib.Sender.{Sender}
use mprtplib.Sender.Cycle.{report_to, on_rtcp_rr_packet, sender_handlers}
use mprtplib.Sender.Sending.{arriving}
use mprtplib.Source
use mprtplib.Source.{Source, find_subflow}
use mprtplib.Source.Ranges.{FitsSource}
use mprtplib.Source.Exchange.{ReportsOn, total_of, poll-process_rtcp_packet}
use mprtplib.Sender.Reported.{report_to-same, report_to-other}

module _ {W : Type 0} where
  -- The last of the reports on the subflow `id`, or `before` if there is none.
  abbrev pub latest :
      (id : ℕ) (from : Endpoint) (recvtime : W)
      → Option (RrPacket W)
      → List (ℕ × ReceiverReport)
      → Option (RrPacket W)
  latest id from recvtime before [] = before
  latest id from recvtime before ((i, rr) ∷ rest) =
      latest id from recvtime (if i == id then some (rr_of from recvtime rr) else before) rest

module _ {W : Type 0} ⦃d : Double W⦄ where
  -- One report: the subflow `id` gets it if it is its own, and is as it was if not.
  on_rtcp_rr_packet-last :
      (pkt : RrPacket W) (i ssrc id : ℕ) (iface : Interface W) (s : Sender W) (sf : Subflow W)
      → id ≢ 0
      → find_subflow id s.subflows ≡ some sf
      → (s' : Sender W) × (sf' : Subflow W) × (on_rtcp_rr_packet pkt i ssrc iface s ≡ ok s')
        × (find_subflow id s'.subflows ≡ some sf')
        × (sf'.last_receiver_report ≡ (if i == id then some pkt else sf.last_receiver_report))
  unfolding on_rtcp_rr_packet
  on_rtcp_rr_packet-last pkt i ssrc id iface s sf nonzero e =
      let now1 = (take_time s.world).0 in
      let now2 = (take_time (take_time s.world).1).0 in
      let (found, calls, sfs) = report_to i pkt now1 now2 s.subflows in
      let reported = record s {
        subflows = sfs;
        recalc_distribution = true;
        world = record (s.world) { times_taken = s.world.times_taken + calls };
      } in
      let named = not (i == 0) && found in
      elim (Bool-cases (i == id)) [
        | inl own ↦
            let same = (==_iff i id).0 own in
            let (hit, sf', read, last) =
              report_to-same i pkt now1 now2 s.subflows sf
                (ap (λ n. find_subflow n s.subflows) same ∙ e) in
            let there = ap (λ n. find_subflow n sfs) (sym same) ∙ read in
            let hits : named ≡ true = rw (ne→== i 0 (λ z. nonzero (sym same ∙ z)), hit) refl in
            (
              if named then reported else s,
              sf',
              refl,
              ap (λ (b : Bool). find_subflow id (if b then reported else s).subflows) hits ∙ there,
              last ∙ sym (ap (λ (b : Bool). if b then some pkt else sf.last_receiver_report) own),
            )
        | inr alien ↦
            let n : id ≢ i = λ h. let t = (==_iff i id).1 (sym h) in cc in
            let there = report_to-other i pkt now1 now2 id s.subflows n ∙ e in
            (
              if named then reported else s,
              sf,
              refl,
              if_both (λ t. find_subflow id t.subflows ≡ some sf) named reported s there e,
              sym (ap (λ (b : Bool). if b then some pkt else sf.last_receiver_report) alien),
            )
      ]

  -- Reports that come one after the other.
  each-latest :
      (rs : List (ℕ × ReceiverReport)) (ssrc id : ℕ) (from : Endpoint) (recvtime : W)
      (iface : Interface W) (s : Sender W) (sf : Subflow W)
      → id ≢ 0
      → find_subflow id s.subflows ≡ some sf
      → (s' : Sender W) × (sf' : Subflow W) × (each
            (λ r s1. on_rtcp_rr_packet (rr_of from recvtime r.1) r.0 ssrc iface s1)
            rs
            s
          ≡ ok s')
        × (find_subflow id s'.subflows ≡ some sf')
        × (sf'.last_receiver_report ≡ latest id from recvtime sf.last_receiver_report rs)
  each-latest [] ssrc id from recvtime iface s sf nonzero e = (s, sf, refl, e, refl)
  each-latest ((i, rr) ∷ rest) ssrc id from recvtime iface s sf nonzero e =
      let pkt = rr_of from recvtime rr in
      let (s1, sf1, ran, read, last) = on_rtcp_rr_packet-last pkt i ssrc id iface s sf nonzero e in
      let (s', sf', rans, read', last') =
        each-latest rest ssrc id from recvtime iface s1 sf1 nonzero read in
      (
        s',
        sf',
        ap
              (λ r. r >>= λ s2.
                each (λ x s3. on_rtcp_rr_packet (rr_of from recvtime x.1) x.0 ssrc iface s3) rest
                  s2)
              ran
            ∙ rans,
        read',
        last' ∙ ap (λ o. latest id from recvtime o rest) last,
      )

  -- The report of a receiver comes back to the sender: a source that is to report and has 1 to 1820
  -- subflows sends one datagram, whose bytes are the report on the source and, in order, one report on
  -- each of its subflows, of the subflow's own statistics. The sender's session that gets it returns,
  -- and each subflow of the sender with a number other than 0 then has as its last report the last of
  -- these reports on its number, or the one that it had if there is none. The numbers of the source,
  -- and the conversions, are in the ranges of their types.
  pub poll-last_receiver_report :
      ((x : W) → d.to_uint8 x < 256)
      → ((x : W) → d.to_uint32 x < 2 ^ 32)
      → (iface : Interface W) (from : Endpoint) (recvtime : W) (src : Source W) (w : World W)
        (s : Sender W) (id : ℕ) (sf : Subflow W)
      → src.send_rr ≡ true
      → 0 < length src.subflows
      → length src.subflows ≤ 1820
      → FitsSource src
      → id ≢ 0
      → find_subflow id s.subflows ≡ some sf
      → (src' : Source W) × (w' : World W) × (out : Datagram) × (rs : List (ℕ × ReceiverReport))
        × (s' : Sender W) × (sf' : Subflow W) × (Source.poll src w ≡ ok (src', w'))
        × (w'.sent ≡ out ∷ w.sent)
        × ReportsOn src.ssrc src.last_sender_report rs src.subflows
        × (out.bytes
            ≡ make_rr_packet src.sender_ssrc (total_of src (take_time w).1)
              ++ subflows_rr_packet src.sender_ssrc src.ssrc rs)
        × (process_rtcp_packet sender_handlers (arriving from recvtime true out.bytes) iface s
            ≡ ok s')
        × (find_subflow id s'.subflows ≡ some sf')
        × (sf'.last_receiver_report ≡ latest id from recvtime sf.last_receiver_report rs)
  unfolding sender_handlers
  poll-last_receiver_report range8 range32 iface from recvtime src w s id sf due some_subflow few
        fits nonzero e =
      let (src', w', out, rs, ran, _, left, _, reports, bytes, handled) =
        poll-process_rtcp_packet range8 range32 sender_handlers iface from recvtime s src w due
          some_subflow few fits in
      let (s', sf', rans, read, last) =
        each-latest rs src.sender_ssrc id from recvtime iface s sf nonzero e in
      (
        src',
        w',
        out,
        rs,
        s',
        sf',
        ran,
        left,
        reports,
        bytes,
        handled ∙ unfold on_rtcp_rr_packet in rans,
        read,
        last,
      )
