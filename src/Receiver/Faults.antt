-- ===== src/Receiver/Faults.antt =====
-- A sender report of an SSRC that src/mprtp_receiver.cpp does not know, and the poll behind it.
use mprtplib.Prelude.{
  ℕ, ◌<◌, ◌^◌, ◌≡◌, ◌≢◌, refl, ap, ◌∙◌, arith, true, none, some, inl, inr, List, [], ◌∷◌, ◌==◌, ltb,
  Bool-cases,
}
use mprtplib.Prelude.Result.{ok, fault, stuck, ◌>>=◌, Result-cases}
use mprtplib.Double.{Double}
use mprtplib.Interface.{Interface}
use mprtplib.Packet.{RawPacket}
use mprtplib.Rtcp.{SrPacket}
use mprtplib.Rtcp.Build.{Counts, Stamp, sender_report_packet}
use mprtplib.World.{World}
use mprtplib.Session.{process_rtcp_packet}
use mprtplib.Session.Reports.{FitsStamp, FitsCounts, sr_of}
use mprtplib.Session.SenderReports.{process_rtcp_packet-sender_report_packet}
use mprtplib.Source
use mprtplib.Source.{Source, new_source, send_report, create_report, select_front}
use mprtplib.Source.Reports.{poll_no_subflows}
use mprtplib.Receiver.{
  Receiver, find_source, put_source, get_source, on_rtcp_sr_packet, receiver_handlers, poll_sources,
}

module _ {W : Type 0} ⦃d : Double W⦄ where
  poll-ne-stuck : (src : Source W) (w : World W) → Source.poll src w ≢ stuck
  unfolding Source.poll send_report create_report select_front
  poll-ne-stuck src w = ground arith

  -- The poll of one source is that of the receiver: one that faults, wherever it stands in the map.
  poll_sources-put_source :
      (k : ℕ) (src : Source W) (m : List (ℕ × Source W)) (w : World W)
      → ((w' : World W) → Source.poll src w' ≡ fault)
      → poll_sources (put_source k src m) w ≡ fault
  unfolding poll_sources put_source
  poll_sources-put_source k src [] w bad = rw (bad w) refl
  poll_sources-put_source k src ((key, old) ∷ rest) w bad = elim (Bool-cases (key == k)) [
    | inl same ↦ rw (same, bad w) refl
    | inr other ↦ elim (Bool-cases (ltb k key)) [
      | inl before ↦ rw (other, before, bad w) refl
      | inr behind ↦ elim (Result-cases (Source.poll old w)) [
        | inl ((old', w1), polled) ↦
            rw (other, behind, poll_sources, polled, poll_sources-put_source k src rest w1 bad) refl
        | inr (inl faulty) ↦ rw (other, behind, poll_sources, faulty) refl
        | inr (inr hung) ↦ absurd (poll-ne-stuck old w hung)
      ]
    ]
  ]

  get_source-unknown :
      (ssrc : ℕ) (r : Receiver W)
      → find_source ssrc r.sources ≡ none
      → (get_source ssrc r).subflows ≡ []
  unfolding get_source new_source
  get_source-unknown ssrc r unknown = rw (unknown, get_source) refl

  -- The report makes the source, which is to report itself, and no subflow.
  on_rtcp_sr_packet-unknown :
      (pkt : SrPacket W) (iface : Interface W) (r : Receiver W)
      → find_source pkt.sender_ssrc r.sources ≡ none
      → (src : Source W) × (on_rtcp_sr_packet pkt 0 iface r
          ≡ ok (record r { sources = put_source pkt.sender_ssrc src r.sources }))
        × (src.send_rr ≡ true)
        × (src.subflows ≡ [])
  unfolding on_rtcp_sr_packet Source.process_sr_packet
  on_rtcp_sr_packet-unknown pkt iface r unknown =
      let src = get_source pkt.sender_ssrc r in
      (
        record src { last_sender_report = some pkt; send_rr = true },
        refl,
        refl,
        get_source-unknown pkt.sender_ssrc r unknown,
      )

  -- A receiver takes a sender report of an SSRC that it does not know, in a packet that reports on no
  -- subflow: the session handles the datagram without a fault. The poll of the sources behind it takes
  -- the front of the empty vector of subflows, whatever the other sources are.
  pub process_rtcp_packet-poll_sources :
      (iface : Interface W) (raw : RawPacket W) (ssrc : ℕ) (t : Stamp) (total : Counts)
      (r : Receiver W)
      → raw.bytes ≡ sender_report_packet ssrc t total []
      → ssrc < 2 ^ 32
      → FitsStamp t
      → FitsCounts total
      → find_source ssrc r.sources ≡ none
      → (r' : Receiver W) × (process_rtcp_packet receiver_handlers raw iface r ≡ ok r')
        × (poll_sources r'.sources r'.world ≡ fault)
  unfolding receiver_handlers
  process_rtcp_packet-poll_sources iface raw ssrc t total r e ssrc_fits stamp_fits counts_fit
        unknown =
      let handled =
        process_rtcp_packet-sender_report_packet receiver_handlers iface raw ssrc t total [] r e
          ssrc_fits stamp_fits counts_fit tt (omega arith) in
      let (src, made, due, none_yet) =
        on_rtcp_sr_packet-unknown (sr_of raw.from_address raw.recvtime ssrc t total) iface r
          unknown in
      (
        record r { sources = put_source ssrc src r.sources },
        handled ∙ ap (λ m. m >>= λ s'. ok s') made,
        poll_sources-put_source ssrc src r.sources r.world
            (λ w. poll_no_subflows src w due none_yet),
      )
