-- ===== src/Programs/Network/Datagrams.antt =====
-- What a session of examples/server.cpp makes of the datagrams of examples/client.cpp comes to an end.
use mathlib.Core.List.{Memᴰ}
use mathlib.Core.List.Memᴰ
use mprtplib.Prelude.{
  ℕ, ◌^◌, ◌<◌, ◌≤◌, ◌≡◌, ◌≢◌, refl, ap, sym, ◌∙◌, arith, Bool, true, false, inl, inr, List, [], ◌∷◌,
  All, map, length, subst,
}
use mprtplib.Prelude.Result.{Ends, Ends->>=}
use mprtplib.Address.{Text}
use mprtplib.Bytes.{Memory}
use mprtplib.Double.{Double}
use mprtplib.Interface.{Interface}
use mprtplib.Packet.{RawPacket, RtpPacket}
use mprtplib.Packet.Build.{data_packet}
use mprtplib.Packet.RoundTrip.{received, rtp_packet-data_packet}
use mprtplib.Rtcp.Build.{Counts, make_sender_report, sender_report_packet}
use mprtplib.Subflow.{Subflow}
use mprtplib.Session.{process_rtcp_packet, process_rtp_packet, accept_rtp_packet}
use mprtplib.Session.Reports.{FitsCounts, sr_of}
use mprtplib.Session.SenderReports.{process_rtcp_packet-sender_report_packet}
use mprtplib.Session.Traffic.Returns.{PacketsEnd}
use mprtplib.Sender.{Sender}
use mprtplib.Sender.Cycle.{counts_of, report_of}
use mprtplib.Sender.Lists.{Route, route, IsSoundSubflow, length-map-route}
use mprtplib.Sender.Steady.{IsSound}
use mprtplib.Sender.Reporting.{stamp_of, total_of, stamp_of-FitsStamp, length-counts_of}
use mprtplib.Receiver.{Receiver, receiver_handlers}
use mprtplib.Receiver.Returns.{IsServing, on_rtp_packet-IsServing, reports-IsServing}
use mprtplib.Programs.Client.{client_ssrc}
use mprtplib.Programs.Network.{is_report}
use mprtplib.Programs.Network.Genuine.{IsData, ids_of, Genuine}

-- A number that a subflow may have, where there are fewer than `n`.
abbrev pub IsNumber : ℕ → ℕ → Type 0
IsNumber n id = (id < n) × (id ≢ 0)

ids-IsNumber : (n : ℕ) (ids : List ℕ) (id : ℕ) → All (IsNumber n) ids → Memᴰ id ids → IsNumber n id
ids-IsNumber n [] id all m = absurd (Memᴰ.not-nil m)
ids-IsNumber n (x ∷ rest) id all (Memᴰ.head e) = rw e all.0
ids-IsNumber n (x ∷ rest) id all (Memᴰ.tail m) = ids-IsNumber n rest id all.1 m

never : {b : Bool} → b ≡ true → b ≡ false → ⊥
never e f = cc

data_packet-is_report :
    (bytes : Memory) (seq ts ssrc id sseq : ℕ) (line : Text)
    → bytes ≡ data_packet seq ts ssrc id sseq line
    → is_report bytes ≡ false
unfolding data_packet
data_packet-is_report bytes seq ts ssrc id sseq line e = rw e refl

module _ {W : Type 0} ⦃d : Double W⦄ where
  report_of-is_report :
      (bytes : Memory) (s : Sender W) → bytes ≡ report_of s → is_report bytes ≡ true
  unfolding report_of sender_report_packet make_sender_report
  report_of-is_report bytes s e = rw e refl

  counts-fit :
      (sfs : List (Subflow W)) → All IsSoundSubflow sfs → All FitsCounts (map counts_of sfs)
  counts-fit [] all = tt
  counts-fit (sf ∷ rest) all = (
    record {
      id_fits = (all.0).id_fits;
      packets_fit = (all.0).packets_fit;
      octets_fit = (all.0).octets_fit;
    },
    counts-fit rest all.1,
  )

  counts-numbers :
      (n : ℕ) (sfs : List (Subflow W))
      → All (IsNumber n) (ids_of (map route sfs))
      → All (λ c. IsNumber n c.subflow_id) (map counts_of sfs)
  counts-numbers n [] all = tt
  counts-numbers n (sf ∷ rest) all = (all.0, counts-numbers n rest all.1)

  counts-some : (sfs : List (Subflow W)) → map route sfs ≢ [] → map counts_of sfs ≢ []
  counts-some [] h = absurd (h refl)
  counts-some (sf ∷ rest) h = λ e. cc

-- A datagram of the client, on the kind of socket that it was sent to.
abbrev pub Proper : {W : Type 0} ⦃d : Double W⦄ → List (Route W) → RawPacket W → Type 0
Proper ⦃d = d⦄ routes raw =
    Genuine ⦃d = d⦄ routes (λ line. Unit {0}) raw.bytes × (raw.is_rtcp ≡ is_report raw.bytes)

module _ {W : Type 0} ⦃d : Double W⦄ (range32 : (x : W) → d.to_uint32 x < 2 ^ 32) (n : ℕ)
    (routes : List (Route W)) (some_route : routes ≢ []) (few : length routes ≤ 2046)
    (numbers : All (IsNumber n) (ids_of routes)) where
  some_number : 0 < n
  some_number = first routes some_route numbers
    where
      first : (rs : List (Route W)) → rs ≢ [] → All (IsNumber n) (ids_of rs) → 0 < n
      first [] h all = absurd (h refl)
      first (r ∷ rest) h all = omega (arith, (all.0).0)

  report-Ends :
      (raw : RawPacket W) (iface : Interface W) (r : Receiver W) (s : Sender W)
      → IsSound routes client_ssrc s
      → raw.bytes ≡ report_of s
      → IsServing n r
      → Ends (IsServing n) (process_rtcp_packet receiver_handlers raw iface r)
  unfolding report_of receiver_handlers
  report-Ends raw iface r s sound e serving =
      let total : Counts = total_of s in
      let cs = map counts_of s.subflows in
      let same : length s.subflows ≡ length routes =
        sym (length-map-route s.subflows) ∙ ap length sound.same_routes in
      let handled =
        process_rtcp_packet-sender_report_packet receiver_handlers iface raw s.ssrc (stamp_of s)
          total cs r e (omega (arith, sound.same_ssrc))
          (stamp_of-FitsStamp s range32 sound.timestamp_fits)
          (record {
            id_fits = omega arith;
            packets_fit = rw sound.packets_add_up (omega arith);
            octets_fit = rw sound.octets_add_up (omega arith);
          })
          (counts-fit s.subflows sound.subflows_sound)
          (omega (arith, length-counts_of s.subflows, same)) in
      rw handled (
        reports-IsServing n iface (sr_of raw.from_address raw.recvtime s.ssrc (stamp_of s) total)
          (λ c. sr_of raw.from_address raw.recvtime s.ssrc (stamp_of s) c) (λ c. c.subflow_id) cs r
          (λ c. refl)
          (counts-numbers n s.subflows
            (subst (λ rs. All (IsNumber n) (ids_of rs)) (sym sound.same_routes) numbers))
          (counts-some s.subflows (λ none. some_route (sym sound.same_routes ∙ none))) some_number
          serving)

  data-Ends :
      (raw : RawPacket W) (iface : Interface W) (r : Receiver W) (queue : List (RtpPacket W))
      → raw.is_rtcp ≡ false
      → IsData (ids_of routes) (λ line. Unit {0}) raw.bytes
      → IsServing n r
      → Ends (λ x. IsServing n x.0) (process_rtp_packet receiver_handlers raw iface r queue)
  unfolding process_rtp_packet accept_rtp_packet receiver_handlers
  data-Ends raw iface r queue rtp h serving =
      let read =
        rtp_packet-data_packet raw h.seq h.ts h.ssrc h.id h.sseq h.line rtp h.same_bytes h.seq_fits
          h.ts_fits h.ssrc_fits h.id_fits h.sseq_fits in
      let pkt = received raw h.seq h.ts h.ssrc h.id h.sseq h.line in
      let number = ids-IsNumber n (ids_of routes) h.id numbers h.is_routed in
      rw read (
        Ends->>= (λ res. IsServing n res.2) (λ x. IsServing n x.0)
          (receiver_handlers.on_rtp_packet pkt iface r) _
          (on_rtp_packet-IsServing n pkt raw iface r number.0 serving) λ res s. s)

  pub receiver_handlers-PacketsEnd : PacketsEnd receiver_handlers (Proper routes) (IsServing n)
  receiver_handlers-PacketsEnd = record {
    rtcp_ends = λ raw iface r rtcp (genuine, direct) serving. elim genuine [
      | inl h ↦ absurd (
          never (sym direct ∙ rtcp)
            (data_packet-is_report raw.bytes h.seq h.ts h.ssrc h.id h.sseq h.line h.same_bytes))
      | inr (s, sound, e) ↦ report-Ends raw iface r s sound e serving
    ];
    rtp_ends = λ raw iface r queue rtp (genuine, direct) serving. elim genuine [
      | inl h ↦ data-Ends raw iface r queue rtp h serving
      | inr (s, sound, e) ↦ absurd (never (report_of-is_report raw.bytes s e) (sym direct ∙ rtp))
    ];
  }
