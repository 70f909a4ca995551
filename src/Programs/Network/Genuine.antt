-- ===== src/Programs/Network/Genuine.antt =====
-- The datagrams of examples/client.cpp, and what the receiver of examples/server.cpp makes of them.
use mathlib.Core.List.{Memᴰ}
use mprtplib.Prelude.{
  map, List, ℕ, ◌≡◌, ◌≢◌, ap, sym, ◌∙◌, ◌<◌, ◌^◌, ◌⊎◌, inl, inr, true, false, some, drop, length,
  subst, Bool-cases,
}
use mprtplib.Prelude.Int.{pos}
use mprtplib.Prelude.Result.{ok, Holds, Holds-any, Holds-weaken}
use mprtplib.Address.{Text}
use mprtplib.Bytes.{Memory}
use mprtplib.Double.{Double}
use mprtplib.Interface.{Interface}
use mprtplib.Struct.{reads}
use mprtplib.Packet.{RawPacket, RtpPacket, rtp_packet, parse_raw}
use mprtplib.Packet.Build.{data_packet}
use mprtplib.Packet.RoundTrip.{rtp_packet-data_packet}
use mprtplib.Session.{process_rtcp_packet}
use mprtplib.Session.Traffic.{HandlersCarry}
use mprtplib.Sender.Outbox.{IsReport, rtp_packet-report_of}
use mprtplib.Sender.Lists.{Route}
use mprtplib.Programs.Client.{client_ssrc}
use mprtplib.Receiver.{Receiver, on_rtp_packet, receiver_handlers}
use mprtplib.Programs.Server.Printing.{IsPrintable, line_of}
use mprtplib.Programs.Server.Queue.{
  located, located-IsPrintable, rtp_packet-IsPrintable, on_rtp_packet-Holds,
}
use mprtplib.Programs.Delivery.{whole, located-line_of}

-- A data packet with a line of which `Typed` holds.
pub record IsData (ids : List ℕ) (Typed : Text → Type 0) (bytes : Memory) : Type 0 where
  pub line : Text
  pub seq : ℕ
  pub ts : ℕ
  pub ssrc : ℕ
  pub id : ℕ
  pub sseq : ℕ
  pub is_typed : Typed line
  pub is_routed : Memᴰ id ids
  pub short : length line < 2 ^ 31
  pub same_bytes : bytes ≡ data_packet seq ts ssrc id sseq line
  pub seq_fits : seq < 2 ^ 16
  pub ts_fits : ts < 2 ^ 32
  pub ssrc_fits : ssrc < 2 ^ 32
  pub id_fits : id < 2 ^ 16
  pub sseq_fits : sseq < 2 ^ 16

-- The numbers of the subflows that lead along the routes.
abbrev pub ids_of : {W : Type 0} → List (Route W) → List ℕ
ids_of routes = map (λ r. r.0) routes

-- What a client with these routes hands to the system: data packets with typed lines, and reports.
abbrev pub Genuine :
    {W : Type 0} ⦃d : Double W⦄ → List (Route W) → (Text → Type 0) → Memory → Type 0
Genuine ⦃d = d⦄ routes Typed bytes =
    IsData (ids_of routes) Typed bytes ⊎ IsReport ⦃d = d⦄ routes client_ssrc bytes

-- The server prints of the packet a line of which `Typed` holds.
pub record Prints {W : Type 0} (Typed : Text → Type 0) (pkt : RtpPacket W) : Type 0 where
  pub printable : IsPrintable pkt
  pub line : Text
  pub is_typed : Typed line
  pub same_line : line_of pkt ≡ whole line

module _ {W : Type 0} where
  not_rtcp :
      (raw : RawPacket W) → raw.is_rtcp ≡ true → Holds (λ pkt. pkt.error ≢ pos 0) (rtp_packet raw)
  unfolding rtp_packet parse_raw
  not_rtcp raw rtcp = rw rtcp (λ e. cc)

  data_packet-line :
      (raw : RawPacket W) (seq ts ssrc id sseq : ℕ) (line : Text)
      → raw.bytes ≡ data_packet seq ts ssrc id sseq line
      → drop 24 raw.bytes ≡ line
  unfolding data_packet reads
  data_packet-line raw seq ts ssrc id sseq line e = ap (drop 24) e

same_packet : {A : Type 0} {p q : A} → ok p ≡ ok q → q ≡ p
same_packet e = cc

module _ {W : Type 0} ⦃d : Double W⦄ (routes : List (Route W)) (Typed : Text → Type 0) where
  data-located :
      (raw : RawPacket W) (pkt : RtpPacket W) (h : IsData (ids_of routes) Typed raw.bytes)
      → raw.is_rtcp ≡ false
      → rtp_packet raw ≡ ok pkt
      → located pkt ≡ (some raw, some 24, length h.line)
  data-located raw pkt h rtp parsed =
      let read =
        rtp_packet-data_packet raw h.seq h.ts h.ssrc h.id h.sseq h.line rtp h.same_bytes h.seq_fits
          h.ts_fits h.ssrc_fits h.id_fits h.sseq_fits in
      ap located (same_packet (sym read ∙ parsed))

  -- What the receiver queues of the client's datagrams is printed as a typed line.
  on_rtp_packet-Prints :
      (raw : RawPacket W) (pkt : RtpPacket W) (iface : Interface W) (r : Receiver W)
      → Genuine routes Typed raw.bytes
      → rtp_packet raw ≡ ok pkt
      → pkt.error ≡ pos 0
      → Holds (λ res. Prints Typed res.1) (on_rtp_packet pkt iface r)
  on_rtp_packet-Prints raw pkt iface r (inr (s, sound, e)) parsed good =
      absurd (subst (Holds (λ p. p.error ≢ pos 0)) parsed (rtp_packet-report_of raw s e) good)
  on_rtp_packet-Prints raw pkt iface r (inl h) parsed good = elim (Bool-cases raw.is_rtcp) [
    | inl rtcp ↦ absurd (subst (Holds (λ p. p.error ≢ pos 0)) parsed (not_rtcp raw rtcp) good)
    | inr rtp ↦
        Holds-weaken (λ res. located res.1 ≡ located pkt) (λ res. Prints Typed res.1)
          (on_rtp_packet pkt iface r) (on_rtp_packet-Holds pkt iface r)
          λ res same. record {
            printable =
                located-IsPrintable pkt res.1 same (rtp_packet-IsPrintable raw pkt parsed good);
            line = h.line;
            is_typed = h.is_typed;
            same_line =
                located-line_of res.1 raw h.line (same ∙ data-located raw pkt h rtp parsed)
                  (data_packet-line raw h.seq h.ts h.ssrc h.id h.sseq h.line h.same_bytes) h.short;
          }
  ]

  pub receiver_handlers-Prints :
      HandlersCarry {W = W} receiver_handlers
        (λ raw. Genuine routes Typed raw.bytes)
        (Prints Typed)
        (λ r. Unit {0})
  unfolding receiver_handlers
  receiver_handlers-Prints = record {
    rtcp_carries = λ raw i s r p. Holds-any (process_rtcp_packet receiver_handlers raw i s);
    rtp_carries = λ raw pkt i s r parsed good p.
        Holds-weaken (λ res. Prints Typed res.1) _ (on_rtp_packet pkt i s)
          (on_rtp_packet-Prints raw pkt i s r parsed good) λ res h. (h, tt);
  }
