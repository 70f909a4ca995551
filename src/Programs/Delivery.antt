-- ===== src/Programs/Delivery.antt =====
-- From the input of examples/client.cpp to the output of examples/server.cpp.
use mprtplib.Prelude.{
  subst, ℕ, ◌%◌, ◌^◌, ◌<◌, ◌≡◌, refl, ap, ◌∙◌, arith, true, false, some, List, [], ◌∷◌, ◌++◌,
  length, take, drop,
}
use mprtplib.Prelude.Result.{ok, ◌>>=◌}
use mprtplib.Address.{Text, Endpoint}
use mprtplib.Double.{Double}
use mprtplib.World.{World}
use mprtplib.Interface.{Interface, Datagram}
use mprtplib.Packet.{RawPacket, RtpPacket, rtp_packet}
use mprtplib.Packet.Bounds.{rtp_packet-IsInside}
use mprtplib.Packet.RoundTrip.{received}
use mprtplib.Source.Packets.{from_raw}
use mprtplib.Receiver.Sources.{stored}
use mprtplib.Session.{process_rtp_packet, accept_rtp_packet}
use mprtplib.Sender.{Sender}
use mprtplib.Sender.Sending.{arriving}
use mprtplib.Receiver.{Receiver, get_source, on_rtp_packet, receiver_handlers}
use mprtplib.Programs.{Opening}
use mprtplib.Programs.Client.{ClientSettings, client_ssrc, start_client}
use mprtplib.Programs.Client.Threads.{Client, sending, sent, threads_of, Step, Reach}
use mprtplib.Programs.Client.Threads.Laws.{IsShort, Reach-IsRunning, sending-received}
use mprtplib.Programs.Server.{Line, print_packet, payload_data}
use mprtplib.Programs.Server.Printing.{IsPrintable, line_of, print_packet-line_of}
use mprtplib.Programs.Server.Queue.{located, source-returns}

take-all : (xs : List ℕ) → take (length xs) xs ≡ xs
take-all [] = refl
take-all (x ∷ xs) = ap (λ ys. x ∷ ys) (take-all xs)

whole_line :
    (n : ℕ) (found line : List ℕ)
    → n ≡ length line
    → found ≡ line
    → length line < 2 ^ 31
    → ◌≡◌ {A = Line} (n % 2 ^ 32, take (n % 2 ^ 32) found) (length line, line)
whole_line n found line e f short =
    let len : n % 2 ^ 32 ≡ length line = omega arith in
    rw (len, f) (ap (λ xs. (length line, xs)) (take-all line))

-- A line as the server prints it: its length, and its bytes.
abbrev pub whole : Text → Line
whole line = (length line, line)

module _ {W : Type 0} where
  payload_data-at :
      (pkt : RtpPacket W) (raw : RawPacket W) (at : ℕ)
      → pkt.rawpack ≡ some raw
      → pkt.payload ≡ some at
      → payload_data pkt ≡ drop at raw.bytes
  unfolding payload_data
  payload_data-at pkt raw at e f = rw (e, f) refl

  -- A packet that has its payload where the data packet has it.
  pub located-line_of :
      (pkt : RtpPacket W) (raw : RawPacket W) (line : Text)
      → located pkt ≡ (some raw, some 24, length line)
      → drop 24 raw.bytes ≡ line
      → length line < 2 ^ 31
      → line_of pkt ≡ whole line
  located-line_of pkt raw line here content short =
      whole_line pkt.payloadlength (payload_data pkt) line (ap (λ l. l.2) here)
        (payload_data-at pkt raw 24 (ap (λ l. l.0) here) (ap (λ l. l.1) here) ∙ content) short

module _ {W : Type 0} ⦃d : Double W⦄ where
  -- The receiver queues a packet with a datagram, with its payload where it was.
  on_rtp_packet-located :
      (pkt : RtpPacket W) (raw : RawPacket W) (iface : Interface W) (r : Receiver W)
      → (pkt' : RtpPacket W) × (r' : Receiver W) × (on_rtp_packet (from_raw raw pkt) iface r
          ≡ ok (true, pkt', r'))
        × (located pkt' ≡ located (from_raw raw pkt))
  unfolding on_rtp_packet
  on_rtp_packet-located pkt raw iface r =
      let (src, pkt', w, ran, same) =
        source-returns (get_source pkt.ssrc r) pkt raw r.timestamp_unit iface r.world in
      (pkt', _, ap (λ p. p >>= stored r pkt.ssrc) ran, same)

  received-printed :
      (raw : RawPacket W) (iface : Interface W) (r : Receiver W) (queue : List (RtpPacket W))
      (seq ts ssrc id sseq : ℕ) (line : Text)
      → rtp_packet raw ≡ ok (received raw seq ts ssrc id sseq line)
      → drop 24 raw.bytes ≡ line
      → length line < 2 ^ 31
      → (pkt : RtpPacket W) × (r' : Receiver W) × (process_rtp_packet receiver_handlers raw iface r
            queue
          ≡ ok (r', queue ++ (pkt ∷ [])))
        × (print_packet pkt ≡ ok (length line, line))
  unfolding process_rtp_packet accept_rtp_packet receiver_handlers
  received-printed raw iface r queue seq ts ssrc id sseq line parsed content short =
      let (pkt, r', ran, same) =
        on_rtp_packet-located (received raw seq ts ssrc id sseq line) raw iface r in
      let inside = rtp_packet-IsInside raw (received raw seq ts ssrc id sseq line) parsed refl in
      let here : located pkt ≡ (some raw, some 24, length line) = same in
      let placed : IsPrintable pkt = record {
        raw = raw;
        start = 24;
        has_raw = ap (λ l. l.0) here;
        has_payload = ap (λ l. l.1) here;
        ends = rw (ap (λ l. l.2) here) inside.payload_ends;
      } in
      (
        pkt,
        r',
        rw (parsed, ran) refl,
        print_packet-line_of pkt placed ∙ ap ok (located-line_of pkt raw line here content short),
      )

  -- A line that a connected client is about to send is printed by the server: `send_data` returns, and
  -- the datagram that leaves, once it arrives on one of the server's RTP sockets, comes to the end of
  -- the queue as a packet of which the length of the line and its bytes are printed.
  pub sending-printed :
      (inet_addr : Text → ℕ) (opens : ℕ → Opening) (o : ClientSettings) (w : World W) (c : Client W)
      (line : Text) (from : Endpoint) (recvtime : W) (iface : Interface W) (r : Receiver W)
      (queue : List (RtpPacket W))
      → (start_client inet_addr opens o w).0 ≡ true
      → Reach (threads_of (start_client inet_addr opens o w).1) c
      → c.reader ≡ sending line
      → (s' : Sender W) × (out : Datagram) × (pkt : RtpPacket W) × (r' : Receiver W) × Step c
          (record c { reader = sent; cli = record (c.cli) { object = s' } })
        × (s'.world.sent ≡ out ∷ c.cli.object.world.sent)
        × (process_rtp_packet receiver_handlers
              (arriving from recvtime false out.bytes)
              iface
              r
              queue
            ≡ ok (r', queue ++ (pkt ∷ [])))
        × (print_packet pkt ≡ ok (length line, line))
  sending-printed inet_addr opens o w c line from recvtime iface r queue e reached at =
      let run = Reach-IsRunning inet_addr opens o w c e reached in
      let short = subst IsShort at run.short in
      let (k, sf, s', out, step, left, _, parsed, content) =
        sending-received inet_addr opens o w c line from recvtime e reached at in
      let raw = arriving from recvtime false out.bytes in
      let (pkt, r', queued, printed) =
        received-printed raw iface r queue c.cli.object.sequence_number s'.timestamp client_ssrc
          sf.subflow_id sf.sequence_number line parsed content short in
      (s', out, pkt, r', step, left, queued, printed)
