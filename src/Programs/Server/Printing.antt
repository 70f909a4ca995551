-- ===== src/Programs/Server/Printing.antt =====
-- What examples/server.cpp prints of its queue.
use mprtplib.Prelude.{
  ℕ, zero, suc, ◌+◌, ◌%◌, ◌^◌, ◌<◌, ◌≤◌, ◌≡◌, refl, ap, ◌∙◌, arith, some, List, [], ◌∷◌, length,
  length-drop, drop, take, map, All, get_elem?, get_elem?-in,
}
use mprtplib.Prelude.Result.{ok}
use mprtplib.Bytes.{Memory, u8_at}
use mprtplib.Packet.{RawPacket, RtpPacket}
use mprtplib.Interface.{Interface}
use mprtplib.Session.Poll.{Session, fetch_packet}
use mprtplib.Programs.Server.{Line, read_bytes, payload_data, print_packet, drain}

take-drop :
    (n : ℕ) (xs : Memory) (i b : ℕ)
    → get_elem? xs i ≡ some b
    → b ∷ take n (drop (suc i) xs) ≡ take (suc n) (drop i xs)
take-drop n [] i b e = cc
take-drop n (x ∷ xs) zero b e = let same : some x ≡ some b = e in cc
take-drop n (x ∷ xs) (suc i) b e = take-drop n xs i b e

-- The bytes are read in order.
read_bytes-take :
    (n i : ℕ) (buffer : Memory)
    → i + n ≤ length buffer
    → read_bytes n i buffer ≡ ok (take n (drop i buffer))
unfolding read_bytes u8_at
read_bytes-take zero i buffer h = refl
read_bytes-take (suc n) i buffer h =
    let (b, at) = get_elem?-in buffer i (omega arith) in
    rw (at, read_bytes-take n (i + 1) buffer (omega arith))
      (let next : i + 1 ≡ suc i = omega arith in
        ap (λ j. ok (b ∷ take n (drop j buffer))) next ∙ ap ok (take-drop n buffer i b at))

module _ {W : Type 0} where
  -- The payload of a packet lies in its datagram.
  pub record IsPrintable (pkt : RtpPacket W) : Type 0 where
    pub raw : RawPacket W
    pub start : ℕ
    pub has_raw : pkt.rawpack ≡ some raw
    pub has_payload : pkt.payload ≡ some start
    pub ends : start + pkt.payloadlength ≤ length raw.bytes

  -- The payload, with its length on 32 bits.
  abbrev pub line_of : RtpPacket W → Line
  line_of pkt = (pkt.payloadlength % 2 ^ 32, take (pkt.payloadlength % 2 ^ 32) (payload_data pkt))

  pub print_packet-line_of :
      (pkt : RtpPacket W) → IsPrintable pkt → print_packet pkt ≡ ok (line_of pkt)
  unfolding print_packet payload_data
  print_packet-line_of pkt h =
      rw
        (
          h.has_raw,
          h.has_payload,
          read_bytes-take (pkt.payloadlength % 2 ^ 32) 0 (drop h.start h.raw.bytes)
              (omega (arith, length-drop h.start h.raw.bytes, h.ends)),
        )
        refl

  drain-line_of :
      {S : Type 0} (ifaces : List (Interface W)) (pkts : List (RtpPacket W)) (object : S) (fuel : ℕ)
      → All IsPrintable pkts
      → length pkts < fuel
      → drain fuel (record { interfaces = ifaces; packets = pkts; object = object })
        ≡ ok (map line_of pkts, record { interfaces = ifaces; packets = []; object = object })
  unfolding drain fetch_packet
  drain-line_of ifaces pkts object zero all f = absurd (omega arith)
  drain-line_of ifaces [] object (suc fuel) all f = refl
  drain-line_of ifaces (pkt ∷ rest) object (suc fuel) (h, all) f =
      rw (print_packet-line_of pkt h, drain-line_of ifaces rest object fuel all (omega arith)) refl

  -- The inner loop prints the packets of the queue in order, the payload of each, and leaves the queue
  -- empty; one more call of `fetch_packet` than there are packets is enough.
  pub drain-payloads :
      {S : Type 0} (s : Session W S)
      → All IsPrintable s.packets
      → drain (length s.packets + 1) s ≡ ok (map line_of s.packets, record s { packets = [] })
  drain-payloads s all = drain-line_of s.interfaces s.packets s.object _ all (omega arith)
