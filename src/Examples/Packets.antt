-- ===== src/Examples/Packets.antt =====
-- Packets that are parsed.
use mprtplib.Prelude.{true, ℕ, ◌≡◌, ◌≢◌, inl, refl, arith, false, none, some, [], ◌∷◌}
use mprtplib.Prelude.Int.{pos}
use mprtplib.Prelude.Result.{ok, fault}
use mprtplib.Bytes.{Memory}
use mprtplib.Struct.{reads}
use mprtplib.Packet.{
  RawPacket, RtpPacket, rtp_packet, parse_raw, parse_type, parse_padding, parse_extension,
  parse_mprtp, parse_payload, is_mprtp_packet,
}
use mprtplib.Packet.Build.{data_packet}
use mprtplib.Packet.Bounds.{IsInside, rtp_packet-IsInside}
use mprtplib.Packet.Fields.{IsRead, rtp_packet-IsRead}
use mprtplib.Packet.Reads.{rtp_packet-ne-fault, rtp_packet_over_read}
use mprtplib.Examples.{raw_of}

abbrev payload : Memory
payload = 1 ∷ 2 ∷ []

abbrev sent_raw : RawPacket ℕ
sent_raw = raw_of (data_packet 5 100 9 1 7 payload)

-- One CSRC, and one byte of payload.
abbrev mixed : RawPacket ℕ
mixed = raw_of (0x81 ∷ 0 ∷ 0 ∷ 1 ∷ 0 ∷ 0 ∷ 0 ∷ 2 ∷ 0 ∷ 0 ∷ 0 ∷ 3 ∷ 0 ∷ 0 ∷ 0 ∷ 4 ∷ 5 ∷ [])

abbrev mixed_packet : RtpPacket ℕ
mixed_packet = record {
  rawpack = some mixed;
  error = pos 0;
  has_extension = false;
  has_marker = false;
  numcsrcs = 1;
  payloadtype = 0;
  extseqnr = 1;
  subflow_extseqnr = 0;
  subflow_id = 0;
  timestamp = 2;
  ssrc = 3;
  payload = some 16;
  payloadlength = 1;
  extid = 0;
  extension = none;
  extensionlength = 0;
}

mixed_parsed : rtp_packet mixed ≡ ok mixed_packet
unfolding rtp_packet parse_raw parse_type parse_padding parse_extension parse_mprtp parse_payload
    reads
mixed_parsed = refl

rtp_packet-IsInside_example : IsInside mixed mixed_packet
rtp_packet-IsInside_example = rtp_packet-IsInside mixed mixed_packet mixed_parsed refl

rtp_packet-ne-fault_example : rtp_packet mixed ≢ fault
rtp_packet-ne-fault_example =
    rtp_packet-ne-fault mixed 0x81 0
      (0 ∷ 1 ∷ 0 ∷ 0 ∷ 0 ∷ 2 ∷ 0 ∷ 0 ∷ 0 ∷ 3 ∷ 0 ∷ 0 ∷ 0 ∷ 4 ∷ 5 ∷ []) refl (inl refl)

-- The header extension is cut off behind its first byte.
abbrev cut : RawPacket ℕ
cut = raw_of (0x90 ∷ 0 ∷ 0 ∷ 1 ∷ 0 ∷ 0 ∷ 0 ∷ 2 ∷ 0 ∷ 0 ∷ 0 ∷ 3 ∷ 0xBE ∷ [])

rtp_packet_over_read_example : rtp_packet cut ≡ fault
rtp_packet_over_read_example =
    rtp_packet_over_read cut 0x90 0 (0 ∷ 1 ∷ 0 ∷ 0 ∷ 0 ∷ 2 ∷ 0 ∷ 0 ∷ 0 ∷ 3 ∷ 0xBE ∷ []) refl refl
      refl refl refl (omega arith) (omega arith) (omega arith)

-- One CSRC, an MPRTP extension of subflow 7, one byte of payload and two of padding.
abbrev padded : RawPacket ℕ
padded = raw_of (
    0xB1 ∷ 96 ∷ 0 ∷ 1 ∷ 0 ∷ 0 ∷ 0 ∷ 2 ∷ 0 ∷ 0 ∷ 0 ∷ 3 ∷ 0 ∷ 0 ∷ 0 ∷ 4 ∷ 0xBE ∷ 0xDE ∷ 0 ∷ 2 ∷ 0x11
    ∷ 6 ∷ 0 ∷ 7 ∷ 0 ∷ 9 ∷ 0 ∷ 0 ∷ 5 ∷ 0 ∷ 2 ∷ [])

abbrev padded_packet : RtpPacket ℕ
padded_packet = record {
  rawpack = some padded;
  error = pos 0;
  has_extension = true;
  has_marker = false;
  numcsrcs = 1;
  payloadtype = 96;
  extseqnr = 1;
  subflow_extseqnr = 9;
  subflow_id = 7;
  timestamp = 2;
  ssrc = 3;
  payload = some 28;
  payloadlength = 1;
  extid = 0xBEDE;
  extension = some 20;
  extensionlength = 8;
}

padded-parsed : rtp_packet padded ≡ ok padded_packet
unfolding rtp_packet parse_raw parse_type parse_padding parse_extension parse_mprtp parse_payload
    reads
padded-parsed = refl

rtp_packet-IsRead_example : IsRead padded padded_packet
unfolding is_mprtp_packet
rtp_packet-IsRead_example = rtp_packet-IsRead padded padded_packet padded-parsed refl refl
