-- ===== src/Packet/RoundTrip.antt =====
-- The parser of src/mprtp_packet.cpp on the packets of `sender::send_data`.
use mprtplib.Prelude.{ℕ, ◌^◌, ◌<◌, ◌≡◌, true, false, some, arith, length}
use mprtplib.Prelude.Int.{pos}
use mprtplib.Prelude.Result.{ok}
use mprtplib.Bytes.{Memory}
use mprtplib.Bytes.Laws.{u16_of_htons, u32_of_htonl}
use mprtplib.Struct.{mprtp_extension_id, reads}
use mprtplib.Packet.{
  RawPacket, RtpPacket, rtp_packet, parse_raw, parse_type, parse_padding, parse_extension,
  parse_payload, parse_mprtp,
}
use mprtplib.Packet.Build.{data_packet}

module _ {W : Type 0} (raw : RawPacket W) (seq ts ssrc id sseq : ℕ) (payload : Memory) where
  -- What the receiver is to see of the packet.
  abbrev pub received : RtpPacket W
  received = record {
    rawpack = some raw;
    error = pos 0;
    has_extension = true;
    has_marker = false;
    numcsrcs = 0;
    payloadtype = 0;
    extseqnr = seq;
    subflow_extseqnr = sseq;
    subflow_id = id;
    timestamp = ts;
    ssrc = ssrc;
    payload = some 24;
    payloadlength = length payload;
    extid = mprtp_extension_id;
    extension = some 16;
    extensionlength = 8;
  }

  -- The parser accepts each data packet, and finds the numbers and the payload that were sent.
  pub rtp_packet-data_packet :
      raw.is_rtcp ≡ false
      → raw.bytes ≡ data_packet seq ts ssrc id sseq payload
      → seq < 2 ^ 16
      → ts < 2 ^ 32
      → ssrc < 2 ^ 32
      → id < 2 ^ 16
      → sseq < 2 ^ 16
      → rtp_packet raw ≡ ok received
  unfolding rtp_packet parse_raw parse_type parse_padding parse_extension parse_mprtp parse_payload
      data_packet reads
  rtp_packet-data_packet nr e hs ht hr hi hq = ground (
    arith,
    e,
    u16_of_htons seq hs,
    u32_of_htonl ts ht,
    u32_of_htonl ssrc hr,
    u16_of_htons id hi,
    u16_of_htons sseq hq,
  )
