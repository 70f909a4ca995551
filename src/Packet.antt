-- ===== src/Packet.antt =====
-- include/mprtp_packet.h and src/mprtp_packet.cpp: received packets and the RTP parser. `W` is the
-- type of times. Pointers into the packet are offsets from its first byte.
pub mod Fields
pub mod Build
pub mod RoundTrip
pub mod Bounds
pub mod Reads
pub mod Ranges
use mprtplib.Prelude.{
  ℕ, zero, suc, ◌+◌, ◌-◌, ◌*◌, ◌%◌, Bool, true, false, ◌&&◌, ◌||◌, not, Option, none, some, ltb,
  ◌==◌, if◌then◌else◌, length, drop, bit_and,
}
use mprtplib.Prelude.Int.{ℤ, pos, negsuc}
use mprtplib.Prelude.Result.{Result, ok, fault, stuck, ◌>>=◌}
use mprtplib.Address.{Endpoint}
use mprtplib.Bytes.{Memory, u8_at, u32_at}
use mprtplib.Struct.{
  RtpHeader, rtp_header_at, extid_at, ext_length_at, ex_subflow_id_at, ex_subflow_seq_at,
  sizeof_rtp_header, sizeof_rtp_extension_header, rtcptype_sr, rtcptype_rr, mprtp_extension_id,
}

pub record RawPacket (W : Type 0) : Type 0 where
  pub bytes : Memory
  pub from_address : Endpoint
  pub is_rtcp : Bool
  pub recvtime : W

pub record RtpPacket (W : Type 0) : Type 0 where
  pub rawpack : Option (RawPacket W)
  pub error : ℤ
  pub has_extension : Bool
  pub has_marker : Bool
  pub numcsrcs : ℕ
  pub payloadtype : ℕ
  pub extseqnr : ℕ
  pub subflow_extseqnr : ℕ
  pub subflow_id : ℕ
  pub timestamp : ℕ
  pub ssrc : ℕ
  pub payload : Option ℕ
  pub payloadlength : ℕ
  pub extid : ℕ
  pub extension : Option ℕ
  pub extensionlength : ℕ

-- `return -n;`
abbrev pub minus : ℕ → ℤ
minus zero = pos 0
minus (suc n) = negsuc n

module _ {W : Type 0} where
  pub data_len : RawPacket W → ℕ
  data_len raw = length raw.bytes

  -- The fields as the constructor sets them, before it calls `parse_packet`.
  pub blank : Option (RawPacket W) → RtpPacket W
  blank raw = record {
    rawpack = raw;
    error = pos 0;
    has_extension = false;
    has_marker = false;
    numcsrcs = 0;
    payloadtype = 0;
    extseqnr = 0;
    subflow_extseqnr = 0;
    subflow_id = 0;
    timestamp = 0;
    ssrc = 0;
    payload = none;
    payloadlength = 0;
    extid = 0;
    extension = none;
    extensionlength = 0;
  }

  abbrev fail : RtpPacket W → ℕ → Result (RtpPacket W)
  fail p n = ok (record p { error = minus n })

  -- The end of `parse_packet`, from `payloadlength = ...` on.
  unfoldable pub parse_payload :
      RtpPacket W → RawPacket W → RtpHeader → (numpadbytes payloadoffset : ℕ) → Result (RtpPacket W)
  unfolding data_len
  parse_payload p raw hdr numpadbytes payloadoffset =
      if ltb (data_len raw) (numpadbytes + payloadoffset)
      then fail p 7
      else ok (record p {
        extseqnr = hdr.sequencenumber;
        timestamp = hdr.timestamp;
        ssrc = hdr.ssrc;
        payload = some payloadoffset;
        payloadlength = data_len raw - numpadbytes - payloadoffset;
      })

  -- `if(m_extid == 0xBEDE)`: the header of the MPRTP extension
  unfoldable pub parse_mprtp : RtpPacket W → Memory → Result (RtpPacket W)
  parse_mprtp p ext = do
    seq ← ex_subflow_seq_at ext
    id ← ex_subflow_id_at ext
    ok (record p { subflow_extseqnr = seq; subflow_id = id })

  -- `if (m_hasextension)`: the header extension, and what follows it
  unfoldable pub parse_extension :
      RtpPacket W → RawPacket W → RtpHeader → (numpadbytes payloadoffset : ℕ) → Result (RtpPacket W)
  parse_extension p raw hdr numpadbytes payloadoffset =
      if hdr.extension == 0
      then parse_payload (record p { has_extension = false }) raw hdr numpadbytes payloadoffset
      else do
        let ext_hdr = drop payloadoffset raw.bytes
        exthdrlen ← ext_length_at ext_hdr
        id ← extid_at ext_hdr
        let start = payloadoffset + sizeof_rtp_extension_header
        let q = record p {
          has_extension = true;
          extid = id;
          extensionlength = exthdrlen * 4;
          extension = some start;
        }
        r ← if id == mprtp_extension_id then parse_mprtp q (drop start raw.bytes) else ok q
        parse_payload r raw hdr numpadbytes (start + exthdrlen * 4)

  -- `if (rtpheader->padding)`: the last byte counts the padding
  unfoldable pub parse_padding : RtpPacket W → RawPacket W → RtpHeader → Result (RtpPacket W)
  unfolding data_len
  parse_padding p raw hdr =
      let offset = sizeof_rtp_header + hdr.csrccount * 4 in
      let q = record p { numcsrcs = hdr.csrccount } in
      if hdr.padding == 0 then parse_extension q raw hdr 0 offset else do
        numpadbytes ← u8_at raw.bytes (data_len raw - 1)
        if numpadbytes == 0 then fail q 6 else parse_extension q raw hdr numpadbytes offset

  -- Marker and payload type; types 72 and 73 with the marker are SR and RR packets.
  unfoldable pub parse_type : RtpPacket W → RawPacket W → RtpHeader → Result (RtpPacket W)
  parse_type p raw hdr =
      let marker = not (hdr.marker == 0) in
      let q = record p { has_marker = marker; payloadtype = hdr.payloadtype } in
      if marker
        && (hdr.payloadtype == bit_and rtcptype_sr 127
            || hdr.payloadtype == bit_and rtcptype_rr 127)
      then fail q 5
      else parse_padding q raw hdr

  unfoldable pub parse_raw : RtpPacket W → RawPacket W → Result (RtpPacket W)
  unfolding data_len
  parse_raw p raw =
      if raw.is_rtcp
      then fail p 2
      else if ltb (data_len raw) sizeof_rtp_header
      then fail p 3
      else do
        hdr ← rtp_header_at raw.bytes
        if hdr.version == 2 then parse_type p raw hdr else fail p 4

  -- `rtp_packet::parse_packet`, with the fields that it sets and `error` as the result
  unfoldable pub parse_packet : RtpPacket W → Result (RtpPacket W)
  parse_packet p = elim p.rawpack [ none ↦ fail p 1 | some raw ↦ parse_raw p raw ]

  -- The constructor.
  unfoldable pub rtp_packet : RawPacket W → Result (RtpPacket W)
  unfolding parse_packet blank
  rtp_packet raw = parse_packet (blank (some raw))

  unfoldable pub is_mprtp_packet : RtpPacket W → Bool
  is_mprtp_packet p = p.has_extension && p.extid == mprtp_extension_id

  pub sequence_number : RtpPacket W → ℕ
  sequence_number p = p.extseqnr % 65536

  pub subflow_sequence_number : RtpPacket W → ℕ
  subflow_sequence_number p = p.subflow_extseqnr % 65536

  pub get_csrc : RawPacket W → ℕ → Result ℕ
  get_csrc raw num = u32_at raw.bytes (sizeof_rtp_header + num * 4)
