-- ===== src/Packet/Bounds.antt =====
-- Where the parser of src/mprtp_packet.cpp finds the payload and the CSRC list of a packet.
use mprtplib.Prelude.{ℕ, ◌+◌, ◌*◌, ◌<◌, ◌≤◌, ◌≡◌, none, some, arith, length}
use mprtplib.Prelude.Int.{pos}
use mprtplib.Prelude.Result.{ok}
use mprtplib.Bytes.Laws.{u32_at-in}
use mprtplib.Struct.{RtpHeader, rtp_header_at}
use mprtplib.Packet.{
  RawPacket, RtpPacket, rtp_packet, parse_raw, blank, parse_type, parse_padding, parse_extension,
  parse_payload, parse_mprtp, get_csrc,
}

module _ {W : Type 0} where
  abbrev start_of : RtpPacket W → ℕ
  start_of p = elim p.payload [ none ↦ 0 | some o ↦ o ]

  -- The CSRC list and the payload of a packet lie inside its buffer, one behind the other.
  pub record IsInside (raw : RawPacket W) (p : RtpPacket W) : Type 0 where
    pub has_payload : p.payload ≡ some (start_of p)
    pub payload_ends : start_of p + p.payloadlength ≤ length raw.bytes
    pub csrcs_end : 12 + p.numcsrcs * 4 ≤ start_of p
    pub csrcs_few : p.numcsrcs < 16

  parse_payload-IsInside :
      (q : RtpPacket W) (raw : RawPacket W) (hdr : RtpHeader) (pad off : ℕ) (p : RtpPacket W)
      → parse_payload q raw hdr pad off ≡ ok p
      → p.error ≡ pos 0
      → 12 + q.numcsrcs * 4 ≤ off
      → q.numcsrcs < 16
      → IsInside raw p
  unfolding parse_payload
  parse_payload-IsInside q raw hdr pad off p e z h c = ground arith

  parse_extension-IsInside :
      (q : RtpPacket W) (raw : RawPacket W) (hdr : RtpHeader) (pad off : ℕ) (p : RtpPacket W)
      → parse_extension q raw hdr pad off ≡ ok p
      → p.error ≡ pos 0
      → 12 + q.numcsrcs * 4 ≤ off
      → q.numcsrcs < 16
      → IsInside raw p
  unfolding parse_extension parse_mprtp parse_payload
  parse_extension-IsInside q raw hdr pad off p e z h c = ground arith

  parse_type-IsInside :
      (q : RtpPacket W) (raw : RawPacket W) (hdr : RtpHeader) (p : RtpPacket W)
      → parse_type q raw hdr ≡ ok p
      → p.error ≡ pos 0
      → hdr.csrccount < 16
      → IsInside raw p
  unfolding parse_type parse_padding parse_extension parse_mprtp parse_payload
  parse_type-IsInside q raw hdr p e z c = ground (arith)

  -- What the parser accepts with error 0 has its payload and its CSRC list inside the buffer.
  pub rtp_packet-IsInside :
      (raw : RawPacket W) (p : RtpPacket W)
      → rtp_packet raw ≡ ok p
      → p.error ≡ pos 0
      → IsInside raw p
  unfolding rtp_packet parse_raw rtp_header_at
  rtp_packet-IsInside raw p e z =
      grind (arith, λ (h : RtpHeader). parse_type-IsInside (blank (some raw)) raw h p)

  -- Then each CSRC that `get_csrc_count` counts can be read.
  get_csrc-IsInside :
      (raw : RawPacket W) (p : RtpPacket W) (num : ℕ)
      → rtp_packet raw ≡ ok p
      → p.error ≡ pos 0
      → num < p.numcsrcs
      → (csrc : ℕ) × (get_csrc raw num ≡ ok csrc)
  unfolding get_csrc
  get_csrc-IsInside raw p num e z h =
      let inside = rtp_packet-IsInside raw p e z in u32_at-in raw.bytes (12 + num * 4) (omega arith)
