-- ===== src/Packet/Reads.antt =====
-- Which reads the parser of src/mprtp_packet.cpp makes inside the packet's buffer, and which not.
use mprtplib.Prelude.{
  ℕ, ◌+◌, ◌*◌, ◌/◌, ◌%◌, ◌<◌, ◌≤◌, ◌≡◌, ◌≢◌, refl, ◌⊎◌, inl, inr, false, Bool-cases, ◌-◌, some,
  arith, length, ◌∷◌, ltb, drop, length-drop,
}
use mprtplib.Prelude.Result.{ok, fault}
use mprtplib.Bytes.{Memory, u8_at}
use mprtplib.Bytes.Laws.{u8_at-in, u16_at-out, u16_at-in, u32_at-in}
use mprtplib.Struct.{
  RtpHeader, rtp_header_at, extid_at, ext_length_at, ex_subflow_id_at, ex_subflow_seq_at,
}
use mprtplib.Packet.{
  RawPacket, RtpPacket, rtp_packet, parse_raw, blank, parse_type, parse_padding, parse_extension,
  parse_payload, parse_mprtp,
}

rtp_header_at-in :
    (b0 b1 : ℕ) (rest : Memory)
    → 10 ≤ length rest
    → (h : RtpHeader) × (rtp_header_at (b0 ∷ b1 ∷ rest) ≡ ok h)
      × (h.version ≡ b0 / 64 % 4)
      × (h.padding ≡ b0 / 32 % 2)
      × (h.extension ≡ b0 / 16 % 2)
      × (h.csrccount ≡ b0 % 16)
      × (h.marker ≡ b1 / 128 % 2)
unfolding rtp_header_at
rtp_header_at-in b0 b1 rest h =
    let p = b0 ∷ b1 ∷ rest in
    let (seq, es) = u16_at-in p 2 (omega arith) in
    let (ts, et) = u32_at-in p 4 (omega arith) in
    let (id, ei) = u32_at-in p 8 (omega arith) in
    let first : u8_at p 0 ≡ ok b0 = unfold u8_at in refl in
    let second : u8_at p 1 ≡ ok b1 = unfold u8_at in refl in
    (
      record {
        version = b0 / 64 % 4;
        padding = b0 / 32 % 2;
        extension = b0 / 16 % 2;
        csrccount = b0 % 16;
        marker = b1 / 128 % 2;
        payloadtype = b1 % 128;
        sequencenumber = seq;
        timestamp = ts;
        ssrc = id;
      },
      rw (first, second, es, et, ei),
      refl,
      refl,
      refl,
      refl,
      refl,
    )

module _ {W : Type 0} where
  parse_extension-ne-fault :
      (q : RtpPacket W) (raw : RawPacket W) (hdr : RtpHeader) (pad off : ℕ)
      → (hdr.extension ≡ 0) ⊎ (off + 10 ≤ length raw.bytes)
      → parse_extension q raw hdr pad off ≢ fault
  unfolding parse_extension parse_mprtp parse_payload extid_at ext_length_at ex_subflow_id_at
      ex_subflow_seq_at
  parse_extension-ne-fault q raw hdr pad off enough = ground (
    arith,
    length-drop off raw.bytes,
    length-drop (off + 4) raw.bytes,
    u16_at-in (drop off raw.bytes) 0,
    u16_at-in (drop off raw.bytes) 2,
    u16_at-in (drop (off + 4) raw.bytes) 2,
    u16_at-in (drop (off + 4) raw.bytes) 4,
  )

  parse_type-ne-fault :
      (q : RtpPacket W) (raw : RawPacket W) (hdr : RtpHeader)
      → 12 ≤ length raw.bytes
      → (hdr.extension ≡ 0) ⊎ (22 + hdr.csrccount * 4 ≤ length raw.bytes)
      → parse_type q raw hdr ≢ fault
  unfolding parse_type parse_padding
  parse_type-ne-fault q raw hdr h enough =
      grind (arith, u8_at-in raw.bytes (length raw.bytes - 1), parse_extension-ne-fault)

  -- A packet is read inside its buffer if it has no header extension, or if the buffer reaches to
  -- the end of the sequence number of the MPRTP extension behind the CSRC list.
  pub rtp_packet-ne-fault :
      (raw : RawPacket W) (b0 b1 : ℕ) (rest : Memory)
      → raw.bytes ≡ b0 ∷ b1 ∷ rest
      → (b0 / 16 % 2 ≡ 0) ⊎ (22 + b0 % 16 * 4 ≤ length raw.bytes)
      → rtp_packet raw ≢ fault
  unfolding rtp_packet parse_raw
  rtp_packet-ne-fault raw b0 b1 rest e enough = elim (Bool-cases (ltb (length raw.bytes) 12)) [
    | inl short ↦ ground arith
    | inr long ↦
        let (h, eh, v, _, x, c, _) = rtp_header_at-in b0 b1 rest (ground arith) in
        ground (arith, parse_type-ne-fault (blank (some raw)) raw h)
  ]

  -- A datagram of at least 12 bytes on an RTP socket, of version 2, with the extension bit, without
  -- padding and without the marker, that ends before the header of the extension does: the parser reads
  -- behind the end.
  pub rtp_packet_over_read :
      (raw : RawPacket W) (b0 b1 : ℕ) (rest : Memory)
      → raw.is_rtcp ≡ false
      → raw.bytes ≡ b0 ∷ b1 ∷ rest
      → b0 / 64 ≡ 2
      → b0 / 32 % 2 ≡ 0
      → b0 / 16 % 2 ≡ 1
      → b1 < 128
      → 12 ≤ length raw.bytes
      → length raw.bytes < 16 + b0 % 16 * 4
      → rtp_packet raw ≡ fault
  unfolding rtp_packet parse_raw parse_type parse_padding parse_extension ext_length_at
  rtp_packet_over_read raw b0 b1 rest nr e v pad ext m lo hi =
      let (h, eh, hv, hp, hx, hc, hm) = rtp_header_at-in b0 b1 rest (ground arith) in
      let off = 12 + b0 % 16 * 4 in
      ground (arith, length-drop off raw.bytes, u16_at-out (drop off raw.bytes) 2)
