-- ===== src/Packet/Fields.antt =====
-- Where the parser of src/mprtp_packet.cpp takes the fields of an MPRTP packet from.
use mprtplib.Prelude.{
  ℕ, ◌+◌, ◌*◌, ◌-◌, ◌/◌, ◌%◌, ◌≡◌, ◌≢◌, refl, ◌⊎◌, inl, inr, not, ◌==◌, true, some, arith, length,
  drop, Bool-cases, subst, sym, ap, ◌∙◌,
}
use mprtplib.Prelude.Int.{pos}
use mprtplib.Prelude.Result.{ok, Result-cases}
use mprtplib.Bytes.{Memory, u8_at, u16_at, u32_at}
use mprtplib.Struct.{
  RtpHeader, rtp_header_at, extid_at, ext_length_at, ex_subflow_id_at, ex_subflow_seq_at,
}
use mprtplib.Packet.{
  RawPacket, RtpPacket, rtp_packet, parse_raw, blank, parse_type, parse_padding, parse_extension,
  parse_payload, parse_mprtp, is_mprtp_packet,
}

-- The fixed header is read from the first 12 bytes.
record HeaderRead (bytes : Memory) (hdr : RtpHeader) : Type 0 where
  b0 : ℕ
  b1 : ℕ
  b0_read : u8_at bytes 0 ≡ ok b0
  b1_read : u8_at bytes 1 ≡ ok b1
  version_is : hdr.version ≡ b0 / 64 % 4
  padding_is : hdr.padding ≡ b0 / 32 % 2
  extension_is : hdr.extension ≡ b0 / 16 % 2
  csrccount_is : hdr.csrccount ≡ b0 % 16
  marker_is : hdr.marker ≡ b1 / 128 % 2
  payloadtype_is : hdr.payloadtype ≡ b1 % 128
  seq_read : u16_at bytes 2 ≡ ok hdr.sequencenumber
  ts_read : u32_at bytes 4 ≡ ok hdr.timestamp
  ssrc_read : u32_at bytes 8 ≡ ok hdr.ssrc

rtp_header_at-reads :
    (bytes : Memory) (hdr : RtpHeader) → rtp_header_at bytes ≡ ok hdr → HeaderRead bytes hdr
unfolding rtp_header_at
rtp_header_at-reads bytes hdr e = elim (Result-cases (u8_at bytes 0)) [
  | inl (b0, first) ↦ elim (Result-cases (u8_at bytes 1)) [
    | inl (b1, second) ↦ record {
      b0 = b0;
      b1 = b1;
      b0_read = first;
      b1_read = second;
      version_is = ground arith;
      padding_is = ground arith;
      extension_is = ground arith;
      csrccount_is = ground arith;
      marker_is = ground arith;
      payloadtype_is = ground arith;
      seq_read = ground arith;
      ts_read = ground arith;
      ssrc_read = ground arith;
    }
    | inr (inl faulty) ↦ absurd (ground arith)
    | inr (inr hung) ↦ absurd (ground arith)
  ]
  | inr (inl faulty) ↦ absurd (ground arith)
  | inr (inr hung) ↦ absurd (ground arith)
]

module _ {W : Type 0} where
  -- The extension of an MPRTP packet begins at `off`, and `pad` bytes of padding are at its end.
  pub record HasExtension (raw : RawPacket W) (p : RtpPacket W) (off pad : ℕ) : Type 0 where
    pub words : ℕ
    pub extid_read : u16_at (drop off raw.bytes) 0 ≡ ok p.extid
    pub length_read : u16_at (drop off raw.bytes) 2 ≡ ok words
    pub length_stored : p.extensionlength ≡ words * 4
    pub subflow_id_read : u16_at (drop (off + 4) raw.bytes) 2 ≡ ok p.subflow_id
    pub subflow_seq_read : u16_at (drop (off + 4) raw.bytes) 4 ≡ ok p.subflow_extseqnr
    pub payload_start : p.payload ≡ some (off + 4 + words * 4)
    pub payload_rest : off + 4 + words * 4 + p.payloadlength + pad ≡ length raw.bytes

  parse_extension-HasExtension :
      (q : RtpPacket W) (raw : RawPacket W) (hdr : RtpHeader) (pad off : ℕ) (p : RtpPacket W)
      → parse_extension q raw hdr pad off ≡ ok p
      → p.error ≡ pos 0
      → p.has_extension ≡ true
      → p.extid ≡ 0xBEDE
      → HasExtension raw p off pad
  unfolding parse_extension parse_mprtp parse_payload extid_at ext_length_at ex_subflow_id_at
      ex_subflow_seq_at
  parse_extension-HasExtension q raw hdr pad off p e z x m = record {
    words = p.extensionlength / 4;
    extid_read = ground arith;
    length_read = ground arith;
    length_stored = ground arith;
    subflow_id_read = ground arith;
    subflow_seq_read = ground arith;
    payload_start = ground arith;
    payload_rest = ground arith;
  }

  -- The padding that the header `b0` asks for: none without the bit, and else what the last byte says,
  -- which is not 0.
  abbrev pub Padding : RawPacket W → (b0 pad : ℕ) → Type 0
  Padding raw b0 pad =
      ((b0 / 32 % 2 ≡ 0) × (pad ≡ 0))
      ⊎ ((b0 / 32 % 2 ≢ 0) × (u8_at raw.bytes (length raw.bytes - 1) ≡ ok pad) × (pad ≢ 0))

  -- The fields are at the offsets that RFC 3550 and the MPRTP extension give them.
  pub record IsRead (raw : RawPacket W) (p : RtpPacket W) : Type 0 where
    pub b0 : ℕ
    pub b1 : ℕ
    pub pad : ℕ
    pub b0_read : u8_at raw.bytes 0 ≡ ok b0
    pub b1_read : u8_at raw.bytes 1 ≡ ok b1
    pub version_two : b0 / 64 % 4 ≡ 2
    pub extended : b0 / 16 % 2 ≡ 1
    pub numcsrcs_stored : p.numcsrcs ≡ b0 % 16
    pub marker_stored : p.has_marker ≡ not (b1 / 128 % 2 == 0)
    pub payloadtype_stored : p.payloadtype ≡ b1 % 128
    pub extseqnr_read : u16_at raw.bytes 2 ≡ ok p.extseqnr
    pub timestamp_read : u32_at raw.bytes 4 ≡ ok p.timestamp
    pub ssrc_read : u32_at raw.bytes 8 ≡ ok p.ssrc
    pub padding_read : Padding raw b0 pad
    pub extension_read : HasExtension raw p (12 + p.numcsrcs * 4) pad

  abbrev Padded : RawPacket W → RtpHeader → (pad : ℕ) → Type 0
  Padded raw hdr pad =
      ((hdr.padding ≡ 0) × (pad ≡ 0))
      ⊎ ((hdr.padding ≢ 0) × (u8_at raw.bytes (length raw.bytes - 1) ≡ ok pad) × (pad ≢ 0))

  -- What the later steps of the parser add to the packet and what they keep of it.
  record IsParsed (raw : RawPacket W) (p : RtpPacket W) (hdr : RtpHeader) : Type 0 where
    pad : ℕ
    extended : hdr.extension ≢ 0
    numcsrcs_stored : p.numcsrcs ≡ hdr.csrccount
    marker_stored : p.has_marker ≡ not (hdr.marker == 0)
    payloadtype_stored : p.payloadtype ≡ hdr.payloadtype
    extseqnr_stored : p.extseqnr ≡ hdr.sequencenumber
    timestamp_stored : p.timestamp ≡ hdr.timestamp
    ssrc_stored : p.ssrc ≡ hdr.ssrc
    padding_read : Padded raw hdr pad
    extension_read : HasExtension raw p (12 + p.numcsrcs * 4) pad

  -- What `parse_extension` stores of the header, and keeps of the packet.
  parse_extension-keeps :
      (q : RtpPacket W) (raw : RawPacket W) (hdr : RtpHeader) (pad off : ℕ) (p : RtpPacket W)
      → parse_extension q raw hdr pad off ≡ ok p
      → p.error ≡ pos 0
      → p.has_extension ≡ true
      → (hdr.extension ≢ 0)
        × (p.numcsrcs ≡ q.numcsrcs)
        × (p.has_marker ≡ q.has_marker)
        × (p.payloadtype ≡ q.payloadtype)
        × (p.extseqnr ≡ hdr.sequencenumber)
        × (p.timestamp ≡ hdr.timestamp)
        × (p.ssrc ≡ hdr.ssrc)
  unfolding parse_extension parse_mprtp parse_payload
  parse_extension-keeps q raw hdr pad off p e z x = ground arith

  -- The step to `parse_extension` past the padding.
  parse_padding-parse_extension :
      (q : RtpPacket W) (raw : RawPacket W) (hdr : RtpHeader) (p : RtpPacket W)
      → parse_padding q raw hdr ≡ ok p
      → p.error ≡ pos 0
      → (pad : ℕ) × Padded raw hdr pad
        × (parse_extension
              (record q { numcsrcs = hdr.csrccount })
              raw
              hdr
              pad
              (12 + hdr.csrccount * 4)
            ≡ ok p)
  unfolding parse_padding
  parse_padding-parse_extension q raw hdr p e z = elim (Bool-cases (hdr.padding == 0)) [
    | inl none_set ↦ (0, inl (ground arith, refl), rw (none_set, parse_padding) at e)
    | inr set ↦ elim (Result-cases (u8_at raw.bytes (length raw.bytes - 1))) [
      | inl (pad, last) ↦ (pad, inr (ground arith, last, ground arith), ground arith)
      | inr (inl faulty) ↦ absurd (ground arith)
      | inr (inr hung) ↦ absurd (ground arith)
    ]
  ]

  parse_type-parse_padding :
      (q : RtpPacket W) (raw : RawPacket W) (hdr : RtpHeader) (p : RtpPacket W)
      → parse_type q raw hdr ≡ ok p
      → p.error ≡ pos 0
      → parse_padding
          (record q { has_marker = not (hdr.marker == 0); payloadtype = hdr.payloadtype })
          raw
          hdr
        ≡ ok p
  unfolding parse_type
  parse_type-parse_padding q raw hdr p e z = ground arith

  parse_type-IsParsed :
      (q : RtpPacket W) (raw : RawPacket W) (hdr : RtpHeader) (p : RtpPacket W)
      → parse_type q raw hdr ≡ ok p
      → p.error ≡ pos 0
      → p.has_extension ≡ true
      → p.extid ≡ 0xBEDE
      → IsParsed raw p hdr
  parse_type-IsParsed q raw hdr p e z x m =
      let (pad, padded, ran) =
        parse_padding-parse_extension _ raw hdr p (parse_type-parse_padding q raw hdr p e z) z in
      let (extended, csrcs, marker, type, seq, ts, ssrc) =
        parse_extension-keeps _ raw hdr pad _ p ran z x in
      record {
        pad = pad;
        extended = extended;
        numcsrcs_stored = csrcs;
        marker_stored = marker;
        payloadtype_stored = type;
        extseqnr_stored = seq;
        timestamp_stored = ts;
        ssrc_stored = ssrc;
        padding_read = padded;
        extension_read =
            subst (λ n. HasExtension raw p (12 + n * 4) pad) (sym csrcs)
              (parse_extension-HasExtension _ raw hdr pad _ p ran z x m);
      }

  parse_raw-parse_type :
      (q : RtpPacket W) (raw : RawPacket W) (p : RtpPacket W)
      → parse_raw q raw ≡ ok p
      → p.error ≡ pos 0
      → (hdr : RtpHeader) × (rtp_header_at raw.bytes ≡ ok hdr)
        × (hdr.version ≡ 2)
        × (parse_type q raw hdr ≡ ok p)
  unfolding parse_raw
  parse_raw-parse_type q raw p e z = elim (Result-cases (rtp_header_at raw.bytes)) [
    | inl (hdr, read) ↦ (hdr, read, ground arith, ground arith)
    | inr (inl faulty) ↦ absurd (ground arith)
    | inr (inr hung) ↦ absurd (ground arith)
  ]

  -- An MPRTP packet that the parser accepts with error 0 has version 2, and each of its fields is what
  -- stands in the datagram at its own offset: the bits of the first two bytes, the numbers of the fixed
  -- header, the header of the extension behind the CSRC list, and in it the number of the subflow and
  -- the number in the subflow. The payload lies between the extension, whose length the header states
  -- in words of 4 bytes, and the padding, which the last byte counts.
  pub rtp_packet-IsRead :
      (raw : RawPacket W) (p : RtpPacket W)
      → rtp_packet raw ≡ ok p
      → p.error ≡ pos 0
      → is_mprtp_packet p ≡ true
      → IsRead raw p
  unfolding rtp_packet is_mprtp_packet
  rtp_packet-IsRead raw p e z m =
      let (hdr, read, two, ran) = parse_raw-parse_type (blank (some raw)) raw p e z in
      let fields = rtp_header_at-reads raw.bytes hdr read in
      let parsed =
        parse_type-IsParsed (blank (some raw)) raw hdr p ran z (ground arith) (ground arith) in
      record {
        b0 = fields.b0;
        b1 = fields.b1;
        pad = parsed.pad;
        b0_read = fields.b0_read;
        b1_read = fields.b1_read;
        version_two = sym fields.version_is ∙ two;
        extended = ground (arith, fields.extension_is, parsed.extended);
        numcsrcs_stored = parsed.numcsrcs_stored ∙ fields.csrccount_is;
        marker_stored = parsed.marker_stored ∙ ap (λ n. not (n == 0)) fields.marker_is;
        payloadtype_stored = parsed.payloadtype_stored ∙ fields.payloadtype_is;
        extseqnr_read = fields.seq_read ∙ ap ok (sym parsed.extseqnr_stored);
        timestamp_read = fields.ts_read ∙ ap ok (sym parsed.timestamp_stored);
        ssrc_read = fields.ssrc_read ∙ ap ok (sym parsed.ssrc_stored);
        padding_read =
            subst
              (λ n.
                ((n ≡ 0) × (parsed.pad ≡ 0))
                ⊎ ((n ≢ 0)
                    × (u8_at raw.bytes (length raw.bytes - 1) ≡ ok parsed.pad)
                    × (parsed.pad ≢ 0)))
              fields.padding_is parsed.padding_read;
        extension_read = parsed.extension_read;
      }
