-- ===== src/Packet/Ranges.antt =====
-- The ranges of what the parser of src/mprtp_packet.cpp stores, which are those of the C++ types and
-- bit fields.
use mprtplib.Prelude.{
  ℕ, ◌+◌, ◌-◌, ◌*◌, ◌^◌, ◌<◌, arith, not, ◌==◌, ◌&&◌, ◌||◌, ltb, if_both, drop, bit_and, some, true,
  false, if◌then◌else◌,
}
use mprtplib.Prelude.Result.{ok, Holds, Holds->>=, Holds-after}
use mprtplib.Bytes.{Memory, AreBytes, u8_at, u16_at, u32_at}
use mprtplib.Bytes.Ranges.{AreBytes-drop, u16_at-Holds, u32_at-Holds}
use mprtplib.Struct.{
  RtpHeader, rtp_header_at, extid_at, ext_length_at, ex_subflow_id_at, ex_subflow_seq_at,
  mprtp_extension_id, rtcptype_sr, rtcptype_rr,
}
use mprtplib.Packet.{
  RawPacket, RtpPacket, rtp_packet, blank, data_len, minus, parse_raw, parse_type, parse_padding,
  parse_extension, parse_payload, parse_mprtp,
}

-- The fields of the header that are stored.
pub record FitsHeader (hdr : RtpHeader) : Type 0 where
  pub csrccount_fits : hdr.csrccount < 16
  pub payloadtype_fits : hdr.payloadtype < 128
  pub sequencenumber_fits : hdr.sequencenumber < 2 ^ 16
  pub timestamp_fits : hdr.timestamp < 2 ^ 32
  pub ssrc_fits : hdr.ssrc < 2 ^ 32

rtp_header_at-FitsHeader : (p : Memory) → AreBytes p → Holds FitsHeader (rtp_header_at p)
unfolding rtp_header_at
rtp_header_at-FitsHeader p h = Holds-after FitsHeader (u8_at p 0) _ λ b0.
    Holds-after FitsHeader (u8_at p 1) _ λ b1.
      Holds->>= _ FitsHeader (u16_at p 2) _ (u16_at-Holds p 2 h) λ seq seq_fits.
        Holds->>= _ FitsHeader (u32_at p 4) _ (u32_at-Holds p 4 h) λ ts ts_fits.
          Holds->>= _ FitsHeader (u32_at p 8) _ (u32_at-Holds p 8 h) λ id id_fits. record {
            csrccount_fits = omega arith;
            payloadtype_fits = omega arith;
            sequencenumber_fits = seq_fits;
            timestamp_fits = ts_fits;
            ssrc_fits = id_fits;
          }

pub record FitsFields (numcsrcs payloadtype extseqnr subflow_extseqnr subflow_id : ℕ)
    (timestamp ssrc extid extensionlength : ℕ) : Type 0 where
  pub numcsrcs_fits : numcsrcs < 16
  pub payloadtype_fits : payloadtype < 128
  pub extseqnr_fits : extseqnr < 2 ^ 16
  pub subflow_extseqnr_fits : subflow_extseqnr < 2 ^ 16
  pub subflow_id_fits : subflow_id < 2 ^ 16
  pub timestamp_fits : timestamp < 2 ^ 32
  pub ssrc_fits : ssrc < 2 ^ 32
  pub extid_fits : extid < 2 ^ 16
  pub extensionlength_fits : extensionlength < 2 ^ 18

module _ {W : Type 0} where
  -- The numbers of a packet that was parsed; the length of the extension is four times a 16-bit number.
  abbrev pub FitsPacket : RtpPacket W → Type 0
  FitsPacket p =
      FitsFields p.numcsrcs p.payloadtype p.extseqnr p.subflow_extseqnr p.subflow_id p.timestamp
        p.ssrc p.extid p.extensionlength

module _ {W : Type 0} (raw : RawPacket W) (hdr : RtpHeader) (bytes : AreBytes raw.bytes)
    (header : FitsHeader hdr) where
  parse_payload-FitsPacket :
      (p : RtpPacket W) (pad off : ℕ)
      → FitsPacket p
      → Holds FitsPacket (parse_payload p raw hdr pad off)
  unfolding parse_payload
  parse_payload-FitsPacket p pad off h =
      if_both (Holds FitsPacket) (ltb (data_len raw) (pad + off)) _ _ h (record {
        numcsrcs_fits = h.numcsrcs_fits;
        payloadtype_fits = h.payloadtype_fits;
        extseqnr_fits = header.sequencenumber_fits;
        subflow_extseqnr_fits = h.subflow_extseqnr_fits;
        subflow_id_fits = h.subflow_id_fits;
        timestamp_fits = header.timestamp_fits;
        ssrc_fits = header.ssrc_fits;
        extid_fits = h.extid_fits;
        extensionlength_fits = h.extensionlength_fits;
      })

  parse_mprtp-FitsPacket :
      (p : RtpPacket W) (ext : Memory)
      → AreBytes ext
      → FitsPacket p
      → Holds FitsPacket (parse_mprtp p ext)
  unfolding parse_mprtp ex_subflow_seq_at ex_subflow_id_at
  parse_mprtp-FitsPacket p ext b h =
      Holds->>= _ FitsPacket (u16_at ext 4) _ (u16_at-Holds ext 4 b) λ seq seq_fits.
        Holds->>= _ FitsPacket (u16_at ext 2) _ (u16_at-Holds ext 2 b) λ id id_fits. record {
          numcsrcs_fits = h.numcsrcs_fits;
          payloadtype_fits = h.payloadtype_fits;
          extseqnr_fits = h.extseqnr_fits;
          subflow_extseqnr_fits = seq_fits;
          subflow_id_fits = id_fits;
          timestamp_fits = h.timestamp_fits;
          ssrc_fits = h.ssrc_fits;
          extid_fits = h.extid_fits;
          extensionlength_fits = h.extensionlength_fits;
        }

  parse_extension-FitsPacket :
      (p : RtpPacket W) (pad off : ℕ)
      → FitsPacket p
      → Holds FitsPacket (parse_extension p raw hdr pad off)
  unfolding parse_extension ext_length_at extid_at
  parse_extension-FitsPacket p pad off h =
      let ext_hdr = drop off raw.bytes in
      let ext_bytes = AreBytes-drop off raw.bytes bytes in
      if_both (Holds FitsPacket) (hdr.extension == 0) _ _
        (parse_payload-FitsPacket (record p { has_extension = false }) pad off h)
        (Holds->>= _ FitsPacket (u16_at ext_hdr 2) _ (u16_at-Holds ext_hdr 2 ext_bytes)
          λ len len_fits.
            Holds->>= _ FitsPacket (u16_at ext_hdr 0) _ (u16_at-Holds ext_hdr 0 ext_bytes)
              λ id id_fits.
                let q = record p {
                  has_extension = true;
                  extid = id;
                  extensionlength = len * 4;
                  extension = some (off + 4);
                } in
                let fits : FitsPacket q = record {
                  numcsrcs_fits = h.numcsrcs_fits;
                  payloadtype_fits = h.payloadtype_fits;
                  extseqnr_fits = h.extseqnr_fits;
                  subflow_extseqnr_fits = h.subflow_extseqnr_fits;
                  subflow_id_fits = h.subflow_id_fits;
                  timestamp_fits = h.timestamp_fits;
                  ssrc_fits = h.ssrc_fits;
                  extid_fits = id_fits;
                  extensionlength_fits = omega arith;
                } in
                Holds->>= FitsPacket FitsPacket
                  (if id == mprtp_extension_id
                    then parse_mprtp q (drop (off + 4) raw.bytes)
                    else ok q)
                  _
                  (if_both (Holds FitsPacket) (id == mprtp_extension_id) _ (ok q)
                    (parse_mprtp-FitsPacket q (drop (off + 4) raw.bytes)
                      (AreBytes-drop (off + 4) raw.bytes bytes) fits)
                    fits)
                  λ r r_fits. parse_payload-FitsPacket r pad (off + 4 + len * 4) r_fits)

  parse_padding-FitsPacket :
      (p : RtpPacket W) → FitsPacket p → Holds FitsPacket (parse_padding p raw hdr)
  unfolding parse_padding
  parse_padding-FitsPacket p h =
      let q = record p { numcsrcs = hdr.csrccount } in
      let fits : FitsPacket q = record {
        numcsrcs_fits = header.csrccount_fits;
        payloadtype_fits = h.payloadtype_fits;
        extseqnr_fits = h.extseqnr_fits;
        subflow_extseqnr_fits = h.subflow_extseqnr_fits;
        subflow_id_fits = h.subflow_id_fits;
        timestamp_fits = h.timestamp_fits;
        ssrc_fits = h.ssrc_fits;
        extid_fits = h.extid_fits;
        extensionlength_fits = h.extensionlength_fits;
      } in
      let offset = 12 + hdr.csrccount * 4 in
      if_both (Holds FitsPacket) (hdr.padding == 0) _ _ (parse_extension-FitsPacket q 0 offset fits)
        (Holds-after FitsPacket (u8_at raw.bytes (data_len raw - 1)) _ λ pad.
          if_both (Holds FitsPacket) (pad == 0) _ _ fits
            (parse_extension-FitsPacket q pad offset fits))

  parse_type-FitsPacket : (p : RtpPacket W) → FitsPacket p → Holds FitsPacket (parse_type p raw hdr)
  unfolding parse_type
  parse_type-FitsPacket p h =
      let marker = not (hdr.marker == 0) in
      let q = record p { has_marker = marker; payloadtype = hdr.payloadtype } in
      let fits : FitsPacket q = record {
        numcsrcs_fits = h.numcsrcs_fits;
        payloadtype_fits = header.payloadtype_fits;
        extseqnr_fits = h.extseqnr_fits;
        subflow_extseqnr_fits = h.subflow_extseqnr_fits;
        subflow_id_fits = h.subflow_id_fits;
        timestamp_fits = h.timestamp_fits;
        ssrc_fits = h.ssrc_fits;
        extid_fits = h.extid_fits;
        extensionlength_fits = h.extensionlength_fits;
      } in
      if_both (Holds FitsPacket)
        (marker
          && (hdr.payloadtype == bit_and rtcptype_sr 127
              || hdr.payloadtype == bit_and rtcptype_rr 127))
        (ok (record q { error = minus 5 })) _ fits (parse_padding-FitsPacket q fits)

module _ {W : Type 0} where
  -- Where the parser makes a packet of bytes, with an error or without, each number of it is in the
  -- range of its C++ type, and the numbers that the wire carries in fewer bits in the range of these.
  pub rtp_packet-FitsPacket :
      (raw : RawPacket W) → AreBytes raw.bytes → Holds FitsPacket (rtp_packet raw)
  unfolding rtp_packet parse_raw blank
  rtp_packet-FitsPacket raw bytes =
      let none : FitsPacket (blank (some raw)) = record {
        numcsrcs_fits = omega arith;
        payloadtype_fits = omega arith;
        extseqnr_fits = omega arith;
        subflow_extseqnr_fits = omega arith;
        subflow_id_fits = omega arith;
        timestamp_fits = omega arith;
        ssrc_fits = omega arith;
        extid_fits = omega arith;
        extensionlength_fits = omega arith;
      } in
      if_both (Holds FitsPacket) raw.is_rtcp _ _ none (
        if_both (Holds FitsPacket) (ltb (data_len raw) 12) _ _ none (
          Holds->>= FitsHeader FitsPacket (rtp_header_at raw.bytes) _
            (rtp_header_at-FitsHeader raw.bytes bytes)
            λ hdr header.
              if_both (Holds FitsPacket) (hdr.version == 2) _ _
                (parse_type-FitsPacket raw hdr bytes header (blank (some raw)) none) none))
