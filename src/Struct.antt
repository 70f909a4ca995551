-- ===== src/Struct.antt =====
-- include/mprtp_struct.h and include/mprtp_defines.h: the packet structures, as they stand in
-- memory on either byte order, and the constants. A record is a structure that the code fills in;
-- a reader `*_at p` reads one field of the structure that `p` points to.
use mprtplib.Prelude.{ℕ, ◌+◌, ◌*◌, ◌/◌, ◌%◌, [], ◌∷◌, ◌++◌}
use mprtplib.Prelude.Result.{Result, ok, ◌>>=◌}
use mprtplib.Bytes.{Memory, u8_at, u16_at, u32_at, htons, htonl}

abbrev pub rtp_version : ℕ
rtp_version = 2

abbrev pub rtcptype_sr : ℕ
rtcptype_sr = 200

abbrev pub rtcptype_rr : ℕ
rtcptype_rr = 201

abbrev pub rtcptype_sdes : ℕ
rtcptype_sdes = 202

abbrev pub rtcptype_bye : ℕ
rtcptype_bye = 203

abbrev pub rtcptype_app : ℕ
rtcptype_app = 204

abbrev pub rtcptype_mprtp : ℕ
rtcptype_mprtp = 211

abbrev pub mprtp_extension_id : ℕ
mprtp_extension_id = 0xBEDE

abbrev pub mprtcp_type_subflow : ℕ
mprtcp_type_subflow = 0

abbrev pub sizeof_rtp_header : ℕ
sizeof_rtp_header = 12

abbrev pub sizeof_rtcp_common_header : ℕ
sizeof_rtcp_common_header = 4

abbrev pub sizeof_rtp_extension_header : ℕ
sizeof_rtp_extension_header = 4

abbrev pub sizeof_rtp_source_identifier : ℕ
sizeof_rtp_source_identifier = 4

abbrev pub sizeof_rtcp_sender_report : ℕ
sizeof_rtcp_sender_report = 20

abbrev pub sizeof_rtcp_receiver_report : ℕ
sizeof_rtcp_receiver_report = 24

abbrev pub sizeof_mprtp_rtcp : ℕ
sizeof_mprtp_rtcp = 2

abbrev pub sizeof_mprtp_rtcp_subflow : ℕ
sizeof_mprtp_rtcp_subflow = 4

abbrev pub sizeof_mprtp_ex : ℕ
sizeof_mprtp_ex = 8

pub record RtpHeader : Type 0 where
  pub version : ℕ
  pub padding : ℕ
  pub extension : ℕ
  pub csrccount : ℕ
  pub marker : ℕ
  pub payloadtype : ℕ
  pub sequencenumber : ℕ
  pub timestamp : ℕ
  pub ssrc : ℕ

abbrev pub rtp_header_bytes : RtpHeader → Memory
rtp_header_bytes h =
    (h.version * 64 + h.padding * 32 + h.extension * 16 + h.csrccount)
    ∷ (h.marker * 128 + h.payloadtype)
    ∷ (htons h.sequencenumber ++ (htonl h.timestamp ++ htonl h.ssrc))

-- All of the header; the code reads it only where the buffer is known to hold it.
unfoldable pub rtp_header_at : Memory → Result RtpHeader
rtp_header_at p = do
  b0 ← u8_at p 0
  b1 ← u8_at p 1
  seq ← u16_at p 2
  ts ← u32_at p 4
  id ← u32_at p 8
  ok (record {
    version = b0 / 64 % 4;
    padding = b0 / 32 % 2;
    extension = b0 / 16 % 2;
    csrccount = b0 % 16;
    marker = b1 / 128 % 2;
    payloadtype = b1 % 128;
    sequencenumber = seq;
    timestamp = ts;
    ssrc = id;
  })

-- `struct rtcp_common_header`: version 2 bits, padding 1 bit, count 5 bits, type, length
abbrev pub rtcp_common_header_bytes : ℕ → ℕ → ℕ → Memory
rtcp_common_header_bytes count packettype len = (rtp_version * 64 + count) ∷ packettype ∷ htons len

unfoldable pub count_at : Memory → Result ℕ
count_at p = do b0 ← u8_at p 0; ok (b0 % 32)

unfoldable pub packettype_at : Memory → Result ℕ
packettype_at p = u8_at p 1

unfoldable pub length_at : Memory → Result ℕ
length_at p = u16_at p 2

-- `struct rtp_extension_header`
abbrev pub rtp_extension_header_bytes : ℕ → ℕ → Memory
rtp_extension_header_bytes extid len = htons extid ++ htons len

unfoldable pub extid_at : Memory → Result ℕ
extid_at p = u16_at p 0

unfoldable pub ext_length_at : Memory → Result ℕ
ext_length_at p = u16_at p 2

-- `struct mprtp_ex`: ID and len1 4 bits each, pad and len2 4 bits each, id, sequence number, pad2
abbrev pub mprtp_ex_bytes : ℕ → ℕ → ℕ → ℕ → Memory
mprtp_ex_bytes len1 len2 subflow_id subflow_seq =
    len1 ∷ len2 ∷ (htons subflow_id ++ (htons subflow_seq ++ (0 ∷ 0 ∷ [])))

unfoldable pub ex_subflow_id_at : Memory → Result ℕ
ex_subflow_id_at p = u16_at p 2

unfoldable pub ex_subflow_seq_at : Memory → Result ℕ
ex_subflow_seq_at p = u16_at p 4

-- `struct mprtp_rtcp` and the identifier behind it, which together are `mprtp_rtcp_subflow`
abbrev pub mprtp_rtcp_subflow_bytes : ℕ → ℕ → ℕ → Memory
mprtp_rtcp_subflow_bytes mprtcp_type block_length subflow_id =
    mprtcp_type ∷ block_length ∷ htons subflow_id

unfoldable pub mprtcp_type_at : Memory → Result ℕ
mprtcp_type_at p = u8_at p 0

unfoldable pub block_length_at : Memory → Result ℕ
block_length_at p = u8_at p 1

-- A proof that computes reads of a known buffer unfolds this name alone.
unfoldable pub reads : Unit {0}
unfolding u8_at u16_at u32_at rtp_header_at count_at packettype_at length_at extid_at ext_length_at
    ex_subflow_id_at ex_subflow_seq_at mprtcp_type_at block_length_at
reads = tt
