-- ===== src/Packet/Build.antt =====
-- The bytes that `sender::send_data` (src/mprtp_sender.cpp) puts on the wire for one payload. The
-- buffer is zero before the code fills the three headers in, so a field that it does not name is 0.
use mprtplib.Prelude.{ℕ, ◌++◌}
use mprtplib.Bytes.{Memory}
use mprtplib.Struct.{
  RtpHeader, rtp_header_bytes, rtp_extension_header_bytes, mprtp_ex_bytes, rtp_version,
  mprtp_extension_id,
}

abbrev pub data_header : (seq ts ssrc : ℕ) → RtpHeader
data_header seq ts ssrc = record {
  version = rtp_version;
  padding = 0;
  extension = 1;
  csrccount = 0;
  marker = 0;
  payloadtype = 0;
  sequencenumber = seq;
  timestamp = ts;
  ssrc = ssrc;
}

unfoldable pub data_packet : (seq ts ssrc subflow_id subflow_seq : ℕ) → Memory → Memory
data_packet seq ts ssrc subflow_id subflow_seq payload =
    rtp_header_bytes (data_header seq ts ssrc)
    ++ (rtp_extension_header_bytes mprtp_extension_id 2
        ++ (mprtp_ex_bytes 4 4 subflow_id subflow_seq ++ payload))
