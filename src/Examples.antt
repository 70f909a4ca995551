-- ===== src/Examples.antt =====
-- Concrete data for the examples: whole numbers in the place of doubles, and small packets.
pub mod Packets
pub mod Streams
pub mod Reports
pub mod Sending
pub mod Receiving
pub mod Clients
pub mod Exchanges
pub mod Networks
mod Serving
use mprtplib.Prelude.{
  ℕ, ◌+◌, ◌-◌, ◌*◌, ◌/◌, ◌%◌, ◌^◌, ltb, leb, ◌==◌, List, [], ◌∷◌, true, false, none, some,
}
use mprtplib.Prelude.Int.{ℤ, pos, negsuc}
use mprtplib.Double.{Double}
use mprtplib.Packet.{RawPacket, RtpPacket}
use mprtplib.Bytes.{Memory}
use mprtplib.Interface.{Interface, Datagram, new_interface}
use mprtplib.Stat.{SourceStats}
use mprtplib.Subflow.{Subflow, new_subflow}
use mprtplib.World.{World}
use mprtplib.Rtcp.{RrPacket}

instance abbrev pub whole : Double ℕ
whole = record {
  of_nat = λ n. n;
  literal = λ m e. m / 10 ^ e;
  add = λ a b. a + b;
  sub = λ a b. a - b;
  mul = λ a b. a * b;
  div = λ a b. a / b;
  neg = λ a. 0;
  lt = ltb;
  le = leb;
  eq = λ a b. a == b;
  to_uint8 = λ a. a % 256;
  to_uint32 = λ a. a % 2 ^ 32;
  to_uint64 = λ a. a % 2 ^ 64;
  to_int64 = pos;
}

abbrev pub raw_of : Memory → RawPacket ℕ
raw_of bytes = record { bytes = bytes; from_address = (7, 5000); is_rtcp = false; recvtime = 40 }

abbrev pub packet_of : (extseqnr subflow_extseqnr subflow_id : ℕ) → RtpPacket ℕ
packet_of extseqnr subflow_extseqnr subflow_id = record {
  rawpack = none;
  error = pos 0;
  has_extension = true;
  has_marker = false;
  numcsrcs = 0;
  payloadtype = 0;
  extseqnr = extseqnr;
  subflow_extseqnr = subflow_extseqnr;
  subflow_id = subflow_id;
  timestamp = 100;
  ssrc = 9;
  payload = some 24;
  payloadlength = 0;
  extid = 0xBEDE;
  extension = some 16;
  extensionlength = 8;
}

abbrev pub wlan : Interface ℕ
wlan = record {
  ip = 1;
  rtp_port = 4000;
  rtcp_port = 4001;
  rtp_sock = pos 3;
  rtcp_sock = pos 4;
  suspended = false;
  packets = [];
}

abbrev pub world : World ℕ
world = record {
  times = λ i. 50 + i;
  times_taken = 0;
  randoms = λ i. 70 + i;
  randoms_taken = 0;
  net = λ out. pos 26;
  sent = [];
}

abbrev pub loss_report : ℕ → RrPacket ℕ
loss_report lost = record {
  recv_time = 40;
  recv_from = (7, 5000);
  ssrc = 9;
  fractionlost = lost;
  packetslost = 0;
  exthighseqnr = 100;
  jitter = 0;
  lsr = 0;
  dlsr = 0;
}

abbrev pub path : (id indicator : ℕ) → Subflow ℕ
path id indicator = record {
  sequence_number = 17;
  subflow_id = id;
  remote = (7, 5000);
  iface = wlan;
  last_sender_report = none;
  last_receiver_report = some (loss_report 0);
  packet_count = 3;
  octet_count = 30;
  packet_count_tt = 3;
  octet_count_tt = 30;
  instant_bitrate = 10;
  tested_bitrate = 8;
  tb_initialized = true;
  congested_bitrate = 6;
  cb_initialized = true;
  congestion_indicator = indicator;
  congestion_time = 1;
  percentage = 1;
  ready_for_distribution = true;
  recv_stat = record {
    received_data = false;
    packets_received = 0;
    num_cycles = 0;
    baseseqnr = 0;
    exthighseqnr = 0;
    prev_ext_high_seqnr = 0;
    jitter = 0;
    prev_timestamp = 0;
    djitter = 0;
    prev_packtime = 0;
    last_msg_time = 0;
    last_rtp_time = 0;
    last_note_time = 0;
    num_new_packets = 0;
    saved_ext_seqnr = 0;
  };
}

abbrev pub paths : List (Subflow ℕ)
paths = path 1 0 ∷ path 2 1 ∷ []

abbrev pub payload : Memory
payload = 1 ∷ 2 ∷ []
