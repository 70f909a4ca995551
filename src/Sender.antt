-- ===== src/Sender.antt =====
-- include/mprtp_sender.h and src/mprtp_sender.cpp: the sender spreads a stream over its subflows and
-- reports on it. Subflows are shared with nobody else; a pointer to one is its place in the list.
-- `fault` is the front of an empty vector, or a write behind the end of the report's buffer.
pub mod Connect
pub mod Cycle
pub mod Distribution
pub mod Shares
pub mod Selection
pub mod Sending
pub mod Reporting
pub mod Lists
pub mod Alike
pub mod Steady
pub mod Invariant
pub mod Routes
pub mod Reported
pub mod Feedback
pub mod Outbox
use mprtplib.Prelude.{
  ℕ, zero, suc, ◌+◌, ◌-◌, ◌*◌, ◌%◌, ◌^◌, Bool, true, false, ◌&&◌, not, Option, none, some, List, [],
  ◌∷◌, ◌++◌, ltb, leb, ◌==◌, if◌then◌else◌, length, get_elem?, set, map, foldl,
}
use mprtplib.Prelude.Int.{ℤ, pos, negsuc, is_pos}
use mprtplib.Prelude.Result.{Result, ok, fault, stuck, ◌>>=◌, or_fault}
use mprtplib.Address.{Endpoint, Address}
use mprtplib.Bytes.{Memory}
use mprtplib.Double.{Double}
use mprtplib.Time.{time_zero, is_zero, get_ntp_time}
use mprtplib.Packet.{RtpPacket}
use mprtplib.Packet.Build.{data_packet}
use mprtplib.Rtcp.{SrPacket, RrPacket}
use mprtplib.Rtcp.Build.{Counts, Stamp, sender_report_packet}
use mprtplib.Interface.{Interface, datagram, get_address}
use mprtplib.Stat.{u32}
use mprtplib.Subflow
use mprtplib.Subflow.{Subflow, new_subflow}
use mprtplib.World.{World, take_time, take_random, log_sent}
use mprtplib.Session.{Handlers}
use mprtplib.Session.Poll.{Session, Rounds, poll_session}

abbrev pub max_pack_size : ℕ
max_pack_size = 65535

pub record Sender (W : Type 0) : Type 0 where
  pub sequence_number : ℕ
  pub timestamp : ℕ
  pub next_subflow_id : ℕ
  pub ssrc : ℕ
  pub dest_addr : Address
  pub timestamp_unit : W
  pub subflows : List (Subflow W)
  pub recalc_distribution : Bool
  pub packet_count : ℕ
  pub octet_count : ℕ
  pub last_packet_time : W
  pub last_sender_report_time : W
  pub stream_bitrate : W
  pub sb_size : ℕ
  pub sb_time : W
  pub world : World W

module _ {W : Type 0} ⦃d : Double W⦄ where
  open d use {of_nat, literal, add, sub, mul, div, lt, le, to_uint32}

  -- The constructor.
  unfoldable pub new_sender : W → World W → Sender W
  new_sender timestamp_unit w =
      let (random, w') = take_random w in
      record {
        sequence_number = random % 0xFFFF;
        timestamp = 0;
        next_subflow_id = 1;
        ssrc = 0;
        dest_addr = [];
        timestamp_unit = timestamp_unit;
        subflows = [];
        recalc_distribution = false;
        packet_count = 0;
        octet_count = 0;
        last_packet_time = time_zero;
        last_sender_report_time = time_zero;
        stream_bitrate = of_nat 1;
        sb_size = 0;
        sb_time = time_zero;
        world = w';
      }

  -- The loop of `select_subflow`, from place `k` on, with the sum `p` so far.
  unfoldable pub select_from : (rnd p : W) → (k : ℕ) → List (Subflow W) → Option ℕ
  select_from rnd p k [] = none
  select_from rnd p k (sf ∷ rest) =
      let p' = add p sf.percentage in
      let later = select_from rnd p' (k + 1) rest in if lt rnd p' then some k else later

  -- `select_subflow`: the place of the subflow, the first if none is found.
  unfoldable pub select_subflow : Sender W → Result (ℕ × Sender W)
  select_subflow s =
      let (random, w) = take_random s.world in
      let rnd = div (of_nat (random % 101)) (literal 100 0) in
      let k = elim (select_from rnd (of_nat 0) 0 s.subflows) as (λ _. ℕ) [
        | none ↦ 0
        | some i ↦ i
      ] in
      if length s.subflows == 0 then fault else ok (k, record s { world = w })

  -- `update_stream_bitrate`
  unfoldable pub update_stream_bitrate : ℕ → Sender W → Sender W
  update_stream_bitrate size s =
      let (now, w) = take_time s.world in
      let grown = record s { sb_size = u32 (s.sb_size + size) } in
      if is_zero s.sb_time then record grown { sb_time = now; world = w } else grown

  -- `get_next_timestamp`; the timestamp that it returns stands in the state.
  unfoldable pub get_next_timestamp : Sender W → Sender W
  get_next_timestamp s =
      let (now, w1) = take_time s.world in
      let (random, w2) = take_random w1 in
      let elapsed = add (div (sub now s.last_packet_time) s.timestamp_unit) (literal 5 1) in
      if s.packet_count == 0
      then record s { last_packet_time = now; timestamp = random % 0xFFFF; world = w2 }
      else record s {
        last_packet_time = now;
        timestamp = u32 (s.timestamp + to_uint32 elapsed);
        world = w1;
      }

  -- A packet leaves through the subflow at place `k`; the result is that of `subflow::sendto`.
  unfoldable pub send_via :
      (k : ℕ)
      → Subflow W
      → Memory
      → (len payload_length : ℕ) → (rtcp : Bool) → Sender W
      → Sender W × ℤ
  send_via k sf bytes len payload_length rtcp s =
      let (sf', ret) = Subflow.send s.world.net sf bytes len payload_length rtcp in
      (
        record s {
          subflows = set s.subflows k sf';
          world = log_sent (datagram sf.iface bytes sf.remote rtcp) s.world;
        },
        ret,
      )

  -- The end of `send_data`, where the packet went out whole.
  unfoldable pub count_data : (data_len pkt_len : ℕ) → Sender W → Sender W
  count_data data_len pkt_len s =
      let (now, w) = take_time s.world in
      let timed =
        if s.packet_count == 0 then record s { last_sender_report_time = now; world = w } else s in
      update_stream_bitrate pkt_len (record timed {
        packet_count = u32 (s.packet_count + 1);
        octet_count = u32 (s.octet_count + data_len);
      })

  unfoldable pub send_data : Memory → Sender W → Result (Bool × Sender W)
  send_data payload s = do
    (k, s1) ← select_subflow s
    sf ← or_fault (get_elem? s1.subflows k)
    let seq = s1.sequence_number
    let s2 = get_next_timestamp (record s1 { sequence_number = (seq + 1) % 65536 })
    let pkt = data_packet seq s2.timestamp s2.ssrc sf.subflow_id sf.sequence_number payload
    let pkt_len = length payload + 24
    let (s3, ret) = send_via k sf pkt pkt_len (length payload) false s2
    if is_pos ret pkt_len then ok (true, count_data (length payload) pkt_len s3) else ok (false, s3)
