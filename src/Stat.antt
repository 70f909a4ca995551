-- ===== src/Stat.antt =====
-- include/mprtp_stat.h and src/mprtp_stat.cpp: what a receiver counts of a stream or a subflow, and
-- the receiver report. `uint32_t` and `uint16_t` arithmetic wraps, and the wrap is written out.
pub mod Sequence
pub mod Loss
pub mod Jitter
pub mod Ranges
use mprtplib.Prelude.{
  ℕ, zero, suc, ◌+◌, ◌-◌, ◌*◌, ◌/◌, ◌%◌, ◌^◌, Bool, true, false, Option, none, some, ltb, leb, ◌==◌,
  if◌then◌else◌,
}
use mprtplib.Prelude.Int.{ℤ, pos, negsuc}
use mprtplib.Prelude.Result.{Result, ok, fault, ◌>>=◌}
use mprtplib.Double.{Double}
use mprtplib.Time.{of_int, rtp_time, time_zero}
use mprtplib.Packet.{RtpPacket}
use mprtplib.Rtcp.{SrPacket}
use mprtplib.Rtcp.Build.{ReceiverReport}

abbrev pub u32 : ℕ → ℕ
u32 x = x % 2 ^ 32

-- `a - b` on `uint32_t`
abbrev pub sub32 : ℕ → ℕ → ℕ
sub32 a b = (a + 2 ^ 32 - b) % 2 ^ 32

-- `a - b` on `uint16_t`
abbrev pub sub16 : ℕ → ℕ → ℕ
sub16 a b = (a + 2 ^ 16 - b) % 2 ^ 16

pub record SourceStats (W : Type 0) : Type 0 where
  pub received_data : Bool
  pub packets_received : ℕ
  pub num_cycles : ℕ
  pub baseseqnr : ℕ
  pub exthighseqnr : ℕ
  pub prev_ext_high_seqnr : ℕ
  pub jitter : ℕ
  pub prev_timestamp : ℕ
  pub djitter : W
  pub prev_packtime : W
  pub last_msg_time : W
  pub last_rtp_time : W
  pub last_note_time : W
  pub num_new_packets : ℕ
  pub saved_ext_seqnr : ℕ

-- The sequence number that a packet gets, and the cycles and the highest number after it.
pub record Extended : Type 0 where
  pub cycles : ℕ
  pub highest : ℕ
  pub extseqnr : ℕ

-- "Adjust max extended sequence number and set extende seq nr of packet"
unfoldable pub extend : (num_cycles exthighseqnr seq : ℕ) → Extended
extend num_cycles exthighseqnr seq =
    let maxseq16 = exthighseqnr % 65536 in
    let dif1 = sub16 (seq % 65536) maxseq16 in
    let dif2 = sub16 maxseq16 (seq % 65536) in
    let ext = u32 (num_cycles + seq) in
    let next = u32 (num_cycles + 0x10000) in
    if leb maxseq16 seq
    then record { cycles = num_cycles; highest = ext; extseqnr = ext }
    else if ltb dif1 dif2
    then record { cycles = next; highest = u32 (next + seq); extseqnr = u32 (next + seq) }
    else record { cycles = num_cycles; highest = exthighseqnr; extseqnr = ext }

-- `ts2` of the jitter: the signed difference of two timestamps that may have wrapped.
unfoldable pub timestamp_diff : (curts prev_timestamp : ℕ) → ℤ
timestamp_diff curts prev =
    let up = curts - prev in
    let down = prev - curts in
    if ltb prev curts
    then (if ltb up 0x10000000 then pos up else negsuc (2 ^ 32 - up - 1))
    else if ltb curts prev
    then (if ltb down 0x10000000 then negsuc (down - 1) else pos (2 ^ 32 - down))
    else pos 0

-- `fraclost`, from the packets expected and received since the last report
unfoldable pub fraction_lost : (W : Type 0) ⦃d : Double W⦄ → (expected num : ℕ) → ℕ
fraction_lost W ⦃d⦄ expected num =
    let frac = d.div (d.of_nat (expected - num)) (d.of_nat expected) in
    if ltb expected num then 0 else d.to_uint8 (d.mul frac (d.literal 256 0))

module _ {W : Type 0} ⦃d : Double W⦄ where
  open d use {of_nat, literal, add, sub, mul, div, neg, lt, to_uint8, to_uint32}

  -- The constructor.
  unfoldable pub source_stats : SourceStats W
  source_stats = record {
    received_data = false;
    packets_received = 0;
    num_cycles = 0;
    baseseqnr = 0;
    exthighseqnr = 0;
    prev_ext_high_seqnr = 0;
    jitter = 0;
    prev_timestamp = 0;
    djitter = of_nat 0;
    prev_packtime = time_zero;
    last_msg_time = time_zero;
    last_rtp_time = time_zero;
    last_note_time = time_zero;
    num_new_packets = 0;
    saved_ext_seqnr = 0;
  }

  -- "This is the first received packet". The number of the stream is set, also for a subflow.
  unfoldable pub first_packet :
      SourceStats W → RtpPacket W → (seq : ℕ) → (recvtime : W) → SourceStats W × RtpPacket W
  first_packet st pack seq recvtime =
      let base = if seq == 0 then 0xFFFF else seq - 1 in
      let highest = u32 (base + 1) in
      (
        record st {
          received_data = true;
          packets_received = u32 (st.packets_received + 1);
          num_new_packets = u32 (st.num_new_packets + 1);
          num_cycles = if seq == 0 then 0x10000 else st.num_cycles;
          baseseqnr = base;
          exthighseqnr = highest;
          prev_packtime = recvtime;
          prev_ext_high_seqnr = base;
          saved_ext_seqnr = base;
          prev_timestamp = pack.timestamp;
          last_msg_time = recvtime;
          last_rtp_time = recvtime;
        },
        record pack { extseqnr = highest },
      )

  -- "Calculate jitter": the new `m_djitter` and `m_jitter`
  unfoldable pub update_jitter : SourceStats W → (curts : ℕ) → (recvtime tsunit : W) → W × ℕ
  update_jitter st curts recvtime tsunit =
      let ts1 = div (sub recvtime st.prev_packtime) tsunit in
      let ts2 = of_int (timestamp_diff curts st.prev_timestamp) in
      let diff = sub ts1 ts2 in
      let size = if lt diff (of_nat 0) then neg diff else diff in
      let djitter = add st.djitter (div (sub size st.djitter) (literal 16 0)) in
      if lt (of_nat 0) tsunit then (djitter, to_uint32 djitter) else (of_nat 0, 0)

  -- "already got packets"
  unfoldable pub next_packet :
      SourceStats W
      → RtpPacket W
      → (seq : ℕ) → (subflow : Bool) → (recvtime tsunit : W) → SourceStats W × RtpPacket W
  next_packet st pack seq subflow recvtime tsunit =
      let e = extend st.num_cycles st.exthighseqnr seq in
      let j = update_jitter st pack.timestamp recvtime tsunit in
      (
        record st {
          packets_received = u32 (st.packets_received + 1);
          num_new_packets = u32 (st.num_new_packets + 1);
          num_cycles = e.cycles;
          exthighseqnr = e.highest;
          djitter = j.0;
          jitter = j.1;
          prev_packtime = recvtime;
          prev_timestamp = pack.timestamp;
          last_msg_time = recvtime;
          last_rtp_time = recvtime;
        },
        if subflow
            then record pack { subflow_extseqnr = e.extseqnr }
            else record pack { extseqnr = e.extseqnr },
      )

  -- `source_stats::process_packet`, with `pack->recvtime()` for `recvtime`
  unfoldable pub process_packet :
      SourceStats W
      → RtpPacket W
      → (subflow : Bool) → (recvtime tsunit : W) → SourceStats W × RtpPacket W
  process_packet st pack subflow recvtime tsunit =
      let seq = if subflow then pack.subflow_extseqnr else pack.extseqnr in
      if st.received_data
      then next_packet st pack seq subflow recvtime tsunit
      else first_packet st pack seq recvtime

  pub start_new_interval : SourceStats W → SourceStats W
  start_new_interval st = record st { num_new_packets = 0; saved_ext_seqnr = st.exthighseqnr }

  -- `lsr`: the middle 32 bits of the NTP time of the last sender report
  unfoldable pub last_sr : Option (SrPacket W) → ℕ
  last_sr none = 0
  last_sr (some sr) = sr.ntp_msw % 65536 * 65536 + sr.ntp_lsw / 65536 % 65536

  -- `dlsr`: the delay since then, in units of 1/65536 seconds
  unfoldable pub delay_since_sr : Option (SrPacket W) → (curtime : W) → ℕ
  delay_since_sr none curtime = 0
  delay_since_sr (some sr) curtime = to_uint32 (mul (sub curtime sr.recv_time) (literal 65536 0))

  -- `curtime` is what `rtp_time::now()` answers; the parameter `currtime` of the code is not used.
  unfoldable pub fill_receiver_report :
      SourceStats W
      → (ssrc : ℕ) → Option (SrPacket W)
      → (curtime : W) → ReceiverReport × SourceStats W
  unfolding start_new_interval
  fill_receiver_report st ssrc sr curtime =
      let packlost = sub32 (sub32 st.exthighseqnr st.baseseqnr) st.packets_received in
      (
        record {
          ssrc = ssrc;
          fractionlost =
              fraction_lost W (sub32 st.exthighseqnr st.saved_ext_seqnr) st.num_new_packets;
          packetslost = packlost % 2 ^ 24;
          exthighseqnr = st.exthighseqnr;
          jitter = st.jitter;
          lsr = last_sr sr;
          dlsr = delay_since_sr sr curtime;
        },
        start_new_interval st,
      )
