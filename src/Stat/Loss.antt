-- ===== src/Stat/Loss.antt =====
-- What a stream of packets leaves in the statistics of src/mprtp_stat.cpp, and in the report.
use mprtplib.Prelude.{
  ℕ, ◌+◌, ◌-◌, ◌%◌, ◌^◌, ◌≤◌, ◌<◌, ◌≡◌, Bool, true, arith, Option, List, [], ◌∷◌, length,
  if◌then◌else◌,
}
use mprtplib.Double.{Double}
use mprtplib.Packet.{RtpPacket}
use mprtplib.Rtcp.{SrPacket}
use mprtplib.Rtcp.Build.{ReceiverReport}
use mprtplib.Stat.{
  SourceStats, first_packet, next_packet, process_packet, source_stats, fill_receiver_report,
  fraction_lost,
}
use mprtplib.Stat.Sequence.{At, extend-ahead}

-- A packet of the stream: the number that the sender counts, of which `pack` carries 16 bits.
pub record Arrival (W : Type 0) : Type 0 where
  pub number : ℕ
  pub pack : RtpPacket W
  pub recvtime : W

module _ {W : Type 0} (subflow : Bool) where
  -- The number of the packet that the statistics of a stream, or of a subflow, go by.
  abbrev pub seq_of : RtpPacket W → ℕ
  seq_of pack = if subflow then pack.subflow_extseqnr else pack.extseqnr

  -- The packets come in order, each less than 2 ^ 15 ahead of the one before.
  abbrev pub InOrder : ℕ → List (Arrival W) → Type 0
  InOrder x [] = Unit {0}
  InOrder x (a ∷ rest) =
      (x < a.number)
      × (a.number < x + 32768)
      × (seq_of a.pack ≡ a.number % 65536)
      × InOrder a.number rest

  abbrev pub last_number : ℕ → List (Arrival W) → ℕ
  last_number x [] = x
  last_number x (a ∷ rest) = last_number a.number rest

  InOrder-grows :
      (x : ℕ) (rest : List (Arrival W)) → InOrder x rest → x + length rest ≤ last_number x rest
  InOrder-grows x [] o = omega arith
  InOrder-grows x (a ∷ rest) (lo, hi, e, o) = omega (arith, InOrder-grows a.number rest o)

-- The stream began at `x0` and is at `x`, where it has brought `n` packets, and the interval of the
-- next report began behind `x1` and has brought `m`.
pub record Counted {W : Type 0} (x0 x1 x n m : ℕ) (st : SourceStats W) : Type 0 where
  pub has_data : st.received_data ≡ true
  pub at_last : At x st.num_cycles st.exthighseqnr
  pub from_first : st.baseseqnr + 1 ≡ x0
  pub all_counted : st.packets_received ≡ n % 2 ^ 32
  pub saved_at : st.saved_ext_seqnr ≡ x1 % 2 ^ 32
  pub new_counted : st.num_new_packets ≡ m % 2 ^ 32

Counted-count :
    {W : Type 0} (x0 x1 x n m n' m' : ℕ) (st : SourceStats W)
    → n ≡ n'
    → m ≡ m'
    → Counted x0 x1 x n m st
    → Counted x0 x1 x n' m' st
Counted-count x0 x1 x n m n' m' st e f c = ground arith

module _ {W : Type 0} ⦃d : Double W⦄ (subflow : Bool) (tsunit : W) where
  -- `process_packet` for one packet after another.
  pub receive_all : SourceStats W → List (Arrival W) → SourceStats W
  receive_all st [] = st
  receive_all st (a ∷ rest) =
      receive_all (process_packet st a.pack subflow a.recvtime tsunit).0 rest

  first-Counted :
      (a : Arrival W)
      → 0 < a.number
      → a.number ≤ 65536
      → seq_of subflow a.pack ≡ a.number % 65536
      → Counted a.number
          (a.number - 1)
          a.number
          1
          1
          (process_packet source_stats a.pack subflow a.recvtime tsunit).0
  unfolding process_packet first_packet source_stats
  first-Counted a lo hi e = ground arith

  next-Counted :
      (x0 x1 x n m : ℕ) (st : SourceStats W) (a : Arrival W)
      → Counted x0 x1 x n m st
      → x < a.number
      → a.number < x + 32768
      → seq_of subflow a.pack ≡ a.number % 65536
      → Counted x0 x1 a.number
          (n + 1)
          (m + 1)
          (process_packet st a.pack subflow a.recvtime tsunit).0
  unfolding process_packet next_packet
  next-Counted x0 x1 x n m st a c lo hi e =
      ground (arith, extend-ahead x a.number st.num_cycles st.exthighseqnr)

  -- Packets that come in order, wraps included, move the state to the last of them, and all count.
  pub receive_all-Counted :
      (x0 x1 x n m : ℕ) (st : SourceStats W) (rest : List (Arrival W))
      → Counted x0 x1 x n m st
      → InOrder subflow x rest
      → Counted x0 x1
          (last_number subflow x rest)
          (n + length rest)
          (m + length rest)
          (receive_all st rest)
  unfolding receive_all
  receive_all-Counted x0 x1 x n m st [] c o =
      Counted-count x0 x1 x n m _ _ st (omega arith) (omega arith) c
  receive_all-Counted x0 x1 x n m st (a ∷ rest) c (lo, hi, e, o) =
      Counted-count x0 x1 _ _ _ _ _ _ (omega arith) (omega arith) (
        receive_all-Counted x0 x1 a.number (n + 1) (m + 1) _ rest
          (next-Counted x0 x1 x n m st a c lo hi e) o)

  -- The first packet sets the state to its own number, and the stream in order behind it moves it on.
  pub stream-Counted :
      (a : Arrival W) (rest : List (Arrival W))
      → 0 < a.number
      → a.number ≤ 65536
      → seq_of subflow a.pack ≡ a.number % 65536
      → InOrder subflow a.number rest
      → Counted a.number
          (a.number - 1)
          (last_number subflow a.number rest)
          (1 + length rest)
          (1 + length rest)
          (receive_all source_stats (a ∷ rest))
  unfolding receive_all
  stream-Counted a rest lo hi e o =
      receive_all-Counted a.number (a.number - 1) a.number 1 1 _ rest (first-Counted a lo hi e) o

-- The values of the report, for counts that no 32-bit counter has passed: the highest number, the
-- packets of the whole stream that are missing, in 24 bits, and the fraction of the interval's packets
-- that are missing, in 256ths, as the double with that quotient is converted to `uint8_t`.
pub record Reports (W : Type 0) ⦃d : Double W⦄ (x0 x1 x n m : ℕ) (rr : ReceiverReport)
    : Type 0 where
  pub reports_highest : rr.exthighseqnr ≡ x
  pub reports_lost : rr.packetslost ≡ (x + 1 - x0 - n) % 2 ^ 24
  pub reports_fraction :
      rr.fractionlost
      ≡ d.to_uint8 (d.mul (d.div (d.of_nat (x - x1 - m)) (d.of_nat (x - x1))) (d.literal 256 0))

module _ {W : Type 0} ⦃d : Double W⦄ where
  pub fill_receiver_report-Counted :
      (x0 x1 x n m : ℕ) (st : SourceStats W) (ssrc : ℕ) (sr : Option (SrPacket W)) (now : W)
      → Counted x0 x1 x n m st
      → x < 2 ^ 32
      → x0 + n ≤ x + 1
      → x1 + m ≤ x
      → Reports W x0 x1 x n m (fill_receiver_report st ssrc sr now).0
        × Counted x0 x x n 0 (fill_receiver_report st ssrc sr now).1
  unfolding fill_receiver_report fraction_lost
  fill_receiver_report-Counted x0 x1 x n m st ssrc sr now c hx hn hm = ground arith

  -- A stream that comes in order from its first number on, which is from 1 to 65536, each packet less
  -- than 2 ^ 15 ahead of the one before, wraps included, without passing 2 ^ 32: the first report
  -- states the last number, exactly the packets of the range that did not come, in 24 bits, and the
  -- conversion to `uint8_t` of 256 times the part of the range that did not come, computed in doubles;
  -- `fill_receiver_report` starts the next interval at the last number.
  pub fill_receiver_report-receive_all :
      (subflow : Bool) (tsunit : W) (a : Arrival W) (rest : List (Arrival W)) (ssrc : ℕ)
      (sr : Option (SrPacket W)) (now : W)
      → 0 < a.number
      → a.number ≤ 65536
      → seq_of subflow a.pack ≡ a.number % 65536
      → InOrder subflow a.number rest
      → last_number subflow a.number rest < 2 ^ 32
      → let n = 1 + length rest in
        let x = last_number subflow a.number rest in
        let filled =
          fill_receiver_report (receive_all subflow tsunit source_stats (a ∷ rest)) ssrc sr now in
        Reports W a.number (a.number - 1) x n n filled.0 × Counted a.number x x n 0 filled.1
  fill_receiver_report-receive_all subflow tsunit a rest ssrc sr now lo hi e o hx =
      let grows = InOrder-grows subflow a.number rest o in
      fill_receiver_report-Counted _ _ _ _ _ _ ssrc sr now
        (stream-Counted subflow tsunit a rest lo hi e o) hx (omega arith) (omega arith)
