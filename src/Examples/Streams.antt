-- ===== src/Examples/Streams.antt =====
-- Streams that arrive.
use mprtplib.Prelude.{ℕ, ◌%◌, ◌≡◌, refl, arith, true, false, none, List, [], ◌∷◌}
use mprtplib.Prelude.Int.{pos, negsuc}
use mprtplib.Stat.{SourceStats, source_stats, extend, timestamp_diff, fill_receiver_report}
use mprtplib.Stat.Sequence.{At, extend-late_jump}
use mprtplib.Stat.Jitter.{timestamp_diff-wrap}
use mprtplib.Stat.Loss.{Arrival, Counted, Reports, receive_all, fill_receiver_report-receive_all}
use mprtplib.Examples.{whole, packet_of}

abbrev arrival : ℕ → Arrival ℕ
arrival n = record { number = n; pack = packet_of (n % 65536) 5 1; recvtime = n }

-- Two packets are lost before a wrap, and one after it.
abbrev first : Arrival ℕ
first = arrival 65530

abbrev rest : List (Arrival ℕ)
rest = arrival 65533 ∷ arrival 65536 ∷ arrival 65538 ∷ []

fill_receiver_report-receive_all_example :
    let filled =
      fill_receiver_report (receive_all false 1 source_stats (first ∷ rest)) 9 none 70000 in
    Reports ℕ 65530 65529 65538 4 4 filled.0 × Counted 65530 65538 65538 4 0 filled.1
fill_receiver_report-receive_all_example =
    fill_receiver_report-receive_all false 1 first rest 9 none 70000 (omega arith) (omega arith)
      refl
      ((
        omega arith,
        omega arith,
        refl,
        (omega arith, omega arith, refl, (omega arith, omega arith, refl, tt)),
      ))
      (omega arith)

abbrev running : SourceStats ℕ
running = record {
  received_data = true;
  packets_received = 3;
  num_cycles = 0;
  baseseqnr = 65529;
  exthighseqnr = 65533;
  prev_ext_high_seqnr = 0;
  jitter = 0;
  prev_timestamp = 0;
  djitter = 0;
  prev_packtime = 0;
  last_msg_time = 0;
  last_rtp_time = 0;
  last_note_time = 0;
  num_new_packets = 2;
  saved_ext_seqnr = 65530;
}

extend-late_jump_example :
    At 131070 (extend 65536 65540 65534).cycles (extend 65536 65540 65534).highest
    × ((extend 65536 65540 65534).extseqnr ≡ 131070)
extend-late_jump_example =
    extend-late_jump 65540 65534 65536 65540 (record { at_highest = refl; at_cycles = refl })
      (omega arith) (omega arith) refl

timestamp_diff-wrap_example :
    (timestamp_diff 268435453 4294967294 ≡ pos 268435455) × (timestamp_diff 4294967294 5 ≡ negsuc 6)
timestamp_diff-wrap_example =
    timestamp_diff-wrap 4294967294 268435455 6 (omega arith) (omega arith) (omega arith)
