-- ===== src/Examples/Reports.antt =====
-- Reports that arrive.
use mprtplib.Prelude.{
  ◌∙◌, sym, subst, ◌+◌, ◌≤◌, length, inr, inl, ◌⊎◌, ℕ, ◌*◌, ◌<◌, ◌≡◌, ◌≢◌, refl, arith, true, List,
  [], ◌∷◌, ◌++◌, drop, length-drop,
}
use mprtplib.Bytes.Laws.{u8_at-out}
use mprtplib.Prelude.Result.{Result, ok, fault, stuck}
use mprtplib.Bytes.{Memory}
use mprtplib.Struct.{count_at, length_at, block_length_at, reads, packettype_at}
use mprtplib.Packet.{RawPacket}
use mprtplib.Rtcp.{rr_packet}
use mprtplib.Rtcp.Build.{
  Counts, Stamp, ReceiverReport, sender_report_packet, receiver_report_bytes, receiver_block,
  make_rr_packet, subflows_rr_packet,
}
use mprtplib.Session.{process_rr_packet, Handlers, process_rtcp_packet, mprtcp_loop}
use mprtplib.Session.Reports.{FitsStamp, FitsReport, rr_of}
use mprtplib.Session.SenderReports.{process_rtcp_packet-sender_report_packet}
use mprtplib.Session.ReceiverReports.{process_rtcp_packet-rr_packets}
use mprtplib.Session.Repeats.{process_rr_packet-times}
use mprtplib.Session.Termination.{
  HandlersEnd, BlockAt, first_block, next_block, PartAt, first_part, next_part, ZeroBlock,
  HasZeroBlock, HangsInside, process_rtcp_packet-ne-stuck, mprtcp_loop_hangs,
}
use mprtplib.Examples.{raw_of}

-- Handlers that write down the subflows that they are called for.
abbrev logging : Handlers ℕ ℕ (List ℕ)
logging = record {
  on_rtp_packet = λ pkt i s. ok (true, pkt, s);
  on_rtcp_sr_packet = λ pkt id i s. ok (s ++ (id ∷ pkt.packet_count ∷ []));
  on_rtcp_rr_packet = λ pkt id ssrc i s. ok (s ++ (id ∷ pkt.exthighseqnr ∷ []));
}

logging-HandlersEnd : HandlersEnd logging
logging-HandlersEnd = record { sr_ends = λ p id i s e. cc; rr_ends = λ p id ssrc i s e. cc }

abbrev pub stamp : Stamp
stamp = record { timestamp = 100; ntp_msw = 3900000000; ntp_lsw = 65536 }

pub stamp-FitsStamp : FitsStamp stamp
stamp-FitsStamp = record {
  timestamp_fits = omega arith;
  msw_fits = omega arith;
  lsw_fits = omega arith;
}

abbrev pub counts : ℕ → ℕ → Counts
counts id packets = record { subflow_id = id; packet_count = packets; octet_count = packets * 10 }

abbrev sr_raw : RawPacket ℕ
sr_raw = raw_of (sender_report_packet 9 stamp (counts 0 30) (counts 1 20 ∷ counts 2 10 ∷ []))

process_rtcp_packet-sender_report_packet_example :
    process_rtcp_packet logging sr_raw 0 [] ≡ ok (0 ∷ 30 ∷ 1 ∷ 20 ∷ 2 ∷ 10 ∷ [])
process_rtcp_packet-sender_report_packet_example =
    process_rtcp_packet-sender_report_packet logging 0 sr_raw 9 stamp (counts 0 30)
      (counts 1 20 ∷ counts 2 10 ∷ []) [] refl (omega arith) stamp-FitsStamp
      (record { id_fits = omega arith; packets_fit = omega arith; octets_fit = omega arith })
      (
        record { id_fits = omega arith; packets_fit = omega arith; octets_fit = omega arith },
        (record { id_fits = omega arith; packets_fit = omega arith; octets_fit = omega arith }, tt),
      )
      (omega arith)

abbrev report : ℕ → ReceiverReport
report seq = record {
  ssrc = 9;
  fractionlost = 12;
  packetslost = 3;
  exthighseqnr = seq;
  jitter = 4;
  lsr = 5;
  dlsr = 6;
}

report-FitsReport : (seq : ℕ) → seq < 1000 → FitsReport (report seq)
report-FitsReport seq h = record {
  ssrc_fits = omega arith;
  fraction_fits = omega arith;
  lost_fits = omega arith;
  seq_fits = omega arith;
  jitter_fits = omega arith;
  lsr_fits = omega arith;
  dlsr_fits = omega arith;
}

abbrev rr_raw : RawPacket ℕ
rr_raw = raw_of (
    make_rr_packet 8 (report 500)
    ++ subflows_rr_packet 8 9 ((1, report 300) ∷ (2, report 200) ∷ []))

process_rtcp_packet-rr_packets_example :
    process_rtcp_packet logging rr_raw 0 [] ≡ ok (0 ∷ 500 ∷ 1 ∷ 300 ∷ 2 ∷ 200 ∷ [])
process_rtcp_packet-rr_packets_example =
    process_rtcp_packet-rr_packets logging 0 rr_raw 8 9 (report 500)
      ((1, report 300) ∷ (2, report 200) ∷ []) [] refl (omega arith)
      (report-FitsReport 500 (omega arith))
      (
        record { id_fits = omega arith; report_fits = report-FitsReport 300 (omega arith) },
        (record { id_fits = omega arith; report_fits = report-FitsReport 200 (omega arith) }, tt),
      )
      (omega arith)

-- A part of `rr_raw` begins at its first byte, or at its MPRTP packet behind the first report.
parts : (m : ℕ) → PartAt rr_raw.bytes m → (m ≡ 0) ⊎ ((m ≡ 32) ⊎ (length rr_raw.bytes ≤ m))
unfolding make_rr_packet subflows_rr_packet receiver_report_bytes receiver_block reads
parts m first_part = inl refl
parts m (next_part off len before lt e) = elim (parts off before) [
  | inl start ↦
      let stated : ok 7 ≡ ok len = rw (start, length_at) at e in
      let eq : 7 ≡ len = cc in inr (inl (omega arith))
  | inr (inl second) ↦
      let stated : ok 20 ≡ ok len = rw (second, length_at) at e in
      let eq : 20 ≡ len = cc in inr (inr (omega arith))
  | inr (inr behind) ↦ absurd (omega arith)
]

abbrev mprtp_part : Memory
mprtp_part = drop 32 rr_raw.bytes

-- Its two blocks have 36 bytes each.
blocks : (k : ℕ) → BlockAt mprtp_part 84 k → (k ≡ 12) ⊎ ((k ≡ 48) ⊎ (84 ≤ k))
unfolding make_rr_packet subflows_rr_packet receiver_report_bytes receiver_block reads
blocks k first_block = inl refl
blocks k (next_block off len before lt e) = elim (blocks off before) [
  | inl start ↦
      let stated : ok 9 ≡ ok len = rw (start, block_length_at) at e in
      let eq : 9 ≡ len = cc in inr (inl (omega arith))
  | inr (inl second) ↦
      let stated : ok 9 ≡ ok len = rw (second, block_length_at) at e in
      let eq : 9 ≡ len = cc in inr (inr (omega arith))
  | inr (inr behind) ↦ absurd (omega arith)
]

no_zero_block : ¬ HasZeroBlock mprtp_part
unfolding make_rr_packet subflows_rr_packet receiver_report_bytes receiver_block reads
no_zero_block (len, stated, zero_at) =
    let same : ok 20 ≡ ok len = stated in
    let eq : 20 ≡ len = cc in
    let (k, block, lt, zero_len) : ZeroBlock mprtp_part 84 =
      subst (λ n. ZeroBlock mprtp_part ((n + 1) * 4)) (sym eq) zero_at in
    elim (blocks k block) [
      | inl start ↦ nine (rw start at zero_len)
      | inr (inl second) ↦ nine (rw second at zero_len)
      | inr (inr behind) ↦ absurd (omega arith)
    ]
  where
    nine : ◌≡◌ {A = Result ℕ} (ok 9) (ok 0) → ⊥
    nine e = cc

same_value : {a b : ℕ} → ok a ≡ ok b → a ≡ b
same_value e = cc

other_type : ◌≡◌ {A = Result ℕ} (ok 201) (ok 211) → ⊥
other_type e = let n = same_value e in absurd (omega (arith, n))

never_hangs : ¬ HangsInside rr_raw.bytes
unfolding make_rr_packet reads
never_hangs (m, part, mprtp, zero_block) = elim (parts m part) [
  | inl start ↦ other_type (subst (λ k. packettype_at (drop k rr_raw.bytes) ≡ ok 211) start mprtp)
  | inr (inl second) ↦
      no_zero_block (subst (λ k. HasZeroBlock (drop k rr_raw.bytes)) second zero_block)
  | inr (inr behind) ↦ outside (
      sym (u8_at-out (drop m rr_raw.bytes) 1 (omega (arith, length-drop m rr_raw.bytes, behind)))
      ∙ mprtp)
]
  where
    outside : ◌≢◌ {A = Result ℕ} fault (ok 211)
    outside e = cc

process_rtcp_packet-ne-stuck_example : process_rtcp_packet logging rr_raw 0 [] ≢ stuck
process_rtcp_packet-ne-stuck_example =
    process_rtcp_packet-ne-stuck logging 0 rr_raw [] logging-HandlersEnd never_hangs

-- An MPRTP packet with a block of another type and length 0.
abbrev zero_block : Memory
zero_block = 128 ∷ 211 ∷ 0 ∷ 2 ∷ 0 ∷ 0 ∷ 0 ∷ 9 ∷ 1 ∷ 0 ∷ 0 ∷ 0 ∷ []

mprtcp_loop_hangs_example : mprtcp_loop logging 0 (7, 5000) 40 1000 zero_block 12 8 [] ≡ stuck
unfolding reads
mprtcp_loop_hangs_example =
    mprtcp_loop_hangs logging 0 (7, 5000) 40 zero_block 12 8 1 [] (omega arith) refl
      (λ e. omega arith) refl 1000

-- A report packet that counts two blocks.
abbrev two_blocks : Memory
two_blocks =
    130
    ∷ 201
    ∷ 0
    ∷ 13
    ∷ 0
    ∷ 0
    ∷ 0
    ∷ 8
    ∷ (receiver_report_bytes (report 500) ++ receiver_report_bytes (report 300))

process_rr_packet-times_example :
    process_rr_packet logging 0 (7, 5000) 40 two_blocks 0 [] ≡ ok (0 ∷ 500 ∷ 0 ∷ 500 ∷ [])
unfolding count_at reads rr_packet receiver_report_bytes
process_rr_packet-times_example =
    process_rr_packet-times logging 0 (7, 5000) 40 two_blocks 2 0 8
      (rr_of (7, 5000) 40 (report 500)) [] refl refl refl
