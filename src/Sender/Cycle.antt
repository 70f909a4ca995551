-- ===== src/Sender/Cycle.antt =====
-- The reports of the sender, its callback and `sender::poll` (src/mprtp_sender.cpp).
use mprtplib.Prelude.{
  ℕ, ◌+◌, Bool, true, false, ◌&&◌, not, List, [], ◌∷◌, ltb, leb, ◌==◌, if◌then◌else◌, length,
  get_elem?, map,
}
use mprtplib.Prelude.Int.{ℤ, pos, negsuc}
use mprtplib.Prelude.Result.{Result, ok, fault, ◌>>=◌, or_fault}
use mprtplib.Bytes.{Memory}
use mprtplib.Double.{Double}
use mprtplib.Time.{is_zero, get_ntp_time}
use mprtplib.Rtcp.{RrPacket}
use mprtplib.Rtcp.Build.{Counts, sender_report_packet}
use mprtplib.Interface.{Interface}
use mprtplib.Subflow
use mprtplib.Subflow.{Subflow, new_subflow}
use mprtplib.World.{take_time}
use mprtplib.Session.{Handlers}
use mprtplib.Session.Poll.{Session, Rounds, poll_session}
use mprtplib.Sender.{
  Sender, max_pack_size, select_subflow, update_stream_bitrate, get_next_timestamp, send_via,
}
use mprtplib.Sender.Distribution.{recalc_subflow_percentage}

-- `b - a >= 5`
abbrev five_later : ℤ → ℤ → Bool
five_later (pos a) (pos b) = leb (a + 5) b
five_later (pos a) (negsuc b) = false
five_later (negsuc a) (pos b) = leb 5 (b + a + 1)
five_later (negsuc a) (negsuc b) = leb (b + 5) a

module _ {W : Type 0} ⦃d : Double W⦄ where
  open d use {of_nat, literal, add, sub, mul, div, lt, le, to_uint32}

  -- What the loop of `make_subflow_sender_report` reads of a subflow.
  abbrev pub counts_of : Subflow W → Counts
  counts_of sf = record {
    subflow_id = sf.subflow_id;
    packet_count = sf.packet_count;
    octet_count = sf.octet_count;
  }

  -- The bytes of `send_sender_report`.
  unfoldable pub report_of : Sender W → Memory
  report_of s =
      let ntp = get_ntp_time s.last_packet_time in
      sender_report_packet s.ssrc
        (record { timestamp = s.timestamp; ntp_msw = ntp.msw; ntp_lsw = ntp.lsw })
        (record { subflow_id = 0; packet_count = s.packet_count; octet_count = s.octet_count })
        (map counts_of s.subflows)

  unfoldable pub send_sender_report : Sender W → Result (Sender W)
  send_sender_report s = do
    let s1 = get_next_timestamp s
    let pkt = report_of s1
    (k, s2) ← (if ltb max_pack_size (length pkt) then fault else select_subflow s1)
    sf ← or_fault (get_elem? s2.subflows k)
    let (s3, ret) = send_via k sf pkt (length pkt) 0 true s2
    let s4 = update_stream_bitrate (length pkt) s3
    ok (record s4 { last_sender_report_time = s4.last_packet_time })

  -- The loop of `on_rtcp_rr_packet`: whether there is a subflow with that number, how often its
  -- `process_rr_packet` asks for the time, and the subflows after it.
  unfoldable pub report_to :
      (subflow_id : ℕ)
      → RrPacket W
      → (now1 now2 : W) → List (Subflow W)
      → Bool × ℕ × List (Subflow W)
  report_to subflow_id pkt now1 now2 [] = (false, 0, [])
  report_to subflow_id pkt now1 now2 (sf ∷ rest) =
      let later = report_to subflow_id pkt now1 now2 rest in
      let reported = Subflow.process_rr_packet sf pkt now1 now2 in
      if sf.subflow_id == subflow_id
      then (true, Subflow.clock_calls sf pkt now1, reported ∷ rest)
      else (later.0, later.1, sf ∷ later.2)

  unfoldable pub on_rtcp_rr_packet :
      RrPacket W → (subflow_id sender_ssrc : ℕ) → Interface W → Sender W → Result (Sender W)
  on_rtcp_rr_packet pkt subflow_id sender_ssrc iface s =
      let (now1, w1) = take_time s.world in
      let (now2, _) = take_time w1 in
      let (found, calls, sfs) = report_to subflow_id pkt now1 now2 s.subflows in
      let w = record s.world { times_taken = s.world.times_taken + calls } in
      let reported = record s { subflows = sfs; recalc_distribution = true; world = w } in
      ok (if not (subflow_id == 0) && found then reported else s)

  -- The virtual functions of `sender`; the others are left to `session`.
  unfoldable pub sender_handlers : Handlers W (Interface W) (Sender W)
  sender_handlers = record {
    on_rtp_packet = λ pkt iface s. ok (true, pkt, s);
    on_rtcp_sr_packet = λ pkt subflow_id iface s. ok s;
    on_rtcp_rr_packet = on_rtcp_rr_packet;
  }

  -- `if(m_sb_time...)` of `poll`: the bitrate of the stream, once a second.
  unfoldable pub measure_stream : (curtime : W) → Sender W → Sender W
  measure_stream curtime s =
      let measured = record s {
        stream_bitrate = div (of_nat s.sb_size) (sub curtime s.sb_time);
        sb_size = 0;
        sb_time = curtime;
      } in
      if is_zero s.sb_time
      then record s { sb_time = curtime }
      else if le (add s.sb_time (of_nat 1)) curtime
      then measured
      else s

  -- `if(m_recalc_distribution)` of `poll`
  unfoldable pub redistribute : Sender W → Sender W
  redistribute s =
      if s.recalc_distribution
      then record s {
        subflows = recalc_subflow_percentage s.stream_bitrate s.subflows;
        recalc_distribution = false;
      }
      else s

  -- `get_seconds() - get_seconds() >= 5`, on `int64_t`
  abbrev pub report_due : W → Sender W → Bool
  report_due curtime s =
      not (is_zero s.last_sender_report_time)
      && five_later (d.to_int64 s.last_sender_report_time) (d.to_int64 curtime)

  unfoldable pub poll_sender : Sender W → Result (Sender W)
  poll_sender s = do
    let (curtime, w) = take_time s.world
    let s1 = record s { world = w }
    s2 ← (if report_due curtime s1 then send_sender_report s1 else ok s1)
    ok (redistribute (measure_stream curtime s2))

  unfoldable pub poll : (ℕ → Rounds W) → Session W (Sender W) → Result (ℤ × Session W (Sender W))
  poll rounds s = do
    (ret, s') ← poll_session sender_handlers rounds s
    object ← poll_sender s'.object
    ok (ret, record s' { object = object })
