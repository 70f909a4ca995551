-- ===== src/Sender/Steady.antt =====
-- The state of `sender` (src/mprtp_sender.cpp) that is sound, and the steps of its reports and its poll
-- that leave the numbers alone.
use mprtplib.Prelude.{
  ℕ, ◌^◌, ◌<◌, ◌≡◌, refl, ap, sym, ◌∙◌, arith, true, inl, inr, some, List, map, subst, get_elem?,
  All, Bool-cases, ◌==◌, ltb, length, if_both, ◌&&◌, not, if◌then◌else◌,
}
use mprtplib.Prelude.Result.{fault, or_fault, Holds-or_fault, Holds, Holds->>=}
use mprtplib.Bytes.{Memory}
use mprtplib.Double.{Double}
use mprtplib.Rtcp.{RrPacket}
use mprtplib.Interface.{Interface}
use mprtplib.Stat.{u32}
use mprtplib.Subflow
use mprtplib.Subflow.{Subflow}
use mprtplib.World.{take_time, take_random}
use mprtplib.Sender.{
  Sender, max_pack_size, select_subflow, get_next_timestamp, send_via, update_stream_bitrate,
}
use mprtplib.Sender.Cycle.{
  report_of, send_sender_report, report_to, on_rtcp_rr_packet, measure_stream, redistribute,
}
use mprtplib.Sender.Lists.{Route, route, IsSoundSubflow, total}
use mprtplib.Sender.Alike.{Alike, report_to-Alike, recalc_subflow_percentage-Alike, Alike-eq}
use mprtplib.Sender.Sending.{get_next_timestamp-keeps}
use mprtplib.Sender.Reporting.{set-get_elem?}

-- The numbers are in the ranges of their types, the counts of the stream are the sums of those of the
-- subflows modulo 2 ^ 32, and the subflows lead where they did, under the same SSRC.
pub record IsSound {W : Type 0} (routes : List (Route W)) (ssrc : ℕ) (s : Sender W) : Type 0 where
  pub sequence_fits : s.sequence_number < 2 ^ 16
  pub timestamp_fits : s.timestamp < 2 ^ 32
  pub subflows_sound : All IsSoundSubflow s.subflows
  pub packets_add_up : s.packet_count ≡ u32 (total (λ sf. sf.packet_count) s.subflows)
  pub octets_add_up : s.octet_count ≡ u32 (total (λ sf. sf.octet_count) s.subflows)
  pub same_routes : map route s.subflows ≡ routes
  pub same_ssrc : s.ssrc ≡ ssrc

module _ {W : Type 0} ⦃d : Double W⦄ where
  -- What the invariant reads, from one state to the next.
  pub record Steady (before after : Sender W) : Type 0 where
    pub number : after.sequence_number ≡ before.sequence_number
    pub timestamp_fits : before.timestamp < 2 ^ 32 → after.timestamp < 2 ^ 32
    pub lists : Alike before.subflows after.subflows
    pub packets : after.packet_count ≡ before.packet_count
    pub octets : after.octet_count ≡ before.octet_count
    pub source : after.ssrc ≡ before.ssrc

  pub Steady-IsSound :
      {routes : List (Route W)} {ssrc : ℕ} (s s' : Sender W)
      → Steady s s'
      → IsSound routes ssrc s
      → IsSound routes ssrc s'
  Steady-IsSound s s' step h = record {
    sequence_fits = rw step.number h.sequence_fits;
    timestamp_fits = step.timestamp_fits h.timestamp_fits;
    subflows_sound = step.lists.sound h.subflows_sound;
    packets_add_up = step.packets ∙ h.packets_add_up ∙ ap u32 (sym step.lists.packets);
    octets_add_up = step.octets ∙ h.octets_add_up ∙ ap u32 (sym step.lists.octets);
    same_routes = step.lists.routes ∙ h.same_routes;
    same_ssrc = step.source ∙ h.same_ssrc;
  }

  pub Steady-then : {a b c : Sender W} → Steady a b → Steady b c → Steady a c
  Steady-then ab bc = record {
    number = bc.number ∙ ab.number;
    timestamp_fits = λ h. bc.timestamp_fits (ab.timestamp_fits h);
    lists = record {
      sound = λ h. bc.lists.sound (ab.lists.sound h);
      routes = bc.lists.routes ∙ ab.lists.routes;
      packets = bc.lists.packets ∙ ab.lists.packets;
      octets = bc.lists.octets ∙ ab.lists.octets;
    };
    packets = bc.packets ∙ ab.packets;
    octets = bc.octets ∙ ab.octets;
    source = bc.source ∙ ab.source;
  }

  -- A step that leaves all of it alone, but the world and the times.
  pub unmoved :
      (s s' : Sender W)
      → ((s'.subflows ≡ s.subflows)
          × (s'.sequence_number ≡ s.sequence_number)
          × (s'.timestamp ≡ s.timestamp)
          × (s'.packet_count ≡ s.packet_count)
          × (s'.octet_count ≡ s.octet_count)
          × (s'.ssrc ≡ s.ssrc))
      → Steady s s'
  unmoved s s' e = record {
    number = e.1;
    timestamp_fits = λ h. rw e.2 h;
    lists = Alike-eq s.subflows s'.subflows e.0;
    packets = e.3;
    octets = e.4;
    source = e.5;
  }

  pub get_next_timestamp-Steady : (s : Sender W) → Steady s (get_next_timestamp s)
  get_next_timestamp-Steady s =
      let (sfs, ssrc, number, _, _, range, packets, octets) = get_next_timestamp-keeps s in
      record {
        number = number;
        timestamp_fits = λ h. range;
        lists = Alike-eq s.subflows _ sfs;
        packets = packets;
        octets = octets;
        source = ssrc;
      }

  update_stream_bitrate-Steady : (n : ℕ) (s : Sender W) → Steady s (update_stream_bitrate n s)
  unfolding update_stream_bitrate take_time
  update_stream_bitrate-Steady n s = unmoved s _ (ground arith)

  pub measure_stream-Steady : (curtime : W) (s : Sender W) → Steady s (measure_stream curtime s)
  unfolding measure_stream
  measure_stream-Steady curtime s = unmoved s _ (ground arith)

  pub redistribute-Steady : (s : Sender W) → Steady s (redistribute s)
  unfolding redistribute
  redistribute-Steady s =
      if_both (Steady s) s.recalc_distribution _ _
        (record {
          number = refl;
          timestamp_fits = λ h. h;
          lists = recalc_subflow_percentage-Alike s.stream_bitrate s.subflows;
          packets = refl;
          octets = refl;
          source = refl;
        })
        (unmoved s s (refl, refl, refl, refl, refl, refl))

  pub on_rtcp_rr_packet-Steady :
      (pkt : RrPacket W) (id sender_ssrc : ℕ) (iface : Interface W) (s : Sender W)
      → Holds (Steady s) (on_rtcp_rr_packet pkt id sender_ssrc iface s)
  unfolding on_rtcp_rr_packet
  on_rtcp_rr_packet-Steady pkt id sender_ssrc iface s =
      let now1 = (take_time s.world).0 in
      let now2 = (take_time (take_time s.world).1).0 in
      let reported = report_to id pkt now1 now2 s.subflows in
      if_both (Steady s) (not (id == 0) && reported.0) _ _
        (record {
          number = refl;
          timestamp_fits = λ h. h;
          lists = report_to-Alike id pkt now1 now2 s.subflows;
          packets = refl;
          octets = refl;
          source = refl;
        })
        (unmoved s s (refl, refl, refl, refl, refl, refl))

  pub select_subflow-Holds :
      (s : Sender W)
      → Holds (λ r. r.1 ≡ record s { world = (take_random s.world).1 }) (select_subflow s)
  unfolding select_subflow take_random
  select_subflow-Holds s = elim (Bool-cases (length s.subflows == 0)) [
    | inl t ↦ rw t tt
    | inr f ↦ rw f refl
  ]

  send_via_report-Steady :
      (k : ℕ) (sf : Subflow W) (bytes : Memory) (len : ℕ) (s : Sender W)
      → get_elem? s.subflows k ≡ some sf
      → Steady s (send_via k sf bytes len 0 true s).0
  unfolding send_via Subflow.send
  send_via_report-Steady k sf bytes len s at =
      unmoved s _ (set-get_elem? s.subflows k sf at, refl, refl, refl, refl, refl)

  moved : {a b b' : Sender W} → b' ≡ b → Steady a b → Steady a b'
  moved e h = subst (Steady _) (sym e) h

  pub send_sender_report-Steady : (s : Sender W) → Holds (Steady s) (send_sender_report s)
  unfolding send_sender_report
  send_sender_report-Steady s =
      let s1 = get_next_timestamp s in
      Holds->>= (λ r. r.1 ≡ record s1 { world = (take_random s1.world).1 }) (Steady s)
        (if ltb max_pack_size (length (report_of s1)) then fault else select_subflow s1) _
        (if_both (Holds _) _ fault (select_subflow s1) tt (select_subflow-Holds s1))
        λ (k, s2) e.
          Holds->>= (λ sf. get_elem? s2.subflows k ≡ some sf) (Steady s)
            (or_fault (get_elem? s2.subflows k)) _ (Holds-or_fault (get_elem? s2.subflows k))
            λ sf at.
              let s3 = (send_via k sf (report_of s1) (length (report_of s1)) 0 true s2).0 in
              let s4 = update_stream_bitrate (length (report_of s1)) s3 in
              Steady-then (get_next_timestamp-Steady s) (
                Steady-then (moved e (unmoved s1 _ (refl, refl, refl, refl, refl, refl))) (
                  Steady-then
                    (send_via_report-Steady k sf (report_of s1) (length (report_of s1)) s2 at)
                    (Steady-then (update_stream_bitrate-Steady (length (report_of s1)) s3)
                      (unmoved s4 _ (refl, refl, refl, refl, refl, refl)))))
