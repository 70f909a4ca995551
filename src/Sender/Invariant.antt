-- ===== src/Sender/Invariant.antt =====
-- What every operation of `sender` (src/mprtp_sender.cpp) keeps.
use mprtplib.Prelude.{
  ℕ, ◌+◌, ◌<◌, ◌≤◌, ◌≡◌, ◌≢◌, refl, ap, sym, ◌∙◌, arith, Bool, true, false, some, List, [], map,
  set, get_elem?, length, subst, if_both, if◌then◌else◌,
}
use mprtplib.Prelude.Int.{ℤ}
use mprtplib.Prelude.Result.{ok, ◌>>=◌, Holds, Holds->>=, Holds-weaken}
use mprtplib.Bytes.{Memory}
use mprtplib.Double.{Double}
use mprtplib.Stat.{u32}
use mprtplib.Subflow.{Subflow}
use mprtplib.World.{take_time}
use mprtplib.Session.Invariants.{HandlersKeep, poll_session-Holds}
use mprtplib.Session.Poll.{Session, Rounds, poll_session}
use mprtplib.Sender.{Sender, send_data}
use mprtplib.Sender.Cycle.{
  send_sender_report, on_rtcp_rr_packet, sender_handlers, measure_stream, redistribute, report_due,
  poll_sender, poll,
}
use mprtplib.Sender.Reporting.{send_sender_report_lem}
use mprtplib.Sender.Lists.{
  length-map-route, Route, route, IsSoundSubflow, total, All-set, total-set, map-set,
}
use mprtplib.Sender.Sending.{send_data_lem, after_send, All-get_elem?}
use mprtplib.Sender.Steady.{
  IsSound, Steady, Steady-IsSound, Steady-then, unmoved, measure_stream-Steady, redistribute-Steady,
  on_rtcp_rr_packet-Steady, send_sender_report-Steady,
}

-- Counts that wrap add up, whether the sum wraps before or after.
u32-carry : (sum sum' old n : ℕ) → sum' + old ≡ sum + u32 (old + n) → u32 (u32 sum + n) ≡ u32 sum'
u32-carry sum sum' old n e = omega arith

module _ {W : Type 0} ⦃d : Double W⦄ where
  poll_sender-IsSound :
      {routes : List (Route W)} {ssrc : ℕ} (s : Sender W)
      → IsSound routes ssrc s
      → Holds (IsSound routes ssrc) (poll_sender s)
  unfolding poll_sender take_time
  poll_sender-IsSound {routes} {ssrc} s h =
      let curtime = (take_time s.world).0 in
      let s1 = record s { world = (take_time s.world).1 } in
      let started : Steady s s1 = unmoved s s1 (refl, refl, refl, refl, refl, refl) in
      let due = report_due curtime s1 in
      Holds->>= (Steady s1) (IsSound routes ssrc) (if due then send_sender_report s1 else ok s1)
        (λ s2. ok (redistribute (measure_stream curtime s2)))
        (if_both (Holds (Steady s1)) due (send_sender_report s1) (ok s1)
          (send_sender_report-Steady s1) (unmoved s1 s1 (refl, refl, refl, refl, refl, refl)))
        λ s2 reported.
          Steady-IsSound s _
            (Steady-then started (
              Steady-then reported (
                Steady-then (measure_stream-Steady curtime s2)
                  (redistribute-Steady (measure_stream curtime s2)))))
            h

  -- The callback of `sender` keeps the invariant, and `session` has the others.
  sender_handlers-keep :
      (routes : List (Route W)) (ssrc : ℕ) → HandlersKeep sender_handlers (IsSound routes ssrc)
  unfolding sender_handlers
  sender_handlers-keep routes ssrc = record {
    rtp_keeps = λ pkt iface s h. h;
    sr_keeps = λ pkt id iface s h. h;
    rr_keeps = λ pkt id sender_ssrc iface s h.
        Holds-weaken (Steady s) (IsSound routes ssrc) (on_rtcp_rr_packet pkt id sender_ssrc iface s)
          (on_rtcp_rr_packet-Steady pkt id sender_ssrc iface s)
          λ s' step. Steady-IsSound s s' step h;
  }

  -- `sender::poll` keeps the sender sound, whatever the sockets received: the numbers stay in the
  -- ranges of their types, the counts of the stream are the sums of those of its subflows modulo
  -- 2 ^ 32, and the subflows lead where they did under the same SSRC.
  pub poll-IsSound :
      (routes : List (Route W)) (ssrc : ℕ) (rounds : ℕ → Rounds W) (s : Session W (Sender W))
      → IsSound routes ssrc s.object
      → Holds (λ r. IsSound routes ssrc (r.1).object) (poll rounds s)
  unfolding poll
  poll-IsSound routes ssrc rounds s h =
      Holds->>= (λ r. IsSound routes ssrc (r.1).object) (λ r. IsSound routes ssrc (r.1).object)
        (poll_session sender_handlers rounds s) _
        (poll_session-Holds sender_handlers (IsSound routes ssrc) (sender_handlers-keep routes ssrc)
          rounds s h)
        λ r kept.
          Holds->>= (IsSound routes ssrc) (λ r. IsSound routes ssrc (r.1).object)
            (poll_sender (r.1).object) _ (poll_sender-IsSound (r.1).object kept) λ object done. done

  report_or_not :
      (b : Bool) (s : Sender W)
      → s.subflows ≢ []
      → length s.subflows ≤ 2046
      → (s' : Sender W) × ((if b then send_sender_report s else ok s) ≡ ok s')
  report_or_not false s n few = (s, refl)
  report_or_not true s n few =
      let (_, _, s', e, _, _, _, _) = send_sender_report_lem s n few in (s', e)

  poll_sender-returns :
      (s : Sender W)
      → s.subflows ≢ []
      → length s.subflows ≤ 2046
      → (s' : Sender W) × (poll_sender s ≡ ok s')
  unfolding poll_sender
  poll_sender-returns s n few =
      let curtime = (take_time s.world).0 in
      let s1 = record s { world = (take_time s.world).1 } in
      let (s2, e) = report_or_not (report_due curtime s1) s1 n few in
      (
        redistribute (measure_stream curtime s2),
        ap (λ r. r >>= λ s3. ok (redistribute (measure_stream curtime s3))) e,
      )

  -- `sender::poll` returns wherever `session::poll` does, for a sound sender with 1 to 2046 subflows,
  -- and leaves it sound: no report from the network moves a number out of its range, breaks the sums of
  -- the counts, or changes where the subflows lead.
  pub poll-poll_session :
      (routes : List (Route W)) (ssrc : ℕ) (rounds : ℕ → Rounds W) (s s1 : Session W (Sender W))
      (ret : ℤ)
      → IsSound routes ssrc s.object
      → 0 < length routes
      → length routes ≤ 2046
      → poll_session sender_handlers rounds s ≡ ok (ret, s1)
      → (s' : Session W (Sender W)) × (poll rounds s ≡ ok (ret, s')) × IsSound routes ssrc s'.object
  unfolding poll
  poll-poll_session routes ssrc rounds s s1 ret h some_route few ran =
      let kept = subst (Holds (λ r. IsSound routes ssrc (r.1).object)) ran (
        poll_session-Holds sender_handlers (IsSound routes ssrc) (sender_handlers-keep routes ssrc)
          rounds s h) in
      let same : length s1.object.subflows ≡ length routes =
        sym (length-map-route s1.object.subflows) ∙ ap length kept.same_routes in
      let n : s1.object.subflows ≢ [] = λ e. omega (arith, ap length e) in
      let (object, e) = poll_sender-returns s1.object n (omega arith) in
      let sound = subst (Holds (IsSound routes ssrc)) e (poll_sender-IsSound s1.object kept) in
      (
        record s1 { object = object },
        ap (λ r. r >>= λ x. poll_sender (x.1).object >>= λ o. ok (x.0, record (x.1) { object = o }))
              ran
            ∙ ap (λ r. r >>= λ o. ok (ret, record s1 { object = o })) e,
        sound,
      )

  after_send-IsSound :
      (sent : Bool) (sf : Subflow W) (len : ℕ)
      → IsSoundSubflow sf
      → IsSoundSubflow (after_send sent sf len)
  after_send-IsSound true sf len h = record {
    id_fits = h.id_fits;
    sequence_fits = omega arith;
    packets_fit = omega arith;
    octets_fit = omega arith;
    congestion_fits = h.congestion_fits;
  }
  after_send-IsSound false sf len h = record {
    id_fits = h.id_fits;
    sequence_fits = omega arith;
    packets_fit = h.packets_fit;
    octets_fit = h.octets_fit;
    congestion_fits = h.congestion_fits;
  }

  -- A count of the stream goes on with that of one subflow, or both stay.
  counted :
      (f : Subflow W → ℕ) (sfs : List (Subflow W)) (k : ℕ) (old new : Subflow W) (count n : ℕ)
      (sent : Bool)
      → get_elem? sfs k ≡ some old
      → f new ≡ (if sent then u32 (f old + n) else f old)
      → count ≡ u32 (total f sfs)
      → (if sent then u32 (count + n) else count) ≡ u32 (total f (set sfs k new))
  counted f sfs k old new count n true at grown h =
      rw h (u32-carry _ _ (f old) n (omega (arith, total-set f sfs k old new at, grown)))
  counted f sfs k old new count n false at grown h =
      h ∙ ap u32 (omega (arith, total-set f sfs k old new at, grown))

  -- `send_data` on a sound sender with a subflow returns, and leaves a sound sender.
  pub send_data-IsSound :
      (routes : List (Route W)) (ssrc : ℕ) (s : Sender W) (payload : Memory)
      → s.subflows ≢ []
      → IsSound routes ssrc s
      → (sent : Bool) × (s' : Sender W) × (send_data payload s ≡ ok (sent, s'))
        × IsSound routes ssrc s'
  send_data-IsSound routes ssrc s payload n h =
      let (k, sf, sent, s', e, at, _, _, sfs, seq, ts, packets, octets, source) =
        send_data_lem s payload n in
      let new = after_send sent sf (length payload) in
      let sound =
        after_send-IsSound sent sf (length payload)
          (All-get_elem? _ s.subflows k sf h.subflows_sound at) in
      (
        sent,
        s',
        e,
        record {
          sequence_fits = omega (arith, seq);
          timestamp_fits = ts;
          subflows_sound = rw sfs (All-set IsSoundSubflow s.subflows k new h.subflows_sound sound);
          packets_add_up =
              packets
              ∙ counted (λ x. x.packet_count) s.subflows k sf new s.packet_count 1 sent at refl
                  h.packets_add_up
              ∙ ap (λ xs. u32 (total (λ x. x.packet_count) xs)) (sym sfs);
          octets_add_up =
              octets
              ∙ counted (λ x. x.octet_count) s.subflows k sf new s.octet_count (length payload) sent
                  at refl h.octets_add_up
              ∙ ap (λ xs. u32 (total (λ x. x.octet_count) xs)) (sym sfs);
          same_routes =
              ap (map route) sfs ∙ map-set route s.subflows k sf new at refl ∙ h.same_routes;
          same_ssrc = source ∙ h.same_ssrc;
        },
      )
