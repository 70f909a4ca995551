-- ===== src/Programs/Network/Honest.antt =====
-- The two programs of examples/ step by step, on typed lines.
use mathlib.Core.List.{Memᴰ}
use mathlib.Core.List.Memᴰ
use mprtplib.Prelude.{
  ℕ, zero, suc, some, get_elem?, Bool, ◌≡◌, ◌≢◌, refl, ap, sym, ◌∙◌, arith, inl, inr, List, [], ◌∷◌,
  map, All, subst,
}
use mprtplib.Prelude.Result.{ok, Holds, Holds->>=}
use mprtplib.Address.{Text}
use mprtplib.Bytes.{Memory}
use mprtplib.Double.{Double}
use mprtplib.Interface.{Datagram, datagram}
use mprtplib.Packet.{RtpPacket}
use mprtplib.Session.Poll.{Session, Rounds}
use mprtplib.Session.Traffic.{All-weaken, Bring, Carries}
use mprtplib.Subflow.{Subflow}
use mprtplib.Sender.{Sender, send_data}
use mprtplib.Sender.Lists.{Route, route}
use mprtplib.Sender.Sending.{send_data_lem, data_datagram, All-get_elem?}
use mprtplib.Sender.Outbox.{poll-Sends}
use mprtplib.Receiver.{Receiver, poll}
use mprtplib.Programs.Client.{client_ssrc}
use mprtplib.Programs.Client.Threads.{
  Client, MainThread, reading, waiting, sending, sent, joining, interrupted, Step, check, leave,
  lock_poll, do_poll, unlock_poll, read_line, read_end, lock_main, do_send, unlock_main, interrupt,
}
use mprtplib.Programs.Client.Threads.Laws.{IsRunning, IsShort, IsSound-fits, sent_to, some_subflow}
use mprtplib.Programs.Server.{Line, serve_once}
use mprtplib.Programs.Server.Printing.{line_of, drain-payloads}
use mprtplib.Programs.Server.Queue.{poll-Carries}
use mprtplib.Programs.Delivery.{whole}
use mprtplib.Programs.Network.{entered}
use mprtplib.Programs.Network.Genuine.{IsData, ids_of, Genuine, Prints, receiver_handlers-Prints}

-- The line that the main thread holds, if any.
abbrev pub Held : (Text → Type 0) → MainThread → Type 0
Held Typed reading = Unit {0}
Held Typed (waiting line) = Typed line
Held Typed (sending line) = Typed line
Held Typed sent = Unit {0}
Held Typed joining = Unit {0}
Held Typed (interrupted held) = Unit {0}

-- `Typed` of a printed line.
abbrev pub Read : (Text → Type 0) → Line → Type 0
Read Typed l = (line : Text) × Typed line × (l ≡ whole line)

pub All-mem :
    (P : Memory → Type 0) (outs : List Datagram) (bytes : Memory)
    → All (λ out. P out.bytes) outs
    → Memᴰ bytes (map (λ out. out.bytes) outs)
    → P bytes
All-mem P [] bytes all m = absurd (Memᴰ.not-nil m)
All-mem P (out ∷ rest) bytes all (Memᴰ.head e) = subst P (sym e) all.0
All-mem P (out ∷ rest) bytes all (Memᴰ.tail m) = All-mem P rest bytes all.1 m

-- A subflow of the client leads along one of its routes.
chosen-routed :
    (W : Type 0) (sfs : List (Subflow W)) (k : ℕ) (sf : Subflow W) (routes : List (Route W))
    → map route sfs ≡ routes
    → get_elem? sfs k ≡ some sf
    → Memᴰ sf.subflow_id (ids_of routes)
chosen-routed W sfs k sf routes same chosen =
    subst (λ rs. Memᴰ sf.subflow_id (ids_of rs)) same (listed sfs k chosen)
  where
    listed :
        (xs : List (Subflow W)) (i : ℕ)
        → get_elem? xs i ≡ some sf
        → Memᴰ sf.subflow_id (ids_of (map route xs))
    listed [] i e = cc
    listed (x ∷ rest) zero e =
        let same : some x ≡ some sf = e in
        let eq : x ≡ sf = cc in Memᴰ.head (ap (λ y. y.subflow_id) (sym eq))
    listed (x ∷ rest) (suc i) e = Memᴰ.tail (listed rest i e)

module _ {W : Type 0} ⦃d : Double W⦄ (routes : List (Route W)) (Typed : Text → Type 0) where
  -- The client holds a typed line, and has sent typed lines and reports.
  pub record IsHonest (c : Client W) : Type 0 where
    pub held : Held Typed c.reader
    pub sent_genuine : All (λ out. Genuine routes Typed out.bytes) c.cli.object.world.sent

  send-IsData :
      (c : Client W) (line : Text)
      → routes ≢ []
      → IsRunning routes c
      → c.reader ≡ sending line
      → Typed line
      → (s' : Sender W) (whole : Bool) → send_data line c.cli.object ≡ ok (whole, s')
      → (out : Datagram) × (s'.world.sent ≡ out ∷ c.cli.object.world.sent)
        × IsData (ids_of routes) Typed out.bytes
  unfolding datagram
  send-IsData c line some_route run at typed s' whole ran =
      let s = c.cli.object in
      let (k, sf, _, s2, e, chosen, _, left, _, _, range, _, _, _) =
        send_data_lem s line (some_subflow routes some_route s run.sound) in
      let same : s2 ≡ s' = sent_to e ran in
      let (id_fits, sseq_fits) =
        All-get_elem? _ s.subflows k sf (IsSound-fits s run.sound) chosen in
      (
        data_datagram s sf line s2.timestamp,
        ap (λ x. x.world.sent) (sym same) ∙ left,
        record {
          line = line;
          seq = s.sequence_number;
          ts = s2.timestamp;
          ssrc = s.ssrc;
          id = sf.subflow_id;
          sseq = sf.sequence_number;
          is_typed = typed;
          is_routed = chosen-routed W s.subflows k sf routes run.sound.same_routes chosen;
          short = subst IsShort at run.short;
          same_bytes = refl;
          seq_fits = run.sound.sequence_fits;
          ts_fits = range;
          ssrc_fits = rw run.sound.same_ssrc (omega arith);
          id_fits = id_fits;
          sseq_fits = sseq_fits;
        },
      )

  -- A step of the client, of which the line that it takes is typed.
  pub Step-IsHonest :
      (a b : Client W) (step : Step a b)
      → routes ≢ []
      → All Typed (entered step)
      → IsRunning routes a
      → IsHonest a
      → IsHonest b
  Step-IsHonest a b (check c at go) some_route all run h = record {
    held = h.held;
    sent_genuine = h.sent_genuine;
  }
  Step-IsHonest a b (leave c at stop) some_route all run h = record {
    held = h.held;
    sent_genuine = h.sent_genuine;
  }
  Step-IsHonest a b (lock_poll c at free) some_route all run h = record {
    held = h.held;
    sent_genuine = h.sent_genuine;
  }
  Step-IsHonest a b (do_poll c rounds ret cli' at e) some_route all run h = record {
    held = h.held;
    sent_genuine =
        subst (Holds (λ r. All (λ out. Genuine routes Typed out.bytes) (r.1).object.world.sent)) e (
          poll-Sends routes client_ssrc (Genuine routes Typed) (λ bytes report. inr report) rounds
            a.cli run.sound h.sent_genuine);
  }
  Step-IsHonest a b (unlock_poll c at) some_route all run h = record {
    held = h.held;
    sent_genuine = h.sent_genuine;
  }
  Step-IsHonest a b (read_line c line at full short) some_route all run h = record {
    held = all.0;
    sent_genuine = h.sent_genuine;
  }
  Step-IsHonest a b (read_end c at) some_route all run h = record {
    held = tt;
    sent_genuine = h.sent_genuine;
  }
  Step-IsHonest a b (lock_main c line at free) some_route all run h = record {
    held = subst (Held Typed) at h.held;
    sent_genuine = h.sent_genuine;
  }
  Step-IsHonest a b (do_send c line whole s' at e) some_route all run h =
      let (out, left, genuine) =
        send-IsData a line some_route run at (subst (Held Typed) at h.held) s' whole e in
      record {
        held = tt;
        sent_genuine =
            subst (All (λ x. Genuine routes Typed x.bytes)) (sym left)
              (inl genuine, h.sent_genuine);
      }
  Step-IsHonest a b (unlock_main c at) some_route all run h = record {
    held = tt;
    sent_genuine = h.sent_genuine;
  }
  Step-IsHonest a b (interrupt c once) some_route all run h = record {
    held = tt;
    sent_genuine = h.sent_genuine;
  }

  abbrev pub Honest : Session W (Receiver W) → Type 0
  Honest = Carries (λ raw. Genuine routes Typed raw.bytes) (Prints Typed) (λ r. Unit {0})

  map-Read :
      (pkts : List (RtpPacket W)) → All (Prints Typed) pkts → All (Read Typed) (map line_of pkts)
  map-Read [] all = tt
  map-Read (pkt ∷ rest) all =
      (((all.0).line, (all.0).is_typed, (all.0).same_line), map-Read rest all.1)

  -- One pass of the server, on what the client has sent.
  pub serve_once-Read :
      (rounds : ℕ → Rounds W) (s : Session W (Receiver W))
      → Bring (λ raw. Genuine routes Typed raw.bytes) rounds
      → Honest s
      → Holds (λ r. All (Read Typed) r.0 × Honest r.1) (serve_once rounds s)
  unfolding serve_once
  serve_once-Read rounds s brings c =
      let printable = All-weaken (Prints Typed) _ s.packets (λ pkt h. h.printable) c.queued in
      rw (drain-payloads s printable) (
        Holds->>= (λ r. Honest r.1) (λ r. All (Read Typed) r.0 × Honest r.1)
          (poll rounds (record s { packets = [] })) _
          (poll-Carries _ (Prints Typed) rounds (record s { packets = [] })
            (receiver_handlers-Prints routes Typed) brings
            (record { waiting = c.waiting; queued = tt; kept = tt }))
          λ r c1. (map-Read s.packets c.queued, c1))
