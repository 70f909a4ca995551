-- ===== src/Session/Poll.antt =====
-- `session::poll` and the queue of received packets: include/mprtp_session.h and the first function
-- of src/mprtp_session.cpp.
use mprtplib.Prelude.{
  ℕ, ◌+◌, Bool, true, false, Option, none, some, List, [], ◌∷◌, ◌++◌, if◌then◌else◌,
}
use mprtplib.Prelude.Int.{ℤ, pos, is_neg}
use mprtplib.Prelude.Result.{Result, ok, ◌>>=◌}
use mprtplib.Address.{Endpoint}
use mprtplib.Packet.{RawPacket, RtpPacket}
use mprtplib.Interface.{Interface, Round, new_interface, open_sockets, is_same, suspend, poll}
use mprtplib.Session.{Handlers, process_rtcp_packet, process_rtp_packet}

-- The members of `session`, with the object that it is the base of.
pub record Session (W : Type 0) (S : Type 0) : Type 0 where
  pub interfaces : List (Interface W)
  pub packets : List (RtpPacket W)
  pub object : S

-- What the system answers while one interface is polled, on each of its sockets.
pub record Rounds (W : Type 0) : Type 0 where
  pub rtp_rounds : List (Round W)
  pub rtcp_rounds : List (Round W)

module _ {W : Type 0} where
  -- The loop of `suspend_interface`.
  unfoldable pub suspend_first : Endpoint → Bool → List (Interface W) → Bool × List (Interface W)
  suspend_first addr val [] = (false, [])
  suspend_first addr val (i ∷ rest) =
      let later = suspend_first addr val rest in
      if is_same i addr then (true, suspend val i ∷ rest) else (later.0, i ∷ later.1)

  -- "Poll data", from interface `k` on: the loop ends at the first socket that fails.
  unfoldable pub poll_interfaces :
      (rounds : ℕ → Rounds W) → (k : ℕ) → List (Interface W) → ℤ × List (Interface W)
  poll_interfaces rounds k [] = (pos 0, [])
  poll_interfaces rounds k (i ∷ rest) =
      let (status, i1) = poll false (rounds k).rtp_rounds i in
      let (status', i2) = poll true (rounds k).rtcp_rounds i1 in
      let later = poll_interfaces rounds (k + 1) rest in
      if is_neg status
      then (status, i1 ∷ rest)
      else if is_neg status'
      then (status', i2 ∷ rest)
      else (later.0, i2 ∷ later.1)

module _ {W S : Type 0} where
  -- `add_interface`, on the results of the calls that `open` makes.
  unfoldable pub add_interface :
      Endpoint → (rtp_sock rtcp_sock bind_rtp bind_rtcp : ℤ) → Session W S → Bool × Session W S
  add_interface addr rtp_sock rtcp_sock bind_rtp bind_rtcp s =
      let (opened, iface, closed) =
        open_sockets (new_interface addr) rtp_sock rtcp_sock bind_rtp bind_rtcp in
      (opened, if opened then record s { interfaces = s.interfaces ++ (iface ∷ []) } else s)

  unfoldable pub suspend_interface : Endpoint → Bool → Session W S → Bool × Session W S
  suspend_interface addr val s =
      let (found, ifaces) = suspend_first addr val s.interfaces in
      (found, record s { interfaces = ifaces })

  unfoldable pub fetch_packet : Session W S → Option (RtpPacket W) × Session W S
  fetch_packet s = elim s.packets [
    | [] ↦ (none, s)
    | pkt ∷ rest ↦ (some pkt, record s { packets = rest })
  ]

module _ {W S : Type 0} (h : Handlers W (Interface W) S) where
  -- The packets of one interface, in the order in which `fetch_raw_packet` hands them out.
  unfoldable pub process_packets :
      Interface W → List (RawPacket W) → S → List (RtpPacket W) → Result (S × List (RtpPacket W))
  process_packets iface [] s queue = ok (s, queue)
  process_packets iface (raw ∷ rest) s queue = elim raw.is_rtcp [
    | true ↦ do s' ← process_rtcp_packet h raw iface s; process_packets iface rest s' queue
    | false ↦ do
      (s', queue') ← process_rtp_packet h raw iface s queue
      process_packets iface rest s' queue'
  ]

  -- "Process received packets": each interface's queue is empty afterwards.
  unfoldable pub process_interfaces :
      List (Interface W)
      → S
      → List (RtpPacket W)
      → Result (List (Interface W) × S × List (RtpPacket W))
  process_interfaces [] s queue = ok ([], s, queue)
  process_interfaces (i ∷ rest) s queue = do
    (s', queue') ← process_packets i i.packets s queue
    (ifaces, s2, queue2) ← process_interfaces rest s' queue'
    ok (record i { packets = [] } ∷ ifaces, s2, queue2)

  unfoldable pub poll_session : (ℕ → Rounds W) → Session W S → Result (ℤ × Session W S)
  poll_session rounds s = do
    let (status, polled) = poll_interfaces rounds 0 s.interfaces
    (ifaces, object, queue) ←
        (if is_neg status
          then ok (polled, s.object, s.packets)
          else process_interfaces polled s.object s.packets)
    ok (status, record s { interfaces = ifaces; object = object; packets = queue })
