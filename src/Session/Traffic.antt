-- ===== src/Session/Traffic.antt =====
-- What arrives at `session::poll` (src/mprtp_session.cpp) and what it leaves in the queue of packets.
pub mod Kept
pub mod Returns
use mprtplib.Prelude.{
  ℕ, ◌+◌, ◌≡◌, arith, Bool, true, false, inl, inr, Option, none, some, List, [], ◌∷◌, ◌++◌, ◌==◌,
  not, All, if◌then◌else◌, if_both, Bool-cases,
}
use mprtplib.Prelude.Int.{ℤ, pos, is_pos, is_neg}
use mprtplib.Prelude.Result.{ok, Holds, Holds->>=, Holds-from}
use mprtplib.Bytes.{Memory}
use mprtplib.Packet.{RawPacket, RtpPacket, rtp_packet}
use mprtplib.Interface
use mprtplib.Interface.{Interface, Round, Polled, rtp_select, receive, poll_loop}
use mprtplib.Session.{Handlers, process_rtcp_packet, process_rtp_packet, accept_rtp_packet}
use mprtplib.Session.Poll.{
  Session, Rounds, poll_interfaces, process_packets, process_interfaces, poll_session,
}

pub All-end :
    {A : Type 0} (P : A → Type 0) (xs : List A) (x : A) → All P xs → P x → All P (xs ++ (x ∷ []))
All-end P [] x all h = (h, tt)
All-end P (y ∷ rest) x all h = (all.0, All-end P rest x all.1 h)

pub All-weaken :
    {A : Type 0} (P Q : A → Type 0) (xs : List A) → ((x : A) → P x → Q x) → All P xs → All Q xs
All-weaken P Q [] f all = tt
All-weaken P Q (x ∷ rest) f all = (f x all.0, All-weaken P Q rest f all.1)

-- The datagram of one round, if there is one.
abbrev pub Arrives :
    {W : Type 0}
    → (RawPacket W → Type 0)
    → (rtcp : Bool) → (recvtime : W) → Option (Memory × ℕ × ℕ)
    → Type 0
Arrives R rtcp recvtime none = Unit {0}
Arrives R rtcp recvtime (some (bytes, from_ip, from_port)) = R (record {
  bytes = bytes;
  from_address = (from_ip, from_port);
  is_rtcp = rtcp;
  recvtime = recvtime;
})

-- Each datagram that the sockets bring satisfies `R`.
abbrev pub Bring : {W : Type 0} → (RawPacket W → Type 0) → (ℕ → Rounds W) → Type 0
Bring R rounds =
    (k : ℕ)
    → All (λ r. Arrives R false r.recvtime r.received) (rounds k).rtp_rounds
      × All (λ r. Arrives R true r.recvtime r.received) (rounds k).rtcp_rounds

-- `R` of the datagrams that wait, `Q` of the packets in the queue, `P` of the object.
pub record Carries {W S : Type 0} (R : RawPacket W → Type 0) (Q : RtpPacket W → Type 0)
    (P : S → Type 0) (s : Session W S) : Type 0 where
  pub waiting : All (λ i. All R i.packets) s.interfaces
  pub queued : All Q s.packets
  pub kept : P s.object

module _ {W : Type 0} where
  Arrives-weaken :
      (R R' : RawPacket W → Type 0)
      → ((raw : RawPacket W) → R raw → R' raw)
      → (rtcp : Bool) (recvtime : W) (received : Option (Memory × ℕ × ℕ))
      → Arrives R rtcp recvtime received
      → Arrives R' rtcp recvtime received
  Arrives-weaken R R' f rtcp recvtime none a = tt
  Arrives-weaken R R' f rtcp recvtime (some (bytes, from_ip, from_port)) a = f _ a

  pub Bring-weaken :
      (R R' : RawPacket W → Type 0) (rounds : ℕ → Rounds W)
      → ((raw : RawPacket W) → R raw → R' raw)
      → Bring R rounds
      → Bring R' rounds
  Bring-weaken R R' rounds f brings k =
      let weaken =
        λ (rtcp : Bool) (r : Round W). Arrives-weaken R R' f rtcp r.recvtime r.received in
      (
        All-weaken _ _ (rounds k).rtp_rounds (weaken false) (brings k).0,
        All-weaken _ _ (rounds k).rtcp_rounds (weaken true) (brings k).1,
      )

  pub Carries-weaken :
      {S : Type 0} (R R' : RawPacket W → Type 0) (Q Q' : RtpPacket W → Type 0) (P : S → Type 0)
      (s : Session W S)
      → ((raw : RawPacket W) → R raw → R' raw)
      → ((pkt : RtpPacket W) → Q pkt → Q' pkt)
      → Carries R Q P s
      → Carries R' Q' P s
  Carries-weaken R R' Q Q' P s f g c = record {
    waiting = All-weaken _ _ s.interfaces (λ i all. All-weaken R R' i.packets f all) c.waiting;
    queued = All-weaken Q Q' s.packets g c.queued;
    kept = c.kept;
  }

-- What the handlers make of datagrams of which `R` holds.
pub record HandlersCarry {W S : Type 0} (h : Handlers W (Interface W) S) (R : RawPacket W → Type 0)
    (Q : RtpPacket W → Type 0) (P : S → Type 0) : Type 0 where
  pub rtcp_carries :
      (raw : RawPacket W) (i : Interface W) (s : S)
      → R raw
      → P s
      → Holds P (process_rtcp_packet h raw i s)
  pub rtp_carries :
      (raw : RawPacket W) (pkt : RtpPacket W) (i : Interface W) (s : S)
      → R raw
      → rtp_packet raw ≡ ok pkt
      → pkt.error ≡ pos 0
      → P s
      → Holds (λ r. Q r.1 × P r.2) (h.on_rtp_packet pkt i s)

-- Nothing is known of the datagrams.
abbrev pub Anything : {W : Type 0} → RawPacket W → Type 0
Anything raw = Unit {0}

module _ {W : Type 0} where
  any_round :
      (rtcp : Bool) (recvtime : W) (received : Option (Memory × ℕ × ℕ))
      → Arrives Anything rtcp recvtime received
  any_round rtcp recvtime none = tt
  any_round rtcp recvtime (some datagram) = tt

  any_datagram :
      (rtcp : Bool) (rounds : List (Round W))
      → All (λ r. Arrives Anything rtcp r.recvtime r.received) rounds
  any_datagram rtcp [] = tt
  any_datagram rtcp (r ∷ rest) = (any_round rtcp r.recvtime r.received, any_datagram rtcp rest)

  pub any_rounds : (rounds : ℕ → Rounds W) → Bring Anything rounds
  any_rounds rounds k =
      (any_datagram false (rounds k).rtp_rounds, any_datagram true (rounds k).rtcp_rounds)

  any_waiting : (raws : List (RawPacket W)) → All Anything raws
  any_waiting [] = tt
  any_waiting (raw ∷ rest) = (tt, any_waiting rest)

  pub any_interfaces : (ifaces : List (Interface W)) → All (λ i. All Anything i.packets) ifaces
  any_interfaces [] = tt
  any_interfaces (i ∷ rest) = (any_waiting i.packets, any_interfaces rest)
