-- ===== src/Programs/Server/Serving.antt =====
-- The loop of examples/server.cpp.
use mprtplib.Prelude.{
  ℕ, arith, ◌+◌, ◌≡◌, refl, ap, sym, ◌∙◌, List, [], ◌∷◌, map, All, length, subst, if_both,
}
use mprtplib.Prelude.Result.{ok, Holds, Holds->>=}
use mprtplib.Prelude.Int.{ℤ}
use mprtplib.Address.{Text, Endpoint, create_endpoint}
use mprtplib.Interface.{Interface, new_interface, open_sockets}
use mprtplib.Session.Traffic.{All-end}
use mprtplib.Double.{Double}
use mprtplib.World.{World}
use mprtplib.Session.Poll.{Session, Rounds, add_interface}
use mprtplib.Receiver.{Receiver, new_receiver, poll}
use mprtplib.Packet.{RawPacket}
use mprtplib.Programs.Client.Start.{add_interfaces-object}
use mprtplib.Programs.{Opening, add_interfaces}
use mprtplib.Programs.Server.{Line, ServerSettings, drain, start_server, serve_once, serve}
use mprtplib.Programs.Server.Printing.{IsPrintable, line_of, drain-payloads}
use mprtplib.Programs.Server.Queue.{poll-IsPrintable}

add_interface-packets :
    {W S : Type 0} (addr : Endpoint) (a b c e : ℤ) (s : Session W S)
    → (add_interface addr a b c e s).1.packets ≡ s.packets
unfolding add_interface
add_interface-packets addr a b c e s = if_both (λ t. t.packets ≡ s.packets) _ _ s refl refl

add_interfaces-packets :
    {W S : Type 0} (inet_addr : Text → ℕ) (opens : ℕ → Opening) (k : ℕ) (addrs : List Text)
    (port : ℕ) (s : Session W S)
    → (add_interfaces inet_addr opens k addrs port s).packets ≡ s.packets
unfolding add_interfaces
add_interfaces-packets inet_addr opens k [] port s = refl
add_interfaces-packets inet_addr opens k (addr ∷ rest) port s =
    add_interfaces-packets inet_addr opens (k + 1) rest _ _
    ∙ add_interface-packets (create_endpoint inet_addr addr port) (opens k).rtp_sock
        (opens k).rtcp_sock (opens k).bind_rtp (opens k).bind_rtcp s

-- An interface that was opened has received nothing.
abbrev pub Unused : {W : Type 0} → Interface W → Type 0
Unused i = i.packets ≡ []

open_sockets-Unused :
    {W : Type 0} (i : Interface W) (a b c e : ℤ) → Unused i → Unused (open_sockets i a b c e).1
unfolding open_sockets
open_sockets-Unused i a b c e none = ground arith

add_interface-Unused :
    {W S : Type 0} (addr : Endpoint) (a b c e : ℤ) (s : Session W S)
    → All Unused s.interfaces
    → All Unused (add_interface addr a b c e s).1.interfaces
unfolding add_interface new_interface
add_interface-Unused addr a b c e s all =
    if_both (λ t. All Unused t.interfaces) _ _ s
      (All-end Unused s.interfaces _ all (open_sockets-Unused (new_interface addr) a b c e refl))
      all

pub add_interfaces-Unused :
    {W S : Type 0} (inet_addr : Text → ℕ) (opens : ℕ → Opening) (k : ℕ) (addrs : List Text)
    (port : ℕ) (s : Session W S)
    → All Unused s.interfaces
    → All Unused (add_interfaces inet_addr opens k addrs port s).interfaces
unfolding add_interfaces
add_interfaces-Unused inet_addr opens k [] port s all = all
add_interfaces-Unused inet_addr opens k (addr ∷ rest) port s all =
    add_interfaces-Unused inet_addr opens (k + 1) rest _ _ (
      add_interface-Unused (create_endpoint inet_addr addr port) (opens k).rtp_sock
        (opens k).rtcp_sock (opens k).bind_rtp (opens k).bind_rtcp s all)

pub waiting-Unused :
    {W : Type 0} (R : RawPacket W → Type 0) (ifaces : List (Interface W))
    → All Unused ifaces
    → All (λ i. All R i.packets) ifaces
waiting-Unused R [] all = tt
waiting-Unused R (i ∷ rest) all = (subst (All R) (sym all.0) tt, waiting-Unused R rest all.1)

module _ {W : Type 0} ⦃d : Double W⦄ where
  abbrev Served : List Line × Session W (Receiver W) → Type 0
  Served r = All IsPrintable r.1.packets

  serve_once-IsPrintable :
      (rounds : ℕ → Rounds W) (s : Session W (Receiver W))
      → All IsPrintable s.packets
      → Holds Served (serve_once rounds s)
  unfolding serve_once
  serve_once-IsPrintable rounds s all = rw (drain-payloads s all) (
      Holds->>= (λ r. All IsPrintable (r.1).packets) Served
        (poll rounds (record s { packets = [] })) _
        (poll-IsPrintable rounds (record s { packets = [] }) tt) λ r all'. all')

  serve-IsPrintable :
      (passes : List (ℕ → Rounds W)) (s : Session W (Receiver W))
      → All IsPrintable s.packets
      → Holds Served (serve passes s)
  unfolding serve
  serve-IsPrintable [] s all = all
  serve-IsPrintable (rounds ∷ rest) s all =
      Holds->>= Served Served (serve_once rounds s) _ (serve_once-IsPrintable rounds s all)
        λ r all1.
          Holds->>= Served Served (serve rest r.1) _ (serve-IsPrintable rest r.1 all1)
            λ r2 all2. all2

  pub start_server-packets :
      (inet_addr : Text → ℕ) (opens : ℕ → Opening) (o : ServerSettings) (w : World W)
      → (s : Session W (Receiver W)) × (start_server inet_addr opens o w ≡ ok s)
        × (s.packets ≡ [])
        × All Unused s.interfaces
        × (s.object.sources ≡ [])
        × (s.object.ssrc ≡ 0xBEAF)
  unfolding start_server new_receiver
  start_server-packets inet_addr opens o w = (
    _,
    refl,
    add_interfaces-packets inet_addr opens 0 o.ifaces o.port _,
    add_interfaces-Unused inet_addr opens 0 o.ifaces o.port _ tt,
    ap (λ (r : Receiver W). r.sources) (add_interfaces-object inet_addr opens 0 o.ifaces o.port _),
    ap (λ (r : Receiver W). r.ssrc) (add_interfaces-object inet_addr opens 0 o.ifaces o.port _),
  )

  -- After any number of passes of the server's loop, whatever the sockets brought, the inner loop of
  -- the next pass returns: it prints the payloads of the packets in the queue, in order, and nothing
  -- else, and leaves the queue empty.
  pub serve-drain :
      (inet_addr : Text → ℕ) (opens : ℕ → Opening) (o : ServerSettings) (w : World W)
      (passes : List (ℕ → Rounds W)) (lines : List Line) (start s : Session W (Receiver W))
      → start_server inet_addr opens o w ≡ ok start
      → serve passes start ≡ ok (lines, s)
      → drain (length s.packets + 1) s ≡ ok (map line_of s.packets, record s { packets = [] })
  serve-drain inet_addr opens o w passes lines start s started served =
      let (s0, e, none_yet, _, _, _) = start_server-packets inet_addr opens o w in
      let same : s0 ≡ start = same_start (sym e ∙ started) in
      let empty : start.packets ≡ [] = ap (λ x. x.packets) (sym same) ∙ none_yet in
      drain-payloads s (
        subst (Holds Served) served
          (serve-IsPrintable passes start (subst (All IsPrintable) (sym empty) tt)))
    where
      same_start : {a b : Session W (Receiver W)} → ok a ≡ ok b → a ≡ b
      same_start e = cc
