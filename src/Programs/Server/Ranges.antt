-- ===== src/Programs/Server/Ranges.antt =====
-- The numbers that examples/server.cpp keeps, on any bytes.
use mprtplib.Prelude.{
  ℕ, zero, suc, ◌+◌, ◌^◌, ◌<◌, ◌≡◌, sym, ◌∙◌, arith, List, [], ◌∷◌, All, length, subst,
}
use mprtplib.Prelude.Result.{ok, Holds, Holds->>=, Holds-after}
use mprtplib.Address.{Text}
use mprtplib.Bytes.{AreBytes}
use mprtplib.Double.{Double}
use mprtplib.Interface.{Interface}
use mprtplib.Packet.{RawPacket, RtpPacket}
use mprtplib.World.{World}
use mprtplib.Session.Poll.{Session, Rounds, fetch_packet}
use mprtplib.Session.Traffic.{Bring, Carries}
use mprtplib.Receiver.{Receiver, poll}
use mprtplib.Receiver.Ranges.{FitsSources, IsTyped, poll-IsTyped}
use mprtplib.Stat.Ranges.{FitsNumbers}
use mprtplib.Programs.{Opening}
use mprtplib.Programs.Server.{
  Line, ServerSettings, print_packet, drain, start_server, serve_once, serve,
}
use mprtplib.Programs.Server.Serving.{waiting-Unused, start_server-packets}

module _ {W S : Type 0} (R : RawPacket W → Type 0) (Q : RtpPacket W → Type 0) (P : S → Type 0) where
  -- The inner loop takes packets from the queue and changes nothing else.
  drain-Carries :
      (fuel : ℕ) (ifaces : List (Interface W)) (pkts : List (RtpPacket W)) (object : S)
      → Carries R Q P (record { interfaces = ifaces; packets = pkts; object = object })
      → Holds
          (λ r. Carries R Q P r.1)
          (drain fuel (record { interfaces = ifaces; packets = pkts; object = object }))
  unfolding drain fetch_packet
  drain-Carries zero ifaces pkts object c = tt
  drain-Carries (suc fuel) ifaces [] object c = c
  drain-Carries (suc fuel) ifaces (pkt ∷ rest) object c =
      Holds-after (λ r. Carries R Q P r.1) (print_packet pkt) _
        λ line.
          Holds->>= (λ r. Carries R Q P r.1) (λ r. Carries R Q P r.1)
            (drain fuel (record { interfaces = ifaces; packets = rest; object = object })) _
            (drain-Carries fuel ifaces rest object
              (record { waiting = c.waiting; queued = (c.queued).1; kept = c.kept }))
            λ r c'. c'

module _ {W : Type 0} ⦃d : Double W⦄ (range32 : (x : W) → d.to_uint32 x < 2 ^ 32) where
  abbrev BringBytes : (ℕ → Rounds W) → Type 0
  BringBytes = Bring (λ raw. AreBytes raw.bytes)

  serve_once-IsTyped :
      (rounds : ℕ → Rounds W) (s : Session W (Receiver W))
      → BringBytes rounds
      → IsTyped s
      → Holds (λ r. IsTyped r.1) (serve_once rounds s)
  unfolding serve_once
  serve_once-IsTyped rounds s brings c =
      Holds->>= (λ r. IsTyped r.1) (λ r. IsTyped r.1) (drain (length s.packets + 1) s) _
        (drain-Carries _ _ _ (length s.packets + 1) s.interfaces s.packets s.object c)
        λ r c1.
          Holds->>= (λ r. IsTyped r.1) (λ r. IsTyped r.1) (poll rounds r.1) _
            (poll-IsTyped range32 rounds r.1 brings c1) λ r2 c2. c2

  serve-IsTyped_from :
      (passes : List (ℕ → Rounds W)) (s : Session W (Receiver W))
      → All BringBytes passes
      → IsTyped s
      → Holds (λ r. IsTyped r.1) (serve passes s)
  unfolding serve
  serve-IsTyped_from [] s brings c = c
  serve-IsTyped_from (rounds ∷ rest) s brings c =
      Holds->>= (λ r. IsTyped r.1) (λ r. IsTyped r.1) (serve_once rounds s) _
        (serve_once-IsTyped rounds s brings.0 c)
        λ r c1.
          Holds->>= (λ r. IsTyped r.1) (λ r. IsTyped r.1) (serve rest r.1) _
            (serve-IsTyped_from rest r.1 brings.1 c1) λ r2 c2. c2

  start_server-IsTyped :
      (inet_addr : Text → ℕ) (opens : ℕ → Opening) (o : ServerSettings) (w : World W)
      (start : Session W (Receiver W))
      → start_server inet_addr opens o w ≡ ok start
      → IsTyped start
  start_server-IsTyped inet_addr opens o w start started =
      let (s0, e, none_yet, unused, no_sources, own) = start_server-packets inet_addr opens o w in
      subst IsTyped (same_start (sym e ∙ started)) (record {
        waiting = waiting-Unused (λ raw. AreBytes raw.bytes) s0.interfaces unused;
        queued = subst (All FitsNumbers) (sym none_yet) tt;
        kept = record {
          ssrc_fits = rw own (omega arith);
          sources_fit = subst FitsSources (sym no_sources) tt;
        };
      })
    where
      same_start : {a b : Session W (Receiver W)} → ok a ≡ ok b → a ≡ b
      same_start e = cc

  -- After any number of passes of the server's loop that return, whatever bytes the sockets brought,
  -- the numbers of the sources, of their subflows, of the statistics and of the last sender reports are
  -- in the ranges of their C++ types, and so are the five numbers of the queued packets that the
  -- statistics use. A conversion to `uint32_t` is taken to be in the range of that type.
  pub serve-IsTyped :
      (inet_addr : Text → ℕ) (opens : ℕ → Opening) (o : ServerSettings) (w : World W)
      (passes : List (ℕ → Rounds W)) (lines : List Line) (start s : Session W (Receiver W))
      → start_server inet_addr opens o w ≡ ok start
      → All BringBytes passes
      → serve passes start ≡ ok (lines, s)
      → IsTyped s
  serve-IsTyped inet_addr opens o w passes lines start s started brings served =
      subst (Holds (λ r. IsTyped r.1)) served (
        serve-IsTyped_from passes start brings
          (start_server-IsTyped inet_addr opens o w start started))
