-- ===== src/Programs/Network.antt =====
-- examples/client.cpp and examples/server.cpp at the two ends of a network. A step is a step of one of
-- the client's threads, or a pass of the server's loop. `Net` says what the network may bring to the
-- server of what the client has handed to the system; what it brings to the client is not restricted.
-- A `Carried` datagram was sent: the network may lose, repeat, delay and reorder what it has, and bring
-- it to either kind of socket and under any sender address. A `Directed` one also comes to the kind of
-- socket that it was sent to, RTP or RTCP.
pub mod Genuine
pub mod Honest
pub mod Weaken
pub mod Authentic
pub mod Datagrams
pub mod Passes
pub mod Returns
use mathlib.Core.List.{Memᴰ}
use mprtplib.Prelude.{◌==◌, false, true, Bool, ℕ, ◌≡◌, List, [], ◌∷◌, ◌++◌, map}
use mprtplib.Prelude.Result.{ok}
use mprtplib.Bytes.{Memory}
use mprtplib.Struct.{rtcptype_sr}
use mprtplib.Address.{Text}
use mprtplib.Double.{Double}
use mprtplib.Interface.{Datagram}
use mprtplib.Session.Poll.{Session, Rounds}
use mprtplib.Session.Traffic.{Bring}
use mprtplib.Sender.{Sender}
use mprtplib.Receiver.{Receiver}
use mprtplib.Programs.Client.Threads.{
  Client, threads_of, Step, check, leave, lock_poll, do_poll, unlock_poll, read_line, read_end,
  lock_main, do_send, unlock_main, interrupt,
}
use mprtplib.Programs.Server.{Line, serve_once}

-- `typed` holds the lines that `getline` took, the last one first, and `printed` what the server wrote.
pub record System (W : Type 0) : Type 0 where
  pub client : Client W
  pub server : Session W (Receiver W)
  pub typed : List Text
  pub printed : List Line

-- Both programs have started.
abbrev pub system_of : {W : Type 0} → Session W (Sender W) → Session W (Receiver W) → System W
system_of cli server = record { client = threads_of cli; server = server; typed = []; printed = [] }

-- The bytes are those of a datagram that was sent.
abbrev pub Carried : {W : Type 0} → List Datagram → (ℕ → Rounds W) → Type 0
Carried sent rounds = Bring (λ raw. Memᴰ raw.bytes (map (λ out. out.bytes) sent)) rounds

-- The type of RTCP packet in the second byte, which the client's reports begin with and its data packets
-- do not.
abbrev pub is_report : Memory → Bool
is_report [] = false
is_report (first ∷ []) = false
is_report (first ∷ second ∷ rest) = second == rtcptype_sr

abbrev pub Directed : {W : Type 0} → List Datagram → (ℕ → Rounds W) → Type 0
Directed sent rounds =
    Bring
      (λ raw. Memᴰ raw.bytes (map (λ out. out.bytes) sent) × (raw.is_rtcp ≡ is_report raw.bytes))
      rounds

module _ {W : Type 0} ⦃d : Double W⦄ where
  -- The line that a step of the client takes from its input.
  abbrev pub entered : {a b : Client W} → Step a b → List Text
  entered (read_line c line at full short) = line ∷ []
  entered (check c at go) = []
  entered (leave c at stop) = []
  entered (lock_poll c at free) = []
  entered (do_poll c rounds ret cli' at e) = []
  entered (unlock_poll c at) = []
  entered (read_end c at) = []
  entered (lock_main c line at free) = []
  entered (do_send c line whole s' at e) = []
  entered (unlock_main c at) = []
  entered (interrupt c once) = []

-- `Net` relates what was sent to what the sockets of the server bring in one pass.
module _ {W : Type 0} ⦃d : Double W⦄ (Net : List Datagram → (ℕ → Rounds W) → Type 0) where
  pub data Move : System W → System W → Type 0 where
    client_moves :
        (s : System W) (c' : Client W) (step : Step s.client c')
        → Move s (record s { client = c'; typed = entered step ++ s.typed })
    server_passes :
        (s : System W) (rounds : ℕ → Rounds W) (lines : List Line)
        (server' : Session W (Receiver W))
        → Net s.client.cli.object.world.sent rounds
        → serve_once rounds s.server ≡ ok (lines, server')
        → Move s (record s { server = server'; printed = s.printed ++ lines })

  pub data Run (start : System W) : System W → Type 0 where
    begin : Run start start
    move : {a b : System W} → Run start a → Move a b → Run start b
