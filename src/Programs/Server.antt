-- ===== src/Programs/Server.antt =====
-- examples/server.cpp: `main`.
pub mod Printing
pub mod Queue
pub mod Serving
pub mod Ranges
pub mod Reports
use mprtplib.Prelude.{
  ℕ, zero, suc, ◌+◌, ◌%◌, ◌^◌, Bool, Option, none, some, List, [], ◌∷◌, ◌++◌, ◌==◌, length, drop,
  if◌then◌else◌,
}
use mprtplib.Prelude.Int.{ℤ}
use mprtplib.Prelude.Result.{Result, ok, fault, stuck, ◌>>=◌}
use mprtplib.Address.{Text}
use mprtplib.Bytes.{Memory, u8_at}
use mprtplib.Double.{Double}
use mprtplib.Packet.{RtpPacket}
use mprtplib.World.{World}
use mprtplib.Session.Poll.{Session, Rounds, fetch_packet}
use mprtplib.Receiver.{Receiver, new_receiver, poll}
use mprtplib.Programs.{uint16, Opening, add_interfaces}

pub data ServerOption : Type 0 where
  opt_p : Text → ServerOption
  opt_i : Text → ServerOption
  opt_other : ServerOption

pub record ServerSettings : Type 0 where
  pub ifaces : List Text
  pub port : ℕ

-- `while ((opt = getopt(...)) != -1)`. `none` is the exit of `usage`.
unfoldable pub read_server_options :
    (atoi : Text → ℤ) → List ServerOption → ServerSettings → Option ServerSettings
read_server_options atoi [] o = some o
read_server_options atoi (opt_p arg ∷ rest) o =
    read_server_options atoi rest (record o { port = uint16 (atoi arg) })
read_server_options atoi (opt_i arg ∷ rest) o =
    read_server_options atoi rest (record o { ifaces = o.ifaces ++ (arg ∷ []) })
read_server_options atoi (opt_other ∷ rest) o = none

unfoldable pub server_settings : (atoi : Text → ℤ) → List ServerOption → Option ServerSettings
server_settings atoi options =
    elim (read_server_options atoi options (record { ifaces = []; port = 22000 })) [
      | none ↦ none
      | some o ↦ if length o.ifaces == 0 then none else some o
    ]

-- What `main` prints of a packet: the length, and the bytes.
abbrev pub Line : Type 0
Line = ℕ × List ℕ

-- `for(uint32_t i = 0; i < ...; i++)`, with `n` rounds left
unfoldable pub read_bytes : (n i : ℕ) → (buffer : Memory) → Result (List ℕ)
read_bytes zero i buffer = ok []
read_bytes (suc n) i buffer = do
  b ← u8_at buffer i
  bytes ← read_bytes n (i + 1) buffer
  ok (b ∷ bytes)

module _ {W : Type 0} where
  -- `get_payload_data()`; there is nothing to read behind a null pointer.
  unfoldable pub payload_data : RtpPacket W → Memory
  payload_data pkt = elim pkt.rawpack [
    | none ↦ []
    | some raw ↦ elim pkt.payload [ none ↦ [] | some at ↦ drop at raw.bytes ]
  ]

  unfoldable pub print_packet : RtpPacket W → Result Line
  print_packet pkt = do
    let len = pkt.payloadlength % 2 ^ 32
    bytes ← read_bytes len 0 (payload_data pkt)
    ok (len, bytes)

  -- `while (pkt)`, for at most `fuel` calls of `fetch_packet`
  unfoldable pub drain : {S : Type 0} → (fuel : ℕ) → Session W S → Result (List Line × Session W S)
  drain zero s = stuck
  drain (suc fuel) s = elim (fetch_packet s).0 [
    | none ↦ ok ([], s)
    | some pkt ↦ do
      line ← print_packet pkt
      (lines, s') ← drain fuel (fetch_packet s).1
      ok (line ∷ lines, s')
  ]

module _ {W : Type 0} ⦃d : Double W⦄ where
  open d use {literal, div}

  -- The receiver of `main`, and its interfaces.
  unfoldable pub start_server :
      (inet_addr : Text → ℕ)
      → (opens : ℕ → Opening) → ServerSettings
      → World W
      → Result (Session W (Receiver W))
  start_server inet_addr opens o w = do
    receiver ← new_receiver 0 (div (literal 1 0) (literal 1000 0)) 0xBEAF w
    ok (
        add_interfaces inet_addr opens 0 o.ifaces o.port
          (record { interfaces = []; packets = []; object = receiver }))

  -- One pass of `while (!stop_listen)`: each call of `fetch_packet` takes a packet from the queue.
  unfoldable pub serve_once :
      (ℕ → Rounds W) → Session W (Receiver W) → Result (List Line × Session W (Receiver W))
  serve_once rounds s = do
    (lines, s1) ← drain (length s.packets + 1) s
    (_, s2) ← poll rounds s1
    ok (lines, s2)

  -- The loop until the signal, on what the sockets bring in each pass.
  unfoldable pub serve :
      List (ℕ → Rounds W) → Session W (Receiver W) → Result (List Line × Session W (Receiver W))
  serve [] s = ok ([], s)
  serve (rounds ∷ rest) s = do
    (lines, s1) ← serve_once rounds s
    (later, s2) ← serve rest s1
    ok (lines ++ later, s2)
