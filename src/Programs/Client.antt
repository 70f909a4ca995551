-- ===== src/Programs/Client.antt =====
-- examples/client.cpp: `main` up to the start of the two threads.
pub mod Threads
pub mod Start
use mprtplib.Prelude.{
  ℕ, ◌+◌, ◌%◌, Bool, true, false, ◌||◌, Option, none, some, List, [], ◌∷◌, ◌++◌, ◌==◌, length,
  if◌then◌else◌,
}
use mprtplib.Prelude.Int.{ℤ}
use mprtplib.Address.{Text, Endpoint, Address, create_endpoint, in_same_subnet}
use mprtplib.Double.{Double}
use mprtplib.World.{World}
use mprtplib.Session.Poll.{Session}
use mprtplib.Sender.{Sender, new_sender}
use mprtplib.Sender.Connect.{connect}
use mprtplib.Programs.{uint16, Opening, add_interfaces}

-- What a call of `getopt` answers; `opt_other` stands for an option that is unknown or has no value.
pub data ClientOption : Type 0 where
  opt_p : Text → ClientOption
  opt_s : Text → ClientOption
  opt_i : Text → ClientOption
  opt_r : Text → ClientOption
  opt_other : ClientOption

pub record ClientSettings : Type 0 where
  pub local_ifaces : List Text
  pub remote_ifaces : List Text
  pub local_port : ℕ
  pub remote_port : ℕ

-- The variables as `main` declares them.
abbrev pub client_defaults : ClientSettings
client_defaults = record {
  local_ifaces = [];
  remote_ifaces = [];
  local_port = 23000;
  remote_port = 22000;
}

-- `while ((opt = getopt(...)) != -1)`. `none` is the exit of `usage`.
unfoldable pub read_client_options :
    (atoi : Text → ℤ) → List ClientOption → ClientSettings → Option ClientSettings
read_client_options atoi [] o = some o
read_client_options atoi (opt_p arg ∷ rest) o =
    read_client_options atoi rest (record o { local_port = uint16 (atoi arg) })
read_client_options atoi (opt_s arg ∷ rest) o =
    read_client_options atoi rest (record o { remote_port = uint16 (atoi arg) })
read_client_options atoi (opt_i arg ∷ rest) o =
    read_client_options atoi rest (record o { local_ifaces = o.local_ifaces ++ (arg ∷ []) })
read_client_options atoi (opt_r arg ∷ rest) o =
    read_client_options atoi rest (record o { remote_ifaces = o.remote_ifaces ++ (arg ∷ []) })
read_client_options atoi (opt_other ∷ rest) o = none

unfoldable pub client_settings : (atoi : Text → ℤ) → List ClientOption → Option ClientSettings
client_settings atoi options = elim (read_client_options atoi options client_defaults) [
  | none ↦ none
  | some o ↦ if length o.local_ifaces == 0 || length o.remote_ifaces == 0 then none else some o
]

-- The loop over `remote_ifaces`.
unfoldable pub destinations : (inet_addr : Text → ℕ) → List Text → (port : ℕ) → Address
destinations inet_addr [] port = []
destinations inet_addr (addr ∷ rest) port =
    create_endpoint inet_addr addr port ∷ destinations inet_addr rest ((port + 2) % 65536)

-- `my_sender::is_path_valid`
unfoldable pub is_path_valid : Endpoint → Endpoint → Bool
is_path_valid local remote = in_same_subnet local remote 24

abbrev pub client_ssrc : ℕ
client_ssrc = 0xDEAD

module _ {W : Type 0} ⦃d : Double W⦄ where
  open d use {literal, div}

  -- `my_sender cli(1.0 / 1000.0)`
  unfoldable pub new_client : World W → Session W (Sender W)
  new_client w = record {
    interfaces = [];
    packets = [];
    object = new_sender (div (literal 1 0) (literal 1000 0)) w;
  }

  -- From the settings to the result of `connect`, and the client after it.
  unfoldable pub start_client :
      (inet_addr : Text → ℕ)
      → (opens : ℕ → Opening) → ClientSettings
      → World W
      → Bool × Session W (Sender W)
  start_client inet_addr opens o w =
      let cli = add_interfaces inet_addr opens 0 o.local_ifaces o.local_port (new_client w) in
      let dest = destinations inet_addr o.remote_ifaces o.remote_port in
      let (connected, object) = connect is_path_valid cli.interfaces client_ssrc dest cli.object in
      (connected, record cli { object = object })
