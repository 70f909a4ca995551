-- ===== src/Programs/Client/Start.antt =====
-- The client of examples/client.cpp once it is connected.
use mprtplib.Prelude.{
  ℕ, Bool, ap, ◌+◌, ◌%◌, ◌≡◌, ◌≢◌, refl, sym, ◌∙◌, true, List, [], ◌∷◌, subst, if_both,
}
use mprtplib.Prelude.Int.{ℤ}
use mprtplib.Address.{Text, Endpoint, Address, create_endpoint}
use mprtplib.Double.{Double}
use mprtplib.Interface.{Interface, get_address}
use mprtplib.World.{World, take_random}
use mprtplib.Session.Poll.{Session, add_interface}
use mprtplib.Sender.{Sender, new_sender}
use mprtplib.Sender.Connect.{connect_interface, connect_loop, connect}
use mprtplib.Sender.Lists.{Route}
use mprtplib.Sender.Steady.{IsSound}
use mprtplib.Sender.Routes.{numbered, paths_of, connect-IsSound}
use mprtplib.Programs.{Opening, add_interfaces}
use mprtplib.Programs.Client.{
  ClientSettings, client_ssrc, destinations, is_path_valid, new_client, start_client,
}

add_interface-object :
    {W S : Type 0} (addr : Endpoint) (a b c e : ℤ) (s : Session W S)
    → (add_interface addr a b c e s).1.object ≡ s.object
unfolding add_interface
add_interface-object addr a b c e s = if_both (λ t. t.object ≡ s.object) _ _ s refl refl

pub add_interfaces-object :
    {W S : Type 0} (inet_addr : Text → ℕ) (opens : ℕ → Opening) (k : ℕ) (addrs : List Text)
    (port : ℕ) (s : Session W S)
    → (add_interfaces inet_addr opens k addrs port s).object ≡ s.object
unfolding add_interfaces
add_interfaces-object inet_addr opens k [] port s = refl
add_interfaces-object inet_addr opens k (addr ∷ rest) port s =
    add_interfaces-object inet_addr opens (k + 1) rest ((port + 2) % 65536) _
    ∙ add_interface-object (create_endpoint inet_addr addr port) (opens k).rtp_sock
        (opens k).rtcp_sock (opens k).bind_rtp (opens k).bind_rtcp s

-- Where the subflows of a client lead: the pairs of its interfaces and its destinations that share the
-- first 24 bits.
abbrev pub client_routes :
    {W : Type 0} → (inet_addr : Text → ℕ) → ClientSettings → List (Interface W) → List (Route W)
client_routes inet_addr o ifaces =
    numbered 1
      (paths_of is_path_valid ifaces (destinations inet_addr o.remote_ifaces o.remote_port))

module _ {W : Type 0} ⦃d : Double W⦄ where
  open d use {literal, div}

  connect-nonempty :
      (ifaces : List (Interface W)) (dest : Address) (s : Sender W)
      → (connect is_path_valid ifaces client_ssrc dest s).0 ≡ true
      → (ifaces ≢ []) × ((connect is_path_valid ifaces client_ssrc dest s).1.subflows ≢ [])
  unfolding connect
  connect-nonempty [] dest s e = cc
  connect-nonempty (iface ∷ rest) dest s e = (λ n. cc, λ n. cc (rw n at e))

  -- A client that is connected is sound under its SSRC and has a subflow; its subflows are the pairs
  -- of an interface that was opened and a destination that are in the same /24, numbered from 1 on.
  pub start_client-IsSound :
      (inet_addr : Text → ℕ) (opens : ℕ → Opening) (o : ClientSettings) (w : World W)
      → (start_client inet_addr opens o w).0 ≡ true
      → let cli = (start_client inet_addr opens o w).1 in
        IsSound (client_routes inet_addr o cli.interfaces) client_ssrc cli.object
        × (cli.object.subflows ≢ [])
  unfolding start_client new_client
  start_client-IsSound inet_addr opens o w e =
      let cli = add_interfaces inet_addr opens 0 o.local_ifaces o.local_port (new_client w) in
      let dest = destinations inet_addr o.remote_ifaces o.remote_port in
      let (some_interface, some_subflow) = connect-nonempty cli.interfaces dest cli.object e in
      let fresh = new_sender (div (literal 1 0) (literal 1000 0)) w in
      let same : cli.object ≡ fresh =
        add_interfaces-object inet_addr opens 0 o.local_ifaces o.local_port (new_client w) in
      let (sound, _) =
        connect-IsSound is_path_valid cli.interfaces client_ssrc dest
          (div (literal 1 0) (literal 1000 0)) w some_interface in
      (
        subst
            (λ x.
              IsSound (client_routes inet_addr o cli.interfaces) client_ssrc
                (connect is_path_valid cli.interfaces client_ssrc dest x).1)
            (sym same) sound,
        some_subflow,
      )

  connect_interface-sent :
      (is_path : Endpoint → Endpoint → Bool) (iface : Interface W) (dest : Address) (s : Sender W)
      → (connect_interface is_path iface dest s).world.sent ≡ s.world.sent
  unfolding connect_interface take_random
  connect_interface-sent is_path iface [] s = refl
  connect_interface-sent is_path iface (addr ∷ rest) s =
      connect_interface-sent is_path iface rest _
      ∙ if_both (λ x. x.world.sent ≡ s.world.sent) (is_path (get_address iface) addr) _ s refl refl

  connect_loop-sent :
      (is_path : Endpoint → Endpoint → Bool) (ifaces : List (Interface W)) (dest : Address)
      (s : Sender W)
      → (connect_loop is_path ifaces dest s).world.sent ≡ s.world.sent
  unfolding connect_loop
  connect_loop-sent is_path [] dest s = refl
  connect_loop-sent is_path (iface ∷ rest) dest s =
      connect_loop-sent is_path rest dest _ ∙ connect_interface-sent is_path iface dest s

  connect-sent :
      (is_path : Endpoint → Endpoint → Bool) (ifaces : List (Interface W)) (ssrc : ℕ)
      (dest : Address) (s : Sender W)
      → (connect is_path ifaces ssrc dest s).1.world.sent ≡ s.world.sent
  unfolding connect
  connect-sent is_path [] ssrc dest s = refl
  connect-sent is_path (iface ∷ rest) ssrc dest s =
      connect_loop-sent is_path (iface ∷ rest) dest (record s { ssrc = ssrc; dest_addr = dest })

  -- `main` of the client sends nothing before its threads start.
  pub start_client-sent :
      (inet_addr : Text → ℕ) (opens : ℕ → Opening) (o : ClientSettings) (w : World W)
      → (start_client inet_addr opens o w).1.object.world.sent ≡ w.sent
  unfolding start_client new_client new_sender take_random
  start_client-sent inet_addr opens o w =
      let cli = add_interfaces inet_addr opens 0 o.local_ifaces o.local_port (new_client w) in
      connect-sent is_path_valid cli.interfaces client_ssrc
        (destinations inet_addr o.remote_ifaces o.remote_port) cli.object
      ∙ ap (λ x. x.world.sent)
          (add_interfaces-object inet_addr opens 0 o.local_ifaces o.local_port (new_client w))
