-- ===== src/Sender/Connect.antt =====
-- `sender::connect` (src/mprtp_sender.cpp): a subflow for each pair of an interface and a destination
-- address that is a path.
use mprtplib.Prelude.{
  ℕ, ◌+◌, ◌%◌, Bool, false, not, List, [], ◌∷◌, ◌++◌, ◌==◌, if◌then◌else◌, length,
}
use mprtplib.Address.{Endpoint, Address}
use mprtplib.Double.{Double}
use mprtplib.Interface.{Interface, get_address}
use mprtplib.Subflow.{new_subflow}
use mprtplib.World.{take_random}
use mprtplib.Sender.{Sender}

module _ {W : Type 0} ⦃d : Double W⦄ where
  -- The inner loop of `connect`: the subflows from one interface.
  unfoldable pub connect_interface :
      (is_path_valid : Endpoint → Endpoint → Bool) → Interface W → Address → Sender W → Sender W
  connect_interface is_path_valid iface [] s = s
  connect_interface is_path_valid iface (addr ∷ rest) s =
      let (random, w) = take_random s.world in
      let sf = new_subflow random s.next_subflow_id iface addr in
      let added = record s {
        next_subflow_id = (s.next_subflow_id + 1) % 65536;
        subflows = s.subflows ++ (sf ∷ []);
        world = w;
      } in
      connect_interface is_path_valid iface rest
        (if is_path_valid (get_address iface) addr then added else s)

  unfoldable pub connect_loop :
      (is_path_valid : Endpoint → Endpoint → Bool)
      → List (Interface W)
      → Address
      → Sender W
      → Sender W
  connect_loop is_path_valid [] dest s = s
  connect_loop is_path_valid (iface ∷ rest) dest s =
      connect_loop is_path_valid rest dest (connect_interface is_path_valid iface dest s)

  -- `connect`, over the interfaces of the session.
  unfoldable pub connect :
      (is_path_valid : Endpoint → Endpoint → Bool)
      → List (Interface W)
      → (ssrc : ℕ) → Address
      → Sender W
      → Bool × Sender W
  connect is_path_valid [] ssrc dest s = (false, s)
  connect is_path_valid (iface ∷ rest) ssrc dest s =
      let s' =
        connect_loop is_path_valid (iface ∷ rest) dest
          (record s { ssrc = ssrc; dest_addr = dest }) in
      (not (length s'.subflows == 0), s')
