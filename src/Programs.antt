-- ===== src/Programs.antt =====
-- What the two programs of examples/ share: options that carry a number, and the interfaces that they
-- open. `getopt` and `atoi` are parameters: the options come as a list in the order of the arguments.
pub mod Client
pub mod Server
pub mod Delivery
pub mod Network
use mprtplib.Prelude.{ℕ, ◌+◌, ◌-◌, ◌%◌, List, [], ◌∷◌}
use mprtplib.Prelude.Int.{ℤ, pos, negsuc}
use mprtplib.Address.{Text, create_endpoint}
use mprtplib.Session.Poll.{Session, add_interface}

-- `(uint16_t)` of an `int`
unfoldable pub uint16 : ℤ → ℕ
uint16 (pos n) = n % 65536
uint16 (negsuc n) = 65535 - n % 65536

-- What the system answers while one interface is opened.
pub record Opening : Type 0 where
  pub rtp_sock : ℤ
  pub rtcp_sock : ℤ
  pub bind_rtp : ℤ
  pub bind_rtcp : ℤ

module _ {W S : Type 0} (inet_addr : Text → ℕ) (opens : ℕ → Opening) where
  -- The loop over the addresses, from the one at place `k` on. What `add_interface` returns is not
  -- used.
  unfoldable pub add_interfaces : (k : ℕ) → List Text → (port : ℕ) → Session W S → Session W S
  add_interfaces k [] port s = s
  add_interfaces k (addr ∷ rest) port s =
      let o = opens k in
      let (_, s') =
        add_interface (create_endpoint inet_addr addr port) o.rtp_sock o.rtcp_sock o.bind_rtp
          o.bind_rtcp s in
      add_interfaces (k + 1) rest ((port + 2) % 65536) s'
