-- ===== src/Address.antt =====
-- include/mprtp_address.h: endpoints and addresses. An IPv4 address and a port are numbers in host
-- order. `inet_addr` stands for `ntohl(inet_addr(...))`, which reads an address from its text.
pub mod Bits
pub mod Subnet
use mprtplib.Prelude.{ℕ, ◌-◌, ◌^◌, ◌%◌, ◌*◌, Bool, ◌==◌, ◌&&◌, List, bit_and}

abbrev pub Endpoint : Type 0
Endpoint = ℕ × ℕ

abbrev pub Address : Type 0
Address = List Endpoint

-- The bytes of a string.
abbrev pub Text : Type 0
Text = List ℕ

abbrev pub create_endpoint : (inet_addr : Text → ℕ) → Text → (port : ℕ) → Endpoint
create_endpoint inet_addr addr port = (inet_addr addr, port)

abbrev pub endpoint_ip : Endpoint → ℕ
endpoint_ip ep = ep.0

abbrev pub endpoint_port : Endpoint → ℕ
endpoint_port ep = ep.1

abbrev pub endpoint_eq : Endpoint → Endpoint → Bool
endpoint_eq a b = a.0 == b.0 && a.1 == b.1

-- `0xFFFFFFFF << (32 - prefix)` on 32 bits; C++ defines it for 1 ≤ prefix ≤ 32 only.
unfoldable pub subnet_mask : ℕ → ℕ
subnet_mask prefix = 0xFFFFFFFF * 2 ^ (32 - prefix) % 2 ^ 32

unfoldable pub in_same_subnet : Endpoint → Endpoint → ℕ → Bool
unfolding subnet_mask
in_same_subnet addr1 addr2 prefix =
    bit_and (endpoint_ip addr1) (subnet_mask prefix)
    == bit_and (endpoint_ip addr2) (subnet_mask prefix)
