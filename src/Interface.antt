-- ===== src/Interface.antt =====
-- include/mprtp_interface.h, src/mprtp_interface.cpp and include/mprtp_select.h: a pair of UDP
-- sockets and the queue of what they received. The calls of the system are parameters: the results of
-- `socket` and `bind`, what a round of `poll` finds, and `net`, which answers `::sendto`.
pub mod Laws
use mprtplib.Prelude.{
  ℕ, ◌+◌, ◌%◌, Bool, true, false, ◌&&◌, not, Option, none, some, List, [], ◌∷◌, ◌++◌, ◌==◌,
  if◌then◌else◌,
}
use mprtplib.Prelude.Int.{ℤ, pos, negsuc, is_neg}
use mprtplib.Address.{Endpoint, endpoint_eq}
use mprtplib.Bytes.{Memory}
use mprtplib.Packet.{RawPacket}

pub record Interface (W : Type 0) : Type 0 where
  pub ip : ℕ
  pub rtp_port : ℕ
  pub rtcp_port : ℕ
  pub rtp_sock : ℤ
  pub rtcp_sock : ℤ
  pub suspended : Bool
  pub packets : List (RawPacket W)

-- The arguments of `::sendto`.
pub record Datagram : Type 0 where
  pub sock : ℤ
  pub ip : ℕ
  pub port : ℕ
  pub bytes : Memory

-- What `poll` of the system answers to `rtp_select` about one socket.
pub record Polled : Type 0 where
  pub status : ℤ
  pub interrupted : Bool
  pub revents : Bool

-- One round of `interface::poll`: the bytes that wait (`FIONREAD`), the answer about the socket, and
-- what `recvfrom` returns, if it is more than no byte.
pub record Round (W : Type 0) : Type 0 where
  pub waiting : ℕ
  pub polled : Polled
  pub received : Option (Memory × ℕ × ℕ)
  pub recvtime : W

abbrev is_positive : ℤ → Bool
is_positive (pos n) = not (n == 0)
is_positive (negsuc n) = false

abbrev is_minus_one : ℤ → Bool
is_minus_one (pos n) = false
is_minus_one (negsuc n) = n == 0

-- `rtp_select` for one socket: the status, and `readflags[0]`.
unfoldable pub rtp_select : Polled → ℤ × Bool
rtp_select p =
    if is_neg p.status
    then (if p.interrupted then pos 0 else p.status, false)
    else (p.status, is_positive p.status && p.revents)

module _ {W : Type 0} where
  -- The constructor.
  unfoldable pub new_interface : Endpoint → Interface W
  new_interface ep = record {
    ip = ep.0;
    rtp_port = ep.1;
    rtcp_port = (ep.1 + 1) % 65536;
    rtp_sock = negsuc 0;
    rtcp_sock = negsuc 0;
    suspended = false;
    packets = [];
  }

  unfoldable pub get_address : Interface W → Endpoint
  get_address i = (i.ip, i.rtp_port)

  unfoldable pub suspend : Bool → Interface W → Interface W
  suspend val i = record i { suspended = val }

  unfoldable pub is_same : Interface W → Endpoint → Bool
  unfolding get_address
  is_same i addr = endpoint_eq addr (get_address i)

  -- The sockets that the destructor, or the exit of `open`, closes.
  unfoldable pub close_sockets : Interface W → List ℤ
  close_sockets i =
      (if is_neg i.rtp_sock then [] else i.rtp_sock ∷ [])
      ++ (if is_neg i.rtcp_sock then [] else i.rtcp_sock ∷ [])

  -- `open`, on the results of `socket` and `bind`: its result, the object after it, and the sockets
  -- that it closes.
  unfoldable pub open_sockets :
      Interface W
      → (rtp_sock rtcp_sock : ℤ) → (bind_rtp bind_rtcp : ℤ) → Bool × Interface W × List ℤ
  open_sockets i rtp_sock rtcp_sock bind_rtp bind_rtcp =
      let j = record i { rtp_sock = rtp_sock; rtcp_sock = rtcp_sock } in
      let clean : Bool × Interface W × List ℤ = (false, j, close_sockets j) in
      if is_neg rtp_sock
      then clean
      else if is_neg rtcp_sock
      then clean
      else if is_minus_one bind_rtp
      then clean
      else if is_minus_one bind_rtcp
      then clean
      else (true, j, [])

  -- The datagram of `interface::sendto`. RTCP goes to the next port, which wraps at 2 ^ 16.
  unfoldable pub datagram : Interface W → Memory → Endpoint → (rtcp : Bool) → Datagram
  datagram i bytes addr rtcp = record {
    sock = if rtcp then i.rtcp_sock else i.rtp_sock;
    ip = addr.0;
    port = if rtcp then (addr.1 + 1) % 65536 else addr.1;
    bytes = bytes;
  }

  unfoldable pub sendto : (net : Datagram → ℤ) → Interface W → Memory → Endpoint → Bool → ℤ
  unfolding datagram
  sendto net i bytes addr rtcp = net (datagram i bytes addr rtcp)

  -- `if(dataavailable)`: the packet goes to the end of the queue.
  unfoldable pub receive : Interface W → (rtcp : Bool) → Round W → Interface W
  receive i rtcp r = elim r.received [
    | none ↦ i
    | some (bytes, from_ip, from_port) ↦ record i {
      packets =
          i.packets
          ++ (record {
            bytes = bytes;
            from_address = (from_ip, from_port);
            is_rtcp = rtcp;
            recvtime = r.recvtime;
          }
              ∷ []);
    }
  ]

  -- The loop of `poll`, on the rounds that the system has an answer for; then nothing is available.
  unfoldable pub poll_loop : (rtcp : Bool) → List (Round W) → Interface W → ℤ × Interface W
  poll_loop rtcp [] i = (pos 0, i)
  poll_loop rtcp (r ∷ rest) i =
      let next = poll_loop rtcp rest (receive i rtcp r) in
      let (status, isset) = rtp_select r.polled in
      if not (r.waiting == 0)
      then next
      else if is_neg status
      then (status, i)
      else if isset
      then next
      else (pos 0, i)

  unfoldable pub poll : (rtcp : Bool) → List (Round W) → Interface W → ℤ × Interface W
  poll rtcp rounds i =
      if is_neg (if rtcp then i.rtcp_sock else i.rtp_sock)
      then (negsuc 0, i)
      else poll_loop rtcp rounds i

  unfoldable pub fetch_raw_packet : Interface W → Option (RawPacket W) × Interface W
  fetch_raw_packet i = elim i.packets [
    | [] ↦ (none, i)
    | pkt ∷ rest ↦ (some pkt, record i { packets = rest })
  ]
