-- ===== src/Interface/Laws.antt =====
-- What `interface::poll` puts in the queue, and what suspension changes:
-- src/mprtp_interface.cpp.
use mprtplib.Prelude.{
  ◌≡◌, ◌≢◌, refl, ap, ◌∙◌, Bool, true, false, Option-cases, arith, none, some, List, [], ◌∷◌, ◌++◌,
  append-nil, append_assoc, All, ◌⊎◌, inl, inr,
}
use mprtplib.Prelude.Int.{ℤ, pos, is_neg}
use mprtplib.Address.{Endpoint}
use mprtplib.Bytes.{Memory}
use mprtplib.Packet.{RawPacket}
use mprtplib.Interface.{
  Interface, Datagram, Round, rtp_select, receive, poll_loop, poll, suspend, sendto,
}

module _ {W : Type 0} where
  -- `suspend` sets a flag that nothing reads: a suspended interface receives and sends as any other.
  receive-suspend :
      (v rtcp : Bool) (r : Round W) (i : Interface W)
      → receive (suspend v i) rtcp r ≡ suspend v (receive i rtcp r)
  unfolding receive suspend
  receive-suspend v rtcp r i = ground arith

  poll_loop-suspend :
      (v rtcp : Bool) (rounds : List (Round W)) (i : Interface W)
      → poll_loop rtcp rounds (suspend v i)
        ≡ ((poll_loop rtcp rounds i).0, suspend v (poll_loop rtcp rounds i).1)
  unfolding poll_loop
  poll_loop-suspend v rtcp [] i = refl
  poll_loop-suspend v rtcp (r ∷ rest) i =
      let ih = poll_loop-suspend v rtcp rest (receive i rtcp r) in
      ground (arith, receive-suspend v rtcp r i, ih)

  -- A suspended interface polls and sends exactly as one that is not: the system is asked the same,
  -- the status is the same, and the same packets are queued.
  pub poll-suspend :
      (v rtcp : Bool) (rounds : List (Round W)) (i : Interface W) (net : Datagram → ℤ)
      (bytes : Memory) (addr : Endpoint)
      → (poll rtcp rounds (suspend v i)
          ≡ ((poll rtcp rounds i).0, suspend v (poll rtcp rounds i).1))
        × (sendto net (suspend v i) bytes addr rtcp ≡ sendto net i bytes addr rtcp)
  unfolding poll sendto suspend
  poll-suspend v rtcp rounds i net bytes addr =
      (ground (arith, poll_loop-suspend v rtcp rounds i), refl)

  -- The packets that a row of rounds brings.
  abbrev pub arrived : (rtcp : Bool) → Round W → List (RawPacket W) → List (RawPacket W)
  arrived rtcp r later = elim r.received [
    | none ↦ later
    | some (bytes, from_ip, from_port) ↦
        (record {
          bytes = bytes;
          from_address = (from_ip, from_port);
          is_rtcp = rtcp;
          recvtime = r.recvtime;
        })
        ∷ later
  ]

  abbrev pub arrivals : (rtcp : Bool) → List (Round W) → List (RawPacket W)
  arrivals rtcp [] = []
  arrivals rtcp (r ∷ rest) = arrived rtcp r (arrivals rtcp rest)

  -- The socket has something to read in the round.
  abbrev pub IsAvailable : Round W → Type 0
  IsAvailable r =
      (r.waiting ≢ 0)
      ⊎ ((is_neg (rtp_select r.polled).0 ≡ false) × ((rtp_select r.polled).1 ≡ true))

  receive-arrivals :
      (rtcp : Bool) (r : Round W) (later : List (RawPacket W)) (i : Interface W)
      → record (receive i rtcp r) { packets = (receive i rtcp r).packets ++ later }
        ≡ record i { packets = i.packets ++ arrived rtcp r later }
  unfolding receive
  receive-arrivals rtcp r later i = elim (Option-cases r.received) [
    | inl e ↦ rw (e, receive) refl
    | inr ((bytes, ip, port), e) ↦ rw (e, receive, append_assoc) refl
  ]

  -- Rounds in which the socket has something to read bring their datagrams in order to the end of the
  -- queue, and nothing else changes.
  poll_loop-arrivals :
      (rtcp : Bool) (rounds : List (Round W)) (i : Interface W)
      → All IsAvailable rounds
      → poll_loop rtcp rounds i ≡ (pos 0, record i { packets = i.packets ++ arrivals rtcp rounds })
  unfolding poll_loop
  poll_loop-arrivals rtcp [] i a = rw append-nil
  poll_loop-arrivals rtcp (r ∷ rest) i (now, later) =
      let ih = poll_loop-arrivals rtcp rest (receive i rtcp r) later in
      let next = ih ∙ ap (λ j. (pos 0, j)) (receive-arrivals rtcp r (arrivals rtcp rest) i) in
      ground (arith, next)
