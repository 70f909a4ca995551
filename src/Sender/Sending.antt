-- ===== src/Sender/Sending.antt =====
-- `sender::send_data` (src/mprtp_sender.cpp).
use mprtplib.Prelude.{
  ℕ, zero, suc, ◌+◌, ◌%◌, ◌^◌, ◌<◌, ◌∙◌, sym, ap, ◌≡◌, ◌≢◌, inl, inr, refl, arith, Bool, true,
  false, some, List, [], ◌∷◌, if◌then◌else◌, length, drop, set, get_elem?, get_elem?-in, Bool-cases,
  All, subst,
}
use mprtplib.Prelude.Int.{ℤ, is_pos}
use mprtplib.Prelude.Result.{ok}
use mprtplib.Bytes.{Memory}
use mprtplib.Double.{Double}
use mprtplib.Address.{Endpoint}
use mprtplib.Packet.{RawPacket, rtp_packet}
use mprtplib.Packet.Build.{data_packet}
use mprtplib.Packet.RoundTrip.{received, rtp_packet-data_packet}
use mprtplib.Struct.{reads}
use mprtplib.Interface.{Datagram, datagram, sendto}
use mprtplib.Stat.{u32}
use mprtplib.Subflow
use mprtplib.Subflow.{Subflow}
use mprtplib.World.{take_time, take_random, log_sent}
use mprtplib.Sender.{
  Sender, select_subflow, get_next_timestamp, send_via, count_data, update_stream_bitrate,
  send_data,
}
use mprtplib.Sender.Selection.{select_subflow_lem}

some-inj : {A : Type 0} {x y : A} → some x ≡ some y → x ≡ y
some-inj e = cc

if-true : {A : Type 0} {b : Bool} {x : A} (y : A) → b ≡ true → (if b then x else y) ≡ x
if-true y e = rw e refl

if-false : {A : Type 0} {b : Bool} {y : A} (x : A) → b ≡ false → (if b then x else y) ≡ y
if-false x e = rw e refl

module _ {W : Type 0} where
  -- The datagram that comes out at the other end.
  abbrev pub arriving : Endpoint → (recvtime : W) → (rtcp : Bool) → Memory → RawPacket W
  arriving from recvtime rtcp bytes = record {
    bytes = bytes;
    from_address = from;
    is_rtcp = rtcp;
    recvtime = recvtime;
  }

module _ {W : Type 0} ⦃d : Double W⦄ where
  pub All-get_elem? :
      (P : Subflow W → Type 0) (sfs : List (Subflow W)) (k : ℕ) (sf : Subflow W)
      → All P sfs
      → get_elem? sfs k ≡ some sf
      → P sf
  All-get_elem? P [] k sf all e = cc
  All-get_elem? P (x ∷ rest) zero sf all e = subst P (some-inj e) all.0
  All-get_elem? P (x ∷ rest) (suc k) sf all e = All-get_elem? P rest k sf all.1 e

  -- What `get_next_timestamp` leaves alone, and the range of the timestamp.
  pub get_next_timestamp-keeps :
      (s : Sender W)
      → let s' = get_next_timestamp s in
        (s'.subflows ≡ s.subflows)
        × (s'.ssrc ≡ s.ssrc)
        × (s'.sequence_number ≡ s.sequence_number)
        × (s'.world.sent ≡ s.world.sent)
        × (s'.world.net ≡ s.world.net)
        × (s'.timestamp < 2 ^ 32)
        × (s'.packet_count ≡ s.packet_count)
        × (s'.octet_count ≡ s.octet_count)
  unfolding get_next_timestamp take_time take_random
  get_next_timestamp-keeps s = ground arith

  count_data-keeps :
      (a b : ℕ) (s : Sender W)
      → let s' = count_data a b s in
        (s'.subflows ≡ s.subflows)
        × (s'.sequence_number ≡ s.sequence_number)
        × (s'.timestamp ≡ s.timestamp)
        × (s'.world.sent ≡ s.world.sent)
        × (s'.packet_count ≡ u32 (s.packet_count + 1))
        × (s'.octet_count ≡ u32 (s.octet_count + a))
        × (s'.ssrc ≡ s.ssrc)
  unfolding count_data update_stream_bitrate take_time
  count_data-keeps a b s = ground arith

  -- The state in which `send_data` hands the packet to `send_via`.
  abbrev ready : Sender W → Sender W
  ready s = get_next_timestamp (record s {
    world = (take_random s.world).1;
    sequence_number = (s.sequence_number + 1) % 65536;
  })

  abbrev packet : Sender W → Subflow W → Memory → Memory
  packet s sf payload =
      data_packet s.sequence_number (ready s).timestamp (ready s).ssrc sf.subflow_id
        sf.sequence_number payload

  send_data-chosen :
      (s : Sender W) (payload : Memory) (k : ℕ) (sf : Subflow W)
      → select_subflow s ≡ ok (k, record s { world = (take_random s.world).1 })
      → get_elem? s.subflows k ≡ some sf
      → let (s3, ret) =
          send_via k sf
            (packet s sf payload)
            (length payload + 24)
            (length payload)
            false
            (ready s) in
        send_data payload s ≡ (
          if is_pos ret (length payload + 24)
          then ok (true, count_data (length payload) (length payload + 24) s3)
          else ok (false, s3))
  unfolding send_data
  send_data-chosen s payload k sf chosen at = rw (chosen, at) refl

  -- The subflow after a data packet with `len` bytes of payload, which went out whole or not.
  abbrev pub after_send : (sent : Bool) → Subflow W → (len : ℕ) → Subflow W
  after_send sent sf len = record sf {
    sequence_number = (sf.sequence_number + 1) % 65536;
    packet_count = if sent then u32 (sf.packet_count + 1) else sf.packet_count;
    octet_count = if sent then u32 (sf.octet_count + len) else sf.octet_count;
    packet_count_tt = if sent then u32 (sf.packet_count_tt + 1) else sf.packet_count_tt;
    octet_count_tt = if sent then u32 (sf.octet_count_tt + len) else sf.octet_count_tt;
  }

  -- The datagram for a payload with the timestamp `ts`.
  abbrev pub data_datagram : Sender W → Subflow W → Memory → (ts : ℕ) → Datagram
  data_datagram s sf payload ts =
      datagram sf.iface
        (data_packet s.sequence_number ts s.ssrc sf.subflow_id sf.sequence_number payload) sf.remote
        false

  send-after_send :
      (net : Datagram → ℤ) (sf : Subflow W) (bytes : Memory) (len n : ℕ)
      → let ret = net (datagram sf.iface bytes sf.remote false) in
        Subflow.send net sf bytes len n false ≡ (after_send (is_pos ret len) sf n, ret)
  unfolding Subflow.send sendto
  send-after_send net sf bytes len n =
      elim (Bool-cases (is_pos (net (datagram sf.iface bytes sf.remote false)) len)) [
        | inl t ↦ rw t refl
        | inr f ↦ rw f refl
      ]

  -- With a subflow at hand, `send_data` returns; one datagram leaves, which is the data packet with
  -- the numbers of the stream and of the chosen subflow, through that subflow. Both numbers go on
  -- by one, and wrap at 2 ^ 16; the counts of both go on if the system took the packet whole, which
  -- is the result, and no other subflow changes, nor does the SSRC.
  pub send_data_lem :
      (s : Sender W) (payload : Memory)
      → s.subflows ≢ []
      → (k : ℕ) × (sf : Subflow W) × (sent : Bool) × (s' : Sender W) × (send_data payload s
          ≡ ok (sent, s'))
        × (get_elem? s.subflows k ≡ some sf)
        × (sent
            ≡ is_pos (s.world.net (data_datagram s sf payload s'.timestamp)) (length payload + 24))
        × (s'.world.sent ≡ data_datagram s sf payload s'.timestamp ∷ s.world.sent)
        × (s'.subflows ≡ set s.subflows k (after_send sent sf (length payload)))
        × (s'.sequence_number ≡ (s.sequence_number + 1) % 65536)
        × (s'.timestamp < 2 ^ 32)
        × (s'.packet_count ≡ (if sent then u32 (s.packet_count + 1) else s.packet_count))
        × (s'.octet_count ≡ (if sent then u32 (s.octet_count + length payload) else s.octet_count))
        × (s'.ssrc ≡ s.ssrc)
  unfolding send_via log_sent take_random
  send_data_lem s payload n =
      let (k, chosen, inside, _) = select_subflow_lem s n in
      let (sf, at) = get_elem?-in s.subflows k inside in
      let len = length payload + 24 in
      let (sfs, ssrc, seq, sent, net, range, count, octets) = get_next_timestamp-keeps (record s {
        world = (take_random s.world).1;
        sequence_number = (s.sequence_number + 1) % 65536;
      }) in
      let via = send_via k sf (packet s sf payload) len (length payload) false (ready s) in
      let e = send_data-chosen s payload k sf chosen at in
      let (sfs', seq', ts', sent', count', octets', ssrc') =
        count_data-keeps (length payload) len via.0 in
      let out = data_datagram s sf payload (ready s).timestamp in
      let taken = is_pos (s.world.net out) len in
      let kept : (via.0.world.sent ≡ out ∷ s.world.sent)
          × (via.0.subflows ≡ set s.subflows k (after_send taken sf (length payload)))
          × (is_pos via.1 len ≡ taken) =
        rw (ssrc, sfs, sent, net, send-after_send s.world.net sf) (refl, refl, refl) in
      let after = λ (b : Bool). set s.subflows k (after_send b sf (length payload)) in
      elim (Bool-cases (is_pos via.1 len)) [
        | inl t ↦ (
          k,
          sf,
          true,
          count_data (length payload) len via.0,
          e ∙ if-true _ t,
          at,
          rw ts' (sym t ∙ kept.2),
          rw ts' (sent' ∙ kept.0),
          sfs' ∙ kept.1 ∙ ap after (sym kept.2 ∙ t),
          seq' ∙ seq,
          rw ts' range,
          count' ∙ ap (λ c. u32 (c + 1)) count,
          octets' ∙ ap (λ c. u32 (c + length payload)) octets,
          ssrc' ∙ ssrc,
        )
        | inr f ↦ (
          k,
          sf,
          false,
          via.0,
          e ∙ if-false _ f,
          at,
          sym f ∙ kept.2,
          kept.0,
          kept.1 ∙ ap after (sym kept.2 ∙ f),
          seq,
          range,
          count,
          octets,
          ssrc,
        )
      ]

  -- A packet that `send_data` hands over is one that the receiver's parser accepts: it finds the
  -- number and the timestamp of the stream, its SSRC, the subflow and the number in it, and the
  -- payload, which is what was sent.
  pub send_data-rtp_packet :
      (s : Sender W) (payload : Memory) (from : Endpoint) (recvtime : W)
      → s.subflows ≢ []
      → s.sequence_number < 2 ^ 16
      → s.ssrc < 2 ^ 32
      → All (λ sf. (sf.subflow_id < 2 ^ 16) × (sf.sequence_number < 2 ^ 16)) s.subflows
      → (k : ℕ) × (sf : Subflow W) × (sent : Bool) × (s' : Sender W) × (out : Datagram) × (send_data
            payload s
          ≡ ok (sent, s'))
        × (get_elem? s.subflows k ≡ some sf)
        × (s'.world.sent ≡ out ∷ s.world.sent)
        × (let raw = arriving from recvtime false out.bytes in
            rtp_packet raw
            ≡ ok (
                received raw s.sequence_number s'.timestamp s.ssrc sf.subflow_id sf.sequence_number
                  payload))
        × (drop 24 out.bytes ≡ payload)
  unfolding datagram
  send_data-rtp_packet s payload from recvtime n hq hs all =
      let (k, sf, sent, s', e, at, _, out, _, _, range, _, _, _) = send_data_lem s payload n in
      let (hi, hsq) = All-get_elem? _ s.subflows k sf all at in
      let bytes =
        data_packet s.sequence_number s'.timestamp s.ssrc sf.subflow_id sf.sequence_number
          payload in
      (
        k,
        sf,
        sent,
        s',
        _,
        e,
        at,
        out,
        rtp_packet-data_packet (arriving from recvtime false bytes) s.sequence_number s'.timestamp
            s.ssrc sf.subflow_id sf.sequence_number payload refl refl hq range hs hi hsq,
        unfold data_packet reads in refl,
      )
