-- ===== src/Session/Termination.antt =====
-- When the loops of src/mprtp_session.cpp end: on every packet, but for an MPRTP block of length 0.
use mprtplib.Prelude.{
  ℕ, zero, suc, ◌+◌, ◌*◌, ◌≤◌, ◌<◌, ◌≡◌, ◌≢◌, sym, ap, ◌∙◌, inl, inr, Bool-cases, arith, length,
  drop, ltb, ltb→lt, ltb→le, ne→==,
}
use native.Mathlib.Nat.{add-zero}
use mprtplib.Prelude.Result.{ok, stuck, Result-cases, >>=-ne-stuck, >>=-eq-stuck, ok-ne-stuck}
use mprtplib.Address.{Endpoint}
use mprtplib.Bytes.{Memory, u8_at, u16_at, u32_at}
use mprtplib.Struct.{
  block_length_at, packettype_at, length_at, count_at, mprtcp_type_at, rtcptype_mprtp,
}
use mprtplib.Packet.{RawPacket}
use mprtplib.Rtcp.{SrPacket, RrPacket, rr_packet, rr_blocks, sr_packet}
use mprtplib.Session.{
  Handlers, process_block, process_subflow_block, process_sr_packet, process_rr_packet,
  process_rr_blocks, process_mprtcp_packet, mprtcp_loop, dispatch_rtcp, rtcp_loop,
  process_rtcp_packet,
}
use mprtplib.Session.Blocks.{mprtcp_loop_end, mprtcp_loop_step, rtcp_loop_end, rtcp_loop_step}

u8_at-ne-stuck : (p : Memory) (i : ℕ) → u8_at p i ≢ stuck
unfolding u8_at
u8_at-ne-stuck p i = ground arith

u16_at-ne-stuck : (p : Memory) (i : ℕ) → u16_at p i ≢ stuck
unfolding u16_at
u16_at-ne-stuck p i = ground (arith, u8_at-ne-stuck p i, u8_at-ne-stuck p (i + 1))

u32_at-ne-stuck : (p : Memory) (i : ℕ) → u32_at p i ≢ stuck
unfolding u32_at
u32_at-ne-stuck p i = ground (arith, u16_at-ne-stuck p i, u16_at-ne-stuck p (i + 2))

block_length_at-ne-stuck : (p : Memory) → block_length_at p ≢ stuck
unfolding block_length_at
block_length_at-ne-stuck p = u8_at-ne-stuck p 1

length_at-ne-stuck : (p : Memory) → length_at p ≢ stuck
unfolding length_at
length_at-ne-stuck p = u16_at-ne-stuck p 2

packettype_at-ne-stuck : (p : Memory) → packettype_at p ≢ stuck
unfolding packettype_at
packettype_at-ne-stuck p = u8_at-ne-stuck p 1

-- Where the blocks of an MPRTP packet begin: behind its header, and behind a block of which the length
-- is read inside the buffer.
pub data BlockAt (pkt : Memory) (data_len : ℕ) : ℕ → Type 0 where
  first_block : BlockAt pkt data_len 12
  next_block :
      (off len : ℕ)
      → BlockAt pkt data_len off
      → off < data_len
      → block_length_at (drop off pkt) ≡ ok len
      → BlockAt pkt data_len (off + len * 4)

-- Where the parts of a compound packet begin.
pub data PartAt (bytes : Memory) : ℕ → Type 0 where
  first_part : PartAt bytes 0
  next_part :
      (off len : ℕ)
      → PartAt bytes off
      → off < length bytes
      → length_at (drop off bytes) ≡ ok len
      → PartAt bytes (off + (len + 1) * 4)

-- A block of an MPRTP packet states the length 0.
abbrev pub ZeroBlock : Memory → ℕ → Type 0
ZeroBlock pkt data_len =
    (k : ℕ) × BlockAt pkt data_len k × (k < data_len) × (block_length_at (drop k pkt) ≡ ok 0)

abbrev pub HasZeroBlock : Memory → Type 0
HasZeroBlock pkt = (len : ℕ) × (length_at pkt ≡ ok len) × ZeroBlock pkt ((len + 1) * 4)

-- A part of the compound packet is an MPRTP packet with such a block.
abbrev pub HangsInside : Memory → Type 0
HangsInside bytes =
    (m : ℕ) × PartAt bytes m
    × (packettype_at (drop m bytes) ≡ ok rtcptype_mprtp)
    × HasZeroBlock (drop m bytes)

-- The handlers end.
pub record HandlersEnd {W I S : Type 0} (h : Handlers W I S) : Type 0 where
  pub sr_ends : (p : SrPacket W) (id : ℕ) (i : I) (s : S) → h.on_rtcp_sr_packet p id i s ≢ stuck
  pub rr_ends :
      (p : RrPacket W) (id ssrc : ℕ) (i : I) (s : S) → h.on_rtcp_rr_packet p id ssrc i s ≢ stuck

module _ {W : Type 0} (recv_from : Endpoint) (recvtime : W) where
  rr_packet-ne-stuck : (p : Memory) → rr_packet p recv_from recvtime ≢ stuck
  unfolding rr_packet
  rr_packet-ne-stuck p = grind (arith, u32_at-ne-stuck, u8_at-ne-stuck)

  rr_blocks-ne-stuck : (n : ℕ) (p : Memory) → rr_blocks n p recv_from recvtime ≢ stuck
  unfolding rr_blocks
  rr_blocks-ne-stuck zero p = λ e. cc
  rr_blocks-ne-stuck (suc n) p =
      ground (arith, rr_packet-ne-stuck p, rr_blocks-ne-stuck n (drop 24 p))

  sr_packet-ne-stuck : (p : Memory) → sr_packet p recv_from recvtime ≢ stuck
  unfolding sr_packet packettype_at count_at
  sr_packet-ne-stuck p = grind (arith, u32_at-ne-stuck, u8_at-ne-stuck, rr_blocks-ne-stuck)

module _ {W I S : Type 0} (h : Handlers W I S) (iface : I) (recv_from : Endpoint)
    (recvtime : W) where
  -- A block of length 0 that is no subflow report: the loop never gets past it.
  pub mprtcp_loop_hangs :
      (pkt : Memory) (data_len off type : ℕ) (s : S)
      → off < data_len
      → mprtcp_type_at (drop off pkt) ≡ ok type
      → type ≢ 0
      → block_length_at (drop off pkt) ≡ ok 0
      → (fuel : ℕ) → mprtcp_loop h iface recv_from recvtime fuel pkt data_len off s ≡ stuck
  unfolding process_block
  mprtcp_loop_hangs pkt data_len off type s lt et nz eb zero = unfold mprtcp_loop in ground arith
  mprtcp_loop_hangs pkt data_len off type s lt et nz eb (suc fuel) =
      mprtcp_loop_step h iface recv_from recvtime fuel pkt data_len off s lt
      ∙ rw (et, ne→== type 0 nz, eb, add-zero)
          (mprtcp_loop_hangs pkt data_len off type s lt et nz eb fuel)

module _ {W I S : Type 0} (h : Handlers W I S) (ends : HandlersEnd h) (iface : I)
    (recv_from : Endpoint) (recvtime : W) where
  process_sr_packet-ne-stuck :
      (p : Memory) (id : ℕ) (s : S) → process_sr_packet h iface recv_from recvtime p id s ≢ stuck
  unfolding process_sr_packet
  process_sr_packet-ne-stuck p id s =
      grind (arith, sr_packet-ne-stuck recv_from recvtime p, ends.sr_ends)

  process_rr_blocks-ne-stuck :
      (n : ℕ) (ssrc p : Memory) (id : ℕ) (s : S)
      → process_rr_blocks h iface recv_from recvtime n ssrc p id s ≢ stuck
  unfolding process_rr_blocks
  process_rr_blocks-ne-stuck zero ssrc p id s = λ e. cc
  process_rr_blocks-ne-stuck (suc n) ssrc p id s =
      >>=-ne-stuck _ _ (rr_packet-ne-stuck recv_from recvtime p) λ rr _.
        >>=-ne-stuck _ _ (u32_at-ne-stuck ssrc 0) λ sender _.
          >>=-ne-stuck _ _ (ends.rr_ends rr id sender iface s)
            λ s' _. process_rr_blocks-ne-stuck n ssrc p id s'

  process_block-ne-stuck :
      (p : Memory) (s : S) → process_block h iface recv_from recvtime p s ≢ stuck
  unfolding process_block process_subflow_block process_rr_packet mprtcp_type_at packettype_at
      count_at
  process_block-ne-stuck p s = grind (
    arith, u8_at-ne-stuck, u16_at-ne-stuck, process_sr_packet-ne-stuck, process_rr_blocks-ne-stuck,
  )

  mprtcp_loop_next :
      (fuel : ℕ) (pkt : Memory) (data_len off : ℕ) (s : S) (b : ℕ)
      → data_len ≤ off + suc fuel
      → BlockAt pkt data_len off
      → off < data_len
      → block_length_at (drop off pkt) ≡ ok b
      → (data_len ≤ off + b * 4 + fuel → ZeroBlock pkt data_len)
      → ZeroBlock pkt data_len
  mprtcp_loop_next fuel pkt data_len off s zero f at lt eb ih = (off, at, lt, eb)
  mprtcp_loop_next fuel pkt data_len off s (suc b) f at lt eb ih = ih (omega arith)

  -- The loop ends, unless it meets a block of length 0.
  mprtcp_loop_zero :
      (fuel : ℕ) (pkt : Memory) (data_len off : ℕ) (s : S)
      → data_len ≤ off + fuel
      → BlockAt pkt data_len off
      → mprtcp_loop h iface recv_from recvtime fuel pkt data_len off s ≡ stuck
      → ZeroBlock pkt data_len
  mprtcp_loop_zero zero pkt data_len off s f at e = absurd (
      ok-ne-stuck
        (sym (mprtcp_loop_end h iface recv_from recvtime 0 pkt data_len off s (omega arith)) ∙ e))
  mprtcp_loop_zero (suc fuel) pkt data_len off s f at e = elim (Bool-cases (ltb off data_len)) [
    | inr over ↦ absurd (
        ok-ne-stuck (
          sym (
            mprtcp_loop_end h iface recv_from recvtime (suc fuel) pkt data_len off s
              (ltb→le _ _ over))
          ∙ e))
    | inl more ↦
        let lt = ltb→lt off data_len more in
        let (s', _, e') =
          >>=-eq-stuck _ _ (process_block-ne-stuck (drop off pkt) s)
            (sym (mprtcp_loop_step h iface recv_from recvtime fuel pkt data_len off s lt) ∙ e) in
        let (b, eb, rest) = >>=-eq-stuck _ _ (block_length_at-ne-stuck (drop off pkt)) e' in
        mprtcp_loop_next fuel pkt data_len off s' b f at lt eb λ f'.
          mprtcp_loop_zero fuel pkt data_len (off + b * 4) s' f' (next_block off b at lt eb) rest
  ]

  process_rr_packet-ne-stuck :
      (p : Memory) (id : ℕ) (s : S) → process_rr_packet h iface recv_from recvtime p id s ≢ stuck
  unfolding process_rr_packet count_at
  process_rr_packet-ne-stuck p id s = grind (arith, u8_at-ne-stuck p 0, process_rr_blocks-ne-stuck)

  process_mprtcp_packet_zero :
      (pkt : Memory) (s : S)
      → process_mprtcp_packet h iface recv_from recvtime pkt s ≡ stuck
      → HasZeroBlock pkt
  unfolding process_mprtcp_packet
  process_mprtcp_packet_zero pkt s e =
      let (len, el, e') = >>=-eq-stuck _ _ (length_at-ne-stuck pkt) e in
      (len, el, mprtcp_loop_zero _ pkt _ 12 s (omega arith) first_block e')

  dispatch_rtcp_zero :
      (pkt : Memory) (s : S)
      → dispatch_rtcp h iface recv_from recvtime pkt s ≡ stuck
      → (packettype_at pkt ≡ ok rtcptype_mprtp) × HasZeroBlock pkt
  unfolding dispatch_rtcp
  dispatch_rtcp_zero pkt s e =
      let (t, et, e') = >>=-eq-stuck _ _ (packettype_at-ne-stuck pkt) e in
      let hangs : process_mprtcp_packet h iface recv_from recvtime pkt s ≡ stuck =
        ground (arith, process_sr_packet-ne-stuck pkt 0 s, process_rr_packet-ne-stuck pkt 0 s) in
      let is_mprtp : t ≡ rtcptype_mprtp =
        ground (arith, process_sr_packet-ne-stuck pkt 0 s, process_rr_packet-ne-stuck pkt 0 s) in
      (et ∙ ap ok is_mprtp, process_mprtcp_packet_zero pkt s hangs)

  -- The loop over the parts of a compound packet ends, unless the loop over the blocks of an MPRTP
  -- part does not.
  rtcp_loop_zero :
      (fuel : ℕ) (bytes : Memory) (off : ℕ) (s : S)
      → length bytes ≤ off + fuel
      → PartAt bytes off
      → rtcp_loop h iface recv_from recvtime fuel bytes off s ≡ stuck
      → HangsInside bytes
  rtcp_loop_zero zero bytes off s f at e =
      absurd (
        ok-ne-stuck
          (sym (rtcp_loop_end h iface recv_from recvtime 0 bytes off s (omega arith)) ∙ e))
  rtcp_loop_zero (suc fuel) bytes off s f at e = elim (Bool-cases (ltb off (length bytes))) [
    | inr over ↦ absurd (
        ok-ne-stuck (
          sym (rtcp_loop_end h iface recv_from recvtime (suc fuel) bytes off s (ltb→le _ _ over))
          ∙ e))
    | inl more ↦
        let lt = ltb→lt off (length bytes) more in
        let e' = sym (rtcp_loop_step h iface recv_from recvtime fuel bytes off s lt) ∙ e in
        elim (Result-cases (dispatch_rtcp h iface recv_from recvtime (drop off bytes) s)) [
          | inr (inr hung) ↦
              let (mprtp, zero_block) = dispatch_rtcp_zero (drop off bytes) s hung in
              (off, at, mprtp, zero_block)
          | inr (inl faulty) ↦ cc (rw faulty at e')
          | inl (s', done) ↦
              let (len, el, rest) =
                >>=-eq-stuck _ _ (length_at-ne-stuck (drop off bytes)) (rw done at e') in
              rtcp_loop_zero fuel bytes (off + (len + 1) * 4) s' (omega arith)
                (next_part off len at lt el) rest
        ]
  ]

-- Over handlers that end, the session ends on every RTCP packet, with a new state or a fault, unless a
-- part of the packet is an MPRTP packet of which a block states the length 0. The parts are those that
-- follow one another by their lengths, and the blocks likewise.
pub process_rtcp_packet-ne-stuck :
    {W I S : Type 0} (h : Handlers W I S) (iface : I) (raw : RawPacket W) (s : S)
    → HandlersEnd h
    → ¬ HangsInside raw.bytes
    → process_rtcp_packet h raw iface s ≢ stuck
unfolding process_rtcp_packet
process_rtcp_packet-ne-stuck h iface raw s ends fine e = fine (
    rtcp_loop_zero h ends iface raw.from_address raw.recvtime (length raw.bytes) raw.bytes 0 s
      (omega arith) first_part e)
