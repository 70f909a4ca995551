-- ===== src/Session/Repeats.antt =====
-- What `session::process_rr_packet` (src/mprtp_session.cpp) makes of a packet with several blocks.
use mprtplib.Prelude.{ℕ, zero, suc, ◌≡◌, refl, drop}
use mprtplib.Prelude.Result.{Result, ok, fault, stuck, ◌>>=◌}
use mprtplib.Address.{Endpoint}
use mprtplib.Bytes.{Memory, u32_at}
use mprtplib.Struct.{count_at}
use mprtplib.Rtcp.{RrPacket, rr_packet}
use mprtplib.Session.{Handlers, process_rr_blocks, process_rr_packet}

-- A step, done `n` times.
abbrev pub times : {S : Type 0} → (n : ℕ) → (S → Result S) → S → Result S
times zero f s = ok s
times (suc n) f s = f s >>= times n f

same_after :
    {S : Type 0} {f g : S → Result S} (r : Result S) → ((s : S) → f s ≡ g s) → (r >>= f) ≡ (r >>= g)
same_after (ok s) same = same s
same_after fault same = refl
same_after stuck same = refl

module _ {W I S : Type 0} (h : Handlers W I S) (iface : I) (recv_from : Endpoint)
    (recvtime : W) where
  process_rr_blocks-times :
      (n : ℕ) (ssrc_hdr pkt : Memory) (id ssrc : ℕ) (rr : RrPacket W) (s : S)
      → u32_at ssrc_hdr 0 ≡ ok ssrc
      → rr_packet pkt recv_from recvtime ≡ ok rr
      → process_rr_blocks h iface recv_from recvtime n ssrc_hdr pkt id s
        ≡ times n (h.on_rtcp_rr_packet rr id ssrc iface) s
  unfolding process_rr_blocks
  process_rr_blocks-times zero ssrc_hdr pkt id ssrc rr s es er = refl
  process_rr_blocks-times (suc n) ssrc_hdr pkt id ssrc rr s es er =
      rw (er, es, process_rr_blocks)
        (same_after (h.on_rtcp_rr_packet rr id ssrc iface s)
          (λ s'. process_rr_blocks-times n ssrc_hdr pkt id ssrc rr s' es er))

  -- A report packet with `n` blocks hands its first block to the handler `n` times, and the others
  -- never.
  pub process_rr_packet-times :
      (pkt : Memory) (n id ssrc : ℕ) (rr : RrPacket W) (s : S)
      → count_at pkt ≡ ok n
      → u32_at (drop 4 pkt) 0 ≡ ok ssrc
      → rr_packet (drop 4 (drop 4 pkt)) recv_from recvtime ≡ ok rr
      → process_rr_packet h iface recv_from recvtime pkt id s
        ≡ times n (h.on_rtcp_rr_packet rr id ssrc iface) s
  unfolding process_rr_packet
  process_rr_packet-times pkt n id ssrc rr s ec es er =
      rw (ec) (process_rr_blocks-times n (drop 4 pkt) (drop 4 (drop 4 pkt)) id ssrc rr s es er)
