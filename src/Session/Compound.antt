-- ===== src/Session/Compound.antt =====
-- `session::process_rtcp_packet` on a compound packet of two parts, as both sides send them.
use mprtplib.Prelude.{
  ℕ, zero, suc, ◌+◌, ◌*◌, ◌≤◌, ◌≡◌, refl, ◌∙◌, arith, ◌++◌, length, length-append, drop-append,
}
use mprtplib.Prelude.Result.{Result, ok, fault, stuck, ◌>>=◌}
use mprtplib.Address.{Endpoint}
use mprtplib.Bytes.{Memory}
use mprtplib.Struct.{length_at}
use mprtplib.Session.{Handlers, dispatch_rtcp, rtcp_loop}
use mprtplib.Session.Blocks.{rtcp_loop_end, rtcp_loop_step}

module _ {W I S : Type 0} (h : Handlers W I S) (iface : I) (recv_from : Endpoint) (recvtime : W)
    (a b : Memory) (la lb : ℕ) (ea eb : S → Result S) (a_sized : length a ≡ (la + 1) * 4)
    (b_sized : length b ≡ (lb + 1) * 4) (a_stated : length_at (a ++ b) ≡ ok la)
    (b_stated : length_at b ≡ ok lb)
    (a_done : (s : S) → dispatch_rtcp h iface recv_from recvtime (a ++ b) s ≡ ea s)
    (b_done : (s : S) → dispatch_rtcp h iface recv_from recvtime b s ≡ eb s) where
  abbrev loop : ℕ → ℕ → S → Result S
  loop fuel off s = rtcp_loop h iface recv_from recvtime fuel (a ++ b) off s

  whole : length (a ++ b) ≡ (la + 1) * 4 + (lb + 1) * 4
  whole = omega (arith, length-append a b)

  loop_end :
      (fuel : ℕ) (r : Result S) → (r >>= λ s. loop fuel (0 + (la + 1) * 4 + (lb + 1) * 4) s) ≡ r
  loop_end fuel (ok s) =
      rtcp_loop_end h iface recv_from recvtime fuel (a ++ b) _ s (omega (arith, whole))
  loop_end fuel fault = refl
  loop_end fuel stuck = refl

  loop_second :
      (fuel : ℕ) (r : Result S) → (r >>= λ s. loop (suc fuel) (0 + (la + 1) * 4) s) ≡ (r >>= eb)
  loop_second fuel (ok s) =
      rtcp_loop_step h iface recv_from recvtime fuel (a ++ b) _ s (omega (arith, whole))
      ∙ rw (drop-append a b (0 + (la + 1) * 4) (omega arith), b_done s, b_stated)
          (loop_end fuel (eb s))
  loop_second fuel fault = refl
  loop_second fuel stuck = refl

  -- Both parts are dispatched, in order.
  pub rtcp_loop-two : (fuel : ℕ) (s : S) → 2 ≤ fuel → loop fuel 0 s ≡ (ea s >>= eb)
  rtcp_loop-two zero s f = absurd (omega arith)
  rtcp_loop-two (suc zero) s f = absurd (omega arith)
  rtcp_loop-two (suc (suc fuel)) s f =
      rtcp_loop_step h iface recv_from recvtime (suc fuel) (a ++ b) 0 s (omega (arith, whole))
      ∙ rw (a_done s, a_stated) (loop_second fuel (ea s))
