-- ===== src/Session/Blocks.antt =====
-- `session::process_mprtcp_packet` on a row of well-formed blocks of one size.
use mprtplib.Prelude.{
  ℕ, zero, suc, ◌+◌, ◌*◌, ◌≤◌, ◌<◌, ◌≡◌, refl, sym, ◌∙◌, arith, List, [], ◌∷◌, ◌++◌, length, drop,
  length-append, drop-append, append_assoc, All, lt→ltb, le→ltb,
}
use mprtplib.Prelude.Result.{Result, ok, fault, stuck, ◌>>=◌}
use mprtplib.Address.{Endpoint}
use mprtplib.Bytes.{Memory}
use mprtplib.Struct.{block_length_at, length_at}
use mprtplib.Rtcp.Build.{concat_map}
use mprtplib.Session.{Handlers, process_block, mprtcp_loop, rtcp_loop, dispatch_rtcp}

-- One effect after the other.
abbrev pub each {ℓ} : {A : Type ℓ} {S : Type 0} → (A → S → Result S) → List A → S → Result S
each f [] s = ok s
each f (a ∷ rest) s = f a s >>= λ s'. each f rest s'

pub length-concat_map {ℓ} :
    {A : Type ℓ} (f : A → Memory) (k : ℕ) (items : List A)
    → ((a : A) → length (f a) ≡ k)
    → length (concat_map f items) ≡ length items * k
length-concat_map f k [] h = omega arith
length-concat_map f k (a ∷ items) h =
    omega (arith, length-append (f a) (concat_map f items), h a, length-concat_map f k items h)

module _ {W I S : Type 0} (h : Handlers W I S) (iface : I) (recv_from : Endpoint)
    (recvtime : W) where
  pub mprtcp_loop_end :
      (fuel : ℕ) (pkt : Memory) (data_len off : ℕ) (s : S)
      → data_len ≤ off
      → mprtcp_loop h iface recv_from recvtime fuel pkt data_len off s ≡ ok s
  unfolding mprtcp_loop
  mprtcp_loop_end zero pkt data_len off s e = rw (le→ltb off data_len e)
  mprtcp_loop_end (suc fuel) pkt data_len off s e = rw (le→ltb off data_len e, mprtcp_loop)

  pub mprtcp_loop_step :
      (fuel : ℕ) (pkt : Memory) (data_len off : ℕ) (s : S)
      → off < data_len
      → mprtcp_loop h iface recv_from recvtime (suc fuel) pkt data_len off s ≡ (
          process_block h iface recv_from recvtime (drop off pkt) s >>= λ s'.
          block_length_at (drop off pkt) >>= λ block_length.
          mprtcp_loop h iface recv_from recvtime fuel pkt data_len (off + block_length * 4) s')
  unfolding mprtcp_loop
  mprtcp_loop_step fuel pkt data_len off s lt = rw (lt→ltb off data_len lt, mprtcp_loop)

  pub rtcp_loop_end :
      (fuel : ℕ) (bytes : Memory) (off : ℕ) (s : S)
      → length bytes ≤ off
      → rtcp_loop h iface recv_from recvtime fuel bytes off s ≡ ok s
  unfolding rtcp_loop
  rtcp_loop_end zero bytes off s e = rw (le→ltb off (length bytes) e)
  rtcp_loop_end (suc fuel) bytes off s e = rw (le→ltb off (length bytes) e, rtcp_loop)

  pub rtcp_loop_step :
      (fuel : ℕ) (bytes : Memory) (off : ℕ) (s : S)
      → off < length bytes
      → rtcp_loop h iface recv_from recvtime (suc fuel) bytes off s ≡ (
          dispatch_rtcp h iface recv_from recvtime (drop off bytes) s >>= λ s'.
          length_at (drop off bytes) >>= λ len.
          rtcp_loop h iface recv_from recvtime fuel bytes (off + (len + 1) * 4) s')
  unfolding rtcp_loop
  rtcp_loop_step fuel bytes off s lt = rw (lt→ltb off (length bytes) lt, rtcp_loop)

module _ {W I S : Type 0} (h : Handlers W I S) (iface : I) (recv_from : Endpoint) (recvtime : W)
    {A : Type 0} (P : A → Type 0) (enc : A → Memory) (eff : A → S → Result S) (k : ℕ)
    (sized : (a : A) → length (enc a) ≡ k * 4)
    (stated : (a : A) (rest : Memory) → P a → block_length_at (enc a ++ rest) ≡ ok k)
    (processed : (a : A) (rest : Memory) (s : S)
      → P a
      → process_block h iface recv_from recvtime (enc a ++ rest) s ≡ eff a s) where
  -- The loop handles each block once, in order, and stops behind the last.
  pub mprtcp_loop-blocks :
      (items : List A) (fuel data_len off : ℕ) (pre rest pkt : Memory) (s : S)
      → All P items
      → length items ≤ fuel
      → off ≡ length pre
      → data_len ≡ off + length (concat_map enc items)
      → 0 < k
      → pkt ≡ pre ++ (concat_map enc items ++ rest)
      → mprtcp_loop h iface recv_from recvtime fuel pkt data_len off s ≡ each eff items s
  mprtcp_loop-blocks [] zero data_len off pre rest pkt s ps f o d pos_k e =
      mprtcp_loop_end h iface recv_from recvtime _ pkt data_len off s (omega arith)
  mprtcp_loop-blocks [] (suc fuel) data_len off pre rest pkt s ps f o d pos_k e =
      mprtcp_loop_end h iface recv_from recvtime _ pkt data_len off s (omega arith)
  mprtcp_loop-blocks (a ∷ items) zero data_len off pre rest pkt s ps f o d pos_k e =
      absurd (omega arith)
  mprtcp_loop-blocks (a ∷ items) (suc fuel) data_len off pre rest pkt s (pa, ps) f o d pos_k e =
      let behind : Memory = concat_map enc items ++ rest in
      let len = length-append (enc a) (concat_map enc items) in
      let here : drop off pkt ≡ enc a ++ behind =
        rw (e, append_assoc (enc a) (concat_map enc items) rest)
          (drop-append pre (enc a ++ behind) off o) in
      let ih = λ (s' : S).
        mprtcp_loop-blocks items fuel data_len (off + k * 4) (pre ++ enc a) rest pkt s' ps
          (omega arith) (omega (arith, length-append pre (enc a), sized a))
          (omega (arith, len, sized a)) pos_k
          (rw (e, append_assoc (enc a) (concat_map enc items) rest)
            (sym (append_assoc pre (enc a) behind))) in
      mprtcp_loop_step h iface recv_from recvtime fuel pkt data_len off s
        (omega (arith, len, sized a))
      ∙ rw (here, processed a behind s pa, stated a behind pa) (step ih (eff a s))
    where
      step :
          ((s' : S)
            → mprtcp_loop h iface recv_from recvtime fuel pkt data_len (off + k * 4) s'
              ≡ each eff items s')
          → (r : Result S)
          → (r >>= λ s'. mprtcp_loop h iface recv_from recvtime fuel pkt data_len (off + k * 4) s')
            ≡ (r >>= λ s'. each eff items s')
      step ih (ok s') = ih s'
      step ih fault = refl
      step ih stuck = refl
