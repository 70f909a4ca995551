-- ===== src/Programs/Network/Weaken.antt =====
-- What holds of the programs of examples/ on typed lines, as more lines are typed.
use mprtplib.Prelude.{inl, inr, List}
use mprtplib.Address.{Text}
use mprtplib.Bytes.{Memory}
use mprtplib.Double.{Double}
use mprtplib.Session.Poll.{Session}
use mprtplib.Session.Traffic.{All-weaken, Carries-weaken}
use mprtplib.Sender.Lists.{Route}
use mprtplib.Receiver.{Receiver}
use mprtplib.Programs.Client.Threads.{
  Client, MainThread, reading, waiting, sending, sent, joining, interrupted,
}
use mprtplib.Programs.Network.Genuine.{Genuine, Prints}
use mprtplib.Programs.Network.Honest.{Held, IsHonest, Honest}

Held-weaken :
    (Typed Typed' : Text → Type 0) (m : MainThread)
    → ((line : Text) → Typed line → Typed' line)
    → Held Typed m
    → Held Typed' m
Held-weaken Typed Typed' reading more h = tt
Held-weaken Typed Typed' (waiting line) more h = more line h
Held-weaken Typed Typed' (sending line) more h = more line h
Held-weaken Typed Typed' sent more h = tt
Held-weaken Typed Typed' joining more h = tt
Held-weaken Typed Typed' (interrupted held) more h = tt

module _ {W : Type 0} ⦃d : Double W⦄ (routes : List (Route W)) (Typed Typed' : Text → Type 0)
    (more : (line : Text) → Typed line → Typed' line) where
  pub Genuine-weaken : (bytes : Memory) → Genuine routes Typed bytes → Genuine routes Typed' bytes
  Genuine-weaken bytes (inr report) = inr report
  Genuine-weaken bytes (inl h) = inl (record {
    line = h.line;
    seq = h.seq;
    ts = h.ts;
    ssrc = h.ssrc;
    id = h.id;
    sseq = h.sseq;
    is_typed = more h.line h.is_typed;
    is_routed = h.is_routed;
    short = h.short;
    same_bytes = h.same_bytes;
    seq_fits = h.seq_fits;
    ts_fits = h.ts_fits;
    ssrc_fits = h.ssrc_fits;
    id_fits = h.id_fits;
    sseq_fits = h.sseq_fits;
  })

  pub IsHonest-weaken : (c : Client W) → IsHonest routes Typed c → IsHonest routes Typed' c
  IsHonest-weaken c h = record {
    held = Held-weaken Typed Typed' c.reader more h.held;
    sent_genuine =
        All-weaken _ _ c.cli.object.world.sent (λ out. Genuine-weaken out.bytes) h.sent_genuine;
  }

  pub Honest-weaken : (s : Session W (Receiver W)) → Honest routes Typed s → Honest routes Typed' s
  Honest-weaken s c =
      Carries-weaken _ _ (Prints Typed) (Prints Typed') (λ r. Unit {0}) s
        (λ raw. Genuine-weaken raw.bytes)
        (λ pkt h. record {
          printable = h.printable;
          line = h.line;
          is_typed = more h.line h.is_typed;
          same_line = h.same_line;
        })
        c
