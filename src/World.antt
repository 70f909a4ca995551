-- ===== src/World.antt =====
-- What the program asks its surroundings for, and what it hands to them. `times` and `randoms` are
-- the answers of `rtp_time::now` and `rand`, each call taking the next; `net` answers `::sendto`;
-- `sent` holds the datagrams that went out so far, the last one first.
use mprtplib.Prelude.{ℕ, ◌+◌, List, ◌∷◌}
use mprtplib.Prelude.Int.{ℤ}
use mprtplib.Interface.{Datagram}

pub record World (W : Type 0) : Type 0 where
  pub times : ℕ → W
  pub times_taken : ℕ
  pub randoms : ℕ → ℕ
  pub randoms_taken : ℕ
  pub net : Datagram → ℤ
  pub sent : List Datagram

module _ {W : Type 0} where
  unfoldable pub take_time : World W → W × World W
  take_time w = (w.times w.times_taken, record w { times_taken = w.times_taken + 1 })

  unfoldable pub take_random : World W → ℕ × World W
  take_random w = (w.randoms w.randoms_taken, record w { randoms_taken = w.randoms_taken + 1 })

  unfoldable pub log_sent : Datagram → World W → World W
  log_sent datagram w = record w { sent = datagram ∷ w.sent }
