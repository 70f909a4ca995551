-- ===== src/Receiver.antt =====
-- include/mprtp_receiver.h and src/mprtp_receiver.cpp: the receiver keeps a source for each SSRC, in
-- the order of the numbers, as `std::map` does.
pub mod Sources
pub mod Invariant
pub mod Ranges
pub mod Returns
pub mod Faults
use mprtplib.Prelude.{
  ℕ, zero, suc, Bool, true, false, Option, none, some, List, [], ◌∷◌, ltb, ◌==◌, if◌then◌else◌,
}
use mprtplib.Prelude.Int.{ℤ}
use mprtplib.Prelude.Result.{Result, ok, fault, stuck, ◌>>=◌}
use mprtplib.Double.{Double}
use mprtplib.Packet.{RtpPacket}
use mprtplib.Rtcp.{SrPacket, RrPacket}
use mprtplib.Interface.{Interface}
use mprtplib.World.{World, take_random}
use mprtplib.Source
use mprtplib.Source.{Source, new_source}
use mprtplib.Session.{Handlers}
use mprtplib.Session.Poll.{Session, Rounds, poll_session}

abbrev pub Sources : Type 0 → Type 0
Sources W = List (ℕ × Source W)

pub record Receiver (W : Type 0) : Type 0 where
  pub sources : Sources W
  pub timestamp_unit : W
  pub ssrc : ℕ
  pub world : World W

module _ {W : Type 0} where
  -- `m_sources.find(ssrc)`
  unfoldable pub find_source : ℕ → Sources W → Option (Source W)
  find_source ssrc [] = none
  find_source ssrc ((key, src) ∷ rest) = if key == ssrc then some src else find_source ssrc rest

  -- `m_sources[ssrc] = src`, and a change through the pointer that the map holds.
  unfoldable pub put_source : ℕ → Source W → Sources W → Sources W
  put_source ssrc src [] = (ssrc, src) ∷ []
  put_source ssrc src ((key, old) ∷ rest) =
      if key == ssrc
      then (ssrc, src) ∷ rest
      else if ltb ssrc key
      then (ssrc, src) ∷ (key, old) ∷ rest
      else (key, old) ∷ put_source ssrc src rest

  -- `while (!m_ssrc)` of the constructor, for at most `fuel` rounds.
  unfoldable pub draw_ssrc : (fuel : ℕ) → World W → Result (ℕ × World W)
  draw_ssrc zero w = stuck
  draw_ssrc (suc fuel) w =
      let (random, w') = take_random w in
      let again = draw_ssrc fuel w' in if random == 0 then again else ok (random, w')

  -- The constructor.
  unfoldable pub new_receiver : (fuel : ℕ) → W → (ssrc : ℕ) → World W → Result (Receiver W)
  new_receiver fuel unit ssrc w = do
    (own, w') ← (if ssrc == 0 then draw_ssrc fuel w else ok (ssrc, w))
    ok (record { sources = []; timestamp_unit = unit; ssrc = own; world = w' })

module _ {W : Type 0} ⦃d : Double W⦄ where
  unfoldable pub get_source : ℕ → Receiver W → Source W
  get_source ssrc r = elim (find_source ssrc r.sources) [
    | some src ↦ src
    | none ↦ new_source ssrc r.ssrc
  ]

  unfoldable pub on_rtp_packet :
      RtpPacket W → Interface W → Receiver W → Result (Bool × RtpPacket W × Receiver W)
  on_rtp_packet pkt iface r = do
    let src = get_source pkt.ssrc r
    (src', pkt', w) ← Source.process_packet src pkt r.timestamp_unit iface r.world
    ok (true, pkt', record r { sources = put_source pkt.ssrc src' r.sources; world = w })

  unfoldable pub on_rtcp_sr_packet :
      SrPacket W → (subflow_id : ℕ) → Interface W → Receiver W → Result (Receiver W)
  on_rtcp_sr_packet pkt subflow_id iface r =
      let src = get_source pkt.sender_ssrc r in
      let (src', w) = Source.process_sr_packet src pkt subflow_id iface r.world in
      ok (record r { sources = put_source pkt.sender_ssrc src' r.sources; world = w })

  -- The virtual functions of `receiver`; receiver reports are left to `session`.
  unfoldable pub receiver_handlers : Handlers W (Interface W) (Receiver W)
  receiver_handlers = record {
    on_rtp_packet = on_rtp_packet;
    on_rtcp_sr_packet = on_rtcp_sr_packet;
    on_rtcp_rr_packet = λ pkt subflow_id sender_ssrc iface r. ok r;
  }

  -- `for(auto& src : m_sources)`
  unfoldable pub poll_sources : Sources W → World W → Result (Sources W × World W)
  poll_sources [] w = ok ([], w)
  poll_sources ((key, src) ∷ rest) w = do
    (src', w1) ← Source.poll src w
    (rest', w2) ← poll_sources rest w1
    ok ((key, src') ∷ rest', w2)

  unfoldable pub poll :
      (ℕ → Rounds W) → Session W (Receiver W) → Result (ℤ × Session W (Receiver W))
  poll rounds s = do
    (ret, s') ← poll_session receiver_handlers rounds s
    (sources, w) ← poll_sources s'.object.sources s'.object.world
    ok (ret, record s' { object = record (s'.object) { sources = sources; world = w } })
