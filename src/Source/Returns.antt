-- ===== src/Source/Returns.antt =====
-- The reports of a source of src/mprtp_source.cpp come to an end while it has few subflows.
pub mod Steps
use mprtplib.Prelude.{
  ℕ, zero, suc, ◌<◌, ◌≤◌, ◌≡◌, ◌≢◌, refl, ap, sym, ◌∙◌, arith, Bool, true, false, inl, inr, Option,
  none, some, List, [], ◌∷◌, ◌++◌, All, length, ◌==◌, ==_iff, Bool-cases, Option-cases, if_both,
  if◌then◌else◌,
}
use mprtplib.Prelude.Result.{ok, Ends, Ends->>=}
use mprtplib.Address.{Endpoint}
use mprtplib.Double.{Double}
use mprtplib.Interface.{Interface}
use mprtplib.Packet.{RawPacket, RtpPacket}
use mprtplib.Rtcp.{SrPacket}
use mprtplib.Stat
use mprtplib.Subflow
use mprtplib.Subflow.{Subflow, new_subflow}
use mprtplib.World.{World, take_time, take_random}
use mprtplib.Session.Traffic.{All-end}
use mprtplib.Source.{
  Source, new_source, find_subflow, store_subflow, find_or_add, process_packet, process_sr_packet,
  fill_subflows, create_report, select_front, send_report, poll,
}
use mprtplib.Source.Packets.{
  Absent, Distinct, Distinct-store, find_or_add_lem, subflow_id-stat, from_raw,
}

module _ {W : Type 0} where
  abbrev pub Below : ℕ → List (Subflow W) → Type 0
  Below n = All (λ sf. sf.subflow_id < n)

  -- The list without its first subflow with the number `n`.
  abbrev without : ℕ → List (Subflow W) → List (Subflow W)
  without n [] = []
  without n (sf ∷ rest) = if sf.subflow_id == n then rest else sf ∷ without n rest

  length-without : (n : ℕ) (sfs : List (Subflow W)) → length sfs ≤ suc (length (without n sfs))
  length-without n [] = omega arith
  length-without n (sf ∷ rest) = ground (arith, length-without n rest)

  Absent-without : (n id : ℕ) (sfs : List (Subflow W)) → Absent id sfs → Absent id (without n sfs)
  Absent-without n id [] a = tt
  Absent-without n id (sf ∷ rest) a =
      if_both (Absent id) (sf.subflow_id == n) rest (sf ∷ without n rest) a.1
        (a.0, Absent-without n id rest a.1)

  Distinct-without : (n : ℕ) (sfs : List (Subflow W)) → Distinct sfs → Distinct (without n sfs)
  Distinct-without n [] dist = tt
  Distinct-without n (sf ∷ rest) dist =
      if_both Distinct (sf.subflow_id == n) rest (sf ∷ without n rest) dist.1
        (Absent-without n sf.subflow_id rest dist.0, Distinct-without n rest dist.1)

  Absent-Below : (n : ℕ) (sfs : List (Subflow W)) → Absent n sfs → Below (suc n) sfs → Below n sfs
  Absent-Below n [] a below = tt
  Absent-Below n (sf ∷ rest) a below =
      (omega (arith, a.0, below.0), Absent-Below n rest a.1 below.1)

  without-Below :
      (n : ℕ) (sfs : List (Subflow W)) → Distinct sfs → Below (suc n) sfs → Below n (without n sfs)
  without-Below n [] dist below = tt
  without-Below n (sf ∷ rest) dist below = elim (Bool-cases (sf.subflow_id == n)) [
    | inl same ↦
        let e : sf.subflow_id ≡ n = (==_iff sf.subflow_id n).0 same in
        rw same (Absent-Below n rest (rw⁻¹ e dist.0) below.1)
    | inr other ↦
        let less : sf.subflow_id < n = ground (arith, below.0) in
        rw other (less, without-Below n rest dist.1 below.1)
  ]

  -- As many subflows as numbers, at most.
  pub length-Below : (n : ℕ) (sfs : List (Subflow W)) → Distinct sfs → Below n sfs → length sfs ≤ n
  length-Below zero [] dist below = omega arith
  length-Below zero (sf ∷ rest) dist below = absurd (omega (arith, below.0))
  length-Below (suc n) sfs dist below = omega (
    arith,
    length-without n sfs,
    length-Below n (without n sfs) (Distinct-without n sfs dist) (without-Below n sfs dist below),
  )

  -- The subflows have numbers of their own below `n`, and there is one where a report is due.
  pub record IsReady (n : ℕ) (src : Source W) : Type 0 where
    pub distinct : Distinct src.subflows
    pub below : Below n src.subflows
    pub some_subflow : src.send_rr ≡ true → src.subflows ≢ []

  pub store_subflow-Below :
      (n : ℕ) (new : Subflow W) (sfs : List (Subflow W))
      → new.subflow_id < n
      → Below n sfs
      → Below n (store_subflow new sfs)
  unfolding store_subflow
  store_subflow-Below n new [] h below = tt
  store_subflow-Below n new (sf ∷ rest) h below =
      if_both (Below n) (sf.subflow_id == new.subflow_id) _ _ (h, below.1)
        (below.0, store_subflow-Below n new rest h below.1)

  pub store_subflow-some :
      (new : Subflow W) (sfs : List (Subflow W)) → sfs ≢ [] → store_subflow new sfs ≢ []
  unfolding store_subflow
  store_subflow-some new [] h = absurd (h refl)
  store_subflow-some new (sf ∷ rest) h =
      if_both (λ x. x ≢ []) (sf.subflow_id == new.subflow_id) _ _ (λ e. cc) (λ e. cc)

  pub found-some :
      (id : ℕ) (sfs : List (Subflow W)) (sf : Subflow W) → find_subflow id sfs ≡ some sf → sfs ≢ []
  unfolding find_subflow
  found-some id [] sf e = cc
  found-some id (x ∷ rest) sf e = λ n. cc
