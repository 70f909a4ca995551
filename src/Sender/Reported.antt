-- ===== src/Sender/Reported.antt =====
-- Which subflow a report reaches in `sender::on_rtcp_rr_packet` (src/mprtp_sender.cpp).
use mprtplib.Prelude.{
  ℕ, ◌≡◌, ◌≢◌, ◌⊎◌, refl, ap, sym, ◌∙◌, true, inl, inr, some, List, [], ◌∷◌, ◌==◌, ==_iff, ne→==,
  Bool-cases,
}
use mprtplib.Double.{Double}
use mprtplib.Rtcp.{RrPacket}
use mprtplib.Subflow
use mprtplib.Subflow.{Subflow}
use mprtplib.Sender.Cycle.{report_to}
use mprtplib.Sender.Lists.{process_rr_packet-fixed}
use mprtplib.Source.{find_subflow}

module _ {W : Type 0} where
  find_subflow-here :
      (id : ℕ) (x : Subflow W) (rest : List (Subflow W))
      → x.subflow_id ≡ id
      → find_subflow id (x ∷ rest) ≡ some x
  unfolding find_subflow
  find_subflow-here id x rest e = rw ((==_iff x.subflow_id id).1 e) refl

  find_subflow-skip :
      (id : ℕ) (x : Subflow W) (rest : List (Subflow W))
      → x.subflow_id ≢ id
      → find_subflow id (x ∷ rest) ≡ find_subflow id rest
  unfolding find_subflow
  find_subflow-skip id x rest n = rw (ne→== x.subflow_id id n, find_subflow) refl

  is_numbered : (id : ℕ) (x : Subflow W) → (x.subflow_id ≡ id) ⊎ (x.subflow_id ≢ id)
  is_numbered id x = elim (Bool-cases (x.subflow_id == id)) [
    | inl t ↦ inl ((==_iff x.subflow_id id).0 t)
    | inr f ↦ inr (λ e. let t = (==_iff x.subflow_id id).1 e in cc)
  ]

module _ {W : Type 0} ⦃d : Double W⦄ where
  module _ (id : ℕ) (pkt : RrPacket W) (now1 now2 : W) where
    abbrev pub after : List (Subflow W) → List (Subflow W)
    after sfs = (report_to id pkt now1 now2 sfs).2

    after-here :
        (x : Subflow W) (rest : List (Subflow W))
        → x.subflow_id ≡ id
        → report_to id pkt now1 now2 (x ∷ rest)
          ≡ (true, Subflow.clock_calls x pkt now1, Subflow.process_rr_packet x pkt now1 now2 ∷ rest)
    unfolding report_to
    after-here x rest e = rw ((==_iff x.subflow_id id).1 e) refl

    after-skip :
        (x : Subflow W) (rest : List (Subflow W))
        → x.subflow_id ≢ id
        → let later = report_to id pkt now1 now2 rest in
          report_to id pkt now1 now2 (x ∷ rest) ≡ (later.0, later.1, x ∷ later.2)
    unfolding report_to
    after-skip x rest n = rw (ne→== x.subflow_id id n, report_to) refl

    kept_number :
        (x : Subflow W) → (Subflow.process_rr_packet x pkt now1 now2).subflow_id ≡ x.subflow_id
    kept_number x = ap (λ f. (f.0).0) (process_rr_packet-fixed x pkt now1 now2)

    process_rr_packet-last :
        (x : Subflow W)
        → (Subflow.process_rr_packet x pkt now1 now2).last_receiver_report ≡ some pkt
    unfolding Subflow.process_rr_packet
    process_rr_packet-last x = refl

    -- The first subflow with the number gets the report.
    pub report_to-same :
        (sfs : List (Subflow W)) (sf : Subflow W)
        → find_subflow id sfs ≡ some sf
        → ((report_to id pkt now1 now2 sfs).0 ≡ true)
          × (sf' : Subflow W) × (find_subflow id (after sfs) ≡ some sf')
          × (sf'.last_receiver_report ≡ some pkt)
    report_to-same [] sf e = unfold find_subflow in cc
    report_to-same (x ∷ rest) sf e = elim (is_numbered id x) [
      | inl h ↦
          let found = ap (λ r. r.0) (after-here x rest h) in
          let list = ap (λ r. r.2) (after-here x rest h) in
          let new = Subflow.process_rr_packet x pkt now1 now2 in
          (
            found,
            new,
            ap (find_subflow id) list ∙ find_subflow-here id new rest (kept_number x ∙ h),
            process_rr_packet-last x,
          )
      | inr n ↦
          let found = ap (λ r. r.0) (after-skip x rest n) in
          let list = ap (λ r. r.2) (after-skip x rest n) in
          let (found', sf', read, last) =
            report_to-same rest sf (sym (find_subflow-skip id x rest n) ∙ e) in
          (
            found ∙ found',
            sf',
            ap (find_subflow id) list ∙ find_subflow-skip id x (after rest) n ∙ read,
            last,
          )
    ]

    -- Each other subflow is as it was.
    pub report_to-other :
        (other : ℕ) (sfs : List (Subflow W))
        → other ≢ id
        → find_subflow other (after sfs) ≡ find_subflow other sfs
    report_to-other other [] n = unfold report_to in refl
    report_to-other other (x ∷ rest) n = elim (is_numbered id x) [
      | inl h ↦
          let list = ap (λ r. r.2) (after-here x rest h) in
          let new = Subflow.process_rr_packet x pkt now1 now2 in
          ap (find_subflow other) list
          ∙ find_subflow-skip other new rest (λ e. n (sym e ∙ kept_number x ∙ h))
          ∙ sym (find_subflow-skip other x rest (λ e. n (sym e ∙ h)))
      | inr m ↦
          ap (λ r. find_subflow other r.2) (after-skip x rest m) ∙ elim (is_numbered other x) [
            | inl h ↦
                find_subflow-here other x (after rest) h ∙ sym (find_subflow-here other x rest h)
            | inr k ↦
                find_subflow-skip other x (after rest) k
                ∙ report_to-other other rest n
                ∙ sym (find_subflow-skip other x rest k)
          ]
    ]
