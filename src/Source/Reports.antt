-- ===== src/Source/Reports.antt =====
-- The report of a source without subflows (src/mprtp_source.cpp).
use mprtplib.Prelude.{◌≡◌, arith, true, []}
use mprtplib.Prelude.Result.{fault}
use mprtplib.Double.{Double}
use mprtplib.World.{World, take_time}
use mprtplib.Source.{Source, poll, send_report, create_report, select_front, fill_subflows}

module _ {W : Type 0} ⦃d : Double W⦄ where
  -- A source that is to report and has no subflow takes the front of an empty vector.
  pub poll_no_subflows :
      (src : Source W) (w : World W) → src.send_rr ≡ true → src.subflows ≡ [] → poll src w ≡ fault
  unfolding poll send_report create_report select_front fill_subflows take_time
  poll_no_subflows src w s e = rw (s, e) (ground arith)
