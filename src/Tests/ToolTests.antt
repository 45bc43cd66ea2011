-- ===== src/Tests/ToolTests.antt =====
-- A purchase and a sale that the pilot of a small ledger reports, with no arrival marked before.
use graphling.Prelude.{Bool, codes, strip, ℕ, ◌≡◌, refl, pos, none, some, inr, whole_floats}
use graphling.Ledger.Models.{acquisition, sale, manual, autoload, TradeLeg}
use graphling.Ledger.Tables.{Tables}
use graphling.Ledger.Legs.{fits, Transaction, advance_leg, record_purchase}
use graphling.Ledger.Milestones.{next_unset_field}
use graphling.Ledger.Consistent.{Consistent}
use graphling.Ledger.Integrity.{serve-Consistent}
use graphling.Ledger.Create.{create_run_from_route}
use graphling.Ledger.Requests.{handle, serve, advance, purchase}
use graphling.Tests.CatalogTests.{libraries, catalog}
use graphling.Tests.LedgerTests.{one_run, one_run-Consistent, bought_leg, owned_test}
use graphling.Tools.Resolver.{resolve_leg}
use graphling.Tools.Updates.{
  Stated, transaction_of, catch_up_before_transaction, mark_cargo_acquired, mark_cargo_sold,
}
use graphling.Tools.CatchUp.{Ready, catch_up_before_transaction-Ready, steps_left-le}
use graphling.Tools.OwnLeg.{Meant, resolve_leg-Mine}
use graphling.Tools.Sold.{Sold, mark_cargo_sold-Sold}
use graphling.Tools.Acquired.{Bought, mark_cargo_acquired-Bought}

abbrev clock : ℕ → ℕ × ℕ
clock round = (200, 201)

catch_up_before_transaction-Ready_example :
    Ready bought_leg 7 (catch_up_before_transaction 7 4 clock bought_leg one_run)
catch_up_before_transaction-Ready_example =
    catch_up_before_transaction-Ready 7 clock 4 bought_leg one_run one_run-Consistent owned_test
      refl (steps_left-le bought_leg)

resolve_leg-Mine_example :
    Meant libraries catalog 7 one_run one_run-Consistent
      (some acquisition)
      (resolve_leg libraries catalog 7 one_run (some acquisition) (some (codes "gold")) none)
resolve_leg-Mine_example =
    resolve_leg-Mine libraries catalog 7 one_run one_run-Consistent (some acquisition)
      (some (codes "gold")) none

resolved_test :
    resolve_leg libraries catalog 7 one_run (some acquisition) (some (codes "gold")) none
    ≡ inr bought_leg
unfolding resolve_leg serve handle create_run_from_route strip
resolved_test = refl

abbrev stated : Stated
stated = record {
  quantity_scu = some (pos 90);
  price_per_unit = none;
  cargo_transfer_type = none;
  cargo_transfer_fee = none;
}

amounts_test : fits (transaction_of bought_leg stated) ≡ Bool.true
unfolding transaction_of
amounts_test = refl

mark_cargo_acquired-Bought_example :
    Bought bought_leg 7
      (transaction_of bought_leg stated)
      210
      (mark_cargo_acquired 7 libraries catalog (some (codes "gold")) none clock 210 stated one_run)
mark_cargo_acquired-Bought_example =
    mark_cargo_acquired-Bought libraries catalog 7 (some (codes "gold")) none clock 210 stated
      bought_leg one_run one_run-Consistent resolved_test refl amounts_test

-- The run once its purchase is done: the sale leg is the current one.
abbrev bought_90 : Transaction
bought_90 = record {
  quantity_scu = pos 90;
  price_per_unit = pos 11;
  cargo_transfer_type = manual;
  cargo_transfer_fee = pos 20;
}

abbrev arrived : Tables
arrived = serve whole_floats (advance 2) 7 110 111 one_run

abbrev paid : Tables
paid = serve whole_floats (purchase 2 bought_90) 7 120 121 arrived

abbrev loaded : Tables
loaded = serve whole_floats (advance 2) 7 130 131 paid

abbrev on_the_way : Tables
on_the_way = serve whole_floats (advance 2) 7 140 141 loaded

on_the_way-Consistent : Consistent on_the_way
on_the_way-Consistent =
    serve-Consistent whole_floats (advance 2) 7 140 141 loaded
      (serve-Consistent whole_floats (advance 2) 7 130 131 paid
        (serve-Consistent whole_floats (purchase 2 bought_90) 7 120 121 arrived
          (serve-Consistent whole_floats (advance 2) 7 110 111 one_run one_run-Consistent tt) tt)
        tt)
      tt

abbrev sale_leg : TradeLeg
sale_leg = record {
  id = 3;
  created_at = 102;
  user_id = 7;
  run_id = 1;
  leg_type = sale;
  terminal_id = 2;
  terminal_name = "Lorville";
  commodity_name = "Gold";
  quantity_scu = pos 90;
  price_per_unit = pos 14;
  cargo_transfer_type = autoload;
  cargo_transfer_fee = pos 0;
  started_at = some 141;
  reached_at = none;
  transaction_completed_at = none;
  transferred_at = none;
  finalized_at = none;
}

sale_resolved_test : resolve_leg libraries catalog 7 on_the_way (some sale) none none ≡ inr sale_leg
unfolding resolve_leg serve handle create_run_from_route strip advance_leg record_purchase
    next_unset_field
sale_resolved_test = refl

sale_amounts_test : fits (transaction_of sale_leg stated) ≡ Bool.true
unfolding transaction_of
sale_amounts_test = refl

mark_cargo_sold-Sold_example :
    Sold sale_leg 7
      (transaction_of sale_leg stated)
      210
      (mark_cargo_sold 7 libraries catalog none none clock 210 211 stated on_the_way)
mark_cargo_sold-Sold_example =
    mark_cargo_sold-Sold libraries catalog 7 none none clock 210 211 stated sale_leg on_the_way
      on_the_way-Consistent sale_resolved_test refl sale_amounts_test
