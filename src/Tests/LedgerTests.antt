-- ===== src/Tests/LedgerTests.antt =====
-- A run of one pilot (7), made from a route, and requests on it (app/server/ledger_service.py).
use graphling.Prelude.{
  ◌⊎◌, pos, ◌-ℤ◌, ◌≡◌, refl, Bool, none, some, [], ◌∷◌, arith, whole_floats, inl,
}
use graphling.Cargo.Sizes.{usable_container_sizes, format_container_sizes, sorted, distinct, str}
use graphling.Ledger.Models.{acquisition, sale, manual, autoload, TradeLeg, TradeRun, UexTradeRoute}
use graphling.Ledger.Milestones.{next_unset_field}
use graphling.Ledger.Tables.{Tables, legs_of, not_found, out_of_range, ok, err}
use graphling.Ledger.Owned.{get_owned_leg, get_owned_run}
use graphling.Ledger.Runs.{write_off_run}
use graphling.Ledger.Totals.{run_profit, amount}
use graphling.Ledger.WriteOff.{Lost, write_off_run-loss}
use graphling.Ledger.Create.{Defaults, create_run_from_route}
use graphling.Ledger.Legs.{Transaction, advance_leg, record_purchase}
use graphling.Ledger.Requests.{
  status_code, Request, create, advance, purchase, write_off, delete, handle, serve,
}
use graphling.Ledger.Consistent.{Consistent}
use graphling.Ledger.Integrity.{serve-Consistent}
use graphling.Ledger.Isolation.{SameForPilot, serve-SameForPilot}
use graphling.Ledger.Answers.{amounts_fit, handle-status_code}
use graphling.Ledger.Stamps.{Survives, serve-Survives}
use graphling.Ledger.Progress.{Advances, advance_leg-Advances}

abbrev no_tables : Tables
no_tables = record { runs = []; legs = [] }

abbrev route : UexTradeRoute whole_floats
route = record {
  commodity_id = 5;
  commodity_name = "Gold";
  origin_terminal_id = 1;
  origin_terminal_name = "Area 18";
  destination_terminal_id = 2;
  destination_terminal_name = "Lorville";
  price_origin = pos 10;
  price_destination = pos 14;
  scu_origin = pos 100;
  scu_destination = pos 100;
  is_on_ground_destination = Bool.false;
  is_auto_load_origin = Bool.false;
  is_auto_load_destination = Bool.true;
  container_sizes_origin = pos 8 ∷ pos 16 ∷ [];
  container_sizes_destination = pos 16 ∷ [];
}

abbrev new_ids : Defaults
new_ids = record {
  run_id = 1;
  acquisition_id = 2;
  sale_id = 3;
  run_created_at = 100;
  acquisition_created_at = 101;
  sale_created_at = 102;
}

abbrev made : Request whole_floats
made = create route (pos 96) none new_ids

abbrev pub one_run : Tables
one_run = serve whole_floats made 7 100 103 no_tables

no_tables-Consistent : Consistent no_tables
no_tables-Consistent = record {
  legs_distinct = tt;
  runs_distinct = tt;
  owned = tt;
  paired = λ run_id leg_type. omega arith;
}

pub one_run-Consistent : Consistent one_run
one_run-Consistent =
    serve-Consistent whole_floats made 7 100 103 no_tables no_tables-Consistent
      (record { run = tt; acquisition = tt; sale = tt; two = ground arith })

serve-Consistent_example : Consistent (serve whole_floats (write_off 1) 7 110 111 one_run)
serve-Consistent_example =
    serve-Consistent whole_floats (write_off 1) 7 110 111 one_run one_run-Consistent tt

serve-SameForPilot_example :
    SameForPilot 7 one_run (serve whole_floats (delete 1) 8 110 111 one_run)
serve-SameForPilot_example =
    serve-SameForPilot 8 7 (ground arith) whole_floats (delete 1) 110 111 one_run one_run-Consistent

abbrev pub bought_leg : TradeLeg
bought_leg = record {
  id = 2;
  created_at = 101;
  user_id = 7;
  run_id = 1;
  leg_type = acquisition;
  terminal_id = 1;
  terminal_name = "Area 18";
  commodity_name = "Gold";
  quantity_scu = pos 96;
  price_per_unit = pos 10;
  cargo_transfer_type = manual;
  cargo_transfer_fee = pos 0;
  started_at = some 100;
  reached_at = none;
  transaction_completed_at = none;
  transferred_at = none;
  finalized_at = none;
}

pub owned_test : get_owned_leg one_run 2 7 ≡ ok bought_leg
unfolding get_owned_leg serve handle create_run_from_route
owned_test = refl

serve-Survives_example : Survives bought_leg (serve whole_floats (advance 2) 7 110 111 one_run).legs
unfolding serve handle create_run_from_route
serve-Survives_example =
    serve-Survives whole_floats (advance 2) 7 110 111 one_run bought_leg one_run-Consistent
      (λ removed. removed) (inl refl)

refused_test : handle whole_floats (advance 2) 8 110 111 one_run ≡ err not_found
unfolding handle serve create_run_from_route advance_leg get_owned_leg
refused_test = refl

amounts_test : amounts_fit whole_floats (advance 2) ≡ Bool.true
unfolding amounts_fit
amounts_test = refl

handle-status_code_example : (status_code not_found ≡ 404) ⊎ (status_code not_found ≡ 400)
handle-status_code_example =
    handle-status_code one_run one_run-Consistent whole_floats (advance 2) 8 110 111 not_found
      amounts_test refused_test

-- A price beyond its column.
too_dear_test :
    handle whole_floats
      (purchase 2 (record {
        quantity_scu = pos 90;
        price_per_unit = pos 2147483648;
        cargo_transfer_type = manual;
        cargo_transfer_fee = pos 0;
      }))
      7
      110
      111
      one_run
    ≡ err out_of_range
unfolding handle serve create_run_from_route record_purchase get_owned_leg
too_dear_test = refl

advance_leg-Advances_example :
    Advances one_run 110 111 bought_leg
      (next_unset_field bought_leg)
      (advance_leg 2 7 110 111 one_run)
advance_leg-Advances_example =
    advance_leg-Advances one_run one_run-Consistent 2 7 110 111 bought_leg owned_test

-- The run once its purchase of 90 SCU at 11, with a fee of 20, is recorded.
abbrev bought_cargo : Transaction
bought_cargo = record {
  quantity_scu = pos 90;
  price_per_unit = pos 11;
  cargo_transfer_type = manual;
  cargo_transfer_fee = pos 20;
}

abbrev paid_tables : Tables
paid_tables = serve whole_floats (purchase 2 bought_cargo) 7 120 121 one_run

paid_tables-Consistent : Consistent paid_tables
paid_tables-Consistent =
    serve-Consistent whole_floats (purchase 2 bought_cargo) 7 120 121 one_run one_run-Consistent tt

abbrev paid_leg : TradeLeg
paid_leg = record bought_leg {
  quantity_scu = pos 90;
  price_per_unit = pos 11;
  cargo_transfer_fee = pos 20;
  transaction_completed_at = some 120;
}

abbrev unsold_leg : TradeLeg
unsold_leg = record {
  id = 3;
  created_at = 102;
  user_id = 7;
  run_id = 1;
  leg_type = sale;
  terminal_id = 2;
  terminal_name = "Lorville";
  commodity_name = "Gold";
  quantity_scu = pos 90;
  price_per_unit = pos 14;
  cargo_transfer_type = autoload;
  cargo_transfer_fee = pos 0;
  started_at = none;
  reached_at = none;
  transaction_completed_at = none;
  transferred_at = none;
  finalized_at = none;
}

abbrev paid_run : TradeRun
paid_run = record {
  id = 1;
  created_at = 100;
  user_id = 7;
  ship = none;
  usable_container_sizes = 49 ∷ 54 ∷ [];
  finalized_at = none;
}

lost_run : Lost paid_tables paid_tables-Consistent 1 7 130 paid_run paid_leg unsold_leg 120
unfolding serve handle create_run_from_route record_purchase get_owned_run usable_container_sizes
    format_container_sizes sorted distinct str
lost_run = record {
  owned = refl;
  legs = refl;
  buys = refl;
  sells = refl;
  still_open = refl;
  paid = refl;
  unsold = refl;
}

write_off_run-loss_example :
    (next : Tables) × (write_off_run 1 7 130 paid_tables
      ≡ ok (record paid_run { finalized_at = some 130 }, next))
    × (run_profit (legs_of 1 next.legs) ≡ pos 0 -ℤ amount paid_leg -ℤ pos 20)
write_off_run-loss_example =
    write_off_run-loss paid_tables paid_tables-Consistent 1 7 130 paid_run paid_leg unsold_leg 120
      lost_run
