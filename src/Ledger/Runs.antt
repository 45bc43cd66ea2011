-- ===== src/Ledger/Runs.antt =====
-- The operations of app/server/ledger_service.py that close or delete a run.
use graphling.Prelude.{
  ℕ, pos, not, Option, none, some, List, filter, find, any, ◌==◌, is_none, is_some,
}
use graphling.Ledger.Models.{LegType, acquisition, sale, TradeLeg, TradeRun, leg_type_eqb}
use graphling.Ledger.Milestones.{next_unset_field}
use graphling.Ledger.Tables.{
  Tables, already_finalized, sale_recorded, unfinished_legs, no_recorded_purchase, Result, ok,
  ◌>>=◌, ◌>>◌, raise_if, legs_of, put_run, put_optional,
}
use graphling.Ledger.Owned.{get_owned_run}

unfoldable pub finalize_owned : Tables → ℕ → TradeRun → Result (TradeRun × Tables)
finalize_owned tables now run = do
  raise_if (any (λ leg. is_some (next_unset_field leg)) (legs_of run.id tables.legs))
      unfinished_legs
  let closed = record run { finalized_at = some now }
  ok (closed, record tables { runs = put_run closed tables.runs })

unfoldable pub finalize_run : ℕ → ℕ → ℕ → Tables → Result (TradeRun × Tables)
unfolding get_owned_run finalize_owned
finalize_run run_id user_id now tables = do
  run ← get_owned_run tables run_id user_id
  finalize_owned tables now run

abbrev pub first_of_type : LegType → List TradeLeg → Option TradeLeg
first_of_type leg_type = find (λ leg. leg_type_eqb leg.leg_type leg_type)

abbrev pub transaction_time : Option TradeLeg → Option ℕ
transaction_time none = none
transaction_time (some leg) = leg.transaction_completed_at

abbrev pub or_now : ℕ → Option ℕ → Option ℕ
or_now now none = some now
or_now now (some time) = some time

-- Every milestone of the leg that is missing is stamped, and its start.
unfoldable pub close_leg : ℕ → TradeLeg → TradeLeg
close_leg now leg = record leg {
  started_at = or_now now leg.started_at;
  reached_at = or_now now leg.reached_at;
  transaction_completed_at = or_now now leg.transaction_completed_at;
  transferred_at = or_now now leg.transferred_at;
  finalized_at = or_now now leg.finalized_at;
}

unfoldable pub sold_nothing : TradeLeg → TradeLeg
sold_nothing leg = record leg {
  quantity_scu = pos 0;
  price_per_unit = pos 0;
  cargo_transfer_fee = pos 0;
}

abbrev pub map_leg : (TradeLeg → TradeLeg) → Option TradeLeg → Option TradeLeg
map_leg f none = none
map_leg f (some leg) = some (f leg)

unfoldable pub write_off_owned : Tables → ℕ → TradeRun → Result (TradeRun × Tables)
unfolding close_leg sold_nothing
write_off_owned tables now run = do
  raise_if (is_some run.finalized_at) already_finalized
  let bought = first_of_type acquisition (legs_of run.id tables.legs)
  let sold = first_of_type sale (legs_of run.id tables.legs)
  raise_if (is_none (transaction_time bought)) no_recorded_purchase
  raise_if (is_some (transaction_time sold)) sale_recorded
  let closed = record run { finalized_at = some now }
  let legs = put_optional (map_leg (close_leg now) bought) tables.legs
  ok (
    closed,
    record {
      runs = put_run closed tables.runs;
      legs = put_optional (map_leg (λ leg. close_leg now (sold_nothing leg)) sold) legs;
    },
  )

unfoldable pub write_off_run : ℕ → ℕ → ℕ → Tables → Result (TradeRun × Tables)
unfolding get_owned_run write_off_owned
write_off_run run_id user_id now tables = do
  run ← get_owned_run tables run_id user_id
  write_off_owned tables now run

-- The delete cascades to the run's legs.
unfoldable pub delete_run : ℕ → ℕ → Tables → Result Tables
unfolding get_owned_run
delete_run run_id user_id tables = do
  run ← get_owned_run tables run_id user_id
  ok (record {
    runs = filter (λ other. not (other.id == run.id)) tables.runs;
    legs = filter (λ leg. not (leg.run_id == run.id)) tables.legs;
  })
