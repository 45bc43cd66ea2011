-- ===== src/Ledger/Owned.antt =====
-- The ownership checks of app/server/ledger_service.py: a row of another pilot is not found.
use graphling.Prelude.{ℕ, Option, none, some, ◌==◌, if◌then◌else◌}
use graphling.Ledger.Models.{TradeLeg, TradeRun}
use graphling.Ledger.Tables.{Tables, not_found, Result, ok, err, leg_with, run_with}

abbrev owned_leg : Option TradeLeg → ℕ → Result TradeLeg
owned_leg none user_id = err not_found
owned_leg (some leg) user_id = if leg.user_id == user_id then ok leg else err not_found

unfoldable pub get_owned_leg : Tables → ℕ → ℕ → Result TradeLeg
get_owned_leg tables leg_id user_id = owned_leg (leg_with leg_id tables.legs) user_id

abbrev owned_run : Option TradeRun → ℕ → Result TradeRun
owned_run none user_id = err not_found
owned_run (some run) user_id = if run.user_id == user_id then ok run else err not_found

unfoldable pub get_owned_run : Tables → ℕ → ℕ → Result TradeRun
get_owned_run tables run_id user_id = owned_run (run_with run_id tables.runs) user_id
