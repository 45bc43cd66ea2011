-- ===== src/Ledger/Queries.antt =====
-- The two listings of app/server/ledger_service.py.
use graphling.Prelude.{
  ℕ, Bool, ◌&&◌, Option, none, some, List, [], ◌∷◌, filter, ltb, take, ◌==◌, is_none, is_some,
  if◌then◌else◌,
}
use graphling.Ledger.Models.{TradeRun}
use graphling.Ledger.Tables.{Tables}

-- order_by(TradeRun.created_at), and order_by(TradeRun.finalized_at.desc())
abbrev pub insert_run : (TradeRun → TradeRun → Bool) → TradeRun → List TradeRun → List TradeRun
insert_run before run [] = run ∷ []
insert_run before run (other ∷ runs) =
    if before other run then other ∷ insert_run before run runs else run ∷ other ∷ runs

abbrev pub order_by : (TradeRun → TradeRun → Bool) → List TradeRun → List TradeRun
order_by before [] = []
order_by before (run ∷ runs) = insert_run before run (order_by before runs)

abbrev time_of : Option ℕ → ℕ
time_of none = 0
time_of (some time) = time

unfoldable pub get_in_progress_runs : ℕ → Tables → List TradeRun
get_in_progress_runs user_id tables =
    order_by (λ a b. ltb a.created_at b.created_at)
      (filter (λ run. is_none run.finalized_at && run.user_id == user_id) tables.runs)

unfoldable pub get_finalized_runs : ℕ → ℕ → Tables → List TradeRun
get_finalized_runs user_id limit tables = take limit (
    order_by (λ a b. ltb (time_of b.finalized_at) (time_of a.finalized_at))
      (filter (λ run. is_some run.finalized_at && run.user_id == user_id) tables.runs))
