-- ===== src/Ledger/Totals.antt =====
-- app/db/trade_run_store.py: the sums over a run's legs, and its duration.
use graphling.Prelude.{ℤ, pos, ◌+ℤ◌, ◌-ℤ◌, ◌*ℤ◌, Option, none, some, List, [], ◌∷◌, sub_ℕ}
use graphling.Ledger.Models.{acquisition, sale, TradeLeg, TradeRun}
use graphling.Ledger.Milestones.{of_type}

-- sum(f(leg) for leg in legs)
unfoldable pub sum_of : (TradeLeg → ℤ) → List TradeLeg → ℤ
sum_of f [] = pos 0
sum_of f (leg ∷ legs) = f leg +ℤ sum_of f legs

abbrev pub amount : TradeLeg → ℤ
amount leg = leg.quantity_scu *ℤ leg.price_per_unit

unfoldable pub run_investment : List TradeLeg → ℤ
unfolding sum_of
run_investment legs = sum_of amount (of_type acquisition legs)

unfoldable pub run_revenue : List TradeLeg → ℤ
unfolding sum_of
run_revenue legs = sum_of amount (of_type sale legs)

unfoldable pub run_fees : List TradeLeg → ℤ
unfolding sum_of
run_fees legs = sum_of (λ leg. leg.cargo_transfer_fee) legs

unfoldable pub run_profit : List TradeLeg → ℤ
unfolding run_investment run_revenue run_fees
run_profit legs = run_revenue legs -ℤ run_investment legs -ℤ run_fees legs

unfoldable pub run_acquired_scu : List TradeLeg → ℤ
unfolding sum_of
run_acquired_scu legs = sum_of (λ leg. leg.quantity_scu) (of_type acquisition legs)

unfoldable pub run_sold_scu : List TradeLeg → ℤ
unfolding sum_of
run_sold_scu legs = sum_of (λ leg. leg.quantity_scu) (of_type sale legs)

-- `none` is the TypeError of a run that is not finalized.
unfoldable pub run_duration : TradeRun → Option ℤ
run_duration run = elim run.finalized_at [
  | none ↦ none
  | some finalized ↦ some (sub_ℕ finalized run.created_at)
]
