-- ===== src/Ledger/Milestones.antt =====
-- app/db/trade_run_store.py: the order of a leg's milestones, the texts that name its next step,
-- and which leg of a run is the current one.
use graphling.Prelude.{
  String, Bool, Option, none, some, List, [], ◌∷◌, ◌++◌, map, filter, find, ltb, is_none,
  if◌then◌else◌, not,
}
use graphling.Ledger.Models.{
  LegType, acquisition, sale, CargoTransferType, manual, autoload, LegMilestone, reached_at,
  transaction_completed_at, transferred_at, finalized_at, TradeLeg, leg_type_eqb, milestone_eqb,
  milestone,
}

abbrev pub acquisition_sequence : List LegMilestone
acquisition_sequence = reached_at ∷ transaction_completed_at ∷ transferred_at ∷ finalized_at ∷ []

abbrev pub sale_manual_sequence : List LegMilestone
sale_manual_sequence = reached_at ∷ transferred_at ∷ transaction_completed_at ∷ finalized_at ∷ []

abbrev pub sale_autoload_sequence : List LegMilestone
sale_autoload_sequence = reached_at ∷ transaction_completed_at ∷ finalized_at ∷ []

abbrev sequence_of : LegType → CargoTransferType → List LegMilestone
sequence_of acquisition transfer = acquisition_sequence
sequence_of sale manual = sale_manual_sequence
sequence_of sale autoload = sale_autoload_sequence

unfoldable pub milestone_sequence : TradeLeg → List LegMilestone
milestone_sequence leg = sequence_of leg.leg_type leg.cargo_transfer_type

abbrev pub unset : TradeLeg → LegMilestone → Bool
unset leg field = is_none (milestone field leg)

unfoldable pub next_unset_field : TradeLeg → Option LegMilestone
unfolding milestone_sequence
next_unset_field leg = find (unset leg) (milestone_sequence leg)

-- A missing key of the table is Python's KeyError.
abbrev step_titles : LegType → LegMilestone → String
step_titles acquisition reached_at = "Mark arrived"
step_titles acquisition transaction_completed_at = "Buy cargo"
step_titles acquisition transferred_at = "Confirm loaded"
step_titles acquisition finalized_at = "Finalize"
step_titles sale reached_at = "Mark arrived"
step_titles sale transferred_at = "Confirm unloaded"
step_titles sale transaction_completed_at = "Sell cargo"
step_titles sale finalized_at = "Finalize"

unfoldable pub current_step_title : TradeLeg → String
unfolding next_unset_field
current_step_title leg = elim (next_unset_field leg) [
  | none ↦ "Leg finalized"
  | some field ↦
      if milestone_eqb field finalized_at
      then "Mark leg finalized"
      else step_titles leg.leg_type field
]

abbrev pending_state_descriptions : LegType → LegMilestone → String
pending_state_descriptions acquisition reached_at = "not yet arrived"
pending_state_descriptions acquisition transaction_completed_at = "arrived, cargo not yet purchased"
pending_state_descriptions acquisition transferred_at = "purchased, cargo not yet loaded"
pending_state_descriptions acquisition finalized_at = "loaded, leg not yet finalized"
pending_state_descriptions sale reached_at = "not yet arrived"
pending_state_descriptions sale transferred_at = "arrived, cargo not yet unloaded"
pending_state_descriptions sale transaction_completed_at = "unloaded, cargo not yet sold"
pending_state_descriptions sale finalized_at = "sold, leg not yet finalized"

unfoldable pub current_step_description : TradeLeg → String
unfolding next_unset_field
current_step_description leg = elim (next_unset_field leg) [
  | none ↦ "leg finalized"
  | some field ↦ pending_state_descriptions leg.leg_type field
]

unfoldable pub breadcrumb_steps : TradeLeg → List (LegMilestone × String)
unfolding milestone_sequence
breadcrumb_steps leg =
    map (λ field. (field, step_titles leg.leg_type field))
      (filter (λ field. not (milestone_eqb field reached_at)) (milestone_sequence leg))

-- sorted(legs, key=lambda leg: leg.created_at), which is stable
unfoldable pub insert_by_created_at : TradeLeg → List TradeLeg → List TradeLeg
insert_by_created_at leg [] = leg ∷ []
insert_by_created_at leg (other ∷ legs) =
    if ltb other.created_at leg.created_at
    then other ∷ insert_by_created_at leg legs
    else leg ∷ other ∷ legs

unfoldable pub sorted_by_created_at : List TradeLeg → List TradeLeg
unfolding insert_by_created_at
sorted_by_created_at [] = []
sorted_by_created_at (leg ∷ legs) = insert_by_created_at leg (sorted_by_created_at legs)

abbrev pub of_type : LegType → List TradeLeg → List TradeLeg
of_type leg_type = filter (λ leg. leg_type_eqb leg.leg_type leg_type)

unfoldable pub ordered_legs : List TradeLeg → List TradeLeg
unfolding sorted_by_created_at
ordered_legs legs =
    sorted_by_created_at (of_type acquisition legs) ++ sorted_by_created_at (of_type sale legs)

unfoldable pub current_leg : List TradeLeg → Option TradeLeg
unfolding ordered_legs
current_leg legs = find (λ leg. is_none leg.finalized_at) (ordered_legs legs)
