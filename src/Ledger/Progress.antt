-- ===== src/Ledger/Progress.antt =====
-- The progress of a leg through its milestones (`advance_leg` of app/server/ledger_service.py and
-- `next_unset_field` of app/db/trade_run_store.py).
use graphling.Prelude.{
  ℕ, ◌+◌, ◌≡◌, refl, ap, ◌∙◌, ◌≢◌, false, List, map, Option, none, some, filter, length, arith,
}
use graphling.Ledger.Models.{
  LegMilestone, reached_at, transaction_completed_at, transferred_at, finalized_at, TradeLeg, stamp,
  milestone_eqb,
}
use graphling.Ledger.Milestones.{unset, milestone_sequence, next_unset_field}
use graphling.Ledger.Tables.{
  Tables, Result, ok, err, already_finalized, needs_transaction, siblings, scalar_one_or_none,
  put_leg, put_optional,
}
use graphling.Ledger.Owned.{get_owned_leg}
use graphling.Ledger.Legs.{advanceable, start_sibling, advance_leg, advance_owned, advance_to}
use graphling.Ledger.OwnedRows.{get_owned_leg-Owned, siblings-Sibling}
use graphling.Ledger.Rows.{OnlyRow, Elem-OnlyRow}
use graphling.Ledger.ProgressRows.{after_step, quiet-rows, finalized_rows}
use graphling.Ledger.Consistent.{Consistent}
use graphling.Ledger.Siblings.{siblings_total}

-- How many milestones the leg still lacks.
unfoldable pub steps_left : TradeLeg → ℕ
unfolding milestone_sequence
steps_left leg = length (filter (unset leg) (milestone_sequence leg))

pub steps_left-stamp :
    (leg : TradeLeg) (field : LegMilestone) (now : ℕ)
    → next_unset_field leg ≡ some field
    → steps_left (stamp field now leg) + 1 ≡ steps_left leg
unfolding steps_left next_unset_field
steps_left-stamp leg reached_at now h = ground arith
steps_left-stamp leg transaction_completed_at now h = ground arith
steps_left-stamp leg transferred_at now h = ground arith
steps_left-stamp leg finalized_at now h = ground arith

-- What `advance_leg` does to a leg of the caller, by the leg's next milestone.
abbrev pub Advances :
    Tables → ℕ → ℕ → TradeLeg → Option LegMilestone → Result (TradeLeg × Tables) → Type 0
Advances tables now later leg none r = r ≡ err already_finalized
Advances tables now later leg (some transaction_completed_at) r = r ≡ err needs_transaction
Advances tables now later leg (some field) r =
    (r
      ≡ ok (
        stamp field now leg,
        record tables { legs = map (after_step field now later leg) tables.legs },
      ))
    × (steps_left (stamp field now leg) + 1 ≡ steps_left leg)

module _ (tables : Tables) (consistent : Consistent tables) (leg_id user_id now later : ℕ)
    (leg : TradeLeg) (owned : get_owned_leg tables leg_id user_id ≡ ok leg) where
  abbrev pub advanced : LegMilestone → Option TradeLeg → Tables
  advanced field sibling = record tables {
    legs = put_optional (start_sibling later sibling) (put_leg (stamp field now leg) tables.legs);
  }

  pub plain :
      (field : LegMilestone)
      → milestone_eqb field finalized_at ≡ false
      → next_unset_field leg ≡ some field
      → advanceable (some field) ≡ ok field
      → advance_leg leg_id user_id now later tables ≡ ok (stamp field now leg, advanced field none)
  unfolding advance_leg advance_owned advance_to
  plain field other next able = ground (arith, owned, other, next, able)

  last :
      (sibling : Option TradeLeg)
      → scalar_one_or_none (siblings leg tables.legs) ≡ ok sibling
      → next_unset_field leg ≡ some finalized_at
      → advance_leg leg_id user_id now later tables
        ≡ ok (stamp finalized_at now leg, advanced finalized_at sibling)
  unfolding advance_leg advance_owned advance_to
  last sibling found next = ground (arith, owned, found, next)

  abbrev stamped_with : LegMilestone → List TradeLeg → Result (TradeLeg × Tables)
  stamped_with field legs = ok (stamp field now leg, record tables { legs = legs })

  only : OnlyRow leg tables.legs
  only =
      Elem-OnlyRow leg tables.legs consistent.legs_distinct
        (get_owned_leg-Owned tables leg_id user_id leg owned).row

  -- A milestone before the last writes the leg's row alone.
  plain-rows :
      (field : LegMilestone)
      → milestone_eqb field finalized_at ≡ false
      → put_leg (stamp field now leg) tables.legs ≡ map (after_step field now later leg) tables.legs
  plain-rows field other =
      quiet-rows now later leg tables.legs only field (λ row m e. rw other refl)

  sibling_row :
      (sibling : Option TradeLeg)
      → scalar_one_or_none (siblings leg tables.legs) ≡ ok sibling
      → (row : TradeLeg) → sibling ≡ some row
      → OnlyRow row tables.legs × (row.run_id ≡ leg.run_id) × (row.id ≢ leg.id)
  sibling_row sibling found row e =
      let s = siblings-Sibling tables leg row (found ∙ ap ok e) in
      (Elem-OnlyRow row tables.legs consistent.legs_distinct s.row, s.run, s.other)

  cases :
      (o : Option LegMilestone)
      → next_unset_field leg ≡ o
      → Advances tables now later leg o (advance_leg leg_id user_id now later tables)
  unfolding advance_leg advance_owned advance_to
  cases none h = ground (arith, owned, h)
  cases (some transaction_completed_at) h = ground (arith, owned, h)
  cases (some reached_at) h = (
    plain reached_at refl h refl ∙ ap (stamped_with reached_at) (plain-rows reached_at refl),
    steps_left-stamp leg reached_at now h,
  )
  cases (some transferred_at) h = (
    plain transferred_at refl h refl
        ∙ ap (stamped_with transferred_at) (plain-rows transferred_at refl),
    steps_left-stamp leg transferred_at now h,
  )
  cases (some finalized_at) h =
      let o = get_owned_leg-Owned tables leg_id user_id leg owned in
      let (sibling, found) = siblings_total tables leg consistent o.row in
      (
        last sibling found h
            ∙ ap (stamped_with finalized_at) (
                finalized_rows now later leg tables.legs only sibling found
                  (sibling_row sibling found)),
        steps_left-stamp leg finalized_at now h,
      )

  -- On a leg of the caller in consistent tables, `advance_leg` is refused exactly where the leg has
  -- all its milestones, or where the next one is the purchase or the sale. On every other leg it
  -- succeeds, returns the leg with its next milestone stamped, which leaves one step fewer, and writes
  -- the rows: the leg's row has that stamp, the other leg of a run whose leg is finalized starts if it
  -- has not, and every other row and every run is as it was.
  pub advance_leg-Advances :
      Advances tables now later leg
        (next_unset_field leg)
        (advance_leg leg_id user_id now later tables)
  advance_leg-Advances = cases (next_unset_field leg) refl
