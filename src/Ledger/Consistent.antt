-- ===== src/Ledger/Consistent.antt =====
-- The invariant of the two tables: ids are keys, a leg belongs to the pilot of its run, and a run has
-- at most one leg of each type.
use graphling.Prelude.{
  ℕ, suc, ◌≤◌, ◌≡◌, ◌≢◌, ◌&&◌, Option, none, some, List, [], ◌∷◌, map, All, ◌==◌, if◌then◌else◌,
}
use graphling.Ledger.Models.{LegType, TradeRun, leg_type_eqb}
use graphling.Ledger.Tables.{Tables}
use graphling.Ledger.Rows.{LegKey, leg_key, DistinctLegs}

pub record RunKey : Type 0 where
  pub id : ℕ
  pub user_id : ℕ

abbrev pub run_key : TradeRun → RunKey
run_key run = record { id = run.id; user_id = run.user_id }

abbrev pub DistinctRuns : List RunKey → Type 0
DistinctRuns [] = Unit
DistinctRuns (k ∷ ks) = All (λ other. other.id ≢ k.id) ks × DistinctRuns ks

-- The pilot of a run.
abbrev pub owner : ℕ → List RunKey → Option ℕ
owner run_id [] = none
owner run_id (k ∷ ks) = if k.id == run_id then some k.user_id else owner run_id ks

abbrev pub count_legs : ℕ → LegType → List LegKey → ℕ
count_legs run_id leg_type [] = 0
count_legs run_id leg_type (k ∷ ks) =
    if k.run_id == run_id && leg_type_eqb k.leg_type leg_type
    then suc (count_legs run_id leg_type ks)
    else count_legs run_id leg_type ks

pub record ConsistentKeys (runs : List RunKey) (legs : List LegKey) : Type 0 where
  pub legs_distinct : DistinctLegs legs
  pub runs_distinct : DistinctRuns runs
  pub owned : All (λ leg. owner leg.run_id runs ≡ some leg.user_id) legs
  pub paired : (run_id : ℕ) (leg_type : LegType) → count_legs run_id leg_type legs ≤ 1

abbrev pub Consistent : Tables → Type 0
Consistent tables = ConsistentKeys (map run_key tables.runs) (map leg_key tables.legs)
