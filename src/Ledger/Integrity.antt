-- ===== src/Ledger/Integrity.antt =====
-- Every request keeps the two tables consistent (app/server/routes/ledger.py over
-- app/server/ledger_service.py).
use graphling.Prelude.{
  ℕ, suc, ◌≤◌, ◌≡◌, refl, sym, subst, ◌≢◌, inl, inr, true, Bool-cases, not, ◌&&◌, none, some, List,
  [], ◌∷◌, map, filter, All, ◌==◌, ==_iff, if◌then◌else◌, arith, Floats,
}
use graphling.Ledger.Models.{LegType, acquisition, sale, TradeLeg, TradeRun, leg_type_eqb}
use graphling.Ledger.Tables.{Tables, Result, ok, err, ◌>>=◌}
use graphling.Ledger.Owned.{get_owned_run}
use graphling.Ledger.Create.{Defaults, created_rows}
use graphling.Ledger.Created.{create-cases}
use graphling.Ledger.Runs.{delete_run}
use graphling.Ledger.Requests.{
  Request, create, advance, purchase, sell, update, finalize, write_off, delete, new_tables, after,
  handle, serve,
}
use graphling.Ledger.Rows.{LegKey, leg_key}
use graphling.Ledger.Edits.{Rowwise-refl, Rowwise-keys}
use graphling.Ledger.LegEdits.{EditsLegs}
use graphling.Ledger.LegOperations.{
  advance_leg-EditsLegs, record_purchase-EditsLegs, record_sale-EditsLegs,
  update_transaction-EditsLegs,
}
use graphling.Ledger.RunEdits.{RunRowwise, RunRowwise-refl, RunRowwise-keys}
use graphling.Ledger.RunOperations.{
  Edits, EditsTables, finalize_run-EditsTables, write_off_run-EditsTables,
}
use graphling.Ledger.Deletion.{deletion-Consistent}
use graphling.Ledger.Consistent.{RunKey, run_key, owner, count_legs, ConsistentKeys, Consistent}

-- The requests that neither add nor remove rows.
abbrev pub IsEdit : {floats : Floats} → Request floats → Type 0
IsEdit (create route quantity_scu ship new) = ⊥
IsEdit (delete run_id) = ⊥
IsEdit _ = Unit

Edits-refl : (user_id : ℕ) (tables : Tables) → Edits user_id tables tables
Edits-refl user_id tables = record {
  legs = Rowwise-refl user_id tables.legs;
  runs = RunRowwise-refl user_id tables.runs;
}

after_legs-Edits :
    (user_id : ℕ) (tables : Tables) (r : Result (TradeLeg × Tables))
    → EditsLegs user_id tables r
    → Edits user_id tables (after tables (new_tables r))
after_legs-Edits user_id tables (ok (leg, next)) h = record {
  legs = h.rows.0;
  runs =
      subst (λ runs. RunRowwise user_id tables.runs runs) (sym h.rows.1)
        (RunRowwise-refl user_id tables.runs);
}
after_legs-Edits user_id tables (err e) h = Edits-refl user_id tables

after_tables-Edits :
    (user_id : ℕ) (tables : Tables) (r : Result (TradeRun × Tables))
    → EditsTables user_id tables r
    → Edits user_id tables (after tables (new_tables r))
after_tables-Edits user_id tables (ok (run, next)) h = h.edits
after_tables-Edits user_id tables (err e) h = Edits-refl user_id tables

pub serve-Edits :
    (floats : Floats) (request : Request floats) (user_id now later : ℕ) (tables : Tables)
    → Consistent tables
    → IsEdit request
    → Edits user_id tables (serve floats request user_id now later tables)
unfolding serve handle
serve-Edits floats (create route quantity_scu ship new) user_id now later tables c h = absurd h
serve-Edits floats (advance leg_id) user_id now later tables c h =
    after_legs-Edits user_id tables _ (advance_leg-EditsLegs tables c user_id leg_id now later)
serve-Edits floats (purchase leg_id transaction) user_id now later tables c h =
    after_legs-Edits user_id tables _
      (record_purchase-EditsLegs tables c user_id leg_id now transaction)
serve-Edits floats (sell leg_id transaction) user_id now later tables c h =
    after_legs-Edits user_id tables _
      (record_sale-EditsLegs tables c user_id leg_id now later transaction)
serve-Edits floats (update leg_id correction) user_id now later tables c h =
    after_legs-Edits user_id tables _
      (update_transaction-EditsLegs tables c user_id leg_id correction)
serve-Edits floats (finalize run_id) user_id now later tables c h =
    after_tables-Edits user_id tables _ (finalize_run-EditsTables tables c user_id run_id now)
serve-Edits floats (write_off run_id) user_id now later tables c h =
    after_tables-Edits user_id tables _ (write_off_run-EditsTables tables c user_id run_id now)
serve-Edits floats (delete run_id) user_id now later tables c h = absurd h

-- Edited rows keep their keys, so the tables stay consistent.
Edits-Consistent :
    (user_id : ℕ) (tables next : Tables)
    → Edits user_id tables next
    → Consistent tables
    → Consistent next
Edits-Consistent user_id tables next e c =
    subst (λ runs. ConsistentKeys runs (map leg_key next.legs))
      (sym (RunRowwise-keys user_id tables.runs next.runs e.runs))
      (subst (λ legs. ConsistentKeys (map run_key tables.runs) legs)
        (sym (Rowwise-keys user_id tables.legs next.legs e.legs)) c)

-- The ids of a new run's rows are those of no row.
pub record Fresh (new : Defaults) (tables : Tables) : Type 0 where
  pub run : All (λ k. k.id ≢ new.run_id) (map run_key tables.runs)
  pub acquisition : All (λ k. k.id ≢ new.acquisition_id) (map leg_key tables.legs)
  pub sale : All (λ k. k.id ≢ new.sale_id) (map leg_key tables.legs)
  pub two : new.sale_id ≢ new.acquisition_id

abbrev pub FreshIds : {floats : Floats} → Request floats → Tables → Type 0
FreshIds (create route quantity_scu ship new) tables = Fresh new tables
FreshIds _ tables = Unit

owner_of_fresh :
    (run_id : ℕ) (runs : List RunKey) → All (λ k. k.id ≢ run_id) runs → owner run_id runs ≡ none
owner_of_fresh run_id [] h = refl
owner_of_fresh run_id (k ∷ ks) h = elim (Bool-cases (k.id == run_id)) [
  | inl e ↦ absurd (h.0 ((==_iff k.id run_id).0 e))
  | inr e ↦ rw e (owner_of_fresh run_id ks h.1)
]

owned-cons :
    (new : RunKey) (runs : List RunKey) (legs : List LegKey)
    → All (λ k. k.id ≢ new.id) runs
    → All (λ leg. owner leg.run_id runs ≡ some leg.user_id) legs
    → All (λ leg. owner leg.run_id (new ∷ runs) ≡ some leg.user_id) legs
owned-cons new runs [] f h = tt
owned-cons new runs (leg ∷ legs) f h = (
  elim (Bool-cases (new.id == leg.run_id)) [
    | inl e ↦
        let gone : owner leg.run_id runs ≡ none =
          subst (λ n. owner n runs ≡ none) ((==_iff new.id leg.run_id).0 e)
            (owner_of_fresh new.id runs f) in
        absurd (let z : ⊥ = cc (gone, h.0) in z)
    | inr e ↦ rw e h.0
  ],
  owned-cons new runs legs f h.1,
)

count_of_fresh :
    (run_id : ℕ) (t : LegType) (runs : List RunKey) (legs : List LegKey)
    → owner run_id runs ≡ none
    → All (λ leg. owner leg.run_id runs ≡ some leg.user_id) legs
    → count_legs run_id t legs ≡ 0
count_of_fresh run_id t runs [] n h = refl
count_of_fresh run_id t runs (leg ∷ legs) n h = elim (Bool-cases (leg.run_id == run_id)) [
  | inl e ↦
      let same : owner leg.run_id runs ≡ none =
        subst (λ r. owner r runs ≡ none) (sym ((==_iff leg.run_id run_id).0 e)) n in
      absurd (let z : ⊥ = cc (same, h.0) in z)
  | inr e ↦ rw e (count_of_fresh run_id t runs legs n h.1)
]

create-Consistent :
    (new : Defaults) (user_id : ℕ) (tables : Tables)
    → Fresh new tables
    → Consistent tables
    → ConsistentKeys (record { id = new.run_id; user_id = user_id } ∷ map run_key tables.runs) (
        record {
          id = new.acquisition_id;
          run_id = new.run_id;
          user_id = user_id;
          leg_type = LegType.acquisition;
        }
        ∷ record {
          id = new.sale_id;
          run_id = new.run_id;
          user_id = user_id;
          leg_type = LegType.sale;
        }
        ∷ map leg_key tables.legs)
create-Consistent new user_id tables f c = record {
  legs_distinct = ((f.two, f.acquisition), (f.sale, c.legs_distinct));
  runs_distinct = (f.run, c.runs_distinct);
  owned =
      let mine : (if new.run_id == new.run_id
            then some user_id
            else owner new.run_id (map run_key tables.runs))
          ≡ some user_id =
        ground arith in
      (
        mine,
        (
          mine,
          owned-cons (record { id = new.run_id; user_id = user_id }) (map run_key tables.runs)
              (map leg_key tables.legs) f.run c.owned,
        ),
      );
  paired = counts;
}
  where
    counts :
        (run_id : ℕ) (t : LegType)
        → (if new.run_id == run_id && leg_type_eqb LegType.acquisition t
            then suc (
                if new.run_id == run_id && leg_type_eqb LegType.sale t
                then suc (count_legs run_id t (map leg_key tables.legs))
                else count_legs run_id t (map leg_key tables.legs))
            else if new.run_id == run_id && leg_type_eqb LegType.sale t
            then suc (count_legs run_id t (map leg_key tables.legs))
            else count_legs run_id t (map leg_key tables.legs))
          ≤ 1
    counts run_id t = elim (Bool-cases (new.run_id == run_id)) [
      | inl e ↦
          let none_left : count_legs run_id t (map leg_key tables.legs) ≡ 0 =
            count_of_fresh run_id t (map run_key tables.runs) (map leg_key tables.legs)
              (subst (λ n. owner n (map run_key tables.runs) ≡ none)
                ((==_iff new.run_id run_id).0 e)
                (owner_of_fresh new.run_id (map run_key tables.runs) f.run))
              c.owned in
          rw (e, none_left) (one_of t)
      | inr e ↦ rw e (c.paired run_id t)
    ]
      where
        one_of :
            (t : LegType)
            → (if true && leg_type_eqb LegType.acquisition t
                then suc (if true && leg_type_eqb LegType.sale t then suc 0 else 0)
                else if true && leg_type_eqb LegType.sale t
                then suc 0
                else 0)
              ≤ 1
        one_of acquisition = omega arith
        one_of sale = omega arith

delete_run-Consistent :
    (run_id user_id : ℕ) (tables : Tables) (r : Result TradeRun)
    → Consistent tables
    → Consistent (
        after tables (
          r >>= λ run. ok (record {
            runs = filter (λ other. not (other.id == run.id)) tables.runs;
            legs = filter (λ leg. not (leg.run_id == run.id)) tables.legs;
          })))
delete_run-Consistent run_id user_id tables (ok run) c = deletion-Consistent run.id tables c
delete_run-Consistent run_id user_id tables (err e) c = c

-- A request of any kind, refused or not, keeps consistent tables consistent, if the ids that a new
-- run's rows get are used by no row.
pub serve-Consistent :
    (floats : Floats) (request : Request floats) (user_id now later : ℕ) (tables : Tables)
    → Consistent tables
    → FreshIds request tables
    → Consistent (serve floats request user_id now later tables)
unfolding serve handle created_rows delete_run
serve-Consistent floats (create route quantity_scu ship new) user_id now later tables c f =
    create-cases floats route quantity_scu ship user_id new now tables
      (λ r. Consistent (after tables (new_tables r))) c c
      (λ origin_price destination_price. create-Consistent new user_id tables f c)
serve-Consistent floats (delete run_id) user_id now later tables c f =
    delete_run-Consistent run_id user_id tables (get_owned_run tables run_id user_id) c
serve-Consistent floats (advance leg_id) user_id now later tables c f =
    Edits-Consistent user_id tables _
      (serve-Edits floats (advance leg_id) user_id now later tables c tt) c
serve-Consistent floats (purchase leg_id transaction) user_id now later tables c f =
    Edits-Consistent user_id tables _
      (serve-Edits floats (purchase leg_id transaction) user_id now later tables c tt) c
serve-Consistent floats (sell leg_id transaction) user_id now later tables c f =
    Edits-Consistent user_id tables _
      (serve-Edits floats (sell leg_id transaction) user_id now later tables c tt) c
serve-Consistent floats (update leg_id correction) user_id now later tables c f =
    Edits-Consistent user_id tables _
      (serve-Edits floats (update leg_id correction) user_id now later tables c tt) c
serve-Consistent floats (finalize run_id) user_id now later tables c f =
    Edits-Consistent user_id tables _
      (serve-Edits floats (finalize run_id) user_id now later tables c tt) c
serve-Consistent floats (write_off run_id) user_id now later tables c f =
    Edits-Consistent user_id tables _
      (serve-Edits floats (write_off run_id) user_id now later tables c tt) c
