-- ===== src/Ledger/Deletion.antt =====
-- `delete_run` of app/server/ledger_service.py removes one pilot's run and its legs, and what is left
-- is consistent.
use graphling.Prelude.{
  ℕ, ◌≤◌, ◌≡◌, refl, ap, ◌∙◌, ◌≢◌, inl, inr, Bool, false, Bool-cases, not, some, List, [], ◌∷◌, map,
  filter, All, ◌==◌, arith,
}
use graphling.Ledger.Models.{LegType, TradeLeg, TradeRun}
use graphling.Ledger.Tables.{Tables}
use graphling.Ledger.Rows.{LegKey, leg_key, DistinctLegs}
use graphling.Ledger.Consistent.{RunKey, run_key, DistinctRuns, owner, count_legs, Consistent}

abbrev pub other_runs : ℕ → List RunKey → List RunKey
other_runs run_id = filter (λ k. not (k.id == run_id))

abbrev pub other_legs : ℕ → List LegKey → List LegKey
other_legs run_id = filter (λ k. not (k.run_id == run_id))

run_keys-filter :
    (run_id : ℕ) (runs : List TradeRun)
    → map run_key (filter (λ r. not (r.id == run_id)) runs) ≡ other_runs run_id (map run_key runs)
run_keys-filter run_id [] = refl
run_keys-filter run_id (r ∷ runs) = elim (Bool-cases (r.id == run_id)) [
  | inl e ↦ rw e (run_keys-filter run_id runs)
  | inr e ↦ rw e (ap (λ ks. run_key r ∷ ks) (run_keys-filter run_id runs))
]

leg_keys-filter :
    (run_id : ℕ) (legs : List TradeLeg)
    → map leg_key (filter (λ l. not (l.run_id == run_id)) legs)
      ≡ other_legs run_id (map leg_key legs)
leg_keys-filter run_id [] = refl
leg_keys-filter run_id (l ∷ legs) = elim (Bool-cases (l.run_id == run_id)) [
  | inl e ↦ rw e (leg_keys-filter run_id legs)
  | inr e ↦ rw e (ap (λ ks. leg_key l ∷ ks) (leg_keys-filter run_id legs))
]

All-filter {κ} :
    {A : Type 0} (P : A → Type κ) (p : A → Bool) (xs : List A) → All P xs → All P (filter p xs)
All-filter P p [] h = tt
All-filter P p (x ∷ xs) h = elim (Bool-cases (p x)) [
  | inl e ↦ rw e (h.0, All-filter P p xs h.1)
  | inr e ↦ rw e (All-filter P p xs h.1)
]

DistinctLegs-filter :
    (p : LegKey → Bool) (ks : List LegKey) → DistinctLegs ks → DistinctLegs (filter p ks)
DistinctLegs-filter p [] h = tt
DistinctLegs-filter p (k ∷ ks) h = elim (Bool-cases (p k)) [
  | inl e ↦ rw e (All-filter (λ other. other.id ≢ k.id) p ks h.0, DistinctLegs-filter p ks h.1)
  | inr e ↦ rw e (DistinctLegs-filter p ks h.1)
]

DistinctRuns-filter :
    (p : RunKey → Bool) (ks : List RunKey) → DistinctRuns ks → DistinctRuns (filter p ks)
DistinctRuns-filter p [] h = tt
DistinctRuns-filter p (k ∷ ks) h = elim (Bool-cases (p k)) [
  | inl e ↦ rw e (All-filter (λ other. other.id ≢ k.id) p ks h.0, DistinctRuns-filter p ks h.1)
  | inr e ↦ rw e (DistinctRuns-filter p ks h.1)
]

-- A run that stays keeps its pilot.
owner-other_runs :
    (run_id other : ℕ) (ks : List RunKey)
    → (other == run_id) ≡ false
    → owner other (other_runs run_id ks) ≡ owner other ks
owner-other_runs run_id other [] h = refl
owner-other_runs run_id other (k ∷ ks) h = ground (arith, owner-other_runs run_id other ks h)

owned-other_legs :
    (run_id : ℕ) (runs : List RunKey) (legs : List LegKey)
    → All (λ leg. owner leg.run_id runs ≡ some leg.user_id) legs
    → All
        (λ leg. owner leg.run_id (other_runs run_id runs) ≡ some leg.user_id)
        (other_legs run_id legs)
owned-other_legs run_id runs [] h = tt
owned-other_legs run_id runs (leg ∷ legs) h = elim (Bool-cases (leg.run_id == run_id)) [
  | inl e ↦ rw e (owned-other_legs run_id runs legs h.1)
  | inr e ↦
      rw e (owner-other_runs run_id leg.run_id runs e ∙ h.0, owned-other_legs run_id runs legs h.1)
]

count-other_legs-le :
    (run_id r : ℕ) (t : LegType) (legs : List LegKey)
    → count_legs r t (other_legs run_id legs) ≤ count_legs r t legs
count-other_legs-le run_id r t [] = omega arith
count-other_legs-le run_id r t (leg ∷ legs) = ground (arith, count-other_legs-le run_id r t legs)

pub deletion-Consistent :
    (run_id : ℕ) (tables : Tables)
    → Consistent tables
    → Consistent (record {
      runs = filter (λ other. not (other.id == run_id)) tables.runs;
      legs = filter (λ leg. not (leg.run_id == run_id)) tables.legs;
    })
deletion-Consistent run_id tables c =
    rw (run_keys-filter run_id tables.runs, leg_keys-filter run_id tables.legs)
      (record {
        legs_distinct = DistinctLegs-filter _ _ c.legs_distinct;
        runs_distinct = DistinctRuns-filter _ _ c.runs_distinct;
        owned = owned-other_legs run_id _ _ c.owned;
        paired = λ r t.
            omega (arith, count-other_legs-le run_id r t (map leg_key tables.legs), c.paired r t);
      })
