-- ===== src/Ledger/RunEdits.antt =====
-- Edits of the run table, and the run that an ownership check finds
-- (app/server/ledger_service.py).
use graphling.Prelude.{
  ℕ, ◌≡◌, refl, sym, ap, subst, ◌∙◌, ◌≢◌, ◌⊎◌, inl, inr, true, false, Bool-cases, Option-cases,
  some, List, [], ◌∷◌, map, All, ◌==◌, ==_iff, arith,
}
use graphling.Ledger.Models.{TradeRun}
use graphling.Ledger.Tables.{Tables, ok, run_with, put_run}
use graphling.Ledger.Owned.{get_owned_run}
use graphling.Prelude.{Elem-find}
use graphling.Ledger.Consistent.{RunKey, run_key, DistinctRuns, owner}

-- A run row of another pilot stays; one of the pilot keeps its key.
abbrev pub RunEdited : ℕ → TradeRun → TradeRun → Type 0
RunEdited user_id run run' = (run' ≡ run) ⊎ ((run.user_id ≡ user_id) × (run_key run' ≡ run_key run))

abbrev pub RunRowwise : ℕ → List TradeRun → List TradeRun → Type 0
RunRowwise user_id [] [] = Unit
RunRowwise user_id [] (r ∷ rs) = ⊥
RunRowwise user_id (r ∷ rs) [] = ⊥
RunRowwise user_id (run ∷ runs) (run' ∷ runs') =
    RunEdited user_id run run' × RunRowwise user_id runs runs'

pub RunRowwise-refl : (user_id : ℕ) (runs : List TradeRun) → RunRowwise user_id runs runs
RunRowwise-refl user_id [] = tt
RunRowwise-refl user_id (run ∷ runs) = (inl refl, RunRowwise-refl user_id runs)

pub RunRowwise-keys :
    (user_id : ℕ) (runs runs' : List TradeRun)
    → RunRowwise user_id runs runs'
    → map run_key runs' ≡ map run_key runs
RunRowwise-keys user_id [] [] h = refl
RunRowwise-keys user_id [] (r ∷ rs) h = absurd h
RunRowwise-keys user_id (r ∷ rs) [] h = absurd h
RunRowwise-keys user_id (r ∷ rs) (r' ∷ rs') (inl e, h) =
    cc (ap run_key e, RunRowwise-keys user_id rs rs' h)
RunRowwise-keys user_id (r ∷ rs) (r' ∷ rs') (inr e, h) = cc (e.1, RunRowwise-keys user_id rs rs' h)

-- The run that the ownership check lets through.
pub record OwnedRun (tables : Tables) (run_id user_id : ℕ) (run : TradeRun) : Type 0 where
  pub found : run_with run_id tables.runs ≡ some run
  pub id : run.id ≡ run_id
  pub user : run.user_id ≡ user_id

pub get_owned_run-OwnedRun :
    (tables : Tables) (run_id user_id : ℕ) (run : TradeRun)
    → get_owned_run tables run_id user_id ≡ ok run
    → OwnedRun tables run_id user_id run
unfolding get_owned_run
get_owned_run-OwnedRun tables run_id user_id run h =
    elim (Option-cases (run_with run_id tables.runs)) [
      | inl e ↦ absurd (let z : ⊥ = ground (arith, e) in z)
      | inr (other, e) ↦
          let same : other ≡ run = ground (arith, e) in
          let (m, t) = Elem-find (λ r. r.id == run_id) tables.runs other e in
          record {
            found = subst (λ r. run_with run_id tables.runs ≡ some r) same e;
            id = subst (λ r. r.id ≡ run_id) same ((==_iff other.id run_id).0 t);
            user = ground (arith, e);
          }
    ]

pub owner-run_with :
    (run_id : ℕ) (runs : List TradeRun) (run : TradeRun)
    → run_with run_id runs ≡ some run
    → owner run_id (map run_key runs) ≡ some run.user_id
owner-run_with run_id [] run h = absurd (let z : ⊥ = cc in z)
owner-run_with run_id (r ∷ runs) run h = elim (Bool-cases (r.id == run_id)) [
  | inl e ↦ ground (arith, e)
  | inr e ↦ rw e (owner-run_with run_id runs run (rw e at h))
]

put_run-RunRowwise_absent :
    (user_id : ℕ) (run' : TradeRun) (runs : List TradeRun)
    → All (λ other. other.id ≢ run'.id) (map run_key runs)
    → RunRowwise user_id runs (put_run run' runs)
put_run-RunRowwise_absent user_id run' [] h = tt
put_run-RunRowwise_absent user_id run' (r ∷ runs) h = elim (Bool-cases (r.id == run'.id)) [
  | inl e ↦ absurd (h.0 ((==_iff r.id run'.id).0 e))
  | inr e ↦ rw e (inl refl, put_run-RunRowwise_absent user_id run' runs h.1)
]

-- Writing back the run that the check found.
pub put_run-RunRowwise :
    (user_id run_id : ℕ) (run run' : TradeRun) (runs : List TradeRun)
    → DistinctRuns (map run_key runs)
    → run_with run_id runs ≡ some run
    → run.id ≡ run_id
    → run.user_id ≡ user_id
    → run_key run' ≡ run_key run
    → RunRowwise user_id runs (put_run run' runs)
put_run-RunRowwise user_id run_id run run' [] d h i u k = tt
put_run-RunRowwise user_id run_id run run' (r ∷ runs) d h i u k =
    let same_id : run'.id ≡ run_id = ap (λ (key : RunKey). key.id) k ∙ i in
    elim (Bool-cases (r.id == run_id)) [
      | inl e ↦
          let same : r ≡ run = ground (arith, e) in
          let hit : (r.id == run'.id) ≡ true = ground (arith, e, same_id) in
          rw hit (
            inr (ap (λ (x : TradeRun). x.user_id) same ∙ u, k ∙ ap run_key (sym same)),
            put_run-RunRowwise_absent user_id run' runs (
                subst (λ n. All (λ other. other.id ≢ n) (map run_key runs))
                  ((==_iff r.id run_id).0 e ∙ sym same_id) d.0),
          )
      | inr e ↦
          let miss : (r.id == run'.id) ≡ false = ground (arith, e, same_id) in
          rw miss (inl refl, put_run-RunRowwise user_id run_id run run' runs d.1 (rw e at h) i u k)
    ]
