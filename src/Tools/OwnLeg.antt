-- ===== src/Tools/OwnLeg.antt =====
-- Whose leg `resolve_leg` finds (app/tools/trade_run/resolver.py).
use graphling.Prelude.{
  Text, ℕ, ◌≤◌, ◌≡◌, refl, sym, ap, ◌∙◌, Bool, true, false, ◌&&◌, Bool-cases, ◌⊎◌, inl, inr, Option,
  none, some, List, [], ◌∷◌, ◌++◌, map, length, ltb, is_none, ◌==◌, ==_iff, ==_refl, All, Elem,
  Elem-find, Elem-filter, Elem-append, Elem-All, Elem-map, ◌≢◌, arith,
}
use graphling.Ledger.Models.{LegType, acquisition, sale, TradeLeg, TradeRun}
use graphling.Ledger.Milestones.{
  insert_by_created_at, sorted_by_created_at, of_type, ordered_legs, current_leg,
}
use graphling.Ledger.Tables.{Tables, ok, legs_of, leg_with}
use graphling.Ledger.Owned.{get_owned_leg}
use graphling.Ledger.Queries.{insert_run, order_by, get_in_progress_runs}
use graphling.Ledger.Rows.{LegKey, OnlyRow, Elem-OnlyRow, All-key}
use graphling.Ledger.Consistent.{RunKey, run_key, DistinctRuns, owner, Consistent}
use graphling.Catalog.Entities.{UexReferenceCache}
use graphling.Catalog.Fuzzy.{Libraries}
use graphling.Tools.Resolver.{
  LegError, ambiguous_leg, no_leg, Hint, is_type, fits_hint, fitting, matching_legs, only_leg,
  hint_of, resolve_leg,
}

-- Past the head, an element of an insertion is the new one or an old one.
Elem-past :
    {A : Type 0} (new x other : A) (inserted rest : List A)
    → (Elem x inserted → (x ≡ new) ⊎ Elem x rest)
    → Elem x (other ∷ inserted)
    → (x ≡ new) ⊎ Elem x (other ∷ rest)
Elem-past new x other inserted rest h (inl e) = inr (inl e)
Elem-past new x other inserted rest h (inr m) = elim (h m) [ inl e ↦ inl e | inr k ↦ inr (inr k) ]

insert-Elem :
    (leg x : TradeLeg) (legs : List TradeLeg)
    → Elem x (insert_by_created_at leg legs)
    → (x ≡ leg) ⊎ Elem x legs
unfolding insert_by_created_at
insert-Elem leg x [] m = m
insert-Elem leg x (other ∷ legs) m = elim (Bool-cases (ltb other.created_at leg.created_at)) [
  | inr e ↦ rw e at m
  | inl e ↦
      Elem-past leg x other (insert_by_created_at leg legs) legs (insert-Elem leg x legs)
        (rw e at m)
]

sorted-Elem :
    (x : TradeLeg) (legs : List TradeLeg) → Elem x (sorted_by_created_at legs) → Elem x legs
unfolding sorted_by_created_at
sorted-Elem x [] m = m
sorted-Elem x (leg ∷ legs) m = elim (insert-Elem leg x (sorted_by_created_at legs) m) [
  | inl e ↦ inl e
  | inr k ↦ inr (sorted-Elem x legs k)
]

ordered-Elem : (x : TradeLeg) (legs : List TradeLeg) → Elem x (ordered_legs legs) → Elem x legs
unfolding ordered_legs
ordered-Elem x legs m =
    elim (Elem-append (sorted_by_created_at (of_type acquisition legs))
      (sorted_by_created_at (of_type sale legs)) x m) [
        | inl k ↦ (Elem-filter _ legs x (sorted-Elem x (of_type acquisition legs) k)).0
        | inr k ↦ (Elem-filter _ legs x (sorted-Elem x (of_type sale legs) k)).0
      ]

current_leg-Elem :
    (legs : List TradeLeg) (leg : TradeLeg)
    → current_leg legs ≡ some leg
    → Elem leg legs × (is_none leg.finalized_at ≡ true)
unfolding current_leg
current_leg-Elem legs leg h =
    let (m, t) = Elem-find (λ x. is_none x.finalized_at) (ordered_legs legs) leg h in
    (ordered-Elem leg legs m, t)

insert_run-Elem :
    (before : TradeRun → TradeRun → Bool) (run x : TradeRun) (runs : List TradeRun)
    → Elem x (insert_run before run runs)
    → (x ≡ run) ⊎ Elem x runs
insert_run-Elem before run x [] m = m
insert_run-Elem before run x (other ∷ runs) m = elim (Bool-cases (before other run)) [
  | inr e ↦ rw e at m
  | inl e ↦
      Elem-past run x other (insert_run before run runs) runs (insert_run-Elem before run x runs)
        (rw e at m)
]

order_by-Elem :
    (before : TradeRun → TradeRun → Bool) (x : TradeRun) (runs : List TradeRun)
    → Elem x (order_by before runs)
    → Elem x runs
order_by-Elem before x [] m = m
order_by-Elem before x (run ∷ runs) m =
    elim (insert_run-Elem before run x (order_by before runs) m) [
      | inl e ↦ inl e
      | inr k ↦ inr (order_by-Elem before x runs k)
    ]

in_progress-Elem :
    (user_id : ℕ) (tables : Tables) (run : TradeRun)
    → Elem run (get_in_progress_runs user_id tables)
    → Elem run tables.runs × (run.user_id ≡ user_id)
unfolding get_in_progress_runs
in_progress-Elem user_id tables run m =
    let (k, t) =
      Elem-filter (λ r. is_none r.finalized_at && r.user_id == user_id) tables.runs run
        (order_by-Elem (λ a b. ltb a.created_at b.created_at) run _ m) in
    (k, ground (arith, t))

owner-Elem :
    (run : TradeRun) (runs : List TradeRun)
    → DistinctRuns (map run_key runs)
    → Elem run runs
    → owner run.id (map run_key runs) ≡ some run.user_id
owner-Elem run [] d m = absurd m
owner-Elem run (other ∷ runs) d (inl e) = rw (sym e, ==_refl run.id) refl
owner-Elem run (other ∷ runs) d (inr m) = elim (Bool-cases (other.id == run.id)) [
  | inr e ↦ rw e (owner-Elem run runs d.1 m)
  | inl e ↦ absurd (
      Elem-All (λ (k : RunKey). k.id ≢ other.id) (map run_key runs) (run_key run) d.0
        (Elem-map run_key runs run m) (sym ((==_iff other.id run.id).0 e)))
]

leg_with-Elem :
    (leg : TradeLeg) (legs : List TradeLeg)
    → OnlyRow leg legs
    → Elem leg legs
    → leg_with leg.id legs ≡ some leg
leg_with-Elem leg [] only m = absurd m
leg_with-Elem leg (other ∷ legs) only m = elim (Bool-cases (other.id == leg.id)) [
  | inl e ↦ rw e (ap some (only.0 ((==_iff other.id leg.id).0 e)))
  | inr e ↦ rw e (leg_with-Elem leg legs only.1 (past e m))
]
  where
    past : (other.id == leg.id) ≡ false → Elem leg (other ∷ legs) → Elem leg legs
    past e (inl h) = absurd (
        let f : (other.id == leg.id) ≡ true = rw (sym h) (==_refl leg.id) in
        let z : ⊥ = cc (e, f) in z)
    past e (inr k) = k

both-left : (a b : Bool) → (a && b) ≡ true → a ≡ true
both-left true b h = refl
both-left false b h = absurd (let z : ⊥ = cc (h) in z)

is_none-none : (o : Option ℕ) → is_none o ≡ true → o ≡ none
is_none-none none h = refl
is_none-none (some a) h = absurd (let z : ⊥ = cc (h) in z)

module _ (libraries : Libraries) (cache : UexReferenceCache) (user_id : ℕ) (tables : Tables)
    (consistent : Consistent tables) where
  -- A leg of the pilot's that is not finalized, of the type that is asked for.
  pub record Mine (leg_type : Option LegType) (leg : TradeLeg) : Type 0 where
    pub owned : get_owned_leg tables leg.id user_id ≡ ok leg
    pub of_type : is_type libraries cache leg_type leg ≡ true
    pub unfinished : leg.finalized_at ≡ none

  current_leg-Mine :
      (hint : Hint libraries cache) (run : TradeRun) (leg : TradeLeg)
      → Elem run (get_in_progress_runs user_id tables)
      → current_leg (legs_of run.id tables.legs) ≡ some leg
      → fits_hint libraries cache hint leg ≡ true
      → Mine hint.leg_type leg
  unfolding fits_hint get_owned_leg
  current_leg-Mine hint run leg m h fits =
      let (k, t) = current_leg-Elem (legs_of run.id tables.legs) leg h in
      let (row, same_run) = Elem-filter (λ x. x.run_id == run.id) tables.legs leg k in
      let (run_row, mine) = in_progress-Elem user_id tables run m in
      let its_owner =
        All-key (λ (x : LegKey). owner x.run_id (map run_key tables.runs) ≡ some x.user_id) leg
          tables.legs consistent.owned row in
      let run_owner = owner-Elem run tables.runs consistent.runs_distinct run_row in
      let run_is : leg.run_id ≡ run.id = (==_iff leg.run_id run.id).0 same_run in
      let user : leg.user_id ≡ user_id =
        let users : some leg.user_id ≡ some run.user_id =
          sym its_owner ∙ ap (λ i. owner i (map run_key tables.runs)) run_is ∙ run_owner in
        cc (users, mine) in
      let found =
        leg_with-Elem leg tables.legs (Elem-OnlyRow leg tables.legs consistent.legs_distinct row)
          row in
      record {
        owned =
            let same : (leg.user_id == user_id) ≡ true = ground (arith, user) in
            rw (get_owned_leg, found, same) refl;
        of_type = both-left (is_type libraries cache hint.leg_type leg) _ fits;
        unfinished = is_none-none leg.finalized_at t;
      }

  -- All the pairs that match are of such legs.
  AllMine : Option LegType → List (TradeRun × TradeLeg) → Type 0
  AllMine leg_type = All (λ c. Mine leg_type (c.1))

  AllMine-append :
      (leg_type : Option LegType) (xs ys : List (TradeRun × TradeLeg))
      → AllMine leg_type xs
      → AllMine leg_type ys
      → AllMine leg_type (xs ++ ys)
  unfolding AllMine
  AllMine-append leg_type [] ys h k = k
  AllMine-append leg_type (x ∷ xs) ys (h, hs) k = (h, AllMine-append leg_type xs ys hs k)

  fitting-AllMine :
      (hint : Hint libraries cache) (run : TradeRun) (o : Option TradeLeg)
      → current_leg (legs_of run.id tables.legs) ≡ o
      → Elem run (get_in_progress_runs user_id tables)
      → AllMine hint.leg_type (fitting libraries cache hint run o)
  unfolding AllMine
  fitting-AllMine hint run none h m = tt
  fitting-AllMine hint run (some leg) h m = elim (Bool-cases (fits_hint libraries cache hint leg)) [
    | inl e ↦ rw e (current_leg-Mine hint run leg m h e, tt)
    | inr e ↦ rw e tt
  ]

  matching_legs-AllMine :
      (hint : Hint libraries cache) (runs : List TradeRun)
      → ((run : TradeRun) → Elem run runs → Elem run (get_in_progress_runs user_id tables))
      → AllMine hint.leg_type (matching_legs libraries cache hint tables runs)
  unfolding matching_legs AllMine
  matching_legs-AllMine hint [] sub = tt
  matching_legs-AllMine hint (run ∷ runs) sub =
      AllMine-append hint.leg_type
        (fitting libraries cache hint run (current_leg (legs_of run.id tables.legs)))
        (matching_legs libraries cache hint tables runs)
        (fitting-AllMine hint run (current_leg (legs_of run.id tables.legs)) refl
          (sub run (inl refl)))
        (matching_legs-AllMine hint runs (λ r m. sub r (inr m)))

  abbrev pub Meant : Option LegType → LegError ⊎ TradeLeg → Type 0
  Meant leg_type (inr leg) = Mine leg_type leg
  Meant leg_type (inl no_leg) = Unit
  Meant leg_type (inl (ambiguous_leg found)) =
      (2 ≤ length found) × All (λ c. Mine leg_type (c.1)) found

  -- In consistent tables the leg that the tools update is one of the pilot's, not finalized and of the
  -- type asked for; where it asks back, there are two such legs or more.
  pub resolve_leg-Mine :
      (leg_type : Option LegType) (said_commodity said_terminal : Option Text)
      → Meant leg_type
          (resolve_leg libraries cache user_id tables leg_type said_commodity said_terminal)
  unfolding resolve_leg AllMine
  resolve_leg-Mine leg_type said_commodity said_terminal =
      go
        (matching_legs libraries cache
          (hint_of libraries cache leg_type said_commodity said_terminal) tables
          (get_in_progress_runs user_id tables))
        (matching_legs-AllMine (hint_of libraries cache leg_type said_commodity said_terminal)
          (get_in_progress_runs user_id tables) (λ r m. m))
    where
      go :
          (found : List (TradeRun × TradeLeg))
          → AllMine leg_type found
          → Meant leg_type (only_leg libraries cache found)
      go [] h = tt
      go ((run, leg) ∷ []) h = h.0
      go (a ∷ b ∷ found) h = (omega arith, h)
