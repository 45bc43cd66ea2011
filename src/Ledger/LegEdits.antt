-- ===== src/Ledger/LegEdits.antt =====
-- What it is for an operation to edit a pilot's leg rows, and the edits that stamp a milestone.
use graphling.Prelude.{
  ℕ, ◌≡◌, refl, subst, inl, inr, Bool, true, false, Option-cases, Option, none, some, is_none,
  if◌then◌else◌, arith,
}
use graphling.Ledger.Models.{
  LegMilestone, reached_at, transaction_completed_at, transferred_at, finalized_at, TradeLeg,
  milestone, stamp,
}
use graphling.Ledger.Milestones.{unset, milestone_sequence, next_unset_field}
use graphling.Ledger.Tables.{Tables, Result, ok, err, ◌>>=◌}
use graphling.Ledger.Legs.{advanceable}
use graphling.Ledger.Rows.{leg_key}
use graphling.Prelude.{Elem-find}
use graphling.Ledger.Edits.{Kept, Kept-refl, Grows, Rowwise}

-- Every leg row is edited as the pilot may, and no run row.
abbrev pub EditCases : ℕ → Tables → Result (TradeLeg × Tables) → Type 0
EditCases user_id tables (ok (leg, next)) =
    Rowwise user_id tables.legs next.legs × (next.runs ≡ tables.runs)
EditCases user_id tables (err e) = Unit

pub record EditsLegs (user_id : ℕ) (tables : Tables) (r : Result (TradeLeg × Tables)) : Type 0 where
  pub rows : EditCases user_id tables r

pub bind-EditsLegs :
    {A : Type 0} (user_id : ℕ) (tables : Tables) (m : Result A) (f : A → Result (TradeLeg × Tables))
    → ((a : A) → m ≡ ok a → EditsLegs user_id tables (f a))
    → EditsLegs user_id tables (m >>= f)
bind-EditsLegs user_id tables (ok a) f h = h a refl
bind-EditsLegs user_id tables (err e) f h = record { rows = tt }

pub Kept_if_none : (old new : Option ℕ) → old ≡ none → Kept old new
Kept_if_none none new h = tt
Kept_if_none (some time) new h = absurd (let z : ⊥ = cc in z)

pub Grows-of_stamps :
    (row row' : TradeLeg)
    → Kept row.started_at row'.started_at
    → Kept row.reached_at row'.reached_at
    → Kept row.transaction_completed_at row'.transaction_completed_at
    → Kept row.transferred_at row'.transferred_at
    → Kept row.finalized_at row'.finalized_at
    → Grows row row'
Grows-of_stamps row row' s r c t f = record { started = s; stamps = stamps }
  where
    stamps : (field : LegMilestone) → Kept (milestone field row) (milestone field row')
    stamps reached_at = r
    stamps transaction_completed_at = c
    stamps transferred_at = t
    stamps finalized_at = f

pub stamp-Grows :
    (field : LegMilestone) (now : ℕ) (leg : TradeLeg)
    → milestone field leg ≡ none
    → Grows leg (stamp field now leg)
stamp-Grows reached_at now leg h =
    Grows-of_stamps _ _ (Kept-refl _) (Kept_if_none _ _ h) (Kept-refl _) (Kept-refl _) (Kept-refl _)
stamp-Grows transaction_completed_at now leg h =
    Grows-of_stamps _ _ (Kept-refl _) (Kept-refl _) (Kept_if_none _ _ h) (Kept-refl _) (Kept-refl _)
stamp-Grows transferred_at now leg h =
    Grows-of_stamps _ _ (Kept-refl _) (Kept-refl _) (Kept-refl _) (Kept_if_none _ _ h) (Kept-refl _)
stamp-Grows finalized_at now leg h =
    Grows-of_stamps _ _ (Kept-refl _) (Kept-refl _) (Kept-refl _) (Kept-refl _) (Kept_if_none _ _ h)

pub stamp-key :
    (field : LegMilestone) (now : ℕ) (leg : TradeLeg) → leg_key (stamp field now leg) ≡ leg_key leg
stamp-key reached_at now leg = refl
stamp-key transaction_completed_at now leg = refl
stamp-key transferred_at now leg = refl
stamp-key finalized_at now leg = refl

-- The milestone that is advanced had no stamp.
pub advanceable-unset :
    (leg : TradeLeg) (field : LegMilestone)
    → advanceable (next_unset_field leg) ≡ ok field
    → milestone field leg ≡ none
unfolding next_unset_field
advanceable-unset leg field h = elim (Option-cases (next_unset_field leg)) [
  | inl e ↦ absurd (let z : ⊥ = ground (arith, e) in z)
  | inr (f, e) ↦
      let same : f ≡ field = same_field f (rw e at h) in
      let (m, t) = Elem-find (unset leg) (milestone_sequence leg) f e in
      subst (λ g. milestone g leg ≡ none) same (none_of (milestone f leg) t)
]
  where
    none_of : (o : Option ℕ) → is_none o ≡ true → o ≡ none
    none_of none h = refl
    none_of (some time) h = absurd (let z : ⊥ = cc in z)

    same_field : (f : LegMilestone) → advanceable (some f) ≡ ok field → f ≡ field
    same_field reached_at h = ground arith
    same_field transaction_completed_at h = absurd (let z : ⊥ = cc in z)
    same_field transferred_at h = ground arith
    same_field finalized_at h = ground arith

pub if_sibling :
    (b : Bool) (m : Result (Option TradeLeg)) (sibling : TradeLeg)
    → (if b then m else ok none) ≡ ok (some sibling)
    → m ≡ ok (some sibling)
if_sibling true m sibling h = h
if_sibling false m sibling h = absurd (let z : ⊥ = cc in z)
