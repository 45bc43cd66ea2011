-- ===== src/Ledger/Rows.antt =====
-- Tables whose rows refer to one another as the ledger's do, and how an operation may edit the leg
-- rows of one pilot.
use graphling.Prelude.{ℕ, map, ◌≡◌, sym, subst, ◌≢◌, inl, inr, List, [], ◌∷◌, All}
use graphling.Prelude.{Elem}
use graphling.Ledger.Models.{LegType, TradeLeg}

-- What no operation changes of a row.
pub record LegKey : Type 0 where
  pub id : ℕ
  pub run_id : ℕ
  pub user_id : ℕ
  pub leg_type : LegType

abbrev pub leg_key : TradeLeg → LegKey
leg_key leg = record {
  id = leg.id;
  run_id = leg.run_id;
  user_id = leg.user_id;
  leg_type = leg.leg_type;
}

-- No two rows share an id.
abbrev pub DistinctLegs : List LegKey → Type 0
DistinctLegs [] = Unit
DistinctLegs (k ∷ ks) = All (λ other. other.id ≢ k.id) ks × DistinctLegs ks

-- The row is the only one with its id.
abbrev pub OnlyRow : TradeLeg → List TradeLeg → Type 0
OnlyRow row = All (λ other. other.id ≡ row.id → other ≡ row)

OnlyRow-of_absent :
    (row : TradeLeg) (legs : List TradeLeg)
    → All (λ other. other.id ≢ row.id) (map leg_key legs)
    → OnlyRow row legs
OnlyRow-of_absent row [] h = tt
OnlyRow-of_absent row (leg ∷ legs) h = (λ e. absurd (h.0 e), OnlyRow-of_absent row legs h.1)

pub All-key {κ} :
    (P : LegKey → Type κ) (leg : TradeLeg) (legs : List TradeLeg)
    → All P (map leg_key legs)
    → Elem leg legs
    → P (leg_key leg)
All-key P leg [] h m = absurd m
All-key P leg (other ∷ legs) h (inl e) = subst (λ r. P (leg_key r)) (sym e) h.0
All-key P leg (other ∷ legs) h (inr m) = All-key P leg legs h.1 m

pub Elem-OnlyRow :
    (row : TradeLeg) (legs : List TradeLeg)
    → DistinctLegs (map leg_key legs)
    → Elem row legs
    → OnlyRow row legs
Elem-OnlyRow row [] d m = absurd m
Elem-OnlyRow row (leg ∷ legs) d (inl e) = (
  λ _. sym e,
  OnlyRow-of_absent row legs
      (subst (λ (r : TradeLeg). All (λ other. other.id ≢ r.id) (map leg_key legs)) (sym e) d.0),
)
Elem-OnlyRow row (leg ∷ legs) d (inr m) = (
  λ e. absurd (All-key (λ other. other.id ≢ leg.id) row legs d.0 m (sym e)),
  Elem-OnlyRow row legs d.1 m,
)
