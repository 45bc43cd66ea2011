-- ===== src/Ledger/OwnedRows.antt =====
-- The row that an ownership check finds, its sibling, and edits of the two
-- (app/server/ledger_service.py).
use graphling.Prelude.{
  ℕ, ◌≡◌, sym, ap, subst, ◌∙◌, ◌≢◌, inl, inr, Option-cases, not, ◌&&◌, some, List, [], ◌∷◌, map,
  ◌==◌, ==_iff, arith,
}
use graphling.Ledger.Models.{TradeLeg}
use graphling.Ledger.Tables.{Tables, ok, leg_with, siblings, scalar_one_or_none, put_leg}
use graphling.Ledger.Owned.{get_owned_leg}
use graphling.Ledger.Rows.{LegKey, leg_key, All-key, Elem-OnlyRow}
use graphling.Prelude.{Elem, Elem-find, Elem-filter}
use graphling.Ledger.Edits.{Grows, Rowwise, Rowwise-trans, put_leg-Rowwise, put_leg-OnlyRow}
use graphling.Ledger.Consistent.{run_key, owner, Consistent}

pub record Owned (tables : Tables) (leg_id user_id : ℕ) (leg : TradeLeg) : Type 0 where
  pub row : Elem leg tables.legs
  pub id : leg.id ≡ leg_id
  pub user : leg.user_id ≡ user_id

-- The leg that the ownership check lets through is the pilot's row of that id.
pub get_owned_leg-Owned :
    (tables : Tables) (leg_id user_id : ℕ) (leg : TradeLeg)
    → get_owned_leg tables leg_id user_id ≡ ok leg
    → Owned tables leg_id user_id leg
unfolding get_owned_leg
get_owned_leg-Owned tables leg_id user_id leg h =
    elim (Option-cases (leg_with leg_id tables.legs)) [
      | inl e ↦ absurd (let z : ⊥ = ground (arith, e) in z)
      | inr (other, e) ↦
          let same : other ≡ leg = ground (arith, e) in
          let (m, t) = Elem-find (λ l. l.id == leg_id) tables.legs other e in
          record {
            row = subst (λ l. Elem l tables.legs) same m;
            id = subst (λ l. l.id ≡ leg_id) same ((==_iff other.id leg_id).0 t);
            user = ground (arith, e);
          }
    ]

pub record Sibling (tables : Tables) (leg sibling : TradeLeg) : Type 0 where
  pub row : Elem sibling tables.legs
  pub run : sibling.run_id ≡ leg.run_id
  pub other : sibling.id ≢ leg.id

scalar-Elem :
    (legs : List TradeLeg) (leg : TradeLeg)
    → scalar_one_or_none legs ≡ ok (some leg)
    → Elem leg legs
scalar-Elem [] leg h = absurd (let z : ⊥ = cc in z)
scalar-Elem (a ∷ []) leg h = inl (let z : leg ≡ a = ground arith in z)
scalar-Elem (a ∷ b ∷ legs) leg h = absurd (let z : ⊥ = cc in z)

pub siblings-Sibling :
    (tables : Tables) (leg sibling : TradeLeg)
    → scalar_one_or_none (siblings leg tables.legs) ≡ ok (some sibling)
    → Sibling tables leg sibling
siblings-Sibling tables leg sibling h =
    let (m, t) =
      Elem-filter (λ other. other.run_id == leg.run_id && not (other.id == leg.id)) tables.legs
        sibling (scalar-Elem (siblings leg tables.legs) sibling h) in
    record { row = m; run = ground (arith, t); other = λ e. ground (arith, t, e) }

module _ (tables : Tables) (consistent : Consistent tables) (leg_id user_id : ℕ) (leg : TradeLeg)
    (found : Owned tables leg_id user_id leg) where
  -- A leg of the same run belongs to the same pilot.
  Sibling-user : (sibling : TradeLeg) → Sibling tables leg sibling → sibling.user_id ≡ user_id
  Sibling-user sibling s =
      let P : LegKey → Type 0 = λ k. owner k.run_id (map run_key tables.runs) ≡ some k.user_id in
      let mine = All-key P leg tables.legs consistent.owned found.row in
      let theirs = All-key P sibling tables.legs consistent.owned s.row in
      cc (mine, theirs, s.run, found.user)

  pub own-Rowwise :
      (leg' : TradeLeg)
      → leg_key leg' ≡ leg_key leg
      → Grows leg leg'
      → Rowwise user_id tables.legs (put_leg leg' tables.legs)
  own-Rowwise leg' key grows =
      put_leg-Rowwise user_id leg leg' tables.legs
        (Elem-OnlyRow leg tables.legs consistent.legs_distinct found.row)
        (record { mine = found.user; key = key; grows = grows })

  pub pair-Rowwise :
      (leg' sibling sibling' : TradeLeg)
      → leg_key leg' ≡ leg_key leg
      → Grows leg leg'
      → Sibling tables leg sibling
      → leg_key sibling' ≡ leg_key sibling
      → Grows sibling sibling'
      → Rowwise user_id tables.legs (put_leg sibling' (put_leg leg' tables.legs))
  pair-Rowwise leg' sibling sibling' key grows s key' grows' =
      Rowwise-trans user_id tables.legs (put_leg leg' tables.legs)
        (put_leg sibling' (put_leg leg' tables.legs)) (own-Rowwise leg' key grows)
        (put_leg-Rowwise user_id sibling sibling' (put_leg leg' tables.legs)
          (put_leg-OnlyRow sibling leg' tables.legs
            (λ e. s.other (sym e ∙ ap (λ (k : LegKey). k.id) key))
            (Elem-OnlyRow sibling tables.legs consistent.legs_distinct s.row))
          (record { mine = Sibling-user sibling s; key = key'; grows = grows' }))
