-- ===== src/Ledger/Siblings.antt =====
-- In consistent tables a leg has at most one sibling, so `scalar_one_or_none` never raises (app/server/ledger_service.py, app/server/routes/ledger.py).
use graphling.Prelude.{
  ℕ, suc, ◌+◌, ◌≤◌, ◌≡◌, refl, sym, ap, inl, inr, Option, none, some, List, [], ◌∷◌, map, length,
  ◌==◌, if◌then◌else◌, arith,
}
use graphling.Ledger.Models.{LegType, acquisition, sale, TradeLeg}
use graphling.Ledger.Tables.{Tables, ok, siblings, scalar_one_or_none}
use graphling.Ledger.Rows.{LegKey, leg_key}
use graphling.Prelude.{Elem}
use graphling.Ledger.Consistent.{count_legs, Consistent}

abbrev both : ℕ → List LegKey → ℕ
both run_id legs = count_legs run_id acquisition legs + count_legs run_id sale legs

-- A leg of the run is one of its purchases or one of its sales.
both-cons :
    (run_id : ℕ) (k : LegKey) (ks : List LegKey)
    → both run_id (k ∷ ks) ≡ (if k.run_id == run_id then suc (both run_id ks) else both run_id ks)
both-cons run_id k ks = go k.leg_type refl
  where
    go :
        (t : LegType)
        → k.leg_type ≡ t
        → both run_id (k ∷ ks)
          ≡ (if k.run_id == run_id then suc (both run_id ks) else both run_id ks)
    go acquisition e = ground arith
    go sale e = ground arith

length-siblings-le :
    (leg : TradeLeg) (legs : List TradeLeg)
    → length (siblings leg legs) ≤ both leg.run_id (map leg_key legs)
length-siblings-le leg [] = omega arith
length-siblings-le leg (other ∷ legs) =
    rw (both-cons leg.run_id (leg_key other) (map leg_key legs))
      (ground (arith, length-siblings-le leg legs))

length-siblings-lt :
    (leg : TradeLeg) (legs : List TradeLeg)
    → Elem leg legs
    → length (siblings leg legs) + 1 ≤ both leg.run_id (map leg_key legs)
length-siblings-lt leg [] m = absurd m
length-siblings-lt leg (other ∷ legs) (inl e) =
    let same_run : other.run_id ≡ leg.run_id = ap (λ (l : TradeLeg). l.run_id) (sym e) in
    let same_id : other.id ≡ leg.id = ap (λ (l : TradeLeg). l.id) (sym e) in
    rw (both-cons leg.run_id (leg_key other) (map leg_key legs))
      (ground (arith, length-siblings-le leg legs, same_run, same_id))
length-siblings-lt leg (other ∷ legs) (inr m) =
    rw (both-cons leg.run_id (leg_key other) (map leg_key legs))
      (ground (arith, length-siblings-lt leg legs m))

scalar_total :
    (legs : List TradeLeg)
    → length legs ≤ 1
    → (o : Option TradeLeg) × (scalar_one_or_none legs ≡ ok o)
scalar_total [] h = (none, refl)
scalar_total (a ∷ []) h = (some a, refl)
scalar_total (a ∷ b ∷ legs) h = absurd (omega arith)

-- The sibling of a leg of consistent tables is found, or there is none.
pub siblings_total :
    (tables : Tables) (leg : TradeLeg)
    → Consistent tables
    → Elem leg tables.legs
    → (o : Option TradeLeg) × (scalar_one_or_none (siblings leg tables.legs) ≡ ok o)
siblings_total tables leg c m = scalar_total (siblings leg tables.legs) (
    omega (
      arith,
      length-siblings-lt leg tables.legs m,
      c.paired leg.run_id acquisition,
      c.paired leg.run_id sale,
    ))
