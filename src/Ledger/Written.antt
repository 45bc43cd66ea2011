-- ===== src/Ledger/Written.antt =====
-- What a lookup finds after a row was replaced (the queries of app/server/ledger_service.py).
use graphling.Prelude.{
  ℕ, ◌≡◌, refl, ◌≢◌, true, false, Bool-cases, inl, inr, Option, none, some, Option-cases, List, [],
  ◌∷◌, ◌==◌, arith,
}
use graphling.Ledger.Models.{TradeLeg}
use graphling.Ledger.Tables.{Tables, ok, leg_with, put_leg, put_optional}
use graphling.Ledger.Owned.{get_owned_leg}

leg_with-put_leg :
    (leg_id : ℕ) (leg new : TradeLeg) (legs : List TradeLeg)
    → new.id ≡ leg_id
    → leg_with leg_id legs ≡ some leg
    → leg_with leg_id (put_leg new legs) ≡ some new
leg_with-put_leg leg_id leg new [] e h = absurd (let z : ⊥ = cc in z)
leg_with-put_leg leg_id leg new (other ∷ legs) e h = elim (Bool-cases (other.id == leg_id)) [
  | inl f ↦
      let same : (other.id == new.id) ≡ true = rw e f in
      let here : (new.id == leg_id) ≡ true = ground (arith, e) in rw (same, here) refl
  | inr f ↦
      let apart : (other.id == new.id) ≡ false = rw e f in
      rw (apart, f) (leg_with-put_leg leg_id leg new legs e (rw f at h))
]

-- The ownership check after the leg was replaced.
pub get_owned_leg-put_leg :
    (tables : Tables) (leg_id user_id : ℕ) (leg new : TradeLeg)
    → get_owned_leg tables leg_id user_id ≡ ok leg
    → new.id ≡ leg_id
    → new.user_id ≡ user_id
    → get_owned_leg (record tables { legs = put_leg new tables.legs }) leg_id user_id ≡ ok new
unfolding get_owned_leg
get_owned_leg-put_leg tables leg_id user_id leg new h e f =
    elim (Option-cases (leg_with leg_id tables.legs)) [
      | inl g ↦ absurd (let z : ⊥ = ground (arith, g, h) in z)
      | inr (found, g) ↦
          let mine : (new.user_id == user_id) ≡ true = ground (arith, f) in
          rw (leg_with-put_leg leg_id found new tables.legs e g, mine) refl
    ]

-- A row that was replaced is not the one of another id.
leg_with-put_leg_other :
    (leg_id : ℕ) (new : TradeLeg) (legs : List TradeLeg)
    → new.id ≢ leg_id
    → leg_with leg_id (put_leg new legs) ≡ leg_with leg_id legs
leg_with-put_leg_other leg_id new [] apart = refl
leg_with-put_leg_other leg_id new (other ∷ legs) apart =
    let rest = leg_with-put_leg_other leg_id new legs apart in
    elim (Bool-cases (other.id == new.id)) [
      | inl f ↦
          let here : (new.id == leg_id) ≡ false = ground (arith, apart) in
          let there : (other.id == leg_id) ≡ false = ground (arith, apart, f) in
          rw (f, here, there) rest
      | inr f ↦ elim (Bool-cases (other.id == leg_id)) [
        | inl g ↦ rw (f, g) refl
        | inr g ↦ rw (f, g) rest
      ]
    ]

-- The ownership check after another row was replaced, or none was.
pub get_owned_leg-put_optional :
    (tables : Tables) (leg_id user_id : ℕ) (leg : TradeLeg) (new : Option TradeLeg)
    → get_owned_leg tables leg_id user_id ≡ ok leg
    → ((row : TradeLeg) → new ≡ some row → row.id ≢ leg_id)
    → get_owned_leg (record tables { legs = put_optional new tables.legs }) leg_id user_id ≡ ok leg
unfolding get_owned_leg
get_owned_leg-put_optional tables leg_id user_id leg none h apart = h
get_owned_leg-put_optional tables leg_id user_id leg (some row) h apart =
    rw (leg_with-put_leg_other leg_id row tables.legs (apart row refl)) h
