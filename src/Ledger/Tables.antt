-- ===== src/Ledger/Tables.antt =====
-- The two tables that the ledger keeps in Postgres, and the queries that app/server/ledger_service.py
-- runs on them. A session's work is one transaction: an operation that raises has committed nothing,
-- so it returns no new tables.
use graphling.Prelude.{
  ℕ, ℤ, pos, negsuc, ltb_ℤ, Bool, not, ◌&&◌, Option, none, some, List, [], ◌∷◌, map, filter, find,
  ◌==◌, if◌then◌else◌,
}
use graphling.Ledger.Models.{TradeLeg, TradeRun}

pub record Tables : Type 0 where
  pub runs : List TradeRun
  pub legs : List TradeLeg

-- NotFoundError, each ValueError that the service raises by its reason, SQLAlchemy's
-- MultipleResultsFound, the database's error on a value that an Integer column does not hold, and the
-- OverflowError or ValueError of `int(round(x))`.
pub data Error : Type 0 where
  not_found : Error
  already_finalized needs_transaction : Error
  not_an_acquisition purchase_recorded : Error
  not_a_sale sale_recorded : Error
  run_finalized negative_amount : Error
  unfinished_legs no_recorded_purchase : Error
  multiple_results out_of_range not_finite : Error

pub data Result {ℓ} (A : Type ℓ) : Type ℓ where
  err : Error → Result A
  ok : A → Result A

infixl 5 ◌>>=◌ ◌>>◌
-- What follows a call that may raise.
abbrev pub ◌>>=◌ {ℓ κ} : {A : Type ℓ} → {B : Type κ} → Result A → (A → Result B) → Result B
err error >>= rest = err error
ok value >>= rest = rest value

-- What follows a check.
abbrev pub ◌>>◌ {κ} : {B : Type κ} → Result (Unit {0}) → Result B → Result B
checked >> rest = checked >>= λ _. rest

-- if test: raise e
abbrev pub raise_if : Bool → Error → Result (Unit {0})
raise_if test e = if test then err e else ok tt

-- Does an Integer column, of 32 bits, hold the value?
abbrev pub fits_int4 : ℤ → Bool
fits_int4 value = not (ltb_ℤ value (negsuc 2147483647)) && ltb_ℤ value (pos 2147483648)

-- session.get(TradeLeg, leg_id)
abbrev pub leg_with : ℕ → List TradeLeg → Option TradeLeg
leg_with leg_id = find (λ leg. leg.id == leg_id)

abbrev pub run_with : ℕ → List TradeRun → Option TradeRun
run_with run_id = find (λ run. run.id == run_id)

-- selectinload(TradeRun.legs)
abbrev pub legs_of : ℕ → List TradeLeg → List TradeLeg
legs_of run_id = filter (λ leg. leg.run_id == run_id)

-- select(TradeLeg).where(TradeLeg.run_id == leg.run_id, TradeLeg.id != leg.id)
abbrev pub siblings : TradeLeg → List TradeLeg → List TradeLeg
siblings leg = filter (λ other. other.run_id == leg.run_id && not (other.id == leg.id))

-- result.scalar_one_or_none()
abbrev pub scalar_one_or_none {ℓ} : {A : Type ℓ} → List A → Result (Option A)
scalar_one_or_none [] = ok none
scalar_one_or_none (a ∷ []) = ok (some a)
scalar_one_or_none (a ∷ b ∷ rest) = err multiple_results

-- What a commit does with a row that was changed: the row of its id is replaced.
abbrev pub put_leg : TradeLeg → List TradeLeg → List TradeLeg
put_leg leg = map (λ other. if other.id == leg.id then leg else other)

abbrev pub put_run : TradeRun → List TradeRun → List TradeRun
put_run run = map (λ other. if other.id == run.id then run else other)

abbrev pub put_optional : Option TradeLeg → List TradeLeg → List TradeLeg
put_optional none legs = legs
put_optional (some leg) legs = put_leg leg legs
