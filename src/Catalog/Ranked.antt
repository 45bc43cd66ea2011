-- ===== src/Catalog/Ranked.antt =====
-- The ranking of the candidates in app/tools/uexcorp/catalog_resolution.py, and what each of them is.
use graphling.Prelude.{
  Text, ℕ, zero, suc, ◌≤◌, Bool-cases, inl, inr, List, [], ◌∷◌, ◌++◌, map, take, ltb, All, arith,
}
use graphling.Catalog.Entities.{
  UexReferenceCache, CachedCommodity, CachedItem, CachedVehicle, named_commodity, named_item,
  named_vehicle,
}
use graphling.Catalog.Fuzzy.{Libraries, wratio, token_sort_ratio}
use graphling.Catalog.Vocabulary.{ship, commodity, item}
use graphling.Catalog.Resolution.{
  Action, buy, sell, rent, Entity, a_commodity, an_item, a_vehicle, MatchedBy, PriceRow, Candidate,
  Patterns, commodity_candidates, matches, item_candidates, vehicle_candidates, candidate_of,
  insert_by_score, sorted_by_score, of_action, fetched,
}

-- What the action can be done with: ships are not sold, and only ships are rented.
abbrev pub Allowed : Action → Entity → Type 0
Allowed sell (a_vehicle v) = ⊥
Allowed rent (a_commodity c) = ⊥
Allowed rent (an_item i) = ⊥
Allowed _ _ = Unit

-- No candidate scores higher than one before it.
abbrev pub Descending : List Candidate → Type 0
Descending [] = Unit
Descending (c ∷ cs) = All (λ d. d.score ≤ c.score) cs × Descending cs

module _ (libraries : Libraries) (patterns : Patterns) (action : Action) where
  insert-All :
      (P : Candidate → Type 0) (c : Candidate) (cs : List Candidate)
      → P c
      → All P cs
      → All P (insert_by_score libraries patterns c cs)
  unfolding insert_by_score
  insert-All P c [] h p = (h, tt)
  insert-All P c (d ∷ cs) h (k, p) = elim (Bool-cases (ltb c.score d.score)) [
    | inl e ↦ rw e (k, insert-All P c cs h p)
    | inr e ↦ rw e (h, (k, p))
  ]

  pub sorted-All :
      (P : Candidate → Type 0) (cs : List Candidate)
      → All P cs
      → All P (sorted_by_score libraries patterns cs)
  unfolding sorted_by_score
  sorted-All P [] p = tt
  sorted-All P (c ∷ cs) (h, p) =
      insert-All P c (sorted_by_score libraries patterns cs) h (sorted-All P cs p)

  lower :
      (n : ℕ) (d : Candidate) (cs : List Candidate)
      → d.score ≤ n
      → All (λ e. e.score ≤ d.score) cs
      → All (λ e. e.score ≤ n) cs
  lower n d [] h p = tt
  lower n d (c ∷ cs) h (k, p) = (omega (arith, h, k), lower n d cs h p)

  insert-Descending :
      (c : Candidate) (cs : List Candidate)
      → Descending cs
      → Descending (insert_by_score libraries patterns c cs)
  unfolding insert_by_score
  insert-Descending c [] h = (tt, tt)
  insert-Descending c (d ∷ cs) (h, hs) = elim (Bool-cases (ltb c.score d.score)) [
    | inl e ↦
        rw e (
          insert-All (λ x. x.score ≤ d.score) c cs (ground (arith, e)) h,
          insert-Descending c cs hs,
        )
    | inr e ↦
        let le : d.score ≤ c.score = ground (arith, e) in
        rw e ((le, lower c.score d cs le h), (h, hs))
  ]

  pub sorted-Descending : (cs : List Candidate) → Descending (sorted_by_score libraries patterns cs)
  unfolding sorted_by_score
  sorted-Descending [] = tt
  sorted-Descending (c ∷ cs) =
      insert-Descending c (sorted_by_score libraries patterns cs) (sorted-Descending cs)

  -- What the checked candidates are, whatever is fetched for them.
  module _ (fetch_rows : Entity → List PriceRow) where
    pub checked-All :
        (P : Candidate → Type 0)
        → ((c : Candidate) → P c → P (fetched libraries patterns fetch_rows c))
        → (n : ℕ) (cs : List Candidate) → All P cs
        → All P (map (fetched libraries patterns fetch_rows) (take n cs))
    checked-All P keep zero cs p = tt
    checked-All P keep (suc n) [] p = tt
    checked-All P keep (suc n) (c ∷ cs) (h, p) = (keep c h, checked-All P keep n cs p)

    pub checked-Descending :
        (n : ℕ) (cs : List Candidate)
        → Descending cs
        → Descending (map (fetched libraries patterns fetch_rows) (take n cs))
    checked-Descending zero cs h = tt
    checked-Descending (suc n) [] h = tt
    checked-Descending (suc n) (c ∷ cs) (h, hs) =
        (checked-All (λ d. d.score ≤ c.score) (λ d k. k) n cs h, checked-Descending n cs hs)

join-All : {A : Type 0} (P : A → Type 0) (xs ys : List A) → All P xs → All P ys → All P (xs ++ ys)
join-All P [] ys h k = k
join-All P (x ∷ xs) ys (h, hs) k = (h, join-All P xs ys hs k)

-- Candidates of one kind are all allowed, where the kind is.
candidate_of-Allowed :
    {A : Type 0} (libraries : Libraries) (patterns : Patterns) (action : Action) (kind : A → Entity)
    → ((entity : A) → Allowed action (kind entity))
    → (found : List (A × ℕ × MatchedBy))
    → All
        (λ (c : Candidate). Allowed action c.entity)
        (map (candidate_of libraries patterns kind) found)
candidate_of-Allowed libraries patterns action kind h [] = tt
candidate_of-Allowed libraries patterns action kind h ((entity, score, matched_by) ∷ found) =
    (h entity, candidate_of-Allowed libraries patterns action kind h found)

module _ (libraries : Libraries) (patterns : Patterns) (query : Text) (cache : UexReferenceCache)
    (action : Action) where
  commodity_candidates-Allowed :
      ((c : CachedCommodity) → Allowed action (a_commodity c))
      → All
          (λ (c : Candidate). Allowed action c.entity)
          (commodity_candidates libraries patterns query cache)
  unfolding commodity_candidates
  commodity_candidates-Allowed h =
      candidate_of-Allowed libraries patterns action a_commodity h
        (matches libraries patterns query cache.commodities commodity wratio)

  item_candidates-Allowed :
      ((i : CachedItem) → Allowed action (an_item i))
      → All
          (λ (c : Candidate). Allowed action c.entity)
          (item_candidates libraries patterns query cache)
  unfolding item_candidates
  item_candidates-Allowed h =
      candidate_of-Allowed libraries patterns action an_item h
        (matches libraries patterns query cache.items item wratio)

  vehicle_candidates-Allowed :
      ((v : CachedVehicle) → Allowed action (a_vehicle v))
      → All
          (λ (c : Candidate). Allowed action c.entity)
          (vehicle_candidates libraries patterns query cache)
  unfolding vehicle_candidates
  vehicle_candidates-Allowed h =
      candidate_of-Allowed libraries patterns action a_vehicle h
        (matches libraries patterns query cache.vehicles ship token_sort_ratio)

-- Only candidates of a kind that the action allows are ranked.
pub of_action-Allowed :
    (libraries : Libraries) (patterns : Patterns) (query : Text) (action : Action)
    (cache : UexReferenceCache)
    → All
        (λ (c : Candidate). Allowed action c.entity)
        (of_action libraries patterns query action cache)
unfolding of_action
of_action-Allowed libraries patterns query buy cache =
    join-All (λ (c : Candidate). Unit)
      (commodity_candidates libraries patterns query cache
        ++ item_candidates libraries patterns query cache)
      (vehicle_candidates libraries patterns query cache)
      (join-All (λ (c : Candidate). Unit) (commodity_candidates libraries patterns query cache)
        (item_candidates libraries patterns query cache)
        (commodity_candidates-Allowed libraries patterns query cache buy λ c. tt)
        (item_candidates-Allowed libraries patterns query cache buy λ c. tt))
      (vehicle_candidates-Allowed libraries patterns query cache buy λ c. tt)
of_action-Allowed libraries patterns query sell cache =
    join-All (λ (c : Candidate). Allowed sell c.entity)
      (commodity_candidates libraries patterns query cache)
      (item_candidates libraries patterns query cache)
      (commodity_candidates-Allowed libraries patterns query cache sell λ c. tt)
      (item_candidates-Allowed libraries patterns query cache sell λ c. tt)
of_action-Allowed libraries patterns query rent cache =
    vehicle_candidates-Allowed libraries patterns query cache rent λ c. tt
