-- ===== src/Catalog/Resolution.antt =====
-- app/tools/uexcorp/catalog_resolution.py: which commodity, item or ship the pilot means. The price
-- rows that a candidate's fetch gives, and the two patterns on its name, are arguments.
use graphling.Prelude.{
  Text, ℕ, ◌+◌, ◌-◌, Bool, true, false, not, ◌&&◌, Option, none, some, List, [], ◌∷◌, ◌++◌, map,
  filter, any, length, take, ltb, leb, ◌==◌, if◌then◌else◌,
}
use graphling.Catalog.Entities.{
  CachedCommodity, CachedItem, CachedVehicle, UexReferenceCache, Named, named_commodity, named_item,
  named_vehicle,
}
use graphling.Catalog.Fuzzy.{Libraries, Scorer, wratio, token_sort_ratio, points}
use graphling.Catalog.Vocabulary.{Label, ship, commodity, item, canonicalize}
use graphling.Catalog.Matching.{
  exact_name_matches, contained_matches, top_matches, low_confidence_max,
}

pub data Action : Type 0 where
  buy sell rent : Action

-- A commodity, an item or a ship of the catalog.
pub data Entity : Type 0 where
  a_commodity : CachedCommodity → Entity
  an_item : CachedItem → Entity
  a_vehicle : CachedVehicle → Entity

-- EXACT, CONTAINED and FUZZY
pub data MatchedBy : Type 0 where
  exact contained fuzzy : MatchedBy

-- A row of prices; a price that is missing is 0.
pub record PriceRow : Type 0 where
  pub price_buy : ℕ
  pub price_sell : ℕ
  pub price_rent : ℕ

pub record Candidate : Type 0 where
  pub entity : Entity
  pub score : ℕ
  pub matched_by : MatchedBy
  pub rows : List PriceRow

abbrev pub variant_penalty : ℕ
variant_penalty = 20

abbrev pub accessory_penalty : ℕ
accessory_penalty = 15

abbrev pub confident_margin : ℕ
confident_margin = 10

abbrev pub max_options : ℕ
max_options = 3

abbrev pub max_checked : ℕ
max_checked = 4

abbrev pub min_score : ℕ
min_score = 60

abbrev pub contained_score : ℕ
contained_score = 90

abbrev pub close_margin : ℕ
close_margin = 25

abbrev pub entity_name : Entity → Text
entity_name (a_commodity c) = c.name
entity_name (an_item i) = i.name
entity_name (a_vehicle v) = v.name

-- What a candidate is called aloud: a ship, or the name alone.
pub data Spoken : Type 0 where
  the_ship : Text → Spoken
  plainly : Text → Spoken

abbrev pub spoken_kind : Entity → Spoken
spoken_kind (a_commodity c) = plainly c.name
spoken_kind (an_item i) = plainly i.name
spoken_kind (a_vehicle v) = the_ship v.name

pub data Aside : Type 0 where
  the_rest_unavailable : Spoken → Action → Aside
  not_a_variant : Spoken → Aside
  close_call : Text → Text → Aside

pub data Resolution : Type 0 where
  nothing_called : Text → Action → Resolution
  nothing_matching : Text → Action → Resolution
  no_terminal : Action → Spoken → Resolution
  not_clear : Text → Resolution
  which_one : Text → List Spoken → Resolution
  chosen :
      Candidate → (understood_as : Option Spoken) → (judgement_call : Option Aside) → Resolution

unfoldable pub offers : Action → PriceRow → Bool
offers rent row = not (row.price_rent == 0)
offers sell row = not (row.price_sell == 0)
offers buy row = not (row.price_buy == 0)

abbrev pub is_sure : MatchedBy → Bool
is_sure exact = true
is_sure contained = true
is_sure fuzzy = false

abbrev pub is_exact : MatchedBy → Bool
is_exact exact = true
is_exact _ = false

-- The regular expressions: a livery, a paint, a skin or a named edition, and an accessory.
pub record Patterns : Type 0 where
  pub is_variant : Text → Bool
  pub is_accessory : Text → Bool

module _ (libraries : Libraries) (patterns : Patterns) where
  unfoldable pub penalty : Entity → ℕ
  penalty (an_item i) =
      if patterns.is_variant i.name
      then points libraries variant_penalty
      else if patterns.is_accessory i.name
      then points libraries accessory_penalty
      else 0
  penalty _ = 0

  module _ {A : Type 0} ⦃named : Named A⦄ where
    -- `id(entity) in found`: the entities are those of one pool, told apart by their fields.
    abbrev is_found : A → List (A × ℕ × MatchedBy) → Bool
    is_found entity = any (λ f. named.same (f.0) entity)

    abbrev with_fuzzy : List A → ℕ → List (A × ℕ × MatchedBy) → List (A × ℕ × MatchedBy)
    with_fuzzy [] score found = found
    with_fuzzy (entity ∷ winners) score found =
        with_fuzzy winners score
          (if is_found entity found then found else found ++ (entity, score, fuzzy) ∷ [])

    abbrev exact_or : List A → List (A × ℕ × MatchedBy) → List (A × ℕ × MatchedBy)
    exact_or [] next = next
    exact_or (entity ∷ entities) next = (entity, points libraries 100, exact) ∷ []

    unfoldable pub matches : Text → List A → Label → Scorer → List (A × ℕ × MatchedBy)
    unfolding canonicalize exact_name_matches contained_matches top_matches
    matches spoken pool label scorer =
        let query = canonicalize libraries spoken label in
        let words =
          map (λ entity. (entity, points libraries contained_score, contained))
            (contained_matches libraries query pool) in
        let top = top_matches libraries query pool min_score scorer in
        exact_or (exact_name_matches libraries query pool) (with_fuzzy (top.0) (top.1) words)

  abbrev pub candidate_of {ℓ} : {A : Type ℓ} → (A → Entity) → A × ℕ × MatchedBy → Candidate
  candidate_of kind (entity, score, matched_by) = record {
    entity = kind entity;
    score = score - penalty (kind entity);
    matched_by = matched_by;
    rows = [];
  }

  unfoldable pub commodity_candidates : Text → UexReferenceCache → List Candidate
  unfolding matches penalty
  commodity_candidates query cache =
      map (candidate_of a_commodity) (matches query cache.commodities commodity wratio)

  unfoldable pub item_candidates : Text → UexReferenceCache → List Candidate
  unfolding matches penalty
  item_candidates query cache = map (candidate_of an_item) (matches query cache.items item wratio)

  unfoldable pub vehicle_candidates : Text → UexReferenceCache → List Candidate
  unfolding matches penalty
  vehicle_candidates query cache =
      map (candidate_of a_vehicle) (matches query cache.vehicles ship token_sort_ratio)

  -- candidates.sort(key=score, reverse=True), which is stable
  unfoldable pub insert_by_score : Candidate → List Candidate → List Candidate
  insert_by_score c [] = c ∷ []
  insert_by_score c (d ∷ candidates) =
      if ltb c.score d.score then d ∷ insert_by_score c candidates else c ∷ d ∷ candidates

  unfoldable pub sorted_by_score : List Candidate → List Candidate
  unfolding insert_by_score
  sorted_by_score [] = []
  sorted_by_score (c ∷ candidates) = insert_by_score c (sorted_by_score candidates)

  -- The kinds that the action allows.
  unfoldable pub of_action : Text → Action → UexReferenceCache → List Candidate
  unfolding commodity_candidates item_candidates vehicle_candidates
  of_action query buy cache =
      commodity_candidates query cache
      ++ item_candidates query cache
      ++ vehicle_candidates query cache
  of_action query sell cache = commodity_candidates query cache ++ item_candidates query cache
  of_action query rent cache = vehicle_candidates query cache

  unfoldable pub candidates : Text → Action → UexReferenceCache → List Candidate
  unfolding of_action sorted_by_score
  candidates query action cache = sorted_by_score (of_action query action cache)

  unfoldable pub is_available : Action → Candidate → Bool
  unfolding offers
  is_available action candidate = any (offers action) candidate.rows

  abbrev pub leads : Candidate → Option Candidate → ℕ → Bool
  leads top none margin = true
  leads top (some other) margin = leb (points libraries margin + other.score) top.score

  -- `rivals` are the sure matches among the checked candidates but the top one.
  unfoldable pub judgement_call :
      Action → Candidate → Option Candidate → (rivals : List Candidate) → Option Aside
  unfolding is_available penalty
  judgement_call action top runner_up rivals =
      let close : Bool = not (leads top runner_up close_margin) in
      let picked : Spoken = spoken_kind top.entity in
      let varies : Bool =
        penalty top.entity == 0 && any (λ c. not (penalty c.entity == 0)) rivals in
      let close_aside : Option Aside = elim runner_up [
        | none ↦ none
        | some other ↦
            if close
            then some (close_call (entity_name top.entity) (entity_name other.entity))
            else none
      ] in
      let unavailable : Bool = any (λ c. true) rivals && not (any (is_available action) rivals) in
      if is_exact top.matched_by
      then none
      else if unavailable
      then some (the_rest_unavailable picked action)
      else if varies
      then some (not_a_variant picked)
      else close_aside

  abbrev second : List Candidate → Option Candidate
  second [] = none
  second (c ∷ cs) = some c

  -- The answer where the top candidate, and those after it, are available.
  unfoldable pub pick :
      Text
      → Action
      → (checked : List Candidate) → (rivals : List Candidate) → Candidate
      → List Candidate
      → Resolution
  unfolding judgement_call
  pick query action checked rivals top [] =
      if ltb top.score (points libraries low_confidence_max)
      then not_clear query
      else chosen top (if ltb 1 (length checked) then some (spoken_kind top.entity) else none)
          (judgement_call action top none rivals)
  pick query action checked rivals top (next ∷ others) =
      if leads top (some next) confident_margin
      then chosen top (if ltb 1 (length checked) then some (spoken_kind top.entity) else none)
          (judgement_call action top (some next) rivals)
      else which_one query
          (map (λ (c : Candidate). spoken_kind c.entity) (take max_options (top ∷ next ∷ others)))

  -- The candidates before the first available one, that one, and those after it.
  unfoldable pub first_available :
      Action → List Candidate → Option (List Candidate × Candidate × List Candidate)
  unfolding is_available
  first_available action [] = none
  first_available action (c ∷ checked) =
      let later : Option (List Candidate × Candidate × List Candidate) =
        elim (first_available action checked) [
          | none ↦ none
          | some (before, top, after) ↦ some (c ∷ before, top, after)
        ] in
      if is_available action c then some ([], c, checked) else later

  abbrev pub is_sure_candidate : Candidate → Bool
  is_sure_candidate c = is_sure c.matched_by

  unfoldable pub settle : Text → Action → Candidate → List Candidate → Resolution
  unfolding first_available pick
  settle query action best_named checked = elim (first_available action checked) [
    | none ↦
        if is_sure_candidate best_named
        then no_terminal action (spoken_kind best_named.entity)
        else nothing_matching query action
    | some (before, top, after) ↦
        if not (is_available action best_named)
          && is_sure_candidate best_named
          && leads best_named (some top) confident_margin
        then no_terminal action (spoken_kind best_named.entity)
        else pick query action checked (filter is_sure_candidate (before ++ after)) top
            (filter (is_available action) after)
  ]

  -- candidate.rows = await fetch_rows(candidate)
  abbrev pub fetched : (Entity → List PriceRow) → Candidate → Candidate
  fetched fetch_rows c = record c { rows = fetch_rows c.entity }

  abbrev pub resolve_checked : Text → Action → List Candidate → Resolution
  resolve_checked query action [] = nothing_called query action
  resolve_checked query action (c ∷ checked) = settle query action c (c ∷ checked)

  unfoldable pub resolve : Text → Action → UexReferenceCache → (Entity → List PriceRow) → Resolution
  unfolding candidates settle
  resolve query action cache fetch_rows =
      resolve_checked query action
        (map (fetched fetch_rows) (take max_checked (candidates query action cache)))
