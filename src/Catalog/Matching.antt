-- ===== src/Catalog/Matching.antt =====
-- `resolve_or_hedge` of app/tools/uexcorp/matching.py and the layers below it.
use mathlib.Core.Option
use graphling.Prelude.{
  Text, text_eqb, text_in, is_set, is_space, strip, ℕ, ◌-◌, Bool, true, false, ◌&&◌, ◌||◌, Option,
  none, some, ◌⊎◌, inl, inr, List, [], ◌∷◌, ◌++◌, map, filter, length, take, ltb, leb, ◌==◌,
  if◌then◌else◌,
}
use graphling.Catalog.Entities.{Named}
use graphling.Catalog.Fuzzy.{Scorer, Libraries, points, at_index}
use graphling.Catalog.Vocabulary.{Label, heard_as, canonicalize}

-- LOW_CONFIDENCE_MAX, PHONETIC_MIN, MAX_LISTED_CANDIDATES and the default score_cutoff
abbrev pub low_confidence_max : ℕ
low_confidence_max = 80

abbrev pub phonetic_min : ℕ
phonetic_min = 85

abbrev pub max_listed_candidates : ℕ
max_listed_candidates = 5

abbrev pub default_cutoff : ℕ
default_cutoff = 60

-- The messages, by what they say: the candidates that are listed, and how many more there are.
pub data Message : Type 0 where
  not_found : Label → (spoken : Text) → Message
  which_one : Label → (spoken : Text) → (listed : List Text) → (more : ℕ) → Message
  not_clear : Label → (spoken : Text) → Message

-- text.split(), with the word that is being read in front
unfoldable split_from : Text → List Text
split_from [] = [] ∷ []
split_from (c ∷ cs) = elim (split_from cs) [
  | [] ↦ []
  | word ∷ words ↦ if is_space c then [] ∷ word ∷ words else (c ∷ word) ∷ words
]

unfoldable pub split : Text → List Text
unfolding split_from
split text = filter is_set (split_from text)

-- " ".join(parts)
unfoldable pub join_spaces : List Text → Text
join_spaces [] = []
join_spaces (part ∷ []) = part
join_spaces (part ∷ next ∷ parts) = part ++ (b' ' ∷ join_spaces (next ∷ parts))

-- set(default_process(text).split()), as a list
unfoldable pub words : Libraries → Text → List Text
unfolding split
words libraries text = split (libraries.default_process text)

-- wanted <= words
abbrev pub contained_in : List Text → List Text → Bool
contained_in [] texts = true
contained_in (w ∷ wanted) texts = text_in w texts && contained_in wanted texts

unfoldable pub phonetic_key : Libraries → Text → Text
unfolding split join_spaces
phonetic_key libraries text = join_spaces (map libraries.metaphone (split text))

module _ {A : Type 0} ⦃named : Named A⦄ where
  -- The choice of a field, where the item has one.
  abbrev choice : Text → A → List (Text × A)
  choice text item = if is_set text then (text, item) ∷ [] else []

  -- _choices_and_lookup, as one list of pairs
  unfoldable pub choices_and_lookup : List A → List (Text × A)
  choices_and_lookup [] = []
  choices_and_lookup (item ∷ items) =
      (named.name item, item)
      ∷ (choice (named.code item) item
          ++ (choice (named.name_full item) item
              ++ (choice (named.nickname item) item ++ choices_and_lookup items)))

  abbrev pub choices : List (Text × A) → List Text
  choices = map (λ c. c.0)

  abbrev pub item_at : List (Text × A) → ℕ → Option A
  item_at lookup index = Option.map (λ c. c.1) (at_index lookup index)

  -- `item in items`
  abbrev pub item_in : A → List A → Bool
  item_in item [] = false
  item_in item (other ∷ items) = named.same other item || item_in item items

  -- The loop of `_top_matches`: `winners` are the items so far, and `best` their score.
  unfoldable pub add_winner : Option A → List A → List A
  add_winner none winners = winners
  add_winner (some item) winners =
      if item_in item winners
      then winners
      else if text_in (named.name item) (map named.name winners)
      then winners
      else winners ++ item ∷ []

  unfoldable pub tied : List (Text × A) → ℕ → List (ℕ × ℕ) → List A → List A
  unfolding add_winner
  tied lookup best [] winners = winners
  tied lookup best ((score, index) ∷ results) winners =
      let rest = tied lookup best results (add_winner (item_at lookup index) winners) in
      if ltb score best then winners else rest

  abbrev pub best_of_results : List (Text × A) → List (ℕ × ℕ) → List A × ℕ
  best_of_results lookup [] = ([], 0)
  best_of_results lookup ((score, index) ∷ results) =
      (tied lookup score ((score, index) ∷ results) [], score)

  unfoldable pub add_contained : A → List A → List A
  add_contained item hits = if item_in item hits then hits else hits ++ item ∷ []

  -- The loop of `_contained_matches`.
  unfoldable pub containing : Libraries → List Text → List (Text × A) → List A → List A
  unfolding words add_contained
  containing libraries wanted [] hits = hits
  containing libraries wanted ((text, item) ∷ lookup) hits =
      containing libraries wanted lookup
        (if contained_in wanted (words libraries text) then add_contained item hits else hits)

  unfoldable pub candidates_message : Text → Label → List A → Message
  candidates_message spoken label candidates =
      which_one label spoken (map named.name (take max_listed_candidates candidates))
        (length candidates - max_listed_candidates)

  -- The loop of `_phonetic_match`: the best score, and the items that have it.
  unfoldable pub sounding : Libraries → Text → List (Text × A) → ℕ → List A → List A
  unfolding phonetic_key
  sounding libraries key [] best winners = winners
  sounding libraries key ((text, item) ∷ lookup) best winners =
      let score = libraries.token_sort key (phonetic_key libraries text) in
      let skipped = sounding libraries key lookup best winners in
      let better = sounding libraries key lookup score (item ∷ []) in
      let equal =
        sounding libraries key lookup best
          (if item_in item winners then winners else winners ++ item ∷ []) in
      if ltb score (points libraries phonetic_min)
      then skipped
      else if ltb best score
      then better
      else if score == best
      then equal
      else skipped

  abbrev pub only_one : List A → Option A
  only_one [] = none
  only_one (a ∷ []) = some a
  only_one (a ∷ b ∷ items) = none

  module _ (libraries : Libraries) where
    unfoldable pub match_by_name_or_code : Text → List A → ℕ → Scorer → Option A
    unfolding choices_and_lookup
    match_by_name_or_code query items cutoff scorer =
        let lookup = choices_and_lookup items in
        elim (libraries.extract_one scorer query (choices lookup) (points libraries cutoff)) [
          | none ↦ none
          | some result ↦ item_at lookup (result.1)
        ]

    abbrev with_score : List (Text × A) → Option (ℕ × ℕ) → Option (A × ℕ)
    with_score lookup none = none
    with_score lookup (some (score, index)) =
        Option.map (λ item. (item, score)) (item_at lookup index)

    unfoldable pub match_by_name_or_code_with_score : Text → List A → ℕ → Scorer → Option (A × ℕ)
    unfolding choices_and_lookup
    match_by_name_or_code_with_score query items cutoff scorer =
        let lookup = choices_and_lookup items in
        with_score lookup
          (libraries.extract_one scorer query (choices lookup) (points libraries cutoff))

    unfoldable pub top_matches : Text → List A → ℕ → Scorer → List A × ℕ
    unfolding choices_and_lookup tied
    top_matches query items cutoff scorer =
        let lookup = choices_and_lookup items in
        best_of_results lookup
          (libraries.extract scorer query (choices lookup) (points libraries cutoff))

    -- item.name and item.name.casefold() == wanted
    unfoldable pub has_name : Text → A → Bool
    has_name wanted item =
        is_set (named.name item) && text_eqb (libraries.casefold (named.name item)) wanted

    unfoldable pub exact_name_matches : Text → List A → List A
    unfolding has_name
    exact_name_matches query items = filter (has_name (libraries.casefold (strip query))) items

    abbrev pub contained_by : List Text → List A → List A
    contained_by [] items = []
    contained_by (w ∷ wanted) items =
        containing libraries (w ∷ wanted) (choices_and_lookup items) []

    unfoldable pub contained_matches : Text → List A → List A
    unfolding words choices_and_lookup containing
    contained_matches query items = contained_by (words libraries query) items

    unfoldable pub phonetic_match : Text → List A → Option A
    unfolding phonetic_key choices_and_lookup sounding
    phonetic_match query items =
        let key = phonetic_key libraries query in
        let winners = sounding libraries key (choices_and_lookup items) 0 [] in
        if is_set (strip key) then only_one winners else none

    -- The end of `resolve_or_hedge`, where no layer has settled it.
    unfoldable pub hedge : Text → Label → List A → Message
    unfolding candidates_message
    hedge spoken label [] = not_found label spoken
    hedge spoken label (a ∷ []) = not_clear label spoken
    hedge spoken label (a ∷ b ∷ winners) = candidates_message spoken label (a ∷ b ∷ winners)

    -- Layer 5: what it sounds like.
    unfoldable pub by_sound : Text → Text → Label → List A → List A → A ⊎ Message
    unfolding phonetic_match hedge
    by_sound spoken query label items winners = elim (phonetic_match query items) [
      | some item ↦ inl item
      | none ↦ inr (hedge spoken label winners)
    ]

    -- targets[0], where there is one
    abbrev pub first_or : List A → A ⊎ Message → A ⊎ Message
    first_or [] next = next
    first_or (a ∷ items) next = inl a

    -- Layer 4: a known mishearing.
    unfoldable pub by_mishearing : Text → Text → Label → List A → List A → A ⊎ Message
    unfolding heard_as exact_name_matches by_sound
    by_mishearing spoken query label items winners =
        let next = by_sound spoken query label items winners in
        elim (heard_as libraries spoken label) [
          | none ↦ next
          | some misheard ↦ first_or (exact_name_matches misheard items) next
        ]

    -- Layer 3: the items that contain every word.
    abbrev pub by_containing : Text → Label → List A → A ⊎ Message → A ⊎ Message
    by_containing spoken label [] next = next
    by_containing spoken label (a ∷ []) next = inl a
    by_containing spoken label (a ∷ b ∷ contained) next =
        inr (candidates_message spoken label (a ∷ b ∷ contained))

    unfoldable pub by_words : Text → Text → Label → List A → List A → A ⊎ Message
    unfolding contained_matches candidates_message by_mishearing
    by_words spoken query label items winners =
        by_containing spoken label (contained_matches query items)
          (by_mishearing spoken query label items winners)

    -- Layer 2: a single best candidate with a sure score.
    abbrev pub by_score : List A × ℕ → A ⊎ Message → A ⊎ Message
    by_score (a ∷ [], score) next =
        if leb (points libraries low_confidence_max) score then inl a else next
    by_score (winners, score) next = next

    unfoldable pub by_fuzzy : Text → Text → Label → List A → ℕ → Scorer → A ⊎ Message
    unfolding top_matches by_words
    by_fuzzy spoken query label items cutoff scorer =
        let top = top_matches query items cutoff scorer in
        by_score top (by_words spoken query label items (top.0))

    unfoldable pub resolve_or_hedge : Text → List A → Label → ℕ → Scorer → A ⊎ Message
    unfolding canonicalize exact_name_matches by_fuzzy
    resolve_or_hedge spoken items label cutoff scorer =
        let query = canonicalize libraries spoken label in
        first_or (exact_name_matches query items) (by_fuzzy spoken query label items cutoff scorer)
