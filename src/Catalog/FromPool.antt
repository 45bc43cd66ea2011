-- ===== src/Catalog/FromPool.antt =====
-- What `resolve_or_hedge` may answer (app/tools/uexcorp/matching.py): an item of the pool, or a message
-- that names items of the pool.
use graphling.Prelude.{
  Text, is_set, strip, ℕ, refl, Bool-cases, Option, none, some, ◌⊎◌, inl, inr, List, [], ◌∷◌, leb,
  Elem, Elem-filter, All-Elem,
}
use graphling.Catalog.Entities.{Named}
use graphling.Catalog.Fuzzy.{Scorer, Libraries, points}
use graphling.Catalog.Vocabulary.{Label, heard_as, canonicalize}
use graphling.Catalog.Matching.{
  Message, low_confidence_max, choices, first_or, by_containing, by_score, best_of_results,
  contained_by, choices_and_lookup, words, phonetic_key, only_one, top_matches, has_name,
  exact_name_matches, contained_matches, phonetic_match, hedge, by_sound, by_mishearing, by_words,
  by_fuzzy, resolve_or_hedge,
}
use graphling.Catalog.Pooled.{
  Pooled, pool-PooledChoices, PooledOption, tied-Pooled, containing-Pooled, sounding-Pooled,
  FromPool, message-FromPool,
}

module _ {A : Type 0} ⦃named : Named A⦄ (items : List A) where
  module _ (libraries : Libraries) (spoken query : Text) (label : Label) where
    hedge-FromPool :
        (winners : List A)
        → Pooled items winners
        → FromPool items spoken label (inr (hedge libraries spoken label winners))
    unfolding hedge
    hedge-FromPool [] p = (refl, refl)
    hedge-FromPool (a ∷ []) p = (refl, refl)
    hedge-FromPool (a ∷ b ∷ winners) p = message-FromPool items spoken label a b winners p

    only_one-Pooled : (xs : List A) → Pooled items xs → PooledOption items (only_one xs)
    only_one-Pooled [] p = tt
    only_one-Pooled (a ∷ []) p = p.0
    only_one-Pooled (a ∷ b ∷ xs) p = tt

    phonetic_match-Pooled : PooledOption items (phonetic_match libraries query items)
    unfolding phonetic_match
    phonetic_match-Pooled = elim (Bool-cases (is_set (strip (phonetic_key libraries query)))) [
      | inr e ↦ rw e tt
      | inl e ↦ rw e (
          only_one-Pooled _ (
            sounding-Pooled items libraries (phonetic_key libraries query)
              (choices_and_lookup items) 0 [] (pool-PooledChoices items) tt))
    ]

    by_sound-FromPool :
        (winners : List A)
        → Pooled items winners
        → FromPool items spoken label (by_sound libraries spoken query label items winners)
    unfolding by_sound
    by_sound-FromPool winners p = go (phonetic_match libraries query items) phonetic_match-Pooled
      where
        go :
            (o : Option A)
            → PooledOption items o
            → FromPool items spoken label (elim o [
              | some item ↦ inl item
              | none ↦ inr (hedge libraries spoken label winners)
            ])
        go none m = hedge-FromPool winners p
        go (some item) m = m

    exact-Pooled : (name : Text) → Pooled items (exact_name_matches libraries name items)
    unfolding exact_name_matches
    exact-Pooled name =
        All-Elem (λ a. Elem a items) _
          λ a m. (Elem-filter (has_name libraries (libraries.casefold (strip name))) items a m).0

    first_or-FromPool :
        (xs : List A) (next : A ⊎ Message)
        → Pooled items xs
        → FromPool items spoken label next
        → FromPool items spoken label (first_or libraries xs next)
    first_or-FromPool [] next p n = n
    first_or-FromPool (a ∷ xs) next p n = p.0

    by_mishearing-FromPool :
        (winners : List A)
        → Pooled items winners
        → FromPool items spoken label (by_mishearing libraries spoken query label items winners)
    unfolding by_mishearing
    by_mishearing-FromPool winners p = go (heard_as libraries spoken label)
      where
        next : A ⊎ Message
        next = by_sound libraries spoken query label items winners

        go :
            (o : Option Text)
            → FromPool items spoken label (elim o [
              | none ↦ next
              | some misheard ↦
                  first_or libraries (exact_name_matches libraries misheard items) next
            ])
        go none = by_sound-FromPool winners p
        go (some misheard) =
            first_or-FromPool (exact_name_matches libraries misheard items) next
              (exact-Pooled misheard) (by_sound-FromPool winners p)

    contained_matches-Pooled : Pooled items (contained_matches libraries query items)
    unfolding contained_matches
    contained_matches-Pooled = go (words libraries query)
      where
        go : (wanted : List Text) → Pooled items (contained_by libraries wanted items)
        go [] = tt
        go (w ∷ wanted) =
            containing-Pooled items libraries (w ∷ wanted) (choices_and_lookup items) []
              (pool-PooledChoices items) tt

    by_containing-FromPool :
        (xs : List A) (next : A ⊎ Message)
        → Pooled items xs
        → FromPool items spoken label next
        → FromPool items spoken label (by_containing libraries spoken label xs next)
    by_containing-FromPool [] next p n = n
    by_containing-FromPool (a ∷ []) next p n = p.0
    by_containing-FromPool (a ∷ b ∷ xs) next p n = message-FromPool items spoken label a b xs p

    by_words-FromPool :
        (winners : List A)
        → Pooled items winners
        → FromPool items spoken label (by_words libraries spoken query label items winners)
    unfolding by_words
    by_words-FromPool winners p =
        by_containing-FromPool (contained_matches libraries query items) _ contained_matches-Pooled
          (by_mishearing-FromPool winners p)

    top_matches-Pooled :
        (cutoff : ℕ) (scorer : Scorer)
        → Pooled items (top_matches libraries query items cutoff scorer).0
    unfolding top_matches
    top_matches-Pooled cutoff scorer = go (
        libraries.extract scorer query (choices (choices_and_lookup items))
          (points libraries cutoff))
      where
        go :
            (results : List (ℕ × ℕ))
            → Pooled items (best_of_results (choices_and_lookup items) results).0
        go [] = tt
        go ((score, index) ∷ results) =
            tied-Pooled items (choices_and_lookup items) score ((score, index) ∷ results) []
              (pool-PooledChoices items) tt

    by_score-FromPool :
        (winners : List A) (score : ℕ) (next : A ⊎ Message)
        → Pooled items winners
        → FromPool items spoken label next
        → FromPool items spoken label (by_score libraries (winners, score) next)
    by_score-FromPool [] score next p n = n
    by_score-FromPool (a ∷ b ∷ winners) score next p n = n
    by_score-FromPool (a ∷ []) score next (m, p) n =
        elim (Bool-cases (leb (points libraries low_confidence_max) score)) [
          | inl e ↦ rw e m
          | inr e ↦ rw e n
        ]

    by_fuzzy-FromPool :
        (cutoff : ℕ) (scorer : Scorer)
        → FromPool items spoken label (by_fuzzy libraries spoken query label items cutoff scorer)
    unfolding by_fuzzy
    by_fuzzy-FromPool cutoff scorer =
        by_score-FromPool _ _ _ (top_matches-Pooled cutoff scorer)
          (by_words-FromPool _ (top_matches-Pooled cutoff scorer))

  -- Whatever the libraries answer, a name is resolved to an item of the pool or to a message of the
  -- label and of the words as they were spoken; a message that lists candidates lists two to five, each
  -- the name of an item of the pool.
  pub resolve_or_hedge-FromPool :
      (libraries : Libraries) (spoken : Text) (label : Label) (cutoff : ℕ) (scorer : Scorer)
      → FromPool items spoken label (resolve_or_hedge libraries spoken items label cutoff scorer)
  unfolding resolve_or_hedge
  resolve_or_hedge-FromPool libraries spoken label cutoff scorer =
      let query = canonicalize libraries spoken label in
      first_or-FromPool libraries spoken query label (exact_name_matches libraries query items) _
        (exact-Pooled libraries spoken query label query)
        (by_fuzzy-FromPool libraries spoken query label cutoff scorer)
