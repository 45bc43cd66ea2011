-- ===== src/Catalog/OwnName.antt =====
-- An item's own name beats every other match (`resolve_or_hedge` of app/tools/uexcorp/matching.py).
use graphling.Prelude.{
  Text, text_eqb_eq, text_eqb_refl, is_set, strip, ℕ, ◌≡◌, refl, sym, ◌∙◌, true, false, Bool-cases,
  ◌⊎◌, inl, inr, List, [], ◌∷◌, filter, Elem, Elem-filter, filter-Elem,
}
use graphling.Catalog.Entities.{Named}
use graphling.Catalog.Fuzzy.{Scorer, Libraries}
use graphling.Catalog.Vocabulary.{Label, canonicalize}
use graphling.Catalog.Matching.{
  Message, has_name, exact_name_matches, first_or, by_fuzzy, resolve_or_hedge,
}

module _ {A : Type 0} ⦃named : Named A⦄ (libraries : Libraries) where
  has_name-casefold :
      (wanted : Text) (item : A)
      → has_name libraries wanted item ≡ true
      → libraries.casefold (named.name item) ≡ wanted
  unfolding has_name
  has_name-casefold wanted item h = elim (Bool-cases (is_set (named.name item))) [
    | inl e ↦ text_eqb_eq (libraries.casefold (named.name item)) wanted (rw e at h)
    | inr e ↦ absurd (let z : false ≡ true = rw e at h in let y : ⊥ = cc in y)
  ]

  casefold-has_name :
      (wanted : Text) (item : A)
      → is_set (named.name item) ≡ true
      → libraries.casefold (named.name item) ≡ wanted
      → has_name libraries wanted item ≡ true
  unfolding has_name
  casefold-has_name wanted item set e = rw (set, e, text_eqb_refl wanted) refl

  -- The first of a list that has the item, and nothing else.
  first_or-only :
      (xs : List A) (item : A) (next : A ⊎ Message)
      → Elem item xs
      → ((a : A) → Elem a xs → a ≡ item)
      → first_or libraries xs next ≡ inl item
  first_or-only [] item next m only = absurd m
  first_or-only (x ∷ xs) item next m only = let same : x ≡ item = only x (inl refl) in cc (same)

  -- Where what was said, less its slang and in any case, is an item's own name, and no other item of
  -- the pool has that name in any case, it resolves to that item.
  pub resolve_or_hedge-own_name :
      (items : List A) (item : A) (spoken : Text) (label : Label) (cutoff : ℕ) (scorer : Scorer)
      → Elem item items
      → is_set (named.name item) ≡ true
      → libraries.casefold (named.name item)
        ≡ libraries.casefold (strip (canonicalize libraries spoken label))
      → ((other : A)
          → Elem other items
          → libraries.casefold (named.name other) ≡ libraries.casefold (named.name item)
          → other ≡ item)
      → resolve_or_hedge libraries spoken items label cutoff scorer ≡ inl item
  unfolding resolve_or_hedge exact_name_matches
  resolve_or_hedge-own_name items item spoken label cutoff scorer m set said unique =
      let wanted : Text = libraries.casefold (strip (canonicalize libraries spoken label)) in
      first_or-only (filter (has_name libraries wanted) items) item
        (by_fuzzy libraries spoken (canonicalize libraries spoken label) label items cutoff scorer)
        (filter-Elem (has_name libraries wanted) items item m
          (casefold-has_name wanted item set said))
        λ a n.
          let (p, t) = Elem-filter (has_name libraries wanted) items a n in
          unique a p (has_name-casefold wanted a t ∙ sym said)
