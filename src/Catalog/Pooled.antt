-- ===== src/Catalog/Pooled.antt =====
-- The items of a pool and the lists that the matching makes of them (app/tools/uexcorp/matching.py).
use graphling.Prelude.{
  Text, text_in, is_set, ℕ, zero, suc, ◌≤◌, ◌≡◌, refl, subst, Bool-cases, Option, none, some,
  Option-cases, ◌⊎◌, inl, inr, List, [], ◌∷◌, ◌++◌, map, length, take, ltb, ◌==◌, All, arith, Elem,
  Elem-map, All-Elem, if◌then◌else◌,
}
use graphling.Catalog.Entities.{Named}
use graphling.Catalog.Fuzzy.{Libraries, points, at_index}
use graphling.Catalog.Vocabulary.{Label}
use graphling.Catalog.Matching.{
  Message, not_found, which_one, not_clear, max_listed_candidates, choices_and_lookup, item_at,
  item_in, add_winner, tied, add_contained, containing, words, contained_in, phonetic_key,
  phonetic_min, candidates_message, sounding,
}

module _ {A : Type 0} ⦃named : Named A⦄ (items : List A) where
  -- All of a list are items of the pool.
  abbrev pub Pooled : List A → Type 0
  Pooled = All (λ a. Elem a items)

  pub Pooled-append : (xs : List A) (a : A) → Pooled xs → Elem a items → Pooled (xs ++ a ∷ [])
  Pooled-append [] a p m = (m, tt)
  Pooled-append (x ∷ xs) a (h, p) m = (h, Pooled-append xs a p m)

  -- The choices of the pool.
  abbrev pub PooledChoices : List (Text × A) → Type 0
  PooledChoices = All (λ c. Elem (c.1) items)

  pub PooledChoices-append :
      (xs ys : List (Text × A)) → PooledChoices xs → PooledChoices ys → PooledChoices (xs ++ ys)
  PooledChoices-append [] ys p q = q
  PooledChoices-append (x ∷ xs) ys (h, p) q = (h, PooledChoices-append xs ys p q)

  pub choice-PooledChoices :
      (text : Text) (item : A)
      → Elem item items
      → PooledChoices (if is_set text then (text, item) ∷ [] else [])
  choice-PooledChoices [] item m = tt
  choice-PooledChoices (c ∷ text) item m = (m, tt)

  pub choices-PooledChoices : (xs : List A) → Pooled xs → PooledChoices (choices_and_lookup xs)
  unfolding choices_and_lookup
  choices-PooledChoices [] p = tt
  choices-PooledChoices (x ∷ xs) (h, p) = (
    h,
    PooledChoices-append _ _ (choice-PooledChoices (named.code x) x h) (
        PooledChoices-append _ _ (choice-PooledChoices (named.name_full x) x h) (
          PooledChoices-append _ _ (choice-PooledChoices (named.nickname x) x h)
            (choices-PooledChoices xs p))),
  )

  pub pool-PooledChoices : PooledChoices (choices_and_lookup items)
  pool-PooledChoices = choices-PooledChoices items (All-Elem (λ a. Elem a items) items (λ a m. m))

  pub at_index-Elem :
      (lookup : List (Text × A)) (index : ℕ) (c : Text × A)
      → PooledChoices lookup
      → at_index lookup index ≡ some c
      → Elem (c.1) items
  at_index-Elem [] index c p h = absurd (let z : ⊥ = cc in z)
  at_index-Elem (x ∷ lookup) zero c (h, p) e =
      let same : x ≡ c = ground arith in subst (λ d. Elem (d.1) items) same h
  at_index-Elem (x ∷ lookup) (suc index) c (h, p) e = at_index-Elem lookup index c p e

  abbrev pub PooledOption : Option A → Type 0
  PooledOption none = Unit
  PooledOption (some a) = Elem a items

  pub item_at-Pooled :
      (lookup : List (Text × A)) (index : ℕ)
      → PooledChoices lookup
      → PooledOption (item_at lookup index)
  item_at-Pooled lookup index p = elim (Option-cases (at_index lookup index)) [
    | inl e ↦ rw e tt
    | inr (c, e) ↦ rw e (at_index-Elem lookup index c p e)
  ]

  pub add_winner-Pooled :
      (o : Option A) (winners : List A)
      → PooledOption o
      → Pooled winners
      → Pooled (add_winner o winners)
  unfolding add_winner
  add_winner-Pooled none winners m p = p
  add_winner-Pooled (some item) winners m p = elim (Bool-cases (item_in item winners)) [
    | inl e ↦ rw e p
    | inr e ↦ elim (Bool-cases (text_in (named.name item) (map named.name winners))) [
      | inl f ↦ rw (e, f) p
      | inr f ↦ rw (e, f) (Pooled-append winners item p m)
    ]
  ]

  pub tied-Pooled :
      (lookup : List (Text × A)) (best : ℕ) (results : List (ℕ × ℕ)) (winners : List A)
      → PooledChoices lookup
      → Pooled winners
      → Pooled (tied lookup best results winners)
  unfolding tied
  tied-Pooled lookup best [] winners q p = p
  tied-Pooled lookup best ((score, index) ∷ results) winners q p =
      elim (Bool-cases (ltb score best)) [
        | inl e ↦ rw e p
        | inr e ↦ rw e (
            tied-Pooled lookup best results (add_winner (item_at lookup index) winners) q
              (add_winner-Pooled (item_at lookup index) winners (item_at-Pooled lookup index q) p))
      ]

  pub containing-Pooled :
      (libraries : Libraries) (wanted : List Text) (lookup : List (Text × A)) (hits : List A)
      → PooledChoices lookup
      → Pooled hits
      → Pooled (containing libraries wanted lookup hits)
  unfolding containing add_contained
  containing-Pooled libraries wanted [] hits q p = p
  containing-Pooled libraries wanted ((text, item) ∷ lookup) hits (m, q) p =
      elim (Bool-cases (contained_in wanted (words libraries text))) [
        | inr e ↦ rw e (containing-Pooled libraries wanted lookup hits q p)
        | inl e ↦ elim (Bool-cases (item_in item hits)) [
          | inl f ↦ rw (e, f) (containing-Pooled libraries wanted lookup hits q p)
          | inr f ↦
              rw (e, f)
                (containing-Pooled libraries wanted lookup (hits ++ item ∷ []) q
                  (Pooled-append hits item p m))
        ]
      ]

  pub sounding-Pooled :
      (libraries : Libraries) (key : Text) (lookup : List (Text × A)) (best : ℕ) (winners : List A)
      → PooledChoices lookup
      → Pooled winners
      → Pooled (sounding libraries key lookup best winners)
  unfolding sounding
  sounding-Pooled libraries key [] best winners q p = p
  sounding-Pooled libraries key ((text, item) ∷ lookup) best winners (m, q) p =
      let score : ℕ = libraries.token_sort key (phonetic_key libraries text) in
      let skipped = sounding-Pooled libraries key lookup best winners q p in
      elim (Bool-cases (ltb score (points libraries phonetic_min))) [
        | inl e ↦ rw e skipped
        | inr e ↦ elim (Bool-cases (ltb best score)) [
          | inl f ↦ rw (e, f) (sounding-Pooled libraries key lookup score (item ∷ []) q (m, tt))
          | inr f ↦ elim (Bool-cases (score == best)) [
            | inr g ↦ rw (e, f, g) skipped
            | inl g ↦ elim (Bool-cases (item_in item winners)) [
              | inl k ↦ rw (e, f, g, k) skipped
              | inr k ↦
                  rw (e, f, g, k)
                    (sounding-Pooled libraries key lookup best (winners ++ item ∷ []) q
                      (Pooled-append winners item p m))
            ]
          ]
        ]
      ]

  -- A result of the pool: an item, or a message about the words that were spoken which lists names of
  -- the pool, two to five of them.
  abbrev pub FromPool : Text → Label → A ⊎ Message → Type 0
  FromPool spoken label (inl item) = Elem item items
  FromPool spoken label (inr (not_found l s)) = (l ≡ label) × (s ≡ spoken)
  FromPool spoken label (inr (not_clear l s)) = (l ≡ label) × (s ≡ spoken)
  FromPool spoken label (inr (which_one l s listed more)) =
      (l ≡ label)
      × (s ≡ spoken)
      × All (λ n. Elem n (map named.name items)) listed
      × (2 ≤ length listed)
      × (length listed ≤ max_listed_candidates)

  pub names-Pooled :
      (n : ℕ) (xs : List A)
      → Pooled xs
      → All (λ t. Elem t (map named.name items)) (map named.name (take n xs))
  names-Pooled zero xs p = tt
  names-Pooled (suc n) [] p = tt
  names-Pooled (suc n) (x ∷ xs) (m, p) = (Elem-map named.name items x m, names-Pooled n xs p)

  pub length-names : (n : ℕ) (xs : List A) → length (map named.name (take n xs)) ≤ n
  length-names zero xs = omega arith
  length-names (suc n) [] = omega arith
  length-names (suc n) (x ∷ xs) = omega (arith, length-names n xs)

  pub message-FromPool :
      (spoken : Text) (label : Label) (a b : A) (xs : List A)
      → Pooled (a ∷ b ∷ xs)
      → FromPool spoken label (inr (candidates_message spoken label (a ∷ b ∷ xs)))
  unfolding candidates_message
  message-FromPool spoken label a b xs p = (
    refl,
    refl,
    names-Pooled max_listed_candidates (a ∷ b ∷ xs) p,
    omega arith,
    length-names max_listed_candidates (a ∷ b ∷ xs),
  )
