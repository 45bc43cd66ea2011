-- ===== src/Catalog/Nearest.antt =====
-- The order of `terminals_near` (app/tools/uexcorp/matching.py).
use mathlib.Core.List.{Perm}
use mathlib.Core.List.Perm
use graphling.Prelude.{
  ℕ, ◌≤◌, ◌≡◌, Bool, true, false, Bool-cases, ◌⊎◌, inl, inr, List, [], ◌∷◌, All, filter, ltb, arith,
}
use graphling.Catalog.Entities.{CachedTerminal}
use graphling.Catalog.Regions.{
  Distances, Anchor, distance_to, in_range, or_far, insert_by_distance, sorted_by_distance,
  terminals_from,
}
use graphling.Catalog.Reached.{At, Reached, in_range-At, in_range-not_Reached}

module _ (key : CachedTerminal → ℕ) where
  -- No terminal is nearer than the one before it.
  abbrev pub Ascending : List CachedTerminal → Type 0
  Ascending [] = Unit
  Ascending (t ∷ []) = Unit
  Ascending (t ∷ u ∷ terminals) = (key t ≤ key u) × Ascending (u ∷ terminals)

  insert-Perm :
      (t : CachedTerminal) (xs : List CachedTerminal) → Perm (insert_by_distance key t xs) (t ∷ xs)
  unfolding insert_by_distance
  insert-Perm t [] = Perm.refl _
  insert-Perm t (u ∷ xs) = elim (Bool-cases (ltb (key u) (key t))) [
    | inr e ↦ rw e (Perm.refl _)
    | inl e ↦ rw e (Perm.trans (Perm.cons u (insert-Perm t xs)) (Perm.swap t u xs))
  ]

  sorted-Perm : (xs : List CachedTerminal) → Perm (sorted_by_distance key xs) xs
  unfolding sorted_by_distance
  sorted-Perm [] = Perm.refl _
  sorted-Perm (t ∷ xs) =
      Perm.trans (insert-Perm t (sorted_by_distance key xs)) (Perm.cons t (sorted-Perm xs))

  insert-Ascending :
      (t : CachedTerminal) (xs : List CachedTerminal)
      → Ascending xs
      → Ascending (insert_by_distance key t xs)
  unfolding insert_by_distance
  insert-Ascending t [] h = tt
  insert-Ascending t (u ∷ []) h = elim (Bool-cases (ltb (key u) (key t))) [
    | inl e ↦ rw e (ground (arith, e), tt)
    | inr e ↦ rw e (ground (arith, e), tt)
  ]
  insert-Ascending t (u ∷ v ∷ xs) (h, hs) = elim (Bool-cases (ltb (key u) (key t))) [
    | inr e ↦ rw e (ground (arith, e), (h, hs))
    | inl e ↦
        let rest = insert-Ascending t (v ∷ xs) hs in
        elim (Bool-cases (ltb (key v) (key t))) [
          | inl f ↦
              let rest' : Ascending (v ∷ insert_by_distance key t xs) = rw f at rest in
              rw (e, f) (h, rest')
          | inr f ↦
              let rest' : Ascending (t ∷ v ∷ xs) = rw f at rest in
              rw (e, f) (ground (arith, e), rest')
        ]
  ]

  sorted-Ascending : (xs : List CachedTerminal) → Ascending (sorted_by_distance key xs)
  unfolding sorted_by_distance
  sorted-Ascending [] = tt
  sorted-Ascending (t ∷ xs) = insert-Ascending t (sorted_by_distance key xs) (sorted-Ascending xs)

  insert-All :
      (P : CachedTerminal → Type 0) (t : CachedTerminal) (xs : List CachedTerminal)
      → P t
      → All P xs
      → All P (insert_by_distance key t xs)
  unfolding insert_by_distance
  insert-All P t [] h hs = (h, tt)
  insert-All P t (u ∷ xs) h (k, ks) = elim (Bool-cases (ltb (key u) (key t))) [
    | inl e ↦ rw e (k, insert-All P t xs h ks)
    | inr e ↦ rw e (h, (k, ks))
  ]

  sorted-All :
      (P : CachedTerminal → Type 0) (xs : List CachedTerminal)
      → All P xs
      → All P (sorted_by_distance key xs)
  unfolding sorted_by_distance
  sorted-All P [] h = tt
  sorted-All P (t ∷ xs) (h, hs) = insert-All P t (sorted_by_distance key xs) h (sorted-All P xs hs)

module _ (get_orbit_distances : Distances) (anchor : Anchor) (max_distance : ℕ)
    (pool : List CachedTerminal) where
  abbrev Near : CachedTerminal → Type 0
  Near t = Reached get_orbit_distances anchor max_distance t.orbit_name

  -- The terminals found are those of the pool that a test of their orbit's distance keeps, and in the
  -- order of these distances.
  pub record Nearest (found : List CachedTerminal) : Type 0 where
    pub keeps : CachedTerminal → Bool
    pub distance : CachedTerminal → ℕ
    pub decides : All (λ t. ((keeps t ≡ true) × Near t) ⊎ ((keeps t ≡ false) × (Near t → ⊥))) pool
    pub members : Perm found (filter keeps pool)
    pub at :
        All
          (λ (t : CachedTerminal).
            At anchor
              (get_orbit_distances anchor.orbit_id anchor.star_system_id)
              t.orbit_name
              (distance t))
          found
    pub ascending : Ascending distance found

  abbrev test : CachedTerminal → Bool
  test t = in_range get_orbit_distances anchor max_distance t.orbit_name

  abbrev how_far : CachedTerminal → ℕ
  how_far t =
      or_far (
        distance_to anchor (get_orbit_distances anchor.orbit_id anchor.star_system_id) t.orbit_name)

  test-decides :
      (terminals : List CachedTerminal)
      → All (λ t. ((test t ≡ true) × Near t) ⊎ ((test t ≡ false) × (Near t → ⊥))) terminals
  test-decides [] = tt
  test-decides (t ∷ terminals) = (
    elim (Bool-cases (test t)) [
      | inl e ↦
          let (at, le) = in_range-At get_orbit_distances anchor max_distance t.orbit_name e in
          inl (e, (how_far t, at, le))
      | inr e ↦ inr (e, in_range-not_Reached get_orbit_distances anchor max_distance t.orbit_name e)
    ],
    test-decides terminals,
  )

  test-At :
      (terminals : List CachedTerminal)
      → All
          (λ (t : CachedTerminal).
            At anchor
              (get_orbit_distances anchor.orbit_id anchor.star_system_id)
              t.orbit_name
              (how_far t))
          (filter test terminals)
  test-At [] = tt
  test-At (t ∷ terminals) = elim (Bool-cases (test t)) [
    | inl e ↦
        rw e (
          (in_range-At get_orbit_distances anchor max_distance t.orbit_name e).0,
          test-At terminals,
        )
    | inr e ↦ rw e (test-At terminals)
  ]

  -- The terminals around an anchor are those of the pool whose orbit has a distance of at most the limit,
  -- each as often as in the pool, and none is nearer to the anchor than the one before it. The distance
  -- of the anchor's own orbit is 0, and that of another is what its last row says; an orbit without a
  -- row has none.
  pub terminals_from-Nearest : Nearest (terminals_from get_orbit_distances anchor max_distance pool)
  unfolding terminals_from
  terminals_from-Nearest = record {
    keeps = test;
    distance = how_far;
    decides = test-decides pool;
    members = sorted-Perm how_far (filter test pool);
    at = sorted-All how_far _ (filter test pool) (test-At pool);
    ascending = sorted-Ascending how_far (filter test pool);
  }
