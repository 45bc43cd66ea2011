-- ===== src/Catalog/Reached.antt =====
-- The distances that `terminals_near` looks up (app/tools/uexcorp/matching.py).
use graphling.Prelude.{
  Text, text_eqb, text_eqb_refl, text_eqb_eq, ℕ, ◌≤◌, ◌≡◌, ◌≢◌, refl, subst, ◌∙◌, true, false,
  Bool-cases, ◌⊎◌, inl, inr, none, some, Option-cases, List, [], ◌∷◌, All, leb, arith,
}
use graphling.Catalog.Regions.{
  Distances, Anchor, OrbitDistance, last_distance, distance_to, in_range, or_far,
}

-- The distance of an orbit from the anchor: 0 for the anchor's own, else that of its last row.
abbrev pub Listed : List OrbitDistance → Text → ℕ → Type 0
Listed [] name d = ⊥
Listed (row ∷ rows) name d =
    Listed rows name d
    ⊎ ((row.orbit_destination_name ≡ name)
        × (row.distance ≡ d)
        × All (λ (r : OrbitDistance). r.orbit_destination_name ≢ name) rows)

-- An orbit's distance from the anchor.
abbrev pub At : Anchor → List OrbitDistance → Text → ℕ → Type 0
At anchor rows name d =
    ((anchor.orbit_name ≡ name) × (d ≡ 0)) ⊎ ((anchor.orbit_name ≢ name) × Listed rows name d)

agrees : (a b : Text) → a ≡ b → text_eqb a b ≡ true
agrees a b e = subst (λ t. text_eqb a t ≡ true) e (text_eqb_refl a)

differs : (a b : Text) → a ≢ b → text_eqb a b ≡ false
differs a b apart = elim (Bool-cases (text_eqb a b)) [
  | inl e ↦ absurd (apart (text_eqb_eq a b e))
  | inr e ↦ e
]

unlisted-none :
    (name : Text) (rows : List OrbitDistance)
    → All (λ (r : OrbitDistance). r.orbit_destination_name ≢ name) rows
    → last_distance name rows ≡ none
unfolding last_distance
unlisted-none name [] h = refl
unlisted-none name (row ∷ rows) (apart, h) =
    rw (unlisted-none name rows h, differs row.orbit_destination_name name apart) refl

none-unlisted :
    (name : Text) (rows : List OrbitDistance)
    → last_distance name rows ≡ none
    → All (λ (r : OrbitDistance). r.orbit_destination_name ≢ name) rows
unfolding last_distance
none-unlisted name [] h = tt
none-unlisted name (row ∷ rows) h = elim (Option-cases (last_distance name rows)) [
  | inr (d, e) ↦ let h' : some d ≡ none = rw e at h in absurd (let z : ⊥ = cc (h') in z)
  | inl e ↦ elim (Bool-cases (text_eqb row.orbit_destination_name name)) [
    | inl f ↦
        let h' : some row.distance ≡ none = rw (e, f) at h in absurd (let z : ⊥ = cc (h') in z)
    | inr f ↦ (
      λ same. let z : ⊥ = cc (f, agrees row.orbit_destination_name name same) in z,
      none-unlisted name rows e,
    )
  ]
]

last_distance-Listed :
    (name : Text) (rows : List OrbitDistance) (d : ℕ)
    → last_distance name rows ≡ some d
    → Listed rows name d
unfolding last_distance
last_distance-Listed name [] d h = absurd (let z : ⊥ = cc (h) in z)
last_distance-Listed name (row ∷ rows) d h = elim (Option-cases (last_distance name rows)) [
  | inr (d', e) ↦
      let h' : some d' ≡ some d = rw e at h in inl (last_distance-Listed name rows d (e ∙ h'))
  | inl e ↦ elim (Bool-cases (text_eqb row.orbit_destination_name name)) [
    | inl f ↦
        let h' : some row.distance ≡ some d = rw (e, f) at h in
        inr (text_eqb_eq row.orbit_destination_name name f, cc (h'), none-unlisted name rows e)
    | inr f ↦ let h' : none ≡ some d = rw (e, f) at h in absurd (let z : ⊥ = cc (h') in z)
  ]
]

Listed-last_distance :
    (name : Text) (rows : List OrbitDistance) (d : ℕ)
    → Listed rows name d
    → last_distance name rows ≡ some d
unfolding last_distance
Listed-last_distance name [] d h = absurd h
Listed-last_distance name (row ∷ rows) d (inl h) = rw (Listed-last_distance name rows d h) refl
Listed-last_distance name (row ∷ rows) d (inr (same, at, h)) =
    rw (unlisted-none name rows h, agrees row.orbit_destination_name name same, at) refl

distance_to-At :
    (anchor : Anchor) (rows : List OrbitDistance) (name : Text) (d : ℕ)
    → distance_to anchor rows name ≡ some d
    → At anchor rows name d
unfolding distance_to
distance_to-At anchor rows name d h = elim (Bool-cases (text_eqb anchor.orbit_name name)) [
  | inl e ↦
      let h' : some 0 ≡ some d = rw e at h in inl (text_eqb_eq anchor.orbit_name name e, cc (h'))
  | inr e ↦
      let h' : last_distance name rows ≡ some d = rw e at h in
      inr (
        λ same. let z : ⊥ = cc (e, agrees anchor.orbit_name name same) in z,
        last_distance-Listed name rows d h',
      )
]

At-distance_to :
    (anchor : Anchor) (rows : List OrbitDistance) (name : Text) (d : ℕ)
    → At anchor rows name d
    → distance_to anchor rows name ≡ some d
unfolding distance_to
At-distance_to anchor rows name d (inl (same, at)) =
    rw (agrees anchor.orbit_name name same, at) refl
At-distance_to anchor rows name d (inr (apart, listed)) =
    rw (differs anchor.orbit_name name apart) (Listed-last_distance name rows d listed)

-- The orbit has a distance of at most the limit.
abbrev pub Reached : Distances → Anchor → ℕ → Text → Type 0
Reached get_orbit_distances anchor max_distance name =
    (d : ℕ) × At anchor (get_orbit_distances anchor.orbit_id anchor.star_system_id) name d
    × (d ≤ max_distance)

module _ (get_orbit_distances : Distances) (anchor : Anchor) (max_distance : ℕ) (name : Text) where
  abbrev rows : List OrbitDistance
  rows = get_orbit_distances anchor.orbit_id anchor.star_system_id

  -- An orbit in range is at the distance that the sorting reads.
  pub in_range-At :
      in_range get_orbit_distances anchor max_distance name ≡ true
      → At anchor rows name (or_far (distance_to anchor rows name))
        × (or_far (distance_to anchor rows name) ≤ max_distance)
  unfolding in_range
  in_range-At h = elim (Option-cases (distance_to anchor rows name)) [
    | inl e ↦ let h' : false ≡ true = rw e at h in absurd (let z : ⊥ = cc (h') in z)
    | inr (d, e) ↦
        let h' : leb d max_distance ≡ true = rw e at h in
        rw e (distance_to-At anchor rows name d e, ground (arith, h'))
  ]

  pub in_range-not_Reached :
      in_range get_orbit_distances anchor max_distance name ≡ false
      → Reached get_orbit_distances anchor max_distance name
      → ⊥
  unfolding in_range
  in_range-not_Reached h (d, at, le) =
      let e = At-distance_to anchor rows name d at in
      let h' : leb d max_distance ≡ false = rw e at h in let z : ⊥ = ground (arith, h', le) in z
