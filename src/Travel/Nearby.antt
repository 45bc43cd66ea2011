-- ===== src/Travel/Nearby.antt =====
-- Which jump point is found (`nearest_jump_point` and `find_jump_point` of
-- app/tools/starcitizenwiki/client.py).
use graphling.Prelude.{
  ◌≡◌, refl, sym, subst, Bool, true, false, ◌&&◌, Bool-cases, Option, none, some, ◌⊎◌, inl, inr,
  List, [], ◌∷◌, Elem, if◌then◌else◌, Floats,
}
use graphling.Catalog.Fuzzy.{Libraries}
use graphling.Travel.Places.{
  LocationPosition, is_jump_point_near, square_distance, nearer, is_closer, location_of,
  nearest_jump_point,
}

-- What `<` does on floats, a NaN included.
pub record Compared (floats : Floats) : Type 0 where
  pub lt_asym : (a b : floats.Float) → floats.lt a b ≡ true → floats.lt b a ≡ false
  pub lt_trans :
      (a b c : floats.Float) → floats.lt a b ≡ true → floats.lt b c ≡ true → floats.lt a c ≡ true

not_both : (b : Bool) → b ≡ true → b ≡ false → ⊥
not_both b e f = let z : ⊥ = cc (e, f) in z

module _ (floats : Floats) (libraries : Libraries) where
  module _ (compared : Compared floats) (location : LocationPosition floats) where
    lt_irrefl : (a : floats.Float) → floats.lt a a ≡ false
    lt_irrefl a = elim (Bool-cases (floats.lt a a)) [ inr e ↦ e | inl e ↦ compared.lt_asym a a e ]

    -- A jump point of those that `P` is about, at the distance, and none of them is closer.
    record Closest (P : LocationPosition floats → Type 0) (best : LocationPosition floats)
        (distance : floats.Float) : Type 0 where
      member : P best
      near : is_jump_point_near floats libraries location best ≡ true
      measured : distance ≡ square_distance floats libraries location best
      closest :
          (c : LocationPosition floats)
          → P c
          → is_jump_point_near floats libraries location c ≡ true
          → floats.lt (square_distance floats libraries location c) distance ≡ false

    BestOf :
        (LocationPosition floats → Type 0)
        → Option (LocationPosition floats × floats.Float)
        → Type 0
    BestOf P none =
        (c : LocationPosition floats) → P c → is_jump_point_near floats libraries location c ≡ false
    BestOf P (some (best, distance)) = Closest P best distance

    BestOf-map :
        (P Q : LocationPosition floats → Type 0)
        → ((c : LocationPosition floats) → P c → Q c)
        → ((c : LocationPosition floats) → Q c → P c)
        → (best : Option (LocationPosition floats × floats.Float)) → BestOf P best
        → BestOf Q best
    unfolding BestOf
    BestOf-map P Q to from none h = λ c q. h c (from c q)
    BestOf-map P Q to from (some (best, distance)) h = record {
      member = to best h.member;
      near = h.near;
      measured = h.measured;
      closest = λ c q e. h.closest c (from c q) e;
    }

    module _ (P : LocationPosition floats → Type 0) (candidate : LocationPosition floats) where
      abbrev Grown : LocationPosition floats → Type 0
      Grown c = P c ⊎ (c ≡ candidate)

      abbrev distance_here : floats.Float
      distance_here = square_distance floats libraries location candidate

      skip_far :
          (best : Option (LocationPosition floats × floats.Float))
          → is_jump_point_near floats libraries location candidate ≡ false
          → BestOf P best
          → BestOf Grown best
      unfolding BestOf
      skip_far none e h = λ c g. elim g [
        | inl p ↦ h c p
        | inr same ↦
            subst (λ x. is_jump_point_near floats libraries location x ≡ false) (sym same) e
      ]
      skip_far (some (best, distance)) e h = record {
        member = inl h.member;
        near = h.near;
        measured = h.measured;
        closest = λ c g k. elim g [
          | inl p ↦ h.closest c p k
          | inr same ↦ absurd (
              not_both (is_jump_point_near floats libraries location candidate)
                (subst (λ x. is_jump_point_near floats libraries location x ≡ true) same k) e)
        ];
      }

      keep_best :
          (best : LocationPosition floats) (distance : floats.Float)
          → floats.lt distance_here distance ≡ false
          → Closest P best distance
          → Closest Grown best distance
      keep_best best distance f h = record {
        member = inl h.member;
        near = h.near;
        measured = h.measured;
        closest = λ c g k. elim g [
          | inl p ↦ h.closest c p k
          | inr same ↦
              subst (λ x. floats.lt (square_distance floats libraries location x) distance ≡ false)
                (sym same) f
        ];
      }

      -- Where nothing that is a jump point is closer to the candidate's distance, it is the best.
      take_candidate :
          is_jump_point_near floats libraries location candidate ≡ true
          → ((c : LocationPosition floats)
              → P c
              → is_jump_point_near floats libraries location c ≡ true
              → floats.lt (square_distance floats libraries location c) distance_here ≡ false)
          → Closest Grown candidate distance_here
      take_candidate e h = record {
        member = inr refl;
        near = e;
        measured = refl;
        closest = λ c g k. elim g [
          | inl p ↦ h c p k
          | inr same ↦
              subst
                (λ x. floats.lt (square_distance floats libraries location x) distance_here ≡ false)
                (sym same) (lt_irrefl distance_here)
        ];
      }

      still_closer :
          (a old : floats.Float)
          → floats.lt distance_here old ≡ true
          → floats.lt a old ≡ false
          → floats.lt a distance_here ≡ false
      still_closer a old e f = elim (Bool-cases (floats.lt a distance_here)) [
        | inr g ↦ g
        | inl g ↦ absurd (not_both (floats.lt a old) (compared.lt_trans a distance_here old g e) f)
      ]

      step-BestOf :
          (best : Option (LocationPosition floats × floats.Float))
          → BestOf P best
          → BestOf Grown (
              if is_jump_point_near floats libraries location candidate
                && is_closer floats libraries distance_here best
              then some (candidate, distance_here)
              else best)
      unfolding BestOf
      step-BestOf best h =
          elim (Bool-cases (is_jump_point_near floats libraries location candidate)) [
            | inr e ↦ rw e (skip_far best e h)
            | inl e ↦ rw e (closer best e h)
          ]
        where
          closer :
              (best : Option (LocationPosition floats × floats.Float))
              → is_jump_point_near floats libraries location candidate ≡ true
              → BestOf P best
              → BestOf Grown (
                  if is_closer floats libraries distance_here best
                  then some (candidate, distance_here)
                  else best)
          closer none e h =
              take_candidate e λ c p k.
                absurd (not_both (is_jump_point_near floats libraries location c) k (h c p))
          closer (some (b, distance)) e h = elim (Bool-cases (floats.lt distance_here distance)) [
            | inr f ↦ rw f (keep_best b distance f h)
            | inl f ↦ rw f (
                take_candidate e λ c p k.
                  still_closer (square_distance floats libraries location c) distance f
                    (h.closest c p k))
          ]

    nearer-BestOf :
        (P : LocationPosition floats → Type 0) (locations : List (LocationPosition floats))
        (best : Option (LocationPosition floats × floats.Float))
        → BestOf P best
        → BestOf (λ c. P c ⊎ Elem c locations) (nearer floats libraries location locations best)
    unfolding nearer
    nearer-BestOf P [] best h =
        BestOf-map P (λ c. P c ⊎ ⊥) (λ c p. inl p) (λ c q. elim q [ inl p ↦ p | inr z ↦ absurd z ])
          best h
    nearer-BestOf P (candidate ∷ locations) best h =
        let next =
          if is_jump_point_near floats libraries location candidate
            && is_closer floats libraries (distance_here P candidate) best
          then some (candidate, distance_here P candidate)
          else best in
        BestOf-map (λ c. Grown P candidate c ⊎ Elem c locations)
          (λ c. P c ⊎ Elem c (candidate ∷ locations))
          (λ c q. elim q [
            | inl g ↦ elim g [ inl p ↦ inl p | inr e ↦ inr (inl e) ]
            | inr m ↦ inr (inr m)
          ])
          (λ c q. elim q [
            | inl p ↦ inl (inl p)
            | inr m ↦ elim m [ inl e ↦ inl (inr e) | inr k ↦ inr k ]
          ])
          (nearer floats libraries location locations next)
          (nearer-BestOf (Grown P candidate) locations next (step-BestOf P candidate best h))

    -- The result is a jump point of the list that no jump point of the list is closer than.
    abbrev pub IsNearest :
        List (LocationPosition floats) → Option (LocationPosition floats) → Type 0
    IsNearest locations none =
        (c : LocationPosition floats)
        → Elem c locations
        → is_jump_point_near floats libraries location c ≡ false
    IsNearest locations (some best) =
        Elem best locations
        × (is_jump_point_near floats libraries location best ≡ true)
        × ((c : LocationPosition floats)
            → Elem c locations
            → is_jump_point_near floats libraries location c ≡ true
            → floats.lt (square_distance floats libraries location c)
                (square_distance floats libraries location best)
              ≡ false)

    -- The nearest jump point is one of the positions in the system that are named so and are no wreck,
    -- and none of these is closer; there is one unless none of the positions is.
    pub nearest_jump_point-IsNearest :
        (locations : List (LocationPosition floats))
        → IsNearest locations (nearest_jump_point floats libraries locations location)
    unfolding nearest_jump_point BestOf
    nearest_jump_point-IsNearest locations =
        go (nearer floats libraries location locations none)
          (nearer-BestOf (λ c. ⊥) locations none (λ c z. absurd z))
      where
        go :
            (best : Option (LocationPosition floats × floats.Float))
            → BestOf (λ c. ⊥ ⊎ Elem c locations) best
            → IsNearest locations (location_of floats libraries best)
        go none h = λ c m. h c (inr m)
        go (some (best, distance)) h = (
          (elim h.member [ inl z ↦ absurd z | inr m ↦ m ]),
          h.near,
          λ c m k.
              subst (λ d. floats.lt (square_distance floats libraries location c) d ≡ false)
                h.measured (h.closest c (inr m) k),
        )
