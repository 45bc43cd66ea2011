-- ===== src/Catalog/Vocabulary.antt =====
-- app/vocabulary/aliases.py: slang and mishearings, by the kind of name.
use graphling.Prelude.{
  Text, codes, text_eqb, strip, Option, none, some, List, [], ◌∷◌, if◌then◌else◌,
}
use graphling.Catalog.Fuzzy.{Libraries}

pub data Label : Type 0 where
  ship commodity location item : Label

-- ALIASES.get(label), empty where there is no table
unfoldable pub aliases : Label → List (Text × Text)
aliases ship =
    (codes "connie", codes "Constellation")
    ∷ (codes "cat", codes "Caterpillar")
    ∷ (codes "cutty", codes "Cutlass")
    ∷ (codes "msr", codes "Mercury Star Runner")
    ∷ (codes "herc", codes "Hercules Starlifter")
    ∷ (codes "prospy", codes "Prospector")
    ∷ (codes "starfarer", codes "Starfarer")
    ∷ (codes "banu merchantman", codes "Merchantman")
    ∷ []
aliases commodity =
    (codes "quant", codes "Quantainium")
    ∷ (codes "agri", codes "Agricium")
    ∷ (codes "rmc", codes "Recycled Material Composite")
    ∷ (codes "cmat", codes "Construction Materials")
    ∷ []
aliases location =
    (codes "a18", codes "Area18")
    ∷ (codes "new bab", codes "New Babbage")
    ∷ (codes "baijini", codes "Baijini Point")
    ∷ (codes "everus", codes "Everus Harbor")
    ∷ (codes "grimhex", codes "Green Imperial Housing Exchange")
    ∷ (codes "grim hex", codes "Green Imperial Housing Exchange")
    ∷ []
aliases item = []

-- MISHEARINGS.get(label)
unfoldable pub mishearings : Label → List (Text × Text)
mishearings ship = (codes "railing", codes "Railen") ∷ (codes "raven", codes "Railen") ∷ []
mishearings commodity = []
mishearings location = []
mishearings item = []

-- table.get(key)
unfoldable pub table_get : Text → List (Text × Text) → Option Text
table_get key [] = none
table_get key ((k, v) ∷ table) = if text_eqb k key then some v else table_get key table

unfoldable pub heard_as : Libraries → Text → Label → Option Text
unfolding table_get mishearings
heard_as libraries query label = table_get (libraries.lower (strip query)) (mishearings label)

abbrev or_query : Text → Option Text → Text
or_query query none = query
or_query query (some name) = name

unfoldable pub canonicalize : Libraries → Text → Label → Text
unfolding table_get aliases
canonicalize libraries query label =
    or_query query (table_get (libraries.lower (strip query)) (aliases label))
