-- ===== src/Catalog.antt =====
-- The catalog of UEX and the resolution of spoken names (app/tools/uexcorp/, app/vocabulary/).
pub mod Entities
pub mod Fuzzy
pub mod Vocabulary
pub mod Matching
pub mod Pooled
pub mod FromPool
pub mod OwnName
pub mod Regions
pub mod PlaceTerminals
pub mod Reached
pub mod Nearest
pub mod Filters
pub mod Resolution
pub mod Ranked
pub mod Chosen
