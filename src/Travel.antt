-- ===== src/Travel.antt =====
-- The travel time between two places, and the positions and ship data it stands on
-- (app/tools/travel_time.py, app/tools/starcitizenwiki/).
pub mod Places
pub mod Flight
pub mod Builder
pub mod Terminals
pub mod Trip
pub mod SamePlace
pub mod Names
pub mod Nearby
pub mod SpeedCache
pub mod SpeedOnce
pub mod Explained
pub mod Reasons
pub mod Outcome
