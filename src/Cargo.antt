-- ===== src/Cargo.antt =====
-- Container packing (app/tools/cargo_packing.py).
pub mod Sizes
pub mod Packing
pub mod Relax
pub mod Best
pub mod Mix
pub mod MixTotal
