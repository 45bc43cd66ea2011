-- ===== src/Tests/CargoTests.antt =====
-- A hold of 180 SCU with containers of 32 and 16 (app/tools/cargo_packing.py).
use graphling.Prelude.{ℤ, pos, ◌≡◌, refl, List, [], ◌∷◌}
use graphling.Cargo.Packing.{positive_sizes, max_packable_scu, best_container_mix}
use graphling.Cargo.Relax.{IsBest}
use graphling.Cargo.Best.{max_packable_scu-IsBest}
use graphling.Cargo.MixTotal.{SameTotal, best_container_mix-total}

abbrev hold_sizes : List ℤ
hold_sizes = pos 32 ∷ pos 16 ∷ []

pack_test : max_packable_scu (pos 180) hold_sizes ≡ 176
unfolding max_packable_scu
pack_test = refl

mix_test : best_container_mix (pos 180) hold_sizes ≡ (32, 5) ∷ (16, 1) ∷ []
unfolding best_container_mix
mix_test = refl

max_packable_scu-IsBest_example :
    IsBest (positive_sizes hold_sizes) 180 (max_packable_scu (pos 180) hold_sizes)
max_packable_scu-IsBest_example = max_packable_scu-IsBest 180 hold_sizes

best_container_mix-total_example :
    SameTotal
      (positive_sizes hold_sizes)
      (max_packable_scu (pos 180) hold_sizes)
      (best_container_mix (pos 180) hold_sizes)
best_container_mix-total_example = best_container_mix-total (pos 180) hold_sizes
