-- ===== src/FreeList/Tests.antt =====
-- The free list at concrete inputs.
use vugva.Common.{◌≡◌, refl, some, List, [], ◌∷◌}
use vugva.FreeList.{
  Block, Region, align, best_fit, best_fit_from, carve, carve_at, release, insert_range,
  partition_point, coalesce_right, coalesce_left, retract, overlaps,
}
use vugva.FreeList.BestFit.{IsBest, best_fit-IsBest}

abbrev holes : List Block
holes = (0, 256) ∷ (320, 128) ∷ (512, 128) ∷ []

abbrev holed : Region
holed = record { offset = 704; free_blocks = holes }

align_64 : align 64 ≡ 64
unfolding align
align_64 = refl

align_100 : align 100 ≡ 128
unfolding align
align_100 = refl

-- The tightest hole is the second one, the first of its size.
best_fit_100 : best_fit holes 128 ≡ some 1
unfolding best_fit best_fit_from
best_fit_100 = refl

carve_64 : carve holes 64 ≡ some (320, (0, 256) ∷ (384, 64) ∷ (512, 128) ∷ [])
unfolding carve carve_at best_fit best_fit_from
carve_64 = refl

-- The range between the last two holes joins both, and the range at the end moves the mark.
release_between :
    release holed 448 64 ≡ record { offset = 704; free_blocks = (0, 256) ∷ (320, 320) ∷ [] }
unfolding release insert_range partition_point coalesce_right coalesce_left retract overlaps align
release_between = refl

release_end :
    release holed 640 64 ≡ record { offset = 512; free_blocks = (0, 256) ∷ (320, 128) ∷ [] }
unfolding release insert_range partition_point coalesce_right coalesce_left retract overlaps align
release_end = refl

release_twice : release holed 320 64 ≡ holed
unfolding release insert_range partition_point coalesce_right coalesce_left retract overlaps align
release_twice = refl

best_fit-IsBest_example : IsBest holes 128 3 (best_fit holes 128)
best_fit-IsBest_example = best_fit-IsBest holes 128
