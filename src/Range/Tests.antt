-- ===== src/Range/Tests.antt =====
-- The allocator at concrete inputs.
use vugva.Common.{◌≡◌, refl, [], ◌∷◌, arith}
use vugva.Error.{ok, err, dram_oom}
use vugva.FreeList.{
  align, best_fit, best_fit_from, carve, carve_at, release, insert_range, partition_point,
  coalesce_right, coalesce_left, retract, overlaps, free_bytes,
}
use vugva.Range.{RangeAllocator, new, allocate, extend, free, used}
use vugva.Range.Allocate.{IsSound, Outcome, allocate-Outcome}
use vugva.Range.Free.{GivenBack, free-GivenBack, free-allocate}
use vugva.Range.Live.{Session, granted, returned, Reach, here, next, start, IsSafe, Reach-IsSafe}

-- An allocator of 1000 bytes after requests of 100 and 60 bytes, and after the first was freed.
abbrev one : RangeAllocator
one = record { capacity = 1000; offset = 128; free_blocks = [] }

abbrev two : RangeAllocator
two = record { capacity = 1000; offset = 192; free_blocks = [] }

abbrev holed : RangeAllocator
holed = record { capacity = 1000; offset = 192; free_blocks = (0, 128) ∷ [] }

abbrev reused : RangeAllocator
reused = record { capacity = 1000; offset = 192; free_blocks = (64, 64) ∷ [] }

allocate_first : allocate (new 1000) 100 ≡ (ok 0, one)
unfolding new allocate extend align carve best_fit best_fit_from
allocate_first = refl

allocate_second : allocate one 60 ≡ (ok 128, two)
unfolding allocate extend align carve best_fit best_fit_from
allocate_second = refl

free_first : free two 0 100 ≡ holed
unfolding free release insert_range partition_point coalesce_right coalesce_left retract overlaps
    align
free_first = refl

reuse_hole : allocate holed 60 ≡ (ok 0, reused)
unfolding allocate carve carve_at align best_fit best_fit_from
reuse_hole = refl

allocate_too_much : allocate two 900 ≡ (err (dram_oom 960 808 1000), two)
unfolding allocate extend align carve best_fit best_fit_from used free_bytes
allocate_too_much = refl

align_100 : align 100 ≡ 128
unfolding align
align_100 = refl

-- Two allocations, and a release of the first.
abbrev both_live : Session
both_live = record { heap = two; live = (128, 60) ∷ (0, 100) ∷ [] }

both_live-Reach : Reach (start 1000) both_live
both_live-Reach =
    next (next here (granted 100 0 one (omega arith) allocate_first))
      (granted 60 128 two (omega arith) allocate_second)

Reach-IsSafe_example : IsSafe (record { heap = free two 0 100; live = (128, 60) ∷ [] })
Reach-IsSafe_example =
    Reach-IsSafe 1000 {s = record { heap = free two 0 100; live = (128, 60) ∷ [] }} (omega arith)
      (next both_live-Reach (returned ((128, 60) ∷ []) [] 0 100 refl))

two-IsSound : IsSound two
two-IsSound = record {
  region_valid = record { bounded = omega arith; mark = refl; blocks = tt };
  within = omega arith;
  small = omega arith;
}

holed-IsSound : IsSound holed
holed-IsSound = record {
  region_valid = record {
    bounded = omega arith;
    mark = refl;
    blocks = (omega arith, omega arith, omega arith, refl, refl, tt);
  };
  within = omega arith;
  small = omega arith;
}

allocate-Outcome_example : Outcome holed (align 60) (allocate holed 60)
allocate-Outcome_example = allocate-Outcome holed 60 holed-IsSound (omega arith)

free-GivenBack_example : GivenBack two 0 (align 100) (free two 0 100)
free-GivenBack_example =
    free-GivenBack two 0 100 two-IsSound (omega arith) refl (omega (arith, align_100))

free-allocate_example : free reused 0 60 ≡ holed
free-allocate_example = free-allocate holed reused 60 0 holed-IsSound (omega arith) reuse_hole
