-- ===== src/Pool/Tests.antt =====
-- A pool at concrete inputs.
use vugva.Common.{◌≡◌, refl, true, if◌then◌else◌, ◌&&◌, leb, ltb, ◌+◌, ◌-◌, [], ◌∷◌, arith}
use vugva.Error.{ok}
use vugva.Pool.Fit.{align_chunk, is_tighter, search_from, shrink_block, reuse}
use vugva.Range
use vugva.Pool.{DramPool, allocate, free}
use vugva.Pool.Refine.{offsets, with_offsets, rebased, allocate_refines, free_refines}

abbrev sample : DramPool
sample = record {
  numa_node = 0;
  gpu_ordinal = 0;
  base_ptr = 65536;
  capacity = 1000;
  offset = 192;
  free_blocks = (0, 128) ∷ [];
  numa_bound = true;
  pinned = true;
}

allocate_hole : (allocate sample 60).0 ≡ ok 65536
unfolding allocate reuse shrink_block align_chunk search_from is_tighter
allocate_hole = refl

allocate_refines_example : allocate sample 60 ≡ rebased sample (Range.allocate (offsets sample) 60)
allocate_refines_example = allocate_refines sample 60

free_refines_example : free sample 65664 60 ≡ (
    if leb 65536 65664 && ltb 65664 (65536 + 1000)
    then with_offsets sample (Range.free (offsets sample) (65664 - 65536) 60)
    else sample)
free_refines_example = free_refines sample 65664 60 (omega arith)
