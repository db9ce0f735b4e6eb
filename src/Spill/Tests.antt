-- ===== src/Spill/Tests.antt =====
-- A spill file at concrete inputs.
use vugva.Common.{ℕ, suc, ◌≡◌, refl, true, Option, some, List, [], ◌∷◌, arith}
use vugva.Error.{err, io, IoError}
use vugva.FreeList.{
  align, best_fit, best_fit_from, carve, release, insert_range, partition_point, coalesce_right,
  coalesce_left, retract, overlaps,
}
use vugva.Range
use vugva.Range.{RangeAllocator}
use vugva.Range.Allocate.{IsSound}
use vugva.Spill.{SpillFile, settle, write_at_new_offset}
use vugva.Spill.Reserve.{Written, write_at_new_offset-Written}

abbrev sample : SpillFile
sample = record {
  path = "/mnt/nvme/spill";
  alloc = record { capacity = 1000; offset = 192; free_blocks = [] };
  unlink_on_drop = true;
}

-- A file system that is full, and counts the tries.
abbrev no_space : ℕ → List ℕ → ℕ → Option ℕ × ℕ
no_space offset bytes w = (some 28, suc w)

sample-IsSound : IsSound sample.alloc
sample-IsSound = record {
  region_valid = record { bounded = omega arith; mark = refl; blocks = tt };
  within = omega arith;
  small = omega arith;
}

write_no_space :
    write_at_new_offset no_space sample (7 ∷ 8 ∷ []) 0 ≡ (err (io (IoError.os 28)), sample, 1)
unfolding write_at_new_offset settle Range.allocate Range.extend Range.free align best_fit
    best_fit_from carve release insert_range partition_point coalesce_right coalesce_left retract
    overlaps
write_no_space = refl

write_at_new_offset-Written_example :
    Written sample 2 (write_at_new_offset no_space sample (7 ∷ 8 ∷ []) 0)
write_at_new_offset-Written_example =
    write_at_new_offset-Written no_space sample (7 ∷ 8 ∷ []) 0 sample-IsSound (omega arith)
