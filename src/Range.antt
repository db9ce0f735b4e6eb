-- ===== src/Range.antt =====
-- src/range_alloc.rs: a best-fit allocator over the offsets below a fixed capacity.
pub mod Allocate
pub mod Free
pub mod Live
mod Tests
use vugva.Common.{
  ℕ, ◌+◌, Option, none, some, List, [], ltb, if◌then◌else◌, add_word, sub_word, length,
}
use vugva.Error.{Result, ok, err, dram_oom}
use vugva.FreeList.{Block, Region, align, carve, free_bytes, release}

pub record RangeAllocator : Type 0 where
  pub capacity : ℕ
  pub offset : ℕ
  pub free_blocks : List Block

unfoldable pub new : ℕ → RangeAllocator
new capacity = record { capacity = capacity; offset = 0; free_blocks = [] }

abbrev pub region : RangeAllocator → Region
region r = record { offset = r.offset; free_blocks = r.free_blocks }

-- "Bytes currently handed out."
unfoldable pub used : RangeAllocator → ℕ
used r = sub_word r.offset (free_bytes r.free_blocks)

unfoldable pub free_block_count : RangeAllocator → ℕ
free_block_count r = length r.free_blocks

-- Carving at the mark, when no freed range fits.
unfoldable pub extend : RangeAllocator → ℕ → Result ℕ × RangeAllocator
extend r aligned =
    if ltb r.capacity (add_word r.offset aligned)
    then (err (dram_oom aligned (sub_word r.capacity (used r)) r.capacity), r)
    else (ok r.offset, record r { offset = add_word r.offset aligned })

unfoldable pub allocate : RangeAllocator → ℕ → Result ℕ × RangeAllocator
allocate r bytes =
    let aligned = align bytes in
    elim (carve r.free_blocks aligned) [
      | some (off, blocks) ↦ (ok off, record r { free_blocks = blocks })
      | none ↦ extend r aligned
    ]

unfoldable pub free : RangeAllocator → ℕ → ℕ → RangeAllocator
free r off bytes =
    let g = release (region r) off bytes in
    record r { offset = g.offset; free_blocks = g.free_blocks }
