-- ===== src/Pool.antt =====
-- `DramPool` of src/tiered.rs: the same allocator over host pointers instead of offsets.
pub mod Fit
pub mod Refine
pub mod Lends
pub mod Returns
mod Tests
use vugva.Common.{
  ℕ, ◌+◌, Bool, ◌||◌, Option, none, some, List, [], ltb, leb, if◌then◌else◌, add_word, sub_word,
}
use vugva.Error.{Result, ok, err, dram_oom}
use vugva.FreeList.{Block, free_bytes, release}
use vugva.Pool.Fit.{align_chunk, reuse}

-- `i32` ordinals are bit patterns.
pub record DramPool : Type 0 where
  pub numa_node : ℕ
  pub gpu_ordinal : ℕ
  pub base_ptr : ℕ
  pub capacity : ℕ
  pub offset : ℕ
  pub free_blocks : List Block
  pub numa_bound : Bool
  pub pinned : Bool

unfoldable pub used : DramPool → ℕ
used p = sub_word p.offset (free_bytes p.free_blocks)

unfoldable pub extend : DramPool → ℕ → Result ℕ × DramPool
extend p aligned =
    if ltb p.capacity (add_word p.offset aligned)
    then (err (dram_oom aligned (sub_word p.capacity (used p)) p.capacity), p)
    else (ok (add_word p.base_ptr p.offset), record p { offset = add_word p.offset aligned })

unfoldable pub allocate : DramPool → ℕ → Result ℕ × DramPool
allocate p bytes =
    let aligned = align_chunk bytes in
    elim (reuse p.free_blocks aligned) [
      | some (off, blocks) ↦ (ok (add_word p.base_ptr off), record p { free_blocks = blocks })
      | none ↦ extend p aligned
    ]

-- "Ignores pointers that are not inside this pool."
unfoldable pub is_foreign : DramPool → ℕ → Bool
is_foreign p ptr = ltb ptr p.base_ptr || leb (add_word p.base_ptr p.capacity) ptr

unfoldable pub free : DramPool → ℕ → ℕ → DramPool
free p ptr bytes =
    if is_foreign p ptr
    then p
    else (let g =
          release (record { offset = p.offset; free_blocks = p.free_blocks })
            (sub_word ptr p.base_ptr) bytes in
        record p { offset = g.offset; free_blocks = g.free_blocks })
