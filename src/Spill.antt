-- ===== src/Spill.antt =====
-- src/spill.rs: the spill file, an allocator of offsets with positional writes and reads.
pub mod Reserve
mod Tests
use Prim.Native.String.{String}
use vugva.Common.{ℕ, Bool, Option, none, some, List, length, if◌then◌else◌}
use vugva.Error.{Result, ok, err, io, IoError}
use vugva.Range
use vugva.Range.{RangeAllocator}

-- The open file is the operating system's; what is kept here is its path and its ranges.
pub record SpillFile : Type 0 where
  pub path : String
  pub alloc : RangeAllocator
  pub unlink_on_drop : Bool

unfoldable pub capacity : SpillFile → ℕ
capacity f = f.alloc.capacity

unfoldable pub spill_used : SpillFile → ℕ
spill_used f = Range.used f.alloc

unfoldable pub reserve : SpillFile → ℕ → Result ℕ × SpillFile
reserve f bytes = let (res, a) = Range.allocate f.alloc bytes in (res, record f { alloc = a })

unfoldable pub free : SpillFile → ℕ → ℕ → SpillFile
free f offset bytes = record f { alloc = Range.free f.alloc offset bytes }

-- `write` is the file system's write of all bytes at an offset: `none`, or the error's code.
module _ {W : Type 0} (write : ℕ → List ℕ → W → Option ℕ × W) where
  unfoldable pub write_at : ℕ → List ℕ → W → Result (Unit {0}) × W
  write_at offset bytes w =
      let (failure, w') = write offset bytes w in
      elim failure [ none ↦ (ok tt, w') | some code ↦ (err (io (IoError.os code)), w') ]

  -- A failed write gives the reservation back.
  unfoldable pub settle : SpillFile → ℕ → List ℕ → W → Result ℕ × SpillFile × W
  settle f offset bytes w =
      let (failure, w') = write offset bytes w in
      elim failure [
        | none ↦ (ok offset, f, w')
        | some code ↦ (
          err (io (IoError.os code)),
          record f { alloc = Range.free f.alloc offset (length bytes) },
          w',
        )
      ]

  unfoldable pub write_at_new_offset : SpillFile → List ℕ → W → Result ℕ × SpillFile × W
  unfolding settle
  write_at_new_offset f bytes w =
      let (res, a) = Range.allocate f.alloc (length bytes) in
      let f' = record f { alloc = a } in
      elim res [ err e ↦ (err e, f', w) | ok offset ↦ settle f' offset bytes w ]

-- `create` opens the file and sizes it.
unfoldable pub create :
    {W : Type 0} (open_sized : String → ℕ → W → Option ℕ × W)
    → String
    → ℕ
    → Bool
    → W
    → Result SpillFile × W
unfolding Range.new
create open_sized path capacity unlink_on_drop w =
    let (failure, w') = open_sized path capacity w in
    elim failure [
      | none ↦ (
        ok (record { path = path; alloc = Range.new capacity; unlink_on_drop = unlink_on_drop }),
        w',
      )
      | some code ↦ (err (io (IoError.os code)), w')
    ]

-- A read of all bytes of a range into host memory, and `fdatasync`: the file system's, with the error's code.
unfoldable pub read_into :
    {W : Type 0} (read : ℕ → ℕ → ℕ → W → Option ℕ × W) → ℕ → ℕ → ℕ → W → Result (Unit {0}) × W
read_into read offset dst bytes w =
    let (failure, w') = read offset dst bytes w in
    elim failure [ none ↦ (ok tt, w') | some code ↦ (err (io (IoError.os code)), w') ]

unfoldable pub sync : {W : Type 0} (flush : W → Option ℕ × W) → W → Result (Unit {0}) × W
sync flush w =
    let (failure, w') = flush w in
    elim failure [ none ↦ (ok tt, w') | some code ↦ (err (io (IoError.os code)), w') ]

unfoldable pub drop_file : {W : Type 0} (unlink : String → W → W) → SpillFile → W → W
drop_file unlink f w = if f.unlink_on_drop then unlink f.path w else w
