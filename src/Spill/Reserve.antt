-- ===== src/Spill/Reserve.antt =====
-- Reservations of the spill file, with and without a write.
use vugva.Common.{ℕ, ◌≤◌, ◌^◌, ◌≡◌, refl, Option, none, some, List, length}
use vugva.Error.{Result, ok, err, io, IoError}
use vugva.FreeList.{align}
use vugva.Range
use vugva.Range.{RangeAllocator}
use vugva.Range.Allocate.{IsSound, HandedOut, Outcome, allocate-Outcome}
use vugva.Range.Free.{free-allocate}
use vugva.Spill.{SpillFile, settle, write_at_new_offset}

-- A write of `n` bytes at a new offset: the range is taken if the write went through, and else the
-- ranges are as they were.
abbrev pub Written : {W : Type 0} → SpillFile → ℕ → Result ℕ × SpillFile × W → Type 0
Written f n (ok offset, f', w) = HandedOut f.alloc (align n) offset f'.alloc
Written f n (err e, f', w) = f'.alloc ≡ f.alloc

-- What `allocate` answers, and what `write_at_new_offset` makes of it.
abbrev gone_on :
    {W : Type 0}
    → (ℕ → List ℕ → W → Option ℕ × W)
    → SpillFile
    → List ℕ
    → W
    → RangeAllocator
    → Result ℕ
    → Result ℕ × SpillFile × W
gone_on write f bytes w a (err e) = (err e, record f { alloc = a }, w)
gone_on write f bytes w a (ok offset) = settle write (record f { alloc = a }) offset bytes w

gone_on-Written :
    {W : Type 0} (write : ℕ → List ℕ → W → Option ℕ × W) (f : SpillFile) (bytes : List ℕ) (w : W)
    (a : RangeAllocator) (res : Result ℕ)
    → IsSound f.alloc
    → length bytes ≤ 2 ^ 63
    → Range.allocate f.alloc (length bytes) ≡ (res, a)
    → Outcome f.alloc (align (length bytes)) (res, a)
    → Written f (length bytes) (gone_on write f bytes w a res)
unfolding settle
gone_on-Written write f bytes w a (err e) s small eq o = o.0
gone_on-Written {W} write f bytes w a (ok offset) s small eq o =
    elim (write offset bytes w).0
      as (λ r. Written {W = W} f (length bytes) (elim r [
        | none ↦ (ok offset, record f { alloc = a }, (write offset bytes w).1)
        | some code ↦ (
          err (io (IoError.os code)),
          record f { alloc = Range.free a offset (length bytes) },
          (write offset bytes w).1,
        )
      ])) [ none ↦ o | some code ↦ free-allocate f.alloc a (length bytes) offset s small eq ]

-- A write at a new offset that goes through takes a fresh range for its bytes. If there is no room, or if the
-- write fails, the ranges of the file are exactly as before.
pub write_at_new_offset-Written :
    {W : Type 0} (write : ℕ → List ℕ → W → Option ℕ × W) (f : SpillFile) (bytes : List ℕ) (w : W)
    → IsSound f.alloc
    → length bytes ≤ 2 ^ 63
    → Written f (length bytes) (write_at_new_offset write f bytes w)
unfolding write_at_new_offset
write_at_new_offset-Written write f bytes w s small =
    gone_on-Written write f bytes w (Range.allocate f.alloc (length bytes)).1
      (Range.allocate f.alloc (length bytes)).0 s small refl
      (allocate-Outcome f.alloc (length bytes) s small)
