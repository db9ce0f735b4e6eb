-- ===== src/Range/Free.antt =====
-- `RangeAllocator::free`, and `free` after `allocate`.
use vugva.Common.{
  ℕ, ◌+◌, ◌%◌, ◌≤◌, ◌<◌, ◌^◌, ◌≡◌, refl, sym, ap, ◌∙◌, inl, inr, true, false, not, ◌&&◌, some, List,
  arith, ltb, Bool-cases, Option-cases, not-ltb→le, add_word-eq,
}
use vugva.Error.{Result, ok, err}
use vugva.FreeList.{Block, Region, align, carve, release}
use vugva.FreeList.Sorted.{in_block, align_bounds}
use vugva.FreeList.Carve.{carve-Carved}
use vugva.FreeList.Slot.{owned}
use vugva.FreeList.Insert.{region as pair}
use vugva.FreeList.Release.{release-Released}
use vugva.FreeList.Inverse.{release-extend, release-remains}
use vugva.Range.{RangeAllocator, region, extend, allocate, free}
use vugva.Range.Allocate.{IsSound, allocate_carved, allocate_extended}

-- What `free` does to a sound allocator, for a range of `n` bytes at `off`.
pub record GivenBack (r : RangeAllocator) (off n : ℕ) (r' : RangeAllocator) : Type 0 where
  pub sound : IsSound r'
  pub same_capacity : r'.capacity ≡ r.capacity
  pub freed :
      ((a : ℕ) → in_block (off, n) a ≡ true → owned (region r) a ≡ true)
      → (a : ℕ) → owned (region r') a ≡ owned (region r) a && not (in_block (off, n) a)
  pub ignored : (a : ℕ) → in_block (off, n) a ≡ true → owned (region r) a ≡ false → r' ≡ r

-- Every call of `free` with an aligned offset whose range ends within the address space keeps the
-- allocator sound. A range that is handed out whole is freed exactly; any other changes nothing.
pub free-GivenBack :
    (r : RangeAllocator) (off bytes : ℕ)
    → IsSound r
    → bytes ≤ 2 ^ 63
    → off % 64 ≡ 0
    → off + align bytes < 2 ^ 64
    → GivenBack r off (align bytes) (free r off bytes)
unfolding free
free-GivenBack r off bytes s small al w =
    let g = release-Released (region r) off bytes s.region_valid small al w in
    record {
      sound = record { region_valid = g.valid; within = omega (arith, g.lower); small = s.small };
      same_capacity = refl;
      freed = g.freed;
      ignored = λ a h k.
          ap
            (λ (x : Region). record {
              capacity = r.capacity;
              offset = x.offset;
              free_blocks = x.free_blocks;
            })
            (g.ignored a h k);
    }

-- What `free` makes of an allocation's outcome.
abbrev undo : ℕ → Result ℕ × RangeAllocator → RangeAllocator
undo bytes (ok off, r) = free r off bytes
undo bytes (err _, r) = r

abbrev with_region : RangeAllocator → Region → RangeAllocator
with_region r x = record { capacity = r.capacity; offset = x.offset; free_blocks = x.free_blocks }

undo-carved :
    (r : RangeAllocator) (bytes off : ℕ) (bs : List Block)
    → IsSound r
    → bytes ≤ 2 ^ 63
    → carve r.free_blocks (align bytes) ≡ some (off, bs)
    → free (record r { free_blocks = bs }) off bytes ≡ r
unfolding free
undo-carved r bytes off bs s small e =
    let v = s.region_valid in
    let c = carve-Carved 0 r.free_blocks r.offset (align bytes) off bs v.bounded v.blocks e in
    let back =
      release-remains r.offset c.pre off c.len c.post bytes small v.bounded c.fits
        (rw c.split at v.blocks) in
    ap (λ xs. with_region r (release (pair r.offset xs) off bytes)) c.left
    ∙ ap (with_region r) (back ∙ ap (pair r.offset) (sym c.split))

undo-extended :
    (r : RangeAllocator) (bytes : ℕ)
    → IsSound r
    → bytes ≤ 2 ^ 63
    → undo bytes (extend r (align bytes)) ≡ r
unfolding free extend
undo-extended r bytes s small =
    let v = s.region_valid in
    rw (add_word-eq r.offset (align bytes) (omega (arith, align_bounds bytes small)))
      (elim (Bool-cases (ltb r.capacity (r.offset + align bytes))) [
        | inl over ↦ rw over refl
        | inr fits ↦ rw fits (
            ap (with_region r) (
              release-extend r.offset r.free_blocks bytes small v.mark
                (omega (arith, not-ltb→le _ _ fits)) v.blocks))
      ])

undo-allocate :
    (r : RangeAllocator) (bytes : ℕ)
    → IsSound r
    → bytes ≤ 2 ^ 63
    → undo bytes (allocate r bytes) ≡ r
undo-allocate r bytes s small = elim (Option-cases (carve r.free_blocks (align bytes))) [
  | inl e ↦ ap (undo bytes) (allocate_extended r bytes e) ∙ undo-extended r bytes s small
  | inr ((off, bs), e) ↦
      ap (undo bytes) (allocate_carved r bytes off bs e) ∙ undo-carved r bytes off bs s small e
]

-- Freeing what `allocate` has just handed out restores the allocator exactly.
pub free-allocate :
    (r r' : RangeAllocator) (bytes off : ℕ)
    → IsSound r
    → bytes ≤ 2 ^ 63
    → allocate r bytes ≡ (ok off, r')
    → free r' off bytes ≡ r
free-allocate r r' bytes off s small h = ap (undo bytes) (sym h) ∙ undo-allocate r bytes s small
