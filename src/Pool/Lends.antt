-- ===== src/Pool/Lends.antt =====
-- A pool by the addresses that it has lent: what one call of `allocate` or `free` does to them.
use vugva.Common.{
  ℕ, ◌+◌, ◌-◌, ◌%◌, ◌≤◌, ◌<◌, ◌^◌, ◌≡◌, refl, sym, ap, subst, ◌⊎◌, Bool, true, ◌&&◌, arith, leb,
  if◌then◌else◌, add_word-eq,
}
use vugva.Error.{Result, ok, err}
use vugva.FreeList.{Block, align}
use vugva.FreeList.Sorted.{in_block}
use vugva.FreeList.Slot.{owned}
use vugva.Range
use vugva.Range.{RangeAllocator, region}
use vugva.Range.Allocate.{IsSound, HandedOut, Outcome, allocate-Outcome}
use vugva.Pool.{DramPool, allocate}
use vugva.Pool.Refine.{offsets, with_offsets, rebased, allocate_refines}

-- A sound pool over a range of host memory that is aligned and ends within the address space.
pub record Grounded (p : DramPool) : Type 0 where
  pub sound : IsSound (offsets p)
  pub aligned : p.base_ptr % 64 ≡ 0
  pub bounded : p.base_ptr + p.capacity < 2 ^ 64

-- Whether the pool has handed out address `x`.
abbrev pub lends : DramPool → ℕ → Bool
lends p x = leb p.base_ptr x && owned (region (offsets p)) (x - p.base_ptr)

-- One or none.
abbrev pub unit_of : Bool → ℕ
unit_of b = if b then 1 else 0

-- The bytes of a block, rounded up as both allocators do.
abbrev pub covers : Block → ℕ → Bool
covers (ptr, bytes) x = in_block (ptr, align bytes) x

pub lends-range :
    (p : DramPool) (x : ℕ)
    → Grounded p
    → lends p x ≡ true
    → (p.base_ptr ≤ x) × (x < p.base_ptr + p.capacity)
unfolding owned
lends-range p x g h = ground (arith, g.sound.within)

-- The pool stands on the same memory.
abbrev pub SameGround : DramPool → DramPool → Type 0
SameGround p q = (q.base_ptr ≡ p.base_ptr) × (q.capacity ≡ p.capacity)

-- The block lies in the pool's memory.
abbrev pub Within : Block → DramPool → Type 0
Within (ptr, bytes) p = (p.base_ptr ≤ ptr) × (ptr + align bytes ≤ p.base_ptr + p.capacity)

-- The block has no byte of the pool's memory.
abbrev pub Outside : Block → DramPool → Type 0
Outside (ptr, bytes) p =
    (align bytes ≡ 0) ⊎ (ptr + align bytes ≤ p.base_ptr) ⊎ (p.base_ptr + p.capacity ≤ ptr)

-- What a granted request has done.
pub record Granted (p : DramPool) (bytes ptr : ℕ) (q : DramPool) : Type 0 where
  pub grounded : Grounded q
  pub same : SameGround p q
  pub aligned : ptr % 64 ≡ 0
  pub within : Within (ptr, bytes) q
  pub lent : (x : ℕ) → unit_of (lends q x) ≡ unit_of (lends p x) + unit_of (covers (ptr, bytes) x)

abbrev pub Grant : DramPool → ℕ → Result ℕ × DramPool → Type 0
Grant p bytes (ok ptr, q) = Granted p bytes ptr q
Grant p bytes (err e, q) = q ≡ p

granted-lends :
    (p : DramPool) (n off x : ℕ) (r : RangeAllocator)
    → HandedOut (offsets p) n off r
    → unit_of (lends (with_offsets p r) x)
      ≡ unit_of (lends p x) + unit_of (in_block (p.base_ptr + off, n) x)
granted-lends p n off x r h = ground (arith, h.owns (x - p.base_ptr), h.fresh (x - p.base_ptr))

pub allocate-Grant :
    (p : DramPool) (bytes : ℕ) → Grounded p → bytes ≤ 2 ^ 63 → Grant p bytes (allocate p bytes)
allocate-Grant p bytes g small =
    subst (Grant p bytes) (sym (allocate_refines p bytes))
      (from (Range.allocate (offsets p) bytes) (allocate-Outcome (offsets p) bytes g.sound small))
  where
    from :
        (r : Result ℕ × RangeAllocator)
        → Outcome (offsets p) (align bytes) r
        → Grant p bytes (rebased p r)
    from (ok off, r) h =
        rw
          (add_word-eq p.base_ptr off
            (omega (arith, g.bounded, h.inside, h.sound.within, h.same_capacity)))
          (record {
            grounded = record {
              sound = h.sound;
              aligned = g.aligned;
              bounded = omega (arith, g.bounded, h.same_capacity);
            };
            same = (refl, h.same_capacity);
            aligned = omega (arith, g.aligned, h.aligned);
            within = (omega arith, omega (arith, h.inside, h.sound.within));
            lent = λ x. granted-lends p (align bytes) off x r h;
          })
    from (err e, r) h = ap (with_offsets p) h.0
