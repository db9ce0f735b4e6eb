-- ===== src/Pool/Refine.antt =====
-- A pool behaves as a `RangeAllocator` over the offsets from its base.
use vugva.Common.{
  ℕ, ◌+◌, ◌-◌, ◌<◌, ◌^◌, ◌≡◌, refl, inl, inr, ◌&&◌, arith, ltb, leb, if◌then◌else◌, Bool-cases,
  Option-cases, ltb→lt, not-ltb→le, lt→not-leb, le→leb, sub_word-eq, add_word, add_word-eq,
}
use vugva.Error.{Result, ok, err}
use vugva.FreeList.{align, carve}
use vugva.Pool.Fit.{align_chunk, reuse-carve}
use vugva.Range
use vugva.Range.{RangeAllocator}
use vugva.Pool.{DramPool, used, extend, allocate, is_foreign, free}

-- The pool without its base, and the pool that an allocator leaves.
abbrev pub offsets : DramPool → RangeAllocator
offsets p = record { capacity = p.capacity; offset = p.offset; free_blocks = p.free_blocks }

abbrev pub with_offsets : DramPool → RangeAllocator → DramPool
with_offsets p r = record p {
  capacity = r.capacity;
  offset = r.offset;
  free_blocks = r.free_blocks;
}

-- An outcome over offsets, as the pool reports it.
abbrev pub rebased : DramPool → Result ℕ × RangeAllocator → Result ℕ × DramPool
rebased p (ok off, r) = (ok (add_word p.base_ptr off), with_offsets p r)
rebased p (err e, r) = (err e, with_offsets p r)

-- The pool counts as the allocator does.
pub used_refines : (p : DramPool) → used p ≡ Range.used (offsets p)
unfolding used Range.used
used_refines p = refl

-- The pool, with its own alignment, best-fit loop and carving, allocates as the allocator does, at its base.
pub allocate_refines :
    (p : DramPool) (bytes : ℕ) → allocate p bytes ≡ rebased p (Range.allocate (offsets p) bytes)
unfolding allocate extend used align_chunk align Range.allocate Range.extend Range.used
allocate_refines p bytes =
    rw (allocate, reuse-carve p.free_blocks (align bytes))
      (elim (Option-cases (carve p.free_blocks (align bytes))) [
        | inl e ↦
            rw (e, Range.allocate)
              (elim (Bool-cases (ltb p.capacity (add_word p.offset (align bytes)))) [
                | inl over ↦ rw over refl
                | inr fits ↦ rw fits refl
              ])
        | inr ((off, bs), e) ↦ rw (e, Range.allocate) refl
      ])

-- A pointer of the pool is freed as its offset, any other is ignored.
pub free_refines :
    (p : DramPool) (ptr bytes : ℕ)
    → p.base_ptr + p.capacity < 2 ^ 64
    → free p ptr bytes ≡ (
        if leb p.base_ptr ptr && ltb ptr (p.base_ptr + p.capacity)
        then with_offsets p (Range.free (offsets p) (ptr - p.base_ptr) bytes)
        else p)
unfolding free is_foreign Range.free
free_refines p ptr bytes w =
    rw (add_word-eq p.base_ptr p.capacity w) (elim (Bool-cases (ltb ptr p.base_ptr)) [
      | inl low ↦ rw low (ground (arith, ltb→lt _ _ low))
      | inr high ↦ elim (Bool-cases (ltb ptr (p.base_ptr + p.capacity))) [
        | inl inside ↦
            rw
              (
                high,
                inside,
                lt→not-leb _ _ (ltb→lt _ _ inside),
                le→leb _ _ (not-ltb→le _ _ high),
                sub_word-eq ptr p.base_ptr (not-ltb→le _ _ high) (omega (arith, ltb→lt _ _ inside)),
              )
              refl
        | inr outside ↦
            rw
              (high, outside, le→leb _ _ (not-ltb→le _ _ outside), le→leb _ _ (not-ltb→le _ _ high))
              refl
      ]
    ])
