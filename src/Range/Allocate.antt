-- ===== src/Range/Allocate.antt =====
-- `RangeAllocator::allocate` on each of its branches.
use vugva.Common.{
  ℕ, ◌+◌, ◌-◌, ◌%◌, ◌≤◌, ◌<◌, ◌^◌, ◌≡◌, refl, sym, inl, inr, true, false, ◌||◌, none, some, List,
  arith, ltb, length, Bool-cases, Option-cases, subst, ltb→lt, not-ltb→le, add_word, sub_word,
  add_word-eq, sub_word-eq,
}
use vugva.Error.{Result, ok, err, dram_oom}
use vugva.FreeList.{Block, align, carve}
use vugva.FreeList.Sorted.{
  in_block, total, total-le, free_bytes-eq-total, is_free-above, Blocks-raise, align_bounds,
}
use vugva.FreeList.BestFit.{len_at}
use vugva.FreeList.Carve.{carve-none, carve-Carved, Carved-Reused}
use vugva.FreeList.Slot.{IsValid, owned}
use vugva.Range.{RangeAllocator, region, used, extend, allocate}

-- The region of a valid allocator, within a capacity that an `isize` can hold.
pub record IsSound (r : RangeAllocator) : Type 0 where
  pub region_valid : IsValid (region r)
  pub within : r.offset ≤ r.capacity
  pub small : r.capacity < 2 ^ 63

-- What a successful allocation of `n` aligned bytes at `off` has done.
pub record HandedOut (r : RangeAllocator) (n off : ℕ) (r' : RangeAllocator) : Type 0 where
  pub sound : IsSound r'
  pub aligned : off % 64 ≡ 0
  pub inside : off + n ≤ r'.offset
  pub same_capacity : r'.capacity ≡ r.capacity
  pub fresh : (a : ℕ) → in_block (off, n) a ≡ true → owned (region r) a ≡ false
  pub owns : (a : ℕ) → owned (region r') a ≡ owned (region r) a || in_block (off, n) a
  pub accounted : used r' ≡ used r + n

-- No freed range fits and neither does the space above the mark.
pub record Exhausted (r : RangeAllocator) (n : ℕ) : Type 0 where
  pub holes : (j : ℕ) → j < length r.free_blocks → len_at r.free_blocks j < n
  pub above : r.capacity < r.offset + n

-- The result of a request for `n` aligned bytes.
abbrev pub Outcome : RangeAllocator → ℕ → Result ℕ × RangeAllocator → Type 0
Outcome r n (ok off, r') = HandedOut r n off r'
Outcome r n (err e, r') =
    (r' ≡ r) × Exhausted r n × (e ≡ dram_oom n (r.capacity - used r) r.capacity)

used-eq :
    (r : RangeAllocator)
    → IsSound r
    → (used r + total r.free_blocks ≡ r.offset) × (total r.free_blocks ≤ r.offset)
unfolding used
used-eq r s =
    let same =
      free_bytes-eq-total 0 r.free_blocks r.offset (omega arith) s.region_valid.bounded
        s.region_valid.blocks in
    let bound = total-le 0 r.free_blocks r.offset (omega arith) s.region_valid.blocks in
    rw same (omega arith)

carved-HandedOut :
    (r : RangeAllocator) (n off : ℕ) (bs : List Block)
    → IsSound r
    → n % 64 ≡ 0
    → carve r.free_blocks n ≡ some (off, bs)
    → HandedOut r n off (record r { free_blocks = bs })
unfolding owned
carved-HandedOut r n off bs s al e =
    let v = s.region_valid in
    let c =
      Carved-Reused 0 r.free_blocks r.offset n off bs al v.blocks
        (carve-Carved 0 r.free_blocks r.offset n off bs v.bounded v.blocks e) in
    let r' : RangeAllocator = record r { free_blocks = bs } in
    let s' : IsSound r' = record {
      region_valid = record { bounded = v.bounded; mark = v.mark; blocks = c.blocks };
      within = s.within;
      small = s.small;
    } in
    record {
      sound = s';
      aligned = c.aligned;
      inside = c.inside;
      same_capacity = refl;
      fresh = λ a h. ground (arith, c.was_free a h);
      owns = λ a. ground (arith, c.was_free a, c.taken a, c.inside);
      accounted = omega (arith, used-eq r s, used-eq r' s', c.counted);
    }

extended-HandedOut :
    (r : RangeAllocator) (n : ℕ)
    → IsSound r
    → n % 64 ≡ 0
    → r.offset + n ≤ r.capacity
    → HandedOut r n r.offset (record r { offset = r.offset + n })
unfolding owned
extended-HandedOut r n s al fits =
    let v = s.region_valid in
    let r' : RangeAllocator = record r { offset = r.offset + n } in
    let s' : IsSound r' = record {
      region_valid = record {
        bounded = omega arith;
        mark = omega (arith, v.mark);
        blocks = Blocks-raise 0 r.free_blocks r.offset (r.offset + n) (omega arith) v.blocks;
      };
      within = fits;
      small = s.small;
    } in
    record {
      sound = s';
      aligned = v.mark;
      inside = omega arith;
      same_capacity = refl;
      fresh = λ a h. ground arith;
      owns = λ a. ground (arith, is_free-above 0 r.free_blocks r.offset a v.blocks);
      accounted = omega (arith, used-eq r s, used-eq r' s');
    }

pub allocate_carved :
    (r : RangeAllocator) (bytes off : ℕ) (bs : List Block)
    → carve r.free_blocks (align bytes) ≡ some (off, bs)
    → allocate r bytes ≡ (ok off, record r { free_blocks = bs })
unfolding allocate
allocate_carved r bytes off bs e = rw (e, allocate) refl

pub allocate_extended :
    (r : RangeAllocator) (bytes : ℕ)
    → carve r.free_blocks (align bytes) ≡ none
    → allocate r bytes ≡ extend r (align bytes)
unfolding allocate
allocate_extended r bytes e = rw (e, allocate) refl

extend-Outcome :
    (r : RangeAllocator) (n : ℕ)
    → IsSound r
    → n % 64 ≡ 0
    → n ≤ 2 ^ 63
    → carve r.free_blocks n ≡ none
    → Outcome r n (extend r n)
unfolding extend
extend-Outcome r n s al small e =
    let whole : add_word r.offset n ≡ r.offset + n = add_word-eq r.offset n (omega arith) in
    let left : sub_word r.capacity (used r) ≡ r.capacity - used r =
      sub_word-eq r.capacity (used r) (omega (arith, used-eq r s)) (omega arith) in
    rw (whole, left)
      (elim (Bool-cases (ltb r.capacity (r.offset + n))) [
        | inl over ↦
            rw over
              (refl, record { holes = carve-none r.free_blocks n e; above = ltb→lt _ _ over }, refl)
        | inr fits ↦ rw fits (extended-HandedOut r n s al (not-ltb→le _ _ fits))
      ])

-- An allocation either hands out a fresh aligned range of the rounded size, or leaves the allocator
-- as it is.
pub allocate-Outcome :
    (r : RangeAllocator) (bytes : ℕ)
    → IsSound r
    → bytes ≤ 2 ^ 63
    → Outcome r (align bytes) (allocate r bytes)
allocate-Outcome r bytes s small = elim (Option-cases (carve r.free_blocks (align bytes))) [
  | inl e ↦ subst (Outcome r (align bytes)) (sym (allocate_extended r bytes e)) (
      extend-Outcome r (align bytes) s (omega (arith, align_bounds bytes small))
        (omega (arith, align_bounds bytes small)) e)
  | inr ((off, bs), e) ↦
      subst (Outcome r (align bytes)) (sym (allocate_carved r bytes off bs e))
        (carved-HandedOut r (align bytes) off bs s (omega (arith, align_bounds bytes small)) e)
]
