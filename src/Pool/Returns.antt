-- ===== src/Pool/Returns.antt =====
-- What one call of `free` does to the addresses that a pool has lent.
use vugva.Common.{
  ℕ, ◌+◌, ◌-◌, ◌%◌, ◌≤◌, ◌<◌, ◌^◌, ◌≡◌, refl, sym, ◌∙◌, subst, ◌⊎◌, inl, inr, true, arith, ltb, leb,
  Bool-cases, ltb→lt, leb→le, not-ltb→le, not-leb→lt, le→leb, lt→ltb, le→not-ltb, lt→not-leb,
}
use vugva.FreeList.{Block, align}
use vugva.FreeList.Sorted.{in_block, align_bounds}
use vugva.FreeList.Slot.{owned}
use vugva.Range
use vugva.Range.{RangeAllocator, region}
use vugva.Range.Free.{GivenBack, free-GivenBack}
use vugva.Pool.{DramPool, free}
use vugva.Pool.Refine.{offsets, with_offsets, free_refines}
use vugva.Pool.Lends.{Grounded, lends, unit_of, covers, SameGround, Within, Outside}

freed-lends :
    (p : DramPool) (ptr bytes x : ℕ) (r : RangeAllocator)
    → GivenBack (offsets p) (ptr - p.base_ptr) (align bytes) r
    → p.base_ptr ≤ ptr
    → ((a : ℕ)
        → in_block (ptr - p.base_ptr, align bytes) a ≡ true
        → owned (region (offsets p)) a ≡ true)
    → unit_of (lends (with_offsets p r) x) + unit_of (covers (ptr, bytes) x) ≡ unit_of (lends p x)
freed-lends p ptr bytes x r g le held =
    ground (arith, g.freed held (x - p.base_ptr), held (x - p.base_ptr))

-- The pool is sound after, and stands on the same memory.
pub record Kept (p : DramPool) (q : DramPool) : Type 0 where
  pub grounded : Grounded q
  pub same : SameGround p q

free_inside :
    (p : DramPool) (ptr bytes : ℕ)
    → Grounded p
    → p.base_ptr ≤ ptr
    → ptr < p.base_ptr + p.capacity
    → free p ptr bytes ≡ with_offsets p (Range.free (offsets p) (ptr - p.base_ptr) bytes)
free_inside p ptr bytes g lo hi =
    free_refines p ptr bytes g.bounded
    ∙ rw (le→leb p.base_ptr ptr lo, lt→ltb ptr (p.base_ptr + p.capacity) hi) refl

free_foreign :
    (p : DramPool) (ptr bytes : ℕ)
    → Grounded p
    → (ptr < p.base_ptr) ⊎ (p.base_ptr + p.capacity ≤ ptr)
    → free p ptr bytes ≡ p
free_foreign p ptr bytes g (inl low) =
    free_refines p ptr bytes g.bounded ∙ rw (lt→not-leb ptr p.base_ptr low) refl
free_foreign p ptr bytes g (inr high) =
    free_refines p ptr bytes g.bounded
    ∙ rw
        (le→not-ltb ptr (p.base_ptr + p.capacity) high, le→leb p.base_ptr ptr (omega (arith, high)))
        refl

given_back :
    (p : DramPool) (ptr bytes : ℕ)
    → Grounded p
    → bytes ≤ 2 ^ 63
    → ptr % 64 ≡ 0
    → p.base_ptr ≤ ptr
    → ptr < p.base_ptr + p.capacity
    → GivenBack
        (offsets p)
        (ptr - p.base_ptr)
        (align bytes)
        (Range.free (offsets p) (ptr - p.base_ptr) bytes)
given_back p ptr bytes g small al lo hi =
    free-GivenBack (offsets p) (ptr - p.base_ptr) bytes g.sound small
      (omega (arith, al, g.aligned, lo))
      (omega (arith, align_bounds bytes small, g.sound.small, lo, hi))

kept :
    (p : DramPool) (off n : ℕ) (r : RangeAllocator)
    → Grounded p
    → GivenBack (offsets p) off n r
    → Kept p (with_offsets p r)
kept p off n r g b = record {
  grounded = record {
    sound = b.sound;
    aligned = g.aligned;
    bounded = omega (arith, g.bounded, b.same_capacity);
  };
  same = (refl, b.same_capacity);
}

abbrev TakenBack : DramPool → Block → DramPool → Type 0
TakenBack p b q =
    Kept p q × ((x : ℕ) → unit_of (lends q x) + unit_of (covers b x) ≡ unit_of (lends p x))

abbrev Unchanged : DramPool → DramPool → Type 0
Unchanged p q = Kept p q × ((x : ℕ) → unit_of (lends q x) ≡ unit_of (lends p x))

unchanged : (p : DramPool) → Grounded p → Unchanged p p
unchanged p g = (record { grounded = g; same = (refl, refl) }, λ x. refl)

-- A block in the pool's memory that is lent whole is taken back.
pub free_within :
    (p : DramPool) (ptr bytes : ℕ)
    → Grounded p
    → bytes ≤ 2 ^ 63
    → ptr % 64 ≡ 0
    → Within (ptr, bytes) p
    → ((x : ℕ) → covers (ptr, bytes) x ≡ true → lends p x ≡ true)
    → Kept p (free p ptr bytes)
      × ((x : ℕ)
          → unit_of (lends (free p ptr bytes) x) + unit_of (covers (ptr, bytes) x)
            ≡ unit_of (lends p x))
free_within p ptr bytes g small al (lo, hi) held =
    elim (Bool-cases (ltb ptr (p.base_ptr + p.capacity))) [
      | inl inside ↦
          let b = given_back p ptr bytes g small al lo (ltb→lt _ _ inside) in
          let r = Range.free (offsets p) (ptr - p.base_ptr) bytes in
          subst (TakenBack p (ptr, bytes)) (sym (free_inside p ptr bytes g lo (ltb→lt _ _ inside)))
            (
              kept p (ptr - p.base_ptr) (align bytes) r g b,
              λ x.
                  freed-lends p ptr bytes x r b lo
                    (λ a h. ground (arith, held (a + p.base_ptr), h)),
            )
      | inr over ↦
          subst (TakenBack p (ptr, bytes))
            (sym (free_foreign p ptr bytes g (inr (not-ltb→le _ _ over))))
            ((unchanged p g).0, λ x. ground (arith, not-ltb→le _ _ over, hi))
    ]

-- A block with no byte of the pool's memory changes nothing that is lent.
pub free-Outside :
    (p : DramPool) (ptr bytes : ℕ)
    → Grounded p
    → bytes ≤ 2 ^ 63
    → ptr % 64 ≡ 0
    → Outside (ptr, bytes) p
    → Kept p (free p ptr bytes)
      × ((x : ℕ) → unit_of (lends (free p ptr bytes) x) ≡ unit_of (lends p x))
free-Outside p ptr bytes g small al out = elim (Bool-cases (leb p.base_ptr ptr)) [
  | inr low ↦
      subst (Unchanged p) (sym (free_foreign p ptr bytes g (inl (not-leb→lt _ _ low))))
        (unchanged p g)
  | inl above ↦ elim (Bool-cases (ltb ptr (p.base_ptr + p.capacity))) [
    | inr over ↦
        subst (Unchanged p) (sym (free_foreign p ptr bytes g (inr (not-ltb→le _ _ over))))
          (unchanged p g)
    | inl inside ↦
        let lo : p.base_ptr ≤ ptr = leb→le _ _ above in
        let hi : ptr < p.base_ptr + p.capacity = ltb→lt _ _ inside in
        let nothing : align bytes ≡ 0 = empty out lo hi in
        let b = given_back p ptr bytes g small al lo hi in
        let r = Range.free (offsets p) (ptr - p.base_ptr) bytes in
        subst (Unchanged p) (sym (free_inside p ptr bytes g lo hi)) (
          kept p (ptr - p.base_ptr) (align bytes) r g b,
          λ x.
              let back = freed-lends p ptr bytes x r b lo (λ a h. ground (arith, h, nothing)) in
              ground (arith, back, nothing),
        )
  ]
]
  where
    empty :
        Outside (ptr, bytes) p → p.base_ptr ≤ ptr → ptr < p.base_ptr + p.capacity → align bytes ≡ 0
    empty (inl e) lo hi = e
    empty (inr (inl below)) lo hi = omega (arith, below, lo)
    empty (inr (inr over)) lo hi = absurd (omega (arith, over, hi))
