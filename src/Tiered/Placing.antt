-- ===== src/Tiered/Placing.antt =====
-- Host memory that `TieredPool::allocate` and the staging of a cold page take from the pools.
use vugva.Common.{
  ℕ, ◌+◌, ◌≤◌, ◌^◌, ◌≡◌, refl, ap, ◌∙◌, inl, inr, List, [], ◌∷◌, ◌++◌, arith, subst, sym,
  if◌then◌else◌, false,
}
use vugva.Error.{Result, ok, err}
use vugva.FreeList.{Block}
use vugva.Range.Live.{holders, holders-append, holders-cons}
use vugva.Pool.{DramPool, allocate as pool_allocate}
use vugva.Pool.Lends.{Grounded, Grant, allocate-Grant}
use vugva.Vmt.{DramChunk}
use vugva.Tiered.Allocate.{place, is_last}
use vugva.Tiered.Lent.{
  lent, lent-cons, AllGrounded, AllKept, AllKept_refl, AllKept-AllGrounded, AllKept-Apart,
}
use vugva.Tiered.Backed.{AllHoused, AllHoused-append, AllKept-AllHoused, Backed, blocks_of}

-- What the loop over the pools leaves, also where it ends early.
pub record Placed (ps : List DramPool) (r : Result (Unit {0}) × List DramPool × List DramChunk)
    : Type 0 where
  pub kept : AllKept ps r.1
  pub housed : AllHoused r.1 (blocks_of r.2)
  pub more : (x : ℕ) → lent r.1 x ≡ lent ps x + holders (blocks_of r.2) x

AllHoused-cons :
    (p : DramPool) (ps : List DramPool) (bs : List Block) → AllHoused ps bs → AllHoused (p ∷ ps) bs
AllHoused-cons p ps [] h = tt
AllHoused-cons p ps (b ∷ bs) (f, h, hs) = (f, inr h, AllHoused-cons p ps bs hs)

-- One round of the loop, after the pool has answered.
abbrev next_pool :
    DramPool
    → ℕ
    → Result ℕ × DramPool
    → List DramPool
    → Result (Unit {0}) × List DramPool × List DramChunk
    → Result (Unit {0}) × List DramPool × List DramChunk
next_pool p bytes (err e, q) ps later = (err e, q ∷ ps, [])
next_pool p bytes (ok ptr, q) ps later = (
  later.0,
  q ∷ later.1,
  record { numa_node = p.numa_node; host_ptr = ptr; size_bytes = bytes; cuda_registered = false }
      ∷ later.2,
)

next_pool-Placed :
    (p : DramPool) (bytes : ℕ) (r : Result ℕ × DramPool) (ps : List DramPool)
    (later : Result (Unit {0}) × List DramPool × List DramChunk)
    → Grounded p
    → AllGrounded ps
    → bytes ≤ 2 ^ 63
    → Grant p bytes r
    → Placed ps later
    → Placed (p ∷ ps) (next_pool p bytes r ps later)
unfolding holders
next_pool-Placed p bytes (err e, q) ps later g gs small same l = record {
  kept = subst (λ x. AllKept (p ∷ ps) (x ∷ ps)) (sym same) (AllKept_refl (p ∷ ps) (g, gs));
  housed = tt;
  more = λ x. ap (λ y. lent (y ∷ ps) x) same ∙ omega arith;
}
next_pool-Placed p bytes (ok ptr, q) ps later g gs small h l = record {
  kept = (record { grounded = h.grounded; same = h.same }, l.kept);
  housed =
      ((h.aligned, small), inl h.within, AllHoused-cons q later.1 (blocks_of later.2) l.housed);
  more = λ x. omega (
    arith,
    h.lent x,
    l.more x,
    lent-cons p ps x,
    lent-cons q later.1 x,
    holders-cons ptr bytes (blocks_of later.2) x,
  );
}

place_next :
    (base remainder : ℕ) (p : DramPool) (ps : List DramPool)
    → place base remainder (p ∷ ps) ≡ (
        let bytes : ℕ = base + (if is_last ps then remainder else 0) in
        next_pool p bytes (pool_allocate p bytes) ps (place base remainder ps))
unfolding place
place_next base remainder p ps =
    from (pool_allocate p (base + (if is_last ps then remainder else 0)))
  where
    from :
        (r : Result ℕ × DramPool)
        → elim r.0 as (λ _. Result (Unit {0}) × List DramPool × List DramChunk) [
          | err e ↦ (err e, r.1 ∷ ps, [])
          | ok host_ptr ↦ (
            (place base remainder ps).0,
            r.1 ∷ (place base remainder ps).1,
            record {
              numa_node = p.numa_node;
              host_ptr = host_ptr;
              size_bytes = base + (if is_last ps then remainder else 0);
              cuda_registered = false;
            }
                ∷ (place base remainder ps).2,
          )
        ]
          ≡ next_pool p
              (base + (if is_last ps then remainder else 0))
              r
              ps
              (place base remainder ps)
    from (ok ptr, q) = refl
    from (err e, q) = refl

pub place-Placed :
    (base remainder : ℕ) (ps : List DramPool)
    → AllGrounded ps
    → base + remainder ≤ 2 ^ 63
    → Placed ps (place base remainder ps)
unfolding place holders lent
place-Placed base remainder [] g small = record { kept = tt; housed = tt; more = λ x. refl }
place-Placed base remainder (p ∷ ps) (g, gs) small =
    let bytes : ℕ = base + (if is_last ps then remainder else 0) in
    let fits : bytes ≤ 2 ^ 63 = ground (arith, small) in
    subst (Placed (p ∷ ps)) (sym (place_next base remainder p ps)) (
      next_pool-Placed p bytes (pool_allocate p bytes) ps (place base remainder ps) g gs fits
        (allocate-Grant p bytes g fits) (place-Placed base remainder ps gs small))

-- The chunks that the loop has taken are backed beside those that were.
pub place-Backed :
    (base remainder : ℕ) (ps : List DramPool) (bs : List Block)
    → Backed ps bs
    → base + remainder ≤ 2 ^ 63
    → Backed (place base remainder ps).1 (blocks_of (place base remainder ps).2 ++ bs)
place-Backed base remainder ps bs b small =
    let l = place-Placed base remainder ps b.grounded small in
    let r = place base remainder ps in
    record {
      grounded = AllKept-AllGrounded ps r.1 l.kept;
      apart = AllKept-Apart ps r.1 l.kept b.apart;
      housed =
          AllHoused-append r.1 (blocks_of r.2) bs l.housed
            (AllKept-AllHoused ps r.1 bs l.kept b.housed);
      exclusive = λ x. omega (arith, b.exclusive x, l.more x, holders-append (blocks_of r.2) bs x);
    }
