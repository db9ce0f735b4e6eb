-- ===== src/Tiered/Split.antt =====
-- How `TieredPool::allocate` splits a tensor over the pools.
use native.Mathlib.Omega.{div_fact}
use vugva.Common.{
  ℕ, suc, ◌+◌, ◌*◌, ◌/◌, ◌%◌, ◌≡◌, refl, ap, inl, inr, List, [], ◌∷◌, length, if◌then◌else◌, arith,
  false,
}
use vugva.Error.{Result-cases, Result, ok, err, VugvaError}
use vugva.Pool.{DramPool, allocate as pool_allocate}
use vugva.Vmt.{DramChunk}
use vugva.Tiered.Allocate.{is_last, place}

unfoldable pub sum_sizes : List DramChunk → ℕ
sum_sizes [] = 0
sum_sizes (c ∷ cs) = c.size_bytes + sum_sizes cs

abbrev share : ℕ → ℕ → List DramPool → ℕ
share base_bytes remainder pools = base_bytes + (if is_last pools then remainder else 0)

abbrev chunk_of : DramPool → ℕ → ℕ → DramChunk
chunk_of pool ptr size = record {
  numa_node = pool.numa_node;
  host_ptr = ptr;
  size_bytes = size;
  cuda_registered = false;
}

place_granted :
    (base_bytes remainder : ℕ) (pool : DramPool) (pools : List DramPool) (ptr : ℕ)
    → (pool_allocate pool (share base_bytes remainder pools)).0 ≡ ok ptr
    → let (res, pools', chunks) = place base_bytes remainder pools in
      place base_bytes remainder (pool ∷ pools) ≡ (
        res,
        (pool_allocate pool (share base_bytes remainder pools)).1 ∷ pools',
        chunk_of pool ptr (share base_bytes remainder pools) ∷ chunks,
      )
unfolding place
place_granted base_bytes remainder pool pools ptr e = rw (e, place) refl

place_refused :
    (base_bytes remainder : ℕ) (pool : DramPool) (pools : List DramPool) (e : VugvaError)
    → (pool_allocate pool (share base_bytes remainder pools)).0 ≡ err e
    → place base_bytes remainder (pool ∷ pools)
      ≡ (err e, (pool_allocate pool (share base_bytes remainder pools)).1 ∷ pools, [])
unfolding place
place_refused base_bytes remainder pool pools e eq = rw (eq, place) refl

-- The chunks of a placement that goes through: one for each pool, of the tensor's size together.
abbrev Placed : ℕ → ℕ → ℕ → Result (Unit {0}) × List DramPool × List DramChunk → Type 0
Placed base_bytes remainder n (res, pools', chunks) =
    res ≡ ok tt → (length chunks ≡ suc n) × (sum_sizes chunks ≡ base_bytes * suc n + remainder)

place-Placed :
    (base_bytes remainder : ℕ) (pool : DramPool) (pools : List DramPool)
    → Placed base_bytes remainder (length pools) (place base_bytes remainder (pool ∷ pools))
unfolding is_last sum_sizes place
place-Placed base_bytes remainder pool [] =
    elim (Result-cases (pool_allocate pool (base_bytes + remainder)).0) [
      | inr (e, eq) ↦ rw (place_refused base_bytes remainder pool [] e eq) (λ h. cc h)
      | inl (a, e) ↦ rw (place_granted base_bytes remainder pool [] a e) (λ h. (refl, omega arith))
    ]
place-Placed base_bytes remainder pool (pool' ∷ pools) =
    elim (Result-cases (pool_allocate pool (base_bytes + 0)).0) [
      | inr (e, eq) ↦ rw (place_refused base_bytes remainder pool (pool' ∷ pools) e eq) (λ h. cc h)
      | inl (a, e) ↦ rw (place_granted base_bytes remainder pool (pool' ∷ pools) a e) (λ h.
          let (l, s) = place-Placed base_bytes remainder pool' pools h in (ap suc l, grind arith))
    ]

-- Each chunk is what the pool at its position grants for its size, on the pool's node, and the pools after it are those
-- that these grants leave.
pub data Lodged : List DramPool → List DramChunk → List DramPool → Type 0 where
  no_pools : Lodged [] [] []
  one_each :
      {pool pool' : DramPool} {chunk : DramChunk} {pools pools' : List DramPool}
      {chunks : List DramChunk}
      → pool_allocate pool chunk.size_bytes ≡ (ok chunk.host_ptr, pool')
      → chunk.numa_node ≡ pool.numa_node
      → Lodged pools chunks pools'
      → Lodged (pool ∷ pools) (chunk ∷ chunks) (pool' ∷ pools')

-- A placement that goes through takes one chunk of each pool and nothing else.
pub place-Lodged :
    (base_bytes remainder : ℕ) (pools : List DramPool)
    → let r = place base_bytes remainder pools in r.0 ≡ ok tt → Lodged pools r.2 r.1
unfolding place
place-Lodged base_bytes remainder [] = λ h. no_pools
place-Lodged base_bytes remainder (pool ∷ pools) =
    let r = pool_allocate pool (share base_bytes remainder pools) in
    elim (Result-cases r.0) [
      | inr (e, eq) ↦ rw (place_refused base_bytes remainder pool pools e eq) (λ h. cc h)
      | inl (a, e) ↦ rw (place_granted base_bytes remainder pool pools a e) (λ h.
          one_each (ap (λ (x : Result ℕ). (x, r.1)) e) refl
            (place-Lodged base_bytes remainder pools h))
    ]

-- How `allocate` calls the loop.
abbrev pub split : ℕ → List DramPool → Result (Unit {0}) × List DramPool × List DramChunk
split total_bytes pools = place (total_bytes / length pools) (total_bytes % length pools) pools

-- A tensor that is placed has one chunk in every pool, and the chunks hold all of its bytes: the
-- remainder of the division is not lost.
pub place-covers :
    (total_bytes : ℕ) (pool : DramPool) (pools : List DramPool)
    → (split total_bytes (pool ∷ pools)).0 ≡ ok tt
    → let chunks = (split total_bytes (pool ∷ pools)).2 in
      (length chunks ≡ suc (length pools)) × (sum_sizes chunks ≡ total_bytes)
place-covers total_bytes pool pools h =
    let n : ℕ = length pools in
    let (l, s) = place-Placed (total_bytes / suc n) (total_bytes % suc n) pool pools h in
    (l, omega (arith, s, div_fact total_bytes n))
