-- ===== src/Tiered/Allocate.antt =====
-- src/tiered.rs: `TieredPool::allocate` and `TieredPool::deallocate`.
use Prim.Native.String.{String, ◌++◌ as str_append}
use vugva.Common.{
  ℕ, ◌+◌, ◌/◌, ◌%◌, ◌==◌, Bool, true, false, none, some, List, [], ◌∷◌, ◌++◌, if◌then◌else◌, length,
  map,
}
use vugva.Error.{PageState, resident, warm, cold, Result, ok, err, unknown_allocation}
use vugva.Pool.{DramPool, allocate as pool_allocate, free as pool_free}
use vugva.Range.{allocate as reserve}
use vugva.Vmt.{
  Tier, vram, dram, ssd, Chunk, DramChunk, Page, tensor_bytes, remove, allocate as register,
}
use vugva.Action.{Action, pure, raise, panic, gets, lift, modify, ◌>>=◌, ◌>>◌}
use vugva.Tiered.State.{TieredPool, write_to, page_of}
use vugva.Gpu.Ordinals.{index_of}
use vugva.Tiered.Vram.{free_vram_on_gpu}

unfoldable pub is_last : List DramPool → Bool
is_last [] = true
is_last (_ ∷ _) = false

-- The loop over the pools: one chunk of `base` bytes each, the last one with the remainder. A pool
-- that fails ends it; what the pools before it gave stays given.
unfoldable pub place : ℕ → ℕ → List DramPool → Result (Unit {0}) × List DramPool × List DramChunk
unfolding is_last
place base_bytes remainder [] = (ok tt, [], [])
place base_bytes remainder (pool ∷ pools) =
    let chunk_bytes = base_bytes + (if is_last pools then remainder else 0) in
    let (res, pool') = pool_allocate pool chunk_bytes in
    let (res', pools', chunks) = place base_bytes remainder pools in
    elim res [
      | err e ↦ (err e, pool' ∷ pools, [])
      | ok host_ptr ↦ (
        res',
        pool' ∷ pools',
        record {
          numa_node = pool.numa_node;
          host_ptr = host_ptr;
          size_bytes = chunk_bytes;
          cuda_registered = false;
        }
            ∷ chunks,
      )
    ]

unfoldable pub initial_state : Tier → PageState
initial_state vram = resident
initial_state dram = warm
initial_state ssd = cold

-- Each chunk is offered to every pool.
unfoldable pub return_chunks : List DramChunk → List DramPool → List DramPool
return_chunks [] pools = pools
return_chunks (chunk ∷ chunks) pools =
    return_chunks chunks (map (λ p. pool_free p chunk.host_ptr chunk.size_bytes) pools)

module _ {W : Type 0} where
  -- A cold page: a range of the spill file and no DRAM.
  unfoldable pub allocate_cold : String → ℕ → Action (TieredPool W) String
  allocate_cold alloc_name total_bytes s = elim s.spill [
    | none ↦
        raise
          (unknown_allocation (
            str_append alloc_name
              ": Tier::Ssd requires a spill file — call TieredPool::attach_spill first"))
          s
    | some file ↦
        let (res, file') = reserve file total_bytes in
        let s' = record s { spill = some file' } in
        (lift res >>= λ offset.
        write_to alloc_name (λ p. record p { tier = ssd; state = cold; ssd_offset = some offset })
        >> pure alloc_name)
          s'
  ]

  -- A page with a chunk in the pool of each GPU.
  unfoldable pub allocate_backed : String → ℕ → Tier → Action (TieredPool W) String
  unfolding place initial_state
  allocate_backed alloc_name total_bytes initial_tier s =
      let num_pools = length s.dram_pools in
      let (res, pools, chunks) =
        place (total_bytes / num_pools) (total_bytes % num_pools) s.dram_pools in
      let fill =
        λ (p : Page). record p { tier = initial_tier; dram_chunks = p.dram_chunks ++ chunks } in
      let start = λ (p : Page). record p { tier = initial_tier } in
      if num_pools == 0
      then (write_to alloc_name start >> panic) s
      else (write_to alloc_name fill
            >> lift res
            >> write_to alloc_name (λ p. record p { state = initial_state initial_tier })
            >> pure alloc_name)
          (record s { dram_pools = pools })

  unfoldable pub allocate : String → List ℕ → ℕ → Tier → Action (TieredPool W) String
  unfolding allocate_cold allocate_backed
  allocate name shape element_size initial_tier s =
      let total_bytes = tensor_bytes shape element_size in
      let (alloc_name, vmt) = register s.vmt name shape element_size in
      let s' = record s { vmt = vmt } in
      elim initial_tier [
        | ssd ↦ allocate_cold alloc_name total_bytes s'
        | vram ↦ allocate_backed alloc_name total_bytes vram s'
        | dram ↦ allocate_backed alloc_name total_bytes dram s'
      ]

  -- Each device block goes to the cache of its GPU.
  unfoldable pub release_blocks : List Chunk → Action (TieredPool W) (Unit {0})
  release_blocks [] = pure tt
  release_blocks (chunk ∷ chunks) = gets (λ s. index_of s.ordinal_map chunk.gpu_ordinal) >>= λ idx.
      elim idx [
        | none ↦ release_blocks chunks
        | some gpu_idx ↦
            free_vram_on_gpu gpu_idx chunk.device_ptr chunk.size_bytes >> release_blocks chunks
      ]

  unfoldable pub deallocate : String → Action (TieredPool W) (Unit {0})
  unfolding release_blocks return_chunks
  deallocate name = page_of name >>= λ page.
      release_blocks page.vram_chunks
      >> modify (λ s. record s {
        dram_pools = return_chunks page.dram_chunks s.dram_pools;
        vmt = (remove s.vmt name).1;
      })
