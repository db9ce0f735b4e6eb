-- ===== src/Engine.antt =====
-- src/allocator.rs: the allocator of device memory on several GPUs, and the first engine on top of it.
pub mod Access
pub mod Builder
pub mod Chunks
pub mod Keeps
pub mod Stored
pub mod OnGpu
pub mod Covers
pub mod Held
pub mod Free
mod Tests
use Prim.Native.String.{String}
use vugva.Common.{
  ℕ, zero, suc, ◌+◌, ◌-◌, ◌*◌, ◌/◌, ◌^◌, ◌==◌, ltb, leb, Bool, true, false, not, ◌&&◌, Option, none,
  some, List, [], ◌∷◌, ◌++◌, if◌then◌else◌, get_elem?, length, mul_word, sub_word,
}
use vugva.Error.{VugvaError, PageState, resident, invalid_gpu, unknown_allocation}
use vugva.Action.{
  Outcome, done, failed, panicked, Action, pure, raise, panic, gets, or_raise, or_panic, modify,
  attempt, call, call_for, ◌>>=◌, ◌>>◌,
}
use vugva.Driver.{Driver}
use vugva.Context.{PrimaryContext, get, bind_at, new_registry, release_all}
use vugva.Streams.{CudaStream, StreamPool, synchronize}
use vugva.Streams
use vugva.Gpu.Ordinals.{index_of}
use vugva.Gpu.Cluster.{GpuCluster, discover_cluster, enable_peer_access}
use vugva.Vmt
use vugva.Vmt.{Chunk, Page, VirtualMemoryTable, vram, tensor_bytes, lookup, update, remove}

-- `UnifiedAllocator`, without the ordinals and infos that nothing reads: its contexts.
module _ {W : Type 0} (cuda : Driver W) where
  unfoldable pub set_device : List PrimaryContext → ℕ → Action W (Unit {0})
  unfolding bind_at
  set_device contexts idx = bind_at cuda contexts idx

  unfoldable pub free_vram : List PrimaryContext → ℕ → Action W ℕ
  unfolding set_device
  free_vram contexts idx = set_device contexts idx >> call_for "cuMemGetInfo_v2" cuda.mem_info

  unfoldable pub alloc_device : List PrimaryContext → ℕ → ℕ → Action W ℕ
  unfolding set_device
  alloc_device contexts idx bytes =
      set_device contexts idx >> call_for "cuMemAlloc_v2" (cuda.mem_alloc bytes)

  unfoldable pub free_device : List PrimaryContext → ℕ → ℕ → Action W (Unit {0})
  unfolding set_device
  free_device contexts idx ptr = set_device contexts idx >> call "cuMemFree_v2" (cuda.mem_free ptr)

  unfoldable pub peer_copy_async : List PrimaryContext → ℕ → ℕ → ℕ → ℕ → ℕ → ℕ → Action W (Unit {0})
  unfolding set_device get
  peer_copy_async contexts src_gpu src_ptr dst_gpu dst_ptr bytes stream =
      set_device contexts dst_gpu >> get cuda contexts dst_gpu >>= λ dst.
      get cuda contexts src_gpu >>= λ src.
      call "cuMemcpyPeerAsync" (cuda.copy_peer dst_ptr dst.ctx src_ptr src.ctx bytes stream)

pub record VugvaEngine : Type 0 where
  pub cluster : GpuCluster
  pub vmt : VirtualMemoryTable
  pub contexts : List PrimaryContext
  pub streams : StreamPool

-- The size of the chunk of GPU `i`: the last takes the remainder.
unfoldable pub actual_chunk : ℕ → ℕ → ℕ → ℕ
actual_chunk total_bytes num_gpus i =
    let chunk_bytes = total_bytes / num_gpus in
    if i == sub_word num_gpus 1
    then sub_word total_bytes (mul_word chunk_bytes (sub_word num_gpus 1))
    else chunk_bytes

-- `SINGLE_GPU_LIMIT`
abbrev pub single_gpu_limit : ℕ
single_gpu_limit = 128 * 1024 * 1024

module _ {W : Type 0} (cuda : Driver W) where
  -- A method of the engine, on the engine and the world.
  abbrev pub Method : Type 0 → Type 0
  Method A = Action (VugvaEngine × W) A

  abbrev pub driven : {A : Type 0} → (List PrimaryContext → Action W A) → Method A
  driven m (e, w) = let (r, w') = m e.contexts w in (r, (e, w'))

  abbrev pub set_table : (VirtualMemoryTable → VirtualMemoryTable) → Method (Unit {0})
  set_table f (e, w) = (done tt, (record e { vmt = f e.vmt }, w))

  -- `vmt.allocate`, which does not fail.
  abbrev pub register : String → List ℕ → ℕ → Method String
  register name shape element_size (e, w) =
      let (alloc_name, t) = Vmt.allocate e.vmt name shape element_size in
      (done alloc_name, (record e { vmt = t }, w))

  -- `page.vram_chunks.push(Chunk { .. })`. `chunk / element_size` panics on 0.
  abbrev pub push_chunk : String → ℕ → ℕ → ℕ → ℕ → Method (Unit {0})
  push_chunk name ordinal ptr size element_size =
      if element_size == 0
      then panic
      else set_table (λ t. update t name (λ p. record p {
        vram_chunks =
            p.vram_chunks
            ++ record {
              gpu_ordinal = ordinal;
              device_ptr = ptr;
              size_bytes = size;
              num_elements = size / element_size;
            }
              ∷ [];
      }))

  abbrev pub mark_resident : String → Method (Unit {0})
  mark_resident name =
      set_table (λ t. update t name (λ p. record p { state = resident; tier = vram }))

  -- The fast path: all of it on the first GPU.
  unfoldable pub allocate_single : String → List ℕ → ℕ → Method String
  unfolding alloc_device Vmt.allocate
  allocate_single name shape element_size =
      let total_bytes = tensor_bytes shape element_size in
      register name shape element_size >>= λ alloc_name.
      driven (λ cs. alloc_device cuda cs 0 total_bytes) >>= λ ptr.
      (gets λ s. get_elem? s.0.cluster.ordinals 0) >>= or_panic >>= λ ordinal.
      push_chunk alloc_name ordinal ptr total_bytes element_size
      >> mark_resident alloc_name
      >> pure alloc_name

  unfoldable pub shard : String → ℕ → ℕ → ℕ → ℕ → List ℕ → Method (Unit {0})
  unfolding alloc_device actual_chunk
  shard name total_bytes element_size num_gpus i [] = pure tt
  shard name total_bytes element_size num_gpus i (ord ∷ ordinals) =
      let size = actual_chunk total_bytes num_gpus i in
      driven (λ cs. alloc_device cuda cs i size) >>= λ ptr.
      push_chunk name ord ptr size element_size
      >> shard name total_bytes element_size num_gpus (suc i) ordinals

  unfoldable pub allocate_sharded : String → List ℕ → ℕ → Method String
  unfolding shard Vmt.allocate
  allocate_sharded name shape element_size = register name shape element_size >>= λ alloc_name.
      (gets λ s. s.0.cluster.ordinals) >>= λ ordinals.
      shard alloc_name (tensor_bytes shape element_size) element_size (length ordinals) 0 ordinals
      >> mark_resident alloc_name
      >> pure alloc_name

  -- Whether the first GPU has room; an error of the query counts as no.
  unfoldable pub fits_single : ℕ → Method Bool
  unfolding free_vram
  fits_single total_bytes s =
      if leb total_bytes single_gpu_limit
      then (let (r, s') = driven (λ cs. free_vram cuda cs 0) s in
          elim r [
            | done free ↦ (done (leb total_bytes free), s')
            | failed e ↦ (done false, s')
            | panicked ↦ (panicked, s')
          ])
      else (done false, s)

  -- `total_bytes / num_gpus` panics without GPUs.
  unfoldable pub allocate : String → List ℕ → ℕ → Method String
  unfolding fits_single allocate_single allocate_sharded
  allocate name shape element_size = (gets λ s. length s.0.cluster.ordinals) >>= λ num_gpus.
      if num_gpus == 0
      then panic
      else (fits_single (tensor_bytes shape element_size) >>= λ single.
          if single
          then allocate_single name shape element_size
          else allocate_sharded name shape element_size)
