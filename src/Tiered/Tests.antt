-- ===== src/Tiered/Tests.antt =====
-- The tiered pool at concrete inputs, with a driver whose calls all succeed.
use Prim.Native.String.{String}
use vugva.Common.{◌≢◌, some, ◌≤◌, inl, ℕ, ◌≡◌, refl, true, false, none, List, [], ◌∷◌, arith}
use vugva.Error.{ok}
use vugva.Pool.Fit.{align_chunk, is_tighter, search_from, reuse}
use vugva.Pool
use vugva.Pool.{DramPool}
use vugva.Dma
use vugva.Dma.{new_engine}
use vugva.Vmt
use vugva.Vmt.{DramChunk}
use vugva.Action.{done}
use vugva.Driver.Quiet.{Nothing, quiet}
use vugva.Tiered.State.{TieredPool, find_inflight}
use vugva.Gpu.Ordinals.{index_of}
use vugva.Tiered.Vram.{set_context, position, alloc_vram_on_gpu, free_vram_on_gpu}
use vugva.Tiered.Allocate.{place, is_last, allocate, allocate_backed}
use vugva.Tiered.Provided.{Provided, allocate-Provided}
use vugva.Tiered.Promote.{stage, access, access_page, access_vram, access_peer, install, find_chunk}
use vugva.Tiered.Prefetch.{claim_prefetch}
use vugva.Membrane.{observe}
use vugva.Vmt.Table.{Keyed, not-str_eq→ne}
use vugva.Tiered.Resident.{Resident}
use vugva.Tiered.Answered.{access-Resident}
use vugva.Tiered.Write.{pieces}
use vugva.Tiered.Split.{split, sum_sizes}
use vugva.Tiered.Pieces.{joined, Fits, pieces-cover}
use vugva.Tiered.Cache.{alloc-free_vram}
use vugva.Tiered.Moved.{InDram, demote-InDram, Gone, deallocate-Gone}
use vugva.Tiered.Demote.{demote}
use vugva.Tiered.Allocate.{deallocate}
use vugva.Vmt.{Page, vram, dram, get, put, update, touch, tensor_bytes, product}
use vugva.Error.{resident}
use vugva.Tiered.Stage.{Staged, stage-Staged}
use vugva.Action.Ends.{Ends, Leaves}
use vugva.Tiered.Build.{new}
use vugva.Tiered.Ready.{Ready, new-Ready}
use vugva.Membrane.Decimals.{decimals}
use vugva.Gpu.Ordinals.{ordinal_map}
use vugva.Range.Live.{holders}
use vugva.Tiered.Backing.{backing, blocks}
use vugva.Tiered.Safe.{HostSafe}
use vugva.Tiered.Calls.{
  Call, AllIsSmall, allocating, accessing, demoting, deallocating, sweeping, run_calls,
}
use vugva.Tiered.Sessions.{run_calls-Exclusive}
use vugva.Tiered.Sweep.{SweptPool, evict_all}
use vugva.Tiered.Became.{Evicted}
use vugva.Tiered.Eviction.{evict_all-Evicted}

abbrev pool_at : ℕ → DramPool
pool_at base = record {
  numa_node = 0;
  gpu_ordinal = 0;
  base_ptr = base;
  capacity = 4096;
  offset = 0;
  free_blocks = [];
  numa_bound = true;
  pinned = true;
}

abbrev two_gpus : TieredPool Nothing
two_gpus = record {
  vmt = Vmt.new 2 1;
  dma = new_engine 2;
  ordinals = 0 ∷ 1 ∷ [];
  ordinal_map = (0, 0) ∷ (1, 1) ∷ [];
  contexts = 10 ∷ 11 ∷ [];
  compute = 20 ∷ 21 ∷ [];
  prefetch_streams = 30 ∷ 31 ∷ [];
  dram_pools = pool_at 65536 ∷ pool_at 131072 ∷ [];
  vram_free = [] ∷ ((512, 7168) ∷ []) ∷ [];
  spill = none;
  inflight = [];
  membrane_hits = [];
  membrane_budget = none;
  idle_threshold_ns = 1000;
  hot_threshold = 3;
  world = tt;
}

three_pools_place : (split 100 (pool_at 65536 ∷ pool_at 131072 ∷ pool_at 196608 ∷ [])).0 ≡ ok tt
unfolding place is_last Pool.allocate Pool.extend align_chunk search_from is_tighter reuse
three_pools_place = refl

abbrev chunk_of : ℕ → ℕ → DramChunk
chunk_of ptr size = record {
  numa_node = 0;
  host_ptr = ptr;
  size_bytes = size;
  cuda_registered = false;
}

abbrev two_chunks : List DramChunk
two_chunks = chunk_of 65536 2 ∷ chunk_of 131072 3 ∷ []

sum_sizes_5 : sum_sizes two_chunks ≡ 5
unfolding sum_sizes
sum_sizes_5 = refl

pieces-cover_example :
    let (copies, written) = pieces (1 ∷ 2 ∷ 3 ∷ 4 ∷ 5 ∷ []) 5 0 two_chunks in
    (joined copies ≡ 1 ∷ 2 ∷ 3 ∷ 4 ∷ 5 ∷ []) × (written ≡ 5) × Fits copies two_chunks
pieces-cover_example =
    pieces-cover (1 ∷ 2 ∷ 3 ∷ 4 ∷ 5 ∷ []) two_chunks (omega arith, (omega arith, tt)) sum_sizes_5
      (omega arith)

no_256 : position ((512, 7168) ∷ []) 256 ≡ none
unfolding position
no_256 = refl

alloc-free_vram_example :
    let (freed, s') = free_vram_on_gpu 1 8192 256 two_gpus in
    (freed ≡ done tt) × (alloc_vram_on_gpu quiet 1 256 s' ≡ (done 8192, two_gpus))
alloc-free_vram_example =
    alloc-free_vram quiet two_gpus 1 8192 256 ((512, 7168) ∷ []) (λ e. omega (arith, e)) refl no_256

stage-Staged_example : Staged (pool_at 65536) 8000 (stage 64 (pool_at 65536) 8000)
stage-Staged_example = stage-Staged (pool_at 65536) 8000 (omega arith)

-- A pool whose page "kv" is in VRAM on the first GPU.
abbrev hot_page : Page
hot_page = record {
  name = "kv";
  tier = vram;
  state = resident;
  shape = 512 ∷ [];
  element_size = 1;
  size_bytes = 512;
  vram_chunks =
      record { gpu_ordinal = 0; device_ptr = 7000; size_bytes = 256; num_elements = 256 } ∷ [];
  dram_chunks = chunk_of 65536 256 ∷ chunk_of 131072 256 ∷ [];
  ssd_offset = none;
  access_count = 1;
  last_access_ns = 0;
  pinned = false;
}

abbrev hot_pool : TieredPool Nothing
hot_pool = record two_gpus {
  vmt = record { pages = ("kv", hot_page) ∷ []; num_gpus = 2; num_numa_nodes = 1; next_id = 0 };
}

demote_kv : (demote quiet "kv" hot_pool).0 ≡ done tt
unfolding demote get index_of Dma.submit_vram_to_dram new_engine Dma.submit_to Dma.submit Dma.new
    set_context free_vram_on_gpu
demote_kv = refl

hot_pool_page : get "kv" hot_pool.vmt.pages ≡ some hot_page
unfolding get
hot_pool_page = refl

hot_pool-Keyed : Keyed hot_pool.vmt.pages
unfolding get
hot_pool-Keyed = (refl, tt)

two_names : ◌≢◌ {A = String} "kv" "other"
two_names = not-str_eq→ne "other" "kv" refl

demote-InDram_example : InDram "kv" hot_page "other" hot_pool (demote quiet "kv" hot_pool)
demote-InDram_example =
    demote-InDram quiet "kv" hot_page hot_pool "other" hot_pool_page refl refl two_names

deallocate-Gone_example : Gone "kv" "other" hot_pool (deallocate "kv" hot_pool)
deallocate-Gone_example =
    deallocate-Gone "kv" hot_page hot_pool "other" hot_pool_page hot_pool-Keyed two_names

new-Ready_example : Ends (Ready (4 ∷ 6 ∷ []) 4096) (new quiet (4 ∷ 6 ∷ []) 4096 tt)
new-Ready_example = new-Ready quiet (4 ∷ 6 ∷ []) 4096 tt

abbrev swept_pool : SweptPool ℕ Nothing
swept_pool = record {
  pool = hot_pool;
  rates = [];
  sweeps = 0;
  policy = record { alpha = 1; beta = 1 };
}

evict_all-Evicted_example :
    Evicted
      ("absent" ∷ "kv" ∷ [])
      "kv"
      hot_pool.vmt
      (evict_all quiet ("absent" ∷ "kv" ∷ []) swept_pool)
evict_all-Evicted_example = evict_all-Evicted quiet ("absent" ∷ "kv" ∷ []) "kv" swept_pool

abbrev first_swept : SweptPool ℕ Nothing
first_swept = record swept_pool { pool = two_gpus }

two_gpus-Ready : Ready (0 ∷ 1 ∷ []) 4096 two_gpus
unfolding new_engine ordinal_map Vmt.new
two_gpus-Ready = record {
  same_ordinals = refl;
  same_map = refl;
  all_contexts = refl;
  all_compute = refl;
  all_prefetch = refl;
  all_rings = refl;
  all_caches = refl;
  all_pools = refl;
  fresh = ((refl, refl, refl), ((refl, refl, refl), tt));
  no_pages = refl;
}

-- Pages "a" and "b" are placed and moved, and "a" is placed again while "b" still holds memory.
abbrev some_calls : List Call
some_calls =
    allocating "a" (512 ∷ []) 2 vram
    ∷ allocating "b" (700 ∷ []) 4 dram
    ∷ accessing "b" 0
    ∷ deallocating "a"
    ∷ sweeping
    ∷ demoting "b"
    ∷ allocating "a" (300 ∷ []) 8 dram
    ∷ []

some_calls_small : AllIsSmall some_calls
unfolding tensor_bytes product
some_calls_small = (omega arith, (omega arith, (tt, (tt, (tt, (tt, (omega arith, tt)))))))

run_calls-Exclusive_example :
    let t = (run_calls decimals quiet some_calls first_swept).pool in
    HostSafe [] t × ((x : ℕ) → holders (blocks (backing t.vmt.pages)) x ≤ 1)
run_calls-Exclusive_example =
    run_calls-Exclusive decimals quiet (0 ∷ 1 ∷ []) 4096 first_swept some_calls two_gpus-Ready
      (omega arith) (refl, omega arith, (refl, omega arith, tt)) ((inl (omega arith), tt), (tt, tt))
      some_calls_small

-- "kv" is on the first GPU; the second one gets a copy from it.
access_kv : (access quiet "kv" 1 hot_pool).0 ≡ done 4096
unfolding access access_page access_vram access_peer install find_chunk claim_prefetch find_inflight
    get update put index_of alloc_vram_on_gpu position set_context touch observe
access_kv = refl

access-Resident_example :
    Leaves (Resident "kv" 1) (access quiet "kv" 1 hot_pool)
    × (get "other" (access quiet "kv" 1 hot_pool).1.vmt.pages ≡ get "other" hot_pool.vmt.pages)
access-Resident_example = access-Resident quiet "kv" 1 hot_pool "other" two_names

allocate_a : (allocate "a" (512 ∷ []) 2 vram two_gpus).0 ≡ done "a"
unfolding allocate allocate_backed place is_last Pool.allocate Pool.extend align_chunk search_from
    is_tighter reuse Vmt.allocate tensor_bytes product get put update Vmt.new
allocate_a = refl

allocate-Provided_example :
    Leaves
      (Provided (512 ∷ []) 2 vram two_gpus.dram_pools two_gpus.spill)
      (allocate "a" (512 ∷ []) 2 vram two_gpus)
allocate-Provided_example = allocate-Provided "a" (512 ∷ []) 2 vram two_gpus
