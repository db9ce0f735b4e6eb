-- ===== src/Tiered/Build.antt =====
-- src/tiered.rs: making a pool, and attaching the spill file.
use Prim.Native.String.{String}
use vugva.Common.{
  ℕ, suc, ◌+◌, ◌*◌, ◌/◌, ◌%◌, ◌^◌, ◌==◌, Bool, none, some, List, [], ◌∷◌, if◌then◌else◌, add_word,
  map, length, replicate, set,
}
use vugva.Error.{ok, err, cuda_error}
use vugva.Action.{done, failed, panicked, Action, pure, raise, ask, of_outcome, ◌>>=◌}
use vugva.Driver.{Driver}
use vugva.Pool.{DramPool}
use vugva.Dma.{new_engine}
use vugva.Vmt
use vugva.Spill
use vugva.Context.{PrimaryContext, new_registry, release_all, guarded_at}
use vugva.Streams.{CudaStream, StreamPool, drop_streams}
use vugva.Streams
use vugva.Gpu.Cluster.{GpuCluster, discover_cluster, optimal_dram_node}
use vugva.Tiered.State.{TieredPool}

module _ {W : Type 0} (cuda : Driver W) where
  -- Pages of 4096 bytes, rounded up, and a mask with the bit of the node. A binding that is refused is no error.
  unfoldable pub allocate_numa_dram : ℕ → ℕ → Action W (ℕ × Bool)
  allocate_numa_dram size numa_node =
      let aligned_size = add_word size 4095 / 4096 * 4096 in
      let words = numa_node / 64 + 1 in
      let nodemask = set (replicate words 0) (numa_node / 64) (2 ^ (numa_node % 64)) in
      ask (cuda.map_memory aligned_size) >>= λ mapped. elim mapped [
        | none ↦ raise (cuda_error "mmap" 2)
        | some ptr ↦
            ask (cuda.bind_memory ptr aligned_size nodemask (words * 64 % 2 ^ 64)) >>= λ rc.
            pure (ptr, rc == 0)
      ]

  -- `VUGVA_NO_PIN` stands for `CUDA_ERROR_INVALID_VALUE`.
  abbrev pub register_range : ℕ → ℕ → Action W ℕ
  register_range base_ptr size = ask cuda.skips_pinning >>= λ skip.
      if skip then pure 1 else ask (cuda.register_host base_ptr size)

  -- The body of the loop over the GPUs, from the end back.
  abbrev pub dram_pool_of : ℕ → ℕ → ℕ → ℕ × Bool → ℕ → Action W DramPool
  dram_pool_of size ord optimal_node range rc = pure (record {
    numa_node = optimal_node;
    gpu_ordinal = ord;
    base_ptr = range.0;
    capacity = size;
    offset = 0;
    free_blocks = [];
    numa_bound = range.1;
    pinned = rc == 0;
  })

  abbrev pub pin_range : List PrimaryContext → ℕ → ℕ → ℕ → ℕ → ℕ × Bool → Action W DramPool
  pin_range contexts size idx ord optimal_node range =
      guarded_at cuda contexts idx (register_range range.0 size)
      >>= dram_pool_of size ord optimal_node range

  abbrev pub pool_on_node : List PrimaryContext → ℕ → ℕ → ℕ → ℕ → Action W DramPool
  pool_on_node contexts size idx ord optimal_node =
      allocate_numa_dram size optimal_node >>= pin_range contexts size idx ord optimal_node

  unfoldable pub new_dram_pool : GpuCluster → List PrimaryContext → ℕ → ℕ → ℕ → Action W DramPool
  unfolding optimal_dram_node allocate_numa_dram guarded_at
  new_dram_pool cluster contexts size idx ord =
      of_outcome (optimal_dram_node cluster ord) >>= pool_on_node contexts size idx ord

  abbrev pub cons_pool : DramPool → List DramPool → Action W (List DramPool)
  cons_pool p ps = pure (p ∷ ps)

  unfoldable pub new_dram_pools :
      GpuCluster → List PrimaryContext → ℕ → ℕ → List ℕ → Action W (List DramPool)
  unfolding new_dram_pool
  new_dram_pools cluster contexts size idx [] = pure []
  new_dram_pools cluster contexts size idx (ord ∷ ordinals) =
      new_dram_pool cluster contexts size idx ord >>= λ p.
      new_dram_pools cluster contexts size (suc idx) ordinals >>= cons_pool p

  -- An action, and what the method drops if it ends early.
  abbrev pub or_drop : {A : Type 0} → (W → W) → Action W A → Action W A
  or_drop drops m w =
      let (r, w') = m w in
      elim r [
        | done a ↦ (done a, w')
        | failed e ↦ (failed e, drops w')
        | panicked ↦ (panicked, drops w')
      ]

  abbrev drop_stream_pool : StreamPool → W → W
  drop_stream_pool p w = drop_streams cuda p.prefetch (drop_streams cuda p.compute w)

  -- The pool of a new cluster, with the defaults of five seconds and ten accesses.
  unfoldable pub assemble :
      List ℕ → GpuCluster → List PrimaryContext → StreamPool → List DramPool → W → TieredPool W
  unfolding Vmt.new new_engine
  assemble ordinals cluster contexts streams dram_pools w =
      let n = length ordinals in
      record {
        vmt = Vmt.new n cluster.numa.node_count;
        dma = new_engine n;
        ordinals = cluster.ordinals;
        ordinal_map = cluster.ordinal_map;
        contexts = map (λ c. c.ctx) contexts;
        compute = map (λ s. s.inner) streams.compute;
        prefetch_streams = map (λ s. s.inner) streams.prefetch;
        dram_pools = dram_pools;
        vram_free = replicate n [];
        spill = none;
        inflight = [];
        membrane_hits = [];
        membrane_budget = none;
        idle_threshold_ns = 5000000000;
        hot_threshold = 10;
        world = w;
      }

  -- `new`, from the end back. Ranges that are mapped already stay mapped when a later step fails: a `DramPool` has
  -- no destructor.
  abbrev pub pool_of :
      List ℕ
      → GpuCluster
      → List PrimaryContext
      → StreamPool
      → List DramPool
      → Action W (TieredPool W)
  pool_of ordinals cluster contexts streams pools w =
      (done (assemble ordinals cluster contexts streams pools w), w)

  abbrev pub drop_all : List PrimaryContext → StreamPool → W → W
  drop_all contexts streams w = release_all cuda contexts (drop_stream_pool streams w)

  abbrev pub with_streams :
      List ℕ → ℕ → GpuCluster → List PrimaryContext → StreamPool → Action W (TieredPool W)
  with_streams ordinals size cluster contexts streams =
      or_drop (drop_all contexts streams) (new_dram_pools cluster contexts size 0 ordinals)
      >>= pool_of ordinals cluster contexts streams

  abbrev pub with_contexts : List ℕ → ℕ → GpuCluster → List PrimaryContext → Action W (TieredPool W)
  with_contexts ordinals size cluster contexts =
      or_drop (release_all cuda contexts) (Streams.new_pool cuda contexts)
      >>= with_streams ordinals size cluster contexts

  abbrev pub with_cluster : List ℕ → ℕ → GpuCluster → Action W (TieredPool W)
  with_cluster ordinals size cluster =
      new_registry cuda ordinals >>= with_contexts ordinals size cluster

  unfoldable pub new : List ℕ → ℕ → Action W (TieredPool W)
  unfolding discover_cluster new_registry Streams.new_pool new_dram_pools assemble release_all
      drop_streams
  new ordinals size = discover_cluster cuda ordinals >>= with_cluster ordinals size

  -- The file itself is the system's; what the pool keeps of it is its ranges.
  unfoldable pub attach_spill : String → ℕ → Bool → Action (TieredPool W) (Unit {0})
  unfolding Spill.create
  attach_spill path capacity unlink_on_drop s =
      let (r, w) = Spill.create cuda.open_spill path capacity unlink_on_drop s.world in
      elim r [
        | ok f ↦ (done tt, record s { spill = some f.alloc; world = w })
        | err e ↦ (failed e, record s { world = w })
      ]
