-- ===== src/Engine/Tests.antt =====
-- The first engine on two GPUs.
use vugva.Common.{ℕ, ◌==◌, if◌then◌else◌, ◌≡◌, refl, ◌⊎◌, false, none, some, List, [], ◌∷◌, arith}
use vugva.Error.{resident, cuda_error, unknown_allocation, invalid_gpu}
use vugva.Action.{failed}
use vugva.Action.Ends.{Leaves}
use vugva.Driver.{Driver}
use vugva.Driver.Quiet.{quiet, quiet_on}
use vugva.Context.{bind_at, bind, get}
use vugva.Gpu.Ordinals.{index_of}
use vugva.Gpu.Cluster.{GpuCluster}
use vugva.Vmt.{Chunk, Page, vram, lookup, remove, tensor_bytes, drop, get as get_page}
use vugva.Engine.{VugvaEngine, allocate, free_device, set_device}
use vugva.Engine.OnGpu.{HasChunk}
use vugva.Engine.Held.{access-HasChunk}
use vugva.Engine.Builder.{builder, gpus, build}
use vugva.Engine.Access.{new, access, free, free_chunks, free_chunk, report}
use vugva.Engine.Free.{give_all, first_error, free-give_all}
use vugva.Engine.Stored.{Stored}
use vugva.Engine.Covers.{allocate-Stored}

abbrev cluster : GpuCluster
cluster = record {
  infos = [];
  ordinals = 4 ∷ 6 ∷ [];
  peer_matrix = record { can_access = []; enabled = []; num_gpus = 0; primary_ctxs = [] };
  numa = record { distances = []; node_count = 0 };
  ordinal_map = (4, 0) ∷ (6, 1) ∷ [];
}

abbrev chunk_on : ℕ → ℕ → Chunk
chunk_on ordinal ptr = record {
  gpu_ordinal = ordinal;
  device_ptr = ptr;
  size_bytes = 256;
  num_elements = 256;
}

abbrev page : Page
page = record {
  name = "w";
  tier = vram;
  state = resident;
  shape = 512 ∷ [];
  element_size = 1;
  size_bytes = 512;
  vram_chunks = chunk_on 4 7000 ∷ chunk_on 6 8000 ∷ [];
  dram_chunks = [];
  ssd_offset = none;
  access_count = 0;
  last_access_ns = 0;
  pinned = false;
}

abbrev engine : VugvaEngine
engine = record {
  cluster = cluster;
  vmt = record { pages = ("w", page) ∷ []; num_gpus = 2; num_numa_nodes = 1; next_id = 0 };
  contexts = record { device = 4; ctx = 70 } ∷ record { device = 6; ctx = 71 } ∷ [];
  streams = record { compute = []; prefetch = []; len = 0 };
}

-- A driver that logs the blocks it is asked to free, and refuses block 7000.
abbrev logging : Driver (List ℕ)
logging = record quiet_on { mem_free = λ p w. (if p == 7000 then 1 else 0, p ∷ w) }

-- Both blocks are freed, and the first one's error is answered.
both_freed : (free logging "w" (engine, [])).0 ≡ failed (cuda_error "cuMemFree_v2" 1)
unfolding free free_chunks free_chunk free_device set_device bind_at bind get index_of lookup
    get_page remove drop
both_freed = refl

both_logged : (free logging "w" (engine, [])).1.1 ≡ 8000 ∷ 7000 ∷ []
unfolding free free_chunks free_chunk free_device set_device bind_at bind get index_of lookup
    get_page remove drop
both_logged = refl

free-give_all_example : free logging "w" (engine, []) ≡ (elim (lookup engine.vmt "w") [
  | none ↦ (failed (unknown_allocation "w"), (engine, []))
  | some p ↦
      let e' = record engine { vmt = (remove engine.vmt "w").1 } in
      let (errors, w') = give_all logging e' p.vram_chunks [] in
      (report logging (first_error logging errors), (e', w'))
])
free-give_all_example = free-give_all logging "w" engine []

-- 300 MiB and one byte over two GPUs.
allocate-Stored_example :
    let total = tensor_bytes (314572801 ∷ []) 1 in
    Leaves
      (λ alloc_name t.
        Stored quiet engine.contexts alloc_name total (4 ∷ []) t.0
        ⊎ Stored quiet engine.contexts alloc_name total (4 ∷ 6 ∷ []) t.0)
      (allocate quiet "x" (314572801 ∷ []) 1 (engine, tt))
allocate-Stored_example =
    allocate-Stored quiet "x" (314572801 ∷ []) 1 4 (6 ∷ []) (engine, tt) refl (omega arith)

access-HasChunk_example :
    Leaves (λ ptr t. HasChunk "w" 6 ptr t.0.vmt) (access quiet "w" 6 (engine, tt))
access-HasChunk_example = access-HasChunk quiet "w" 6 (engine, tt)

-- A builder that was given no ordinals builds nothing.
no_gpus : (build quiet builder tt).0 ≡ failed (invalid_gpu 0)
unfolding build builder new
no_gpus = refl

two_ordinals : (gpus (gpus builder (3 ∷ [])) (0 ∷ 1 ∷ [])).gpu_ordinals ≡ 0 ∷ 1 ∷ []
unfolding gpus builder
two_ordinals = refl
