-- ===== src/Engine/Access.antt =====
-- src/allocator.rs: the engine's construction, `access` and `free`.
use Prim.Native.String.{String}
use vugva.Common.{
  sign_extend, ℕ, ◌==◌, Bool, true, false, Option, none, some, List, [], ◌∷◌, if◌then◌else◌,
  get_elem?, length,
}
use vugva.Error.{VugvaError, PageState, resident, invalid_gpu, unknown_allocation}
use vugva.Action.{
  Outcome, done, failed, panicked, Action, pure, raise, gets, or_raise, or_panic, attempt, ◌>>=◌,
  ◌>>◌,
}
use vugva.Driver.{Driver}
use vugva.Context.{new_registry, release_all}
use vugva.Streams.{synchronize}
use vugva.Streams
use vugva.Gpu.Ordinals.{index_of}
use vugva.Gpu.Cluster.{GpuCluster, discover_cluster, enable_peer_access}
use vugva.Vmt
use vugva.Vmt.{Chunk, Page, VirtualMemoryTable, lookup, remove}
use vugva.Engine.{
  VugvaEngine, Method, driven, set_table, push_chunk, alloc_device, free_device, peer_copy_async,
}

-- The chunk on a GPU, and the first chunk.
unfoldable pub find_chunk : ℕ → List Chunk → Option Chunk
find_chunk gpu_ordinal [] = none
find_chunk gpu_ordinal (c ∷ cs) =
    if c.gpu_ordinal == gpu_ordinal then some c else find_chunk gpu_ordinal cs

unfoldable pub is_resident : PageState → Bool
is_resident resident = true
is_resident _ = false

-- The chunk that a resident page has on a GPU already.
unfoldable pub resident_chunk : Page → ℕ → Option Chunk
unfolding find_chunk is_resident
resident_chunk page gpu_ordinal =
    if is_resident page.state then find_chunk gpu_ordinal page.vram_chunks else none

module _ {W : Type 0} (cuda : Driver W) where
  -- What an early return of `new` drops: the contexts of the peer matrix, or of the registry and the matrix.
  abbrev drop_cluster : GpuCluster → W → W
  drop_cluster c w = release_all cuda c.peer_matrix.primary_ctxs w

  unfoldable pub new : List ℕ → Action W VugvaEngine
  unfolding discover_cluster enable_peer_access new_registry Streams.new_pool Vmt.new release_all
  new [] = raise (invalid_gpu 0)
  new (o ∷ os) = discover_cluster cuda (o ∷ os) >>= λ cluster w.
      let (enabled, (c, w1)) = enable_peer_access cuda (cluster, w) in
      elim enabled [
        | failed e ↦ (failed e, drop_cluster c w1)
        | panicked ↦ (panicked, drop_cluster c w1)
        | done _ ↦
            let (registry, w2) = new_registry cuda c.ordinals w1 in
            elim registry [
              | failed e ↦ (failed e, drop_cluster c w2)
              | panicked ↦ (panicked, drop_cluster c w2)
              | done contexts ↦
                  let (pool, w3) = Streams.new_pool cuda contexts w2 in
                  elim pool [
                    | failed e ↦ (failed e, drop_cluster c (release_all cuda contexts w3))
                    | panicked ↦ (panicked, drop_cluster c (release_all cuda contexts w3))
                    | done streams ↦ (
                      done (record {
                        cluster = c;
                        vmt = Vmt.new (length (o ∷ os)) c.numa.node_count;
                        contexts = contexts;
                        streams = streams;
                      }),
                      w3,
                    )
                  ]
            ]
      ]

  -- The copy of `src` to the GPU, on its compute stream, and its new chunk.
  unfoldable pub copy_chunk : String → ℕ → ℕ → Chunk → Page → Method cuda ℕ
  unfolding alloc_device peer_copy_async synchronize
  copy_chunk name gpu_ordinal gpu_idx src page =
      (gets λ s. index_of s.0.cluster.ordinal_map src.gpu_ordinal) >>= or_panic >>= λ src_idx.
      driven cuda (λ cs. alloc_device cuda cs gpu_idx src.size_bytes) >>= λ dst_ptr.
      (gets λ s. get_elem? s.0.streams.compute gpu_idx) >>= or_panic >>= λ stream.
      driven cuda (λ cs.
        peer_copy_async cuda cs src_idx src.device_ptr gpu_idx dst_ptr src.size_bytes stream.inner)
      >> driven cuda (λ cs. synchronize cuda stream)
      >> push_chunk cuda name gpu_ordinal dst_ptr src.size_bytes page.element_size
      >> pure dst_ptr

  -- From the first chunk, wherever it is.
  unfoldable pub fetch : String → ℕ → ℕ → Page → List Chunk → Method cuda ℕ
  unfolding copy_chunk
  fetch name gpu_ordinal gpu_idx page [] = raise (unknown_allocation name)
  fetch name gpu_ordinal gpu_idx page (src ∷ cs) =
      if src.gpu_ordinal == gpu_ordinal
      then pure src.device_ptr
      else copy_chunk name gpu_ordinal gpu_idx src page

  unfoldable pub access_page : String → ℕ → ℕ → Page → Method cuda ℕ
  unfolding resident_chunk fetch
  access_page name gpu_ordinal gpu_idx page = elim (resident_chunk page gpu_ordinal) [
    | some c ↦ pure c.device_ptr
    | none ↦ fetch name gpu_ordinal gpu_idx page page.vram_chunks
  ]

  -- `page_of(name)`: the page, or an error.
  abbrev pub known : String → Method cuda Page
  known name = gets (λ s. lookup s.0.vmt name) >>= λ o. or_raise o (unknown_allocation name)

  unfoldable pub access : String → ℕ → Method cuda ℕ
  unfolding access_page lookup index_of
  access name gpu_ordinal = (gets λ s. index_of s.0.cluster.ordinal_map gpu_ordinal) >>= λ o.
      or_raise o (invalid_gpu (sign_extend gpu_ordinal)) >>= λ gpu_idx.
      known name >>= access_page name gpu_ordinal gpu_idx

  unfoldable pub free_chunk : Chunk → Method cuda (Unit {0})
  unfolding free_device index_of
  free_chunk c (e, w) = elim (index_of e.cluster.ordinal_map c.gpu_ordinal) [
    | none ↦ (failed (invalid_gpu (sign_extend c.gpu_ordinal)), (e, w))
    | some gpu_idx ↦ driven cuda (λ cs. free_device cuda cs gpu_idx c.device_ptr) (e, w)
  ]

  -- `first_err.get_or_insert(e)`
  abbrev pub first_of : Option VugvaError → Option VugvaError → Option VugvaError
  first_of none e = e
  first_of (some e) _ = some e

  -- The loop, with the first error so far.
  unfoldable pub free_chunks : Option VugvaError → List Chunk → Method cuda (Option VugvaError)
  unfolding free_chunk
  free_chunks first [] = pure first
  free_chunks first (c ∷ cs) = attempt (free_chunk c) >>= λ e. free_chunks (first_of first e) cs

  abbrev pub report : Option VugvaError → Outcome (Unit {0})
  report none = done tt
  report (some e) = failed e

  unfoldable pub free : String → Method cuda (Unit {0})
  unfolding free_chunks lookup remove
  free name = known name >>= λ page.
      set_table cuda (λ t. (remove t name).1) >> free_chunks none page.vram_chunks >>= λ first s.
      (report first, s)
