-- ===== src/Tiered/Demote.antt =====
-- src/tiered.rs: `TieredPool::demote` and the idle-timeout half of `background_sweep`.
use Prim.Native.String.{String}
use vugva.Common.{
  sign_extend, ℕ, Bool, true, false, ◌&&◌, List, [], ◌∷◌, if◌then◌else◌, ltb, get_elem?,
}
use vugva.Error.{PageState, resident, warm, unknown_allocation, invalid_gpu, dram_oom}
use vugva.Dma.{submit_vram_to_dram}
use vugva.Vmt.{Tier, vram, dram, ssd, Chunk, DramChunk, Page, is_idle, is_hot}
use vugva.Action.{Action, pure, raise, gets, or_raise, or_panic, ◌>>=◌, ◌>>◌}
use vugva.Driver.{Driver}
use vugva.Tiered.State.{TieredPool, ask, submit, call, write_to, page_of, handle}
use vugva.Gpu.Ordinals.{index_of}
use vugva.Tiered.Vram.{free_vram_on_gpu, set_context}
use vugva.Tiered.Promote.{access}

unfoldable pub demoted : Page → Page
demoted p = record p { vram_chunks = []; tier = dram; state = warm }

module _ {W : Type 0} (cuda : Driver W) where
  -- One chunk written back to the shard of its GPU and released.
  unfoldable pub write_back : Chunk → ℕ → DramChunk → Action (TieredPool W) (Unit {0})
  write_back chunk gpu_idx backing =
      submit
        (λ e. submit_vram_to_dram e gpu_idx chunk.device_ptr backing.host_ptr chunk.size_bytes 0)
      >> set_context cuda gpu_idx
      >> handle (λ s. s.compute) gpu_idx
      >>= λ stream.
          call "cuMemcpyDtoHAsync_v2"
            (cuda.copy_to_host_async backing.host_ptr chunk.device_ptr chunk.size_bytes stream)
          >> call "cuStreamSynchronize" (cuda.synchronize_stream stream)
          >> free_vram_on_gpu gpu_idx chunk.device_ptr chunk.size_bytes

  -- A chunk that its shard cannot hold is refused.
  unfoldable pub demote_chunk : String → List DramChunk → Chunk → Action (TieredPool W) (Unit {0})
  unfolding write_back
  demote_chunk name shards chunk = gets (λ s. index_of s.ordinal_map chunk.gpu_ordinal) >>= λ found.
      or_raise found (invalid_gpu (sign_extend chunk.gpu_ordinal)) >>= λ gpu_idx.
      or_raise (get_elem? shards gpu_idx) (unknown_allocation name) >>= λ backing.
      if ltb backing.size_bytes chunk.size_bytes
      then (gets (λ s. get_elem? s.dram_pools gpu_idx) >>= or_panic >>= λ pool.
          raise (dram_oom chunk.size_bytes backing.size_bytes pool.capacity))
      else write_back chunk gpu_idx backing

  unfoldable pub demote_chunks :
      String → List DramChunk → List Chunk → Action (TieredPool W) (Unit {0})
  unfolding demote_chunk
  demote_chunks name shards [] = pure tt
  demote_chunks name shards (chunk ∷ chunks) =
      demote_chunk name shards chunk >> demote_chunks name shards chunks

  unfoldable pub demote_resident : String → Page → Action (TieredPool W) (Unit {0})
  unfolding demote_chunks demoted
  demote_resident name page =
      demote_chunks name page.dram_chunks page.vram_chunks >> write_to name demoted

  -- Only an unpinned page in VRAM is demoted.
  unfoldable pub demote : String → Action (TieredPool W) (Unit {0})
  unfolding demote_resident
  demote name = page_of name >>= λ page. elim page.tier [
    | vram ↦ if page.pinned then pure tt else demote_resident name page
    | dram ↦ pure tt
    | ssd ↦ pure tt
  ]

  unfoldable pub demote_all : List String → Action (TieredPool W) (Unit {0})
  unfolding demote
  demote_all [] = pure tt
  demote_all (name ∷ names) = demote name >> demote_all names

  -- "Promote to VRAM on GPU 0."
  unfoldable pub promote_all : List String → Action (TieredPool W) (Unit {0})
  promote_all [] = pure tt
  promote_all (name ∷ names) = access cuda name 0 >> promote_all names

unfoldable pub is_resident : PageState → Bool
is_resident resident = true
is_resident _ = false

unfoldable pub is_in_dram : Tier → Bool
is_in_dram dram = true
is_in_dram _ = false

-- The two lists of a sweep, in the order in which the table is iterated.
unfoldable pub to_demote : ℕ → ℕ → List (String × Page) → List String
unfolding is_resident
to_demote now idle_threshold_ns [] = []
to_demote now idle_threshold_ns ((name, page) ∷ m) =
    let rest = to_demote now idle_threshold_ns m in
    if is_resident page.state && is_idle page now idle_threshold_ns then name ∷ rest else rest

unfoldable pub to_promote : ℕ → List (String × Page) → List String
unfolding is_in_dram
to_promote hot_threshold [] = []
to_promote hot_threshold ((name, page) ∷ m) =
    let rest = to_promote hot_threshold m in
    if is_in_dram page.tier && is_hot page hot_threshold then name ∷ rest else rest

-- `background_sweep` of a pool without a membrane.
unfoldable pub idle_sweep : {W : Type 0} → Driver W → Action (TieredPool W) (Unit {0})
unfolding demote_all promote_all to_demote to_promote
idle_sweep cuda = ask cuda.now_ns >>= λ now.
    gets (λ s. to_demote now s.idle_threshold_ns s.vmt.pages) >>= λ idle.
    gets (λ s. to_promote s.hot_threshold s.vmt.pages) >>= λ hot.
    demote_all cuda idle >> promote_all cuda hot
