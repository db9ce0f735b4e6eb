-- ===== src/Tiered/Lowered.antt =====
-- Demotions, writes and the release of device blocks, which leave the host memory alone.
use Prim.Native.String.{String, ◌++◌ as str_append}
use vugva.Common.{
  sign_extend, ℕ, ◌==◌, refl, not, none, some, List, [], ◌∷◌, if◌then◌else◌, ltb, get_elem?, length,
}
use vugva.Error.{unknown_allocation, invalid_gpu, dram_oom, io, IoError}
use vugva.Dma.{submit_vram_to_dram}
use vugva.Vmt.{vram, dram, ssd, Tier, Chunk, DramChunk, Page, get}
use vugva.Action
use vugva.Action.{Action, pure, raise, gets, or_panic, modify, ◌>>=◌, ◌>>◌}
use vugva.Driver.{Driver}
use vugva.Gpu.Ordinals.{index_of}
use vugva.Tiered.State.{TieredPool, page_of}
use vugva.Tiered.Vram.{free_vram_on_gpu}
use vugva.Tiered.Allocate.{release_blocks}
use vugva.Tiered.Demote.{
  demoted, write_back, demote_chunk, demote_chunks, demote_resident, demote, demote_all,
}
use vugva.Tiered.Write.{pieces, write_pieces, write_cold, write_backed, write_page}
use vugva.Tiered.Keeps.{
  Keeps, pure-Keeps, raise-Keeps, gets-Keeps, within-Keeps, or_raise-Keeps, or_panic-Keeps,
  if-Keeps, bind-Keeps, then-Keeps, submit-Keeps, write_to-Keeps, handle-Keeps,
}
use vugva.Tiered.Unmoved.{free_vram-Keeps, call-Keeps, set_context-Keeps}

pub page_of-Keeps : {W : Type 0} (name : String) → Keeps {W = W} (page_of name)
page_of-Keeps name =
    bind-Keeps (gets-Keeps (λ s. get name s.vmt.pages))
      (λ o. or_raise-Keeps o (unknown_allocation name))

pub release_blocks-Keeps :
    {W : Type 0} (chunks : List Chunk) → Keeps {W = W} (release_blocks chunks)
unfolding release_blocks
release_blocks-Keeps [] = pure-Keeps tt
release_blocks-Keeps {W} (chunk ∷ chunks) =
    bind-Keeps (gets-Keeps (λ s. index_of s.ordinal_map chunk.gpu_ordinal)) (λ idx.
      elim idx
        as (λ o. Keeps {W = W} (elim o as (λ _. Action (TieredPool W) (Unit {0})) [
          | none ↦ release_blocks chunks
          | some gpu_idx ↦
              free_vram_on_gpu gpu_idx chunk.device_ptr chunk.size_bytes >> release_blocks chunks
        ])) [
          | none ↦ release_blocks-Keeps chunks
          | some gpu_idx ↦
              then-Keeps (free_vram-Keeps gpu_idx chunk.device_ptr chunk.size_bytes)
                (release_blocks-Keeps chunks)
        ])

module _ {W : Type 0} (cuda : Driver W) where
  write_back-Keeps :
      (chunk : Chunk) (gpu_idx : ℕ) (backing : DramChunk)
      → Keeps (write_back cuda chunk gpu_idx backing)
  unfolding write_back
  write_back-Keeps chunk gpu_idx backing =
      bind-Keeps
        (then-Keeps
          (then-Keeps
            (submit-Keeps (λ e.
              submit_vram_to_dram e gpu_idx chunk.device_ptr backing.host_ptr chunk.size_bytes 0))
            (set_context-Keeps cuda gpu_idx))
          (handle-Keeps (λ s. s.compute) gpu_idx))
        (λ stream.
          then-Keeps
            (then-Keeps
              (call-Keeps cuda "cuMemcpyDtoHAsync_v2"
                (cuda.copy_to_host_async backing.host_ptr chunk.device_ptr chunk.size_bytes stream))
              (call-Keeps cuda "cuStreamSynchronize" (cuda.synchronize_stream stream)))
            (free_vram-Keeps gpu_idx chunk.device_ptr chunk.size_bytes))

  demote_chunk-Keeps :
      (name : String) (shards : List DramChunk) (chunk : Chunk)
      → Keeps (demote_chunk cuda name shards chunk)
  unfolding demote_chunk
  demote_chunk-Keeps name shards chunk =
      bind-Keeps (gets-Keeps (λ s. index_of s.ordinal_map chunk.gpu_ordinal)) (λ found.
        bind-Keeps (or_raise-Keeps found (invalid_gpu (sign_extend chunk.gpu_ordinal))) (λ gpu_idx.
          bind-Keeps (or_raise-Keeps (get_elem? shards gpu_idx) (unknown_allocation name))
            (λ backing.
              if-Keeps (ltb backing.size_bytes chunk.size_bytes)
                (bind-Keeps
                  (bind-Keeps (gets-Keeps (λ s. get_elem? s.dram_pools gpu_idx)) or_panic-Keeps)
                  (λ pool.
                    raise-Keeps (dram_oom chunk.size_bytes backing.size_bytes pool.capacity)))
                (write_back-Keeps chunk gpu_idx backing))))

  demote_chunks-Keeps :
      (name : String) (shards : List DramChunk) (chunks : List Chunk)
      → Keeps (demote_chunks cuda name shards chunks)
  unfolding demote_chunks
  demote_chunks-Keeps name shards [] = pure-Keeps tt
  demote_chunks-Keeps name shards (chunk ∷ chunks) =
      then-Keeps (demote_chunk-Keeps name shards chunk) (demote_chunks-Keeps name shards chunks)

  demote_resident-Keeps : (name : String) (page : Page) → Keeps (demote_resident cuda name page)
  unfolding demote_resident demoted
  demote_resident-Keeps name page =
      then-Keeps (demote_chunks-Keeps name page.dram_chunks page.vram_chunks)
        (write_to-Keeps name demoted (λ p. (refl, refl)))

  pub demote-Keeps : (name : String) → Keeps (demote cuda name)
  unfolding demote
  demote-Keeps name = bind-Keeps (page_of-Keeps name) (λ page. from page page.tier)
    where
      from :
          (page : Page) (t : Tier)
          → Keeps (elim t as (λ _. Action (TieredPool W) (Unit {0})) [
            | vram ↦ if page.pinned then pure tt else demote_resident cuda name page
            | dram ↦ pure tt
            | ssd ↦ pure tt
          ])
      from page vram = if-Keeps page.pinned (pure-Keeps tt) (demote_resident-Keeps name page)
      from page dram = pure-Keeps tt
      from page ssd = pure-Keeps tt

  pub demote_all-Keeps : (names : List String) → Keeps (demote_all cuda names)
  unfolding demote_all
  demote_all-Keeps [] = pure-Keeps tt
  demote_all-Keeps (name ∷ names) = then-Keeps (demote-Keeps name) (demote_all-Keeps names)

  write_cold-Keeps :
      (name : String) (bytes : List ℕ) (page : Page) → Keeps (write_cold cuda name bytes page)
  unfolding write_cold
  write_cold-Keeps name bytes page =
      bind-Keeps
        (or_raise-Keeps page.ssd_offset
          (unknown_allocation (str_append name ": page is on Tier::Ssd but has no spill offset")))
        (λ offset. bind-Keeps (gets-Keeps (λ s. s.spill)) (λ spill.
          then-Keeps
            (or_raise-Keeps spill (
              unknown_allocation
                (str_append name ": page is on Tier::Ssd but no spill file is attached")))
            (within-Keeps (Action.file_call (cuda.write_file offset bytes)))))

  copied-Keeps :
      (copies : List (ℕ × List ℕ))
      → Keeps {W = W} (modify (λ s. record s { world = write_pieces cuda copies s.world }))
  copied-Keeps copies = record { keeps = λ s. (refl, refl) }

  write_backed-Keeps :
      (name : String) (bytes : List ℕ) (page : Page) → Keeps (write_backed cuda name bytes page)
  unfolding write_backed
  write_backed-Keeps name bytes page =
      let (copies, written) = pieces bytes page.size_bytes 0 page.dram_chunks in
      then-Keeps (copied-Keeps copies) (
        if-Keeps (not (written == page.size_bytes))
          (raise-Keeps (io (IoError.invalid_data name written page.size_bytes))) (pure-Keeps tt))

  pub write_page-Keeps : (name : String) (bytes : List ℕ) → Keeps (write_page cuda name bytes)
  unfolding write_page
  write_page-Keeps name bytes = bind-Keeps (page_of-Keeps name) (λ page.
      if-Keeps (not (length bytes == page.size_bytes))
        (raise-Keeps (io (IoError.invalid_input name (length bytes) page.size_bytes)))
        (from page page.tier))
    where
      from :
          (page : Page) (t : Tier)
          → Keeps (elim t as (λ _. Action (TieredPool W) (Unit {0})) [
            | ssd ↦ write_cold cuda name bytes page
            | vram ↦ write_backed cuda name bytes page
            | dram ↦ write_backed cuda name bytes page
          ])
      from page ssd = write_cold-Keeps name bytes page
      from page vram = write_backed-Keeps name bytes page
      from page dram = write_backed-Keeps name bytes page
