-- ===== src/Tiered/Prefetch.antt =====
-- src/tiered.rs: promotions that `prefetch` starts and `access` claims.
use Prim.Native.String.{String}
use vugva.Common.{ℕ, ◌/◌, ◌==◌, not, Option, none, some, [], ◌∷◌, ◌++◌, if◌then◌else◌, length}
use vugva.Error.{resident, cuda_error}
use vugva.Vmt.{vram, dram, ssd, Chunk, Page, touch, get}
use vugva.Action.{done, Action, pure, raise, panic, modify, ignore, ◌>>=◌, ◌>>◌}
use vugva.Driver.{Driver}
use vugva.Tiered.State.{
  Inflight, TieredPool, ask, call, call_for, write_to, known_page, handle, find_inflight,
  drop_inflight,
}
use vugva.Tiered.Vram.{alloc_vram_on_gpu, free_vram_on_gpu, set_context}

-- A page with a further chunk, hot.
abbrev pub with_chunk : Chunk → Page → Page
with_chunk c p = record p { vram_chunks = p.vram_chunks ++ c ∷ []; tier = vram; state = resident }

module _ {W : Type 0} where
  -- `Chunk { .. }` on GPU `gpu_idx` for a page; `size / elem_size` panics at 0.
  abbrev pub chunk_for : Page → ℕ → ℕ → ℕ → Action (TieredPool W) Chunk
  chunk_for page gpu_idx ptr size = handle (λ s. s.ordinals) gpu_idx >>= λ ordinal.
      if page.element_size == 0
      then panic
      else pure (record {
        gpu_ordinal = ordinal;
        device_ptr = ptr;
        size_bytes = size;
        num_elements = size / page.element_size;
      })

module _ {W : Type 0} (cuda : Driver W) where
  -- The transfer of `prefetch`, once the page qualifies.
  unfoldable pub start_transfer : String → ℕ → ℕ → ℕ → Action (TieredPool W) (Unit {0})
  start_transfer name gpu_idx host_ptr total = alloc_vram_on_gpu cuda gpu_idx total >>= λ dst.
      set_context cuda gpu_idx >> call_for "cuEventCreate" (cuda.create_event 1) >>= λ event.
      handle (λ s. s.prefetch_streams) gpu_idx >>= λ stream.
      ask (cuda.copy_to_device_async dst host_ptr total stream) >>= λ rc.
      if not (rc == 0)
      then (ignore (free_vram_on_gpu gpu_idx dst total)
          >> raise (cuda_error "cuMemcpyHtoDAsync_v2" rc))
      else (call "cuEventRecord" (cuda.record_event event stream)
          >> modify (λ s. record s {
            inflight =
                (name, record { gpu_idx = gpu_idx; device_ptr = dst; size = total; event = event })
                ∷ s.inflight;
          }))

  unfoldable pub prefetch_page : String → ℕ → Page → Action (TieredPool W) (Unit {0})
  unfolding start_transfer
  prefetch_page name gpu_idx page = elim page.tier [
    | dram ↦ elim page.dram_chunks [
      | [] ↦ pure tt
      | c ∷ _ ↦ start_transfer name gpu_idx c.host_ptr page.size_bytes
    ]
    | vram ↦ pure tt
    | ssd ↦ pure tt
  ]

  unfoldable pub prefetch : String → ℕ → Action (TieredPool W) (Unit {0})
  unfolding prefetch_page
  prefetch name gpu_idx s = elim (find_inflight name s.inflight) [
    | some _ ↦ (done tt, s)
    | none ↦ elim (get name s.vmt.pages) [
      | none ↦ (done tt, s)
      | some page ↦ prefetch_page name gpu_idx page s
    ]
  ]

  unfoldable pub land_prefetch : String → ℕ → ℕ → Inflight → Action (TieredPool W) ℕ
  land_prefetch name gpu_idx now f =
      call "cuEventSynchronize" (cuda.synchronize_event f.event) >> known_page name >>= λ page.
      chunk_for page gpu_idx f.device_ptr f.size >>= λ chunk.
      write_to name (λ p. touch (with_chunk chunk p) now) >> pure f.device_ptr

  unfoldable pub claim_prefetch : String → ℕ → ℕ → Action (TieredPool W) (Option ℕ)
  unfolding land_prefetch
  claim_prefetch name gpu_idx now s = elim (find_inflight name s.inflight) [
    | none ↦ (done none, s)
    | some f ↦
        let s' = record s { inflight = drop_inflight name s.inflight } in
        if not (f.gpu_idx == gpu_idx)
        then (ignore (free_vram_on_gpu f.gpu_idx f.device_ptr f.size) >> pure none) s'
        else (land_prefetch name gpu_idx now f >>= λ ptr. pure (some ptr)) s'
  ]

unfoldable pub inflight_count : {W : Type 0} → TieredPool W → ℕ
inflight_count s = length s.inflight
