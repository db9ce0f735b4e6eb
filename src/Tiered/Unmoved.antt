-- ===== src/Tiered/Unmoved.antt =====
-- The methods of a pool that leave the host memory alone.
use Prim.Native.String.{String}
use vugva.Common.{
  sign_extend, ℕ, ◌==◌, refl, Option, none, some, List, [], ◌∷◌, ◌++◌, Bool, true, false, set,
  get_or, if◌then◌else◌, get_elem?,
}
use vugva.Error.{unknown_allocation, invalid_gpu}
use vugva.Dma.{submit_dram_to_vram}
use vugva.Vmt.{Chunk, DramChunk, Page, touch}
use vugva.Action
use vugva.Action.{Outcome, done, failed, panicked, Action, pure, raise, gets, or_panic, modify}
use vugva.Driver.{Driver}
use vugva.Gpu.Ordinals.{index_of}
use vugva.Tiered.State.{TieredPool, call, write_to}
use vugva.Tiered.Vram.{
  set_context, fresh_block, alloc_vram_on_gpu, free_vram_on_gpu, position, swap_remove,
}
use vugva.Tiered.Prefetch.{with_chunk, chunk_for}
use vugva.Tiered.Promote.{install, access_peer, access_vram, access_dram}
use vugva.Tiered.Keeps.{
  SameHost, Keeps, pure-Keeps, panic-Keeps, gets-Keeps, within-Keeps, or_raise-Keeps, if-Keeps,
  bind-Keeps, then-Keeps, submit-Keeps, write_to-Keeps, handle-Keeps, known_page-Keeps,
}

pub free_vram-Keeps :
    {W : Type 0} (gpu_idx ptr bytes : ℕ) → Keeps {W = W} (free_vram_on_gpu gpu_idx ptr bytes)
unfolding free_vram_on_gpu
free_vram-Keeps {W} gpu_idx ptr bytes = record {
  keeps = λ s. from s (ptr == 0) (get_elem? s.vram_free gpu_idx);
}
  where
    from :
        (s : TieredPool W) (b : Bool) (o : Option (List (ℕ × ℕ)))
        → SameHost s
            (if b then (done tt, s) else elim o as (λ _. Outcome (Unit {0}) × TieredPool W) [
              | none ↦ raise (invalid_gpu gpu_idx) s
              | some cache ↦ (
                done tt,
                record s { vram_free = set s.vram_free gpu_idx (cache ++ (bytes, ptr) ∷ []) },
              )
            ]).1
    from s true o = (refl, refl)
    from s false none = (refl, refl)
    from s false (some cache) = (refl, refl)

pub chunk_for-Keeps :
    {W : Type 0} (page : Page) (gpu_idx ptr size : ℕ)
    → Keeps {W = W} (chunk_for page gpu_idx ptr size)
chunk_for-Keeps page gpu_idx ptr size =
    bind-Keeps (handle-Keeps (λ s. s.ordinals) gpu_idx)
      (λ ordinal. if-Keeps (page.element_size == 0) panic-Keeps (pure-Keeps _))

pub touch-Keeps :
    {W : Type 0} (name : String) (now : ℕ) → Keeps {W = W} (write_to name (λ p. touch p now))
unfolding touch
touch-Keeps name now = write_to-Keeps name (λ p. touch p now) (λ p. (refl, refl))

-- The end of every promotion.
pub install-Keeps :
    {W : Type 0} (cuda : Driver W) (name : String) (gpu_idx now ptr size : ℕ)
    → Keeps (install cuda name gpu_idx now ptr size)
unfolding install
install-Keeps cuda name gpu_idx now ptr size =
    bind-Keeps (then-Keeps (touch-Keeps name now) (known_page-Keeps name)) (λ page.
      bind-Keeps (chunk_for-Keeps page gpu_idx ptr size) (λ chunk.
        then-Keeps (write_to-Keeps name (with_chunk chunk) (λ p. (refl, refl))) (pure-Keeps ptr)))

module _ {W : Type 0} (cuda : Driver W) where
  pub call-Keeps : (fn_name : String) (f : W → ℕ × W) → Keeps (call fn_name f)
  call-Keeps fn_name f = within-Keeps (Action.call fn_name f)

  pub set_context-Keeps : (gpu_idx : ℕ) → Keeps (set_context cuda gpu_idx)
  unfolding set_context
  set_context-Keeps gpu_idx =
      bind-Keeps
        (bind-Keeps (gets-Keeps (λ s. get_elem? s.contexts gpu_idx))
          (λ ctx. or_raise-Keeps ctx (invalid_gpu gpu_idx)))
        (λ raw. call-Keeps "cuCtxSetCurrent" (cuda.set_current raw))

  fresh_block-Keeps : (gpu_idx bytes : ℕ) → Keeps (fresh_block cuda gpu_idx bytes)
  unfolding set_context
  fresh_block-Keeps gpu_idx bytes =
      then-Keeps (set_context-Keeps gpu_idx)
        (within-Keeps (Action.call_for "cuMemAlloc_v2" (cuda.mem_alloc bytes)))

  pub alloc_vram-Keeps : (gpu_idx bytes : ℕ) → Keeps (alloc_vram_on_gpu cuda gpu_idx bytes)
  unfolding alloc_vram_on_gpu
  alloc_vram-Keeps gpu_idx bytes = record { keeps = λ s. from s (get_elem? s.vram_free gpu_idx) }
    where
      taken :
          (s : TieredPool W) (cache : List (ℕ × ℕ)) (o : Option ℕ)
          → SameHost s
              (elim o as (λ _. Outcome ℕ × TieredPool W) [
                | some i ↦ (
                  done (get_or cache i (0, 0)).1,
                  record s { vram_free = set s.vram_free gpu_idx (swap_remove cache i) },
                )
                | none ↦ fresh_block cuda gpu_idx bytes s
              ]).1
      taken s cache (some i) = (refl, refl)
      taken s cache none = (fresh_block-Keeps gpu_idx bytes).keeps s

      from :
          (s : TieredPool W) (o : Option (List (ℕ × ℕ)))
          → SameHost s
              (elim o as (λ _. Outcome ℕ × TieredPool W) [
                | none ↦ raise (invalid_gpu gpu_idx) s
                | some cache ↦ elim (position cache bytes) as (λ _. Outcome ℕ × TieredPool W) [
                  | some i ↦ (
                    done (get_or cache i (0, 0)).1,
                    record s { vram_free = set s.vram_free gpu_idx (swap_remove cache i) },
                  )
                  | none ↦ fresh_block cuda gpu_idx bytes s
                ]
              ]).1
      from s none = (refl, refl)
      from s (some cache) = taken s cache (position cache bytes)

  access_peer-Keeps :
      (name : String) (gpu_idx now : ℕ) (peer : Option Chunk)
      → Keeps (access_peer cuda name gpu_idx now peer)
  unfolding access_peer
  access_peer-Keeps name gpu_idx now peer =
      bind-Keeps (or_raise-Keeps peer (unknown_allocation name)) (λ src.
        bind-Keeps (gets-Keeps (λ s. index_of s.ordinal_map src.gpu_ordinal)) (λ found.
          bind-Keeps (or_raise-Keeps found (invalid_gpu (sign_extend src.gpu_ordinal))) (λ src_idx.
            bind-Keeps (alloc_vram-Keeps gpu_idx src.size_bytes) (λ dst.
              bind-Keeps (handle-Keeps (λ s. s.compute) gpu_idx) (λ stream.
                bind-Keeps (gets-Keeps (λ s. get_elem? s.contexts gpu_idx)) (λ ctx.
                  bind-Keeps (or_raise-Keeps ctx (invalid_gpu gpu_idx)) (λ dst_ctx.
                    bind-Keeps (gets-Keeps (λ s. get_elem? s.contexts src_idx)) (λ ctx'.
                      bind-Keeps (or_raise-Keeps ctx' (invalid_gpu src_idx)) (λ src_ctx.
                        then-Keeps
                          (then-Keeps
                            (call-Keeps "cuMemcpyPeerAsync" (
                              cuda.copy_peer dst dst_ctx src.device_ptr src_ctx src.size_bytes
                                stream))
                            (call-Keeps "cuStreamSynchronize" (cuda.synchronize_stream stream)))
                          (install-Keeps cuda name gpu_idx now dst src.size_bytes))))))))))

  pub access_vram-Keeps :
      (name : String) (gpu_idx now : ℕ) (local peer : Option Chunk)
      → Keeps (access_vram cuda name gpu_idx now local peer)
  unfolding access_vram
  access_vram-Keeps name gpu_idx now none peer = access_peer-Keeps name gpu_idx now peer
  access_vram-Keeps name gpu_idx now (some chunk) peer =
      then-Keeps (touch-Keeps name now) (pure-Keeps chunk.device_ptr)

  pub access_dram-Keeps :
      (name : String) (gpu_idx now : ℕ) (backing : Option DramChunk)
      → Keeps (access_dram cuda name gpu_idx now backing)
  unfolding access_dram
  access_dram-Keeps name gpu_idx now backing =
      bind-Keeps (or_raise-Keeps backing (unknown_allocation name)) (λ c.
        bind-Keeps (alloc_vram-Keeps gpu_idx c.size_bytes) (λ dst.
          bind-Keeps
            (then-Keeps
              (then-Keeps
                (submit-Keeps (λ e. submit_dram_to_vram e gpu_idx c.host_ptr dst c.size_bytes 2))
                (set_context-Keeps gpu_idx))
              (handle-Keeps (λ s. s.compute) gpu_idx))
            (λ stream.
              then-Keeps
                (then-Keeps
                  (within-Keeps
                    (Action.ask (cuda.copy_to_device_async dst c.host_ptr c.size_bytes stream)))
                  (call-Keeps "cuStreamSynchronize" (cuda.synchronize_stream stream)))
                (install-Keeps cuda name gpu_idx now dst c.size_bytes))))
