-- ===== src/Tiered/Promoted.antt =====
-- The promotions of `TieredPool::access`: what they answer, and which pages they touch.
use Prim.Native.String.{String, ◌++◌ as str_append}
use Prim.Native.Nat.{min}
use vugva.Common.{
  sign_extend, ℕ, zero, suc, ◌-◌, ◌+◌, not, Option, none, some, get_elem?, ltb, add_word,
}
use vugva.Error.{VugvaError, unknown_allocation, invalid_gpu}
use vugva.Dma.{submit_dram_to_vram}
use vugva.Vmt.{Chunk, DramChunk}
use vugva.Action
use vugva.Action.{
  Outcome, done, failed, panicked, Action, pure, raise, or_raise, or_panic, lift, modify, attempt,
  ignore, then_end, ◌>>=◌, ◌>>◌,
}
use vugva.Driver.{Driver}
use vugva.Gpu.Ordinals.{index_of}
use vugva.Tiered.Vram.{free_vram_on_gpu}
use vugva.Tiered.Promote.{access_peer, access_dram, stream_in, copy_in, finish_cold, access_owned}
use vugva.Tiered.Confined.{
  Confined, bind-Confined, then-Confined, attempt-Confined, ignore-Confined, if_Confined,
  pure-Confined, raise-Confined, gets-Confined, within-Confined, or_raise-Confined, handle-Confined,
  submit-Confined, set_context-Confined, free_vram-Confined, alloc_vram-Confined,
}
use vugva.Tiered.Resident.{Promotes, bind-Promotes, then-Promotes, install-Promotes}

module _ {W : Type 0} (cuda : Driver W) where
  pub raise-Promotes :
      (name : String) (gpu_idx dst total : ℕ) (e : VugvaError)
      → Promotes {W = W} name gpu_idx (ignore (free_vram_on_gpu gpu_idx dst total) >> raise e)
  raise-Promotes name gpu_idx dst total e =
      then-Promotes (ignore-Confined (free_vram-Confined gpu_idx dst total))
        (record { confined = raise-Confined e; promotes = λ s. tt })

  pub access_peer-Promotes :
      (name : String) (gpu_idx now : ℕ) (peer : Option Chunk)
      → Promotes name gpu_idx (access_peer cuda name gpu_idx now peer)
  unfolding access_peer
  access_peer-Promotes name gpu_idx now peer =
      bind-Promotes (or_raise-Confined peer (unknown_allocation name)) (λ src.
        bind-Promotes (gets-Confined (λ s. index_of s.ordinal_map src.gpu_ordinal)) (λ found.
          bind-Promotes (or_raise-Confined found (invalid_gpu (sign_extend src.gpu_ordinal)))
            (λ src_idx. bind-Promotes (alloc_vram-Confined cuda gpu_idx src.size_bytes) (λ dst.
              bind-Promotes (handle-Confined (λ s. s.compute) gpu_idx) (λ stream.
                bind-Promotes (gets-Confined (λ s. get_elem? s.contexts gpu_idx)) (λ ctx.
                  bind-Promotes (or_raise-Confined ctx (invalid_gpu gpu_idx)) (λ dst_ctx.
                    bind-Promotes (gets-Confined (λ s. get_elem? s.contexts src_idx)) (λ ctx'.
                      bind-Promotes (or_raise-Confined ctx' (invalid_gpu src_idx)) (λ src_ctx.
                        then-Promotes
                          (then-Confined
                            (within-Confined (
                              Action.call "cuMemcpyPeerAsync" (
                                cuda.copy_peer dst dst_ctx src.device_ptr src_ctx src.size_bytes
                                  stream)))
                            (within-Confined
                              (Action.call "cuStreamSynchronize" (cuda.synchronize_stream stream))))
                          (install-Promotes cuda name gpu_idx now dst src.size_bytes))))))))))

  pub access_dram-Promotes :
      (name : String) (gpu_idx now : ℕ) (backing : Option DramChunk)
      → Promotes name gpu_idx (access_dram cuda name gpu_idx now backing)
  unfolding access_dram
  access_dram-Promotes name gpu_idx now backing =
      bind-Promotes (or_raise-Confined backing (unknown_allocation name)) (λ c.
        bind-Promotes (alloc_vram-Confined cuda gpu_idx c.size_bytes) (λ dst.
          bind-Promotes
            (then-Confined
              (then-Confined
                (submit-Confined (λ e. submit_dram_to_vram e gpu_idx c.host_ptr dst c.size_bytes 2))
                (set_context-Confined cuda gpu_idx))
              (handle-Confined (λ s. s.compute) gpu_idx))
            (λ stream.
              then-Promotes
                (then-Confined
                  (within-Confined
                    (Action.ask (cuda.copy_to_device_async dst c.host_ptr c.size_bytes stream)))
                  (within-Confined
                    (Action.call "cuStreamSynchronize" (cuda.synchronize_stream stream))))
                (install-Promotes cuda name gpu_idx now dst c.size_bytes))))

  stream_in-Confined :
      (name : String) (fuel offset stage_ptr stage_len dst total copied : ℕ)
      → Confined name (stream_in cuda fuel offset stage_ptr stage_len dst total copied)
  unfolding stream_in
  stream_in-Confined name zero offset stage_ptr stage_len dst total copied = pure-Confined tt
  stream_in-Confined name (suc fuel) offset stage_ptr stage_len dst total copied =
      if_Confined (not (ltb copied total)) (pure-Confined tt) (
        then-Confined
          (then-Confined
            (within-Confined (
              Action.file_call (
                cuda.read_file (add_word offset copied) stage_ptr
                  (min stage_len (total - copied)))))
            (within-Confined (
              Action.call "cuMemcpyHtoD_v2" (
                cuda.copy_to_device (add_word dst copied) stage_ptr
                  (min stage_len (total - copied))))))
          (stream_in-Confined name fuel offset stage_ptr stage_len dst total
            (copied + min stage_len (total - copied))))

  pub copy_in-Confined :
      (i name : String) (gpu_idx offset stage_ptr stage_len dst total : ℕ)
      → Confined i (copy_in cuda name gpu_idx offset stage_ptr stage_len dst total)
  unfolding copy_in
  copy_in-Confined i name gpu_idx offset stage_ptr stage_len dst total =
      then-Confined
        (then-Confined
          (bind-Confined (gets-Confined (λ s. s.spill)) (λ spill. or_raise-Confined spill (
            unknown_allocation
              (str_append name ": page is on Tier::Ssd but no spill file is attached"))))
          (set_context-Confined cuda gpu_idx))
        (stream_in-Confined i total offset stage_ptr stage_len dst total 0)

  pub finish_cold-Promotes :
      (name : String) (gpu_idx now dst total : ℕ) (copy_res : Option VugvaError)
      → Promotes name gpu_idx (finish_cold cuda name gpu_idx now dst total copy_res)
  unfolding finish_cold
  finish_cold-Promotes name gpu_idx now dst total none =
      install-Promotes cuda name gpu_idx now dst total
  finish_cold-Promotes name gpu_idx now dst total (some e) = raise-Promotes name gpu_idx dst total e

  pub access_owned-Promotes :
      (name : String) (gpu_idx now offset total dst host_ptr : ℕ)
      → Promotes name gpu_idx (access_owned cuda name gpu_idx now offset total dst host_ptr)
  unfolding access_owned
  access_owned-Promotes name gpu_idx now offset total dst host_ptr =
      bind-Promotes
        (attempt-Confined (copy_in-Confined name name gpu_idx offset host_ptr total dst total))
        (finish_cold-Promotes name gpu_idx now dst total)
