-- ===== src/Tiered/Promote.antt =====
-- src/tiered.rs: `TieredPool::access`, one part for each tier.
use Prim.Native.String.{String, ◌++◌ as str_append}
use Prim.Native.Nat.{min}
use vugva.Common.{
  sign_extend, ℕ, zero, suc, ◌+◌, ◌-◌, ◌/◌, ◌^◌, ◌==◌, Bool, true, false, not, Option, none, some,
  List, [], ◌∷◌, if◌then◌else◌, leb, ltb, add_word, get_elem?, set,
}
use vugva.Error.{VugvaError, Result, ok, err, unknown_allocation, invalid_gpu}
use vugva.Pool.{DramPool, allocate as pool_allocate, free as pool_free}
use vugva.Dma.{submit_dram_to_vram}
use vugva.Vmt.{vram, dram, ssd, Chunk, DramChunk, Page, touch}
use vugva.Action.{
  done, failed, panicked, Action, pure, raise, gets, or_raise, lift, modify, ignore, attempt, ◌>>=◌,
  ◌>>◌,
}
use vugva.Driver.{Driver}
use vugva.Membrane.{observe}
use vugva.Tiered.State.{
  TieredPool, ask, submit, call, file_call, write_to, page_of, known_page, handle,
}
use vugva.Gpu.Ordinals.{index_of}
use vugva.Tiered.Vram.{alloc_vram_on_gpu, free_vram_on_gpu, set_context}
use vugva.Tiered.Prefetch.{with_chunk, chunk_for, claim_prefetch}

-- `iter().find(..)`, for a chunk on the GPU of an ordinal (`true`) or on another (`false`).
unfoldable pub find_chunk : Bool → ℕ → List Chunk → Option Chunk
find_chunk here ordinal [] = none
find_chunk here ordinal (c ∷ cs) =
    let rest = find_chunk here ordinal cs in
    if (if here then c.gpu_ordinal == ordinal else not (c.gpu_ordinal == ordinal))
    then some c
    else rest

-- Staging memory for a cold page: the request is halved until the pool grants it, down to 1 MiB.
unfoldable pub stage : ℕ → DramPool → ℕ → Result (ℕ × ℕ) × DramPool
stage zero pool want =
    let (res, pool') = pool_allocate pool want in
    (elim res [ ok ptr ↦ ok (ptr, want) | err e ↦ err e ], pool')
stage (suc fuel) pool want =
    let (res, pool') = pool_allocate pool want in
    let smaller = stage fuel pool' (want / 2) in
    elim res [
      | ok ptr ↦ (ok (ptr, want), pool')
      | err e ↦ if leb want (2 ^ 20) then (err e, pool') else smaller
    ]

module _ {W : Type 0} (cuda : Driver W) where
  -- The end of every promotion.
  unfoldable pub install : String → ℕ → ℕ → ℕ → ℕ → Action (TieredPool W) ℕ
  install name gpu_idx now ptr size =
      write_to name (λ p. touch p now) >> known_page name >>= λ page.
      chunk_for page gpu_idx ptr size >>= λ chunk. write_to name (with_chunk chunk) >> pure ptr

  -- Resident on another GPU only: a copy from device to device.
  unfoldable pub access_peer : String → ℕ → ℕ → Option Chunk → Action (TieredPool W) ℕ
  unfolding install
  access_peer name gpu_idx now peer = or_raise peer (unknown_allocation name) >>= λ src.
      gets (λ s. index_of s.ordinal_map src.gpu_ordinal) >>= λ found.
      or_raise found (invalid_gpu (sign_extend src.gpu_ordinal)) >>= λ src_idx.
      alloc_vram_on_gpu cuda gpu_idx src.size_bytes >>= λ dst.
      handle (λ s. s.compute) gpu_idx >>= λ stream.
      gets (λ s. get_elem? s.contexts gpu_idx) >>= λ ctx.
      or_raise ctx (invalid_gpu gpu_idx) >>= λ dst_ctx.
      gets (λ s. get_elem? s.contexts src_idx) >>= λ ctx'.
      or_raise ctx' (invalid_gpu src_idx) >>= λ src_ctx.
      call "cuMemcpyPeerAsync"
        (cuda.copy_peer dst dst_ctx src.device_ptr src_ctx src.size_bytes stream)
      >> call "cuStreamSynchronize" (cuda.synchronize_stream stream)
      >> install name gpu_idx now dst src.size_bytes

  unfoldable pub access_vram :
      String → ℕ → ℕ → Option Chunk → Option Chunk → Action (TieredPool W) ℕ
  unfolding access_peer
  access_vram name gpu_idx now local peer = elim local [
    | some chunk ↦ write_to name (λ p. touch p now) >> pure chunk.device_ptr
    | none ↦ access_peer name gpu_idx now peer
  ]

  -- The code of this copy is not looked at.
  unfoldable pub access_dram : String → ℕ → ℕ → Option DramChunk → Action (TieredPool W) ℕ
  unfolding install
  access_dram name gpu_idx now backing = or_raise backing (unknown_allocation name) >>= λ c.
      alloc_vram_on_gpu cuda gpu_idx c.size_bytes >>= λ dst.
      submit (λ e. submit_dram_to_vram e gpu_idx c.host_ptr dst c.size_bytes 2)
      >> set_context cuda gpu_idx
      >> handle (λ s. s.compute) gpu_idx
      >>= λ stream.
          ask (cuda.copy_to_device_async dst c.host_ptr c.size_bytes stream)
          >> call "cuStreamSynchronize" (cuda.synchronize_stream stream)
          >> install name gpu_idx now dst c.size_bytes

  -- The loop that streams a cold page through the staging memory; `total` rounds are enough.
  unfoldable pub stream_in : ℕ → ℕ → ℕ → ℕ → ℕ → ℕ → ℕ → Action (TieredPool W) (Unit {0})
  stream_in zero offset stage_ptr stage_len dst total copied = pure tt
  stream_in (suc fuel) offset stage_ptr stage_len dst total copied =
      let chunk = min stage_len (total - copied) in
      let later = stream_in fuel offset stage_ptr stage_len dst total (copied + chunk) in
      if not (ltb copied total)
      then pure tt
      else (file_call (cuda.read_file (add_word offset copied) stage_ptr chunk)
          >> call "cuMemcpyHtoD_v2" (cuda.copy_to_device (add_word dst copied) stage_ptr chunk)
          >> later)

  -- The closure `copy_res`.
  unfoldable pub copy_in : String → ℕ → ℕ → ℕ → ℕ → ℕ → ℕ → Action (TieredPool W) (Unit {0})
  unfolding stream_in
  copy_in name gpu_idx offset stage_ptr stage_len dst total = gets (λ s. s.spill) >>= λ spill.
      or_raise spill (
        unknown_allocation (str_append name ": page is on Tier::Ssd but no spill file is attached"))
      >> set_context cuda gpu_idx
      >> stream_in total offset stage_ptr stage_len dst total 0

  -- A pool's loop for staging memory, in the pool's place.
  unfoldable pub borrow_stage : ℕ → ℕ → Action (TieredPool W) (ℕ × ℕ)
  borrow_stage gpu_idx total s = elim (get_elem? s.dram_pools gpu_idx) [
    | none ↦ (panicked, s)
    | some pool ↦
        let (res, pool') = stage 64 pool total in
        lift res (record s { dram_pools = set s.dram_pools gpu_idx pool' })
  ]

  unfoldable pub return_stage : ℕ → ℕ → ℕ → Action (TieredPool W) (Unit {0})
  return_stage gpu_idx ptr len s = elim (get_elem? s.dram_pools gpu_idx) [
    | none ↦ (panicked, s)
    | some pool ↦
        (done tt, record s { dram_pools = set s.dram_pools gpu_idx (pool_free pool ptr len) })
  ]

  -- What follows the copy: an error gives the device block back.
  unfoldable pub finish_cold : String → ℕ → ℕ → ℕ → ℕ → Option VugvaError → Action (TieredPool W) ℕ
  unfolding install
  finish_cold name gpu_idx now dst total copy_res = elim copy_res [
    | some e ↦ ignore (free_vram_on_gpu gpu_idx dst total) >> raise e
    | none ↦ install name gpu_idx now dst total
  ]

  -- Staging through a chunk that the page owns.
  unfoldable pub access_owned : String → ℕ → ℕ → ℕ → ℕ → ℕ → ℕ → Action (TieredPool W) ℕ
  unfolding copy_in finish_cold
  access_owned name gpu_idx now offset total dst host_ptr =
      attempt (copy_in name gpu_idx offset host_ptr total dst total) >>= λ copy_res.
      finish_cold name gpu_idx now dst total copy_res

  -- Staging through borrowed memory, which goes back before the copy's result is looked at.
  unfoldable pub access_borrowed : String → ℕ → ℕ → ℕ → ℕ → ℕ → Action (TieredPool W) ℕ
  unfolding copy_in borrow_stage return_stage finish_cold
  access_borrowed name gpu_idx now offset total dst s =
      let (res, s') = borrow_stage gpu_idx total s in
      elim res [
        | panicked ↦ (panicked, s')
        | failed e ↦ (ignore (free_vram_on_gpu gpu_idx dst total) >> raise e) s'
        | done (stage_ptr, stage_len) ↦
            (attempt (copy_in name gpu_idx offset stage_ptr stage_len dst total) >>= λ copy_res.
            return_stage gpu_idx stage_ptr stage_len
            >> finish_cold name gpu_idx now dst total copy_res)
              s'
      ]

  unfoldable pub access_staged :
      String → ℕ → ℕ → Option DramChunk → ℕ → ℕ → ℕ → Action (TieredPool W) ℕ
  unfolding access_owned access_borrowed
  access_staged name gpu_idx now backing offset total dst = elim backing [
    | none ↦ access_borrowed name gpu_idx now offset total dst
    | some c ↦
        if leb total c.size_bytes
        then access_owned name gpu_idx now offset total dst c.host_ptr
        else access_borrowed name gpu_idx now offset total dst
  ]

  unfoldable pub access_ssd : String → ℕ → ℕ → Option DramChunk → Page → Action (TieredPool W) ℕ
  unfolding access_staged
  access_ssd name gpu_idx now backing page =
      or_raise page.ssd_offset
        (unknown_allocation (str_append name ": page is on Tier::Ssd but has no spill offset"))
      >>= λ offset. alloc_vram_on_gpu cuda gpu_idx page.size_bytes >>= λ dst.
          access_staged name gpu_idx now backing offset page.size_bytes dst

  -- The tier is read once, before anything is changed.
  unfoldable pub access_page : String → ℕ → ℕ → Page → ℕ → Action (TieredPool W) ℕ
  unfolding find_chunk access_vram access_dram access_ssd
  access_page name gpu_idx now page ordinal = elim page.tier [
    | vram ↦
        access_vram name gpu_idx now (find_chunk true ordinal page.vram_chunks)
          (find_chunk false ordinal page.vram_chunks)
    | dram ↦ access_dram name gpu_idx now (get_elem? page.dram_chunks gpu_idx)
    | ssd ↦ access_ssd name gpu_idx now (get_elem? page.dram_chunks gpu_idx) page
  ]

  unfoldable pub access : String → ℕ → Action (TieredPool W) ℕ
  unfolding access_page
  access name gpu_idx = ask cuda.now_ns >>= λ now.
      modify (λ s. record s { membrane_hits = observe name s.membrane_hits })
      >> claim_prefetch cuda name gpu_idx now
      >>= λ claimed. elim claimed [
        | some ptr ↦ pure ptr
        | none ↦ page_of name >>= λ page. handle (λ s. s.ordinals) gpu_idx >>= λ ordinal.
            access_page name gpu_idx now page ordinal
      ]
