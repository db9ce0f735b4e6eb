-- ===== src/Tiered/Demotion.antt =====
-- What demotion and deallocation do to the table of pages, on every way they can end.
use Prim.Native.String.{String}
use vugva.Common.{
  sign_extend, ℕ, ◌≡◌, refl, sym, ap, ◌∙◌, false, Option, none, some, List, [], ◌∷◌, if◌then◌else◌,
  ltb, get_elem?, subst,
}
use vugva.Error.{invalid_gpu, dram_oom, unknown_allocation}
use vugva.Pool.{DramPool}
use vugva.Dma.{DmaEngine, submit_vram_to_dram}
use vugva.Vmt.{vram, dram, ssd, Chunk, DramChunk, Page, VirtualMemoryTable, get, update, remove}
use vugva.Action.{
  then_end, Outcome, done, failed, panicked, Action, pure, raise, gets, or_raise, or_panic, modify,
  ◌>>=◌, ◌>>◌,
}
use vugva.Driver.{Driver}
use vugva.Tiered.State.{TieredPool, submit, call, handle, write_to}
use vugva.Gpu.Ordinals.{index_of}
use vugva.Tiered.Vram.{set_context, free_vram_on_gpu}
use vugva.Tiered.Allocate.{release_blocks, return_chunks, deallocate}
use vugva.Tiered.Demote.{demoted, write_back, demote_chunk, demote_chunks, demote_resident, demote}
use vugva.Tiered.Frame.{
  Frames, bind-Frames, then-Frames, or_raise-Frames, or_panic-Frames, if-Frames, handle-Frames,
  submit-Frames, call-Frames, set_context-Frames, free_vram-Frames, page_of_found,
}

write_back-Frames :
    {W : Type 0} (cuda : Driver W) (chunk : Chunk) (gpu_idx : ℕ) (backing : DramChunk)
    → Frames (write_back cuda chunk gpu_idx backing)
unfolding write_back
write_back-Frames {W = W} cuda chunk gpu_idx backing =
    let to_host = λ (e : DmaEngine).
      submit_vram_to_dram e gpu_idx chunk.device_ptr backing.host_ptr chunk.size_bytes 0 in
    let announce : Action (TieredPool W) ℕ = submit to_host in
    let stream_of : Action (TieredPool W) ℕ = handle (λ s. s.compute) gpu_idx in
    let copy = λ (stream : ℕ).
      cuda.copy_to_host_async backing.host_ptr chunk.device_ptr chunk.size_bytes stream in
    let copied = λ (stream : ℕ). call "cuMemcpyDtoHAsync_v2" (copy stream) in
    let landed = λ (stream : ℕ). call "cuStreamSynchronize" (cuda.synchronize_stream stream) in
    let given : Action (TieredPool W) (Unit {0}) =
      free_vram_on_gpu gpu_idx chunk.device_ptr chunk.size_bytes in
    bind-Frames (announce >> set_context cuda gpu_idx >> stream_of)
      (λ stream. copied stream >> landed stream >> given)
      (then-Frames (announce >> set_context cuda gpu_idx) stream_of
        (then-Frames announce (set_context cuda gpu_idx) (submit-Frames to_host)
          (set_context-Frames cuda gpu_idx))
        (handle-Frames (λ s. s.compute) gpu_idx))
      (λ stream.
        then-Frames (copied stream >> landed stream) given
          (then-Frames (copied stream) (landed stream)
            (call-Frames "cuMemcpyDtoHAsync_v2" (copy stream))
            (call-Frames "cuStreamSynchronize" (cuda.synchronize_stream stream)))
          (free_vram-Frames gpu_idx chunk.device_ptr chunk.size_bytes))

demote_chunk-Frames :
    {W : Type 0} (cuda : Driver W) (name : String) (shards : List DramChunk) (chunk : Chunk)
    → Frames (demote_chunk cuda name shards chunk)
unfolding demote_chunk
demote_chunk-Frames {W} cuda name shards chunk =
    let refuse = λ (gpu_idx : ℕ) (backing : DramChunk) (pool : DramPool).
      raise {S = TieredPool W} {A = Unit {0}}
        (dram_oom chunk.size_bytes backing.size_bytes pool.capacity) in
    let pool_of =
      λ (gpu_idx : ℕ). gets {S = TieredPool W} (λ s. get_elem? s.dram_pools gpu_idx) >>= or_panic in
    let refusal =
      λ (gpu_idx : ℕ) (backing : DramChunk). pool_of gpu_idx >>= refuse gpu_idx backing in
    let tried = λ (gpu_idx : ℕ) (backing : DramChunk).
      if ltb backing.size_bytes chunk.size_bytes
      then refusal gpu_idx backing
      else write_back cuda chunk gpu_idx backing in
    let shard = λ (gpu_idx : ℕ).
      or_raise {S = TieredPool W} (get_elem? shards gpu_idx) (unknown_allocation name) in
    let known = λ (found : Option ℕ).
      or_raise {S = TieredPool W} found (invalid_gpu (sign_extend chunk.gpu_ordinal)) in
    bind-Frames (gets λ s. index_of s.ordinal_map chunk.gpu_ordinal)
      (λ found. known found >>= λ gpu_idx. shard gpu_idx >>= tried gpu_idx) (λ s. refl)
      (λ found.
        bind-Frames (known found) (λ gpu_idx. shard gpu_idx >>= tried gpu_idx)
          (or_raise-Frames found (invalid_gpu (sign_extend chunk.gpu_ordinal)))
          (λ gpu_idx.
            bind-Frames (shard gpu_idx) (tried gpu_idx)
              (or_raise-Frames (get_elem? shards gpu_idx) (unknown_allocation name))
              (λ backing.
                if-Frames (ltb backing.size_bytes chunk.size_bytes) (refusal gpu_idx backing)
                  (write_back cuda chunk gpu_idx backing)
                  (bind-Frames (pool_of gpu_idx) (refuse gpu_idx backing)
                    (bind-Frames (gets λ s. get_elem? s.dram_pools gpu_idx) or_panic (λ s. refl)
                      or_panic-Frames)
                    (λ pool s. refl))
                  (write_back-Frames cuda chunk gpu_idx backing))))

demote_chunks-Frames :
    {W : Type 0} (cuda : Driver W) (name : String) (shards : List DramChunk) (chunks : List Chunk)
    → Frames (demote_chunks cuda name shards chunks)
unfolding demote_chunks
demote_chunks-Frames cuda name shards [] = λ s. refl
demote_chunks-Frames cuda name shards (chunk ∷ chunks) =
    then-Frames (demote_chunk cuda name shards chunk) (demote_chunks cuda name shards chunks)
      (demote_chunk-Frames cuda name shards chunk) (demote_chunks-Frames cuda name shards chunks)

-- The table after a demotion: the page off the device if it went through, and else as before.
abbrev pub Demoted :
    {W : Type 0} → String → VirtualMemoryTable → Outcome (Unit {0}) × TieredPool W → Type 0
Demoted name t (done _, s') = s'.vmt ≡ update t name demoted
Demoted name t (failed _, s') = s'.vmt ≡ t
Demoted name t (panicked, s') = s'.vmt ≡ t

written_demoted :
    {W : Type 0} (name : String) (s : TieredPool W) (page : Page)
    → get name s.vmt.pages ≡ some page
    → write_to name demoted s ≡ (done tt, record s { vmt = update s.vmt name demoted })
written_demoted name s page h = rw (h, write_to) refl

finished :
    {W : Type 0} (name : String) (t : VirtualMemoryTable) (page : Page) (s1 : TieredPool W)
    (r : Outcome (Unit {0}))
    → get name t.pages ≡ some page
    → s1.vmt ≡ t
    → Demoted name t (then_end (λ _. write_to name demoted) s1 r)
finished name t page s1 (failed e) h same = same
finished name t page s1 panicked h same = same
finished name t page s1 (done x) h same =
    rw (written_demoted name s1 page (ap (λ (v : VirtualMemoryTable). get name v.pages) same ∙ h))
      (ap (λ (v : VirtualMemoryTable). update v name demoted) same)

demote_hot :
    {W : Type 0} (cuda : Driver W) (name : String) (page : Page) (s : TieredPool W)
    → get name s.vmt.pages ≡ some page
    → page.tier ≡ vram
    → page.pinned ≡ false
    → demote cuda name s ≡ demote_resident cuda name page s
unfolding demote
demote_hot {W} cuda name page s h hot unpinned =
    let go = λ (p : Page). elim p.tier as (λ _. Action (TieredPool W) (Unit {0})) [
      | vram ↦ if p.pinned then pure tt else demote_resident cuda name p
      | dram ↦ pure tt
      | ssd ↦ pure tt
    ] in
    ap (λ (o : Outcome Page × TieredPool W). then_end go o.1 o.0) (page_of_found name page s h)
    ∙ rw (hot, unpinned) refl

-- The table after a demotion, by the code's own function on the page.
pub demote-Demoted :
    {W : Type 0} (cuda : Driver W) (name : String) (page : Page) (s : TieredPool W)
    → get name s.vmt.pages ≡ some page
    → page.tier ≡ vram
    → page.pinned ≡ false
    → Demoted name s.vmt (demote cuda name s)
unfolding demote_resident
demote-Demoted cuda name page s h hot unpinned =
    subst (Demoted name s.vmt) (sym (demote_hot cuda name page s h hot unpinned)) (
      finished name s.vmt page (demote_chunks cuda name page.dram_chunks page.vram_chunks s).1
        (demote_chunks cuda name page.dram_chunks page.vram_chunks s).0 h
        (demote_chunks-Frames cuda name page.dram_chunks page.vram_chunks s))

pub release_blocks-Frames :
    {W : Type 0} (chunks : List Chunk) → Frames {W = W} (release_blocks chunks)
unfolding release_blocks
release_blocks-Frames [] = λ s. refl
release_blocks-Frames {W} (chunk ∷ chunks) =
    let next = λ (idx : Option ℕ). elim idx as (λ _. Action (TieredPool W) (Unit {0})) [
      | none ↦ release_blocks chunks
      | some gpu_idx ↦
          free_vram_on_gpu gpu_idx chunk.device_ptr chunk.size_bytes >> release_blocks chunks
    ] in
    bind-Frames (gets λ s. index_of s.ordinal_map chunk.gpu_ordinal) next (λ s. refl)
      (λ idx. elim idx as (λ o. Frames (next o)) [
        | none ↦ release_blocks-Frames chunks
        | some gpu_idx ↦
            then-Frames (free_vram_on_gpu gpu_idx chunk.device_ptr chunk.size_bytes)
              (release_blocks chunks) (free_vram-Frames gpu_idx chunk.device_ptr chunk.size_bytes)
              (release_blocks-Frames chunks)
      ])

-- The table after a deallocation.
abbrev pub Deallocated :
    {W : Type 0} → String → TieredPool W → Outcome (Unit {0}) × TieredPool W → Type 0
Deallocated name s (done _, s') = s'.vmt ≡ (remove s.vmt name).1
Deallocated name s (failed _, s') = s'.vmt ≡ s.vmt
Deallocated name s (panicked, s') = s'.vmt ≡ s.vmt

abbrev unlisted : {W : Type 0} → String → Page → TieredPool W → TieredPool W
unlisted name page s = record s {
  dram_pools = return_chunks page.dram_chunks s.dram_pools;
  vmt = (remove s.vmt name).1;
}

taken :
    {W : Type 0} (name : String) (page : Page) (s s1 : TieredPool W) (r : Outcome (Unit {0}))
    → s1.vmt ≡ s.vmt
    → Deallocated name s (then_end (λ _. modify (unlisted name page)) s1 r)
taken name page s s1 (failed e) same = same
taken name page s s1 panicked same = same
taken name page s s1 (done x) same = ap (λ (v : VirtualMemoryTable). (remove v name).1) same

-- The table after a deallocation, by the table's own removal.
pub deallocate-Deallocated :
    {W : Type 0} (name : String) (page : Page) (s : TieredPool W)
    → get name s.vmt.pages ≡ some page
    → Deallocated name s (deallocate name s)
unfolding deallocate
deallocate-Deallocated {W} name page s h =
    let go = λ (p : Page). release_blocks {W = W} p.vram_chunks >> modify (unlisted name p) in
    subst (Deallocated name s)
      (sym (
        ap (λ (o : Outcome Page × TieredPool W). then_end go o.1 o.0)
          (page_of_found name page s h)))
      (taken name page s (release_blocks page.vram_chunks s).1 (release_blocks page.vram_chunks s).0
        (release_blocks-Frames page.vram_chunks s))
