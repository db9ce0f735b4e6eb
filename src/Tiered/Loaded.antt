-- ===== src/Tiered/Loaded.antt =====
-- The loading of cold pages and the prefetches, which leave the host memory alone.
use Prim.Native.String.{String, ◌++◌ as str_append}
use Prim.Native.Nat.{min}
use vugva.Common.{
  ℕ, zero, suc, ◌+◌, ◌-◌, ◌==◌, refl, not, Option, none, some, List, [], ◌∷◌, if◌then◌else◌,
  Bool-cases, inl, inr, ltb, add_word,
}
use vugva.Error.{VugvaError, unknown_allocation, cuda_error}
use vugva.Vmt.{vram, dram, ssd, Tier, DramChunk, Page, touch, get}
use vugva.Action
use vugva.Action.{
  Outcome, done, failed, panicked, Action, pure, raise, gets, or_panic, modify, ignore, ◌>>=◌, ◌>>◌,
}
use vugva.Driver.{Driver}
use vugva.Tiered.State.{Inflight, TieredPool, find_inflight, drop_inflight, file_call}
use vugva.Tiered.Vram.{free_vram_on_gpu}
use vugva.Tiered.Prefetch.{
  with_chunk, start_transfer, prefetch_page, prefetch, land_prefetch, claim_prefetch,
}
use vugva.Tiered.Promote.{stream_in, copy_in, finish_cold, access_owned}
use vugva.Tiered.Keeps.{
  SameHost, Keeps, pure-Keeps, raise-Keeps, gets-Keeps, within-Keeps, or_raise-Keeps, if-Keeps,
  bind-Keeps, then-Keeps, attempt-Keeps, ignore-Keeps, write_to-Keeps, handle-Keeps,
  known_page-Keeps,
}
use vugva.Tiered.Unmoved.{
  free_vram-Keeps, chunk_for-Keeps, install-Keeps, call-Keeps, set_context-Keeps, alloc_vram-Keeps,
}

module _ {W : Type 0} (cuda : Driver W) where
  file_call-Keeps : (f : W → Option ℕ × W) → Keeps (file_call f)
  file_call-Keeps f = within-Keeps (Action.file_call f)

  stream_in-Keeps :
      (fuel offset stage_ptr stage_len dst total copied : ℕ)
      → Keeps (stream_in cuda fuel offset stage_ptr stage_len dst total copied)
  unfolding stream_in
  stream_in-Keeps zero offset stage_ptr stage_len dst total copied = pure-Keeps tt
  stream_in-Keeps (suc fuel) offset stage_ptr stage_len dst total copied =
      if-Keeps (not (ltb copied total)) (pure-Keeps tt) (
        then-Keeps
          (then-Keeps
            (file_call-Keeps
              (cuda.read_file (add_word offset copied) stage_ptr (min stage_len (total - copied))))
            (call-Keeps cuda "cuMemcpyHtoD_v2" (
              cuda.copy_to_device (add_word dst copied) stage_ptr
                (min stage_len (total - copied)))))
          (stream_in-Keeps fuel offset stage_ptr stage_len dst total
            (copied + min stage_len (total - copied))))

  pub copy_in-Keeps :
      (name : String) (gpu_idx offset stage_ptr stage_len dst total : ℕ)
      → Keeps (copy_in cuda name gpu_idx offset stage_ptr stage_len dst total)
  unfolding copy_in
  copy_in-Keeps name gpu_idx offset stage_ptr stage_len dst total =
      then-Keeps
        (then-Keeps
          (bind-Keeps (gets-Keeps (λ s. s.spill)) (λ spill. or_raise-Keeps spill (
            unknown_allocation
              (str_append name ": page is on Tier::Ssd but no spill file is attached"))))
          (set_context-Keeps cuda gpu_idx))
        (stream_in-Keeps total offset stage_ptr stage_len dst total 0)

  pub give_up-Keeps :
      (gpu_idx dst total : ℕ) (e : VugvaError)
      → Keeps {W = W} {A = ℕ} (ignore (free_vram_on_gpu gpu_idx dst total) >> raise e)
  give_up-Keeps gpu_idx dst total e =
      then-Keeps (ignore-Keeps (free_vram-Keeps gpu_idx dst total)) (raise-Keeps e)

  pub finish_cold-Keeps :
      (name : String) (gpu_idx now dst total : ℕ) (copy_res : Option VugvaError)
      → Keeps (finish_cold cuda name gpu_idx now dst total copy_res)
  unfolding finish_cold
  finish_cold-Keeps name gpu_idx now dst total none = install-Keeps cuda name gpu_idx now dst total
  finish_cold-Keeps name gpu_idx now dst total (some e) = give_up-Keeps gpu_idx dst total e

  pub access_owned-Keeps :
      (name : String) (gpu_idx now offset total dst host_ptr : ℕ)
      → Keeps (access_owned cuda name gpu_idx now offset total dst host_ptr)
  unfolding access_owned
  access_owned-Keeps name gpu_idx now offset total dst host_ptr =
      bind-Keeps (attempt-Keeps (copy_in-Keeps name gpu_idx offset host_ptr total dst total))
        (finish_cold-Keeps name gpu_idx now dst total)

  enlisted-Keeps :
      (name : String) (gpu_idx dst total event : ℕ)
      → Keeps {W = W} (
          modify (λ s. record s {
            inflight =
                (name, record { gpu_idx = gpu_idx; device_ptr = dst; size = total; event = event })
                ∷ s.inflight;
          }))
  enlisted-Keeps name gpu_idx dst total event = record { keeps = λ s. (refl, refl) }

  start_transfer-Keeps :
      (name : String) (gpu_idx host_ptr total : ℕ)
      → Keeps (start_transfer cuda name gpu_idx host_ptr total)
  unfolding start_transfer
  start_transfer-Keeps name gpu_idx host_ptr total =
      bind-Keeps (alloc_vram-Keeps cuda gpu_idx total) (λ dst.
        bind-Keeps
          (then-Keeps (set_context-Keeps cuda gpu_idx)
            (within-Keeps (Action.call_for "cuEventCreate" (cuda.create_event 1))))
          (λ event. bind-Keeps (handle-Keeps (λ s. s.prefetch_streams) gpu_idx) (λ stream.
            bind-Keeps
              (within-Keeps (Action.ask (cuda.copy_to_device_async dst host_ptr total stream)))
              (λ rc.
                if-Keeps (not (rc == 0))
                  (then-Keeps (ignore-Keeps (free_vram-Keeps gpu_idx dst total))
                    (raise-Keeps (cuda_error "cuMemcpyHtoDAsync_v2" rc)))
                  (then-Keeps (call-Keeps cuda "cuEventRecord" (cuda.record_event event stream))
                    (enlisted-Keeps name gpu_idx dst total event))))))

  prefetch_page-Keeps :
      (name : String) (gpu_idx : ℕ) (page : Page) → Keeps (prefetch_page cuda name gpu_idx page)
  unfolding prefetch_page
  prefetch_page-Keeps name gpu_idx page = from page.tier page.dram_chunks
    where
      from :
          (t : Tier) (cs : List DramChunk)
          → Keeps (elim t as (λ _. Action (TieredPool W) (Unit {0})) [
            | dram ↦ elim cs as (λ _. Action (TieredPool W) (Unit {0})) [
              | [] ↦ pure tt
              | c ∷ _ ↦ start_transfer cuda name gpu_idx c.host_ptr page.size_bytes
            ]
            | vram ↦ pure tt
            | ssd ↦ pure tt
          ])
      from vram cs = pure-Keeps tt
      from ssd cs = pure-Keeps tt
      from dram [] = pure-Keeps tt
      from dram (c ∷ cs) = start_transfer-Keeps name gpu_idx c.host_ptr page.size_bytes

  pub prefetch-Keeps : (name : String) (gpu_idx : ℕ) → Keeps (prefetch cuda name gpu_idx)
  unfolding prefetch
  prefetch-Keeps name gpu_idx = record {
    keeps = λ s. from s (find_inflight name s.inflight) (get name s.vmt.pages);
  }
    where
      from :
          (s : TieredPool W) (f : Option Inflight) (o : Option Page)
          → SameHost s
              (elim f as (λ _. Outcome (Unit {0}) × TieredPool W) [
                | some _ ↦ (done tt, s)
                | none ↦ elim o as (λ _. Outcome (Unit {0}) × TieredPool W) [
                  | none ↦ (done tt, s)
                  | some page ↦ prefetch_page cuda name gpu_idx page s
                ]
              ]).1
      from s (some _) o = (refl, refl)
      from s none none = (refl, refl)
      from s none (some page) = (prefetch_page-Keeps name gpu_idx page).keeps s

  land_prefetch-Keeps :
      (name : String) (gpu_idx now : ℕ) (f : Inflight)
      → Keeps (land_prefetch cuda name gpu_idx now f)
  unfolding land_prefetch touch
  land_prefetch-Keeps name gpu_idx now f =
      bind-Keeps
        (then-Keeps (call-Keeps cuda "cuEventSynchronize" (cuda.synchronize_event f.event))
          (known_page-Keeps name))
        (λ page. bind-Keeps (chunk_for-Keeps page gpu_idx f.device_ptr f.size) (λ chunk.
          then-Keeps (write_to-Keeps name (λ p. touch (with_chunk chunk p) now) (λ p. (refl, refl)))
            (pure-Keeps f.device_ptr)))

  pub claim_prefetch-Keeps :
      (name : String) (gpu_idx now : ℕ) → Keeps (claim_prefetch cuda name gpu_idx now)
  unfolding claim_prefetch
  claim_prefetch-Keeps name gpu_idx now = record {
    keeps = λ s. from s (find_inflight name s.inflight);
  }
    where
      other :
          (f : Inflight)
          → Keeps {W = W} {A = Option ℕ}
              (ignore (free_vram_on_gpu f.gpu_idx f.device_ptr f.size) >> pure none)
      other f =
          then-Keeps (ignore-Keeps (free_vram-Keeps f.gpu_idx f.device_ptr f.size))
            (pure-Keeps none)

      landed :
          (f : Inflight) → Keeps (land_prefetch cuda name gpu_idx now f >>= λ ptr. pure (some ptr))
      landed f = bind-Keeps (land_prefetch-Keeps name gpu_idx now f) (λ ptr. pure-Keeps (some ptr))

      from :
          (s : TieredPool W) (o : Option Inflight)
          → SameHost s
              (elim o as (λ _. Outcome (Option ℕ) × TieredPool W) [
                | none ↦ (done none, s)
                | some f ↦
                    if not (f.gpu_idx == gpu_idx)
                    then (ignore (free_vram_on_gpu f.gpu_idx f.device_ptr f.size) >> pure none)
                        (record s { inflight = drop_inflight name s.inflight })
                    else (land_prefetch cuda name gpu_idx now f >>= λ ptr. pure (some ptr))
                        (record s { inflight = drop_inflight name s.inflight })
              ]).1
      from s none = (refl, refl)
      from s (some f) = elim (Bool-cases (not (f.gpu_idx == gpu_idx))) [
        | inl e ↦ rw e ((other f).keeps (record s { inflight = drop_inflight name s.inflight }))
        | inr e ↦ rw e ((landed f).keeps (record s { inflight = drop_inflight name s.inflight }))
      ]
