-- ===== src/Tiered/SafeAccess.antt =====
-- `TieredPool::access` keeps the host memory of the pages safe.
use Prim.Native.String.{String, ◌++◌ as str_append}
use vugva.Common.{
  ℕ, ◌≤◌, ◌^◌, refl, Bool, true, false, Option, none, some, if◌then◌else◌, get_elem?, leb,
}
use vugva.Error.{unknown_allocation}
use vugva.Vmt.{vram, dram, ssd, Tier, DramChunk, Page}
use vugva.Action.{
  Outcome, done, failed, panicked, Action, pure, raise, or_raise, lift, attempt, ignore, then_end,
  ◌>>=◌, ◌>>◌,
}
use vugva.Driver.{Driver}
use vugva.Tiered.State.{TieredPool, page_of, handle}
use vugva.Tiered.Promote.{
  find_chunk, access_vram, access_dram, access_borrowed, access_staged, access_ssd, access_owned,
  access_page, access,
}
use vugva.Tiered.Backing.{backing}
use vugva.Tiered.Keeps.{Keeps, or_raise-Keeps, handle-Keeps, within-Keeps, pure-Keeps}
use vugva.Tiered.Unmoved.{alloc_vram-Keeps, access_vram-Keeps, access_dram-Keeps}
use vugva.Tiered.Loaded.{access_owned-Keeps, claim_prefetch-Keeps}
use vugva.Action
use vugva.Action.{modify}
use vugva.Membrane.{observe}
use vugva.Tiered.Safe.{Safely, Keeps-Safely, bind-Safely, then-Safely, page_of-Safely}
use vugva.Tiered.SafeStage.{access_borrowed-Safely}

module _ {W : Type 0} (cuda : Driver W) where
  access_staged-Safely :
      (name : String) (gpu_idx now : ℕ) (backing : Option DramChunk) (offset total dst : ℕ)
      → total ≤ 2 ^ 63
      → Safely (access_staged cuda name gpu_idx now backing offset total dst)
  unfolding access_staged
  access_staged-Safely name gpu_idx now none offset total dst small =
      access_borrowed-Safely cuda name gpu_idx now offset total dst small
  access_staged-Safely name gpu_idx now (some c) offset total dst small =
      from (leb total c.size_bytes)
    where
      from :
          (b : Bool)
          → Safely (
              if b
              then access_owned cuda name gpu_idx now offset total dst c.host_ptr
              else access_borrowed cuda name gpu_idx now offset total dst)
      from true =
          Keeps-Safely (access_owned-Keeps cuda name gpu_idx now offset total dst c.host_ptr)
      from false = access_borrowed-Safely cuda name gpu_idx now offset total dst small

  access_ssd-Safely :
      (name : String) (gpu_idx now : ℕ) (backing : Option DramChunk) (page : Page)
      → page.size_bytes ≤ 2 ^ 63
      → Safely (access_ssd cuda name gpu_idx now backing page)
  unfolding access_ssd
  access_ssd-Safely name gpu_idx now backing page small =
      bind-Safely
        (Keeps-Safely (
          or_raise-Keeps page.ssd_offset (
            unknown_allocation (str_append name ": page is on Tier::Ssd but has no spill offset"))))
        (λ offset.
          bind-Safely (Keeps-Safely (alloc_vram-Keeps cuda gpu_idx page.size_bytes))
            (λ dst. access_staged-Safely name gpu_idx now backing offset page.size_bytes dst small))

  access_page-Safely :
      (name : String) (gpu_idx now : ℕ) (page : Page) (ordinal : ℕ)
      → page.size_bytes ≤ 2 ^ 63
      → Safely (access_page cuda name gpu_idx now page ordinal)
  unfolding access_page
  access_page-Safely name gpu_idx now page ordinal small = from page.tier
    where
      from :
          (t : Tier)
          → Safely (elim t as (λ _. Action (TieredPool W) ℕ) [
            | vram ↦
                access_vram cuda name gpu_idx now
                  (find_chunk true ordinal page.vram_chunks)
                  (find_chunk false ordinal page.vram_chunks)
            | dram ↦ access_dram cuda name gpu_idx now (get_elem? page.dram_chunks gpu_idx)
            | ssd ↦ access_ssd cuda name gpu_idx now (get_elem? page.dram_chunks gpu_idx) page
          ])
      from vram = Keeps-Safely (
          access_vram-Keeps cuda name gpu_idx now (find_chunk true ordinal page.vram_chunks)
            (find_chunk false ordinal page.vram_chunks))
      from dram =
          Keeps-Safely
            (access_dram-Keeps cuda name gpu_idx now (get_elem? page.dram_chunks gpu_idx))
      from ssd = access_ssd-Safely name gpu_idx now (get_elem? page.dram_chunks gpu_idx) page small

  -- `access` keeps the host memory safe on every way that it can end.
  pub access-Safely : (name : String) (gpu_idx : ℕ) → Safely (access cuda name gpu_idx)
  unfolding access
  access-Safely name gpu_idx =
      bind-Safely (Keeps-Safely (within-Keeps (Action.ask cuda.now_ns))) (λ now.
        bind-Safely
          (then-Safely (Keeps-Safely (observed-Keeps name))
            (Keeps-Safely (claim_prefetch-Keeps cuda name gpu_idx now)))
          (λ claimed. from now claimed))
    where
      observed-Keeps :
          (name : String)
          → Keeps {W = W} (modify (λ s. record s { membrane_hits = observe name s.membrane_hits }))
      observed-Keeps name = record { keeps = λ s. (refl, refl) }

      from :
          (now : ℕ) (claimed : Option ℕ)
          → Safely (elim claimed as (λ _. Action (TieredPool W) ℕ) [
            | some ptr ↦ pure ptr
            | none ↦ page_of name >>= λ page. handle (λ s. s.ordinals) gpu_idx >>= λ ordinal.
                access_page cuda name gpu_idx now page ordinal
          ])
      from now (some ptr) = Keeps-Safely (pure-Keeps ptr)
      from now none = page_of-Safely name (λ page small.
          bind-Safely (Keeps-Safely (handle-Keeps (λ s. s.ordinals) gpu_idx))
            (λ ordinal. access_page-Safely name gpu_idx now page ordinal small))
