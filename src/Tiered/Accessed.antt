-- ===== src/Tiered/Accessed.antt =====
-- An access of a page that is not in flight, tier by tier.
use Prim.Native.String.{String}
use mathlib.Core.Option.{some-injective}
use vugva.Common.{ℕ, ◌≡◌, refl, sym, ap, ◌∙◌, subst, true, false, Option, none, some, get_elem?}
use vugva.Vmt.{Tier, vram, dram, ssd, Chunk, Page, get, touch}
use vugva.Action.{Action, pure, ◌>>◌}
use vugva.Action.Ends.{Leaves}
use vugva.Engine.OnGpu.{On}
use vugva.Driver.{Driver}
use vugva.Tiered.State.{TieredPool, write_to}
use vugva.Tiered.Promote.{find_chunk, access_vram, access_dram, access_ssd, access_page}
use vugva.Tiered.Confined.{Confined, then-Confined, pure-Confined, write_to-Confined}
use vugva.Tiered.Resident.{Resident, writing-Resident, find_chunk-On}
use vugva.Tiered.Promoted.{access_peer-Promotes, access_dram-Promotes}
use vugva.Tiered.Staged.{access_ssd-Promotes}

module _ {W : Type 0} (cuda : Driver W) (name : String) (gpu_idx : ℕ) where
  -- A chunk that is there is answered.
  local_access :
      (now ordinal : ℕ) (page : Page) (c : Chunk) (s : TieredPool W)
      → get name s.vmt.pages ≡ some page
      → page.tier ≡ vram
      → get_elem? s.ordinals gpu_idx ≡ some ordinal
      → find_chunk true ordinal page.vram_chunks ≡ some c
      → Leaves (Resident name gpu_idx) ((write_to name (λ p. touch p now) >> pure c.device_ptr) s)
  unfolding touch
  local_access now ordinal page c s e tier o found =
      writing-Resident name gpu_idx c.device_ptr (λ p. touch p now) ordinal s o
        (λ p e'.
          let same : page ≡ p = some-injective page p (sym e ∙ e') in
          (
            ap (λ (x : Page). x.tier) (sym same) ∙ tier,
            subst (λ (x : Page). On ordinal c.device_ptr x.vram_chunks) same
                (find_chunk-On ordinal page.vram_chunks c found),
          ))

  access_vram-Leaves :
      (now ordinal : ℕ) (page : Page) (peer : Option Chunk) (s : TieredPool W)
      → get name s.vmt.pages ≡ some page
      → page.tier ≡ vram
      → get_elem? s.ordinals gpu_idx ≡ some ordinal
      → (o : Option Chunk) → find_chunk true ordinal page.vram_chunks ≡ o
      → Leaves (Resident name gpu_idx) (access_vram cuda name gpu_idx now o peer s)
  unfolding access_vram
  access_vram-Leaves now ordinal page peer s e tier o none f =
      (access_peer-Promotes cuda name gpu_idx now peer).promotes s
  access_vram-Leaves now ordinal page peer s e tier o (some c) f =
      local_access now ordinal page c s e tier o f

  pub access_page-Leaves :
      (now ordinal : ℕ) (page : Page) (s : TieredPool W)
      → get name s.vmt.pages ≡ some page
      → get_elem? s.ordinals gpu_idx ≡ some ordinal
      → Leaves (Resident name gpu_idx) (access_page cuda name gpu_idx now page ordinal s)
  unfolding access_page
  access_page-Leaves now ordinal page s e o = from page.tier refl
    where
      from :
          (t : Tier)
          → page.tier ≡ t
          → Leaves (Resident name gpu_idx) (
              (elim t as (λ _. Action (TieredPool W) ℕ) [
                | vram ↦
                    access_vram cuda name gpu_idx now
                      (find_chunk true ordinal page.vram_chunks)
                      (find_chunk false ordinal page.vram_chunks)
                | dram ↦ access_dram cuda name gpu_idx now (get_elem? page.dram_chunks gpu_idx)
                | ssd ↦ access_ssd cuda name gpu_idx now (get_elem? page.dram_chunks gpu_idx) page
              ])
                s)
      from vram tier =
          access_vram-Leaves now ordinal page (find_chunk false ordinal page.vram_chunks) s e tier o
            (find_chunk true ordinal page.vram_chunks) refl
      from dram tier =
          (access_dram-Promotes cuda name gpu_idx now (get_elem? page.dram_chunks gpu_idx)).promotes
            s
      from ssd tier =
          let cold =
            access_ssd-Promotes cuda name gpu_idx now (get_elem? page.dram_chunks gpu_idx) page in
          cold.promotes s

  pub access_page-Confined :
      (now ordinal : ℕ) (page : Page)
      → Confined name (access_page cuda name gpu_idx now page ordinal)
  unfolding access_page access_vram
  access_page-Confined now ordinal page = from page.tier (find_chunk true ordinal page.vram_chunks)
    where
      peer : Option Chunk
      peer = find_chunk false ordinal page.vram_chunks

      from :
          (t : Tier) (o : Option Chunk)
          → Confined name (elim t as (λ _. Action (TieredPool W) ℕ) [
            | vram ↦ access_vram cuda name gpu_idx now o peer
            | dram ↦ access_dram cuda name gpu_idx now (get_elem? page.dram_chunks gpu_idx)
            | ssd ↦ access_ssd cuda name gpu_idx now (get_elem? page.dram_chunks gpu_idx) page
          ])
      from vram none = (access_peer-Promotes cuda name gpu_idx now peer).confined
      from vram (some c) =
          then-Confined (write_to-Confined name (λ p. touch p now)) (pure-Confined c.device_ptr)
      from dram o =
          (access_dram-Promotes cuda name gpu_idx now (get_elem? page.dram_chunks gpu_idx)).confined
      from ssd o =
          let cold =
            access_ssd-Promotes cuda name gpu_idx now (get_elem? page.dram_chunks gpu_idx) page in
          cold.confined
