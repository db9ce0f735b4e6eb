-- ===== src/Engine/OnGpu.antt =====
-- The chunks of a page that are on a GPU.
use Prim.Native.String.{String}
use mathlib.Core.Option.{none-ne-some, some-injective}
use vugva.Common.{
  ℕ, suc, ◌≡◌, refl, ap, ◌==◌, Bool, true, false, inl, inr, none, some, List, [], ◌∷◌, ◌++◌,
  get_elem?, if◌then◌else◌, Bool-cases, ==→eq,
}
use vugva.Vmt.{Chunk, Page, VirtualMemoryTable, lookup}
use vugva.Engine.Access.{find_chunk, is_resident, resident_chunk}

-- One of the chunks is on the GPU, at the address.
abbrev pub On : ℕ → ℕ → List Chunk → Type 0
On gpu_ordinal ptr cs =
    (i : ℕ) × (c : Chunk) × (get_elem? cs i ≡ some c)
    × (c.gpu_ordinal ≡ gpu_ordinal)
    × (c.device_ptr ≡ ptr)

-- The table has a page of that name with a chunk on the GPU, at the address.
pub record HasChunk (name : String) (gpu_ordinal ptr : ℕ) (t : VirtualMemoryTable) : Type 0 where
  pub page : Page
  pub found : lookup t name ≡ some page
  pub chunk : On gpu_ordinal ptr page.vram_chunks

pub On-cons :
    (gpu_ordinal ptr : ℕ) (d : Chunk) (cs : List Chunk)
    → On gpu_ordinal ptr cs
    → On gpu_ordinal ptr (d ∷ cs)
On-cons gpu_ordinal ptr d cs (i, c, e, f, g) = (suc i, c, e, f, g)

pub On-last :
    (gpu_ordinal : ℕ) (cs : List Chunk) (c : Chunk)
    → c.gpu_ordinal ≡ gpu_ordinal
    → On gpu_ordinal c.device_ptr (cs ++ c ∷ [])
On-last gpu_ordinal [] c e = (0, c, refl, e, refl)
On-last gpu_ordinal (d ∷ cs) c e =
    On-cons gpu_ordinal c.device_ptr d (cs ++ c ∷ []) (On-last gpu_ordinal cs c e)

pub find_chunk-On :
    (gpu_ordinal : ℕ) (cs : List Chunk) (c : Chunk)
    → find_chunk gpu_ordinal cs ≡ some c
    → On gpu_ordinal c.device_ptr cs
unfolding find_chunk
find_chunk-On gpu_ordinal [] c e = absurd (none-ne-some c e)
find_chunk-On gpu_ordinal (d ∷ cs) c e = elim (Bool-cases (d.gpu_ordinal == gpu_ordinal)) [
  | inl h ↦ (
    0,
    d,
    refl,
    ==→eq d.gpu_ordinal gpu_ordinal h,
    ap (λ x. x.device_ptr) (some-injective d c (rw h at e)),
  )
  | inr h ↦ On-cons gpu_ordinal c.device_ptr d cs (find_chunk-On gpu_ordinal cs c (rw h at e))
]

pub resident_chunk-On :
    (page : Page) (gpu_ordinal : ℕ) (c : Chunk)
    → resident_chunk page gpu_ordinal ≡ some c
    → On gpu_ordinal c.device_ptr page.vram_chunks
unfolding resident_chunk
resident_chunk-On page gpu_ordinal c e = from (is_resident page.state) e
  where
    from :
        (b : Bool)
        → (if b then find_chunk gpu_ordinal page.vram_chunks else none) ≡ some c
        → On gpu_ordinal c.device_ptr page.vram_chunks
    from true h = find_chunk-On gpu_ordinal page.vram_chunks c h
    from false h = absurd (none-ne-some c h)
