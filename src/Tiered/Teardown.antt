-- ===== src/Tiered/Teardown.antt =====
-- src/tiered.rs: dropping a pool.
use vugva.Common.{ℕ, suc, ◌==◌, Option, none, some, List, [], ◌∷◌, if◌then◌else◌, get_elem?}
use vugva.Driver.{Driver}
use vugva.Pool.{DramPool}
use vugva.Tiered.State.{TieredPool}

module _ {W : Type 0} (cuda : Driver W) where
  -- The blocks of a cache go back to the driver in the GPU's context, if that can be entered.
  unfoldable pub free_blocks : List (ℕ × ℕ) → W → W
  free_blocks [] w = w
  free_blocks ((_, ptr) ∷ cache) w = free_blocks cache (cuda.mem_free ptr w).1

  unfoldable pub release_cache : Option ℕ → List (ℕ × ℕ) → W → W
  unfolding free_blocks
  release_cache none cache w = w
  release_cache (some ctx) [] w = w
  release_cache (some ctx) (b ∷ cache) w =
      let (code, w') = cuda.push_current ctx w in
      if code == 0 then (cuda.pop_current (free_blocks (b ∷ cache) w')).1 else w'

  unfoldable pub release_caches : List ℕ → ℕ → List (List (ℕ × ℕ)) → W → W
  unfolding release_cache
  release_caches contexts gpu_idx [] w = w
  release_caches contexts gpu_idx (cache ∷ caches) w =
      release_caches contexts (suc gpu_idx) caches
        (release_cache (get_elem? contexts gpu_idx) cache w)

  -- `libc_free`: only a range of some bytes.
  unfoldable pub libc_free : ℕ → ℕ → W → W
  libc_free ptr size w =
      if ptr == 0 then w else if size == 0 then w else cuda.unmap_memory ptr size w

  unfoldable pub release_pools : List DramPool → W → W
  unfolding libc_free
  release_pools [] w = w
  release_pools (p ∷ ps) w = release_pools ps (
      if p.base_ptr == 0
      then w
      else libc_free p.base_ptr p.capacity
          (if p.pinned then (cuda.unregister_host p.base_ptr w).1 else w))

  -- The body of `Drop`; the fields' own destructors follow it.
  unfoldable pub drop_pool : TieredPool W → W
  unfolding release_caches release_pools
  drop_pool s = release_pools s.dram_pools (release_caches s.contexts 0 s.vram_free s.world)
