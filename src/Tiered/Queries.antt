-- ===== src/Tiered/Queries.antt =====
-- src/tiered.rs: what a pool reports of itself.
use vugva.Common.{ℕ, Bool, true, false, none, some, List, get_elem?, length}
use vugva.Error.{Result, ok, err, invalid_gpu}
use vugva.Range
use vugva.Range.{RangeAllocator}
use vugva.Pool
use vugva.Pool.{DramPool}
use vugva.Tiered.State.{TieredPool}

-- `get(gpu_idx).map(..).ok_or(InvalidGpu(gpu_idx))`
abbrev at_gpu : {A B : Type 0} → List A → ℕ → (A → B) → Result B
at_gpu xs gpu_idx f = elim (get_elem? xs gpu_idx) [
  | none ↦ err (invalid_gpu gpu_idx)
  | some a ↦ ok (f a)
]

module _ {W : Type 0} where
  unfoldable pub has_spill : TieredPool W → Bool
  has_spill s = elim s.spill [ none ↦ false | some _ ↦ true ]

  unfoldable pub spill_used : TieredPool W → ℕ
  unfolding Range.used
  spill_used s = elim s.spill [ none ↦ 0 | some a ↦ Range.used a ]

  unfoldable pub dram_used : TieredPool W → ℕ → Result ℕ
  unfolding Pool.used
  dram_used s gpu_idx = at_gpu s.dram_pools gpu_idx Pool.used

  unfoldable pub vram_cached_blocks : TieredPool W → ℕ → Result ℕ
  vram_cached_blocks s gpu_idx = at_gpu s.vram_free gpu_idx length

  unfoldable pub dram_numa_bound : TieredPool W → ℕ → Result Bool
  dram_numa_bound s gpu_idx = at_gpu s.dram_pools gpu_idx (λ p. p.numa_bound)

  unfoldable pub dram_pinned : TieredPool W → ℕ → Result Bool
  dram_pinned s gpu_idx = at_gpu s.dram_pools gpu_idx (λ p. p.pinned)
