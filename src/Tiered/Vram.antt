-- ===== src/Tiered/Vram.antt =====
-- src/tiered.rs: device blocks and the recycle cache of each GPU.
use vugva.Common.{
  ℕ, suc, ◌-◌, ◌==◌, Option, none, some, List, [], ◌∷◌, ◌++◌, if◌then◌else◌, get_elem?, get_or, set,
  take, length,
}
use vugva.Error.{invalid_gpu}
use vugva.Action.{done, Action, raise, gets, or_raise, ◌>>=◌, ◌>>◌}
use vugva.Driver.{Driver}
use vugva.Tiered.State.{TieredPool, call, call_for}

-- `iter().position(|&(sz, _)| sz == bytes)`
unfoldable pub position : List (ℕ × ℕ) → ℕ → Option ℕ
position [] bytes = none
position ((sz, _) ∷ cache) bytes =
    let rest = position cache bytes in
    if sz == bytes then some 0 else elim rest [ none ↦ none | some i ↦ some (suc i) ]

-- `Vec::swap_remove`: the last block takes the removed one's place.
unfoldable pub swap_remove : List (ℕ × ℕ) → ℕ → List (ℕ × ℕ)
swap_remove cache i =
    let last = length cache - 1 in set (take last cache) i (get_or cache last (0, 0))

module _ {W : Type 0} (cuda : Driver W) where
  unfoldable pub set_context : ℕ → Action (TieredPool W) (Unit {0})
  set_context gpu_idx = (gets λ s. get_elem? s.contexts gpu_idx) >>= λ ctx.
      or_raise ctx (invalid_gpu gpu_idx) >>= λ raw. call "cuCtxSetCurrent" (cuda.set_current raw)

  abbrev pub fresh_block : ℕ → ℕ → Action (TieredPool W) ℕ
  unfolding set_context
  fresh_block gpu_idx bytes = set_context gpu_idx >> call_for "cuMemAlloc_v2" (cuda.mem_alloc bytes)

  unfoldable pub alloc_vram_on_gpu : ℕ → ℕ → Action (TieredPool W) ℕ
  alloc_vram_on_gpu gpu_idx bytes s = elim (get_elem? s.vram_free gpu_idx) [
    | none ↦ raise (invalid_gpu gpu_idx) s
    | some cache ↦ elim (position cache bytes) [
      | some i ↦ (
        done (get_or cache i (0, 0)).1,
        record s { vram_free = set s.vram_free gpu_idx (swap_remove cache i) },
      )
      | none ↦ fresh_block gpu_idx bytes s
    ]
  ]

unfoldable pub free_vram_on_gpu : {W : Type 0} → ℕ → ℕ → ℕ → Action (TieredPool W) (Unit {0})
free_vram_on_gpu gpu_idx ptr bytes s =
    if ptr == 0 then (done tt, s) else elim (get_elem? s.vram_free gpu_idx) [
      | none ↦ raise (invalid_gpu gpu_idx) s
      | some cache ↦
          (done tt, record s { vram_free = set s.vram_free gpu_idx (cache ++ (bytes, ptr) ∷ []) })
    ]
