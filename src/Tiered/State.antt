-- ===== src/Tiered/State.antt =====
-- The state of `TieredPool` of src/tiered.rs, the driver that it calls, and the actions on both.
use Prim.Native.String.{String}
use text.Mathlib.Text.{◌==◌ as str_eq}
use vugva.Common.{ℕ, Option, none, some, List, [], ◌∷◌, if◌then◌else◌, get_elem?}
use vugva.Action
use vugva.Action.{
  Outcome, done, failed, panicked, Action, pure, raise, panic, gets, or_raise, or_panic, lift,
  ◌>>=◌, ◌>>◌,
}
use vugva.Error.{unknown_allocation, Result}
use vugva.Range.{RangeAllocator}
use vugva.Pool.{DramPool}
use vugva.Dma.{DmaEngine}
use vugva.Vmt.{Page, VirtualMemoryTable, get, update}

-- A promotion under way: `(gpu_idx, device_ptr, size, event)`.
pub record Inflight : Type 0 where
  pub gpu_idx : ℕ
  pub device_ptr : ℕ
  pub size : ℕ
  pub event : ℕ

-- `membrane_hits` is the membrane's `hits`. Contexts and streams are raw handles, one per GPU, and
-- `spill` is the allocator of the spill file.
pub record TieredPool (W : Type 0) : Type 0 where
  pub vmt : VirtualMemoryTable
  pub dma : DmaEngine
  pub ordinals : List ℕ
  pub ordinal_map : List (ℕ × ℕ)
  pub contexts : List ℕ
  pub compute : List ℕ
  pub prefetch_streams : List ℕ
  pub dram_pools : List DramPool
  pub vram_free : List (List (ℕ × ℕ))
  pub spill : Option RangeAllocator
  pub inflight : List (String × Inflight)
  pub membrane_hits : List (String × ℕ)
  pub membrane_budget : Option ℕ
  pub idle_threshold_ns : ℕ
  pub hot_threshold : ℕ
  pub world : W

-- An action on the world, in the pool's place.
abbrev pub within : {W A : Type 0} → Action W A → Action (TieredPool W) A
within m s = let (r, w) = m s.world in (r, record s { world = w })

-- A call of the DMA engine.
abbrev pub submit : {W : Type 0} → (DmaEngine → Result ℕ × DmaEngine) → Action (TieredPool W) ℕ
submit f s = let (r, e) = f s.dma in lift r (record s { dma = e })

-- The page of a name: an error when it has none, as `ok_or_else(UnknownAllocation)` gives, or a
-- panic, as `unwrap` does.
abbrev pub page_of : {W : Type 0} → String → Action (TieredPool W) Page
page_of name = gets (λ s. get name s.vmt.pages) >>= λ o. or_raise o (unknown_allocation name)

abbrev pub known_page : {W : Type 0} → String → Action (TieredPool W) Page
known_page name = gets (λ s. get name s.vmt.pages) >>= or_panic

-- An index into one of the vectors of handles.
abbrev pub handle : {W : Type 0} → (TieredPool W → List ℕ) → ℕ → Action (TieredPool W) ℕ
handle field gpu_idx = gets (λ s. get_elem? (field s) gpu_idx) >>= or_panic

-- `check_cu` on a call of the driver, a call with no code, and the like.
abbrev pub call : {W : Type 0} → String → (W → ℕ × W) → Action (TieredPool W) (Unit {0})
call fn_name f = within (Action.call fn_name f)

abbrev pub call_for : {W : Type 0} → String → (W → (ℕ × ℕ) × W) → Action (TieredPool W) ℕ
call_for fn_name f = within (Action.call_for fn_name f)

abbrev pub ask : {W A : Type 0} → (W → A × W) → Action (TieredPool W) A
ask f = within (Action.ask f)

abbrev pub file_call : {W : Type 0} → (W → Option ℕ × W) → Action (TieredPool W) (Unit {0})
file_call f = within (Action.file_call f)

-- What a method writes to a page through `lookup_mut`.
abbrev pub write_to : {W : Type 0} → String → (Page → Page) → Action (TieredPool W) (Unit {0})
write_to name f s = elim (get name s.vmt.pages) [
  | none ↦ (panicked, s)
  | some _ ↦ (done tt, record s { vmt = update s.vmt name f })
]

-- `inflight.get` and `inflight.remove`.
unfoldable pub find_inflight : String → List (String × Inflight) → Option Inflight
find_inflight name [] = none
find_inflight name ((k, f) ∷ m) = if str_eq k name then some f else find_inflight name m

unfoldable pub drop_inflight : String → List (String × Inflight) → List (String × Inflight)
drop_inflight name [] = []
drop_inflight name ((k, f) ∷ m) = if str_eq k name then m else (k, f) ∷ drop_inflight name m
