-- ===== src/Tiered/Calls.antt =====
-- src/tiered.rs: the methods of a `TieredPool` that change it, called one after the other.
use Prim.Native.String.{String}
use vugva.Common.{ℕ, ◌≤◌, ◌^◌, List, [], ◌∷◌, Bool}
use vugva.Membrane.{Float}
use vugva.Vmt.{Tier, tensor_bytes}
use vugva.Driver.{Driver}
use vugva.Tiered.Allocate.{allocate, deallocate}
use vugva.Tiered.Promote.{access}
use vugva.Tiered.Prefetch.{prefetch}
use vugva.Tiered.Demote.{demote}
use vugva.Tiered.Write.{write_page}
use vugva.Tiered.Build.{attach_spill}
use vugva.Tiered.Sweep.{SweptPool, on_pool, enable_membrane, background_sweep}

-- The methods of a pool that change it, with their arguments.
pub data Call : Type 0 where
  allocating : String → List ℕ → ℕ → Tier → Call
  accessing : String → ℕ → Call
  prefetching : String → ℕ → Call
  demoting : String → Call
  writing : String → List ℕ → Call
  deallocating : String → Call
  attaching : String → ℕ → Bool → Call
  enabling : ℕ → Call
  sweeping : Call

-- A tensor has at most 2 ^ 63 bytes.
abbrev pub IsSmall : Call → Type 0
IsSmall (allocating name shape element_size tier) = tensor_bytes shape element_size ≤ 2 ^ 63
IsSmall _ = Unit {0}

abbrev pub AllIsSmall : List Call → Type 0
AllIsSmall [] = Unit {0}
AllIsSmall (c ∷ cs) = IsSmall c × AllIsSmall cs

module _ {F W : Type 0} (float : Float F) (cuda : Driver W) where
  -- The pool after a call, whatever the call answers: a value, an error or a panic that the client catches.
  unfoldable pub run_call : Call → SweptPool F W → SweptPool F W
  unfolding allocate deallocate access prefetch demote write_page attach_spill enable_membrane
      background_sweep
  run_call (allocating name shape element_size tier) s =
      (on_pool (allocate name shape element_size tier) s).1
  run_call (accessing name gpu_idx) s = (on_pool (access cuda name gpu_idx) s).1
  run_call (prefetching name gpu_idx) s = (on_pool (prefetch cuda name gpu_idx) s).1
  run_call (demoting name) s = (on_pool (demote cuda name) s).1
  run_call (writing name bytes) s = (on_pool (write_page cuda name bytes) s).1
  run_call (deallocating name) s = (on_pool (deallocate name) s).1
  run_call (attaching path capacity unlink) s =
      (on_pool (attach_spill cuda path capacity unlink) s).1
  run_call (enabling budget) s = record s { pool = enable_membrane budget s.pool }
  run_call sweeping s = (background_sweep float cuda s).1

  unfoldable pub run_calls : List Call → SweptPool F W → SweptPool F W
  unfolding run_call
  run_calls [] s = s
  run_calls (c ∷ cs) s = run_calls cs (run_call c s)
