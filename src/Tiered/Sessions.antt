-- ===== src/Tiered/Sessions.antt =====
-- What the calls of a client on a `TieredPool` keep.
use Prim.Native.String.{String}
use vugva.Common.{ℕ, ◌+◌, ◌%◌, ◌≤◌, ◌<◌, ◌^◌, ◌≡◌, sym, subst, List, [], ◌∷◌, Bool, arith, some}
use vugva.FreeList.{Block}
use vugva.Range.Live.{holders, start-IsSafe}
use vugva.Range
use vugva.Range.Allocate.{IsSound}
use vugva.Pool.{DramPool}
use vugva.Pool.Refine.{offsets}
use vugva.Membrane.{Float}
use vugva.Error.{Result, ok, err}
use vugva.Spill.{SpillFile, create}
use vugva.Action.{Outcome, done, failed}
use vugva.Driver.{Driver}
use vugva.Tiered.State.{TieredPool}
use vugva.Tiered.Build.{attach_spill}
use vugva.Tiered.Sweep.{SweptPool, enable_membrane}
use vugva.Tiered.Steps.{AllFresh}
use vugva.Tiered.Ready.{Ready}
use vugva.Tiered.Lent.{AllGrounded, Apart}
use vugva.Tiered.Backing.{backing, blocks, AllSmall}
use vugva.Tiered.Backed.{Backed, lent-le_one}
use vugva.Tiered.Loaded.{prefetch-Keeps}
use vugva.Tiered.Lowered.{demote-Keeps, write_page-Keeps}
use vugva.Tiered.Safe.{HostSafe, Safely, Keeps-Safely}
use vugva.Tiered.SafeAccess.{access-Safely}
use vugva.Tiered.SafeTable.{allocate-Safely}
use vugva.Tiered.SafeRelease.{deallocate-Safely}
use vugva.Tiered.SafeSweep.{background_sweep-Sweeps}
use vugva.Tiered.Calls.{
  Call, allocating, accessing, prefetching, demoting, writing, deallocating, attaching, enabling,
  sweeping, IsSmall, AllIsSmall, run_call, run_calls,
}

attach_spill-Safely :
    {W : Type 0} (cuda : Driver W) (path : String) (capacity : ℕ) (unlink : Bool)
    → Safely (attach_spill cuda path capacity unlink)
unfolding attach_spill
attach_spill-Safely {W} cuda path capacity unlink = record {
  safe = λ s h. from s h (create cuda.open_spill path capacity unlink s.world);
}
  where
    from :
        (s : TieredPool W)
        → HostSafe [] s
        → (r : Result SpillFile × W)
        → HostSafe []
            (elim r.0 as (λ _. Outcome (Unit {0}) × TieredPool W) [
              | ok f ↦ (done tt, record s { spill = some f.alloc; world = r.1 })
              | err e ↦ (failed e, record s { world = r.1 })
            ]).1
    from s h (ok f, w) = record { backed = h.backed; small = h.small }
    from s h (err e, w) = record { backed = h.backed; small = h.small }

module _ {F W : Type 0} (float : Float F) (cuda : Driver W) where
  run_call-HostSafe :
      (c : Call) (s : SweptPool F W)
      → IsSmall c
      → HostSafe [] s.pool
      → HostSafe [] (run_call float cuda c s).pool
  unfolding run_call enable_membrane
  run_call-HostSafe (allocating name shape element_size tier) s small h =
      (allocate-Safely name shape element_size tier small).safe s.pool h
  run_call-HostSafe (accessing name gpu_idx) s small h =
      (access-Safely cuda name gpu_idx).safe s.pool h
  run_call-HostSafe (prefetching name gpu_idx) s small h =
      (Keeps-Safely (prefetch-Keeps cuda name gpu_idx)).safe s.pool h
  run_call-HostSafe (demoting name) s small h =
      (Keeps-Safely (demote-Keeps cuda name)).safe s.pool h
  run_call-HostSafe (writing name bytes) s small h =
      (Keeps-Safely (write_page-Keeps cuda name bytes)).safe s.pool h
  run_call-HostSafe (deallocating name) s small h = (deallocate-Safely name).safe s.pool h
  run_call-HostSafe (attaching path capacity unlink) s small h =
      (attach_spill-Safely cuda path capacity unlink).safe s.pool h
  run_call-HostSafe (enabling budget) s small h = record { backed = h.backed; small = h.small }
  run_call-HostSafe sweeping s small h = (background_sweep-Sweeps float cuda).safe s h

  run_calls-HostSafe :
      (cs : List Call) (s : SweptPool F W)
      → AllIsSmall cs
      → HostSafe [] s.pool
      → HostSafe [] (run_calls float cuda cs s).pool
  unfolding run_calls
  run_calls-HostSafe [] s small h = h
  run_calls-HostSafe (c ∷ cs) s (small, rest) h =
      run_calls-HostSafe cs (run_call float cuda c s) rest (run_call-HostSafe c s small h)

-- The memory of every pool begins on a multiple of 64 and ends below 2 ^ 64.
abbrev pub AllMapped : List DramPool → Type 0
AllMapped [] = Unit {0}
AllMapped (p ∷ ps) = (p.base_ptr % 64 ≡ 0) × (p.base_ptr + p.capacity < 2 ^ 64) × AllMapped ps

fresh-IsSound :
    (p : DramPool) (size : ℕ)
    → size < 2 ^ 63
    → p.capacity ≡ size
    → p.offset ≡ 0
    → p.free_blocks ≡ []
    → IsSound (offsets p)
unfolding Range.new
fresh-IsSound p size small c o f =
    let at = λ (offset : ℕ) (free : List Block).
      IsSound (record { capacity = p.capacity; offset = offset; free_blocks = free }) in
    subst (λ offset. at offset p.free_blocks) (sym o)
      (subst (at 0) (sym f) (start-IsSafe p.capacity (omega (arith, c, small))).sound)

fresh-AllGrounded :
    (ps : List DramPool) (size : ℕ)
    → size < 2 ^ 63
    → AllFresh size ps
    → AllMapped ps
    → AllGrounded ps
fresh-AllGrounded [] size small fresh mapped = tt
fresh-AllGrounded (p ∷ ps) size small ((c, o, f), fresh) (al, b, mapped) = (
  record { sound = fresh-IsSound p size small c o f; aligned = al; bounded = b },
  fresh-AllGrounded ps size small fresh mapped,
)

-- A new pool holds no host memory for any page.
Ready-HostSafe :
    {W : Type 0} (ordinals : List ℕ) (size : ℕ) (s : TieredPool W)
    → Ready ordinals size s
    → size < 2 ^ 63
    → AllMapped s.dram_pools
    → Apart s.dram_pools
    → HostSafe [] s
unfolding backing holders
Ready-HostSafe ordinals size s ready small mapped apart =
    let (b, c) =
      subst (λ m. Backed s.dram_pools (blocks (backing m)) × AllSmall (backing m))
        (sym ready.no_pages)
        (
          record {
            grounded = fresh-AllGrounded s.dram_pools size small ready.fresh mapped;
            apart = apart;
            housed = tt;
            exclusive = λ x. omega arith;
          },
          tt,
        ) in
    record { backed = b; small = c }

-- Take a pool as `new` gives it, of which every GPU's host memory begins on a multiple of 64 and ends below 2 ^ 64,
-- no two of them share a byte, and each has less than 2 ^ 63 bytes. After any calls of a client, of
-- which no allocation asks for more than 2 ^ 63 bytes, and however each of them ended, every address is in at most
-- one DRAM chunk of all pages, and in one only if a pool has lent it; the pools are sound and as far apart.
pub run_calls-Exclusive :
    {F W : Type 0} (float : Float F) (cuda : Driver W) (ordinals : List ℕ) (size : ℕ)
    (s : SweptPool F W) (cs : List Call)
    → Ready ordinals size s.pool
    → size < 2 ^ 63
    → AllMapped s.pool.dram_pools
    → Apart s.pool.dram_pools
    → AllIsSmall cs
    → let t = (run_calls float cuda cs s).pool in
      HostSafe [] t × ((x : ℕ) → holders (blocks (backing t.vmt.pages)) x ≤ 1)
run_calls-Exclusive float cuda ordinals size s cs ready small mapped apart fit =
    let h =
      run_calls-HostSafe float cuda cs s fit
        (Ready-HostSafe ordinals size s.pool ready small mapped apart) in
    let t = (run_calls float cuda cs s).pool in
    (
      h,
      λ x. omega (
        arith,
        h.backed.exclusive x,
        lent-le_one t.dram_pools x h.backed.grounded h.backed.apart,
      ),
    )
