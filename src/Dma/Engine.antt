-- ===== src/Dma/Engine.antt =====
-- The engine's `submit_*` calls: which ring a descriptor goes to, and what it says.
use vugva.Common.{
  ℕ, ◌≤◌, ◌<◌, ◌^◌, ◌≡◌, ◌≢◌, ◌↔◌, refl, sym, arith, length, get_or, get_or-set_self, get_or-set_ne,
  lt→not-leb, le→leb,
}
use vugva.Error.{Result, err, invalid_gpu}
use vugva.Dma.{
  DmaDescriptor, DmaRing, DmaEngine, dma_flag_writeback, new, submit, submit_to, descriptor,
  submit_dram_to_vram, submit_vram_to_dram,
}

abbrev pub ring_of : DmaEngine → ℕ → DmaRing
ring_of e gpu = get_or e.rings gpu new

-- A submission to ring `gpu` and to no other.
pub record Routed (e : DmaEngine) (gpu : ℕ) (d : DmaDescriptor) (out : Result ℕ × DmaEngine)
    : Type 0 where
  pub reply : out.0 ≡ (submit (ring_of e gpu) d).0
  pub here : ring_of out.1 gpu ≡ (submit (ring_of e gpu) d).1
  pub elsewhere : (j : ℕ) → j ≢ gpu → ring_of out.1 j ≡ ring_of e j

submit_to-Routed :
    (e : DmaEngine) (gpu : ℕ) (d : DmaDescriptor)
    → gpu < length e.rings
    → Routed e gpu d (submit_to e gpu d)
unfolding submit_to
submit_to-Routed e gpu d h = record {
  reply = refl;
  here = get_or-set_self e.rings gpu (submit (ring_of e gpu) d).1 new h;
  elsewhere =
      λ j ne. get_or-set_ne e.rings gpu j (submit (ring_of e gpu) d).1 new (λ eq. ne (sym eq));
}

-- A promotion of a GPU in range goes to that GPU's ring, unflagged; out of range it is refused.
pub submit_dram_to_vram_routes :
    (e : DmaEngine) (gpu src dst size priority : ℕ)
    → length e.rings ≡ e.num_gpus
    → let out = submit_dram_to_vram e gpu src dst size priority in
      (gpu < e.num_gpus → Routed e gpu (descriptor gpu gpu src dst size priority 0) out)
      × (e.num_gpus ≤ gpu → out ≡ (err (invalid_gpu gpu), e))
unfolding submit_dram_to_vram
submit_dram_to_vram_routes e gpu src dst size priority l = (
  λ lt. rw (lt→not-leb gpu e.num_gpus lt) (submit_to-Routed e gpu _ (omega arith)),
  λ le. rw (le→leb e.num_gpus gpu le) refl,
)

-- A writeback goes to the ring of its source GPU and carries the flag that tells its direction.
pub submit_vram_to_dram_routes :
    (e : DmaEngine) (gpu src dst size priority : ℕ)
    → length e.rings ≡ e.num_gpus
    → let out = submit_vram_to_dram e gpu src dst size priority in
      (gpu < e.num_gpus
        → Routed e gpu (descriptor gpu gpu src dst size priority dma_flag_writeback) out)
      × (e.num_gpus ≤ gpu → out ≡ (err (invalid_gpu gpu), e))
unfolding submit_vram_to_dram
submit_vram_to_dram_routes e gpu src dst size priority l = (
  λ lt. rw (lt→not-leb gpu e.num_gpus lt) (submit_to-Routed e gpu _ (omega arith)),
  λ le. rw (le→leb e.num_gpus gpu le) refl,
)

-- A descriptor records the size of its transfer exactly when the size is below 4 GiB.
pub descriptor-size_iff :
    (src_gpu dst_gpu src dst size priority flags : ℕ)
    → ((descriptor src_gpu dst_gpu src dst size priority flags).size ≡ size) ↔ (size < 2 ^ 32)
unfolding descriptor
descriptor-size_iff src_gpu dst_gpu src dst size priority flags =
    (λ e. omega arith, λ h. omega arith)
