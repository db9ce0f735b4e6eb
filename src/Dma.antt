-- ===== src/Dma.antt =====
-- src/dma.rs: the descriptor rings of the transfer engine. The atomics of one ring are read and
-- written by whole calls, one after another.
pub mod Queue
pub mod Engine
pub mod Faults
mod Tests
use Prim.Native.Nat.{bit_and, max, ◌*◌}
use vugva.Common.{
  ℕ, zero, suc, ◌+◌, ◌-◌, ◌%◌, ◌^◌, Bool, ◌||◌, Option, none, some, List, [], ◌∷◌, ltb, leb, ◌==◌,
  if◌then◌else◌, get_or, set, replicate,
}
use vugva.Error.{Result, ok, err, VugvaError, dma_ring_full, invalid_gpu}

pub record DmaDescriptor : Type 0 where
  pub src_addr : ℕ
  pub dst_addr : ℕ
  pub size : ℕ
  pub src_ordinal : ℕ
  pub dst_ordinal : ℕ
  pub priority : ℕ
  pub flags : ℕ

abbrev pub dma_flag_writeback : ℕ
dma_flag_writeback = 1

-- The layout of `repr(C)`: two `u64`, five `u32`, and the padding.
unfoldable pub descriptor_size : ℕ
descriptor_size = 2 * 8 + 5 * 4 + 28

-- `AtomicU32::fetch_add(1)` and `producer + 1` of a release build.
abbrev pub next_u32 : ℕ → ℕ
next_u32 n = (n + 1) % 2 ^ 32

pub record DmaCompletion : Type 0 where
  pub submitted : ℕ
  pub completed : ℕ

-- `DmaCompletion::is_done` and `DmaCompletion::pending`; `-` stops at 0 as `saturating_sub` does.
unfoldable pub is_done : DmaCompletion → Bool
is_done c = c.submitted == c.completed

unfoldable pub pending : DmaCompletion → ℕ
pending c = c.submitted - c.completed

pub record DmaRing : Type 0 where
  pub ring : List DmaDescriptor
  pub consumer : ℕ
  pub completion : DmaCompletion
  pub capacity : ℕ
  pub mask : ℕ

abbrev pub blank : DmaDescriptor
blank = record {
  src_addr = 0;
  dst_addr = 0;
  size = 0;
  src_ordinal = 0;
  dst_ordinal = 0;
  priority = 0;
  flags = 0;
}

unfoldable pub new : DmaRing
new = record {
  ring = replicate 1024 blank;
  consumer = 0;
  completion = record { submitted = 0; completed = 0 };
  capacity = 1024;
  mask = 1024 - 1;
}

unfoldable pub pending_count : DmaRing → ℕ
pending_count r = r.completion.submitted - r.consumer

unfoldable pub is_full : DmaRing → Bool
unfolding pending_count
is_full r = leb r.capacity (pending_count r)

unfoldable pub submit : DmaRing → DmaDescriptor → Result ℕ × DmaRing
unfolding is_full
submit r desc =
    let producer = r.completion.submitted in
    let slot = bit_and producer r.mask in
    if is_full r then (err dma_ring_full, r) else (
      ok slot,
      record r {
        ring = set r.ring slot desc;
        completion = record (r.completion) { submitted = next_u32 producer };
      },
    )

unfoldable pub mark_complete : DmaRing → DmaRing
mark_complete r = record r {
  completion = record (r.completion) { completed = next_u32 r.completion.completed };
}

unfoldable pub peek : DmaRing → Option DmaDescriptor
peek r =
    if leb r.completion.submitted r.consumer
    then none
    else some (get_or r.ring (bit_and r.consumer r.mask) blank)

unfoldable pub ack : DmaRing → DmaRing
unfolding mark_complete
ack r = mark_complete (record r { consumer = next_u32 r.consumer })

pub record DmaEngine : Type 0 where
  pub rings : List DmaRing
  pub num_gpus : ℕ

unfoldable pub new_engine : ℕ → DmaEngine
new_engine num_gpus = record { rings = replicate num_gpus new; num_gpus = num_gpus }

-- `self.rings[gpu].submit(&desc)`; the callers have checked the index.
unfoldable pub submit_to : DmaEngine → ℕ → DmaDescriptor → Result ℕ × DmaEngine
submit_to e gpu desc =
    let (res, ring) = submit (get_or e.rings gpu new) desc in
    (res, record e { rings = set e.rings gpu ring })

-- The casts `as u32` keep the low 32 bits.
abbrev pub as_u32 : ℕ → ℕ
as_u32 n = n % 2 ^ 32

unfoldable pub descriptor : ℕ → ℕ → ℕ → ℕ → ℕ → ℕ → ℕ → DmaDescriptor
descriptor src_gpu dst_gpu src_addr dst_addr size_bytes priority flags = record {
  src_addr = src_addr;
  dst_addr = dst_addr;
  size = as_u32 size_bytes;
  src_ordinal = as_u32 src_gpu;
  dst_ordinal = as_u32 dst_gpu;
  priority = priority;
  flags = flags;
}

unfoldable pub submit_dram_to_vram : DmaEngine → ℕ → ℕ → ℕ → ℕ → ℕ → Result ℕ × DmaEngine
submit_dram_to_vram e dst_gpu src_addr dst_addr size_bytes priority =
    if leb e.num_gpus dst_gpu
    then (err (invalid_gpu dst_gpu), e)
    else submit_to e dst_gpu (descriptor dst_gpu dst_gpu src_addr dst_addr size_bytes priority 0)

unfoldable pub submit_vram_to_dram : DmaEngine → ℕ → ℕ → ℕ → ℕ → ℕ → Result ℕ × DmaEngine
submit_vram_to_dram e src_gpu src_addr dst_addr size_bytes priority =
    if leb e.num_gpus src_gpu
    then (err (invalid_gpu src_gpu), e)
    else submit_to e src_gpu
        (descriptor src_gpu src_gpu src_addr dst_addr size_bytes priority dma_flag_writeback)

unfoldable pub submit_vram_to_vram : DmaEngine → ℕ → ℕ → ℕ → ℕ → ℕ → ℕ → Result ℕ × DmaEngine
submit_vram_to_vram e src_gpu dst_gpu src_addr dst_addr size_bytes priority =
    if leb e.num_gpus src_gpu || leb e.num_gpus dst_gpu
    then (err (invalid_gpu (max src_gpu dst_gpu)), e)
    else submit_to e dst_gpu (descriptor src_gpu dst_gpu src_addr dst_addr size_bytes priority 0)

-- `DmaEngine::is_idle`, `pending` and `total_pending`.
unfoldable pub is_idle : DmaEngine → ℕ → Bool
is_idle e gpu = leb e.num_gpus gpu || is_done (get_or e.rings gpu new).completion

unfoldable pub pending_on : DmaEngine → ℕ → ℕ
pending_on e gpu = if leb e.num_gpus gpu then 0 else pending (get_or e.rings gpu new).completion

unfoldable pub sum_pending : List DmaRing → ℕ
sum_pending [] = 0
sum_pending (r ∷ rs) = as_u32 (pending r.completion + sum_pending rs)

unfoldable pub total_pending : DmaEngine → ℕ
total_pending e = sum_pending e.rings
