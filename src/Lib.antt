-- ===== src/Lib.antt =====
-- VUGVA, a tiered memory pool for tensors: VRAM (hot), DRAM (warm) and a spill file (cold).
--
-- How the program is put together. `TieredPool` (src/tiered.rs) is what a caller sees. It discovers its GPUs
-- (src/gpu.rs), retains their contexts (src/context.rs) and makes their streams (src/streams.rs). It keeps pages in a
-- `VirtualMemoryTable` (src/vmt.rs), takes host memory from one `DramPool` for each GPU (src/tiered.rs), takes ranges
-- of the spill file (src/spill.rs) from a `RangeAllocator` (src/range_alloc.rs), announces its transfers to a
-- `DmaEngine` with one ring of descriptors for each GPU (src/dma.rs), and makes the copies itself by calls of the CUDA
-- driver, which are found when they are first made (src/ffi). A sweep asks the `Membrane` (src/membrane.rs) which
-- pages VRAM keeps. `VugvaEngine` (src/allocator.rs) is the first version, with VRAM only.
--
-- The files.
--   Common: shared names, Boolean tests of numbers, `Vec` operations on lists, 64-bit words, masks.
--   Error: `VugvaError`, `PageState` and the result type (src/lib.rs, src/vmt.rs).
--   Action: methods that change a state and can fail or panic. Ends has what the proofs say of their results.
--   Driver: the calls of the CUDA driver and the system, and Quiet, an instance for tests.
--   Context: `PrimaryContext`, its guard and `ContextRegistry` (src/context.rs). Balance and Scope have the theorems.
--   Gpu: src/gpu.rs in parts. Text has what it uses of `str`; Numa `NumaTopology`; Peer `PeerMatrix`; Ordinals the map
--     of ordinals; Cluster `GpuCluster`. Parsed, Nearest, Enabled and Enable have the theorems.
--   Membrane: rates, scores and the plan (src/membrane.rs). Rates and Plan have the theorems.
--   Streams: streams, events and `StreamPool` (src/streams.rs). Pool has the theorems.
--   FreeList: the free list that both allocators keep: `align`, the best-fit loop, `carve`, `release` with its guards,
--     coalescing and retraction. Below it: Sorted (what a valid list is), BestFit, Carve, Joint, Slot, Insert,
--     Overlap, Release and Inverse, one for each step of the proofs.
--   Range: `RangeAllocator` with `allocate`, `free` and `used`. Allocate and Free have the outcomes of single calls,
--     Live has sessions of a client that frees what it holds.
--   Pool: `DramPool`. Fit has its best-fit search; Refine relates it to Range; Lends and Returns have what a pool on
--     real addresses lends and takes back.
--   Dma: `DmaRing` and `DmaEngine`. Queue is the abstract queue, Faults the behaviour past ordinary use, Engine the
--     routing of the `submit_*` calls.
--   Vmt: `Page`, its state machine and the table. States and Table have their theorems.
--   Spill: `SpillFile` (src/spill.rs). Reserve has what a write at a new offset does to the ranges.
--   Tiered: `TieredPool` in parts. State has the pool and its actions; Vram the block cache; Allocate `allocate` and
--     `deallocate`; Prefetch `prefetch` and `claim_prefetch`; Promote `access`; Demote `demote` and the idle sweep;
--     Sweep the membrane's sweep; Write `write_page`; Build `new` and `attach_spill`; Queries what a pool reports;
--     Teardown `Drop`. Calls has a client's calls one after the other. Split, Provided, Pieces, Cache, Stage, Frame,
--     Demotion, Moved, Became, Eviction, Steps and Ready have the theorems on single methods. Those on runs stand on
--     three layers: Lent, Returning, Backed, Placing and Staging say which host memory the pools have lent and to
--     whom; Backing, Keeps, Unmoved, Loaded and Lowered which actions leave it alone; Safe, SafeStage, SafeAccess,
--     SafePages, SafeTable, SafeRelease and SafeSweep that each method keeps it safe, and Sessions that all calls do.
--     Confined, Resident, Promoted, Staged, Accessed and Answered say what `access` answers and which pages it
--     touches.
--   Engine: `UnifiedAllocator` and `VugvaEngine`; Builder and Access have its builder, `new`, `access` and `free`.
--     Chunks, Keeps, Stored, Covers, OnGpu, Held and Free have the theorems.
--   Loader: opening libraries and finding symbols (src/ffi/mod.rs), and the body of each entry point (src/ffi/cuda.rs,
--     src/ffi/nvrtc.rs). Messages has the texts of codes. Cache and NeverEmpty have the theorems.
--   Display: the texts of `VugvaError` (src/lib.rs).
--   Kernel: kernels compiled at run time (src/nvrtc_kernel.rs). Lookahead: the look-ahead prefetcher
--     (src/prefetch.rs).
--
-- How the code is modelled. A method on `&mut self` is a function from the state to its result and the new state; an
-- error leaves what was changed before it, and a panic is an outcome of its own. `usize` and `u64` are natural numbers
-- with the wrap-around of a release build written out (`add_word`, `sub_word`, `mul_word`); `u32` counters wrap at 2 ^
-- 32. A `HashMap` is an association list in which a name stands once; sweeps go through it in the list's order. Atomic
-- operations of a ring are taken in whole calls. `i32` ordinals and codes are bit patterns.
--
-- Parameters. `Driver` is the CUDA driver, the file system, the host memory and the clock: a record of functions on a
-- world of any type. Only the theorems of Context assume anything of what its calls answer: that references are
-- counted (`Counts`) and that current contexts form a stack (`Stacks`), as the driver documents. Those on runs of a
-- pool take host memory as `mmap` gives it: on a multiple of the page, below 2 ^ 64, and no two mappings with a byte
-- in common. `Float` in Membrane is the arithmetic of `f64`, `Linker` in Loader is the dynamic linker, `Compiler` in
-- Kernel is NVRTC, `Texts` in Loader the functions of the libraries that give texts, `Printer` in Display what the
-- standard library prints.
--
-- Bounds and fuel. Theorems on the allocators take capacities below 2 ^ 63 and requests of at most 2 ^ 63 bytes, which
-- no Rust allocation exceeds; theorems on rings take counters that do not wrap, and one is about the wrap. `decimal`
-- has 20 digits, enough for a 64-bit number; an `i32` has 10 digits, and 8 in base 16. `stage` has 64 rounds, enough
-- to halve any 64-bit size to 1 MiB. `stream_in` has one round for each byte, and each round copies at least one.
-- Theorems on the engine take fewer than 2 ^ 64 GPUs, those on plans candidates of fewer than 2 ^ 64 bytes in all, and
-- distances of nodes have 32 bits.
--
-- Not modelled: declarations and constants of the bindings that are only data, and the sources of the kernels.
-- Destructors of events, and those of the fields of a `TieredPool` after the body of its `Drop`, do not appear, nor
-- does the destructor of a spill file that `attach_spill` replaces.
pub mod Common
pub mod Error
pub mod Action
pub mod Driver
pub mod Context
pub mod Gpu
pub mod Membrane
pub mod Streams
pub mod FreeList
pub mod Range
pub mod Pool
pub mod Dma
pub mod Vmt
pub mod Spill
pub mod Tiered
pub mod Engine
pub mod Loader
pub mod Kernel
pub mod Lookahead
pub mod Display
