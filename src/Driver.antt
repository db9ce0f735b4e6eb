-- ===== src/Driver.antt =====
-- The calls of the CUDA driver and of the operating system that the program makes.
pub mod Quiet
use Prim.Native.String.{String}
use vugva.Common.{ℕ, Bool, Option, List}

-- `W` is all that the calls read and write: device and host memory, contexts, streams, events, files and
-- the clock. A CUDA call answers its code, 0 for success, with what it writes to out-pointers; an `i32` is a
-- bit pattern. `map_memory` answers no address where `mmap` fails, and file calls answer the code of an error.
-- `device_name`, `total_memory`, `compute_capability` and `attribute` answer what is in the out-pointer after a call whose code nobody reads.
-- `numactl_hardware` is the output of `numactl --hardware`, if the program is there, as text.
pub record Driver (W : Type 0) : Type 0 where
  pub now_ns : W → ℕ × W
  pub init : W → ℕ × W
  pub retain_context : ℕ → W → (ℕ × ℕ) × W
  pub release_context : ℕ → W → ℕ × W
  pub set_current : ℕ → W → ℕ × W
  pub push_current : ℕ → W → ℕ × W
  pub pop_current : W → ℕ × W
  pub mem_alloc : ℕ → W → (ℕ × ℕ) × W
  pub mem_free : ℕ → W → ℕ × W
  pub mem_info : W → (ℕ × ℕ) × W
  pub copy_peer : ℕ → ℕ → ℕ → ℕ → ℕ → ℕ → W → ℕ × W
  pub copy_to_device_async : ℕ → ℕ → ℕ → ℕ → W → ℕ × W
  pub copy_to_device : ℕ → ℕ → ℕ → W → ℕ × W
  pub copy_to_host_async : ℕ → ℕ → ℕ → ℕ → W → ℕ × W
  pub create_stream : W → (ℕ × ℕ) × W
  pub create_stream_with_priority : ℕ → W → (ℕ × ℕ) × W
  pub destroy_stream : ℕ → W → W
  pub synchronize_stream : ℕ → W → ℕ × W
  pub query_stream : ℕ → W → ℕ × W
  pub greatest_priority : W → (ℕ × ℕ) × W
  pub create_event : ℕ → W → (ℕ × ℕ) × W
  pub destroy_event : ℕ → W → W
  pub record_event : ℕ → ℕ → W → ℕ × W
  pub synchronize_event : ℕ → W → ℕ × W
  pub query_event : ℕ → W → ℕ × W
  pub elapsed_time : ℕ → ℕ → W → (ℕ × ℕ) × W
  pub register_host : ℕ → ℕ → W → ℕ × W
  pub unregister_host : ℕ → W → ℕ × W
  pub can_access_peer : ℕ → ℕ → W → (ℕ × ℕ) × W
  pub enable_peer : ℕ → W → ℕ × W
  pub device_name : ℕ → W → String × W
  pub total_memory : ℕ → W → ℕ × W
  pub compute_capability : ℕ → W → (ℕ × ℕ) × W
  pub attribute : ℕ → ℕ → W → ℕ × W
  pub skips_pinning : W → Bool × W
  pub map_memory : ℕ → W → Option ℕ × W
  pub bind_memory : ℕ → ℕ → List ℕ → ℕ → W → ℕ × W
  pub unmap_memory : ℕ → ℕ → W → W
  pub numactl_hardware : W → Option String × W
  pub read_text : String → W → Option String × W
  pub write_host : ℕ → List ℕ → W → W
  pub read_file : ℕ → ℕ → ℕ → W → Option ℕ × W
  pub write_file : ℕ → List ℕ → W → Option ℕ × W
  pub open_spill : String → ℕ → W → Option ℕ × W
