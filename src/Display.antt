-- ===== src/Display.antt =====
-- src/lib.rs: `Display` of `VugvaError`.
mod Tests
use Prim.Native.String.{String, ◌++◌}
use vugva.Common.{ℕ, ◌^◌, ◌-◌, ltb, if◌then◌else◌}
use vugva.Error.{
  PageState, unmapped, allocated, resident, warm, cold, IoError, os, invalid_input, invalid_data,
  VugvaError, cuda_error, nvrtc_error, lib_load, invalid_gpu, unknown_allocation, io,
  invalid_transition, dma_ring_full, dram_oom,
}
use vugva.Vmt.{decimal}

-- What the standard library prints: a text in quotes, escaped, and an error of the operating system.
pub record Printer : Type 0 where
  pub quoted : String → String
  pub os_text : ℕ → String

-- `{}` of an `i32` and of a `usize`.
unfoldable pub signed : ℕ → String
unfolding decimal
signed n = if ltb n (2 ^ 31) then decimal 10 n else "-" ++ decimal 10 (2 ^ 32 - n)

unfoldable pub unsigned : ℕ → String
unfolding decimal
unsigned n = decimal 20 n

-- The derived `Debug`.
unfoldable pub state_name : PageState → String
state_name unmapped = "Unmapped"
state_name allocated = "Allocated"
state_name resident = "Resident"
state_name warm = "Warm"
state_name cold = "Cold"

module _ (printer : Printer) where
  -- The two errors of `write_page` print their messages.
  unfoldable pub io_text : IoError → String
  unfolding unsigned
  io_text (os code) = printer.os_text code
  io_text (invalid_input name given total) =
      "write_page("
      ++ (name
          ++ ("): "
              ++ (unsigned given
                  ++ (" bytes for a "
                      ++ (unsigned total
                          ++ "-byte page — a partial write would leave the tail undefined")))))
  io_text (invalid_data name written total) =
      "write_page("
      ++ (name
          ++ ("): DRAM chunks cover "
              ++ (unsigned written
                  ++ (" of " ++ (unsigned total ++ " bytes — the page's backing is short")))))

  unfoldable pub display : VugvaError → String
  unfolding signed unsigned state_name io_text
  display (cuda_error fn_name code) = "CUDA error in " ++ (fn_name ++ (": code " ++ signed code))
  display (nvrtc_error fn_name code) = "NVRTC error in " ++ (fn_name ++ (": code " ++ signed code))
  display (lib_load library os_error) =
      "failed to dlopen " ++ (library ++ (": OS error " ++ signed os_error))
  display (invalid_gpu g) = "invalid GPU ordinal: " ++ unsigned g
  display (unknown_allocation n) = "no allocation registered under " ++ printer.quoted n
  display (io e) = "io error: " ++ io_text e
  display (invalid_transition from to page) =
      "invalid page transition "
      ++ (state_name from ++ (" → " ++ (state_name to ++ (" on " ++ printer.quoted page))))
  display dma_ring_full = "DMA command ring is full"
  display (dram_oom requested available capacity) =
      "host DRAM pool exhausted: requested "
      ++ (unsigned requested
          ++ (" bytes, "
              ++ (unsigned available ++ (" free of " ++ (unsigned capacity ++ " total")))))
