-- ===== src/Error.antt =====
-- The error type of src/lib.rs, its result type, and the conversions of driver codes.
use Prim.Native.String.{String}
use vugva.Common.{◌≡◌, refl, ◌⊎◌, inl, inr, ℕ, ◌==◌, if◌then◌else◌}

-- `vmt::PageState`. It stands here because an error carries two of them.
pub data PageState : Type 0 where
  unmapped allocated resident warm cold : PageState

-- What `std::io::Error` carries here: a code of the operating system, or one of the two errors that
-- `TieredPool::write_page` makes, with the page's name and the two byte counts of its message.
pub data IoError : Type 0 where
  os : ℕ → IoError
  invalid_input invalid_data : String → ℕ → ℕ → IoError

-- Codes are the bit patterns of their `i32`.
pub data VugvaError : Type 0 where
  cuda_error : String → ℕ → VugvaError
  nvrtc_error : String → ℕ → VugvaError
  lib_load : String → ℕ → VugvaError
  invalid_gpu : ℕ → VugvaError
  unknown_allocation : String → VugvaError
  io : IoError → VugvaError
  invalid_transition : PageState → PageState → String → VugvaError
  dma_ring_full : VugvaError
  dram_oom : ℕ → ℕ → ℕ → VugvaError

pub data Result (A : Type 0) : Type 0 where
  ok : A → Result A
  err : VugvaError → Result A

pub Result-cases :
    {A : Type 0} (r : Result A) → ((a : A) × (r ≡ ok a)) ⊎ ((e : VugvaError) × (r ≡ err e))
Result-cases (ok a) = inl (a, refl)
Result-cases (err e) = inr (e, refl)

unfoldable pub check_cu : String → ℕ → Result (Unit {0})
check_cu call code = if code == 0 then ok tt else err (cuda_error call code)

unfoldable pub check_nvrtc : String → ℕ → Result (Unit {0})
check_nvrtc call code = if code == 0 then ok tt else err (nvrtc_error call code)
