-- ===== src/Loader/Messages.antt =====
-- src/ffi/nvrtc.rs and src/ffi/cuda.rs: the texts of the codes that the two libraries answer.
use Prim.Native.String.{String, ◌++◌}
use text.Mathlib.Text.{◌==◌ as str_eq}
use vugva.Common.{ℕ, ◌==◌, not, ◌||◌, Option, none, some, if◌then◌else◌}
use vugva.Display.{signed}
use vugva.Loader.{Linker, Loaded, cuda_sym_addr, nvrtc_sym_addr, address_of, entry_point}

-- The functions of the libraries that give texts, called by their addresses, and the texts at a pointer: as UTF-8,
-- if it is, and with what is not replaced.
pub record Texts (W : Type 0) : Type 0 where
  pub nvrtc_text : ℕ → ℕ → W → ℕ × W
  pub cuda_text : ℕ → ℕ → W → (ℕ × ℕ) × W
  pub utf8_at : ℕ → W → Option String
  pub lossy_at : ℕ → W → String

-- `NVRTC_ERROR_NOT_FOUND` and `CUDA_ERROR_NOT_FOUND`.
abbrev pub nvrtc_error_not_found : ℕ
nvrtc_error_not_found = 10000

abbrev pub cuda_error_not_found : ℕ
cuda_error_not_found = 500

unfoldable pub nvrtc_fallback : ℕ → String
unfolding signed
nvrtc_fallback code = "nvrtcResult(" ++ (signed code ++ ")")

-- `Ok(s) if !s.is_empty()`, and every other case.
abbrev pub usable_or : Option String → String → String
usable_or none fallback = fallback
usable_or (some s) fallback = if not (str_eq s "") then s else fallback

module _ {W : Type 0} (linker : Linker W) (texts : Texts W) where
  -- The entry points that the two macros declare.
  unfoldable pub cuda_call : String → (ℕ → W → ℕ × W) → Loaded × W → ℕ × (Loaded × W)
  unfolding entry_point cuda_sym_addr
  cuda_call name call s = entry_point (cuda_sym_addr linker) cuda_error_not_found name call s

  unfoldable pub nvrtc_call : String → (ℕ → W → ℕ × W) → Loaded × W → ℕ × (Loaded × W)
  unfolding entry_point nvrtc_sym_addr
  nvrtc_call name call s = entry_point (nvrtc_sym_addr linker) nvrtc_error_not_found name call s

  -- A null pointer is 0.
  unfoldable pub nvrtc_get_error_string : ℕ → Loaded × W → ℕ × (Loaded × W)
  unfolding address_of nvrtc_sym_addr
  nvrtc_get_error_string code s =
      let (addr, (l, w)) = address_of (nvrtc_sym_addr linker) "nvrtcGetErrorString" s in
      if addr == 0
      then (0, (l, w))
      else (let (p, w') = texts.nvrtc_text addr code w in (p, (l, w')))

  unfoldable pub nvrtc_error_string : ℕ → Loaded × W → String × (Loaded × W)
  unfolding nvrtc_get_error_string nvrtc_fallback
  nvrtc_error_string code s =
      let (p, (l, w)) = nvrtc_get_error_string code s in
      if code == nvrtc_error_not_found
      then ("NVRTC_ERROR_NOT_FOUND (libnvrtc.so is not available)", s)
      else if p == 0
      then (nvrtc_fallback code, (l, w))
      else (usable_or (texts.utf8_at p w) (nvrtc_fallback code), (l, w))

  -- The symbol is looked up at every call.
  unfoldable pub driver_error_string : String → ℕ → Loaded × W → Option String × (Loaded × W)
  unfolding cuda_sym_addr
  driver_error_string symbol code s =
      let (addr, (l, w)) = cuda_sym_addr linker symbol s in
      if addr == 0
      then (none, (l, w))
      else (let ((rc, p), w') = texts.cuda_text addr code w in
          if not (rc == 0) || (p == 0)
          then (none, (l, w'))
          else (some (texts.lossy_at p w'), (l, w')))

  -- Without a name from the driver.
  unfoldable pub own_name : ℕ → String
  unfolding signed
  own_name code =
      if code == 0
      then "CUDA_SUCCESS"
      else if code == cuda_error_not_found
      then "CUDA_ERROR_NOT_FOUND (no driver, or symbol missing)"
      else "CUresult(" ++ (signed code ++ ")")

  unfoldable pub error_name : ℕ → Loaded × W → String × (Loaded × W)
  unfolding driver_error_string own_name
  error_name code s =
      let (name, s') = driver_error_string "cuGetErrorName" code s in
      elim name [ some n ↦ (n, s') | none ↦ (own_name code, s') ]

  unfoldable pub error_string : ℕ → Loaded × W → String × (Loaded × W)
  unfolding error_name
  error_string code s =
      let (text, s') = driver_error_string "cuGetErrorString" code s in
      elim text [ some t ↦ (t, s') | none ↦ error_name code s' ]
