-- ===== src/Loader.antt =====
-- src/ffi/mod.rs: opening the CUDA libraries and finding their symbols, and the entry points of src/ffi/cuda.rs and
-- src/ffi/nvrtc.rs that are found on their first call.
pub mod Cache
pub mod Messages
pub mod NeverEmpty
mod Tests
use Prim.Native.String.{String, ◌++◌}
use text.Mathlib.Text.{◌==◌ as str_eq}
use vugva.Common.{
  ℕ, ◌==◌, Bool, true, false, not, ◌&&◌, ◌||◌, Option, none, some, List, [], ◌∷◌, if◌then◌else◌,
}
use vugva.Error.{VugvaError, lib_load, Result, ok, err}
use vugva.Gpu.Text.{chars, starts_with}

-- The dynamic linker: `dlerror`, `dlopen`, `dlsym`. A null pointer is 0.
pub record Linker (W : Type 0) : Type 0 where
  pub clear_error : W → W
  pub open_library : String → W → ℕ × W
  pub symbol : ℕ → String → W → ℕ × W

-- What the process keeps: the two libraries, each once opened or failed, and the address of each entry point
-- that was called.
pub record Loaded : Type 0 where
  pub cuda : Option (Result ℕ)
  pub nvrtc : Option (Result ℕ)
  pub slots : List (String × ℕ)

-- `CString::new` refuses a text with a NUL in it.
abbrev contains_nul : List ℕ → Bool
contains_nul [] = false
contains_nul (c ∷ cs) = (c == 0) || contains_nul cs

abbrev same_text : List ℕ → List ℕ → Bool
same_text [] [] = true
same_text [] (d ∷ ds) = false
same_text (c ∷ cs) [] = false
same_text (c ∷ cs) (d ∷ ds) = (c == d) && same_text cs ds

abbrev ends_with : List ℕ → List ℕ → Bool
ends_with [] ps = same_text [] ps
ends_with (c ∷ cs) ps = same_text (c ∷ cs) ps || ends_with cs ps

module _ {W : Type 0} (linker : Linker W) where
  -- The first candidate that opens.
  unfoldable pub open_lib : List String → W → Result ℕ × W
  open_lib [] w = (err (lib_load "cuda/nvrtc" 0), w)
  open_lib (name ∷ names) w =
      let w1 = linker.clear_error w in
      let skipped = open_lib names w1 in
      let (h, w2) = linker.open_library name w1 in
      let rest = open_lib names w2 in
      if contains_nul (chars name) then skipped else if h == 0 then rest else (ok h, w2)

  unfoldable pub resolve : ℕ → String → W → Option ℕ × W
  resolve handle name w =
      if contains_nul (chars name)
      then (none, w)
      else (let (p, w') = linker.symbol handle name w in (if p == 0 then none else some p, w'))

  -- `map_err` names the library.
  abbrev named : String → Result ℕ → Result ℕ
  named library (ok h) = ok h
  named library (err e) = err (lib_load library 0)

  unfoldable pub cuda_module : Loaded × W → Result ℕ × (Loaded × W)
  unfolding open_lib
  cuda_module (l, w) = elim l.cuda [
    | some r ↦ (named "libcuda.so.1" r, (l, w))
    | none ↦
        let (r, w') = open_lib ("libcuda.so.1" ∷ "libcuda.so" ∷ "cuda" ∷ []) w in
        (named "libcuda.so.1" r, (record l { cuda = some r }, w'))
  ]

  unfoldable pub nvrtc_module : Loaded × W → Result ℕ × (Loaded × W)
  unfolding open_lib
  nvrtc_module (l, w) = elim l.nvrtc [
    | some r ↦ (named "libnvrtc.so.12" r, (l, w))
    | none ↦
        let (r, w') =
          open_lib
            ("libnvrtc.so.12" ∷ "libnvrtc.so.13" ∷ "libnvrtc.so.12" ∷ "libnvrtc.so.11"
              ∷ "libnvrtc.so.10" ∷ "libnvrtc.so" ∷ [])
            w in
        (named "libnvrtc.so.12" r, (record l { nvrtc = some r }, w'))
  ]

  -- The first of the names that the library has, or 0.
  unfoldable pub first_symbol : ℕ → List String → W → ℕ × W
  unfolding resolve
  first_symbol handle [] w = (0, w)
  first_symbol handle (name ∷ names) w =
      let (p, w') = resolve handle name w in
      elim p [ some a ↦ (a, w') | none ↦ first_symbol handle names w' ]

  -- A name without a version may stand for its second or third version.
  abbrev spellings : String → List String
  spellings name =
      if not (ends_with (chars name) (chars "_v2")) && not (ends_with (chars name) (chars "_v3"))
      then name ∷ (name ++ "_v2") ∷ (name ++ "_v3") ∷ []
      else name ∷ []

  unfoldable pub cuda_sym_addr : String → Loaded × W → ℕ × (Loaded × W)
  unfolding cuda_module first_symbol
  cuda_sym_addr name s =
      let (lib, (l, w)) = cuda_module s in
      elim lib [
        | err _ ↦ (0, (l, w))
        | ok handle ↦ let (a, w') = first_symbol handle (spellings name) w in (a, (l, w'))
      ]

  abbrev address_or_zero : Option ℕ → ℕ
  address_or_zero none = 0
  address_or_zero (some a) = a

  unfoldable pub nvrtc_sym_addr : String → Loaded × W → ℕ × (Loaded × W)
  unfolding nvrtc_module resolve
  nvrtc_sym_addr name s =
      let (lib, (l, w)) = nvrtc_module s in
      elim lib [
        | err _ ↦ (0, (l, w))
        | ok handle ↦ let (p, w') = resolve handle name w in (address_or_zero p, (l, w'))
      ]

  unfoldable pub nvrtc_sym_to_fn : String → Loaded × W → Result ℕ × (Loaded × W)
  unfolding nvrtc_module resolve
  nvrtc_sym_to_fn name s =
      let (lib, (l, w)) = nvrtc_module s in
      elim lib [
        | err e ↦ (err e, (l, w))
        | ok handle ↦
            let (p, w') = resolve handle name w in
            (elim p [ some a ↦ ok a | none ↦ err (lib_load "libnvrtc.so" 0) ], (l, w'))
      ]

unfoldable pub slot : String → List (String × ℕ) → Option ℕ
slot name [] = none
slot name ((k, a) ∷ m) = if str_eq k name then some a else slot name m

module _ {W : Type 0} where
  -- `SLOT.get_or_init(..)`, of an entry point that is looked up by `find`.
  unfoldable pub address_of :
      (String → Loaded × W → ℕ × (Loaded × W)) → String → Loaded × W → ℕ × (Loaded × W)
  unfolding slot
  address_of find name s = elim (slot name s.0.slots) [
    | some a ↦ (a, s)
    | none ↦ let (a, (l, w)) = find name s in (a, (record l { slots = (name, a) ∷ l.slots }, w))
  ]

  -- The body of a declared entry point: a symbol that is missing answers `missing`, any other is called.
  unfoldable pub entry_point :
      (String → Loaded × W → ℕ × (Loaded × W))
      → ℕ
      → String
      → (ℕ → W → ℕ × W)
      → Loaded × W
      → ℕ × (Loaded × W)
  unfolding address_of
  entry_point find missing name call s =
      let (addr, (l, w)) = address_of find name s in
      if addr == 0 then (missing, (l, w)) else (let (code, w') = call addr w in (code, (l, w')))
