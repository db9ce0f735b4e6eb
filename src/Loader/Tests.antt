-- ===== src/Loader/Tests.antt =====
-- An entry point of a driver that has only its second version.
use Prim.Native.String.{String}
use text.Mathlib.Text.{◌==◌ as str_eq}
use vugva.Common.{ℕ, ◌+◌, ◌≡◌, ◌≢◌, refl, none, [], ◌∷◌, if◌then◌else◌}
use vugva.Loader.{
  Linker, Loaded, nvrtc_module, nvrtc_sym_addr, slot, cuda_module, cuda_sym_addr, open_lib,
  first_symbol, resolve, address_of,
}
use vugva.Display.{signed}
use vugva.Vmt.{decimal, digit}
use vugva.Loader.Messages.{
  Texts, nvrtc_fallback, nvrtc_get_error_string, nvrtc_error_string, driver_error_string, own_name,
  error_name, error_string,
}
use vugva.Loader.NeverEmpty.{nvrtc_error_string-ne_empty}
use vugva.Vmt.Table.{not-str_eq→ne}
use vugva.Loader.Cache.{EntryCall, called, run_calls, at_address, called_own_address}

-- The world counts the lookups of symbols.
abbrev second_version : Linker ℕ
second_version = record {
  clear_error = λ w. w;
  open_library = λ name w. (if str_eq name "libcuda.so" then 5 else 0, w);
  symbol = λ handle name w. (if str_eq name "cuMemAlloc_v2" then 77 else 0, w + 1);
}

abbrev nothing_loaded : Loaded
nothing_loaded = record { cuda = none; nvrtc = none; slots = [] }

found_second : (cuda_sym_addr second_version "cuMemAlloc" (nothing_loaded, 0)).0 ≡ 77
unfolding cuda_sym_addr cuda_module open_lib first_symbol resolve
found_second = refl

abbrev call_it : ℕ → ℕ → ℕ × ℕ
call_it addr w = (addr, w + 100)

abbrev allocation : EntryCall ℕ
allocation = record { name = "cuMemAlloc"; missing = 500; body = call_it }

abbrev initialization : EntryCall ℕ
initialization = record { name = "cuInit"; missing = 500; body = call_it }

other_name : ◌≢◌ {A = String} "cuInit" "cuMemAlloc"
other_name = not-str_eq→ne "cuMemAlloc" "cuInit" refl

called_own_address_example :
    let s1 = run_calls second_version (initialization ∷ []) (nothing_loaded, 0) in
    let s2 =
      run_calls second_version
        (allocation ∷ initialization ∷ [])
        (called second_version allocation s1).1 in
    called second_version allocation s2
    ≡ at_address second_version (cuda_sym_addr second_version "cuMemAlloc" s1).0 allocation s2
called_own_address_example =
    called_own_address second_version (initialization ∷ []) (allocation ∷ initialization ∷ [])
      allocation (nothing_loaded, 0) refl (other_name, tt)

-- NVRTC is missing, and the driver has no texts.
abbrev no_texts : Texts ℕ
no_texts = record {
  nvrtc_text = λ addr code w. (0, w);
  cuda_text = λ addr code w. ((1, 0), w);
  utf8_at = λ p w. none;
  lossy_at = λ p w. "";
}

unnamed_6 : (nvrtc_error_string second_version no_texts 6 (nothing_loaded, 0)).0 ≡ "nvrtcResult(6)"
unfolding nvrtc_error_string nvrtc_get_error_string nvrtc_fallback signed decimal digit address_of
    slot nvrtc_sym_addr nvrtc_module open_lib resolve
unnamed_6 = refl

unnamed_2 : (error_string second_version no_texts 2 (nothing_loaded, 0)).0 ≡ "CUresult(2)"
unfolding error_string error_name own_name driver_error_string cuda_sym_addr cuda_module open_lib
    first_symbol resolve signed decimal digit
unnamed_2 = refl

nvrtc_error_string-ne_empty_example :
    (nvrtc_error_string second_version no_texts 6 (nothing_loaded, 0)).0 ≢ ""
nvrtc_error_string-ne_empty_example =
    nvrtc_error_string-ne_empty second_version no_texts 6 (nothing_loaded, 0)
