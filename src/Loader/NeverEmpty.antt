-- ===== src/Loader/NeverEmpty.antt =====
-- No code of NVRTC is described by an empty text.
use Prim.Native.Char.{Char}
use Prim.Native.String as S
use Prim.Native.String.{String, ◌++◌}
use Prim.Native.String.append
use text.Mathlib.Text.{◌==◌ as str_eq}
use vugva.Common.{
  ℕ, ◌==◌, ◌≡◌, ◌≢◌, refl, sym, ap, ◌∙◌, inl, inr, Bool, true, false, Option, none, some,
  Bool-cases, if◌then◌else◌, length, arith,
}
use vugva.Gpu.Text.{chars}
use vugva.Vmt.Table.{not-str_eq→ne}
use vugva.Display.{signed}
use vugva.Loader.{Linker, Loaded}
use vugva.Loader.Messages.{
  Texts, nvrtc_error_not_found, nvrtc_fallback, usable_or, nvrtc_get_error_string,
  nvrtc_error_string,
}

cons-ne_empty : (c : Char) (s : String) → S.◌∷◌ c s ≢ ""
cons-ne_empty c s e =
    let longer : length (chars (S.◌∷◌ c s)) ≡ length (chars "") = ap (λ v. length (chars v)) e in
    omega (arith, longer)

-- A text that begins with one that is not empty.
append-ne_empty : (s t : String) → s ≢ "" → (s ++ t) ≢ ""
append-ne_empty S.[] t h e = absurd (h refl)
append-ne_empty (S.◌∷◌ c s) t h e = cons-ne_empty c (s ++ t) (sym (append.cons c s t) ∙ e)

usable_or-ne_empty :
    (o : Option String) (fallback : String) → fallback ≢ "" → usable_or o fallback ≢ ""
usable_or-ne_empty none fallback h = h
usable_or-ne_empty (some s) fallback h = elim (Bool-cases (str_eq s "")) [
  | inl e ↦ rw e h
  | inr e ↦ rw e (λ same. not-str_eq→ne s "" e (sym same))
]

nvrtc_fallback-ne_empty : (code : ℕ) → nvrtc_fallback code ≢ ""
unfolding nvrtc_fallback
nvrtc_fallback-ne_empty code =
    append-ne_empty "nvrtcResult(" (signed code ++ ")") (not-str_eq→ne "" "nvrtcResult(" refl)

module _ {W : Type 0} (linker : Linker W) (texts : Texts W) where
  -- Whatever the library answers, and also without it, the text of a code is not empty.
  pub nvrtc_error_string-ne_empty :
      (code : ℕ) (s : Loaded × W) → (nvrtc_error_string linker texts code s).0 ≢ ""
  unfolding nvrtc_error_string
  nvrtc_error_string-ne_empty code s =
      from (code == nvrtc_error_not_found) (nvrtc_get_error_string linker texts code s)
    where
      described : Bool → ℕ × (Loaded × W) → String × (Loaded × W)
      described b (p, (l, w)) =
          if b
          then ("NVRTC_ERROR_NOT_FOUND (libnvrtc.so is not available)", s)
          else if p == 0
          then (nvrtc_fallback code, (l, w))
          else (usable_or (texts.utf8_at p w) (nvrtc_fallback code), (l, w))

      from : (b : Bool) (r : ℕ × (Loaded × W)) → (described b r).0 ≢ ""
      from true r = not-str_eq→ne "" "NVRTC_ERROR_NOT_FOUND (libnvrtc.so is not available)" refl
      from false (p, (l, w)) = elim (Bool-cases (p == 0)) [
        | inl e ↦ rw e (nvrtc_fallback-ne_empty code)
        | inr e ↦ rw e (
            usable_or-ne_empty (texts.utf8_at p w) (nvrtc_fallback code)
              (nvrtc_fallback-ne_empty code))
      ]
