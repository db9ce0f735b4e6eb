-- ===== src/Loader/Cache.antt =====
-- What is looked up once, each symbol for itself.
use Prim.Native.String.{String}
use text.Mathlib.Text.{◌==◌ as str_eq}
use text.Mathlib.TextPositions.{eq_refl}
use text.Mathlib.TextEquality.{eq_iff}
use vugva.Common.{
  ℕ, ◌==◌, ◌≡◌, ◌≢◌, refl, sym, ap, ◌∙◌, subst, inl, inr, none, some, List, [], ◌∷◌, if◌then◌else◌,
  Option-cases, Bool-cases,
}
use vugva.Error.{Result-cases}
use vugva.Vmt.Table.{ne→not-str_eq, not-str_eq→ne}
use vugva.Loader.{Linker, Loaded, slot, cuda_module, cuda_sym_addr, address_of, entry_point}

-- A call of an entry point: its name, its code for a missing symbol, and the function at an address.
pub record EntryCall (W : Type 0) : Type 0 where
  pub name : String
  pub missing : ℕ
  pub body : ℕ → W → ℕ × W

-- None of the calls is of the entry point.
abbrev pub Others : {W : Type 0} → String → List (EntryCall W) → Type 0
Others name [] = Unit
Others name (c ∷ cs) = (c.name ≢ name) × Others name cs

module _ {W : Type 0} (linker : Linker W) where
  abbrev pub called : EntryCall W → Loaded × W → ℕ × (Loaded × W)
  called c s = entry_point (cuda_sym_addr linker) c.missing c.name c.body s

  -- Calls of entry points of the driver, one after the other.
  unfoldable pub run_calls : List (EntryCall W) → Loaded × W → Loaded × W
  run_calls [] s = s
  run_calls (c ∷ cs) s = run_calls cs (called c s).1

  -- The call when the address is known.
  abbrev pub at_address : ℕ → EntryCall W → Loaded × W → ℕ × (Loaded × W)
  at_address addr c (l, w) =
      if addr == 0 then (c.missing, (l, w)) else ((c.body addr w).0, (l, (c.body addr w).1))

  module_slots : (s : Loaded × W) → (cuda_module linker s).1.0.slots ≡ s.0.slots
  unfolding cuda_module
  module_slots s = elim (Option-cases s.0.cuda) [
    | inl e ↦ rw (cuda_module, e) refl
    | inr (r, e) ↦ rw (cuda_module, e) refl
  ]

  -- A lookup leaves the addresses that are known.
  sym_slots : (name : String) (s : Loaded × W) → (cuda_sym_addr linker name s).1.0.slots ≡ s.0.slots
  unfolding cuda_sym_addr
  sym_slots name s = elim (Result-cases (cuda_module linker s).0) [
    | inl (h, e) ↦ rw (cuda_sym_addr, e) (module_slots s)
    | inr (x, e) ↦ rw (cuda_sym_addr, e) (module_slots s)
  ]

  -- The addresses that are known after a call.
  call_slots :
      (c : EntryCall W) (s : Loaded × W)
      → (called c s).1.0.slots ≡ (address_of (cuda_sym_addr linker) c.name s).1.0.slots
  unfolding entry_point
  call_slots c s = elim (Bool-cases ((address_of (cuda_sym_addr linker) c.name s).0 == 0)) [
    | inl e ↦ rw (entry_point, e) refl
    | inr e ↦ rw (entry_point, e) refl
  ]

  -- A call of an entry point leaves what is known of every other.
  other_slot :
      (name : String) (c : EntryCall W) (s : Loaded × W)
      → c.name ≢ name
      → slot name (called c s).1.0.slots ≡ slot name s.0.slots
  unfolding address_of slot
  other_slot name c s ne = elim (Option-cases (slot c.name s.0.slots)) [
    | inr (a, e) ↦ rw (call_slots c s) (rw (address_of, e) refl)
    | inl e ↦ rw (call_slots c s) (
        rw (address_of, e)
          (rw (ne→not-str_eq c.name name ne) (ap (slot name) (sym_slots c.name s))))
  ]

  -- A call leaves every address that is known.
  known_slot :
      (name : String) (a : ℕ) (c : EntryCall W) (s : Loaded × W)
      → slot name s.0.slots ≡ some a
      → slot name (called c s).1.0.slots ≡ some a
  unfolding address_of slot
  known_slot name a c s h = elim (Bool-cases (str_eq c.name name)) [
    | inr e ↦ other_slot name c s (λ q. not-str_eq→ne c.name name e (sym q)) ∙ h
    | inl e ↦
        let found : slot c.name s.0.slots ≡ some a =
          subst (λ n. slot n s.0.slots ≡ some a) (sym ((eq_iff c.name name).0 e)) h in
        rw (call_slots c s) (rw (address_of, found) h)
  ]

  run_calls-Others :
      (name : String) (cs : List (EntryCall W)) (s : Loaded × W)
      → Others name cs
      → slot name (run_calls cs s).0.slots ≡ slot name s.0.slots
  unfolding run_calls
  run_calls-Others name [] s h = refl
  run_calls-Others name (c ∷ cs) s (ne, h) =
      run_calls-Others name cs (called c s).1 h ∙ other_slot name c s ne

  run_calls-known :
      (name : String) (a : ℕ) (cs : List (EntryCall W)) (s : Loaded × W)
      → slot name s.0.slots ≡ some a
      → slot name (run_calls cs s).0.slots ≡ some a
  unfolding run_calls
  run_calls-known name a [] s h = h
  run_calls-known name a (c ∷ cs) s h =
      run_calls-known name a cs (called c s).1 (known_slot name a c s h)

  -- A call of an entry point whose address is known calls it and looks nothing up.
  known_call :
      (c : EntryCall W) (a : ℕ) (s : Loaded × W)
      → slot c.name s.0.slots ≡ some a
      → called c s ≡ at_address a c s
  unfolding entry_point address_of
  known_call c a s h = rw (entry_point, address_of, h) refl

  -- After calls of other entry points only, the first call of one looks up its own symbol and records the answer.
  first_slot :
      (c : EntryCall W) (s : Loaded × W)
      → slot c.name s.0.slots ≡ none
      → slot c.name (called c s).1.0.slots ≡ some (cuda_sym_addr linker c.name s).0
  unfolding address_of slot
  first_slot c s h = rw (call_slots c s) (rw (address_of, h) (rw (eq_refl c.name) refl))

  -- In a process that has looked nothing up, let entry points of the driver other than `c` be called, then `c`,
  -- then any entry points. A further call of `c` calls the address that its first call found for its own symbol, or
  -- answers that the symbol is missing if that found none, and looks nothing up.
  pub called_own_address :
      (before after : List (EntryCall W)) (c : EntryCall W) (s : Loaded × W)
      → s.0.slots ≡ []
      → Others c.name before
      → let s1 = run_calls before s in
        let s2 = run_calls after (called c s1).1 in
        called c s2 ≡ at_address (cuda_sym_addr linker c.name s1).0 c s2
  unfolding slot
  called_own_address before after c s fresh others =
      let s1 = run_calls before s in
      let unknown : slot c.name s1.0.slots ≡ none =
        run_calls-Others c.name before s others ∙ ap (slot c.name) fresh in
      let a = (cuda_sym_addr linker c.name s1).0 in
      let s2 = run_calls after (called c s1).1 in
      known_call c a s2 (run_calls-known c.name a after (called c s1).1 (first_slot c s1 unknown))
