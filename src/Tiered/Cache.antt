-- ===== src/Tiered/Cache.antt =====
-- The recycle cache of device blocks: what is released is what is handed out again.
use vugva.Common.{
  ℕ, zero, suc, ◌-◌, ◌==◌, ◌≡◌, ◌≢◌, refl, ap, ◌∙◌, inl, inr, none, some, List, [], ◌∷◌, ◌++◌,
  get_elem?, get_or, set, length, Bool-cases, Option-cases, ne→not-==, eq→==, arith,
  take-append_exact, length-append,
}
use vugva.Action.{done}
use vugva.Driver.{Driver}
use vugva.Tiered.State.{TieredPool}
use vugva.Tiered.Vram.{position, swap_remove, alloc_vram_on_gpu, free_vram_on_gpu}

position-append_none :
    (cache : List (ℕ × ℕ)) (bytes ptr : ℕ)
    → position cache bytes ≡ none
    → position (cache ++ (bytes, ptr) ∷ []) bytes ≡ some (length cache)
unfolding position
position-append_none [] bytes ptr h = rw (eq→== bytes bytes refl) refl
position-append_none ((sz, p) ∷ cache) bytes ptr h = elim (Bool-cases (sz == bytes)) [
  | inl e ↦ cc (rw e at h)
  | inr e ↦ elim (Option-cases (position cache bytes)) [
    | inl f ↦ rw (e, position-append_none cache bytes ptr f) refl
    | inr (i, f) ↦ cc (rw (e, f) at h)
  ]
]

set-append_end : (cache : List (ℕ × ℕ)) (x : ℕ × ℕ) → set cache (length cache) x ≡ cache
set-append_end [] x = refl
set-append_end (c ∷ cache) x = ap (c ∷◌) (set-append_end cache x)

swap_remove-append :
    (cache : List (ℕ × ℕ)) (x : ℕ × ℕ) → swap_remove (cache ++ x ∷ []) (length cache) ≡ cache
unfolding swap_remove
swap_remove-append cache x =
    let last : length (cache ++ x ∷ []) - 1 ≡ length cache =
      omega (arith, length-append cache (x ∷ [])) in
    rw (last, take-append_exact (length cache) cache (x ∷ []) refl) (set-append_end cache _)

get_or-append_end :
    (cache : List (ℕ × ℕ)) (x : ℕ × ℕ) → get_or (cache ++ x ∷ []) (length cache) (0, 0) ≡ x
get_or-append_end [] x = refl
get_or-append_end (c ∷ cache) x = get_or-append_end cache x

get_elem?-set :
    {A : Type 0} (xs : List A) (i : ℕ) (old new : A)
    → get_elem? xs i ≡ some old
    → get_elem? (set xs i new) i ≡ some new
get_elem?-set [] i old new h = cc h
get_elem?-set (x ∷ xs) zero old new h = refl
get_elem?-set (x ∷ xs) (suc i) old new h = get_elem?-set xs i old new h

set-set :
    {A : Type 0} (xs : List A) (i : ℕ) (old new : A)
    → get_elem? xs i ≡ some old
    → set (set xs i new) i old ≡ xs
set-set [] i old new h = cc h
set-set (x ∷ xs) zero old new h = ap (◌∷ xs) (cc h)
set-set (x ∷ xs) (suc i) old new h = ap (x ∷◌) (set-set xs i old new h)

free_vram_pushes :
    {W : Type 0} (s : TieredPool W) (gpu_idx ptr bytes : ℕ) (cache : List (ℕ × ℕ))
    → ptr ≢ 0
    → get_elem? s.vram_free gpu_idx ≡ some cache
    → free_vram_on_gpu gpu_idx ptr bytes s
      ≡ (done tt, record s { vram_free = set s.vram_free gpu_idx (cache ++ (bytes, ptr) ∷ []) })
unfolding free_vram_on_gpu
free_vram_pushes s gpu_idx ptr bytes cache live h =
    rw (ne→not-== ptr 0 live, h, free_vram_on_gpu) refl

alloc_vram_hits :
    {W : Type 0} (cuda : Driver W) (s : TieredPool W) (gpu_idx bytes i : ℕ) (cache : List (ℕ × ℕ))
    → get_elem? s.vram_free gpu_idx ≡ some cache
    → position cache bytes ≡ some i
    → alloc_vram_on_gpu cuda gpu_idx bytes s ≡ (
      done (get_or cache i (0, 0)).1,
      record s { vram_free = set s.vram_free gpu_idx (swap_remove cache i) },
    )
unfolding alloc_vram_on_gpu
alloc_vram_hits cuda s gpu_idx bytes i cache h hit = rw (h, hit, alloc_vram_on_gpu) refl

-- Of a GPU that has a cache, a block at an address that is not 0, with no other block of its size in that cache, comes
-- back without a call of the driver when it is released and asked for again, and the pool is as it was.
pub alloc-free_vram :
    {W : Type 0} (cuda : Driver W) (s : TieredPool W) (gpu_idx ptr bytes : ℕ) (cache : List (ℕ × ℕ))
    → ptr ≢ 0
    → get_elem? s.vram_free gpu_idx ≡ some cache
    → position cache bytes ≡ none
    → let (freed, s') = free_vram_on_gpu gpu_idx ptr bytes s in
      (freed ≡ done tt) × (alloc_vram_on_gpu cuda gpu_idx bytes s' ≡ (done ptr, s))
alloc-free_vram cuda s gpu_idx ptr bytes cache live h fresh =
    let grown : List (ℕ × ℕ) = cache ++ (bytes, ptr) ∷ [] in
    let s' : TieredPool _ = record s { vram_free = set s.vram_free gpu_idx grown } in
    rw (free_vram_pushes s gpu_idx ptr bytes cache live h) (
      refl,
      alloc_vram_hits cuda s' gpu_idx bytes (length cache) grown
            (get_elem?-set s.vram_free gpu_idx cache grown h)
            (position-append_none cache bytes ptr fresh)
          ∙ rw
              (
                get_or-append_end cache (bytes, ptr),
                swap_remove-append cache (bytes, ptr),
                set-set s.vram_free gpu_idx cache grown h,
              )
              refl,
    )
