-- ===== src/Tiered/Frame.antt =====
-- Actions of the tiered pool that leave the table of pages alone, however they end.
use Prim.Native.String.{String}
use vugva.Common.{
  ℕ, ◌==◌, ◌≡◌, refl, ap, ◌∙◌, inl, inr, Bool, true, false, Option, none, some, List, if◌then◌else◌,
  get_elem?, Option-cases, Bool-cases, set, get_or,
}
use vugva.Error.{VugvaError, invalid_gpu, unknown_allocation, Result, ok, err}
use vugva.Dma.{DmaEngine}
use vugva.Vmt.{Page, get}
use vugva.Action.{
  Outcome, raise, then_end, done, failed, panicked, Action, gets, or_raise, or_panic, lift, ◌>>=◌,
  ◌>>◌,
}
use vugva.Driver.{Driver}
use vugva.Tiered.State.{TieredPool, submit, call, call_for, handle, page_of}
use vugva.Tiered.Vram.{
  set_context, free_vram_on_gpu, alloc_vram_on_gpu, fresh_block, position, swap_remove,
}

abbrev pub Frames : {W A : Type 0} → Action (TieredPool W) A → Type 0
Frames m = (s : TieredPool _) → (m s).1.vmt ≡ s.vmt

pub bind-Frames :
    {W A B : Type 0} (m : Action (TieredPool W) A) (f : A → Action (TieredPool W) B)
    → Frames m
    → ((a : A) → Frames (f a))
    → Frames (m >>= f)
bind-Frames m f p q s = elim (m s).0 as (λ r. (then_end f (m s).1 r).1.vmt ≡ s.vmt) [
  | done a ↦ q a (m s).1 ∙ p s
  | failed e ↦ p s
  | panicked ↦ p s
]

pub then-Frames :
    {W A B : Type 0} (m : Action (TieredPool W) A) (k : Action (TieredPool W) B)
    → Frames m
    → Frames k
    → Frames (m >> k)
then-Frames m k p q = bind-Frames m (λ _. k) p (λ _. q)

pub or_raise-Frames : {W A : Type 0} (o : Option A) (e : VugvaError) → Frames {W = W} (or_raise o e)
or_raise-Frames none e s = refl
or_raise-Frames (some a) e s = refl

pub or_panic-Frames : {W A : Type 0} (o : Option A) → Frames {W = W} (or_panic o)
or_panic-Frames none s = refl
or_panic-Frames (some a) s = refl

pub if-Frames :
    {W A : Type 0} (b : Bool) (m k : Action (TieredPool W) A)
    → Frames m
    → Frames k
    → Frames (if b then m else k)
if-Frames true m k p q = p
if-Frames false m k p q = q

pub handle-Frames : {W : Type 0} (field : TieredPool W → List ℕ) (i : ℕ) → Frames (handle field i)
handle-Frames field i =
    bind-Frames (gets λ s. get_elem? (field s) i) or_panic (λ s. refl) or_panic-Frames

lift-Frames : {W : Type 0} (r : Result ℕ) → Frames {W = W} (lift r)
lift-Frames (ok a) s = refl
lift-Frames (err e) s = refl

pub submit-Frames : {W : Type 0} (f : DmaEngine → Result ℕ × DmaEngine) → Frames {W = W} (submit f)
submit-Frames f s = lift-Frames (f s.dma).0 (record s { dma = (f s.dma).1 })

pub call-Frames : {W : Type 0} (fn_name : String) (f : W → ℕ × W) → Frames (call fn_name f)
call-Frames fn_name f s = refl

pub set_context-Frames :
    {W : Type 0} (cuda : Driver W) (gpu_idx : ℕ) → Frames (set_context cuda gpu_idx)
unfolding set_context
set_context-Frames cuda gpu_idx =
    bind-Frames (gets λ s. get_elem? s.contexts gpu_idx)
      (λ ctx.
        or_raise ctx (invalid_gpu gpu_idx) >>= λ raw. call "cuCtxSetCurrent" (cuda.set_current raw))
      (λ s. refl)
      (λ ctx.
        bind-Frames (or_raise ctx (invalid_gpu gpu_idx))
          (λ raw. call "cuCtxSetCurrent" (cuda.set_current raw))
          (or_raise-Frames ctx (invalid_gpu gpu_idx))
          (λ raw. call-Frames "cuCtxSetCurrent" (cuda.set_current raw)))

pub free_vram-Frames :
    {W : Type 0} (gpu_idx ptr bytes : ℕ) → Frames {W = W} (free_vram_on_gpu gpu_idx ptr bytes)
unfolding free_vram_on_gpu
free_vram-Frames gpu_idx ptr bytes s = elim (Bool-cases (ptr == 0)) [
  | inl e ↦ rw (e, free_vram_on_gpu) refl
  | inr e ↦ elim (Option-cases (get_elem? s.vram_free gpu_idx)) [
    | inl f ↦ rw (e, f, free_vram_on_gpu) refl
    | inr (cache, f) ↦ rw (e, f, free_vram_on_gpu) refl
  ]
]

pub page_of_found :
    {W : Type 0} (name : String) (page : Page) (s : TieredPool W)
    → get name s.vmt.pages ≡ some page
    → page_of name s ≡ (done page, s)
page_of_found name page s h = ap (λ (o : Option Page). or_raise o (unknown_allocation name) s) h

fresh_block-Frames :
    {W : Type 0} (cuda : Driver W) (gpu_idx bytes : ℕ) → Frames (fresh_block cuda gpu_idx bytes)
unfolding set_context
fresh_block-Frames cuda gpu_idx bytes =
    then-Frames (set_context cuda gpu_idx) (call_for "cuMemAlloc_v2" (cuda.mem_alloc bytes))
      (set_context-Frames cuda gpu_idx) (λ s. refl)

pub alloc_vram-Frames :
    {W : Type 0} (cuda : Driver W) (gpu_idx bytes : ℕ)
    → Frames (alloc_vram_on_gpu cuda gpu_idx bytes)
unfolding alloc_vram_on_gpu
alloc_vram-Frames {W} cuda gpu_idx bytes s = from (get_elem? s.vram_free gpu_idx)
  where
    taken :
        (cache : List (ℕ × ℕ)) (o : Option ℕ)
        → (elim o as (λ _. Outcome ℕ × TieredPool W) [
          | some i ↦ (
            done (get_or cache i (0, 0)).1,
            record s { vram_free = set s.vram_free gpu_idx (swap_remove cache i) },
          )
          | none ↦ fresh_block cuda gpu_idx bytes s
        ]).1.vmt
          ≡ s.vmt
    taken cache (some i) = refl
    taken cache none = fresh_block-Frames cuda gpu_idx bytes s

    from :
        (o : Option (List (ℕ × ℕ)))
        → (elim o as (λ _. Outcome ℕ × TieredPool W) [
          | none ↦ raise (invalid_gpu gpu_idx) s
          | some cache ↦ elim (position cache bytes) as (λ _. Outcome ℕ × TieredPool W) [
            | some i ↦ (
              done (get_or cache i (0, 0)).1,
              record s { vram_free = set s.vram_free gpu_idx (swap_remove cache i) },
            )
            | none ↦ fresh_block cuda gpu_idx bytes s
          ]
        ]).1.vmt
          ≡ s.vmt
    from none = refl
    from (some cache) = taken cache (position cache bytes)
