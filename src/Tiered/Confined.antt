-- ===== src/Tiered/Confined.antt =====
-- Actions that touch the page of one name only, however they end.
use Prim.Native.String.{String}
use vugva.Common.{
  ℕ, ◌==◌, List, ◌≡◌, ◌≢◌, refl, ap, ◌∙◌, inl, inr, Bool, true, false, Option, none, some,
  if◌then◌else◌, Option-cases, ◌⊎◌,
}
use vugva.Error.{VugvaError, Result}
use vugva.Dma.{DmaEngine}
use vugva.Driver.{Driver}
use vugva.Vmt.{Page, VirtualMemoryTable, get}
use vugva.Vmt.Table.{get-put_ne, update_present}
use vugva.Action.{
  Outcome, done, failed, panicked, Action, pure, raise, panic, gets, or_raise, or_panic, attempt,
  ignore, then_end, ◌>>=◌, ◌>>◌,
}
use vugva.Tiered.State.{TieredPool, within, submit, handle, known_page, write_to}
use vugva.Tiered.Vram.{set_context, free_vram_on_gpu, alloc_vram_on_gpu}
use vugva.Tiered.Prefetch.{chunk_for}
use vugva.Tiered.Frame.{
  Frames, or_raise-Frames, or_panic-Frames, handle-Frames, submit-Frames, set_context-Frames,
  free_vram-Frames, alloc_vram-Frames,
}
use vugva.Tiered.Keeps.{write_to_found, write_to_missing}

pub record Confined (name : String) {W A : Type 0} (m : Action (TieredPool W) A) : Type 0 where
  pub elsewhere :
      (s : TieredPool W) (i : String) → name ≢ i → get i (m s).1.vmt.pages ≡ get i s.vmt.pages

module _ {name : String} {W A : Type 0} where
  pub Frames-Confined : (m : Action (TieredPool W) A) → Frames m → Confined name m
  Frames-Confined m p = record {
    elsewhere = λ s i ne. ap (λ (t : VirtualMemoryTable). get i t.pages) (p s);
  }

  pub bind-Confined :
      {B : Type 0} {m : Action (TieredPool W) A} {f : A → Action (TieredPool W) B}
      → Confined name m
      → ((a : A) → Confined name (f a))
      → Confined name (m >>= f)
  bind-Confined {B} {m} {f} p q = record {
    elsewhere = λ s i ne. from i ne (m s) ∙ p.elsewhere s i ne;
  }
    where
      from :
          (i : String)
          → name ≢ i
          → (r : Outcome A × TieredPool W)
          → get i (then_end f r.1 r.0).1.vmt.pages ≡ get i r.1.vmt.pages
      from i ne (done a, t) = (q a).elsewhere t i ne
      from i ne (failed e, t) = refl
      from i ne (panicked, t) = refl

  pub attempt-Confined : {m : Action (TieredPool W) A} → Confined name m → Confined name (attempt m)
  attempt-Confined {m} p = record { elsewhere = λ s i ne. from i (m s) ∙ p.elsewhere s i ne }
    where
      from :
          (i : String) (r : Outcome A × TieredPool W)
          → get i
              (elim r.0 as (λ _. Outcome (Option VugvaError) × TieredPool W) [
                | done _ ↦ (done none, r.1)
                | failed e ↦ (done (some e), r.1)
                | panicked ↦ (panicked, r.1)
              ]).1.vmt.pages
            ≡ get i r.1.vmt.pages
      from i (done a, t) = refl
      from i (failed e, t) = refl
      from i (panicked, t) = refl

  pub if_Confined :
      {m k : Action (TieredPool W) A} (b : Bool)
      → Confined name m
      → Confined name k
      → Confined name (if b then m else k)
  if_Confined true p q = p
  if_Confined false p q = q

pub then-Confined :
    {name : String} {W A B : Type 0} {m : Action (TieredPool W) A} {k : Action (TieredPool W) B}
    → Confined name m
    → Confined name k
    → Confined name (m >> k)
then-Confined p q = bind-Confined p (λ _. q)

pub ignore-Confined :
    {name : String} {W A : Type 0} {m : Action (TieredPool W) A}
    → Confined name m
    → Confined name (ignore m)
ignore-Confined p = then-Confined (attempt-Confined p) (Frames-Confined (pure tt) (λ s. refl))

pub write_to-Confined :
    {W : Type 0} (name : String) (f : Page → Page) → Confined name {W = W} (write_to name f)
write_to-Confined {W} name f = record {
  elsewhere = λ s i ne. from s i ne (Option-cases (get name s.vmt.pages));
}
  where
    from :
        (s : TieredPool W) (i : String)
        → name ≢ i
        → (get name s.vmt.pages ≡ none) ⊎ ((p : Page) × (get name s.vmt.pages ≡ some p))
        → get i (write_to name f s).1.vmt.pages ≡ get i s.vmt.pages
    from s i ne (inl e) =
        ap (λ (r : Outcome (Unit {0}) × TieredPool W). get i r.1.vmt.pages)
          (write_to_missing name f s e)
    from s i ne (inr (p, e)) =
        ap (λ (r : Outcome (Unit {0}) × TieredPool W). get i r.1.vmt.pages)
          (write_to_found name f p s e)
        ∙ ap (λ (t : VirtualMemoryTable). get i t.pages) (update_present s.vmt name f p e)
        ∙ get-put_ne name i (f p) s.vmt.pages ne

module _ {name : String} {W : Type 0} where
  pub pure-Confined : {A : Type 0} (a : A) → Confined name {W = W} (pure a)
  pure-Confined a = Frames-Confined (pure a) (λ s. refl)

  pub raise-Confined : {A : Type 0} (e : VugvaError) → Confined name {W = W} {A = A} (raise e)
  raise-Confined e = Frames-Confined (raise e) (λ s. refl)

  pub panic-Confined : {A : Type 0} → Confined name {W = W} {A = A} panic
  panic-Confined = Frames-Confined panic (λ s. refl)

  pub gets-Confined : {A : Type 0} (f : TieredPool W → A) → Confined name (gets f)
  gets-Confined f = Frames-Confined (gets f) (λ s. refl)

  pub within-Confined : {A : Type 0} (m : Action W A) → Confined name (within m)
  within-Confined m = Frames-Confined (within m) (λ s. refl)

  pub or_raise-Confined :
      {A : Type 0} (o : Option A) (e : VugvaError) → Confined name {W = W} (or_raise o e)
  or_raise-Confined o e = Frames-Confined (or_raise o e) (or_raise-Frames o e)

  pub handle-Confined : (field : TieredPool W → List ℕ) (i : ℕ) → Confined name (handle field i)
  handle-Confined field i = Frames-Confined (handle field i) (handle-Frames field i)

  pub submit-Confined : (f : DmaEngine → Result ℕ × DmaEngine) → Confined name {W = W} (submit f)
  submit-Confined f = Frames-Confined (submit f) (submit-Frames f)

  pub known_page-Confined : (i : String) → Confined name {W = W} (known_page i)
  known_page-Confined i =
      bind-Confined (gets-Confined (λ s. get i s.vmt.pages))
        (λ o. Frames-Confined (or_panic o) (or_panic-Frames o))

  pub chunk_for-Confined :
      (page : Page) (gpu_idx ptr size : ℕ) → Confined name {W = W} (chunk_for page gpu_idx ptr size)
  chunk_for-Confined page gpu_idx ptr size =
      bind-Confined (handle-Confined (λ s. s.ordinals) gpu_idx)
        (λ ordinal. if_Confined (page.element_size == 0) panic-Confined (pure-Confined _))

  pub set_context-Confined :
      (cuda : Driver W) (gpu_idx : ℕ) → Confined name (set_context cuda gpu_idx)
  set_context-Confined cuda gpu_idx =
      Frames-Confined (set_context cuda gpu_idx) (set_context-Frames cuda gpu_idx)

  pub free_vram-Confined :
      (gpu_idx ptr bytes : ℕ) → Confined name {W = W} (free_vram_on_gpu gpu_idx ptr bytes)
  free_vram-Confined gpu_idx ptr bytes =
      Frames-Confined (free_vram_on_gpu gpu_idx ptr bytes) (free_vram-Frames gpu_idx ptr bytes)

  pub alloc_vram-Confined :
      (cuda : Driver W) (gpu_idx bytes : ℕ) → Confined name (alloc_vram_on_gpu cuda gpu_idx bytes)
  alloc_vram-Confined cuda gpu_idx bytes =
      Frames-Confined (alloc_vram_on_gpu cuda gpu_idx bytes) (alloc_vram-Frames cuda gpu_idx bytes)
