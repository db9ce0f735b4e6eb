-- ===== src/Engine/Free.antt =====
-- What `free` of the engine attempts and reports.
use Prim.Native.String.{String}
use vugva.Common.{
  sign_extend, ℕ, ◌==◌, ◌≡◌, refl, ap, ◌∙◌, inl, inr, Option, none, some, List, [], ◌∷◌,
  if◌then◌else◌, get_elem?, Bool-cases, Option-cases,
}
use vugva.Error.{VugvaError, invalid_gpu, unknown_allocation, cuda_error}
use vugva.Action.{Outcome, done, failed, panicked, attempt, then_end, ◌>>=◌}
use vugva.Driver.{Driver}
use vugva.Context.{PrimaryContext, get, bind, bind_at}
use vugva.Gpu.Ordinals.{index_of}
use vugva.Vmt.{Chunk, lookup, remove}
use vugva.Engine.{VugvaEngine, Method, free_device, set_device}
use vugva.Engine.Access.{free_chunk, first_of, free_chunks, report, free}

module _ {W : Type 0} (cuda : Driver W) where
  -- A block freed in the context of its GPU, if the context can be bound.
  abbrev pub free_block : ℕ → Option PrimaryContext → ℕ → W → Option VugvaError × W
  free_block idx none ptr w = (some (invalid_gpu idx), w)
  free_block idx (some ctx) ptr w =
      let (bound, w1) = cuda.set_current ctx.ctx w in
      let (code, w2) = cuda.mem_free ptr w1 in
      if bound == 0
      then (if code == 0 then none else some (cuda_error "cuMemFree_v2" code), w2)
      else (some (cuda_error "cuCtxSetCurrent" bound), w1)

  -- What giving one chunk back does on its own.
  abbrev pub give_back : VugvaEngine → Chunk → W → Option VugvaError × W
  give_back e c w = elim (index_of e.cluster.ordinal_map c.gpu_ordinal) [
    | none ↦ (some (invalid_gpu (sign_extend c.gpu_ordinal)), w)
    | some idx ↦ free_block idx (get_elem? e.contexts idx) c.device_ptr w
  ]

  -- All chunks given back, one after another, with the error of each.
  abbrev pub give_all : VugvaEngine → List Chunk → W → List (Option VugvaError) × W
  give_all e [] w = ([], w)
  give_all e (c ∷ cs) w =
      let (error, w1) = give_back e c w in
      let (errors, w2) = give_all e cs w1 in (error ∷ errors, w2)

  abbrev pub first_error : List (Option VugvaError) → Option VugvaError
  first_error [] = none
  first_error (none ∷ es) = first_error es
  first_error (some e ∷ es) = some e

  abbrev reported : Option VugvaError × W → Outcome (Unit {0}) × W
  reported (e, w) = (report cuda e, w)

  free_device-free_block :
      (contexts : List PrimaryContext) (idx ptr : ℕ) (w : W)
      → free_device cuda contexts idx ptr w
        ≡ reported (free_block idx (get_elem? contexts idx) ptr w)
  unfolding free_device set_device bind_at bind get
  free_device-free_block contexts idx ptr w = elim (Option-cases (get_elem? contexts idx)) [
    | inl e ↦ rw e refl
    | inr (ctx, e) ↦
        let w1 : W = (cuda.set_current ctx.ctx w).1 in
        elim (Bool-cases ((cuda.set_current ctx.ctx w).0 == 0)) [
          | inr bad ↦ rw (e, bad) refl
          | inl good ↦ elim (Bool-cases ((cuda.mem_free ptr w1).0 == 0)) [
            | inl fine ↦ rw (e, good, fine) refl
            | inr wrong ↦ rw (e, good, wrong) refl
          ]
        ]
  ]

  free_chunk-give_back :
      (e : VugvaEngine) (c : Chunk) (w : W)
      → free_chunk cuda c (e, w) ≡ (report cuda (give_back e c w).0, (e, (give_back e c w).1))
  unfolding free_chunk
  free_chunk-give_back e c w = elim (Option-cases (index_of e.cluster.ordinal_map c.gpu_ordinal)) [
    | inl n ↦ rw (free_chunk, give_back, n) refl
    | inr (idx, n) ↦
        rw (free_chunk, give_back, n)
          (ap (λ r. (r.0, (e, r.1))) (free_device-free_block e.contexts idx c.device_ptr w))
  ]

  abbrev after_attempt :
      {B : Type 0}
      → (Option VugvaError → Method cuda B)
      → Outcome (Unit {0}) × (VugvaEngine × W)
      → Outcome B × (VugvaEngine × W)
  after_attempt k r =
      let q : Outcome (Option VugvaError) × (VugvaEngine × W) = elim r.0 [
        | done _ ↦ (done none, r.1)
        | failed e ↦ (done (some e), r.1)
        | panicked ↦ (panicked, r.1)
      ] in
      then_end k q.1 q.0

  attempt-report :
      {B : Type 0} (m : Method cuda (Unit {0})) (k : Option VugvaError → Method cuda B)
      (s t : VugvaEngine × W) (x : Option VugvaError)
      → m s ≡ (report cuda x, t)
      → (attempt m >>= k) s ≡ k x t
  attempt-report m k s t none e = ap (after_attempt k) e
  attempt-report m k s t (some x) e = ap (after_attempt k) e

  first_of_assoc :
      (a b c : Option VugvaError)
      → first_of cuda (first_of cuda a b) c ≡ first_of cuda a (first_of cuda b c)
  first_of_assoc none b c = refl
  first_of_assoc (some a) b c = refl

  first_error-cons :
      (e : Option VugvaError) (es : List (Option VugvaError))
      → first_of cuda e (first_error es) ≡ first_error (e ∷ es)
  first_error-cons none es = refl
  first_error-cons (some e) es = refl

  free_chunks-give_all :
      (first : Option VugvaError) (e : VugvaEngine) (cs : List Chunk) (w : W)
      → free_chunks cuda first cs (e, w)
        ≡ (done (first_of cuda first (first_error (give_all e cs w).0)), (e, (give_all e cs w).1))
  unfolding free_chunks
  free_chunks-give_all none e [] w = refl
  free_chunks-give_all (some x) e [] w = refl
  free_chunks-give_all first e (c ∷ cs) w =
      let (x, w1) = give_back e c w in
      attempt-report (free_chunk cuda c) (λ y. free_chunks cuda (first_of cuda first y) cs) (e, w)
        (e, w1) x (free_chunk-give_back e c w)
      ∙ free_chunks-give_all (first_of cuda first x) e cs w1
      ∙ ap (λ y. (done y, (e, (give_all e cs w1).1)))
          (first_of_assoc first x (first_error (give_all e cs w1).0)
            ∙ ap (first_of cuda first) (first_error-cons x (give_all e cs w1).0))

  -- Freeing a page of the table takes it out of the table, gives back every one of its chunks in order, whatever
  -- becomes of those before it, and answers the first error of any, or success if there is none. A name without a
  -- page is an error and nothing is done.
  pub free-give_all :
      (name : String) (e : VugvaEngine) (w : W)
      → free cuda name (e, w) ≡ (elim (lookup e.vmt name) [
        | none ↦ (failed (unknown_allocation name), (e, w))
        | some page ↦
            let e' = record e { vmt = (remove e.vmt name).1 } in
            let (errors, w') = give_all e' page.vram_chunks w in
            (report cuda (first_error errors), (e', w'))
      ])
  unfolding free
  free-give_all name e w = elim (Option-cases (lookup e.vmt name)) [
    | inl n ↦ rw (free, n) refl
    | inr (page, n) ↦
        let e' : VugvaEngine = record e { vmt = (remove e.vmt name).1 } in
        rw (free, n)
          (ap (λ r. then_end (λ first s. (report cuda first, s)) r.1 r.0)
            (free_chunks-give_all none e' page.vram_chunks w))
  ]
