-- ===== src/Engine/Covers.antt =====
-- What an allocation of the engine leaves in the table.
use Prim.Native.String.{String}
use vugva.Common.{
  ℕ, suc, ◌+◌, ◌^◌, ◌<◌, ◌≡◌, refl, sym, ap, ◌∙◌, subst, leb, Bool, true, false, inl, inr, Option,
  some, List, [], ◌∷◌, ◌⊎◌, length, get_elem?, if◌then◌else◌, arith, Bool-cases, ne→not-==,
}
use vugva.Action.{Outcome, done, failed, panicked, pure, or_panic, then_end, ◌>>◌}
use vugva.Action.Ends.{Leaves, then_end-Leaves}
use vugva.Driver.{Driver}
use vugva.Vmt
use vugva.Vmt.{
  Chunk, Page, VirtualMemoryTable, lookup, update, get, put, tensor_bytes, allocated_page, new_page,
}
use vugva.Vmt.Table.{get-put_self}
use vugva.Engine.{
  VugvaEngine, push_chunk, mark_resident, alloc_device, shard, allocate_single, allocate_sharded,
  fits_single, allocate, single_gpu_limit, free_vram,
}
use vugva.Engine.Chunks.{remaining, remaining_all}
use vugva.Engine.Keeps.{lookup-update}
use vugva.Context.{PrimaryContext}
use vugva.Engine.Stored.{Answers, no_chunks, Stored, driven-Stored, push_chunk-Stored, shard-Stored}

tensor_bytes-lt : (shape : List ℕ) (element_size : ℕ) → tensor_bytes shape element_size < 2 ^ 64
unfolding tensor_bytes
tensor_bytes-lt shape element_size = omega arith

module _ {W : Type 0} (cuda : Driver W) where
  -- The page of that name has `n` bytes in chunks that are one for each of the ordinals.
  abbrev OnAll : List PrimaryContext → ℕ → List ℕ → String → VugvaEngine × W → Type 0
  OnAll contexts n os name t = Stored cuda contexts name n os t.0

  -- The end of both paths.
  finish-Stored :
      (contexts : List PrimaryContext) (name : String) (n : ℕ) (os : List ℕ)
      (r : Outcome (Unit {0}) × (VugvaEngine × W))
      → Leaves (λ _ t. Stored cuda contexts name n os t.0) r
      → Leaves (OnAll contexts n os) (
          then_end
            (λ _. pure name)
            (then_end (λ _. mark_resident cuda name) r.1 r.0).1
            (then_end (λ _. mark_resident cuda name) r.1 r.0).0)
  finish-Stored contexts name n os (done _, s) h = record {
    page = _;
    found = lookup-update s.0.vmt name _ h.page h.found;
    size = h.size;
    same = h.same;
    one_each = h.one_each;
  }
  finish-Stored contexts name n os (failed e, s) h = tt
  finish-Stored contexts name n os (panicked, s) h = tt

  register-Stored :
      (e : VugvaEngine) (name : String) (shape : List ℕ) (element_size : ℕ)
      → Stored cuda e.contexts
          (Vmt.allocate e.vmt name shape element_size).0
          0
          []
          (record e { vmt = (Vmt.allocate e.vmt name shape element_size).1 })
  unfolding Vmt.allocate lookup allocated_page new_page
  register-Stored e name shape element_size = record {
    page = _;
    found = get-put_self (Vmt.allocate e.vmt name shape element_size).0 _ e.vmt.pages;
    size = refl;
    same = refl;
    one_each = no_chunks;
  }

  allocate_sharded-Stored :
      (name : String) (shape : List ℕ) (element_size o : ℕ) (os : List ℕ) (s : VugvaEngine × W)
      → s.0.cluster.ordinals ≡ o ∷ os
      → suc (length os) < 2 ^ 64
      → Leaves
          (OnAll s.0.contexts (tensor_bytes shape element_size) (o ∷ os))
          (allocate_sharded cuda name shape element_size s)
  unfolding allocate_sharded
  allocate_sharded-Stored name shape element_size o os s e h =
      let (key, t') = Vmt.allocate s.0.vmt name shape element_size in
      let total : ℕ = tensor_bytes shape element_size in
      let s' : VugvaEngine × W = (record s.0 { vmt = t' }, s.1) in
      let cs = s.0.contexts in
      finish-Stored cs key total (o ∷ os)
        (shard cuda key total element_size (length s.0.cluster.ordinals) 0 s.0.cluster.ordinals s')
        (subst
          (λ ordinals.
            Leaves (λ _ t. Stored cuda cs key total (o ∷ os) t.0)
              (shard cuda key total element_size (length ordinals) 0 ordinals s'))
          (sym e)
          (subst
            (λ m.
              Leaves (λ _ t. Stored cuda cs key m (o ∷ os) t.0)
                (shard cuda key total element_size (suc (length os)) 0 (o ∷ os) s'))
            {x = 0 + remaining total (suc (length os)) 0 (o ∷ os)}
            (omega (arith, remaining_all total o os h (tensor_bytes-lt shape element_size)))
            (shard-Stored cuda cs key total element_size (suc (length os)) 0 0 [] (o ∷ os) s' refl
              (register-Stored s.0 name shape element_size))))

  allocate_single-Stored :
      (name : String) (shape : List ℕ) (element_size o : ℕ) (os : List ℕ) (s : VugvaEngine × W)
      → s.0.cluster.ordinals ≡ o ∷ os
      → Leaves
          (OnAll s.0.contexts (tensor_bytes shape element_size) (o ∷ []))
          (allocate_single cuda name shape element_size s)
  unfolding allocate_single
  allocate_single-Stored name shape element_size o os s e =
      let (key, t') = Vmt.allocate s.0.vmt name shape element_size in
      let s' : VugvaEngine × W = (record s.0 { vmt = t' }, s.1) in
      allocated key (alloc_device cuda s.0.contexts 0 total s.1) (
        driven-Stored cuda s.0.contexts key 0 0 total [] s'
          (register-Stored s.0 name shape element_size))
    where
      total : ℕ
      total = tensor_bytes shape element_size

      start : VugvaEngine
      start = record s.0 { vmt = (Vmt.allocate s.0.vmt name shape element_size).1 }

      -- What is done with the block, with what is read as the ordinal of the first GPU.
      store : String → ℕ → W → Option ℕ → Outcome String × (VugvaEngine × W)
      store key ptr w first =
          let r : Outcome ℕ × (VugvaEngine × W) = or_panic first (start, w) in
          then_end
            (λ ordinal.
              push_chunk cuda key ordinal ptr total element_size
              >> mark_resident cuda key
              >> pure key)
            r.1 r.0

      pushed :
          (key : String) (ptr : ℕ) (w : W)
          → Answers cuda s.0.contexts 0 total ptr
          → Stored cuda s.0.contexts key 0 [] start
          → Leaves (OnAll s.0.contexts total (o ∷ [])) (store key ptr w (some o))
      pushed key ptr w a k =
          finish-Stored s.0.contexts key total (o ∷ [])
            (push_chunk cuda key o ptr total element_size (start, w))
            (subst
              (λ m.
                Leaves (λ _ u. Stored cuda s.0.contexts key m (o ∷ []) u.0)
                  (push_chunk cuda key o ptr total element_size (start, w)))
              {x = 0 + total} (omega arith)
              (push_chunk-Stored cuda s.0.contexts key 0 0 o ptr total element_size [] (start, w)
                refl a k))

      allocated :
          (key : String) (r : Outcome ℕ × W)
          → Leaves {S = VugvaEngine × W}
              (λ ptr t.
                Answers cuda s.0.contexts 0 total ptr × Stored cuda s.0.contexts key 0 [] t.0)
              (r.0, (start, r.1))
          → Leaves (OnAll s.0.contexts total (o ∷ [])) (
              then_end {S = VugvaEngine × W}
                (λ ptr t. store key ptr t.1 (get_elem? s.0.cluster.ordinals 0))
                (start, r.1)
                r.0)
      allocated key (done ptr, w) (a, k) =
          subst (λ first. Leaves (OnAll s.0.contexts total (o ∷ [])) (store key ptr w first))
            (sym (ap (λ (l : List ℕ). get_elem? l 0) e)) (pushed key ptr w a k)
      allocated key (failed x, w) h = tt
      allocated key (panicked, w) h = tt

  fits_single-same :
      (total : ℕ) (s : VugvaEngine × W) → Leaves (λ _ t. t.0 ≡ s.0) (fits_single cuda total s)
  unfolding fits_single
  fits_single-same total s = elim (Bool-cases (leb total single_gpu_limit)) [
    | inr e ↦ rw (fits_single, e) refl
    | inl e ↦ rw (fits_single, e) (answered (free_vram cuda s.0.contexts 0 s.1))
  ]
    where
      answered :
          (r : Outcome ℕ × W)
          → Leaves {S = VugvaEngine × W} {A = Bool}
              (λ _ t. t.0 ≡ s.0)
              (elim r.0 [
                | done free ↦ (done (leb total free), (s.0, r.1))
                | failed e ↦ (done false, (s.0, r.1))
                | panicked ↦ (panicked, (s.0, r.1))
              ])
      answered (done free, w) = refl
      answered (failed e, w) = refl
      answered (panicked, w) = tt

  -- An allocation that succeeds on a cluster of at least one GPU registers a page whose chunks have all the bytes of
  -- the tensor together. Either it has one chunk, on the first GPU, or one for each GPU, in order; each chunk has the
  -- ordinal of its GPU and the address that the allocator of device memory answered for its size on that GPU.
  pub allocate-Stored :
      (name : String) (shape : List ℕ) (element_size o : ℕ) (os : List ℕ) (s : VugvaEngine × W)
      → s.0.cluster.ordinals ≡ o ∷ os
      → suc (length os) < 2 ^ 64
      → let total = tensor_bytes shape element_size in
        Leaves
          (λ alloc_name t.
            Stored cuda s.0.contexts alloc_name total (o ∷ []) t.0
            ⊎ Stored cuda s.0.contexts alloc_name total (o ∷ os) t.0)
          (allocate cuda name shape element_size s)
  unfolding allocate
  allocate-Stored name shape element_size o os s e h =
      rw (allocate, ne→not-== (length s.0.cluster.ordinals) 0 (λ z. omega (arith, ap length e, z)))
        (then_end-Leaves (λ _ t. t.0 ≡ s.0) Either (fits_single cuda total s)
          (λ single.
            if single
            then allocate_single cuda name shape element_size
            else allocate_sharded cuda name shape element_size)
          (fits_single-same total s) placed)
    where
      total : ℕ
      total = tensor_bytes shape element_size

      Either : String → VugvaEngine × W → Type 0
      Either alloc_name t =
          Stored cuda s.0.contexts alloc_name total (o ∷ []) t.0
          ⊎ Stored cuda s.0.contexts alloc_name total (o ∷ os) t.0

      on_first :
          (contexts : List PrimaryContext) (r : Outcome String × (VugvaEngine × W))
          → contexts ≡ s.0.contexts
          → Leaves (OnAll contexts total (o ∷ [])) r
          → Leaves Either r
      on_first contexts (done a, t) q k =
          inl (subst (λ cs. Stored cuda cs a total (o ∷ []) t.0) q k)
      on_first contexts (failed x, t) q k = tt
      on_first contexts (panicked, t) q k = tt

      on_all :
          (contexts : List PrimaryContext) (r : Outcome String × (VugvaEngine × W))
          → contexts ≡ s.0.contexts
          → Leaves (OnAll contexts total (o ∷ os)) r
          → Leaves Either r
      on_all contexts (done a, t) q k = inr (subst (λ cs. Stored cuda cs a total (o ∷ os) t.0) q k)
      on_all contexts (failed x, t) q k = tt
      on_all contexts (panicked, t) q k = tt

      placed :
          (single : Bool) (t : VugvaEngine × W)
          → t.0 ≡ s.0
          → Leaves Either (
              (if single
                  then allocate_single cuda name shape element_size
                  else allocate_sharded cuda name shape element_size)
                t)
      placed true t same =
          on_first t.0.contexts (allocate_single cuda name shape element_size t)
            (ap (λ x. x.contexts) same)
            (allocate_single-Stored name shape element_size o os t
              (ap (λ x. x.cluster.ordinals) same ∙ e))
      placed false t same =
          on_all t.0.contexts (allocate_sharded cuda name shape element_size t)
            (ap (λ x. x.contexts) same)
            (allocate_sharded-Stored name shape element_size o os t
              (ap (λ x. x.cluster.ordinals) same ∙ e) h)
