-- ===== src/Engine/Stored.antt =====
-- The bytes of the chunks of a page, and the steps of an allocation that add to them.
use Prim.Native.String.{String}
use vugva.Common.{
  ℕ, suc, ◌+◌, ◌≡◌, refl, sym, ap, ◌∙◌, subst, ◌==◌, inl, inr, some, List, [], ◌∷◌, ◌++◌, arith,
  Bool-cases, length, length-append, append_assoc, append-nil,
}
use vugva.Action.{Outcome, done, failed, panicked, ◌>>◌}
use vugva.Action.Ends.{Leaves, then_end-Leaves}
use vugva.Driver.{Driver}
use vugva.Context.{PrimaryContext}
use vugva.Vmt.{Chunk, Page, lookup}
use vugva.Engine.{VugvaEngine, Method, driven, push_chunk, alloc_device, actual_chunk, shard}
use vugva.Engine.Chunks.{remaining}
use vugva.Engine.Keeps.{lookup-update}

abbrev pub sum_chunks : List Chunk → ℕ
sum_chunks [] = 0
sum_chunks (c ∷ cs) = c.size_bytes + sum_chunks cs

sum_chunks-append :
    (cs : List Chunk) (c : Chunk) → sum_chunks (cs ++ c ∷ []) ≡ sum_chunks cs + c.size_bytes
sum_chunks-append [] c = omega arith
sum_chunks-append (d ∷ cs) c = omega (arith, sum_chunks-append cs c)

module _ {W : Type 0} (cuda : Driver W) where
  -- The address is what `alloc_device` answers for the GPU at that position and this many bytes.
  abbrev pub Answers : List PrimaryContext → ℕ → ℕ → ℕ → Type 0
  Answers contexts i bytes ptr =
      (w : W) × (w' : W) × (alloc_device cuda contexts i bytes w ≡ (done ptr, w'))

  -- One chunk for each of the ordinals, from position `i` on: on the GPU at that position, and with its ordinal.
  pub data OneEach (contexts : List PrimaryContext) : ℕ → List ℕ → List Chunk → Type 0 where
    no_chunks : {i : ℕ} → OneEach contexts i [] []
    and_chunk :
        {i o : ℕ} {os : List ℕ} {c : Chunk} {cs : List Chunk}
        → Answers contexts i c.size_bytes c.device_ptr
        → c.gpu_ordinal ≡ o
        → OneEach contexts (suc i) os cs
        → OneEach contexts i (o ∷ os) (c ∷ cs)

  OneEach-append :
      (contexts : List PrimaryContext) {i : ℕ} {os : List ℕ} {cs : List Chunk} (c : Chunk) (j : ℕ)
      → OneEach contexts i os cs
      → j ≡ i + length os
      → Answers contexts j c.size_bytes c.device_ptr
      → OneEach contexts i (os ++ c.gpu_ordinal ∷ []) (cs ++ c ∷ [])
  OneEach-append contexts {i = i} c j no_chunks e h =
      and_chunk
        (subst (λ k. Answers contexts k c.size_bytes c.device_ptr) {x = j} {y = i}
          (omega (arith, e)) h)
        refl no_chunks
  OneEach-append contexts c j (and_chunk a o later) e h =
      and_chunk a o (OneEach-append contexts c j later (omega (arith, e)) h)

  -- The engine has a page of that name, whose chunks have `n` bytes together and are one for each of the ordinals.
  pub record Stored (contexts : List PrimaryContext) (name : String) (n : ℕ) (os : List ℕ)
      (e : VugvaEngine) : Type 0 where
    pub page : Page
    pub found : lookup e.vmt name ≡ some page
    pub size : sum_chunks page.vram_chunks ≡ n
    pub same : e.contexts ≡ contexts
    pub one_each : OneEach contexts 0 os page.vram_chunks

  module _ (contexts : List PrimaryContext) (name : String) where
    -- A call of the allocator leaves the engine as it is.
    pub driven-Stored :
        (n i bytes : ℕ) (os : List ℕ) (s : VugvaEngine × W)
        → Stored contexts name n os s.0
        → Leaves
            (λ ptr t. Answers contexts i bytes ptr × Stored contexts name n os t.0)
            (driven cuda (λ cs. alloc_device cuda cs i bytes) s)
    driven-Stored n i bytes os s h = from (alloc_device cuda s.0.contexts i bytes s.1) refl
      where
        from :
            (r : Outcome ℕ × W)
            → alloc_device cuda s.0.contexts i bytes s.1 ≡ r
            → Leaves {S = VugvaEngine × W}
                (λ ptr t. Answers contexts i bytes ptr × Stored contexts name n os t.0)
                (r.0, (s.0, r.1))
        from (done ptr, w) e =
            ((s.1, w, ap (λ cs. alloc_device cuda cs i bytes s.1) (sym h.same) ∙ e), h)
        from (failed x, w) e = tt
        from (panicked, w) e = tt

    pub push_chunk-Stored :
        (n i ordinal ptr size element_size : ℕ) (os : List ℕ) (s : VugvaEngine × W)
        → i ≡ length os
        → Answers contexts i size ptr
        → Stored contexts name n os s.0
        → Leaves
            (λ _ t. Stored contexts name (n + size) (os ++ ordinal ∷ []) t.0)
            (push_chunk cuda name ordinal ptr size element_size s)
    push_chunk-Stored n i ordinal ptr size element_size os s at granted h =
        elim (Bool-cases (element_size == 0)) [
          | inl e ↦ rw e tt
          | inr e ↦ rw e (record {
            page = _;
            found = lookup-update s.0.vmt name _ h.page h.found;
            size = sum_chunks-append h.page.vram_chunks _ ∙ ap (◌+ size) h.size;
            same = h.same;
            one_each = OneEach-append contexts _ i h.one_each (omega (arith, at)) granted;
          })
        ]

    pub shard-Stored :
        (total element_size num i n : ℕ) (before os : List ℕ) (s : VugvaEngine × W)
        → i ≡ length before
        → Stored contexts name n before s.0
        → Leaves
            (λ _ t. Stored contexts name (n + remaining total num i os) (before ++ os) t.0)
            (shard cuda name total element_size num i os s)
    unfolding shard
    shard-Stored total element_size num i n before [] s at h =
        subst (λ os. Stored contexts name (n + 0) os s.0) (sym (append-nil before))
          (subst (λ k. Stored contexts name k before s.0) (omega arith) h)
    shard-Stored total element_size num i n before (o ∷ os) s at h =
        let size : ℕ = actual_chunk total num i in
        let rest : Method cuda (Unit {0}) = shard cuda name total element_size num (suc i) os in
        let Goal : Unit {0} → VugvaEngine × W → Type 0 =
          λ _ t. Stored contexts name (n + remaining total num i (o ∷ os)) (before ++ o ∷ os) t.0 in
        then_end-Leaves (λ ptr t. Answers contexts i size ptr × Stored contexts name n before t.0)
          Goal (driven cuda (λ cs. alloc_device cuda cs i size) s)
          (λ ptr. push_chunk cuda name o ptr size element_size >> rest)
          (driven-Stored n i size before s h)
          (λ ptr t k.
            then_end-Leaves (λ _ u. Stored contexts name (n + size) (before ++ o ∷ []) u.0) Goal
              (push_chunk cuda name o ptr size element_size t) (λ _. rest)
              (push_chunk-Stored n i o ptr size element_size before t at k.0 k.1)
              (λ _ u l.
                subst
                  (λ all.
                    Leaves
                      (λ _ v. Stored contexts name (n + remaining total num i (o ∷ os)) all v.0)
                      (shard cuda name total element_size num (suc i) os u))
                  (append_assoc before (o ∷ []) os)
                  (subst
                    (λ m.
                      Leaves (λ _ v. Stored contexts name m ((before ++ o ∷ []) ++ os) v.0)
                        (shard cuda name total element_size num (suc i) os u))
                    {x = n + size + remaining total num (suc i) os} (omega arith)
                    (shard-Stored total element_size num (suc i) (n + size) (before ++ o ∷ []) os u
                      (omega (arith, at, length-append before (o ∷ []))) l))))
