-- ===== src/Tiered/Resident.antt =====
-- What the end of a promotion leaves.
use Prim.Native.String.{String}
use mathlib.Core.Option.{none-ne-some, some-injective}
use vugva.Common.{
  ℕ, ◌≡◌, refl, sym, ap, ◌∙◌, inl, inr, ◌==◌, Bool, true, false, Option, none, some, List, [], ◌∷◌,
  get_elem?, Option-cases, Bool-cases, ◌/◌, if◌then◌else◌, subst, ==→eq,
}
use vugva.Vmt.{vram, Chunk, Page, VirtualMemoryTable, get, touch}
use vugva.Vmt.Table.{get-put_self, update_present}
use vugva.Action.{
  Outcome, done, failed, panicked, Action, pure, panic, or_panic, then_end, ◌>>=◌, ◌>>◌,
}
use vugva.Action.Ends.{Leaves}
use vugva.Driver.{Driver}
use vugva.Engine.OnGpu.{On, On-last, On-cons}
use vugva.Tiered.State.{TieredPool, write_to}
use vugva.Tiered.Prefetch.{with_chunk, chunk_for}
use vugva.Tiered.Promote.{find_chunk, install}
use vugva.Tiered.Confined.{
  Confined, bind-Confined, then-Confined, pure-Confined, write_to-Confined, known_page-Confined,
  chunk_for-Confined,
}
use vugva.Tiered.Keeps.{write_to_found, write_to_missing}

-- The page of that name is in VRAM, and one of its chunks is on the GPU of index `gpu_idx`, at the address.
pub record Resident {W : Type 0} (name : String) (gpu_idx ptr : ℕ) (s : TieredPool W) : Type 0 where
  pub page : Page
  pub found : get name s.vmt.pages ≡ some page
  pub in_vram : page.tier ≡ vram
  pub ordinal : ℕ
  pub on_gpu : get_elem? s.ordinals gpu_idx ≡ some ordinal
  pub chunk : On ordinal ptr page.vram_chunks

-- The action touches the page of that name only, and every answer is the address of such a chunk.
pub record Promotes {W : Type 0} (name : String) (gpu_idx : ℕ) (m : Action (TieredPool W) ℕ)
    : Type 0 where
  pub confined : Confined name m
  pub promotes : (s : TieredPool W) → Leaves (Resident name gpu_idx) (m s)

module _ {W : Type 0} {name : String} {gpu_idx : ℕ} where
  -- For the answer it does not matter what comes before.
  pub bind-Promotes :
      {A : Type 0} {m : Action (TieredPool W) A} {f : A → Action (TieredPool W) ℕ}
      → Confined name m
      → ((a : A) → Promotes name gpu_idx (f a))
      → Promotes name gpu_idx (m >>= f)
  bind-Promotes {A} {m} {f} p q = record {
    confined = bind-Confined p (λ a. (q a).confined);
    promotes = λ s. from (m s);
  }
    where
      from : (r : Outcome A × TieredPool W) → Leaves (Resident name gpu_idx) (then_end f r.1 r.0)
      from (done a, t) = (q a).promotes t
      from (failed e, t) = tt
      from (panicked, t) = tt

  pub then-Promotes :
      {A : Type 0} {m : Action (TieredPool W) A} {k : Action (TieredPool W) ℕ}
      → Confined name m
      → Promotes name gpu_idx k
      → Promotes name gpu_idx (m >> k)
  then-Promotes p q = bind-Promotes p (λ _. q)

module _ {W : Type 0} (name : String) (gpu_idx : ℕ) where
  -- A page that is written and has then the chunk.
  written-Resident :
      (ptr : ℕ) (f : Page → Page) (p : Page) (ordinal : ℕ) (s : TieredPool W)
      → get name s.vmt.pages ≡ some p
      → get_elem? s.ordinals gpu_idx ≡ some ordinal
      → (f p).tier ≡ vram
      → On ordinal ptr (f p).vram_chunks
      → Leaves (Resident name gpu_idx) ((write_to name f >> pure ptr) s)
  written-Resident ptr f p ordinal s e o tier on =
      subst
        (λ (r : Outcome (Unit {0}) × TieredPool W).
          Leaves (Resident name gpu_idx) (then_end (λ _. pure ptr) r.1 r.0))
        (sym (write_to_found name f p s e))
        (record {
          page = f p;
          found =
              ap (λ (t : VirtualMemoryTable). get name t.pages) (update_present s.vmt name f p e)
              ∙ get-put_self name (f p) s.vmt.pages;
          in_vram = tier;
          ordinal = ordinal;
          on_gpu = o;
          chunk = on;
        })

  -- The same, whatever page the table has.
  pub writing-Resident :
      (ptr : ℕ) (f : Page → Page) (ordinal : ℕ) (s : TieredPool W)
      → get_elem? s.ordinals gpu_idx ≡ some ordinal
      → ((p : Page)
          → get name s.vmt.pages ≡ some p
          → ((f p).tier ≡ vram) × On ordinal ptr (f p).vram_chunks)
      → Leaves (Resident name gpu_idx) ((write_to name f >> pure ptr) s)
  writing-Resident ptr f ordinal s o h = elim (Option-cases (get name s.vmt.pages)) [
    | inl e ↦
        subst
          (λ (r : Outcome (Unit {0}) × TieredPool W).
            Leaves (Resident name gpu_idx) (then_end (λ _. pure ptr) r.1 r.0))
          (sym (write_to_missing name f s e)) tt
    | inr (p, e) ↦ written-Resident ptr f p ordinal s e o (h p e).0 (h p e).1
  ]

  -- A chunk that is made for the GPU and pushed to the page.
  pub pushed-Promotes :
      (page : Page) (ptr size : ℕ) (after : Page → Page)
      → ((p : Page) → ((after p).tier ≡ p.tier) × ((after p).vram_chunks ≡ p.vram_chunks))
      → Promotes {W = W} name gpu_idx (
          chunk_for page gpu_idx ptr size >>= λ chunk.
          write_to name (λ p. after (with_chunk chunk p)) >> pure ptr)
  pushed-Promotes page ptr size after same = record {
    confined = bind-Confined (chunk_for-Confined page gpu_idx ptr size) (λ chunk.
        then-Confined (write_to-Confined name (λ p. after (with_chunk chunk p)))
          (pure-Confined ptr));
    promotes = λ s. from s (get_elem? s.ordinals gpu_idx) refl (page.element_size == 0);
  }
    where
      push : Chunk → Action (TieredPool W) ℕ
      push chunk = write_to name (λ p. after (with_chunk chunk p)) >> pure ptr

      made : ℕ → Bool → Action (TieredPool W) Chunk
      made ordinal b =
          if b
          then panic
          else pure (record {
            gpu_ordinal = ordinal;
            device_ptr = ptr;
            size_bytes = size;
            num_elements = size / page.element_size;
          })

      from :
          (s : TieredPool W) (o : Option ℕ)
          → get_elem? s.ordinals gpu_idx ≡ o
          → (b : Bool)
          → (let r = or_panic o s in
              let q = then_end (λ ordinal. made ordinal b) r.1 r.0 in
              Leaves (Resident name gpu_idx) (then_end push q.1 q.0))
      from s none e b = tt
      from s (some ordinal) e true = tt
      from s (some ordinal) e false = writing-Resident ptr _ ordinal s e (λ p found.
          let c : Chunk = record {
            gpu_ordinal = ordinal;
            device_ptr = ptr;
            size_bytes = size;
            num_elements = size / page.element_size;
          } in
          let kept = same (with_chunk c p) in
          (kept.0, subst (On ordinal ptr) (sym kept.1) (On-last ordinal p.vram_chunks c refl)))

module _ {W : Type 0} (cuda : Driver W) where
  -- The end of every promotion.
  pub install-Promotes :
      (name : String) (gpu_idx now ptr size : ℕ)
      → Promotes name gpu_idx (install cuda name gpu_idx now ptr size)
  unfolding install
  install-Promotes name gpu_idx now ptr size =
      bind-Promotes
        (then-Confined (write_to-Confined name (λ p. touch p now)) (known_page-Confined name))
        (λ page. pushed-Promotes name gpu_idx page ptr size (λ p. p) (λ p. (refl, refl)))

pub find_chunk-On :
    (ordinal : ℕ) (cs : List Chunk) (c : Chunk)
    → find_chunk true ordinal cs ≡ some c
    → On ordinal c.device_ptr cs
unfolding find_chunk
find_chunk-On ordinal [] c e = absurd (none-ne-some c e)
find_chunk-On ordinal (d ∷ cs) c e = elim (Bool-cases (d.gpu_ordinal == ordinal)) [
  | inl h ↦ (
    0,
    d,
    refl,
    ==→eq d.gpu_ordinal ordinal h,
    ap (λ (x : Chunk). x.device_ptr) (some-injective d c (rw h at e)),
  )
  | inr h ↦ On-cons ordinal c.device_ptr d cs (find_chunk-On ordinal cs c (rw h at e))
]
