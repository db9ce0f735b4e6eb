-- ===== src/Tiered/Provided.antt =====
-- What an allocation of `TieredPool` that goes through has registered.
use Prim.Native.String.{String, ◌++◌ as str_append}
use vugva.Common.{
  ◌/◌, ◌%◌, ℕ, suc, ◌==◌, ◌≡◌, refl, sym, ap, ◌∙◌, subst, false, Option, none, some, List, [], ◌∷◌,
  ◌++◌, length, arith,
}
use vugva.Error.{Result, ok, err, cold, unknown_allocation}
use vugva.Range
use vugva.Range.{RangeAllocator}
use vugva.Pool.{DramPool}
use vugva.Vmt
use vugva.Vmt.{
  Tier, vram, dram, ssd, Page, VirtualMemoryTable, get, update, tensor_bytes, new_page,
  allocated_page,
}
use vugva.Vmt.Table.{get-put_self, update_present}
use vugva.Action.{Outcome, done, failed, panicked, pure, raise, panic, lift, then_end, ◌>>=◌, ◌>>◌}
use vugva.Action.Ends.{Leaves}
use vugva.Tiered.State.{TieredPool, write_to}
use vugva.Tiered.Allocate.{initial_state, allocate_cold, allocate_backed, allocate}
use vugva.Tiered.Split.{split, sum_sizes, place-covers, Lodged, place-Lodged}
use vugva.Tiered.Keeps.{write_to_found}
use vugva.Tiered.SafePages.{registered_page}

-- The page records the range that the allocator of the spill file grants for its size; no pool is touched.
pub record Reserved {W : Type 0} (pools : List DramPool) (spill : Option RangeAllocator)
    (s : TieredPool W) (page : Page) : Type 0 where
  pub file : RangeAllocator
  pub file_after : RangeAllocator
  pub offset : ℕ
  pub attached : spill ≡ some file
  pub granted : Range.allocate file page.size_bytes ≡ (ok offset, file_after)
  pub spill_after : s.spill ≡ some file_after
  pub recorded : page.ssd_offset ≡ some offset
  pub pools_kept : s.dram_pools ≡ pools

-- What a page has taken between two states: a range of the spill file, or a chunk of each pool, all of them together of
-- the page's size.
abbrev pub Content :
    {W : Type 0} → Tier → List DramPool → Option RangeAllocator → TieredPool W → Page → Type 0
Content ssd pools spill s page = Reserved pools spill s page
Content vram pools spill s page =
    Lodged pools page.dram_chunks s.dram_pools × (sum_sizes page.dram_chunks ≡ page.size_bytes)
Content dram pools spill s page =
    Lodged pools page.dram_chunks s.dram_pools × (sum_sizes page.dram_chunks ≡ page.size_bytes)

-- The table has a page of that name as a tensor of the shape wants it, with what it has taken of these pools and
-- of this allocator of the spill file.
pub record Provided {W : Type 0} (shape : List ℕ) (element_size : ℕ) (tier : Tier)
    (pools : List DramPool) (spill : Option RangeAllocator) (name : String) (s : TieredPool W)
    : Type 0 where
  pub page : Page
  pub found : get name s.vmt.pages ≡ some page
  pub sized : page.size_bytes ≡ tensor_bytes shape element_size
  pub in_tier : page.tier ≡ tier
  pub in_state : page.state ≡ initial_state tier
  pub content : Content tier pools spill s page

suc_ne_zero : (n : ℕ) → (suc n == 0) ≡ false
suc_ne_zero n = ground arith

module _ {W : Type 0} (name : String) where
  -- The table after a page is written.
  abbrev written : (Page → Page) → TieredPool W → TieredPool W
  written f s = record s { vmt = update s.vmt name f }

  get-written :
      (f : Page → Page) (p : Page) (s : TieredPool W)
      → get name s.vmt.pages ≡ some p
      → get name (written f s).vmt.pages ≡ some (f p)
  get-written f p s e =
      ap (λ (t : VirtualMemoryTable). get name t.pages) (update_present s.vmt name f p e)
      ∙ get-put_self name (f p) s.vmt.pages

  -- The last write of an allocation, and its answer.
  last_write :
      (Q : String → TieredPool W → Type 0) (f : Page → Page) (p : Page) (s : TieredPool W)
      → get name s.vmt.pages ≡ some p
      → Q name (written f s)
      → Leaves Q ((write_to name f >> pure name) s)
  last_write Q f p s e h =
      subst
        (λ (r : Outcome (Unit {0}) × TieredPool W). Leaves Q (then_end (λ _. pure name) r.1 r.0))
        (sym (write_to_found name f p s e)) h

  panics-Leaves :
      (Q : String → TieredPool W → Type 0) (r : Outcome (Unit {0}) × TieredPool W)
      → Leaves Q (then_end (λ _. panic) r.1 r.0)
  panics-Leaves Q (done a, t) = tt
  panics-Leaves Q (failed e, t) = tt
  panics-Leaves Q (panicked, t) = tt

  module _ (shape : List ℕ) (element_size : ℕ) where
    allocate_cold-Provided :
        (s : TieredPool W)
        → get name s.vmt.pages ≡ some (allocated_page name shape element_size)
        → Leaves
            (Provided shape element_size ssd s.dram_pools s.spill)
            (allocate_cold name (tensor_bytes shape element_size) s)
    unfolding allocate_cold initial_state allocated_page new_page
    allocate_cold-Provided s e = from s.spill refl
      where
        total : ℕ
        total = tensor_bytes shape element_size

        page : Page
        page = allocated_page name shape element_size

        reserved :
            (file file' : RangeAllocator) (r : Result ℕ)
            → s.spill ≡ some file
            → Range.allocate file total ≡ (r, file')
            → Leaves (Provided shape element_size ssd s.dram_pools s.spill) (
                then_end
                  (λ offset.
                    write_to name
                      (λ p. record p { tier = ssd; state = cold; ssd_offset = some offset })
                    >> pure name)
                  (lift r (record s { spill = some file' })).1
                  (lift r (record s { spill = some file' })).0)
        reserved file file' (err x) at grant = tt
        reserved file file' (ok offset) at grant =
            let f = λ (p : Page). record p { tier = ssd; state = cold; ssd_offset = some offset } in
            let t : TieredPool W = record s { spill = some file' } in
            last_write (Provided shape element_size ssd s.dram_pools s.spill) f page t e (record {
              page = f page;
              found = get-written f page t e;
              sized = refl;
              in_tier = refl;
              in_state = refl;
              content = record {
                file = file;
                file_after = file';
                offset = offset;
                attached = at;
                granted = grant;
                spill_after = refl;
                recorded = refl;
                pools_kept = refl;
              };
            })

        from :
            (o : Option RangeAllocator)
            → s.spill ≡ o
            → Leaves
                (Provided shape element_size ssd s.dram_pools s.spill)
                (elim o as (λ _. Outcome String × TieredPool W) [
                  | none ↦
                      raise
                        (unknown_allocation (
                          str_append name
                            ": Tier::Ssd requires a spill file — call TieredPool::attach_spill first"))
                        s
                  | some file ↦
                      (lift (Range.allocate file total).0 >>= λ offset.
                      write_to name
                        (λ p. record p { tier = ssd; state = cold; ssd_offset = some offset })
                      >> pure name)
                        (record s { spill = some (Range.allocate file total).1 })
                ])
        from none at = tt
        from (some file) at =
            reserved file (Range.allocate file total).1 (Range.allocate file total).0 at refl

    -- What follows the filling of the page.
    abbrev ended :
        Tier → Result (Unit {0}) → Outcome (Unit {0}) × TieredPool W → Outcome String × TieredPool W
    ended tier res r =
        let r1 = then_end (λ _. lift res) r.1 r.0 in
        let r2 =
          then_end (λ _. write_to name (λ p. record p { state = initial_state tier })) r1.1 r1.0 in
        then_end (λ _. pure name) r2.1 r2.0

    -- After the loop over the pools: an error of a pool ends the call, else the page gets its state.
    placed_end :
        (tier : Tier) (pools : List DramPool) (spill : Option RangeAllocator) (q : Page)
        (res : Result (Unit {0})) (s : TieredPool W)
        → get name s.vmt.pages ≡ some q
        → q.size_bytes ≡ tensor_bytes shape element_size
        → q.tier ≡ tier
        → (res ≡ ok tt
            → let f = λ (p : Page). record p { state = initial_state tier } in
              Content tier pools spill (written f s) (f q))
        → Leaves (Provided shape element_size tier pools spill) (ended tier res (done tt, s))
    placed_end tier pools spill q (err x) s e sized in_tier content = tt
    placed_end tier pools spill q (ok tt) s e sized in_tier content =
        let f = λ (p : Page). record p { state = initial_state tier } in
        last_write (Provided shape element_size tier pools spill) f q s e (record {
          page = f q;
          found = get-written f q s e;
          sized = sized;
          in_tier = in_tier;
          in_state = refl;
          content = content refl;
        })

    allocate_backed-Provided :
        (tier : Tier) (s : TieredPool W) (pools : List DramPool)
        → s.dram_pools ≡ pools
        → get name s.vmt.pages ≡ some (allocated_page name shape element_size)
        → ((t : TieredPool W) (q : Page)
            → Lodged s.dram_pools q.dram_chunks t.dram_pools
              × (sum_sizes q.dram_chunks ≡ q.size_bytes)
            → Content tier s.dram_pools s.spill t q)
        → Leaves
            (Provided shape element_size tier s.dram_pools s.spill)
            (allocate_backed name (tensor_bytes shape element_size) tier s)
    unfolding allocate_backed allocated_page new_page
    allocate_backed-Provided tier s [] same e content =
        rw (ap (λ (l : List DramPool). length l == 0) same) (
          panics-Leaves (Provided shape element_size tier s.dram_pools s.spill)
            (write_to name (λ p. record p { tier = tier }) s))
    allocate_backed-Provided tier s (p ∷ ps) same e content =
        let total = tensor_bytes shape element_size in
        let r = split total s.dram_pools in
        let s1 : TieredPool W = record s { dram_pools = r.1 } in
        let fill = λ (x : Page). record x { tier = tier; dram_chunks = x.dram_chunks ++ r.2 } in
        let page = allocated_page name shape element_size in
        let covers : r.0 ≡ ok tt → sum_sizes r.2 ≡ total =
          subst
            (λ (l : List DramPool). (split total l).0 ≡ ok tt → sum_sizes (split total l).2 ≡ total)
            (sym same) (λ h. (place-covers total p ps h).1) in
        let f = λ (x : Page). record x { state = initial_state tier } in
        let some_there : (length s.dram_pools == 0) ≡ false =
          ap (λ (l : List DramPool). length l == 0) same ∙ suc_ne_zero (length ps) in
        rw some_there (
          subst
            (λ (x : Outcome (Unit {0}) × TieredPool W).
              Leaves (Provided shape element_size tier s.dram_pools s.spill) (ended tier r.0 x))
            (sym (write_to_found name fill page s1 e))
            (placed_end tier s.dram_pools s.spill (fill page) r.0 (written fill s1)
              (get-written fill page s1 e) refl refl
              (λ h. content (written f (written fill s1)) (f (fill page)) (
                place-Lodged (total / length s.dram_pools) (total % length s.dram_pools)
                    s.dram_pools h,
                covers h,
              ))))

-- An allocation that goes through has registered a page of the tensor's size in the tier asked for, in that tier's
-- first state: a page of the spill tier records the range that the allocator of the file grants for its size, and any
-- other has, for each pool in turn, the chunk that this pool grants, on that pool's node, and nothing else is taken of
-- any pool; all chunks together have exactly the tensor's bytes.
pub allocate-Provided :
    {W : Type 0} (name : String) (shape : List ℕ) (element_size : ℕ) (tier : Tier)
    (s : TieredPool W)
    → Leaves
        (Provided shape element_size tier s.dram_pools s.spill)
        (allocate name shape element_size tier s)
unfolding allocate
allocate-Provided {W} name shape element_size tier s = from tier
  where
    key : String
    key = (Vmt.allocate s.vmt name shape element_size).0

    start : TieredPool W
    start = record s { vmt = (Vmt.allocate s.vmt name shape element_size).1 }

    from :
        (t : Tier)
        → Leaves
            (Provided shape element_size t s.dram_pools s.spill)
            (elim t as (λ _. Outcome String × TieredPool W) [
              | ssd ↦ allocate_cold key (tensor_bytes shape element_size) start
              | vram ↦ allocate_backed key (tensor_bytes shape element_size) vram start
              | dram ↦ allocate_backed key (tensor_bytes shape element_size) dram start
            ])
    from ssd =
        allocate_cold-Provided key shape element_size start
          (registered_page s.vmt name shape element_size)
    from vram =
        allocate_backed-Provided key shape element_size vram start s.dram_pools refl
          (registered_page s.vmt name shape element_size) (λ t q h. h)
    from dram =
        allocate_backed-Provided key shape element_size dram start s.dram_pools refl
          (registered_page s.vmt name shape element_size) (λ t q h. h)
