-- ===== src/Tiered/SafePages.antt =====
-- Pages that are registered and filled keep the host memory of the others safe.
use Prim.Native.String.{String}
use vugva.Common.{ℕ, ◌≤◌, ◌^◌, ◌≡◌, refl, sym, ap, ◌∙◌, subst, some, List, [], ◌++◌}
use vugva.Vmt
use vugva.Vmt.{
  Tier, vram, dram, ssd, DramChunk, Page, get, put, drop, update, remove, tensor_bytes, new_page,
  allocated_page, VirtualMemoryTable,
}
use vugva.Vmt.Table.{get-put_self, update_present}
use vugva.Tiered.State.{TieredPool}
use vugva.Tiered.Backing.{backing, blocks, put-Replaced, put-AllSmall, get-AllSmall, old_blocks}
use vugva.Tiered.Backed.{Backed, Backed-front, Backed-without, blocks_of}
use vugva.Tiered.Safe.{HostSafe}

pub registered_page :
    (t : VirtualMemoryTable) (name : String) (shape : List ℕ) (element_size : ℕ)
    → get
        (Vmt.allocate t name shape element_size).0
        (Vmt.allocate t name shape element_size).1.pages
      ≡ some (allocated_page (Vmt.allocate t name shape element_size).0 shape element_size)
unfolding Vmt.allocate
registered_page t name shape element_size =
    get-put_self (Vmt.allocate t name shape element_size).0
      (allocated_page (Vmt.allocate t name shape element_size).0 shape element_size) t.pages

pub fresh_page :
    (name : String) (shape : List ℕ) (element_size : ℕ)
    → (allocated_page name shape element_size).dram_chunks ≡ []
unfolding allocated_page new_page
fresh_page name shape element_size = refl

-- Registration takes the blocks of a page of the same name out of the table.
pub register-HostSafe :
    {W : Type 0} (name : String) (shape : List ℕ) (element_size : ℕ) (s : TieredPool W)
    → HostSafe [] s
    → tensor_bytes shape element_size ≤ 2 ^ 63
    → HostSafe [] (record s { vmt = (Vmt.allocate s.vmt name shape element_size).1 })
unfolding Vmt.allocate allocated_page new_page
register-HostSafe name shape element_size s h small =
    let key = (Vmt.allocate s.vmt name shape element_size).0 in
    let page = allocated_page key shape element_size in
    let r = put-Replaced key page s.vmt.pages in
    let old = old_blocks (get key s.vmt.pages) in
    record {
      backed = subst (Backed s.dram_pools) (sym r.after) (
          Backed-without s.dram_pools old (r.xs ++ r.ys) (
            Backed-front s.dram_pools r.xs old r.ys
              (subst (Backed s.dram_pools) r.before h.backed)));
      small = put-AllSmall key page s.vmt.pages small h.small;
    }

-- The chunks that were placed become those of a page that had none.
pub filled-HostSafe :
    {W : Type 0} (name : String) (p : Page) (tier : Tier) (cs : List DramChunk) (s : TieredPool W)
    → get name s.vmt.pages ≡ some p
    → p.dram_chunks ≡ []
    → HostSafe (blocks_of cs) s
    → HostSafe [] (record s {
      vmt = update s.vmt name (λ x. record x { tier = tier; dram_chunks = x.dram_chunks ++ cs });
    })
filled-HostSafe name p tier cs s e empty h =
    let q : Page = record p { tier = tier; dram_chunks = p.dram_chunks ++ cs } in
    let r = put-Replaced name q s.vmt.pages in
    let old = ap old_blocks e ∙ ap blocks_of empty in
    let new : blocks_of q.dram_chunks ≡ blocks_of cs = ap (λ l. blocks_of (l ++ cs)) empty in
    let before : blocks (backing s.vmt.pages) ≡ r.xs ++ r.ys =
      r.before ∙ ap (λ o. r.xs ++ (o ++ r.ys)) old in
    let after : blocks (backing (put name q s.vmt.pages)) ≡ r.xs ++ (blocks_of cs ++ r.ys) =
      r.after ∙ ap (λ o. r.xs ++ (o ++ r.ys)) new in
    let t =
      update_present s.vmt name (λ x. record x { tier = tier; dram_chunks = x.dram_chunks ++ cs }) p
        e in
    subst (λ v. HostSafe [] (record s { vmt = v })) (sym t)
      (record {
        backed = subst (Backed s.dram_pools) (sym after) (
            Backed-front s.dram_pools (blocks_of cs) r.xs r.ys
              (subst (λ l. Backed s.dram_pools (blocks_of cs ++ l)) before h.backed));
        small = put-AllSmall name q s.vmt.pages (get-AllSmall name p s.vmt.pages e h.small) h.small;
      })
