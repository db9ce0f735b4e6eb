-- ===== src/Tiered/Moved.antt =====
-- What the names of the table stand for after a demotion and after a deallocation.
use Prim.Native.String.{String}
use vugva.Common.{◌≡◌, ◌≢◌, sym, ap, ◌∙◌, subst, false, none, some, []}
use vugva.Error.{warm}
use vugva.Vmt.{vram, dram, Page, VirtualMemoryTable, get, put, drop, update, remove}
use vugva.Vmt.Table.{
  Keyed, get-put_self, get-put_ne, get-drop_self, get-drop_ne, drop-Keyed, update_present,
}
use vugva.Action.{Outcome, done, failed, panicked}
use vugva.Driver.{Driver}
use vugva.Tiered.State.{TieredPool}
use vugva.Tiered.Allocate.{deallocate}
use vugva.Tiered.Demote.{demoted, demote}
use vugva.Tiered.Demotion.{Demoted, demote-Demoted, Deallocated, deallocate-Deallocated}

-- What `name` and another name stand for after a demotion: if it went through, the page is in DRAM, warm and without
-- device chunks, and else as before; the other page is as it was.
abbrev pub InDram :
    {W : Type 0}
    → String
    → Page
    → String
    → TieredPool W
    → Outcome (Unit {0}) × TieredPool W
    → Type 0
InDram name page i s (done _, s') =
    (get name s'.vmt.pages ≡ some (record page { tier = dram; state = warm; vram_chunks = [] }))
    × (get i s'.vmt.pages ≡ get i s.vmt.pages)
InDram name page i s (failed _, s') = s'.vmt ≡ s.vmt
InDram name page i s (panicked, s') = s'.vmt ≡ s.vmt

-- A demotion of an unpinned page in VRAM that goes through moves exactly that page to DRAM, warm and without
-- device chunks; if it fails, for whatever reason and after however many chunks, no page is changed.
pub demote-InDram :
    {W : Type 0} (cuda : Driver W) (name : String) (page : Page) (s : TieredPool W) (i : String)
    → get name s.vmt.pages ≡ some page
    → page.tier ≡ vram
    → page.pinned ≡ false
    → name ≢ i
    → InDram name page i s (demote cuda name s)
unfolding demoted
demote-InDram {W} cuda name page s i h hot unpinned ne =
    from (demote cuda name s) (demote-Demoted cuda name page s h hot unpinned)
  where
    table :
        (t : VirtualMemoryTable)
        → t ≡ update s.vmt name demoted
        → t ≡ record s.vmt { pages = put name (demoted page) s.vmt.pages }
    table t e = e ∙ update_present s.vmt name demoted page h

    from : (r : Outcome (Unit {0}) × TieredPool W) → Demoted name s.vmt r → InDram name page i s r
    from (done u, t) e =
        let pages = ap (λ (v : VirtualMemoryTable). v.pages) (table t.vmt e) in
        (
          ap (get name) pages ∙ get-put_self name (demoted page) s.vmt.pages,
          ap (get i) pages ∙ get-put_ne name i (demoted page) s.vmt.pages ne,
        )
    from (failed x, t) e = e
    from (panicked, t) e = e

-- What `name` and another name stand for after a deallocation, in a table with unique names, and what the pools have.
abbrev pub Gone :
    {W : Type 0} → String → String → TieredPool W → Outcome (Unit {0}) × TieredPool W → Type 0
Gone name i s (done _, s') =
    (get name s'.vmt.pages ≡ none) × (get i s'.vmt.pages ≡ get i s.vmt.pages) × Keyed s'.vmt.pages
Gone name i s (failed _, s') = s'.vmt ≡ s.vmt
Gone name i s (panicked, s') = s'.vmt ≡ s.vmt

-- In a table with unique names, a deallocation that goes through takes the page out of the table and leaves every
-- other page and the names unique; one that fails leaves the table as it is.
pub deallocate-Gone :
    {W : Type 0} (name : String) (page : Page) (s : TieredPool W) (i : String)
    → get name s.vmt.pages ≡ some page
    → Keyed s.vmt.pages
    → name ≢ i
    → Gone name i s (deallocate name s)
unfolding remove
deallocate-Gone {W} name page s i h keyed ne =
    from (deallocate name s) (deallocate-Deallocated name page s h)
  where
    from : (r : Outcome (Unit {0}) × TieredPool W) → Deallocated name s r → Gone name i s r
    from (done u, t) e =
        let pages : t.vmt.pages ≡ drop name s.vmt.pages =
          ap (λ (v : VirtualMemoryTable). v.pages) e in
        (
          ap (get name) pages ∙ get-drop_self name s.vmt.pages keyed,
          ap (get i) pages ∙ get-drop_ne name i s.vmt.pages ne,
          subst Keyed (sym pages) (drop-Keyed name s.vmt.pages keyed),
        )
    from (failed x, t) e = e
    from (panicked, t) e = e
