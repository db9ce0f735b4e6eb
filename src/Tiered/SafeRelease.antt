-- ===== src/Tiered/SafeRelease.antt =====
-- `TieredPool::deallocate` keeps the host memory of the other pages safe.
use Prim.Native.String.{String}
use vugva.Common.{◌≡◌, refl, sym, ap, ◌∙◌, subst, Option, none, some, [], ◌++◌}
use vugva.Error.{unknown_allocation}
use vugva.Vmt.{Page, VirtualMemoryTable, get, drop, remove}
use vugva.Action.{Outcome, done, failed, panicked, or_raise, modify, then_end, ◌>>◌}
use vugva.Tiered.State.{TieredPool}
use vugva.Tiered.Allocate.{release_blocks, return_chunks, deallocate}
use vugva.Tiered.Demotion.{release_blocks-Frames}
use vugva.Tiered.Backing.{backing, blocks, AllSmall, drop-Replaced, drop-AllSmall}
use vugva.Tiered.Backed.{Backed, Backed-front, blocks_of, return_chunks-Backed}
use vugva.Tiered.Lowered.{release_blocks-Keeps}
use vugva.Tiered.Safe.{HostSafe, Safely}

module _ {W : Type 0} (name : String) (page : Page) where
  abbrev forget_page : TieredPool W → TieredPool W
  forget_page s = record s {
    dram_pools = return_chunks page.dram_chunks s.dram_pools;
    vmt = (remove s.vmt name).1;
  }

  -- The chunks of a page that leaves the table go back to the pools.
  forgotten-HostSafe :
      (s : TieredPool W)
      → get name s.vmt.pages ≡ some page
      → HostSafe [] s
      → HostSafe [] (forget_page s)
  unfolding remove
  forgotten-HostSafe s e h =
      let r = drop-Replaced name page s.vmt.pages e in
      record {
        backed =
            return_chunks-Backed s.dram_pools page.dram_chunks
              (blocks (backing (drop name s.vmt.pages)))
              (subst (λ l. Backed s.dram_pools (blocks_of page.dram_chunks ++ l)) (sym r.after)
                (Backed-front s.dram_pools r.xs (blocks_of page.dram_chunks) r.ys
                  (subst (Backed s.dram_pools) r.before h.backed)));
        small = drop-AllSmall name s.vmt.pages h.small;
      }

  released-HostSafe :
      (s : TieredPool W) (r : Outcome (Unit {0}) × TieredPool W)
      → get name s.vmt.pages ≡ some page
      → r.1.dram_pools ≡ s.dram_pools
      → r.1.vmt ≡ s.vmt
      → HostSafe [] s
      → HostSafe [] (then_end (λ _. modify forget_page) r.1 r.0).1
  released-HostSafe s (r, t) e pools table h = from r
    where
      same : HostSafe [] t
      same = record {
        backed =
            subst (λ ps. Backed ps (blocks (backing t.vmt.pages))) (sym pools)
              (subst (λ (v : VirtualMemoryTable). Backed s.dram_pools (blocks (backing v.pages)))
                (sym table) h.backed);
        small = subst (λ (v : VirtualMemoryTable). AllSmall (backing v.pages)) (sym table) h.small;
      }

      from : (o : Outcome (Unit {0})) → HostSafe [] (then_end (λ _. modify forget_page) t o).1
      from (done u) =
          forgotten-HostSafe t (ap (λ (v : VirtualMemoryTable). get name v.pages) table ∙ e) same
      from (failed x) = same
      from panicked = same

-- `deallocate` keeps the host memory safe on every way that it can end.
pub deallocate-Safely : {W : Type 0} (name : String) → Safely {W = W} (deallocate name)
unfolding deallocate
deallocate-Safely {W} name = record { safe = λ s h. from s h (get name s.vmt.pages) refl }
  where
    from :
        (s : TieredPool W)
        → HostSafe [] s
        → (o : Option Page) → get name s.vmt.pages ≡ o
        → HostSafe []
            (then_end
              (λ page. release_blocks page.vram_chunks >> modify (forget_page name page))
              (or_raise o (unknown_allocation name) s).1
              (or_raise o (unknown_allocation name) s).0).1
    from s h none e = h
    from s h (some page) e =
        released-HostSafe name page s (release_blocks page.vram_chunks s) e
          ((release_blocks-Keeps page.vram_chunks).keeps s).0
          (release_blocks-Frames page.vram_chunks s) h
