-- ===== src/Tiered/Safe.antt =====
-- Actions that keep the host memory of the pages safe.
use Prim.Native.String.{String}
use vugva.Common.{◌≤◌, ◌^◌, ◌≡◌, refl, sym, subst, Option, none, some, List, [], ◌++◌}
use vugva.Error.{unknown_allocation}
use vugva.FreeList.{Block}
use vugva.Vmt.{Page, get}
use vugva.Action.{Outcome, done, failed, panicked, Action, or_raise, then_end, ◌>>=◌, ◌>>◌}
use vugva.Tiered.State.{TieredPool, page_of}
use vugva.Tiered.Backing.{backing, blocks, AllSmall, get-AllSmall}
use vugva.Tiered.Backed.{Backed, Backed-without}
use vugva.Tiered.Keeps.{SameHost, Keeps}

-- The blocks that the pages list, and the blocks `extra` in use besides, are lent, each to one holder; and no page is
-- larger than an allocation can be.
pub record HostSafe {W : Type 0} (extra : List Block) (s : TieredPool W) : Type 0 where
  pub backed : Backed s.dram_pools (extra ++ blocks (backing s.vmt.pages))
  pub small : AllSmall (backing s.vmt.pages)

pub SameHost-HostSafe :
    {W : Type 0} (extra : List Block) (s t : TieredPool W)
    → SameHost s t
    → HostSafe extra s
    → HostSafe extra t
SameHost-HostSafe extra s t (p, b) h = record {
  backed =
      subst (λ ps. Backed ps (extra ++ blocks (backing t.vmt.pages))) (sym p)
        (subst (λ l. Backed s.dram_pools (extra ++ blocks l)) (sym b) h.backed);
  small = subst AllSmall (sym b) h.small;
}

pub HostSafe-fewer :
    {W : Type 0} (extra : List Block) (s : TieredPool W) → HostSafe extra s → HostSafe [] s
HostSafe-fewer extra s h = record {
  backed = Backed-without s.dram_pools extra (blocks (backing s.vmt.pages)) h.backed;
  small = h.small;
}

pub record Safely {W A : Type 0} (m : Action (TieredPool W) A) : Type 0 where
  pub safe : (s : TieredPool W) → HostSafe [] s → HostSafe [] (m s).1

pub Keeps-Safely : {W A : Type 0} {m : Action (TieredPool W) A} → Keeps m → Safely m
Keeps-Safely {m = m} k = record { safe = λ s h. SameHost-HostSafe [] s (m s).1 (k.keeps s) h }

pub bind-Safely :
    {W A B : Type 0} {m : Action (TieredPool W) A} {f : A → Action (TieredPool W) B}
    → Safely m
    → ((a : A) → Safely (f a))
    → Safely (m >>= f)
bind-Safely {W} {A} {B} {m} {f} p q = record { safe = λ s h. from (m s) (p.safe s h) }
  where
    from : (r : Outcome A × TieredPool W) → HostSafe [] r.1 → HostSafe [] (then_end f r.1 r.0).1
    from (done a, t) h = (q a).safe t h
    from (failed e, t) h = h
    from (panicked, t) h = h

pub then-Safely :
    {W A B : Type 0} {m : Action (TieredPool W) A} {k : Action (TieredPool W) B}
    → Safely m
    → Safely k
    → Safely (m >> k)
then-Safely p q = bind-Safely p (λ _. q)

-- A page that is in the table has the size of an allocation.
pub page_of-Safely :
    {W A : Type 0} (name : String) {f : Page → Action (TieredPool W) A}
    → ((page : Page) → page.size_bytes ≤ 2 ^ 63 → Safely (f page))
    → Safely (page_of name >>= f)
page_of-Safely {W} {A} name {f} q = record { safe = λ s h. from s h (get name s.vmt.pages) refl }
  where
    from :
        (s : TieredPool W)
        → HostSafe [] s
        → (o : Option Page) → get name s.vmt.pages ≡ o
        → HostSafe []
            (then_end f
              (or_raise o (unknown_allocation name) s).1
              (or_raise o (unknown_allocation name) s).0).1
    from s h none e = h
    from s h (some page) e = (q page (get-AllSmall name page s.vmt.pages e h.small)).safe s h
