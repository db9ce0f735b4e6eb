-- ===== src/Tiered/Keeps.antt =====
-- Actions that leave the host memory alone: the pools, and the sizes and DRAM chunks of all pages, however they end.
use Prim.Native.String.{String}
use vugva.Common.{
  ℕ, ◌≡◌, refl, sym, ap, ◌∙◌, Bool, true, false, Option, none, some, List, if◌then◌else◌, get_elem?,
  inl, inr, Option-cases, ◌⊎◌, subst,
}
use vugva.Error.{VugvaError, Result, ok, err}
use vugva.Dma.{DmaEngine}
use vugva.Vmt.{Page, VirtualMemoryTable, get, update}
use vugva.Vmt.Table.{update_present}
use vugva.Action.{
  Outcome, done, failed, panicked, Action, pure, raise, panic, gets, or_raise, or_panic, lift,
  attempt, ignore, then_end, ◌>>=◌, ◌>>◌,
}
use vugva.Tiered.State.{TieredPool, within, submit, write_to, handle, known_page}
use vugva.Tiered.Backing.{backing, put-backing}

-- The host memory of a state.
abbrev pub SameHost : {W : Type 0} → TieredPool W → TieredPool W → Type 0
SameHost s t = (t.dram_pools ≡ s.dram_pools) × (backing t.vmt.pages ≡ backing s.vmt.pages)

pub record Keeps {W A : Type 0} (m : Action (TieredPool W) A) : Type 0 where
  pub keeps : (s : TieredPool W) → SameHost s (m s).1

module _ {W A : Type 0} where
  pub pure-Keeps : (a : A) → Keeps {W = W} (pure a)
  pure-Keeps a = record { keeps = λ s. (refl, refl) }

  pub raise-Keeps : (e : VugvaError) → Keeps {W = W} {A = A} (raise e)
  raise-Keeps e = record { keeps = λ s. (refl, refl) }

  pub panic-Keeps : Keeps {W = W} {A = A} panic
  panic-Keeps = record { keeps = λ s. (refl, refl) }

  pub gets-Keeps : (f : TieredPool W → A) → Keeps (gets f)
  gets-Keeps f = record { keeps = λ s. (refl, refl) }

  pub within-Keeps : (m : Action W A) → Keeps (within m)
  within-Keeps m = record { keeps = λ s. (refl, refl) }

  pub or_raise-Keeps : (o : Option A) (e : VugvaError) → Keeps {W = W} (or_raise o e)
  or_raise-Keeps none e = record { keeps = λ s. (refl, refl) }
  or_raise-Keeps (some a) e = record { keeps = λ s. (refl, refl) }

  pub or_panic-Keeps : (o : Option A) → Keeps {W = W} (or_panic o)
  or_panic-Keeps none = record { keeps = λ s. (refl, refl) }
  or_panic-Keeps (some a) = record { keeps = λ s. (refl, refl) }

  pub lift-Keeps : (r : Result A) → Keeps {W = W} (lift r)
  lift-Keeps (ok a) = record { keeps = λ s. (refl, refl) }
  lift-Keeps (err e) = record { keeps = λ s. (refl, refl) }

  pub if-Keeps :
      {m k : Action (TieredPool W) A} (b : Bool) → Keeps m → Keeps k → Keeps (if b then m else k)
  if-Keeps true p q = p
  if-Keeps false p q = q

  pub bind-Keeps :
      {B : Type 0} {m : Action (TieredPool W) A} {f : A → Action (TieredPool W) B}
      → Keeps m
      → ((a : A) → Keeps (f a))
      → Keeps (m >>= f)
  bind-Keeps {B} {m} {f} p q = record { keeps = λ s. from s (m s) (p.keeps s) }
    where
      from :
          (s : TieredPool W) (r : Outcome A × TieredPool W)
          → SameHost s r.1
          → SameHost s (then_end f r.1 r.0).1
      from s (done a, t) (x, y) = let (x', y') = (q a).keeps t in (x' ∙ x, y' ∙ y)
      from s (failed e, t) h = h
      from s (panicked, t) h = h

  pub attempt-Keeps : {m : Action (TieredPool W) A} → Keeps m → Keeps (attempt m)
  attempt-Keeps {m} p = record { keeps = λ s. from s (m s) (p.keeps s) }
    where
      from :
          (s : TieredPool W) (r : Outcome A × TieredPool W)
          → SameHost s r.1
          → SameHost s
              (elim r.0 as (λ _. Outcome (Option VugvaError) × TieredPool W) [
                | done _ ↦ (done none, r.1)
                | failed e ↦ (done (some e), r.1)
                | panicked ↦ (panicked, r.1)
              ]).1
      from s (done a, t) h = h
      from s (failed e, t) h = h
      from s (panicked, t) h = h

pub then-Keeps :
    {W A B : Type 0} {m : Action (TieredPool W) A} {k : Action (TieredPool W) B}
    → Keeps m
    → Keeps k
    → Keeps (m >> k)
then-Keeps p q = bind-Keeps p (λ _. q)

pub ignore-Keeps : {W A : Type 0} {m : Action (TieredPool W) A} → Keeps m → Keeps (ignore m)
ignore-Keeps p = then-Keeps (attempt-Keeps p) (pure-Keeps tt)

pub submit-Keeps : {W : Type 0} (f : DmaEngine → Result ℕ × DmaEngine) → Keeps {W = W} (submit f)
submit-Keeps {W = W} f = record { keeps = λ s. from s (f s.dma) }
  where
    from :
        (s : TieredPool W) (r : Result ℕ × DmaEngine)
        → SameHost s (lift r.0 (record s { dma = r.1 })).1
    from s (ok a, e) = (refl, refl)
    from s (err x, e) = (refl, refl)

pub write_to_found :
    {W : Type 0} (name : String) (f : Page → Page) (p : Page) (s : TieredPool W)
    → get name s.vmt.pages ≡ some p
    → write_to name f s ≡ (done tt, record s { vmt = update s.vmt name f })
write_to_found name f p s e = rw (e, write_to) refl

pub write_to_missing :
    {W : Type 0} (name : String) (f : Page → Page) (s : TieredPool W)
    → get name s.vmt.pages ≡ none
    → write_to name f s ≡ (panicked, s)
write_to_missing name f s e = rw (e, write_to) refl

-- What is written to a page and leaves its size and its chunks.
pub write_to-Keeps :
    {W : Type 0} (name : String) (f : Page → Page)
    → ((p : Page) → ((f p).size_bytes ≡ p.size_bytes) × ((f p).dram_chunks ≡ p.dram_chunks))
    → Keeps {W = W} (write_to name f)
write_to-Keeps {W} name f h = record { keeps = λ s. from s (Option-cases (get name s.vmt.pages)) }
  where
    from :
        (s : TieredPool W)
        → (get name s.vmt.pages ≡ none) ⊎ ((p : Page) × (get name s.vmt.pages ≡ some p))
        → SameHost s (write_to name f s).1
    from s (inl e) =
        subst (λ (r : Outcome (Unit {0}) × TieredPool W). SameHost s r.1)
          (sym (write_to_missing name f s e)) (refl, refl)
    from s (inr (p, e)) =
        subst (λ (r : Outcome (Unit {0}) × TieredPool W). SameHost s r.1)
          (sym (write_to_found name f p s e))
          (
            refl,
            ap (λ (t : VirtualMemoryTable). backing t.pages) (update_present s.vmt name f p e)
                ∙ put-backing name p (f p) s.vmt.pages e (h p).0 (h p).1,
          )

pub handle-Keeps : {W : Type 0} (field : TieredPool W → List ℕ) (i : ℕ) → Keeps (handle field i)
handle-Keeps field i = bind-Keeps (gets-Keeps (λ s. get_elem? (field s) i)) or_panic-Keeps

pub known_page-Keeps : {W : Type 0} (name : String) → Keeps {W = W} (known_page name)
known_page-Keeps name = bind-Keeps (gets-Keeps (λ s. get name s.vmt.pages)) or_panic-Keeps
