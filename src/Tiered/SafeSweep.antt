-- ===== src/Tiered/SafeSweep.antt =====
-- The sweeps of a pool keep the host memory of its pages safe.
use Prim.Native.String.{String}
use vugva.Common.{ℕ, Bool, true, false, Option, none, some, List, [], ◌∷◌, if◌then◌else◌}
use vugva.Membrane.{Float, plan}
use vugva.Vmt.{get}
use vugva.Action.{Outcome, done, failed, panicked, Action, pure, ignore, then_end, ◌>>◌}
use vugva.Driver.{Driver}
use vugva.Tiered.State.{TieredPool}
use vugva.Tiered.Demote.{demote, promote_all, to_demote, to_promote, idle_sweep}
use vugva.Tiered.Promote.{access}
use vugva.Tiered.Sweep.{
  SweptPool, on_pool, resident_or, evict_one, evict_all, keep_all, decay_rates, membrane_of,
  candidates, planned_sweep, membrane_sweep, background_sweep,
}
use vugva.Tiered.Keeps.{pure-Keeps, gets-Keeps, within-Keeps}
use vugva.Tiered.Lowered.{demote-Keeps, demote_all-Keeps}
use vugva.Tiered.Safe.{HostSafe, Safely, Keeps-Safely, bind-Safely, then-Safely}
use vugva.Tiered.SafeAccess.{access-Safely}
use vugva.Action

promote_all-Safely :
    {W : Type 0} (cuda : Driver W) (names : List String) → Safely (promote_all cuda names)
unfolding promote_all
promote_all-Safely cuda [] = Keeps-Safely (pure-Keeps tt)
promote_all-Safely cuda (name ∷ names) =
    then-Safely (access-Safely cuda name 0) (promote_all-Safely cuda names)

pub idle_sweep-Safely : {W : Type 0} (cuda : Driver W) → Safely (idle_sweep cuda)
unfolding idle_sweep
idle_sweep-Safely cuda = bind-Safely (Keeps-Safely (within-Keeps (Action.ask cuda.now_ns))) (λ now.
    bind-Safely (Keeps-Safely (gets-Keeps (λ s. to_demote now s.idle_threshold_ns s.vmt.pages)))
      (λ idle.
        bind-Safely (Keeps-Safely (gets-Keeps (λ s. to_promote s.hot_threshold s.vmt.pages)))
          (λ hot.
            then-Safely (Keeps-Safely (demote_all-Keeps cuda idle)) (promote_all-Safely cuda hot))))

-- An action on a pool with its membrane that keeps the host memory safe.
pub record Sweeps {F W A : Type 0} (m : Action (SweptPool F W) A) : Type 0 where
  pub safe : (s : SweptPool F W) → HostSafe [] s.pool → HostSafe [] (m s).1.pool

pub on_pool-Sweeps :
    {F W A : Type 0} {m : Action (TieredPool W) A} → Safely m → Sweeps {F = F} (on_pool m)
on_pool-Sweeps p = record { safe = λ s h. p.safe s.pool h }

then-Sweeps :
    {F W A B : Type 0} {m : Action (SweptPool F W) A} {k : Action (SweptPool F W) B}
    → Sweeps m
    → Sweeps k
    → Sweeps (m >> k)
then-Sweeps {F} {W} {A} {B} {m} {k} p q = record { safe = λ s h. from (m s) (p.safe s h) }
  where
    from :
        (r : Outcome A × SweptPool F W)
        → HostSafe [] r.1.pool
        → HostSafe [] (then_end (λ _. k) r.1 r.0).1.pool
    from (done a, t) h = q.safe t h
    from (failed e, t) h = h
    from (panicked, t) h = h

ignore-Safely : {W A : Type 0} {m : Action (TieredPool W) A} → Safely m → Safely (ignore m)
ignore-Safely {W} {A} {m} p = record { safe = λ s h. from (m s) (p.safe s h) }
  where
    from :
        (r : Outcome A × TieredPool W)
        → HostSafe [] r.1
        → HostSafe [] (ignore {S = TieredPool W} (λ _. r) r.1).1
    from (done a, t) h = h
    from (failed e, t) h = h
    from (panicked, t) h = h

module _ {F W : Type 0} (cuda : Driver W) where
  evict_one-Sweeps : (name : String) → Sweeps {F = F} (evict_one cuda name)
  evict_one-Sweeps name = record {
    safe = λ s h. from s h (resident_or (get name s.pool.vmt.pages) false);
  }
    where
      from :
          (s : SweptPool F W)
          → HostSafe [] s.pool
          → (b : Bool) → HostSafe [] ((if b then on_pool (demote cuda name) else pure tt) s).1.pool
      from s h true = (Keeps-Safely (demote-Keeps cuda name)).safe s.pool h
      from s h false = h

  evict_all-Sweeps : (names : List String) → Sweeps {F = F} (evict_all cuda names)
  unfolding evict_all
  evict_all-Sweeps [] = record { safe = λ s h. h }
  evict_all-Sweeps (name ∷ names) = then-Sweeps (evict_one-Sweeps name) (evict_all-Sweeps names)

  keep_one-Sweeps :
      (name : String)
      → Sweeps {F = F} {W = W} (λ s.
        (if resident_or (get name s.pool.vmt.pages) true
            then pure tt
            else on_pool (ignore (access cuda name 0)))
          s)
  keep_one-Sweeps name = record {
    safe = λ s h. from s h (resident_or (get name s.pool.vmt.pages) true);
  }
    where
      from :
          (s : SweptPool F W)
          → HostSafe [] s.pool
          → (b : Bool)
          → HostSafe [] ((if b then pure tt else on_pool (ignore (access cuda name 0))) s).1.pool
      from s h true = h
      from s h false = (ignore-Safely (access-Safely cuda name 0)).safe s.pool h

  keep_all-Sweeps : (names : List String) → Sweeps {F = F} (keep_all cuda names)
  unfolding keep_all
  keep_all-Sweeps [] = record { safe = λ s h. h }
  keep_all-Sweeps (name ∷ names) = then-Sweeps (keep_one-Sweeps name) (keep_all-Sweeps names)

module _ {F W : Type 0} (float : Float F) (cuda : Driver W) where
  decayed : (s : SweptPool F W) → HostSafe [] s.pool → HostSafe [] (decay_rates float cuda s).pool
  unfolding decay_rates
  decayed s h = record { backed = h.backed; small = h.small }

  planned_sweep-Sweeps : (budget : ℕ) → Sweeps (planned_sweep float cuda budget)
  unfolding planned_sweep
  planned_sweep-Sweeps budget = record {
    safe = λ s h.
        let t = decay_rates float cuda s in
        let (keep, evict) =
          plan float t.policy (candidates float cuda (membrane_of float cuda t) t.pool.vmt.pages)
            budget in
        (then-Sweeps (evict_all-Sweeps cuda evict) (keep_all-Sweeps cuda keep)).safe t
          (decayed s h);
  }

  -- `background_sweep` keeps the host memory safe, with a membrane and without one.
  pub background_sweep-Sweeps : Sweeps (background_sweep float cuda)
  unfolding background_sweep membrane_sweep
  background_sweep-Sweeps = record { safe = λ s h. from s h s.pool.membrane_budget }
    where
      swept :
          (s : SweptPool F W)
          → HostSafe [] s.pool
          → (o : Option ℕ)
          → HostSafe []
              (elim o as (λ _. Outcome (Unit {0}) × SweptPool F W) [
                | none ↦ (done tt, s)
                | some budget ↦ planned_sweep float cuda budget s
              ]).1.pool
      swept s h none = h
      swept s h (some budget) = (planned_sweep-Sweeps budget).safe s h

      from :
          (s : SweptPool F W)
          → HostSafe [] s.pool
          → (o : Option ℕ)
          → HostSafe []
              (elim o as (λ _. Outcome (Unit {0}) × SweptPool F W) [
                | some _ ↦ membrane_sweep float cuda s
                | none ↦ on_pool (idle_sweep cuda) s
              ]).1.pool
      from s h none = (idle_sweep-Safely cuda).safe s.pool h
      from s h (some _) = swept s h s.pool.membrane_budget
