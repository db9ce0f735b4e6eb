-- ===== src/Lookahead.antt =====
-- src/prefetch.rs: what is left of the look-ahead prefetcher.
use Prim.Native.String.{String}
use vugva.Common.{ℕ, List, [], ◌∷◌, length}
use vugva.Action.{done, failed, panicked, Action}
use vugva.Driver.{Driver}
use vugva.Streams.{CudaEvent, synchronize_event, drop_event}

pub record PrefetchJob : Type 0 where
  pub name : String
  pub event : CudaEvent
  pub dst_gpu : ℕ

pub record LookAheadPrefetcher : Type 0 where
  pub depth : ℕ
  pub inflight : List PrefetchJob

unfoldable pub new : ℕ → LookAheadPrefetcher
new depth = record { depth = depth; inflight = [] }

unfoldable pub inflight_count : LookAheadPrefetcher → ℕ
inflight_count p = length p.inflight

module _ {W : Type 0} (cuda : Driver W) where
  -- The jobs that a drain still holds are dropped with it.
  unfoldable pub drop_jobs : List PrefetchJob → W → W
  unfolding drop_event
  drop_jobs [] w = w
  drop_jobs (job ∷ jobs) w = drop_jobs jobs (drop_event cuda job.event w)

  -- The loop over the drained jobs. Each job is dropped at the end of its round.
  unfoldable pub sync_jobs : List PrefetchJob → Action W (Unit {0})
  unfolding synchronize_event drop_event drop_jobs
  sync_jobs [] w = (done tt, w)
  sync_jobs (job ∷ jobs) w =
      let (r, w') = synchronize_event cuda job.event w in
      let w'' = drop_event cuda job.event w' in
      elim r [
        | done _ ↦ sync_jobs jobs w''
        | failed e ↦ (failed e, drop_jobs jobs w'')
        | panicked ↦ (panicked, drop_jobs jobs w'')
      ]

  -- The vector is empty afterwards, whatever happens.
  unfoldable pub sync_all : Action (LookAheadPrefetcher × W) (Unit {0})
  unfolding sync_jobs
  sync_all (p, w) = let (r, w') = sync_jobs p.inflight w in (r, (record p { inflight = [] }, w'))
