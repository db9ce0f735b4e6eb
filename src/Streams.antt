-- ===== src/Streams.antt =====
-- src/streams.rs: streams, events, and the pool of two streams for each GPU.
pub mod Pool
mod Tests
use Prim.Native.String.{String}
use vugva.Common.{
  ℕ, zero, suc, ◌==◌, Bool, true, false, Option, none, some, List, [], ◌∷◌, ◌++◌, get_elem?,
  if◌then◌else◌, length,
}
use vugva.Action.{
  Outcome, done, failed, panicked, Action, pure, panic, ask, call, call_for, or_panic, ◌>>=◌, ◌>>◌,
}
use vugva.Driver.{Driver}
use vugva.Context.{PrimaryContext, guarded_at}

-- Handles are addresses; priorities are bit patterns of an `i32`.
pub record CudaStream : Type 0 where
  pub inner : ℕ
  pub priority : ℕ

pub record CudaEvent : Type 0 where
  pub inner : ℕ

abbrev pub cu_event_default : ℕ
cu_event_default = 0

abbrev pub cu_event_blocking_sync : ℕ
cu_event_blocking_sync = 1

-- The tests of a query's code. After the third, `unreachable!()`.
unfoldable pub answer : {W : Type 0} → String → ℕ → Action W Bool
answer fn_name res =
    if res == 0
    then pure true
    else if res == 900
    then pure false
    else (call fn_name (λ w. (res, w)) >> panic)

module _ {W : Type 0} (cuda : Driver W) where
  unfoldable pub new_stream : Action W CudaStream
  new_stream = call_for "cuStreamCreate" cuda.create_stream >>= λ s.
      pure (record { inner = s; priority = 0 })

  unfoldable pub with_priority : ℕ → Action W CudaStream
  with_priority priority =
      call_for "cuStreamCreateWithPriority" (cuda.create_stream_with_priority priority) >>= λ s.
      pure (record { inner = s; priority = priority })

  unfoldable pub synchronize : CudaStream → Action W (Unit {0})
  synchronize s = call "cuStreamSynchronize" (cuda.synchronize_stream s.inner)

  unfoldable pub query_complete : CudaStream → Action W Bool
  unfolding answer
  query_complete s = ask (cuda.query_stream s.inner) >>= answer "cuStreamQuery"

  -- The default stream is not destroyed.
  unfoldable pub drop_stream : CudaStream → W → W
  drop_stream s w = if s.inner == 0 then w else cuda.destroy_stream s.inner w

  unfoldable pub new_blocking : Action W CudaEvent
  new_blocking = call_for "cuEventCreate" (cuda.create_event cu_event_blocking_sync) >>= λ e.
      pure (record { inner = e })

  unfoldable pub new_default : Action W CudaEvent
  new_default = call_for "cuEventCreate" (cuda.create_event cu_event_default) >>= λ e.
      pure (record { inner = e })

  unfoldable pub record_on : CudaEvent → CudaStream → Action W (Unit {0})
  record_on e s = call "cuEventRecord" (cuda.record_event e.inner s.inner)

  unfoldable pub synchronize_event : CudaEvent → Action W (Unit {0})
  synchronize_event e = call "cuEventSynchronize" (cuda.synchronize_event e.inner)

  unfoldable pub query : CudaEvent → Action W Bool
  unfolding answer
  query e = ask (cuda.query_event e.inner) >>= answer "cuEventQuery"

  -- `cuEventElapsedTime(&mut ms, other.inner, self.inner)`: the bits of an `f32`.
  unfoldable pub elapsed : CudaEvent → CudaEvent → Action W ℕ
  elapsed e other = call_for "cuEventElapsedTime" (cuda.elapsed_time other.inner e.inner)

  unfoldable pub drop_event : CudaEvent → W → W
  drop_event e w = if e.inner == 0 then w else cuda.destroy_event e.inner w

pub record StreamPool : Type 0 where
  pub compute : List CudaStream
  pub prefetch : List CudaStream
  pub len : ℕ

module _ {W : Type 0} (cuda : Driver W) where
  unfoldable pub highest_priority : Action W ℕ
  highest_priority = call_for "cuCtxGetStreamPriorityRange" cuda.greatest_priority

  unfoldable pub drop_streams : List CudaStream → W → W
  unfolding drop_stream
  drop_streams [] w = w
  drop_streams (s ∷ ss) w = drop_streams ss (drop_stream cuda s w)

  -- `CudaStream::with_priority(Self::highest_priority()?)?`
  unfoldable pub second_stream : Action W CudaStream
  unfolding highest_priority with_priority
  second_stream = highest_priority >>= with_priority cuda

  -- The body of the loop, under the guard: the first stream is in its vector whatever the second does.
  unfoldable pub stream_pair : Action W (CudaStream × Outcome CudaStream)
  unfolding new_stream second_stream
  stream_pair =
      new_stream cuda >>= λ first w. let (r, w') = second_stream w in (done (first, r), w')

  -- What an early return drops: the vectors, the later one first.
  unfoldable pub abandon : List CudaStream → List CudaStream → W → W
  unfolding drop_streams
  abandon compute prefetch w = drop_streams compute (drop_streams prefetch w)

  unfoldable pub grow :
      List PrimaryContext → ℕ → ℕ → List CudaStream → List CudaStream → Action W StreamPool
  unfolding guarded_at stream_pair abandon
  grow contexts zero idx compute prefetch w =
      (done (record { compute = compute; prefetch = prefetch; len = idx }), w)
  grow contexts (suc rounds) idx compute prefetch w =
      let (r, w') = guarded_at cuda contexts idx stream_pair w in
      elim r [
        | failed e ↦ (failed e, abandon compute prefetch w')
        | panicked ↦ (panicked, abandon compute prefetch w')
        | done (first, second) ↦ elim second [
          | done s ↦ grow contexts rounds (suc idx) (compute ++ first ∷ []) (prefetch ++ s ∷ []) w'
          | failed e ↦ (failed e, abandon (compute ++ first ∷ []) prefetch w')
          | panicked ↦ (panicked, abandon (compute ++ first ∷ []) prefetch w')
        ]
      ]

  unfoldable pub new_pool : List PrimaryContext → Action W StreamPool
  unfolding grow
  new_pool contexts = grow contexts (length contexts) 0 [] []

  unfoldable pub sync : StreamPool → ℕ → Action W (Unit {0})
  unfolding synchronize
  sync p idx = or_panic (get_elem? p.compute idx) >>= λ c.
      synchronize cuda c >> or_panic (get_elem? p.prefetch idx) >>= synchronize cuda
