-- ===== src/Context.antt =====
-- src/context.rs: retained primary contexts, the guard that makes one current, and the registry.
pub mod Balance
pub mod Scope
mod Tests
use vugva.Common.{ℕ, Bool, true, false, Option, none, some, List, [], ◌∷◌, ◌++◌, get_elem?, length}
use vugva.Error.{invalid_gpu}
use vugva.Action.{
  Outcome, done, failed, panicked, Action, pure, or_raise, call, call_for, ◌>>=◌, ◌>>◌,
}
use vugva.Driver.{Driver}

pub record PrimaryContext : Type 0 where
  pub device : ℕ
  pub ctx : ℕ

module _ {W : Type 0} (cuda : Driver W) where
  unfoldable pub retain : ℕ → Action W PrimaryContext
  retain ordinal =
      call "cuInit" cuda.init
      >> call_for "cuDevicePrimaryCtxRetain" (cuda.retain_context ordinal)
      >>= λ ctx. pure (record { device = ordinal; ctx = ctx })

  unfoldable pub bind : PrimaryContext → Action W (Unit {0})
  bind c = call "cuCtxSetCurrent" (cuda.set_current c.ctx)

  unfoldable pub enter : PrimaryContext → Action W (Unit {0})
  enter c = call "cuCtxPushCurrent_v2" (cuda.push_current c.ctx)

  -- The destructors of a context and of a guard.
  unfoldable pub release : PrimaryContext → W → W
  release c w = (cuda.release_context c.device w).1

  unfoldable pub leave : W → W
  leave w = (cuda.pop_current w).1

  -- `let _guard = c.enter()?;` and the scope of the guard: however the scope ends, the guard goes.
  unfoldable pub guarded : {A : Type 0} → PrimaryContext → Action W A → Action W A
  unfolding enter leave
  guarded c body = enter c >> λ w. let (r, w') = body w in (r, leave w')

  -- A registry is its contexts, in the order of the ordinals. Dropping it releases them.
  unfoldable pub release_all : List PrimaryContext → W → W
  unfolding release
  release_all [] w = w
  release_all (c ∷ cs) w = release_all cs (release c w)

  -- The loop of `new`, with the contexts it has so far, which an early return drops.
  unfoldable pub retain_all : List PrimaryContext → List ℕ → Action W (List PrimaryContext)
  unfolding retain release_all
  retain_all cs [] w = (done cs, w)
  retain_all cs (ordinal ∷ ordinals) w =
      let (r, w') = retain ordinal w in
      elim r [
        | done c ↦ retain_all (cs ++ c ∷ []) ordinals w'
        | failed e ↦ (failed e, release_all cs w')
        | panicked ↦ (panicked, release_all cs w')
      ]

  unfoldable pub new_registry : List ℕ → Action W (List PrimaryContext)
  unfolding retain_all
  new_registry ordinals = retain_all [] ordinals

  unfoldable pub get : List PrimaryContext → ℕ → Action W PrimaryContext
  get contexts idx = or_raise (get_elem? contexts idx) (invalid_gpu idx)

  unfoldable pub bind_at : List PrimaryContext → ℕ → Action W (Unit {0})
  unfolding get bind
  bind_at contexts idx = get contexts idx >>= bind

  unfoldable pub enter_at : List PrimaryContext → ℕ → Action W (Unit {0})
  unfolding get enter
  enter_at contexts idx = get contexts idx >>= enter

  -- `let _guard = contexts.enter(idx)?;` and its scope.
  unfoldable pub guarded_at : {A : Type 0} → List PrimaryContext → ℕ → Action W A → Action W A
  unfolding get guarded
  guarded_at contexts idx body = get contexts idx >>= λ c. guarded c body
