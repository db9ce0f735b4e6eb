-- ===== src/Tiered/Stage.antt =====
-- The staging memory of a cold page.
use vugva.Common.{
  ℕ, zero, suc, ◌*◌, ◌/◌, ◌<◌, ◌≤◌, ◌^◌, ◌≡◌, refl, inl, inr, leb, Bool-cases, leb→le, le→leb,
  lt→not-leb, not-leb→lt, arith,
}
use vugva.Error.{Result-cases, Result, ok, err, VugvaError}
use vugva.Pool.{DramPool, allocate as pool_allocate}
use vugva.Tiered.Promote.{stage}

-- What the search for staging memory of `want` bytes answers, and the pool that it leaves: the pool's grant of all
-- of it; the pool's refusal, of a request of at most 1 MiB; or, after its refusal of a larger one, what the search
-- for half of it answers.
pub data Staged : DramPool → ℕ → Result (ℕ × ℕ) × DramPool → Type 0 where
  granted :
      (pool : DramPool) (want ptr : ℕ)
      → (pool_allocate pool want).0 ≡ ok ptr
      → Staged pool want (ok (ptr, want), (pool_allocate pool want).1)
  refused :
      (pool : DramPool) (want : ℕ) (e : VugvaError)
      → (pool_allocate pool want).0 ≡ err e
      → want ≤ 2 ^ 20
      → Staged pool want (err e, (pool_allocate pool want).1)
  halved :
      (pool : DramPool) (want : ℕ) (e : VugvaError) (r : Result (ℕ × ℕ) × DramPool)
      → (pool_allocate pool want).0 ≡ err e
      → 2 ^ 20 < want
      → Staged (pool_allocate pool want).1 (want / 2) r
      → Staged pool want r

stage_granted :
    (fuel : ℕ) (pool : DramPool) (want ptr : ℕ)
    → (pool_allocate pool want).0 ≡ ok ptr
    → stage fuel pool want ≡ (ok (ptr, want), (pool_allocate pool want).1)
unfolding stage
stage_granted zero pool want ptr h = rw (h, stage) refl
stage_granted (suc fuel) pool want ptr h = rw (h, stage) refl

stage_floor :
    (fuel : ℕ) (pool : DramPool) (want : ℕ) (e : VugvaError)
    → (pool_allocate pool want).0 ≡ err e
    → want ≤ 2 ^ 20
    → stage fuel pool want ≡ (err e, (pool_allocate pool want).1)
unfolding stage
stage_floor zero pool want e h le = rw (h, stage) refl
stage_floor (suc fuel) pool want e h le = rw (h, le→leb want (2 ^ 20) le, stage) refl

stage_halves :
    (fuel : ℕ) (pool : DramPool) (want : ℕ) (e : VugvaError)
    → (pool_allocate pool want).0 ≡ err e
    → 2 ^ 20 < want
    → stage (suc fuel) pool want ≡ stage fuel (pool_allocate pool want).1 (want / 2)
unfolding stage
stage_halves fuel pool want e h lt = rw (h, lt→not-leb (2 ^ 20) want lt, stage) refl

-- What `fuel` halvings bring down to 1 MiB.
unfoldable reach : ℕ → ℕ
reach zero = 2 ^ 20
reach (suc fuel) = 2 * reach fuel

stage-Staged_fuel :
    (fuel : ℕ) (pool : DramPool) (want : ℕ)
    → want ≤ reach fuel
    → Staged pool want (stage fuel pool want)
unfolding reach
stage-Staged_fuel zero pool want w = elim (Result-cases (pool_allocate pool want).0) [
  | inl (ptr, h) ↦ rw (stage_granted zero pool want ptr h) (granted pool want ptr h)
  | inr (e, h) ↦ rw (stage_floor zero pool want e h w) (refused pool want e h w)
]
stage-Staged_fuel (suc fuel) pool want w = elim (Result-cases (pool_allocate pool want).0) [
  | inl (ptr, h) ↦ rw (stage_granted (suc fuel) pool want ptr h) (granted pool want ptr h)
  | inr (e, h) ↦ elim (Bool-cases (leb want (2 ^ 20))) [
    | inl f ↦
        rw (stage_floor (suc fuel) pool want e h (leb→le _ _ f))
          (refused pool want e h (leb→le _ _ f))
    | inr f ↦
        let large : 2 ^ 20 < want = not-leb→lt want (2 ^ 20) f in
        rw (stage_halves fuel pool want e h large) (
          halved pool want e _ h large
            (stage-Staged_fuel fuel (pool_allocate pool want).1 (want / 2) (omega (arith, w))))
  ]
]

-- For any 64-bit size the 64 rounds of `borrow_stage` are enough: the loop answers, and leaves, what the search does
-- that asks the pool for the size, and for half of it after every refusal of more than 1 MiB.
pub stage-Staged :
    (pool : DramPool) (total : ℕ) → total < 2 ^ 64 → Staged pool total (stage 64 pool total)
unfolding reach
stage-Staged pool total w = stage-Staged_fuel 64 pool total (omega (arith, w))
