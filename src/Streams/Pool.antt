-- ===== src/Streams/Pool.antt =====
-- The streams of a new pool.
use vugva.Common.{ℕ, zero, suc, ◌+◌, ◌≡◌, refl, List, [], ◌∷◌, ◌++◌, length, length-append, arith}
use vugva.Action.{Outcome, done, failed, panicked}
use vugva.Driver.{Driver}
use vugva.Context.{PrimaryContext, guarded_at}
use vugva.Streams.{CudaStream, StreamPool, stream_pair, abandon, grow, new_pool}

-- A pool with `n` streams of each kind, if there is a pool.
abbrev pub Sized : {W : Type 0} → ℕ → Outcome StreamPool × W → Type 0
Sized n (done p, w) = (length p.compute ≡ n) × (length p.prefetch ≡ n) × (p.len ≡ n)
Sized n (failed e, w) = Unit {0}
Sized n (panicked, w) = Unit {0}

grow-Sized :
    {W : Type 0} (cuda : Driver W) (contexts : List PrimaryContext) (rounds idx n : ℕ)
    (compute prefetch : List CudaStream) (w : W)
    → length compute ≡ idx
    → length prefetch ≡ idx
    → idx + rounds ≡ n
    → Sized n (grow cuda contexts rounds idx compute prefetch w)
unfolding grow
grow-Sized cuda contexts zero idx n compute prefetch w c p e =
    (omega (arith, c, e), omega (arith, p, e), omega (arith, e))
grow-Sized {W} cuda contexts (suc rounds) idx n compute prefetch w c p e =
    step (guarded_at cuda contexts idx (stream_pair cuda) w).0
      (guarded_at cuda contexts idx (stream_pair cuda) w).1
      (λ first s w'.
        grow-Sized cuda contexts rounds (suc idx) n (compute ++ first ∷ []) (prefetch ++ s ∷ []) w'
          (omega (arith, length-append compute (first ∷ []), c))
          (omega (arith, length-append prefetch (s ∷ []), p)) (omega (arith, e)))
  where
    step :
        (r : Outcome (CudaStream × Outcome CudaStream)) (w' : W)
        → ((first s : CudaStream) (w2 : W)
            → Sized {W = W} n (
                grow cuda contexts rounds
                  (suc idx)
                  (compute ++ first ∷ [])
                  (prefetch ++ s ∷ [])
                  w2))
        → Sized {W = W} n (elim r [
          | failed e ↦ (failed e, abandon cuda compute prefetch w')
          | panicked ↦ (panicked, abandon cuda compute prefetch w')
          | done (first, second) ↦ elim second [
            | done s ↦
                grow cuda contexts rounds (suc idx) (compute ++ first ∷ []) (prefetch ++ s ∷ []) w'
            | failed e ↦ (failed e, abandon cuda (compute ++ first ∷ []) prefetch w')
            | panicked ↦ (panicked, abandon cuda (compute ++ first ∷ []) prefetch w')
          ]
        ])
    step (failed e) w' later = tt
    step panicked w' later = tt
    step (done (first, done s)) w' later = later first s w'
    step (done (first, failed e)) w' later = tt
    step (done (first, panicked)) w' later = tt

-- A new pool has one stream of each kind for every context.
pub new_pool-Sized :
    {W : Type 0} (cuda : Driver W) (contexts : List PrimaryContext) (w : W)
    → Sized (length contexts) (new_pool cuda contexts w)
unfolding new_pool
new_pool-Sized cuda contexts w =
    grow-Sized cuda contexts (length contexts) 0 (length contexts) [] [] w refl refl (omega arith)
