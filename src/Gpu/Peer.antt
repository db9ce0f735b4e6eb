-- ===== src/Gpu/Peer.antt =====
-- `PeerMatrix` of src/gpu.rs.
use vugva.Common.{
  ℕ, zero, suc, ◌==◌, Bool, true, false, not, ◌||◌, Option, none, some, List, [], ◌∷◌,
  if◌then◌else◌, get_elem?, set, replicate, length,
}
use vugva.Action.{done, Action, pure, panic, gets, or_panic, call_for, ◌>>=◌, ◌>>◌}
use vugva.Driver.{Driver}
use vugva.Context.{PrimaryContext, retain_all, enter, leave}

pub record PeerMatrix : Type 0 where
  pub can_access : List (List Bool)
  pub enabled : List (List Bool)
  pub num_gpus : ℕ
  pub primary_ctxs : List PrimaryContext

-- `get(src).and_then(|row| row.get(dst).copied())`
abbrev pub cell : List (List Bool) → ℕ → ℕ → Option Bool
cell rows i j = elim (get_elem? rows i) [ none ↦ none | some row ↦ get_elem? row j ]

abbrev or_false : Option Bool → Bool
or_false none = false
or_false (some b) = b

unfoldable pub can_access : PeerMatrix → ℕ → ℕ → Bool
can_access m src dst = or_false (cell m.can_access src dst)

unfoldable pub is_enabled : PeerMatrix → ℕ → ℕ → Bool
is_enabled m src dst = or_false (cell m.enabled src dst)

-- `enabled[i][j] = true`, where both indices are in range.
abbrev pub set_cell : List (List Bool) → ℕ → ℕ → List (List Bool)
set_cell rows i j = elim (get_elem? rows i) [ none ↦ rows | some row ↦ set rows i (set row j true) ]

-- `CUDA_ERROR_PEER_ACCESS_ALREADY_ENABLED`
abbrev already_enabled : ℕ
already_enabled = 704

module _ {W : Type 0} (cuda : Driver W) where
  -- The inner loop of `discover`, from column `j` on: the row of device `src`.
  unfoldable pub discover_row : ℕ → ℕ → ℕ → List ℕ → Action W (List Bool)
  discover_row i src j [] = pure []
  discover_row i src j (dst ∷ ordinals) =
      (if i == j
        then pure true
        else (call_for "cuDeviceCanAccessPeer" (cuda.can_access_peer src dst) >>= λ can.
            pure (not (can == 0))))
      >>= λ b. discover_row i src (suc j) ordinals >>= λ row. pure (b ∷ row)

  -- The outer loop, from row `i` on.
  unfoldable pub discover_rows : List ℕ → ℕ → List ℕ → Action W (List (List Bool))
  unfolding discover_row
  discover_rows all i [] = pure []
  discover_rows all i (src ∷ ordinals) = discover_row i src 0 all >>= λ row.
      discover_rows all (suc i) ordinals >>= λ rows. pure (row ∷ rows)

  unfoldable pub discover : List ℕ → Action W PeerMatrix
  unfolding discover_rows
  discover ordinals =
      let n = length ordinals in
      discover_rows ordinals 0 ordinals >>= λ rows. pure (record {
        can_access = rows;
        enabled = replicate n (replicate n false);
        num_gpus = n;
        primary_ctxs = [];
      })

  -- The matrix, which a method changes, and the world.
  abbrev pub Change : Type 0 → Type 0
  Change A = Action (PeerMatrix × W) A

  abbrev pub outside : {A : Type 0} → Action W A → Change A
  outside m (p, w) = let (r, w') = m w in (r, (p, w'))

  -- The call, where the source's context is current.
  abbrev pub ask_driver : ℕ → ℕ → PrimaryContext → Change (Unit {0})
  ask_driver i j c (m, w) =
      let (res, w') = cuda.enable_peer c.ctx w in
      (
        done tt,
        (
          if (res == 0) || (res == already_enabled)
              then record m { enabled = set_cell m.enabled i j }
              else m,
          w',
        ),
      )

  -- The tests `i == j || !self.can_access[i][j] || self.enabled[i][j]`, in order, and what follows them. An index
  -- out of range panics.
  abbrev pub pair_tests :
      ℕ → ℕ → Bool → Option Bool → Option Bool → Option PrimaryContext → Change (Unit {0})
  pair_tests i j true can on c = pure tt
  pair_tests i j false none on c = panic
  pair_tests i j false (some false) on c = pure tt
  pair_tests i j false (some true) none c = panic
  pair_tests i j false (some true) (some true) c = pure tt
  pair_tests i j false (some true) (some false) none = panic
  pair_tests i j false (some true) (some false) (some c) = ask_driver i j c

  -- The body of the inner loop of `enable_all`.
  unfoldable pub enable_pair : ℕ → ℕ → Change (Unit {0})
  enable_pair i j s =
      pair_tests i j (i == j) (cell s.0.can_access i j) (cell s.0.enabled i j)
        (get_elem? s.0.primary_ctxs j) s

  -- `for j in 0..n`, from `j` on.
  unfoldable pub enable_row : ℕ → ℕ → ℕ → Change (Unit {0})
  unfolding enable_pair
  enable_row i zero j = pure tt
  enable_row i (suc rounds) j = enable_pair i j >> enable_row i rounds (suc j)

  -- The guard goes however the row ends.
  unfoldable pub guarded_row : ℕ → ℕ → Change (Unit {0})
  unfolding enable_row enter leave
  guarded_row n i = gets (λ s. get_elem? s.0.primary_ctxs i) >>= or_panic >>= λ c.
      outside (enter cuda c) >> λ s. let (r, (m, w)) = enable_row i n 0 s in (r, (m, leave cuda w))

  unfoldable pub enable_rows : ℕ → ℕ → ℕ → Change (Unit {0})
  unfolding guarded_row
  enable_rows n zero i = pure tt
  enable_rows n (suc rounds) i = guarded_row n i >> enable_rows n rounds (suc i)

  abbrev pub keep_contexts : List PrimaryContext → Change (Unit {0})
  keep_contexts ctxs (m, w) = (done tt, (record m { primary_ctxs = ctxs }, w))

  -- `if self.primary_ctxs.is_empty()`: a context for each ordinal, once.
  unfoldable pub own_contexts : List ℕ → List PrimaryContext → Change (Unit {0})
  unfolding retain_all
  own_contexts ordinals [] = outside (retain_all cuda [] ordinals) >>= keep_contexts
  own_contexts ordinals (c ∷ cs) = pure tt

  unfoldable pub enable_all : List ℕ → Change (Unit {0})
  unfolding own_contexts enable_rows
  enable_all ordinals s =
      let n = length ordinals in (own_contexts ordinals s.0.primary_ctxs >> enable_rows n n 0) s
