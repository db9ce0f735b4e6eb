-- ===== src/Gpu/Nearest.antt =====
-- The choice of a DRAM node for a GPU.
use vugva.Common.{
  ℕ, zero, suc, ◌+◌, ◌-◌, ◌^◌, ◌≤◌, ◌<◌, ◌≡◌, refl, subst, ◌⊎◌, inl, inr, some, ltb, get_elem?,
  arith, Bool-cases, ltb→lt, not-ltb→le,
}
use vugva.Action.{Outcome, done, failed, panicked}
use vugva.Gpu.Numa.{NumaTopology, distance}
use vugva.Gpu.Cluster.{GpuInfo, GpuCluster, with_node, nearest, optimal_dram_node}
use vugva.Gpu.Ordinals.{index_of}

-- Of the first `n` nodes none is nearer than `best`, and none before it is as near.
abbrev pub IsNearest : NumaTopology → ℕ → ℕ → ℕ → Type 0
IsNearest t gpu_numa n best =
    ((node : ℕ) → node < n → distance t gpu_numa best ≤ distance t gpu_numa node)
    × ((node : ℕ) → node < best → distance t gpu_numa best < distance t gpu_numa node)
    × (0 < n → best < n)

-- The loop's state after the nodes below `node`.
abbrev Seen : NumaTopology → ℕ → ℕ → ℕ → ℕ → Type 0
Seen t gpu_numa node best best_dist =
    (distance t gpu_numa best ≤ best_dist)
    × ((k : ℕ) → k < node → best_dist ≤ distance t gpu_numa k)
    × ((k : ℕ) → k < best → best_dist < distance t gpu_numa k)
    × ((best < node) ⊎ (best ≡ 0))

-- The next node: nearer, or not.
Seen-nearer :
    (t : NumaTopology) (g node best bd : ℕ)
    → distance t g node < bd
    → Seen t g node best bd
    → Seen t g (suc node) node (distance t g node)
Seen-nearer t g node best bd closer (a, b, c, d) =
    (omega arith, upto, λ k h. omega (arith, b k h), inl (omega arith))
  where
    upto : (k : ℕ) → k < suc node → distance t g node ≤ distance t g k
    upto k h = elim (Bool-cases (ltb k node)) [
      | inl e ↦ omega (arith, b k (ltb→lt k node e))
      | inr e ↦
          subst (λ x. distance t g node ≤ distance t g x) {x = node}
            (omega (arith, not-ltb→le k node e)) (omega arith)
    ]

Seen-farther :
    (t : NumaTopology) (g node best bd : ℕ)
    → bd ≤ distance t g node
    → Seen t g node best bd
    → Seen t g (suc node) best bd
Seen-farther t g node best bd farther (a, b, c, d) =
    (a, upto, c, elim d [ inl e ↦ inl (omega (arith, e)) | inr e ↦ inr e ])
  where
    upto : (k : ℕ) → k < suc node → bd ≤ distance t g k
    upto k h = elim (Bool-cases (ltb k node)) [
      | inl e ↦ b k (ltb→lt k node e)
      | inr e ↦
          subst (λ x. bd ≤ distance t g x) {x = node} (omega (arith, not-ltb→le k node e)) farther
    ]

nearest-IsNearest :
    (t : NumaTopology) (gpu_numa rounds node best best_dist : ℕ)
    → Seen t gpu_numa node best best_dist
    → IsNearest t gpu_numa (node + rounds) (nearest t gpu_numa rounds node best best_dist)
unfolding nearest
nearest-IsNearest t g zero node best bd (a, b, c, d) = (
  (λ k h. omega (arith, a, b k (omega (arith, h)))),
  (λ k h. omega (arith, a, c k h)),
  (λ h. elim d [ inl e ↦ omega (arith, e) | inr e ↦ omega (arith, e, h) ]),
)
nearest-IsNearest t g (suc rounds) node best bd seen =
    subst (λ n. IsNearest t g n (nearest t g (suc rounds) node best bd)) {x = suc node + rounds}
      (omega arith)
      (elim (Bool-cases (ltb (distance t g node) bd)) [
        | inl e ↦
            rw (nearest, e)
              (nearest-IsNearest t g rounds (suc node) node (distance t g node)
                (Seen-nearer t g node best bd (ltb→lt (distance t g node) bd e) seen))
        | inr e ↦
            rw (nearest, e)
              (nearest-IsNearest t g rounds (suc node) best bd
                (Seen-farther t g node best bd (not-ltb→le (distance t g node) bd e) seen))
      ])

-- What a choice of a node for a GPU on node `gpu_numa` is.
abbrev pub Chosen : NumaTopology → ℕ → Outcome ℕ → Type 0
Chosen t gpu_numa (done node) = IsNearest t gpu_numa t.node_count node
Chosen t gpu_numa (failed e) = ⊥
Chosen t gpu_numa panicked = ⊥

-- A GPU of the cluster gets the nearest DRAM node, of several the first, if distances are 32-bit numbers.
pub optimal_dram_node-Chosen :
    (c : GpuCluster) (gpu_ordinal idx : ℕ) (info : GpuInfo)
    → index_of c.ordinal_map gpu_ordinal ≡ some idx
    → get_elem? c.infos idx ≡ some info
    → ((node : ℕ) → distance c.numa info.numa_node node < 2 ^ 32)
    → Chosen c.numa info.numa_node (optimal_dram_node c gpu_ordinal)
unfolding optimal_dram_node
optimal_dram_node-Chosen c gpu_ordinal idx info here there words =
    rw (here, with_node, there)
      (nearest_of (
        nearest-IsNearest c.numa info.numa_node c.numa.node_count 0 0 (2 ^ 32 - 1) (
          omega (arith, words 0),
          (λ k h. absurd (omega (arith, h))),
          (λ k h. absurd (omega (arith, h))),
          inr refl,
        )))
  where
    nearest_of :
        {best : ℕ}
        → IsNearest c.numa info.numa_node (0 + c.numa.node_count) best
        → IsNearest c.numa info.numa_node c.numa.node_count best
    nearest_of {best} = subst (λ n. IsNearest c.numa info.numa_node n best) (omega arith)
