-- ===== src/Tiered/Steps.antt =====
-- What each step of `TieredPool::new` gives.
use vugva.Common.{ℕ, suc, ◌+◌, ◌≡◌, refl, ap, List, [], ◌∷◌, ◌++◌, length, length-append, arith}
use vugva.Action.{Outcome, done, failed, panicked, Action, call, ask, of_outcome, ◌>>=◌, ◌>>◌}
use vugva.Action.Ends.{Ends, bind-Ends, after-Ends}
use vugva.Driver.{Driver}
use vugva.Context.{PrimaryContext, retain, release_all, retain_all, new_registry, guarded_at}
use vugva.Streams.{StreamPool}
use vugva.Streams
use vugva.Streams.Pool.{Sized, new_pool-Sized}
use vugva.Pool.{DramPool}
use vugva.Gpu.Ordinals.{ordinal_map}
use vugva.Gpu.Cluster.{
  GpuCluster, discover_cluster, discover_infos, discover_peers, cluster_of, describe_all,
  optimal_dram_node,
}
use vugva.Tiered.Build.{
  new_dram_pool, new_dram_pools, cons_pool, dram_pool_of, pin_range, pool_on_node, register_range,
  allocate_numa_dram, or_drop,
}
use vugva.Gpu.Peer.{discover}

abbrev pub Fresh : ℕ → DramPool → Type 0
Fresh size p = (p.capacity ≡ size) × (p.offset ≡ 0) × (p.free_blocks ≡ [])

abbrev pub AllFresh : ℕ → List DramPool → Type 0
AllFresh size [] = Unit {0}
AllFresh size (p ∷ ps) = Fresh size p × AllFresh size ps

-- A cluster has the ordinals that it was made for.
abbrev pub Discovered : List ℕ → GpuCluster → Type 0
Discovered ordinals c = (c.ordinals ≡ ordinals) × (c.ordinal_map ≡ ordinal_map ordinals)

abbrev pub Pools : ℕ → ℕ → List DramPool → Type 0
Pools size n ps = (length ps ≡ n) × AllFresh size ps

abbrev pub StreamsFor : ℕ → StreamPool → Type 0
StreamsFor n p = (length p.compute ≡ n) × (length p.prefetch ≡ n) × (p.len ≡ n)

module _ {W : Type 0} (cuda : Driver W) where
  -- A registry has a context for each ordinal.
  retain_all-Ends :
      (cs : List PrimaryContext) (os : List ℕ) (n : ℕ) (w : W)
      → length cs + length os ≡ n
      → Ends (λ all. length all ≡ n) (retain_all cuda cs os w)
  unfolding retain_all
  retain_all-Ends cs [] n w e = omega (arith, e)
  retain_all-Ends cs (o ∷ os) n w e =
      step (retain cuda o w).0 (retain cuda o w).1 (λ c w1.
        retain_all-Ends (cs ++ c ∷ []) os n w1 (omega (arith, length-append cs (c ∷ []), e)))
    where
      step :
          (r : Outcome PrimaryContext) (w1 : W)
          → ((c : PrimaryContext) (w2 : W)
              → Ends {S = W} (λ all. length all ≡ n) (retain_all cuda (cs ++ c ∷ []) os w2))
          → Ends {S = W} {A = List PrimaryContext}
              (λ all. length all ≡ n)
              (elim r [
                | done c ↦ retain_all cuda (cs ++ c ∷ []) os w1
                | failed e ↦ (failed e, release_all cuda cs w1)
                | panicked ↦ (panicked, release_all cuda cs w1)
              ])
      step (done c) w1 later = later c w1
      step (failed e) w1 later = tt
      step panicked w1 later = tt

  pub new_registry-Ends :
      (os : List ℕ) (w : W) → Ends (λ all. length all ≡ length os) (new_registry cuda os w)
  unfolding new_registry
  new_registry-Ends os w = retain_all-Ends [] os (length os) w (omega arith)

  pub discover_cluster-Ends :
      (ordinals : List ℕ) (w : W) → Ends (Discovered ordinals) (discover_cluster cuda ordinals w)
  unfolding discover_cluster
  discover_cluster-Ends ordinals w =
      after-Ends (Discovered ordinals)
        (λ v. (call "cuInit" cuda.init >> ask cuda.numactl_hardware) v)
        (discover_infos cuda ordinals)
        (λ output w1.
          after-Ends (Discovered ordinals) (describe_all cuda ordinals)
            (discover_peers cuda ordinals output)
            (λ infos w2.
              after-Ends (Discovered ordinals) (discover cuda ordinals)
                (cluster_of cuda ordinals output infos) (λ peers w3. (refl, refl)) w2)
            w1)
        w

  new_dram_pool-Ends :
      (cluster : GpuCluster) (contexts : List PrimaryContext) (size idx ord : ℕ) (w : W)
      → Ends (Fresh size) (new_dram_pool cuda cluster contexts size idx ord w)
  unfolding new_dram_pool
  new_dram_pool-Ends cluster contexts size idx ord w =
      after-Ends (Fresh size) (of_outcome (optimal_dram_node cluster ord))
        (pool_on_node cuda contexts size idx ord)
        (λ node w1.
          after-Ends (Fresh size) (allocate_numa_dram cuda size node)
            (pin_range cuda contexts size idx ord node)
            (λ range w2.
              after-Ends (Fresh size)
                (guarded_at cuda contexts idx (register_range cuda range.0 size))
                (dram_pool_of cuda size ord node range) (λ rc w3. (refl, refl, refl)) w2)
            w1)
        w

  pub new_dram_pools-Ends :
      (cluster : GpuCluster) (contexts : List PrimaryContext) (size idx : ℕ) (os : List ℕ) (w : W)
      → Ends (Pools size (length os)) (new_dram_pools cuda cluster contexts size idx os w)
  unfolding new_dram_pools
  new_dram_pools-Ends cluster contexts size idx [] w = (refl, tt)
  new_dram_pools-Ends cluster contexts size idx (o ∷ os) w =
      bind-Ends (Fresh size) (Pools size (length (o ∷ os)))
        (new_dram_pool cuda cluster contexts size idx o)
        (λ p. new_dram_pools cuda cluster contexts size (suc idx) os >>= cons_pool cuda p)
        (new_dram_pool-Ends cluster contexts size idx o)
        (λ p w1 fresh.
          bind-Ends (Pools size (length os)) (Pools size (length (o ∷ os)))
            (new_dram_pools cuda cluster contexts size (suc idx) os) (cons_pool cuda p)
            (new_dram_pools-Ends cluster contexts size (suc idx) os)
            (λ ps w2 (n, all). (ap suc n, (fresh, all))) w1)
        w

  pub or_drop-Ends :
      {A : Type 0} (P : A → Type 0) (drops : W → W) (m : Action W A)
      → ((w : W) → Ends P (m w))
      → (w : W) → Ends P (or_drop cuda drops m w)
  or_drop-Ends {A} P drops m h w = from (m w) (h w)
    where
      from :
          (r : Outcome A × W)
          → Ends {S = W} P r
          → Ends {S = W} P (elim r.0 [
            | done a ↦ (done a, r.1)
            | failed e ↦ (failed e, drops r.1)
            | panicked ↦ (panicked, drops r.1)
          ])
      from (done a, w') h = h
      from (failed e, w') h = tt
      from (panicked, w') h = tt

  pub new_pool-Ends :
      (contexts : List PrimaryContext) (w : W)
      → Ends (StreamsFor (length contexts)) (Streams.new_pool cuda contexts w)
  new_pool-Ends contexts w =
      from (Streams.new_pool cuda contexts w) (new_pool-Sized cuda contexts w)
    where
      from :
          (r : Outcome StreamPool × W)
          → Sized (length contexts) r
          → Ends (StreamsFor (length contexts)) r
      from (done p, w') h = h
      from (failed e, w') h = tt
      from (panicked, w') h = tt
