-- ===== src/Tiered/Ready.antt =====
-- What a new pool has for each of its GPUs.
use vugva.Common.{ℕ, suc, ◌≡◌, refl, ap, ◌∙◌, List, [], ◌∷◌, length, length-replicate, map}
use vugva.Action.Ends.{Ends, bind-Ends}
use vugva.Driver.{Driver}
use vugva.Context.{PrimaryContext, release_all, new_registry}
use vugva.Streams.{StreamPool}
use vugva.Streams
use vugva.Pool.{DramPool}
use vugva.Dma.{new_engine}
use vugva.Vmt
use vugva.Gpu.Ordinals.{ordinal_map}
use vugva.Gpu.Cluster.{GpuCluster, discover_cluster}
use vugva.Tiered.State.{TieredPool}
use vugva.Tiered.Build.{
  new_dram_pools, or_drop, drop_all, pool_of, with_streams, with_contexts, with_cluster, assemble,
  new,
}
use vugva.Tiered.Steps.{
  AllFresh, Discovered, Pools, StreamsFor, new_registry-Ends, discover_cluster-Ends,
  new_dram_pools-Ends, or_drop-Ends, new_pool-Ends,
}

-- A pool with an entry for each ordinal in every vector that a GPU's index is used on, empty DRAM pools, and no pages.
pub record Ready {W : Type 0} (ordinals : List ℕ) (size : ℕ) (s : TieredPool W) : Type 0 where
  pub same_ordinals : s.ordinals ≡ ordinals
  pub same_map : s.ordinal_map ≡ ordinal_map ordinals
  pub all_contexts : length s.contexts ≡ length ordinals
  pub all_compute : length s.compute ≡ length ordinals
  pub all_prefetch : length s.prefetch_streams ≡ length ordinals
  pub all_rings : length s.dma.rings ≡ length ordinals
  pub all_caches : length s.vram_free ≡ length ordinals
  pub all_pools : length s.dram_pools ≡ length ordinals
  pub fresh : AllFresh size s.dram_pools
  pub no_pages : s.vmt.pages ≡ []

length-map : {A B : Type 0} (f : A → B) (xs : List A) → length (map f xs) ≡ length xs
length-map f [] = refl
length-map f (x ∷ xs) = ap suc (length-map f xs)

module _ {W : Type 0} (cuda : Driver W) where
  assemble-Ready :
      (ordinals : List ℕ) (size : ℕ) (c : GpuCluster) (contexts : List PrimaryContext)
      (p : StreamPool) (pools : List DramPool) (w : W)
      → Discovered ordinals c
      → length contexts ≡ length ordinals
      → StreamsFor (length contexts) p
      → Pools size (length ordinals) pools
      → Ready ordinals size (assemble cuda ordinals c contexts p pools w)
  unfolding assemble new_engine Vmt.new
  assemble-Ready ordinals size c contexts p pools w (a, b) k (x, y, z) (n, fresh) = record {
    same_ordinals = a;
    same_map = b;
    all_contexts = length-map _ contexts ∙ k;
    all_compute = length-map _ p.compute ∙ x ∙ k;
    all_prefetch = length-map _ p.prefetch ∙ y ∙ k;
    all_rings = length-replicate (length ordinals) _;
    all_caches = length-replicate (length ordinals) _;
    all_pools = n;
    fresh = fresh;
    no_pages = refl;
  }

  -- If `new` gives a pool, it is ready for every GPU of the list: each vector that is indexed by a GPU has an entry
  -- for it, positions are those of the list, each DRAM pool has the size asked for, with all of it free, and there
  -- are no pages.
  pub new-Ready :
      (ordinals : List ℕ) (size : ℕ) (w : W) → Ends (Ready ordinals size) (new cuda ordinals size w)
  unfolding new
  new-Ready ordinals size w =
      bind-Ends (Discovered ordinals) (Ready ordinals size) (discover_cluster cuda ordinals)
        (with_cluster cuda ordinals size) (discover_cluster-Ends cuda ordinals)
        (λ c w1 found. with_cluster-Ends c w1 found) w
    where
      with_streams-Ends :
          (c : GpuCluster) (contexts : List PrimaryContext) (p : StreamPool) (v : W)
          → Discovered ordinals c
          → length contexts ≡ length ordinals
          → StreamsFor (length contexts) p
          → Ends (Ready ordinals size) (with_streams cuda ordinals size c contexts p v)
      with_streams-Ends c contexts p v found k sized =
          bind-Ends (Pools size (length ordinals)) (Ready ordinals size)
            (or_drop cuda (drop_all cuda contexts p)
              (new_dram_pools cuda c contexts size 0 ordinals))
            (pool_of cuda ordinals c contexts p)
            (or_drop-Ends cuda (Pools size (length ordinals)) (drop_all cuda contexts p) _
              (new_dram_pools-Ends cuda c contexts size 0 ordinals))
            (λ pools u fresh. assemble-Ready ordinals size c contexts p pools u found k sized fresh)
            v

      with_contexts-Ends :
          (c : GpuCluster) (contexts : List PrimaryContext) (v : W)
          → Discovered ordinals c
          → length contexts ≡ length ordinals
          → Ends (Ready ordinals size) (with_contexts cuda ordinals size c contexts v)
      with_contexts-Ends c contexts v found k =
          bind-Ends (StreamsFor (length contexts)) (Ready ordinals size)
            (or_drop cuda (release_all cuda contexts) (Streams.new_pool cuda contexts))
            (with_streams cuda ordinals size c contexts)
            (or_drop-Ends cuda (StreamsFor (length contexts)) (release_all cuda contexts) _
              (new_pool-Ends cuda contexts))
            (λ p u sized. with_streams-Ends c contexts p u found k sized) v

      with_cluster-Ends :
          (c : GpuCluster) (v : W)
          → Discovered ordinals c
          → Ends (Ready ordinals size) (with_cluster cuda ordinals size c v)
      with_cluster-Ends c v found =
          bind-Ends (λ all. length all ≡ length ordinals) (Ready ordinals size)
            (new_registry cuda ordinals) (with_contexts cuda ordinals size c)
            (new_registry-Ends cuda ordinals)
            (λ contexts u k. with_contexts-Ends c contexts u found k) v
