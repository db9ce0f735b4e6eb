-- ===== src/Gpu/Cluster.antt =====
-- `GpuCluster` of src/gpu.rs: discovery, and the queries that route transfers.
use Prim.Native.String.{String, ◌++◌}
use vugva.Common.{
  ℕ, zero, suc, ◌+◌, ◌-◌, ◌/◌, ◌%◌, ◌^◌, ◌==◌, ltb, Bool, not, Option, none, some, List, [], ◌∷◌,
  if◌then◌else◌, get_elem?, get_or,
}
use vugva.Action.{Outcome, done, panicked, Action, pure, ask, call, call_for, ◌>>=◌, ◌>>◌}
use vugva.Driver.{Driver}
use vugva.Context.{retain, guarded, release}
use vugva.Vmt.{digit, decimal}
use vugva.Gpu.Text.{chars, trim, parse_digits}
use vugva.Gpu.Numa.{NumaTopology, single_node, from_numactl, distance, dma_bandwidth_factor}
use vugva.Gpu.Peer.{PeerMatrix, discover, enable_all}
use vugva.Gpu.Ordinals.{index_of, ordinal_map}

pub record GpuInfo : Type 0 where
  pub device_id : ℕ
  pub name : String
  pub total_vram : ℕ
  pub free_vram : ℕ
  pub compute_capability : ℕ × ℕ
  pub sm_count : ℕ
  pub numa_node : ℕ
  pub pci_bus_id : ℕ
  pub pci_device_id : ℕ
  pub concurrent_kernels : Bool

pub record GpuCluster : Type 0 where
  pub infos : List GpuInfo
  pub ordinals : List ℕ
  pub peer_matrix : PeerMatrix
  pub numa : NumaTopology
  pub ordinal_map : List (ℕ × ℕ)

-- `{:02x}` of the bit pattern of an `i32`: at most eight digits.
unfoldable hex_digit : ℕ → String
unfolding digit
hex_digit n =
    if ltb n 10 then digit n else get_or ("a" ∷ "b" ∷ "c" ∷ "d" ∷ "e" ∷ "f" ∷ []) (n - 10) ""

unfoldable hex : ℕ → ℕ → String
unfolding hex_digit
hex zero n = ""
hex (suc fuel) n =
    let leading = hex fuel (n / 16) in
    if ltb n 16 then hex_digit n else leading ++ hex_digit (n % 16)

unfoldable two_hex : ℕ → String
unfolding hex
two_hex n = if ltb n 16 then "0" ++ hex 8 n else hex 8 n

-- `{}` of an `i32`.
unfoldable signed : ℕ → String
unfolding decimal
signed n = if ltb n (2 ^ 31) then decimal 10 n else "-" ++ decimal 10 (2 ^ 32 - n)

-- `parse::<isize>()`, and 0 for a negative number.
unfoldable pub parse_node : List ℕ → Option ℕ
unfolding parse_digits
parse_node [] = none
parse_node (c ∷ cs) =
    if c == 45
    then (elim (parse_digits (2 ^ 63 + 1) cs) [ none ↦ none | some _ ↦ some 0 ])
    else if c == 43
    then parse_digits (2 ^ 63) cs
    else parse_digits (2 ^ 63) (c ∷ cs)

-- A file that cannot be read or parsed is passed over.
abbrev node_in : Option String → Option ℕ
node_in none = none
node_in (some text) = parse_node (trim (chars text))

module _ {W : Type 0} (cuda : Driver W) where
  unfoldable pub first_node : List String → W → Option ℕ × W
  unfolding parse_node trim
  first_node [] w = (none, w)
  first_node (path ∷ paths) w =
      let (text, w') = cuda.read_text path w in
      elim (node_in text) [ some n ↦ (some n, w') | none ↦ first_node paths w' ]

  unfoldable pub read_numa_node : ℕ → W → Option ℕ × W
  unfolding first_node two_hex signed
  read_numa_node gpu_ordinal = first_node (
      ("/sys/bus/pci/devices/0000:" ++ two_hex gpu_ordinal ++ ":00.0/numa_node")
      ∷ ("/sys/class/drm/card" ++ signed gpu_ordinal ++ "/device/numa_node")
      ∷ [])

  -- The block with the retained context: the guard goes first, then the context.
  unfoldable pub free_memory : ℕ → Action W ℕ
  unfolding retain guarded release
  free_memory ord = retain cuda ord >>= λ c w.
      let (r, w') = guarded cuda c (call_for "cuMemGetInfo_v2" cuda.mem_info) w in
      (r, release cuda c w')

  abbrev or_zero : Option ℕ → ℕ
  or_zero none = 0
  or_zero (some n) = n

  -- The body of the loop of `discover`. The numbers are those of the attributes in src/ffi/cuda.rs.
  unfoldable pub describe : ℕ → Action W GpuInfo
  unfolding free_memory read_numa_node
  describe ord = ask (cuda.device_name ord) >>= λ name. ask (cuda.total_memory ord) >>= λ total.
      free_memory ord >>= λ free. ask (cuda.compute_capability ord) >>= λ capability.
      ask (cuda.attribute 16 ord) >>= λ sm. ask (cuda.attribute 31 ord) >>= λ ck.
      ask (cuda.attribute 33 ord) >>= λ bus. ask (cuda.attribute 34 ord) >>= λ pdev.
      ask (read_numa_node ord) >>= λ node. pure (record {
        device_id = ord;
        name = name;
        total_vram = total;
        free_vram = free;
        compute_capability = capability;
        sm_count = sm;
        numa_node = or_zero node;
        pci_bus_id = bus;
        pci_device_id = pdev;
        concurrent_kernels = not (ck == 0);
      })

  unfoldable pub describe_all : List ℕ → Action W (List GpuInfo)
  unfolding describe
  describe_all [] = pure []
  describe_all (ord ∷ ordinals) =
      describe ord >>= λ info. describe_all ordinals >>= λ infos. pure (info ∷ infos)

  -- `from_numactl().unwrap_or_else(|_| single_node())`
  abbrev topology_of : Option String → NumaTopology
  topology_of none = single_node
  topology_of (some stdout) = from_numactl stdout

  -- `discover`, from the peer matrix, from the descriptions, and from the topology on.
  abbrev pub cluster_of : List ℕ → Option String → List GpuInfo → PeerMatrix → Action W GpuCluster
  cluster_of ordinals output infos peers = pure (record {
    infos = infos;
    ordinals = ordinals;
    peer_matrix = peers;
    numa = topology_of output;
    ordinal_map = ordinal_map ordinals;
  })

  abbrev pub discover_peers : List ℕ → Option String → List GpuInfo → Action W GpuCluster
  discover_peers ordinals output infos = discover cuda ordinals >>= cluster_of ordinals output infos

  abbrev pub discover_infos : List ℕ → Option String → Action W GpuCluster
  discover_infos ordinals output = describe_all ordinals >>= discover_peers ordinals output

  unfoldable pub discover_cluster : List ℕ → Action W GpuCluster
  unfolding describe_all discover ordinal_map from_numactl single_node
  discover_cluster ordinals =
      call "cuInit" cuda.init >> ask cuda.numactl_hardware >>= discover_infos ordinals

  unfoldable pub enable_peer_access : Action (GpuCluster × W) (Unit {0})
  unfolding enable_all
  enable_peer_access (c, w) =
      let (r, (m, w')) = enable_all cuda c.ordinals (c.peer_matrix, w) in
      (r, (record c { peer_matrix = m }, w'))

-- The node of a GPU, which an index past the end of `infos` panics on.
abbrev pub with_node : GpuCluster → Option ℕ → ℕ → (ℕ → ℕ) → Outcome ℕ
with_node c none d f = done d
with_node c (some idx) d f = elim (get_elem? c.infos idx) [
  | none ↦ panicked
  | some info ↦ done (f info.numa_node)
]

unfoldable pub dma_factor : GpuCluster → ℕ → ℕ → Outcome ℕ
unfolding index_of dma_bandwidth_factor
dma_factor c gpu_ordinal dram_numa_node =
    with_node c (index_of c.ordinal_map gpu_ordinal) 65
      (λ gpu_numa. dma_bandwidth_factor c.numa dram_numa_node gpu_numa)

-- The loop over the nodes from `node` on.
unfoldable pub nearest : NumaTopology → ℕ → ℕ → ℕ → ℕ → ℕ → ℕ
unfolding distance
nearest t gpu_numa zero node best best_dist = best
nearest t gpu_numa (suc rounds) node best best_dist =
    let d = distance t gpu_numa node in
    let closer = nearest t gpu_numa rounds (suc node) node d in
    let same = nearest t gpu_numa rounds (suc node) best best_dist in
    if ltb d best_dist then closer else same

unfoldable pub optimal_dram_node : GpuCluster → ℕ → Outcome ℕ
unfolding index_of nearest
optimal_dram_node c gpu_ordinal =
    with_node c (index_of c.ordinal_map gpu_ordinal) 0
      (λ gpu_numa. nearest c.numa gpu_numa c.numa.node_count 0 0 (2 ^ 32 - 1))
