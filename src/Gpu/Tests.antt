-- ===== src/Gpu/Tests.antt =====
-- A cluster of two GPUs on two nodes, and what is read from `numactl`.
use Prim.Native.String.{String}
use vugva.Common.{ℕ, zero, suc, ◌^◌, ◌<◌, ◌≡◌, refl, false, true, some, [], ◌∷◌, arith}
use vugva.Action.{done}
use vugva.Driver.Quiet.{quiet}
use vugva.Gpu.Text.{
  lines, trim, trim_start, trim_end, is_whitespace, starts_with, contains, after, split_whitespace,
  words_from, parse_unsigned, parse_digits, digits_from,
}
use vugva.Gpu.Numa.{NumaTopology, distance, single_node, from_numactl, read_rows, row_of, parse_row}
use vugva.Gpu.Peer.{PeerMatrix, enable_all}
use vugva.Gpu.Ordinals.{index_of, ordinal_map}
use vugva.Gpu.Cluster.{GpuInfo, GpuCluster, optimal_dram_node, nearest}
use vugva.Gpu.Nearest.{Chosen, optimal_dram_node-Chosen}
use vugva.Gpu.Parsed.{Proper, from_numactl-Proper}
use vugva.Gpu.Enabled.{Grown}
use vugva.Gpu.Enable.{enable_all-Grown}
use vugva.Gpu.Ordinals.{IsLast, index_of-IsLast}

abbrev info_at : ℕ → GpuInfo
info_at node = record {
  device_id = 0;
  name = "";
  total_vram = 0;
  free_vram = 0;
  compute_capability = (8, 9);
  sm_count = 1;
  numa_node = node;
  pci_bus_id = 0;
  pci_device_id = 0;
  concurrent_kernels = true;
}

abbrev matrix : PeerMatrix
matrix = record {
  can_access = (true ∷ true ∷ []) ∷ (true ∷ true ∷ []) ∷ [];
  enabled = (false ∷ false ∷ []) ∷ (false ∷ false ∷ []) ∷ [];
  num_gpus = 2;
  primary_ctxs = [];
}

abbrev two_nodes : NumaTopology
two_nodes = record { distances = (10 ∷ 21 ∷ []) ∷ (21 ∷ 10 ∷ []) ∷ []; node_count = 2 }

abbrev cluster : GpuCluster
cluster = record {
  infos = info_at 0 ∷ info_at 1 ∷ [];
  ordinals = 4 ∷ 6 ∷ [];
  peer_matrix = matrix;
  numa = two_nodes;
  ordinal_map = (4, 0) ∷ (6, 1) ∷ [];
}

two_nodes_words : (node : ℕ) → distance two_nodes 1 node < 2 ^ 32
unfolding distance
two_nodes_words zero = omega arith
two_nodes_words (suc zero) = omega arith
two_nodes_words (suc (suc n)) = omega arith

index_of_6 : index_of cluster.ordinal_map 6 ≡ some 1
unfolding index_of
index_of_6 = refl

optimal_node_of_6 : optimal_dram_node cluster 6 ≡ done 1
unfolding optimal_dram_node nearest distance index_of
optimal_node_of_6 = refl

optimal_dram_node-Chosen_example : Chosen two_nodes 1 (optimal_dram_node cluster 6)
optimal_dram_node-Chosen_example =
    optimal_dram_node-Chosen cluster 6 1 (info_at 1) index_of_6 refl two_nodes_words

-- A line of the form that the code expects.
abbrev expected : String
expected = "node 0 distances: 10 21"

expected_topology :
    from_numactl expected ≡ record { distances = (10 ∷ 21 ∷ []) ∷ []; node_count = 2 }
unfolding from_numactl read_rows row_of parse_row lines trim trim_start trim_end is_whitespace
    starts_with contains after split_whitespace words_from parse_unsigned parse_digits digits_from
expected_topology = refl

from_numactl-Proper_example : Proper (from_numactl expected)
from_numactl-Proper_example = from_numactl-Proper expected

-- What `numactl --hardware` prints of the distances of two nodes.
abbrev printed : String
printed = "node distances:\nnode   0   1\n  0:  10  21\n  1:  21  10\n"

printed_topology : from_numactl printed ≡ single_node
unfolding from_numactl single_node read_rows row_of parse_row lines trim trim_start trim_end
    is_whitespace starts_with contains after split_whitespace words_from parse_unsigned parse_digits
    digits_from
printed_topology = refl

enable_all-Grown_example : Grown matrix (enable_all quiet (4 ∷ 6 ∷ []) (matrix, tt)).1.0
enable_all-Grown_example = enable_all-Grown quiet (4 ∷ 6 ∷ []) (matrix, tt)

index_of-IsLast_example : IsLast (4 ∷ 6 ∷ 4 ∷ []) 4 (index_of (ordinal_map (4 ∷ 6 ∷ 4 ∷ [])) 4)
index_of-IsLast_example = index_of-IsLast (4 ∷ 6 ∷ 4 ∷ []) 4
