-- ===== src/Gpu/Numa.antt =====
-- `NumaTopology` of src/gpu.rs.
use Prim.Native.String.{String}
use vugva.Common.{
  ℕ, ◌^◌, ltb, leb, ◌&&◌, Option, none, some, List, [], ◌∷◌, ◌++◌, if◌then◌else◌, length, get_elem?,
}
use vugva.Gpu.Text.{
  chars, lines, trim, starts_with, contains, after, split_whitespace, parse_unsigned,
}

pub record NumaTopology : Type 0 where
  pub distances : List (List ℕ)
  pub node_count : ℕ

unfoldable pub single_node : NumaTopology
single_node = record { distances = (10 ∷ []) ∷ []; node_count = 1 }

abbrev or_default : Option ℕ → ℕ → ℕ
or_default none d = d
or_default (some n) d = n

abbrev pub distance_in : List (List ℕ) → ℕ → ℕ → Option ℕ
distance_in rows src dst = elim (get_elem? rows src) [ none ↦ none | some row ↦ get_elem? row dst ]

unfoldable pub distance : NumaTopology → ℕ → ℕ → ℕ
distance t src dst = or_default (distance_in t.distances src dst) 30

-- In hundredths.
unfoldable pub dma_bandwidth_factor : NumaTopology → ℕ → ℕ → ℕ
unfolding distance
dma_bandwidth_factor t src dst =
    let d = distance t src dst in if leb d 12 then 95 else if leb d 20 then 80 else 65

-- `filter_map(|s| s.parse().ok())`
unfoldable pub parse_row : List (List ℕ) → List ℕ
unfolding parse_unsigned
parse_row [] = []
parse_row (s ∷ ss) = elim (parse_unsigned (2 ^ 32) s) [
  | none ↦ parse_row ss
  | some n ↦ n ∷ parse_row ss
]

-- The numbers of a line, which is no row when there are none.
unfoldable pub row_of : List ℕ → List ℕ
unfolding trim starts_with contains after split_whitespace parse_row
row_of line =
    let trimmed = trim line in
    if starts_with trimmed (chars "node") && contains trimmed (chars "distances:")
    then (elim (after 58 trimmed) [ none ↦ [] | some rest ↦ parse_row (split_whitespace rest) ])
    else []

abbrev pub max : ℕ → ℕ → ℕ
max a b = if ltb a b then b else a

-- The loop, with the rows and the count so far.
unfoldable pub read_rows : List (List ℕ) → List (List ℕ) → ℕ → NumaTopology
unfolding row_of
read_rows [] distances node_count = record { distances = distances; node_count = node_count }
read_rows (line ∷ ls) distances node_count = elim (row_of line) [
  | [] ↦ read_rows ls distances node_count
  | n ∷ ns ↦ read_rows ls (distances ++ (n ∷ ns) ∷ []) (max node_count (length (n ∷ ns)))
]

-- `from_numactl` on the output of the program.
unfoldable pub from_numactl : String → NumaTopology
unfolding read_rows lines
from_numactl stdout =
    let t = read_rows (lines (chars stdout)) [] 0 in
    elim t.distances [ [] ↦ record { distances = (10 ∷ []) ∷ []; node_count = 1 } | _ ∷ _ ↦ t ]
