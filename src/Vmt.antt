-- ===== src/Vmt.antt =====
-- src/vmt.rs: pages, their state machine, and the table that maps names to them.
pub mod States
pub mod Table
mod Tests
use Prim.Native.String.{String, ◌++◌}
use text.Mathlib.Text.{◌==◌ as str_eq}
use vugva.Common.{
  ℕ, zero, suc, ◌+◌, ◌-◌, ◌/◌, ◌%◌, get_or, Bool, true, false, not, ◌&&◌, Option, none, some, List,
  [], ◌∷◌, ltb, leb, if◌then◌else◌, add_word, mul_word, length,
}
use vugva.Error.{
  PageState, unmapped, allocated, resident, warm, cold, Result, ok, err, invalid_transition,
}

pub data Tier : Type 0 where
  vram dram ssd : Tier

-- A chunk in a GPU's memory; ordinals are bit patterns of an `i32`.
pub record Chunk : Type 0 where
  pub gpu_ordinal : ℕ
  pub device_ptr : ℕ
  pub size_bytes : ℕ
  pub num_elements : ℕ

pub record DramChunk : Type 0 where
  pub numa_node : ℕ
  pub host_ptr : ℕ
  pub size_bytes : ℕ
  pub cuda_registered : Bool

pub record Page : Type 0 where
  pub name : String
  pub tier : Tier
  pub state : PageState
  pub shape : List ℕ
  pub element_size : ℕ
  pub size_bytes : ℕ
  pub vram_chunks : List Chunk
  pub dram_chunks : List DramChunk
  pub ssd_offset : Option ℕ
  pub access_count : ℕ
  pub last_access_ns : ℕ
  pub pinned : Bool

-- `shape.iter().product::<usize>()`
unfoldable pub product : List ℕ → ℕ
product [] = 1
product (d ∷ dims) = mul_word d (product dims)

-- `shape.iter().product::<usize>() * element_size`
unfoldable pub tensor_bytes : List ℕ → ℕ → ℕ
tensor_bytes shape element_size = mul_word (product shape) element_size

-- `Page::new`; the two counts of nodes only reserve room in the vectors.
unfoldable pub new_page : String → List ℕ → ℕ → Page
new_page name shape element_size = record {
  name = name;
  tier = vram;
  state = unmapped;
  shape = shape;
  element_size = element_size;
  size_bytes = tensor_bytes shape element_size;
  vram_chunks = [];
  dram_chunks = [];
  ssd_offset = none;
  access_count = 0;
  last_access_ns = 0;
  pinned = false;
}

-- The pairs that `transition` lists.
unfoldable pub is_edge : PageState → PageState → Bool
is_edge unmapped allocated = true
is_edge allocated resident = true
is_edge resident warm = true
is_edge warm resident = true
is_edge warm cold = true
is_edge cold warm = true
is_edge cold resident = true
is_edge resident cold = true
is_edge _ _ = false

unfoldable pub transition : Page → PageState → Result (Unit {0}) × Page
transition p new_state =
    if is_edge p.state new_state
    then (ok tt, record p { state = new_state })
    else (err (invalid_transition p.state new_state p.name), p)

unfoldable pub touch : Page → ℕ → Page
touch p now_ns = record p { access_count = add_word p.access_count 1; last_access_ns = now_ns }

-- `-` stops at 0 as `saturating_sub` does.
unfoldable pub is_idle : Page → ℕ → ℕ → Bool
is_idle p now_ns idle_threshold_ns =
    not p.pinned && ltb idle_threshold_ns (now_ns - p.last_access_ns)

unfoldable pub is_hot : Page → ℕ → Bool
is_hot p access_threshold = leb access_threshold p.access_count

-- The table: a `HashMap` as an association list without order, each name once.
pub record VirtualMemoryTable : Type 0 where
  pub pages : List (String × Page)
  pub num_gpus : ℕ
  pub num_numa_nodes : ℕ
  pub next_id : ℕ

unfoldable pub new : ℕ → ℕ → VirtualMemoryTable
new num_gpus num_numa_nodes = record {
  pages = [];
  num_gpus = num_gpus;
  num_numa_nodes = num_numa_nodes;
  next_id = 0;
}

-- `HashMap::get`, `insert` and `remove`.
unfoldable pub get : String → List (String × Page) → Option Page
get k [] = none
get k ((j, p) ∷ m) = if str_eq j k then some p else get k m

unfoldable pub put : String → Page → List (String × Page) → List (String × Page)
put k p [] = (k, p) ∷ []
put k p ((j, q) ∷ m) = if str_eq j k then (k, p) ∷ m else (j, q) ∷ put k p m

unfoldable pub drop : String → List (String × Page) → List (String × Page)
drop k [] = []
drop k ((j, q) ∷ m) = if str_eq j k then m else (j, q) ∷ drop k m

unfoldable pub lookup : VirtualMemoryTable → String → Option Page
lookup t name = get name t.pages

-- `lookup_mut`, with what is written through the reference.
unfoldable pub update : VirtualMemoryTable → String → (Page → Page) → VirtualMemoryTable
update t name f = elim (get name t.pages) [
  | none ↦ t
  | some p ↦ record t { pages = put name (f p) t.pages }
]

unfoldable pub remove : VirtualMemoryTable → String → Option Page × VirtualMemoryTable
remove t name = (get name t.pages, record t { pages = drop name t.pages })

unfoldable pub len : VirtualMemoryTable → ℕ
len t = length t.pages

unfoldable pub is_empty : VirtualMemoryTable → Bool
is_empty t = elim t.pages [ [] ↦ true | _ ∷ _ ↦ false ]

-- The page that `allocate` registers.
unfoldable pub allocated_page : String → List ℕ → ℕ → Page
allocated_page name shape element_size = record (new_page name shape element_size) {
  state = allocated;
  tier = vram;
}

-- `format!("vugva_alloc_{}", id)`: a 64-bit number has at most 20 decimal digits.
unfoldable pub digit : ℕ → String
digit n = get_or ("0" ∷ "1" ∷ "2" ∷ "3" ∷ "4" ∷ "5" ∷ "6" ∷ "7" ∷ "8" ∷ "9" ∷ []) n ""

unfoldable pub decimal : ℕ → ℕ → String
unfolding digit
decimal zero n = ""
decimal (suc fuel) n =
    let leading = decimal fuel (n / 10) in if ltb n 10 then digit n else leading ++ digit (n % 10)

unfoldable pub generated_name : ℕ → String
generated_name id = "vugva_alloc_" ++ decimal 20 id

unfoldable pub allocate : VirtualMemoryTable → String → List ℕ → ℕ → String × VirtualMemoryTable
allocate t name shape element_size =
    let id = add_word t.next_id 1 in
    let anonymous = str_eq name "" in
    let alloc_name = if anonymous then generated_name id else name in
    (
      alloc_name,
      record t {
        pages = put alloc_name (allocated_page alloc_name shape element_size) t.pages;
        next_id = if anonymous then id else t.next_id;
      },
    )
