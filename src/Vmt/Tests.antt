-- ===== src/Vmt/Tests.antt =====
-- Pages and tables at concrete inputs.
use Prim.Native.String.{String}
use vugva.Common.{◌≡◌, ◌≢◌, refl, some, [], ◌∷◌}
use vugva.Error.{unmapped, allocated, warm, cold}
use vugva.Vmt.{
  Page, VirtualMemoryTable, new_page, tensor_bytes, product, get, lookup, len, allocated_page,
  allocate, generated_name, decimal, digit,
}
use vugva.Vmt.States.{Placed, run, run-Placed}
use vugva.Vmt.Table.{Keyed, grown, allocate-registers}

tensor_bytes_fp16 : tensor_bytes (4096 ∷ 4096 ∷ []) 2 ≡ 33554432
unfolding tensor_bytes product
tensor_bytes_fp16 = refl

generated_name_10 : generated_name 10 ≡ "vugva_alloc_10"
unfolding generated_name decimal digit
generated_name_10 = refl

abbrev blank_page : Page
blank_page = new_page "kv" (1024 ∷ []) 2

abbrev warm_page : Page
warm_page = record blank_page { state = warm }

run-Placed_example : Placed (run warm_page (allocated ∷ cold ∷ unmapped ∷ [])).state
run-Placed_example = run-Placed warm_page (allocated ∷ cold ∷ unmapped ∷ []) tt

abbrev one_page : VirtualMemoryTable
one_page = record { pages = ("kv", warm_page) ∷ []; num_gpus = 1; num_numa_nodes = 1; next_id = 0 }

one_page-Keyed : Keyed one_page.pages
unfolding get
one_page-Keyed = (refl, tt)

abbrev no_name : String
no_name = ""

allocate-registers_example :
    let (key, t') = allocate one_page no_name (16 ∷ []) 4 in
    (no_name ≢ "" → key ≡ no_name)
    × (lookup t' key ≡ some (allocated_page key (16 ∷ []) 4))
    × ((i : String) → key ≢ i → lookup t' i ≡ lookup one_page i)
    × (len t' ≡ grown (lookup one_page key) (len one_page))
    × Keyed t'.pages
allocate-registers_example = allocate-registers one_page no_name (16 ∷ []) 4 one_page-Keyed
