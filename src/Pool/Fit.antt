-- ===== src/Pool/Fit.antt =====
-- The best-fit search of `DramPool::allocate` of src/tiered.rs, and that it is the one of src/range_alloc.rs.
use vugva.Common.{
  ℕ, ◌+◌, ◌*◌, ◌/◌, ◌==◌, ◌≡◌, refl, ap, ◌∙◌, Bool, true, ◌&&◌, Option, none, some, List, [], ◌∷◌,
  ltb, leb, if◌then◌else◌, add_word, sub_word, get_or, set, remove_at,
}
use vugva.FreeList.{Block, no_block, improves, best_fit_from, best_fit, carve_at, carve}

-- `DramPool::align`
unfoldable pub align_chunk : ℕ → ℕ
align_chunk bytes = add_word bytes 63 / 64 * 64

-- `best.is_none() || best.is_some_and(|b| len < self.free_blocks[b].1)`
unfoldable pub is_tighter : List Block → ℕ → Option ℕ → Bool
is_tighter blocks len none = true
is_tighter blocks len (some b) = ltb len (get_or blocks b no_block).1

-- The loop over the free blocks, from index `i` on.
unfoldable pub search_from : List Block → ℕ → List Block → ℕ → Option ℕ → Option ℕ
unfolding is_tighter
search_from blocks aligned [] i best = best
search_from blocks aligned ((_, len) ∷ rest) i best =
    search_from blocks aligned rest (i + 1)
      (if leb aligned len && is_tighter blocks len best then some i else best)

-- The block that was found is removed, or keeps its tail.
unfoldable pub shrink_block : List Block → ℕ → ℕ → List Block
shrink_block blocks i aligned =
    let (off, len) = get_or blocks i no_block in
    if len == aligned
    then remove_at blocks i
    else set blocks i (add_word off aligned, sub_word len aligned)

-- "Reuse before extending": the offset of the block, and the list that is left.
unfoldable pub reuse : List Block → ℕ → Option (ℕ × List Block)
unfolding search_from shrink_block
reuse blocks aligned = elim (search_from blocks aligned blocks 0 none) [
  | none ↦ none
  | some i ↦ some ((get_or blocks i no_block).0, shrink_block blocks i aligned)
]

is_tighter-improves :
    (blocks : List Block) (len : ℕ) (best : Option ℕ)
    → is_tighter blocks len best ≡ improves blocks len best
unfolding is_tighter
is_tighter-improves blocks len none = refl
is_tighter-improves blocks len (some b) = refl

search_from-best_fit_from :
    (blocks : List Block) (aligned : ℕ) (rest : List Block) (i : ℕ) (best : Option ℕ)
    → search_from blocks aligned rest i best ≡ best_fit_from blocks aligned rest i best
unfolding search_from best_fit_from
search_from-best_fit_from blocks aligned [] i best = refl
search_from-best_fit_from blocks aligned ((_, len) ∷ rest) i best =
    ap
      (λ (b : Bool).
        search_from blocks aligned rest (i + 1) (if leb aligned len && b then some i else best))
      (is_tighter-improves blocks len best)
    ∙ search_from-best_fit_from blocks aligned rest (i + 1)
        (if leb aligned len && improves blocks len best then some i else best)

-- The pool takes the block that the allocator takes, and leaves the same list.
pub reuse-carve : (blocks : List Block) (aligned : ℕ) → reuse blocks aligned ≡ carve blocks aligned
unfolding reuse carve best_fit shrink_block carve_at
reuse-carve blocks aligned =
    ap
      (λ (o : Option ℕ). elim o as (λ _. Option (ℕ × List Block)) [
        | none ↦ none
        | some i ↦ some ((get_or blocks i no_block).0, shrink_block blocks i aligned)
      ])
      (search_from-best_fit_from blocks aligned blocks 0 none)
