-- ===== src/FreeList.antt =====
-- The free list that src/range_alloc.rs and `DramPool` of src/tiered.rs keep: returned ranges
-- `(offset, length)`, sorted by offset and coalesced. The two sources have the same text for what is returned.
pub mod Sorted
pub mod BestFit
pub mod Carve
pub mod Joint
pub mod Slot
pub mod Insert
pub mod Overlap
pub mod Release
pub mod Inverse
mod Tests
use vugva.Common.{
  ℕ, zero, suc, ◌+◌, ◌-◌, ◌*◌, ◌/◌, Bool, true, false, ◌&&◌, ◌||◌, Option, none, some, List, [],
  ◌∷◌, ltb, leb, ◌==◌, if◌then◌else◌, add_word, sub_word, length, get_or, set, insert_at, remove_at,
}

abbrev pub Block : Type 0
Block = ℕ × ℕ

-- `(bytes + ALIGN - 1) & !(ALIGN - 1)`: the low six bits are cleared.
unfoldable pub align : ℕ → ℕ
align bytes = add_word bytes 63 / 64 * 64

-- What an index out of range would read.
abbrev pub no_block : Block
no_block = (0, 0)

-- `best.is_none() || best.is_some_and(|b| len < self.free_blocks[b].1)`
abbrev pub improves : List Block → ℕ → Option ℕ → Bool
improves all len none = true
improves all len (some b) = ltb len (get_or all b no_block).1

-- The loop over `self.free_blocks.iter().enumerate()`, from index `i` on.
unfoldable pub best_fit_from : List Block → ℕ → List Block → ℕ → Option ℕ → Option ℕ
best_fit_from all aligned [] i best = best
best_fit_from all aligned ((o, len) ∷ rest) i best =
    best_fit_from all aligned rest (i + 1)
      (if leb aligned len && improves all len best then some i else best)

unfoldable pub best_fit : List Block → ℕ → Option ℕ
best_fit blocks aligned = best_fit_from blocks aligned blocks 0 none

-- `if len == aligned { remove(i) } else { keep the tail }`
unfoldable pub carve_at : List Block → ℕ → ℕ → List Block
carve_at blocks i aligned =
    let (off, len) = get_or blocks i no_block in
    if len == aligned
    then remove_at blocks i
    else set blocks i (add_word off aligned, sub_word len aligned)

-- "Reuse before extending": the offset handed out, and the list that is left.
unfoldable pub carve : List Block → ℕ → Option (ℕ × List Block)
carve blocks aligned = elim (best_fit blocks aligned) [
  | none ↦ none
  | some i ↦ some ((get_or blocks i no_block).0, carve_at blocks i aligned)
]

-- `iter().map(|&(_, l)| l).sum()`
unfoldable pub free_bytes : List Block → ℕ
free_bytes [] = 0
free_bytes ((_, l) ∷ bs) = add_word l (free_bytes bs)

-- `partition_point(|&(o, _)| o < off)` of a sorted list.
unfoldable pub partition_point : List Block → ℕ → ℕ
partition_point [] off = 0
partition_point ((o, _) ∷ bs) off = if ltb o off then suc (partition_point bs off) else 0

-- The high-water mark and the free list, which `free` updates together.
pub record Region : Type 0 where
  pub offset : ℕ
  pub free_blocks : List Block

-- "Coalesce right".
unfoldable pub coalesce_right : List Block → ℕ → ℕ → ℕ → List Block
coalesce_right bs pos off len =
    let (next_off, next_len) = get_or bs (pos + 1) no_block in
    if ltb (pos + 1) (length bs) && (add_word off len == next_off)
    then remove_at (set bs pos (off, add_word (get_or bs pos no_block).1 next_len)) (pos + 1)
    else bs

-- "then left": the list, and the index of the block that holds the range.
unfoldable pub coalesce_left : List Block → ℕ → ℕ → List Block × ℕ
coalesce_left bs pos off =
    let (po, pl) = get_or bs (pos - 1) no_block in
    if ltb 0 pos && (add_word po pl == off)
    then (remove_at (set bs (pos - 1) (po, add_word pl (get_or bs pos no_block).1)) pos, pos - 1)
    else (bs, pos)

-- "Retract the high-water mark if the top block now touches it."
unfoldable pub retract : ℕ → List Block → ℕ → Region
retract offset bs idx =
    let (o, l) = get_or bs idx no_block in
    if add_word o l == offset
    then record { offset = o; free_blocks = remove_at bs idx }
    else record { offset = offset; free_blocks = bs }

unfoldable pub insert_range : Region → ℕ → ℕ → ℕ → Region
insert_range r pos off len =
    let inserted = insert_at r.free_blocks pos (off, len) in
    let (bs, idx) = coalesce_left (coalesce_right inserted pos off len) pos off in
    retract r.offset bs idx

-- The two overlap tests at the insertion point.
unfoldable pub overlaps : List Block → ℕ → ℕ → ℕ → Bool
overlaps bs pos off len =
    let (po, pl) = get_or bs (pos - 1) no_block in
    (ltb pos (length bs) && ltb (get_or bs pos no_block).0 (add_word off len))
    || (ltb 0 pos && ltb off (add_word po pl))

-- The body of `free`, from the alignment of the size on.
unfoldable pub release : Region → ℕ → ℕ → Region
release r off bytes =
    let len = align bytes in
    let pos = partition_point r.free_blocks off in
    if (len == 0) || ltb r.offset (add_word off len)
    then r
    else if overlaps r.free_blocks pos off len
    then r
    else insert_range r pos off len
