-- ===== src/FreeList/Inverse.antt =====
-- Releasing what was just handed out gives back the region it came from, block for block.
use vugva.Common.{
  ℕ, suc, ◌+◌, ◌-◌, ◌%◌, ◌≤◌, ◌<◌, ◌^◌, ◌≡◌, refl, sym, ap, ap₂, ◌∙◌, inl, inr, false, List, [],
  ◌∷◌, ◌++◌, arith, ◌==◌, length, Bool-cases, subst, ==→eq, not-==→ne, ne→not-==, eq→==, lt→ltb,
  le→not-ltb, append_assoc, snoc-cases, append-nil, add_word-eq,
}
use vugva.FreeList.{Block, Region, align, partition_point, overlaps, insert_range, release}
use vugva.FreeList.Sorted.{
  Blocks, next_start, Blocks-append_left, Blocks-append_right, Blocks-lower, Blocks-raise,
  Blocks-cut, align_bounds,
}
use vugva.FreeList.Slot.{Slot}
use vugva.FreeList.Insert.{region, insert_range-first, insert_range-after}
use vugva.FreeList.Joint.{right_len, right_rest, retract_at}
use vugva.FreeList.Overlap.{starts_below, overlaps-first, overlaps-after}
use vugva.FreeList.Carve.{remains}

-- A slot's place in the list is found by `partition_point`.
partition_point-Slot :
    (lo : ℕ) (pre : List Block) (off : ℕ) (post : List Block) (hi : ℕ)
    → Blocks lo pre (suc off)
    → Blocks off post hi
    → partition_point (pre ++ post) off ≡ length pre
unfolding partition_point
partition_point-Slot lo [] off [] hi f b = refl
partition_point-Slot lo [] off ((o, l) ∷ post) hi f b = rw (le→not-ltb o off b.0) refl
partition_point-Slot lo ((o, l) ∷ pre) off post hi f b =
    rw (lt→ltb o off (omega (arith, f.1, f.2)))
      (ap suc (partition_point-Slot (suc (o + l)) pre off post hi f.5 b))

starts_below-Slot :
    (n : ℕ) (post : List Block) (hi : ℕ) → Blocks n post hi → starts_below post n ≡ false
starts_below-Slot n [] hi b = refl
starts_below-Slot n ((o, l) ∷ post) hi b = le→not-ltb o n b.0

-- In a slot that touches no block before it, the range keeps its start.
module _ (top off bytes : ℕ) (w : top < 2 ^ 64) (small : bytes ≤ 2 ^ 63) where
  enter :
      (pre post : List Block)
      → Slot top pre off (align bytes) post
      → overlaps (pre ++ post) (length pre) off (align bytes) ≡ false
      → release (region top (pre ++ post)) off bytes
        ≡ insert_range (region top (pre ++ post)) (length pre) off (align bytes)
  unfolding release
  enter pre post s clear =
      rw
        (
          ne→not-== (align bytes) 0 (omega (arith, s.nonempty)),
          add_word-eq off (align bytes) (omega (arith, s.inside)),
          le→not-ltb top (off + align bytes) s.inside,
          partition_point-Slot 0 pre off post top s.front
              (Blocks-lower (off + align bytes) off post top (omega arith) s.back),
          clear,
        )
        refl

  abbrev Kept : List Block → List Block → Type 0
  Kept post pre =
      Slot top pre off (align bytes) post
      → Blocks 0 pre off
      → release (region top (pre ++ post)) off bytes
        ≡ retract_at top pre off (right_len off (align bytes) post)
            (right_rest off (align bytes) post)

  release-first : (post : List Block) → Kept post []
  release-first post s apart =
      enter [] post s (
        overlaps-first post off (align bytes) (omega (arith, s.inside))
        ∙ starts_below-Slot (off + align bytes) post top s.back)
      ∙ insert_range-first top off (align bytes) post w s

  release-after : (post pre : List Block) (po pl : ℕ) → Kept post (pre ++ (po, pl) ∷ [])
  release-after post pre po pl s apart =
      let len : ℕ = align bytes in
      let front : List Block = pre ++ (po, pl) ∷ [] in
      let joined : front ++ post ≡ pre ++ (po, pl) ∷ post = append_assoc pre ((po, pl) ∷ []) post in
      let (b0, b1, b2, b3, b4, b5) = Blocks-append_right 0 pre ((po, pl) ∷ []) off apart in
      let clear : overlaps (front ++ post) (length front) off len ≡ false =
        rw
          (
            joined,
            overlaps-after pre po pl post off len (omega (arith, s.inside))
                (omega (arith, s.inside)),
            starts_below-Slot (off + len) post top s.back,
            le→not-ltb off (po + pl) (omega arith),
          )
          refl in
      enter front post s clear
      ∙ ap (λ bs. insert_range (region top bs) (length front) off len) joined
      ∙ insert_range-after top pre po pl off len post w s
      ∙ rw (ne→not-== (po + pl) off (omega arith)) refl

  release-Slot : (pre post : List Block) → Kept post pre
  release-Slot pre post = elim (snoc-cases pre) [
    | inl e ↦ subst (Kept post) (sym e) (release-first post)
    | inr (front, (po, pl), e) ↦ subst (Kept post) (sym e) (release-after post front po pl)
  ]

release-empty : (r : Region) (off bytes : ℕ) → align bytes ≡ 0 → release r off bytes ≡ r
unfolding release
release-empty r off bytes e = rw (eq→== (align bytes) 0 e) refl

-- A block that does not touch the next one stays as it is.
right-apart :
    (off n : ℕ) (post : List Block) (hi : ℕ)
    → Blocks (suc (off + n)) post hi
    → (right_len off n post ≡ n) × (right_rest off n post ≡ post)
right-apart off n [] hi b = (refl, refl)
right-apart off n ((o, l) ∷ post) hi b =
    rw (ne→not-== (off + n) o (omega (arith, b.0))) (refl, refl)

-- The slot that a carved range has left.
carved :
    (top : ℕ) (pre : List Block) (off bytes : ℕ) (post : List Block)
    → top < 2 ^ 64
    → bytes ≤ 2 ^ 63
    → 0 < align bytes
    → off % 64 ≡ 0
    → off + align bytes ≤ top
    → Blocks 0 pre off
    → Blocks (off + align bytes) post top
    → Slot top pre off (align bytes) post
carved top pre off bytes post w small n al i front back = record {
  nonempty = n;
  aligned = al;
  aligned_len = omega (arith, align_bounds bytes small);
  inside = i;
  front = Blocks-raise 0 pre off (suc off) (omega arith) front;
  back = back;
}

-- The range that was taken at the mark.
pub release-extend :
    (top : ℕ) (bs : List Block) (bytes : ℕ)
    → bytes ≤ 2 ^ 63
    → top % 64 ≡ 0
    → top + align bytes < 2 ^ 64
    → Blocks 0 bs top
    → release (region (top + align bytes) bs) top bytes ≡ region top bs
release-extend top bs bytes small al w v = elim (Bool-cases (align bytes == 0)) [
  | inl none_left ↦
      release-empty _ top bytes (==→eq _ _ none_left)
      ∙ ap (λ t. region t bs) (omega (arith, ==→eq _ _ none_left))
  | inr some_bytes ↦
      let s : Slot (top + align bytes) bs top (align bytes) [] = record {
        nonempty = omega (arith, not-==→ne _ _ some_bytes);
        aligned = al;
        aligned_len = omega (arith, align_bounds bytes small);
        inside = omega arith;
        front = Blocks-raise 0 bs top (suc top) (omega arith) v;
        back = tt;
      } in
      ap (λ xs. release (region (top + align bytes) xs) top bytes) (sym (append-nil bs))
      ∙ release-Slot (top + align bytes) top bytes w small bs [] s v
      ∙ rw (eq→== (top + align bytes) (top + align bytes) refl, append-nil) refl
]

-- The range that was carved out of a free block.
pub release-remains :
    (top : ℕ) (pre : List Block) (off len : ℕ) (post : List Block) (bytes : ℕ)
    → bytes ≤ 2 ^ 63
    → top < 2 ^ 64
    → align bytes ≤ len
    → Blocks 0 (pre ++ (off, len) ∷ post) top
    → release (region top (remains pre off len post (align bytes))) off bytes
      ≡ region top (pre ++ (off, len) ∷ post)
release-remains top pre off len post bytes small w fits v =
    let (v0, v1, v2, v3, v4, rest) = Blocks-append_right 0 pre ((off, len) ∷ post) top v in
    let front =
      Blocks-raise 0 pre (next_start 0 pre) off v0
        (Blocks-cut 0 pre top (Blocks-append_left 0 pre ((off, len) ∷ post) top v)) in
    let whole : align bytes + (len - align bytes) ≡ len = omega arith in
    elim (Bool-cases (align bytes == 0)) [
      | inl none_left ↦
          release-empty _ off bytes (==→eq _ _ none_left)
          ∙ rw (==→eq _ _ none_left, ne→not-== len 0 (omega arith))
              (ap₂ (λ a b. region top (pre ++ (a, b) ∷ post)) (omega arith) (omega arith))
      | inr some_bytes ↦
          let n : ℕ = align bytes in
          let slot = λ (xs : List Block) (back : Blocks (off + n) xs top).
            carved top pre off bytes xs w small (omega (arith, not-==→ne _ _ some_bytes)) v3
              (omega arith) front back in
          elim (Bool-cases (len == n)) [
            | inl exact ↦ rw exact (
                let (el, er) =
                  right-apart off n post top
                    (Blocks-lower (suc (off + len)) (suc (off + n)) post top (omega arith) rest) in
                release-Slot top off bytes w small pre post
                  (slot post (Blocks-lower (suc (off + len)) (off + n) post top (omega arith) rest))
                  front
                ∙ rw (el, er, ne→not-== (off + n) top (omega (arith, ==→eq _ _ exact)))
                    (ap (λ k. region top (pre ++ (off, k) ∷ post)) (sym (==→eq _ _ exact))))
            | inr more ↦ rw more (
                release-Slot top off bytes w small pre ((off + n, len - n) ∷ post)
                  (slot ((off + n, len - n) ∷ post) (
                    omega arith,
                    omega (arith, not-==→ne _ _ more),
                    omega arith,
                    omega (arith, align_bounds bytes small),
                    omega (arith, align_bounds bytes small),
                    Blocks-lower (suc (off + len)) (suc (off + n + (len - n))) post top
                        (omega arith) rest,
                  ))
                  front
                ∙ rw
                    (eq→== (off + n) (off + n) refl, whole, ne→not-== (off + len) top (omega arith))
                    refl)
          ]
    ]
