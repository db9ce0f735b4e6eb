-- ===== src/FreeList/Insert.antt =====
-- Putting a range into its slot keeps the free list valid and frees exactly the range.
use vugva.Common.{
  ℕ, suc, ◌+◌, ◌%◌, ◌≤◌, ◌<◌, ◌^◌, ◌≡◌, sym, ap, ◌∙◌, inl, inr, Bool, not, ◌&&◌, ◌||◌, List, [],
  ◌∷◌, ◌++◌, arith, ltb, ◌==◌, if◌then◌else◌, length, Bool-cases, ==→eq, not-==→ne, append_assoc,
  length-append, insert_at-append, insert_at,
}
use vugva.FreeList.{Block, Region, insert_range, coalesce_left}
use vugva.FreeList.Sorted.{
  Blocks, next_start, in_block, is_free, Blocks-append_left, Blocks-append_right, Blocks-lower,
  Blocks-raise, is_free-append, is_free-cons, Blocks-cut, next_start-append,
}
use vugva.FreeList.Joint.{
  right_len, right_rest, coalesce_right-append, coalesce_left-append, retract_at, retract-append,
}
use vugva.FreeList.Slot.{
  IsValid, owned, Slot, right-Slot, right-is_free, retract_at-IsValid, retract_at-owned,
}

abbrev pub region : ℕ → List Block → Region
region offset blocks = record { offset = offset; free_blocks = blocks }

-- The range becomes the first block of the list.
pub insert_range-first :
    (top off len : ℕ) (post : List Block)
    → top < 2 ^ 64
    → Slot top [] off len post
    → insert_range (region top post) 0 off len
      ≡ retract_at top [] off (right_len off len post) (right_rest off len post)
unfolding insert_range coalesce_left
insert_range-first top off len post w s =
    rw (coalesce_right-append [] off len post top w s.inside s.back) (
      retract-append top [] off (right_len off len post) (right_rest off len post)
        (omega (arith, right-Slot top [] off len post s)))

-- The range goes in after a block `(po, pl)`.
abbrev pub after_block : ℕ → List Block → ℕ → ℕ → ℕ → ℕ → List Block → Region
after_block top pre po pl off m rest =
    if po + pl == off
    then retract_at top pre po (pl + m) rest
    else retract_at top (pre ++ (po, pl) ∷ []) off m rest

pub insert_range-after :
    (top : ℕ) (pre : List Block) (po pl off len : ℕ) (post : List Block)
    → top < 2 ^ 64
    → Slot top (pre ++ (po, pl) ∷ []) off len post
    → insert_range (region top (pre ++ (po, pl) ∷ post)) (length (pre ++ (po, pl) ∷ [])) off len
      ≡ after_block top pre po pl off (right_len off len post) (right_rest off len post)
unfolding insert_range
insert_range-after top pre po pl off len post w s =
    let m : ℕ = right_len off len post in
    let rest : List Block = right_rest off len post in
    let front : List Block = pre ++ (po, pl) ∷ [] in
    let (r0, r1, r2, r3) = right-Slot top front off len post s in
    let (a, b, c, al, al2, d) = Blocks-append_right 0 pre ((po, pl) ∷ []) (suc off) s.front in
    let joined : pre ++ (po, pl) ∷ post ≡ front ++ post =
      sym (append_assoc pre ((po, pl) ∷ []) post) in
    let inserted : insert_at (pre ++ (po, pl) ∷ post) (length front) (off, len)
        ≡ front ++ (off, len) ∷ post =
      rw joined (insert_at-append front post (off, len)) in
    let size : length front ≡ length pre + 1 = length-append pre ((po, pl) ∷ []) in
    let apart : front ++ (off, m) ∷ rest ≡ pre ++ (po, pl) ∷ (off, m) ∷ rest =
      append_assoc pre ((po, pl) ∷ []) ((off, m) ∷ rest) in
    rw
      (
        inserted,
        coalesce_right-append front off len post top w s.inside s.back,
        apart,
        size,
        coalesce_left-append pre po pl off m rest (omega arith),
      )
      (elim (Bool-cases (po + pl == off)) [
        | inl touch ↦ rw touch (retract-append top pre po (pl + m) rest (omega arith))
        | inr more ↦ rw (more, ← apart, ← size) (retract-append top front off m rest (omega arith))
      ])

-- What a valid result is: a free list again, with exactly the range freed besides what was free.
pub record Freed (top : ℕ) (bs : List Block) (off len : ℕ) (r : Region) : Type 0 where
  pub valid : IsValid r
  pub lower : r.offset ≤ top
  pub owns : (a : ℕ) → owned r a ≡ ltb a top && not (is_free bs a || in_block (off, len) a)

-- A retraction frees what its block and the blocks around it cover.
retract_at-Freed :
    (top : ℕ) (pre : List Block) (o l : ℕ) (rest bs : List Block) (off len : ℕ)
    → top < 2 ^ 64
    → top % 64 ≡ 0
    → 0 < l
    → o % 64 ≡ 0
    → l % 64 ≡ 0
    → o + l ≤ top
    → Blocks 0 pre o
    → Blocks (suc (o + l)) rest top
    → ((a : ℕ) → is_free (pre ++ (o, l) ∷ rest) a ≡ is_free bs a || in_block (off, len) a)
    → Freed top bs off len (retract_at top pre o l rest)
retract_at-Freed top pre o l rest bs off len w t p q r s front back same = record {
  valid = retract_at-IsValid top pre o l rest w t p q r s front back;
  lower = ground arith;
  owns = λ a.
      retract_at-owned top pre o l rest a s front back
      ∙ ap (λ (b : Bool). ltb a top && not b) (same a);
}

first-covers :
    (off len : ℕ) (post : List Block) (a : ℕ)
    → is_free ((off, right_len off len post) ∷ right_rest off len post) a
      ≡ is_free post a || in_block (off, len) a
first-covers off len post a =
    ground (arith, right-is_free off len post a, is_free-cons (off, len) post a)

after-covers_touch :
    (pre : List Block) (po pl off len : ℕ) (post : List Block)
    → po + pl ≡ off
    → (a : ℕ)
    → is_free (pre ++ (po, pl + right_len off len post) ∷ right_rest off len post) a
      ≡ is_free (pre ++ (po, pl) ∷ post) a || in_block (off, len) a
after-covers_touch pre po pl off len post e a =
    let m : ℕ = right_len off len post in
    let rest : List Block = right_rest off len post in
    ground (
      arith,
      first-covers off len post a,
      is_free-cons (off, m) rest a,
      is_free-cons (po, pl + m) rest a,
      is_free-cons (po, pl) post a,
      is_free-append pre ((po, pl + m) ∷ rest) a,
      is_free-append pre ((po, pl) ∷ post) a,
    )

after-covers_apart :
    (pre : List Block) (po pl off len : ℕ) (post : List Block) (a : ℕ)
    → is_free ((pre ++ (po, pl) ∷ []) ++ (off, right_len off len post) ∷ right_rest off len post) a
      ≡ is_free (pre ++ (po, pl) ∷ post) a || in_block (off, len) a
after-covers_apart pre po pl off len post a =
    let tail : List Block = (off, right_len off len post) ∷ right_rest off len post in
    rw (append_assoc pre ((po, pl) ∷ []) tail) (
      ground (
        arith,
        first-covers off len post a,
        is_free-cons (po, pl) tail a,
        is_free-cons (po, pl) post a,
        is_free-append pre ((po, pl) ∷ tail) a,
        is_free-append pre ((po, pl) ∷ post) a,
      ))

pub first-Freed :
    (top off len : ℕ) (post : List Block)
    → top < 2 ^ 64
    → top % 64 ≡ 0
    → Slot top [] off len post
    → Freed top post off len (insert_range (region top post) 0 off len)
first-Freed top off len post w t s =
    let m : ℕ = right_len off len post in
    let rest : List Block = right_rest off len post in
    let (r0, r1, r2, r3) = right-Slot top [] off len post s in
    rw (insert_range-first top off len post w s) (
      retract_at-Freed top [] off m rest post off len w t (omega (arith, s.nonempty)) s.aligned r1
        r2 tt r3 (first-covers off len post))

pub after-Freed :
    (top : ℕ) (pre : List Block) (po pl off len : ℕ) (post : List Block)
    → top < 2 ^ 64
    → top % 64 ≡ 0
    → Slot top (pre ++ (po, pl) ∷ []) off len post
    → Freed top
        (pre ++ (po, pl) ∷ post)
        off
        len
        (insert_range (region top (pre ++ (po, pl) ∷ post)) (length (pre ++ (po, pl) ∷ [])) off len)
after-Freed top pre po pl off len post w t s =
    let m : ℕ = right_len off len post in
    let rest : List Block = right_rest off len post in
    let front : List Block = pre ++ (po, pl) ∷ [] in
    let (r0, r1, r2, r3) = right-Slot top front off len post s in
    let (a, b, c, al, al', d) = Blocks-append_right 0 pre ((po, pl) ∷ []) (suc off) s.front in
    let below =
      Blocks-cut 0 pre (suc off) (Blocks-append_left 0 pre ((po, pl) ∷ []) (suc off) s.front) in
    rw (insert_range-after top pre po pl off len post w s) (elim (Bool-cases (po + pl == off)) [
      | inl touch ↦ rw touch (
          retract_at-Freed top pre po (pl + m) rest _ off len w t (omega arith) al (omega arith)
            (omega (arith, ==→eq _ _ touch)) (Blocks-raise 0 pre (next_start 0 pre) po a below)
            (Blocks-lower (suc (off + m)) (suc (po + (pl + m))) rest top
              (omega (arith, ==→eq _ _ touch)) r3)
            (after-covers_touch pre po pl off len post (==→eq _ _ touch)))
      | inr apart ↦ rw apart (
          retract_at-Freed top front off m rest _ off len w t (omega (arith, s.nonempty)) s.aligned
            r1 r2
            (Blocks-raise 0 front (next_start 0 front) off
              (omega (arith, next_start-append 0 pre po pl, not-==→ne _ _ apart))
              (Blocks-cut 0 front (suc off) s.front))
            r3 (after-covers_apart pre po pl off len post))
    ])
