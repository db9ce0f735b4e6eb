-- ===== src/FreeList/Slot.antt =====
-- A range that fits between the free blocks: what coalescing and retraction make of the list.
use vugva.Common.{
  ℕ, suc, ◌+◌, ◌%◌, ◌≤◌, ◌<◌, ◌^◌, ◌≡◌, refl, inl, inr, Bool, false, not, ◌&&◌, List, [], ◌∷◌, ◌++◌,
  arith, ltb, ◌==◌, Bool-cases, ==→eq, not-==→ne, ne→not-==, append-nil,
}
use vugva.FreeList.{Block, Region}
use vugva.FreeList.Sorted.{
  Blocks, is_free, Blocks-append, Blocks-lower, Blocks-raise, is_free-append, is_free-above,
  next_start-le,
}
use vugva.FreeList.Joint.{right_len, right_rest, retract_at}

-- The mark is an aligned address, and the blocks below it form a free list.
pub record IsValid (r : Region) : Type 0 where
  pub bounded : r.offset < 2 ^ 64
  pub mark : r.offset % 64 ≡ 0
  pub blocks : Blocks 0 r.free_blocks r.offset

-- Whether address `a` is handed out.
unfoldable pub owned : Region → ℕ → Bool
owned r a = ltb a r.offset && not (is_free r.free_blocks a)

-- The range of `len` bytes at `off` lies between `pre` and `post`, below the mark.
pub record Slot (offset : ℕ) (pre : List Block) (off len : ℕ) (post : List Block) : Type 0 where
  pub nonempty : 0 < len
  pub aligned : off % 64 ≡ 0
  pub aligned_len : len % 64 ≡ 0
  pub inside : off + len ≤ offset
  pub front : Blocks 0 pre (suc off)
  pub back : Blocks (off + len) post offset

-- What coalescing to the right leaves behind the block.
pub right-Slot :
    (offset : ℕ) (pre : List Block) (off len : ℕ) (post : List Block)
    → Slot offset pre off len post
    → let m = right_len off len post in
      (len ≤ m)
      × (m % 64 ≡ 0)
      × (off + m ≤ offset)
      × Blocks (suc (off + m)) (right_rest off len post) offset
right-Slot offset pre off len [] s = (omega arith, s.aligned_len, s.inside, tt)
right-Slot offset pre off len ((o, l) ∷ post) s =
    let (low, pos, high, al, al', p) = s.back in
    elim (Bool-cases (off + len == o)) [
      | inl touch ↦ rw touch (
        omega arith,
        omega (arith, s.aligned_len),
        omega (arith, ==→eq _ _ touch),
        Blocks-lower (suc (o + l)) (suc (off + (len + l))) post offset
            (omega (arith, ==→eq _ _ touch)) p,
      )
      | inr apart ↦ rw apart (
        omega arith,
        s.aligned_len,
        s.inside,
        (omega (arith, not-==→ne _ _ apart), pos, high, al, al', p),
      )
    ]

pub right-is_free :
    (off len : ℕ) (post : List Block) (a : ℕ)
    → is_free ((off, right_len off len post) ∷ right_rest off len post) a
      ≡ is_free ((off, len) ∷ post) a
unfolding is_free
right-is_free off len [] a = refl
right-is_free off len ((o, l) ∷ post) a = elim (Bool-cases (off + len == o)) [
  | inl touch ↦ rw touch (ground (arith, ==→eq _ _ touch))
  | inr apart ↦ rw apart refl
]

-- A block that may touch the mark, and nothing else.
pub retract_at-IsValid :
    (offset : ℕ) (pre : List Block) (o l : ℕ) (post : List Block)
    → offset < 2 ^ 64
    → offset % 64 ≡ 0
    → 0 < l
    → o % 64 ≡ 0
    → l % 64 ≡ 0
    → o + l ≤ offset
    → Blocks 0 pre o
    → Blocks (suc (o + l)) post offset
    → IsValid (retract_at offset pre o l post)
retract_at-IsValid offset pre o l [] w t p q r s front back = elim (Bool-cases (o + l == offset)) [
  | inl touch ↦ rw touch (record { bounded = omega arith; mark = q; blocks = rw append-nil front })
  | inr apart ↦ rw apart (record {
    bounded = w;
    mark = t;
    blocks =
        Blocks-append 0 pre ((o, l) ∷ []) offset (Blocks-raise 0 pre o offset (omega arith) front) (
          next_start-le 0 pre o (omega arith) front,
          p,
          omega (arith, not-==→ne _ _ apart),
          q,
          r,
          tt,
        );
  })
]
retract_at-IsValid offset pre o l ((o', l') ∷ post) w t p q r s front back = rw (below) (record {
  bounded = w;
  mark = t;
  blocks =
      Blocks-append 0 pre ((o, l) ∷ (o', l') ∷ post) offset
        (Blocks-raise 0 pre o offset (omega arith) front)
        (next_start-le 0 pre o (omega arith) front, p, omega (arith, back.2), q, r, back);
})
  where
    below : (o + l == offset) ≡ false
    below = ne→not-== _ _ (omega (arith, back.2))

pub retract_at-owned :
    (offset : ℕ) (pre : List Block) (o l : ℕ) (post : List Block) (a : ℕ)
    → o + l ≤ offset
    → Blocks 0 pre o
    → Blocks (suc (o + l)) post offset
    → owned (retract_at offset pre o l post) a
      ≡ ltb a offset && not (is_free (pre ++ (o, l) ∷ post) a)
unfolding owned is_free
retract_at-owned offset pre o l [] a s front back = elim (Bool-cases (o + l == offset)) [
  | inl touch ↦ rw touch (
      ground (
        arith,
        ==→eq _ _ touch,
        is_free-append pre [] a,
        is_free-append pre ((o, l) ∷ []) a,
        is_free-above 0 pre o a front,
      ))
  | inr apart ↦ rw apart refl
]
retract_at-owned offset pre o l ((o', l') ∷ post) a s front back = rw (below) refl
  where
    below : (o + l == offset) ≡ false
    below = ne→not-== _ _ (omega (arith, back.2))
