-- ===== src/FreeList/Joint.antt =====
-- The index arithmetic of `free`, read at the joint where the range goes in.
use vugva.Common.{
  ℕ, suc, ◌+◌, ◌-◌, ◌≤◌, ◌<◌, ◌^◌, ◌≡◌, refl, ap, inl, inr, true, false, ◌&&◌, List, [], ◌∷◌, ◌++◌,
  arith, ltb, ◌==◌, if◌then◌else◌, length, Bool-cases, get_or-append, set-append, remove_at-append,
  length-append, lt→ltb, le→not-ltb, get_or-next, remove_at-next, add_word-eq,
}
use vugva.FreeList.{
  Block, Region, no_block, partition_point, coalesce_right, coalesce_left, retract,
}
use vugva.FreeList.Sorted.{Blocks}

-- The blocks that start before `off`, and those from there on.
abbrev pub before : ℕ → List Block → List Block
before off [] = []
before off ((o, l) ∷ bs) = if ltb o off then (o, l) ∷ before off bs else []

abbrev pub behind : ℕ → List Block → List Block
behind off [] = []
behind off ((o, l) ∷ bs) = if ltb o off then behind off bs else (o, l) ∷ bs

pub before-append-behind : (off : ℕ) (bs : List Block) → before off bs ++ behind off bs ≡ bs
before-append-behind off [] = refl
before-append-behind off ((o, l) ∷ bs) = elim (Bool-cases (ltb o off)) [
  | inl less ↦ rw less (ap (λ t. (o, l) ∷ t) (before-append-behind off bs))
  | inr more ↦ rw more refl
]

pub partition_point-eq-length :
    (off : ℕ) (bs : List Block) → partition_point bs off ≡ length (before off bs)
unfolding partition_point
partition_point-eq-length off [] = refl
partition_point-eq-length off ((o, l) ∷ bs) = elim (Bool-cases (ltb o off)) [
  | inl less ↦ rw less (ap suc (partition_point-eq-length off bs))
  | inr more ↦ rw more refl
]

-- `coalesce_right`, at the joint: the length of the block, and the blocks behind it.
abbrev pub right_len : ℕ → ℕ → List Block → ℕ
right_len off len [] = len
right_len off len ((o, l) ∷ post) = if off + len == o then len + l else len

abbrev pub right_rest : ℕ → ℕ → List Block → List Block
right_rest off len [] = []
right_rest off len ((o, l) ∷ post) = if off + len == o then post else (o, l) ∷ post

pub coalesce_right-append :
    (pre : List Block) (off len : ℕ) (post : List Block) (hi : ℕ)
    → hi < 2 ^ 64
    → off + len ≤ hi
    → Blocks (off + len) post hi
    → coalesce_right (pre ++ (off, len) ∷ post) (length pre) off len
      ≡ pre ++ (off, right_len off len post) ∷ right_rest off len post
unfolding coalesce_right
coalesce_right-append pre off len [] hi w h v = rw (not_last, ◌&&◌) refl
  where
    not_last : ltb (length pre + 1) (length (pre ++ (off, len) ∷ [])) ≡ false
    not_last = le→not-ltb _ _ (omega (arith, length-append pre ((off, len) ∷ [])))
coalesce_right-append pre off len ((o, l) ∷ post) hi w h v =
    rw (more, get_or-next pre (off, len) (o, l) post no_block, add_word-eq off len (omega arith))
      (elim (Bool-cases (off + len == o)) [
        | inl touch ↦
            rw
              (
                touch,
                get_or-append pre (off, len) ((o, l) ∷ post) no_block,
                add_word-eq len l (omega arith),
                set-append pre (off, len) ((o, l) ∷ post) (off, len + l),
              )
              (remove_at-next pre (off, len + l) (o, l) post)
        | inr apart ↦ rw apart refl
      ])
  where
    more : ltb (length pre + 1) (length (pre ++ (off, len) ∷ (o, l) ∷ post)) ≡ true
    more = lt→ltb _ _ (omega (arith, length-append pre ((off, len) ∷ (o, l) ∷ post)))

-- `coalesce_left`, behind a block `(po, pl)`.
pub coalesce_left-append :
    (pre : List Block) (po pl off m : ℕ) (rest : List Block)
    → po + pl + m < 2 ^ 64
    → coalesce_left (pre ++ (po, pl) ∷ (off, m) ∷ rest) (length pre + 1) off ≡ (
        if po + pl == off
        then (pre ++ (po, pl + m) ∷ rest, length pre)
        else (pre ++ (po, pl) ∷ (off, m) ∷ rest, length pre + 1))
unfolding coalesce_left
coalesce_left-append pre po pl off m rest w =
    rw
      (
        here,
        positive,
        get_or-append pre (po, pl) ((off, m) ∷ rest) no_block,
        add_word-eq po pl (omega arith),
      )
      (elim (Bool-cases (po + pl == off)) [
        | inl touch ↦ rw (
          touch,
          get_or-next pre (po, pl) (off, m) rest no_block,
          add_word-eq pl m (omega arith),
          set-append pre (po, pl) ((off, m) ∷ rest) (po, pl + m),
          remove_at-next pre (po, pl + m) (off, m) rest,
        )
        | inr apart ↦ rw apart refl
      ])
  where
    here : length pre + 1 - 1 ≡ length pre
    here = omega arith

    positive : ltb 0 (length pre + 1) ≡ true
    positive = lt→ltb _ _ (omega arith)

-- `retract`, at the joint.
abbrev pub retract_at : ℕ → List Block → ℕ → ℕ → List Block → Region
retract_at offset pre o l post =
    if o + l == offset
    then record { offset = o; free_blocks = pre ++ post }
    else record { offset = offset; free_blocks = pre ++ (o, l) ∷ post }

pub retract-append :
    (offset : ℕ) (pre : List Block) (o l : ℕ) (post : List Block)
    → o + l < 2 ^ 64
    → retract offset (pre ++ (o, l) ∷ post) (length pre) ≡ retract_at offset pre o l post
unfolding retract
retract-append offset pre o l post w =
    rw (get_or-append pre (o, l) post no_block, add_word-eq o l w, remove_at-append pre (o, l) post)
      refl
