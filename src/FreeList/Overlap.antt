-- ===== src/FreeList/Overlap.antt =====
-- The overlap tests of `free`, and the point that they look at.
use vugva.Common.{
  ℕ, ◌+◌, ◌-◌, ◌≤◌, ◌<◌, ◌^◌, ◌≡◌, refl, sym, inl, inr, Bool, true, false, ◌&&◌, ◌||◌, List, [],
  ◌∷◌, ◌++◌, arith, ltb, length, get_or, Bool-cases, subst, ltb→lt, not-ltb→le, lt→ltb, le→not-ltb,
  append_assoc, length-append, add_word, add_word-eq, get_or-append,
}
use vugva.FreeList.{Block, no_block, overlaps}
use vugva.FreeList.Joint.{before, behind}

-- The tests at the insertion point, read off the two sides.
abbrev pub starts_below : List Block → ℕ → Bool
starts_below [] n = false
starts_below ((o, l) ∷ post) n = ltb o n

test_right :
    (pre post : List Block) (off len : ℕ)
    → off + len < 2 ^ 64
    → (ltb (length pre) (length (pre ++ post))
        && ltb (get_or (pre ++ post) (length pre) no_block).0 (add_word off len))
      ≡ starts_below post (off + len)
test_right pre [] off len w =
    rw (le→not-ltb (length pre) (length (pre ++ [])) (omega (arith, length-append pre [])), ◌&&◌)
      refl
test_right pre ((o, l) ∷ post) off len w =
    rw
      (
        lt→ltb (length pre) (length (pre ++ (o, l) ∷ post))
            (omega (arith, length-append pre ((o, l) ∷ post))),
        get_or-append pre (o, l) post no_block,
        add_word-eq off len w,
      )
      refl

pub overlaps-first :
    (post : List Block) (off len : ℕ)
    → off + len < 2 ^ 64
    → overlaps post 0 off len ≡ starts_below post (off + len)
unfolding overlaps
overlaps-first post off len w = ground (arith, test_right [] post off len w)

pub overlaps-after :
    (pre : List Block) (po pl : ℕ) (post : List Block) (off len : ℕ)
    → off + len < 2 ^ 64
    → po + pl < 2 ^ 64
    → overlaps (pre ++ (po, pl) ∷ post) (length (pre ++ (po, pl) ∷ [])) off len
      ≡ starts_below post (off + len) || ltb off (po + pl)
unfolding overlaps
overlaps-after pre po pl post off len w w' =
    let front : List Block = pre ++ (po, pl) ∷ [] in
    let joined : pre ++ (po, pl) ∷ post ≡ front ++ post =
      sym (append_assoc pre ((po, pl) ∷ []) post) in
    let size : length front ≡ length pre + 1 = length-append pre ((po, pl) ∷ []) in
    let back : length front - 1 ≡ length pre = omega arith in
    let positive : ltb 0 (length front) ≡ true = lt→ltb _ _ (omega arith) in
    rw
      (
        back,
        get_or-append pre (po, pl) post no_block,
        joined,
        test_right front post off len w,
        positive,
        add_word-eq po pl w',
      )
      refl

-- Every block of `before off bs` starts before `off`, and `behind off bs` starts at it or later.
abbrev StartsBefore : ℕ → List Block → Type 0
StartsBefore off [] = Unit
StartsBefore off ((o, l) ∷ bs) = (o < off) × StartsBefore off bs

before-StartsBefore : (off : ℕ) (bs : List Block) → StartsBefore off (before off bs)
before-StartsBefore off [] = tt
before-StartsBefore off ((o, l) ∷ bs) = elim (Bool-cases (ltb o off)) [
  | inl less ↦ rw less (ltb→lt _ _ less, before-StartsBefore off bs)
  | inr more ↦ rw more tt
]

StartsBefore-last :
    (off : ℕ) (pre : List Block) (po pl : ℕ) → StartsBefore off (pre ++ (po, pl) ∷ []) → po < off
StartsBefore-last off [] po pl h = h.0
StartsBefore-last off ((o, l) ∷ pre) po pl h = StartsBefore-last off pre po pl h.1

pub before-last-lt :
    (off : ℕ) (bs pre : List Block) (po pl : ℕ) → before off bs ≡ pre ++ (po, pl) ∷ [] → po < off
before-last-lt off bs pre po pl e =
    StartsBefore-last off pre po pl (subst (StartsBefore off) e (before-StartsBefore off bs))

abbrev pub StartsFrom : ℕ → List Block → Type 0
StartsFrom off [] = Unit
StartsFrom off ((o, l) ∷ bs) = off ≤ o

pub behind-StartsFrom : (off : ℕ) (bs : List Block) → StartsFrom off (behind off bs)
behind-StartsFrom off [] = tt
behind-StartsFrom off ((o, l) ∷ bs) = elim (Bool-cases (ltb o off)) [
  | inl less ↦ rw less (behind-StartsFrom off bs)
  | inr more ↦ rw more (not-ltb→le _ _ more)
]
