-- ===== src/FreeList/Carve.antt =====
-- What a reused range leaves of the free list.
use vugva.Common.{
  ℕ, suc, ◌+◌, ◌-◌, ◌%◌, ◌≤◌, ◌<◌, ◌^◌, ◌≡◌, sym, ap, ap₂, ◌∙◌, inl, inr, true, not, ◌&&◌, none,
  some, List, ◌∷◌, ◌++◌, arith, ◌==◌, if◌then◌else◌, length, get_or, Bool-cases, Option-cases,
  split_at, get_or-append, set-append, remove_at-append, add_word-eq, sub_word-eq, subst, ==→eq,
  not-==→ne,
}
use vugva.FreeList.{Block, no_block, best_fit, carve_at, carve}
use vugva.FreeList.BestFit.{len_at, IsBest, best_fit-IsBest}
use vugva.FreeList.Sorted.{
  Blocks, next_start, in_block, is_free, total, Blocks-append, Blocks-append_left,
  Blocks-append_right, Blocks-lower, is_free-append, is_free-cons, total-append, is_free-below,
  is_free-above, Blocks-cut,
}

-- What is left of `pre ++ (off, len) ∷ post` after `n` bytes from its middle block.
abbrev pub remains : List Block → ℕ → ℕ → List Block → ℕ → List Block
remains pre off len post n = if len == n then pre ++ post else pre ++ (off + n, len - n) ∷ post

pub record Carved (bs : List Block) (n off : ℕ) (bs' : List Block) : Type 0 where
  pub pre : List Block
  pub post : List Block
  pub len : ℕ
  pub split : bs ≡ pre ++ (off, len) ∷ post
  pub fits : n ≤ len
  pub left : bs' ≡ remains pre off len post n
  pub tightest : (j : ℕ) → j < length bs → n ≤ len_at bs j → len ≤ len_at bs j

carve_at-append :
    (pre : List Block) (off len : ℕ) (post : List Block) (n : ℕ)
    → off + len < 2 ^ 64
    → n ≤ len
    → carve_at (pre ++ (off, len) ∷ post) (length pre) n ≡ remains pre off len post n
unfolding carve_at
carve_at-append pre off len post n w h =
    rw (get_or-append pre (off, len) post no_block) (elim (Bool-cases (len == n)) [
      | inl exact ↦ rw exact (remove_at-append pre (off, len) post)
      | inr more ↦ rw more (
          set-append pre (off, len) post _
          ∙ ap₂ (λ a b. pre ++ (a, b) ∷ post) (add_word-eq off n (omega arith))
              (sub_word-eq len n h (omega arith)))
    ])

-- Nothing is carved only if every block is too small.
pub carve-none :
    (bs : List Block) (n : ℕ) → carve bs n ≡ none → (j : ℕ) → j < length bs → len_at bs j < n
unfolding carve
carve-none bs n h = elim (Option-cases (best_fit bs n)) [
  | inl e ↦ subst (IsBest bs n (length bs)) e (best_fit-IsBest bs n)
  | inr (i, e) ↦ let bad : ⊥ = ground arith in absurd bad
]

carve-some :
    (bs : List Block) (n off : ℕ) (bs' : List Block)
    → carve bs n ≡ some (off, bs')
    → (i : ℕ) × IsBest bs n (length bs) (some i)
      × ((get_or bs i no_block).0 ≡ off)
      × (carve_at bs i n ≡ bs')
unfolding carve
carve-some bs n off bs' h = elim (Option-cases (best_fit bs n)) [
  | inl e ↦ cc
  | inr (i, e) ↦
      (i, subst (IsBest bs n (length bs)) e (best_fit-IsBest bs n), ground arith, ground arith)
]

get_or-at :
    (bs pre : List Block) (b : Block) (post : List Block) (i : ℕ)
    → bs ≡ pre ++ b ∷ post
    → length pre ≡ i
    → get_or bs i no_block ≡ b
get_or-at bs pre b post i e l = rw (e, ← l) (get_or-append pre b post no_block)

-- What the reuse of a freed range does to a list within the address space.
pub carve-Carved :
    (lo : ℕ) (bs : List Block) (hi n off : ℕ) (bs' : List Block)
    → hi < 2 ^ 64
    → Blocks lo bs hi
    → carve bs n ≡ some (off, bs')
    → Carved bs n off bs'
carve-Carved lo bs hi n off bs' w v h =
    let (i, best, eoff, eat) = carve-some bs n off bs' h in
    let (pre, b, post, e, l) = split_at bs i best.0 in
    let here : get_or bs i no_block ≡ b = get_or-at bs pre b post i e l in
    let start : b.0 ≡ off = ap (λ (c : Block). c.0) (sym here) ∙ eoff in
    let size : len_at bs i ≡ b.1 = ap (λ (c : Block). c.1) here in
    let split : bs ≡ pre ++ (off, b.1) ∷ post = e ∙ ap (λ t. pre ++ (t, b.1) ∷ post) start in
    let at : Blocks (next_start lo pre) ((off, b.1) ∷ post) hi =
      Blocks-append_right lo pre _ hi (rw split at v) in
    record {
      pre = pre;
      post = post;
      len = b.1;
      split = split;
      fits = omega (arith, best.1);
      left =
          sym eat
          ∙ ap₂ (λ xs k. carve_at xs k n) split (sym l)
          ∙ carve_at-append pre off b.1 post n (omega arith) (omega (arith, best.1));
      tightest = λ j lt fits. rw (← size) (best.2 j lt fits);
    }

-- The rest of the list is again a free list.
pub remains-Blocks :
    (lo : ℕ) (pre : List Block) (off len : ℕ) (post : List Block) (hi n : ℕ)
    → n ≤ len
    → n % 64 ≡ 0
    → Blocks lo (pre ++ (off, len) ∷ post) hi
    → Blocks lo (remains pre off len post n) hi
remains-Blocks lo pre off len post hi n h al v =
    let (a, b, c, d, e, p) = Blocks-append_right lo pre ((off, len) ∷ post) hi v in
    let front = Blocks-append_left lo pre ((off, len) ∷ post) hi v in
    elim (Bool-cases (len == n)) [
      | inl exact ↦ rw exact (
          Blocks-append lo pre post hi front
            (Blocks-lower (suc (off + len)) (next_start lo pre) post hi (omega arith) p))
      | inr more ↦ rw more (
          Blocks-append lo pre ((off + n, len - n) ∷ post) hi front (
            omega arith,
            omega (arith, not-==→ne len n more),
            omega arith,
            omega arith,
            omega arith,
            Blocks-lower (suc (off + len)) (suc (off + n + (len - n))) post hi (omega arith) p,
          ))
    ]

-- The addresses that were free are those still free and those handed out, and no address is both.
pub remains-is_free :
    (lo : ℕ) (pre : List Block) (off len : ℕ) (post : List Block) (hi n a : ℕ)
    → n ≤ len
    → Blocks lo (pre ++ (off, len) ∷ post) hi
    → is_free (remains pre off len post n) a
      ≡ is_free (pre ++ (off, len) ∷ post) a && not (in_block (off, n) a)
unfolding is_free
remains-is_free lo pre off len post hi n a h v =
    let (low, b, c, d, e, p) = Blocks-append_right lo pre ((off, len) ∷ post) hi v in
    let front = Blocks-cut lo pre hi (Blocks-append_left lo pre ((off, len) ∷ post) hi v) in
    elim (Bool-cases (len == n)) [
      | inl exact ↦ rw exact (
          ground (
            arith,
            ==→eq len n exact,
            is_free-append pre post a,
            is_free-append pre ((off, len) ∷ post) a,
            is_free-above lo pre (next_start lo pre) a front,
            is_free-below (suc (off + len)) post hi a p,
          ))
      | inr more ↦ rw more (
          ground (
            arith,
            is_free-append pre ((off + n, len - n) ∷ post) a,
            is_free-append pre ((off, len) ∷ post) a,
            is_free-above lo pre (next_start lo pre) a front,
            is_free-below (suc (off + len)) post hi a p,
          ))
    ]

pub remains-total :
    (pre : List Block) (off len : ℕ) (post : List Block) (n : ℕ)
    → n ≤ len
    → total (remains pre off len post n) + n ≡ total (pre ++ (off, len) ∷ post)
unfolding total
remains-total pre off len post n h = elim (Bool-cases (len == n)) [
  | inl exact ↦ rw exact (
      omega (arith, total-append pre post, total-append pre ((off, len) ∷ post), ==→eq len n exact))
  | inr more ↦ rw more (
      omega
        (arith, total-append pre ((off + n, len - n) ∷ post), total-append pre ((off, len) ∷ post)))
]

-- What the reuse does to the list that is left.
pub record Reused (lo : ℕ) (bs : List Block) (hi n off : ℕ) (bs' : List Block) : Type 0 where
  pub blocks : Blocks lo bs' hi
  pub aligned : off % 64 ≡ 0
  pub inside : off + n ≤ hi
  pub was_free : (a : ℕ) → in_block (off, n) a ≡ true → is_free bs a ≡ true
  pub taken : (a : ℕ) → is_free bs' a ≡ is_free bs a && not (in_block (off, n) a)
  pub counted : total bs' + n ≡ total bs

pub Carved-Reused :
    (lo : ℕ) (bs : List Block) (hi n off : ℕ) (bs' : List Block)
    → n % 64 ≡ 0
    → Blocks lo bs hi
    → Carved bs n off bs'
    → Reused lo bs hi n off bs'
Carved-Reused lo bs hi n off bs' al v c =
    let here : Blocks lo (c.pre ++ (off, c.len) ∷ c.post) hi = rw c.split at v in
    let (low, pos, high, al_off, al_len, rest) =
      Blocks-append_right lo c.pre ((off, c.len) ∷ c.post) hi here in
    record {
      blocks = rw c.left (remains-Blocks lo c.pre off c.len c.post hi n c.fits al here);
      aligned = al_off;
      inside = omega (arith, c.fits);
      was_free = λ a h. rw c.split (
          ground (
            arith,
            c.fits,
            is_free-append c.pre ((off, c.len) ∷ c.post) a,
            is_free-cons (off, c.len) c.post a,
          ));
      taken =
          λ a. rw (c.left, c.split) (remains-is_free lo c.pre off c.len c.post hi n a c.fits here);
      counted = rw (c.left, c.split) (remains-total c.pre off c.len c.post n c.fits);
    }
