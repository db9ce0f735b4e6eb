-- ===== src/FreeList/BestFit.antt =====
-- The best-fit loop finds a block exactly when one is large enough, and then a smallest such block.
use vugva.Common.{
  ℕ, suc, ◌+◌, ◌≤◌, ◌<◌, ◌≡◌, ap, ◌∙◌, ◌⊎◌, inl, inr, Bool-cases, ltb→lt, not-ltb→le, leb→le,
  not-leb→lt, ◌&&◌, Option, none, some, List, [], ◌∷◌, arith, ltb, leb, if◌then◌else◌, length,
  get_or,
}
use vugva.FreeList.{Block, no_block, improves, best_fit_from, best_fit}

abbrev pub len_at : List Block → ℕ → ℕ
len_at bs i = (get_or bs i no_block).1

-- What `best` says of the first `i` blocks.
abbrev pub IsBest : List Block → ℕ → ℕ → Option ℕ → Type 0
IsBest all n i none = (j : ℕ) → j < i → len_at all j < n
IsBest all n i (some b) =
    (b < i)
    × (n ≤ len_at all b)
    × ((j : ℕ) → j < i → n ≤ len_at all j → len_at all b ≤ len_at all j)

lt_succ-cases : (j i : ℕ) → j < i + 1 → (j < i) ⊎ (j ≡ i)
lt_succ-cases j i h = omega arith

-- The block at `i` is too small, or no smaller than the best one.
keep_none :
    (all : List Block) (n i : ℕ)
    → IsBest all n i none
    → len_at all i < n
    → IsBest all n (i + 1) none
keep_none all n i h small j lt = elim (lt_succ-cases j i lt) [
  | inl before ↦ h j before
  | inr here ↦ rw here small
]

keep_some :
    (all : List Block) (n i b : ℕ)
    → IsBest all n i (some b)
    → (n ≤ len_at all i → len_at all b ≤ len_at all i)
    → IsBest all n (i + 1) (some b)
keep_some all n i b (p, q, h) k = (
  omega arith,
  q,
  λ j lt fits. elim (lt_succ-cases j i lt) [
    | inl before ↦ h j before fits
    | inr here ↦ rw here (k (rw here at fits))
  ],
)

-- The block at `i` is better than all before it.
take_new :
    (all : List Block) (n i : ℕ)
    → n ≤ len_at all i
    → ((j : ℕ) → j < i → n ≤ len_at all j → len_at all i ≤ len_at all j)
    → IsBest all n (i + 1) (some i)
take_new all n i fits h = (
  omega arith,
  fits,
  λ j lt large. elim (lt_succ-cases j i lt) [
    | inl before ↦ h j before large
    | inr here ↦ rw here (omega arith)
  ],
)

-- One round of the loop.
step-IsBest :
    (all : List Block) (n i : ℕ) (best : Option ℕ)
    → IsBest all n i best
    → IsBest all n
        (i + 1)
        (if leb n (len_at all i) && improves all (len_at all i) best then some i else best)
step-IsBest all n i none h = elim (Bool-cases (leb n (len_at all i))) [
  | inl fits ↦
      rw fits (take_new all n i (leb→le _ _ fits) (λ j lt large. absurd (omega (arith, h j lt))))
  | inr small ↦ rw small (keep_none all n i h (not-leb→lt _ _ small))
]
step-IsBest all n i (some b) h = elim (Bool-cases (leb n (len_at all i))) [
  | inl fits ↦ elim (Bool-cases (ltb (len_at all i) (len_at all b))) [
    | inl less ↦
        rw (fits, less)
          (take_new all n i (leb→le _ _ fits)
            (λ j lt large. omega (arith, ltb→lt _ _ less, h.2 j lt large)))
    | inr more ↦ rw (fits, more) (keep_some all n i b h (λ _. not-ltb→le _ _ more))
  ]
  | inr small ↦
      rw small (keep_some all n i b h (λ large. absurd (omega (arith, not-leb→lt _ _ small))))
]

best_fit_from-IsBest :
    (all : List Block) (n : ℕ) (rest : List Block) (i m : ℕ) (best : Option ℕ)
    → i + length rest ≡ m
    → ((k : ℕ) → get_or rest k no_block ≡ get_or all (i + k) no_block)
    → IsBest all n i best
    → IsBest all n m (best_fit_from all n rest i best)
unfolding best_fit_from
best_fit_from-IsBest all n [] i m best e same h = let e' : i ≡ m = omega arith in rw (← e') h
best_fit_from-IsBest all n ((o, l) ∷ rest) i m best e same h =
    best_fit_from-IsBest all n rest (i + 1) m
      (if leb n l && improves all l best then some i else best) (omega arith)
      (λ k. same (suc k) ∙ ap (λ t. get_or all t no_block) (omega arith))
      (rw here (step-IsBest all n i best h))
  where
    here : l ≡ len_at all i
    here = ap (λ (b : Block). b.1) (same 0 ∙ ap (λ t. get_or all t no_block) (omega arith))

-- The loop answers no index exactly when every block is shorter than the request, and else the index
-- of a block that is large enough and no longer than any other that is.
pub best_fit-IsBest : (bs : List Block) (n : ℕ) → IsBest bs n (length bs) (best_fit bs n)
unfolding best_fit
best_fit-IsBest bs n =
    best_fit_from-IsBest bs n bs 0 (length bs) none (omega arith)
      (λ k. ap (λ t. get_or bs t no_block) (omega arith)) (λ j lt. absurd (omega arith))
