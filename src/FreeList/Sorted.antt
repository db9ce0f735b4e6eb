-- ===== src/FreeList/Sorted.antt =====
-- The invariant of a free list: sorted, coalesced, aligned to 64 bytes, and below the mark.
use vugva.Common.{
  ℕ, suc, ◌+◌, ◌%◌, ◌≤◌, ◌<◌, ◌^◌, ◌≡◌, refl, Bool, false, ◌&&◌, ◌||◌, List, [], ◌∷◌, ◌++◌, arith,
  ltb, leb,
}
use vugva.FreeList.{Block, align, free_bytes}

-- From address `lo` on, no two blocks touch, and the last ends before `hi`.
abbrev pub Blocks : ℕ → List Block → ℕ → Type 0
Blocks lo [] hi = Unit
Blocks lo ((o, l) ∷ bs) hi =
    (lo ≤ o) × (0 < l) × (o + l < hi) × (o % 64 ≡ 0) × (l % 64 ≡ 0) × Blocks (suc (o + l)) bs hi

-- Where the block after these may start.
abbrev pub next_start : ℕ → List Block → ℕ
next_start lo [] = lo
next_start lo ((o, l) ∷ bs) = next_start (suc (o + l)) bs

-- Whether address `a` is free.
abbrev pub in_block : Block → ℕ → Bool
in_block (o, l) a = leb o a && ltb a (o + l)

unfoldable pub is_free : List Block → ℕ → Bool
is_free [] a = false
is_free (b ∷ bs) a = in_block b a || is_free bs a

-- The plain sum of the lengths.
unfoldable pub total : List Block → ℕ
total [] = 0
total ((o, l) ∷ bs) = l + total bs

pub Blocks-append :
    (lo : ℕ) (xs ys : List Block) (hi : ℕ)
    → Blocks lo xs hi
    → Blocks (next_start lo xs) ys hi
    → Blocks lo (xs ++ ys) hi
Blocks-append lo [] ys hi p q = q
Blocks-append lo ((o, l) ∷ xs) ys hi (a, b, c, d, e, p) q =
    (a, b, c, d, e, Blocks-append (suc (o + l)) xs ys hi p q)

pub Blocks-append_left :
    (lo : ℕ) (xs ys : List Block) (hi : ℕ) → Blocks lo (xs ++ ys) hi → Blocks lo xs hi
Blocks-append_left lo [] ys hi p = tt
Blocks-append_left lo ((o, l) ∷ xs) ys hi (a, b, c, d, e, p) =
    (a, b, c, d, e, Blocks-append_left (suc (o + l)) xs ys hi p)

pub Blocks-append_right :
    (lo : ℕ) (xs ys : List Block) (hi : ℕ)
    → Blocks lo (xs ++ ys) hi
    → Blocks (next_start lo xs) ys hi
Blocks-append_right lo [] ys hi p = p
Blocks-append_right lo ((o, l) ∷ xs) ys hi (a, b, c, d, e, p) =
    Blocks-append_right (suc (o + l)) xs ys hi p

-- Moving the lower end down, or the upper end up, loses nothing.
pub Blocks-lower :
    (lo lo' : ℕ) (xs : List Block) (hi : ℕ) → lo' ≤ lo → Blocks lo xs hi → Blocks lo' xs hi
Blocks-lower lo lo' [] hi h p = tt
Blocks-lower lo lo' ((o, l) ∷ xs) hi h (a, b, c, d, e, p) = (omega arith, b, c, d, e, p)

pub Blocks-raise :
    (lo : ℕ) (xs : List Block) (hi hi' : ℕ) → hi ≤ hi' → Blocks lo xs hi → Blocks lo xs hi'
Blocks-raise lo [] hi hi' h p = tt
Blocks-raise lo ((o, l) ∷ xs) hi hi' h (a, b, c, d, e, p) =
    (a, b, omega arith, d, e, Blocks-raise (suc (o + l)) xs hi hi' h p)

pub next_start-append :
    (lo : ℕ) (xs : List Block) (o l : ℕ) → next_start lo (xs ++ (o, l) ∷ []) ≡ suc (o + l)
next_start-append lo [] o l = refl
next_start-append lo ((p, m) ∷ xs) o l = next_start-append (suc (p + m)) xs o l

pub le-next_start : (lo : ℕ) (xs : List Block) (hi : ℕ) → Blocks lo xs hi → lo ≤ next_start lo xs
le-next_start lo [] hi p = omega arith
le-next_start lo ((o, l) ∷ xs) hi (a, b, c, d, e, p) =
    omega (arith, le-next_start (suc (o + l)) xs hi p)

pub next_start-le :
    (lo : ℕ) (xs : List Block) (hi : ℕ) → lo ≤ hi → Blocks lo xs hi → next_start lo xs ≤ hi
next_start-le lo [] hi h p = h
next_start-le lo ((o, l) ∷ xs) hi h (a, b, c, d, e, p) = next_start-le (suc (o + l)) xs hi c p

-- The blocks before a point end below it: `hi` may come down to the next start.
pub Blocks-cut :
    (lo : ℕ) (xs : List Block) (hi : ℕ) → Blocks lo xs hi → Blocks lo xs (next_start lo xs)
Blocks-cut lo [] hi p = tt
Blocks-cut lo ((o, l) ∷ xs) hi (a, b, c, d, e, p) = (
  a,
  b,
  omega (arith, le-next_start (suc (o + l)) xs hi p),
  d,
  e,
  Blocks-cut (suc (o + l)) xs hi p,
)

pub is_free-cons :
    (b : Block) (bs : List Block) (a : ℕ) → is_free (b ∷ bs) a ≡ in_block b a || is_free bs a
unfolding is_free
is_free-cons b bs a = refl

pub is_free-append :
    (xs ys : List Block) (a : ℕ) → is_free (xs ++ ys) a ≡ is_free xs a || is_free ys a
unfolding is_free
is_free-append [] ys a = refl
is_free-append (x ∷ xs) ys a = ground (arith, is_free-append xs ys a)

-- Nothing is free below the lower end, nor from the byte before the upper end on.
pub is_free-below :
    (lo : ℕ) (xs : List Block) (hi a : ℕ) → Blocks lo xs hi → a < lo → is_free xs a ≡ false
unfolding is_free
is_free-below lo [] hi a p h = refl
is_free-below lo ((o, l) ∷ xs) hi a (p0, p1, p2, p3, p4, p) h =
    ground (arith, is_free-below (suc (o + l)) xs hi a p)

pub is_free-above :
    (lo : ℕ) (xs : List Block) (hi a : ℕ) → Blocks lo xs hi → hi ≤ suc a → is_free xs a ≡ false
unfolding is_free
is_free-above lo [] hi a p h = refl
is_free-above lo ((o, l) ∷ xs) hi a (p0, p1, p2, p3, p4, p) h =
    ground (arith, is_free-above (suc (o + l)) xs hi a p)

pub total-append : (xs ys : List Block) → total (xs ++ ys) ≡ total xs + total ys
unfolding total
total-append [] ys = omega arith
total-append ((o, l) ∷ xs) ys = omega (arith, total-append xs ys)

-- The blocks fit between the ends, so that their sum does not wrap.
pub total-le : (lo : ℕ) (xs : List Block) (hi : ℕ) → lo ≤ hi → Blocks lo xs hi → lo + total xs ≤ hi
unfolding total
total-le lo [] hi h p = omega arith
total-le lo ((o, l) ∷ xs) hi h (a, b, c, d, e, p) = omega (arith, total-le (suc (o + l)) xs hi c p)

pub free_bytes-eq-total :
    (lo : ℕ) (xs : List Block) (hi : ℕ)
    → lo ≤ hi
    → hi < 2 ^ 64
    → Blocks lo xs hi
    → free_bytes xs ≡ total xs
unfolding free_bytes total
free_bytes-eq-total lo [] hi h w p = refl
free_bytes-eq-total lo ((o, l) ∷ xs) hi h w (a, b, c, d, e, p) =
    omega (arith, free_bytes-eq-total (suc (o + l)) xs hi c w p, total-le (suc (o + l)) xs hi c p)

-- Sizes up to half the address space are rounded up to the next multiple of 64.
pub align_bounds :
    (n : ℕ)
    → n ≤ 2 ^ 63
    → (n ≤ align n) × (align n < n + 64) × (align n % 64 ≡ 0) × (align n ≤ 2 ^ 63)
unfolding align
align_bounds n h = omega arith
