-- ===== src/Gpu/Parsed.antt =====
-- What is read from the output of `numactl --hardware`.
use Prim.Native.String.{String}
use mathlib.Core.Option.{none-ne-some, some-injective}
use mathlib.Core.List.{cons-ne-nil}
use vugva.Common.{
  ℕ, zero, suc, ◌+◌, ◌-◌, ◌*◌, ◌^◌, ◌≤◌, ◌<◌, ◌≡◌, refl, sym, ◌∙◌, subst, ◌⊎◌, inl, inr, Bool, true,
  false, ◌&&◌, Option, none, some, ltb, leb, if◌then◌else◌, List, [], ◌∷◌, ◌++◌, length, get_elem?,
  arith, Bool-cases, Option-cases, ltb→lt, not-ltb→le, ◌==◌,
}
use vugva.Gpu.Text.{
  digits_from, parse_digits, parse_unsigned, lines, chars, trim, starts_with, contains, after,
  split_whitespace,
}
use vugva.Gpu.Numa.{NumaTopology, parse_row, row_of, read_rows, max, from_numactl}

and-right : (a b : Bool) → (a && b) ≡ true → b ≡ true
and-right true b e = e
and-right false true e = refl
and-right false false e = e

-- A distance that is found is a 32-bit number.
digits_from-lt :
    (bound n : ℕ) (cs : List ℕ) (m : ℕ) → n < bound → digits_from bound n cs ≡ some m → m < bound
unfolding digits_from
digits_from-lt bound n [] m h e = omega (arith, h, some-injective n m e)
digits_from-lt bound n (c ∷ cs) m h e =
    elim (Bool-cases (leb 48 c && (leb c 57 && ltb (n * 10 + (c - 48)) bound))) [
      | inl t ↦
          digits_from-lt bound (n * 10 + (c - 48)) cs m
            (ltb→lt (n * 10 + (c - 48)) bound (and-right (leb c 57) _ (and-right (leb 48 c) _ t)))
            (rw t at e)
      | inr t ↦ absurd (none-ne-some m (rw t at e))
    ]

parse_digits-lt :
    (bound : ℕ) (cs : List ℕ) (m : ℕ) → 0 < bound → parse_digits bound cs ≡ some m → m < bound
unfolding parse_digits
parse_digits-lt bound [] m h e = absurd (none-ne-some m e)
parse_digits-lt bound (c ∷ cs) m h e = digits_from-lt bound 0 (c ∷ cs) m h e

parse_unsigned-lt :
    (bound : ℕ) (cs : List ℕ) (m : ℕ) → 0 < bound → parse_unsigned bound cs ≡ some m → m < bound
unfolding parse_unsigned
parse_unsigned-lt bound [] m h e = absurd (none-ne-some m e)
parse_unsigned-lt bound (c ∷ cs) m h e = elim (Bool-cases (c == 43)) [
  | inl p ↦ parse_digits-lt bound cs m h (rw p at e)
  | inr p ↦ parse_digits-lt bound (c ∷ cs) m h (rw p at e)
]

-- The numbers of a row, of which there are at most `n`.
abbrev pub AllWords : List ℕ → Type 0
AllWords [] = Unit {0}
AllWords (d ∷ ds) = (d < 2 ^ 32) × AllWords ds

parse_row-AllWords : (ss : List (List ℕ)) → AllWords (parse_row ss)
unfolding parse_row
parse_row-AllWords [] = tt
parse_row-AllWords (s ∷ ss) = elim (Option-cases (parse_unsigned (2 ^ 32) s)) [
  | inl e ↦ rw (parse_row, e) (parse_row-AllWords ss)
  | inr (n, e) ↦
      rw (parse_row, e) (parse_unsigned-lt (2 ^ 32) s n (omega arith) e, parse_row-AllWords ss)
]

row_of-AllWords : (line : List ℕ) → AllWords (row_of line)
unfolding row_of
row_of-AllWords line =
    found (starts_with (trim line) (chars "node") && contains (trim line) (chars "distances:"))
      (after 58 (trim line))
  where
    found :
        (b : Bool) (o : Option (List ℕ))
        → AllWords (
            if b
            then (elim o [ none ↦ [] | some rest ↦ parse_row (split_whitespace rest) ])
            else [])
    found false o = tt
    found true none = tt
    found true (some rest) = parse_row-AllWords (split_whitespace rest)

-- Rows that have a number each, at most `n`, all of 32 bits.
abbrev pub Rows : ℕ → List (List ℕ) → Type 0
Rows n [] = Unit {0}
Rows n (row ∷ rows) = (0 < length row) × (length row ≤ n) × AllWords row × Rows n rows

Rows-snoc :
    (n k : ℕ) (rows : List (List ℕ)) (row : List ℕ)
    → n ≤ k
    → Rows n rows
    → 0 < length row
    → length row ≤ k
    → AllWords row
    → Rows k (rows ++ row ∷ [])
Rows-snoc n k [] row h rs a b c = (a, b, c, tt)
Rows-snoc n k (r ∷ rows) row h (p, q, s, rs) a b c =
    (p, omega (arith, q), s, Rows-snoc n k rows row h rs a b c)

-- Some row has `n` numbers.
abbrev pub Longest : ℕ → List (List ℕ) → Type 0
Longest n rows = (i : ℕ) × (row : List ℕ) × (get_elem? rows i ≡ some row) × (length row ≡ n)

Longest-snoc_old :
    (n : ℕ) (rows : List (List ℕ)) (row : List ℕ) → Longest n rows → Longest n (rows ++ row ∷ [])
Longest-snoc_old n rows row (i, r, e, l) = (i, r, kept rows i e, l)
  where
    kept :
        (rs : List (List ℕ)) (j : ℕ)
        → get_elem? rs j ≡ some r
        → get_elem? (rs ++ row ∷ []) j ≡ some r
    kept [] j h = absurd (none-ne-some r h)
    kept (q ∷ rs) zero h = h
    kept (q ∷ rs) (suc j) h = kept rs j h

get_elem?-last :
    (rows : List (List ℕ)) (row : List ℕ) → get_elem? (rows ++ row ∷ []) (length rows) ≡ some row
get_elem?-last [] row = refl
get_elem?-last (r ∷ rows) row = get_elem?-last rows row

-- A topology whose rows have at most as many distances as there are nodes, one of them that many.
pub record Proper (t : NumaTopology) : Type 0 where
  pub rows : Rows t.node_count t.distances
  pub longest : Longest t.node_count t.distances

-- The loop's state: no rows yet, or a proper topology.
abbrev Read : NumaTopology → Type 0
Read t = ((t.distances ≡ []) × (t.node_count ≡ 0)) ⊎ Proper t

abbrev topology : List (List ℕ) → ℕ → NumaTopology
topology rows n = record { distances = rows; node_count = n }

Read-Rows : (t : NumaTopology) → Read t → Rows t.node_count t.distances
Read-Rows t (inl (e, f)) = subst (Rows t.node_count) (sym e) tt
Read-Rows t (inr p) = p.rows

next-Proper :
    (rows : List (List ℕ)) (count : ℕ) (row : List ℕ)
    → 0 < length row
    → AllWords row
    → Read (topology rows count)
    → Proper (topology (rows ++ row ∷ []) (max count (length row)))
next-Proper rows count row h words read = elim (Bool-cases (ltb count (length row))) [
  | inl longer ↦
      let lt : count < length row = ltb→lt count (length row) longer in
      rw longer (record {
        rows =
            Rows-snoc count (length row) rows row (omega (arith, lt))
              (Read-Rows (topology rows count) read) h (omega arith) words;
        longest = (length rows, row, get_elem?-last rows row, refl);
      })
  | inr shorter ↦
      let le : length row ≤ count = not-ltb→le count (length row) shorter in
      rw shorter (record {
        rows =
            Rows-snoc count count rows row (omega arith) (Read-Rows (topology rows count) read) h le
              words;
        longest = old read le;
      })
]
  where
    old : Read (topology rows count) → length row ≤ count → Longest count (rows ++ row ∷ [])
    old (inl (e, f)) le = absurd (omega (arith, f, h, le))
    old (inr p) le = Longest-snoc_old count rows row p.longest

read_rows-Read :
    (ls rows : List (List ℕ)) (count : ℕ)
    → Read (topology rows count)
    → Read (read_rows ls rows count)
unfolding read_rows
read_rows-Read [] rows count read = read
read_rows-Read (line ∷ ls) rows count read =
    step (row_of line) (row_of-AllWords line) (λ rs n. read_rows-Read ls rs n)
  where
    step :
        (row : List ℕ)
        → AllWords row
        → ((rs : List (List ℕ)) (n : ℕ) → Read (topology rs n) → Read (read_rows ls rs n))
        → Read (elim row [
          | [] ↦ read_rows ls rows count
          | n ∷ ns ↦ read_rows ls (rows ++ (n ∷ ns) ∷ []) (max count (length (n ∷ ns)))
        ])
    step [] words later = later rows count read
    step (n ∷ ns) words later =
        later _ _ (inr (next-Proper rows count (n ∷ ns) (omega arith) words read))

-- Whatever `numactl` prints, the topology read from it has rows of distances of 32 bits, none empty, and as many nodes
-- as its longest row has distances.
pub from_numactl-Proper : (stdout : String) → Proper (from_numactl stdout)
unfolding from_numactl
from_numactl-Proper stdout =
    settled (read_rows (lines (chars stdout)) [] 0)
      (read_rows-Read (lines (chars stdout)) [] 0 (inl (refl, refl)))
  where
    settled :
        (t : NumaTopology)
        → Read t
        → Proper (elim t.distances [
          | [] ↦ record { distances = (10 ∷ []) ∷ []; node_count = 1 }
          | _ ∷ _ ↦ t
        ])
    settled t read = from t.distances refl
      where
        from :
            (rows : List (List ℕ))
            → t.distances ≡ rows
            → Proper (elim rows [
              | [] ↦ record { distances = (10 ∷ []) ∷ []; node_count = 1 }
              | _ ∷ _ ↦ t
            ])
        from [] e = record {
          rows = (omega arith, omega arith, (omega arith, tt), tt);
          longest = (0, 10 ∷ [], refl, refl);
        }
        from (r ∷ rs) e = elim read [
          | inl (f, g) ↦ absurd (cons-ne-nil r rs (sym e ∙ f))
          | inr p ↦ p
        ]
