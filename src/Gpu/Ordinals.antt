-- ===== src/Gpu/Ordinals.antt =====
-- The map from ordinals to positions of `GpuCluster` of src/gpu.rs.
use mathlib.Core.Option.{none-ne-some, some-injective}
use vugva.Common.{
  ℕ, suc, ◌==◌, ◌≡◌, ◌≢◌, refl, sym, ap, ◌∙◌, inl, inr, Option, none, some, List, [], ◌∷◌, ◌++◌,
  if◌then◌else◌, get_elem?, length, length-append, arith, Bool-cases, ==→eq, ◌<◌, ◌≤◌, ◌⊎◌, zero,
  subst, append_assoc, append-nil, not-==→ne, ne→not-==,
}

-- `GpuCluster::index_of`.
unfoldable pub index_of : List (ℕ × ℕ) → ℕ → Option ℕ
index_of [] ordinal = none
index_of ((o, i) ∷ m) ordinal = if o == ordinal then some i else index_of m ordinal

-- `insert` of a hash map: a second entry replaces the first.
unfoldable pub put_index : List (ℕ × ℕ) → ℕ → ℕ → List (ℕ × ℕ)
put_index [] ordinal idx = (ordinal, idx) ∷ []
put_index ((o, i) ∷ m) ordinal idx =
    if o == ordinal then (ordinal, idx) ∷ m else (o, i) ∷ put_index m ordinal idx

-- `enumerate().map(|(i, &o)| (o, i)).collect()`, from position `i` on.
unfoldable pub collect_from : ℕ → List ℕ → List (ℕ × ℕ) → List (ℕ × ℕ)
unfolding put_index
collect_from i [] m = m
collect_from i (o ∷ os) m = collect_from (suc i) os (put_index m o i)

unfoldable pub ordinal_map : List ℕ → List (ℕ × ℕ)
unfolding collect_from
ordinal_map ordinals = collect_from 0 ordinals []

put_index-get :
    (m : List (ℕ × ℕ)) (o idx q : ℕ)
    → index_of (put_index m o idx) q ≡ (if o == q then some idx else index_of m q)
unfolding index_of put_index
put_index-get [] o idx q = refl
put_index-get ((p, i) ∷ m) o idx q = elim (Bool-cases (p == o)) [
  | inl same ↦ rw same (elim (Bool-cases (o == q)) [
    | inl here ↦ rw here refl
    | inr there ↦ rw (there, ap (◌== q) (==→eq p o same) ∙ there) refl
  ])
  | inr other ↦ rw other (elim (Bool-cases (p == q)) [
    | inl here ↦ rw (here, ne→not-== o q (λ e. not-==→ne p o other (==→eq p q here ∙ sym e))) refl
    | inr there ↦ rw there (put_index-get m o idx q)
  ])
]

-- The last position of an ordinal, if it has one.
abbrev pub IsLast : List ℕ → ℕ → Option ℕ → Type 0
IsLast os q (some i) = (get_elem? os i ≡ some q) × ((j : ℕ) → get_elem? os j ≡ some q → j ≤ i)
IsLast os q none = (j : ℕ) → get_elem? os j ≢ some q

-- An element of a list and one more is the one more, or an element of the list.
get_elem?-snoc :
    (os : List ℕ) (o q j : ℕ)
    → get_elem? (os ++ o ∷ []) j ≡ some q
    → ((j ≡ length os) × (o ≡ q)) ⊎ ((j < length os) × (get_elem? os j ≡ some q))
get_elem?-snoc [] o q zero e = inl (refl, some-injective o q e)
get_elem?-snoc [] o q (suc j) e = absurd (none-ne-some q e)
get_elem?-snoc (p ∷ os) o q zero e = inr (omega arith, e)
get_elem?-snoc (p ∷ os) o q (suc j) e = elim (get_elem?-snoc os o q j e) [
  | inl (l, h) ↦ inl (ap suc l, h)
  | inr (l, h) ↦ inr (omega (arith, l), h)
]

get_elem?-append_some :
    (os : List ℕ) (ps : List ℕ) (j q : ℕ)
    → get_elem? os j ≡ some q
    → get_elem? (os ++ ps) j ≡ some q
get_elem?-append_some [] ps j q e = absurd (none-ne-some q e)
get_elem?-append_some (o ∷ os) ps zero q e = e
get_elem?-append_some (o ∷ os) ps (suc j) q e = get_elem?-append_some os ps j q e

get_elem?-length : (os : List ℕ) (o : ℕ) → get_elem? (os ++ o ∷ []) (length os) ≡ some o
get_elem?-length [] o = refl
get_elem?-length (p ∷ os) o = get_elem?-length os o

-- One ordinal more.
next-IsLast :
    (os : List ℕ) (o q : ℕ) (r : Option ℕ)
    → IsLast os q r
    → IsLast (os ++ o ∷ []) q (if o == q then some (length os) else r)
next-IsLast os o q r last = elim (Bool-cases (o == q)) [
  | inl here ↦ rw here (
    get_elem?-length os o ∙ ap some (==→eq o q here),
    λ j e. at_most j (get_elem?-snoc os o q j e),
  )
  | inr there ↦ rw there (older r last (not-==→ne o q there))
]
  where
    at_most :
        (j : ℕ)
        → ((j ≡ length os) × (o ≡ q)) ⊎ ((j < length os) × (get_elem? os j ≡ some q))
        → j ≤ length os
    at_most j (inl (l, h)) = omega (arith, l)
    at_most j (inr (l, h)) = omega (arith, l)

    older : (s : Option ℕ) → IsLast os q s → o ≢ q → IsLast (os ++ o ∷ []) q s
    older (some i) (at, most) differ = (
      get_elem?-append_some os (o ∷ []) i q at,
      λ j e. elim (get_elem?-snoc os o q j e) [
        | inl (l, h) ↦ absurd (differ h)
        | inr (l, h) ↦ most j h
      ],
    )
    older none never differ =
        λ j e. elim (get_elem?-snoc os o q j e) [ inl (l, h) ↦ differ h | inr (l, h) ↦ never j h ]

collect-IsLast :
    (seen os : List ℕ) (m : List (ℕ × ℕ)) (q : ℕ)
    → IsLast seen q (index_of m q)
    → IsLast (seen ++ os) q (index_of (collect_from (length seen) os m) q)
unfolding collect_from
collect-IsLast seen [] m q last =
    subst (λ x. IsLast x q (index_of m q)) (sym (append-nil seen)) last
collect-IsLast seen (o ∷ os) m q last =
    subst
      (λ x.
        IsLast x q (index_of (collect_from (suc (length seen)) os (put_index m o (length seen))) q))
      (append_assoc seen (o ∷ []) os)
      (subst
        (λ n.
          IsLast ((seen ++ o ∷ []) ++ os) q
            (index_of (collect_from n os (put_index m o (length seen))) q))
        (length-append seen (o ∷ []) ∙ omega arith)
        (collect-IsLast (seen ++ o ∷ []) os (put_index m o (length seen)) q (
          subst (IsLast (seen ++ o ∷ []) q) (sym (put_index-get m o (length seen) q))
            (next-IsLast seen o q (index_of m q) last))))

-- The index of an ordinal is its last position among the ordinals of the cluster, and an ordinal without an index
-- is not among them.
pub index_of-IsLast :
    (ordinals : List ℕ) (ordinal : ℕ)
    → IsLast ordinals ordinal (index_of (ordinal_map ordinals) ordinal)
unfolding ordinal_map index_of
index_of-IsLast ordinals ordinal =
    collect-IsLast [] ordinals [] ordinal (λ j e. none-ne-some ordinal e)
