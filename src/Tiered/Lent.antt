-- ===== src/Tiered/Lent.antt =====
-- The host memory that the pools of all GPUs have lent together.
use vugva.Common.{
  ℕ, ◌+◌, ◌≤◌, ◌<◌, ◌≡◌, refl, ◌⊎◌, inl, inr, true, false, List, [], ◌∷◌, arith, Bool-cases,
}
use vugva.FreeList.{Block}
use vugva.Pool.{DramPool}
use vugva.Pool.Lends.{Grounded, lends, unit_of, covers, lends-range, Within, Outside}
use vugva.Pool.Returns.{Kept}

-- By how many pools address `x` is lent.
unfoldable pub lent : List DramPool → ℕ → ℕ
lent [] x = 0
lent (p ∷ ps) x = unit_of (lends p x) + lent ps x

pub lent-cons :
    (p : DramPool) (ps : List DramPool) (x : ℕ) → lent (p ∷ ps) x ≡ unit_of (lends p x) + lent ps x
unfolding lent
lent-cons p ps x = refl

abbrev pub AllGrounded : List DramPool → Type 0
AllGrounded [] = Unit {0}
AllGrounded (p ∷ ps) = Grounded p × AllGrounded ps

-- Two pools have no byte in common.
abbrev pub Disjoint : DramPool → DramPool → Type 0
Disjoint p q = (p.base_ptr + p.capacity ≤ q.base_ptr) ⊎ (q.base_ptr + q.capacity ≤ p.base_ptr)

abbrev pub AllDisjoint : DramPool → List DramPool → Type 0
AllDisjoint p [] = Unit {0}
AllDisjoint p (q ∷ qs) = Disjoint p q × AllDisjoint p qs

abbrev pub Apart : List DramPool → Type 0
Apart [] = Unit {0}
Apart (p ∷ ps) = AllDisjoint p ps × Apart ps

-- The block lies in the memory of one of the pools.
abbrev pub Housed : Block → List DramPool → Type 0
Housed b [] = ⊥
Housed b (p ∷ ps) = Within b p ⊎ Housed b ps

-- Pool by pool, sound and on the same memory.
abbrev pub AllKept : List DramPool → List DramPool → Type 0
AllKept [] [] = Unit {0}
AllKept (p ∷ ps) (q ∷ qs) = Kept p q × AllKept ps qs
AllKept [] (q ∷ qs) = ⊥
AllKept (p ∷ ps) [] = ⊥

pub AllKept_refl : (ps : List DramPool) → AllGrounded ps → AllKept ps ps
AllKept_refl [] g = tt
AllKept_refl (p ∷ ps) (g, gs) = (record { grounded = g; same = (refl, refl) }, AllKept_refl ps gs)

pub AllKept-AllGrounded : (ps qs : List DramPool) → AllKept ps qs → AllGrounded qs
AllKept-AllGrounded [] [] k = tt
AllKept-AllGrounded (p ∷ ps) (q ∷ qs) (k, ks) = (k.grounded, AllKept-AllGrounded ps qs ks)
AllKept-AllGrounded [] (q ∷ qs) k = absurd k
AllKept-AllGrounded (p ∷ ps) [] k = absurd k

pub AllKept-Housed : (b : Block) (ps qs : List DramPool) → AllKept ps qs → Housed b ps → Housed b qs
AllKept-Housed b [] [] k h = h
AllKept-Housed b (p ∷ ps) (q ∷ qs) (k, ks) (inl w) =
    inl (omega (arith, k.same, w.0), omega (arith, k.same, w.1))
AllKept-Housed b (p ∷ ps) (q ∷ qs) (k, ks) (inr h) = inr (AllKept-Housed b ps qs ks h)
AllKept-Housed b [] (q ∷ qs) k h = absurd k
AllKept-Housed b (p ∷ ps) [] k h = absurd k

Kept-Disjoint : (p q p' q' : DramPool) → Kept p p' → Kept q q' → Disjoint p q → Disjoint p' q'
Kept-Disjoint p q p' q' k l (inl d) = inl (omega (arith, k.same, l.same, d))
Kept-Disjoint p q p' q' k l (inr d) = inr (omega (arith, k.same, l.same, d))

Kept-AllDisjoint :
    (p p' : DramPool) (ps qs : List DramPool)
    → Kept p p'
    → AllKept ps qs
    → AllDisjoint p ps
    → AllDisjoint p' qs
Kept-AllDisjoint p p' [] [] k ks d = tt
Kept-AllDisjoint p p' (q ∷ ps) (q' ∷ qs) k (l, ks) (d, ds) =
    (Kept-Disjoint p q p' q' k l d, Kept-AllDisjoint p p' ps qs k ks ds)
Kept-AllDisjoint p p' [] (q ∷ qs) k ks d = absurd ks
Kept-AllDisjoint p p' (q ∷ ps) [] k ks d = absurd ks

pub AllKept-Apart : (ps qs : List DramPool) → AllKept ps qs → Apart ps → Apart qs
AllKept-Apart [] [] k a = tt
AllKept-Apart (p ∷ ps) (q ∷ qs) (k, ks) (d, a) =
    (Kept-AllDisjoint p q ps qs k ks d, AllKept-Apart ps qs ks a)
AllKept-Apart [] (q ∷ qs) k a = absurd k
AllKept-Apart (p ∷ ps) [] k a = absurd k

pub Within-Outside : (b : Block) (p q : DramPool) → Within b p → Disjoint p q → Outside b q
Within-Outside b p q w (inl d) = inr (inl (omega (arith, w.1, d)))
Within-Outside b p q w (inr d) = inr (inr (omega (arith, w.0, d)))

pub Housed-Outside :
    (b : Block) (p : DramPool) (ps : List DramPool) → Housed b ps → AllDisjoint p ps → Outside b p
Housed-Outside b p [] h d = absurd h
Housed-Outside b p (q ∷ ps) (inl w) (inl d, ds) = inr (inr (omega (arith, w.0, d)))
Housed-Outside b p (q ∷ ps) (inl w) (inr d, ds) = inr (inl (omega (arith, w.1, d)))
Housed-Outside b p (q ∷ ps) (inr h) (d, ds) = Housed-Outside b p ps h ds

in_common :
    (p q : DramPool) (x : ℕ)
    → Disjoint p q
    → p.base_ptr ≤ x
    → x < p.base_ptr + p.capacity
    → q.base_ptr ≤ x
    → x < q.base_ptr + q.capacity
    → ⊥
in_common p q x (inl d) a b c e = omega (arith, a, b, c, e, d)
in_common p q x (inr d) a b c e = omega (arith, a, b, c, e, d)

-- What lies in the memory of one pool is not lent by the others.
pub lent_elsewhere :
    (p : DramPool) (ps : List DramPool) (x : ℕ)
    → AllGrounded ps
    → AllDisjoint p ps
    → p.base_ptr ≤ x
    → x < p.base_ptr + p.capacity
    → lent ps x ≡ 0
unfolding lent
lent_elsewhere p [] x g d lo hi = refl
lent_elsewhere p (q ∷ ps) x (g, gs) (d, ds) lo hi = elim (Bool-cases (lends q x)) [
  | inl here ↦
      let range = lends-range q x g here in absurd (in_common p q x d lo hi range.0 range.1)
  | inr other ↦ ground (arith, other, lent_elsewhere p ps x gs ds lo hi)
]

beyond :
    (b : Block) (p : DramPool) (x : ℕ)
    → Outside b p
    → covers b x ≡ true
    → p.base_ptr ≤ x
    → x < p.base_ptr + p.capacity
    → ⊥
beyond b p x (inl e) c lo hi = ground (arith, c, e)
beyond b p x (inr (inl e)) c lo hi = ground (arith, c, e, lo)
beyond b p x (inr (inr e)) c lo hi = ground (arith, c, e, hi)

pub Outside-lends :
    (b : Block) (p : DramPool) (x : ℕ)
    → Grounded p
    → Outside b p
    → covers b x ≡ true
    → lends p x ≡ false
Outside-lends b p x g out c = elim (Bool-cases (lends p x)) [
  | inl here ↦ let range = lends-range p x g here in absurd (beyond b p x out c range.0 range.1)
  | inr other ↦ other
]
