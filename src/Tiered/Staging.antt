-- ===== src/Tiered/Staging.antt =====
-- The staging memory of a cold page: taken from one pool, and given back to it.
use mathlib.Core.Option.{none-ne-some, some-injective}
use vugva.Common.{
  ℕ, zero, suc, ◌+◌, ◌/◌, ◌≤◌, ◌^◌, ◌≡◌, refl, ap, ◌∙◌, inl, inr, some, List, [], ◌∷◌, arith, subst,
  sym, if◌then◌else◌, get_elem?, set, leb, true, Bool-cases,
}
use vugva.Error.{Result, ok, err}
use vugva.FreeList.{Block}
use vugva.Range.Live.{holders-cons}
use vugva.Pool.{DramPool, allocate as pool_allocate, free as pool_free}
use vugva.Pool.Lends.{Grounded, lends, unit_of, covers, Within, Granted, Grant, allocate-Grant}
use vugva.Pool.Returns.{Kept, free_within}
use vugva.Tiered.Promote.{stage}
use vugva.Tiered.Lent.{
  lent, lent-cons, AllGrounded, Apart, Housed, AllKept, AllKept_refl, AllKept-AllGrounded,
  AllKept-Apart, Housed-Outside, Outside-lends,
}
use vugva.Tiered.Returning.{held_within}
use vugva.Tiered.Backed.{AllKept-AllHoused, Backed}

-- What the loop for staging memory leaves of its pool.
abbrev pub Lease : DramPool → ℕ → Result (ℕ × ℕ) × DramPool → Type 0
Lease p want (ok (ptr, len), q) = Granted p len ptr q × (len ≤ want)
Lease p want (err e, q) = q ≡ p

Lease-le :
    (p q : DramPool) (n want : ℕ) (r : Result (ℕ × ℕ) × DramPool)
    → q ≡ p
    → n ≤ want
    → Lease q n r
    → Lease p want r
Lease-le p q n want (ok (ptr, len), q') e h (g, le) =
    (subst (λ x. Granted x len ptr q') e g, omega (arith, h, le))
Lease-le p q n want (err x, q') e h l = l ∙ e

pub stage-Lease :
    (fuel : ℕ) (p : DramPool) (want : ℕ)
    → Grounded p
    → want ≤ 2 ^ 63
    → Lease p want (stage fuel p want)
unfolding stage
stage-Lease zero p want g small = from (pool_allocate p want) (allocate-Grant p want g small)
  where
    from :
        (r : Result ℕ × DramPool)
        → Grant p want r
        → Lease p want
            (elim r.0 as (λ _. Result (ℕ × ℕ)) [ ok ptr ↦ ok (ptr, want) | err e ↦ err e ], r.1)
    from (ok ptr, q) h = (h, omega arith)
    from (err e, q) h = h
stage-Lease (suc fuel) p want g small =
    from (pool_allocate p want) (allocate-Grant p want g small)
      (λ q h. stage-Lease fuel q (want / 2) (subst Grounded (sym h) g) (omega (arith, small)))
  where
    from :
        (r : Result ℕ × DramPool)
        → Grant p want r
        → ((q : DramPool) → q ≡ p → Lease q (want / 2) (stage fuel q (want / 2)))
        → Lease p want (elim r.0 as (λ _. Result (ℕ × ℕ) × DramPool) [
          | ok ptr ↦ (ok (ptr, want), r.1)
          | err e ↦ if leb want (2 ^ 20) then (err e, r.1) else stage fuel r.1 (want / 2)
        ])
    from (ok ptr, q) h later = (h, omega arith)
    from (err e, q) h later = elim (Bool-cases (leb want (2 ^ 20))) [
      | inl floor ↦ rw floor h
      | inr above ↦
          rw above
            (Lease-le p q (want / 2) want (stage fuel q (want / 2)) h (omega arith) (later q h))
    ]

-- One pool of the list in another state.
record Swapped (ps qs : List DramPool) (p q : DramPool) : Type 0 where
  kept : AllKept ps qs
  balance : (x : ℕ) → lent qs x + unit_of (lends p x) ≡ lent ps x + unit_of (lends q x)

set-Swapped :
    (ps : List DramPool) (i : ℕ) (p q : DramPool)
    → AllGrounded ps
    → get_elem? ps i ≡ some p
    → Kept p q
    → Swapped ps (set ps i q) p q
set-Swapped [] i p q g e k = absurd (none-ne-some p e)
set-Swapped (a ∷ ps) zero p q (g, gs) e k =
    let same : a ≡ p = some-injective a p e in
    record {
      kept = (subst (λ z. Kept z q) (sym same) k, AllKept_refl ps gs);
      balance = λ x.
          let eq : unit_of (lends a x) ≡ unit_of (lends p x) = ap (λ z. unit_of (lends z x)) same in
          omega (arith, eq, lent-cons a ps x, lent-cons q ps x);
    }
set-Swapped (a ∷ ps) (suc i) p q (g, gs) e k =
    let l = set-Swapped ps i p q gs e k in
    record {
      kept = (record { grounded = g; same = (refl, refl) }, l.kept);
      balance = λ x. omega (arith, l.balance x, lent-cons a ps x, lent-cons a (set ps i q) x);
    }

pub set_same :
    (ps : List DramPool) (i : ℕ) (p : DramPool) → get_elem? ps i ≡ some p → set ps i p ≡ ps
set_same [] i p e = refl
set_same (a ∷ ps) zero p e = ap (λ z. z ∷ ps) (sym (some-injective a p e))
set_same (a ∷ ps) (suc i) p e = ap (λ t. a ∷ t) (set_same ps i p e)

get-Housed :
    (b : Block) (ps : List DramPool) (i : ℕ) (p : DramPool)
    → get_elem? ps i ≡ some p
    → Within b p
    → Housed b ps
get-Housed b [] i p e w = absurd (none-ne-some p e)
get-Housed b (a ∷ ps) zero p e w = inl (subst (Within b) (sym (some-injective a p e)) w)
get-Housed b (a ∷ ps) (suc i) p e w = inr (get-Housed b ps i p e w)

pub get-set_self :
    (ps : List DramPool) (i : ℕ) (p q : DramPool)
    → get_elem? ps i ≡ some p
    → get_elem? (set ps i q) i ≡ some q
get-set_self [] i p q e = absurd (none-ne-some p e)
get-set_self (a ∷ ps) zero p q e = refl
get-set_self (a ∷ ps) (suc i) p q e = get-set_self ps i p q e

pub get-Grounded :
    (ps : List DramPool) (i : ℕ) (p : DramPool)
    → AllGrounded ps
    → get_elem? ps i ≡ some p
    → Grounded p
get-Grounded [] i p g e = absurd (none-ne-some p e)
get-Grounded (a ∷ ps) zero p (g, gs) e = subst Grounded (some-injective a p e) g
get-Grounded (a ∷ ps) (suc i) p (g, gs) e = get-Grounded ps i p gs e

-- Memory that a pool of the list grants is backed beside the rest.
pub leased-Backed :
    (ps : List DramPool) (bs : List Block) (i : ℕ) (p q : DramPool) (ptr len : ℕ)
    → Backed ps bs
    → get_elem? ps i ≡ some p
    → len ≤ 2 ^ 63
    → Granted p len ptr q
    → Backed (set ps i q) ((ptr, len) ∷ bs)
leased-Backed ps bs i p q ptr len b e small g =
    let k : Kept p q = record { grounded = g.grounded; same = g.same } in
    let l = set-Swapped ps i p q b.grounded e k in
    record {
      grounded = AllKept-AllGrounded ps (set ps i q) l.kept;
      apart = AllKept-Apart ps (set ps i q) l.kept b.apart;
      housed = (
        (g.aligned, small),
        get-Housed (ptr, len) (set ps i q) i q (get-set_self ps i p q e) g.within,
        AllKept-AllHoused ps (set ps i q) bs l.kept b.housed,
      );
      exclusive =
          λ x. omega (arith, b.exclusive x, l.balance x, g.lent x, holders-cons ptr len bs x);
    }

held_at :
    (b : Block) (ps : List DramPool) (i : ℕ) (p : DramPool) (x : ℕ)
    → AllGrounded ps
    → Apart ps
    → get_elem? ps i ≡ some p
    → Within b p
    → covers b x ≡ true
    → 1 ≤ lent ps x
    → lends p x ≡ true
held_at b [] i p x g a e w c h = absurd (none-ne-some p e)
held_at b (d ∷ ps) zero p x (g, gs) (a, as') e w c h =
    let same : d ≡ p = some-injective d p e in
    subst (λ z. lends z x ≡ true) same
      (held_within b d ps x gs a (subst (Within b) (sym same) w) c h)
held_at b (d ∷ ps) (suc i) p x (g, gs) (a, as') e w c h = held_at b ps i p x gs as' e w c (
    ground (
      arith,
      h,
      lent-cons d ps x,
      Outside-lends b d x g (Housed-Outside b d ps (get-Housed b ps i p e w) a) c,
    ))

-- Memory that goes back to the pool that it came from; the rest stays backed.
pub returned-Backed :
    (ps : List DramPool) (bs : List Block) (i : ℕ) (p : DramPool) (ptr len : ℕ)
    → Backed ps ((ptr, len) ∷ bs)
    → get_elem? ps i ≡ some p
    → Within (ptr, len) p
    → Backed (set ps i (pool_free p ptr len)) bs
returned-Backed ps bs i p ptr len b e w =
    let ((al, small), house, rest) = b.housed in
    let held = λ (x : ℕ) (c : covers (ptr, len) x ≡ true).
      held_at (ptr, len) ps i p x b.grounded b.apart e w c
        (ground (arith, b.exclusive x, holders-cons ptr len bs x, c)) in
    let (kept, taken) = free_within p ptr len (get-Grounded ps i p b.grounded e) small al w held in
    let q = pool_free p ptr len in
    let l = set-Swapped ps i p q b.grounded e kept in
    record {
      grounded = AllKept-AllGrounded ps (set ps i q) l.kept;
      apart = AllKept-Apart ps (set ps i q) l.kept b.apart;
      housed = AllKept-AllHoused ps (set ps i q) bs l.kept rest;
      exclusive =
          λ x. omega (arith, b.exclusive x, l.balance x, taken x, holders-cons ptr len bs x);
    }
