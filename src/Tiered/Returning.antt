-- ===== src/Tiered/Returning.antt =====
-- A block of host memory that is offered to every pool, as `TieredPool::deallocate` does.
use vugva.Common.{ℕ, ◌+◌, ◌%◌, ◌≤◌, ◌<◌, ◌^◌, ◌≡◌, refl, inl, inr, true, List, [], ◌∷◌, map, arith}
use vugva.FreeList.{Block}
use vugva.Pool.{DramPool, free}
use vugva.Pool.Lends.{lends, unit_of, covers, Within}
use vugva.Pool.Returns.{free_within, free-Outside}
use vugva.Tiered.Lent.{
  lent, lent-cons, AllGrounded, AllDisjoint, Apart, Housed, AllKept, Within-Outside, Housed-Outside,
  lent_elsewhere, Outside-lends,
}

abbrev pub offered : Block → List DramPool → List DramPool
offered (ptr, bytes) ps = map (λ p. free p ptr bytes) ps

-- A block that `free` can take: aligned, and of a size that an allocation can have.
abbrev pub Fits : Block → Type 0
Fits (ptr, bytes) = (ptr % 64 ≡ 0) × (bytes ≤ 2 ^ 63)

elsewhere-offered :
    (b : Block) (p : DramPool) (ps : List DramPool)
    → Fits b
    → AllGrounded ps
    → Within b p
    → AllDisjoint p ps
    → AllKept ps (offered b ps) × ((x : ℕ) → lent (offered b ps) x ≡ lent ps x)
elsewhere-offered b p [] f g w d = (tt, λ x. refl)
elsewhere-offered (ptr, bytes) p (q ∷ ps) (al, small) (g, gs) w (d, ds) =
    let one = free-Outside q ptr bytes g small al (Within-Outside (ptr, bytes) p q w d) in
    let (kept, same) = elsewhere-offered (ptr, bytes) p ps (al, small) gs w ds in
    (
      (one.0, kept),
      λ x. ground (
        arith,
        lent-cons q ps x,
        lent-cons (free q ptr bytes) (offered (ptr, bytes) ps) x,
        one.1 x,
        same x,
      ),
    )

pub held_within :
    (b : Block) (p : DramPool) (ps : List DramPool) (x : ℕ)
    → AllGrounded ps
    → AllDisjoint p ps
    → Within b p
    → covers b x ≡ true
    → 1 ≤ lent (p ∷ ps) x
    → lends p x ≡ true
held_within b p ps x gs ds w c h =
    let lo : p.base_ptr ≤ x = ground (arith, c, w.0) in
    let hi : x < p.base_ptr + p.capacity = ground (arith, c, w.1) in
    ground (arith, lent-cons p ps x, lent_elsewhere p ps x gs ds lo hi, h)

-- A block that is lent whole is taken back by its pool, and the others ignore it.
pub offered_lent :
    (b : Block) (ps : List DramPool)
    → Fits b
    → AllGrounded ps
    → Apart ps
    → Housed b ps
    → ((x : ℕ) → covers b x ≡ true → 1 ≤ lent ps x)
    → AllKept ps (offered b ps)
      × ((x : ℕ) → lent (offered b ps) x + unit_of (covers b x) ≡ lent ps x)
offered_lent b [] f g a h held = absurd h
offered_lent (ptr, bytes) (p ∷ ps) (al, small) (g, gs) (d, a) (inl w) held =
    let one =
      free_within p ptr bytes g small al w
        (λ x c. held_within (ptr, bytes) p ps x gs d w c (held x c)) in
    let (kept, same) = elsewhere-offered (ptr, bytes) p ps (al, small) gs w d in
    (
      (one.0, kept),
      λ x. ground (
        arith,
        lent-cons p ps x,
        lent-cons (free p ptr bytes) (offered (ptr, bytes) ps) x,
        one.1 x,
        same x,
      ),
    )
offered_lent (ptr, bytes) (p ∷ ps) (al, small) (g, gs) (d, a) (inr h) held =
    let out = Housed-Outside (ptr, bytes) p ps h d in
    let one = free-Outside p ptr bytes g small al out in
    let (kept, same) =
      offered_lent (ptr, bytes) ps (al, small) gs a h
        (λ x c.
          ground (arith, held x c, lent-cons p ps x, Outside-lends (ptr, bytes) p x g out c)) in
    (
      (one.0, kept),
      λ x. ground (
        arith,
        lent-cons p ps x,
        lent-cons (free p ptr bytes) (offered (ptr, bytes) ps) x,
        one.1 x,
        same x,
      ),
    )
