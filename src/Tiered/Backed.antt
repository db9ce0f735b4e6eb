-- ===== src/Tiered/Backed.antt =====
-- Blocks of host memory that are lent, each to one holder.
use vugva.Common.{ℕ, ◌≤◌, inl, inr, Bool-cases, List, [], ◌∷◌, ◌++◌, arith}
use vugva.FreeList.{Block}
use vugva.Range.Live.{holders, holders-append, holders-cons}
use vugva.Pool.{DramPool}
use vugva.Pool.Lends.{lends, lends-range}
use vugva.Vmt.{DramChunk}
use vugva.Tiered.Allocate.{return_chunks}
use vugva.Tiered.Lent.{
  lent, AllGrounded, Apart, Housed, AllKept, AllKept-AllGrounded, AllKept-Apart, AllKept-Housed,
  lent_elsewhere,
}
use vugva.Tiered.Returning.{Fits, offered, offered_lent}

abbrev pub AllHoused : List DramPool → List Block → Type 0
AllHoused ps [] = Unit {0}
AllHoused ps (b ∷ bs) = Fits b × Housed b ps × AllHoused ps bs

pub AllHoused-append :
    (ps : List DramPool) (xs ys : List Block)
    → AllHoused ps xs
    → AllHoused ps ys
    → AllHoused ps (xs ++ ys)
AllHoused-append ps [] ys h k = k
AllHoused-append ps (x ∷ xs) ys (f, h, hs) k = (f, h, AllHoused-append ps xs ys hs k)

pub AllHoused-split :
    (ps : List DramPool) (xs ys : List Block)
    → AllHoused ps (xs ++ ys)
    → AllHoused ps xs × AllHoused ps ys
AllHoused-split ps [] ys h = (tt, h)
AllHoused-split ps (x ∷ xs) ys (f, h, hs) =
    let (a, b) = AllHoused-split ps xs ys hs in ((f, h, a), b)

pub AllKept-AllHoused :
    (ps qs : List DramPool) (bs : List Block) → AllKept ps qs → AllHoused ps bs → AllHoused qs bs
AllKept-AllHoused ps qs [] k h = tt
AllKept-AllHoused ps qs (b ∷ bs) k (f, h, hs) =
    (f, AllKept-Housed b ps qs k h, AllKept-AllHoused ps qs bs k hs)

-- The pools are sound and apart, every block lies in the memory of one of them, and no address is in more blocks
-- than pools have lent it.
pub record Backed (ps : List DramPool) (bs : List Block) : Type 0 where
  pub grounded : AllGrounded ps
  pub apart : Apart ps
  pub housed : AllHoused ps bs
  pub exclusive : (x : ℕ) → holders bs x ≤ lent ps x

-- No address is lent by two pools.
pub lent-le_one : (ps : List DramPool) (x : ℕ) → AllGrounded ps → Apart ps → lent ps x ≤ 1
unfolding lent
lent-le_one [] x g a = omega arith
lent-le_one (p ∷ ps) x (g, gs) (d, a) = elim (Bool-cases (lends p x)) [
  | inl here ↦
      let range = lends-range p x g here in
      ground (arith, here, lent_elsewhere p ps x gs d range.0 range.1)
  | inr other ↦ ground (arith, other, lent-le_one ps x gs a)
]

-- Fewer blocks are backed too.
pub Backed-without : (ps : List DramPool) (xs ys : List Block) → Backed ps (xs ++ ys) → Backed ps ys
Backed-without ps xs ys b = record {
  grounded = b.grounded;
  apart = b.apart;
  housed = (AllHoused-split ps xs ys b.housed).1;
  exclusive = λ x. omega (arith, b.exclusive x, holders-append xs ys x);
}

-- The order of the blocks does not matter.
pub Backed-front :
    (ps : List DramPool) (xs bs ys : List Block)
    → Backed ps (xs ++ (bs ++ ys))
    → Backed ps (bs ++ (xs ++ ys))
Backed-front ps xs bs ys b =
    let (hx, hr) = AllHoused-split ps xs (bs ++ ys) b.housed in
    let (hb, hy) = AllHoused-split ps bs ys hr in
    record {
      grounded = b.grounded;
      apart = b.apart;
      housed = AllHoused-append ps bs (xs ++ ys) hb (AllHoused-append ps xs ys hx hy);
      exclusive = λ x. omega (
        arith,
        b.exclusive x,
        holders-append xs (bs ++ ys) x,
        holders-append bs ys x,
        holders-append bs (xs ++ ys) x,
        holders-append xs ys x,
      );
    }

Backed-returned :
    (ps : List DramPool) (b : Block) (bs : List Block)
    → Backed ps (b ∷ bs)
    → Backed (offered b ps) bs
Backed-returned ps b bs k =
    let (kept, same) =
      offered_lent b ps k.housed.0 k.grounded k.apart k.housed.1
        (λ x c. ground (arith, c, k.exclusive x, holders-cons b.0 b.1 bs x)) in
    record {
      grounded = AllKept-AllGrounded ps (offered b ps) kept;
      apart = AllKept-Apart ps (offered b ps) kept k.apart;
      housed = AllKept-AllHoused ps (offered b ps) bs kept k.housed.2;
      exclusive = λ x. ground (arith, same x, k.exclusive x, holders-cons b.0 b.1 bs x);
    }

-- The blocks of a page.
abbrev pub blocks_of : List DramChunk → List Block
blocks_of [] = []
blocks_of (c ∷ cs) = (c.host_ptr, c.size_bytes) ∷ blocks_of cs

-- The chunks of a page go back to the pools.
pub return_chunks-Backed :
    (ps : List DramPool) (cs : List DramChunk) (bs : List Block)
    → Backed ps (blocks_of cs ++ bs)
    → Backed (return_chunks cs ps) bs
unfolding return_chunks
return_chunks-Backed ps [] bs b = b
return_chunks-Backed ps (c ∷ cs) bs b =
    return_chunks-Backed (offered (c.host_ptr, c.size_bytes) ps) cs bs
      (Backed-returned ps (c.host_ptr, c.size_bytes) (blocks_of cs ++ bs) b)
