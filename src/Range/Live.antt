-- ===== src/Range/Live.antt =====
-- A client of the allocator: the ranges that it holds, over any sequence of calls.
use vugva.Common.{
  ℕ, ◌+◌, ◌%◌, ◌≤◌, ◌<◌, ◌^◌, ◌≡◌, refl, sym, ap, ◌∙◌, true, List, [], ◌∷◌, ◌++◌, arith,
  if◌then◌else◌, subst,
}
use vugva.Error.{ok, err, VugvaError}
use vugva.FreeList.{Block, align}
use vugva.FreeList.Sorted.{in_block}
use vugva.FreeList.Slot.{owned}
use vugva.Range.{RangeAllocator, region, new, allocate, free}
use vugva.Range.Allocate.{IsSound, HandedOut, Outcome, allocate-Outcome}
use vugva.Range.Free.{free-GivenBack}

-- A live range is its offset and the size that was asked for.
pub record Session : Type 0 where
  pub heap : RangeAllocator
  pub live : List Block

-- A client asks for any size up to half the address space, and frees what it holds, once.
pub data Step (s : Session) : Session → Type 0 where
  granted :
      (bytes off : ℕ) (r : RangeAllocator)
      → bytes ≤ 2 ^ 63
      → allocate s.heap bytes ≡ (ok off, r)
      → Step s (record { heap = r; live = (off, bytes) ∷ s.live })
  refused :
      (bytes : ℕ) (e : VugvaError) (r : RangeAllocator)
      → bytes ≤ 2 ^ 63
      → allocate s.heap bytes ≡ (err e, r)
      → Step s (record { heap = r; live = s.live })
  returned :
      (xs ys : List Block) (off bytes : ℕ)
      → s.live ≡ xs ++ (off, bytes) ∷ ys
      → Step s (record { heap = free s.heap off bytes; live = xs ++ ys })

pub data Reach (s : Session) : Session → Type 0 where
  here : Reach s s
  next : {t u : Session} → Reach s t → Step t u → Reach s u

abbrev pub start : ℕ → Session
start capacity = record { heap = new capacity; live = [] }

-- How many live ranges cover address `a`.
unfoldable pub holders : List Block → ℕ → ℕ
holders [] a = 0
holders ((off, bytes) ∷ live) a = (if in_block (off, align bytes) a then 1 else 0) + holders live a

abbrev WellPlaced : List Block → Type 0
WellPlaced [] = Unit
WellPlaced ((off, bytes) ∷ live) =
    (off % 64 ≡ 0) × (bytes ≤ 2 ^ 63) × (off + align bytes < 2 ^ 64) × WellPlaced live

pub record IsSafe (s : Session) : Type 0 where
  pub sound : IsSound s.heap
  pub exclusive : (a : ℕ) → holders s.live a ≡ (if owned (region s.heap) a then 1 else 0)
  placed : WellPlaced s.live

pub holders-append :
    (xs ys : List Block) (a : ℕ) → holders (xs ++ ys) a ≡ holders xs a + holders ys a
unfolding holders
holders-append [] ys a = omega arith
holders-append (x ∷ xs) ys a = omega (arith, holders-append xs ys a)

pub holders-cons :
    (off bytes : ℕ) (ys : List Block) (a : ℕ)
    → holders ((off, bytes) ∷ ys) a
      ≡ (if in_block (off, align bytes) a then 1 else 0) + holders ys a
unfolding holders
holders-cons off bytes ys a = refl

WellPlaced-split :
    (xs : List Block) (off bytes : ℕ) (ys : List Block)
    → WellPlaced (xs ++ (off, bytes) ∷ ys)
    → WellPlaced (xs ++ ys) × (off % 64 ≡ 0) × (bytes ≤ 2 ^ 63) × (off + align bytes < 2 ^ 64)
WellPlaced-split [] off bytes ys (a, b, c, p) = (p, a, b, c)
WellPlaced-split (x ∷ xs) off bytes ys (a, b, c, p) =
    let (q, d, e, f) = WellPlaced-split xs off bytes ys p in ((a, b, c, q), d, e, f)

holders_pos :
    (r : RangeAllocator) (xs ys : List Block) (off bytes a : ℕ)
    → in_block (off, align bytes) a ≡ true
    → holders xs a + holders ((off, bytes) ∷ ys) a ≡ (if owned (region r) a then 1 else 0)
    → owned (region r) a ≡ true
holders_pos r xs ys off bytes a h e = ground (arith, holders-cons off bytes ys a)

Step-IsSafe : {s t : Session} → Step s t → IsSafe s → IsSafe t
Step-IsSafe {s} (granted bytes off r small h) safe =
    let o : HandedOut s.heap (align bytes) off r =
      subst (Outcome s.heap (align bytes)) h (allocate-Outcome s.heap bytes safe.sound small) in
    record {
      sound = o.sound;
      exclusive = λ a.
          ground (arith, holders-cons off bytes s.live a, safe.exclusive a, o.owns a, o.fresh a);
      placed = (o.aligned, small, omega (arith, o.inside, o.sound), safe.placed);
    }
Step-IsSafe {s} (refused bytes e r small h) safe =
    let o =
      subst (Outcome s.heap (align bytes)) h (allocate-Outcome s.heap bytes safe.sound small) in
    subst (λ x. IsSafe (record { heap = x; live = s.live })) (sym o.0) safe
Step-IsSafe {s} (returned xs ys off bytes e) safe =
    let (p, al, small, w) = WellPlaced-split xs off bytes ys (rw e at safe.placed) in
    let g = free-GivenBack s.heap off bytes safe.sound small al w in
    let count = λ (a : ℕ). ap (λ l. holders l a) e ∙ holders-append xs ((off, bytes) ∷ ys) a in
    let held = λ (a : ℕ) (h : in_block (off, align bytes) a ≡ true).
      holders_pos s.heap xs ys off bytes a h (sym (count a) ∙ safe.exclusive a) in
    record {
      sound = g.sound;
      exclusive = λ a. ground (
        arith,
        g.freed held a,
        count a,
        safe.exclusive a,
        holders-append xs ys a,
        holders-cons off bytes ys a,
      );
      placed = p;
    }

pub start-IsSafe : (capacity : ℕ) → capacity < 2 ^ 63 → IsSafe (start capacity)
unfolding new owned holders
start-IsSafe capacity small = record {
  sound = record {
    region_valid = record { bounded = omega arith; mark = refl; blocks = tt };
    within = omega arith;
    small = small;
  };
  exclusive = λ a. ground arith;
  placed = tt;
}

-- In every session that a client can reach from a new allocator, the allocator is sound, and an
-- address is handed out exactly when one live range covers it, and never two.
pub Reach-IsSafe :
    (capacity : ℕ) {s : Session} → capacity < 2 ^ 63 → Reach (start capacity) s → IsSafe s
Reach-IsSafe capacity small here = start-IsSafe capacity small
Reach-IsSafe capacity small (next r st) = Step-IsSafe st (Reach-IsSafe capacity small r)
